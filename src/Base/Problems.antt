-- ===== src/Base/Problems.antt =====
-- What a validation reports. A problem is the format of its message with the arguments, and what
-- stands before it.
use mathlib.Core.Path.{◌≡◌, refl}
use mathlib.Core.Bool.{Bool, true, false}
use mathlib.Core.List.{List, [], ◌∷◌, ◌++◌, map}
use Prim.Native.Nat.{ℕ, suc}
use Prim.Native.String.{String}
use staging_platform.Base.Tests.{if◌then◌else◌}
use staging_platform.Base.Int.{ℤ}

pub data Argument : Type 0 where
  text : String → Argument
  number : ℤ → Argument

pub data Problem : Type 0 where
  says : String → List Argument → Problem
  -- `prefix.problem`
  within : String → Problem → Problem
  -- `prefix[index].problem`
  item : String → ℕ → Problem → Problem

-- `if test { verr.add(…) }`
abbrev pub adds : Bool → Problem → List Problem
adds b p = if b then p ∷ [] else []

abbrev pub adds_text : Bool → String → List Problem
adds_text b format = adds b (says format [])

abbrev pub is_empty {ℓ} : {A : Type ℓ} → List A → Bool
is_empty [] = true
is_empty (x ∷ xs) = false

-- `for idx, x := range xs { verr.addNested(fmt.Sprintf("name[%d]", idx), x.validate()) }`
unfoldable pub item_problems {ℓ} :
    {A : Type ℓ} → String → (A → List Problem) → ℕ → List A → List Problem
item_problems name problems idx [] = []
item_problems name problems idx (x ∷ xs) =
    map (item name idx) (problems x) ++ item_problems name problems (suc idx) xs

pub adds-nil : (b : Bool) (p : Problem) → adds b p ≡ [] → b ≡ false
adds-nil true p h = cc
adds-nil false p h = refl
