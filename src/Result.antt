-- ===== src/Result.antt =====
-- Go's pair of a value and an error. A function that fails returns no value that is used.
use mathlib.Core.Path.{◌≡◌, refl}
use mathlib.Core.Bool.{Bool, true, false}
use mathlib.Core.Option.{Option, none, some}
use mathlib.Core.List.{List, [], ◌∷◌}
use Prim.Native.String.{String}

pub data Err : Type 0 where
  -- a record that fails its `Validate`, with its problems in order
  invalid : List String → Err
  -- wraps `store.ErrNotFound`
  not_found : Err
  -- a primary key that is taken, and a reference to a row that is not there
  conflict foreign_key : Err
  -- `encoding/json` refuses
  codec_failed : Err
  -- the source of identifiers fails
  id_failed : Err
  -- any other `fmt.Errorf`, by its words
  rejected : String → Err

pub data Result {ℓ} (A : Type ℓ) : Type ℓ where
  ok : A → Result A
  err : Err → Result A

-- `if err != nil { return err }` between two steps
module _ {ℓ κ} {A : Type ℓ} {B : Type κ} where
  infixl 5 ◌>>=◌
  abbrev pub ◌>>=◌ : Result A → (A → Result B) → Result B
  err e >>= next = err e
  ok value >>= next = next value

  -- A success goes through both steps.
  pub >>=-eq-ok :
      (first : Result A) (next : A → Result B) {out : B}
      → (first >>= next) ≡ ok out
      → (value : A) × (first ≡ ok value) × (next value ≡ ok out)
  >>=-eq-ok (err e) next h = cc
  >>=-eq-ok (ok value) next h = (value, refl, h)

module _ {ℓ} {B : Type ℓ} where
  infixl 5 ◌>>◌
  abbrev pub ◌>>◌ : Result (Unit {0}) → Result B → Result B
  check >> rest = check >>= λ done. rest

-- `if cond { return …, err }`
abbrev pub refuse_if : Bool → Err → Result (Unit {0})
refuse_if true e = err e
refuse_if false e = ok tt

-- A value, or the error where there is none.
abbrev pub or_err {ℓ} : {A : Type ℓ} → Option A → Err → Result A
or_err (some a) e = ok a
or_err none e = err e

-- `if len(problems) > 0 { return fmt.Errorf("invalid …") }`
abbrev pub no_problems : List String → Result (Unit {0})
no_problems [] = ok tt
no_problems (p ∷ ps) = err (invalid (p ∷ ps))

pub no_problems-eq-ok : (ps : List String) → no_problems ps ≡ ok tt → ps ≡ []
no_problems-eq-ok [] h = refl
no_problems-eq-ok (p ∷ ps) h = cc

pub refuse_if-eq-ok : (b : Bool) (e : Err) {u : Unit {0}} → refuse_if b e ≡ ok u → b ≡ false
refuse_if-eq-ok true e h = cc
refuse_if-eq-ok false e h = refl

pub ok-injective {ℓ} : {A : Type ℓ} {a b : A} → ok a ≡ ok b → a ≡ b
ok-injective h = cc

pub or_err-eq-ok {ℓ} :
    {A : Type ℓ} (o : Option A) (e : Err) {a : A} → or_err o e ≡ ok a → o ≡ some a
or_err-eq-ok (some x) e h = cc
or_err-eq-ok none e h = cc
