-- ===== src/Base/Trimming.antt =====
-- Trimming twice is trimming once.
use Prim.Native.Char.{Char, code}
use Prim.Native.String.{String}
use mathlib.Core.Path.{◌≡◌, refl, ap, ◌∙◌}
use mathlib.Core.Logic.{inl, inr}
use mathlib.Core.Bool.{false}
use staging_platform.Base.Tests.{Bool-cases}
use staging_platform.Base.Texts.{is_space, trim_left, trim_right, trim_space, push_left}

pub push_left_black :
    (c : Char) (s : String) → is_space (code c) ≡ false → push_left c s ≡ String.◌∷◌ c s
push_left_black c String.[] h = rw h
push_left_black c (String.◌∷◌ d s) h = refl

trim_right-push_left :
    (c : Char) (s : String) → trim_right s ≡ s → trim_right (push_left c s) ≡ push_left c s
unfolding trim_right
trim_right-push_left c String.[] h = elim (Bool-cases (is_space (code c))) [
  | inl w ↦ rw w
  | inr b ↦ rw b (rw b)
]
trim_right-push_left c (String.◌∷◌ d s) h = ap (push_left c) h

trim_right_idem : (s : String) → trim_right (trim_right s) ≡ trim_right s
unfolding trim_right
trim_right_idem String.[] = refl
trim_right_idem (String.◌∷◌ c s) = trim_right-push_left c (trim_right s) (trim_right_idem s)

-- A text that is left of a trim begins with a character that is kept.
abbrev BeginsBlack : String → Type 0
BeginsBlack String.[] = Unit
BeginsBlack (String.◌∷◌ c s) = is_space (code c) ≡ false

trim_left-BeginsBlack : (s : String) → BeginsBlack (trim_left s)
unfolding trim_left
trim_left-BeginsBlack String.[] = tt
trim_left-BeginsBlack (String.◌∷◌ c s) = elim (Bool-cases (is_space (code c))) [
  | inl w ↦ rw w (trim_left-BeginsBlack s)
  | inr b ↦ rw b b
]

trim_left_of_BeginsBlack : (s : String) → BeginsBlack s → trim_left s ≡ s
unfolding trim_left
trim_left_of_BeginsBlack String.[] h = refl
trim_left_of_BeginsBlack (String.◌∷◌ c s) h = rw h

trim_right-BeginsBlack : (s : String) → BeginsBlack s → BeginsBlack (trim_right s)
unfolding trim_right
trim_right-BeginsBlack String.[] h = tt
trim_right-BeginsBlack (String.◌∷◌ c s) h = rw (push_left_black c (trim_right s) h) h

pub trim_space_idem : (s : String) → trim_space (trim_space s) ≡ trim_space s
unfolding trim_space
trim_space_idem s =
    ap trim_right (
      trim_left_of_BeginsBlack (trim_right (trim_left s))
        (trim_right-BeginsBlack (trim_left s) (trim_left-BeginsBlack s)))
    ∙ trim_right_idem (trim_left s)
