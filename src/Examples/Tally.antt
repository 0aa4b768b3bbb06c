-- ===== src/Examples/Tally.antt =====
-- Identifiers of numbers that are different and not blank: one letter more than the number.
use text.Mathlib.TextEquality.{eq_iff}
use staging_platform.Base.{
  ℕ, zero, suc, String, ◌≡◌, ◌≢◌, refl, sym, ap, ◌∙◌, false, is_blank, trim_space, trim_left,
  trim_right, is_space, str_eq, arith, Bool-cases, inl, inr,
}
use staging_platform.Base.Trimming.{push_left_black}
use staging_platform.Contracts.Classify.{text_length}

abbrev pub tally : ℕ → String
tally zero = "g"
tally (suc n) = String.◌∷◌ "g" (tally n)

text_length-tally : (n : ℕ) → text_length (tally n) ≡ suc n
unfolding text_length
text_length-tally zero = refl
text_length-tally (suc n) = ap suc (text_length-tally n)

pub tally-distinct : (n m : ℕ) → tally n ≡ tally m → n ≡ m
tally-distinct n m h =
    omega (arith, sym (text_length-tally n) ∙ ap text_length h ∙ text_length-tally m)

trim_right-tally : (n : ℕ) → trim_right (tally n) ≡ tally n
unfolding trim_right is_space
trim_right-tally zero = refl
trim_right-tally (suc n) = rw (trim_right-tally n) (push_left_black "g" (tally n) refl)

trim_space-tally : (n : ℕ) → trim_space (tally n) ≡ tally n
unfolding trim_space trim_left is_space
trim_space-tally zero = trim_right-tally zero
trim_space-tally (suc n) = trim_right-tally (suc n)

tally-nonempty : (n : ℕ) → tally n ≢ ""
unfolding text_length
tally-nonempty n h = absurd (omega (arith, sym (text_length-tally n) ∙ ap text_length h))

pub tally-named : (n : ℕ) → is_blank (tally n) ≡ false
unfolding is_blank
tally-named n = rw (trim_space-tally n) (elim (Bool-cases (str_eq (tally n) "")) [
  | inl t ↦ absurd (tally-nonempty n ((eq_iff (tally n) "").0 t))
  | inr f ↦ f
])
