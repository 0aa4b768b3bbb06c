-- ===== src/Runtime/Fallback/Symmetry.antt =====
-- internal/runtime/fallback/matcher.go: `setSimilarity` from both sides.
use text.Mathlib.TextEquality.{eq_iff}
use staging_platform.Base.{
  ℕ, ◌+◌, ◌≤◌, String, ◌≡◌, refl, sym, ap, ◌∙◌, Bool, true, false, not, ◌&&◌, ◌||◌, List, [], ◌∷◌,
  keep, any, length, str_eq, if◌then◌else◌, Bool-cases, inl, inr, arith,
}
use staging_platform.Base.Problems.{is_empty}
use staging_platform.Recorder.{Header, contains}
use staging_platform.Standard.{Standard, Net}
use staging_platform.Runtime.Fallback.Similarity.{
  set_of, intersection_size, union_size, set_similarity,
}

-- How often a text stands in a list.
abbrev occurrences : String → List String → ℕ
occurrences x [] = 0
occurrences x (y ∷ ys) = (if str_eq y x then 1 else 0) + occurrences x ys

-- The pairs of equal texts of two lists.
abbrev common : List String → List String → ℕ
common [] right = 0
common (x ∷ left) right = occurrences x right + common left right

str_eq_sym : (x y : String) → str_eq x y ≡ str_eq y x
str_eq_sym x y = elim (Bool-cases (str_eq x y)) [
  | inl t ↦ rw ((eq_iff x y).0 t) refl
  | inr f ↦ elim (Bool-cases (str_eq y x)) [
    | inl t ↦ rw ((eq_iff y x).0 t) refl
    | inr f' ↦ f ∙ sym f'
  ]
]

common-nil : (left : List String) → common left [] ≡ 0
common-nil [] = refl
common-nil (x ∷ left) = omega (arith, common-nil left)

common-cons :
    (left : List String) (y : String) (right : List String)
    → common left (y ∷ right) ≡ occurrences y left + common left right
common-cons [] y right = refl
common-cons (x ∷ left) y right = omega (
  arith,
  common-cons left y right,
  ap {B = ℕ} (λ (b : Bool). if b then 1 else 0) (str_eq_sym x y),
)

common_sym : (left right : List String) → common left right ≡ common right left
common_sym [] right = sym (common-nil right)
common_sym (x ∷ left) right = omega (arith, common_sym left right, common-cons right x left)

-- No text stands twice in the list.
abbrev IsDistinct : List String → Type 0
IsDistinct [] = Unit
IsDistinct (x ∷ xs) = (contains xs x ≡ false) × IsDistinct xs

set_of-IsDistinct : (xs : List String) → IsDistinct (set_of xs)
unfolding set_of
set_of-IsDistinct [] = tt
set_of-IsDistinct (x ∷ xs) = elim (Bool-cases (contains (set_of xs) x)) [
  | inl t ↦ rw (set_of, t) (set_of-IsDistinct xs)
  | inr f ↦ rw (set_of, f) (f, set_of-IsDistinct xs)
]

occurrences-absent : (x : String) (xs : List String) → contains xs x ≡ false → occurrences x xs ≡ 0
unfolding any
occurrences-absent x [] h = refl
occurrences-absent x (y ∷ ys) h = ground (arith, occurrences-absent x ys)

occurrences-distinct :
    (x : String) (xs : List String)
    → IsDistinct xs
    → occurrences x xs ≡ (if contains xs x then 1 else 0)
unfolding any
occurrences-distinct x [] h = refl
occurrences-distinct x (y ∷ ys) h = elim (Bool-cases (str_eq y x)) [
  | inl t ↦ rw t (omega (arith, occurrences-absent x ys (rw ((eq_iff y x).0 t) at h.0)))
  | inr f ↦ rw f (omega (arith, occurrences-distinct x ys h.1))
]

intersection-common :
    (left right : List String) → IsDistinct right → intersection_size left right ≡ common left right
unfolding keep
intersection-common [] right h = refl
intersection-common (x ∷ left) right h =
    ground (arith, intersection-common left right h, occurrences-distinct x right h)

length-keep-parts :
    (p : String → Bool) (xs : List String)
    → length (keep p xs) + length (keep (λ x. not (p x)) xs) ≡ length xs
unfolding keep
length-keep-parts p [] = refl
length-keep-parts p (x ∷ xs) = ground (arith, length-keep-parts p xs)

intersection_sym :
    (left right : List String)
    → IsDistinct left
    → IsDistinct right
    → intersection_size left right ≡ intersection_size right left
intersection_sym left right h h' =
    intersection-common left right h'
    ∙ common_sym left right
    ∙ sym (intersection-common right left h)

-- The two sizes make up the lengths of both lists.
union_sym :
    (left right : List String)
    → IsDistinct left
    → IsDistinct right
    → union_size left right ≡ union_size right left
union_sym left right h h' = omega (
  arith,
  length-keep-parts (contains left) right,
  length-keep-parts (contains right) left,
  intersection_sym left right h h',
)

module _ (g : Standard) (net : Net Header) where
  swapped :
      (a b : Bool) (x y z : g.Float)
      → (if a && b then x else if a || b then y else z)
        ≡ (if b && a then x else if b || a then y else z)
  swapped true true x y z = refl
  swapped true false x y z = refl
  swapped false true x y z = refl
  swapped false false x y z = refl

  -- The similarity of two lists is the same from both sides, and the texts that both have are never
  -- more than those that one of them has.
  pub set_similarity-symmetric :
      (left right : List String)
      → (set_similarity g net left right ≡ set_similarity g net right left)
        × (intersection_size (set_of left) (set_of right) ≤ union_size (set_of left) (set_of right))
  unfolding set_similarity
  set_similarity-symmetric left right =
      let distinct = set_of-IsDistinct left in
      let distinct' = set_of-IsDistinct right in
      (
        rw
            (
              set_similarity,
              intersection_sym (set_of left) (set_of right) distinct distinct',
              union_sym (set_of left) (set_of right) distinct distinct',
            )
            (swapped (is_empty left) (is_empty right) _ _ _),
        omega (arith, length-keep-parts (contains (set_of right)) (set_of left)),
      )
