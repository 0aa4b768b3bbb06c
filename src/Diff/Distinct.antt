-- ===== src/Diff/Distinct.antt =====
-- internal/analysis/diff/diff.go: no two interactions of a run have the same key.
use text.Mathlib.TextEquality.{eq_iff}
use staging_platform.Base.{
  ℕ, suc, ◌<◌, ◌≤◌, String, ◌≡◌, refl, sym, ◌∙◌, true, false, ◌&&◌, List, [], ◌∷◌, All, Pairwise,
  ◌==◌, str_eq, Bool-cases, inl, inr, arith,
}
use staging_platform.Base.Members.{All-mono}
use staging_platform.Recorder.{Interaction}
use staging_platform.Diff.{IndexedInteraction, eqb_key, count, number_all}

-- The keys of the two differ, whichever stands first.
abbrev pub Apart : IndexedInteraction → IndexedInteraction → Type 0
Apart x y = (eqb_key x.key y.key ≡ false) × (eqb_key y.key x.key ≡ false)

count-cons : (x y : String) (ys : List String) → count x ys ≤ count x (y ∷ ys)
count-cons x y ys = ground arith

str_eq_sym : (a b : String) → str_eq a b ≡ str_eq b a
str_eq_sym a b = elim (Bool-cases (str_eq a b)) [
  | inl t ↦ rw ((eq_iff a b).0 t) refl
  | inr f ↦ elim (Bool-cases (str_eq b a)) [
    | inl t ↦ rw ((eq_iff b a).0 t) refl
    | inr f' ↦ f ∙ sym f'
  ]
]

numbers-apart :
    (a b : String) (n m : ℕ)
    → (str_eq a b ≡ true → n < m)
    → ((str_eq a b && n == m) ≡ false) × ((str_eq b a && m == n) ≡ false)
numbers-apart a b n m h = elim (Bool-cases (str_eq a b)) [
  | inl t ↦ let lt = h t in rw (sym (str_eq_sym a b), t) (ground (arith, lt), ground (arith, lt))
  | inr f ↦ rw (sym (str_eq_sym a b), f) (refl, refl)
]

count-same :
    (a b : String) (seen : List String) (m : ℕ)
    → count b (a ∷ seen) < m
    → str_eq a b ≡ true
    → suc (count a seen) < m
count-same a b seen m h t =
    let e : a ≡ b = (eq_iff a b).0 t in rw e (rw (e, (eq_iff b b).1 refl) at h)

module _ (identity_of : Interaction → String) where
  -- A number is larger than that of the same identities that were seen before.
  abbrev IsLater : List String → IndexedInteraction → Type 0
  IsLater seen x = count x.key.identity seen < x.key.number

  number_all-IsLater :
      (seen : List String) (is : List Interaction)
      → All (IsLater seen) (number_all identity_of seen is)
  unfolding number_all
  number_all-IsLater seen [] = tt
  number_all-IsLater seen (i ∷ is) = (
    omega arith,
    All-mono (IsLater (identity_of i ∷ seen)) (IsLater seen) _
        (λ x h. omega (arith, h, count-cons x.key.identity (identity_of i) seen))
        (number_all-IsLater (identity_of i ∷ seen) is),
  )

  Apart-later :
      (seen : List String) (i : Interaction) (y : IndexedInteraction)
      → IsLater (identity_of i ∷ seen) y
      → Apart
          (record {
            key = record { identity = identity_of i; number = suc (count (identity_of i) seen) };
            interaction = i;
          })
          y
  Apart-later seen i y h =
      numbers-apart (identity_of i) y.key.identity (suc (count (identity_of i) seen)) y.key.number
        (count-same (identity_of i) y.key.identity seen y.key.number h)

  pub number_all-Pairwise :
      (seen : List String) (is : List Interaction) → Pairwise Apart (number_all identity_of seen is)
  unfolding number_all
  number_all-Pairwise seen [] = tt
  number_all-Pairwise seen (i ∷ is) = (
    All-mono (IsLater (identity_of i ∷ seen)) _ _ (Apart-later seen i)
        (number_all-IsLater (identity_of i ∷ seen) is),
    number_all-Pairwise (identity_of i ∷ seen) is,
  )
