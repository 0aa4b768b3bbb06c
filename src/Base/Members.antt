-- ===== src/Base/Members.antt =====
-- How the loops of `Base.Lists` treat each item of a list.
use mathlib.Core.Path.{◌≡◌, refl, ap, ◌∙◌}
use mathlib.Core.Bool.{Bool, true, false, ◌||◌, ◌&&◌, not}
use mathlib.Core.Logic.{inl, inr}
use mathlib.Core.Option.{none, some}
use mathlib.Core.List.{List, [], ◌∷◌, ◌++◌, map, Memᴰ}
use native.Mathlib.Omega.{arith}
use staging_platform.Base.Tests.{if◌then◌else◌, Bool-cases}
use staging_platform.Base.Lists.{keep, find, any, All, update_where}
use staging_platform.Base.Sorting.{insert_by, sort_by}

module _ {ℓ} {A : Type ℓ} where
  pub All-of_mem {κ} : {P : A → Type κ} (xs : List A) → ((x : A) → Memᴰ x xs → P x) → All P xs
  All-of_mem [] h = tt
  All-of_mem (x ∷ xs) h = (h x (Memᴰ.head refl), All-of_mem xs (λ y m. h y (Memᴰ.tail m)))

  pub mem_of_All {κ} : (P : A → Type κ) {x : A} (xs : List A) → All P xs → Memᴰ x xs → P x
  mem_of_All P [] h m = elim m [ ]
  mem_of_All P (y ∷ ys) h (Memᴰ.head e) = rw e h.0
  mem_of_All P (y ∷ ys) h (Memᴰ.tail m) = mem_of_All P ys h.1 m

  pub keep-none : (p : A → Bool) (xs : List A) → All (λ x. p x ≡ false) xs → keep p xs ≡ []
  unfolding keep
  keep-none p [] h = refl
  keep-none p (x ∷ xs) h = ground (arith, h.0, keep-none p xs h.1)

  pub keep-All : (p : A → Bool) (xs : List A) → All (λ x. p x ≡ true) xs → keep p xs ≡ xs
  unfolding keep
  keep-All p [] h = refl
  keep-All p (x ∷ xs) h = ground (arith, h.0, keep-All p xs h.1)

  pub any-keep-false : (p q : A → Bool) (xs : List A) → any q xs ≡ false → any q (keep p xs) ≡ false
  unfolding any keep
  any-keep-false p q [] h = refl
  any-keep-false p q (x ∷ xs) h = ground (arith, any-keep-false p q xs)

  pub All-keep {κ} : (P : A → Type κ) (p : A → Bool) (xs : List A) → All P xs → All P (keep p xs)
  unfolding keep
  All-keep P p [] h = tt
  All-keep P p (x ∷ xs) h = elim (Bool-cases (p x)) [
    | inl t ↦ rw t (h.0, All-keep P p xs h.1)
    | inr f ↦ rw f (All-keep P p xs h.1)
  ]

  All-insert_by {κ} :
      (P : A → Type κ) (le : A → A → Bool) (x : A) (xs : List A)
      → P x
      → All P xs
      → All P (insert_by le x xs)
  unfolding insert_by
  All-insert_by P le x [] h hs = (h, tt)
  All-insert_by P le x (y ∷ ys) h hs = elim (Bool-cases (le x y)) [
    | inl t ↦ rw t (h, hs)
    | inr f ↦ rw f (hs.0, All-insert_by P le x ys h hs.1)
  ]

  pub All-sort_by {κ} :
      (P : A → Type κ) (le : A → A → Bool) (xs : List A) → All P xs → All P (sort_by le xs)
  unfolding sort_by
  All-sort_by P le [] h = tt
  All-sort_by P le (x ∷ xs) h = All-insert_by P le x (sort_by le xs) h.0 (All-sort_by P le xs h.1)

  -- Every item kept passes the test.
  pub All-keep_passes : (p : A → Bool) (xs : List A) → All (λ x. p x ≡ true) (keep p xs)
  unfolding keep
  All-keep_passes p [] = tt
  All-keep_passes p (x ∷ xs) = elim (Bool-cases (p x)) [
    | inl t ↦ rw t (t, All-keep_passes p xs)
    | inr f ↦ rw f (All-keep_passes p xs)
  ]

  pub any_of_mem : (q : A → Bool) {x : A} (xs : List A) → Memᴰ x xs → q x ≡ true → any q xs ≡ true
  unfolding any
  any_of_mem q [] m h = elim m [ ]
  any_of_mem q (y ∷ ys) (Memᴰ.head e) h = ground (arith, ap q e)
  any_of_mem q (y ∷ ys) (Memᴰ.tail m) h = ground (arith, any_of_mem q ys m h)

  pub All-zip {κ μ ν} :
      (P : A → Type κ) (Q : A → Type μ) (R : A → Type ν) (xs : List A)
      → ((x : A) → P x → Q x → R x)
      → All P xs
      → All Q xs
      → All R xs
  All-zip P Q R [] f hp hq = tt
  All-zip P Q R (x ∷ xs) f hp hq = (f x hp.0 hq.0, All-zip P Q R xs f hp.1 hq.1)

  pub All-mono {κ μ} :
      (P : A → Type κ) (Q : A → Type μ) (xs : List A) → ((x : A) → P x → Q x) → All P xs → All Q xs
  All-mono P Q [] f hp = tt
  All-mono P Q (x ∷ xs) f hp = (f x hp.0, All-mono P Q xs f hp.1)

  pub any-append : (p : A → Bool) (xs ys : List A) → any p (xs ++ ys) ≡ (any p xs || any p ys)
  unfolding any
  any-append p [] ys = refl
  any-append p (x ∷ xs) ys = ground (arith, any-append p xs ys)

  pub any-keep-not : (p : A → Bool) (xs : List A) → any p (keep (λ x. not (p x)) xs) ≡ false
  unfolding any keep
  any-keep-not p [] = refl
  any-keep-not p (x ∷ xs) = ground (arith, any-keep-not p xs)

  -- An item that passes both tests is found among those that pass the first.
  pub any-keep_of_mem :
      (p q : A → Bool) {x : A} (xs : List A)
      → Memᴰ x xs
      → p x ≡ true
      → q x ≡ true
      → any q (keep p xs) ≡ true
  unfolding any keep
  any-keep_of_mem p q [] m hp hq = elim m [ ]
  any-keep_of_mem p q (y ∷ ys) (Memᴰ.head e) hp hq = ground (arith, ap p e, ap q e)
  any-keep_of_mem p q (y ∷ ys) (Memᴰ.tail m) hp hq = ground (arith, any-keep_of_mem p q ys m hp hq)

  pub any-insert_by :
      (le : A → A → Bool) (q : A → Bool) (x : A) (xs : List A)
      → any q (insert_by le x xs) ≡ (q x || any q xs)
  unfolding any insert_by
  any-insert_by le q x [] = refl
  any-insert_by le q x (y ∷ ys) = ground (arith, any-insert_by le q x ys)

  pub any-sort_by :
      (le : A → A → Bool) (q : A → Bool) (xs : List A) → any q (sort_by le xs) ≡ any q xs
  unfolding any sort_by
  any-sort_by le q [] = refl
  any-sort_by le q (x ∷ xs) =
      any-insert_by le q x (sort_by le xs) ∙ ap (λ (b : Bool). q x || b) (any-sort_by le q xs)

  pub find-none_of_any : (p : A → Bool) (xs : List A) → any p xs ≡ false → find p xs ≡ none
  unfolding any find
  find-none_of_any p [] h = refl
  find-none_of_any p (x ∷ xs) h = ground (arith, find-none_of_any p xs)

  pub any_of_find : (p : A → Bool) (xs : List A) {x : A} → find p xs ≡ some x → any p xs ≡ true
  unfolding any find
  any_of_find p [] h = cc
  any_of_find p (y ∷ xs) {x} h = ground (arith, any_of_find p xs {x = x})

  pub find_passes : (p : A → Bool) (xs : List A) {x : A} → find p xs ≡ some x → p x ≡ true
  unfolding find
  find_passes p [] h = cc
  find_passes p (y ∷ xs) {x} h = elim (Bool-cases (p y)) [
    | inl t ↦ cc (rw t at h, t)
    | inr f ↦ find_passes p xs (rw f at h)
  ]

  pub find-update_where :
      (p : A → Bool) (f : A → A)
      → ((x : A) → p x ≡ true → p (f x) ≡ true)
      → (xs : List A) {x : A} → find p xs ≡ some x
      → find p (update_where p f xs) ≡ some (f x)
  unfolding find update_where
  find-update_where p f pf [] h = cc
  find-update_where p f pf (y ∷ xs) {x} h = elim (Bool-cases (p y)) [
    | inl t ↦ rw t (let e : y ≡ x = cc (rw t at h) in rw (pf y t) (ap (λ z. some (f z)) e))
    | inr n ↦ rw n (rw n (find-update_where p f pf xs (rw n at h)))
  ]

  pub find_of_any : (p : A → Bool) (xs : List A) → any p xs ≡ true → (x : A) × (find p xs ≡ some x)
  unfolding find any
  find_of_any p [] h = cc
  find_of_any p (x ∷ xs) h = elim (Bool-cases (p x)) [
    | inl t ↦ rw t (x, refl)
    | inr f ↦ rw f (find_of_any p xs (rw f at h))
  ]

  pub find-append_none :
      (p : A → Bool) (xs ys : List A) → any p xs ≡ false → find p (xs ++ ys) ≡ find p ys
  unfolding find any
  find-append_none p [] ys h = refl
  find-append_none p (x ∷ xs) ys h = ground (arith, find-append_none p xs ys)

  pub keep-keep : (p q : A → Bool) (xs : List A) → keep p (keep q xs) ≡ keep (λ x. p x && q x) xs
  unfolding keep
  keep-keep p q [] = refl
  keep-keep p q (x ∷ xs) = ground (arith, keep-keep p q xs)

  pub keep_same : (p q : A → Bool) → ((x : A) → p x ≡ q x) → (xs : List A) → keep p xs ≡ keep q xs
  unfolding keep
  keep_same p q h [] = refl
  keep_same p q h (x ∷ xs) = rw (h x, keep_same p q h xs)

  -- A test that the other makes superfluous.
  pub keep-keep_apart :
      (p q : A → Bool)
      → ((x : A) → p x ≡ true → q x ≡ true)
      → (xs : List A) → keep p (keep q xs) ≡ keep p xs
  unfolding keep
  keep-keep_apart p q h [] = refl
  keep-keep_apart p q h (x ∷ xs) = ground (arith, h x, keep-keep_apart p q h xs)

module _ {ℓ κ} {A : Type ℓ} {B : Type κ} where
  pub any-map : (f : A → B) (q : B → Bool) (xs : List A) → any q (map f xs) ≡ any (λ x. q (f x)) xs
  unfolding any
  any-map f q [] = refl
  any-map f q (x ∷ xs) = ap (λ (b : Bool). q (f x) || b) (any-map f q xs)

  pub All-map {μ} :
      (f : A → B) (P : B → Type μ) (xs : List A) → All (λ x. P (f x)) xs → All P (map f xs)
  All-map f P [] h = tt
  All-map f P (x ∷ xs) h = (h.0, All-map f P xs h.1)

module _ {ℓ} {A : Type ℓ} where
  pub map_same : (f : A → A) (xs : List A) → ((x : A) → f x ≡ x) → map f xs ≡ xs
  map_same f [] h = refl
  map_same f (x ∷ xs) h = rw (h x, map_same f xs h)

  pub update_where-map :
      (p : A → Bool) (f : A → A) (xs : List A)
      → update_where p f xs ≡ map (λ x. if p x then f x else x) xs
  unfolding update_where
  update_where-map p f [] = refl
  update_where-map p f (x ∷ xs) = rw (update_where-map p f xs)

module _ {ℓ κ} {A : Type ℓ} (P : A → Type κ) where
  pub All-append : (xs ys : List A) → All P xs → All P ys → All P (xs ++ ys)
  All-append [] ys hx hy = hy
  All-append (x ∷ xs) ys hx hy = (hx.0, All-append xs ys hx.1 hy)

  pub All-update :
      (p : A → Bool) (y : A) (xs : List A) → P y → All P xs → All P (update_where p (λ _. y) xs)
  unfolding update_where
  All-update p y [] h hs = tt
  All-update p y (x ∷ xs) h hs = elim (Bool-cases (p x)) [
    | inl t ↦ rw t (h, All-update p y xs h hs.1)
    | inr f ↦ rw f (hs.0, All-update p y xs h hs.1)
  ]
