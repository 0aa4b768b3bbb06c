-- ===== src/Gates/Tests.antt =====
-- Lemmas on tests that stand in a row, for the conditions of a gate.
use staging_platform.Base.{Bool, true, false, ◌&&◌, List, [], ◌∷◌, ◌≡◌, refl, any}

pub any-cong {ℓ} :
    {A : Type ℓ} (p q : A → Bool) (xs : List A) → ((a : A) → p a ≡ q a) → any p xs ≡ any q xs
unfolding any
any-cong p q [] h = refl
any-cong p q (x ∷ xs) h = rw (h x, any-cong p q xs h) refl

pub assemble :
    (a b c u m p d ch nch dm ndm n : Bool)
    → (a && b && true && true && true && c && u && m && p && d && ch && nch && dm && ndm && n)
      ≡ (a && b && c && d && u && m && p && ch && nch && dm && ndm && n)
assemble false b c u m p d ch nch dm ndm n = refl
assemble true false c u m p d ch nch dm ndm n = refl
assemble true true false u m p d ch nch dm ndm n = refl
assemble true true true false m p true ch nch dm ndm n = refl
assemble true true true true false p true ch nch dm ndm n = refl
assemble true true true true true false true ch nch dm ndm n = refl
assemble true true true true true true true ch nch dm ndm n = refl
assemble true true true false m p false ch nch dm ndm n = refl
assemble true true true true false p false ch nch dm ndm n = refl
assemble true true true true true false false ch nch dm ndm n = refl
assemble true true true true true true false ch nch dm ndm n = refl

-- The conditions that are not set drop out.
pub only_selector :
    (a : Bool) → (a && true && true && true && true && true && true && true && true) ≡ a
only_selector true = refl
only_selector false = refl

pub only_amount :
    (a m : Bool) → (a && true && m && true && true && true && true && true && true) ≡ (a && m)
only_amount false m = refl
only_amount true true = refl
only_amount true false = refl

pub only_approval :
    (a m p : Bool) → (a && true && m && p && true && true && true && true && true) ≡ (a && m && p)
only_approval false m p = refl
only_approval true false p = refl
only_approval true true true = refl
only_approval true true false = refl

pub only_channels :
    (a c : Bool) → (a && true && true && true && true && c && true && true && true) ≡ (a && c)
only_channels false c = refl
only_channels true true = refl
only_channels true false = refl

pub only_domains :
    (a c : Bool) → (a && true && true && true && true && true && true && c && true) ≡ (a && c)
only_domains false c = refl
only_domains true true = refl
only_domains true false = refl

pub only_new :
    (a c : Bool) → (a && true && true && true && true && true && true && true && c) ≡ (a && c)
only_new false c = refl
only_new true c = refl

pub only_unknown :
    (a c : Bool) → (a && c && true && true && true && true && true && true && true) ≡ (a && c)
only_unknown false c = refl
only_unknown true true = refl
only_unknown true false = refl

pub without_lists :
    (a u m p ch dm n : Bool)
    → (a && u && m && p && ch && true && dm && true && n) ≡ (a && u && m && p && ch && dm && n)
without_lists false u m p ch dm n = refl
without_lists true false m p ch dm n = refl
without_lists true true false p ch dm n = refl
without_lists true true true false ch dm n = refl
without_lists true true true true false dm n = refl
without_lists true true true true true true n = refl
without_lists true true true true true false n = refl
