-- ===== src/Runtime/Replay/Distinct.antt =====
-- internal/runtime/replay/exact.go: the two lists of the summary against a plain description.
use text.Mathlib.TextEquality.{eq_iff}
use mathlib.Core.List.{append_assoc, append-nil}
use staging_platform.Base.{
  String, ◌≡◌, refl, sym, ap, ◌∙◌, true, not, ◌&&◌, All, List, [], ◌∷◌, ◌++◌, map, arith, length,
  str_eq, if◌then◌else◌, any, keep, Bool-cases, inl, inr,
}
use staging_platform.Base.Members.{any-append, keep-All, keep-keep, keep-keep_apart, keep_same}
use staging_platform.Result.{ok, err, rejected}
use staging_platform.Recorder.{Run, Interaction, contains, replay_eligible}
use staging_platform.Runtime.Replay.{Seen, Summary, add_new, see, see_all, summarize_exact_source}

-- The texts of a list, each where it first stands.
unfoldable pub distinct : List String → List String
distinct [] = []
distinct (x ∷ xs) = x ∷ keep (λ y. not (str_eq x y)) (distinct xs)

add_all : List String → List String → List String
add_all seen [] = seen
add_all seen (x ∷ xs) = add_all (add_new x seen) xs

see_all-services :
    (s : Seen) (is : List Interaction)
    → (see_all s is).services ≡ add_all s.services (map (λ (i : Interaction). i.service) is)
unfolding see_all see add_all
see_all-services s [] = refl
see_all-services s (i ∷ is) = see_all-services (see s i) is

-- The tiers that are used, in the order of the interactions.
abbrev pub tiers_of : List Interaction → List String
tiers_of is = keep (λ t. not (str_eq t "")) (map (λ (i : Interaction). i.fallback_tier) is)

see_all-tiers :
    (s : Seen) (is : List Interaction) → (see_all s is).tiers ≡ add_all s.tiers (tiers_of is)
unfolding see_all see add_all keep
see_all-tiers s [] = refl
see_all-tiers s (i ∷ is) = elim (Bool-cases (str_eq i.fallback_tier "")) [
  | inl t ↦ see_all-tiers (see s i) is ∙ rw t
  | inr f ↦ see_all-tiers (see s i) is ∙ rw f
]

contains-snoc :
    (seen : List String) (x y : String)
    → not (contains (seen ++ x ∷ []) y) ≡ (not (contains seen y) && not (str_eq x y))
unfolding any
contains-snoc seen x y = ground (arith, any-append (λ z. str_eq z y) seen (x ∷ []))

seen-not_again :
    (seen : List String) (x : String)
    → contains seen x ≡ true
    → (y : String) → not (contains seen y) ≡ true
    → not (str_eq x y) ≡ true
seen-not_again seen x h y n = elim (Bool-cases (str_eq x y)) [
  | inl e ↦ cc (rw ((eq_iff x y).0 e) at h)
  | inr f ↦ rw f
]

add_all-distinct :
    (seen xs : List String)
    → add_all seen xs ≡ seen ++ keep (λ y. not (contains seen y)) (distinct xs)
unfolding add_all distinct keep
add_all-distinct seen [] = sym (append-nil seen)
add_all-distinct seen (x ∷ xs) = elim (Bool-cases (contains seen x)) [
  | inl t ↦ rw t (
      add_all-distinct seen xs
      ∙ ap (λ ys. seen ++ ys)
          (sym (
            keep-keep_apart (λ y. not (contains seen y)) (λ y. not (str_eq x y))
              (seen-not_again seen x t) (distinct xs))))
  | inr f ↦ rw f (
      add_all-distinct (seen ++ x ∷ []) xs
      ∙ append_assoc seen (x ∷ []) _
      ∙ ap (λ ys. seen ++ x ∷ ys)
          (keep_same _ _ (contains-snoc seen x) (distinct xs)
            ∙ sym (keep-keep (λ y. not (contains seen y)) (λ y. not (str_eq x y)) (distinct xs))))
]

nothing_seen : (xs : List String) → add_all [] xs ≡ distinct xs
unfolding any
nothing_seen xs =
    add_all-distinct [] xs ∙ keep-All (λ y. true) (distinct xs) (All_true (distinct xs))
  where
    All_true : (ys : List String) → All (λ y. true ≡ true) ys
    All_true [] = tt
    All_true (y ∷ ys) = (refl, All_true ys)

-- The summary by what it says of the run.
abbrev pub summary_of : Run → Summary
summary_of r = record {
  mode = "exact";
  run_id = r.run_id;
  session_name = r.session_name;
  status = r.status;
  interaction_count = length r.interactions;
  services = distinct (map (λ (i : Interaction). i.service) r.interactions);
  fallback_tiers_used = distinct (tiers_of r.interactions);
  replay_eligible = true;
}

-- A complete run is summarized by its services and its tiers that are not empty, each once and in the
-- order in which they first stand, with the number of its interactions. Any other run is refused.
pub summarize_exact_source-distinct :
    (r : Run)
    → summarize_exact_source r ≡ (
        if replay_eligible r
        then ok (summary_of r)
        else err (rejected "run is not replay-eligible"))
unfolding summarize_exact_source
summarize_exact_source-distinct r = elim (Bool-cases (replay_eligible r)) [
  | inl t ↦ rw t (
      rw
        (
          see_all-services (record { services = []; tiers = [] }) r.interactions ∙ nothing_seen _,
          see_all-tiers (record { services = []; tiers = [] }) r.interactions ∙ nothing_seen _,
        )
        refl)
  | inr f ↦ rw f refl
]
