-- ===== src/Runtime/Fallback/Recorded.antt =====
-- internal/runtime/fallback/matcher.go: answers that were recorded.
use text.Mathlib.TextEquality.{eq_iff}
use mathlib.Core.List.{Memᴰ}
use staging_platform.Base.{
  ℕ, ◌≡◌, ◌≢◌, refl, sym, ap, ◌∙◌, Bool, true, Option, none, some, List, [], ◌∷◌, find, keep, All,
  str_eq, length, Bool-cases, inl, inr,
}
use staging_platform.Base.Members.{
  All-of_mem, All-sort_by, All-keep, All-keep_passes, All-zip, find_of_any, find_passes,
  any-sort_by, any-keep_of_mem,
}
use staging_platform.Result.{ok, err, ok-injective}
use staging_platform.Recorder.{Interaction, Header, contains, tier_exact, tier_state_synthesis}
use staging_platform.Standard.{Standard, Net, Laws}
use staging_platform.Runtime.Fallback.{
  Matcher, MatchResult, Best, is_compatible, compatible_candidates, comes_first, exact_match,
  nearest_match, improve, best_of, no_best, find_match, exact_result, or_not, minimum_nearest_score,
}
use staging_platform.Runtime.Fallback.Similarity.{nearest_score}
use staging_platform.Runtime.Fallback.Tiers.{find_match-cases}
use staging_platform.Runtime.Fallback.Requests.{exact_request_key, request_path}

find-All :
    {A : Type 0} (P : A → Type 0) (p : A → Bool) (xs : List A) {x : A}
    → All P xs
    → find p xs ≡ some x
    → P x
unfolding find
find-All P p [] hs h = cc
find-All P p (y ∷ ys) {x} hs h = elim (Bool-cases (p y)) [
  | inl t ↦ let e : y ≡ x = cc (rw t at h) in rw (sym e) hs.0
  | inr f ↦ find-All P p ys hs.1 (rw f at h)
]

module _ {A : Type 0} (P : A → Type 0) where
  -- What is there has the property.
  abbrev pub OnSome : Option A → Type 0
  OnSome none = Unit
  OnSome (some x) = P x

module _ (g : Standard) (net : Net Header) where
  best_of-OnSome :
      (P : Interaction → Type 0) (request : Interaction) (b : Best g net) (cs : List Interaction)
      → All P cs
      → OnSome P b.best
      → OnSome P (best_of g net request b cs).best
  unfolding best_of improve
  best_of-OnSome P request b [] hs h = h
  best_of-OnSome P request b (c ∷ cs) hs h =
      elim (Bool-cases (g.is_less b.score (nearest_score g net c request))) [
        | inl t ↦
            best_of-OnSome P request (improve g net request b c) cs hs.1 (rw (improve, t) hs.0)
        | inr f ↦ best_of-OnSome P request (improve g net request b c) cs hs.1 (rw (improve, f) h)
      ]

  or_not-some :
      (b : Best g net) (o : Option Interaction) {i : Interaction} {score : g.Float}
      → or_not g net b o ≡ some (i, score)
      → o ≡ some i
  or_not-some b none h = cc
  or_not-some b (some j) h = cc

  nearest_match-best :
      (cs : List Interaction) (request : Interaction) {i : Interaction} {score : g.Float}
      → nearest_match g net cs request ≡ some (i, score)
      → (best_of g net request (no_best g net) cs).best ≡ some i
  unfolding nearest_match
  nearest_match-best cs request h =
      let b = best_of g net request (no_best g net) cs in
      elim (Bool-cases (g.is_less b.score (minimum_nearest_score g net))) [
        | inl t ↦ cc (rw (nearest_match, t) at h)
        | inr f ↦ or_not-some b b.best (rw (nearest_match, f) at h)
      ]

  module _ (recorded : List Interaction) (request : Interaction) where
    -- The interaction was recorded, and is compatible with the request.
    abbrev IsCandidate : Interaction → Type 0
    IsCandidate i = Memᴰ i recorded × (is_compatible g net request i ≡ true)

    candidates-IsCandidate : All IsCandidate (compatible_candidates g net recorded request)
    unfolding compatible_candidates
    candidates-IsCandidate =
        All-sort_by IsCandidate comes_first (keep (is_compatible g net request) recorded) (
          All-zip _ _ IsCandidate (keep (is_compatible g net request) recorded) (λ i m c. (m, c))
            (All-keep (λ i. Memᴰ i recorded) (is_compatible g net request) recorded
              (All-of_mem recorded (λ i m. m)))
            (All-keep_passes (is_compatible g net request) recorded))

  -- Every answer that is not synthesized is an interaction that was recorded and that is compatible
  -- with the request, with the tier and its reason put into it and all else as it was recorded.
  pub find_match-recorded :
      (m : Matcher) (request : Interaction) {r : MatchResult g.Float}
      → find_match g net m request ≡ ok r
      → r.tier ≢ tier_state_synthesis
      → (i : Interaction) × Memᴰ i m.recorded
        × (is_compatible g net request i ≡ true)
        × (r.interaction
            ≡ record i { fallback_tier = r.tier; fallback_reason = r.interaction.fallback_reason })
  unfolding exact_match
  find_match-recorded m request {r} h distinct =
      let cs = compatible_candidates g net m.recorded request in
      elim (find_match-cases g net m request h) [
        | inl (i, allowed, found, e) ↦
            let (mem, fits) =
              find-All (IsCandidate m.recorded request) _ cs
                (candidates-IsCandidate m.recorded request) found in
            rw e (i, mem, fits, refl)
        | inr (inl (i, score, allowed, found, e)) ↦
            let c : OnSome (IsCandidate m.recorded request) (some i) =
              rw (nearest_match-best cs request found) at (
                best_of-OnSome (IsCandidate m.recorded request) request (no_best g net) cs
                  (candidates-IsCandidate m.recorded request) tt) in
            rw e (i, c.0, c.1, refl)
        | inr (inr (err e, allowed, given)) ↦ cc
        | inr (inr (ok i, allowed, given)) ↦
            elim (distinct
              (sym (ap (λ (x : MatchResult g.Float). x.tier) (ok-injective given)))) [ ]
      ]

  is_compatible_self : Laws g → (i : Interaction) → is_compatible g net i i ≡ true
  unfolding is_compatible
  is_compatible_self laws i =
      rw
        (
          laws.equal_fold_refl i.request.method,
          (eq_iff i.service i.service).1 refl,
          (eq_iff i.operation i.operation).1 refl,
          (eq_iff i.protocol i.protocol).1 refl,
          (eq_iff (request_path g net i.request.url) (request_path g net i.request.url)).1 refl,
        )
        refl

  -- A recorded interaction that is asked for again is found by the exact tier, where that is allowed:
  -- the answer has its request's key, whatever the synthesizer.
  pub find_match-again :
      (laws : Laws g) (m : Matcher) {i : Interaction}
      → contains m.allowed tier_exact ≡ true
      → Memᴰ i m.recorded
      → (j : Interaction) × (n : ℕ) × (find_match g net m i ≡ ok (exact_result g net j n))
        × (exact_request_key g net j ≡ exact_request_key g net i)
  unfolding find_match exact_match compatible_candidates is_compatible
  find_match-again laws m {i} allowed mem =
      let test =
        λ (c : Interaction). str_eq (exact_request_key g net c) (exact_request_key g net i) in
      let cs = compatible_candidates g net m.recorded i in
      let (j, found) = find_of_any test cs (
        any-sort_by comes_first test (keep (is_compatible g net i) m.recorded)
        ∙ any-keep_of_mem (is_compatible g net i) test m.recorded mem (is_compatible_self laws i)
            ((eq_iff (exact_request_key g net i) (exact_request_key g net i)).1 refl)) in
      (
        j,
        length cs,
        rw (find_match, allowed, found) refl,
        (eq_iff _ _).0 (find_passes test cs found),
      )
