-- ===== src/Runtime/Fallback/Tiers.antt =====
-- internal/runtime/fallback/matcher.go: which tiers answer.
use staging_platform.Base.{
  String, ◌≡◌, refl, sym, ap, ◌∙◌, Bool, true, false, ◌||◌, Option, none, some, List, [], ◌∷◌, any,
  str_eq, if◌then◌else◌, length, Bool-cases, Option-cases, ◌⊎◌, inl, inr,
}
use staging_platform.Result.{Result, ok, err, ok-injective, Err}
use staging_platform.Recorder.{
  Interaction, Header, contains, tier_exact, tier_nearest_neighbor, tier_state_synthesis,
  tier_llm_synthesis,
}
use staging_platform.Standard.{Standard, Net}
use staging_platform.Runtime.Fallback.{
  Synthesizer, Matcher, MatchResult, runtime_tiers, add_tiers, allowed_tier_set, with_allowed_tiers,
  with_state_synthesizer, new_matcher, compatible_candidates, exact_match, nearest_match, try_exact,
  try_nearest, synthesize, exact_result, nearest_result, synthesis_result, find_match,
}

add_tiers-contains :
    (allowed tiers : List String) {set : List String}
    → add_tiers allowed tiers ≡ ok set
    → (t : String) → contains set t ≡ (contains tiers t || contains allowed t)
unfolding add_tiers any
add_tiers-contains allowed [] h t = cc
add_tiers-contains allowed (tier ∷ tiers) h t = elim (Bool-cases (contains runtime_tiers tier)) [
  | inl e ↦
      add_tiers-contains (tier ∷ allowed) tiers (rw (add_tiers, e) at h) t
      ∙ or_swap (contains tiers t) (str_eq tier t) (contains allowed t)
  | inr f ↦ elim (Bool-cases (str_eq tier tier_llm_synthesis)) [
    | inl l ↦ cc (rw (add_tiers, f, l) at h)
    | inr l ↦ cc (rw (add_tiers, f, l) at h)
  ]
]
  where
    or_swap : (a b c : Bool) → (a || (b || c)) ≡ ((b || a) || c)
    or_swap true true c = refl
    or_swap true false c = refl
    or_swap false true c = refl
    or_swap false false c = refl

Result-cases : {A : Type 0} (o : Result A) → ((e : Err) × (o ≡ err e)) ⊎ ((a : A) × (o ≡ ok a))
Result-cases (err e) = inl (e, refl)
Result-cases (ok a) = inr (a, refl)

or_nothing : (b : Bool) → (b || false) ≡ b
or_nothing true = refl
or_nothing false = refl

try-some :
    {A : Type 0} {a : A} (b : Bool) (o : Option A)
    → (if b then o else none) ≡ some a
    → (b ≡ true) × (o ≡ some a)
try-some true o h = (refl, h)
try-some false o h = cc

module _ (g : Standard) (net : Net Header) where
  module _ (m : Matcher) (request : Interaction) where
    abbrev pub candidates : List Interaction
    candidates = compatible_candidates g net m.recorded request

    abbrev pub ByExact : MatchResult g.Float → Type 0
    ByExact r =
        (i : Interaction) × (contains m.allowed tier_exact ≡ true)
        × (exact_match g net candidates request ≡ some i)
        × (r ≡ exact_result g net i (length candidates))

    abbrev pub ByNearest : MatchResult g.Float → Type 0
    ByNearest r =
        (i : Interaction) × (score : g.Float) × (contains m.allowed tier_nearest_neighbor ≡ true)
        × (nearest_match g net candidates request ≡ some (i, score))
        × (r ≡ nearest_result g net i score (length candidates))

    abbrev pub BySynthesis : MatchResult g.Float → Type 0
    BySynthesis r =
        (o : Result Interaction) × (contains m.allowed tier_state_synthesis ≡ true)
        × (synthesis_result g net (length candidates) o ≡ ok r)

    synthesize-ok :
        (allowed : Bool) (s : Option Synthesizer) {r : MatchResult g.Float}
        → synthesize g net allowed s request candidates ≡ ok r
        → (o : Result Interaction) × (allowed ≡ true)
          × (synthesis_result g net (length candidates) o ≡ ok r)
    synthesize-ok true (some s) h = (s request candidates, refl, h)
    synthesize-ok true none h = cc
    synthesize-ok false s h = cc

    -- By which tier a request is answered.
    pub find_match-cases :
        {r : MatchResult g.Float}
        → find_match g net m request ≡ ok r
        → ByExact r ⊎ (ByNearest r ⊎ BySynthesis r)
    unfolding find_match
    find_match-cases {r} h =
        elim (Option-cases (try_exact g net (contains m.allowed tier_exact) candidates request)) [
          | inr (i, e) ↦
              let (allowed, found) = try-some (contains m.allowed tier_exact) _ e in
              inl (i, allowed, found, cc (rw (find_match, e) at h))
          | inl e ↦
              elim (Option-cases
                (try_nearest g net (contains m.allowed tier_nearest_neighbor) candidates request)) [
                  | inr ((i, score), e') ↦
                      let (allowed, found) =
                        try-some (contains m.allowed tier_nearest_neighbor) _ e' in
                      inr (inl (i, score, allowed, found, cc (rw (find_match, e, e') at h)))
                  | inl e' ↦ inr (
                      inr (
                        synthesize-ok (contains m.allowed tier_state_synthesis) m.synthesizer
                          (rw (find_match, e, e') at h)))
                ]
        ]

  allowed_tier_set-contains :
      (tiers : List String) {set : List String}
      → allowed_tier_set tiers ≡ ok set
      → (t : String) → contains set t ≡ contains tiers t
  unfolding allowed_tier_set any
  allowed_tier_set-contains [] h t = cc
  allowed_tier_set-contains (tier ∷ tiers) h t =
      add_tiers-contains [] (tier ∷ tiers) h t ∙ or_nothing (contains (tier ∷ tiers) t)

  new_matcher-allowed :
      (recorded : List Interaction) (tiers : List String) (s : Option Synthesizer) {m : Matcher}
      → new_matcher recorded (with_allowed_tiers tiers ∷ with_state_synthesizer s ∷ []) ≡ ok m
      → (t : String) → contains m.allowed t ≡ contains tiers t
  unfolding new_matcher with_allowed_tiers with_state_synthesizer
  new_matcher-allowed recorded tiers s h t = elim (Result-cases (allowed_tier_set tiers)) [
    | inl (e, refused) ↦ cc (rw (with_allowed_tiers, refused) at h)
    | inr (set, accepted) ↦
        ap (λ (x : Matcher). contains x.allowed t)
          (sym (ok-injective (rw (with_allowed_tiers, accepted) at h)))
        ∙ allowed_tier_set-contains tiers accepted t
  ]

  -- An answer comes from a tier that the matcher was made with, carries it as the tier of its
  -- interaction, and counts the candidates.
  pub find_match-tiers :
      (recorded : List Interaction) (tiers : List String) (s : Option Synthesizer) {m : Matcher}
      (request : Interaction) {r : MatchResult g.Float}
      → new_matcher recorded (with_allowed_tiers tiers ∷ with_state_synthesizer s ∷ []) ≡ ok m
      → find_match g net m request ≡ ok r
      → (contains tiers r.tier ≡ true)
        × (r.interaction.fallback_tier ≡ r.tier)
        × (r.candidate_count ≡ length (compatible_candidates g net m.recorded request))
  find_match-tiers recorded tiers s {m} request {r} made h =
      let same = new_matcher-allowed recorded tiers s made in
      elim (find_match-cases m request h) [
        | inl (i, allowed, found, e) ↦ rw e (sym (same tier_exact) ∙ allowed, refl, refl)
        | inr (inl (i, score, allowed, found, e)) ↦
            rw e (sym (same tier_nearest_neighbor) ∙ allowed, refl, refl)
        | inr (inr (err e, allowed, given)) ↦ cc
        | inr (inr (ok i, allowed, given)) ↦
            rw (sym (ok-injective given)) (sym (same tier_state_synthesis) ∙ allowed, refl, refl)
      ]
