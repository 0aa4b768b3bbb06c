-- ===== src/Runtime/Fallback.antt =====
-- internal/runtime/fallback/matcher.go: the recorded interaction that answers a request. The matcher
-- is its recorded interactions, the set of the allowed tiers and the synthesizer, if there is one.
pub mod Requests
pub mod Similarity
pub mod Recorded
pub mod Nearest
pub mod Tiers
pub mod Symmetry
use staging_platform.Base.{
  ℕ, String, Bool, true, false, not, ◌&&◌, ◌||◌, Option, none, some, List, [], ◌∷◌, keep, find,
  str_eq, append_text, if◌then◌else◌, length,
}
use staging_platform.Base.Int.{ltb_ℤ}
use staging_platform.Base.Order.{text_le}
use staging_platform.Base.Sorting.{sort_by}
use staging_platform.Result.{Result, ok, err, rejected, Err}
use staging_platform.Recorder.{
  Interaction, Header, contains, tier_exact, tier_nearest_neighbor, tier_state_synthesis,
  tier_llm_synthesis,
}
use staging_platform.Standard.{Standard, Net}
use staging_platform.Runtime.Fallback.Requests.{request_path, exact_request_key}
use staging_platform.Runtime.Fallback.Similarity.{nearest_score}

-- A `Synthesizer`, by what it gives for a request and the candidates.
abbrev pub Synthesizer : Type 0
Synthesizer = Interaction → List Interaction → Result Interaction

pub record Matcher : Type 0 where
  pub recorded : List Interaction
  pub allowed : List String
  pub synthesizer : Option Synthesizer

abbrev pub runtime_tiers : List String
runtime_tiers = tier_exact ∷ tier_nearest_neighbor ∷ tier_state_synthesis ∷ []

-- The loop of `allowedTierSet`.
unfoldable pub add_tiers : List String → List String → Result (List String)
add_tiers allowed [] = ok allowed
add_tiers allowed (tier ∷ tiers) =
    let rest = add_tiers (tier ∷ allowed) tiers in
    if contains runtime_tiers tier
    then rest
    else if str_eq tier tier_llm_synthesis
    then err (rejected "llm_synthesis fallback is not implemented in runtime tiers 0-2")
    else err (rejected (append_text "unsupported fallback tier " tier))

unfoldable pub allowed_tier_set : List String → Result (List String)
unfolding add_tiers
allowed_tier_set [] = err (rejected "allowed fallback tiers must not be empty")
allowed_tier_set (tier ∷ tiers) = add_tiers [] (tier ∷ tiers)

-- An `Option` of the matcher's constructor.
abbrev pub MatcherOption : Type 0
MatcherOption = Matcher → Result Matcher

abbrev with_allowed : Matcher → Result (List String) → Result Matcher
with_allowed m (err e) = err e
with_allowed m (ok allowed) = ok (record m { allowed = allowed })

unfoldable pub with_allowed_tiers : List String → MatcherOption
unfolding allowed_tier_set
with_allowed_tiers tiers m = with_allowed m (allowed_tier_set tiers)

-- `WithConfig`, of the allowed tiers that the configuration names.
unfoldable pub with_config : List String → MatcherOption
unfolding with_allowed_tiers
with_config tiers = with_allowed_tiers tiers

unfoldable pub with_state_synthesizer : Option Synthesizer → MatcherOption
with_state_synthesizer s m = ok (record m { synthesizer = s })

abbrev apply_options : List MatcherOption → Result Matcher → Result Matcher
apply_options opts (err e) = err e
apply_options [] (ok m) = ok m
apply_options (opt ∷ opts) (ok m) = apply_options opts (opt m)

unfoldable pub new_matcher : List Interaction → List MatcherOption → Result Matcher
new_matcher recorded opts =
    apply_options opts
      (ok (record { recorded = recorded; allowed = runtime_tiers; synthesizer = none }))

pub record MatchResult (F : Type 0) : Type 0 where
  pub tier : String
  pub interaction : Interaction
  pub score : F
  pub reason : String
  pub candidate_count : ℕ

-- The order of the candidates.
abbrev pub comes_first : Interaction → Interaction → Bool
comes_first a b =
    if ltb_ℤ a.sequence b.sequence
    then true
    else if ltb_ℤ b.sequence a.sequence
    then false
    else text_le a.interaction_id b.interaction_id

module _ (g : Standard) (net : Net Header) where
  unfoldable pub is_compatible : Interaction → Interaction → Bool
  is_compatible request candidate =
      str_eq candidate.service request.service
      && str_eq candidate.operation request.operation
      && str_eq candidate.protocol request.protocol
      && g.equal_fold candidate.request.method request.request.method
      && str_eq (request_path g net candidate.request.url) (request_path g net request.request.url)

  unfoldable pub compatible_candidates : List Interaction → Interaction → List Interaction
  unfolding is_compatible
  compatible_candidates recorded request =
      sort_by comes_first (keep (is_compatible request) recorded)

  unfoldable pub exact_match : List Interaction → Interaction → Option Interaction
  exact_match candidates request =
      find (λ c. str_eq (exact_request_key g net c) (exact_request_key g net request)) candidates

  -- The best candidate so far; at first none, with a score below all others.
  pub record Best : Type 0 where
    pub score : g.Float
    pub best : Option Interaction

  unfoldable pub improve : Interaction → Best → Interaction → Best
  improve request b candidate =
      let score = nearest_score g net candidate request in
      if g.is_less b.score score then record { score = score; best = some candidate } else b

  -- The loop of `nearestMatch`.
  unfoldable pub best_of : Interaction → Best → List Interaction → Best
  unfolding improve
  best_of request b [] = b
  best_of request b (c ∷ cs) = best_of request (improve request b c) cs

  abbrev pub minimum_nearest_score : g.Float
  minimum_nearest_score = g.float_of "0.35"

  abbrev pub no_best : Best
  no_best = record { score = g.negative_infinity; best = none }

  -- A score that is high enough is that of a candidate.
  abbrev or_not : Best → Option Interaction → Option (Interaction × g.Float)
  or_not b none = none
  or_not b (some i) = some (i, b.score)

  unfoldable pub nearest_match : List Interaction → Interaction → Option (Interaction × g.Float)
  unfolding best_of
  nearest_match candidates request =
      let b = best_of request no_best candidates in
      if g.is_less b.score minimum_nearest_score then none else or_not b b.best

  abbrev tagged : String → String → Interaction → Interaction
  tagged tier reason i = record i { fallback_tier = tier; fallback_reason = reason }

  abbrev pub exact_result : Interaction → ℕ → MatchResult g.Float
  exact_result i n = record {
    tier = tier_exact;
    interaction = tagged tier_exact "exact request match" i;
    score = g.float_of "1";
    reason = "exact request match";
    candidate_count = n;
  }

  abbrev pub nearest_result : Interaction → g.Float → ℕ → MatchResult g.Float
  nearest_result i score n = record {
    tier = tier_nearest_neighbor;
    interaction =
        tagged tier_nearest_neighbor
          (append_text "nearest request match score=" (g.two_decimals score)) i;
    score = score;
    reason = "nearest request match";
    candidate_count = n;
  }

  abbrev pub synthesis_result : ℕ → Result Interaction → Result (MatchResult g.Float)
  synthesis_result n (err e) = err e
  synthesis_result n (ok i) = ok (record {
    tier = tier_state_synthesis;
    interaction = tagged tier_state_synthesis "state synthesis hook" i;
    score = g.float_of "1";
    reason = "state synthesis hook";
    candidate_count = n;
  })

  -- The third tier, and the error where there is none.
  abbrev pub synthesize :
      Bool → Option Synthesizer → Interaction → List Interaction → Result (MatchResult g.Float)
  synthesize true (some s) request candidates =
      synthesis_result (length candidates) (s request candidates)
  synthesize allowed s request candidates = err (rejected "fallback match not found")

  abbrev pub try_exact : Bool → List Interaction → Interaction → Option Interaction
  try_exact allowed candidates request = if allowed then exact_match candidates request else none

  abbrev pub try_nearest : Bool → List Interaction → Interaction → Option (Interaction × g.Float)
  try_nearest allowed candidates request =
      if allowed then nearest_match candidates request else none

  -- `Match`
  unfoldable pub find_match : Matcher → Interaction → Result (MatchResult g.Float)
  unfolding compatible_candidates exact_match nearest_match
  find_match m request =
      let candidates = compatible_candidates m.recorded request in
      elim (try_exact (contains m.allowed tier_exact) candidates request) [
        | some i ↦ ok (exact_result i (length candidates))
        | none ↦ elim (try_nearest (contains m.allowed tier_nearest_neighbor) candidates request) [
          | some (i, score) ↦ ok (nearest_result i score (length candidates))
          | none ↦
              synthesize (contains m.allowed tier_state_synthesis) m.synthesizer request candidates
        ]
      ]
