-- ===== src/Assertions/Validation.antt =====
-- internal/analysis/assertions/schema.go: what `Validate` asks of what an assertion matches.
use mathlib.Core.List.{flatten}
use staging_platform.Base.{
  Bool, true, false, not, ◌&&◌, ◌||◌, Option, none, some, List, [], ◌∷◌, is_blank,
}
use staging_platform.Base.Problems.{Problem, adds_text, is_empty}
use staging_platform.Standard.{Standard}
use staging_platform.Contracts.Schema.{string_set_problems}
use staging_platform.Assertions.Matching.{Selection}

abbrev pub given : {A : Type 0} → Option A → Bool
given none = false
given (some a) = true

unfoldable pub has_match : {F : Type 0} → Selection F → Bool
has_match m =
    not (is_blank m.service)
    || not (is_blank m.operation)
    || not (is_blank m.tool)
    || not (is_blank m.interaction_id)
    || not (is_blank m.event_type)
    || not (is_blank m.fallback_tier)
    || not (is_blank m.side_effect)
    || not (is_blank m.destination_type)
    || given m.amount_gt
    || given m.approval_missing
    || not (is_blank m.channel)
    || not (is_empty m.channel_not_in)
    || not (is_blank m.domain)
    || not (is_empty m.domain_not_in)
    || given m.new_action
    || given m.unknown_risk

module _ (g : Standard) where
  abbrev pub below_zero : Option g.Float → Bool
  below_zero none = false
  below_zero (some x) = g.is_negative x

  -- `validateMatch`
  unfoldable pub match_problems : Selection g.Float → List Problem
  unfolding has_match string_set_problems
  match_problems m = flatten (
      adds_text (not (has_match m)) "must set at least one selector field"
      ∷ adds_text
          (not (is_blank m.tool) && (not (is_blank m.service) || not (is_blank m.operation)))
          "tool cannot be combined with service or operation"
      ∷ adds_text (below_zero m.amount_gt) "amount_gt must be greater than or equal to 0"
      ∷ string_set_problems "channel_not_in" 0 [] m.channel_not_in
      ∷ string_set_problems "domain_not_in" 0 [] m.domain_not_in
      ∷ [])
