-- ===== src/Contracts/Schema.antt =====
-- internal/analysis/contracts/schema.go: `Validate` of a contract.
use mathlib.Core.List.{flatten}
use staging_platform.Base.{
  ℕ, suc, String, Bool, true, false, not, ◌&&◌, ◌||◌, Option, none, some, List, [], ◌∷◌, ◌++◌, map,
  ltb, str_eq, append_text, if◌then◌else◌, is_blank, trim_space, any,
}
use staging_platform.Base.Problems.{Problem, says, within, item, text, adds, adds_text, is_empty}
use staging_platform.Recorder.{contains, valid_fallback_tiers}
use staging_platform.Standard.{Standard}
use staging_platform.Contracts.{
  Action, ApprovalRequirement, ActionSelector, UserOverride, Contract, schema_version,
  valid_side_effects, valid_approval_sources, action_selector,
}

-- `validateActionSelector`: the problems, and the key of a selector that is well formed
unfoldable pub selector_problems : ActionSelector → List Problem
selector_problems s =
    if is_blank s.tool
    then flatten (
        adds_text (is_blank s.service) "service is required when tool is not set"
        ∷ adds_text (is_blank s.operation) "operation is required when tool is not set"
        ∷ [])
    else adds_text (not (is_blank s.service) || not (is_blank s.operation))
        "tool cannot be combined with service or operation"

unfoldable pub valid_selector_key : ActionSelector → Option String
valid_selector_key s =
    if is_blank s.tool
    then (if is_blank s.service || is_blank s.operation
        then none
        else some (
            append_text "service:" (
              append_text (trim_space s.service)
                (append_text "\noperation:" (trim_space s.operation)))))
    else if not (is_blank s.service) || not (is_blank s.operation)
    then none
    else some (append_text "tool:" (trim_space s.tool))

unfoldable pub side_effect_problems : String → Bool → List Problem
side_effect_problems s required =
    if str_eq s ""
    then adds_text required "side_effect is required"
    else adds (not (contains valid_side_effects s))
        (says "side_effect must be one of %q, %q, %q, %q, %q, %q" (map text valid_side_effects))

-- slices.Index
abbrev tier_index : List String → String → Option ℕ
tier_index [] t = none
tier_index (x ∷ xs) t =
    let rest = tier_index xs t in
    if str_eq x t then some 0 else elim rest [ none ↦ none | some n ↦ some (suc n) ]

-- The loop of `validateFallbackTiers`, with the tiers seen and one more than the last index.
unfoldable pub tier_problems : ℕ → List String → ℕ → List String → List Problem
tier_problems idx seen next [] = []
tier_problems idx seen next (t ∷ ts) = elim (tier_index valid_fallback_tiers t) [
  | none ↦
      item "allowed_fallback_tiers" idx (says "contains invalid fallback tier %q" (text t ∷ []))
      ∷ tier_problems (suc idx) seen next ts
  | some n ↦
      if contains seen t
      then says "allowed_fallback_tiers contains duplicate fallback tier %q" (text t ∷ [])
        ∷ tier_problems (suc idx) seen next ts
      else if ltb (suc n) next
      then says "allowed_fallback_tiers must keep tiers in canonical order" []
        ∷ tier_problems (suc idx) (t ∷ seen) next ts
      else tier_problems (suc idx) (t ∷ seen) (suc n) ts
]

-- The loop of `validateStringSet`, with the values seen.
unfoldable pub string_set_problems : String → ℕ → List String → List String → List Problem
string_set_problems name idx seen [] = []
string_set_problems name idx seen (v ∷ vs) =
    let repeated = contains seen (trim_space v) in
    let rest =
      string_set_problems name (suc idx)
        (if is_blank v || repeated then seen else trim_space v ∷ seen) vs in
    if is_blank v
    then item name idx (says "cannot be empty" []) ∷ rest
    else if repeated
    then says (append_text name " contains duplicate value %q") (text (trim_space v) ∷ []) ∷ rest
    else rest

unfoldable pub approval_problems : Bool → Option ApprovalRequirement → List Problem
approval_problems required none = []
approval_problems required (some a) =
    adds_text (not required) "approval cannot be set unless requires_approval is true"
    ++ adds (not (contains valid_approval_sources a.source))
        (says "approval.source must be one of %q, %q, %q" (map text valid_approval_sources))

-- Where a selector stands already, and the selectors with their places.
pub record Place : Type 0 where
  pub key : String
  pub list : String
  pub index : ℕ

module _ (g : Standard) where
  abbrev max_amount_problems : Option g.Float → List Problem
  max_amount_problems none = []
  max_amount_problems (some x) =
      adds_text (g.is_negative x) "max_amount must be greater than or equal to 0"

  -- What `validateActionList` asks of one action, apart from its place.
  unfoldable pub action_problems : Bool → Action g.Float → List Problem
  action_problems require_reason a = flatten (
      side_effect_problems a.side_effect true
      ∷ tier_problems 0 [] 0 a.allowed_fallback_tiers
      ∷ max_amount_problems a.max_amount
      ∷ approval_problems a.requires_approval a.approval
      ∷ adds_text (require_reason && is_blank a.reason) "reason is required for forbidden actions"
      ∷ [])

  abbrev taken : List Place → Option String → Bool
  taken seen none = false
  taken seen (some key) = any {A = Place} (λ p. str_eq p.key key) seen

  abbrev with_place : String → ℕ → Option String → List Place → List Place
  with_place list idx none seen = seen
  with_place list idx (some key) seen = record { key = key; list = list; index = idx } ∷ seen

  -- `validateActionList`, with the places of the selectors seen; it returns those too.
  unfoldable pub action_list_problems :
      String → Bool → ℕ → List Place → List (Action g.Float) → List Problem × List Place
  action_list_problems list reason idx seen [] = ([], seen)
  action_list_problems list reason idx seen (a ∷ as') =
      let key = valid_selector_key (action_selector a) in
      let rest =
        action_list_problems list reason (suc idx)
          (if taken seen key then seen else with_place list idx key seen) as' in
      (
        map (item list idx) (
              selector_problems (action_selector a)
              ++ (adds_text (taken seen key) "duplicates action selector already defined"
                  ++ action_problems reason a))
            ++ rest.0,
        rest.1,
      )

  abbrev is_none : {A : Type 0} → Option A → Bool
  is_none none = true
  is_none (some x) = false

  -- The loop of `validateUserOverrides`, with the identifiers seen.
  unfoldable pub override_problems : ℕ → List String → List (UserOverride g.Float) → List Problem
  override_problems idx seen [] = []
  override_problems idx seen (o ∷ os) =
      map (item "user_overrides" idx) (
        flatten (
          adds_text (is_blank o.id) "id is required"
          ∷ adds (not (is_blank o.id) && contains seen (trim_space o.id))
              (says "id %q is duplicated" (text (trim_space o.id) ∷ []))
          ∷ map (within "match") (selector_problems o.match)
          ∷ side_effect_problems o.side_effect false
          ∷ tier_problems 0 [] 0 o.allowed_fallback_tiers
          ∷ max_amount_problems o.max_amount
          ∷ adds_text
              (str_eq o.side_effect ""
                && is_empty o.allowed_fallback_tiers
                && is_none o.requires_approval
                && is_none o.max_amount)
              "must set at least one override field"
          ∷ adds_text (is_blank o.reason) "reason is required"
          ∷ adds_text (not (is_blank o.approved_at) && not (g.is_rfc3339 o.approved_at))
              "approved_at must be an RFC3339 timestamp"
          ∷ []))
      ++ override_problems (suc idx) (trim_space o.id ∷ seen) os

  -- `Validate`
  unfoldable pub contract_problems : Contract g.Float → List Problem
  contract_problems c =
      let allowed = action_list_problems "allowed_actions" false 0 [] c.allowed_actions in
      let restricted =
        action_list_problems "restricted_actions" false 0 allowed.1 c.restricted_actions in
      let forbidden =
        action_list_problems "forbidden_actions" true 0 restricted.1 c.forbidden_actions in
      flatten (
        adds (not (str_eq c.schema_version schema_version))
          (says "schema_version must be %q" (text schema_version ∷ []))
        ∷ adds_text (is_blank c.agent.name) "agent.name is required"
        ∷ string_set_problems "agent.models" 0 [] c.agent.models
        ∷ adds_text
            (is_empty c.allowed_actions
              && is_empty c.restricted_actions
              && is_empty c.forbidden_actions)
            "at least one action is required"
        ∷ allowed.0
        ∷ restricted.0
        ∷ forbidden.0
        ∷ override_problems 0 [] c.user_overrides
        ∷ [])
