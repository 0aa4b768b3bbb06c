-- ===== src/Contracts/Generate.antt =====
-- internal/analysis/contracts/generate.go: the contract that a run gives rise to. A Go map of
-- actions by key is a list of entries; the code sorts its keys before it reads them out.
pub mod Entries
use staging_platform.Base.{
  ℕ, suc, String, Bool, not, ◌&&◌, ◌||◌, Option, none, false, some, List, [], ◌∷◌, ◌++◌, map, ltb,
  leb, str_eq, if◌then◌else◌, is_blank, trim_space, keep, any, length,
}
use staging_platform.Base.Order.{text_le}
use staging_platform.Base.Sorting.{sort_by}
use staging_platform.Json.{Value, Items, Fields, number, text, array, object, end, field, nil, cons}
use staging_platform.Recorder.{Run, Interaction, contains, valid_fallback_tiers}
use staging_platform.Standard.{Standard}
use staging_platform.Contracts.{
  Action, ActionSelector, Contract, selector_from_interaction, selector_key, schema_version,
  side_effect_read, side_effect_unknown,
}
use staging_platform.Contracts.Classify.{
  ClassificationOverride, Classification, risk_rank, higher_risk, requires_approval,
  classify_with_overrides,
}

pub record GenerateOptions : Type 0 where
  pub agent_name : String
  pub classification_overrides : List ClassificationOverride

pub record GenerateSummary : Type 0 where
  pub allowed_actions : ℕ
  pub restricted_actions : ℕ
  pub forbidden_actions : ℕ
  pub models : List String
  pub unknown_risk : ℕ

-- `sortedStrings` of a set that is a list
abbrev pub add_text : List String → String → List String
add_text xs x = if contains xs x then xs else x ∷ xs

abbrev pub sorted_strings : List String → List String
sorted_strings = sort_by text_le

-- `fallbackTiersFromInteraction`
unfoldable pub fallback_tiers_from_interaction : Interaction → List String
fallback_tiers_from_interaction i =
    if contains valid_fallback_tiers i.fallback_tier then i.fallback_tier ∷ [] else []

abbrev index_in : List String → String → ℕ
index_in [] x = 0
index_in (y ∷ ys) x = let rest = index_in ys x in if str_eq x y then 0 else suc rest

-- `sortFallbackTiers`: an unknown tier stands last.
unfoldable pub sort_fallback_tiers : List String → List String
sort_fallback_tiers =
    sort_by λ a b. leb (index_in valid_fallback_tiers a) (index_in valid_fallback_tiers b)

-- The tiers with those of one more interaction.
unfoldable pub merge_tiers : List String → Interaction → List String
unfolding fallback_tiers_from_interaction sort_fallback_tiers
merge_tiers tiers i =
    sort_fallback_tiers
      (tiers ++ keep (λ t. not (contains tiers t)) (fallback_tiers_from_interaction i))

module _ (g : Standard) where
  -- `collectModels`, with the models in order of appearance
  mutual
    pub collect_models : Value → List String → List String
    collect_models (object o) models = collect_models_fields o models
    collect_models (array xs) models = collect_models_items xs models
    collect_models v models = models

    pub collect_models_fields : Fields → List String → List String
    collect_models_fields end models = models
    collect_models_fields (field k v fs) models =
        let model = trim_space (g.sprint v) in
        let found = if str_eq model "" then models else add_text models model in
        let nested = collect_models v models in
        collect_models_fields fs (if g.equal_fold k "model" then found else nested)

    pub collect_models_items : Items → List String → List String
    collect_models_items nil models = models
    collect_models_items (cons v vs) models = collect_models_items vs (collect_models v models)

  unfoldable pub observed_models : Value → List String
  observed_models v = sorted_strings (collect_models v [])

  -- `numericValue`
  unfoldable pub numeric_value : Value → Option g.Float
  numeric_value (number t) = some (g.float_of t)
  numeric_value (text t) = g.parse_float (trim_space t)
  numeric_value v = none

  abbrev or_next : Option g.Float → Option g.Float → Option g.Float
  or_next none next = next
  or_next (some x) next = some x

  -- `findNumericField`: the first field of the name decides, at any depth
  mutual
    pub find_numeric_field : String → Value → Option g.Float
    find_numeric_field target (object o) = find_numeric_fields target o
    find_numeric_field target (array xs) = find_numeric_items target xs
    find_numeric_field target v = none

    pub find_numeric_fields : String → Fields → Option g.Float
    find_numeric_fields target end = none
    find_numeric_fields target (field k v fs) =
        let nested = find_numeric_field target v in
        let rest = find_numeric_fields target fs in
        if g.equal_fold k target then numeric_value v else or_next nested rest

    pub find_numeric_items : String → Items → Option g.Float
    find_numeric_items target nil = none
    find_numeric_items target (cons v vs) =
        let rest = find_numeric_items target vs in or_next (find_numeric_field target v) rest

  abbrev larger : Option g.Float → Option g.Float → Option g.Float
  larger old none = old
  larger none (some x) = some x
  larger (some y) (some x) = if g.is_less y x then some x else some y

  -- An accumulator with its key.
  pub record Entry : Type 0 where
    pub key : String
    pub action : Action g.Float

  abbrev pub fresh_entry : ActionSelector → Entry
  fresh_entry s = record {
    key = selector_key s;
    action = record {
      service = s.service;
      operation = s.operation;
      tool = s.tool;
      side_effect = "";
      classifier_reason = "";
      allowed_fallback_tiers = [];
      requires_approval = false;
      approval = none;
      max_amount = none;
      reason = "";
    };
  }

  -- What one interaction adds to the action of its selector.
  unfoldable pub observe :
      List ClassificationOverride → Interaction → Action g.Float → Action g.Float
  observe overrides i a =
      let c = classify_with_overrides g i overrides in
      record a {
        classifier_reason =
            if ltb (risk_rank a.side_effect) (risk_rank c.side_effect)
              || is_blank a.classifier_reason
            then c.reason
            else a.classifier_reason;
        side_effect = higher_risk a.side_effect c.side_effect;
        allowed_fallback_tiers = merge_tiers a.allowed_fallback_tiers i;
        max_amount = larger a.max_amount (find_numeric_field "amount" i.request.body);
      }

  -- The entry of the key, changed, or a new one.
  unfoldable pub update_entry :
      ActionSelector → (Action g.Float → Action g.Float) → List Entry → List Entry
  update_entry s f [] = record (fresh_entry s) { action = f (fresh_entry s).action } ∷ []
  update_entry s f (e ∷ es) =
      let rest = update_entry s f es in
      if str_eq e.key (selector_key s) then record e { action = f e.action } ∷ es else e ∷ rest

  unfoldable pub accumulate :
      List ClassificationOverride → List Interaction → List Entry → List Entry
  unfolding observe update_entry
  accumulate overrides [] entries = entries
  accumulate overrides (i ∷ is) entries = elim (selector_from_interaction g i) [
    | none ↦ accumulate overrides is entries
    | some s ↦ accumulate overrides is (update_entry s (observe overrides i) entries)
  ]

  -- All models of the interactions that have a selector.
  unfoldable pub all_models : List Interaction → List String → List String
  all_models [] models = models
  all_models (i ∷ is) models = elim (selector_from_interaction g i) [
    | none ↦ all_models is models
    | some s ↦ all_models is (collect_models i.request.body models)
  ]

  -- The action as the file has it.
  abbrev pub settle : Action g.Float → Action g.Float
  settle a = if str_eq a.side_effect "" then record a { side_effect = side_effect_unknown } else a

  abbrev pub is_read : Action g.Float → Bool
  is_read a = str_eq a.side_effect side_effect_read

  abbrev pub with_approval : Action g.Float → Action g.Float
  with_approval a = record a { requires_approval = requires_approval a.side_effect }

  -- The settled actions in the order of their keys.
  unfoldable pub actions_by_key : Run → GenerateOptions → List (Action g.Float)
  unfolding accumulate
  actions_by_key run opts =
      map (λ (e : Entry). settle e.action)
        (sort_by (λ (a b : Entry). text_le a.key b.key)
          (accumulate opts.classification_overrides run.interactions []))

  unfoldable pub generate_from_run : Run → GenerateOptions → Contract g.Float × GenerateSummary
  unfolding actions_by_key all_models
  generate_from_run run opts =
      let actions = actions_by_key run opts in
      let models = sorted_strings (all_models run.interactions []) in
      let restricted = map with_approval (keep (λ a. not (is_read a)) actions) in
      (
        record {
          schema_version = schema_version;
          agent = record {
            name =
                if is_blank opts.agent_name then run.session_name else trim_space opts.agent_name;
            models = models;
          };
          allowed_actions = keep is_read actions;
          restricted_actions = restricted;
          forbidden_actions = [];
          user_overrides = [];
        },
        record {
          allowed_actions = length (keep is_read actions);
          restricted_actions = length restricted;
          forbidden_actions = 0;
          models = models;
          unknown_risk =
              length (
                keep (λ (a : Action g.Float). str_eq a.side_effect side_effect_unknown) restricted);
        },
      )
