-- ===== src/Contracts/Enforce.antt =====
-- internal/analysis/contracts/enforce.go: a run against a contract. The violations by key and the
-- order of their keys are one list here; where the code ranges over a map, the order of the fields
-- stands for the order it meets them in.
pub mod Admitted
pub mod Generated
use staging_platform.Base.{
  ℕ, suc, String, Bool, true, false, not, ◌&&◌, ◌||◌, Option, none, some, List, [], ◌∷◌, ◌++◌, map,
  any, str_eq, append_text, if◌then◌else◌, is_blank, trim_space, length, keep, zero, ◌⊎◌, inl, inr,
}
use staging_platform.Base.Int.{ℤ}
use staging_platform.Base.Problems.{Problem}
use staging_platform.Json.{
  Value, Items, Fields, null, bool, number, text, array, object, end, field, nil, cons,
}
use staging_platform.Recorder.{Run, Interaction, Event, contains}
use staging_platform.Standard.{Standard}
use staging_platform.Contracts.{
  Action, ApprovalRequirement, ActionSelector, Contract, get_field, selector_from_interaction,
  selector_key, action_selector,
}
use staging_platform.Contracts.Schema.{contract_problems}
use staging_platform.Contracts.Classify.{classify_interaction}

pub data ViolationType : Type 0 where
  new_unapproved_action forbidden_action restricted_action_approval_missing : ViolationType

pub record InteractionEvidence : Type 0 where
  pub run_id : String
  pub interaction_id : String
  pub sequence : ℤ
  pub service : String
  pub operation : String
  pub tool : String
  pub request_method : String
  pub request_url : String
  pub fallback_tier : String

pub record Violation : Type 0 where
  pub type : ViolationType
  pub service : String
  pub operation : String
  pub tool : String
  pub side_effect : String
  pub reason : String
  pub evidence : List InteractionEvidence

pub record EvaluationSummary : Type 0 where
  pub total : ℕ
  pub forbidden : ℕ
  pub restricted : ℕ
  pub unapproved : ℕ

-- `Status` is passed, or failed.
pub record EvaluationResult : Type 0 where
  pub passed : Bool
  pub summary : EvaluationSummary
  pub violations : List Violation

abbrev pub type_text : ViolationType → String
type_text new_unapproved_action = "new_unapproved_action"
type_text forbidden_action = "forbidden_action"
type_text restricted_action_approval_missing = "restricted_action_approval_missing"

abbrev pub is_forbidden : ViolationType → Bool
is_forbidden forbidden_action = true
is_forbidden t = false

abbrev pub is_restricted : ViolationType → Bool
is_restricted restricted_action_approval_missing = true
is_restricted t = false

abbrev pub is_unapproved : ViolationType → Bool
is_unapproved new_unapproved_action = true
is_unapproved t = false

abbrev pub violation_key : ViolationType → String → String
violation_key t key = append_text (type_text t) (append_text "\n" key)

unfoldable pub evidence_from_interaction : Interaction → ActionSelector → InteractionEvidence
evidence_from_interaction i s = record {
  run_id = i.run_id;
  interaction_id = i.interaction_id;
  sequence = i.sequence;
  service = s.service;
  operation = s.operation;
  tool = s.tool;
  request_method = i.request.method;
  request_url = i.request.url;
  fallback_tier = i.fallback_tier;
}

pub record Keyed : Type 0 where
  pub key : String
  pub violation : Violation

-- `addViolation`: more evidence for a violation that is there
unfoldable pub add_violation : String → Violation → List Keyed → List Keyed
add_violation key v [] = record { key = key; violation = v } ∷ []
add_violation key v (k ∷ ks) =
    let rest = add_violation key v ks in
    if str_eq k.key key
    then record k {
      violation = record k.violation { evidence = k.violation.evidence ++ v.evidence };
    }
      ∷ ks
    else k ∷ rest

-- `indexActions` and a look at the index: the last action with the key
unfoldable pub find_action : {F : Type 0} → String → List (Action F) → Option (Action F)
find_action key [] = none
find_action key (a ∷ as') = elim (find_action key as') [
  | some later ↦ some later
  | none ↦ if str_eq (selector_key (action_selector a)) key then some a else none
]

module _ (g : Standard) where
  -- The parts of a dotted path are followed from object to object.
  unfoldable pub follow : List String → Value → Value
  follow [] v = v
  follow (part ∷ parts) (object o) =
      let rest = follow parts (get_field (trim_space part) o) in
      if is_blank part then null else rest
  follow (part ∷ parts) v = null

  -- `valueAtPath`
  unfoldable pub value_at_path : Value → String → Value
  unfolding follow
  value_at_path v path = follow (g.split path ".") v

  abbrev pub is_null : Value → Bool
  is_null null = true
  is_null v = false

  -- A nil map in an interface is a map without fields.
  abbrev pub of_map : Option Fields → Value
  of_map none = object end
  of_map (some o) = object o

  abbrev event_items : List Event → Items
  event_items [] = nil
  event_items (e ∷ es) =
      cons
        (object (
          field "sequence" (number (g.sprint_int e.sequence))
            (field "type" (text e.type) (field "data" (of_map e.payload) end))))
        (event_items es)

  -- `interactionPathRoot`. The headers are a map of another Go type, which no path enters, as none
  -- enters an array.
  unfoldable pub interaction_path_root : Interaction → Value
  interaction_path_root i = object (
      field "interaction_id" (text i.interaction_id) (
        field "sequence" (number (g.sprint_int i.sequence)) (
          field "service" (text i.service) (
            field "operation" (text i.operation) (
              field "request"
                (object (
                  field "url" (text i.request.url) (
                    field "method" (text i.request.method)
                      (field "headers" (array nil) (field "body" i.request.body end)))))
                (field "events" (array (event_items i.events)) end))))))

  unfoldable pub is_approval_key : String → Bool
  is_approval_key key =
      contains
        ("approval" ∷ "approved" ∷ "approval_id" ∷ "approval_token" ∷ "human_approval"
          ∷ "approved_by" ∷ [])
        (g.to_lower (trim_space key))

  -- A number is printed by `fmt.Sprint`.
  unfoldable pub truthy : Value → Bool
  truthy null = false
  truthy (bool b) = b
  truthy (text t) = not (is_blank t) && not (g.equal_fold (trim_space t) "false")
  truthy (number n) = not (str_eq (g.sprint (number n)) "0")
  truthy v = true

  mutual
    unfolding is_approval_key truthy

    pub has_approval_evidence : Value → Bool
    has_approval_evidence (object o) = has_approval_fields o
    has_approval_evidence (array xs) = has_approval_items xs
    has_approval_evidence v = false

    pub has_approval_fields : Fields → Bool
    has_approval_fields end = false
    has_approval_fields (field k v fs) =
        (is_approval_key k && truthy v) || (has_approval_evidence v || has_approval_fields fs)

    pub has_approval_items : Items → Bool
    has_approval_items nil = false
    has_approval_items (cons v vs) = has_approval_evidence v || has_approval_items vs

  -- The evidence at the path that the action names.
  abbrev has_named_evidence : Interaction → Option ApprovalRequirement → Bool
  has_named_evidence i none = false
  has_named_evidence i (some a) =
      not (is_blank a.evidence_path)
      && (not (is_null (value_at_path (interaction_path_root i) a.evidence_path))
          || any {A = Event} (λ e. not (is_null (value_at_path (of_map e.payload) a.evidence_path)))
              i.events)

  unfoldable pub interaction_has_approval : Interaction → Action g.Float → Bool
  unfolding value_at_path interaction_path_root has_approval_evidence
  interaction_has_approval i a =
      has_named_evidence i a.approval
      || (has_approval_evidence i.request.body
          || any {A = Event} (λ e. has_approval_evidence (of_map e.payload)) i.events)

  abbrev pub violation_of :
      Interaction → ActionSelector → ViolationType → String → String → Violation
  violation_of i s type side_effect reason = record {
    type = type;
    service = s.service;
    operation = s.operation;
    tool = s.tool;
    side_effect = side_effect;
    reason = reason;
    evidence = evidence_from_interaction i s ∷ [];
  }

  -- The violation of one interaction, if it is one.
  unfoldable pub violation_from : Contract g.Float → Interaction → ActionSelector → Option Violation
  violation_from c i s = elim (find_action (selector_key s) c.forbidden_actions) [
    | some a ↦ some (violation_of i s forbidden_action a.side_effect (trim_space a.reason))
    | none ↦ elim (find_action (selector_key s) c.restricted_actions) [
      | some a ↦
          if a.requires_approval && not (interaction_has_approval i a)
          then some (
              violation_of i s restricted_action_approval_missing a.side_effect
                "restricted action requires approval but no approval evidence was captured")
          else none
      | none ↦ elim (find_action (selector_key s) c.allowed_actions) [
        | some a ↦ none
        | none ↦ some (
            violation_of i s new_unapproved_action (classify_interaction g i).side_effect
              "action is not present in allowed_actions, restricted_actions, or forbidden_actions")
      ]
    ]
  ]

  -- The loop over the interactions.
  unfoldable pub collect_violations : Contract g.Float → List Interaction → List Keyed → List Keyed
  unfolding violation_from add_violation
  collect_violations c [] found = found
  collect_violations c (i ∷ is) found = elim (selector_from_interaction g i) [
    | none ↦ collect_violations c is found
    | some s ↦ elim (violation_from c i s) [
      | none ↦ collect_violations c is found
      | some v ↦
          collect_violations c is (add_violation (violation_key v.type (selector_key s)) v found)
    ]
  ]

  abbrev pub is_zero : ℕ → Bool
  is_zero zero = true
  is_zero (suc n) = false

  -- The loop over the ordered keys, which counts.
  unfoldable pub summarize : List Violation → EvaluationSummary
  summarize [] = record { total = 0; forbidden = 0; restricted = 0; unapproved = 0 }
  summarize (v ∷ vs) =
      let s = summarize vs in
      record {
        total = suc s.total;
        forbidden = if is_forbidden v.type then suc s.forbidden else s.forbidden;
        restricted = if is_restricted v.type then suc s.restricted else s.restricted;
        unapproved = if is_unapproved v.type then suc s.unapproved else s.unapproved;
      }

  -- `Evaluate` for a contract that is valid
  unfoldable pub evaluate_valid : Run → Contract g.Float → EvaluationResult
  unfolding collect_violations summarize
  evaluate_valid run c =
      let violations =
        map (λ (k : Keyed). k.violation) (collect_violations c run.interactions []) in
      let summary = summarize violations in
      record { passed = is_zero summary.total; summary = summary; violations = violations }

  -- `Evaluate`: the problems of the contract, or the result
  unfoldable pub evaluate : Run → Contract g.Float → List Problem ⊎ EvaluationResult
  unfolding evaluate_valid
  evaluate run c = elim (contract_problems g c) [
    | [] ↦ inr (evaluate_valid run c)
    | p ∷ ps ↦ inl (p ∷ ps)
  ]
