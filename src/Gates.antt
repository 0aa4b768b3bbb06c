-- ===== src/Gates.antt =====
-- internal/analysis/gates: release gates, each translated into one assertion (schema.go, evaluate.go).
-- The code finds a gate's name by its assertion's identifier, which its index makes unique; here it
-- stands beside the assertion. `numbered` is fmt.Sprintf("gate-%03d", n).
pub mod Schema
pub mod Tests
pub mod Clauses
pub mod Translating
pub mod Holding
use staging_platform.Base.{
  ℕ, suc, String, Bool, true, false, not, ◌&&◌, Option, none, some, List, [], ◌∷◌, ◌++◌, map,
  append_text, if◌then◌else◌, ◌==◌, is_blank, ◌⊎◌, inl, inr,
}
use staging_platform.Base.Problems.{Problem, says, text, within, item, adds, adds_text, is_empty}
use staging_platform.Gates.Schema.{
  GateSelector, BlockIf, RequireOrder, RequireApproval, MaxAmount, AllowedValues, Gate, File,
  file_problems,
}
use staging_platform.Assertions.Validation.{match_problems}
use staging_platform.Base.Int.{pos}
use staging_platform.Recorder.{Run, contains}
use staging_platform.Standard.{Standard}
use staging_platform.Assertions.{
  ResultStatus, passed, failed, unsupported, CountExpectation, Evidence, Verdict, evaluate_count,
  evaluate_ordering,
}
use staging_platform.Assertions.Matching.{Selection, base_action_keys}

-- What a gate's assertion looks for: a count of zero, or two interactions in order.
pub data Condition (F : Type 0) : Type 0 where
  blocks : Selection F → Condition F
  orders : Selection F → Selection F → Condition F

pub record GateResult : Type 0 where
  pub gate_name : String
  pub gate_type : String
  pub assertion_id : String
  pub status : ResultStatus
  pub message : String
  pub evidence : Evidence

pub record GateSummary : Type 0 where
  pub total : ℕ
  pub passed_gates : ℕ
  pub failed_gates : ℕ
  pub unsupported_gates : ℕ

pub record GateEvaluation : Type 0 where
  pub status : ResultStatus
  pub summary : GateSummary
  pub results : List GateResult

unfoldable pub match_from_selector : {F : Type 0} → GateSelector → Selection F
match_from_selector s = record {
  service = s.service;
  operation = s.operation;
  tool = s.tool;
  interaction_id = "";
  event_type = "";
  fallback_tier = "";
  side_effect = s.side_effect;
  destination_type = s.destination_type;
  amount_gt = none;
  approval_missing = none;
  channel = "";
  channel_not_in = [];
  domain = "";
  domain_not_in = [];
  new_action = none;
  unknown_risk = none;
}

abbrev any_action : GateSelector
any_action = record {
  service = "";
  operation = "";
  tool = "";
  side_effect = "";
  destination_type = "";
}

-- The cases of the switch of `assertionForGate`.
unfoldable pub block_condition : {F : Type 0} → BlockIf F → Condition F
unfolding match_from_selector
block_condition b = blocks (record (match_from_selector b.selector) {
  amount_gt = b.amount_gt;
  approval_missing = if b.approval_missing then some true else none;
  channel = b.channel;
  domain = b.domain;
  new_action = b.new_action;
  unknown_risk = b.unknown_risk;
})

unfoldable pub order_condition : {F : Type 0} → RequireOrder → Condition F
unfolding match_from_selector
order_condition o = orders (match_from_selector o.before) (match_from_selector o.after)

unfoldable pub approval_condition : {F : Type 0} → RequireApproval F → Condition F
unfolding match_from_selector
approval_condition a = blocks (record (match_from_selector a.selector) {
  amount_gt = a.amount_gt;
  approval_missing = some true;
})

unfoldable pub amount_condition : {F : Type 0} → MaxAmount F → Condition F
unfolding match_from_selector
amount_condition m = blocks (record (match_from_selector m.selector) { amount_gt = m.amount })

unfoldable pub channels_condition : {F : Type 0} → AllowedValues → Condition F
unfolding match_from_selector
channels_condition a =
    blocks (record (match_from_selector a.selector) { channel_not_in = a.values })

unfoldable pub domains_condition : {F : Type 0} → AllowedValues → Condition F
unfolding match_from_selector
domains_condition a = blocks (record (match_from_selector a.selector) { domain_not_in = a.values })

unfoldable pub new_action_condition : {F : Type 0} → GateSelector → Condition F
unfolding match_from_selector
new_action_condition s = blocks (record (match_from_selector s) { new_action = some true })

unfoldable pub unknown_risk_condition : {F : Type 0} → GateSelector → Condition F
unfolding match_from_selector
unknown_risk_condition s = blocks (record (match_from_selector s) { unknown_risk = some true })

abbrev invalid_gate : {F : Type 0} → Condition F
invalid_gate =
    blocks (record (match_from_selector any_action) { interaction_id = "__invalid_gate__" })

-- A switch over what is set: the first case that is, or the default.
abbrev pub first_set : {A : Type 0} → A → List (Option A) → A
first_set default [] = default
first_set default (some a ∷ os) = a
first_set default (none ∷ os) = first_set default os

abbrev pub mapped : {A B : Type 0} → (A → B) → Option A → Option B
mapped f none = none
mapped f (some a) = some (f a)

abbrev pub conditions : {F : Type 0} → Gate F → List (Option (Condition F))
conditions gate =
    mapped block_condition gate.block_if
    ∷ mapped order_condition gate.require_order
    ∷ mapped approval_condition gate.require_approval
    ∷ mapped amount_condition gate.max_amount
    ∷ mapped channels_condition gate.allowed_channels
    ∷ mapped domains_condition gate.allowed_domains
    ∷ mapped new_action_condition gate.forbid_new_action
    ∷ mapped unknown_risk_condition gate.forbid_unknown_risk
    ∷ []

-- The switch of `assertionForGate`.
unfoldable pub condition_of : {F : Type 0} → Gate F → Condition F
unfolding match_from_selector block_condition order_condition approval_condition amount_condition
    channels_condition domains_condition new_action_condition unknown_risk_condition
condition_of gate = first_set invalid_gate (conditions gate)

unfoldable pub gate_type : {F : Type 0} → Gate F → String
gate_type gate = first_set "unknown" (
    mapped (λ _. "block_if") gate.block_if
    ∷ mapped (λ _. "require_order") gate.require_order
    ∷ mapped (λ _. "require_approval") gate.require_approval
    ∷ mapped (λ _. "max_amount") gate.max_amount
    ∷ mapped (λ _. "allowed_channels") gate.allowed_channels
    ∷ mapped (λ _. "allowed_domains") gate.allowed_domains
    ∷ mapped (λ _. "forbid_new_action") gate.forbid_new_action
    ∷ mapped (λ _. "forbid_unknown_risk") gate.forbid_unknown_risk
    ∷ [])

-- `blockingAssertion`: at most zero interactions.
abbrev pub at_most_zero : CountExpectation
at_most_zero = record { equals = none; min = none; max = some (pos 0) }

abbrev is_ordering : {F : Type 0} → Condition F → Bool
is_ordering (blocks m) = false
is_ordering (orders before after) = true

-- The counts with one more status.
abbrev pub counted : ResultStatus → GateSummary → GateSummary
counted passed s = record s { total = suc s.total; passed_gates = suc s.passed_gates }
counted failed s = record s { total = suc s.total; failed_gates = suc s.failed_gates }
counted unsupported s = record s {
  total = suc s.total;
  unsupported_gates = suc s.unsupported_gates;
}

abbrev pub worse : ResultStatus → ResultStatus → ResultStatus
worse passed rest = rest
worse s rest = failed

unfoldable pub all_passed : GateEvaluation → Bool
all_passed e = e.summary.failed_gates == 0 && e.summary.unsupported_gates == 0

module _ (g : Standard) (host_from_url : String → String) (numbered : ℕ → String) where
  unfoldable pub gate_message : String → Bool → Verdict → String
  gate_message name ordering v = elim v.status [
    | passed ↦ append_text "gate " (append_text (g.quote name) " passed")
    | failed ↦ append_text "gate " (
        append_text (g.quote name) (
          if ordering
          then " failed: required order was not observed"
          else append_text " failed: " (
              append_text (g.sprint_int (pos v.evidence.count))
                " matching interaction(s) violated the gate")))
    | unsupported ↦
        append_text "gate " (append_text (g.quote name) (append_text " unsupported: " v.message))
  ]

  abbrev pub verdict_of : List String → Run → String → Condition g.Float → Verdict
  verdict_of base_keys run id (blocks m) =
      evaluate_count g host_from_url base_keys run id m at_most_zero
  verdict_of base_keys run id (orders before after) =
      evaluate_ordering g host_from_url base_keys run id before after

  unfoldable pub gate_result : List String → Run → ℕ → Gate g.Float → GateResult
  unfolding condition_of gate_type gate_message
  gate_result base_keys run idx gate =
      let v = verdict_of base_keys run (numbered (suc idx)) (condition_of gate) in
      record {
        gate_name = gate.name;
        gate_type = gate_type gate;
        assertion_id = v.assertion_id;
        status = v.status;
        message = gate_message gate.name (is_ordering (condition_of gate)) v;
        evidence = v.evidence;
      }

  unfoldable pub gate_results : List String → Run → ℕ → List (Gate g.Float) → List GateResult
  unfolding gate_result
  gate_results base_keys run idx [] = []
  gate_results base_keys run idx (gate ∷ gates) =
      gate_result base_keys run idx gate ∷ gate_results base_keys run (suc idx) gates

  -- The loop that counts.
  unfoldable pub count_results : List GateResult → GateSummary
  count_results [] = record { total = 0; passed_gates = 0; failed_gates = 0; unsupported_gates = 0 }
  count_results (r ∷ rs) = counted r.status (count_results rs)

  unfoldable pub overall : List GateResult → ResultStatus
  overall [] = passed
  overall (r ∷ rs) = worse r.status (overall rs)

  -- What `Validate` asks of an assertion that a gate translates to, in which only what it matches
  -- can be wrong.
  unfoldable pub condition_problems : Condition g.Float → List Problem
  unfolding match_problems
  condition_problems (blocks m) = map (within "match") (match_problems g m)
  condition_problems (orders before after) =
      map (within "before") (match_problems g before)
      ++ map (within "after") (match_problems g after)

  -- The loop of `Validate` over the translated assertions, with the identifiers seen.
  unfoldable pub assertions_problems : ℕ → List String → List (Gate g.Float) → List Problem
  unfolding condition_problems condition_of
  assertions_problems idx seen [] = []
  assertions_problems idx seen (gate ∷ gates) =
      let id = numbered (suc idx) in
      map (item "assertions" idx) (
        (if is_blank id
          then says "id is required" [] ∷ []
          else adds (contains seen id) (says "id %q is duplicated" (text id ∷ [])))
        ++ condition_problems (condition_of gate))
      ++ assertions_problems (suc idx) (id ∷ seen) gates

  -- `File.Validate` of the assertions that `Translate` makes, whose schema version is right.
  unfoldable pub translated_problems : List (Gate g.Float) → List Problem
  unfolding assertions_problems
  translated_problems gates =
      adds_text (is_empty gates) "assertions must contain at least one assertion"
      ++ assertions_problems 0 [] gates

  abbrev unless_problems :
      List Problem → List Problem ⊎ GateEvaluation → List Problem ⊎ GateEvaluation
  unless_problems [] next = next
  unless_problems (p ∷ ps) next = inl (p ∷ ps)

  -- `Evaluate`: the problems of the file or of its assertions, or the evaluation
  unfoldable pub evaluate_gates : Option Run → Run → File g.Float → List Problem ⊎ GateEvaluation
  unfolding gate_results count_results overall file_problems translated_problems
  evaluate_gates base candidate file =
      let results = gate_results (base_action_keys base) candidate 0 file.release_gates in
      unless_problems (file_problems g file) (
        unless_problems (translated_problems file.release_gates) (
          inr (record {
            status = overall results;
            summary = count_results results;
            results = results;
          })))
