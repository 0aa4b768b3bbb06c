-- ===== src/Gates/Schema.antt =====
-- internal/analysis/gates/schema.go: the file of release gates and its `Validate`.
use mathlib.Core.List.{flatten}
use staging_platform.Base.{
  ℕ, suc, String, Bool, true, false, not, ◌&&◌, ◌||◌, Option, none, some, List, [], ◌∷◌, ◌++◌, map,
  str_eq, is_blank, if◌then◌else◌, ◌==◌,
}
use staging_platform.Base.Problems.{
  Problem, says, text, within, item_problems, adds, adds_text, is_empty,
}
use staging_platform.Recorder.{contains}
use staging_platform.Standard.{Standard}
use staging_platform.Assertions.Validation.{given}
use staging_platform.Contracts.{valid_side_effects}
use staging_platform.Contracts.Schema.{string_set_problems}

pub record GateSelector : Type 0 where
  pub service : String
  pub operation : String
  pub tool : String
  pub side_effect : String
  pub destination_type : String

pub record BlockIf (F : Type 0) : Type 0 where
  pub selector : GateSelector
  pub amount_gt : Option F
  pub approval_missing : Bool
  pub channel : String
  pub domain : String
  pub new_action : Option Bool
  pub unknown_risk : Option Bool

pub record RequireOrder : Type 0 where
  pub before : GateSelector
  pub after : GateSelector

pub record RequireApproval (F : Type 0) : Type 0 where
  pub selector : GateSelector
  pub amount_gt : Option F

pub record MaxAmount (F : Type 0) : Type 0 where
  pub selector : GateSelector
  pub amount : Option F

pub record AllowedValues : Type 0 where
  pub selector : GateSelector
  pub values : List String

pub record Gate (F : Type 0) : Type 0 where
  pub name : String
  pub block_if : Option (BlockIf F)
  pub require_order : Option RequireOrder
  pub require_approval : Option (RequireApproval F)
  pub max_amount : Option (MaxAmount F)
  pub allowed_channels : Option AllowedValues
  pub allowed_domains : Option AllowedValues
  pub forbid_new_action : Option GateSelector
  pub forbid_unknown_risk : Option GateSelector

pub record File (F : Type 0) : Type 0 where
  pub schema_version : String
  pub release_gates : List (Gate F)

abbrev pub gates_schema_version : String
gates_schema_version = "v1alpha1"

abbrev pub is_set : {A : Type 0} → Option A → Bool
is_set o = given o

-- The clauses of a gate in the order of the code, by whether they are set.
abbrev pub clauses_set : {F : Type 0} → Gate F → List Bool
clauses_set gate =
    is_set gate.block_if
    ∷ is_set gate.require_order
    ∷ is_set gate.require_approval
    ∷ is_set gate.max_amount
    ∷ is_set gate.allowed_channels
    ∷ is_set gate.allowed_domains
    ∷ is_set gate.forbid_new_action
    ∷ is_set gate.forbid_unknown_risk
    ∷ []

unfoldable pub count_clauses : List Bool → ℕ
count_clauses [] = 0
count_clauses (b ∷ bs) = if b then suc (count_clauses bs) else count_clauses bs

unfoldable pub has_selector : GateSelector → Bool
has_selector s =
    not (is_blank s.service)
    || not (is_blank s.operation)
    || not (is_blank s.tool)
    || not (str_eq s.side_effect "")
    || not (is_blank s.destination_type)

-- `validateSelector`
unfoldable pub selector_problems : Bool → GateSelector → List Problem
selector_problems require_action s = flatten (
    adds_text (not (is_blank s.tool) && (not (is_blank s.service) || not (is_blank s.operation)))
      "tool cannot be combined with service or operation"
    ∷ adds_text (not (is_blank s.operation) && is_blank s.service && is_blank s.tool)
        "service is required when operation is set"
    ∷ adds_text (require_action && is_blank s.service && is_blank s.tool) "must set service or tool"
    ∷ adds (not (str_eq s.side_effect "") && not (contains valid_side_effects s.side_effect))
        (says "side_effect must be one of %q, %q, %q, %q, %q, %q" (map text valid_side_effects))
    ∷ [])

abbrev pub if_there : {A : Type 0} → String → (A → List Problem) → Option A → List Problem
if_there name problems none = []
if_there name problems (some a) = map (within name) (problems a)

unfoldable pub order_problems : RequireOrder → List Problem
unfolding selector_problems
order_problems o =
    map (within "before") (selector_problems true o.before)
    ++ map (within "after") (selector_problems true o.after)

unfoldable pub allowed_problems : AllowedValues → List Problem
unfolding selector_problems string_set_problems
allowed_problems a = flatten (
    selector_problems false a.selector
    ∷ string_set_problems "values" 0 [] a.values
    ∷ adds_text (is_empty a.values) "values must contain at least one value"
    ∷ [])

module _ (g : Standard) where
  abbrev below_zero : Option g.Float → Bool
  below_zero none = false
  below_zero (some x) = g.is_negative x

  unfoldable pub block_problems : BlockIf g.Float → List Problem
  unfolding selector_problems has_selector
  block_problems b = flatten (
      selector_problems false b.selector
      ∷ adds_text (below_zero b.amount_gt) "amount_gt must be greater than or equal to 0"
      ∷ adds_text
          (not (has_selector b.selector)
            && not (is_set b.amount_gt)
            && not b.approval_missing
            && is_blank b.channel
            && is_blank b.domain
            && not (is_set b.new_action)
            && not (is_set b.unknown_risk))
          "must set at least one condition field"
      ∷ [])

  unfoldable pub require_approval_problems : RequireApproval g.Float → List Problem
  unfolding selector_problems has_selector
  require_approval_problems a = flatten (
      selector_problems false a.selector
      ∷ adds_text (not (has_selector a.selector)) "must set at least one selector field"
      ∷ adds_text (below_zero a.amount_gt) "amount_gt must be greater than or equal to 0"
      ∷ [])

  unfoldable pub max_amount_problems : MaxAmount g.Float → List Problem
  unfolding selector_problems has_selector
  max_amount_problems m = flatten (
      selector_problems false m.selector
      ∷ adds_text (not (has_selector m.selector)) "must set at least one selector field"
      ∷ adds_text (not (is_set m.amount)) "amount is required"
      ∷ adds_text (below_zero m.amount) "amount must be greater than or equal to 0"
      ∷ [])

  unfoldable pub gate_problems : Gate g.Float → List Problem
  unfolding count_clauses block_problems order_problems require_approval_problems
      max_amount_problems allowed_problems selector_problems
  gate_problems gate = flatten (
      adds_text (is_blank gate.name) "name is required"
      ∷ adds_text (not (count_clauses (clauses_set gate) == 1)) "must set exactly one gate clause"
      ∷ if_there "block_if" block_problems gate.block_if
      ∷ if_there "require_order" order_problems gate.require_order
      ∷ if_there "require_approval" require_approval_problems gate.require_approval
      ∷ if_there "max_amount" max_amount_problems gate.max_amount
      ∷ if_there "allowed_channels" allowed_problems gate.allowed_channels
      ∷ if_there "allowed_domains" allowed_problems gate.allowed_domains
      ∷ if_there "forbid_new_action" (selector_problems false) gate.forbid_new_action
      ∷ if_there "forbid_unknown_risk" (selector_problems false) gate.forbid_unknown_risk
      ∷ [])

  unfoldable pub file_problems : File g.Float → List Problem
  unfolding gate_problems item_problems
  file_problems f = flatten (
      adds (not (str_eq f.schema_version gates_schema_version))
        (says "schema_version must be %q" (text gates_schema_version ∷ []))
      ∷ adds_text (is_empty f.release_gates) "release_gates must contain at least one gate"
      ∷ item_problems "release_gates" gate_problems 0 f.release_gates
      ∷ [])
