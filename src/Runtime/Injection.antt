-- ===== src/Runtime/Injection.antt =====
-- internal/runtime/injection/engine.go: rules that put an error in the place of a call's response.
-- The numbers of type float64, `strings.ToLower` and the random source are parameters; a deep copy
-- of a value is the value.
pub mod Library
pub mod Total
pub mod Counting
pub mod Deciding
use staging_platform.Base.{
  ℕ, suc, zero, String, Bool, true, false, not, ◌&&◌, ◌||◌, Option, none, some, List, [], ◌∷◌, ltb,
  leb, ◌==◌, str_eq, append_text, if◌then◌else◌, trim_space, ◌+◌,
}
use staging_platform.Base.Int.{ℤ, pos, negsuc}
use staging_platform.Json.{Value, Fields, object, text, end, field}
use staging_platform.Result.{Result, ok, err, rejected, or_err, refuse_if, ◌>>=◌, ◌>>◌}
use staging_platform.Runtime.Injection.Library.{ResponseOverride, named_library}

-- What the code asks of the numbers of type float64, of texts and of the random source.
pub record Machine : Type 1 where
  pub Float : Type 0
  pub is_below_zero : Float → Bool
  pub is_above_one : Float → Bool
  pub is_at_most_zero : Float → Bool
  pub is_at_least_one : Float → Bool
  pub is_less : Float → Float → Bool
  pub to_lower : String → String
  pub Source : Type 0
  pub draw : Source → Float × Source

pub record Request : Type 0 where
  pub service : String
  pub operation : String
  pub tool : String

pub record Match (F : Type 0) : Type 0 where
  pub service : String
  pub operation : String
  pub tool : String
  pub nth_call : ℤ
  pub any_call : Bool
  pub probability : Option F

pub record Inject : Type 0 where
  pub library : String
  pub status : ℤ
  pub error : String
  pub latency_ms : ℤ
  pub body : Value

pub record Rule (F : Type 0) : Type 0 where
  pub match : Match F
  pub inject : Inject

pub record Provenance (F : Type 0) : Type 0 where
  pub rule_index : ℕ
  pub tool : String
  pub service : String
  pub operation : String
  pub call_number : ℕ
  pub nth_call : ℤ
  pub any_call : Bool
  pub probability : Option F
  pub library : String
  pub status : ℤ
  pub error : String
  pub latency_ms : ℤ

-- `Matched` is false where there is none.
pub record Decision (F : Type 0) : Type 0 where
  pub override : ResponseOverride
  pub provenance : Provenance F

pub record Count : Type 0 where
  pub key : String
  pub calls : ℕ

abbrev negative : ℤ → Bool
negative (pos n) = false
negative (negsuc n) = true

abbrev pub positive : ℤ → Bool
positive (pos zero) = false
positive (pos (suc n)) = true
positive (negsuc n) = false

abbrev pub equals : ℕ → ℤ → Bool
equals m (pos n) = m == n
equals m (negsuc n) = false

-- `value.(map[string]any)`
abbrev as_map : Value → Option Fields
as_map (object o) = some o
as_map v = none

abbrev http_status : ℤ → Bool
http_status (pos n) = leb 100 n && leb n 599
http_status (negsuc n) = false

abbrev pub injected_error : Fields
injected_error =
    field "error"
      (object (
        field "type" (text "invalid_request_error")
          (field "message" (text "Injected Stagehand error.") end)))
      end

abbrev or_injected_error : Option Fields → Fields
or_injected_error none = injected_error
or_injected_error (some o) = o

module _ (to_lower : String → String) where
  unfoldable pub resolve_inject : Inject → Bool → Result ResponseOverride
  resolve_inject i allow_tool_error =
      let library = trim_space i.library in
      let kind = to_lower (trim_space i.error) in
      if not (str_eq library "")
      then or_err (named_library library) (rejected "unknown named error library entry")
      else if not (str_eq kind "") && not (str_eq kind "timeout") && not allow_tool_error
      then err (rejected "inject error must be timeout when set")
      else if negative i.latency_ms
      then err (rejected "inject latency_ms must be greater than or equal to 0")
      else if str_eq kind "timeout"
      then ok (record { status = pos 0; error = "timeout"; latency_ms = i.latency_ms; body = none })
      else if allow_tool_error
      then (if str_eq kind ""
          then err (rejected "inject error is required for tool error injection")
          else ok (record {
            status = pos 0;
            error = kind;
            latency_ms = i.latency_ms;
            body = as_map i.body;
          }))
      else if not (http_status i.status)
      then err (rejected "inject status must be between 100 and 599 unless error is timeout")
      else ok (record {
        status = i.status;
        error = "";
        latency_ms = i.latency_ms;
        body = some (or_injected_error (as_map i.body));
      })

module _ (x : Machine) where
  abbrev for_tool : Rule x.Float → Bool
  for_tool r = not (str_eq (trim_space r.match.tool) "")

  abbrev outside_unit : Option x.Float → Bool
  outside_unit none = false
  outside_unit (some p) = x.is_below_zero p || x.is_above_one p

  -- The checks of `NewEngine` on what a rule matches.
  unfoldable pub check_match : Rule x.Float → Result (Unit {0})
  check_match r = do
    let no_service = str_eq (trim_space r.match.service) ""
    let no_operation = str_eq (trim_space r.match.operation) ""
    refuse_if (for_tool r && (not no_service || not no_operation))
        (rejected "match tool cannot be combined with service or operation")
    refuse_if (not (for_tool r) && no_service) (rejected "match service is required")
    refuse_if (not (for_tool r) && no_operation) (rejected "match operation is required")
    refuse_if (negative r.match.nth_call) (rejected "nth_call must be greater than or equal to 0")
    refuse_if (r.match.any_call && positive r.match.nth_call)
        (rejected "cannot set both nth_call and any_call")
    refuse_if (outside_unit r.match.probability) (rejected "probability must be between 0 and 1")

  -- The checks of `NewEngine` on one rule.
  unfoldable pub check_rule : Rule x.Float → Result (Unit {0})
  check_rule r = do check_match r; resolve_inject x.to_lower r.inject (for_tool r) >>= λ _. ok tt

  unfoldable pub check_rules : List (Rule x.Float) → Result (Unit {0})
  check_rules [] = ok tt
  check_rules (r ∷ rs) = do check_rule r; check_rules rs

  pub record Engine : Type 0 where
    pub rules : List (Rule x.Float)
    pub counts : List Count
    pub source : x.Source

  unfoldable pub new_engine : List (Rule x.Float) → x.Source → Result Engine
  new_engine rules source = do
    check_rules rules
    ok (record { rules = rules; counts = []; source = source })

  abbrev fires : Option x.Float → x.Source → Bool × x.Source
  fires none s = (true, s)
  fires (some p) s =
      if x.is_at_most_zero p
      then (false, s)
      else if x.is_at_least_one p
      then (true, s)
      else (x.is_less (x.draw s).0 p, (x.draw s).1)

  -- `matches`, with the random source that it leaves
  unfoldable pub matches : Rule x.Float → String → String → ℕ → x.Source → Bool × x.Source
  matches r service operation call s =
      let tool = trim_space r.match.tool in
      let match_service = if for_tool r then "stagehand.tool" else trim_space r.match.service in
      let match_operation = if for_tool r then tool else trim_space r.match.operation in
      if not (str_eq match_service service) || not (str_eq match_operation operation)
      then (false, s)
      else if positive r.match.nth_call && not (equals call r.match.nth_call)
      then (false, s)
      else fires r.match.probability s

  abbrev decision : Rule x.Float → ℕ → String → String → ℕ → ResponseOverride → Decision x.Float
  decision r index service operation call o = record {
    override = o;
    provenance = record {
      rule_index = index;
      tool = trim_space r.match.tool;
      service = service;
      operation = operation;
      call_number = call;
      nth_call = r.match.nth_call;
      any_call = r.match.any_call;
      probability = r.match.probability;
      library = trim_space r.inject.library;
      status = o.status;
      error = o.error;
      latency_ms = o.latency_ms;
    };
  }

  -- The loop of `Evaluate` over the rules: the first that matches decides.
  unfoldable pub first_match :
      List (Rule x.Float)
      → ℕ
      → String
      → String
      → ℕ
      → x.Source
      → Result (Option (Decision x.Float)) × x.Source
  first_match [] index service operation call s = (ok none, s)
  first_match (r ∷ rs) index service operation call s =
      let m = matches r service operation call s in
      let rest = first_match rs (suc index) service operation call m.1 in
      if m.0
      then (
        resolve_inject x.to_lower r.inject (for_tool r)
            >>= (λ o. ok (some (decision r index service operation call o))),
        m.1,
      )
      else rest

  -- `e.counts[key]++`, with the new count
  unfoldable pub count_call : String → List Count → ℕ × List Count
  count_call key [] = (1, record { key = key; calls = 1 } ∷ [])
  count_call key (c ∷ cs) =
      let rest = count_call key cs in
      if str_eq c.key key
      then (suc c.calls, record c { calls = suc c.calls } ∷ cs)
      else (rest.0, c ∷ rest.1)

  unfoldable pub evaluate : Engine → Request → Result (Option (Decision x.Float)) × Engine
  evaluate e request =
      let tool = trim_space request.tool in
      let is_tool = not (str_eq tool "") in
      let service = if is_tool then "stagehand.tool" else trim_space request.service in
      let operation = if is_tool then tool else trim_space request.operation in
      if str_eq service "" || str_eq operation ""
      then (err (rejected "error injection request service and operation are required"), e)
      else (let counted = count_call (append_text service (append_text "\0" operation)) e.counts in
          let found = first_match e.rules 0 service operation counted.0 e.source in
          (found.0, record { rules = e.rules; counts = counted.1; source = found.1 }))
