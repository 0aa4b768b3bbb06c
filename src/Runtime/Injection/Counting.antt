-- ===== src/Runtime/Injection/Counting.antt =====
-- internal/runtime/injection/engine.go: the number that `Evaluate` gives a call.
use text.Mathlib.TextEquality.{eq_iff}
use staging_platform.Base.{
  ℕ, suc, ◌+◌, String, Bool, not, ◌&&◌, List, [], ◌∷◌, ◌≡◌, refl, sym, ap, ◌∙◌, str_eq, append_text,
  if◌then◌else◌, trim_space, Bool-cases, inl, inr, arith,
}
use staging_platform.Result.{ok, >>=-eq-ok, ok-injective}
use staging_platform.Runtime.Injection.{
  Machine, Rule, Request, Engine, Count, count_call, check_rules, new_engine, evaluate,
}

-- The service and the operation that a request calls: those of its tool where it names one.
abbrev pub called_service : Request → String
called_service r = if str_eq (trim_space r.tool) "" then trim_space r.service else "stagehand.tool"

abbrev pub called_operation : Request → String
called_operation r =
    if str_eq (trim_space r.tool) "" then trim_space r.operation else trim_space r.tool

-- What calls are counted by.
abbrev pub call_key : Request → String
call_key r = append_text (called_service r) (append_text "\0" (called_operation r))

-- A request without a service or an operation is refused, and not counted.
abbrev pub is_counted : Request → Bool
is_counted r = not (str_eq (called_service r) "") && not (str_eq (called_operation r) "")

-- How many of the requests are counted under the key?
abbrev pub calls_with : String → List Request → ℕ
calls_with key [] = 0
calls_with key (q ∷ qs) =
    (if is_counted q && str_eq (call_key q) key then 1 else 0) + calls_with key qs

-- What the counts say of the key.
abbrev pub calls_in : String → List Count → ℕ
calls_in key [] = 0
calls_in key (c ∷ cs) = if str_eq c.key key then c.calls else calls_in key cs

pub count_call-number :
    (x : Machine) (key : String) (cs : List Count) → (count_call x key cs).0 ≡ suc (calls_in key cs)
unfolding count_call
count_call-number x key [] = refl
count_call-number x key (c ∷ cs) = ground (arith, count_call-number x key cs)

count_call-calls_in :
    (x : Machine) (key other : String) (cs : List Count)
    → calls_in other (count_call x key cs).1
      ≡ (if str_eq key other then 1 else 0) + calls_in other cs
unfolding count_call
count_call-calls_in x key other [] = ground arith
count_call-calls_in x key other (c ∷ cs) = ground (
  arith,
  count_call-calls_in x key other cs,
  eq_iff c.key key,
  eq_iff c.key other,
  eq_iff key other,
)

module _ (x : Machine) where
  -- What `NewEngine` made of the rules, after `Evaluate` has run on the requests, the last of them
  -- first.
  pub data Ran (rules : List (Rule x.Float)) : List Request → Engine x → Type 0 where
    started : (source : x.Source) (e : Engine x) → new_engine x rules source ≡ ok e → Ran rules [] e
    asked :
        (earlier : List Request) (e : Engine x) (request : Request)
        → Ran rules earlier e
        → Ran rules (request ∷ earlier) (evaluate x e request).1

  new_engine-fields :
      (rules : List (Rule x.Float)) (source : x.Source) {e : Engine x}
      → new_engine x rules source ≡ ok e
      → (e.rules ≡ rules) × (e.counts ≡ [])
  unfolding new_engine
  new_engine-fields rules source {e} h =
      let (_, _, is_e) = >>=-eq-ok (check_rules x rules) _ h in
      (
        ap (λ (y : Engine x). y.rules) (sym (ok-injective is_e)),
        ap (λ (y : Engine x). y.counts) (sym (ok-injective is_e)),
      )

  -- A request that is counted adds one to its key.
  evaluate-counts :
      (e : Engine x) (request : Request)
      → (evaluate x e request).1.counts
        ≡ (if is_counted request then (count_call x (call_key request) e.counts).1 else e.counts)
  unfolding evaluate
  evaluate-counts e request = ground arith

  evaluate-rules : (e : Engine x) (request : Request) → (evaluate x e request).1.rules ≡ e.rules
  unfolding evaluate
  evaluate-rules e request = ground arith

  pub Ran-rules :
      {rules : List (Rule x.Float)} (earlier : List Request) (e : Engine x)
      → Ran rules earlier e
      → e.rules ≡ rules
  Ran-rules earlier e (started source e' h) = (new_engine-fields _ source h).0
  Ran-rules earlier e (asked before e' request r) =
      evaluate-rules e' request ∙ Ran-rules before e' r

  -- The counts are those of the requests so far.
  pub Ran-calls :
      {rules : List (Rule x.Float)} (key : String) (earlier : List Request) (e : Engine x)
      → Ran rules earlier e
      → calls_in key e.counts ≡ calls_with key earlier
  Ran-calls key earlier e (started source e' h) = ap (calls_in key) (new_engine-fields _ source h).1
  Ran-calls key earlier e (asked before e' request r) =
      let rest = Ran-calls key before e' r in
      ap (calls_in key) (evaluate-counts e' request) ∙ elim (Bool-cases (is_counted request)) [
        | inl t ↦ rw t (count_call-calls_in x (call_key request) key e'.counts ∙ ap (◌+◌ _) rest)
        | inr f ↦ rw f (rest ∙ omega arith)
      ]
