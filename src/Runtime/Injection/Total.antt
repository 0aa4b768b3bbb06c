-- ===== src/Runtime/Injection/Total.antt =====
-- internal/runtime/injection/engine.go: an engine that was made does not fail.
use staging_platform.Base.{
  ℕ, suc, String, Bool, true, false, not, ◌&&◌, ◌||◌, Option, none, List, [], ◌∷◌, ◌≡◌, refl, sym,
  ap, ◌∙◌, str_eq, if◌then◌else◌, trim_space, Bool-cases, inl, inr, arith,
}
use staging_platform.Result.{ok, >>=-eq-ok, ok-injective}
use staging_platform.Runtime.Injection.{
  Machine, Rule, Request, Decision, Engine, for_tool, resolve_inject, check_match, check_rule,
  check_rules, new_engine, matches, first_match, evaluate,
}
use staging_platform.Runtime.Injection.Library.{ResponseOverride}

module _ (x : Machine) where
  -- An engine that `NewEngine` made, after some calls of `Evaluate`.
  pub data Reached : Engine x → Type 0 where
    made :
        (rules : List (Rule x.Float)) (source : x.Source) (e : Engine x)
        → new_engine x rules source ≡ ok e
        → Reached e
    called : (e : Engine x) (request : Request) → Reached e → Reached (evaluate x e request).1

  -- The request names a tool, or a service and an operation.
  abbrev pub names_call : Request → Bool
  names_call r =
      not (str_eq (trim_space r.tool) "")
      || (not (str_eq (trim_space r.service) "") && not (str_eq (trim_space r.operation) ""))

  new_engine-checked :
      (rules : List (Rule x.Float)) (source : x.Source) {e : Engine x}
      → new_engine x rules source ≡ ok e
      → check_rules x e.rules ≡ ok tt
  unfolding new_engine
  new_engine-checked rules source {e} h =
      let (_, checked, is_e) = >>=-eq-ok (check_rules x rules) _ h in
      ap (λ (y : Engine x). check_rules x y.rules) (sym (ok-injective is_e)) ∙ checked

  evaluate-rules : (e : Engine x) (request : Request) → (evaluate x e request).1.rules ≡ e.rules
  unfolding evaluate
  evaluate-rules e request = ground arith

  Reached-checked : (e : Engine x) → Reached e → check_rules x e.rules ≡ ok tt
  Reached-checked e (made rules source e' h) = new_engine-checked rules source h
  Reached-checked e (called e' request r) =
      ap (check_rules x) (evaluate-rules e' request) ∙ Reached-checked e' r

  check_rule-resolves :
      (r : Rule x.Float)
      → check_rule x r ≡ ok tt
      → (o : ResponseOverride) × (resolve_inject x.to_lower r.inject (for_tool x r) ≡ ok o)
  unfolding check_rule
  check_rule-resolves r h =
      let (_, _, h1) = >>=-eq-ok (check_match x r) _ h in
      let (o, resolved, _) = >>=-eq-ok (resolve_inject x.to_lower r.inject (for_tool x r)) _ h1 in
      (o, resolved)

  first_match_total :
      (rules : List (Rule x.Float)) (index : ℕ) (service operation : String) (call : ℕ)
      (s : x.Source)
      → check_rules x rules ≡ ok tt
      → (d : Option (Decision x.Float)) × ((first_match x rules index service operation call s).0
          ≡ ok d)
  unfolding first_match check_rules
  first_match_total [] index service operation call s h = (none, refl)
  first_match_total (r ∷ rs) index service operation call s h =
      let (_, checked, rest) = >>=-eq-ok (check_rule x r) _ h in
      elim (Bool-cases (matches x r service operation call s).0) [
        | inl t ↦ let (o, resolved) = check_rule-resolves r checked in rw (t, resolved) (_, refl)
        | inr f ↦ rw f (
            first_match_total rs (suc index) service operation call
              (matches x r service operation call s).1 rest)
      ]

  names_call-not_refused :
      (r : Request)
      → names_call r ≡ true
      → let is_tool = not (str_eq (trim_space r.tool) "") in
        (str_eq (if is_tool then "stagehand.tool" else trim_space r.service) ""
          || str_eq (if is_tool then trim_space r.tool else trim_space r.operation) "")
        ≡ false
  names_call-not_refused r h = elim (Bool-cases (str_eq (trim_space r.tool) "")) [
    | inl t ↦ rw t (ground arith)
    | inr f ↦ rw (f, f) (ground arith)
  ]

  -- `Evaluate` does not fail on an engine that `NewEngine` made, after any calls of `Evaluate`, when
  -- the request names a tool, or a service and an operation, by a text that is not blank.
  pub evaluate_total :
      (e : Engine x) (request : Request)
      → Reached e
      → names_call request ≡ true
      → (d : Option (Decision x.Float)) × ((evaluate x e request).0 ≡ ok d)
  unfolding evaluate
  evaluate_total e request r named =
      rw (names_call-not_refused request named)
        (first_match_total e.rules 0 _ _ _ e.source (Reached-checked e r))
