-- ===== src/Runtime/Injection/Deciding.antt =====
-- internal/runtime/injection/engine.go: what `Evaluate` decides, after the calls that an engine has
-- had.
use staging_platform.Base.{
  ℕ, suc, ◌+◌, String, Bool, true, false, not, ◌&&◌, ◌||◌, Option, none, some, List, [], ◌∷◌, ◌++◌,
  ◌≡◌, refl, sym, ap, ◌∙◌, subst, str_eq, if◌then◌else◌, trim_space, length, Bool-cases, ◌⊎◌, inl,
  inr, arith,
}
use staging_platform.Result.{ok, >>=-eq-ok, ok-injective}
use staging_platform.Runtime.Injection.{
  Machine, Rule, Request, Decision, Engine, for_tool, resolve_inject, matches, first_match, fires,
  count_call, evaluate, positive, equals,
}
use staging_platform.Runtime.Injection.Counting.{
  called_service, called_operation, call_key, calls_with, Ran, Ran-calls, Ran-rules,
  count_call-number,
}

module _ (x : Machine) where
  -- The service and the operation that a rule is for: those of its tool where it has one.
  abbrev pub rule_service : Rule x.Float → String
  rule_service r = if for_tool x r then "stagehand.tool" else trim_space r.match.service

  abbrev pub rule_operation : Rule x.Float → String
  rule_operation r = if for_tool x r then trim_space r.match.tool else trim_space r.match.operation

  -- Is the rule for this call of the operation: for each one, or for the one of its number?
  abbrev pub is_meant : Rule x.Float → String → String → ℕ → Bool
  is_meant r service operation call =
      str_eq (rule_service r) service
      && str_eq (rule_operation r) operation
      && (not (positive r.match.nth_call) || equals call r.match.nth_call)

  module _ (service operation : String) (call : ℕ) where
    -- A rule is passed over that is not meant, or whose probability does not let it fire. The random
    -- source `s` becomes `t`.
    abbrev pub Passes : Rule x.Float → x.Source → x.Source → Type 0
    Passes r s t =
        ((is_meant r service operation call ≡ false) × (t ≡ s))
        ⊎ ((is_meant r service operation call ≡ true)
            × (fires x r.match.probability s ≡ (false, t)))

    abbrev pub PassedOver : List (Rule x.Float) → x.Source → x.Source → Type 0
    PassedOver [] s t = t ≡ s
    PassedOver (r ∷ rs) s t = (u : x.Source) × Passes r s u × PassedOver rs u t

    -- The first rule that is meant and fires decides, with the override of its injection. `start` is
    -- the index of the first rule.
    pub record Decides (rules : List (Rule x.Float)) (start : ℕ) (s t : x.Source)
        (d : Decision x.Float) : Type 0 where
      pub before : List (Rule x.Float)
      pub rule : Rule x.Float
      pub later : List (Rule x.Float)
      pub reached : x.Source
      pub split : rules ≡ before ++ rule ∷ later
      pub passed_over : PassedOver before s reached
      pub meant : is_meant rule service operation call ≡ true
      pub fired : fires x rule.match.probability reached ≡ (true, t)
      pub index : d.provenance.rule_index ≡ start + length before
      pub same_service : d.provenance.service ≡ service
      pub same_operation : d.provenance.operation ≡ operation
      pub number : d.provenance.call_number ≡ call
      pub resolved : resolve_inject x.to_lower rule.inject (for_tool x rule) ≡ ok d.override

    -- What an outcome of the rules says: no decision where every rule is passed over.
    abbrev pub Explains :
        List (Rule x.Float) → ℕ → x.Source → x.Source → Option (Decision x.Float) → Type 0
    Explains rules start s t none = PassedOver rules s t
    Explains rules start s t (some d) = Decides rules start s t d

  gated :
      {S : Type 0} (a b p q : Bool) (s : S) (k : Bool × S)
      → (if not a || not b then (false, s) else if p && not q then (false, s) else k)
        ≡ (if a && b && (not p || q) then k else (false, s))
  gated false b p q s k = refl
  gated true false p q s k = refl
  gated true true false q s k = refl
  gated true true true false s k = refl
  gated true true true true s k = refl

  -- `matches` asks whether the rule is meant, and then whether it fires.
  matches-is_meant :
      (r : Rule x.Float) (service operation : String) (call : ℕ) (s : x.Source)
      → matches x r service operation call s
        ≡ (if is_meant r service operation call then fires x r.match.probability s else (false, s))
  unfolding matches
  matches-is_meant r service operation call s =
      gated (str_eq (rule_service r) service) (str_eq (rule_operation r) operation)
        (positive r.match.nth_call) (equals call r.match.nth_call) s (fires x r.match.probability s)

  pair_eq : {S : Type 0} {p : Bool × S} {b : Bool} → p.0 ≡ b → p ≡ (b, p.1)
  pair_eq {p = p} h = ap (λ b. (b, p.1)) h

  fired_of :
      {S : Type 0} (b : Bool) (s : S) (k p : Bool × S)
      → p ≡ (if b then k else (false, s))
      → p.0 ≡ true
      → (b ≡ true) × (k ≡ (true, p.1))
  fired_of {S} true s k p e h = (refl, sym e ∙ pair_eq {p = p} h)
  fired_of false s k p e h = absurd (cc (e, h))

  passed_of :
      {S : Type 0} (b : Bool) (s : S) (k p : Bool × S)
      → p ≡ (if b then k else (false, s))
      → p.0 ≡ false
      → ((b ≡ false) × (p.1 ≡ s)) ⊎ ((b ≡ true) × (k ≡ (false, p.1)))
  passed_of {S} true s k p e h = inr (refl, sym e ∙ pair_eq {p = p} h)
  passed_of {S} false s k p e h = inl (refl, ap (λ (q : Bool × S). q.1) e)

  Explains-later :
      (service operation : String) (call : ℕ) (r : Rule x.Float) (rs : List (Rule x.Float))
      (start : ℕ) (s u t : x.Source) (o : Option (Decision x.Float))
      → Passes service operation call r s u
      → Explains service operation call rs (suc start) u t o
      → Explains service operation call (r ∷ rs) start s t o
  Explains-later service operation call r rs start s u t none p h = (u, p, h)
  Explains-later service operation call r rs start s u t (some d) p h = record {
    before = r ∷ h.before;
    rule = h.rule;
    later = h.later;
    reached = h.reached;
    split = ap (◌∷◌ r) h.split;
    passed_over = (u, p, h.passed_over);
    meant = h.meant;
    fired = h.fired;
    index = omega (arith, h.index);
    same_service = h.same_service;
    same_operation = h.same_operation;
    number = h.number;
    resolved = h.resolved;
  }

  first_match-Explains :
      (rules : List (Rule x.Float)) (start : ℕ) (service operation : String) (call : ℕ)
      (s : x.Source) {o : Option (Decision x.Float)}
      → (first_match x rules start service operation call s).0 ≡ ok o
      → Explains service operation call rules start s
          (first_match x rules start service operation call s).1
          o
  unfolding first_match
  first_match-Explains [] start service operation call s h =
      subst (Explains service operation call [] start s s) (ok-injective h) refl
  first_match-Explains (r ∷ rs) start service operation call s {o} h =
      let m = matches x r service operation call s in
      elim (Bool-cases m.0) [
        | inl t ↦
            let (override, resolved, decided) =
              >>=-eq-ok (resolve_inject x.to_lower r.inject (for_tool x r)) _ (rw t at h) in
            let (meant, fired) =
              fired_of (is_meant r service operation call) s _ m
                (matches-is_meant r service operation call s) t in
            rw (first_match, t)
              (subst (Explains service operation call (r ∷ rs) start s m.1) (ok-injective decided)
                (record {
                  before = [];
                  rule = r;
                  later = rs;
                  reached = s;
                  split = refl;
                  passed_over = refl;
                  meant = meant;
                  fired = fired;
                  index = omega arith;
                  same_service = refl;
                  same_operation = refl;
                  number = refl;
                  resolved = resolved;
                }))
        | inr f ↦
            rw (first_match, f)
              (Explains-later service operation call r rs start s m.1 _ o
                (passed_of (is_meant r service operation call) s _ m
                  (matches-is_meant r service operation call s) f)
                (first_match-Explains rs (suc start) service operation call m.1 (rw f at h)))
      ]

  -- A request that is not refused goes to the rules with its service, its operation and its number.
  evaluate-first_match :
      (e : Engine x) (request : Request) {o : Option (Decision x.Float)}
      → (evaluate x e request).0 ≡ ok o
      → let found =
          first_match x e.rules 0
            (called_service request)
            (called_operation request)
            (count_call x (call_key request) e.counts).0
            e.source in
        (found.0 ≡ ok o) × ((evaluate x e request).1.source ≡ found.1)
  unfolding evaluate
  evaluate-first_match e request h = ground (arith, h)

  -- An engine that `NewEngine` made of some rules has run `Evaluate` on the requests `earlier`. When
  -- `Evaluate` on one more request returns no error, then of the rules in their order each is passed
  -- over, and there is no decision; or the first that is meant and fires makes it: the decision has
  -- the index of this rule, the service and the operation of the request, one more than the
  -- number of earlier requests counted with it, and the override of the rule's injection. A rule is
  -- meant for a call of its service and operation, or only for that of its `nth_call` where this is
  -- positive. The random source goes from rule to rule.
  pub evaluate-Explains :
      (rules : List (Rule x.Float)) (earlier : List Request) (e : Engine x) (request : Request)
      {o : Option (Decision x.Float)}
      → Ran x rules earlier e
      → (evaluate x e request).0 ≡ ok o
      → Explains
          (called_service request)
          (called_operation request)
          (suc (calls_with (call_key request) earlier))
          rules
          0
          e.source
          (evaluate x e request).1.source
          o
  evaluate-Explains rules earlier e request {o} ran h =
      let (found, left) = evaluate-first_match e request h in
      let number =
        count_call-number x (call_key request) e.counts
        ∙ ap suc (Ran-calls x (call_key request) earlier e ran) in
      let explained = first_match-Explains e.rules 0 _ _ _ e.source found in
      rw (left, sym number)
        (subst
          (λ (rs : List (Rule x.Float)).
            Explains (called_service request) (called_operation request)
              (count_call x (call_key request) e.counts).0 rs 0 e.source
              (first_match x e.rules 0 (called_service request) (called_operation request)
                (count_call x (call_key request) e.counts).0 e.source).1
              o)
          (Ran-rules x earlier e ran) explained)
