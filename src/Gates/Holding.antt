-- ===== src/Gates/Holding.antt =====
-- internal/analysis/gates/evaluate.go: when all gates pass.
use mathlib.Core.List.{append-eq-nil_iff, map-eq-nil_iff}
use staging_platform.Base.{
  ℕ, suc, is_blank, String, ◌≡◌, refl, sym, ap, ◌∙◌, Bool, true, false, ◌&&◌, Option, none, some,
  List, [], ◌∷◌, all, map, length, ◌==◌, arith, inr,
}
use staging_platform.Base.Empty.{flatten-All-IsNil}
use staging_platform.Base.Problems.{item, item_problems, adds-nil}
use staging_platform.Recorder.{Run}
use staging_platform.Standard.{Standard}
use staging_platform.Assertions.Matching.{base_action_keys}
use staging_platform.Assertions.Verdicts.{verdict, evaluate_ordering-status, forbidding-status}
use staging_platform.Gates.Schema.{
  Gate, File, is_set, clauses_set, count_clauses, gate_problems, file_problems,
}
use staging_platform.Gates.{
  Condition, blocks, orders, GateEvaluation, GateResult, condition_of, verdict_of, gate_result,
  gate_results, count_results, overall, all_passed, evaluate_gates, mapped, first_set, conditions,
}
use staging_platform.Gates.Translating.{
  count_clauses-conditions, gate_problems-one, translated_problems-nil,
}
use staging_platform.Gates.Clauses.{
  if_present, holds, keeps, holds_block, holds_order, holds_approval, holds_amount, holds_channels,
  holds_domains, holds_new_action, holds_unknown_risk,
}
use staging_platform.Gates.Clauses.{
  block_condition-holds, order_condition-holds, approval_condition-holds, amount_condition-holds,
  channels_condition-holds, domains_condition-holds, new_action_condition-holds,
  unknown_risk_condition-holds,
}

and_true : (b : Bool) → (b && true) ≡ b
and_true true = refl
and_true false = refl

-- Nothing is set, so there is nothing to hold.
none_set-holds :
    {A : Type 0} (test : A → Bool) (os : List (Option A))
    → count_clauses (map is_set os) ≡ 0
    → all (if_present test) os ≡ true
unfolding count_clauses all
none_set-holds test [] h = refl
none_set-holds test (none ∷ os) h = none_set-holds test os h
none_set-holds test (some a ∷ os) h = absurd (omega (arith, h))

-- The one that is set decides.
one_set-holds :
    {A : Type 0} (test : A → Bool) (default : A) (os : List (Option A))
    → count_clauses (map is_set os) ≡ 1
    → test (first_set default os) ≡ all (if_present test) os
unfolding count_clauses all
one_set-holds test default [] h = absurd (omega (arith, h))
one_set-holds test default (none ∷ os) h = one_set-holds test default os h
one_set-holds test default (some a ∷ os) h =
    rw (none_set-holds test os (omega (arith, h))) (sym (and_true (test a)))

present-mapped :
    {A B : Type 0} (f : A → B) (test : B → Bool) (own : A → Bool) (o : Option A)
    → ((a : A) → test (f a) ≡ own a)
    → if_present test (mapped f o) ≡ if_present own o
present-mapped f test own none h = refl
present-mapped f test own (some a) h = h a

reassociate :
    (a b c d e f h k : Bool)
    → (a && (b && (c && (d && (e && (f && (h && (k && true))))))))
      ≡ (a && b && c && d && e && f && h && k)
reassociate a b c d e f h k = ground arith

module _ (g : Standard) (host_from_url : String → String) (numbered : ℕ → String) where
  module _ (base_keys : List String) (run : Run) where
    -- A gate with one clause translates to a condition that says what the clause asks.
    condition_of-holds :
        (gate : Gate g.Float)
        → count_clauses (clauses_set gate) ≡ 1
        → keeps g host_from_url base_keys run (condition_of gate)
          ≡ holds g host_from_url base_keys run gate
    unfolding condition_of all
    condition_of-holds gate one =
        one_set-holds (keeps g host_from_url base_keys run) _ (conditions gate)
          (count_clauses-conditions gate ∙ one)
        ∙ rw
            (
              present-mapped _ (keeps g host_from_url base_keys run) _ gate.block_if
                  (block_condition-holds g host_from_url base_keys run),
              present-mapped _ (keeps g host_from_url base_keys run) _ gate.require_order
                  (order_condition-holds g host_from_url base_keys run),
              present-mapped _ (keeps g host_from_url base_keys run) _ gate.require_approval
                  (approval_condition-holds g host_from_url base_keys run),
              present-mapped _ (keeps g host_from_url base_keys run) _ gate.max_amount
                  (amount_condition-holds g host_from_url base_keys run),
              present-mapped _ (keeps g host_from_url base_keys run) _ gate.allowed_channels
                  (channels_condition-holds g host_from_url base_keys run),
              present-mapped _ (keeps g host_from_url base_keys run) _ gate.allowed_domains
                  (domains_condition-holds g host_from_url base_keys run),
              present-mapped _ (keeps g host_from_url base_keys run) _ gate.forbid_new_action
                  (new_action_condition-holds g host_from_url base_keys run),
              present-mapped _ (keeps g host_from_url base_keys run) _ gate.forbid_unknown_risk
                  (unknown_risk_condition-holds g host_from_url base_keys run),
            )
            (reassociate (if_present (holds_block g host_from_url base_keys run) gate.block_if)
              (if_present (holds_order g host_from_url base_keys run) gate.require_order)
              (if_present (holds_approval g host_from_url base_keys run) gate.require_approval)
              (if_present (holds_amount g host_from_url base_keys run) gate.max_amount)
              (if_present (holds_channels g host_from_url base_keys run) gate.allowed_channels)
              (if_present (holds_domains g host_from_url base_keys run) gate.allowed_domains)
              (if_present (holds_new_action g host_from_url base_keys run) gate.forbid_new_action)
              (if_present (holds_unknown_risk g host_from_url base_keys run)
                gate.forbid_unknown_risk))

    all-holds :
        (idx : ℕ) (gates : List (Gate g.Float))
        → item_problems "release_gates" (gate_problems g) idx gates ≡ []
        → all
            (λ (gate : Gate g.Float). keeps g host_from_url base_keys run (condition_of gate))
            gates
          ≡ all (holds g host_from_url base_keys run) gates
    unfolding item_problems all
    all-holds idx [] h = refl
    all-holds idx (gate ∷ gates) h =
        let (here, rest) = append-eq-nil_iff.0 h in
        let own = (map-eq-nil_iff (item "release_gates" idx)).0 here in
        rw
          (
            condition_of-holds gate (gate_problems-one g host_from_url numbered gate own),
            all-holds (suc idx) gates rest,
          )
          refl

module _ (g : Standard) (host_from_url : String → String) (numbered : ℕ → String) where
  module _ (base_keys : List String) (run : Run) where
    verdict_of-status :
        (id : String) (c : Condition g.Float)
        → (verdict_of g host_from_url numbered base_keys run id c).status
          ≡ verdict (keeps g host_from_url base_keys run c)
    verdict_of-status id (blocks m) =
        (forbidding-status g host_from_url base_keys run id m []).1
        ∙ (forbidding-status g host_from_url base_keys run id m []).0
    verdict_of-status id (orders before after) =
        evaluate_ordering-status g host_from_url base_keys run id before after

    -- What the counts and the status of the results say.
    abbrev Says : List GateResult → Bool → ℕ → Type 0
    Says rs b n =
        (overall g host_from_url numbered rs ≡ verdict b)
        × ((count_results g host_from_url numbered rs).total ≡ n)
        × ((count_results g host_from_url numbered rs).unsupported_gates ≡ 0)
        × (((count_results g host_from_url numbered rs).failed_gates == 0) ≡ b)

    Says-cons :
        (r : GateResult) (rs : List GateResult) (b c : Bool) (n : ℕ)
        → r.status ≡ verdict c
        → Says rs b n
        → Says (r ∷ rs) (c && b) (suc n)
    unfolding overall count_results
    Says-cons r rs b true n e (o, t, u, f) = rw e (o, ap suc t, u, f)
    Says-cons r rs b false n e (o, t, u, f) = rw e (refl, ap suc t, u, ground arith)

    gate_result-status :
        (idx : ℕ) (gate : Gate g.Float)
        → (gate_result g host_from_url numbered base_keys run idx gate).status
          ≡ verdict (keeps g host_from_url base_keys run (condition_of gate))
    unfolding gate_result
    gate_result-status idx gate = verdict_of-status (numbered (suc idx)) (condition_of gate)

    gate_results-Says :
        (idx : ℕ) (gates : List (Gate g.Float))
        → Says
            (gate_results g host_from_url numbered base_keys run idx gates)
            (all
              (λ (gate : Gate g.Float). keeps g host_from_url base_keys run (condition_of gate))
              gates)
            (length gates)
    unfolding gate_results overall count_results all
    gate_results-Says idx [] = (refl, refl, refl, ground arith)
    gate_results-Says idx (gate ∷ gates) =
        Says-cons (gate_result g host_from_url numbered base_keys run idx gate) _ _ _ _
          (gate_result-status idx gate) (gate_results-Says (suc idx) gates)

  -- Let the identifiers that the code makes of numbers be different and not blank. A file of gates
  -- that `Validate` accepts is evaluated without an error, and passes exactly when each clause that is
  -- set holds of the run: an order, where an interaction of the first action stands before one of the
  -- second; any other clause, where no interaction of the action is as the clause forbids. Each gate is
  -- counted, none is unsupported, and `AllPassed` agrees with the status.
  pub evaluate_gates-holds :
      (base : Option Run) (candidate : Run) (file : File g.Float)
      → ((n : ℕ) → is_blank (numbered n) ≡ false)
      → ((n m : ℕ) → numbered n ≡ numbered m → n ≡ m)
      → file_problems g file ≡ []
      → let held =
          all (holds g host_from_url (base_action_keys base) candidate) file.release_gates in
        (e : GateEvaluation) × (evaluate_gates g host_from_url numbered base candidate file ≡ inr e)
        × (e.status ≡ verdict held)
        × (e.summary.total ≡ length file.release_gates)
        × (e.summary.unsupported_gates ≡ 0)
        × (all_passed e ≡ held)
  unfolding evaluate_gates all_passed file_problems
  evaluate_gates-holds base candidate file named distinct valid =
      let (_, (nonempty, (gates, _))) = flatten-All-IsNil _ valid in
      let translated =
        translated_problems-nil g host_from_url numbered named distinct file.release_gates
          (adds-nil _ _ nonempty) gates in
      let same =
        all-holds g host_from_url numbered (base_action_keys base) candidate 0 file.release_gates
          gates in
      let (o, t, u, f) = gate_results-Says (base_action_keys base) candidate 0 file.release_gates in
      let results =
        gate_results g host_from_url numbered (base_action_keys base) candidate 0
          file.release_gates in
      (
        record {
          status = overall g host_from_url numbered results;
          summary = count_results g host_from_url numbered results;
          results = results;
        },
        rw (valid, translated) refl,
        o ∙ ap verdict same,
        t,
        u,
        ground (arith, u, f) ∙ same,
      )
