-- ===== src/Contracts/Enforce/Admitted.antt =====
-- internal/analysis/contracts/enforce.go: which runs pass.
use staging_platform.Base.{
  ℕ, suc, ◌+◌, String, ◌≡◌, refl, sym, ap, ◌∙◌, Bool, true, false, not, ◌&&◌, ◌||◌, Option, none,
  some, List, [], ◌∷◌, map, any, all, str_eq, if◌then◌else◌, Bool-cases, Option-cases, List-cases,
  ◌⊎◌, inl, inr, length, arith,
}
use staging_platform.Base.Problems.{Problem, is_empty}
use staging_platform.Recorder.{Run, Interaction}
use staging_platform.Standard.{Standard}
use staging_platform.Contracts.{
  Action, ActionSelector, Contract, selector_from_interaction, selector_key, action_selector,
  is_listed,
}
use staging_platform.Contracts.Schema.{contract_problems}
use staging_platform.Contracts.Enforce.{
  ViolationType, new_unapproved_action, forbidden_action, restricted_action_approval_missing,
  Violation, Keyed, EvaluationResult, EvaluationSummary, add_violation, find_action,
  interaction_has_approval, violation_from, violation_key, collect_violations, summarize,
  evaluate_valid, evaluate, is_zero, is_forbidden, is_restricted, is_unapproved,
}

pub is_listed-find_action :
    {F : Type 0} (key : String) (as' : List (Action F))
    → (find_action key as' ≡ none) × (is_listed key as' ≡ false)
      ⊎ (a : Action F) × (find_action key as' ≡ some a) × (is_listed key as' ≡ true)
unfolding find_action any
is_listed-find_action key [] = inl (refl, refl)
is_listed-find_action key (a ∷ as') = elim (is_listed-find_action key as') [
  | inr (b, e, t) ↦ inr (b, rw e refl, ground (arith, t))
  | inl (e, t) ↦ elim (Bool-cases (str_eq (selector_key (action_selector a)) key)) [
    | inl h ↦ inr (a, rw (e, h) refl, rw h refl)
    | inr h ↦ inl (rw (e, h) refl, rw (h, t) refl)
  ]
]

module _ (g : Standard) where
  abbrev admits_restricted :
      Contract g.Float → Interaction → String → Option (Action g.Float) → Bool
  admits_restricted c i key (some a) = not a.requires_approval || interaction_has_approval g i a
  admits_restricted c i key none = is_listed key c.allowed_actions

  -- Does the contract allow the action of the selector?
  abbrev pub admits_selector : Contract g.Float → Interaction → ActionSelector → Bool
  admits_selector c i s =
      not (is_listed (selector_key s) c.forbidden_actions)
      && admits_restricted c i (selector_key s) (find_action (selector_key s) c.restricted_actions)

  abbrev admits_action : Contract g.Float → Interaction → Option ActionSelector → Bool
  admits_action c i none = true
  admits_action c i (some s) = admits_selector c i s

  -- The interaction has no selector; or its action is not forbidden, and it is either a restricted one
  -- with the approval that it requires, or an allowed one.
  unfoldable pub is_admitted : Contract g.Float → Interaction → Bool
  is_admitted c i = admits_action c i (selector_from_interaction g i)

  abbrev pub is_none : Option Violation → Bool
  is_none none = true
  is_none (some v) = false

  violation_from-admits :
      (c : Contract g.Float) (i : Interaction) (s : ActionSelector)
      → is_none (violation_from g c i s) ≡ admits_selector c i s
  unfolding violation_from
  violation_from-admits c i s = elim (is_listed-find_action (selector_key s) c.forbidden_actions) [
    | inr (a, e, t) ↦ rw (violation_from, e, t) refl
    | inl (e, f) ↦ elim (is_listed-find_action (selector_key s) c.restricted_actions) [
      | inr (a, e', _) ↦
          elim (Bool-cases (a.requires_approval && not (interaction_has_approval g i a))) [
            | inl t ↦ rw (violation_from, e, f, e', t) (ground (arith, t))
            | inr n ↦ rw (violation_from, e, f, e', n) (ground (arith, n))
          ]
      | inl (e', _) ↦ elim (is_listed-find_action (selector_key s) c.allowed_actions) [
        | inr (a, e'', t) ↦ rw (violation_from, e, f, e', e'', t) refl
        | inl (e'', n) ↦ rw (violation_from, e, f, e', e'', n) refl
      ]
    ]
  ]

  -- The violations with that of one more interaction.
  abbrev pub added : List Keyed → String → Option Violation → List Keyed
  added found key none = found
  added found key (some v) = add_violation (violation_key v.type key) v found

  is_empty-add :
      (key : String) (v : Violation) (found : List Keyed)
      → is_empty (add_violation key v found) ≡ false
  unfolding add_violation
  is_empty-add key v [] = refl
  is_empty-add key v (k ∷ ks) = elim (Bool-cases (str_eq k.key key)) [
    | inl t ↦ rw t refl
    | inr f ↦ rw f refl
  ]

  pub collect-unselected :
      (c : Contract g.Float) (i : Interaction) (is : List Interaction) (found : List Keyed)
      → selector_from_interaction g i ≡ none
      → collect_violations g c (i ∷ is) found ≡ collect_violations g c is found
  unfolding collect_violations
  collect-unselected c i is found e = rw (collect_violations, e) refl

  pub collect-none :
      (c : Contract g.Float) (found : List Keyed) → collect_violations g c [] found ≡ found
  unfolding collect_violations
  collect-none c found = refl

  pub collect-selected :
      (c : Contract g.Float) (i : Interaction) (is : List Interaction) (found : List Keyed)
      {s : ActionSelector} {o : Option Violation}
      → selector_from_interaction g i ≡ some s
      → violation_from g c i s ≡ o
      → collect_violations g c (i ∷ is) found
        ≡ collect_violations g c is (added found (selector_key s) o)
  unfolding collect_violations
  collect-selected c i is found {o = none} e n = rw (collect_violations, e, n) refl
  collect-selected c i is found {o = some v} e n = rw (collect_violations, e, n) refl

  is_empty-collect :
      (c : Contract g.Float) (is : List Interaction) (found : List Keyed)
      → is_empty (collect_violations g c is found) ≡ (is_empty found && all (is_admitted c) is)
  unfolding all is_admitted
  is_empty-collect c [] found = ground (arith, collect-none c found)
  is_empty-collect c (i ∷ is) found = elim (Option-cases (selector_from_interaction g i)) [
    | inl e ↦ rw (collect-unselected c i is found e, is_empty-collect c is found, e) refl
    | inr (s, e) ↦ elim (Option-cases (violation_from g c i s)) [
      | inl n ↦
          rw
            (
              collect-selected c i is found e n,
              is_empty-collect c is found,
              e,
              sym (violation_from-admits c i s),
              n,
            )
            refl
      | inr (v, n) ↦
          rw
            (
              collect-selected c i is found e n,
              is_empty-collect c is (add_violation (violation_key v.type (selector_key s)) v found),
              is_empty-add (violation_key v.type (selector_key s)) v found,
              e,
              sym (violation_from-admits c i s),
              n,
            )
            (ground (arith))
    ]
  ]

  -- The sum of the three counts.
  abbrev pub counted : EvaluationSummary → ℕ
  counted s = s.forbidden + s.restricted + s.unapproved

  Counted-step :
      (t : ViolationType) (s : EvaluationSummary)
      → (if is_forbidden t then suc s.forbidden else s.forbidden)
          + (if is_restricted t then suc s.restricted else s.restricted)
          + (if is_unapproved t then suc s.unapproved else s.unapproved)
        ≡ suc (counted s)
  Counted-step new_unapproved_action s = omega arith
  Counted-step forbidden_action s = omega arith
  Counted-step restricted_action_approval_missing s = omega arith

  pub summarize-total :
      (vs : List Violation)
      → ((summarize g vs).total ≡ length vs) × ((summarize g vs).total ≡ counted (summarize g vs))
  unfolding summarize
  summarize-total [] = (refl, refl)
  summarize-total (v ∷ vs) = (
    ap suc (summarize-total vs).0,
    ap suc (summarize-total vs).1 ∙ sym (Counted-step v.type (summarize g vs)),
  )

  -- A passed result.
  abbrev pub has_passed : List Problem ⊎ EvaluationResult → Bool
  has_passed (inl ps) = false
  has_passed (inr r) = r.passed

  is_zero-length :
      (ks : List Keyed) → is_zero g (length (map (λ (k : Keyed). k.violation) ks)) ≡ is_empty ks
  is_zero-length [] = refl
  is_zero-length (k ∷ ks) = refl

  passed-admitted :
      (run : Run) (c : Contract g.Float)
      → (evaluate_valid g run c).passed ≡ all (is_admitted c) run.interactions
  unfolding evaluate_valid
  passed-admitted run c =
      rw
        (
          (summarize-total _).0,
          is_zero-length (collect_violations g c run.interactions []),
          is_empty-collect c run.interactions [],
        )
        refl

  -- A run passes a contract exactly when the contract is valid and admits every interaction of the run:
  -- one without a selector, or one whose action is not forbidden and is either restricted, with the
  -- approval that it requires, or else allowed.
  pub evaluate-passes_admitted :
      (run : Run) (c : Contract g.Float)
      → has_passed (evaluate g run c)
        ≡ (is_empty (contract_problems g c) && all (is_admitted c) run.interactions)
  unfolding evaluate
  evaluate-passes_admitted run c = elim (List-cases (contract_problems g c)) [
    | inl e ↦ rw (evaluate, e) (passed-admitted run c)
    | inr (p, ps, e) ↦ rw (evaluate, e) refl
  ]
