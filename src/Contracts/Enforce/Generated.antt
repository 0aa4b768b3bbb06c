-- ===== src/Contracts/Enforce/Generated.antt =====
-- internal/analysis/contracts/enforce.go: a run against the contract that it gives rise to.
use staging_platform.Base.{
  String, ◌≡◌, refl, ◌∙◌, Bool, true, not, ◌&&◌, ◌||◌, Option, none, some, List, [], ◌∷◌, map, All,
  str_eq, Bool-cases, Option-cases, inl, inr, arith,
}
use staging_platform.Base.Members.{All-map, All-of_mem, any_of_mem}
use text.Mathlib.TextEquality.{eq_iff}
use staging_platform.Recorder.{Run, Interaction}
use staging_platform.Standard.{Standard}
use staging_platform.Contracts.{
  ActionSelector, Contract, selector_from_interaction, selector_key, is_listed,
}
use staging_platform.Contracts.Generate.{GenerateOptions, generate_from_run}
use staging_platform.Contracts.Generate.Entries.{selects, listed-generated}
use staging_platform.Contracts.Enforce.{
  restricted_action_approval_missing, Violation, Keyed, add_violation, find_action,
  interaction_has_approval, violation_from, collect_violations, summarize, evaluate_valid,
}
use staging_platform.Contracts.Enforce.Admitted.{
  is_listed-find_action, collect-none, collect-unselected, collect-selected, summarize-total,
}

abbrev IsRestricted : Violation → Type 0
IsRestricted v = v.type ≡ restricted_action_approval_missing

IsRestricted-add :
    (key : String) (v : Violation) (ks : List Keyed)
    → IsRestricted v
    → All (λ (k : Keyed). IsRestricted k.violation) ks
    → All (λ (k : Keyed). IsRestricted k.violation) (add_violation key v ks)
unfolding add_violation
IsRestricted-add key v [] h hs = (h, tt)
IsRestricted-add key v (k ∷ ks) h hs = elim (Bool-cases (str_eq k.key key)) [
  | inl t ↦ rw t hs
  | inr f ↦ rw f (hs.0, IsRestricted-add key v ks h hs.1)
]

module _ (g : Standard) where
  -- The key of the interaction's selector is that of an action, allowed or restricted.
  abbrev IsCovered : Contract g.Float → Interaction → Type 0
  IsCovered c i =
      (s : ActionSelector)
      → selector_from_interaction g i ≡ some s
      → (is_listed (selector_key s) c.allowed_actions
          || is_listed (selector_key s) c.restricted_actions)
        ≡ true

  abbrev OnlyRestricted : Option Violation → Type 0
  OnlyRestricted none = Unit
  OnlyRestricted (some v) = IsRestricted v

  violation_from-covered :
      (c : Contract g.Float) (i : Interaction) (s : ActionSelector)
      → c.forbidden_actions ≡ []
      → (is_listed (selector_key s) c.allowed_actions
          || is_listed (selector_key s) c.restricted_actions)
        ≡ true
      → OnlyRestricted (violation_from g c i s)
  unfolding violation_from find_action
  violation_from-covered c i s f h =
      elim (is_listed-find_action (selector_key s) c.restricted_actions) [
        | inr (a, e, _) ↦
            elim (Bool-cases (a.requires_approval && not (interaction_has_approval g i a))) [
              | inl t ↦ rw (violation_from, f, find_action, e, t) refl
              | inr n ↦ rw (violation_from, f, find_action, e, n) tt
            ]
        | inl (e, n) ↦ elim (is_listed-find_action (selector_key s) c.allowed_actions) [
          | inr (a, e', _) ↦ rw (violation_from, f, find_action, e, e') tt
          | inl (e', n') ↦ cc (rw (n, n') at h)
        ]
      ]

  IsRestricted-collect :
      (c : Contract g.Float) (is : List Interaction) (ks : List Keyed)
      → c.forbidden_actions ≡ []
      → All (IsCovered c) is
      → All (λ (k : Keyed). IsRestricted k.violation) ks
      → All (λ (k : Keyed). IsRestricted k.violation) (collect_violations g c is ks)
  IsRestricted-collect c [] ks f h hs = rw (collect-none g c ks) hs
  IsRestricted-collect c (i ∷ is) ks f h hs = elim (Option-cases (selector_from_interaction g i)) [
    | inl e ↦ rw (collect-unselected g c i is ks e) (IsRestricted-collect c is ks f h.1 hs)
    | inr (s, e) ↦ elim (Option-cases (violation_from g c i s)) [
      | inl n ↦ rw (collect-selected g c i is ks e n) (IsRestricted-collect c is ks f h.1 hs)
      | inr (v, n) ↦
          let r : IsRestricted v = rw n at (violation_from-covered c i s f (h.0 s e)) in
          rw (collect-selected g c i is ks e n)
            (IsRestricted-collect c is _ f h.1 (IsRestricted-add _ v ks r hs))
    ]
  ]

  restricted-counted :
      (vs : List Violation)
      → All IsRestricted vs
      → ((summarize g vs).forbidden ≡ 0) × ((summarize g vs).unapproved ≡ 0)
  unfolding summarize
  restricted-counted [] h = (refl, refl)
  restricted-counted (v ∷ vs) h = rw h.0 (restricted-counted vs h.1)

  abbrev chosen : String → Interaction → Bool
  chosen key i = selects g key (selector_from_interaction g i)

  generated-IsCovered :
      (run : Run) (opts : GenerateOptions)
      → All (IsCovered (generate_from_run g run opts).0) run.interactions
  generated-IsCovered run opts = All-of_mem run.interactions λ i m s e.
      listed-generated g (selector_key s) run opts
      ∙ any_of_mem (chosen (selector_key s)) run.interactions m (rw (e, (eq_iff _ _).1 refl) refl)

  -- A run violates the contract that it gives rise to only where an approval is missing: no violation
  -- is of a forbidden or an unapproved action, and each counts as one of a restricted action.
  pub generate-evaluate :
      (run : Run) (opts : GenerateOptions)
      → let summary = (evaluate_valid g run (generate_from_run g run opts).0).summary in
        (summary.forbidden ≡ 0) × (summary.unapproved ≡ 0) × (summary.total ≡ summary.restricted)
  unfolding evaluate_valid generate_from_run
  generate-evaluate run opts =
      let c = (generate_from_run g run opts).0 in
      let found = collect_violations g c run.interactions [] in
      let violations = map (λ (k : Keyed). k.violation) found in
      let (no_forbidden, no_unapproved) = restricted-counted violations (
        All-map (λ (k : Keyed). k.violation) IsRestricted found
          (IsRestricted-collect c run.interactions [] refl (generated-IsCovered run opts) tt)) in
      (
        no_forbidden,
        no_unapproved,
        omega (arith, (summarize-total g violations).1, no_forbidden, no_unapproved),
      )
