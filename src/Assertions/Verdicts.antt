-- ===== src/Assertions/Verdicts.antt =====
-- internal/analysis/assertions/evaluate.go: when an assertion passes.
use staging_platform.Base.{
  ℕ, String, ◌≡◌, refl, sym, ap, ◌∙◌, Bool, true, false, not, ◌&&◌, ◌||◌, Option, none, some, List,
  [], ◌∷◌, map, keep, any, length, if◌then◌else◌, trim_space, Bool-cases, inl, inr, arith,
}
use staging_platform.Base.Int.{pos, ltb_ℤ}
use staging_platform.Base.Problems.{is_empty}
use staging_platform.Recorder.{Run, Interaction, contains}
use staging_platform.Standard.{Standard}
use staging_platform.Assertions.Matching.{Selection, interaction_matches, matching_interactions}
use staging_platform.Assertions.{
  ResultStatus, passed, failed, CountExpectation, count_passes, first_after, or_pair, select_pair,
  in_order, evaluate_count, evaluate_ordering, evaluate_forbidden_operation,
  evaluate_fallback_prohibition,
}

-- The status of a test.
abbrev pub verdict : Bool → ResultStatus
verdict b = if b then passed else failed

is_empty-keep :
    (p : Interaction → Bool) (is : List Interaction) → is_empty (keep p is) ≡ not (any p is)
unfolding keep any
is_empty-keep p [] = refl
is_empty-keep p (i ∷ is) = elim (Bool-cases (p i)) [
  | inl t ↦ rw t refl
  | inr f ↦ rw f (is_empty-keep p is)
]

any-keep_and :
    (p q : Interaction → Bool) (is : List Interaction)
    → any q (keep p is) ≡ any (λ i. p i && q i) is
unfolding keep any
any-keep_and p q [] = refl
any-keep_and p q (i ∷ is) = ground (arith, any-keep_and p q is)

-- An expectation of at most `n`.
abbrev pub at_most : ℕ → CountExpectation
at_most n = record { equals = none; min = none; max = some (pos n) }

abbrev is_there : Option (Interaction × Interaction) → Bool
is_there none = false
is_there (some p) = true

is_there-first_after :
    (b : Interaction) (as' : List Interaction)
    → is_there (first_after b as') ≡ any (λ (a : Interaction). ltb_ℤ b.sequence a.sequence) as'
unfolding any
is_there-first_after b [] = refl
is_there-first_after b (a ∷ as') = elim (Bool-cases (ltb_ℤ b.sequence a.sequence)) [
  | inl t ↦ rw t refl
  | inr f ↦ rw f (is_there-first_after b as')
]

is_there-or_pair :
    (o next : Option (Interaction × Interaction))
    → is_there (or_pair o next) ≡ (is_there o || is_there next)
is_there-or_pair none next = refl
is_there-or_pair (some p) next = refl

is_there-select_pair :
    (befores afters : List Interaction)
    → is_there (select_pair befores afters)
      ≡ any
          (λ (b : Interaction). any (λ (a : Interaction). ltb_ℤ b.sequence a.sequence) afters)
          befores
unfolding select_pair any
is_there-select_pair [] afters = refl
is_there-select_pair (b ∷ bs) afters =
    rw
      (
        is_there-or_pair (first_after b afters) (select_pair bs afters),
        is_there-first_after b afters,
        is_there-select_pair bs afters,
      )
      refl

count_passes-at_most_zero :
    (is : List Interaction) → count_passes (at_most 0) (length is) ≡ is_empty is
unfolding count_passes
count_passes-at_most_zero [] = ground arith
count_passes-at_most_zero (i ∷ is) = ground arith

any_same :
    (p q : Interaction → Bool) (is : List Interaction)
    → ((i : Interaction) → p i ≡ q i)
    → any p is ≡ any q is
unfolding any
any_same p q [] h = refl
any_same p q (i ∷ is) h = rw (h i, any_same p q is h) refl

module _ (g : Standard) (host_from_url : String → String) (base_keys : List String)
    (run : Run) where
  abbrev chosen : Selection g.Float → Interaction → Bool
  chosen = interaction_matches g host_from_url base_keys

  in_order-status :
      (id : String) (n : ℕ) (both : List Interaction) (o : Option (Interaction × Interaction))
      → (in_order g host_from_url id n both o).status ≡ verdict (is_there o)
  in_order-status id n both none = refl
  in_order-status id n both (some p) = refl

  -- An ordering assertion passes exactly when an interaction that matches the one selection has a
  -- smaller sequence number than some interaction that matches the other.
  pub evaluate_ordering-status :
      (id : String) (before after : Selection g.Float)
      → (evaluate_ordering g host_from_url base_keys run id before after).status
        ≡ verdict (
            any
              (λ (b : Interaction).
                chosen before b
                && any
                    (λ (a : Interaction). chosen after a && ltb_ℤ b.sequence a.sequence)
                    run.interactions)
              run.interactions)
  unfolding evaluate_ordering matching_interactions
  evaluate_ordering-status id before after =
      in_order-status id _ _ _
      ∙ ap verdict (
          is_there-select_pair _ _
          ∙ any-keep_and (chosen before) _ run.interactions
          ∙ any_same _ _ run.interactions λ b.
            ap (λ (t : Bool). chosen before b && t)
              (any-keep_and (chosen after) (λ (a : Interaction). ltb_ℤ b.sequence a.sequence)
                run.interactions))

  forbidden-status :
      (id : String) (selection : Selection g.Float)
      → (evaluate_forbidden_operation g host_from_url base_keys run id selection).status
        ≡ verdict
            (is_empty (matching_interactions g host_from_url base_keys selection run.interactions))
  unfolding evaluate_forbidden_operation
  forbidden-status id selection =
      elim (Bool-cases
        (is_empty (matching_interactions g host_from_url base_keys selection run.interactions))) [
          | inl t ↦ rw t refl
          | inr f ↦ rw f refl
        ]

  prohibited-status :
      (id : String) (selection : Selection g.Float) (tiers : List String)
      → (evaluate_fallback_prohibition g host_from_url base_keys run id selection tiers).status
        ≡ verdict (
            is_empty (
              keep
                (λ (i : Interaction). contains (map trim_space tiers) i.fallback_tier)
                (matching_interactions g host_from_url base_keys selection run.interactions)))
  unfolding evaluate_fallback_prohibition
  prohibited-status id selection tiers =
      elim (Bool-cases (
        is_empty (
          keep (λ (i : Interaction). contains (map trim_space tiers) i.fallback_tier)
            (matching_interactions g host_from_url base_keys selection run.interactions)))) [
              | inl t ↦ rw t refl
              | inr f ↦ rw f refl
            ]

  -- A forbidden-operation assertion, a count of at most zero and a prohibition of the tiers come to
  -- verdicts that say which interactions there are: the first two, the same one, pass exactly when no
  -- interaction of the run matches; the third, when none that matches has a disallowed tier.
  pub forbidding-status :
      (id : String) (selection : Selection g.Float) (tiers : List String)
      → ((evaluate_forbidden_operation g host_from_url base_keys run id selection).status
          ≡ verdict (not (any (chosen selection) run.interactions)))
        × ((evaluate_count g host_from_url base_keys run id selection (at_most 0)).status
            ≡ (evaluate_forbidden_operation g host_from_url base_keys run id selection).status)
        × ((evaluate_fallback_prohibition g host_from_url base_keys run id selection tiers).status
            ≡ verdict (
                not (
                  any
                    (λ (i : Interaction).
                      chosen selection i && contains (map trim_space tiers) i.fallback_tier)
                    run.interactions)))
  unfolding evaluate_forbidden_operation evaluate_count evaluate_fallback_prohibition count_passes
      matching_interactions
  forbidding-status id selection tiers =
      let found = matching_interactions g host_from_url base_keys selection run.interactions in
      (
        forbidden-status id selection
            ∙ ap verdict (is_empty-keep (chosen selection) run.interactions),
        ap verdict (count_passes-at_most_zero found) ∙ sym (forbidden-status id selection),
        prohibited-status id selection tiers
            ∙ ap verdict (
                is_empty-keep (λ (i : Interaction). contains (map trim_space tiers) i.fallback_tier)
                  found
                ∙ ap not (
                    any-keep_and (chosen selection)
                      (λ (i : Interaction). contains (map trim_space tiers) i.fallback_tier)
                      run.interactions)),
      )
