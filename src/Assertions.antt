-- ===== src/Assertions.antt =====
-- internal/analysis/assertions: the assertions of a run that count, order, forbid or prohibit
-- (schema.go, evaluate.go). The host of a URL is an argument (`url_host`).
pub mod Matching
pub mod Verdicts
pub mod Validation
use staging_platform.Base.{
  ℕ, zero, suc, ◌+◌, String, Bool, true, false, not, ◌&&◌, ◌||◌, Option, none, some, List, [], ◌∷◌,
  ◌++◌, map, keep, find, any, length, str_eq, append_text, if◌then◌else◌, trim_space,
}
use staging_platform.Base.Int.{ℤ, pos, ltb_ℤ, leb_ℤ, eqb_ℤ}
use staging_platform.Base.Problems.{is_empty}
use staging_platform.Recorder.{Run, Interaction, contains}
use staging_platform.Standard.{Standard}
use staging_platform.Assertions.Matching.{Selection, matching_interactions}

pub data ResultStatus : Type 0 where
  passed failed unsupported : ResultStatus

pub record CountExpectation : Type 0 where
  pub equals : Option ℤ
  pub min : Option ℤ
  pub max : Option ℤ

-- `interactionEvidence` leaves the event out.
pub record Observed : Type 0 where
  pub interaction_id : String
  pub sequence : ℤ
  pub service : String
  pub operation : String
  pub fallback_tier : String

-- The parts of `Evidence` that these assertions fill in.
pub record Evidence : Type 0 where
  pub matched_interactions : List Observed
  pub violations : List Observed
  pub count : ℕ
  pub expected : Option CountExpectation
  pub before : Option Observed
  pub after : Option Observed
  pub disallowed_tiers : List String

pub record Verdict : Type 0 where
  pub assertion_id : String
  pub status : ResultStatus
  pub message : String
  pub evidence : Evidence

unfoldable pub interaction_evidence : Interaction → Observed
interaction_evidence i = record {
  interaction_id = i.interaction_id;
  sequence = i.sequence;
  service = i.service;
  operation = i.operation;
  fallback_tier = i.fallback_tier;
}

abbrev interaction_evidence_list : List Interaction → List Observed
interaction_evidence_list = map interaction_evidence

abbrev counting : ℕ → Evidence
counting n = record {
  matched_interactions = [];
  violations = [];
  count = n;
  expected = none;
  before = none;
  after = none;
  disallowed_tiers = [];
}

abbrev meets : Option ℤ → (ℤ → Bool) → Bool
meets none test = true
meets (some n) test = test n

unfoldable pub count_passes : CountExpectation → ℕ → Bool
count_passes e n =
    meets e.equals (λ m. eqb_ℤ (pos n) m)
    && meets e.min (λ m. leb_ℤ m (pos n))
    && meets e.max (λ m. leb_ℤ (pos n) m)

-- A pair of interactions, the first before the second.
abbrev first_after : Interaction → List Interaction → Option (Interaction × Interaction)
first_after b [] = none
first_after b (a ∷ as') =
    let rest = first_after b as' in if ltb_ℤ b.sequence a.sequence then some (b, a) else rest

abbrev or_pair :
    Option (Interaction × Interaction)
    → Option (Interaction × Interaction)
    → Option (Interaction × Interaction)
or_pair none next = next
or_pair (some p) next = some p

-- The two loops of `evaluateOrdering`.
unfoldable pub select_pair :
    List Interaction → List Interaction → Option (Interaction × Interaction)
select_pair [] after = none
select_pair (b ∷ bs) after = or_pair (first_after b after) (select_pair bs after)

module _ (g : Standard) (host_from_url : String → String) where
  abbrev matching : List String → Selection g.Float → Run → List Interaction
  matching base_keys selection run =
      matching_interactions g host_from_url base_keys selection run.interactions

  abbrev says : String → String → String → String
  says kind id outcome =
      append_text kind
        (append_text " assertion " (append_text (g.quote id) (append_text " " outcome)))

  abbrev with_count : String → ℕ → String → String
  with_count before_it n after_it =
      append_text before_it (append_text (g.sprint_int (pos n)) after_it)

  unfoldable pub evaluate_count :
      List String → Run → String → Selection g.Float → CountExpectation → Verdict
  unfolding count_passes interaction_evidence
  evaluate_count base_keys run id selection expect =
      let matches = matching base_keys selection run in
      let n = length matches in
      record {
        assertion_id = id;
        status = if count_passes expect n then passed else failed;
        message = says "count" id (
            with_count (if count_passes expect n then "passed: matched " else "failed: matched ") n
              " interactions");
        evidence = record (counting n) {
          matched_interactions = interaction_evidence_list matches;
          expected = some expect;
        };
      }

  abbrev in_order : String → ℕ → List Interaction → Option (Interaction × Interaction) → Verdict
  in_order id n both none = record {
    assertion_id = id;
    status = failed;
    message = says "ordering" id "failed: no before/after match pair was found in order";
    evidence = record (counting n) { matched_interactions = interaction_evidence_list both };
  }
  in_order id n both (some (b, a)) = record {
    assertion_id = id;
    status = passed;
    message = says "ordering" id (
        append_text "passed: "
          (append_text b.interaction_id (append_text " appears before " a.interaction_id)));
    evidence = record (counting n) {
      before = some (interaction_evidence b);
      after = some (interaction_evidence a);
    };
  }

  unfoldable pub evaluate_ordering :
      List String → Run → String → Selection g.Float → Selection g.Float → Verdict
  unfolding select_pair interaction_evidence
  evaluate_ordering base_keys run id before after =
      let befores = matching base_keys before run in
      let afters = matching base_keys after run in
      in_order id (length befores + length afters) (befores ++ afters) (select_pair befores afters)

  unfoldable pub evaluate_forbidden_operation :
      List String → Run → String → Selection g.Float → Verdict
  unfolding interaction_evidence
  evaluate_forbidden_operation base_keys run id selection =
      let matches = matching base_keys selection run in
      if not (is_empty matches)
      then record {
        assertion_id = id;
        status = failed;
        message =
            says "forbidden-operation" id
              (with_count "failed: found " (length matches) " forbidden interactions");
        evidence = record (counting (length matches)) {
          matched_interactions = interaction_evidence_list matches;
          violations = interaction_evidence_list matches;
        };
      }
      else record {
        assertion_id = id;
        status = passed;
        message = says "forbidden-operation" id "passed: no forbidden interactions found";
        evidence = counting 0;
      }

  unfoldable pub evaluate_fallback_prohibition :
      List String → Run → String → Selection g.Float → List String → Verdict
  unfolding interaction_evidence
  evaluate_fallback_prohibition base_keys run id selection tiers =
      let matches = matching base_keys selection run in
      let violations =
        keep (λ (i : Interaction). contains (map trim_space tiers) i.fallback_tier) matches in
      let evidence = record (counting (length matches)) {
        matched_interactions = interaction_evidence_list matches;
        disallowed_tiers = tiers;
      } in
      if not (is_empty violations)
      then record {
        assertion_id = id;
        status = failed;
        message =
            says "fallback-prohibition" id
              (with_count "failed: found " (length violations) " disallowed fallback usages");
        evidence = record evidence { violations = interaction_evidence_list violations };
      }
      else record {
        assertion_id = id;
        status = passed;
        message =
            says "fallback-prohibition" id
              (with_count "passed for " (length matches) " matched interactions");
        evidence = evidence;
      }
