-- ===== src/Examples/Analysis.antt =====
-- The theorems on runs, contracts and the matcher at concrete inputs.
use mathlib.Core.List.{Memᴰ}
use staging_platform.Base.{
  inr, String, ◌≡◌, ◌≢◌, refl, true, false, none, some, List, [], ◌∷◌, All, ◌&&◌, all, ℕ, ltb, ◌≤◌,
  arith,
}
use staging_platform.Base.Problems.{is_empty}
use staging_platform.Result.{ok}
use staging_platform.Recorder.{Interaction, contains, tier_state_synthesis}
use staging_platform.Recorder.WellFormed.{IsWellFormed, run_problems-IsWellFormed}
use staging_platform.Runtime.Replay.{summarize_exact_source}
use staging_platform.Runtime.Replay.Distinct.{summary_of, summarize_exact_source-distinct}
use staging_platform.Contracts.{Contract}
use staging_platform.Contracts.Schema.{contract_problems}
use staging_platform.Contracts.Classify.{sql_verb_within, sql_verb}
use staging_platform.Contracts.Classify.Verb.{sql_verb_within-ends}
use staging_platform.Contracts.Generate.{GenerateOptions, generate_from_run}
use staging_platform.Contracts.Enforce.{evaluate, evaluate_valid}
use staging_platform.Contracts.Enforce.Admitted.{has_passed, is_admitted, evaluate-passes_admitted}
use staging_platform.Contracts.Enforce.Generated.{generate-evaluate}
use staging_platform.Contracts.Compare.{
  DiffResult, Orders, diff_of, changes_between, snapshots_from_run,
}
use staging_platform.Contracts.Risk.{score_risk, blocked, score_risk-level}
use staging_platform.Runtime.Fallback.{
  Matcher, MatchResult, is_compatible, find_match, exact_result,
}
use staging_platform.Runtime.Fallback.Tiers.{find_match-tiers}
use staging_platform.Runtime.Fallback.Recorded.{find_match-recorded, find_match-again}
use staging_platform.Runtime.Fallback.Nearest.{nearest_match-best}
use staging_platform.Runtime.Fallback.Requests.{exact_request_key}
use staging_platform.Runtime.Fallback.Similarity.{nearest_score, set_similarity}
use staging_platform.Runtime.Fallback.Symmetry.{set_similarity-symmetric}
use staging_platform.Json.{Value, null, text, object, end, field}
use staging_platform.Diff.{Options, compare_runs, report}
use staging_platform.Diff.Same.{compare_runs-same}
use staging_platform.Assertions.{
  passed, failed, evaluate_ordering, evaluate_count, evaluate_forbidden_operation,
  evaluate_fallback_prohibition,
}
use staging_platform.Assertions.Matching.{url_host, Selection}
use staging_platform.Assertions.Verdicts.{at_most, evaluate_ordering-status, forbidding-status}
use staging_platform.Gates.{GateEvaluation, evaluate_gates, all_passed}
use staging_platform.Gates.Schema.{GateSelector, Gate, File}
use staging_platform.Gates.Holding.{evaluate_gates-holds}
use staging_platform.Examples.Fixtures.{small_codec}
use staging_platform.Examples.Samples.{sample, sample_laws, paths, call, two_calls, one_call}
use staging_platform.Examples.Tally.{tally, tally-named, tally-distinct}
use staging_platform.Examples.Bundle.{analyse_all}

run_problems-IsWellFormed_example : IsWellFormed two_calls
unfolding analyse_all
run_problems-IsWellFormed_example = run_problems-IsWellFormed small_codec two_calls refl

summarize_exact_source-distinct_example :
    summarize_exact_source two_calls ≡ ok (summary_of two_calls)
unfolding analyse_all
summarize_exact_source-distinct_example = summarize_exact_source-distinct two_calls

abbrev options : GenerateOptions
options = record { agent_name = ""; classification_overrides = [] }

abbrev generated : Contract ℕ
generated = (generate_from_run sample two_calls options).0

evaluate-passes_admitted_example : has_passed sample (evaluate sample two_calls generated) ≡ (
    is_empty (contract_problems sample generated)
    && all (is_admitted sample generated) two_calls.interactions)
unfolding analyse_all
evaluate-passes_admitted_example = evaluate-passes_admitted sample two_calls generated

generate-evaluate_example :
    let summary = (evaluate_valid sample two_calls generated).summary in
    (summary.forbidden ≡ 0) × (summary.unapproved ≡ 0) × (summary.total ≡ summary.restricted)
generate-evaluate_example = generate-evaluate sample two_calls options

sql_verb_within-ends_example :
    sql_verb_within sample 40 "/* a */ SELECT" ≡ some (sql_verb sample "/* a */ SELECT ")
unfolding analyse_all
sql_verb_within-ends_example = sql_verb_within-ends sample "/* a */ SELECT " 40 (omega arith)

-- Two ways to range over the fields of each interaction.
abbrev as_stored : Orders
as_stored n key v = v

abbrev emptied : Orders
emptied n key v = null

abbrev one_new : DiffResult
one_new = diff_of sample one_call two_calls (
    changes_between sample (snapshots_from_run sample as_stored one_call)
      (snapshots_from_run sample as_stored two_calls))

score_risk-level_example :
    (score_risk sample one_new (evaluate_valid sample two_calls generated)).level ≡ blocked
unfolding analyse_all
score_risk-level_example =
    score_risk-level sample one_new (evaluate_valid sample two_calls generated)

abbrev exact_tier_only : List String
exact_tier_only = "exact" ∷ []

abbrev matcher : List String → Matcher
matcher tiers = record { recorded = two_calls.interactions; allowed = tiers; synthesizer = none }

abbrev again : MatchResult ℕ
again = exact_result sample paths (call "int_2" 2 "DELETE") 1

find_match-tiers_example :
    (contains exact_tier_only again.tier ≡ true)
    × (again.interaction.fallback_tier ≡ again.tier)
    × (again.candidate_count ≡ 1)
unfolding analyse_all
find_match-tiers_example =
    find_match-tiers sample paths two_calls.interactions exact_tier_only none
      {m = matcher exact_tier_only} (call "int_9" 9 "DELETE") {r = again} refl refl

not_synthesized : again.tier ≢ tier_state_synthesis
not_synthesized = cc

find_match-recorded_example :
    (i : Interaction) × Memᴰ i two_calls.interactions
    × (is_compatible sample paths (call "int_9" 9 "DELETE") i ≡ true)
    × (again.interaction ≡ record i {
      fallback_tier = again.tier;
      fallback_reason = again.interaction.fallback_reason;
    })
unfolding analyse_all
find_match-recorded_example =
    find_match-recorded sample paths (matcher exact_tier_only) (call "int_9" 9 "DELETE") {r = again}
      refl not_synthesized

find_match-again_example :
    (j : Interaction) × (n : ℕ) × (find_match sample paths
        (matcher exact_tier_only)
        (call "int_2" 2 "DELETE")
      ≡ ok (exact_result sample paths j n))
    × (exact_request_key sample paths j ≡ exact_request_key sample paths (call "int_2" 2 "DELETE"))
unfolding analyse_all
find_match-again_example =
    find_match-again sample paths sample_laws (matcher exact_tier_only)
      {i = call "int_2" 2 "DELETE"} refl (Memᴰ.tail (Memᴰ.head refl))

abbrev nearest_score_found : ℕ
nearest_score_found = nearest_score sample paths (call "int_1" 1 "GET") (call "int_9" 9 "GET")

nearest_match-best_example :
    (nearest_score_found ≡ nearest_score sample paths (call "int_1" 1 "GET") (call "int_9" 9 "GET"))
    × (ltb nearest_score_found 36 ≡ false)
    × All
        (λ c. ltb nearest_score_found (nearest_score sample paths c (call "int_9" 9 "GET")) ≡ false)
        two_calls.interactions
unfolding analyse_all
nearest_match-best_example =
    nearest_match-best sample paths sample_laws (call "int_9" 9 "GET") two_calls.interactions
      {i = call "int_1" 1 "GET"} {score = nearest_score_found} refl

set_similarity-symmetric_example :
    (set_similarity sample paths ("a" ∷ "b" ∷ []) ("b" ∷ [])
      ≡ set_similarity sample paths ("b" ∷ []) ("a" ∷ "b" ∷ []))
    × (1 ≤ 2)
unfolding analyse_all
set_similarity-symmetric_example = set_similarity-symmetric sample paths ("a" ∷ "b" ∷ []) ("b" ∷ [])

abbrev identified : Interaction → Value
identified i = object (field "interaction_id" (text i.interaction_id) end)

abbrev ignoring_nothing : Options
ignoring_nothing = record { ignored_fields = []; service_ignored_fields = [] }

compare_runs-same_example :
    compare_runs sample paths identified two_calls two_calls ignoring_nothing
    ≡ ok (report sample paths identified two_calls two_calls [])
unfolding analyse_all
compare_runs-same_example = compare_runs-same sample paths identified two_calls ignoring_nothing

abbrev of_operation : String → Selection ℕ
of_operation operation = record {
  service = "stripe";
  operation = operation;
  tool = "";
  interaction_id = "";
  event_type = "";
  fallback_tier = "";
  side_effect = "";
  destination_type = "";
  amount_gt = none;
  approval_missing = none;
  channel = "";
  channel_not_in = [];
  domain = "";
  domain_not_in = [];
  new_action = none;
  unknown_risk = none;
}

evaluate_ordering-status_example :
    (evaluate_ordering sample
      (url_host sample)
      []
      two_calls
      "a"
      (of_operation "GET")
      (of_operation "DELETE")).status
    ≡ passed
unfolding analyse_all
evaluate_ordering-status_example =
    evaluate_ordering-status sample (url_host sample) [] two_calls "a" (of_operation "GET")
      (of_operation "DELETE")

forbidding-status_example :
    ((evaluate_forbidden_operation sample
        (url_host sample)
        []
        two_calls
        "a"
        (of_operation "DELETE")).status
      ≡ failed)
    × ((evaluate_count sample
          (url_host sample)
          []
          two_calls
          "a"
          (of_operation "DELETE")
          (at_most 0)).status
        ≡ failed)
    × ((evaluate_fallback_prohibition sample
          (url_host sample)
          []
          two_calls
          "a"
          (of_operation "DELETE")
          ("exact" ∷ [])).status
        ≡ passed)
unfolding analyse_all
forbidding-status_example =
    forbidding-status sample (url_host sample) [] two_calls "a" (of_operation "DELETE")
      ("exact" ∷ [])

abbrev action : String → GateSelector
action operation = record {
  service = "stripe";
  operation = operation;
  tool = "";
  side_effect = "";
  destination_type = "";
}

abbrev plain_gate : String → Gate ℕ
plain_gate name = record {
  name = name;
  block_if = none;
  require_order = none;
  require_approval = none;
  max_amount = none;
  allowed_channels = none;
  allowed_domains = none;
  forbid_new_action = none;
  forbid_unknown_risk = none;
}

-- Look first, and never update with an amount above the limit.
abbrev two_gates : File ℕ
two_gates = record {
  schema_version = "v1alpha1";
  release_gates =
      record (plain_gate "look first") {
        require_order = some (record { before = action "GET"; after = action "DELETE" });
      }
      ∷ record (plain_gate "small updates") {
        max_amount = some (record { selector = action "PUT"; amount = some 101 });
      }
      ∷ [];
}

evaluate_gates-holds_example :
    (e : GateEvaluation) × (evaluate_gates sample (url_host sample) tally none two_calls two_gates
      ≡ inr e)
    × (e.status ≡ passed)
    × (e.summary.total ≡ 2)
    × (e.summary.unsupported_gates ≡ 0)
    × (all_passed e ≡ true)
unfolding analyse_all
evaluate_gates-holds_example =
    evaluate_gates-holds sample (url_host sample) tally none two_calls two_gates tally-named
      tally-distinct refl
