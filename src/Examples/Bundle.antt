-- ===== src/Examples/Bundle.antt =====
-- What the runs of the analysis compute with.
use staging_platform.Base.{
  any, all, find, keep, trim_space, trim_left, trim_right, is_space, is_blank,
}
use staging_platform.Base.Sorting.{insert_by, sort_by}
use mathlib.Core.List.{flatten}
use staging_platform.Base.Problems.{item_problems}
use staging_platform.Recorder.Validation.{
  request_problems, event_problems, entity_problems, scrub_report_problems, issue_problems,
  events_problems, ends_open, interaction_problems, interactions_problems, status_problems,
  run_problems,
}
use staging_platform.Runtime.Replay.{see, see_all, summarize_exact_source}
use staging_platform.Runtime.Replay.Distinct.{distinct}
use staging_platform.Contracts.{
  get_field, value_from_map, string_from_map, tool_name_from_interaction, selector_from_interaction,
  selector_key,
}
use staging_platform.Contracts.Schema.{
  selector_problems, valid_selector_key, side_effect_problems, tier_problems, string_set_problems,
  approval_problems, action_problems, action_list_problems, override_problems, contract_problems,
}
use staging_platform.Contracts.Classify.{
  risk_rank, higher_risk, requires_approval, after_first, text_length, skip_comment, first_word,
  sql_verb_within, sql_verb, database_query_text, classify_database_operation, join_words,
  scrubbed_query_snippet, classify_database_interaction, keyword_risk, tool_verb_risk,
  classify_tool_name, normalized_http_method, classify_http_method, side_effect_from_value,
  events_side_effect, classify_tool, infer_risk_from_text, classify_http, classify_interaction,
  matching_override, classify_with_overrides,
}
use staging_platform.Contracts.Generate.{
  fallback_tiers_from_interaction, sort_fallback_tiers, merge_tiers, observed_models, numeric_value,
  observe, update_entry, accumulate, all_models, actions_by_key, generate_from_run,
}
use staging_platform.Contracts.Enforce.{
  evidence_from_interaction, add_violation, find_action, follow, value_at_path,
  interaction_path_root, is_approval_key, truthy, interaction_has_approval, violation_from,
  collect_violations, summarize, evaluate_valid, evaluate,
}
use staging_platform.Contracts.Enforce.Admitted.{is_admitted}
use staging_platform.Contracts.Compare.{
  join_with, sorted_string_set, same_texts, same_prompts, snapshot_change, compare_snapshots,
  find_snapshot, changes_at, changes_of, snapshot_sort_sequence, union_snapshot_keys,
  summarize_diff_changes, observe_snapshot, track, track_all, snapshots_from_run, changes_between,
  diff_runs,
}
use staging_platform.Contracts.Compare.Prompts.{
  add_digests, merge_prompt_digests, has_prompt_value, is_prompt_field, truncate_prompt_preview,
  prompt_preview, prompt_digest, prompt_digests,
}
use staging_platform.Contracts.Risk.{diff_action_label, add_reason, collect_reasons, score_risk}
use staging_platform.Runtime.Fallback.{
  add_tiers, allowed_tier_set, with_allowed_tiers, with_config, with_state_synthesizer, new_matcher,
  is_compatible, compatible_candidates, exact_match, improve, best_of, nearest_match, find_match,
}
use staging_platform.Runtime.Fallback.Requests.{
  field_name, request_path, sorted_query, normalized_url, canonical_json, exact_request_key,
  is_timestamp_like, is_mutable_request_field, is_mutable_header, query_parts, header_parts,
  flattened_value_set,
}
use staging_platform.Runtime.Fallback.Similarity.{set_of, set_similarity, nearest_score}
use staging_platform.Diff.{
  fallback_rank, fallback_regressed, added_change, removed_change, ordering_change,
  fallback_regression_change, number_all, join, aligned_sort_sequence, index_interactions,
  align_interactions, canonical_interaction, modified_change, compare_matched, changes_of_pairs,
  compare_runs,
}
use staging_platform.Diff.Ignoring.{
  normalize_ignored_fields, normalize_relative_ignore_path, normalize_service_ignored_fields,
  ignored_for_interaction, parse_array_index, split_ignore_path, remove_ignored_fields,
  ignored_query_keys, normalized_url_with_ignored_query, identity_key,
  remove_ignored_request_query_params, decoded_interaction,
}
use staging_platform.Diff.Paths.{differing_paths, modified_details}
use staging_platform.Assertions.{
  interaction_evidence, count_passes, select_pair, evaluate_count, evaluate_ordering,
  evaluate_forbidden_operation, evaluate_fallback_prohibition,
}
use staging_platform.Assertions.Matching.{
  action_key, base_action_keys, normalize_tool_match, string_from_any, shallow_string_field,
  observed_string, string_in_set, interaction_has_event_type, interaction_has_approval_evidence,
  url_host, observed_domain, interaction_matches, matching_interactions,
}
use staging_platform.Assertions.Validation.{has_match, match_problems}
use staging_platform.Gates.{
  match_from_selector, block_condition, order_condition, approval_condition, amount_condition,
  channels_condition, domains_condition, new_action_condition, unknown_risk_condition, condition_of,
  gate_type, all_passed, gate_message, gate_result, gate_results, count_results, overall,
  condition_problems, assertions_problems, translated_problems, evaluate_gates,
}
use staging_platform.Gates.Schema.{
  count_clauses, has_selector, selector_problems as schema_selector_problems, order_problems,
  allowed_problems, block_problems, require_approval_problems, max_amount_problems, gate_problems,
  file_problems,
}

unfoldable pub analyse_all : Unit {0}
unfolding flatten any all find keep trim_space trim_left trim_right is_space is_blank insert_by
    sort_by item_problems request_problems event_problems entity_problems scrub_report_problems
    issue_problems events_problems ends_open interaction_problems interactions_problems
    status_problems run_problems see see_all summarize_exact_source distinct get_field
    value_from_map string_from_map tool_name_from_interaction selector_from_interaction selector_key
    selector_problems valid_selector_key side_effect_problems tier_problems string_set_problems
    approval_problems action_problems action_list_problems override_problems contract_problems
    risk_rank higher_risk requires_approval after_first text_length skip_comment first_word
    sql_verb_within sql_verb database_query_text classify_database_operation join_words
    scrubbed_query_snippet classify_database_interaction keyword_risk tool_verb_risk
    classify_tool_name normalized_http_method classify_http_method side_effect_from_value
    events_side_effect classify_tool infer_risk_from_text classify_http classify_interaction
    matching_override classify_with_overrides fallback_tiers_from_interaction sort_fallback_tiers
    merge_tiers observed_models numeric_value observe update_entry accumulate all_models
    actions_by_key generate_from_run evidence_from_interaction add_violation find_action follow
    value_at_path interaction_path_root is_approval_key truthy interaction_has_approval
    violation_from collect_violations summarize evaluate_valid evaluate is_admitted join_with
    sorted_string_set same_texts same_prompts snapshot_change compare_snapshots find_snapshot
    changes_at changes_of snapshot_sort_sequence union_snapshot_keys summarize_diff_changes
    observe_snapshot track track_all snapshots_from_run changes_between diff_runs add_digests
    merge_prompt_digests has_prompt_value is_prompt_field truncate_prompt_preview prompt_preview
    prompt_digest prompt_digests diff_action_label add_reason collect_reasons score_risk add_tiers
    allowed_tier_set with_allowed_tiers with_config with_state_synthesizer new_matcher is_compatible
    compatible_candidates exact_match improve best_of nearest_match find_match field_name
    request_path sorted_query normalized_url canonical_json exact_request_key is_timestamp_like
    is_mutable_request_field is_mutable_header query_parts header_parts flattened_value_set set_of
    set_similarity nearest_score fallback_rank fallback_regressed added_change removed_change
    ordering_change fallback_regression_change number_all join aligned_sort_sequence
    index_interactions align_interactions canonical_interaction modified_change compare_matched
    changes_of_pairs compare_runs normalize_ignored_fields normalize_relative_ignore_path
    normalize_service_ignored_fields ignored_for_interaction parse_array_index split_ignore_path
    remove_ignored_fields ignored_query_keys normalized_url_with_ignored_query identity_key
    remove_ignored_request_query_params decoded_interaction differing_paths modified_details
    interaction_evidence count_passes select_pair evaluate_count evaluate_ordering
    evaluate_forbidden_operation evaluate_fallback_prohibition action_key base_action_keys
    normalize_tool_match string_from_any shallow_string_field observed_string string_in_set
    interaction_has_event_type interaction_has_approval_evidence url_host observed_domain
    interaction_matches matching_interactions has_match match_problems match_from_selector
    block_condition order_condition approval_condition amount_condition channels_condition
    domains_condition new_action_condition unknown_risk_condition condition_of gate_type all_passed
    gate_message gate_result gate_results count_results overall condition_problems
    assertions_problems translated_problems evaluate_gates count_clauses has_selector
    schema_selector_problems order_problems allowed_problems block_problems
    require_approval_problems max_amount_problems gate_problems file_problems
analyse_all = tt
