-- ===== src/Contracts/Compare.antt =====
-- internal/analysis/contracts/diff.go: what a candidate run does that a base run does not. A map of
-- snapshots by key is a list of entries, whose keys the code sorts before it compares them.
pub mod Prompts
pub mod Counts
use staging_platform.Base.{
  ℕ, suc, String, Bool, true, false, not, ◌&&◌, ◌||◌, Option, none, some, List, [], ◌∷◌, ◌++◌, map,
  keep, any, str_eq, append_text, if◌then◌else◌, is_blank, trim_space, length,
}
use staging_platform.Base.Int.{ℤ, pos, ltb_ℤ}
use staging_platform.Base.Order.{text_lt, text_le}
use staging_platform.Base.Sorting.{sort_by}
use staging_platform.Result.{Result, ok, err, refuse_if, rejected, ◌>>◌}
use staging_platform.Json.{Value}
use staging_platform.Recorder.{Run, Interaction, contains}
use staging_platform.Standard.{Standard}
use staging_platform.Contracts.{ActionSelector, selector_from_interaction, selector_key}
use staging_platform.Contracts.Classify.{higher_risk, classify_interaction}
use staging_platform.Contracts.Generate.{merge_tiers, observed_models, add_text, sorted_strings}
use staging_platform.Contracts.Enforce.{InteractionEvidence, evidence_from_interaction}
use staging_platform.Contracts.Compare.Prompts.{PromptDigest, prompt_digests, merge_prompt_digests}

pub data DiffChangeType : Type 0 where
  new_action removed_action side_effect_changed fallback_tiers_changed : DiffChangeType
  models_changed prompts_changed : DiffChangeType

pub record DiffSummary : Type 0 where
  pub total_changes : ℕ
  pub new_actions : ℕ
  pub removed_actions : ℕ
  pub side_effect_changes : ℕ
  pub fallback_tier_changes : ℕ
  pub model_changes : ℕ
  pub prompt_changes : ℕ

pub record DiffChange : Type 0 where
  pub type : DiffChangeType
  pub service : String
  pub operation : String
  pub tool : String
  pub base_side_effect : String
  pub candidate_side_effect : String
  pub base_fallback_tiers : List String
  pub candidate_fallback_tiers : List String
  pub base_models : List String
  pub candidate_models : List String
  pub base_prompts : List PromptDigest
  pub candidate_prompts : List PromptDigest
  pub base_evidence : List InteractionEvidence
  pub candidate_evidence : List InteractionEvidence
  pub details : String

pub record DiffResult : Type 0 where
  pub base_run_id : String
  pub candidate_run_id : String
  pub session_name : String
  pub summary : DiffSummary
  pub changes : List DiffChange

pub record ActionSnapshot : Type 0 where
  pub selector : ActionSelector
  pub side_effect : String
  pub fallback_tiers : List String
  pub models : List String
  pub prompts : List PromptDigest
  pub evidence : List InteractionEvidence
  pub first_sequence : ℤ

pub record Tracked : Type 0 where
  pub key : String
  pub snapshot : ActionSnapshot

abbrev pub fresh_snapshot : ActionSelector → Interaction → ActionSnapshot
fresh_snapshot s i = record {
  selector = s;
  side_effect = "";
  fallback_tiers = [];
  models = [];
  prompts = [];
  evidence = [];
  first_sequence = i.sequence;
}

-- strings.Join(texts, separator)
unfoldable pub join_with : String → List String → String
join_with separator [] = ""
join_with separator (t ∷ []) = t
join_with separator (t ∷ u ∷ ts) =
    append_text t (append_text separator (join_with separator (u ∷ ts)))

-- `fallbackList` and `stringList`
abbrev pub text_list : List String → String
text_list [] = "none"
text_list (t ∷ ts) = join_with "," (t ∷ ts)

abbrev pub empty_side_effect : String → String
empty_side_effect s = if str_eq s "" then "none" else s

abbrev add_all : List String → List String → List String
add_all seen [] = seen
add_all seen (x ∷ xs) = add_all (add_text seen x) xs

-- `sortedStringSet`
unfoldable pub sorted_string_set : List String → List String
sorted_string_set values =
    sorted_strings (add_all [] (keep (λ v. not (str_eq v "")) (map trim_space values)))

-- `stringSlicesEqual` and `fallbackSlicesEqual`
unfoldable pub same_texts : List String → List String → Bool
same_texts [] [] = true
same_texts (x ∷ xs) (y ∷ ys) = str_eq x y && same_texts xs ys
same_texts xs ys = false

-- `promptDigestSlicesEqual`
unfoldable pub same_prompts : List PromptDigest → List PromptDigest → Bool
same_prompts [] [] = true
same_prompts (x ∷ xs) (y ∷ ys) = str_eq x.path y.path && str_eq x.hash y.hash && same_prompts xs ys
same_prompts xs ys = false

unfoldable pub snapshot_change :
    DiffChangeType → Option ActionSnapshot → Option ActionSnapshot → String → DiffChange
snapshot_change type base candidate details =
    let selected = or_default candidate base in
    let b = or_zero base in
    let c = or_zero candidate in
    record {
      type = type;
      service = (or_zero selected).selector.service;
      operation = (or_zero selected).selector.operation;
      tool = (or_zero selected).selector.tool;
      base_side_effect = b.side_effect;
      candidate_side_effect = c.side_effect;
      base_fallback_tiers = b.fallback_tiers;
      candidate_fallback_tiers = c.fallback_tiers;
      base_models = b.models;
      candidate_models = c.models;
      base_prompts = b.prompts;
      candidate_prompts = c.prompts;
      base_evidence = b.evidence;
      candidate_evidence = c.evidence;
      details = details;
    }
  where
    or_default : Option ActionSnapshot → Option ActionSnapshot → Option ActionSnapshot
    or_default none o = o
    or_default (some s) o = some s

    or_zero : Option ActionSnapshot → ActionSnapshot
    or_zero (some s) = s
    or_zero none = record {
      selector = record { service = ""; operation = ""; tool = "" };
      side_effect = "";
      fallback_tiers = [];
      models = [];
      prompts = [];
      evidence = [];
      first_sequence = pos 0;
    }

abbrev differs : Bool → DiffChangeType → ActionSnapshot → ActionSnapshot → String → List DiffChange
differs same type base candidate details =
    if same then [] else snapshot_change type (some base) (some candidate) details ∷ []

abbrev from_to : String → String → String → String
from_to what old new =
    append_text what (append_text " changed from " (append_text old (append_text " to " new)))

unfoldable pub compare_snapshots : ActionSnapshot → ActionSnapshot → List DiffChange
unfolding snapshot_change same_texts same_prompts join_with
compare_snapshots base candidate =
    differs (str_eq base.side_effect candidate.side_effect) side_effect_changed base candidate (
      from_to "side_effect" (empty_side_effect base.side_effect)
        (empty_side_effect candidate.side_effect))
    ++ differs (same_texts base.fallback_tiers candidate.fallback_tiers) fallback_tiers_changed base
        candidate
        (from_to "fallback tiers" (text_list base.fallback_tiers)
          (text_list candidate.fallback_tiers))
    ++ differs (same_texts base.models candidate.models) models_changed base candidate
        (from_to "models" (text_list base.models) (text_list candidate.models))
    ++ differs (same_prompts base.prompts candidate.prompts) prompts_changed base candidate
        "captured prompt fields changed"

unfoldable pub find_snapshot : String → List Tracked → Option ActionSnapshot
find_snapshot key [] = none
find_snapshot key (t ∷ ts) =
    let rest = find_snapshot key ts in if str_eq t.key key then some t.snapshot else rest

-- The branches of the loop of `DiffRuns`.
unfoldable pub changes_at : Option ActionSnapshot → Option ActionSnapshot → List DiffChange
unfolding compare_snapshots
changes_at none none = []
changes_at none (some c) =
    snapshot_change new_action none (some c) "action appears only in candidate run" ∷ []
changes_at (some b) none =
    snapshot_change removed_action (some b) none "action appears only in base run" ∷ []
changes_at (some b) (some c) = compare_snapshots b c

unfoldable pub changes_of : List Tracked → List Tracked → List String → List DiffChange
unfolding changes_at find_snapshot
changes_of base candidate [] = []
changes_of base candidate (key ∷ keys) =
    changes_at (find_snapshot key base) (find_snapshot key candidate)
    ++ changes_of base candidate keys

abbrev pub keys_of : List Tracked → List String
keys_of = map λ (t : Tracked). t.key

abbrev pub is_tracked : List Tracked → String → Bool
is_tracked ts key = any (λ k. str_eq k key) (keys_of ts)

-- `snapshotSortSequence`
unfoldable pub snapshot_sort_sequence : List Tracked → List Tracked → String → ℤ
unfolding find_snapshot
snapshot_sort_sequence base candidate key = elim (find_snapshot key base) [
  | some s ↦ s.first_sequence
  | none ↦ elim (find_snapshot key candidate) [ some s ↦ s.first_sequence | none ↦ pos 0 ]
]

abbrev comes_first : (String → ℤ) → String → String → Bool
comes_first sequence_of a b =
    if ltb_ℤ (sequence_of a) (sequence_of b)
    then true
    else if ltb_ℤ (sequence_of b) (sequence_of a)
    then false
    else text_le a b

unfoldable pub union_snapshot_keys : List Tracked → List Tracked → List String
unfolding snapshot_sort_sequence
union_snapshot_keys base candidate =
    sort_by (comes_first (snapshot_sort_sequence base candidate))
      (keys_of base ++ keep (λ key. not (is_tracked base key)) (keys_of candidate))

abbrev pub is_new : DiffChangeType → Bool
is_new new_action = true
is_new t = false

abbrev pub is_removed : DiffChangeType → Bool
is_removed removed_action = true
is_removed t = false

abbrev pub is_side_effect : DiffChangeType → Bool
is_side_effect side_effect_changed = true
is_side_effect t = false

abbrev pub is_fallback_tiers : DiffChangeType → Bool
is_fallback_tiers fallback_tiers_changed = true
is_fallback_tiers t = false

abbrev pub is_models : DiffChangeType → Bool
is_models models_changed = true
is_models t = false

abbrev pub is_prompts : DiffChangeType → Bool
is_prompts prompts_changed = true
is_prompts t = false

abbrev pub count : (DiffChangeType → Bool) → List DiffChange → ℕ
count p changes = length (keep (λ (c : DiffChange). p c.type) changes)

unfoldable pub summarize_diff_changes : List DiffChange → DiffSummary
summarize_diff_changes [] = record {
  total_changes = 0;
  new_actions = 0;
  removed_actions = 0;
  side_effect_changes = 0;
  fallback_tier_changes = 0;
  model_changes = 0;
  prompt_changes = 0;
}
summarize_diff_changes (c ∷ cs) = counted c.type (summarize_diff_changes cs)
  where
    counted : DiffChangeType → DiffSummary → DiffSummary
    counted new_action s = record s {
      total_changes = suc s.total_changes;
      new_actions = suc s.new_actions;
    }
    counted removed_action s = record s {
      total_changes = suc s.total_changes;
      removed_actions = suc s.removed_actions;
    }
    counted side_effect_changed s = record s {
      total_changes = suc s.total_changes;
      side_effect_changes = suc s.side_effect_changes;
    }
    counted fallback_tiers_changed s = record s {
      total_changes = suc s.total_changes;
      fallback_tier_changes = suc s.fallback_tier_changes;
    }
    counted models_changed s = record s {
      total_changes = suc s.total_changes;
      model_changes = suc s.model_changes;
    }
    counted prompts_changed s = record s {
      total_changes = suc s.total_changes;
      prompt_changes = suc s.prompt_changes;
    }

-- How the classification of a run's interactions ranges over the maps of each. Go gives no order,
-- and need not give the same one again.
abbrev pub Orders : Type 0
Orders = ℕ → String → Value → Value

module _ (g : Standard) where
  -- What one interaction adds to the snapshot of its action.
  unfoldable pub observe_snapshot :
      (String → Value → Value) → Interaction → ActionSelector → ActionSnapshot → ActionSnapshot
  unfolding sorted_string_set
  observe_snapshot order i s a = record a {
    first_sequence = if ltb_ℤ i.sequence a.first_sequence then i.sequence else a.first_sequence;
    side_effect =
        higher_risk a.side_effect
          (classify_interaction (record g { range_order = order }) i).side_effect;
    fallback_tiers = merge_tiers a.fallback_tiers i;
    models = sorted_string_set (a.models ++ observed_models g i.request.body);
    prompts = merge_prompt_digests a.prompts (prompt_digests g i.request.body);
    evidence = a.evidence ++ evidence_from_interaction i s ∷ [];
  }

  unfoldable pub track :
      (String → Value → Value) → Interaction → ActionSelector → List Tracked → List Tracked
  unfolding observe_snapshot
  track order i s [] =
      record { key = selector_key s; snapshot = observe_snapshot order i s (fresh_snapshot s i) }
      ∷ []
  track order i s (t ∷ ts) =
      let rest = track order i s ts in
      if str_eq t.key (selector_key s)
      then record t { snapshot = observe_snapshot order i s t.snapshot } ∷ ts
      else t ∷ rest

  unfoldable pub track_all : Orders → List Interaction → List Tracked → List Tracked
  unfolding track
  track_all order [] ts = ts
  track_all order (i ∷ is) ts = elim (selector_from_interaction g i) [
    | none ↦ track_all (λ n. order (suc n)) is ts
    | some s ↦ track_all (λ n. order (suc n)) is (track (order 0) i s ts)
  ]

  -- `snapshotsFromRun`
  unfoldable pub snapshots_from_run : Orders → Run → List Tracked
  unfolding track_all
  snapshots_from_run order run = track_all order run.interactions []

  abbrev pub diff_of : Run → Run → List DiffChange → DiffResult
  diff_of base candidate changes = record {
    base_run_id = base.run_id;
    candidate_run_id = candidate.run_id;
    session_name = base.session_name;
    summary = summarize_diff_changes changes;
    changes = changes;
  }

  unfoldable pub changes_between : List Tracked → List Tracked → List DiffChange
  unfolding changes_of union_snapshot_keys
  changes_between base candidate = changes_of base candidate (union_snapshot_keys base candidate)

  unfoldable pub diff_runs : Orders → Orders → Run → Run → Result DiffResult
  unfolding snapshots_from_run changes_between
  diff_runs base_order candidate_order base candidate =
      refuse_if (is_blank base.session_name || is_blank candidate.session_name)
        (rejected "run session_name is required")
      >> refuse_if (not (str_eq base.session_name candidate.session_name))
          (rejected "cannot contract-diff runs from different sessions")
      >> ok (
          diff_of base candidate (
            changes_between (snapshots_from_run base_order base)
              (snapshots_from_run candidate_order candidate)))
