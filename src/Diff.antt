-- ===== src/Diff.antt =====
-- internal/analysis/diff/diff.go: two runs of a session, interaction by interaction. The key of an
-- interaction is the text of its identity with its number among those of the same identity: the code
-- joins the two by a zero character, which no identity contains, so that the keys have the same order.
-- `align_interactions` keeps the pairs in one list, where the code has a map and the list of its keys.
pub mod Paths
pub mod Ignoring
pub mod Distinct
pub mod Same
use staging_platform.Base.{
  ℕ, suc, String, Bool, true, false, not, ◌&&◌, ◌||◌, Option, none, some, List, [], ◌∷◌, ◌++◌, map,
  any, ltb, ◌==◌, str_eq, append_text, if◌then◌else◌, is_blank, update_where,
}
use staging_platform.Base.Int.{ℤ, pos, ltb_ℤ, eqb_ℤ}
use staging_platform.Base.Order.{text_lt, text_le}
use staging_platform.Base.Sorting.{sort_by}
use staging_platform.Json.{Value}
use staging_platform.Result.{Result, ok, err, refuse_if, rejected, ◌>>◌}
use staging_platform.Recorder.{
  Run, Interaction, Header, tier_exact, tier_nearest_neighbor, tier_state_synthesis,
  tier_llm_synthesis,
}
use staging_platform.Standard.{Standard, Net}
use staging_platform.Contracts.Generate.{sorted_strings}
use staging_platform.Diff.Paths.{modified_details}
use staging_platform.Diff.Ignoring.{
  ServiceIgnoredFields, ServiceIgnored, normalize_ignored_fields, normalize_service_ignored_fields,
  ignored_for_interaction, identity_key, decoded_interaction,
}

pub data ChangeType : Type 0 where
  added removed modified ordering_changed fallback_regression : ChangeType

pub record Options : Type 0 where
  pub ignored_fields : List String
  pub service_ignored_fields : List ServiceIgnoredFields

pub record Change : Type 0 where
  pub type : ChangeType
  pub failing : Bool
  pub base_interaction_id : String
  pub candidate_interaction_id : String
  pub base_sequence : ℤ
  pub candidate_sequence : ℤ
  pub service : String
  pub operation : String
  pub base_fallback_tier : String
  pub candidate_fallback_tier : String
  pub ignored_fields : List String
  pub details : String

pub record DiffReport : Type 0 where
  pub base_run_id : String
  pub candidate_run_id : String
  pub session_name : String
  pub changes : List Change

pub record Key : Type 0 where
  pub identity : String
  pub number : ℕ

pub record IndexedInteraction : Type 0 where
  pub key : Key
  pub interaction : Interaction

pub record AlignedInteraction : Type 0 where
  pub key : Key
  pub base : Option Interaction
  pub candidate : Option Interaction

abbrev pub eqb_key : Key → Key → Bool
eqb_key a b = str_eq a.identity b.identity && a.number == b.number

-- `fallbackRank`
unfoldable pub fallback_rank : String → ℕ
fallback_rank tier =
    if str_eq tier "" || str_eq tier tier_exact
    then 0
    else if str_eq tier tier_nearest_neighbor
    then 1
    else if str_eq tier tier_state_synthesis
    then 2
    else if str_eq tier tier_llm_synthesis
    then 3
    else 4

unfoldable pub fallback_regressed : String → String → Bool
unfolding fallback_rank
fallback_regressed base candidate = ltb (fallback_rank base) (fallback_rank candidate)

unfoldable pub added_change : Interaction → Change
added_change i = record {
  type = added;
  failing = true;
  base_interaction_id = "";
  candidate_interaction_id = i.interaction_id;
  base_sequence = pos 0;
  candidate_sequence = i.sequence;
  service = i.service;
  operation = i.operation;
  base_fallback_tier = "";
  candidate_fallback_tier = "";
  ignored_fields = [];
  details = "interaction added in candidate run";
}

unfoldable pub removed_change : Interaction → Change
removed_change i = record {
  type = removed;
  failing = true;
  base_interaction_id = i.interaction_id;
  candidate_interaction_id = "";
  base_sequence = i.sequence;
  candidate_sequence = pos 0;
  service = i.service;
  operation = i.operation;
  base_fallback_tier = "";
  candidate_fallback_tier = "";
  ignored_fields = [];
  details = "interaction removed from candidate run";
}

-- A change of two matched interactions.
abbrev matched : ChangeType → Bool → Interaction → Interaction → String → Change
matched type failing b c details = record {
  type = type;
  failing = failing;
  base_interaction_id = b.interaction_id;
  candidate_interaction_id = c.interaction_id;
  base_sequence = b.sequence;
  candidate_sequence = c.sequence;
  service = c.service;
  operation = c.operation;
  base_fallback_tier = "";
  candidate_fallback_tier = "";
  ignored_fields = [];
  details = details;
}

unfoldable pub ordering_change : Interaction → Interaction → Change
ordering_change b c = matched ordering_changed false b c "matched interaction sequence changed"

unfoldable pub fallback_regression_change : Interaction → Interaction → Change
fallback_regression_change b c =
    record (matched fallback_regression true b c "candidate used a less exact fallback tier") {
      base_fallback_tier = b.fallback_tier;
      candidate_fallback_tier = c.fallback_tier;
    }

abbrev by_sequence : Interaction → Interaction → Bool
by_sequence a b =
    if eqb_ℤ a.sequence b.sequence
    then text_le a.interaction_id b.interaction_id
    else ltb_ℤ a.sequence b.sequence

abbrev pub count : String → List String → ℕ
count x [] = 0
count x (y ∷ ys) = let rest = count x ys in if str_eq y x then suc rest else rest

-- The loop of `indexInteractions`, with the identities seen.
unfoldable pub number_all :
    (Interaction → String) → List String → List Interaction → List IndexedInteraction
number_all identity_of seen [] = []
number_all identity_of seen (i ∷ is) =
    record {
      key = record { identity = identity_of i; number = suc (count (identity_of i) seen) };
      interaction = i;
    }
    ∷ number_all identity_of (identity_of i ∷ seen) is

abbrev of_base : IndexedInteraction → AlignedInteraction
of_base x = record { key = x.key; base = some x.interaction; candidate = none }

abbrev of_candidate : IndexedInteraction → AlignedInteraction
of_candidate x = record { key = x.key; base = none; candidate = some x.interaction }

abbrev with_candidate : IndexedInteraction → AlignedInteraction → AlignedInteraction
with_candidate x p = record p { candidate = some x.interaction }

abbrev pub has_key : Key → AlignedInteraction → Bool
has_key k p = eqb_key p.key k

-- The loop over the candidate's interactions.
unfoldable pub join : List AlignedInteraction → List IndexedInteraction → List AlignedInteraction
join pairs [] = pairs
join pairs (x ∷ xs) =
    join
      (if any (has_key x.key) pairs
        then update_where (has_key x.key) (with_candidate x) pairs
        else pairs ++ of_candidate x ∷ [])
      xs

-- `alignedSortSequence`
unfoldable pub aligned_sort_sequence : AlignedInteraction → ℤ
aligned_sort_sequence p = elim p.base [
  | some i ↦ i.sequence
  | none ↦ elim p.candidate [ some i ↦ i.sequence | none ↦ pos 0 ]
]

module _ (g : Standard) where
  abbrev key_le : Key → Key → Bool
  key_le a b =
      if str_eq a.identity b.identity
      then text_le (g.sprint_int (pos a.number)) (g.sprint_int (pos b.number))
      else text_lt a.identity b.identity

  abbrev pair_le : AlignedInteraction → AlignedInteraction → Bool
  pair_le a b =
      if ltb_ℤ (aligned_sort_sequence a) (aligned_sort_sequence b)
      then true
      else if ltb_ℤ (aligned_sort_sequence b) (aligned_sort_sequence a)
      then false
      else key_le a.key b.key

  module _ (net : Net Header) (decoded : Interaction → Value) where
    unfoldable pub index_interactions :
        List String → List ServiceIgnored → List Interaction → List IndexedInteraction
    unfolding number_all
    index_interactions ignored services is =
        number_all (λ i. identity_key g net (ignored_for_interaction i ignored services) i) []
          (sort_by by_sequence is)

    unfoldable pub align_interactions :
        List String
        → List ServiceIgnored
        → List Interaction
        → List Interaction
        → List AlignedInteraction
    unfolding index_interactions join aligned_sort_sequence
    align_interactions ignored services base candidate = sort_by pair_le (
        join (map of_base (index_interactions ignored services base))
          (index_interactions ignored services candidate))

    unfoldable pub canonical_interaction : List String → Interaction → String
    canonical_interaction ignored i = g.marshal (decoded_interaction g net decoded ignored i)

    unfoldable pub modified_change : List String → Interaction → Interaction → Change
    modified_change ignored b c =
        record (matched modified true b c (
          modified_details g (decoded_interaction g net decoded ignored b)
            (decoded_interaction g net decoded ignored c))) {
              ignored_fields = sorted_strings ignored;
            }

    -- `if test { append }`
    abbrev when : Bool → Change → List Change
    when b c = if b then c ∷ [] else []

    unfoldable pub compare_matched :
        List String → List ServiceIgnored → Interaction → Interaction → List Change
    unfolding ordering_change fallback_regressed fallback_regression_change canonical_interaction
        modified_change
    compare_matched ignored services b c =
        let pair_ignored = ignored_for_interaction b ignored services in
        when (not (eqb_ℤ b.sequence c.sequence)) (ordering_change b c)
        ++ when (fallback_regressed b.fallback_tier c.fallback_tier)
            (fallback_regression_change b c)
        ++ when
            (not (
              str_eq (canonical_interaction pair_ignored b) (canonical_interaction pair_ignored c)))
            (modified_change pair_ignored b c)

    abbrev changes_at :
        List String → List ServiceIgnored → Option Interaction → Option Interaction → List Change
    changes_at ignored services none none = []
    changes_at ignored services none (some c) = added_change c ∷ []
    changes_at ignored services (some b) none = removed_change b ∷ []
    changes_at ignored services (some b) (some c) = compare_matched ignored services b c

    -- The loop of `Compare`.
    unfoldable pub changes_of_pairs :
        List String → List ServiceIgnored → List AlignedInteraction → List Change
    unfolding added_change removed_change compare_matched
    changes_of_pairs ignored services [] = []
    changes_of_pairs ignored services (p ∷ ps) =
        changes_at ignored services p.base p.candidate ++ changes_of_pairs ignored services ps

    abbrev pub report : Run → Run → List Change → DiffReport
    report base candidate changes = record {
      base_run_id = base.run_id;
      candidate_run_id = candidate.run_id;
      session_name = base.session_name;
      changes = changes;
    }

    unfoldable pub compare_runs : Run → Run → Options → Result DiffReport
    unfolding align_interactions changes_of_pairs
    compare_runs base candidate opts =
        let ignored = normalize_ignored_fields opts.ignored_fields in
        let services = normalize_service_ignored_fields opts.service_ignored_fields in
        refuse_if (is_blank base.session_name || is_blank candidate.session_name)
          (rejected "run session_name is required")
        >> refuse_if (not (str_eq base.session_name candidate.session_name))
            (rejected "cannot diff runs from different sessions")
        >> ok (
            report base candidate (
              changes_of_pairs ignored services
                (align_interactions ignored services base.interactions candidate.interactions)))
