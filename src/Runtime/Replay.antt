-- ===== src/Runtime/Replay.antt =====
-- internal/runtime/replay/exact.go: the summary of a run that is replayed exactly.
pub mod Distinct
use staging_platform.Base.{
  ℕ, String, Bool, true, not, List, [], ◌∷◌, ◌++◌, length, str_eq, if◌then◌else◌, any,
}
use staging_platform.Result.{Result, ok, rejected, refuse_if, ◌>>=◌, ◌>>◌}
use staging_platform.Recorder.{Run, Interaction, contains, replay_eligible}

-- `Result` of the source
pub record Summary : Type 0 where
  pub mode : String
  pub run_id : String
  pub session_name : String
  pub status : String
  pub interaction_count : ℕ
  pub services : List String
  pub fallback_tiers_used : List String
  pub replay_eligible : Bool

-- The sets of the loop and the lists in order of appearance hold the same texts, so a list is its
-- set here.
pub record Seen : Type 0 where
  pub services : List String
  pub tiers : List String

abbrev pub add_new : String → List String → List String
add_new x xs = if contains xs x then xs else xs ++ x ∷ []

unfoldable pub see : Seen → Interaction → Seen
see s i = record {
  services = add_new i.service s.services;
  tiers = if str_eq i.fallback_tier "" then s.tiers else add_new i.fallback_tier s.tiers;
}

unfoldable pub see_all : Seen → List Interaction → Seen
unfolding see
see_all s [] = s
see_all s (i ∷ is) = see_all (see s i) is

unfoldable pub summarize_exact_source : Run → Result Summary
summarize_exact_source r = do
  refuse_if (not (replay_eligible r)) (rejected "run is not replay-eligible")
  let seen = see_all (record { services = []; tiers = [] }) r.interactions
  ok (record {
    mode = "exact";
    run_id = r.run_id;
    session_name = r.session_name;
    status = r.status;
    interaction_count = length r.interactions;
    services = seen.services;
    fallback_tiers_used = seen.tiers;
    replay_eligible = true;
  })
