-- ===== src/Examples/Witnesses.antt =====
-- The theorems at concrete inputs.
use mathlib.Core.Path.{◌≡◌, refl}
use text.Mathlib.TextEquality.{eq_iff}
use native.Mathlib.Omega.{arith}
use mathlib.Core.Logic.{◌≢◌, inl}
use staging_platform.Base.{
  String, true, false, none, some, List, [], ◌∷◌, any, All, trim_space, is_blank, ◌⊎◌, ℕ, ltb, leb,
  ◌==◌, ◌+◌, Option,
}
use staging_platform.Base.Int.{pos}
use staging_platform.Json.{end}
use staging_platform.Result.{Result, ok, err, not_found}
use staging_platform.Store.Records.{
  SessionClock, SessionRecord, SessionSnapshot, ScheduledEvent, push, pull,
}
use staging_platform.Store.Tables.{Db, session_named}
use staging_platform.Store.Sessions.{get_session}
use staging_platform.Store.Snapshots.{get_session_snapshot}
use staging_platform.Store.Clocks.{get_session_clock}
use staging_platform.Store.Marking.{HasTrimmedId}
use staging_platform.Store.Deletion.{has_rows, delete_session}
use staging_platform.Store.Deletion.Gone.{KeepsOther, delete_session-Gone}
use staging_platform.Runtime.Queue.{
  ScheduleOptions, AdvanceResult, schedule, advance_time, pull_due,
}
use staging_platform.Runtime.Queue.Delivery.{HandedOut, advance_time-HandedOut}
use staging_platform.Runtime.Queue.Pulling.{pull_due-HandedOut, pull_due-again}
use staging_platform.Runtime.Queue.Ready.{IsReady}
use staging_platform.Runtime.Queue.Total.{advance_time_total}
use staging_platform.Runtime.Queue.Failure.{
  OnlyClocks, advance_time_failed, advance_time-IsReady, schedule-IsReady,
}
use staging_platform.Json.{null}
use staging_platform.Runtime.Injection.{Machine, Rule, Request, Decision, Engine, evaluate}
use staging_platform.Runtime.Injection.Deciding.{Explains, evaluate-Explains}
use staging_platform.Runtime.Injection.Counting.{started, asked}
use staging_platform.Runtime.Injection.Total.{Reached, made, called, evaluate_total}
use staging_platform.Runtime.Session.{fork, snapshot, restore, current_snapshot}
use staging_platform.Runtime.Session.ReadBack.{snapshot-current_snapshot, restore-current_snapshot}
use staging_platform.Runtime.Session.Forking.{fork_of_run-not_ok}
use staging_platform.Runtime.Session.Copying.{fork-Copies}
use staging_platform.Examples.Fixtures.{
  small_codec, session, run_row, two_sessions, from_run, webhook,
}
use staging_platform.Examples.Runs.{run_all}

-- What a method that succeeds returns.
abbrev value_or : {A : Type 0} → A → Result A → A
value_or d (ok a) = a
value_or d (err e) = d

abbrev no_clock : SessionClock
no_clock = record { session_name = ""; current_time = 0; updated_at = 0 }

abbrev advance_all : Result AdvanceResult × Db
advance_all = advance_time small_codec "shop" (pos 60) 10 two_sessions

abbrev advanced : AdvanceResult
advanced = value_or (record { clock = no_clock; delivered_push = [] }) advance_all.0

trimmed : All HasTrimmedId two_sessions.events
unfolding run_all
trimmed = (refl, (refl, (refl, tt)))

ready : IsReady small_codec two_sessions.events
unfolding run_all
ready = record {
  distinct = (refl, (refl, (refl, tt)));
  sound = ((refl, refl, (_, refl)), ((refl, refl, (_, refl)), ((refl, refl, (_, refl)), tt)));
}

advance_time-HandedOut_example :
    HandedOut "shop" push 70 two_sessions.events advance_all.1 advanced.delivered_push
unfolding run_all
advance_time-HandedOut_example =
    advance_time-HandedOut small_codec "shop" (pos 60) 10 two_sessions trimmed refl

advance_time_total_example :
    (r : AdvanceResult) × (d : Db) × (advance_time small_codec " shop" (pos 60) 10 two_sessions
      ≡ (ok r, d))
unfolding run_all
advance_time_total_example =
    advance_time_total small_codec " shop" 60 10 two_sessions refl refl refl (inl refl) ready

advance_time_failed_example :
    OnlyClocks two_sessions (advance_time small_codec "nobody" (pos 60) 10 two_sessions).1
unfolding run_all
advance_time_failed_example =
    advance_time_failed small_codec "nobody" (pos 60) 10 two_sessions {e = not_found} refl

advance_time-IsReady_example : IsReady small_codec advance_all.1.events
unfolding run_all
advance_time-IsReady_example =
    advance_time-IsReady small_codec "shop" (pos 60) 10 two_sessions ready refl

abbrev refund_due : ScheduleOptions
refund_due = record {
  session_name = "shop ";
  service = "stripe";
  topic = "refund.created";
  delivery_mode = push;
  due_at = 90;
  payload = none;
}

schedule-IsReady_example :
    IsReady small_codec (schedule small_codec refund_due (some "evt_d") 10 two_sessions).1.events
unfolding run_all
schedule-IsReady_example =
    schedule-IsReady small_codec refund_due "evt_d" 10 two_sessions refl ready

-- Pulls: `evt_p` is due when the clock is made, `evt_q` is not.
abbrev with_pulls : Db
with_pulls = record two_sessions {
  events =
      record (webhook "evt_q" "shop" 70) { delivery_mode = pull }
      ∷ record (webhook "evt_p" "shop" 5) { delivery_mode = pull }
      ∷ [];
}

abbrev pull_all : Result (List ScheduledEvent) × Db
pull_all = pull_due small_codec "shop" 10 with_pulls

pulls_trimmed : All HasTrimmedId with_pulls.events
unfolding run_all
pulls_trimmed = (refl, (refl, tt))

pull_due-HandedOut_example :
    (clock : SessionClock) × (get_session_clock pull_all.1 "shop" ≡ ok clock)
    × HandedOut "shop" pull clock.current_time with_pulls.events pull_all.1 (value_or [] pull_all.0)
unfolding run_all
pull_due-HandedOut_example = pull_due-HandedOut small_codec "shop" 10 with_pulls pulls_trimmed refl

pull_due-again_example : pull_due small_codec "shop" 99 pull_all.1 ≡ (ok [], pull_all.1)
unfolding run_all
pull_due-again_example =
    pull_due-again small_codec "shop" 10 99 with_pulls {out = value_or [] pull_all.0} pulls_trimmed
      refl

apart : ◌≢◌ {A = String} "shop" "other"
apart h = ground (arith, eq_iff "shop" "other")

delete_session-Gone_example :
    (db' : Db) × (delete_session two_sessions "shop" ≡ ok db')
    × (has_rows db' "shop" ≡ false)
    × (get_session db' "shop" ≡ err not_found)
    × KeepsOther "other" two_sessions db'
unfolding run_all
delete_session-Gone_example = delete_session-Gone two_sessions "shop" "other" refl apart

abbrev taken : Result SessionSnapshot × Db
taken = snapshot small_codec "shop" (some end) (some "snap_2") 30 two_sessions

abbrev no_snapshot : SessionSnapshot
no_snapshot = record {
  snapshot_id = "";
  session_name = "";
  parent_snapshot_id = "";
  source_run_id = "";
  state = none;
  created_at = 0;
}

snapshot-current_snapshot_example :
    current_snapshot small_codec "shop" taken.1 ≡ (ok (value_or no_snapshot taken.0), taken.1)
unfolding run_all
snapshot-current_snapshot_example =
    snapshot-current_snapshot small_codec "shop" end (some "snap_2") 30 two_sessions refl

abbrev back : Result SessionRecord × Db
back = restore small_codec "shop" "snap_1" 40 taken.1

abbrev restored : SessionRecord
restored = value_or (session "" "") back.0

restore-current_snapshot_example :
    (restored.session_name ≡ trim_space "shop")
    × (restored.current_snapshot_id ≡ trim_space "snap_1")
    × (s : SessionSnapshot) × (s.session_name ≡ restored.session_name)
    × (get_session_snapshot small_codec taken.1 (trim_space "snap_1") ≡ ok s)
    × (current_snapshot small_codec "shop" back.1 ≡ (ok s, back.1))
unfolding run_all
restore-current_snapshot_example =
    restore-current_snapshot small_codec "shop" "snap_1" 40 taken.1 refl

abbrev forked : Result SessionRecord × Db
forked = fork small_codec "shop" "copy" (some "snap_2") 30 two_sessions

abbrev copy : SessionRecord
copy = value_or (session "" "") forked.0

fork-Copies_example :
    (p : SessionRecord) × (get_session two_sessions (trim_space "shop") ≡ ok p)
    × (any (session_named (trim_space "copy")) two_sessions.sessions ≡ false)
    × (copy.session_name ≡ trim_space "copy")
    × (copy.parent_session_name ≡ p.session_name)
    × (((is_blank p.current_snapshot_id ≡ true) × (copy.current_snapshot_id ≡ ""))
        ⊎ ((s k : SessionSnapshot) × (get_session_snapshot small_codec two_sessions
                p.current_snapshot_id
              ≡ ok s)
            × (current_snapshot small_codec "copy" forked.1 ≡ (ok k, forked.1))
            × (k.snapshot_id ≡ copy.current_snapshot_id)
            × (k.session_name ≡ copy.session_name)
            × (k.parent_snapshot_id ≡ s.snapshot_id)
            × (k.state ≡ s.state)))
unfolding run_all
fork-Copies_example = fork-Copies small_codec "shop" "copy" (some "snap_2") 30 two_sessions refl

abbrev fork_from_run : Result SessionRecord × Db
fork_from_run = fork small_codec "shop" "twin" (some "snap_2") 30 from_run

not_twin : ◌≢◌ {A = String} "shop" "twin"
not_twin h = ground (arith, eq_iff "shop" "twin")

fork_of_run-not_ok_example : ¬ (fork_from_run ≡ (ok (session "twin" "snap_2"), fork_from_run.1))
unfolding run_all
fork_of_run-not_ok_example =
    fork_of_run-not_ok small_codec "shop" "twin" (some "snap_2") 30 from_run
      (session "shop" "snap_1")
      (record no_snapshot {
        snapshot_id = "snap_1";
        session_name = "shop";
        source_run_id = "run_1";
        state = some end;
        created_at = 10;
      })
      (run_row "run_1" "shop") refl refl refl refl refl not_twin

-- Probabilities in percent, drawn one after the other.
abbrev percents : Machine
percents = record {
  Float = ℕ;
  is_below_zero = λ p. false;
  is_above_one = λ p. ltb 100 p;
  is_at_most_zero = λ p. p == 0;
  is_at_least_one = λ p. leb 100 p;
  is_less = ltb;
  to_lower = λ t. t;
  Source = ℕ;
  draw = λ n. (n, n + 1);
}

-- The second call of the charge is declined.
abbrev decline : Rule ℕ
decline = record {
  match = record {
    service = "stripe";
    operation = "charges.create";
    tool = "";
    nth_call = pos 2;
    any_call = false;
    probability = none;
  };
  inject = record {
    library = "stripe.card_declined";
    status = pos 0;
    error = "";
    latency_ms = pos 0;
    body = null;
  };
}

abbrev fresh_engine : Engine percents
fresh_engine = record { rules = decline ∷ []; counts = []; source = 7 }

abbrev charge : Request
charge = record { service = "stripe"; operation = " charges.create"; tool = "" }

abbrev after_call : Engine percents
after_call = (evaluate percents fresh_engine charge).1

after_call-Reached : Reached percents after_call
unfolding run_all
after_call-Reached = called fresh_engine charge (made (decline ∷ []) 7 fresh_engine refl)

-- The first call is not declined.
first_call_passes : (evaluate percents fresh_engine charge).0 ≡ ok none
unfolding run_all
first_call_passes = refl

evaluate_total_example :
    (d : Option (Decision ℕ)) × ((evaluate percents after_call charge).0 ≡ ok d)
unfolding run_all
evaluate_total_example = evaluate_total percents after_call charge after_call-Reached refl

abbrev declined : Result (Option (Decision ℕ))
declined = (evaluate percents after_call charge).0

abbrev no_decision : Decision ℕ
no_decision = record {
  override = record { status = pos 0; error = ""; latency_ms = pos 0; body = none };
  provenance = record {
    rule_index = 0;
    tool = "";
    service = "";
    operation = "";
    call_number = 0;
    nth_call = pos 0;
    any_call = false;
    probability = none;
    library = "";
    status = pos 0;
    error = "";
    latency_ms = pos 0;
  };
}

abbrev decided : Result (Option (Decision ℕ)) → Decision ℕ
decided (ok (some d)) = d
decided r = no_decision

-- The call is the second one of the charge.
evaluate-Explains_example :
    Explains percents "stripe" "charges.create" 2 (decline ∷ []) 0 7 7 (some (decided declined))
unfolding run_all
evaluate-Explains_example =
    evaluate-Explains percents (decline ∷ []) (charge ∷ []) after_call charge
      (asked [] fresh_engine charge (started 7 fresh_engine refl)) refl
