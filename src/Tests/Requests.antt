-- ===== src/Tests/Requests.antt =====
-- Requests of runners on small worlds.
use cronfoundry.Prelude.{
  pos, false, ◌<◌, ℕ, ◌+◌, String, ◌≡◌, refl, true, false, none, some, [], ◌∷◌, arith, All,
}
use cronfoundry.Store.Rows.{World, Run, Schedule, failed, schedule, is_manual}
use cronfoundry.Store.Exec.{err, ◌>>=◌, statement, attempt, call, transaction_if, raise, pure}
use cronfoundry.Store.Runs.{finalize_row, recent_terminal, get_run}
use cronfoundry.Store.Runs.Insert.{GoodRuns}
use cronfoundry.Store.Runs.Frozen.{Frozen}
use cronfoundry.Store.Schedules.{get_schedule, auto_pause_schedule}
use cronfoundry.Store.Logs.{insert_run_event, insert_audit_log}
use cronfoundry.Api.Response.{forbidden}
use cronfoundry.Api.AutoPause.{
  evaluate_auto_pause, evaluate_tx, pause_if_streak, pause_schedule, record_pause,
}
use cronfoundry.Api.AutoPause.Streak.{Streak, evaluate_auto_pause-ok}
use cronfoundry.Api.Finalize.{
  FinalizeBody, finalize_handler, finalize_body, finalize_checked, finalize_valid, finalize_tx,
  finalized, finalize_status,
}
use cronfoundry.Api.Finalize.Atomic.{finalize-err}
use cronfoundry.Api.Auth.{RunClaims, Signer, require_bearer, check_claims, check_hash}
use cronfoundry.Api.Auth.Bearer.{require_bearer-ok, finalize_route, api_key-forbidden}
use cronfoundry.Api.Secrets.{secrets_handler, fetch_all, fetch, fetched, log_secret_event, put}
use cronfoundry.Api.Secrets.Scope.{InScope, secrets_handler-ok}
use cronfoundry.Server.{ticks, finalizes, waits, Reach, here, then}
use cronfoundry.Server.History.{Reach-GoodRuns, Reach-Frozen}
use cronfoundry.Scheduler.Tick.{tick}
use cronfoundry.Webapi.RateLimit.{sse_cap, Request, Counters, arrived, admitted, act, move, run}
use cronfoundry.Webapi.RateLimit.Cap.{IsCapped, counted, run-IsCapped, run-admits}
use cronfoundry.Tests.Data.{working, shown, due_world, done_world, done_run, empty_tables}
use cronfoundry.Tests.Scheduling.{done-GoodRuns, done-Frozen}

-- the report of a run that failed
abbrev pub failure : FinalizeBody
failure = record {
  status = "failed";
  duration_ms = none;
  tokens_in = none;
  tokens_out = none;
  cost_cents = none;
  error_kind = some "llm_error";
  error_msg = none;
  writeback_commit_sha = none;
  notifications = [];
}

-- the second report of a run is refused
finalize-err_example :
    (finalize_handler shown 3 (some 3) (some failure) done_world).1.tables ≡ done_world.tables
unfolding finalize_handler finalize_body finalize_checked finalize_valid finalize_tx finalized
    finalize_status finalize_row transaction_if ◌>>=◌ statement call raise
finalize-err_example = finalize-err shown 3 (some 3) (some failure) done_world tt

-- five failed runs of `daily` in a row
abbrev failed_run : ℕ → Run
failed_run i = record done_run {
  id = i;
  status = failed;
  fire_time = some i;
  created_at = i;
  finished_at = some i;
}

abbrev failed_world : World
failed_world = record due_world {
  tables = record empty_tables {
    runs = failed_run 1 ∷ failed_run 2 ∷ failed_run 3 ∷ failed_run 4 ∷ failed_run 5 ∷ [];
  };
}

evaluate_auto_pause-ok_example :
    (failed ≡ failed)
    × (is_manual schedule ≡ false)
    × (cfg : Schedule) × (get_schedule 1 failed_world ≡ some cfg)
    × Streak cfg failed_world
unfolding evaluate_auto_pause evaluate_tx pause_if_streak pause_schedule record_pause get_schedule
    auto_pause_schedule recent_terminal insert_run_event insert_audit_log transaction_if ◌>>=◌
    statement call pure
evaluate_auto_pause-ok_example = evaluate_auto_pause-ok shown 1 5 failed schedule failed_world refl

-- a signer that knows one token, and a store with one secret
abbrev signer : Signer
signer = record {
  verify =
      λ raw. some (record { run_id = 3; org_id = 1; secret_refs = "team" ∷ []; expires_at = 5000 });
  hash_token = λ raw. "hash";
}

abbrev claimed : RunClaims
claimed = record { run_id = 3; org_id = 1; secret_refs = "team" ∷ []; expires_at = 5000 }

require_bearer-ok_example :
    (raw : String) × (some "token" ≡ some raw)
    × (signer.verify raw ≡ some claimed)
    × (run : Run) × (get_run claimed.run_id done_world ≡ some run)
    × (run.runner_token_hash ≡ signer.hash_token raw)
unfolding require_bearer check_claims check_hash get_run ◌>>=◌ statement call pure
require_bearer-ok_example = require_bearer-ok signer (some "token") claimed done_world refl

api_key-forbidden_example :
    finalize_route signer "key" shown
      (record { bearer = none; runner_key = "key" })
      (some 3)
      (some failure)
      done_world
    ≡ (err forbidden, done_world)
api_key-forbidden_example =
    api_key-forbidden signer "key" shown (record { bearer = none; runner_key = "key" }) 3
      (some failure) done_world (λ e. absurd (cc (e))) refl (λ e. omega (arith, e))

secrets_handler-ok_example : All (InScope (λ name. some "value") claimed) (("team", "value") ∷ [])
unfolding secrets_handler fetch_all fetch fetched log_secret_event put insert_run_event ◌>>=◌
    statement attempt call pure
secrets_handler-ok_example =
    secrets_handler-ok (λ name. some "value") claimed ("team" ∷ []) (("team", "value") ∷ [])
      done_world refl

abbrev client : Request
client = record { ip = "10.0.0.1"; phase = arrived }

abbrev no_counters : Counters
no_counters = λ ip. 0

one_left :
    counted "10.0.0.1"
      (run (sse_cap false (pos 2)) (0 ∷ 1 ∷ 0 ∷ []) (client ∷ client ∷ [], no_counters)).0
    < 2
unfolding run move act sse_cap
one_left = ground arith

-- three streams of a client with a cap of two
run-IsCapped_example : IsCapped 2 "10.0.0.1" (
    run
      (sse_cap false (pos 2))
      (0 ∷ 1 ∷ 2 ∷ 0 ∷ 2 ∷ [])
      (client ∷ client ∷ client ∷ [], no_counters))
run-IsCapped_example =
    run-IsCapped 2 (0 ∷ 1 ∷ 2 ∷ 0 ∷ 2 ∷ []) "10.0.0.1" (client ∷ client ∷ client ∷ []) no_counters
      (omega arith) (refl, omega arith)

-- a third stream after one of two has ended
run-admits_example :
    (act
      (sse_cap false (pos 2))
      "10.0.0.1"
      arrived
      (run (sse_cap false (pos 2)) (0 ∷ 1 ∷ 0 ∷ []) (client ∷ client ∷ [], no_counters)).1).0
    ≡ admitted
run-admits_example =
    run-admits 2 (0 ∷ 1 ∷ 0 ∷ []) "10.0.0.1" (client ∷ client ∷ []) no_counters (refl, omega arith)
      one_left

-- a tick, some time, and a report of the run that has ended
abbrev later : World
later = record (tick working done_world).1 {
  clock = (tick working done_world).1.clock + 9000;
  script = record { elapsed = 5; fails = true } ∷ [];
}

abbrev reported : World
reported = (finalize_handler shown 3 (some 3) (some failure) later).1

history : Reach done_world reported
history =
    then later reported
      (then (tick working done_world).1 later
        (then done_world (tick working done_world).1 here (ticks working))
        (waits 9000 (record { elapsed = 5; fails = true } ∷ [])))
      (finalizes shown 3 (some 3) (some failure))

Reach-GoodRuns_example : GoodRuns reported.runs reported.next_id
Reach-GoodRuns_example = Reach-GoodRuns done_world reported history done-GoodRuns

Reach-Frozen_example : Frozen 3 done_run reported.tables reported.next_id
Reach-Frozen_example = Reach-Frozen 3 done_run done_world reported refl history done-Frozen
