-- ===== src/Tests/Scheduling.antt =====
-- Ticks on small worlds.
use mathlib.Core.List.{Memᴰ}
use cronfoundry.Prelude.{◌≡◌, refl, true, some, List, [], ◌∷◌, map, arith, any, ◌&&◌}
use cronfoundry.Store.Rows.{World, Run, running, is_failed, now}
use cronfoundry.Store.Exec.{ok, ◌>>=◌, statement, attempt, call}
use cronfoundry.Store.Runs.{
  insert_row, set_running, set_token_hash, active_runs, delete_row, orphan_sweep, new_run, has_id,
}
use cronfoundry.Store.Runs.Insert.{GoodRuns}
use cronfoundry.Store.Runs.Frozen.{Frozen}
use cronfoundry.Store.Runs.Sweep.{runs_after, orphan_sweep-pending}
use cronfoundry.Store.Schedules.{JoinedSchedule, due_schedules, set_next_fire_at}
use cronfoundry.Config.SecretRefs.{collect_secret_refs}
use cronfoundry.Scheduler.Overlap.{decide}
use cronfoundry.Scheduler.Tick.{
  tick, process_all, process_one, settle, apply_decision, dispatch_run, launch_runner,
  dispatch_pending, dispatch_all, list_pending, next_fire, no_stats, scheduled_run,
}
use cronfoundry.Scheduler.Tick.Decides.{Due, armed, process_one-decides, process_one-skips}
use cronfoundry.Tests.Data.{
  working, due_world, done_world, done_run, busy_world, busy_run, daily, joined, queued, waiting,
  stale_world,
}

-- The due run is launched and running.
tick_due : map (λ r. r.status) (tick working due_world).1.runs ≡ running ∷ []
unfolding tick process_all process_one settle apply_decision dispatch_run launch_runner
    dispatch_pending dispatch_all list_pending next_fire insert_row set_running set_token_hash
    active_runs delete_row orphan_sweep due_schedules set_next_fire_at collect_secret_refs decide
    ◌>>=◌ statement attempt call
tick_due = refl

pub done-GoodRuns : GoodRuns done_world.runs done_world.next_id
done-GoodRuns = record {
  good = (
    record {
      id_given = omega arith;
      fire_consistent = refl;
      finished_when_terminal = refl;
      started_when_running = λ h. refl;
    },
    tt,
  );
  apart = (tt, tt);
}

busy-GoodRuns : GoodRuns busy_world.runs busy_world.next_id
busy-GoodRuns = record {
  good = (
    record {
      id_given = omega arith;
      fire_consistent = refl;
      finished_when_terminal = refl;
      started_when_running = λ h. refl;
    },
    tt,
  );
  apart = (tt, tt);
}

pub done-Frozen : Frozen 3 done_run done_world.tables done_world.next_id
done-Frozen = record { present = refl; given = omega arith; unchanged = (λ h. refl, tt) }

Due-done : Due working joined done_world 60001000 "ab"
unfolding next_fire
Due-done = record { answers = refl; next_known = refl; hash_made = refl; schedule_there = refl }

Due-busy : Due working joined busy_world 60001000 "ab"
unfolding next_fire
Due-busy = record { answers = refl; next_known = refl; hash_made = refl; schedule_there = refl }

-- the run of the fire time is there already
abbrev fired_run : Run
fired_run = record busy_run { fire_time = some 1000 }

abbrev fired_world : World
fired_world = record due_world { tables = record busy_world.tables { runs = fired_run ∷ [] } }

Due-fired : Due working joined fired_world 60001000 "ab"
unfolding next_fire
Due-fired = record { answers = refl; next_known = refl; hash_made = refl; schedule_there = refl }

Due-queued : Due working queued busy_world 60001000 "ab"
unfolding next_fire
Due-queued = record { answers = refl; next_known = refl; hash_made = refl; schedule_there = refl }

-- `daily` advances to the next minute
abbrev after_fire : JoinedSchedule → List Run → World → World
after_fire j runs w = armed j 60001000 runs w

-- the run that the fire inserts
abbrev fired : JoinedSchedule → World → Run
fired j w = new_run (scheduled_run j 1000 "ab") w.next_id (now w)

process_one-decides_example :
    process_one working joined no_stats done_world
    ≡ apply_decision working joined 7 no_stats
        (decide "skip" 0)
        (after_fire joined (done_run ∷ fired joined done_world ∷ []) done_world)
process_one-decides_example =
    process_one-decides working joined no_stats done_world 60001000 "ab" Due-done done-GoodRuns refl

process_one-skips_example :
    process_one working joined no_stats busy_world
    ≡ (ok (record no_stats { skipped = 1 }), after_fire joined (busy_run ∷ []) busy_world)
process_one-skips_example =
    process_one-skips working joined no_stats busy_world 60001000 "ab" Due-busy busy-GoodRuns refl
      refl refl (omega arith)

-- two runs that were created at once
abbrev twins : List Run
twins = waiting 3 500 ∷ waiting 4 500 ∷ []

orphan_sweep-pending_example :
    any (λ x. has_id 3 x && is_failed x.status) (runs_after (orphan_sweep stale_world)) ≡ true
orphan_sweep-pending_example =
    orphan_sweep-pending stale_world (waiting 3 500) daily 600 (Memᴰ.head refl) refl refl refl refl
      (omega arith) refl
