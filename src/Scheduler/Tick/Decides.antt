-- ===== src/Scheduler/Tick/Decides.antt =====
-- processOne of internal/scheduler/tick.go on a due schedule, when the database answers.
use cronfoundry.Prelude.{
  ℕ, suc, ◌<◌, String, ◌≡◌, refl, ap, ◌∙◌, Bool, true, false, ◌&&◌, not, Option, none, some, List,
  [], ◌∷◌, ◌++◌, arith, length, select, find, any, insert_by, sort_by, ◌==◌, str_eq, All,
}
use cronfoundry.Store.Rows.{World, Run, Schedule, is_active, now}
use cronfoundry.Store.Exec.{ok, pure, gets}
use cronfoundry.Store.Exec.Quiet.{bind_ok, statement_ok}
use cronfoundry.Store.Runs.{
  new_run, insert_row, same_fire, active_runs, created_before, delete_row, has_id,
}
use cronfoundry.Store.Runs.Keys.{GoodRun}
use cronfoundry.Store.Runs.Insert.{GoodRuns}
use cronfoundry.Store.Schedules.{
  JoinedSchedule, set_next_fire_at, update_schedules, schedule_has_id,
}
use cronfoundry.Scheduler.Overlap.{skip, queue, decide}
use cronfoundry.Scheduler.Tick.{
  Deps, TickError, Stats, lift, next_fire, scheduled_run, this_fire_of, apply_decision, settle,
  process_one, compute_next_fire, placeholder_hash, insert_failed, update_next_fire, list_active,
  delete_skipped,
}

-- the active runs of a schedule
abbrev pub active_of : ℕ → Run → Bool
active_of sid r = r.schedule_id == sid && is_active r.status

abbrev pub active_count : ℕ → List Run → ℕ
active_count sid rs = length (select (active_of sid) rs)

count-insert_by :
    (p : Run → Bool) (b : Run → Run → Bool) (x : Run) (xs : List Run)
    → length (select p (insert_by b x xs)) ≡ length (select p (x ∷ xs))
count-insert_by p b x [] = refl
count-insert_by p b x (y ∷ ys) = ground (arith, count-insert_by p b x ys)

-- the order of the rows does not matter to a count
count-sort_by :
    (p : Run → Bool) (b : Run → Run → Bool) (xs : List Run)
    → length (select p (sort_by b xs)) ≡ length (select p xs)
count-sort_by p b [] = refl
count-sort_by p b (x ∷ xs) =
    ground (arith, count-insert_by p b x (sort_by b xs), count-sort_by p b xs)

module _ (n : ℕ) where
  -- the rows but the one that was just inserted
  count-others :
      (sid : ℕ) (s : Run) (rs : List Run)
      → s.id ≡ n
      → All (GoodRun n) rs
      → length (select (λ r. not (has_id n r)) (select (active_of sid) (rs ++ s ∷ [])))
        ≡ active_count sid rs
  count-others sid s [] e h = ground arith
  count-others sid s (r ∷ rs) e (g, gs) = ground (arith, g.id_given, count-others sid s rs e gs)

  delete-append :
      (s : Run) (rs : List Run)
      → s.id ≡ n
      → All (GoodRun n) rs
      → select (λ r. not (has_id n r)) (rs ++ s ∷ []) ≡ rs
  delete-append s [] e h = ground arith
  delete-append s (r ∷ rs) e (g, gs) = ground (arith, g.id_given, delete-append s rs e gs)

-- the world after the insert and the new fire time
abbrev pub armed : JoinedSchedule → ℕ → List Run → World → World
armed j next runs w = record w {
  tables = record w.tables {
    runs = runs;
    schedules =
        update_schedules (schedule_has_id j.sched.id) (λ s. record s { next_fire_at = some next })
          w.schedules;
  };
  next_id = suc w.next_id;
}

lift_ok :
    {A : Type 0} (e : TickError) (o : Option A) (a : A) (w : World)
    → o ≡ some a
    → lift e o w ≡ (ok a, w)
unfolding pure
lift_ok e o a w h = rw h

-- The due schedule and what its collaborators answer.
pub record Due (d : Deps) (j : JoinedSchedule) (w : World) (next : ℕ) (hash : String) : Type 0 where
  pub answers : w.script ≡ []
  pub next_known :
      next_fire d j.sched.cron j.sched.timezone (this_fire_of j.sched.next_fire_at) ≡ some next
  pub hash_made : d.random_hex w.next_id ≡ some hash
  pub schedule_there : any (λ (s : Schedule). s.id == j.sched.id) w.schedules ≡ true

module _ (d : Deps) (j : JoinedSchedule) (stats : Stats) (w : World) (next : ℕ) (hash : String)
    (due : Due d j w next hash) where
  abbrev pub the_run : Run
  the_run = new_run (scheduled_run j (this_fire_of j.sched.next_fire_at) hash) w.next_id (now w)

  abbrev pub inserted : World
  inserted = record w {
    tables = record w.tables { runs = w.runs ++ the_run ∷ [] };
    next_id = suc w.next_id;
  }

  process_one-settle :
      (run : Run) (b : Bool) (w' : World)
      → insert_row (scheduled_run j (this_fire_of j.sched.next_fire_at) hash) w
        ≡ some ((run, b), w')
      → w'.script ≡ []
      → process_one d j stats w
        ≡ settle d j stats run b (record w' {
          tables = record w'.tables {
            schedules =
                update_schedules
                  (schedule_has_id j.sched.id)
                  (λ s. record s { next_fire_at = some next })
                  w'.schedules;
          };
        })
  unfolding process_one set_next_fire_at gets
  process_one-settle run b w' h s =
      bind_ok _ _ w w next (lift_ok compute_next_fire _ next w due.next_known)
      ∙ bind_ok _ _ w w w.next_id refl
      ∙ bind_ok _ _ w w hash (lift_ok placeholder_hash _ hash w due.hash_made)
      ∙ bind_ok _ _ w w' (run, b) (statement_ok insert_failed _ w w' (run, b) due.answers h)
      ∙ bind_ok _ _ w' _ tt (statement_ok update_next_fire _ w' _ tt s refl)

  insert_new :
      find (same_fire j.sched.id (some (this_fire_of j.sched.next_fire_at))) w.runs ≡ none
      → insert_row (scheduled_run j (this_fire_of j.sched.next_fire_at) hash) w
        ≡ some ((the_run, true), inserted)
  unfolding insert_row
  insert_new h = rw (due.schedule_there, h)

  -- Where the run table is well formed, the calls of the database succeed, and the next fire time
  -- and the placeholder hash can be made, a due schedule whose fire time has no run yet: the run is
  -- inserted, the schedule advances to its next fire time, and the overlap policy is applied to the
  -- number of the other active runs.
  pub process_one-decides :
      GoodRuns w.runs w.next_id
      → find (same_fire j.sched.id (some (this_fire_of j.sched.next_fire_at))) w.runs ≡ none
      → process_one d j stats w
        ≡ apply_decision d j w.next_id stats
            (decide j.sched.overlap_policy (active_count j.sched.id w.runs))
            (armed j next (w.runs ++ the_run ∷ []) w)
  unfolding settle active_runs
  process_one-decides g h =
      process_one-settle the_run true inserted (insert_new h) due.answers
      ∙ bind_ok _ _ (armed j next (w.runs ++ the_run ∷ []) w) _ _ (
          statement_ok list_active _ (armed j next (w.runs ++ the_run ∷ []) w) _ _ due.answers refl)
      ∙ ap
          (λ k.
            apply_decision d j w.next_id stats (decide j.sched.overlap_policy k)
              (armed j next (w.runs ++ the_run ∷ []) w))
          (count-sort_by (λ r. not (has_id w.next_id r)) created_before
              (select (active_of j.sched.id) (w.runs ++ the_run ∷ []))
            ∙ count-others w.next_id j.sched.id the_run w.runs refl g.good)

  find_insert :
      (r : Run)
      → find (same_fire j.sched.id (some (this_fire_of j.sched.next_fire_at))) w.runs ≡ some r
      → insert_row (scheduled_run j (this_fire_of j.sched.next_fire_at) hash) w
        ≡ some ((r, false), w)
  unfolding insert_row
  find_insert r h = rw (due.schedule_there, h)

  -- Where the calls of the database succeed, and the next fire time and the placeholder hash can be
  -- made, a fire time that has a run already, as after a tick of another process: the schedule
  -- advances, and nothing else changes; no runner is launched, and the statistics stay as they
  -- were.
  pub process_one_duplicate :
      (r : Run)
      → find (same_fire j.sched.id (some (this_fire_of j.sched.next_fire_at))) w.runs ≡ some r
      → process_one d j stats w ≡ (
        ok stats,
        record w {
          tables = record w.tables {
            schedules =
                update_schedules
                  (schedule_has_id j.sched.id)
                  (λ s. record s { next_fire_at = some next })
                  w.schedules;
          };
        },
      )
  unfolding settle pure
  process_one_duplicate r h = process_one-settle r false w (find_insert r h) due.answers

  skips :
      GoodRuns w.runs w.next_id
      → apply_decision d j w.next_id stats skip (armed j next (w.runs ++ the_run ∷ []) w)
        ≡ (ok (record stats { skipped = suc stats.skipped }), armed j next w.runs w)
  unfolding apply_decision delete_row pure
  skips g = bind_ok _ _ (armed j next (w.runs ++ the_run ∷ []) w) (armed j next w.runs w) tt (
      statement_ok delete_skipped _ (armed j next (w.runs ++ the_run ∷ []) w) _ tt due.answers (
        ap (λ rs. some (tt, armed j next rs w))
          (delete-append w.next_id the_run w.runs refl g.good)))

  decide_skipped :
      (n : ℕ)
      → str_eq j.sched.overlap_policy "concurrent" ≡ false
      → str_eq j.sched.overlap_policy "queue" ≡ false
      → 0 < n
      → decide j.sched.overlap_policy n ≡ skip
  unfolding decide
  decide_skipped n c q h = rw (c, q) (ground arith)

  decide_queue :
      (n : ℕ) → j.sched.overlap_policy ≡ "queue" → 0 < n → decide j.sched.overlap_policy n ≡ queue
  unfolding decide
  decide_queue n e h = rw e (ground arith)

  -- Under the conditions of process_one-decides, while a run of the schedule is active, a due fire
  -- under the policy `skip`, an empty or an unknown one leaves the run table exactly as it was and
  -- launches no runner; the schedule advances, and the fire is counted as skipped.
  pub process_one-skips :
      GoodRuns w.runs w.next_id
      → find (same_fire j.sched.id (some (this_fire_of j.sched.next_fire_at))) w.runs ≡ none
      → str_eq j.sched.overlap_policy "concurrent" ≡ false
      → str_eq j.sched.overlap_policy "queue" ≡ false
      → 0 < active_count j.sched.id w.runs
      → process_one d j stats w
        ≡ (ok (record stats { skipped = suc stats.skipped }), armed j next w.runs w)
  process_one-skips g h c q a =
      process_one-decides g h
      ∙ ap (λ k. apply_decision d j w.next_id stats k (armed j next (w.runs ++ the_run ∷ []) w))
          (decide_skipped _ c q a)
      ∙ skips g

  -- Under the conditions of process_one-decides, while a run of the schedule is active, a due fire
  -- under the policy `queue` adds one pending run at the end of the table and launches no runner;
  -- the schedule advances, and the fire is counted as queued.
  pub process_one-queues :
      GoodRuns w.runs w.next_id
      → find (same_fire j.sched.id (some (this_fire_of j.sched.next_fire_at))) w.runs ≡ none
      → j.sched.overlap_policy ≡ "queue"
      → 0 < active_count j.sched.id w.runs
      → process_one d j stats w
        ≡ (ok (record stats { queued = suc stats.queued }), armed j next (w.runs ++ the_run ∷ []) w)
  unfolding apply_decision pure
  process_one-queues g h e a =
      process_one-decides g h
      ∙ ap (λ k. apply_decision d j w.next_id stats k (armed j next (w.runs ++ the_run ∷ []) w))
          (decide_queue _ e a)
