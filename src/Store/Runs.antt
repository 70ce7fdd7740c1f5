-- ===== src/Store/Runs.antt =====
-- The statements on the table `run` (internal/db/queries/run.sql).
pub mod Keys
pub mod Update
pub mod Frozen
pub mod Sweep
pub mod Insert
use cronfoundry.Prelude.{
  ℤ, pos, negsuc, ◌+ℤ◌, suc, ◌*◌, any, not, find, if◌then◌else◌, ℕ, suc, ◌+◌, ◌*◌, String, Bool,
  true, false, ◌&&◌, ◌||◌, not, Option, none, some, List, [], ◌∷◌, ◌++◌, map, ℤ, ltb, leb, ◌==◌,
  if◌then◌else◌, length, select, find, any, head?, sort_by, take,
}
use cronfoundry.Store.Rows.{
  World, Run, Schedule, Status, pending, running, failed, FireReason, manual, schedule, is_active,
  is_pending, now,
}

pub record InsertRunParams : Type 0 where
  pub org_id : ℕ
  pub schedule_id : ℕ
  pub skill_sha : String
  pub fire_time : Option ℕ
  pub fire_reason : FireReason
  pub actor : Option String
  pub runner_token_hash : String

abbrev pub fires_at : ℕ → Option ℕ → Bool
fires_at t none = false
fires_at t (some u) = t == u

-- the partial unique index on (schedule_id, fire_time)
abbrev pub same_fire : ℕ → Option ℕ → Run → Bool
same_fire sid none r = false
same_fire sid (some t) r = sid == r.schedule_id && fires_at t r.fire_time

-- the check that a manual run has no fire time and a scheduled one has
abbrev pub is_consistent : FireReason → Option ℕ → Bool
is_consistent manual none = true
is_consistent schedule (some t) = true
is_consistent _ _ = false

abbrev pub new_run : InsertRunParams → ℕ → ℕ → Run
new_run p id t = record {
  id = id;
  org_id = p.org_id;
  schedule_id = p.schedule_id;
  skill_sha = p.skill_sha;
  fire_time = p.fire_time;
  status = pending;
  fire_reason = p.fire_reason;
  actor = p.actor;
  started_at = none;
  finished_at = none;
  duration_ms = none;
  tokens_in = none;
  tokens_out = none;
  cost_cents = none;
  error_kind = none;
  error_msg = none;
  writeback_commit_sha = none;
  runner_pid = none;
  runner_token_hash = p.runner_token_hash;
  created_at = t;
}

abbrev pub insert_or : InsertRunParams → World → Option Run → (Run × Bool) × World
insert_or p w none =
    let r = new_run p w.next_id (now w) in
    (
      (r, true),
      record w { tables = record w.tables { runs = w.runs ++ r ∷ [] }; next_id = suc w.next_id },
    )
insert_or p w (some r) = ((r, false), w)

-- InsertRun: the new row with `true`, or the row that was there with `false`
unfoldable pub insert_row : InsertRunParams → World → Option ((Run × Bool) × World)
insert_row p w =
    if any (λ (s : Schedule). s.id == p.schedule_id) w.schedules
      && is_consistent p.fire_reason p.fire_time
    then some (insert_or p w (find (same_fire p.schedule_id p.fire_time) w.runs))
    else none

-- UPDATE run SET … WHERE …
abbrev pub update_where : (Run → Bool) → (Run → Run) → List Run → List Run
update_where p f = map (λ r. if p r then f r else r)

abbrev pub has_id : ℕ → Run → Bool
has_id i r = i == r.id

-- SetRunRunning's WHERE and SET
abbrev pub starts : ℕ → Run → Bool
starts i r = has_id i r && is_pending r.status

abbrev pub start : ℕ → Option ℕ → Run → Run
start t pid r = record r { status = running; started_at = some t; runner_pid = pid }

unfoldable pub set_running : ℕ → Option ℕ → World → Option (Option Run × World)
set_running i pid w =
    let t = now w in
    some (
      head? (map (start t pid) (select (starts i) w.runs)),
      record w { tables = record w.tables { runs = update_where (starts i) (start t pid) w.runs } },
    )

pub record FinalizeRunParams : Type 0 where
  pub id : ℕ
  pub status : Status
  pub duration_ms : Option ℤ
  pub tokens_in : Option ℤ
  pub tokens_out : Option ℤ
  pub cost_cents : Option ℤ
  pub error_kind : Option String
  pub error_msg : Option String
  pub writeback_commit_sha : Option String

-- FinalizeRun's WHERE and SET
abbrev pub finalizes : ℕ → Run → Bool
finalizes i r = has_id i r && is_active r.status

abbrev pub finish : ℕ → FinalizeRunParams → Run → Run
finish t p r = record r {
  status = p.status;
  finished_at = some t;
  duration_ms = p.duration_ms;
  tokens_in = p.tokens_in;
  tokens_out = p.tokens_out;
  cost_cents = p.cost_cents;
  error_kind = p.error_kind;
  error_msg = p.error_msg;
  writeback_commit_sha = p.writeback_commit_sha;
}

unfoldable pub finalize_row : FinalizeRunParams → World → Option (Option Run × World)
finalize_row p w =
    let t = now w in
    some (
      head? (map (finish t p) (select (finalizes p.id) w.runs)),
      record w {
        tables = record w.tables { runs = update_where (finalizes p.id) (finish t p) w.runs };
      },
    )

-- the second token hash of dispatchRun
unfoldable pub set_token_hash : ℕ → String → World → Option (Unit {0} × World)
set_token_hash i hash w = some (
  tt,
  record w {
    tables = record w.tables {
      runs = update_where (has_id i) (λ r. record r { runner_token_hash = hash }) w.runs;
    };
  },
)

-- ORDER BY created_at ASC
abbrev pub created_before : Run → Run → Bool
created_before r s = leb r.created_at s.created_at

-- ListActiveRunsForSchedule
unfoldable pub active_runs : ℕ → World → List Run
active_runs sid w =
    sort_by created_before (select (λ r. r.schedule_id == sid && is_active r.status) w.runs)

-- DeleteRun
unfoldable pub delete_row : ℕ → World → Option (Unit {0} × World)
delete_row i w =
    some
      (tt, record w { tables = record w.tables { runs = select (λ r. not (has_id i r)) w.runs } })

-- GetRun
unfoldable pub get_run : ℕ → World → Option Run
get_run i w = find (has_id i) w.runs

abbrev pub or_else : Option ℕ → ℕ → ℕ
or_else none d = d
or_else (some t) d = t

abbrev pub or_text : Option String → String → String
or_text none d = d
or_text (some t) d = t

-- more than the given seconds after a time
abbrev pub is_over : ℕ → ℕ → ℤ → Bool
is_over t start (pos n) = ltb (start + n * 1000000) t
is_over t start (negsuc n) = ltb start (t + suc n * 1000000)

abbrev pub timed_out : ℕ → Run → Option Schedule → Bool
timed_out t r none = false
timed_out t r (some s) =
    is_active r.status && is_over t (or_else r.started_at r.created_at) (s.timeout_sec +ℤ pos 300)

-- OrphanSweep's WHERE and SET
abbrev pub orphaned : ℕ → List Schedule → Run → Bool
orphaned t ss r = timed_out t r (find (λ s. s.id == r.schedule_id) ss)

abbrev pub is_int4 : ℤ → Bool
is_int4 (pos n) = ltb n 2147483648
is_int4 (negsuc n) = ltb n 2147483648

abbrev pub overflows_in : Run → Option Schedule → Bool
overflows_in r none = false
overflows_in r (some s) = is_active r.status && not (is_int4 (s.timeout_sec +ℤ pos 300))

-- `s.timeout_sec + 300` is computed in int4 for each active run that is joined with its schedule; one
-- that is out of range fails the statement
abbrev pub overflows : List Schedule → Run → Bool
overflows ss r = overflows_in r (find (λ s. s.id == r.schedule_id) ss)

abbrev pub shut_down : ℕ → Run → Run
shut_down t r = record r {
  status = failed;
  error_kind = some "shutdown";
  error_msg = some (or_text r.error_msg "orphan sweep: run exceeded timeout");
  finished_at = some t;
}

unfoldable pub orphan_sweep : World → Option (ℕ × World)
orphan_sweep w =
    let t = now w in
    if any (overflows w.schedules) w.runs
    then none
    else some (
      length (select (orphaned t w.schedules) w.runs),
      record w {
        tables = record w.tables {
          runs = update_where (orphaned t w.schedules) (shut_down t) w.runs;
        };
      },
    )

abbrev pub is_scheduled : FireReason → Bool
is_scheduled schedule = true
is_scheduled manual = false

-- ORDER BY created_at DESC, id DESC
abbrev pub newer : Run → Run → Bool
newer r s = ltb s.created_at r.created_at || (s.created_at == r.created_at && leb s.id r.id)

-- ListRecentTerminalScheduledRuns' WHERE
abbrev pub counts : ℕ → ℕ → Run → Bool
counts sid since r =
    r.schedule_id == sid
    && is_scheduled r.fire_reason
    && not (is_active r.status)
    && leb since r.created_at

-- ListRecentTerminalScheduledRuns
unfoldable pub recent_terminal : ℕ → ℕ → ℕ → World → List Status
recent_terminal sid since limit w =
    map (λ r. r.status) (take limit (sort_by newer (select (counts sid since) w.runs)))
