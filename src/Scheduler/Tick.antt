-- ===== src/Scheduler/Tick.antt =====
-- internal/scheduler/tick.go, cron.go and sweep.go.
pub mod Keeps
pub mod Safety
pub mod Decides
pub mod Drain
use Prim.Native.String.{◌++◌ as str_append}
use cronfoundry.Prelude.{
  ℤ, pos, ◌+ℤ◌, ℕ, suc, ◌+◌, ◌*◌, String, Bool, true, false, ◌&&◌, ◌||◌, not, Option, none, some,
  List, [], ◌∷◌, ◌++◌, ltb, ◌==◌, str_eq, if◌then◌else◌, length, select, any, find, sort_by,
}
use cronfoundry.Store.Rows.{
  World, Run, Schedule, schedule, is_pending, is_active, is_manual, DispatchRequest,
}
use cronfoundry.Store.Exec.{M, Outcome, ok, err, pure, raise, gets, ◌>>=◌, ◌>>◌, statement, attempt}
use cronfoundry.Store.Runs.{
  InsertRunParams, insert_row, set_running, set_token_hash, active_runs, delete_row, orphan_sweep,
  has_id, created_before, is_scheduled,
}
use cronfoundry.Store.Schedules.{JoinedSchedule, join, cons?, due_schedules, set_next_fire_at}
use cronfoundry.Config.SecretRefs.{collect_secret_refs}
use cronfoundry.Scheduler.Overlap.{Decision, dispatch, skip, queue, decide}

-- What the scheduler calls and does not implement: the time zones and the cron library, the JWT
-- library, the random source, GitHub's installation tokens and the job dispatcher. A zone and a
-- parsed cron expression are numbers; the random source is given the next free id.
pub record Deps : Type 0 where
  pub load_location : String → Option ℕ
  pub parse_cron : String → Option ℕ
  pub cron_next : ℕ → ℕ → ℕ → ℕ
  pub random_hex : ℕ → Option String
  pub sign : ℕ → ℕ → List String → ℕ → ℤ → Option (String × String)
  pub installations : Option (ℕ → Option String)
  pub launch : DispatchRequest → Option ℕ
  pub uuid_text : ℕ → String
  pub api_base_url : String
  pub runner_api_url : String
  pub runner_binary : String

pub data TickError : Type 0 where
  list_due compute_next_fire placeholder_hash insert_failed update_next_fire list_active : TickError
  delete_skipped sign_token update_hash dispatch_failed set_running_failed query_pending : TickError
  sweep_failed : TickError

pub record Stats : Type 0 where
  pub dispatched : ℕ
  pub skipped : ℕ
  pub queued : ℕ
  pub errored : ℕ

-- NextFire of cron.go
unfoldable pub next_fire : Deps → String → String → ℕ → Option ℕ
next_fire d expr tz base = elim (d.load_location tz) [
  | none ↦ none
  | some zone ↦ elim (d.parse_cron expr) [
    | none ↦ none
    | some spec ↦ some (d.cron_next spec zone base)
  ]
]

abbrev pub lift : {A : Type 0} → TickError → Option A → M TickError A
lift e none = raise e
lift e (some a) = pure a

pub record DispatchArgs : Type 0 where
  pub run_id : ℕ
  pub org_id : ℕ
  pub timeout_sec : ℤ
  pub secret_refs : List String
  pub install_id : ℕ
  pub schedule_name : String

abbrev pub or_empty : Option String → String
or_empty none = ""
or_empty (some s) = s

abbrev mint_by : Option (ℕ → Option String) → ℕ → String
mint_by none install = ""
mint_by (some token) install = if install == 0 then "" else or_empty (token install)

-- the GitHub token, "" where there is none or minting it fails
abbrev pub github_token : Deps → ℕ → String
github_token d install = mint_by d.installations install

abbrev pub runner_url : Deps → String
runner_url d = if str_eq d.runner_api_url "" then d.api_base_url else d.runner_api_url

abbrev pub runner_env : Deps → DispatchArgs → String → List (String × String)
runner_env d a tok =
    let gh = github_token d a.install_id in
    ("CRONFOUNDRY_API_URL", runner_url d)
    ∷ ("CRONFOUNDRY_RUN_ID", d.uuid_text a.run_id)
    ∷ ("CRONFOUNDRY_RUN_TOKEN", tok)
    ∷ (if str_eq gh "" then [] else ("GITHUB_TOKEN", gh) ∷ [])

abbrev pub dispatch_request : Deps → DispatchArgs → String → DispatchRequest
dispatch_request d a tok = record {
  binary_path = d.runner_binary;
  run_id = a.run_id;
  env = runner_env d a tok;
}

abbrev launched_as : DispatchRequest → Option ℕ → World → Outcome TickError ℕ × World
launched_as req none w = (err dispatch_failed, w)
launched_as req (some pid) w = (ok pid, record w { launched = w.launched ++ req ∷ [] })

-- deps.Dispatcher.Dispatch
unfoldable pub launch_runner : Deps → DispatchRequest → M TickError ℕ
launch_runner d req w = launched_as req (d.launch req) w

-- dispatchRun: the token lives for the timeout and 120 seconds more
unfoldable pub dispatch_run : Deps → DispatchArgs → M TickError (Unit {0})
dispatch_run d a = do
  t ← gets (λ w. w.clock)
  signed ← lift sign_token (d.sign a.run_id a.org_id a.secret_refs t (a.timeout_sec +ℤ pos 120))
  statement update_hash (set_token_hash a.run_id signed.1)
  pid ← launch_runner d (dispatch_request d a signed.0)
  attempt (statement set_running_failed (set_running a.run_id (some pid)))
  pure tt

abbrev pub args_of : ℕ → JoinedSchedule → DispatchArgs
args_of run_id j =
    let s = j.sched in
    record {
      run_id = run_id;
      org_id = s.org_id;
      timeout_sec = s.timeout_sec;
      secret_refs = collect_secret_refs s.destinations_json s.env_json s.llm_secret_ref [];
      install_id = j.install_id;
      schedule_name = s.name;
    }

abbrev pub scheduled_run : JoinedSchedule → ℕ → String → InsertRunParams
scheduled_run j this_fire hash = record {
  org_id = j.sched.org_id;
  schedule_id = j.sched.id;
  skill_sha = j.skill_sha;
  fire_time = some this_fire;
  fire_reason = schedule;
  actor = none;
  runner_token_hash = str_append "pending:" hash;
}

abbrev pub this_fire_of : Option ℕ → ℕ
this_fire_of none = 0
this_fire_of (some t) = t

-- the branches of processOne's switch on the overlap decision
unfoldable pub apply_decision : Deps → JoinedSchedule → ℕ → Stats → Decision → M TickError Stats
apply_decision d j run_id stats skip = do
  statement delete_skipped (delete_row run_id)
  pure (record stats { skipped = suc stats.skipped })
apply_decision d j run_id stats queue = pure (record stats { queued = suc stats.queued })
apply_decision d j run_id stats dispatch = do
  dispatch_run d (args_of run_id j)
  pure (record stats { dispatched = suc stats.dispatched })

-- processOne from the overlap policy on: only the tick whose insert landed goes there
unfoldable pub settle : Deps → JoinedSchedule → Stats → Run → Bool → M TickError Stats
settle d j stats run false = pure stats
settle d j stats run true = do
  active ← statement list_active (λ w. some (active_runs j.sched.id w, w))
  let others = length (select (λ r. not (has_id run.id r)) active)
  apply_decision d j run.id stats (decide j.sched.overlap_policy others)

-- processOne
unfoldable pub process_one : Deps → JoinedSchedule → Stats → M TickError Stats
process_one d j stats = do
  let this_fire = this_fire_of j.sched.next_fire_at
  next ← lift compute_next_fire (next_fire d j.sched.cron j.sched.timezone this_fire)
  seed ← gets (λ w. w.next_id)
  hash ← lift placeholder_hash (d.random_hex seed)
  run ← statement insert_failed (insert_row (scheduled_run j this_fire hash))
  statement update_next_fire (set_next_fire_at j.sched.id next)
  settle d j stats run.0 run.1

abbrev pub after_one : Stats → Outcome TickError Stats → Stats
after_one stats (ok stats') = stats'
after_one stats (err e) = record stats { errored = suc stats.errored }

unfoldable pub process_all : Deps → List JoinedSchedule → Stats → M TickError Stats
process_all d [] stats = pure stats
process_all d (j ∷ js) stats = do
  r ← attempt (process_one d j stats)
  process_all d js (after_one stats r)

-- a pending run with an older active one of its schedule
abbrev pub blocks : Run → Run → Bool
blocks r other =
    other.schedule_id == r.schedule_id
    && not (has_id r.id other)
    && is_active other.status
    && ltb other.created_at r.created_at

abbrev pub drains : List Run → Run → Schedule → Bool
drains runs r s =
    is_pending r.status
    && s.enabled
    && (is_manual r.fire_reason
        || is_scheduled r.fire_reason
          && str_eq s.overlap_policy "queue"
          && not (any (blocks r) runs))

abbrev pub pending_args : Run → JoinedSchedule → DispatchArgs
pending_args r j =
    let s = j.sched in
    record {
      run_id = r.id;
      org_id = r.org_id;
      timeout_sec = s.timeout_sec;
      secret_refs = collect_secret_refs s.destinations_json s.env_json s.llm_secret_ref [];
      install_id = j.install_id;
      schedule_name = s.name;
    }

abbrev pub pending_of : World → Run → Schedule → Option DispatchArgs
pending_of w r s =
    if drains w.runs r s
    then elim (join w s) [ none ↦ none | some j ↦ some (pending_args r j) ]
    else none

abbrev pub pending_row : World → Run → Option Schedule → Option DispatchArgs
pending_row w r none = none
pending_row w r (some s) = pending_of w r s

abbrev pub pending_rows : World → List Run → List DispatchArgs
pending_rows w [] = []
pending_rows w (r ∷ rs) =
    cons? (pending_row w r (find (λ s. s.id == r.schedule_id) w.schedules)) (pending_rows w rs)

-- the query of dispatchPending, oldest run first
unfoldable pub list_pending : World → List DispatchArgs
list_pending w = pending_rows w (sort_by created_before w.runs)

abbrev pub after_dispatch : Stats → Outcome TickError (Unit {0}) → Stats
after_dispatch stats (ok u) = record stats { dispatched = suc stats.dispatched }
after_dispatch stats (err e) = record stats { errored = suc stats.errored }

unfoldable pub dispatch_all : Deps → List DispatchArgs → Stats → M TickError Stats
dispatch_all d [] stats = pure stats
dispatch_all d (a ∷ as') stats = do
  r ← attempt (dispatch_run d a)
  dispatch_all d as' (after_dispatch stats r)

-- dispatchPending
unfoldable pub dispatch_pending : Deps → Stats → M TickError Stats
dispatch_pending d stats = do
  rows ← statement query_pending (λ w. some (list_pending w, w))
  dispatch_all d rows stats

abbrev pub or_stats : Stats → Outcome TickError Stats → Stats
or_stats stats (ok stats') = stats'
or_stats stats (err e) = stats

abbrev pub no_stats : Stats
no_stats = record { dispatched = 0; skipped = 0; queued = 0; errored = 0 }

-- Tick
unfoldable pub tick : Deps → M TickError Stats
tick d = do
  due ← statement list_due (λ w. some (due_schedules w, w))
  stats ← process_all d due no_stats
  drained ← attempt (dispatch_pending d stats)
  attempt (statement sweep_failed orphan_sweep)
  pure (or_stats stats drained)
