-- ===== src/Webapi/Schedules.antt =====
-- internal/webapi/schedules.go and schedule_overrides.go, with the queries that they make.
pub mod Keeps
pub mod Switched
pub mod Overrides
pub mod RunNow
use cronfoundry.Prelude.{
  ℕ, String, Bool, true, false, ◌||◌, Option, none, some, List, [], ◌∷◌, map, ◌==◌, str_eq,
  if◌then◌else◌, find, select, head?, sort_by, ℤ, pos,
}
use cronfoundry.Store.Rows.{World, Schedule, SkillRow, RepoRow, UiOverrides, no_overrides}
use cronfoundry.Store.Exec.{M, Outcome, ok, err, pure, raise, ◌>>=◌, ◌>>◌, statement, attempt}
use cronfoundry.Store.Schedules.{in_org, update_schedules, set_enabled, cons?}
use cronfoundry.Api.Response.{Response}
use cronfoundry.Api.Trigger.{trigger_handler}
use cronfoundry.Webapi.Response.{Fault, Entry, audit_log, load_org}

-- scheduleDTO, less the columns that are copied and read nowhere else
pub record ScheduleDto : Type 0 where
  pub id : ℕ
  pub skill_id : ℕ
  pub name : String
  pub cron : String
  pub timezone : String
  pub overlap_policy : String
  pub timeout_sec : ℤ
  pub enabled : Bool
  pub next_fire_at : Option ℕ
  pub auto_pause_after : Option ℤ
  pub auto_paused_at : Option ℕ
  pub auto_pause_reason : Option ℕ
  pub last_enabled_at : ℕ
  pub skill_path : String
  pub owner : String
  pub repo_name : String
  pub has_ui_overrides : Bool

abbrev pub or_given {ℓ} : {A : Type ℓ} → Option A → A → A
or_given none a = a
or_given (some b) a = b

abbrev pub is_given {ℓ} : {A : Type ℓ} → Option A → Bool
is_given none = false
is_given (some a) = true

abbrev pub has_any : UiOverrides → Bool
has_any o =
    is_given o.cron_over
    || is_given o.timezone_over
    || is_given o.timeout_sec_over
    || is_given o.enabled_over

-- applyUIOverrides
unfoldable pub apply_ui_overrides : ScheduleDto → Option UiOverrides → ScheduleDto
apply_ui_overrides d none = d
apply_ui_overrides d (some o) = record d {
  cron = or_given o.cron_over d.cron;
  timezone = or_given o.timezone_over d.timezone;
  timeout_sec = or_given o.timeout_sec_over d.timeout_sec;
  enabled = or_given o.enabled_over d.enabled;
  has_ui_overrides = if has_any o then true else d.has_ui_overrides;
}

-- a row of ListSchedulesByOrg
pub record ListedSchedule : Type 0 where
  pub sched : Schedule
  pub skill : SkillRow
  pub repo : RepoRow

-- scheduleRowToDTO
unfoldable pub schedule_row_to_dto : ListedSchedule → ScheduleDto
schedule_row_to_dto r =
    apply_ui_overrides
      (record {
        id = r.sched.id;
        skill_id = r.sched.skill_id;
        name = r.sched.name;
        cron = r.sched.cron;
        timezone = r.sched.timezone;
        overlap_policy = r.sched.overlap_policy;
        timeout_sec = r.sched.timeout_sec;
        enabled = r.sched.enabled;
        next_fire_at = r.sched.next_fire_at;
        auto_pause_after = r.sched.auto_pause_after;
        auto_paused_at = r.sched.auto_paused_at;
        auto_pause_reason = r.sched.auto_pause_reason;
        last_enabled_at = r.sched.last_enabled_at;
        skill_path = r.skill.path;
        owner = r.repo.owner;
        repo_name = r.repo.name;
        has_ui_overrides = false;
      })
      r.sched.ui_overrides_json

abbrev pub listed_repo : Schedule → SkillRow → Option RepoRow → Option ListedSchedule
listed_repo s k none = none
listed_repo s k (some c) = some (record { sched = s; skill = k; repo = c })

abbrev pub listed_skill : World → Schedule → Option SkillRow → Option ListedSchedule
listed_skill w s none = none
listed_skill w s (some k) = listed_repo s k (find (λ c. c.id == k.repo_id) w.repos)

abbrev pub listed_all : World → List Schedule → List ListedSchedule
listed_all w [] = []
listed_all w (s ∷ ss) =
    cons? (listed_skill w s (find (λ k. k.id == s.skill_id) w.skills)) (listed_all w ss)

-- ListSchedulesByOrg; `before` is the order by owner, repository, path and name
unfoldable pub schedules_by_org :
    (ListedSchedule → ListedSchedule → Bool) → ℕ → World → List ListedSchedule
schedules_by_org before org w =
    sort_by before (listed_all w (select (λ s. s.org_id == org) w.schedules))

abbrev pub override : UiOverrides → Schedule → Schedule
override o s = record s { ui_overrides_json = some o }

-- SetScheduleOverrides, and ClearScheduleOverrides with no overrides: the row, if there is one
unfoldable pub set_overrides : ℕ → ℕ → UiOverrides → World → Option (Option Schedule × World)
set_overrides i org o w = some (
  head? (map (override o) (select (in_org i org) w.schedules)),
  record w {
    tables = record w.tables {
      schedules = update_schedules (in_org i org) (override o) w.schedules;
    };
  },
)

abbrev pub schedule_entry : ℕ → String → ℕ → Entry
schedule_entry org action id = record {
  org_id = org;
  actor = "";
  action = action;
  target_kind = "schedule";
  target_id = some id;
  detail = none;
}

module _ (before : ListedSchedule → ListedSchedule → Bool) where
  unfoldable pub all_rows : ℕ → M Fault (List ListedSchedule)
  all_rows org = statement Fault.internal (λ w. some (schedules_by_org before org w, w))

  -- list
  unfoldable pub list : M Fault (List ScheduleDto)
  unfolding all_rows
  list = do org ← load_org; rows ← all_rows org; pure (map schedule_row_to_dto rows)

  unfoldable pub shown : Option ListedSchedule → M Fault ScheduleDto
  shown none = raise Fault.not_found
  shown (some r) = pure (schedule_row_to_dto r)

  abbrev pub switch_action : Bool → String
  switch_action true = "schedule.resume"
  switch_action false = "schedule.pause"

  unfoldable pub switched : String → Bool → ℕ → ℕ → Option Schedule → M Fault ScheduleDto
  switched actor on org id none = raise Fault.not_found
  switched actor on org id (some row) = do
    audit_log actor (schedule_entry org (switch_action on) id)
    rows ← all_rows org
    shown (find (λ r. r.sched.id == id) rows)

  unfoldable pub switch_id : String → Bool → ℕ → Option ℕ → M Fault ScheduleDto
  switch_id actor on org none = raise Fault.bad_request
  switch_id actor on org (some id) = do
    row ← statement Fault.internal (set_enabled id on org)
    switched actor on org id row

  -- setEnabled, which pause and resume call; `none` is an id that does not parse
  unfoldable pub set_schedule_enabled : String → Bool → Option ℕ → M Fault ScheduleDto
  set_schedule_enabled actor on url = do org ← load_org; switch_id actor on org url

-- the rows that Scan finds: none is an error like any other
unfoldable pub overridden : String → String → ℕ → ℕ → Option Schedule → M Fault (Unit {0})
overridden actor action org id none = raise Fault.internal
overridden actor action org id (some row) = audit_log actor (schedule_entry org action id)

unfoldable pub override_row : String → String → ℕ → ℕ → UiOverrides → M Fault (Unit {0})
override_row actor action org id o = do
  row ← statement Fault.internal (set_overrides id org o)
  overridden actor action org id row

unfoldable pub override_id :
    String → String → ℕ → Option ℕ → Option UiOverrides → M Fault (Unit {0})
override_id actor action org none o = raise Fault.bad_request
override_id actor action org (some id) none = raise Fault.bad_request
override_id actor action org (some id) (some o) = override_row actor action org id o

-- patchOverrides; `none` is a body that does not decode
unfoldable pub patch_overrides : String → Option ℕ → Option UiOverrides → M Fault (Unit {0})
patch_overrides actor url body = do
  org ← load_org
  override_id actor "schedule.overrides.set" org url body

-- deleteOverrides
unfoldable pub delete_overrides : String → Option ℕ → M Fault (Unit {0})
delete_overrides actor url = do
  org ← load_org
  override_id actor "schedule.overrides.clear" org url (some no_overrides)

-- what becomes of the loopback request: it does not arrive, its answer is lost, or it is answered
pub data Hop : Type 0 where
  unreachable lost answered : Hop

abbrev pub status_of : Response → ℕ
status_of Response.bad_request = 400
status_of Response.unauthorized = 401
status_of Response.forbidden = 403
status_of Response.not_found = 404
status_of Response.conflict = 409
status_of Response.internal_error = 500
status_of Response.bad_gateway = 502

unfoldable pub forwarded : (ℕ → String) → Hop → Outcome Response ℕ → M Fault String
forwarded uuid_text answered (ok run_id) =
    if str_eq (uuid_text run_id) "" then raise Fault.gateway else pure (uuid_text run_id)
forwarded uuid_text answered (err e) = raise (Fault.trigger_error (status_of e))
forwarded uuid_text hop r = raise Fault.gateway

abbrev pub is_unreachable : Hop → Bool
is_unreachable unreachable = true
is_unreachable _ = false

-- runNow, through the endpoint that it calls; the result is the run id in the answer
unfoldable pub run_now :
    (ℕ → Option String) → (ℕ → String) → Bool → Hop → String → String → Option ℕ → M Fault String
run_now random_hex uuid_text loopback hop api_base actor none = raise Fault.bad_request
run_now random_hex uuid_text loopback hop api_base actor (some id) =
    if str_eq api_base ""
    then raise Fault.config
    else if is_unreachable hop
    then raise Fault.gateway
    else do
      r ← attempt (trigger_handler random_hex uuid_text loopback (some id) (some (some actor)))
      forwarded uuid_text hop r
