-- ===== src/Tests/Data.antt =====
-- Worlds with one repository, one skill and one schedule, which is due.
use cronfoundry.Prelude.{pos, ℕ, ◌+◌, true, none, some, [], ◌∷◌}
use cronfoundry.Config.Json.{object, no_members, member, string, no_elements, array}
use cronfoundry.Store.Rows.{
  World, Tables, Run, Schedule, running, succeeded, pending, schedule, no_overrides,
}
use cronfoundry.Store.Schedules.{JoinedSchedule}
use cronfoundry.Scheduler.Tick.{Deps}
use cronfoundry.Api.AutoPause.{Show}

-- collaborators that always succeed; the cron library fires once a minute
abbrev pub working : Deps
working = record {
  load_location = λ tz. some 0;
  parse_cron = λ e. some 0;
  cron_next = λ spec zone base. base + 60000000;
  random_hex = λ n. some "ab";
  sign = λ run org refs now seconds. some ("token", "hash");
  installations = none;
  launch = λ req. some 42;
  uuid_text = λ n. "uuid";
  api_base_url = "http://127.0.0.1:8080";
  runner_api_url = "";
  runner_binary = "/bin/cronfoundry";
}

abbrev pub shown : Show
shown = record { decimal = λ n. "5"; uuid_text = λ n. "uuid" }

abbrev pub daily : Schedule
daily = record {
  id = 1;
  org_id = 1;
  skill_id = 1;
  name = "daily";
  cron = "0 9 * * *";
  timezone = "UTC";
  overlap_policy = "skip";
  timeout_sec = pos 600;
  enabled = true;
  llm_secret_ref = none;
  destinations_json = array no_elements;
  env_json =
      object (member "TEAM" (object (member "secret" (string "team") no_members)) no_members);
  mcp_env_json = object (
      member "gh"
        (object
          (member "GH_TOKEN" (object (member "secret" (string "github") no_members)) no_members))
        no_members);
  next_fire_at = some 1000;
  auto_pause_after = none;
  auto_paused_at = none;
  auto_pause_reason = none;
  last_enabled_at = 0;
  ui_overrides_json = some no_overrides;
}

abbrev pub empty_tables : Tables
empty_tables = record {
  orgs = 1 ∷ [];
  users = [];
  runs = [];
  schedules = daily ∷ [];
  skills = record { id = 1; repo_id = 1; path = "skills/daily"; current_sha = "c0ffee" } ∷ [];
  repos =
      record { id = 1; org_id = 1; github_app_install_id = 0; owner = "acme"; name = "skills" }
      ∷ [];
  events = [];
  audit = [];
  notifications = [];
}

abbrev pub due_world : World
due_world = record {
  tables = empty_tables;
  next_id = 7;
  clock = 2000;
  tx_start = none;
  script = [];
  launched = [];
}

-- a run of `daily` that has succeeded
abbrev pub done_run : Run
done_run = record {
  id = 3;
  org_id = 1;
  schedule_id = 1;
  skill_sha = "c0ffee";
  fire_time = some 500;
  status = succeeded;
  fire_reason = schedule;
  actor = none;
  started_at = some 510;
  finished_at = some 600;
  duration_ms = none;
  tokens_in = none;
  tokens_out = none;
  cost_cents = none;
  error_kind = none;
  error_msg = none;
  writeback_commit_sha = none;
  runner_pid = some 41;
  runner_token_hash = "hash";
  created_at = 500;
}

abbrev pub done_world : World
done_world = record due_world { tables = record empty_tables { runs = done_run ∷ [] } }

-- a run of `daily` that is under way
abbrev pub busy_run : Run
busy_run = record done_run { status = running; finished_at = none }

abbrev pub busy_world : World
busy_world = record due_world { tables = record empty_tables { runs = busy_run ∷ [] } }

-- the row of `daily` as ListDueSchedules joins it
abbrev pub joined : JoinedSchedule
joined = record { sched = daily; skill_sha = "c0ffee"; install_id = 0 }

-- the same under the policy `queue`
abbrev pub queued_daily : Schedule
queued_daily = record daily { overlap_policy = "queue" }

abbrev pub queued : JoinedSchedule
queued = record joined { sched = queued_daily }

-- runs of `queued_daily` that wait
abbrev pub waiting : ℕ → ℕ → Run
waiting i t = record busy_run {
  id = i;
  status = pending;
  started_at = none;
  fire_time = some t;
  created_at = t;
}

-- a run that waits for longer than its timeout allows
abbrev pub stale_world : World
stale_world = record due_world {
  clock = 1000000000;
  tables = record empty_tables { runs = waiting 3 500 ∷ [] };
}
