-- ===== src/Store/Rows.antt =====
-- The rows of the tables, with the columns that the modelled statements read or write, and the
-- state that the server's operations run on. A uuid is a number; a time is in microseconds.
use cronfoundry.Prelude.{ℕ, String, Bool, true, false, Option, none, some, List, ℤ}
use cronfoundry.Config.Json.{Json}

-- run.status
pub data Status : Type 0 where
  pending running succeeded partial_failure failed : Status

-- run.fire_reason
pub data FireReason : Type 0 where
  schedule manual : FireReason

abbrev pub is_active : Status → Bool
is_active pending = true
is_active running = true
is_active _ = false

abbrev pub is_pending : Status → Bool
is_pending pending = true
is_pending _ = false

abbrev pub is_failed : Status → Bool
is_failed failed = true
is_failed _ = false

abbrev pub is_manual : FireReason → Bool
is_manual manual = true
is_manual schedule = false

pub record Run : Type 0 where
  pub id : ℕ
  pub org_id : ℕ
  pub schedule_id : ℕ
  pub skill_sha : String
  pub fire_time : Option ℕ
  pub status : Status
  pub fire_reason : FireReason
  pub actor : Option String
  pub started_at : Option ℕ
  pub finished_at : Option ℕ
  pub duration_ms : Option ℤ
  pub tokens_in : Option ℤ
  pub tokens_out : Option ℤ
  pub cost_cents : Option ℤ
  pub error_kind : Option String
  pub error_msg : Option String
  pub writeback_commit_sha : Option String
  pub runner_pid : Option ℕ
  pub runner_token_hash : String
  pub created_at : ℕ

-- UIOverrides of internal/webapi: `none` is a field that is not overridden
pub record UiOverrides : Type 0 where
  pub cron_over : Option String
  pub timezone_over : Option String
  pub timeout_sec_over : Option ℤ
  pub enabled_over : Option Bool

-- '{}'
abbrev pub no_overrides : UiOverrides
no_overrides = record {
  cron_over = none;
  timezone_over = none;
  timeout_sec_over = none;
  enabled_over = none;
}

pub record Schedule : Type 0 where
  pub id : ℕ
  pub org_id : ℕ
  pub skill_id : ℕ
  pub name : String
  pub cron : String
  pub timezone : String
  pub overlap_policy : String
  pub timeout_sec : ℤ
  pub enabled : Bool
  pub llm_secret_ref : Option String
  pub destinations_json : Json
  pub env_json : Json
  pub mcp_env_json : Json
  pub next_fire_at : Option ℕ
  pub auto_pause_after : Option ℤ
  pub auto_paused_at : Option ℕ
  pub auto_pause_reason : Option ℕ  -- the threshold that the sentence in the column names
  pub last_enabled_at : ℕ
  pub ui_overrides_json : Option UiOverrides  -- `none` is a value that does not decode

pub record SkillRow : Type 0 where
  pub id : ℕ
  pub repo_id : ℕ
  pub path : String
  pub current_sha : String

pub record RepoRow : Type 0 where
  pub org_id : ℕ
  pub id : ℕ
  pub github_app_install_id : ℕ
  pub owner : String
  pub name : String

pub record EventRow : Type 0 where
  pub run_id : ℕ
  pub level : String
  pub event_type : String
  pub payload : Json

pub record AuditRow : Type 0 where
  pub org_id : ℕ
  pub actor : Option String
  pub action : String
  pub target_kind : Option String
  pub target_id : Option ℕ
  pub detail : Json

pub record NotificationRow : Type 0 where
  pub run_id : ℕ
  pub org_id : ℕ
  pub kind : String
  pub target : String
  pub status : String
  pub reason : Option String

-- app_user
pub record AppUser : Type 0 where
  pub org_id : ℕ
  pub github_login : String
  pub role : String
  pub created_at : ℕ
  pub last_login_at : Option ℕ

-- `orgs` holds the ids of the rows of `organization`, the oldest first.
pub record Tables : Type 0 where
  pub orgs : List ℕ
  pub users : List AppUser
  pub runs : List Run
  pub schedules : List Schedule
  pub skills : List SkillRow
  pub repos : List RepoRow
  pub events : List EventRow
  pub audit : List AuditRow
  pub notifications : List NotificationRow

-- cloud.DispatchRequest: the arguments, and the environment as names with values
pub record DispatchRequest : Type 0 where
  pub binary_path : String
  pub run_id : ℕ
  pub env : List (String × String)

-- What a call of the database does: how long it takes, and whether it returns an error.
pub record Call : Type 0 where
  pub elapsed : ℕ
  pub fails : Bool

-- `script` is the behaviour of the coming calls of the database, chosen by the environment; past
-- its end they take no time and succeed. `next_id` is above every id given out so far, by
-- `uuid_generate_v4()`. `tx_start` is the time that `now()` stands for inside a transaction.
pub record World : Type 0 where
  pub tables : Tables
  pub open tables use *
  pub next_id : ℕ
  pub clock : ℕ
  pub tx_start : Option ℕ
  pub script : List Call
  pub launched : List DispatchRequest

abbrev or_clock : ℕ → Option ℕ → ℕ
or_clock c none = c
or_clock c (some t) = t

-- now()
abbrev pub now : World → ℕ
now w = or_clock w.clock w.tx_start
