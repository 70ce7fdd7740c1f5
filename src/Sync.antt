-- ===== src/Sync.antt =====
-- internal/sync/upsert.go: the rows of the skills and the schedules of a repository, and what a
-- manifest makes of a schedule's row. The rows have the columns that the sync writes or reads; a JSON
-- column is the value that it was marshalled from.
pub mod Reconcile
pub mod Upserts
pub mod Synced
pub mod Poller
use cronfoundry.Prelude.{
  ℕ, zero, suc, String, Bool, true, false, ◌&&◌, ◌||◌, not, Option, none, some, List, [], ◌∷◌, ℤ,
  pos, negsuc, ltb, ◌==◌, str_eq, if◌then◌else◌, any, ◌⊎◌, inl, inr,
}
use cronfoundry.Config.Manifest.{
  Destination, EnvMap, EnvValue, WritebackConfig, ScheduleEntry, effective_overlap_policy,
}
use cronfoundry.Config.Skill.{McpServer, Frontmatter}
use cronfoundry.Command.Finalizing.{to_int32}

pub record SkillRecord : Type 0 where
  pub id : ℕ
  pub org_id : ℕ
  pub repo_id : ℕ
  pub path : String
  pub name : String
  pub current_sha : String
  pub frontmatter : Frontmatter

-- UpsertScheduleParams; the three columns of the model credentials are set to NULL
pub record UpsertScheduleParams : Type 0 where
  pub org_id : ℕ
  pub skill_id : ℕ
  pub name : String
  pub cron : String
  pub timezone : String
  pub overlap_policy : String
  pub timeout_sec : ℤ
  pub enabled : Bool
  pub provider : String
  pub model : String
  pub destinations : List Destination
  pub writeback : Option WritebackConfig
  pub env : EnvMap
  pub auto_pause_after : Option ℤ
  pub mcp_env : List (String × EnvMap)
  pub max_turns : Option ℤ
  pub copilot_prefix : Option String
  pub next_fire_at : ℕ

-- a row of `schedule`: what the sync sets, and what it leaves
pub record ScheduleRecord : Type 0 where
  pub id : ℕ
  pub fields : UpsertScheduleParams
  pub next_fire_at : Option ℕ
  pub auto_paused_at : Option ℕ
  pub auto_pause_reason : Option String
  pub last_enabled_at : ℕ

pub data SyncError : Type 0 where
  missing_skill foundry_servers env_missing env_undeclared env_without_servers : SyncError
  max_turns_range auto_pause_range no_next_fire : SyncError

abbrev pub has_env : List (String × EnvMap) → String → Bool
has_env env name = any (λ e. str_eq e.0 name) env

abbrev pub is_declared : List McpServer → String → Bool
is_declared servers name = any (λ s. str_eq s.name name) servers

-- the loop over the declared servers
unfoldable pub check_declared : List (String × EnvMap) → List McpServer → Option SyncError
check_declared env [] = none
check_declared env (s ∷ ss) =
    let rest = check_declared env ss in if has_env env s.name then rest else some env_missing

-- the loop over the keys of mcp_env
unfoldable pub check_keys : List McpServer → List (String × EnvMap) → Option SyncError
check_keys servers [] = none
check_keys servers (e ∷ es) =
    let rest = check_keys servers es in
    if is_declared servers e.0 then rest else some env_undeclared

abbrev pub first_of : Option SyncError → Option SyncError → Option SyncError
first_of none e = e
first_of (some e) f = some e

-- the servers of the skill against the environment of the schedule
unfoldable pub check_servers : List McpServer → String → List (String × EnvMap) → Option SyncError
check_servers [] provider [] = none
check_servers [] provider (e ∷ es) = some env_without_servers
check_servers (s ∷ ss) provider env =
    if str_eq provider "azure-foundry"
    then some foundry_servers
    else first_of (check_declared env (s ∷ ss)) (check_keys (s ∷ ss) env)

abbrev pub max_int32 : ℕ
max_int32 = 2147483647

unfoldable pub max_turns_column : ℤ → SyncError ⊎ Option ℤ
max_turns_column (pos n) =
    if n == 0
    then inr none
    else if ltb max_int32 n
    then inl max_turns_range
    else inr (some (to_int32 (pos n)))
max_turns_column (negsuc n) = inr none

unfoldable pub auto_pause_column : Option ℤ → SyncError ⊎ Option ℤ
auto_pause_column none = inr none
auto_pause_column (some (pos n)) =
    if ltb max_int32 n then inl auto_pause_range else inr (some (to_int32 (pos n)))
auto_pause_column (some (negsuc n)) = inr (some (to_int32 (negsuc n)))

abbrev pub timeout_or_default : ℤ → ℤ
timeout_or_default (pos n) = if n == 0 then pos 600 else pos n
timeout_or_default (negsuc n) = negsuc n

abbrev pub timezone_of : ScheduleEntry → String
timezone_of s = if str_eq s.timezone "" then "UTC" else s.timezone

abbrev pub copilot_column : ScheduleEntry → Option String
copilot_column s =
    if str_eq s.provider "copilot-enterprise" && not (str_eq s.copilot_prefix "")
    then some s.copilot_prefix
    else none

abbrev pub params_with : ℕ → ℕ → ScheduleEntry → Option ℤ → Option ℤ → ℕ → UpsertScheduleParams
params_with org_id skill_id s turns pause next = record {
  org_id = org_id;
  skill_id = skill_id;
  name = s.name;
  cron = s.cron;
  timezone = timezone_of s;
  overlap_policy = effective_overlap_policy s;
  timeout_sec = to_int32 (timeout_or_default s.timeout_sec);
  enabled = true;
  provider = s.provider;
  model = s.model;
  destinations = s.destinations;
  writeback = s.writeback;
  env = s.env;
  auto_pause_after = pause;
  mcp_env = s.mcp_env;
  max_turns = turns;
  copilot_prefix = copilot_column s;
  next_fire_at = next;
}

abbrev pub then_fire :
    ℕ → ℕ → ScheduleEntry → Option ℤ → Option ℤ → Option ℕ → SyncError ⊎ UpsertScheduleParams
then_fire org_id skill_id s turns pause none = inl no_next_fire
then_fire org_id skill_id s turns pause (some next) =
    inr (params_with org_id skill_id s turns pause next)

abbrev pub then_pause :
    ℕ
    → ℕ
    → ScheduleEntry
    → Option ℤ
    → SyncError ⊎ Option ℤ
    → Option ℕ
    → SyncError ⊎ UpsertScheduleParams
then_pause org_id skill_id s turns (inl e) next = inl e
then_pause org_id skill_id s turns (inr pause) next = then_fire org_id skill_id s turns pause next

abbrev pub then_turns :
    ℕ → ℕ → ScheduleEntry → SyncError ⊎ Option ℤ → Option ℕ → SyncError ⊎ UpsertScheduleParams
then_turns org_id skill_id s (inl e) next = inl e
then_turns org_id skill_id s (inr turns) next =
    then_pause org_id skill_id s turns (auto_pause_column s.auto_pause) next

abbrev pub unless :
    Option SyncError → SyncError ⊎ UpsertScheduleParams → SyncError ⊎ UpsertScheduleParams
unless (some e) rest = inl e
unless none rest = rest

-- the body of the loop over a skill's schedules, up to the upsert; `next_fire` is initialNextFireAt
unfoldable pub schedule_params :
    (String → String → Option ℕ)
    → ℕ
    → ℕ
    → Frontmatter
    → ScheduleEntry
    → SyncError ⊎ UpsertScheduleParams
schedule_params next_fire org_id skill_id f s =
    unless (check_servers f.mcp_servers s.provider s.mcp_env) (
      then_turns org_id skill_id s (max_turns_column s.max_turns)
        (next_fire s.cron (timezone_of s)))
