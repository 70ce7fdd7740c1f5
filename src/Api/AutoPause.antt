-- ===== src/Api/AutoPause.antt =====
-- internal/api/finalize_autopause.go
pub mod Atomic
pub mod Streak
use cronfoundry.Prelude.{
  ℕ, zero, suc, String, Bool, true, false, ◌||◌, ◌&&◌, not, Option, none, some, List, [], ◌∷◌, ℤ,
  pos, negsuc, ltb, ◌==◌, if◌then◌else◌, length, all,
}
use cronfoundry.Config.Json.{Json, object, member, no_members, number, string}
use cronfoundry.Store.Rows.{World, Schedule, Status, is_failed, FireReason, is_manual}
use cronfoundry.Store.Exec.{M, pure, ◌>>=◌, ◌>>◌, statement, transaction_if}
use cronfoundry.Store.Runs.{recent_terminal}
use cronfoundry.Store.Schedules.{get_schedule, auto_pause_schedule}
use cronfoundry.Store.Logs.{insert_audit_log, insert_run_event, str_ptr}

pub data PauseError : Type 0 where
  begin get_config list_recent pause_update audit_failed run_event commit : PauseError

abbrev pub default_auto_pause_after : ℕ
default_auto_pause_after = 5

-- an override that is set and at least 1 takes precedence
abbrev pub threshold_of : Option ℤ → ℕ
threshold_of none = default_auto_pause_after
threshold_of (some (pos zero)) = default_auto_pause_after
threshold_of (some (pos (suc n))) = suc n
threshold_of (some (negsuc n)) = default_auto_pause_after

-- how JSON shows a number and a uuid
pub record Show : Type 0 where
  pub decimal : ℕ → String
  pub uuid_text : ℕ → String

abbrev pub pause_detail : Show → ℕ → ℕ → Json
pause_detail s threshold run_id = object (
    member "threshold" (number (s.decimal threshold))
      (member "last_run_id" (string (s.uuid_text run_id)) no_members))

-- the writes of a pause that changed a row
unfoldable pub record_pause : Show → Schedule → ℕ → ℕ → M PauseError Bool
record_pause s cfg run_id threshold = do
  statement audit_failed (
      insert_audit_log (record {
        org_id = cfg.org_id;
        actor = str_ptr "system";
        action = "schedule.auto_paused";
        target_kind = str_ptr "schedule";
        target_id = some cfg.id;
        detail = pause_detail s threshold run_id;
      }))
  statement run_event (
      insert_run_event (record {
        run_id = run_id;
        level = "info";
        event_type = "schedule.auto_paused";
        payload = object (member "threshold" (number (s.decimal threshold)) no_members);
      }))
  pure true

-- the conditional UPDATE, and nothing more if it changed no row
unfoldable pub pause_schedule : Show → Schedule → ℕ → ℕ → M PauseError Bool
unfolding record_pause
pause_schedule s cfg run_id threshold = do
  affected ← statement pause_update (auto_pause_schedule cfg.id threshold)
  if affected == 0 then pure false else record_pause s cfg run_id threshold

-- the streak: `threshold` runs, all failed
abbrev pub is_streak : ℕ → List Status → Bool
is_streak threshold statuses = not (ltb (length statuses) threshold) && all is_failed statuses

unfoldable pub pause_if_streak : Show → ℕ → Option Schedule → M PauseError Bool
unfolding pause_schedule
pause_if_streak s run_id none = pure false
pause_if_streak s run_id (some cfg) = do
  let threshold = threshold_of cfg.auto_pause_after
  statuses ←
      statement list_recent (λ w. some (recent_terminal cfg.id cfg.last_enabled_at threshold w, w))
  if is_streak threshold statuses then pause_schedule s cfg run_id threshold else pure false

abbrev pub committed : Bool → Bool
committed b = b

-- the body of the transaction
unfoldable pub evaluate_tx : Show → ℕ → ℕ → M PauseError Bool
unfolding pause_if_streak
evaluate_tx s schedule_id run_id = do
  cfg ← statement get_config (λ w. some (get_schedule schedule_id w, w))
  pause_if_streak s run_id cfg

-- evaluateAutoPause; the result is whether the schedule was paused, which is when it commits
unfoldable pub evaluate_auto_pause : Show → ℕ → ℕ → Status → FireReason → M PauseError Bool
unfolding evaluate_tx
evaluate_auto_pause s schedule_id run_id status reason =
    if is_manual reason || not (is_failed status)
    then pure false
    else transaction_if committed begin commit (evaluate_tx s schedule_id run_id)
