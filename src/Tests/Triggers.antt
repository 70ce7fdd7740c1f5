-- ===== src/Tests/Triggers.antt =====
-- A manual trigger of the schedule.
use cronfoundry.Prelude.{ℕ, String, ◌≡◌, refl, true, Option, none, some}
use cronfoundry.Store.Exec.{◌>>=◌, gets, statement, attempt, call, pure}
use cronfoundry.Store.Runs.{insert_row}
use cronfoundry.Store.Schedules.{trigger_schedule}
use cronfoundry.Store.Logs.{insert_audit_log}
use cronfoundry.Api.Trigger.{trigger_handler, trigger_at, trigger_body, trigger_found}
use cronfoundry.Api.Trigger.Pending.{Waits, trigger_handler-ok}
use cronfoundry.Tests.Data.{due_world}

abbrev hex : ℕ → Option String
hex n = some "ab"

abbrev text : ℕ → String
text n = "uuid"

abbrev target : Option ℕ
target = some 1

trigger_handler-ok_example :
    (true ≡ true)
    × (sid : ℕ) × (target ≡ some sid)
    × Waits sid 7 (trigger_handler hex text true target (some none) due_world).1.runs
unfolding trigger_handler trigger_at trigger_body trigger_found trigger_schedule insert_row
    insert_audit_log gets attempt ◌>>=◌ statement call pure
trigger_handler-ok_example = trigger_handler-ok hex text true target (some none) due_world 7 refl
