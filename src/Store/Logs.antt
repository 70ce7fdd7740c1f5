-- ===== src/Store/Logs.antt =====
-- The statements that append to run_event, audit_log and run_notification, and audit.Log.
use cronfoundry.Prelude.{
  String, Bool, ◌&&◌, ◌||◌, Option, none, some, [], ◌∷◌, ◌++◌, str_eq, if◌then◌else◌, any,
}
use cronfoundry.Store.Rows.{World, EventRow, AuditRow, NotificationRow}
use cronfoundry.Store.Runs.{has_id}

-- the check on run_event.level
abbrev pub valid_level : String → Bool
valid_level l = str_eq l "info" || str_eq l "warn" || str_eq l "error"

-- InsertRunEvent
unfoldable pub insert_run_event : EventRow → World → Option (Unit {0} × World)
insert_run_event e w =
    if any (has_id e.run_id) w.runs && valid_level e.level
    then some (tt, record w { tables = record w.tables { events = w.events ++ e ∷ [] } })
    else none

abbrev pub valid_notification_status : String → Bool
valid_notification_status s = str_eq s "sent" || str_eq s "skipped" || str_eq s "failed"

-- InsertRunNotification
unfoldable pub insert_run_notification : NotificationRow → World → Option (Unit {0} × World)
insert_run_notification n w =
    if any (has_id n.run_id) w.runs && valid_notification_status n.status
    then some
        (tt, record w { tables = record w.tables { notifications = w.notifications ++ n ∷ [] } })
    else none

-- strPtr of internal/audit
abbrev pub str_ptr : String → Option String
str_ptr s = if str_eq s "" then none else some s

-- InsertAuditLog
unfoldable pub insert_audit_log : AuditRow → World → Option (Unit {0} × World)
insert_audit_log a w =
    some (tt, record w { tables = record w.tables { audit = w.audit ++ a ∷ [] } })
