-- ===== src/Webapi/Response.antt =====
-- internal/webapi/apierr.go and audit_helper.go: the codes that writeErr is given, with their
-- statuses, and the audit rows of the handlers.
pub mod Loaded
use cronfoundry.Prelude.{ℕ, String, Option, none, some, List, [], ◌∷◌, str_eq, if◌then◌else◌}
use cronfoundry.Config.Json.{Json, object, no_members}
use cronfoundry.Store.Rows.{World, AuditRow}
use cronfoundry.Store.Exec.{M, pure, ◌>>=◌, ◌>>◌, statement, attempt}
use cronfoundry.Store.Logs.{insert_audit_log, str_ptr}
use cronfoundry.Store.Users.{first_org}

pub data Fault : Type 0 where
  bad_request unauthorized forbidden not_found conflict self_delete last_admin last_user : Fault
  internal config gateway body_too_large sync_error too_many_requests : Fault
  trigger_error : ℕ → Fault

abbrev pub http_status : Fault → ℕ
http_status Fault.bad_request = 400
http_status Fault.unauthorized = 401
http_status Fault.forbidden = 403
http_status Fault.not_found = 404
http_status Fault.conflict = 409
http_status Fault.self_delete = 409
http_status Fault.last_admin = 409
http_status Fault.last_user = 409
http_status Fault.internal = 500
http_status Fault.config = 503
http_status Fault.gateway = 502
http_status Fault.body_too_large = 413
http_status Fault.sync_error = 500
http_status Fault.too_many_requests = 429
http_status (Fault.trigger_error n) = n

-- audit.Entry
pub record Entry : Type 0 where
  pub org_id : ℕ
  pub actor : String
  pub action : String
  pub target_kind : String
  pub target_id : Option ℕ
  pub detail : Option Json

abbrev pub detail_json : Option Json → Json
detail_json none = object no_members
detail_json (some d) = d

-- audit.Log
unfoldable pub log_entry : Entry → M Fault (Unit {0})
log_entry e = statement Fault.internal (
    insert_audit_log (record {
      org_id = e.org_id;
      actor = str_ptr e.actor;
      action = e.action;
      target_kind = str_ptr e.target_kind;
      target_id = e.target_id;
      detail = detail_json e.detail;
    }))

abbrev pub by_actor : String → Entry → Entry
by_actor a e = if str_eq e.actor "" then record e { actor = a } else e

-- auditLog: a row that cannot be written fails nothing
unfoldable pub audit_log : String → Entry → M Fault (Unit {0})
audit_log actor e = do attempt {F = Fault} (log_entry (by_actor actor e)); pure tt

-- the head of most handlers: the organization, or 500
unfoldable pub load_org : M Fault ℕ
load_org = statement Fault.internal first_org
