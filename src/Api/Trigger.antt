-- ===== src/Api/Trigger.antt =====
-- internal/api/trigger.go
pub mod Pending
use Prim.Native.String.{◌++◌ as str_append}
use cronfoundry.Prelude.{ℕ, String, Bool, Option, none, some, str_eq, if◌then◌else◌}
use cronfoundry.Config.Json.{object, member, no_members, string}
use cronfoundry.Store.Rows.{Run, Schedule, manual, AuditRow}
use cronfoundry.Store.Exec.{M, pure, raise, gets, ◌>>=◌, ◌>>◌, statement, attempt}
use cronfoundry.Store.Runs.{InsertRunParams, insert_row}
use cronfoundry.Store.Schedules.{trigger_schedule}
use cronfoundry.Store.Logs.{insert_audit_log, str_ptr}
use cronfoundry.Api.Response.{Response, bad_request, forbidden, not_found, internal_error}

-- `actor` of the body, if there is one
abbrev pub actor_name : Option String → String
actor_name none = "system"
actor_name (some a) = if str_eq a "" then "system" else a

abbrev pub manual_run : Schedule → String → Option String → String → InsertRunParams
manual_run s sha actor hash = record {
  org_id = s.org_id;
  schedule_id = s.id;
  skill_sha = sha;
  fire_time = none;
  fire_reason = manual;
  actor = actor;
  runner_token_hash = str_append "pending:" hash;
}

abbrev pub trigger_audit : (ℕ → String) → Schedule → Option String → Run → AuditRow
trigger_audit uuid_text s actor r = record {
  org_id = s.org_id;
  actor = str_ptr (actor_name actor);
  action = "schedule.run_now";
  target_kind = str_ptr "schedule";
  target_id = some s.id;
  detail = object (member "run_id" (string (uuid_text r.id)) no_members);
}

abbrev pub or_internal : Option String → M Response String
or_internal none = raise internal_error
or_internal (some s) = pure s

-- The audit row is best effort: the run stays when it cannot be written.
unfoldable pub trigger_found :
    (ℕ → Option String) → (ℕ → String) → Option String → Option (Schedule × String) → M Response ℕ
trigger_found random_hex uuid_text actor none = raise not_found
trigger_found random_hex uuid_text actor (some (s, sha)) = do
  seed ← gets (λ w. w.next_id)
  hash ← or_internal (random_hex seed)
  run ← statement internal_error (insert_row (manual_run s sha actor hash))
  attempt (statement internal_error (insert_audit_log (trigger_audit uuid_text s actor run.0)))
  pure run.0.id

unfoldable pub trigger_body :
    (ℕ → Option String) → (ℕ → String) → ℕ → Option (Option String) → M Response ℕ
trigger_body random_hex uuid_text schedule_id none = raise bad_request
trigger_body random_hex uuid_text schedule_id (some actor) = do
  row ← statement internal_error (λ w. some (trigger_schedule schedule_id w, w))
  trigger_found random_hex uuid_text actor row

unfoldable pub trigger_at :
    (ℕ → Option String) → (ℕ → String) → Option ℕ → Option (Option String) → M Response ℕ
trigger_at random_hex uuid_text none body = raise bad_request
trigger_at random_hex uuid_text (some schedule_id) body =
    trigger_body random_hex uuid_text schedule_id body

-- ServeHTTP; `loopback` is the answer of isLoopbackRequest, `none` an id or a body that does not
-- parse, and `some none` a body with no actor. The result is the id of the run.
unfoldable pub trigger_handler :
    (ℕ → Option String) → (ℕ → String) → Bool → Option ℕ → Option (Option String) → M Response ℕ
trigger_handler random_hex uuid_text loopback url body =
    if loopback then trigger_at random_hex uuid_text url body else raise forbidden
