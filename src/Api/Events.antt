-- ===== src/Api/Events.antt =====
-- internal/api/events.go
use cronfoundry.Prelude.{ℕ, String, Option, none, some, List, [], ◌∷◌, ◌==◌, str_eq, if◌then◌else◌}
use cronfoundry.Config.Json.{Json, object, no_members}
use cronfoundry.Store.Rows.{EventRow}
use cronfoundry.Store.Exec.{M, pure, raise, ◌>>◌, statement, transaction}
use cronfoundry.Store.Logs.{insert_run_event, valid_level}
use cronfoundry.Api.Response.{Response, bad_request, forbidden, internal_error}

-- an element of the batch; `none` is an absent payload
pub record Event : Type 0 where
  pub event_type : String
  pub level : String
  pub payload : Option Json

abbrev pub level_of : Event → String
level_of e = if str_eq e.level "" then "info" else e.level

abbrev pub payload_of : Option Json → Json
payload_of none = object no_members
payload_of (some j) = j

abbrev pub event_row : ℕ → Event → EventRow
event_row run_id e = record {
  run_id = run_id;
  level = level_of e;
  event_type = e.event_type;
  payload = payload_of e.payload;
}

unfoldable pub insert_event : ℕ → Event → M Response (Unit {0})
insert_event run_id e =
    if valid_level (level_of e)
    then statement internal_error (insert_run_event (event_row run_id e))
    else raise bad_request

unfoldable pub insert_events : ℕ → List Event → M Response (Unit {0})
insert_events run_id [] = pure tt
insert_events run_id (e ∷ es) = do insert_event run_id e; insert_events run_id es

unfoldable pub post_events : ℕ → Option (List Event) → M Response (Unit {0})
post_events run_id none = raise bad_request
post_events run_id (some es) = transaction internal_error internal_error (insert_events run_id es)

-- ServeHTTP
unfoldable pub events_handler : ℕ → Option ℕ → Option (List Event) → M Response (Unit {0})
events_handler claimed none body = raise bad_request
events_handler claimed (some run_id) body =
    if claimed == run_id then post_events run_id body else raise forbidden
