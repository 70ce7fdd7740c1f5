-- ===== src/Api/Finalize.antt =====
-- internal/api/finalize.go. A request is given as its parsed parts: `none` is a path or a body that
-- does not parse. The Prometheus counters, which nothing reads, are left out.
pub mod Atomic
pub mod Done
use Prim.Native.String.{len}
use cronfoundry.Prelude.{
  ℕ, String, Bool, true, false, ◌||◌, not, Option, none, some, List, [], ◌∷◌, ℤ, is_negative, ltb,
  ◌==◌, str_eq, if◌then◌else◌, all,
}
use cronfoundry.Store.Rows.{Run, Status, succeeded, partial_failure, failed, NotificationRow}
use cronfoundry.Store.Exec.{M, Outcome, pure, raise, ◌>>=◌, ◌>>◌, statement, attempt, transaction}
use cronfoundry.Store.Runs.{FinalizeRunParams, finalize_row}
use cronfoundry.Store.Logs.{insert_run_notification, valid_notification_status}
use cronfoundry.Api.Response.{Response, bad_request, forbidden, conflict, internal_error}
use cronfoundry.Api.AutoPause.{Show, PauseError, evaluate_auto_pause}

pub record Notification : Type 0 where
  pub kind : String
  pub target : String
  pub status : String
  pub reason : Option String

pub record FinalizeBody : Type 0 where
  pub status : String
  pub duration_ms : Option ℤ
  pub tokens_in : Option ℤ
  pub tokens_out : Option ℤ
  pub cost_cents : Option ℤ
  pub error_kind : Option String
  pub error_msg : Option String
  pub writeback_commit_sha : Option String
  pub notifications : List Notification

-- validFinalizeStatuses
unfoldable pub finalize_status : String → Option Status
finalize_status s =
    if str_eq s "succeeded"
    then some succeeded
    else if str_eq s "partial_failure"
    then some partial_failure
    else if str_eq s "failed"
    then some failed
    else none

abbrev pub is_below_zero : Option ℤ → Bool
is_below_zero none = false
is_below_zero (some z) = is_negative z

abbrev pub too_long : ℕ → Option String → Bool
too_long n none = false
too_long n (some s) = ltb n (len s)

unfoldable pub valid_notification : Notification → Bool
valid_notification n = not (
    str_eq n.kind ""
    || ltb 200 (len n.kind)
    || (str_eq n.target "" || ltb 200 (len n.target))
    || not (valid_notification_status n.status)
    || too_long 2000 n.reason)

abbrev pub has_negative : FinalizeBody → Bool
has_negative b =
    is_below_zero b.duration_ms
    || is_below_zero b.tokens_in
    || is_below_zero b.tokens_out
    || is_below_zero b.cost_cents

abbrev pub finalize_params : ℕ → Status → FinalizeBody → FinalizeRunParams
finalize_params run_id status b = record {
  id = run_id;
  status = status;
  duration_ms = b.duration_ms;
  tokens_in = b.tokens_in;
  tokens_out = b.tokens_out;
  cost_cents = b.cost_cents;
  error_kind = b.error_kind;
  error_msg = b.error_msg;
  writeback_commit_sha = b.writeback_commit_sha;
}

abbrev pub notification_row : Run → Notification → NotificationRow
notification_row r n = record {
  run_id = r.id;
  org_id = r.org_id;
  kind = n.kind;
  target = n.target;
  status = n.status;
  reason = n.reason;
}

unfoldable pub insert_notifications : Run → List Notification → M Response Run
insert_notifications r [] = pure r
insert_notifications r (n ∷ ns) = do
  statement internal_error (insert_run_notification (notification_row r n))
  insert_notifications r ns

-- the body of the transaction; no row means that the run is already terminal
unfoldable pub finalized : List Notification → Option Run → M Response Run
finalized ns none = raise conflict
finalized ns (some r) = insert_notifications r ns

unfoldable pub finalize_tx : FinalizeRunParams → List Notification → M Response Run
finalize_tx p ns =
    transaction internal_error internal_error
      (do row ← statement internal_error (finalize_row p); finalized ns row)

-- from the commit on: an error of the evaluation is only logged
unfoldable pub after_finalize : Show → ℕ → Status → Run → M Response (Unit {0})
after_finalize s run_id status r = do
  attempt (evaluate_auto_pause s r.schedule_id run_id status r.fire_reason)
  pure tt

unfoldable pub finalize_valid : Show → ℕ → FinalizeBody → Status → M Response (Unit {0})
finalize_valid s run_id b status = do
  r ← finalize_tx (finalize_params run_id status b) b.notifications
  after_finalize s run_id status r

unfoldable pub finalize_checked : Show → ℕ → FinalizeBody → Option Status → M Response (Unit {0})
finalize_checked s run_id b none = raise bad_request
finalize_checked s run_id b (some status) =
    if has_negative b || not (all valid_notification b.notifications)
    then raise bad_request
    else finalize_valid s run_id b status

unfoldable pub finalize_body : Show → ℕ → Option FinalizeBody → M Response (Unit {0})
finalize_body s run_id none = raise bad_request
finalize_body s run_id (some b) = finalize_checked s run_id b (finalize_status b.status)

-- ServeHTTP; `claimed` is the run id of the bearer's claims
unfoldable pub finalize_handler : Show → ℕ → Option ℕ → Option FinalizeBody → M Response (Unit {0})
finalize_handler s claimed none body = raise bad_request
finalize_handler s claimed (some run_id) body =
    if claimed == run_id then finalize_body s run_id body else raise forbidden
