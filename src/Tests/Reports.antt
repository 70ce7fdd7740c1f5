-- ===== src/Tests/Reports.antt =====
-- Reports of a run that is under way, and of one that has ended.
use cronfoundry.Prelude.{◌≡◌, refl, some}
use cronfoundry.Store.Rows.{Status}
use cronfoundry.Store.Exec.{◌>>=◌, statement, attempt, call, transaction_if, raise, pure}
use cronfoundry.Store.Runs.{finalize_row, recent_terminal}
use cronfoundry.Store.Schedules.{get_schedule}
use cronfoundry.Api.AutoPause.{evaluate_auto_pause, evaluate_tx, pause_if_streak}
use cronfoundry.Api.Finalize.{
  FinalizeBody, finalize_handler, finalize_body, finalize_checked, finalize_valid, finalize_tx,
  finalized, finalize_status, insert_notifications, after_finalize,
}
use cronfoundry.Api.Finalize.Done.{Accepted, finalize_handler-ok}
use cronfoundry.Tests.Data.{shown, busy_run, busy_world}
use cronfoundry.Tests.Requests.{failure}

finalize_handler-ok_example :
    (some busy_run.id ≡ some busy_run.id)
    × (b : FinalizeBody) × (some failure ≡ some b)
    × (st : Status) × (finalize_status b.status ≡ some st)
    × Accepted 3 st b busy_world (finalize_handler shown 3 (some 3) (some failure) busy_world).1
unfolding finalize_handler finalize_body finalize_checked finalize_valid finalize_tx finalized
    insert_notifications after_finalize finalize_status finalize_row transaction_if
    evaluate_auto_pause evaluate_tx pause_if_streak get_schedule recent_terminal attempt pure ◌>>=◌
    statement call raise
finalize_handler-ok_example = finalize_handler-ok shown 3 (some 3) (some failure) busy_world refl
