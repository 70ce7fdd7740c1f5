-- ===== src/Api/Keeps.antt =====
-- internal/api: conditions on the run table under the statements and transactions of the endpoints.
pub mod Finalizing
pub mod Secrets
pub mod Reading
pub mod Browser
use cronfoundry.Prelude.{
  ℕ, String, ◌≡◌, refl, true, false, not, Option, none, some, List, [], ◌∷◌, ◌≤◌, arith, Bool-cases,
  inl, inr, ◌==◌, all, ◌||◌, any, ◌&&◌,
}
use cronfoundry.Store.Rows.{
  World, Run, Status, Tables, is_active, NotificationRow, AuditRow, EventRow, FireReason, is_manual,
  is_failed, Schedule,
}
use cronfoundry.Store.Exec.{statement}
use cronfoundry.Store.Exec.Keeps.{
  Cond, At, Landed, Keeps, Ensures-bind, Ensures-attempt, Keeps-after, Keeps-pure, Keeps-raise,
  Keeps-statement, Keeps-if,
}
use cronfoundry.Store.Exec.Atomic.{Keeps-transaction}
use cronfoundry.Store.Runs.{FinalizeRunParams, finalize_row, has_id}
use cronfoundry.Store.Runs.Insert.{GoodRuns, GoodRuns-upward}
use cronfoundry.Store.Runs.Update.{finalize_row-GoodRuns}
use cronfoundry.Store.Runs.Frozen.{Frozen, finalize_row-Frozen}
use cronfoundry.Store.Schedules.{auto_pause_schedule}
use cronfoundry.Store.Logs.{
  insert_run_notification, insert_audit_log, insert_run_event, valid_notification_status,
  valid_level,
}
use cronfoundry.Api.AutoPause.{
  Show, evaluate_auto_pause, pause_if_streak, pause_schedule, record_pause, committed, threshold_of,
  is_streak,
}
use cronfoundry.Api.Finalize.{
  Notification, FinalizeBody, finalize_status, finalize_params, insert_notifications, finalized,
  finalize_tx, after_finalize, finalize_valid, finalize_checked, finalize_body, finalize_handler,
  has_negative, valid_notification, notification_row,
}
use cronfoundry.Api.Events.{
  Event, level_of, insert_event, insert_events, post_events, events_handler,
}

-- A condition on the rows of `run` and the id supply that does not fail when the supply moves on.
pub record OnRuns (P : Cond) : Type 0 where
  pub only_runs : (t u : Tables) (n : ℕ) → t.runs ≡ u.runs → P t n → P u n
  pub upward : (t : Tables) (n k : ℕ) → P t n → n ≤ k → P t k

pub above : (P : Cond) → OnRuns P → (n₀ : ℕ) → OnRuns (λ t n. P t n × (n₀ ≤ n))
above P o n₀ = record {
  only_runs = λ t u n e p. (o.only_runs t u n e p.0, p.1);
  upward = λ t n k p h. (o.upward t n k p.0 h, omega (arith, p.1));
}

module _ (P : Cond) (o : OnRuns P) where
  pub insert_audit_log-Keeps :
      {E : Type 0} (e : E) (a : AuditRow) → Keeps P (statement e (insert_audit_log a))
  unfolding insert_audit_log
  insert_audit_log-Keeps e a = Keeps-statement _ _ (λ w p. o.only_runs w.tables _ w.next_id refl p)

  insert_run_event-Landed :
      (r : EventRow) (w : World) → At P w → Landed (λ (u : Unit {0}). P) (insert_run_event r w)
  unfolding insert_run_event
  insert_run_event-Landed r w p =
      elim (Bool-cases (any (has_id r.run_id) w.runs && valid_level r.level)) [
        | inl e ↦ rw e (o.only_runs w.tables _ w.next_id refl p)
        | inr e ↦ rw e tt
      ]

  pub insert_run_event-Keeps :
      {E : Type 0} (e : E) (r : EventRow) → Keeps P (statement e (insert_run_event r))
  insert_run_event-Keeps e r = Keeps-statement _ _ (insert_run_event-Landed r)

  insert_run_notification-Landed :
      (r : NotificationRow) (w : World)
      → At P w
      → Landed (λ (u : Unit {0}). P) (insert_run_notification r w)
  unfolding insert_run_notification
  insert_run_notification-Landed r w p =
      elim (Bool-cases (any (has_id r.run_id) w.runs && valid_notification_status r.status)) [
        | inl e ↦ rw e (o.only_runs w.tables _ w.next_id refl p)
        | inr e ↦ rw e tt
      ]

  record_pause-Keeps : (s : Show) (cfg : Schedule) (i k : ℕ) → Keeps P (record_pause s cfg i k)
  unfolding record_pause
  record_pause-Keeps s cfg i k =
      Ensures-bind _ _ (insert_audit_log-Keeps _ _)
        λ u. Ensures-bind _ _ (insert_run_event-Keeps _ _) λ v. Keeps-pure _

  auto_pause_schedule-Landed :
      (i k : ℕ) (w : World) → At P w → Landed (λ (u : ℕ). P) (auto_pause_schedule i k w)
  unfolding auto_pause_schedule
  auto_pause_schedule-Landed i k w p = o.only_runs w.tables _ w.next_id refl p

  pause_schedule-Keeps : (s : Show) (cfg : Schedule) (i k : ℕ) → Keeps P (pause_schedule s cfg i k)
  unfolding pause_schedule
  pause_schedule-Keeps s cfg i k =
      Ensures-bind _ _ (Keeps-statement _ _ (auto_pause_schedule-Landed _ _))
        λ affected. Keeps-if (affected == 0) (Keeps-pure _) (record_pause-Keeps s cfg i k)

  pause_if_streak-Keeps : (s : Show) (i : ℕ) (c : Option Schedule) → Keeps P (pause_if_streak s i c)
  unfolding pause_if_streak
  pause_if_streak-Keeps s i none = Keeps-pure _
  pause_if_streak-Keeps s i (some cfg) =
      Ensures-bind _ _ (Keeps-statement _ _ (λ w p. p)) λ statuses.
        Keeps-if (is_streak (threshold_of cfg.auto_pause_after) statuses)
          (pause_schedule-Keeps s cfg i _) (Keeps-pure _)

  pub insert_notifications-Keeps :
      (r : Run) (ns : List Notification) → Keeps P (insert_notifications r ns)
  unfolding insert_notifications
  insert_notifications-Keeps r [] = Keeps-pure _
  insert_notifications-Keeps r (m ∷ ns) =
      Ensures-bind _ _ (Keeps-statement _ _ (insert_run_notification-Landed (notification_row r m)))
        λ u. insert_notifications-Keeps r ns

  insert_events-Keeps : (i : ℕ) (es : List Event) → Keeps P (insert_events i es)
  unfolding insert_events insert_event
  insert_events-Keeps i [] = Keeps-pure _
  insert_events-Keeps i (e ∷ es) =
      Ensures-bind _ _
        (Keeps-if (valid_level (level_of e)) (insert_run_event-Keeps _ _) (Keeps-raise _))
        λ u. insert_events-Keeps i es

module _ (P : Cond) (o : OnRuns P) where
  pub evaluate_auto_pause-Keeps :
      (s : Show) (sid i : ℕ) (st : Status) (r : FireReason)
      → Keeps P (evaluate_auto_pause s sid i st r)
  unfolding evaluate_auto_pause
  evaluate_auto_pause-Keeps s sid i st r =
      Keeps-if (is_manual r || not (is_failed st)) (Keeps-pure _) (
        Keeps-transaction P o.upward committed _ _ _ λ n₀.
          Ensures-bind _ _ (Keeps-statement _ _ (λ w p. p))
            λ cfg. pause_if_streak-Keeps _ (above P o n₀) s i cfg)

  post_events-Keeps : (i : ℕ) (b : Option (List Event)) → Keeps P (post_events i b)
  unfolding post_events
  post_events-Keeps i none = Keeps-raise _
  post_events-Keeps i (some es) =
      Keeps-transaction P o.upward (λ a. true) _ _ _ λ n₀. insert_events-Keeps _ (above P o n₀) i es

  -- The events endpoint keeps every such condition.
  pub events_handler-Keeps :
      (c : ℕ) (url : Option ℕ) (body : Option (List Event)) → Keeps P (events_handler c url body)
  unfolding events_handler
  events_handler-Keeps c none body = Keeps-raise _
  events_handler-Keeps c (some i) body =
      Keeps-if (c == i) (post_events-Keeps i body) (Keeps-raise _)
