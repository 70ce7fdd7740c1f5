-- ===== src/Api/Keeps/Finalizing.antt =====
-- internal/api/finalize.go: conditions on the run table under reports, and the two that the histories
-- of the server are about.
use cronfoundry.Prelude.{
  ℕ, String, ◌≡◌, refl, true, false, not, Option, none, some, List, ◌≤◌, arith, ◌==◌, all, ◌||◌,
}
use cronfoundry.Store.Rows.{World, Run, Status, is_active}
use cronfoundry.Store.Exec.Keeps.{
  Cond, At, Landed, Keeps, Ensures-bind, Ensures-attempt, Keeps-pure, Keeps-raise, Keeps-statement,
  Keeps-if,
}
use cronfoundry.Store.Exec.Atomic.{Keeps-transaction}
use cronfoundry.Store.Runs.{FinalizeRunParams, finalize_row}
use cronfoundry.Store.Runs.Insert.{GoodRuns, GoodRuns-upward}
use cronfoundry.Store.Runs.Frozen.{Frozen}
use cronfoundry.Api.AutoPause.{Show}
use cronfoundry.Api.Finalize.{
  Notification, FinalizeBody, finalize_status, finalize_params, finalized, finalize_tx,
  after_finalize, finalize_valid, finalize_checked, finalize_body, finalize_handler, has_negative,
  valid_notification,
}
use cronfoundry.Api.Keeps.{OnRuns, above, insert_notifications-Keeps, evaluate_auto_pause-Keeps}

finalize_status_terminal :
    (t : String) (st : Status) → finalize_status t ≡ some st → is_active st ≡ false
unfolding finalize_status
finalize_status_terminal t st h = ground arith

module _ (P : Cond) (o : OnRuns P) where
  module _
      (finalizes : (p : FinalizeRunParams) (w : World)
        → is_active p.status ≡ false
        → At P w
        → Landed (λ (x : Option Run). P) (finalize_row p w)) where
    finalize_row-above :
        (n₀ : ℕ) (p : FinalizeRunParams) (w : World)
        → is_active p.status ≡ false
        → At (λ t n. P t n × (n₀ ≤ n)) w
        → Landed (λ (x : Option Run) t n. P t n × (n₀ ≤ n)) (finalize_row p w)
    unfolding finalize_row
    finalize_row-above n₀ p w a h = (unfold finalize_row in finalizes p w a h.0, h.1)

    finalized_lem :
        (n₀ : ℕ) (ns : List Notification) (row : Option Run)
        → Keeps (λ t n. P t n × (n₀ ≤ n)) (finalized ns row)
    unfolding finalized
    finalized_lem n₀ ns none = Keeps-raise _
    finalized_lem n₀ ns (some r) = insert_notifications-Keeps _ (above P o n₀) r ns

    finalize_tx-Keeps :
        (p : FinalizeRunParams) (ns : List Notification)
        → is_active p.status ≡ false
        → Keeps P (finalize_tx p ns)
    unfolding finalize_tx
    finalize_tx-Keeps p ns a =
        Keeps-transaction P o.upward (λ r. true) _ _ _
          λ n₀.
            Ensures-bind _ _ (Keeps-statement _ _ (finalize_above n₀)) λ row. finalized-Keeps n₀ row
      where
        finalize_above :
            (n₀ : ℕ) (w : World)
            → At (λ t n. P t n × (n₀ ≤ n)) w
            → Landed (λ (x : Option Run) t n. P t n × (n₀ ≤ n)) (finalize_row p w)
        finalize_above n₀ w h = finalize_row-above n₀ p w a h

        finalized-Keeps :
            (n₀ : ℕ) (row : Option Run) → Keeps (λ t n. P t n × (n₀ ≤ n)) (finalized ns row)
        finalized-Keeps n₀ row = finalized_lem n₀ ns row

    finalize_valid-Keeps :
        (s : Show) (i : ℕ) (b : FinalizeBody) (st : Status)
        → is_active st ≡ false
        → Keeps P (finalize_valid s i b st)
    unfolding finalize_valid after_finalize
    finalize_valid-Keeps s i b st a =
        Ensures-bind _ _ (finalize_tx-Keeps (finalize_params i st b) b.notifications a) λ r.
          Ensures-bind _ _
            (Ensures-attempt _ (evaluate_auto_pause-Keeps P o s r.schedule_id i st r.fire_reason))
            λ u. Keeps-pure _

    finalize_checked-Keeps :
        (s : Show) (i : ℕ) (b : FinalizeBody) (r : Option Status)
        → ((st : Status) → r ≡ some st → is_active st ≡ false)
        → Keeps P (finalize_checked s i b r)
    unfolding finalize_checked
    finalize_checked-Keeps s i b none h = Keeps-raise _
    finalize_checked-Keeps s i b (some st) h =
        Keeps-if (has_negative b || not (all valid_notification b.notifications)) (Keeps-raise _)
          (finalize_valid-Keeps s i b st (h st refl))

    finalize_body-Keeps :
        (s : Show) (i : ℕ) (b : Option FinalizeBody) → Keeps P (finalize_body s i b)
    unfolding finalize_body
    finalize_body-Keeps s i none = Keeps-raise _
    finalize_body-Keeps s i (some b) =
        finalize_checked-Keeps s i b (finalize_status b.status) (finalize_status_terminal b.status)

    pub finalize_handler-Keeps :
        (s : Show) (c : ℕ) (url : Option ℕ) (b : Option FinalizeBody)
        → Keeps P (finalize_handler s c url b)
    unfolding finalize_handler
    finalize_handler-Keeps s c none b = Keeps-raise _
    finalize_handler-Keeps s c (some i) b =
        Keeps-if (c == i) (finalize_body-Keeps s i b) (Keeps-raise _)

pub GoodCond-OnRuns : OnRuns (λ t n. GoodRuns t.runs n)
GoodCond-OnRuns = record {
  only_runs = λ t u n e p. rw e at p;
  upward = λ t n k p h. GoodRuns-upward t.runs n k p h;
}

pub Frozen-OnRuns : (i : ℕ) (r : Run) → OnRuns (Frozen i r)
Frozen-OnRuns i r = record {
  only_runs = λ t u n e p. record {
    present = rw e at p.present;
    given = p.given;
    unchanged = rw e at p.unchanged;
  };
  upward = λ t n k p h. record {
    present = p.present;
    given = omega (arith, p.given);
    unchanged = p.unchanged;
  };
}
