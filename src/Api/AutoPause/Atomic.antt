-- ===== src/Api/AutoPause/Atomic.antt =====
-- internal/api/finalize_autopause.go: what the evaluation writes.
use cronfoundry.Prelude.{◌≡◌, ◌≢◌, refl, ◌∙◌, Bool, true, false, ◌||◌, not, Bool-cases, inl, inr, ℕ}
use cronfoundry.Store.Rows.{World, Tables, Status, is_failed, FireReason, is_manual}
use cronfoundry.Store.Exec.{
  M, Outcome, ok, err, pure, call, transaction_if, close_tx, end_tx, begin_tx,
}
use cronfoundry.Store.Exec.Atomic.{call-tables}
use cronfoundry.Api.AutoPause.{Show, begin, commit, committed, evaluate_tx, evaluate_auto_pause}

close_tx-quiet :
    {E : Type 0} (e : E) (before : Tables) (a : Bool) (w : World) (c : World × Bool)
    → (close_tx e before a w c (committed a)).0 ≢ ok true
    → (close_tx e before a w c (committed a)).1.tables ≡ before
close_tx-quiet e before true w (w', true) h = refl
close_tx-quiet e before true w (w', false) h = absurd (h refl)
close_tx-quiet e before false w c h = refl

end_tx-quiet :
    {E : Type 0} (e : E) (before : Tables) (o : Outcome E Bool × World)
    → (end_tx committed e before o).0 ≢ ok true
    → (end_tx committed e before o).1.tables ≡ before
end_tx-quiet e before (err x, w) h = refl
end_tx-quiet e before (ok a, w) h = close_tx-quiet e before a w (call w) h

begin_tx-quiet :
    {E : Type 0} (b e : E) (m : M E Bool) (c : World × Bool)
    → (begin_tx committed b e m c).0 ≢ ok true
    → (begin_tx committed b e m c).1.tables ≡ c.0.tables
begin_tx-quiet b e m (w, true) h = refl
begin_tx-quiet b e m (w, false) h = end_tx-quiet e w.tables _ h

-- Unless the evaluation reports that it paused the schedule, it has changed no table: not when the
-- streak is broken, when another request paused first, or when a call of the database failed, the
-- one that commits included.
pub evaluate_auto_pause-quiet :
    (s : Show) (schedule_id run_id : ℕ) (status : Status) (reason : FireReason) (w : World)
    → (evaluate_auto_pause s schedule_id run_id status reason w).0 ≢ ok true
    → (evaluate_auto_pause s schedule_id run_id status reason w).1.tables ≡ w.tables
unfolding evaluate_auto_pause transaction_if pure
evaluate_auto_pause-quiet s schedule_id run_id status reason w h =
    elim (Bool-cases (is_manual reason || not (is_failed status))) [
      | inl e ↦ rw e
      | inr e ↦ rw e (
          begin_tx-quiet begin commit (evaluate_tx s schedule_id run_id) (call w) (rw e at h)
          ∙ call-tables w)
    ]
