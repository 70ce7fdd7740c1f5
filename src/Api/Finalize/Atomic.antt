-- ===== src/Api/Finalize/Atomic.antt =====
-- internal/api/finalize.go: what its errors leave.
use cronfoundry.Prelude.{
  ℕ, ◌≡◌, refl, true, not, Option, none, some, Bool-cases, inl, inr, ◌==◌, all, ◌||◌,
}
use cronfoundry.Store.Rows.{World, Run, Status, Tables}
use cronfoundry.Store.Exec.{M, Outcome, ok, err, raise, ◌>>=◌, attempt, continue}
use cronfoundry.Store.Exec.Atomic.{IsErr, transaction-err}
use cronfoundry.Api.Response.{internal_error}
use cronfoundry.Api.AutoPause.{Show}
use cronfoundry.Api.Finalize.{
  FinalizeBody, finalize_status, finalize_params, finalize_tx, after_finalize, finalize_valid,
  finalize_checked, finalize_body, finalize_handler, has_negative, valid_notification,
}

-- what follows a result that is an error
continue-err :
    {E A B : Type 0} (r : Outcome E A) (f : A → M E B) (w : World) (t : Tables)
    → (IsErr r → w.tables ≡ t)
    → ((a : A) → IsErr (f a w).0 → ⊥)
    → IsErr (continue r f w).0
    → (continue r f w).1.tables ≡ t
continue-err (ok a) f w t e n h = absurd (n a h)
continue-err (err x) f w t e n h = e h

module _ (s : Show) (run_id : ℕ) where
  after_finalize-ok :
      (status : Status) (r : Run) (w : World) → IsErr (after_finalize s run_id status r w).0 → ⊥
  unfolding after_finalize ◌>>=◌ attempt
  after_finalize-ok status r w h = h

  finalize_valid-err :
      (b : FinalizeBody) (status : Status) (w : World)
      → IsErr (finalize_valid s run_id b status w).0
      → (finalize_valid s run_id b status w).1.tables ≡ w.tables
  unfolding finalize_valid ◌>>=◌ finalize_tx
  finalize_valid-err b status w h =
      let m = finalize_tx (finalize_params run_id status b) b.notifications in
      continue-err (m w).0 (after_finalize s run_id status) (m w).1 w.tables
        (λ e. transaction-err (λ a. true) internal_error internal_error _ w e)
        (λ r. after_finalize-ok status r (m w).1) h

  finalize_checked-err :
      (b : FinalizeBody) (o : Option Status) (w : World)
      → IsErr (finalize_checked s run_id b o w).0
      → (finalize_checked s run_id b o w).1.tables ≡ w.tables
  unfolding finalize_checked raise
  finalize_checked-err b none w h = refl
  finalize_checked-err b (some status) w h =
      elim (Bool-cases (has_negative b || not (all valid_notification b.notifications))) [
        | inl e ↦ rw e
        | inr e ↦ rw e (finalize_valid-err b status w (rw e at h))
      ]

  finalize_body-err :
      (body : Option FinalizeBody) (w : World)
      → IsErr (finalize_body s run_id body w).0
      → (finalize_body s run_id body w).1.tables ≡ w.tables
  unfolding finalize_body raise
  finalize_body-err none w h = refl
  finalize_body-err (some b) w h = finalize_checked-err b (finalize_status b.status) w h

-- Whatever the request holds and whichever calls of the database fail, a finalize request that is
-- answered with an error has changed no table.
pub finalize-err :
    (s : Show) (claimed : ℕ) (url : Option ℕ) (body : Option FinalizeBody) (w : World)
    → IsErr (finalize_handler s claimed url body w).0
    → (finalize_handler s claimed url body w).1.tables ≡ w.tables
unfolding finalize_handler raise
finalize-err s claimed none body w h = refl
finalize-err s claimed (some run_id) body w h = elim (Bool-cases (claimed == run_id)) [
  | inl e ↦ rw e (finalize_body-err s run_id body w (rw e at h))
  | inr e ↦ rw e
]
