-- ===== src/Webapi/Schedules/Keeps.antt =====
-- internal/webapi/schedules.go: conditions on the tables under the handlers.
use cronfoundry.Prelude.{ℕ, String, Bool, Option, none, some, find, ◌==◌, str_eq}
use cronfoundry.Store.Rows.{World, Schedule, UiOverrides, no_overrides}
use cronfoundry.Store.Exec.Keeps.{
  Cond, At, Landed, Keeps, Ensures-bind, Ensures-attempt, Keeps-if, Keeps-pure, Keeps-raise,
  Keeps-statement,
}
use cronfoundry.Store.Exec.{Outcome, ok, err}
use cronfoundry.Api.Response.{Response}
use cronfoundry.Api.Trigger.{trigger_handler}
use cronfoundry.Store.Schedules.{set_enabled}
use cronfoundry.Webapi.Keeps.{IgnoresAudit, audit_log-Keeps, load_org-Keeps}
use cronfoundry.Webapi.Schedules.{
  ListedSchedule, all_rows, shown, switched, switch_id, set_schedule_enabled, set_overrides,
  overridden, override_row, override_id, patch_overrides, delete_overrides, Hop, unreachable, lost,
  answered, is_unreachable, forwarded, run_now,
}

module _ (P : Cond) (audit : IgnoresAudit P) where
  module _ (before : ListedSchedule → ListedSchedule → Bool) (actor : String) (on : Bool) where
    shown-Keeps : (o : Option ListedSchedule) → Keeps P (shown before o)
    unfolding shown
    shown-Keeps none = Keeps-raise _
    shown-Keeps (some r) = Keeps-pure _

    pub switched-Keeps :
        (org id : ℕ) (row : Option Schedule) → Keeps P (switched before actor on org id row)
    unfolding switched all_rows
    switched-Keeps org id none = Keeps-raise _
    switched-Keeps org id (some row) = Ensures-bind _ _ (audit_log-Keeps P audit _ _) λ u.
        Ensures-bind _ _ (Keeps-statement _ _ (λ w p. p))
          λ rows. shown-Keeps (find (λ r. r.sched.id == id) rows)

    module _
        (switches : (i org : ℕ) (w : World)
          → At P w
          → Landed (λ (r : Option Schedule). P) (set_enabled i on org w)) where
      switch_id-Keeps : (org : ℕ) (url : Option ℕ) → Keeps P (switch_id before actor on org url)
      unfolding switch_id
      switch_id-Keeps org none = Keeps-raise _
      switch_id-Keeps org (some id) =
          Ensures-bind _ _ (Keeps-statement _ _ (switches id org)) (switched-Keeps org id)

      pub set_schedule_enabled-Keeps :
          (url : Option ℕ) → Keeps P (set_schedule_enabled before actor on url)
      unfolding set_schedule_enabled
      set_schedule_enabled-Keeps url =
          Ensures-bind _ _ (load_org-Keeps P) λ org. switch_id-Keeps org url

  overridden-Keeps :
      (actor action : String) (org id : ℕ) (row : Option Schedule)
      → Keeps P (overridden actor action org id row)
  unfolding overridden
  overridden-Keeps actor action org id none = Keeps-raise _
  overridden-Keeps actor action org id (some row) = audit_log-Keeps P audit _ _

  module _
      (overrides : (i org : ℕ) (o : UiOverrides) (w : World)
        → At P w
        → Landed (λ (r : Option Schedule). P) (set_overrides i org o w)) where
    override_id-Keeps :
        (actor action : String) (org : ℕ) (url : Option ℕ) (o : Option UiOverrides)
        → Keeps P (override_id actor action org url o)
    unfolding override_id override_row
    override_id-Keeps actor action org none o = Keeps-raise _
    override_id-Keeps actor action org (some id) none = Keeps-raise _
    override_id-Keeps actor action org (some id) (some o) =
        Ensures-bind _ _ (Keeps-statement _ _ (overrides id org o))
          (overridden-Keeps actor action org id)

    pub patch_overrides-Keeps :
        (actor : String) (url : Option ℕ) (o : Option UiOverrides)
        → Keeps P (patch_overrides actor url o)
    unfolding patch_overrides
    patch_overrides-Keeps actor url o =
        Ensures-bind _ _ (load_org-Keeps P) λ org. override_id-Keeps actor _ org url o

    pub delete_overrides-Keeps :
        (actor : String) (url : Option ℕ) → Keeps P (delete_overrides actor url)
    unfolding delete_overrides
    delete_overrides-Keeps actor url =
        Ensures-bind _ _ (load_org-Keeps P)
          λ org. override_id-Keeps actor _ org url (some no_overrides)

-- run-now keeps what the endpoint behind it keeps
module _ (P : Cond) (hex : ℕ → Option String) (text : ℕ → String) (loopback : Bool)
    (endpoint : (url : Option ℕ) (body : Option (Option String))
      → Keeps P (trigger_handler hex text loopback url body)) where
  forwarded-Keeps : (hop : Hop) (o : Outcome Response ℕ) → Keeps P (forwarded text hop o)
  unfolding forwarded
  forwarded-Keeps answered (ok i) = Keeps-if (str_eq (text i) "") (Keeps-raise _) (Keeps-pure _)
  forwarded-Keeps answered (err e) = Keeps-raise _
  forwarded-Keeps unreachable o = Keeps-raise _
  forwarded-Keeps lost o = Keeps-raise _

  pub run_now-Keeps :
      (hop : Hop) (base actor : String) (url : Option ℕ)
      → Keeps P (run_now hex text loopback hop base actor url)
  unfolding run_now
  run_now-Keeps hop base actor none = Keeps-raise _
  run_now-Keeps hop base actor (some id) = Keeps-if (str_eq base "") (Keeps-raise _) (
      Keeps-if (is_unreachable hop) (Keeps-raise _) (
        Ensures-bind _ _ (Ensures-attempt _ (endpoint (some id) (some (some actor))))
          (forwarded-Keeps hop)))
