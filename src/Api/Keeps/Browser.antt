-- ===== src/Api/Keeps/Browser.antt =====
-- internal/webapi: the statements on schedules and users under conditions on the run table.
use cronfoundry.Prelude.{ℕ, String, Bool, Option, refl, Bool-cases, inl, inr, any}
use cronfoundry.Store.Rows.{World, Schedule, AppUser, UiOverrides}
use cronfoundry.Store.Exec.Keeps.{Cond, At, Landed, Keeps-statement}
use cronfoundry.Store.Logs.{insert_audit_log}
use cronfoundry.Store.Schedules.{set_enabled}
use cronfoundry.Store.Users.{
  admissible, is_user, valid_role, create_user, set_user_role, delete_user_if_not_last,
  upsert_user_on_login,
}
use cronfoundry.Api.Keeps.{OnRuns}
use cronfoundry.Webapi.Response.{log_entry}
use cronfoundry.Webapi.Keeps.{IgnoresAudit, KeepsUpserts}
use cronfoundry.Webapi.Schedules.{set_overrides}

module _ (P : Cond) (o : OnRuns P) where
  pub audit : IgnoresAudit P
  unfolding log_entry insert_audit_log
  audit e = Keeps-statement _ _ (λ w p. o.only_runs w.tables _ w.next_id refl p)

  pub switch-Landed :
      (on : Bool) (i org : ℕ) (w : World)
      → At P w
      → Landed (λ (r : Option Schedule). P) (set_enabled i on org w)
  unfolding set_enabled
  switch-Landed on i org w p = o.only_runs w.tables _ w.next_id refl p

  pub override-Landed :
      (i org : ℕ) (d : UiOverrides) (w : World)
      → At P w
      → Landed (λ (r : Option Schedule). P) (set_overrides i org d w)
  unfolding set_overrides
  override-Landed i org d w p = o.only_runs w.tables _ w.next_id refl p

  module _ (fold : String → String) where
    pub create_user-Landed :
        (org : ℕ) (login role : String) (w : World)
        → At P w
        → Landed (λ (x : Option AppUser). P) (create_user fold org login role w)
    unfolding create_user
    create_user-Landed org login role w p = elim (Bool-cases (admissible org role w)) [
      | inr e ↦ rw e tt
      | inl e ↦ elim (Bool-cases (any (is_user fold org login) w.users)) [
        | inl there ↦ rw (e, there) p
        | inr fresh ↦ rw (e, fresh) (o.only_runs w.tables _ w.next_id refl p)
      ]
    ]

    pub set_user_role-Landed :
        (org : ℕ) (login role : String) (w : World)
        → At P w
        → Landed (λ u. P) (set_user_role fold org login role w)
    unfolding set_user_role
    set_user_role-Landed org login role w p = elim (Bool-cases (valid_role role)) [
      | inl e ↦ rw e (o.only_runs w.tables _ w.next_id refl p)
      | inr e ↦ rw e tt
    ]

    pub delete_user-Landed :
        (org : ℕ) (login : String) (w : World)
        → At P w
        → Landed (λ (k : ℕ). P) (delete_user_if_not_last fold org login w)
    unfolding delete_user_if_not_last
    delete_user-Landed org login w p = o.only_runs w.tables _ w.next_id refl p

    pub upsert-Landed : KeepsUpserts fold P
    unfolding upsert_user_on_login
    upsert-Landed org login role w p = elim (Bool-cases (admissible org role w)) [
      | inr e ↦ rw e tt
      | inl e ↦ elim (Bool-cases (any (is_user fold org login) w.users)) [
        | inl there ↦ rw (e, there) (o.only_runs w.tables _ w.next_id refl p)
        | inr fresh ↦ rw (e, fresh) (o.only_runs w.tables _ w.next_id refl p)
      ]
    ]
