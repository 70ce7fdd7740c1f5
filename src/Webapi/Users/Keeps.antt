-- ===== src/Webapi/Users/Keeps.antt =====
-- internal/webapi/users.go: conditions on the tables that every statement on the users keeps.
use cronfoundry.Prelude.{ℕ, String, ◌&&◌, ◌||◌, not, Option, none, some, leb, ◌==◌, str_eq}
use cronfoundry.Store.Rows.{World, AppUser}
use cronfoundry.Store.Exec.Keeps.{
  Cond, At, Landed, Keeps, Ensures-bind, Keeps-pure, Keeps-raise, Keeps-statement, Keeps-if,
}
use cronfoundry.Store.Users.{valid_role, create_user, set_user_role, delete_user_if_not_last}
use cronfoundry.Webapi.Keeps.{IgnoresAudit, audit_log-Keeps, load_org-Keeps}
use cronfoundry.Webapi.Users.{
  created, create, write_role, change_role, update_role, deleted, delete_found, delete_other,
  delete,
}

module _ (P : Cond) (audit : IgnoresAudit P) (fold : String → String) (actor : String) where
  module _
      (creates : (o : ℕ) (login role : String) (w : World)
        → At P w
        → Landed (λ (x : Option AppUser). P) (create_user fold o login role w)) where
    created-Keeps :
        (o : ℕ) (login role : String) (u : Option AppUser)
        → Keeps P (created fold actor o login role u)
    unfolding created
    created-Keeps o login role none = Keeps-raise _
    created-Keeps o login role (some u) =
        Ensures-bind _ _ (audit_log-Keeps P audit _ _) λ x. Keeps-pure _

    pub create-Keeps : (body : Option (String × String)) → Keeps P (create fold actor body)
    unfolding create
    create-Keeps none = Keeps-raise _
    create-Keeps (some (login, role)) =
        Keeps-if (str_eq login "" || not (valid_role role)) (Keeps-raise _) (
          Ensures-bind _ _ (load_org-Keeps P) λ o.
            Ensures-bind _ _ (Keeps-statement _ _ (creates o login role))
              (created-Keeps o login role))

  module _
      (updates : (o : ℕ) (login role : String) (w : World)
        → At P w
        → Landed (λ u. P) (set_user_role fold o login role w)) where
    write_role-Keeps : (o : ℕ) (login role : String) → Keeps P (write_role fold actor o login role)
    unfolding write_role
    write_role-Keeps o login role =
        Ensures-bind _ _ (Keeps-statement _ _ (updates o login role))
          λ u. audit_log-Keeps P audit _ _

    change_role-Keeps :
        (o : ℕ) (login role : String) (c : Option String)
        → Keeps P (change_role fold actor o login role c)
    unfolding change_role
    change_role-Keeps o login role none = Keeps-raise _
    change_role-Keeps o login role (some current) =
        Keeps-if (str_eq current "admin" && not (str_eq role "admin"))
          (Ensures-bind _ _ (Keeps-statement _ _ (λ w p. p))
            λ n. Keeps-if (leb n 1) (Keeps-raise _) (write_role-Keeps o login role))
          (write_role-Keeps o login role)

    pub update_role-Keeps :
        (login : String) (role : Option String) → Keeps P (update_role fold actor login role)
    unfolding update_role
    update_role-Keeps login none = Keeps-raise _
    update_role-Keeps login (some role) =
        Keeps-if (str_eq login "" || not (valid_role role)) (Keeps-raise _) (
          Ensures-bind _ _ (load_org-Keeps P)
            λ o. Ensures-bind _ _ (Keeps-statement _ _ (λ w p. p)) (change_role-Keeps o login role))

  module _
      (deletes : (o : ℕ) (login : String) (w : World)
        → At P w
        → Landed (λ (k : ℕ). P) (delete_user_if_not_last fold o login w)) where
    delete_found-Keeps :
        (o : ℕ) (login : String) (role : Option String)
        → Keeps P (delete_found fold actor o login role)
    unfolding delete_found deleted
    delete_found-Keeps o login none = Keeps-raise _
    delete_found-Keeps o login (some role) =
        Ensures-bind _ _ (Keeps-statement _ _ (deletes o login))
          λ k. Keeps-if (k == 0) (Keeps-raise _) (audit_log-Keeps P audit _ _)

    delete_other-Keeps : (login : String) → Keeps P (delete_other fold actor login)
    unfolding delete_other
    delete_other-Keeps login =
        Ensures-bind _ _ (load_org-Keeps P)
          λ o. Ensures-bind _ _ (Keeps-statement _ _ (λ w p. p)) (delete_found-Keeps o login)

    pub delete-Keeps : (login : String) → Keeps P (delete fold actor login)
    unfolding delete
    delete-Keeps login =
        Keeps-if (str_eq login "") (Keeps-raise _)
          (Keeps-if (str_eq actor login) (Keeps-raise _) (delete_other-Keeps login))
