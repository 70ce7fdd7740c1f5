-- ===== src/Webapi/Users/Admins.antt =====
-- internal/webapi/users.go, one request after another: whether the organization keeps an admin.
use cronfoundry.Prelude.{
  ℕ, ◌≡◌, ◌≢◌, refl, String, ◌&&◌, ◌||◌, not, Option, none, some, arith, Bool-cases, inl, inr, ◌==◌,
  leb, str_eq, eq_iff,
}
use cronfoundry.Store.Rows.{World, Tables}
use cronfoundry.Store.Exec.{statement, raise}
use cronfoundry.Store.Exec.Keeps.{
  Cond, At, Ensures, Keeps, Ensures-bind, Ensures-raise, Ensures-statement, Ensures-before,
  Ensures-after, Ensures-given, Keeps-raise, Keeps-statement, Keeps-if,
}
use cronfoundry.Store.Logs.{insert_audit_log}
use cronfoundry.Store.Users.{first_org, count_admins, user_role, valid_role}
use cronfoundry.Store.Users.Admins.{
  HasAdmin, IsAdmin, Safe, Found, Both, set_user_role-Landed, demoted-Safe, kept-Safe,
  delete-Landed,
}
use cronfoundry.Webapi.Keeps.{IgnoresAudit, audit_log-Keeps}
use cronfoundry.Webapi.Response.{Fault, log_entry, load_org}
use cronfoundry.Webapi.Users.{
  write_role, change_role, update_role, deleted, delete_found, delete_other, delete,
}

module _ (fold : String → String) (org : ℕ) where
  abbrev P : Cond
  P = HasAdmin fold org

  pub P-IgnoresAudit : IgnoresAudit P
  unfolding log_entry insert_audit_log
  P-IgnoresAudit e = Keeps-statement _ _ (λ w p. p)

  pub load_org_lem :
      (Q : Cond)
      → ((t : Tables) (n : ℕ) → Q t n → P t n)
      → Ensures Q load_org (λ o t n. Q t n × (o ≡ org)) P
  unfolding load_org first_org
  load_org_lem Q h =
      Ensures-statement Fault.internal first_org h λ w q. rw (h w.tables w.next_id q).0 (q, refl)

  -- a statement that only reads
  pub read_lem :
      {A : Type 0} (Q : Cond) (f : Tables → A)
      → ((t : Tables) (n : ℕ) → Q t n → P t n)
      → Ensures Q
          (statement Fault.internal (λ w. some (f w.tables, w)))
          (λ a t n. Q t n × (a ≡ f t))
          P
  read_lem Q f h = Ensures-statement _ _ h (λ w q. (q, refl))

  module _ (actor login role : String) where
    write_role_lem :
        Ensures (Safe fold org login role) (write_role fold actor org login role) (λ u. P) P
    unfolding write_role
    write_role_lem =
        Ensures-bind _ _
          (Ensures-statement _ _ (λ t n q. q.0) (set_user_role-Landed fold org login role))
          λ u. audit_log-Keeps P P-IgnoresAudit _ _

    change_role_lem :
        (c : Option String)
        → Ensures (Found fold org login role c) (change_role fold actor org login role c) (λ u. P) P
    unfolding change_role
    change_role_lem none = Ensures-raise _ (λ t n q. q.0)
    change_role_lem (some current) =
        elim (Bool-cases (str_eq current "admin" && not (str_eq role "admin"))) [
          | inl e ↦ rw e (
              Ensures-bind _ _
                (read_lem (Found fold org login role (some current)) (λ t. count_admins org t.users)
                  (λ t n q. q.0))
                λ k. elim (Bool-cases (leb k 1)) [
                  | inl few ↦ rw few (Ensures-raise _ (λ t n q. q.0.0))
                  | inr many ↦ rw many (
                      Ensures-before (Safe fold org login role) _
                        (λ t n q. demoted-Safe fold org login role t n k q.0.0 q.1 many)
                        write_role_lem)
                ])
          | inr e ↦ rw e (
              Ensures-before (Safe fold org login role) _
                (λ t n q. kept-Safe fold org login role t n current q e) write_role_lem)
        ]

  pub update_role-Keeps :
      (actor login : String) (role : Option String) → Keeps P (update_role fold actor login role)
  unfolding update_role
  update_role-Keeps actor login none = Keeps-raise _
  update_role-Keeps actor login (some role) =
      Keeps-if (str_eq login "" || not (valid_role role)) (Keeps-raise _) (
        Ensures-bind _ _ (load_org_lem P (λ t n p. p)) λ o. Ensures-given (o ≡ org) _ λ e. rw e (
          Ensures-bind _ _ (read_lem P (λ t. user_role fold org login t.users) (λ t n p. p))
            (change_role_lem actor login role)))

  module _ (actor login : String) (other : fold actor ≢ fold login) where
    deleted-Keeps : (k : ℕ) → Keeps P (deleted fold actor org login k)
    unfolding deleted
    deleted-Keeps k = Keeps-if (k == 0) (Keeps-raise _) (audit_log-Keeps P P-IgnoresAudit _ _)

    delete_found_lem :
        (role : Option String)
        → Ensures
            (λ t n. Both fold org actor login other t n × (role ≡ user_role fold org login t.users))
            (delete_found fold actor org login role)
            (λ u. P)
            P
    unfolding delete_found
    delete_found_lem none = Ensures-raise _ (λ t n q. q.0.0)
    delete_found_lem (some role) =
        Ensures-bind _ _
          (Ensures-statement _ _ (λ t n q. q.0.0)
            (λ w q. delete-Landed fold org actor login other w q.0))
          deleted-Keeps

    delete_other_lem :
        Ensures (Both fold org actor login other) (delete_other fold actor login) (λ u. P) P
    unfolding delete_other
    delete_other_lem =
        Ensures-bind _ _ (load_org_lem (Both fold org actor login other) (λ t n q. q.0)) λ o.
          Ensures-given (o ≡ org) _ λ e. rw e (
            Ensures-bind _ _
              (read_lem (Both fold org actor login other) (λ t. user_role fold org login t.users)
                (λ t n q. q.0))
              delete_found_lem)

  pub delete-HasAdmin :
      (actor login : String) (w : World)
      → (fold actor ≡ fold login → actor ≡ login)
      → At P w
      → At (IsAdmin fold org actor) w
      → At P (delete fold actor login w).1
  unfolding delete raise
  delete-HasAdmin actor login w spelled p a = elim (Bool-cases (str_eq login "")) [
    | inl e ↦ rw e p
    | inr e ↦ elim (Bool-cases (str_eq actor login)) [
      | inl own ↦ rw (e, own) p
      | inr f ↦
          let other : fold actor ≢ fold login =
            λ same. ground (arith, spelled same, eq_iff actor login) in
          rw (e, f) (Ensures-after _ (delete_other_lem actor login other) w (p, a))
    ]
  ]
