-- ===== src/Webapi/Users/Removal.antt =====
-- internal/webapi/users.go: the delete request and the last admin.
use cronfoundry.Prelude.{
  ℕ, ◌<◌, ◌≡◌, ◌≢◌, refl, ◌∙◌, String, true, false, not, Option, some, List, [], ◌∷◌, arith,
  Bool-cases, inl, inr, ltb, ◌==◌, str_eq, eq_iff, head?, find, select, length,
}
use cronfoundry.Store.Rows.{World, AppUser}
use cronfoundry.Store.Exec.{ok, pure, ◌>>=◌, statement, attempt}
use cronfoundry.Store.Exec.Quiet.{bind_ok, statement_ok}
use cronfoundry.Store.Exec.Keeps.{Keeps-after, Keeps-statement}
use cronfoundry.Store.Logs.{insert_audit_log}
use cronfoundry.Store.Users.{
  first_org, with_users, role_column, is_user, goes, count_admins, count_users, user_role,
  delete_user_if_not_last,
}
use cronfoundry.Store.Users.Counts.{count, admin_of, count-select}
use cronfoundry.Webapi.Response.{Fault, Entry, audit_log, log_entry, load_org}
use cronfoundry.Webapi.Keeps.{audit_log-Keeps}
use cronfoundry.Webapi.Users.{user_entry, login_only, deleted, delete_found, delete_other, delete}

-- what the statement deletes
module _ (fold : String → String) (org : ℕ) (login : String) (all : List AppUser)
    (two : ltb 1 (count_users org all) ≡ true) where
  removes_admin :
      (us : List AppUser)
      → role_column (find (is_user fold org login) us) ≡ some "admin"
      → (count (admin_of org) (select (λ u. not (goes fold org login all u)) us)
          < count (admin_of org) us)
        × (0 < length (select (goes fold org login all) us))
  removes_admin [] h = absurd (cc)
  removes_admin (u ∷ us) h = elim (Bool-cases (is_user fold org login u)) [
    | inl e ↦
        let k : ◌≡◌ {A = Option String} (some u.role) (some "admin") = rw e at h in
        let a : str_eq u.role "admin" ≡ true = (eq_iff u.role "admin").1 (cc (k)) in
        (
          ground (arith, count-select (admin_of org) (λ v. not (goes fold org login all v)) us),
          ground arith,
        )
    | inr e ↦ let (fewer, some_go) = removes_admin us (rw e at h) in (ground arith, ground arith)
  ]

module _ (fold : String → String) (org : ℕ) (actor login : String) (w : World)
    (quiet : w.script ≡ []) where
  load_org_lem : head? w.orgs ≡ some org → load_org w ≡ (ok org, w)
  unfolding load_org first_org
  load_org_lem h = statement_ok Fault.internal first_org w w org quiet (rw h refl)

  audit_log_lem : (e : Entry) (v : World) → (audit_log actor e v).0 ≡ ok tt
  unfolding audit_log attempt ◌>>=◌ pure
  audit_log_lem e v = refl

  audit_log_users : (e : Entry) (v : World) → (audit_log actor e v).1.users ≡ v.users
  unfolding log_entry insert_audit_log
  audit_log_users e v =
      let kept =
        audit_log-Keeps (λ t n. t.users ≡ v.users) (λ x. Keeps-statement _ _ (λ u p. p)) actor e in
      Keeps-after _ kept v refl

  abbrev rest : List AppUser
  rest = select (λ u. not (goes fold org login w.users u)) w.users

  delete_lem :
      head? w.orgs ≡ some org
      → actor ≢ login
      → login ≢ ""
      → user_role fold org login w.users ≡ some "admin"
      → 0 < length (select (goes fold org login w.users) w.users)
      → delete fold actor login w
        ≡ audit_log actor
            (user_entry org "user.delete" (login_only fold actor login))
            (with_users w rest)
  unfolding delete delete_other delete_found deleted delete_user_if_not_last
  delete_lem first other named role gone =
      let k = length (select (goes fold org login w.users) w.users) in
      let e₁ : str_eq login "" ≡ false = ground (arith, eq_iff login "") in
      let e₂ : str_eq actor login ≡ false = ground (arith, eq_iff actor login) in
      let e₃ : (k == 0) ≡ false = ground arith in
      rw (e₁, e₂)
        (bind_ok load_org _ w w org (load_org_lem first)
          ∙ bind_ok (statement Fault.internal (λ v. some (user_role fold org login v.users, v)))
              (delete_found fold actor org login) w w (some "admin")
              (statement_ok _ _ w w (some "admin") quiet (rw role refl))
          ∙ bind_ok (statement Fault.internal (delete_user_if_not_last fold org login))
              (deleted fold actor org login) w (with_users w rest) k
              (statement_ok _ _ w (with_users w rest) k quiet refl)
          ∙ rw e₃ refl)

-- A session may delete the only admin: if no call of the database fails, the request of any session
-- whose login is not spelled exactly as the path, be it a viewer's by now, is answered with 204 and
-- leaves no admin, when the user of the path is the only admin and not the only user.
pub delete-NoAdmin :
    (fold : String → String) (org : ℕ) (actor login : String) (w : World)
    → w.script ≡ []
    → head? w.orgs ≡ some org
    → actor ≢ login
    → login ≢ ""
    → user_role fold org login w.users ≡ some "admin"
    → count_admins org w.users ≡ 1
    → ltb 1 (count_users org w.users) ≡ true
    → ((delete fold actor login w).0 ≡ ok tt)
      × (count_admins org (delete fold actor login w).1.users ≡ 0)
unfolding count_admins user_role
delete-NoAdmin fold org actor login w quiet first other named role only two =
    let (fewer, gone) = removes_admin fold org login w.users two w.users role in
    let same = delete_lem fold org actor login w quiet first other named role gone in
    rw same (
      audit_log_lem fold org actor login w quiet _ _,
      rw (audit_log_users fold org actor login w quiet _ _) (omega (arith, fewer)),
    )
