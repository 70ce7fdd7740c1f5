-- ===== src/Webapi/Users.antt =====
-- internal/webapi/users.go: the users of the organization. `fold` is the equality of the column
-- github_login, and `actor` the login of the session.
pub mod Keeps
pub mod Admins
pub mod History
pub mod Removal
use cronfoundry.Prelude.{
  ℕ, String, Bool, ◌&&◌, ◌||◌, not, Option, none, some, List, leb, ◌==◌, str_eq, if◌then◌else◌, map,
}
use cronfoundry.Config.Json.{Json, object, member, no_members, string}
use cronfoundry.Store.Rows.{World, AppUser}
use cronfoundry.Store.Exec.{M, pure, raise, ◌>>=◌, ◌>>◌, statement}
use cronfoundry.Store.Users.{
  valid_role, count_admins, list_users, user_role, create_user, set_user_role,
  delete_user_if_not_last,
}
use cronfoundry.Webapi.Response.{Fault, Entry, audit_log, load_org}

abbrev pub user_entry : ℕ → String → Json → Entry
user_entry org action detail = record {
  org_id = org;
  actor = "";
  action = action;
  target_kind = "user";
  target_id = none;
  detail = some detail;
}

abbrev pub login_and_role : String → String → Json
login_and_role login role =
    object (member "login" (string login) (member "role" (string role) no_members))

-- userDTO; the times are written by package time
pub record UserDto : Type 0 where
  pub login : String
  pub role : String
  pub created_at : ℕ
  pub last_login_at : Option ℕ

unfoldable pub to_user_dto : AppUser → UserDto
to_user_dto u = record {
  login = u.github_login;
  role = u.role;
  created_at = u.created_at;
  last_login_at = u.last_login_at;
}

-- list
unfoldable pub list : (String → String → Bool) → M Fault (List UserDto)
list before = do
  org ← load_org
  rows ← statement Fault.internal (λ w. some (list_users before org w, w))
  pure (map to_user_dto rows)

module _ (fold : String → String) (actor : String) where
  unfoldable pub created : ℕ → String → String → Option AppUser → M Fault UserDto
  created org login role none = raise Fault.conflict
  created org login role (some u) = do
    audit_log actor (user_entry org "user.create" (login_and_role login role))
    pure (to_user_dto u)

  -- create; `none` is a body that does not decode
  unfoldable pub create : Option (String × String) → M Fault UserDto
  create none = raise Fault.bad_request
  create (some (login, role)) =
      if str_eq login "" || not (valid_role role) then raise Fault.bad_request else do
        org ← load_org
        row ← statement Fault.internal (create_user fold org login role)
        created org login role row

  unfoldable pub write_role : ℕ → String → String → M Fault (Unit {0})
  write_role org login role = do
    statement Fault.internal (set_user_role fold org login role)
    audit_log actor (user_entry org "user.set_role" (login_and_role login role))

  -- the role that the user has decides whether the admins are counted
  unfoldable pub change_role : ℕ → String → String → Option String → M Fault (Unit {0})
  change_role org login role none = raise Fault.not_found
  change_role org login role (some current) =
      if str_eq current "admin" && not (str_eq role "admin")
      then (do
        n ← statement Fault.internal (λ w. some (count_admins org w.users, w))
        if leb n 1 then raise Fault.last_admin else write_role org login role)
      else write_role org login role

  -- updateRole
  unfoldable pub update_role : String → Option String → M Fault (Unit {0})
  update_role login none = raise Fault.bad_request
  update_role login (some role) =
      if str_eq login "" || not (valid_role role) then raise Fault.bad_request else do
        org ← load_org
        current ← statement Fault.internal (λ w. some (user_role fold org login w.users, w))
        change_role org login role current

  abbrev pub login_only : String → Json
  login_only login = object (member "login" (string login) no_members)

  unfoldable pub deleted : ℕ → String → ℕ → M Fault (Unit {0})
  deleted org login affected =
      if affected == 0
      then raise Fault.last_user
      else audit_log actor (user_entry org "user.delete" (login_only login))

  unfoldable pub delete_found : ℕ → String → Option String → M Fault (Unit {0})
  delete_found org login none = raise Fault.not_found
  delete_found org login (some role) = do
    affected ← statement Fault.internal (delete_user_if_not_last fold org login)
    deleted org login affected

  unfoldable pub delete_other : String → M Fault (Unit {0})
  delete_other login = do
    org ← load_org
    role ← statement Fault.internal (λ w. some (user_role fold org login w.users, w))
    delete_found org login role

  -- delete
  unfoldable pub delete : String → M Fault (Unit {0})
  delete login =
      if str_eq login ""
      then raise Fault.bad_request
      else if str_eq actor login
      then raise Fault.self_delete
      else delete_other login
