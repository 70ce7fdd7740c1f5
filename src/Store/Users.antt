-- ===== src/Store/Users.antt =====
-- The statements on `organization` and `app_user` (internal/db/queries/organization.sql and
-- app_user.sql). The logins are of the type citext, so `fold`, PostgreSQL's lower(), decides on their
-- equality.
pub mod Counts
pub mod Admins
use cronfoundry.Prelude.{
  ℕ, String, Bool, true, ◌&&◌, ◌||◌, not, Option, none, some, List, [], ◌∷◌, ◌++◌, map, ltb, ◌==◌,
  str_eq, if◌then◌else◌, length, select, find, any, head?, sort_by,
}
use cronfoundry.Store.Rows.{World, AppUser, now}

abbrev pub with_org : World → Option ℕ → Option (ℕ × World)
with_org w none = none
with_org w (some o) = some (o, w)

-- GetFirstOrganization; no row is an error
unfoldable pub first_org : World → Option (ℕ × World)
first_org w = with_org w (head? w.orgs)

abbrev pub is_admin : AppUser → Bool
is_admin u = str_eq u.role "admin"

-- CountAdmins
unfoldable pub count_admins : ℕ → List AppUser → ℕ
count_admins org us = length (select (λ u. u.org_id == org && is_admin u) us)

-- CountUsers, and the count inside DeleteUserIfNotLast
unfoldable pub count_users : ℕ → List AppUser → ℕ
count_users org us = length (select (λ u. u.org_id == org) us)

-- the check on app_user.role
abbrev pub valid_role : String → Bool
valid_role r = str_eq r "admin" || str_eq r "viewer"

abbrev pub with_users : World → List AppUser → World
with_users w us = record w { tables = record w.tables { users = us } }

abbrev pub role_column : Option AppUser → Option String
role_column none = none
role_column (some u) = some u.role

-- ListUsers; `before` is the order of the column github_login
unfoldable pub list_users : (String → String → Bool) → ℕ → World → List AppUser
list_users before org w =
    sort_by (λ u v. before u.github_login v.github_login) (select (λ u. u.org_id == org) w.users)

abbrev pub new_user : ℕ → String → String → ℕ → Option ℕ → AppUser
new_user org login role t last = record {
  org_id = org;
  github_login = login;
  role = role;
  created_at = t;
  last_login_at = last;
}

abbrev pub admissible : ℕ → String → World → Bool
admissible org role w = valid_role role && any (λ o. o == org) w.orgs

module _ (fold : String → String) where
  -- org_id = $1 AND github_login = $2
  abbrev pub is_user : ℕ → String → AppUser → Bool
  is_user org login u = u.org_id == org && str_eq (fold u.github_login) (fold login)

  -- GetUserRole
  unfoldable pub user_role : ℕ → String → List AppUser → Option String
  user_role org login us = role_column (find (is_user org login) us)

  -- CreateUser; `some none` is the conflict that does nothing
  unfoldable pub create_user : ℕ → String → String → World → Option (Option AppUser × World)
  create_user org login role w =
      let u = new_user org login role (now w) none in
      if not (admissible org role w)
      then none
      else if any (is_user org login) w.users
      then some (none, w)
      else some (some u, with_users w (w.users ++ u ∷ []))

  abbrev pub set_role_of : ℕ → String → String → AppUser → AppUser
  set_role_of org login role u = if is_user org login u then record u { role = role } else u

  -- SetUserRole
  unfoldable pub set_user_role : ℕ → String → String → World → Option (Unit {0} × World)
  set_user_role org login role w =
      if valid_role role
      then some (tt, with_users w (map (set_role_of org login role) w.users))
      else none

  abbrev pub goes : ℕ → String → List AppUser → AppUser → Bool
  goes org login us u = is_user org login u && ltb 1 (count_users org us)

  -- DeleteUserIfNotLast: the number of rows that it deleted
  unfoldable pub delete_user_if_not_last : ℕ → String → World → Option (ℕ × World)
  delete_user_if_not_last org login w = some (
    length (select (goes org login w.users) w.users),
    with_users w (select (λ u. not (goes org login w.users u)) w.users),
  )

  abbrev pub logged_in : ℕ → String → ℕ → AppUser → AppUser
  logged_in org login t u = if is_user org login u then record u { last_login_at = some t } else u

  -- UpsertUserOnLogin
  unfoldable pub upsert_user_on_login : ℕ → String → String → World → Option (Unit {0} × World)
  upsert_user_on_login org login role w =
      let t = now w in
      if not (admissible org role w)
      then none
      else if any (is_user org login) w.users
      then some (tt, with_users w (map (logged_in org login t) w.users))
      else some (tt, with_users w (w.users ++ new_user org login role t (some t) ∷ []))
