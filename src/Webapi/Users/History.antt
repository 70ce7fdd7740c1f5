-- ===== src/Webapi/Users/History.antt =====
-- internal/webapi/users.go and oauth.go: the requests that change the users, one after another.
use cronfoundry.Prelude.{ℕ, ◌+◌, ◌≡◌, String, Option, List}
use cronfoundry.Store.Rows.{World, Call}
use cronfoundry.Store.Exec.Keeps.{At, Keeps-after}
use cronfoundry.Store.Users.Admins.{HasAdmin, IsAdmin, login-Landed, create_user-Landed}
use cronfoundry.Webapi.Session.{Codec}
use cronfoundry.Webapi.Auth.{Request}
use cronfoundry.Webapi.Oauth.{Github, Random, callback}
use cronfoundry.Webapi.Keeps.{callback-Keeps}
use cronfoundry.Webapi.Users.{create, update_role, delete}
use cronfoundry.Webapi.Users.Admins.{P-IgnoresAudit, update_role-Keeps, delete-HasAdmin}
use cronfoundry.Webapi.Users.Keeps.{create-Keeps}

-- Where a user is deleted, the session's login is still that of an admin, and the path does not
-- spell that login in another way.
pub data UserStep (fold : String → String) (org : ℕ) (w : World) : World → Type 0 where
  creates :
      (actor : String) (body : Option (String × String))
      → UserStep fold org w (create fold actor body w).1
  updates :
      (actor login : String) (role : Option String)
      → UserStep fold org w (update_role fold actor login role w).1
  deletes :
      (actor login : String)
      → (fold actor ≡ fold login → actor ≡ login)
      → At (IsAdmin fold org actor) w
      → UserStep fold org w (delete fold actor login w).1
  signs_in :
      (x : Codec) (key : String) (g : Github) (random : Random) (state code : String) (r : Request)
      → UserStep fold org w (callback x key fold g random state code r w).1
  waits :
      (n : ℕ) (calls : List Call)
      → UserStep fold org w (record w { clock = w.clock + n; script = calls })

pub data UserReach (fold : String → String) (org : ℕ) (w : World) : World → Type 0 where
  here : UserReach fold org w w
  then : (v u : World) → UserReach fold org w v → UserStep fold org v u → UserReach fold org w u

step-HasAdmin :
    (fold : String → String) (org : ℕ) (w u : World)
    → UserStep fold org w u
    → At (HasAdmin fold org) w
    → At (HasAdmin fold org) u
step-HasAdmin fold org w _ (creates actor body) p =
    Keeps-after _
      (create-Keeps (HasAdmin fold org) (P-IgnoresAudit fold org) fold actor
        (create_user-Landed fold org) body)
      w p
step-HasAdmin fold org w _ (updates actor login role) p =
    Keeps-after _ (update_role-Keeps fold org actor login role) w p
step-HasAdmin fold org w _ (deletes actor login spelled a) p =
    delete-HasAdmin fold org actor login w spelled p a
step-HasAdmin fold org w _ (signs_in x key g random state code r) p =
    Keeps-after _
      (callback-Keeps (HasAdmin fold org) x key fold g random (login-Landed fold org) state code r)
      w p
step-HasAdmin fold org w _ (waits n calls) p = p

-- Requests that follow each other, whatever calls of the database fail in them, keep an admin in
-- the organization and its logins unique: users are created, change their role and sign in as they
-- like, and a user is deleted by a session of another login that is an admin's at that time.
pub UserReach-HasAdmin :
    (fold : String → String) (org : ℕ) (w u : World)
    → UserReach fold org w u
    → At (HasAdmin fold org) w
    → At (HasAdmin fold org) u
UserReach-HasAdmin fold org w _ here p = p
UserReach-HasAdmin fold org w u (then v _ r s) p =
    step-HasAdmin fold org v u s (UserReach-HasAdmin fold org w v r p)
