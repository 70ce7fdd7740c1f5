-- ===== src/Tests/Browsing.antt =====
-- Requests of the browser: a session, a sign-in, the users and the schedule.
use Prim.Native.String.{◌++◌ as str_append}
use cronfoundry.Prelude.{
  ℕ, ◌+◌, ◌≡◌, ◌≢◌, ◌⊎◌, refl, String, Bool, true, false, Option, none, some, List, [], ◌∷◌, arith,
  str_eq, if◌then◌else◌, inl, inr, ltb, eq_iff, Bool-cases, ◌≤◌,
}
use cronfoundry.Store.Rows.{World, now, AppUser, UiOverrides, no_overrides}
use cronfoundry.Store.Exec.{M, ok, err, pure, gets, ◌>>=◌, statement, attempt, call}
use cronfoundry.Store.Exec.Keeps.{At}
use cronfoundry.Store.Logs.{insert_audit_log}
use cronfoundry.Store.Runs.{insert_row}
use cronfoundry.Store.Schedules.{trigger_schedule}
use cronfoundry.Store.Users.{
  is_user, first_org, user_role, count_admins, count_users, upsert_user_on_login,
}
use cronfoundry.Store.Users.Counts.{count}
use cronfoundry.Store.Users.Admins.{HasAdmin}
use cronfoundry.Api.Trigger.{trigger_handler, trigger_at, trigger_body, trigger_found}
use cronfoundry.Api.Trigger.Pending.{Waits}
use cronfoundry.Webapi.Response.{Fault, load_org}
use cronfoundry.Webapi.Session.{
  SessionClaims, sign_session, verify_session, signed, split_last_dot, expired, unix,
}
use cronfoundry.Webapi.Session.Verified.{claims_at, verify-sign}
use cronfoundry.Webapi.Auth.{
  Request, UrlLibrary, admin_only, session, require_role, require_session, with_cookie, with_claims,
  check_role, csrf, group,
}
use cronfoundry.Webapi.Auth.Admitted.{IsSameSite, IsAdminRequest, admin_only-ok}
use cronfoundry.Webapi.Oauth.{
  Github, Random, SignIn, state_ttl, session_duration, login, sign_oauth_state, callback,
  with_state_cookie, with_state, exchanged, exchange_code, fetch_login, resolved, resolve_role,
  signed_in,
}
use cronfoundry.Webapi.Oauth.SignedIn.{Granted, login-session, callback-ok}
use cronfoundry.Webapi.Users.{delete, update_role}
use cronfoundry.Webapi.Users.History.{UserReach, here, updates, UserReach-HasAdmin}
use cronfoundry.Webapi.Users.Removal.{delete-NoAdmin}
use cronfoundry.Webapi.Schedules.{
  ListedSchedule, ScheduleDto, Hop, answered, schedule_row_to_dto, forwarded, run_now,
}
use cronfoundry.Webapi.Schedules.Switched.{Switched}
use cronfoundry.Webapi.Schedules.RunNow.{run_now-ok}
use cronfoundry.Memory.{after_prefix}
use cronfoundry.Webapi.Webhook.{
  Signing, PushPayload, Delivery, webhook, handle_body, verify_webhook_signature, handle_payload,
  sync_pushed, repo_by_owner_name, sync_connection, after_sync,
}
use cronfoundry.Webapi.Webhook.Triggered.{Triggers, webhook-Triggers}
use cronfoundry.Tests.Data.{due_world, empty_tables, daily}
use cronfoundry.Tests.Codec.{framed, framed-Laws, encode, marshal}

-- the text that the codec signs for the claims
abbrev session_text : ℕ → ℕ → String → String → String
session_text now ttl name role =
    let enc = encode (marshal (claims_at now ttl name role)) in
    str_append enc (str_append "." (encode (str_append "k" enc)))

abbrev state_text : String
state_text = session_text 2000 state_ttl "abc" "state"

verify-sign_example : verify_session framed 2000 "k" state_text ≡ (
    if ltb (unix (2000 + state_ttl)) (unix 2000)
    then err expired
    else ok (claims_at 2000 state_ttl "abc" "state"))
unfolding sign_session signed
verify-sign_example =
    verify-sign framed framed-Laws 2000 state_ttl 2000 "k" "abc" "state" state_text refl

abbrev drawn : Random
drawn = record { nonce = some "abc"; csrf_token = some "t0k3n" }

-- a request with one text in every cookie, which is enough for the examples
abbrev browser : String → String → Request
browser method text = record {
  method = method;
  cookie = λ name. if str_eq name "cf_csrf" then some "t0k3n" else some text;
  header = λ name. if str_eq name "X-CSRF-Token" then "t0k3n" else "";
  allowed = true;
}

abbrev who : SessionClaims → M Fault String
who c w = (ok c.login, w)

login-session_example :
    (nonce : String) × (drawn.nonce ≡ some nonce)
    × (session framed "k" who (browser "GET" state_text) due_world
        ≡ who (claims_at 2000 state_ttl nonce "state") due_world)
    × (require_role framed "k" "admin" who (browser "GET" state_text) due_world
        ≡ (err Fault.forbidden, due_world))
unfolding login sign_oauth_state sign_session signed gets pure ◌>>=◌
login-session_example =
    login-session framed framed-Laws "k" drawn due_world due_world state_text who
      (browser "GET" state_text) refl refl refl refl

abbrev plain_urls : UrlLibrary
plain_urls = record { parse = λ s. none; to_lower = λ s. s }

abbrev admin_text : String
admin_text = session_text 2000 state_ttl "root" "admin"

admin_only-ok_example :
    (true ≡ true)
    × IsSameSite plain_urls "" (browser "DELETE" admin_text)
    × (c : SessionClaims) × IsAdminRequest framed "k" 2000 (browser "DELETE" admin_text) c
    × ((who c due_world).0 ≡ ok "root")
unfolding admin_only csrf group require_role require_session with_cookie with_claims check_role
    verify_session split_last_dot gets ◌>>=◌
admin_only-ok_example =
    admin_only-ok framed plain_urls "k" "" who (browser "DELETE" admin_text) due_world "root" refl

-- GitHub knows one user, root
abbrev github : Github
github = record {
  post_code = λ code. some (200, "body");
  get_user = λ token. some (200, "user");
  decode_token = λ body. some ("token", "");
  decode_login = λ body. some "root";
}

abbrev same_text : String → String
same_text s = s

-- the column type takes Root and root for one login
abbrev folded : String → String
folded s = if str_eq s "Root" then "root" else s

abbrev user : String → String → AppUser
user name role = record {
  org_id = 1;
  github_login = name;
  role = role;
  created_at = 0;
  last_login_at = none;
}

abbrev users_world : List AppUser → World
users_world us = record due_world { tables = record empty_tables { users = us } }

abbrev root_and_eve : World
root_and_eve = users_world (user "root" "admin" ∷ user "eve" "viewer" ∷ [])

abbrev granted : SignIn
granted = record {
  cf_session = session_text 2000 session_duration "root" "admin";
  cf_csrf = "t0k3n";
}

callback-ok_example :
    ((browser "GET" state_text).cookie "oauth_state" ≡ some state_text)
    × (c : SessionClaims) × (verify_session framed 2000 "k" state_text ≡ ok c)
    × Granted framed framed-Laws "k" same_text github drawn "code" root_and_eve granted
unfolding callback with_state_cookie with_state exchanged exchange_code fetch_login resolved
    resolve_role load_org first_org signed_in verify_session split_last_dot sign_session signed
    user_role upsert_user_on_login statement call attempt gets pure ◌>>=◌
callback-ok_example =
    callback-ok framed framed-Laws "k" same_text github drawn state_text "code"
      (browser "GET" state_text) root_and_eve granted refl

-- the path spells the session's own login in another way
delete-NoAdmin_example :
    ((delete folded "Root" "root" root_and_eve).0 ≡ ok tt)
    × (count_admins 1 (delete folded "Root" "root" root_and_eve).1.users ≡ 0)
unfolding user_role count_admins count_users
delete-NoAdmin_example =
    delete-NoAdmin folded 1 "Root" "root" root_and_eve refl refl
      (λ e. ground (arith, eq_iff "Root" "root")) (λ e. ground (arith, eq_iff "root" "")) refl refl
      refl

logins_differ : (o : ℕ) (l : String) → count (is_user same_text o l) root_and_eve.users ≤ 1
logins_differ o l = elim (Bool-cases (str_eq "root" l)) [
  | inl e ↦ rw (← (eq_iff "root" l).0 e) (ground arith)
  | inr e ↦ rw e (ground arith)
]

root_is_admin : At (HasAdmin same_text 1) root_and_eve
root_is_admin = (refl, logins_differ, omega arith)

UserReach-HasAdmin_example :
    At (HasAdmin same_text 1) (update_role same_text "root" "eve" (some "admin") root_and_eve).1
UserReach-HasAdmin_example =
    UserReach-HasAdmin same_text 1 root_and_eve
      (update_role same_text "root" "eve" (some "admin") root_and_eve).1
      (UserReach.then root_and_eve _ here (updates "root" "eve" (some "admin"))) root_is_admin

abbrev any_order : ListedSchedule → ListedSchedule → Bool
any_order a b = true

abbrev resumed : ScheduleDto
resumed = schedule_row_to_dto (record {
  sched = daily;
  skill = record { id = 1; repo_id = 1; path = "skills/daily"; current_sha = "c0ffee" };
  repo = record { id = 1; org_id = 1; github_app_install_id = 0; owner = "acme"; name = "skills" };
})

abbrev off : UiOverrides
off = record no_overrides { enabled_over = some false }

abbrev base_url : String
base_url = "http://127.0.0.1"

abbrev hex : ℕ → Option String
hex n = some "ab"

abbrev text : ℕ → String
text n = "uuid"

run_now-ok_example :
    (base_url ≢ "")
    × (◌≡◌ {A = Hop} answered answered)
    × (i : ℕ) × ("uuid" ≡ text i)
    × (true ≡ true)
    × Waits 1 i (run_now hex text true answered base_url "root" (some 1) due_world).1.runs
unfolding run_now trigger_handler trigger_at trigger_body trigger_found trigger_schedule insert_row
    insert_audit_log forwarded gets attempt statement call pure ◌>>=◌
run_now-ok_example = run_now-ok hex text true answered base_url "root" 1 due_world "uuid" refl

abbrev plain_signing : Signing
plain_signing = record { decode_hex = λ s. some s; mac = λ secret body. "feed" }

abbrev pushed : PushPayload
pushed = record {
  ref = "refs/heads/main";
  owner = "acme";
  name = "skills";
  default_branch = "main";
}

abbrev parse_push : String → Option PushPayload
parse_push s = some pushed

abbrev sync_writes : ℕ → M Fault (Unit {0})
sync_writes i w = (ok tt, record w { tables = record w.tables { schedules = [] } })

abbrev delivery : Delivery
delivery = record { event = "push"; signature = "sha256=feed"; body = ok "payload" }

webhook-Triggers_example :
    ((webhook plain_signing parse_push "s" sync_writes delivery due_world).1.tables
      ≡ due_world.tables)
    ⊎ Triggers plain_signing parse_push "s" sync_writes delivery due_world
        (webhook plain_signing parse_push "s" sync_writes delivery due_world)
webhook-Triggers_example =
    webhook-Triggers plain_signing parse_push "s" sync_writes delivery due_world

-- the delivery is one that syncs
delivery_syncs :
    (webhook plain_signing parse_push "s" sync_writes delivery due_world).1.schedules ≡ []
unfolding webhook handle_body verify_webhook_signature after_prefix handle_payload sync_pushed
    load_org first_org repo_by_owner_name sync_connection after_sync statement call attempt pure
    ◌>>=◌
delivery_syncs = refl
