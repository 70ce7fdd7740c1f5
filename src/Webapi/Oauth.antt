-- ===== src/Webapi/Oauth.antt =====
-- internal/webapi/oauth.go, and resolveRole of server.go: signing in through GitHub.
pub mod SignedIn
use Prim.Native.String.{◌++◌ as str_append}
use cronfoundry.Prelude.{ℕ, String, Option, none, some, ◌==◌, str_eq, if◌then◌else◌}
use cronfoundry.Store.Rows.{World}
use cronfoundry.Store.Exec.{M, Outcome, ok, err, pure, raise, gets, ◌>>=◌, ◌>>◌, statement, attempt}
use cronfoundry.Store.Users.{user_role, upsert_user_on_login}
use cronfoundry.Webapi.Response.{Fault, load_org}
use cronfoundry.Webapi.Session.{SessionClaims, Codec, SessionError, sign_session, verify_session}
use cronfoundry.Webapi.Auth.{Request}

-- GitHub's answers: the status and the body of the answer to a code, and to an access token; `none`
-- is a request that fails. The bodies decode to a token with an error, and to a login.
pub record Github : Type 0 where
  pub post_code : String → Option (ℕ × String)
  pub get_user : String → Option (ℕ × String)
  pub decode_token : String → Option (String × String)
  pub decode_login : String → Option String

-- crypto/rand: a nonce of 16 bytes and a CSRF token of 32, both as base64url; `none` is an error
pub record Random : Type 0 where
  pub nonce : Option String
  pub csrf_token : Option String

-- the cookies that a successful callback sets
pub record SignIn : Type 0 where
  pub cf_session : String
  pub cf_csrf : String

abbrev pub state_ttl : ℕ
state_ttl = 600000000

-- sessionDuration
abbrev pub session_duration : ℕ
session_duration = 604800000000

module _ (g : Github) where
  abbrev pub token_of : Option (String × String) → Option String
  token_of none = none
  token_of (some (token, failure)) = if str_eq failure "" then some token else none

  abbrev pub if_found : (String → Option String) → Option (ℕ × String) → Option String
  if_found decode none = none
  if_found decode (some (status, body)) = if status == 200 then decode body else none

  -- exchangeCode
  unfoldable pub exchange_code : String → Option String
  exchange_code code = if_found (λ body. token_of (g.decode_token body)) (g.post_code code)

  -- fetchLogin
  unfoldable pub fetch_login : String → Option String
  fetch_login token = if_found g.decode_login (g.get_user token)

abbrev pub or_fault : {A : Type 0} → Fault → Option A → M Fault A
or_fault f none = raise f
or_fault f (some a) = pure a

abbrev pub or_internal : {E A : Type 0} → Outcome E A → M Fault A
or_internal (ok a) = pure a
or_internal (err e) = raise Fault.internal

-- "" stands for a user that is not there
abbrev pub role_text : Option String → String
role_text none = ""
role_text (some role) = role

-- resolveRole, with a database
unfoldable pub resolve_role : (String → String) → ℕ → String → M Fault String
resolve_role fold org name =
    statement Fault.internal (λ w. some (role_text (user_role fold org name w.users), w))

module _ (x : Codec) (key : String) where
  -- SignOAuthState
  unfoldable pub sign_oauth_state : ℕ → Option String → Outcome SessionError String
  sign_oauth_state now none = err SessionError.no_random
  sign_oauth_state now (some nonce) = sign_session x now state_ttl key nonce "state"

  -- login: the value of the cookie oauth_state, which is also the parameter `state` of the redirect
  unfoldable pub login : Random → M Fault String
  login random = do now ← gets (λ w. w.clock); or_internal (sign_oauth_state now random.nonce)

  module _ (fold : String → String) (g : Github) (random : Random) where
    -- the end of callback, for a login with a role
    unfoldable pub signed_in : ℕ → String → String → M Fault SignIn
    signed_in org name role = do
      attempt {F = Fault} (statement Fault.internal (upsert_user_on_login fold org name role))
      now ← gets (λ w. w.clock)
      session ← or_internal (sign_session x now session_duration key name role)
      token ← or_fault Fault.internal random.csrf_token
      pure (record { cf_session = session; cf_csrf = token })

    unfoldable pub resolved : String → M Fault SignIn
    resolved name = do
      org ← load_org
      role ← resolve_role fold org name
      if str_eq role "" then raise Fault.forbidden else signed_in org name role

    unfoldable pub exchanged : String → M Fault SignIn
    exchanged code = do
      token ← or_fault Fault.gateway (exchange_code g code)
      name ← or_fault Fault.gateway (fetch_login g token)
      resolved name

    unfoldable pub with_state : String → Outcome SessionError SessionClaims → M Fault SignIn
    with_state code (err e) = raise Fault.bad_request
    with_state code (ok c) = exchanged code

    unfoldable pub with_state_cookie : String → String → Option String → M Fault SignIn
    with_state_cookie state code none = raise Fault.bad_request
    with_state_cookie state code (some v) =
        if str_eq state v
        then (do now ← gets (λ w. w.clock); with_state code (verify_session x now key v))
        else raise Fault.bad_request

    -- callback, with the parameters `state` and `code` of the query
    unfoldable pub callback : String → String → Request → M Fault SignIn
    callback state code r = with_state_cookie state code (r.cookie "oauth_state")
