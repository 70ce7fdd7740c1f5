-- ===== src/Webapi/Auth.antt =====
-- internal/webapi/auth.go and csrf.go, and the ways in which server.go puts them before a handler.
pub mod Admitted
use Prim.Native.String.{◌++◌ as str_append}
use cronfoundry.Prelude.{
  ℕ, String, Bool, true, false, ◌&&◌, ◌||◌, not, Option, none, some, str_eq, if◌then◌else◌,
}
use cronfoundry.Store.Rows.{World}
use cronfoundry.Store.Exec.{M, Outcome, ok, err, raise, gets, ◌>>=◌}
use cronfoundry.Webapi.Response.{Fault}
use cronfoundry.Webapi.Session.{SessionClaims, Codec, SessionError, verify_session}

-- What the middleware reads of a request: the first cookie of a name, and the value of a header, ""
-- if there is none. `allowed` is the answer of the rate limiter.
pub record Request : Type 0 where
  pub method : String
  pub cookie : String → Option String
  pub header : String → String
  pub allowed : Bool

-- url.Parse, with the parts of its result, and strings.ToLower
pub record Url : Type 0 where
  pub scheme : String
  pub host : String
  pub hostname : String
  pub port : String

pub record UrlLibrary : Type 0 where
  pub parse : String → Option Url
  pub to_lower : String → String

unfoldable pub check_role :
    {A : Type 0} → String → (SessionClaims → M Fault A) → SessionClaims → M Fault A
check_role role next c =
    if str_eq role "admin" && not (str_eq c.role "admin") then raise Fault.forbidden else next c

module _ (x : Codec) (key : String) {A : Type 0} where
  unfoldable pub with_claims :
      (SessionClaims → M Fault A) → Outcome SessionError SessionClaims → M Fault A
  with_claims next (ok c) = next c
  with_claims next (err e) = raise Fault.unauthorized

  unfoldable pub with_cookie : (SessionClaims → M Fault A) → Option String → M Fault A
  with_cookie next none = raise Fault.unauthorized
  with_cookie next (some v) = do
    now ← gets (λ w. w.clock)
    with_claims next (verify_session x now key v)

  -- RequireSession; the handler gets the claims of the context
  unfoldable pub require_session : (SessionClaims → M Fault A) → Request → M Fault A
  require_session next r = with_cookie next (r.cookie "cf_session")

  -- RequireRole
  unfoldable pub require_role : String → (SessionClaims → M Fault A) → Request → M Fault A
  require_role role next = require_session (check_role role next)

-- GET, HEAD and OPTIONS
abbrev pub is_safe : String → Bool
is_safe m = str_eq m "GET" || str_eq m "HEAD" || str_eq m "OPTIONS"

abbrev pub is_default_port : Url → Bool
is_default_port u =
    str_eq u.port ""
    || str_eq u.scheme "http" && str_eq u.port "80"
    || str_eq u.scheme "https" && str_eq u.port "443"

abbrev pub candidate : Request → String
candidate r = if str_eq (r.header "Origin") "" then r.header "Referer" else r.header "Origin"

abbrev pub same_origin : Option String → Option String → Bool
same_origin (some want) (some got) = str_eq got want
same_origin _ _ = false

abbrev pub token_matches : Option String → String → Bool
token_matches none header = false
token_matches (some c) header = not (str_eq c "") && not (str_eq header "") && str_eq c header

module _ (l : UrlLibrary) where
  abbrev pub origin_of : Option Url → Option String
  origin_of none = none
  origin_of (some u) =
      if str_eq u.scheme "" || str_eq u.host ""
      then none
      else let base = str_append u.scheme (str_append "://" (l.to_lower u.hostname)) in
        if is_default_port u then some base else some (str_append base (str_append ":" u.port))

  -- normalizeOrigin
  unfoldable pub normalize_origin : String → Option String
  normalize_origin s = origin_of (l.parse s)

  -- checkOrigin; the reasons of a refusal are not told apart
  unfoldable pub check_origin : Request → String → Bool
  check_origin r allowed_origin =
      not (str_eq (candidate r) "")
      && same_origin (normalize_origin allowed_origin) (normalize_origin (candidate r))

  abbrev pub passes_csrf : String → Request → Bool
  passes_csrf allowed_origin r =
      is_safe r.method
      || token_matches (r.cookie "cf_csrf") (r.header "X-CSRF-Token")
        && (str_eq allowed_origin "" || check_origin r allowed_origin)

  -- CSRF
  unfoldable pub csrf : {A : Type 0} → String → (Request → M Fault A) → Request → M Fault A
  csrf allowed_origin next r =
      if passes_csrf allowed_origin r then next r else raise Fault.forbidden

-- rl.Group: the limiter lets the request through, or answers 429
unfoldable pub group : {A : Type 0} → (Request → M Fault A) → Request → M Fault A
group next r = if r.allowed then next r else raise Fault.too_many_requests

module _ (x : Codec) (key : String) {A : Type 0} where
  -- session of RegisterRoutes
  unfoldable pub session : (SessionClaims → M Fault A) → Request → M Fault A
  unfolding group
  session next = group (require_session x key next)

module _ (x : Codec) (l : UrlLibrary) (key base : String) {A : Type 0} where
  -- adminOnly of RegisterRoutes
  unfoldable pub admin_only : (SessionClaims → M Fault A) → Request → M Fault A
  unfolding group csrf
  admin_only next = csrf l base (group (require_role x key "admin" next))
