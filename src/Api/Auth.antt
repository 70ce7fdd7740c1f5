-- ===== src/Api/Auth.antt =====
-- internal/api/auth.go
pub mod Bearer
use cronfoundry.Prelude.{
  ℕ, String, Bool, true, false, ◌&&◌, not, Option, none, some, List, str_eq, if◌then◌else◌,
}
use cronfoundry.Store.Rows.{World, Run}
use cronfoundry.Store.Exec.{M, pure, raise, ◌>>=◌, statement}
use cronfoundry.Store.Runs.{get_run}
use cronfoundry.Api.Response.{Response, unauthorized, internal_error}

-- token.RunClaims
pub record RunClaims : Type 0 where
  pub run_id : ℕ
  pub org_id : ℕ
  pub secret_refs : List String
  pub expires_at : ℕ

-- ClaimsFromContext without the middleware
abbrev pub no_claims : RunClaims
no_claims = record { run_id = 0; org_id = 0; secret_refs = List.[]; expires_at = 0 }

-- token.Signer, which stands on a JWT library and SHA-256: Verify, given the time, and HashToken
pub record Signer : Type 0 where
  pub verify : String → Option RunClaims
  pub hash_token : String → String

-- The parts of a request that the middleware reads: the bearer token of `Authorization`, if the
-- header has that form, and the header X-Runner-Key.
pub record Credentials : Type 0 where
  pub bearer : Option String
  pub runner_key : String

unfoldable pub check_hash : Signer → String → RunClaims → Option Run → M Response RunClaims
check_hash s raw claims none = raise unauthorized
check_hash s raw claims (some run) =
    if str_eq run.runner_token_hash (s.hash_token raw) then pure claims else raise unauthorized

unfoldable pub check_claims : Signer → String → Option RunClaims → M Response RunClaims
check_claims s raw none = raise unauthorized
check_claims s raw (some claims) = do
  run ← statement internal_error (λ w. some (get_run claims.run_id w, w))
  check_hash s raw claims run

-- requireBearer, with a pool
unfoldable pub require_bearer : Signer → Option String → M Response RunClaims
require_bearer s none = raise unauthorized
require_bearer s (some raw) = check_claims s raw (s.verify raw)

-- requireBearerOrAPIKey: with the key the handler runs without claims
unfoldable pub require_bearer_or_api_key : Signer → String → Credentials → M Response RunClaims
require_bearer_or_api_key s api_key c =
    if not (str_eq api_key "") && str_eq c.runner_key api_key
    then pure no_claims
    else require_bearer s c.bearer
