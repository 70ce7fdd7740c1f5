-- ===== src/Api/Secrets.antt =====
-- internal/api/secrets.go. The query parameter is given as the names that it splits into, trimmed;
-- the secret store is a parameter.
pub mod Scope
use cronfoundry.Prelude.{
  ℕ, String, Bool, true, false, Option, none, some, List, [], ◌∷◌, str_eq, any, if◌then◌else◌,
}
use cronfoundry.Config.Json.{Json, object, member, no_members, string, bool}
use cronfoundry.Config.SecretRefs.{has_name}
use cronfoundry.Store.Exec.{M, Outcome, pure, raise, ◌>>=◌, ◌>>◌, statement, attempt}
use cronfoundry.Store.Logs.{insert_run_event}
use cronfoundry.Api.Response.{Response, bad_request, forbidden, internal_error}
use cronfoundry.Api.Auth.{RunClaims}

-- logSecretEvent: best effort
unfoldable pub log_secret_event :
    ℕ → String → String → Json → M Response (Outcome Response (Unit {0}))
log_secret_event run_id level event_type payload = attempt (
    statement internal_error (
      insert_run_event
        (record { run_id = run_id; level = level; event_type = event_type; payload = payload })))

abbrev pub name_payload : String → Bool → Json
name_payload name in_manifest =
    object (member "name" (string name) (member "in_manifest" (bool in_manifest) no_members))

abbrev pub error_payload : String → Json
error_payload name = object (
    member "name" (string name)
      (member "in_manifest" (bool true) (member "error" (string "secret_store_error") no_members)))

-- the answer so far, as an association list
unfoldable pub put : String → String → List (String × String) → List (String × String)
put k v [] = (k, v) ∷ []
put k v ((j, u) ∷ m) = if str_eq j k then (k, v) ∷ m else (j, u) ∷ put k v m

unfoldable pub fetched : ℕ → String → Option String → M Response String
fetched run_id name none = do
  log_secret_event run_id "error" "secret.fetch_error" (error_payload name)
  raise internal_error
fetched run_id name (some value) = do
  log_secret_event run_id "info" "secret.fetched" (name_payload name true)
  pure value

unfoldable pub fetch : (String → Option String) → RunClaims → String → M Response String
fetch store claims name =
    if has_name name claims.secret_refs then fetched claims.run_id name (store name) else (do
      log_secret_event claims.run_id "warn" "secret.denied" (name_payload name false)
      raise forbidden)

unfoldable pub fetch_all :
    (String → Option String)
    → RunClaims
    → List String
    → List (String × String)
    → M Response (List (String × String))
fetch_all store claims [] out = pure out
fetch_all store claims (name ∷ names) out = do
  value ← fetch store claims name
  fetch_all store claims names (put name value out)

-- ServeHTTP; no names, or an empty one, is refused before any is fetched
unfoldable pub secrets_handler :
    (String → Option String) → RunClaims → List String → M Response (List (String × String))
secrets_handler store claims [] = raise bad_request
secrets_handler store claims (name ∷ names) =
    if any (str_eq "") (name ∷ names)
    then raise bad_request
    else fetch_all store claims (name ∷ names) []
