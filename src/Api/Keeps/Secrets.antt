-- ===== src/Api/Keeps/Secrets.antt =====
-- internal/api/secrets.go and trigger.go: conditions on the run table under these requests.
use cronfoundry.Prelude.{ℕ, String, Bool, Option, none, some, List, [], ◌∷◌, str_eq, any}
use cronfoundry.Store.Rows.{World, Run, Schedule}
use cronfoundry.Store.Exec.Keeps.{
  Cond, At, Landed, Keeps, Ensures-bind, Ensures-attempt, Ensures-gets, Keeps-pure, Keeps-raise,
  Keeps-statement, Keeps-if,
}
use cronfoundry.Store.Runs.{InsertRunParams, insert_row}
use cronfoundry.Config.SecretRefs.{has_name}
use cronfoundry.Config.Json.{Json}
use cronfoundry.Api.Auth.{RunClaims}
use cronfoundry.Api.Secrets.{log_secret_event, put, fetched, fetch, fetch_all, secrets_handler}
use cronfoundry.Api.Trigger.{or_internal, trigger_found, trigger_body, trigger_at, trigger_handler}
use cronfoundry.Api.Keeps.{OnRuns, insert_audit_log-Keeps, insert_run_event-Keeps}

module _ (P : Cond) (o : OnRuns P) where
  log_secret_event-Keeps :
      (i : ℕ) (level event_type : String) (j : Json)
      → Keeps P (log_secret_event i level event_type j)
  unfolding log_secret_event
  log_secret_event-Keeps i level event_type j = Ensures-attempt _ (insert_run_event-Keeps P o _ _)

  fetched-Keeps : (i : ℕ) (name : String) (v : Option String) → Keeps P (fetched i name v)
  unfolding fetched
  fetched-Keeps i name none = Ensures-bind _ _ (log_secret_event-Keeps i _ _ _) λ u. Keeps-raise _
  fetched-Keeps i name (some v) =
      Ensures-bind _ _ (log_secret_event-Keeps i _ _ _) λ u. Keeps-pure _

  fetch-Keeps :
      (store : String → Option String) (c : RunClaims) (name : String)
      → Keeps P (fetch store c name)
  unfolding fetch
  fetch-Keeps store c name =
      Keeps-if (has_name name c.secret_refs) (fetched-Keeps c.run_id name (store name))
        (Ensures-bind _ _ (log_secret_event-Keeps c.run_id _ _ _) λ u. Keeps-raise _)

  fetch_all-Keeps :
      (store : String → Option String) (c : RunClaims) (names : List String)
      (out : List (String × String))
      → Keeps P (fetch_all store c names out)
  unfolding fetch_all
  fetch_all-Keeps store c [] out = Keeps-pure _
  fetch_all-Keeps store c (name ∷ names) out =
      Ensures-bind _ _ (fetch-Keeps store c name)
        λ v. fetch_all-Keeps store c names (put name v out)

  pub secrets_handler-Keeps :
      (store : String → Option String) (c : RunClaims) (names : List String)
      → Keeps P (secrets_handler store c names)
  unfolding secrets_handler
  secrets_handler-Keeps store c [] = Keeps-raise _
  secrets_handler-Keeps store c (name ∷ names) =
      Keeps-if (any (str_eq "") (name ∷ names)) (Keeps-raise _)
        (fetch_all-Keeps store c (name ∷ names) [])

  module _
      (inserts : (p : InsertRunParams) (w : World)
        → At P w
        → Landed (λ (x : Run × Bool). P) (insert_row p w)) where
    or_internal-Keeps : (v : Option String) → Keeps P (or_internal v)
    or_internal-Keeps none = Keeps-raise _
    or_internal-Keeps (some v) = Keeps-pure _

    trigger_found-Keeps :
        (hex : ℕ → Option String) (text : ℕ → String) (actor : Option String)
        (row : Option (Schedule × String))
        → Keeps P (trigger_found hex text actor row)
    unfolding trigger_found
    trigger_found-Keeps hex text actor none = Keeps-raise _
    trigger_found-Keeps hex text actor (some (s, sha)) = Ensures-bind _ _ (Ensures-gets _) λ seed.
        Ensures-bind _ _ (or_internal-Keeps (hex seed)) λ hash.
          Ensures-bind _ _ (Keeps-statement _ _ (inserts _)) λ run.
            Ensures-bind _ _ (Ensures-attempt _ (insert_audit_log-Keeps P o _ _)) λ u. Keeps-pure _

    trigger_body-Keeps :
        (hex : ℕ → Option String) (text : ℕ → String) (i : ℕ) (body : Option (Option String))
        → Keeps P (trigger_body hex text i body)
    unfolding trigger_body
    trigger_body-Keeps hex text i none = Keeps-raise _
    trigger_body-Keeps hex text i (some actor) =
        Ensures-bind _ _ (Keeps-statement _ _ (λ w p. p))
          λ row. trigger_found-Keeps hex text actor row

    trigger_at-Keeps :
        (hex : ℕ → Option String) (text : ℕ → String) (url : Option ℕ)
        (body : Option (Option String))
        → Keeps P (trigger_at hex text url body)
    unfolding trigger_at
    trigger_at-Keeps hex text none body = Keeps-raise _
    trigger_at-Keeps hex text (some i) body = trigger_body-Keeps hex text i body

    pub trigger_handler-Keeps :
        (hex : ℕ → Option String) (text : ℕ → String) (loopback : Bool) (url : Option ℕ)
        (body : Option (Option String))
        → Keeps P (trigger_handler hex text loopback url body)
    unfolding trigger_handler
    trigger_handler-Keeps hex text loopback url body =
        Keeps-if loopback (trigger_at-Keeps hex text url body) (Keeps-raise _)
