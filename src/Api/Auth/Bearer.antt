-- ===== src/Api/Auth/Bearer.antt =====
-- Who gets through the middleware.
use cronfoundry.Prelude.{
  ℕ, String, ◌≡◌, ◌≢◌, refl, sym, ap, ◌∙◌, find, Option, none, some, arith, str_eq, eq_iff,
  Bool-cases, inl, inr,
}
use cronfoundry.Store.Rows.{World, Run}
use cronfoundry.Store.Exec.{M, Outcome, ok, err, pure, raise, ◌>>=◌, call}
use cronfoundry.Store.Exec.Atomic.{call-tables}
use cronfoundry.Store.Exec.Inversion.{bind-ok, read-ok}
use cronfoundry.Store.Runs.{get_run, has_id}
use cronfoundry.Api.Response.{Response, unauthorized, forbidden, internal_error}
use cronfoundry.Api.AutoPause.{Show}
use cronfoundry.Api.Finalize.{FinalizeBody, finalize_handler}
use cronfoundry.Api.Auth.{
  RunClaims, Signer, Credentials, check_hash, check_claims, require_bearer,
  require_bearer_or_api_key,
}

get_run-tables : (i : ℕ) (v w : World) → v.tables ≡ w.tables → get_run i v ≡ get_run i w
unfolding get_run
get_run-tables i v w e = ap (λ t. find (has_id i) t.runs) e

check_hash-ok :
    (s : Signer) (raw : String) (claims c : RunClaims) (o : Option Run) (w : World)
    → (check_hash s raw claims o w).0 ≡ ok c
    → (c ≡ claims) × (run : Run) × (o ≡ some run) × (run.runner_token_hash ≡ s.hash_token raw)
unfolding check_hash pure raise
check_hash-ok s raw claims c none w h = absurd (cc)
check_hash-ok s raw claims c (some run) w h =
    elim (Bool-cases (str_eq run.runner_token_hash (s.hash_token raw))) [
      | inl e ↦
          let k : ◌≡◌ {A = Outcome Response RunClaims} (ok claims) (ok c) = rw e at h in
          (cc (k), run, refl, (eq_iff run.runner_token_hash (s.hash_token raw)).0 e)
      | inr e ↦
          let k : ◌≡◌ {A = Outcome Response RunClaims} (err unauthorized) (ok c) = rw e at h in
          absurd (cc (k))
    ]

check_claims-ok :
    (s : Signer) (raw : String) (o : Option RunClaims) (c : RunClaims) (w : World)
    → (check_claims s raw o w).0 ≡ ok c
    → (o ≡ some c)
      × (run : Run) × (get_run c.run_id w ≡ some run)
      × (run.runner_token_hash ≡ s.hash_token raw)
unfolding check_claims raise
check_claims-ok s raw none c w h = absurd (cc)
check_claims-ok s raw (some claims) c w h =
    let (row, r, k) = bind-ok _ _ w c h in
    let (e, f) = read-ok internal_error (get_run claims.run_id) w row r in
    let (same, run, found, hash) = check_hash-ok s raw claims c row _ k in
    (
      rw same,
      run,
      ap (λ x. get_run x.run_id w) same
          ∙ sym (get_run-tables claims.run_id (call w).0 w (call-tables w))
          ∙ sym e
          ∙ found,
      hash,
    )

-- A request that the bearer middleware lets through has a bearer token that the signer verifies,
-- with the claims that the handler sees, and its hash is the one stored for the run of the claims.
pub require_bearer-ok :
    (s : Signer) (bearer : Option String) (c : RunClaims) (w : World)
    → (require_bearer s bearer w).0 ≡ ok c
    → (raw : String) × (bearer ≡ some raw)
      × (s.verify raw ≡ some c)
      × (run : Run) × (get_run c.run_id w ≡ some run)
      × (run.runner_token_hash ≡ s.hash_token raw)
unfolding require_bearer raise
require_bearer-ok s none c w h = absurd (cc)
require_bearer-ok s (some raw) c w h =
    let (v, run, found, hash) = check_claims-ok s raw (s.verify raw) c w h in
    (raw, refl, v, run, found, hash)

-- the finalize route of RegisterRoutes: the handler behind the middleware
unfoldable pub finalize_route :
    Signer → String → Show → Credentials → Option ℕ → Option FinalizeBody → M Response (Unit {0})
finalize_route s api_key show c url body = do
  claims ← require_bearer_or_api_key s api_key c
  finalize_handler show claims.run_id url body

-- With the runner key instead of a bearer token the handler has no claims, so a finalize request
-- for any run but the one with the nil id is refused as forbidden, whatever it holds.
pub api_key-forbidden :
    (s : Signer) (api_key : String) (show : Show) (c : Credentials) (run_id : ℕ)
    (body : Option FinalizeBody) (w : World)
    → api_key ≢ ""
    → c.runner_key ≡ api_key
    → run_id ≢ 0
    → finalize_route s api_key show c (some run_id) body w ≡ (err forbidden, w)
unfolding finalize_route require_bearer_or_api_key finalize_handler ◌>>=◌
api_key-forbidden s api_key show c run_id body w k e n =
    ground (arith, eq_iff api_key "", eq_iff c.runner_key api_key)
