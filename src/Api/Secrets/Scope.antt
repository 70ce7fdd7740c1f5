-- ===== src/Api/Secrets/Scope.antt =====
-- Which secrets a request gets.
use cronfoundry.Prelude.{
  String, ◌≡◌, true, false, Option, none, some, List, [], ◌∷◌, All, Bool-cases, inl, inr, str_eq,
  any,
}
use cronfoundry.Config.SecretRefs.{has_name}
use cronfoundry.Store.Rows.{World}
use cronfoundry.Store.Exec.{Outcome, ok, err, pure, raise}
use cronfoundry.Store.Exec.Inversion.{bind-ok}
use cronfoundry.Api.Response.{Response, forbidden, bad_request}
use cronfoundry.Api.Auth.{RunClaims}
use cronfoundry.Api.Secrets.{
  put, fetched, fetch, fetch_all, secrets_handler, log_secret_event, name_payload, error_payload,
}

-- a pair of the answer: the name is in the token's scope, and the value is the store's
abbrev pub InScope : (String → Option String) → RunClaims → String × String → Type 0
InScope store claims kv = (has_name kv.0 claims.secret_refs ≡ true) × (store kv.0 ≡ some kv.1)

module _ (store : String → Option String) (claims : RunClaims) where
  put-InScope :
      (k v : String) (m : List (String × String))
      → InScope store claims (k, v)
      → All (InScope store claims) m
      → All (InScope store claims) (put k v m)
  unfolding put
  put-InScope k v [] s h = (s, tt)
  put-InScope k v ((j, u) ∷ m) s (h, hs) = elim (Bool-cases (str_eq j k)) [
    | inl e ↦ rw e (s, hs)
    | inr e ↦ rw e (h, put-InScope k v m s hs)
  ]

  fetched-ok :
      (name v : String) (o : Option String) (w : World)
      → (fetched claims.run_id name o w).0 ≡ ok v
      → o ≡ some v
  unfolding fetched raise pure
  fetched-ok name v none w h =
      let (u, r, t) =
        bind-ok (log_secret_event claims.run_id "error" "secret.fetch_error" (error_payload name)) _
          w v h in
      absurd (cc (t))
  fetched-ok name v (some x) w h =
      let (u, r, t) =
        bind-ok (log_secret_event claims.run_id "info" "secret.fetched" (name_payload name true)) _
          w v h in
      cc (t)

  fetch-ok :
      (name v : String) (w : World)
      → (fetch store claims name w).0 ≡ ok v
      → InScope store claims (name, v)
  unfolding fetch raise
  fetch-ok name v w h = elim (Bool-cases (has_name name claims.secret_refs)) [
    | inl e ↦ (e, fetched-ok name v (store name) w (rw e at h))
    | inr e ↦
        let (u, r, t) =
          bind-ok (log_secret_event claims.run_id "warn" "secret.denied" (name_payload name false))
            (λ x. raise forbidden) w v (rw e at h) in
        absurd (cc (t))
  ]

  fetch_all-ok :
      (names : List String) (out m : List (String × String)) (w : World)
      → All (InScope store claims) out
      → (fetch_all store claims names out w).0 ≡ ok m
      → All (InScope store claims) m
  unfolding fetch_all pure
  fetch_all-ok [] out m w a h = let e : out ≡ m = cc (h) in rw e at a
  fetch_all-ok (name ∷ names) out m w a h =
      let (v, r, t) = bind-ok (fetch store claims name) _ w m h in
      fetch_all-ok names (put name v out) m _ (put-InScope name v out (fetch-ok name v w r) a) t

-- An answer of the secrets endpoint holds only names in the scope of the token, each with the value
-- that the secret store has for it.
pub secrets_handler-ok :
    (store : String → Option String) (claims : RunClaims) (names : List String)
    (m : List (String × String)) (w : World)
    → (secrets_handler store claims names w).0 ≡ ok m
    → All (InScope store claims) m
unfolding secrets_handler raise
secrets_handler-ok store claims [] m w h = absurd (cc)
secrets_handler-ok store claims (name ∷ names) m w h =
    elim (Bool-cases (any (str_eq "") (name ∷ names))) [
      | inl e ↦
          let l : ◌≡◌ {A = Outcome Response (List (String × String))} (err bad_request) (ok m) =
            rw e at h in
          absurd (cc (l))
      | inr e ↦ fetch_all-ok store claims (name ∷ names) [] m w tt (rw e at h)
    ]
