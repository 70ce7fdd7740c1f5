-- ===== src/Webapi/Oauth/SignedIn.antt =====
-- internal/webapi/oauth.go: what the cookies of the sign-in are worth.
use cronfoundry.Prelude.{
  ℕ, ◌+◌, String, ◌≡◌, refl, sym, ap, ◌∙◌, true, false, Option, none, some, arith, Bool-cases, inl,
  inr, str_eq, eq_iff, ltb, head?,
}
use cronfoundry.Store.Rows.{World}
use cronfoundry.Store.Exec.{M, Outcome, ok, err, pure, raise, gets, ◌>>=◌}
use cronfoundry.Store.Exec.Inversion.{bind-ok}
use cronfoundry.Store.Users.{user_role}
use cronfoundry.Webapi.Response.{Fault}
use cronfoundry.Webapi.Response.Loaded.{load_org-ok, read_tables-ok}
use cronfoundry.Webapi.Session.{
  SessionClaims, Codec, SessionError, unix, sign_session, verify_session,
}
use cronfoundry.Webapi.Session.Verified.{Laws, claims_at, verify-sign}
use cronfoundry.Webapi.Auth.{
  Request, with_claims, with_cookie, require_session, check_role, require_role, group, session,
}
use cronfoundry.Webapi.Oauth.{
  Github, Random, SignIn, state_ttl, session_duration, or_fault, or_internal, sign_oauth_state,
  login, role_text, resolve_role, signed_in, resolved, exchanged, exchange_code, fetch_login,
  with_state, with_state_cookie, callback,
}

module _ {A : Type 0} where
  or_internal-ok :
      {E : Type 0} (o : Outcome E A) (w : World) (a : A) → (or_internal o w).0 ≡ ok a → o ≡ ok a
  unfolding pure raise
  or_internal-ok (ok b) w a h = cc (h)
  or_internal-ok (err e) w a h = absurd (cc)

  or_fault-ok :
      (f : Fault) (o : Option A) (w : World) (a : A)
      → (or_fault f o w).0 ≡ ok a
      → (o ≡ some a) × ((or_fault f o w).1 ≡ w)
  unfolding pure raise
  or_fault-ok f none w a h = absurd (cc)
  or_fault-ok f (some b) w a h = (cc (h), refl)

module _ (x : Codec) (laws : Laws x) (key : String) where
  state-signed :
      (now : ℕ) (o : Option String) (state : String)
      → sign_oauth_state x key now o ≡ ok state
      → (nonce : String) × (o ≡ some nonce)
        × (sign_session x now state_ttl key nonce "state" ≡ ok state)
  unfolding sign_oauth_state
  state-signed now none state h = absurd (cc)
  state-signed now (some nonce) state h = (nonce, refl, h)

  -- The value that the login endpoint hands out to anyone as the OAuth state is a session: sent as
  -- cf_session while it lasts, it reaches every handler that asks only for a session, with the role
  -- `state`, and is refused as forbidden where the role must be admin.
  pub login-session :
      {A : Type 0} (random : Random) (w later : World) (state : String)
      (next : SessionClaims → M Fault A) (r : Request)
      → (login x key random w).0 ≡ ok state
      → r.cookie "cf_session" ≡ some state
      → r.allowed ≡ true
      → ltb (unix (w.clock + state_ttl)) (unix later.clock) ≡ false
      → (nonce : String) × (random.nonce ≡ some nonce)
        × (session x key next r later ≡ next (claims_at w.clock state_ttl nonce "state") later)
        × (require_role x key "admin" next r later ≡ (err Fault.forbidden, later))
  unfolding login gets ◌>>=◌ session group require_role require_session with_cookie with_claims
      check_role raise
  login-session random w later state next r h cookie allowed lasts =
      let (nonce, drawn, signs) =
        state-signed w.clock random.nonce state
          (or_internal-ok (sign_oauth_state x key w.clock random.nonce) w state h) in
      let claims = claims_at w.clock state_ttl nonce "state" in
      let verifies : verify_session x later.clock key state ≡ ok claims =
        rw lasts at
          (verify-sign x laws w.clock state_ttl later.clock key nonce "state" state signs) in
      (nonce, drawn, rw (allowed, cookie, verifies) refl, rw (cookie, verifies) refl)

module _ (x : Codec) (laws : Laws x) (key : String) (fold : String → String) (g : Github)
    (random : Random) where
  -- what signed_in returns, with the time at which it signs
  signed_in-ok :
      (org : ℕ) (name role : String) (w : World) (s : SignIn)
      → (signed_in x key fold g random org name role w).0 ≡ ok s
      → (t : ℕ) × (sign_session x t session_duration key name role ≡ ok s.cf_session)
        × (random.csrf_token ≡ some s.cf_csrf)
  unfolding signed_in pure
  signed_in-ok org name role w s h =
      let (u, e₀, h₁) = bind-ok _ _ w s h in
      let (t, e₁, h₂) = bind-ok _ _ _ s h₁ in
      let (session, e₂, h₃) = bind-ok _ _ _ s h₂ in
      let (token, e₃, h₄) = bind-ok _ _ _ s h₃ in
      let made : ◌≡◌ {A = Outcome Fault SignIn}
          (ok (record { cf_session = session; cf_csrf = token })) (ok s) =
        h₄ in
      let same : record { cf_session = session; cf_csrf = token } ≡ s = cc (made) in
      (
        t,
        or_internal-ok _ _ session e₂ ∙ ap (λ c. ok c.cf_session) same,
        (or_fault-ok Fault.internal random.csrf_token _ token e₃).0 ∙ ap (λ c. some c.cf_csrf) same,
      )

  -- the user of a login at a state of the tables
  abbrev pub HasRole : String → String → World → Type 0
  HasRole name role w =
      (org : ℕ) × (head? w.orgs ≡ some org) × (user_role fold org name w.users ≡ some role)

  role_text-some :
      (o : Option String) (role : String)
      → role ≡ role_text o
      → str_eq role "" ≡ false
      → o ≡ some role
  role_text-some none role e h = absurd (ground (arith, eq_iff role ""))
  role_text-some (some r) role e h = ap some (sym e)

  resolved-ok :
      (name : String) (w : World) (s : SignIn)
      → (resolved x key fold g random name w).0 ≡ ok s
      → (role : String) × HasRole name role w
        × (t : ℕ) × (sign_session x t session_duration key name role ≡ ok s.cf_session)
        × (random.csrf_token ≡ some s.cf_csrf)
  unfolding resolved resolve_role raise
  resolved-ok name w s h =
      let (org, e₀, h₁) = bind-ok _ _ w s h in
      let (o, same) = load_org-ok w org e₀ in
      let (role, e₁, h₂) = bind-ok _ _ _ s h₁ in
      let (r, _) = read_tables-ok (λ t. role_text (user_role fold org name t.users)) _ role e₁ in
      let there : role ≡ role_text (user_role fold org name w.users) =
        r ∙ ap (λ t. role_text (user_role fold org name t.users)) same in
      elim (Bool-cases (str_eq role "")) [
        | inl e ↦
            let k : ◌≡◌ {A = Outcome Fault SignIn} (err Fault.forbidden) (ok s) = rw e at h₂ in
            absurd (cc (k))
        | inr e ↦
            let (t, signs, token) = signed_in-ok org name role _ s (rw e at h₂) in
            (role, (org, o, role_text-some _ role there e), t, signs, token)
      ]

  -- the sign-in of a user that GitHub names, and the cookies that it is worth
  abbrev pub Granted : String → World → SignIn → Type 0
  Granted code w s =
      (token : String) × (exchange_code g code ≡ some token)
      × (name : String) × (fetch_login g token ≡ some name)
      × (role : String) × HasRole name role w
      × (t : ℕ) × (verify_session x t key s.cf_session
          ≡ ok (claims_at t session_duration name role))
      × (random.csrf_token ≡ some s.cf_csrf)

  verifies_now :
      (t : ℕ) (name role cookie : String)
      → sign_session x t session_duration key name role ≡ ok cookie
      → verify_session x t key cookie ≡ ok (claims_at t session_duration name role)
  verifies_now t name role cookie h =
      let fresh : ltb (unix (t + session_duration)) (unix t) ≡ false = ground arith in
      rw fresh at (verify-sign x laws t session_duration t key name role cookie h)

  exchanged-ok :
      (code : String) (w : World) (s : SignIn)
      → (exchanged x key fold g random code w).0 ≡ ok s
      → Granted code w s
  unfolding exchanged
  exchanged-ok code w s h =
      let (token, e₀, h₁) = bind-ok _ _ w s h in
      let (t, same) = or_fault-ok Fault.gateway (exchange_code g code) w token e₀ in
      let (name, e₁, h₂) = bind-ok _ _ _ s h₁ in
      let (n, same') = or_fault-ok Fault.gateway (fetch_login g token) _ name e₁ in
      let k : (resolved x key fold g random name w).0 ≡ ok s =
        ap (λ v. (resolved x key fold g random name v).0) (sym (same' ∙ same)) ∙ h₂ in
      let (role, there, at, signs, csrf) = resolved-ok name w s k in
      (token, t, name, n, role, there, at, verifies_now at name role s.cf_session signs, csrf)

  with_state-ok :
      (code : String) (o : Outcome SessionError SessionClaims) (w : World) (s : SignIn)
      → (with_state x key fold g random code o w).0 ≡ ok s
      → (c : SessionClaims) × (o ≡ ok c) × Granted code w s
  unfolding with_state raise
  with_state-ok code (err e) w s h = absurd (cc)
  with_state-ok code (ok c) w s h = (c, refl, exchanged-ok code w s h)

  with_state_cookie-ok :
      (state code : String) (o : Option String) (w : World) (s : SignIn)
      → (with_state_cookie x key fold g random state code o w).0 ≡ ok s
      → (o ≡ some state)
        × (c : SessionClaims) × (verify_session x w.clock key state ≡ ok c)
        × Granted code w s
  unfolding with_state_cookie raise gets ◌>>=◌
  with_state_cookie-ok state code none w s h = absurd (cc)
  with_state_cookie-ok state code (some v) w s h = elim (Bool-cases (str_eq state v)) [
    | inl e ↦
        let same : state ≡ v = (eq_iff state v).0 e in
        let (c, verified, granted) =
          with_state-ok code (verify_session x w.clock key v) w s (rw e at h) in
        (ap some (sym same), c, rw same verified, granted)
    | inr e ↦
        let k : ◌≡◌ {A = Outcome Fault SignIn} (err Fault.bad_request) (ok s) = rw e at h in
        absurd (cc (k))
  ]

  -- A callback that signs somebody in had the state of its query in a cookie, signed by the key and
  -- not expired; GitHub exchanged its code for a token and named a login for it; a user of that
  -- login is there; and the session that is set verifies as that login with the role of that user.
  pub callback-ok :
      (state code : String) (r : Request) (w : World) (s : SignIn)
      → (callback x key fold g random state code r w).0 ≡ ok s
      → (r.cookie "oauth_state" ≡ some state)
        × (c : SessionClaims) × (verify_session x w.clock key state ≡ ok c)
        × Granted code w s
  unfolding callback
  callback-ok state code r w s h = with_state_cookie-ok state code (r.cookie "oauth_state") w s h
