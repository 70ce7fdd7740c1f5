-- ===== src/Webapi/Auth/Admitted.antt =====
-- internal/webapi/auth.go and csrf.go: which requests reach a handler.
use cronfoundry.Prelude.{
  ℕ, String, ◌≡◌, ◌⊎◌, refl, Bool, true, false, Option, none, some, arith, Bool-cases, inl, inr,
  str_eq, eq_iff, if◌then◌else◌,
}
use cronfoundry.Store.Rows.{World}
use cronfoundry.Store.Exec.{M, Outcome, ok, err, raise, gets, ◌>>=◌}
use cronfoundry.Webapi.Response.{Fault}
use cronfoundry.Webapi.Session.{SessionClaims, Codec, SessionError, unix, is_past, verify_session}
use cronfoundry.Webapi.Session.Verified.{Authentic, verify-ok}
use cronfoundry.Webapi.Auth.{
  Request, UrlLibrary, is_safe, with_claims, with_cookie, require_session, check_role, require_role,
  token_matches, check_origin, csrf, passes_csrf, group, admin_only,
}

module _ {A : Type 0} (p : Bool) (m : M Fault A) (f : Fault) (w : World) (a : A) where
  -- a guard that was passed
  guard-ok : ((if p then m else raise f) w).0 ≡ ok a → (p ≡ true) × ((m w).0 ≡ ok a)
  unfolding raise
  guard-ok h = elim (Bool-cases p) [
    | inl e ↦ (e, rw e at h)
    | inr e ↦ let k : ◌≡◌ {A = Outcome Fault A} (err f) (ok a) = rw e at h in absurd (cc (k))
  ]

module _ (x : Codec) (key : String) {A : Type 0} (next : SessionClaims → M Fault A) where
  with_claims-ok :
      (o : Outcome SessionError SessionClaims) (w : World) (a : A)
      → (with_claims x key next o w).0 ≡ ok a
      → (c : SessionClaims) × (o ≡ ok c) × ((next c w).0 ≡ ok a)
  unfolding with_claims raise
  with_claims-ok (ok c) w a h = (c, refl, h)
  with_claims-ok (err e) w a h = absurd (cc)

  with_cookie-ok :
      (o : Option String) (w : World) (a : A)
      → (with_cookie x key next o w).0 ≡ ok a
      → (v : String) × (o ≡ some v)
        × (c : SessionClaims) × (verify_session x w.clock key v ≡ ok c)
        × ((next c w).0 ≡ ok a)
  unfolding with_cookie raise gets ◌>>=◌
  with_cookie-ok none w a h = absurd (cc)
  with_cookie-ok (some v) w a h =
      let (c, e, k) = with_claims-ok (verify_session x w.clock key v) w a h in (v, refl, c, e, k)

  pub require_session-ok :
      (r : Request) (w : World) (a : A)
      → (require_session x key next r w).0 ≡ ok a
      → (v : String) × (r.cookie "cf_session" ≡ some v)
        × (c : SessionClaims) × (verify_session x w.clock key v ≡ ok c)
        × ((next c w).0 ≡ ok a)
  unfolding require_session
  require_session-ok r w a h = with_cookie-ok (r.cookie "cf_session") w a h

-- `r` has a session cookie with a signature of the key, of an admin, that has not expired
pub record IsAdminRequest (x : Codec) (key : String) (now : ℕ) (r : Request) (c : SessionClaims)
    : Type 0 where
  pub value : String
  pub present : r.cookie "cf_session" ≡ some value
  pub signed : Authentic x key value c
  pub fresh : is_past (unix now) c.exp ≡ false
  pub admin : c.role ≡ "admin"

-- `r` is safe, or repeats its token and comes from the origin that is asked for, if there is one
abbrev pub IsSameSite : UrlLibrary → String → Request → Type 0
IsSameSite l base r =
    (is_safe r.method ≡ true)
    ⊎ ((token_matches (r.cookie "cf_csrf") (r.header "X-CSRF-Token") ≡ true)
        × ((base ≡ "") ⊎ (check_origin l r base ≡ true)))

passes-IsSameSite :
    (l : UrlLibrary) (base : String) (r : Request)
    → passes_csrf l base r ≡ true
    → IsSameSite l base r
passes-IsSameSite l base r h = elim (Bool-cases (is_safe r.method)) [
  | inl e ↦ inl e
  | inr e ↦ inr (
    ground arith,
    elim (Bool-cases (str_eq base "")) [
      | inl b ↦ inl ((eq_iff base "").0 b)
      | inr b ↦ inr (ground arith)
    ],
  )
]

module _ (x : Codec) (l : UrlLibrary) (key base : String) {A : Type 0}
    (next : SessionClaims → M Fault A) where
  check_role-ok :
      (c : SessionClaims) (w : World) (a : A)
      → (check_role "admin" next c w).0 ≡ ok a
      → (c.role ≡ "admin") × ((next c w).0 ≡ ok a)
  unfolding check_role raise
  check_role-ok c w a h = elim (Bool-cases (str_eq c.role "admin")) [
    | inl e ↦ ((eq_iff c.role "admin").0 e, rw e at h)
    | inr e ↦
        let k : ◌≡◌ {A = Outcome Fault A} (err Fault.forbidden) (ok a) = rw e at h in
        absurd (cc (k))
  ]

  -- A handler behind adminOnly answers only a request that the limiter lets through, that is safe
  -- or passes the double-submit and origin checks, and whose session cookie is signed by the key,
  -- has not expired and says that the role is admin; the handler sees the claims of that cookie.
  pub admin_only-ok :
      (r : Request) (w : World) (a : A)
      → (admin_only x l key base next r w).0 ≡ ok a
      → (r.allowed ≡ true)
        × IsSameSite l base r
        × (c : SessionClaims) × IsAdminRequest x key w.clock r c
        × ((next c w).0 ≡ ok a)
  unfolding admin_only csrf group require_role
  admin_only-ok r w a h =
      let (passed, h₁) = guard-ok (passes_csrf l base r) _ Fault.forbidden w a h in
      let (allowed, h₂) = guard-ok r.allowed _ Fault.too_many_requests w a h₁ in
      let (v, present, c, verified, h₃) =
        require_session-ok x key (check_role "admin" next) r w a h₂ in
      let (signed, fresh) = verify-ok x w.clock key v c verified in
      let (admin, h₄) = check_role-ok c w a h₃ in
      (
        allowed,
        passes-IsSameSite l base r passed,
        c,
        record { value = v; present = present; signed = signed; fresh = fresh; admin = admin },
        h₄,
      )
