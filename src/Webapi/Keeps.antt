-- ===== src/Webapi/Keeps.antt =====
-- internal/webapi: conditions on the tables under the handlers.
use cronfoundry.Prelude.{ℕ, String, Option, none, some, str_eq, head?}
use cronfoundry.Store.Rows.{World}
use cronfoundry.Store.Exec.{Outcome, ok, err}
use cronfoundry.Store.Exec.Keeps.{
  Cond, At, Landed, Keeps, Ensures-bind, Ensures-gets, Ensures-attempt, Keeps-pure, Keeps-raise,
  Keeps-statement, Keeps-if,
}
use cronfoundry.Store.Users.{first_org, with_org, upsert_user_on_login}
use cronfoundry.Webapi.Response.{Fault, Entry, audit_log, log_entry, load_org}
use cronfoundry.Webapi.Session.{SessionClaims, Codec, SessionError, verify_session}
use cronfoundry.Webapi.Auth.{Request}
use cronfoundry.Webapi.Oauth.{
  Github, Random, or_fault, or_internal, resolve_role, signed_in, resolved, exchanged, with_state,
  with_state_cookie, callback,
}

module _ (P : Cond) where
  -- conditions that do not read the audit log
  abbrev pub IgnoresAudit : Type 0
  IgnoresAudit = (e : Entry) → Keeps P (log_entry e)

  pub audit_log-Keeps : IgnoresAudit → (a : String) (e : Entry) → Keeps P (audit_log a e)
  unfolding audit_log
  audit_log-Keeps h a e = Ensures-bind _ _ (Ensures-attempt _ (h _)) λ u. Keeps-pure tt

  with_org-Landed : (o : Option ℕ) (w : World) → At P w → Landed (λ (i : ℕ). P) (with_org w o)
  with_org-Landed none w p = tt
  with_org-Landed (some i) w p = p

  pub load_org-Keeps : Keeps P load_org
  unfolding load_org first_org
  load_org-Keeps = Keeps-statement _ _ (λ w p. with_org-Landed (head? w.orgs) w p)

  or_fault-Keeps : {A : Type 0} (f : Fault) (o : Option A) → Keeps P (or_fault f o)
  or_fault-Keeps f none = Keeps-raise _
  or_fault-Keeps f (some a) = Keeps-pure a

  or_internal-Keeps : {E A : Type 0} (o : Outcome E A) → Keeps P (or_internal o)
  or_internal-Keeps (ok a) = Keeps-pure a
  or_internal-Keeps (err e) = Keeps-raise _

-- the statement that the sign-in makes
abbrev pub KeepsUpserts : (String → String) → Cond → Type 0
KeepsUpserts fold P =
    (o : ℕ) (name role : String) (w : World)
    → At P w
    → Landed (λ u. P) (upsert_user_on_login fold o name role w)

module _ (P : Cond) (x : Codec) (key : String) (fold : String → String) (g : Github)
    (random : Random) (upserts : KeepsUpserts fold P) where
  signed_in-Keeps :
      (org : ℕ) (name role : String) → Keeps P (signed_in x key fold g random org name role)
  unfolding signed_in
  signed_in-Keeps org name role =
      Ensures-bind _ _ (Ensures-attempt _ (Keeps-statement _ _ (upserts org name role))) λ u.
        Ensures-bind _ _ (Ensures-gets _) λ now.
          Ensures-bind _ _ (or_internal-Keeps P _)
            λ session. Ensures-bind _ _ (or_fault-Keeps P _ _) λ token. Keeps-pure _

  resolved-Keeps : (name : String) → Keeps P (resolved x key fold g random name)
  unfolding resolved resolve_role
  resolved-Keeps name = Ensures-bind _ _ (load_org-Keeps P) λ org.
      Ensures-bind _ _ (Keeps-statement _ _ (λ w p. p))
        λ role. Keeps-if (str_eq role "") (Keeps-raise _) (signed_in-Keeps org name role)

  exchanged-Keeps : (code : String) → Keeps P (exchanged x key fold g random code)
  unfolding exchanged
  exchanged-Keeps code =
      Ensures-bind _ _ (or_fault-Keeps P _ _)
        λ token. Ensures-bind _ _ (or_fault-Keeps P _ _) λ name. resolved-Keeps name

  with_state-Keeps :
      (code : String) (o : Outcome SessionError SessionClaims)
      → Keeps P (with_state x key fold g random code o)
  unfolding with_state
  with_state-Keeps code (ok c) = exchanged-Keeps code
  with_state-Keeps code (err e) = Keeps-raise _

  with_state_cookie-Keeps :
      (state code : String) (o : Option String)
      → Keeps P (with_state_cookie x key fold g random state code o)
  unfolding with_state_cookie
  with_state_cookie-Keeps state code none = Keeps-raise _
  with_state_cookie-Keeps state code (some v) =
      Keeps-if (str_eq state v)
        (Ensures-bind _ _ (Ensures-gets _)
          λ now. with_state-Keeps code (verify_session x now key v))
        (Keeps-raise _)

  pub callback-Keeps :
      (state code : String) (r : Request) → Keeps P (callback x key fold g random state code r)
  unfolding callback
  callback-Keeps state code r = with_state_cookie-Keeps state code (r.cookie "oauth_state")
