-- ===== src/Webapi/Session/Verified.antt =====
-- internal/webapi/session.go: what signing and verification do to each other.
use Prim.Native.Char.{code}
use Prim.Native.String.{◌++◌ as str_append}
use cronfoundry.Prelude.{
  ℕ, ◌+◌, ◌≡◌, refl, ap, ◌∙◌, String, false, Option, none, some, Bool-cases, inl, inr, ◌==◌, str_eq,
  eq_iff, if◌then◌else◌, ltb, pos,
}
use text.Mathlib.TextLemmas.{nil-append, cons-append}
use cronfoundry.Store.Exec.{Outcome, ok, err}
use cronfoundry.Webapi.Session.{
  SessionClaims, Codec, SessionError, no_key, bad_signature, expired, unix, is_past, split_last_dot,
  signed, sign_session, check_expiry, check_payload, check_signature, check_parts, verify_session,
}

abbrev pub HasNoDot : String → Type 0
HasNoDot String.[] = Unit
HasNoDot (String.◌∷◌ c s) = ((code c == b'.') ≡ false) × HasNoDot s

-- what the libraries promise: decoding undoes encoding, and the alphabet of base64 has no dot
pub record Laws (x : Codec) : Type 0 where
  pub decode-encode : (s : String) → x.decode (x.encode s) ≡ some s
  pub unmarshal-marshal : (c : SessionClaims) → x.unmarshal (x.marshal c) ≡ some c
  pub encode-HasNoDot : (s : String) → HasNoDot (x.encode s)

split-HasNoDot : (s : String) → HasNoDot s → split_last_dot s ≡ none
unfolding split_last_dot
split-HasNoDot String.[] h = refl
split-HasNoDot (String.◌∷◌ c s) (d, h) = rw (split-HasNoDot s h, d) refl

split-dot :
    (enc sig : String)
    → HasNoDot sig
    → split_last_dot (str_append enc (str_append "." sig)) ≡ some (enc, sig)
unfolding split_last_dot
split-dot String.[] sig h =
    rw
      (
        nil-append (str_append "." sig),
        cons-append "." "" sig,
        nil-append sig,
        split-HasNoDot sig h,
      )
      refl
split-dot (String.◌∷◌ c s) sig h = rw (cons-append c s (str_append "." sig), split-dot s sig h) refl

-- The claims that a signed session carries.
abbrev pub claims_at : ℕ → ℕ → String → String → SessionClaims
claims_at now ttl login role = record { login = login; role = role; exp = pos (unix (now + ttl)) }

module _ (x : Codec) where
  -- A session verifies under the key that signed it, with the login and the role that were signed,
  -- up to the second in which its time to live ends, and is reported as expired after that.
  pub verify-sign :
      (laws : Laws x) (now ttl later : ℕ) (key login role cookie : String)
      → sign_session x now ttl key login role ≡ ok cookie
      → verify_session x later key cookie ≡ (
          if ltb (unix (now + ttl)) (unix later)
          then err expired
          else ok (claims_at now ttl login role))
  unfolding sign_session verify_session signed
  verify-sign laws now ttl later key login role cookie h = elim (Bool-cases (str_eq key "")) [
    | inl e ↦
        let k : ◌≡◌ {A = Outcome SessionError String} (err no_key) (ok cookie) = rw e at h in
        absurd (cc (k))
    | inr e ↦
        let payload = x.marshal (claims_at now ttl login role) in
        let k : ◌≡◌ {A = Outcome SessionError String} (ok (signed x key payload)) (ok cookie) =
          rw e at h in
        let c : signed x key payload ≡ cookie = cc (k) in
        let enc = x.encode payload in
        rw
          (
            ← c,
            e,
            split-dot enc (x.encode (x.mac enc key)) (laws.encode-HasNoDot _),
            laws.decode-encode (x.mac enc key),
            (eq_iff (x.mac enc key) (x.mac enc key)).1 refl,
            laws.decode-encode payload,
            laws.unmarshal-marshal (claims_at now ttl login role),
          )
          refl
  ]

  -- a text with a signature of the key, whose payload reads as the claims
  pub record Authentic (key cookie : String) (c : SessionClaims) : Type 0 where
    pub enc : String
    pub sig : String
    pub payload : String
    pub parts : split_last_dot cookie ≡ some (enc, sig)
    pub by_key : x.decode sig ≡ some (x.mac enc key)
    pub content : x.decode enc ≡ some payload
    pub reads : x.unmarshal payload ≡ some c

  expiry-ok :
      (now : ℕ) (o : Option SessionClaims) (c : SessionClaims)
      → check_expiry x now o ≡ ok c
      → (o ≡ some c) × (is_past (unix now) c.exp ≡ false)
  expiry-ok now none c h = absurd (cc)
  expiry-ok now (some d) c h = elim (Bool-cases (is_past (unix now) d.exp)) [
    | inl e ↦
        let k : ◌≡◌ {A = Outcome SessionError SessionClaims} (err expired) (ok c) = rw e at h in
        absurd (cc (k))
    | inr e ↦
        let k : ◌≡◌ {A = Outcome SessionError SessionClaims} (ok d) (ok c) = rw e at h in
        let same : d ≡ c = cc (k) in (ap some same, rw (← same) e)
  ]

  payload-ok :
      (now : ℕ) (o : Option String) (c : SessionClaims)
      → check_payload x now o ≡ ok c
      → (p : String) × (o ≡ some p) × (x.unmarshal p ≡ some c) × (is_past (unix now) c.exp ≡ false)
  payload-ok now none c h = absurd (cc)
  payload-ok now (some p) c h = let (e, f) = expiry-ok now (x.unmarshal p) c h in (p, refl, e, f)

  module _ (now : ℕ) (key cookie enc sig : String) (c : SessionClaims)
      (parts : split_last_dot cookie ≡ some (enc, sig)) where
    signature-ok :
        (o : Option String)
        → x.decode sig ≡ o
        → check_signature x now key enc o ≡ ok c
        → Authentic key cookie c × (is_past (unix now) c.exp ≡ false)
    signature-ok none d h = absurd (cc)
    signature-ok (some got) d h = elim (Bool-cases (str_eq got (x.mac enc key))) [
      | inr e ↦
          let k : ◌≡◌ {A = Outcome SessionError SessionClaims} (err bad_signature) (ok c) =
            rw e at h in
          absurd (cc (k))
      | inl e ↦
          let (p, content, reads, fresh) = payload-ok now (x.decode enc) c (rw e at h) in
          (
            record {
              enc = enc;
              sig = sig;
              payload = p;
              parts = parts;
              by_key = d ∙ ap some ((eq_iff got (x.mac enc key)).0 e);
              content = content;
              reads = reads;
            },
            fresh,
          )
    ]

  parts-ok :
      (now : ℕ) (key cookie : String) (c : SessionClaims) (o : Option (String × String))
      → split_last_dot cookie ≡ o
      → check_parts x now key o ≡ ok c
      → Authentic key cookie c × (is_past (unix now) c.exp ≡ false)
  parts-ok now key cookie c none e h = absurd (cc)
  parts-ok now key cookie c (some (enc, sig)) e h =
      signature-ok now key cookie enc sig c e (x.decode sig) refl h

  -- A session that verifies is signed by the key, reads as the claims, and has not expired.
  pub verify-ok :
      (now : ℕ) (key cookie : String) (c : SessionClaims)
      → verify_session x now key cookie ≡ ok c
      → Authentic key cookie c × (is_past (unix now) c.exp ≡ false)
  unfolding verify_session
  verify-ok now key cookie c h = elim (Bool-cases (str_eq key "")) [
    | inl e ↦
        let k : ◌≡◌ {A = Outcome SessionError SessionClaims} (err no_key) (ok c) = rw e at h in
        absurd (cc (k))
    | inr e ↦ parts-ok now key cookie c (split_last_dot cookie) refl (rw e at h)
  ]
