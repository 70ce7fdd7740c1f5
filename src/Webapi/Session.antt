-- ===== src/Webapi/Session.antt =====
-- internal/webapi/session.go: the value of the cookie cf_session.
pub mod Verified
use Prim.Native.String.{◌++◌ as str_append}
use Prim.Native.Char.{Char, code}
use cronfoundry.Prelude.{
  ℕ, ◌+◌, ◌/◌, String, Bool, true, false, Option, none, some, ltb, ◌==◌, str_eq, if◌then◌else◌, ℤ,
  pos, negsuc,
}
use cronfoundry.Store.Exec.{Outcome, ok, err}

-- SessionClaims; `exp` is in seconds
pub record SessionClaims : Type 0 where
  pub login : String
  pub role : String
  pub exp : ℤ

-- base64.RawURLEncoding, encoding/json at SessionClaims, and HMAC-SHA256 of a text under a key
pub record Codec : Type 0 where
  pub encode : String → String
  pub decode : String → Option String
  pub marshal : SessionClaims → String
  pub unmarshal : String → Option SessionClaims
  pub mac : String → String → String

pub data SessionError : Type 0 where
  no_key malformed bad_encoding bad_signature bad_payload expired no_random : SessionError

-- a time in microseconds as Unix seconds
abbrev pub unix : ℕ → ℕ
unix t = t / 1000000

abbrev pub is_past : ℕ → ℤ → Bool
is_past t (pos e) = ltb e t
is_past t (negsuc n) = true

abbrev pub keep_before : Char → String × String → String × String
keep_before c (before, after) = (String.◌∷◌ c before, after)

abbrev pub or_here : Char → String → Option (String × String) → Option (String × String)
or_here c s none = if code c == b'.' then some ("", s) else none
or_here c s (some p) = some (keep_before c p)

-- strings.LastIndexByte(cookie, '.'), with what stands before and after
unfoldable pub split_last_dot : String → Option (String × String)
split_last_dot String.[] = none
split_last_dot (String.◌∷◌ c s) = or_here c s (split_last_dot s)

module _ (x : Codec) where
  unfoldable pub signed : String → String → String
  signed key payload =
      let enc = x.encode payload in str_append enc (str_append "." (x.encode (x.mac enc key)))

  -- SignSession, at the time `now`, with a time to live in microseconds
  unfoldable pub sign_session : ℕ → ℕ → String → String → String → Outcome SessionError String
  sign_session now ttl key login role =
      if str_eq key ""
      then err no_key
      else ok (
          signed key
            (x.marshal (record { login = login; role = role; exp = pos (unix (now + ttl)) })))

  abbrev pub check_expiry : ℕ → Option SessionClaims → Outcome SessionError SessionClaims
  check_expiry now none = err bad_payload
  check_expiry now (some c) = if is_past (unix now) c.exp then err expired else ok c

  abbrev pub check_payload : ℕ → Option String → Outcome SessionError SessionClaims
  check_payload now none = err bad_payload
  check_payload now (some payload) = check_expiry now (x.unmarshal payload)

  abbrev pub check_signature :
      ℕ → String → String → Option String → Outcome SessionError SessionClaims
  check_signature now key enc none = err bad_encoding
  check_signature now key enc (some got) =
      if str_eq got (x.mac enc key) then check_payload now (x.decode enc) else err bad_signature

  abbrev pub check_parts :
      ℕ → String → Option (String × String) → Outcome SessionError SessionClaims
  check_parts now key none = err malformed
  check_parts now key (some (enc, sig)) = check_signature now key enc (x.decode sig)

  -- VerifySession
  unfoldable pub verify_session : ℕ → String → String → Outcome SessionError SessionClaims
  verify_session now key cookie =
      if str_eq key "" then err no_key else check_parts now key (split_last_dot cookie)
