-- ===== src/Webapi/Webhook.antt =====
-- internal/webapi/webhook.go, and VerifyWebhookSignature of internal/github/webhook.go.
pub mod Triggered
use Prim.Native.String.{◌++◌ as str_append}
use cronfoundry.Prelude.{
  ℕ, String, Bool, true, false, ◌&&◌, ◌||◌, not, Option, none, some, find, ◌==◌, str_eq,
  if◌then◌else◌,
}
use cronfoundry.Store.Rows.{World, RepoRow}
use cronfoundry.Store.Exec.{M, Outcome, ok, err, pure, raise, ◌>>=◌, statement, attempt}
use cronfoundry.Memory.{after_prefix}
use cronfoundry.Webapi.Response.{Fault, load_org}

-- encoding/hex and HMAC-SHA256 of a body under the secret
pub record Signing : Type 0 where
  pub decode_hex : String → Option String
  pub mac : String → String → String

-- github.PushPayload, without `after` and the installation, which nothing reads
pub record PushPayload : Type 0 where
  pub ref : String
  pub owner : String
  pub name : String
  pub default_branch : String

-- What the handler reads of a request: `body` is what ReadAll returns, with the fault that it answers
-- for a body that is too large or cannot be read.
pub record Delivery : Type 0 where
  pub event : String
  pub signature : String
  pub body : Outcome Fault String

-- the answers without an error: 200 and 204
pub data Answer : Type 0 where
  done no_content : Answer

abbrev pub equals_mac : Signing → String → String → Option String → Bool
equals_mac g secret body none = false
equals_mac g secret body (some want) = not (str_eq want "") && str_eq (g.mac secret body) want

abbrev pub has_mac : Signing → String → String → Option String → Bool
has_mac g secret body none = false
has_mac g secret body (some hex) = equals_mac g secret body (g.decode_hex hex)

-- VerifyWebhookSignature
unfoldable pub verify_webhook_signature : Signing → String → String → String → Bool
verify_webhook_signature g secret body sig = has_mac g secret body (after_prefix "sha256=" sig)

abbrev pub is_named : ℕ → String → String → RepoRow → Bool
is_named org owner name c = c.org_id == org && str_eq c.owner owner && str_eq c.name name

-- GetRepoConnectionByOwnerName
unfoldable pub repo_by_owner_name : ℕ → String → String → World → Option RepoRow
repo_by_owner_name org owner name w = find (is_named org owner name) w.repos

-- a push to another branch than the default one, where that is known
abbrev pub is_other_branch : PushPayload → Bool
is_other_branch p =
    not (str_eq p.default_branch "")
    && not (str_eq p.ref (str_append "refs/heads/" p.default_branch))

module _ {E : Type 0} (g : Signing) (parse : String → Option PushPayload) (secret : String)
    (sync_one : ℕ → M E (Unit {0})) where
  unfoldable pub after_sync : Outcome E (Unit {0}) → M Fault Answer
  after_sync (ok u) = pure done
  after_sync (err e) = raise Fault.sync_error

  unfoldable pub sync_connection : Option RepoRow → M Fault Answer
  sync_connection none = pure done
  sync_connection (some c) = do r ← attempt (sync_one c.id); after_sync r

  unfoldable pub sync_pushed : PushPayload → M Fault Answer
  sync_pushed p = do
    org ← load_org
    conn ← statement Fault.internal (λ w. some (repo_by_owner_name org p.owner p.name w, w))
    sync_connection conn

  unfoldable pub handle_payload : Option PushPayload → M Fault Answer
  handle_payload none = raise Fault.bad_request
  handle_payload (some p) =
      if str_eq p.owner "" || str_eq p.name ""
      then raise Fault.bad_request
      else if is_other_branch p
      then pure no_content
      else sync_pushed p

  unfoldable pub handle_body : String → Outcome Fault String → M Fault Answer
  handle_body sig (err f) = raise f
  handle_body sig (ok body) =
      if verify_webhook_signature g secret body sig
      then handle_payload (parse body)
      else raise Fault.unauthorized

  -- ServeHTTP
  unfoldable pub webhook : Delivery → M Fault Answer
  webhook d =
      if str_eq d.event "ping"
      then pure done
      else if not (str_eq d.event "push")
      then pure no_content
      else if str_eq secret ""
      then raise Fault.config
      else handle_body d.signature d.body
