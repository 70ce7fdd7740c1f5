-- ===== src/Command/Client.antt =====
-- cmd/cronfoundry/runner.go: what the subcommand calls and keeps, and the actions that it is made of.
-- The API is reached over HTTP, which is the outside world; the temporary directory and the clone are
-- of it too.
use Prim.Native.String.{◌++◌ as ◌+++◌}
use cronfoundry.Prelude.{
  ℤ, pos, String, Bool, Option, none, some, List, [], ◌∷◌, map, ◌⊎◌, str_eq, if◌then◌else◌,
}
use cronfoundry.Config.Json.{Json}
use cronfoundry.Config.SecretRefs.{collect_secret_refs}
use cronfoundry.Config.Manifest.{EnvMap}
use cronfoundry.Config.Skill.{McpServer}
use cronfoundry.Store.Exec.{Outcome, ok, err}
use cronfoundry.Api.Finalize.{FinalizeBody}
use cronfoundry.Publish.{Result}
use cronfoundry.Runner.Cost.{lookup}
use cronfoundry.Runner.Session.{Cause}
use cronfoundry.Command.Delivery.{Parsers}

-- runContext, without what the subcommand does not read
pub record RunContext : Type 0 where
  pub schedule_name : String
  pub skill_path : String
  pub skill_sha : String
  pub repo_id : String
  pub provider : String
  pub llm_secret_ref : Option String
  pub llm_endpoint : Option String
  pub llm_deployment : Option String
  pub destinations : Json
  pub env : Json
  pub frontmatter : Option Json
  pub mcp_env : Option Json
  pub max_turns : Option ℤ
  pub secret_manifest : List String

-- event, by its type and level
pub record Event : Type 0 where
  pub kind : String
  pub level : String

-- The calls of apiClient, with the decoding of the answers, and the rest of the outside world. An
-- error is its text.
pub record Api (W : Type 0) : Type 0 where
  pub get_run_context : String → W → (String ⊎ RunContext) × W
  pub get_secrets : List String → W → (String ⊎ List (String × String)) × W
  pub get_copilot_token : String → W → (String ⊎ String) × W
  pub get_clone_url : String → W → (String ⊎ String) × W
  pub post_events : String → List Event → W → W
  pub post_finalize : String → FinalizeBody → W → Bool × W
  pub make_temp_dir : W → (String ⊎ String) × W
  pub remove_all : String → W → W
  pub clone_at : String → String → String → W → Option String × W
  pub redact_url : String → String
  pub decode_servers : Json → Option (List McpServer)
  pub decode_mcp_env : Json → Option (List (String × EnvMap))
  pub to_upper : String → String
  pub show_cause : Cause → String
  pub github_token : String
  pub parsers : Parsers

-- what was posted, in order, and the directory to remove
pub record Client (W : Type 0) : Type 0 where
  pub world : W
  pub reports : List FinalizeBody
  pub posted : List Event
  pub temp_dir : Option String

-- an action of the subcommand; an error is its kind
abbrev pub Command : Type 0 → Type 0 → Type 0
Command W A = Client W → Outcome String A × Client W

module _ {W A : Type 0} where
  unfoldable pub pure : A → Command W A
  pure a c = (ok a, c)

  abbrev pub answered : Client W → A × W → Outcome String A × Client W
  answered c (a, w) = (ok a, record c { world = w })

  unfoldable pub call : (W → A × W) → Command W A
  call f c = answered c (f c.world)

module _ {W A B : Type 0} where
  abbrev pub continue :
      Outcome String A × Client W → (A → Command W B) → Outcome String B × Client W
  continue (ok a, c) f = f a c
  continue (err e, c) f = (err e, c)

  infixl 10 ◌>>=◌ ◌>>◌
  unfoldable pub ◌>>=◌ : Command W A → (A → Command W B) → Command W B
  ◌>>=◌ m f c = continue (m c) f

  abbrev pub ◌>>◌ : Command W A → Command W B → Command W B
  m >> n = m >>= λ _. n

abbrev pub event : String → String → Event
event kind level = record { kind = kind; level = level }

abbrev pub publish_event : Result → Event
publish_event r =
    if r.is_ok
    then event ("publish." +++ r.kind +++ ".ok") "info"
    else event ("publish." +++ r.kind +++ ".fail") "error"

abbrev pub end_event : Option String → Event
end_event none = event "runner.finish" "info"
end_event (some e) = event "runner.error" "error"

-- the events of the publish results, on the path without an error
abbrev pub publish_events : Option String → List Result → List Event
publish_events none rs = map publish_event rs
publish_events (some e) rs = []

abbrev pub or_blank : Option String → String
or_blank none = ""
or_blank (some s) = s

abbrev pub first_key : Option String → List (String × String) → String
first_key none secrets = ""
first_key (some ref) secrets = if str_eq ref "" then "" else or_blank (lookup ref secrets)

abbrev pub documents : Option Json → List Json
documents none = []
documents (some j) = j ∷ []

abbrev pub wanted_secrets : RunContext → List String → List String
wanted_secrets c [] =
    collect_secret_refs c.destinations c.env c.llm_secret_ref (documents c.mcp_env)
wanted_secrets c (n ∷ ns) = n ∷ ns

abbrev pub turns_or_zero : Option ℤ → ℤ
turns_or_zero none = pos 0
turns_or_zero (some n) = n
