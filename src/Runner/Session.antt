-- ===== src/Runner/Session.antt =====
-- internal/runner/runner.go: what a run calls, the events that it emits, and code that may stop with a
-- failure. The outside world is of any type `W`: the files, the model provider, the MCP servers, the
-- publishers and the repository read and change it, and so does the clock.
use Prim.Native.String.{◌++◌ as ◌+++◌}
use cronfoundry.Prelude.{ℤ, ℕ, ◌+◌, String, Bool, true, Option, none, List, [], ◌∷◌, ◌++◌, ◌⊎◌}
use cronfoundry.Store.Exec.{Outcome, ok, err}
use cronfoundry.Runner.Cost.{Usage}
use cronfoundry.Config.Manifest.{Manifest, Url, ConfigError}
use cronfoundry.Config.Skill.{Frontmatter, SkillError}
use cronfoundry.Config.Include.{Files, IncludeError}
use cronfoundry.Publish.{Publisher, Result}

-- llm.ToolUse
pub record ToolUse : Type 0 where
  pub id : String
  pub name : String
  pub input : String

pub data Role : Type 0 where
  system user assistant tool : Role

-- llm.Message
pub record Message : Type 0 where
  pub role : Role
  pub content : String
  pub tool_uses : List ToolUse
  pub tool_use_id : String

-- llm.CallOptions
pub record CallOptions : Type 0 where
  pub model : String
  pub max_tokens : ℤ
  pub api_key : String
  pub endpoint : String
  pub deployment : String

-- llm.ToolDef
pub record ToolDef : Type 0 where
  pub name : String
  pub description : String
  pub input_schema : String

-- llm.TurnResult
pub record TurnResult : Type 0 where
  pub text : String
  pub tool_uses : List ToolUse
  pub usage : Usage

-- mcp.Tool, mcp.ToolUse, mcp.CallResult and mcp.FatalError
pub record McpTool : Type 0 where
  pub name : String
  pub description : String
  pub input_schema : String

pub record McpCall : Type 0 where
  pub id : String
  pub name : String
  pub input : String

pub record CallResult : Type 0 where
  pub id : String
  pub result_json : String
  pub is_error : Bool
  pub duration_ms : ℕ

pub record FatalError : Type 0 where
  pub kind : String
  pub message : String

-- RunEvent, by its type and what its payload has
pub data RunEvent : Type 0 where
  phase_enter : String → Option String → RunEvent
  server_start_ok : String → ℕ → RunEvent
  turn_start : ℕ → RunEvent
  tool_call_ok tool_call_fail : String → ℕ → RunEvent
  mcp_fatal : String → String → RunEvent

abbrev pub event_type : RunEvent → String
event_type (phase_enter phase prev) = "phase.enter"
event_type (server_start_ok server count) = "mcp.server.start.ok"
event_type (turn_start turn) = "mcp.turn.start"
event_type (tool_call_ok name ms) = "mcp.tool.call.ok"
event_type (tool_call_fail name ms) = "mcp.tool.call.fail"
event_type (mcp_fatal kind message) = "mcp.fatal." +++ kind

-- llm.Provider. Chat gives the pieces that it streams; ChatTurn is there if the provider can use
-- tools.
pub record Provider (W : Type 0) : Type 0 where
  pub chat : List Message → CallOptions → W → (String ⊎ (Usage × List String)) × W
  pub chat_turn : Option (List Message → List ToolDef → CallOptions → W → (String ⊎ TurnResult) × W)

-- mcpManager
pub record McpManager (W : Type 0) : Type 0 where
  pub start : String → String → List String → List String → W → Option String × W
  pub tools : String → W → List McpTool
  pub dispatch_all : List McpCall → W → (FatalError ⊎ List CallResult) × W
  pub shutdown : W → W

-- writeback.Options without the author, which is constant
pub record Commit : Type 0 where
  pub path : String
  pub mode : String
  pub content : String
  pub message : String

-- template.Context
pub record Context : Type 0 where
  pub output : String
  pub run_id : String
  pub started_at : ℕ
  pub schedule : String
  pub skill : String

-- Deps, and the packages that Run calls. `order` is the order in which the goroutines of a dispatch
-- run, and `local_id` makes an id from the time of the start.
pub record Deps (W : Type 0) : Type 0 where
  pub files : Files W
  pub parse_manifest : String → Option Manifest
  pub parse_url : String → Option Url
  pub yaml : String → Option Frontmatter
  pub provider : String → Option (Provider W)
  pub mcp : McpManager W
  pub publishers : Context → String → Option (Publisher W)
  pub order : List ℕ
  pub now : W → ℕ × W
  pub local_id : ℕ → String
  pub commit : String → Commit → W → (String ⊎ String) × W
  pub push : String → String → String → W → Bool × W

-- the errors of a run, without their texts
pub data Cause : Type 0 where
  manifest_unread manifest_unparsed schedule_missing skill_unread provider_unknown : Cause
  tools_unsupported env_unresolved turns_exceeded : Cause
  manifest_invalid : ConfigError → Cause
  skill_invalid : SkillError → Cause
  include_failed : IncludeError → Cause
  chat_failed server_not_started turn_failed mcp_failed : String → Cause

-- what stops a run, with the ErrorKind, "" where there is none
pub record Failure : Type 0 where
  pub kind : String
  pub cause : Cause

abbrev pub sum_usage : Usage → Usage → Usage
sum_usage u v = record {
  input_tokens = u.input_tokens + v.input_tokens;
  output_tokens = u.output_tokens + v.output_tokens;
}

-- the fields of `result` that Run assigns on its way, apart from the usage
pub record Filled : Type 0 where
  pub cost_cents : ℕ
  pub output : String
  pub memory_content : String
  pub publish_results : List Result
  pub writeback_sha : String

-- what they are before: the zero values
abbrev pub blank : Filled
blank = record {
  cost_cents = 0;
  output = "";
  memory_content = "";
  publish_results = [];
  writeback_sha = "";
}

-- the state of a run: `active` is the phase that was entered last, and
-- `managed` says that there is an MCP manager to shut down
pub record Session (W : Type 0) : Type 0 where
  pub world : W
  pub events : List RunEvent
  pub active : String
  pub usage : Usage
  pub managed : Bool
  pub filled : Filled

abbrev pub Job : Type 0 → Type 0 → Type 0
Job W A = Session W → Outcome Failure A × Session W

module _ {W A : Type 0} where
  unfoldable pub pure : A → Job W A
  pure a s = (ok a, s)

  unfoldable pub fail : String → Cause → Job W A
  fail kind cause s = (err (record { kind = kind; cause = cause }), s)

  -- a call of the outside world
  abbrev pub answered : Session W → A × W → Outcome Failure A × Session W
  answered s (a, w) = (ok a, record s { world = w })

  unfoldable pub call : (W → A × W) → Job W A
  call f s = answered s (f s.world)

module _ {W A B : Type 0} where
  abbrev pub continue :
      Outcome Failure A × Session W → (A → Job W B) → Outcome Failure B × Session W
  continue (ok a, s) f = f a s
  continue (err e, s) f = (err e, s)

  infixl 10 ◌>>=◌ ◌>>◌
  unfoldable pub ◌>>=◌ : Job W A → (A → Job W B) → Job W B
  ◌>>=◌ m f s = continue (m s) f

  abbrev pub ◌>>◌ : Job W A → Job W B → Job W B
  m >> n = m >>= λ _. n

module _ {W : Type 0} where
  unfoldable pub emit : RunEvent → Job W (Unit {0})
  emit e s = (ok tt, record s { events = s.events ++ (e ∷ []) })

  -- the closure `enter`
  unfoldable pub enter : String → Job W (Unit {0})
  enter phase s =
      (ok tt, record s { events = s.events ++ (phase_enter phase none ∷ []); active = phase })

  unfoldable pub set_managed : Job W (Unit {0})
  set_managed s = (ok tt, record s { managed = true })

  unfoldable pub used : Job W Usage
  used s = (ok s.usage, s)

  unfoldable pub assign : (Filled → Filled) → Job W (Unit {0})
  assign f s = (ok tt, record s { filled = f s.filled })

  unfoldable pub set_usage : Usage → Job W (Unit {0})
  set_usage u s = (ok tt, record s { usage = u })

  unfoldable pub add_usage : Usage → Job W (Unit {0})
  add_usage u s = (ok tt, record s { usage = sum_usage s.usage u })
