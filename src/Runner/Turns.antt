-- ===== src/Runner/Turns.antt =====
-- internal/runner/runner.go: the MCP servers, and the loop over the turns of a model that uses tools.
use Prim.Native.String.{◌++◌ as ◌+++◌}
use cronfoundry.Prelude.{
  ℕ, zero, suc, length, ℤ, pos, negsuc, String, Option, none, some, List, [], ◌∷◌, ◌++◌, map, ◌⊎◌,
  inl, inr, str_eq, if◌then◌else◌,
}
use cronfoundry.Config.Manifest.{EnvMap, EnvValue}
use cronfoundry.Config.Skill.{McpServer}
use cronfoundry.Runner.Cost.{lookup}
use cronfoundry.Runner.Session.{
  Job, pure, fail, call, ◌>>=◌, ◌>>◌, emit, add_usage, ToolUse, Message, assistant, tool, ToolDef,
  TurnResult, McpTool, McpCall, CallResult, FatalError, RunEvent, Cause, server_not_started,
  env_unresolved, mcp_failed, turn_failed, server_start_ok, turn_start, tool_call_ok,
  tool_call_fail, mcp_fatal, McpManager,
}

abbrev pub default_max_turns : ℕ
default_max_turns = 20

abbrev pub positive_or : ℕ → ℤ → ℕ
positive_or other (pos zero) = other
positive_or other (pos (suc n)) = suc n
positive_or other (negsuc n) = other

-- resolveMaxTurns
unfoldable pub resolve_max_turns : ℤ → ℤ → ℕ
resolve_max_turns from_schedule from_skill =
    positive_or (positive_or default_max_turns from_skill) from_schedule

abbrev pub env_of : String → List (String × EnvMap) → EnvMap
env_of name mcp_env = elim (lookup name mcp_env) [ none ↦ [] | some env ↦ env ]

-- one `key=value`; `none` is a secret that is not set
abbrev pub env_value : Option (String → Option String) → EnvValue → Option String
env_value none v = some v.literal
env_value (some get) v = if str_eq v.secret "" then some v.literal else get v.secret

abbrev pub push_pair : String → Option String → Option (List String) → Option (List String)
push_pair k none rest = none
push_pair k (some v) none = none
push_pair k (some v) (some pairs) = some ((k +++ "=" +++ v) ∷ pairs)

-- the loop of resolveServerEnv
unfoldable pub resolve_env : Option (String → Option String) → EnvMap → Option (List String)
resolve_env get [] = some []
resolve_env get ((k, v) ∷ rest) = push_pair k (env_value get v) (resolve_env get rest)

-- resolveServerEnv
unfoldable pub resolve_server_env :
    String → List (String × EnvMap) → Option (String → Option String) → Option (List String)
resolve_server_env name mcp_env get = resolve_env get (env_of name mcp_env)

-- toMCPCalls
unfoldable pub to_mcp_calls : List ToolUse → List McpCall
to_mcp_calls [] = []
to_mcp_calls (t ∷ ts) = record { id = t.id; name = t.name; input = t.input } ∷ to_mcp_calls ts

-- callName: the last call with an id decides, so the last call stands first
abbrev pub call_names : List (String × String) → List McpCall → List (String × String)
call_names acc [] = acc
call_names acc (c ∷ cs) = call_names ((c.id, c.name) ∷ acc) cs

abbrev pub name_or_empty : Option String → String
name_or_empty none = ""
name_or_empty (some n) = n

unfoldable pub call_name : List McpCall → String → String
call_name calls id = name_or_empty (lookup id (call_names [] calls))

abbrev pub tool_event : List McpCall → CallResult → RunEvent
tool_event calls r =
    if r.is_error
    then tool_call_fail (call_name calls r.id) r.duration_ms
    else tool_call_ok (call_name calls r.id) r.duration_ms

abbrev pub tool_message : CallResult → Message
tool_message r = record { role = tool; content = r.result_json; tool_uses = []; tool_use_id = r.id }

abbrev pub assistant_message : TurnResult → Message
assistant_message t = record {
  role = assistant;
  content = t.text;
  tool_uses = t.tool_uses;
  tool_use_id = "";
}

abbrev pub read : {W A : Type 0} → (W → A) → W → A × W
read f w = (f w, w)

abbrev pub tool_def : String → McpTool → ToolDef
tool_def server t = record {
  name = server +++ "__" +++ t.name;
  description = t.description;
  input_schema = t.input_schema;
}

abbrev pub ChatTurn : Type 0 → Type 0
ChatTurn W = List Message → W → (String ⊎ TurnResult) × W

module _ {W : Type 0} where
  -- an error that stops the run under a kind
  unfoldable pub or_fail : {E A : Type 0} → String → (E → Cause) → E ⊎ A → Job W A
  or_fail kind cause (inl e) = fail kind (cause e)
  or_fail kind cause (inr a) = pure a

  unfoldable pub started : Option String → Job W (Unit {0})
  started none = pure tt
  started (some message) = fail "mcp_server_start_failed" (server_not_started message)

  unfoldable pub resolved : Option (List String) → Job W (List String)
  resolved none = fail "mcp_env_resolve" env_unresolved
  resolved (some env) = pure env

  -- the loop that starts the servers
  unfoldable pub start_servers :
      McpManager W
      → Option (String → Option String)
      → List (String × EnvMap)
      → List McpServer
      → Job W (Unit {0})
  start_servers mgr get mcp_env [] = pure tt
  start_servers mgr get mcp_env (s ∷ ss) = do
    env ← resolved (resolve_server_env s.name mcp_env get)
    answer ← call (mgr.start s.name s.command s.args env)
    started answer
    tools ← call (read (mgr.tools s.name))
    emit (server_start_ok s.name (length tools))
    start_servers mgr get mcp_env ss

  -- the tools of all servers
  unfoldable pub tool_defs : McpManager W → List McpServer → W → List ToolDef
  tool_defs mgr [] w = []
  tool_defs mgr (s ∷ ss) w = map (tool_def s.name) (mgr.tools s.name w) ++ tool_defs mgr ss w

  unfoldable pub emit_all : List RunEvent → Job W (Unit {0})
  emit_all [] = pure tt
  emit_all (e ∷ es) = do emit e; emit_all es

  -- after DispatchAll
  unfoldable pub dispatched : List McpCall → FatalError ⊎ List CallResult → Job W (List Message)
  dispatched calls (inl f) = do
    emit (mcp_fatal f.kind f.message)
    fail f.kind (mcp_failed f.message)
  dispatched calls (inr results) = do
    emit_all (map (tool_event calls) results)
    pure (map tool_message results)

  -- the rest of a turn with its tool uses, once the model has answered; `next` is the next turn
  unfoldable pub after_turn :
      McpManager W
      → (List Message → Job W (Option String))
      → List Message
      → TurnResult
      → List ToolUse
      → Job W (Option String)
  after_turn mgr next messages t [] = pure (some t.text)
  after_turn mgr next messages t (u ∷ us) = do
    answer ← call (mgr.dispatch_all (to_mcp_calls (u ∷ us)))
    replies ← dispatched (to_mcp_calls (u ∷ us)) answer
    next (messages ++ (assistant_message t ∷ replies))

  -- The loop, with the turns that are left and the number of the turn. The text of the answer without
  -- tool calls that ends it, or `none` after the last turn.
  unfoldable pub turns : ChatTurn W → McpManager W → ℕ → ℕ → List Message → Job W (Option String)
  turns chat mgr zero turn messages = pure none
  turns chat mgr (suc left) turn messages = do
    emit (turn_start turn)
    answer ← call (chat messages)
    t ← or_fail "llm_error" turn_failed answer
    add_usage t.usage
    after_turn mgr (turns chat mgr left (suc turn)) messages t t.tool_uses
