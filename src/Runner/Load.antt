-- ===== src/Runner/Load.antt =====
-- internal/runner/runner.go: Run, from the manifest to the output of the model.
use Prim.Native.String.{◌++◌ as ◌+++◌, compare}
use text.Mathlib.Text.{is_le}
use cronfoundry.Prelude.{
  ℤ, String, Bool, Option, none, some, List, [], ◌∷◌, map, ◌⊎◌, inl, inr, str_eq, if◌then◌else◌,
  sort_by,
}
use cronfoundry.Config.Manifest.{EnvMap, EnvValue, ScheduleEntry, validate, find_schedule}
use cronfoundry.Config.Skill.{McpServer, Skill, parse_skill_file}
use cronfoundry.Config.Include.{resolve_includes}
use cronfoundry.Runner.Session.{
  Role, ToolDef, TurnResult, Deps, Job, Cause, manifest_unread, manifest_unparsed, schedule_missing,
  skill_unread, provider_unknown, tools_unsupported, turns_exceeded, manifest_invalid,
  skill_invalid, include_failed, chat_failed, Provider, Message, system, user, CallOptions, pure,
  fail, call, ◌>>=◌, ◌>>◌, enter, set_managed, set_usage,
}
use cronfoundry.Runner.Turns.{read, or_fail, start_servers, tool_defs, turns, resolve_max_turns}

-- RunInput; a resolver is its lookup, and a nil map is an empty one
pub record RunInput : Type 0 where
  pub repo_root : String
  pub manifest_path : String
  pub skill_path : String
  pub schedule_name : String
  pub run_id : String
  pub secrets : Option (String → Option String)
  pub llm_api_key : String
  pub llm_endpoint : String
  pub llm_deployment : String
  pub dry_run : Bool
  pub skip_push : Bool
  pub github_username : String
  pub github_token : String
  pub mcp_servers : List McpServer
  pub mcp_env : List (String × EnvMap)
  pub max_turns : ℤ

abbrev pub key_le : String × EnvValue → String × EnvValue → Bool
key_le (k, _) (j, _) = is_le (compare k j)

abbrev pub banner_line : String × EnvValue → String
banner_line (k, v) =
    if str_eq v.secret "" then k +++ "=" +++ v.literal +++ "\n" else k +++ "=[secret]\n"

abbrev pub concat : List String → String
concat [] = ""
concat (s ∷ ss) = s +++ concat ss

-- buildEnvBanner; the keys are sorted
unfoldable pub build_env_banner : EnvMap → String
build_env_banner [] = ""
build_env_banner (e ∷ es) =
    "<env>\n" +++ concat (map banner_line (sort_by key_le (e ∷ es))) +++ "</env>"

abbrev pub plain_message : Role → String → Message
plain_message r c = record { role = r; content = c; tool_uses = []; tool_use_id = "" }

-- the messages before the first turn
unfoldable pub first_messages : String → String → List Message
first_messages banner body =
    let question = plain_message user body ∷ [] in
    if str_eq banner "" then question else plain_message system banner ∷ question

abbrev pub options_of : RunInput → ScheduleEntry → Skill → CallOptions
options_of inp sch skill = record {
  model = sch.model;
  max_tokens = skill.frontmatter.max_tokens;
  api_key = inp.llm_api_key;
  endpoint = inp.llm_endpoint;
  deployment = inp.llm_deployment;
}

abbrev pub needed : {A : Type 0} → Cause → Option A → Cause ⊎ A
needed cause none = inl cause
needed cause (some a) = inr a

abbrev pub none_of : {A : Type 0} → (A → Cause) → Option A → Cause ⊎ Unit {0}
none_of cause none = inr tt
none_of cause (some e) = inl (cause e)

abbrev pub same_cause : Cause → Cause
same_cause c = c

-- what the phases "boot" and "secrets" find
pub record Loaded (W : Type 0) : Type 0 where
  pub schedule : ScheduleEntry
  pub skill : Skill
  pub body : String
  pub banner : String
  pub provider : Provider W

-- after the loop
unfoldable pub terminated : {W : Type 0} → Option String → Job W String
terminated none = fail "max_turns_exceeded" turns_exceeded
terminated (some output) = pure output

module _ {W : Type 0} (deps : Deps W) (inp : RunInput) where
  -- from "boot" to the provider
  unfoldable pub load : Job W (Loaded W)
  load = do
    enter "boot"
    text ← call (deps.files.read_file (deps.files.join inp.repo_root inp.manifest_path))
    source ← or_fail "" same_cause (needed manifest_unread text)
    m ← or_fail "" same_cause (needed manifest_unparsed (deps.parse_manifest source))
    or_fail "" same_cause (none_of manifest_invalid (validate deps.parse_url m))
    found ←
        or_fail "" same_cause
          (needed schedule_missing (find_schedule inp.skill_path inp.schedule_name m.skills))
    markdown ← call (
        deps.files.read_file
          (deps.files.join (deps.files.join inp.repo_root inp.skill_path) "SKILL.md"))
    bytes ← or_fail "" same_cause (needed skill_unread markdown)
    skill ← or_fail "" skill_invalid (parse_skill_file deps.yaml bytes)
    resolved ←
        call (resolve_includes deps.files skill.body (deps.files.join inp.repo_root inp.skill_path))
    body ← or_fail "" include_failed resolved
    enter "secrets"
    provider ← or_fail "" same_cause (needed provider_unknown (deps.provider (found.1).provider))
    pure (record {
      schedule = found.1;
      skill = skill;
      body = body;
      banner = build_env_banner (found.1).env;
      provider = provider;
    })

  -- the path without tools
  unfoldable pub single_shot : Loaded W → Job W String
  single_shot l = do
    answer ←
        call (l.provider.chat (first_messages l.banner l.body) (options_of inp l.schedule l.skill))
    chatted ← or_fail "" chat_failed answer
    set_usage chatted.0
    pure (concat chatted.1)

  unfoldable pub multi_turn :
      Loaded W
      → (List Message → List ToolDef → CallOptions → W → (String ⊎ TurnResult) × W)
      → Job W String
  multi_turn l chat_turn = do
    set_managed
    start_servers deps.mcp inp.secrets inp.mcp_env inp.mcp_servers
    tools ← call (read (tool_defs deps.mcp inp.mcp_servers))
    output ←
        turns (λ messages. chat_turn messages tools (options_of inp l.schedule l.skill)) deps.mcp
          (resolve_max_turns inp.max_turns l.skill.frontmatter.max_turns) 1
          (first_messages l.banner l.body)
    terminated output

  unfoldable pub exec_by :
      Loaded W
      → List McpServer
      → Option (List Message → List ToolDef → CallOptions → W → (String ⊎ TurnResult) × W)
      → Job W String
  exec_by l [] chat_turn = single_shot l
  exec_by l (s ∷ ss) none = fail "provider_tool_unsupported" tools_unsupported
  exec_by l (s ∷ ss) (some chat_turn) = multi_turn l chat_turn

  -- the phase "exec"
  unfoldable pub exec : Loaded W → Job W String
  exec l = do enter "exec"; exec_by l inp.mcp_servers l.provider.chat_turn
