-- ===== src/Command/Http.antt =====
-- cmd/cronfoundry/runner.go: runRunnerHTTP, from the run's context to its report. The deadline of the
-- context, the logs and the payloads of the events are left out, and so is the event sink of the run,
-- which only posts what the run's events hold.
use Prim.Native.String.{◌++◌ as ◌+++◌}
use cronfoundry.Prelude.{
  String, Bool, true, false, Option, none, some, List, [], ◌∷◌, ◌++◌, ◌⊎◌, inl, inr, str_eq,
  if◌then◌else◌,
}
use cronfoundry.Config.Json.{Json}
use cronfoundry.Config.Manifest.{EnvMap}
use cronfoundry.Config.Skill.{McpServer}
use cronfoundry.Config.Resolver.{get_secret, env_map_for_secrets}
use cronfoundry.Store.Exec.{Outcome, ok, err}
use cronfoundry.Api.Finalize.{FinalizeBody}
use cronfoundry.Runner.Session.{Deps, Failure}
use cronfoundry.Runner.Load.{RunInput}
use cronfoundry.Runner.Execute.{RunResult, Ran, run}
use cronfoundry.Command.Finalizing.{finalize_request, failed_request}
use cronfoundry.Command.Client.{
  RunContext, Event, Api, Client, Command, pure, call, ◌>>=◌, ◌>>◌, event, end_event,
  publish_events, or_blank, first_key, wanted_secrets, turns_or_zero,
}

module _ {W : Type 0} (api : Api W) (run_id : String) where
  abbrev pub reported :
      {A : Type 0} → String → FinalizeBody → Client W → Bool × W → Outcome String A × Client W
  reported kind body c (sent, w) =
      (err kind, record c { world = w; reports = c.reports ++ (body ∷ []) })

  -- failRun: whether the report was taken is only logged
  unfoldable pub fail_run : {A : Type 0} → String → String → Command W A
  fail_run kind message c =
      reported kind (failed_request kind message) c
        (api.post_finalize run_id (failed_request kind message) c.world)

  -- a call whose error ends the run
  unfoldable pub or_fail_run : {A : Type 0} → String → String ⊎ A → Command W A
  or_fail_run kind (inl message) = fail_run kind message
  or_fail_run kind (inr a) = pure a

  unfoldable pub post_events : List Event → Command W (Unit {0})
  post_events es c =
      (ok tt, record c { world = api.post_events run_id es c.world; posted = c.posted ++ es })

  -- no call where there is nothing to post
  unfoldable pub post_some : List Event → Command W (Unit {0})
  post_some [] = pure tt
  post_some (e ∷ es) = post_events (e ∷ es)

  -- GetSecrets
  unfoldable pub fetch_secrets : List String → W → (String ⊎ List (String × String)) × W
  fetch_secrets [] w = (inr [], w)
  fetch_secrets (n ∷ ns) w = api.get_secrets (n ∷ ns) w

  abbrev pub nonempty_token : String ⊎ String → String ⊎ String
  nonempty_token (inl e) = inl e
  nonempty_token (inr t) = if str_eq t "" then inl "received empty access_token" else inr t

  unfoldable pub copilot_key : Bool → String → Command W String
  copilot_key false key = pure key
  copilot_key true key = do
    answer ← call (api.get_copilot_token run_id)
    or_fail_run "copilot_token_refresh" (nonempty_token answer)

  unfoldable pub keep_temp_dir : String → Command W (Unit {0})
  keep_temp_dir dir c = (ok tt, record c { temp_dir = some dir })

  unfoldable pub cloned : String → Option String → Command W (Unit {0})
  cloned url none = pure tt
  cloned url (some message) =
      fail_run "clone" ("clone " +++ api.redact_url url +++ ": " +++ message)

  abbrev pub decoded : {A : Type 0} → A → (Json → Option A) → Option Json → Option A
  decoded empty f none = some empty
  decoded empty f (some j) = f j

  abbrev pub pair_up :
      Option (List McpServer)
      → Option (List (String × EnvMap))
      → String ⊎ (List McpServer × List (String × EnvMap))
  pair_up none env = inl "unmarshal frontmatter"
  pair_up (some ss) none = inl "unmarshal mcp_env"
  pair_up (some ss) (some env) = inr (ss, env)

  -- parseMCPConfig, without the turns
  unfoldable pub parse_mcp_config : RunContext → String ⊎ (List McpServer × List (String × EnvMap))
  parse_mcp_config c =
      pair_up (decoded [] api.decode_servers c.frontmatter)
        (decoded [] api.decode_mcp_env c.mcp_env)

  abbrev pub input_of :
      RunContext
      → List (String × String)
      → String
      → String
      → List McpServer × List (String × EnvMap)
      → RunInput
  input_of c secrets key dir mcp = record {
    repo_root = dir;
    manifest_path = "cronfoundry.yaml";
    skill_path = c.skill_path;
    schedule_name = c.schedule_name;
    run_id = run_id;
    secrets = some (get_secret api.to_upper (env_map_for_secrets api.to_upper secrets));
    llm_api_key = key;
    llm_endpoint = or_blank c.llm_endpoint;
    llm_deployment = or_blank c.llm_deployment;
    dry_run = false;
    skip_push = false;
    github_username = "x-access-token";
    github_token = api.github_token;
    mcp_servers = mcp.0;
    mcp_env = mcp.1;
    max_turns = turns_or_zero c.max_turns;
  }

  abbrev pub ran : Ran W → RunResult × Option Failure
  ran r = (r.result, r.error)

  abbrev pub error_text : Option Failure → Option String
  error_text none = none
  error_text (some f) = some (api.show_cause f.cause)

  abbrev pub returned : Option String → Outcome String (Unit {0})
  returned none = ok tt
  returned (some e) = err "runner"

  abbrev pub finalized :
      FinalizeBody → Option String → Client W → Bool × W → Outcome String (Unit {0}) × Client W
  finalized body error c (true, w) =
      (returned error, record c { world = w; reports = c.reports ++ (body ∷ []) })
  finalized body error c (false, w) =
      (err "finalize", record c { world = w; reports = c.reports ++ (body ∷ []) })

  -- step 10, with what is returned
  unfoldable pub report : RunResult → Option String → Command W (Unit {0})
  report r error c =
      finalized (finalize_request api.parsers r error) error c
        (api.post_finalize run_id (finalize_request api.parsers r error) c.world)

  -- steps 9 and 10
  unfoldable pub conclude : RunResult → Option String → Command W (Unit {0})
  conclude r error = do
    post_some (publish_events error r.publish_results)
    post_events (end_event error ∷ [])
    report r error

  -- steps 2 to 10
  unfoldable pub execute : Deps W → RunContext → Command W (Unit {0})
  execute deps c = do
    post_events (event "manifest.set" "info" ∷ [])
    fetched ← call (fetch_secrets (wanted_secrets c c.secret_manifest))
    secrets ← or_fail_run "secrets_fetch" fetched
    key ← copilot_key (str_eq c.provider "copilot-enterprise") (first_key c.llm_secret_ref secrets)
    answer ← call (api.get_clone_url c.repo_id)
    url ← or_fail_run "clone_url_fetch" answer
    made ← call api.make_temp_dir
    dir ← or_fail_run "tempdir" made
    keep_temp_dir dir
    clone ← call (api.clone_at url c.skill_sha dir)
    cloned url clone
    post_events (event "runner.start" "info" ∷ [])
    mcp ← or_fail_run "config_parse" (parse_mcp_config c)
    (result, error) ←
        call (λ w. let r = run deps (input_of c secrets key dir mcp) w in (ran r, r.world))
    conclude result (error_text error)

  abbrev pub clean_up : Option String → W → W
  clean_up none w = w
  clean_up (some dir) w = api.remove_all dir w

  abbrev pub cleaned : Outcome String (Unit {0}) × Client W → Outcome String (Unit {0}) × Client W
  cleaned (o, c) = (o, record c { world = clean_up c.temp_dir c.world })

  unfoldable pub with_context : Deps W → Command W (Unit {0})
  with_context deps = do
    answer ← call (api.get_run_context run_id)
    c ← or_fail_run "context_fetch" answer
    execute deps c

  abbrev pub client_at : W → Client W
  client_at w = record { world = w; reports = []; posted = []; temp_dir = none }

  -- runRunnerHTTP, once the three settings are there
  unfoldable pub run_runner_http : Deps W → W → Outcome String (Unit {0}) × Client W
  run_runner_http deps w = cleaned (with_context deps (client_at w))
