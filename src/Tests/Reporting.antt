-- ===== src/Tests/Reporting.antt =====
-- Reports of the subcommand, with an outside world in which every call goes well.
use Prim.Native.String.{len}
use cronfoundry.Prelude.{ℕ, ◌+◌, ◌*◌, ◌≡◌, ◌≤◌, refl, true, false, none, some, [], ◌∷◌, inr, arith}
use cronfoundry.Config.Json.{object, no_members, array, no_elements}
use cronfoundry.Store.Rows.{succeeded}
use cronfoundry.Api.Finalize.{finalize_body, finalize_valid}
use cronfoundry.Memory.{after_prefix, trim_space, trim_left, trim_right}
use cronfoundry.Config.Manifest.{is_space}
use cronfoundry.Publish.{Result}
use cronfoundry.Runner.Execute.{RunResult}
use cronfoundry.Command.Clip.{clip, torn_by_clip, torn_bytes, clip-len}
use cronfoundry.Command.Delivery.{Parsers, redact_target, target_of}
use cronfoundry.Command.Finalizing.{finalize_request}
use cronfoundry.Command.Accepted.{IsUntorn, IsSmall, finalize_request-accepted}
use cronfoundry.Command.Client.{Api, RunContext}
use cronfoundry.Command.Http.{run_runner_http}
use cronfoundry.Command.Once.{HasOne, run_runner_http-HasOne}
use cronfoundry.Tests.Data.{shown}
use cronfoundry.Tests.Runs.{deps, one_token}

abbrev parsers : Parsers
parsers = record { url_host = λ u. some "hooks.slack.com"; github_repo = λ u. none }

abbrev to_slack : Result
to_slack = record {
  kind = "slack";
  is_ok = true;
  skipped = false;
  skip_reason = "";
  error = none;
  detail = "";
  target = "https://hooks.slack.com/services/T0";
}

abbrev result : RunResult
result = record {
  status = cronfoundry.Runner.Execute.succeeded;
  error_kind = "";
  usage = one_token;
  cost_cents = 2;
  output = "done";
  memory_content = "";
  publish_results = to_slack ∷ [];
  writeback_sha = "";
  started_at = 1000000;
  finished_at = 5000000;
}

small : IsSmall result
small = record {
  forward = omega arith;
  duration = omega arith;
  input = omega arith;
  output = omega arith;
  cost = omega arith;
}

untorn : IsUntorn parsers to_slack
unfolding torn_by_clip torn_bytes redact_target target_of trim_space trim_left trim_right
    after_prefix is_space
untorn = record { kind = refl; target = refl; reason = refl }

finalize_request-accepted_example :
    finalize_body shown 1 (some (finalize_request parsers result none))
    ≡ finalize_valid shown 1 (finalize_request parsers result none) succeeded
finalize_request-accepted_example =
    finalize_request-accepted parsers shown 1 result none small (untorn, tt)

clip-len_example : len (clip "long text" 5) ≤ 5 + 2 * torn_by_clip "long text" 5
clip-len_example = clip-len "long text" 5 (omega arith)

abbrev context : RunContext
context = record {
  schedule_name = "nightly";
  skill_path = "skills/digest";
  skill_sha = "c0ffee";
  repo_id = "1";
  provider = "anthropic";
  llm_secret_ref = some "llm";
  llm_endpoint = none;
  llm_deployment = none;
  destinations = array no_elements;
  env = object no_members;
  frontmatter = none;
  mcp_env = none;
  max_turns = none;
  secret_manifest = "llm" ∷ [];
}

abbrev api : Api ℕ
api = record {
  get_run_context = λ id w. (inr context, w);
  get_secrets = λ names w. (inr (("llm", "key") ∷ []), w);
  get_copilot_token = λ id w. (inr "token", w);
  get_clone_url = λ id w. (inr "https://github.com/acme/skills.git", w);
  post_events = λ id es w. w;
  post_finalize = λ id body w. (true, w + 1);
  make_temp_dir = λ w. (inr "/tmp/run", w);
  remove_all = λ dir w. w;
  clone_at = λ url sha dir w. (none, w);
  redact_url = λ u. "<clone-url>";
  decode_servers = λ j. some [];
  decode_mcp_env = λ j. some [];
  to_upper = λ s. s;
  show_cause = λ c. "error";
  github_token = "";
  parsers = parsers;
}

run_runner_http-HasOne_example :
    HasOne api "1" deps
      (run_runner_http api "1" deps 0).0
      (run_runner_http api "1" deps 0).1.reports
run_runner_http-HasOne_example = run_runner_http-HasOne api "1" deps 0
