-- ===== src/Tests/Runs.antt =====
-- Runs of the skill of the manifest, with an outside world that only counts.
use cronfoundry.Prelude.{
  ℕ, zero, suc, ◌+◌, ◌≡◌, refl, pos, true, false, none, some, List, [], ◌∷◌, inr, arith,
}
use Prim.Native.String.{◌++◌ as ◌+++◌}
use cronfoundry.Config.Skill.{McpServer}
use cronfoundry.Memory.{extract, Extracted}
use cronfoundry.Memory.Found.{IsExtracted, extract-IsExtracted}
use cronfoundry.Publish.{Publisher}
use cronfoundry.Publish.Slots.{Covers, Aligned}
use cronfoundry.Runner.Cost.{Usage}
use cronfoundry.Runner.Session.{Deps, Message, McpManager, Provider}
use cronfoundry.Runner.Turns.{turns, ChatTurn}
use cronfoundry.Runner.Load.{RunInput, Loaded}
use cronfoundry.Runner.Execute.{run, publish, session_at}
use cronfoundry.Runner.Leaves.{announced}
use cronfoundry.Runner.Phases.{IsLegal, run-IsLegal}
use cronfoundry.Runner.Bounds.{Turned, turns-Turned}
use cronfoundry.Runner.Metered.{Charged, turns-Fair}
use cronfoundry.Runner.Statuses.{Reports, run-Reports, Of, Spared, publish-Spared}
use cronfoundry.Tests.Manifests.{manifest, nightly, parse}

abbrev pub one_token : Usage
one_token = record { input_tokens = 1; output_tokens = 1 }

-- a model that calls a tool in the first turn and then answers; the world counts its calls
abbrev pub chat : ChatTurn ℕ
chat ms zero = (
  inr (record {
    text = "";
    tool_uses = record { id = "1"; name = "gh__list"; input = "{}" } ∷ [];
    usage = one_token;
  }),
  1,
)
chat ms (suc n) = (inr (record { text = "done"; tool_uses = []; usage = one_token }), suc n + 1)

abbrev pub servers : McpManager ℕ
servers = record {
  start = λ name command args env w. (none, w);
  tools = λ name w. [];
  dispatch_all = λ calls w.
      (inr (record { id = "1"; result_json = "[]"; is_error = false; duration_ms = 5 } ∷ []), w);
  shutdown = λ w. w;
}

abbrev pub provider : Provider ℕ
provider = record {
  chat = λ ms o w. (inr (one_token, "done" ∷ []), w + 1);
  chat_turn = some (λ ms tools o. chat ms);
}

abbrev pub sent : Publisher ℕ
sent d output w = (
  record {
    kind = "http";
    is_ok = true;
    skipped = false;
    skip_reason = "";
    error = none;
    detail = "";
    target = "https://example.com/hook";
  },
  w,
)

abbrev pub github_server : McpServer
github_server = record { name = "gh"; command = "gh-mcp"; args = [] }

abbrev pub deps : Deps ℕ
deps = record {
  files = record {
    read_file = λ path w. (some "---\nname: digest\n---\nSummarise.", w);
    join = λ a b. a +++ "/" +++ b;
    abs = λ path. some path;
    is_abs = λ path. false;
  };
  parse_manifest = λ text. some manifest;
  parse_url = parse;
  yaml = λ text.
      some (record { name = "digest"; max_tokens = pos 100; max_turns = pos 0; mcp_servers = [] });
  provider = λ name. some provider;
  mcp = servers;
  publishers = λ c kind. some sent;
  order = 0 ∷ [];
  now = λ w. (w, w);
  local_id = λ t. "local";
  commit = λ root c w. (inr "c0ffee", w);
  push = λ root user token w. (true, w);
}

abbrev pub input : RunInput
input = record {
  repo_root = "/tmp/repo";
  manifest_path = "cronfoundry.yaml";
  skill_path = "skills/digest";
  schedule_name = "nightly";
  run_id = "1";
  secrets = none;
  llm_api_key = "key";
  llm_endpoint = "";
  llm_deployment = "";
  dry_run = false;
  skip_push = false;
  github_username = "x-access-token";
  github_token = "";
  mcp_servers = github_server ∷ [];
  mcp_env = [];
  max_turns = pos 8;
}

run-IsLegal_example :
    IsLegal deps input false (run deps input 0).error (announced (run deps input 0).events)
run-IsLegal_example = run-IsLegal deps input 0

run-Reports_example : Reports deps input (run deps input 0) (run deps input 0).error
run-Reports_example = run-Reports deps input 0

turns-Turned_example : Turned 8 1 [] (turns chat servers 8 1 [] (session_at deps input 0))
turns-Turned_example = turns-Turned chat servers 8 1 [] (session_at deps input 0)

chat-Charged : (ms : List Message) (w : ℕ) → Charged (λ n. n) Usage.input_tokens (chat ms w) w
chat-Charged ms zero = refl
chat-Charged ms (suc n) = refl

turns-Fair_example :
    (turns chat servers 8 1 [] (session_at deps input 0)).1.usage.input_tokens + 0
    ≡ 0 + (turns chat servers 8 1 [] (session_at deps input 0)).1.world
turns-Fair_example =
    turns-Fair (λ n. n) Usage.input_tokens (λ u v. refl) chat servers chat-Charged (λ calls w. refl)
      8 1 [] (session_at deps input 0)

covered : Covers (0 ∷ []) nightly.destinations
covered zero h = refl
covered (suc i) h = absurd (omega arith)

abbrev loaded : Loaded ℕ
loaded = record {
  schedule = nightly;
  skill = record {
    frontmatter = record {
      name = "digest";
      max_tokens = pos 100;
      max_turns = pos 0;
      mcp_servers = [];
    };
    body = "";
  };
  body = "";
  banner = "";
  provider = provider;
}

abbrev answer : Extracted
answer = record { published = "done"; memory = ""; found = false }

publish-Spared_example :
    Of
      (λ f. Aligned (Spared deps input) nightly.destinations f.publish_results)
      (publish deps input 0 loaded 0 answer (session_at deps input 0))
publish-Spared_example =
    publish-Spared deps input 0 0 loaded answer covered (session_at deps input 0)

-- a block, and text around it
extract-IsExtracted_example :
    IsExtracted "a <memory>b</memory> c" (extract "a <memory>b</memory> c")
extract-IsExtracted_example = extract-IsExtracted "a <memory>b</memory> c"
