-- ===== src/Runner/Execute.antt =====
-- internal/runner/runner.go: Run, from the output of the model to the writeback, and all of it.
use Prim.Native.String.{◌++◌ as ◌+++◌}
use cronfoundry.Prelude.{
  ℕ, String, Bool, true, false, ◌&&◌, ◌||◌, Option, none, some, List, [], ◌∷◌, ◌++◌, ◌⊎◌, inl, inr,
  str_eq, if◌then◌else◌, all,
}
use cronfoundry.Store.Exec.{Outcome, ok, err}
use cronfoundry.Config.Manifest.{Destination, WritebackConfig}
use cronfoundry.Memory.{Extracted, extract}
use cronfoundry.Memory.Outputs.{extract_output_blocks}
use cronfoundry.Publish.{Result, dispatch}
use cronfoundry.Runner.Cost.{Usage, cost_cents, lookup}
use cronfoundry.Runner.Session.{
  Deps, Session, Filled, blank, assign, Job, Failure, Context, pure, call, ◌>>=◌, ◌>>◌, enter, used,
  RunEvent, phase_enter,
}
use cronfoundry.Runner.Load.{RunInput, Loaded, load, exec}

pub data RunStatus : Type 0 where
  succeeded partial_failure failed : RunStatus

pub record RunResult : Type 0 where
  pub status : RunStatus
  pub error_kind : String
  pub usage : Usage
  pub cost_cents : ℕ
  pub output : String
  pub memory_content : String
  pub publish_results : List Result
  pub writeback_sha : String
  pub started_at : ℕ
  pub finished_at : ℕ

-- the field `output` of the destination that decides
unfoldable pub output_name : Destination → String
output_name d = elim d.slack [
  | some s ↦ s.output
  | none ↦ elim d.discord [
    | some s ↦ s.output
    | none ↦ elim d.teams [
      | some s ↦ s.output
      | none ↦ elim d.github_issue [ some g ↦ g.output | none ↦ "" ]
    ]
  ]
]

abbrev pub or_text : String → Option String → String
or_text fallback none = fallback
or_text fallback (some v) = v

-- selectOutputForDest
unfoldable pub select_output_for_dest : String → List (String × String) → String → String
select_output_for_dest name blocks fallback =
    if str_eq name "" then fallback else or_text fallback (lookup name blocks)

-- how a run ended that did not fail
pub record Finished : Type 0 where
  pub status : RunStatus
  pub cost : ℕ
  pub extracted : Extracted
  pub publish_results : List Result
  pub writeback_sha : String

-- what Run returns, the events that it emitted, and the world after the deferred Shutdown
pub record Ran (W : Type 0) : Type 0 where
  pub result : RunResult
  pub error : Option Failure
  pub events : List RunEvent
  pub world : W

-- a result that does not count as a failure
abbrev pub is_fine : Result → Bool
is_fine r = r.is_ok || r.skipped

abbrev pub final_status : Bool → RunStatus
final_status b = if b then succeeded else partial_failure

abbrev pub prev_of : String → Option String
prev_of active = if str_eq active "" then none else some active

module _ {W : Type 0} (deps : Deps W) (inp : RunInput) where
  -- the switch after Commit: whether the push is skipped, and whether there is no token
  unfoldable pub push_by : Bool → Bool → Job W Bool
  push_by true no_token = pure true
  push_by false true = pure true
  push_by false false = call (deps.push inp.repo_root inp.github_username inp.github_token)

  unfoldable pub push_commit : Job W Bool
  push_commit = push_by inp.skip_push (str_eq inp.github_token "")

  abbrev pub commit_message : String → String
  commit_message path =
      if str_eq inp.run_id ""
      then "chore(cronfoundry): update " +++ path
      else "chore(cronfoundry): update " +++ path +++ " from run " +++ inp.run_id

  -- after Commit: the commit, and whether all went well
  unfoldable pub committed : String ⊎ String → Job W (String × Bool)
  committed (inl e) = pure ("", false)
  committed (inr sha) = do
    assign (λ r. record r { writeback_sha = sha })
    pushed ← push_commit
    pure (sha, pushed)

  unfoldable pub write_back : WritebackConfig → String → Job W (String × Bool)
  write_back c block = do
    answer ← call (
        deps.commit inp.repo_root (record {
          path = c.path;
          mode = c.mode;
          content = block;
          message = commit_message c.path;
        }))
    committed answer

  unfoldable pub write_back_if : Bool → WritebackConfig → String → Job W (String × Bool)
  write_back_if true c block = write_back c block
  write_back_if false c block = pure ("", true)

  unfoldable pub maybe_write_back : Option WritebackConfig → Extracted → Job W (String × Bool)
  maybe_write_back none e = pure ("", true)
  maybe_write_back (some c) e = write_back_if (c.enabled && e.found) c e.memory

  abbrev pub run_id_of : ℕ → String
  run_id_of started_at = if str_eq inp.run_id "" then deps.local_id started_at else inp.run_id

  abbrev pub context_of : ℕ → Loaded W → Extracted → Context
  context_of started_at l e = record {
    output = e.published;
    run_id = run_id_of started_at;
    started_at = started_at;
    schedule = l.schedule.name;
    skill = l.skill.frontmatter.name;
  }

  unfoldable pub output_for : Extracted → Destination → String
  output_for e d =
      let (blocks, remaining) = extract_output_blocks e.published in
      select_output_for_dest (output_name d) blocks remaining

  -- the phase "publish" and the writeback
  unfoldable pub publish : ℕ → Loaded W → ℕ → Extracted → Job W Finished
  publish started_at l cost e = do
    enter "publish"
    results ← call (
        dispatch (deps.publishers (context_of started_at l e)) deps.order l.schedule.destinations
          (output_for e) true)
    assign (λ r. record r { publish_results = results })
    (sha, written) ← maybe_write_back l.schedule.writeback e
    pure (record {
      status = final_status (all is_fine results && written);
      cost = cost;
      extracted = e;
      publish_results = results;
      writeback_sha = sha;
    })

  abbrev pub without_publishing : ℕ → Extracted → Finished
  without_publishing cost e = record {
    status = succeeded;
    cost = cost;
    extracted = e;
    publish_results = [];
    writeback_sha = "";
  }

  unfoldable pub conclude : Bool → ℕ → Loaded W → ℕ → Extracted → Job W Finished
  conclude true started_at l cost e = pure (without_publishing cost e)
  conclude false started_at l cost e = publish started_at l cost e

  -- the cost and the extraction, and the rest
  unfoldable pub extracted_at : ℕ → Loaded W → ℕ → Extracted → Job W Finished
  extracted_at started_at l cost e = do
    assign (λ r. record r { cost_cents = cost; output = e.published; memory_content = e.memory })
    conclude inp.dry_run started_at l cost e

  -- all phases
  unfoldable pub phases : ℕ → Job W Finished
  phases started_at = do
    l ← load deps inp
    output ← exec deps inp l
    spent ← used
    extracted_at started_at l (cost_cents l.schedule.provider l.schedule.model spent)
        (extract output)

  abbrev pub session_at : W → Session W
  session_at w = record {
    world = w;
    events = [];
    active = "";
    usage = record { input_tokens = 0; output_tokens = 0 };
    managed = false;
    filled = blank;
  }

  abbrev pub result_of : Finished → Usage → ℕ → ℕ → RunResult
  result_of f u started_at finished_at = record {
    status = f.status;
    error_kind = "";
    usage = u;
    cost_cents = f.cost;
    output = f.extracted.published;
    memory_content = f.extracted.memory;
    publish_results = f.publish_results;
    writeback_sha = f.writeback_sha;
    started_at = started_at;
    finished_at = finished_at;
  }

  -- failHelper and failWithKind: the result as it is filled so far
  abbrev pub failed_result : Failure → Filled → Usage → ℕ → ℕ → RunResult
  failed_result e r u started_at finished_at = record {
    status = failed;
    error_kind = e.kind;
    usage = u;
    cost_cents = r.cost_cents;
    output = r.output;
    memory_content = r.memory_content;
    publish_results = r.publish_results;
    writeback_sha = r.writeback_sha;
    started_at = started_at;
    finished_at = finished_at;
  }

  abbrev pub shut_down : Bool → W → W
  shut_down b w = if b then deps.mcp.shutdown w else w

  unfoldable pub finish : ℕ → Outcome Failure Finished × Session W → Ran W
  finish started_at (ok f, s) =
      let (t, w) = deps.now s.world in
      record {
        result = result_of f s.usage started_at t;
        error = none;
        events = s.events;
        world = shut_down s.managed w;
      }
  finish started_at (err e, s) =
      let (t, w) = deps.now s.world in
      record {
        result = failed_result e s.filled s.usage started_at t;
        error = some e;
        events = s.events ++ (phase_enter "fail" (prev_of s.active) ∷ []);
        world = shut_down s.managed w;
      }

  -- Run
  unfoldable pub run : W → Ran W
  run w = let (t, v) = deps.now w in finish t (phases t (session_at v))
