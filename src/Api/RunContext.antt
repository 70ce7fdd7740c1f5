-- ===== src/Api/RunContext.antt =====
-- internal/api/run_context.go and clone_url.go (the production build), with their queries: the
-- requests that only read. The columns that the context copies and nothing else reads are left out.
pub mod Scope
use Prim.Native.String.{◌++◌ as str_append}
use cronfoundry.Prelude.{ℤ, ℕ, String, Option, none, some, [], ◌∷◌, List, find, ◌==◌, if◌then◌else◌}
use cronfoundry.Config.Json.{Json}
use cronfoundry.Config.SecretRefs.{collect_secret_refs}
use cronfoundry.Store.Rows.{World, Tables, Run, Schedule, SkillRow, RepoRow}
use cronfoundry.Store.Exec.{M, pure, raise, ◌>>=◌, statement}
use cronfoundry.Store.Runs.{get_run}
use cronfoundry.Api.Response.{
  Response, bad_request, forbidden, not_found, internal_error, bad_gateway,
}

-- RunContext, and the row of GetRunForContext
pub record RunContext : Type 0 where
  pub run_id : ℕ
  pub org_id : ℕ
  pub schedule_name : String
  pub skill_path : String
  pub skill_sha : String
  pub repo : String
  pub repo_id : ℕ
  pub installation_id : ℕ
  pub timeout_sec : ℤ
  pub llm_secret_ref : Option String
  pub destinations : Json
  pub env : Json
  pub mcp_env : Json
  pub secret_manifest : List String

-- the row that a run joins with: its schedule, skill and repository
pub record ContextRow : Type 0 where
  pub run : Run
  pub sched : Schedule
  pub skill : SkillRow
  pub repo : RepoRow

abbrev pub with_repo : Run → Schedule → SkillRow → Option RepoRow → Option ContextRow
with_repo r s k none = none
with_repo r s k (some c) = some (record { run = r; sched = s; skill = k; repo = c })

abbrev pub with_skill_row : World → Run → Schedule → Option SkillRow → Option ContextRow
with_skill_row w r s none = none
with_skill_row w r s (some k) = with_repo r s k (find (λ c. c.id == k.repo_id) w.repos)

abbrev pub with_schedule : World → Run → Option Schedule → Option ContextRow
with_schedule w r none = none
with_schedule w r (some s) = with_skill_row w r s (find (λ k. k.id == s.skill_id) w.skills)

abbrev pub with_run : World → Option Run → Option ContextRow
with_run w none = none
with_run w (some r) = with_schedule w r (find (λ s. s.id == r.schedule_id) w.schedules)

-- GetRunForContext
unfoldable pub run_for_context : ℕ → World → Option ContextRow
run_for_context i w = with_run w (get_run i w)

-- out.SecretManifest
unfoldable pub secret_manifest_of : Schedule → List String
secret_manifest_of s =
    collect_secret_refs s.destinations_json s.env_json s.llm_secret_ref (s.mcp_env_json ∷ [])

abbrev pub context_of : ContextRow → RunContext
context_of c = record {
  run_id = c.run.id;
  org_id = c.run.org_id;
  schedule_name = c.sched.name;
  skill_path = c.skill.path;
  skill_sha = c.run.skill_sha;
  repo = str_append c.repo.owner (str_append "/" c.repo.name);
  repo_id = c.skill.repo_id;
  installation_id = c.repo.github_app_install_id;
  timeout_sec = c.sched.timeout_sec;
  llm_secret_ref = c.sched.llm_secret_ref;
  destinations = c.sched.destinations_json;
  env = c.sched.env_json;
  mcp_env = c.sched.mcp_env_json;
  secret_manifest = secret_manifest_of c.sched;
}

unfoldable pub found_context : Option ContextRow → M Response RunContext
found_context none = raise not_found
found_context (some c) = pure (context_of c)

unfoldable pub load_context : ℕ → M Response RunContext
load_context i = do
  row ← statement internal_error (λ w. some (run_for_context i w, w))
  found_context row

-- runContextHandler.ServeHTTP; `claimed` is the run id of the bearer's claims
unfoldable pub context_handler : ℕ → Option ℕ → M Response RunContext
context_handler claimed none = raise bad_request
context_handler claimed (some i) = if claimed == i then load_context i else raise forbidden

abbrev pub repo_of_skill : Option SkillRow → Option ℕ
repo_of_skill none = none
repo_of_skill (some k) = some k.repo_id

abbrev pub repo_of_schedule : Tables → Option Schedule → Option ℕ
repo_of_schedule t none = none
repo_of_schedule t (some s) = repo_of_skill (find (λ k. k.id == s.skill_id) t.skills)

abbrev pub repo_of_run : Tables → Option Run → Option ℕ
repo_of_run t none = none
repo_of_run t (some r) = repo_of_schedule t (find (λ s. s.id == r.schedule_id) t.schedules)

-- GetRunRepoID
unfoldable pub run_repo_id : ℕ → World → Option ℕ
run_repo_id i w = repo_of_run w.tables (get_run i w)

-- GetRepoConnection
unfoldable pub repo_connection : ℕ → World → Option RepoRow
repo_connection i w = find (λ (c : RepoRow). c.id == i) w.repos

abbrev pub url_of : String → RepoRow → String
url_of token c = str_append "https://x-access-token:" (
    str_append token
      (str_append "@github.com/" (str_append c.owner (str_append "/" (str_append c.name ".git")))))

abbrev pub minted : RepoRow → Option String → M Response String
minted c none = raise bad_gateway
minted c (some token) = pure (url_of token c)

unfoldable pub mint_url : (ℕ → Option String) → Option RepoRow → M Response String
mint_url token none = raise not_found
mint_url token (some c) = minted c (token c.github_app_install_id)

-- from the scope check on; the token is one of GitHub's for the installation
unfoldable pub scoped_url : (ℕ → Option String) → ℕ → Option ℕ → M Response String
scoped_url token repo_id none = raise forbidden
scoped_url token repo_id (some scoped) =
    if scoped == repo_id
    then (do
      row ← statement internal_error (λ w. some (repo_connection repo_id w, w))
      mint_url token row)
    else raise forbidden

-- cloneURLHandler.ServeHTTP
unfoldable pub clone_url_handler : (ℕ → Option String) → ℕ → Option ℕ → M Response String
clone_url_handler token claimed none = raise bad_request
clone_url_handler token claimed (some repo_id) = do
  scoped ← statement internal_error (λ w. some (run_repo_id claimed w, w))
  scoped_url token repo_id scoped
