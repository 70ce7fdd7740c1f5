-- ===== src/Api/RunContext/Scope.antt =====
-- The secrets that the context announces against those that the token allows, and the repository
-- whose URL a run gets.
use Prim.Native.String.{◌++◌ as ◌+++◌}
use mathlib.Core.Path.{subst}
use cronfoundry.Prelude.{
  ℕ, String, ◌≡◌, ◌≢◌, refl, sym, ap, ◌∙◌, true, false, ◌||◌, find, Option, none, some, [], ◌∷◌,
  arith, str_eq, eq_iff, Bool-cases, inl, inr, ◌==◌,
}
use cronfoundry.Config.SecretRefs.{has_name}
use cronfoundry.Config.SecretRefs.Found.{mentions, collect_secret_refs_lem}
use cronfoundry.Store.Rows.{World, Tables, RepoRow}
use cronfoundry.Store.Schedules.{JoinedSchedule}
use cronfoundry.Store.Exec.{pure, Outcome, ok, err, raise, ◌>>=◌, call, attempt}
use cronfoundry.Store.Exec.Atomic.{call-tables}
use cronfoundry.Store.Exec.Inversion.{bind-ok, read-ok}
use cronfoundry.Store.Runs.{get_run, has_id}
use cronfoundry.Scheduler.Tick.{args_of}
use cronfoundry.Api.Response.{Response, forbidden, internal_error}
use cronfoundry.Api.Auth.{RunClaims}
use cronfoundry.Api.Secrets.{secrets_handler, fetch_all, fetch, log_secret_event}
use cronfoundry.Api.RunContext.{
  minted, url_of, mint_url, repo_connection, secret_manifest_of, repo_of_run, run_repo_id,
  scoped_url, clone_url_handler,
}

-- The context of a run announces the names in the scope of its token and those that the environment
-- of the MCP servers mentions.
secret_manifest_of-args_of :
    (n : String) (i : ℕ) (j : JoinedSchedule)
    → has_name n (secret_manifest_of j.sched)
      ≡ (has_name n (args_of i j).secret_refs || mentions n j.sched.mcp_env_json)
unfolding secret_manifest_of
secret_manifest_of-args_of n i j =
    let s = j.sched in
    ground (
      arith,
      collect_secret_refs_lem n s.destinations_json s.env_json s.llm_secret_ref
          (s.mcp_env_json ∷ []),
      collect_secret_refs_lem n s.destinations_json s.env_json s.llm_secret_ref [],
    )

-- A request for a single name out of the scope is refused.
out_of_scope :
    (store : String → Option String) (c : RunClaims) (n : String) (w : World)
    → n ≢ ""
    → has_name n c.secret_refs ≡ false
    → (secrets_handler store c (n ∷ []) w).0 ≡ err forbidden
unfolding secrets_handler fetch_all fetch log_secret_event ◌>>=◌ attempt raise
out_of_scope store c n w e h =
    let a : str_eq "" n ≡ false = ground (arith, eq_iff "" n) in rw (a, h)

-- A name that only the environment of the MCP servers mentions is announced by the context, and the
-- secrets endpoint refuses it to the token that the scheduler signs for the run.
pub secret_manifest_of-forbidden :
    (store : String → Option String) (n : String) (i : ℕ) (j : JoinedSchedule) (c : RunClaims)
    (w : World)
    → n ≢ ""
    → mentions n j.sched.mcp_env_json ≡ true
    → has_name n (args_of i j).secret_refs ≡ false
    → c.secret_refs ≡ (args_of i j).secret_refs
    → (has_name n (secret_manifest_of j.sched) ≡ true)
      × ((secrets_handler store c (n ∷ []) w).0 ≡ err forbidden)
secret_manifest_of-forbidden store n i j c w e m f k = (
  secret_manifest_of-args_of n i j ∙ ground arith,
  out_of_scope store c n w e (ap (has_name n) k ∙ f),
)

run_repo_id-tables : (i : ℕ) (v w : World) → v.tables ≡ w.tables → run_repo_id i v ≡ run_repo_id i w
unfolding run_repo_id get_run
run_repo_id-tables i v w e = ap (λ t. repo_of_run t (find (has_id i) t.runs)) e

-- the URL of the repository `i`, with a token of its installation
abbrev pub IsUrlOf : (ℕ → Option String) → ℕ → Tables → String → Type 0
IsUrlOf token i t u =
    (c : RepoRow) × (find (λ x. x.id == i) t.repos ≡ some c)
    × (k : String) × (token c.github_app_install_id ≡ some k)
    × (u
        ≡ "https://x-access-token:" +++ k +++ "@github.com/" +++ c.owner +++ "/" +++ c.name
          +++ ".git")

mint_url-ok :
    (token : ℕ → Option String) (o : Option RepoRow) (w : World) (u : String)
    → (mint_url token o w).0 ≡ ok u
    → (c : RepoRow) × (o ≡ some c)
      × (k : String) × (token c.github_app_install_id ≡ some k)
      × (u ≡ url_of k c)
unfolding mint_url raise pure
mint_url-ok token none w u h = absurd (cc)
mint_url-ok token (some c) w u h =
    let (k, e, f) = step (token c.github_app_install_id) h in (c, refl, k, e, f)
  where
    step :
        (o : Option String)
        → (minted c o w).0 ≡ ok u
        → (k : String) × (o ≡ some k) × (u ≡ url_of k c)
    step none g = absurd (cc)
    step (some k) g = (k, refl, cc)

scoped_url-ok :
    (token : ℕ → Option String) (i : ℕ) (o : Option ℕ) (w : World) (u : String)
    → (scoped_url token i o w).0 ≡ ok u
    → (o ≡ some i) × IsUrlOf token i w.tables u
unfolding scoped_url raise repo_connection
scoped_url-ok token i none w u h = absurd (cc)
scoped_url-ok token i (some s) w u h = elim (Bool-cases (s == i)) [
  | inl e ↦
      let (o, r, t) = bind-ok _ _ w u (rw e at h) in
      let (f, g) = read-ok internal_error (repo_connection i) w o r in
      let (c, there, k, minted, same) = mint_url-ok token o _ u t in
      (
        ground arith,
        (
          c,
          ap (λ (x : Tables). find (λ (y : RepoRow). y.id == i) x.repos) (sym (call-tables w))
              ∙ sym f
              ∙ there,
          k,
          minted,
          same,
        ),
      )
  | inr e ↦
      let l : ◌≡◌ {A = Outcome Response String} (err forbidden) (ok u) = rw e at h in
      absurd (cc (l))
]

-- A runner gets a clone URL only for the repository that the skill of its own run lies in, and what it
-- gets is the URL of that repository's owner and name, with a token of its installation.
pub clone_url_handler-ok :
    (token : ℕ → Option String) (claimed : ℕ) (url : Option ℕ) (w : World) (u : String)
    → (clone_url_handler token claimed url w).0 ≡ ok u
    → (i : ℕ) × (url ≡ some i) × (run_repo_id claimed w ≡ some i) × IsUrlOf token i w.tables u
unfolding clone_url_handler raise
clone_url_handler-ok token claimed none w u h = absurd (cc)
clone_url_handler-ok token claimed (some i) w u h =
    let (o, r, t) = bind-ok _ _ w u h in
    let (e, f) = read-ok internal_error (run_repo_id claimed) w o r in
    let (mine, minted) = scoped_url-ok token i o _ u t in
    (
      i,
      refl,
      sym (run_repo_id-tables claimed (call w).0 w (call-tables w)) ∙ sym e ∙ mine,
      subst (λ x. IsUrlOf token i x u) (ap (λ (v : World). v.tables) f ∙ call-tables w) minted,
    )
