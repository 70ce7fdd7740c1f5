-- ===== src/Sync/Poller.antt =====
-- internal/sync/poller.go and manifest.go: SyncOne and LoadManifest. GitHub, the clone, the files and
-- whether a call of the database fails are of the outside world, which is of any type `W`.
pub mod Effects
use Prim.Native.String.{◌++◌}
use cronfoundry.Prelude.{
  ℕ, ◌≡◌, refl, String, Bool, true, false, ◌||◌, Option, none, some, List, [], ◌∷◌, str_eq, eq_iff,
  arith, if◌then◌else◌, ◌⊎◌, inl, inr, Bool-cases,
}
use cronfoundry.Config.Manifest.{Manifest, SkillEntry, Url, ConfigError, validate}
use cronfoundry.Config.Skill.{Skill, Frontmatter, SkillError, parse_skill_file}
use cronfoundry.Config.Include.{Files, is_inside}
use cronfoundry.Sync.{SyncError}
use cronfoundry.Sync.Reconcile.{Tables, Source, upsert_skills_and_schedules}

pub data PollError : Type 0 where
  row_unread no_token no_head no_temp_dir not_cloned database mark_failed : PollError
  manifest_unread manifest_unparsed root_unresolved path_unresolved path_escapes : PollError
  skill_unread : PollError
  manifest_invalid : ConfigError → PollError
  skill_invalid : SkillError → PollError
  upsert_failed : SyncError → PollError

-- the columns of repo_connection that the poller reads and writes
pub record Connection : Type 0 where
  pub org_id : ℕ
  pub repo_id : ℕ
  pub last_synced_head_sha : Option String
  pub last_sync_error : Option PollError

pub record Outside (W : Type 0) : Type 0 where
  pub token : W → Option String × W
  pub branch_head : String → W → Option String × W
  pub make_temp_dir : W → Option String × W
  pub clone_at : String → String → String → W → Bool × W
  pub database_fails : W → Bool × W
  pub files : Files W
  pub parse_manifest : String → Option Manifest
  pub parse_url : String → Option Url
  pub yaml : String → Option Frontmatter
  pub now : ℕ
  pub next_fire : String → String → Option ℕ

pub record Pass (W : Type 0) : Type 0 where
  pub world : W
  pub tables : Tables
  pub connection : Connection

module _ {W : Type 0} (out : Outside W) where
  abbrev pub Loading : Type 0 → Type 0
  Loading A = (PollError ⊎ A) × W

  abbrev pub and_then : {A B : Type 0} → Loading A → (A → W → Loading B) → Loading B
  and_then (inl e, w) f = (inl e, w)
  and_then (inr a, w) f = f a w

  abbrev pub need : {A : Type 0} → PollError → Option A × W → Loading A
  need e (none, w) = (inl e, w)
  need e (some a, w) = (inr a, w)

  abbrev pub parsed : SkillError ⊎ Skill → W → Loading Skill
  parsed (inl e) w = (inl (skill_invalid e), w)
  parsed (inr k) w = (inr k, w)

  -- one skill, once its path is resolved
  unfoldable pub load_skill : String → Option String → W → Loading Skill
  load_skill root none w = (inl path_unresolved, w)
  load_skill root (some path) w =
      if is_inside out.files root path
      then and_then (need skill_unread (out.files.read_file (out.files.join path "SKILL.md") w))
          (λ source. parsed (parse_skill_file out.yaml source))
      else (inl path_escapes, w)

  abbrev pub add_skill :
      String → Skill → Loading (List (String × Skill)) → Loading (List (String × Skill))
  add_skill path k (inl e, w) = (inl e, w)
  add_skill path k (inr ks, w) = (inr ((path, k) ∷ ks), w)

  -- the loop over the skills
  unfoldable pub load_skills : String → List SkillEntry → W → Loading (List (String × Skill))
  load_skills root [] w = (inr [], w)
  load_skills root (e ∷ es) w =
      and_then (load_skill root (out.files.abs (out.files.join root e.path)) w)
        (λ k v. add_skill e.path k (load_skills root es v))

  abbrev pub with_manifest :
      Manifest → Loading (List (String × Skill)) → Loading (Manifest × List (String × Skill))
  with_manifest m (inl e, w) = (inl e, w)
  with_manifest m (inr ks, w) = (inr (m, ks), w)

  abbrev pub valid_or : Manifest → Option ConfigError → PollError ⊎ Manifest
  valid_or m none = inr m
  valid_or m (some e) = inl (manifest_invalid e)

  unfoldable pub load_valid :
      String → PollError ⊎ Manifest → W → Loading (Manifest × List (String × Skill))
  load_valid dir (inl e) w = (inl e, w)
  load_valid dir (inr m) w = elim (out.files.abs dir) [
    | none ↦ (inl root_unresolved, w)
    | some root ↦ with_manifest m (load_skills root m.skills w)
  ]

  abbrev pub checked_manifest : Option Manifest → PollError ⊎ Manifest
  checked_manifest none = inl manifest_unparsed
  checked_manifest (some m) = valid_or m (validate out.parse_url m)

  -- LoadManifest
  unfoldable pub load_manifest : String → W → Loading (Manifest × List (String × Skill))
  load_manifest dir w =
      and_then
        (need manifest_unread (out.files.read_file (out.files.join dir "cronfoundry.yaml") w))
        (λ source. load_valid dir (checked_manifest (out.parse_manifest source)))

  -- tempdir, clone and load; the removal of the directory is left out
  abbrev pub loaded_at :
      String → String → String → Bool × W → Loading (Manifest × List (String × Skill))
  loaded_at token sha dir (false, w) = (inl not_cloned, w)
  loaded_at token sha dir (true, w) = load_manifest (dir ++ "/repo") w

  unfoldable pub fetch : String → String → W → Loading (Manifest × List (String × Skill))
  fetch token sha w =
      and_then (need no_temp_dir (out.make_temp_dir w))
        (λ dir v. loaded_at token sha dir (out.clone_at token sha (dir ++ "/repo") v))

  abbrev pub Ended : Type 0
  Ended = Option PollError × Pass W

  abbrev pub failed_mark : PollError → Pass W → Bool × W → Ended
  failed_mark e p (true, w) = (some e, record p { world = w })
  failed_mark e p (false, w) = (
    some e,
    record p { world = w; connection = record p.connection { last_sync_error = some e } },
  )

  -- markErr
  unfoldable pub mark_err : PollError → Pass W → Ended
  mark_err e p = failed_mark e p (out.database_fails p.world)

  abbrev pub ok_mark : String → Pass W → Bool × W → Ended
  ok_mark sha p (true, w) = (some mark_failed, record p { world = w })
  ok_mark sha p (false, w) = (
    none,
    record p {
      world = w;
      connection = record p.connection { last_synced_head_sha = some sha; last_sync_error = none };
    },
  )

  -- MarkRepoSyncedOK
  unfoldable pub mark_ok : String → Pass W → Ended
  mark_ok sha p = ok_mark sha p (out.database_fails p.world)

  abbrev pub source_of : Pass W → String → Source
  source_of p sha = record {
    org_id = p.connection.org_id;
    repo_id = p.connection.repo_id;
    sha = sha;
    now = out.now;
    next_fire = out.next_fire;
  }

  abbrev pub stored : String → Pass W → SyncError ⊎ Tables → Ended
  stored sha p (inl e) = mark_err (upsert_failed e) p
  stored sha p (inr t) = mark_ok sha (record p { tables = t })

  -- the transaction, where a call of the database may fail
  abbrev pub upserted : String → Pass W → Manifest → List (String × Skill) → Bool × W → Ended
  upserted sha p m skills (true, w) = mark_err database (record p { world = w })
  upserted sha p m skills (false, w) =
      stored sha (record p { world = w })
        (upsert_skills_and_schedules (source_of p sha) m.skills skills p.tables)

  abbrev pub fetched : String → Pass W → Loading (Manifest × List (String × Skill)) → Ended
  fetched sha p (inl e, w) = mark_err e (record p { world = w })
  fetched sha p (inr (m, skills), w) =
      upserted sha (record p { world = w }) m skills (out.database_fails w)

  abbrev pub is_same : Option String → String → Bool
  is_same none sha = false
  is_same (some s) sha = str_eq s sha

  unfoldable pub at_head : String → String → Pass W → Ended
  at_head token sha p =
      if is_same p.connection.last_synced_head_sha sha
      then mark_ok sha p
      else fetched sha p (fetch token sha p.world)

  abbrev pub with_head : String → Pass W → Loading String → Ended
  with_head token p (inl e, w) = mark_err e (record p { world = w })
  with_head token p (inr sha, w) = at_head token sha (record p { world = w })

  abbrev pub with_token : Pass W → Loading String → Ended
  with_token p (inl e, w) = mark_err e (record p { world = w })
  with_token p (inr token, w) =
      with_head token (record p { world = w }) (need no_head (out.branch_head token w))

  abbrev pub with_row : Pass W → Bool × W → Ended
  with_row p (true, w) = (some row_unread, record p { world = w })
  with_row p (false, w) = with_token (record p { world = w }) (need no_token (out.token w))

  -- SyncOne
  unfoldable pub sync_one : Pass W → Ended
  sync_one p = with_row p (out.database_fails p.world)
