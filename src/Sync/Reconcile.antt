-- ===== src/Sync/Reconcile.antt =====
-- internal/sync/upsert.go: UpsertSkillsAndSchedules, with the statements of
-- internal/db/queries/skill.sql and schedule.sql that it runs. It all happens in one transaction, so
-- the result is an error or the new rows; a call of the database that fails is an error like the
-- others.
use cronfoundry.Prelude.{
  ℕ, suc, String, Bool, true, false, ◌&&◌, ◌||◌, not, Option, none, some, List, [], ◌∷◌, map,
  select, ◌==◌, str_eq, if◌then◌else◌, any, ◌⊎◌, inl, inr,
}
use cronfoundry.Config.Manifest.{ScheduleEntry, SkillEntry}
use cronfoundry.Config.Skill.{Skill, Frontmatter}
use cronfoundry.Runner.Cost.{lookup}
use cronfoundry.Sync.{
  SkillRecord, UpsertScheduleParams, ScheduleRecord, SyncError, missing_skill, schedule_params,
}

pub record Tables : Type 0 where
  pub skills : List SkillRecord
  pub schedules : List ScheduleRecord
  pub next_id : ℕ

-- the key of ON CONFLICT (skill_id, name)
abbrev pub has_key : ℕ → String → ScheduleRecord → Bool
has_key skill_id name r = (r.fields.skill_id == skill_id) && str_eq r.fields.name name

abbrev pub is_none : Option ℕ → Bool
is_none none = true
is_none (some n) = false

-- the CASE for next_fire_at
abbrev pub rearms : ScheduleRecord → UpsertScheduleParams → Bool
rearms r p =
    is_none r.next_fire_at
    || (not r.fields.enabled
        || (not (str_eq r.fields.cron p.cron) || not (str_eq r.fields.timezone p.timezone)))

-- DO UPDATE, which does not set org_id
unfoldable pub updated : ScheduleRecord → UpsertScheduleParams → ScheduleRecord
updated r p = record r {
  fields = record p { org_id = r.fields.org_id };
  next_fire_at = if rearms r p then some p.next_fire_at else r.next_fire_at;
}

abbrev pub inserted : ℕ → ℕ → UpsertScheduleParams → ScheduleRecord
inserted id now p = record {
  id = id;
  fields = p;
  next_fire_at = some p.next_fire_at;
  auto_paused_at = none;
  auto_pause_reason = none;
  last_enabled_at = now;
}

-- UpsertSchedule, on the rows
unfoldable pub upsert_into :
    ℕ → ℕ → UpsertScheduleParams → List ScheduleRecord → List ScheduleRecord
upsert_into id now p [] = inserted id now p ∷ []
upsert_into id now p (r ∷ rs) =
    let rest = upsert_into id now p rs in
    if has_key p.skill_id p.name r then updated r p ∷ rs else r ∷ rest

abbrev pub is_missing : ℕ → List String → ScheduleRecord → Bool
is_missing skill_id names r =
    (r.fields.skill_id == skill_id) && (r.fields.enabled && not (any (str_eq r.fields.name) names))

abbrev pub disable : ScheduleRecord → ScheduleRecord
disable r = record r { fields = record r.fields { enabled = false } }

-- DisableMissingSchedules
unfoldable pub disable_missing : ℕ → List String → List ScheduleRecord → List ScheduleRecord
disable_missing skill_id names [] = []
disable_missing skill_id names (r ∷ rs) =
    let rest = disable_missing skill_id names rs in
    (if is_missing skill_id names r then disable r else r) ∷ rest

abbrev pub is_at : ℕ → String → SkillRecord → Bool
is_at repo_id path k = (k.repo_id == repo_id) && str_eq k.path path

-- the identity of the sync: organisation, repository, commit and the time of the transaction
pub record Source : Type 0 where
  pub org_id : ℕ
  pub repo_id : ℕ
  pub sha : String
  pub now : ℕ
  pub next_fire : String → String → Option ℕ

abbrev pub skill_record : Source → ℕ → String → Frontmatter → SkillRecord
skill_record s id path f = record {
  id = id;
  org_id = s.org_id;
  repo_id = s.repo_id;
  path = path;
  name = f.name;
  current_sha = s.sha;
  frontmatter = f;
}

abbrev pub updated_skill : Source → Frontmatter → SkillRecord → SkillRecord
updated_skill s f k = record k { name = f.name; current_sha = s.sha; frontmatter = f }

-- UpsertSkill, on the rows, with the id of the row
unfoldable pub upsert_skill :
    Source → ℕ → String → Frontmatter → List SkillRecord → ℕ × List SkillRecord
upsert_skill s id path f [] = (id, skill_record s id path f ∷ [])
upsert_skill s id path f (k ∷ ks) =
    let (found, rest) = upsert_skill s id path f ks in
    if is_at s.repo_id path k then (k.id, updated_skill s f k ∷ ks) else (found, k ∷ rest)

-- the map `skillByPath`, the last path first
abbrev pub Ids : Type 0
Ids = List (String × ℕ)

abbrev pub put_skill : Source → SkillEntry → Frontmatter → Tables → Ids → Tables × Ids
put_skill s e f t ids =
    let (id, rows) = upsert_skill s t.next_id e.path f t.skills in
    (record t { skills = rows; next_id = suc t.next_id }, (e.path, id) ∷ ids)

abbrev pub put_if : Source → SkillEntry → Option Skill → Tables → Ids → SyncError ⊎ (Tables × Ids)
put_if s e none t ids = inl missing_skill
put_if s e (some k) t ids = inr (put_skill s e k.frontmatter t ids)

module _ {A B : Type 0} where
  abbrev pub then_do : SyncError ⊎ A → (A → SyncError ⊎ B) → SyncError ⊎ B
  then_do (inl e) f = inl e
  then_do (inr a) f = f a

-- step 1
unfoldable pub upsert_skills :
    Source → List (String × Skill) → List SkillEntry → Tables → Ids → SyncError ⊎ (Tables × Ids)
upsert_skills s skills [] t ids = inr (t, ids)
upsert_skills s skills (e ∷ es) t ids =
    then_do (put_if s e (lookup e.path skills) t ids) (λ r. upsert_skills s skills es r.0 r.1)

abbrev pub stays : Source → List String → SkillRecord → Bool
stays s paths k = not (k.repo_id == s.repo_id) || any (str_eq k.path) paths

abbrev pub of_skill : List SkillRecord → ScheduleRecord → Bool
of_skill ks r = any (λ k. k.id == r.fields.skill_id) ks

-- DeleteMissingSkills, which takes the schedules of a skill with it, and their runs, which are not here
unfoldable pub delete_missing : Source → List String → Tables → Tables
delete_missing s paths t = record t {
  skills = select (stays s paths) t.skills;
  schedules =
      select (λ r. not (of_skill (select (λ k. not (stays s paths k)) t.skills) r)) t.schedules;
}

abbrev pub put_schedule : Source → UpsertScheduleParams → Tables → Tables
put_schedule s p t = record t {
  schedules = upsert_into t.next_id s.now p t.schedules;
  next_id = suc t.next_id;
}

-- the loop over the schedules of a skill
unfoldable pub upsert_schedules :
    Source → ℕ → Frontmatter → List ScheduleEntry → Tables → SyncError ⊎ Tables
upsert_schedules s skill_id f [] t = inr t
upsert_schedules s skill_id f (e ∷ es) t =
    then_do (schedule_params s.next_fire s.org_id skill_id f e)
      (λ p. upsert_schedules s skill_id f es (put_schedule s p t))

abbrev pub names_of : List ScheduleEntry → List String
names_of es = map (λ e. e.name) es

-- step 3 for one skill
unfoldable pub sync_skill :
    Source → ℕ → Frontmatter → List ScheduleEntry → Tables → SyncError ⊎ Tables
sync_skill s skill_id f es t =
    then_do (upsert_schedules s skill_id f es t)
      (λ v. inr (record v { schedules = disable_missing skill_id (names_of es) v.schedules }))

abbrev pub sync_if : Source → Option ℕ → Option Skill → SkillEntry → Tables → SyncError ⊎ Tables
sync_if s (some id) (some k) e t = sync_skill s id k.frontmatter e.schedules t
sync_if s (some id) none e t = inl missing_skill
sync_if s none k e t = inl missing_skill

-- step 3
unfoldable pub sync_all :
    Source → List (String × Skill) → Ids → List SkillEntry → Tables → SyncError ⊎ Tables
sync_all s skills ids [] t = inr t
sync_all s skills ids (e ∷ es) t =
    then_do (sync_if s (lookup e.path ids) (lookup e.path skills) e t) (sync_all s skills ids es)

-- UpsertSkillsAndSchedules
unfoldable pub upsert_skills_and_schedules :
    Source → List SkillEntry → List (String × Skill) → Tables → SyncError ⊎ Tables
upsert_skills_and_schedules s entries skills t =
    then_do (upsert_skills s skills entries t [])
      (λ r. sync_all s skills r.1 entries (delete_missing s (map (λ e. e.path) entries) r.0))
