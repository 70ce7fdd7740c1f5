-- ===== src/Store/Schedules.antt =====
-- The statements on the table `schedule` (internal/db/queries/schedule.sql).
use cronfoundry.Prelude.{
  ℕ, String, Bool, true, false, ◌&&◌, Option, none, some, List, [], ◌∷◌, map, leb, ◌==◌,
  if◌then◌else◌, length, select, find, head?, sort_by,
}
use cronfoundry.Store.Rows.{World, Schedule, SkillRow, RepoRow, now}
use cronfoundry.Store.Runs.{or_else}

abbrev pub schedule_has_id : ℕ → Schedule → Bool
schedule_has_id i s = i == s.id

abbrev pub update_schedules :
    (Schedule → Bool) → (Schedule → Schedule) → List Schedule → List Schedule
update_schedules p f = map (λ s. if p s then f s else s)

-- a row of a join of schedule, skill and repo_connection
pub record JoinedSchedule : Type 0 where
  pub sched : Schedule
  pub skill_sha : String
  pub install_id : ℕ

abbrev pub join_repo : Schedule → SkillRow → Option RepoRow → Option JoinedSchedule
join_repo s k none = none
join_repo s k (some r) =
    some (record { sched = s; skill_sha = k.current_sha; install_id = r.github_app_install_id })

abbrev pub join_skill : World → Schedule → Option SkillRow → Option JoinedSchedule
join_skill w s none = none
join_skill w s (some k) = join_repo s k (find (λ r. r.id == k.repo_id) w.repos)

abbrev pub join : World → Schedule → Option JoinedSchedule
join w s = join_skill w s (find (λ k. k.id == s.skill_id) w.skills)

abbrev pub cons? {ℓ} : {A : Type ℓ} → Option A → List A → List A
cons? none xs = xs
cons? (some x) xs = x ∷ xs

abbrev pub join_all : World → List Schedule → List JoinedSchedule
join_all w [] = []
join_all w (s ∷ ss) = cons? (join w s) (join_all w ss)

abbrev due_at : ℕ → Option ℕ → Bool
due_at t none = false
due_at t (some f) = leb f t

abbrev pub is_due : ℕ → Schedule → Bool
is_due t s = s.enabled && due_at t s.next_fire_at

-- ORDER BY s.next_fire_at ASC; a due row has a fire time
abbrev pub due_before : JoinedSchedule → JoinedSchedule → Bool
due_before a b = leb (or_else a.sched.next_fire_at 0) (or_else b.sched.next_fire_at 0)

-- ListDueSchedulesWithSha
unfoldable pub due_schedules : World → List JoinedSchedule
due_schedules w = sort_by due_before (join_all w (select (is_due (now w)) w.schedules))

-- UpdateScheduleNextFireAt
unfoldable pub set_next_fire_at : ℕ → ℕ → World → Option (Unit {0} × World)
set_next_fire_at i t w = some (
  tt,
  record w {
    tables = record w.tables {
      schedules =
          update_schedules (schedule_has_id i) (λ s. record s { next_fire_at = some t })
            w.schedules;
    };
  },
)

abbrev pub with_sha : Schedule → Option SkillRow → Option (Schedule × String)
with_sha s none = none
with_sha s (some k) = some (s, k.current_sha)

-- GetScheduleForTrigger: a join with skill alone
unfoldable pub trigger_schedule : ℕ → World → Option (Schedule × String)
trigger_schedule i w = elim (find (schedule_has_id i) w.schedules) [
  | none ↦ none
  | some s ↦ with_sha s (find (λ k. k.id == s.skill_id) w.skills)
]

-- GetScheduleAutoPauseConfig returns columns of this row.
unfoldable pub get_schedule : ℕ → World → Option Schedule
get_schedule i w = find (schedule_has_id i) w.schedules

abbrev pub pauses : ℕ → Schedule → Bool
pauses i s = schedule_has_id i s && s.enabled

abbrev pub pause : ℕ → ℕ → Schedule → Schedule
pause t threshold s = record s {
  enabled = false;
  auto_paused_at = some t;
  auto_pause_reason = some threshold;
}

-- AutoPauseSchedule: the number of rows that it changed
unfoldable pub auto_pause_schedule : ℕ → ℕ → World → Option (ℕ × World)
auto_pause_schedule i threshold w =
    let t = now w in
    some (
      length (select (pauses i) w.schedules),
      record w {
        tables = record w.tables {
          schedules = update_schedules (pauses i) (pause t threshold) w.schedules;
        };
      },
    )

abbrev pub in_org : ℕ → ℕ → Schedule → Bool
in_org i org s = schedule_has_id i s && s.org_id == org

abbrev pub switch : ℕ → Bool → Schedule → Schedule
switch t true s = record s {
  enabled = true;
  auto_paused_at = none;
  auto_pause_reason = none;
  last_enabled_at = if s.enabled then s.last_enabled_at else t;
}
switch t false s = record s { enabled = false }

-- SetScheduleEnabled
unfoldable pub set_enabled : ℕ → Bool → ℕ → World → Option (Option Schedule × World)
set_enabled i on org w =
    let t = now w in
    some (
      head? (map (switch t on) (select (in_org i org) w.schedules)),
      record w {
        tables = record w.tables {
          schedules = update_schedules (in_org i org) (switch t on) w.schedules;
        };
      },
    )
