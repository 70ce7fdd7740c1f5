-- ===== src/Tests/Syncing.antt =====
-- Syncs of a skill with one schedule, which the table has as a paused row, and another row of the
-- skill that the manifest does not list.
use cronfoundry.Prelude.{
  ◌+◌, ℕ, ◌≡◌, refl, String, Bool, true, false, none, some, [], ◌∷◌, pos, find, inr, All, ◌==◌,
}
use cronfoundry.Config.Manifest.{effective_overlap_policy}
use cronfoundry.Config.Skill.{Frontmatter}
use cronfoundry.Sync.{
  UpsertScheduleParams, ScheduleRecord, schedule_params, check_servers, max_turns_column,
  auto_pause_column,
}
use cronfoundry.Sync.Reconcile.{
  Tables, Source, has_key, upsert_into, updated, disable_missing, upsert_schedules, sync_skill,
}
use cronfoundry.Sync.Upserts.{Kept, upsert_into-Kept}
use cronfoundry.Sync.Synced.{Stored, Listed, sync_skill-Stored}
use cronfoundry.Command.Finalizing.{to_int32}
use cronfoundry.Sync.Poller.{Outside, Pass, sync_one}
use cronfoundry.Sync.Poller.Effects.{After, sync_one-After}
use cronfoundry.Tests.Manifests.{nightly, manifest, parse}
use cronfoundry.Tests.Runs.{deps}

abbrev front : Frontmatter
front = record { name = "digest"; max_tokens = pos 100; max_turns = pos 0; mcp_servers = [] }

abbrev columns : String → Bool → UpsertScheduleParams
columns name enabled = record {
  org_id = 1;
  skill_id = 1;
  name = name;
  cron = "0 3 * * *";
  timezone = "UTC";
  overlap_policy = "queue";
  timeout_sec = pos 600;
  enabled = enabled;
  provider = "anthropic";
  model = "claude";
  destinations = nightly.destinations;
  writeback = none;
  env = [];
  auto_pause_after = some (pos 3);
  mcp_env = [];
  max_turns = some (pos 8);
  copilot_prefix = none;
  next_fire_at = 900;
}

abbrev paused : ScheduleRecord
paused = record {
  id = 1;
  fields = columns "nightly" false;
  next_fire_at = some 100;
  auto_paused_at = some 50;
  auto_pause_reason = some "3 consecutive failures";
  last_enabled_at = 10;
}

abbrev unlisted : ScheduleRecord
unlisted = record paused { id = 2; fields = columns "weekly" true; auto_paused_at = none }

abbrev before : Tables
before = record { skills = []; schedules = paused ∷ unlisted ∷ []; next_id = 3 }

abbrev at_commit : Source
at_commit = record {
  org_id = 1;
  repo_id = 1;
  sha = "c0ffee";
  now = 500;
  next_fire = λ cron zone. some 900;
}

abbrev enabled_row : ScheduleRecord
enabled_row = record paused { fields = columns "nightly" true; next_fire_at = some 900 }

abbrev disabled_row : ScheduleRecord
disabled_row = record unlisted { fields = columns "weekly" false }

abbrev after : Tables
after = record { skills = []; schedules = enabled_row ∷ disabled_row ∷ []; next_id = 4 }

synced : sync_skill at_commit 1 front (nightly ∷ []) before ≡ inr after
unfolding sync_skill upsert_schedules schedule_params check_servers max_turns_column
    auto_pause_column to_int32 effective_overlap_policy upsert_into updated disable_missing
synced = refl

sync_skill-Stored_example :
    All (Stored at_commit 1 front after.schedules) (nightly ∷ [])
    × All (Listed 1 ("nightly" ∷ [])) after.schedules
    × ((j : ℕ) (n : String)
        → (j == 1) ≡ false
        → find (has_key j n) after.schedules ≡ find (has_key j n) before.schedules)
sync_skill-Stored_example =
    sync_skill-Stored at_commit 1 front (nightly ∷ []) before after (refl, tt) synced

upsert_into-Kept_example :
    (x : ScheduleRecord) × (find
        (has_key 1 "nightly")
        (upsert_into 3 500 (columns "nightly" true) before.schedules)
      ≡ some x)
    × Kept paused (columns "nightly" true) x
upsert_into-Kept_example =
    upsert_into-Kept 3 500 (columns "nightly" true) paused before.schedules refl

-- GitHub has a new commit; the repository has a manifest and its SKILL.md
abbrev outside : Outside ℕ
outside = record {
  token = λ w. (some "token", w);
  branch_head = λ token w. (some "c0ffee", w);
  make_temp_dir = λ w. (some "/tmp/clone", w);
  clone_at = λ token sha dir w. (true, w);
  database_fails = λ w. (false, w + 1);
  files = deps.files;
  parse_manifest = λ text. some manifest;
  parse_url = parse;
  yaml = λ text. some front;
  now = 500;
  next_fire = λ cron zone. some 900;
}

abbrev first_pass : Pass ℕ
first_pass = record {
  world = 0;
  tables = before;
  connection = record {
    org_id = 1;
    repo_id = 1;
    last_synced_head_sha = none;
    last_sync_error = none;
  };
}

sync_one-After_example : After outside first_pass (sync_one outside first_pass)
sync_one-After_example = sync_one-After outside first_pass
