-- ===== src/Tests/Manifests.antt =====
-- A manifest with one skill.
use cronfoundry.Prelude.{String, refl, Option, none, some, [], ◌∷◌, pos}
use cronfoundry.Config.Json.{Json, object, member, no_members, array, element, no_elements, string}
use cronfoundry.Config.Manifest.{
  Url, ScheduleEntry, SkillEntry, Manifest, Destination, validate, validate_skills,
  validate_schedules, validate_fields, bad_max_turns, valid_overlap, bad_auto_pause,
  validate_destinations, validate_destination, valid_when, validate_http, valid_method,
  validate_email,
}
use cronfoundry.Config.Manifest.Valid.{IsValidManifest, validate-IsValidManifest}

-- every URL is one of a host
abbrev pub parse : String → Option Url
parse u = some (record { scheme = "https"; host = "example.com" })

abbrev to_http : Destination
to_http = record {
  github_issue = none;
  slack = none;
  discord = none;
  teams = none;
  http = some (record { url = "https://example.com/hook"; method = "POST"; output = "" });
  email = none;
  when = "on_failure";
}

abbrev pub nightly : ScheduleEntry
nightly = record {
  name = "nightly";
  cron = "0 3 * * *";
  timezone = "";
  timeout_sec = pos 0;
  provider = "anthropic";
  model = "claude";
  overlap_policy = "queue";
  max_turns = pos 8;
  destinations = to_http ∷ [];
  writeback = none;
  env = [];
  mcp_env = [];
  auto_pause = some (pos 3);
  copilot_prefix = "";
}

abbrev digest : SkillEntry
digest = record { path = "skills/digest"; schedules = nightly ∷ [] }

abbrev pub manifest : Manifest
manifest = record { version = pos 1; skills = digest ∷ [] }

validate-IsValidManifest_example : IsValidManifest parse manifest
unfolding validate validate_skills validate_schedules validate_fields bad_max_turns valid_overlap
    bad_auto_pause validate_destinations validate_destination valid_when validate_http valid_method
    validate_email
validate-IsValidManifest_example = validate-IsValidManifest parse manifest refl

-- destinations that name a secret, in a list
abbrev hooks : Json
hooks = array (
    element (object (member "url" (object (member "secret" (string "hook") no_members)) no_members))
      no_elements)

abbrev no_env : Json
no_env = object no_members
