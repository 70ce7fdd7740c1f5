-- ===== src/Config/Manifest.antt =====
-- internal/config/manifest.go: the manifest's types, their defaults, Validate and FindSchedule. The
-- fields that no modelled function reads are left out. `url.ParseRequestURI` is a parameter.
pub mod Valid
pub mod Lookup
use Prim.Native.Char.{code}
use cronfoundry.Prelude.{
  ℕ, String, Bool, true, false, ◌&&◌, ◌||◌, not, Option, none, some, List, [], ◌∷◌, ℤ, pos, negsuc,
  ltb, leb, ◌==◌, str_eq, if◌then◌else◌, any, all,
}

pub record GithubIssueDest : Type 0 where
  pub repo : String
  pub output : String

pub record WebhookDest : Type 0 where
  pub secret : String
  pub output : String

pub record HttpDest : Type 0 where
  pub url : String
  pub method : String
  pub output : String

pub record EmailDest : Type 0 where
  pub smtp_host : String
  pub smtp_port : ℤ
  pub username_secret : String
  pub password_secret : String
  pub from : String
  pub to : List String
  pub format : String
  pub output : String

pub record Destination : Type 0 where
  pub github_issue : Option GithubIssueDest
  pub slack : Option WebhookDest
  pub discord : Option WebhookDest
  pub teams : Option WebhookDest
  pub http : Option HttpDest
  pub email : Option EmailDest
  pub when : String

-- `output` of a destination is the output block to send; of a value of the environment, exactly one
-- field is set.
pub record EnvValue : Type 0 where
  pub literal : String
  pub secret : String

pub record WritebackConfig : Type 0 where
  pub enabled : Bool
  pub path : String
  pub mode : String

-- a map from names to values, each name once
abbrev pub EnvMap : Type 0
EnvMap = List (String × EnvValue)

pub record ScheduleEntry : Type 0 where
  pub name : String
  pub cron : String
  pub timezone : String
  pub timeout_sec : ℤ
  pub provider : String
  pub model : String
  pub overlap_policy : String
  pub max_turns : ℤ
  pub destinations : List Destination
  pub writeback : Option WritebackConfig
  pub env : EnvMap
  pub mcp_env : List (String × EnvMap)
  pub auto_pause : Option ℤ
  pub copilot_prefix : String

pub record SkillEntry : Type 0 where
  pub path : String
  pub schedules : List ScheduleEntry

pub record Manifest : Type 0 where
  pub version : ℤ
  pub skills : List SkillEntry

pub record Url : Type 0 where
  pub scheme : String
  pub host : String

pub data ConfigError : Type 0 where
  version_required version_unsupported path_required duplicate_path name_required : ConfigError
  duplicate_name cron_required provider_required model_required prefix_required : ConfigError
  max_turns_range overlap_invalid auto_pause_range when_invalid url_required : ConfigError
  url_invalid host_required method_unsupported smtp_host_required : ConfigError
  username_secret_required password_secret_required from_required to_required : ConfigError
  to_empty smtp_port_range format_invalid : ConfigError

-- `if bad { return err }`
abbrev pub refuse : Bool → ConfigError → Option ConfigError → Option ConfigError
refuse bad e rest = if bad then some e else rest

-- ShouldPublish
unfoldable pub should_publish : Destination → Bool → Bool
should_publish d run_succeeded =
    if str_eq d.when "on_success"
    then run_succeeded
    else if str_eq d.when "on_failure"
    then not run_succeeded
    else true

unfoldable pub valid_when : String → Bool
valid_when w =
    str_eq w "" || (str_eq w "always" || (str_eq w "on_success" || str_eq w "on_failure"))

unfoldable pub valid_method : String → Bool
valid_method m =
    str_eq m ""
    || (str_eq m "GET"
        || (str_eq m "POST" || (str_eq m "PUT" || (str_eq m "PATCH" || str_eq m "DELETE"))))

abbrev pub bad_scheme : Option Url → Bool
bad_scheme none = true
bad_scheme (some u) = not (str_eq u.scheme "http") && not (str_eq u.scheme "https")

abbrev pub no_host : Option Url → Bool
no_host none = true
no_host (some u) = str_eq u.host ""

unfoldable pub validate_http : (String → Option Url) → Option HttpDest → Option ConfigError
validate_http parse none = none
validate_http parse (some h) = refuse (str_eq h.url "") url_required (
    refuse (bad_scheme (parse h.url)) url_invalid (
      refuse (no_host (parse h.url)) host_required
        (refuse (not (valid_method h.method)) method_unsupported none)))

-- unicode.IsSpace
unfoldable pub is_space : ℕ → Bool
is_space c =
    leb 9 c && leb c 13
    || (c == 32
        || (c == 0x85
            || (c == 0xa0
                || (c == 0x1680
                    || (leb 0x2000 c && leb c 0x200a
                        || (c == 0x2028
                            || (c == 0x2029 || (c == 0x202f || (c == 0x205f || c == 0x3000)))))))))

-- strings.TrimSpace(s) == ""
unfoldable pub is_blank : String → Bool
unfolding is_space
is_blank String.[] = true
is_blank (String.◌∷◌ c s) = is_space (code c) && is_blank s

abbrev pub is_empty {ℓ} : {A : Type ℓ} → List A → Bool
is_empty [] = true
is_empty (x ∷ xs) = false

-- set, and not between 1 and 65535
unfoldable pub bad_port : ℤ → Bool
bad_port (pos n) = not (n == 0) && ltb 65535 n
bad_port (negsuc n) = true

unfoldable pub valid_format : String → Bool
valid_format f = str_eq f "" || (str_eq f "html" || str_eq f "text")

unfoldable pub validate_email : Option EmailDest → Option ConfigError
validate_email none = none
validate_email (some e) = refuse (str_eq e.smtp_host "") smtp_host_required (
    refuse (str_eq e.username_secret "") username_secret_required (
      refuse (str_eq e.password_secret "") password_secret_required (
        refuse (str_eq e.from "") from_required (
          refuse (is_empty e.to) to_required (
            refuse (any is_blank e.to) to_empty (
              refuse (bad_port e.smtp_port) smtp_port_range
                (refuse (not (valid_format e.format)) format_invalid none)))))))

abbrev pub first_error : Option ConfigError → Option ConfigError → Option ConfigError
first_error none rest = rest
first_error (some e) rest = some e

-- Destination.Validate
unfoldable pub validate_destination : (String → Option Url) → Destination → Option ConfigError
validate_destination parse d =
    refuse (not (valid_when d.when)) when_invalid
      (first_error (validate_http parse d.http) (validate_email d.email))

unfoldable pub validate_destinations : (String → Option Url) → List Destination → Option ConfigError
validate_destinations parse [] = none
validate_destinations parse (d ∷ ds) =
    first_error (validate_destination parse d) (validate_destinations parse ds)

-- validOverlap
unfoldable pub valid_overlap : String → Bool
valid_overlap o = str_eq o "" || (str_eq o "skip" || (str_eq o "queue" || str_eq o "concurrent"))

unfoldable pub effective_overlap_policy : ScheduleEntry → String
effective_overlap_policy s = if str_eq s.overlap_policy "" then "skip" else s.overlap_policy

unfoldable pub bad_max_turns : ℤ → Bool
bad_max_turns (pos n) = ltb 2147483647 n
bad_max_turns (negsuc n) = true

unfoldable pub bad_auto_pause : Option ℤ → Bool
bad_auto_pause none = false
bad_auto_pause (some (pos n)) = n == 0
bad_auto_pause (some (negsuc n)) = true

abbrev pub lacks_prefix : ScheduleEntry → Bool
lacks_prefix s = str_eq s.provider "copilot-enterprise" && str_eq s.copilot_prefix ""

-- the checks of a schedule's body, in their order
unfoldable pub validate_fields : (String → Option Url) → ScheduleEntry → Option ConfigError
validate_fields parse s = refuse (str_eq s.cron "") cron_required (
    refuse (str_eq s.provider "") provider_required (
      refuse (str_eq s.model "") model_required (
        refuse (lacks_prefix s) prefix_required (
          refuse (bad_max_turns s.max_turns) max_turns_range (
            refuse (not (valid_overlap s.overlap_policy)) overlap_invalid (
              refuse (bad_auto_pause s.auto_pause) auto_pause_range
                (validate_destinations parse s.destinations)))))))

-- the inner loop; `seen` is seenSched
unfoldable pub validate_schedules :
    (String → Option Url) → List String → List ScheduleEntry → Option ConfigError
validate_schedules parse seen [] = none
validate_schedules parse seen (s ∷ ss) = refuse (str_eq s.name "") name_required (
    refuse (any (str_eq s.name) seen) duplicate_name
      (first_error (validate_fields parse s) (validate_schedules parse (s.name ∷ seen) ss)))

-- the outer loop; `seen` is seenSkills
unfoldable pub validate_skills :
    (String → Option Url) → List String → List SkillEntry → Option ConfigError
validate_skills parse seen [] = none
validate_skills parse seen (k ∷ ks) = refuse (str_eq k.path "") path_required (
    refuse (any (str_eq k.path) seen) duplicate_path (
      first_error (validate_schedules parse [] k.schedules)
        (validate_skills parse (k.path ∷ seen) ks)))

abbrev pub version_error : ℤ → Option ConfigError → Option ConfigError
version_error (pos n) rest =
    if n == 0 then some version_required else if n == 1 then rest else some version_unsupported
version_error (negsuc n) rest = some version_unsupported

-- Manifest.Validate
unfoldable pub validate : (String → Option Url) → Manifest → Option ConfigError
validate parse m = version_error m.version (validate_skills parse [] m.skills)

unfoldable pub find_in : String → List ScheduleEntry → Option ScheduleEntry
find_in name [] = none
find_in name (s ∷ ss) = if str_eq s.name name then some s else find_in name ss

abbrev pub with_skill : SkillEntry → Option ScheduleEntry → Option (SkillEntry × ScheduleEntry)
with_skill k none = none
with_skill k (some s) = some (k, s)

-- FindSchedule: the first skill with the path decides
unfoldable pub find_schedule :
    String → String → List SkillEntry → Option (SkillEntry × ScheduleEntry)
find_schedule path name [] = none
find_schedule path name (k ∷ ks) =
    if str_eq k.path path
    then with_skill k (find_in name k.schedules)
    else find_schedule path name ks
