-- ===== src/Command/Delivery.antt =====
-- cmd/cronfoundry/runner.go and internal/redact/target.go: what the runner reports of its deliveries.
-- `url.Parse` with the host of its result, and the expression for a repository, are parameters.
use Prim.Native.String.{◌++◌}
use cronfoundry.Prelude.{
  String, Bool, ◌||◌, Option, none, some, List, [], ◌∷◌, str_eq, if◌then◌else◌,
}
use cronfoundry.Memory.{after_prefix, trim_space}
use cronfoundry.Config.Skill.{is_some}
use cronfoundry.Publish.{Result}
use cronfoundry.Api.Finalize.{Notification}
use cronfoundry.Command.Clip.{clip}

-- what is parsed by code that is not the repository's
pub record Parsers : Type 0 where
  pub url_host : String → Option String
  pub github_repo : String → Option (String × String)

abbrev pub starts_with : String → String → Bool
starts_with p s = is_some (after_prefix p s)

abbrev pub is_webhook : String → Bool
is_webhook k =
    str_eq k "slack"
    || (str_eq k "discord" || (str_eq k "teams" || (str_eq k "http-json" || str_eq k "http")))

abbrev pub host_or : String → Option String → String
host_or raw none = raw
host_or raw (some h) = if str_eq h "" then raw else h

abbrev pub repo_or : String → Option (String × String) → String
repo_or raw none = raw
repo_or raw (some (owner, name)) = owner ++ "/" ++ name

-- the switch of Target, once the input is trimmed
unfoldable pub target_of : Parsers → String → String → String
target_of p kind raw =
    if is_webhook kind
    then if starts_with "http://" raw || starts_with "https://" raw
      then host_or raw (p.url_host raw)
      else raw
    else if str_eq kind "github-issue"
    then repo_or raw (p.github_repo raw)
    else raw

-- redact.Target
unfoldable pub redact_target : Parsers → String → String → String
redact_target p kind raw = target_of p kind (trim_space raw)

abbrev pub or_unknown : String → String
or_unknown s = if str_eq s "" then "<unknown>" else s

abbrev pub status_of : Result → String
status_of r = if r.is_ok then if r.skipped then "skipped" else "sent" else "failed"

abbrev pub clip_reason : Option String → Option String
clip_reason none = none
clip_reason (some s) = some (clip s 2000)

abbrev pub skip_reason_of : String → Option String
skip_reason_of s = if str_eq s "" then none else some s

-- the text that is clipped to the reason
abbrev pub full_reason : Result → Option String
full_reason r =
    if r.is_ok then if r.skipped then skip_reason_of r.skip_reason else none else r.error

-- one step of the loop
unfoldable pub notification_of : Parsers → Result → Notification
notification_of p r = record {
  kind = or_unknown (clip r.kind 200);
  target = or_unknown (clip (redact_target p r.kind r.target) 200);
  status = status_of r;
  reason = clip_reason (full_reason r);
}

-- buildNotifications
unfoldable pub build_notifications : Parsers → List Result → List Notification
build_notifications p [] = []
build_notifications p (r ∷ rs) = notification_of p r ∷ build_notifications p rs
