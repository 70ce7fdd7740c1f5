-- ===== src/Command/Accepted.antt =====
-- cmd/cronfoundry/runner.go against internal/api/finalize.go: the checks of the endpoint on the reports
-- of the runner.
use Prim.Native.String.{len}
use cronfoundry.Prelude.{
  ℕ, ◌-◌, ◌/◌, ◌%◌, ◌^◌, ◌≤◌, ◌<◌, ◌≡◌, refl, pos, String, Bool, true, false, ◌||◌, Option, none,
  some, List, [], ◌∷◌, all, All, ltb, leb, ◌==◌, str_eq, arith, if◌then◌else◌, Bool-cases, inl, inr,
}
use cronfoundry.Store.Rows.{Status}
use cronfoundry.Store.Logs.{valid_notification_status}
use cronfoundry.Api.AutoPause.{Show}
use cronfoundry.Api.Finalize.{
  FinalizeBody, Notification, valid_notification, too_long, is_below_zero, has_negative,
  finalize_status, finalize_checked, finalize_body, finalize_valid,
}
use cronfoundry.Publish.{Result}
use cronfoundry.Runner.Execute.{RunResult, RunStatus, succeeded, partial_failure, failed}
use cronfoundry.Command.Clip.{clip, clip-len, torn_by_clip}
use cronfoundry.Command.Delivery.{
  Parsers, redact_target, or_unknown, status_of, clip_reason, full_reason, notification_of,
  build_notifications,
}
use cronfoundry.Command.Finalizing.{
  to_int32, milliseconds, duration_of, tokens_of, reported_status, finalize_request, failed_request,
}

abbrev untorn_reason : Option String → ℕ
untorn_reason none = 0
untorn_reason (some s) = torn_by_clip s 2000

-- no cut that clip makes of a result lies within a character
pub record IsUntorn (p : Parsers) (r : Result) : Type 0 where
  pub kind : torn_by_clip r.kind 200 ≡ 0
  pub target : torn_by_clip (redact_target p r.kind r.target) 200 ≡ 0
  pub reason : untorn_reason (full_reason r) ≡ 0

choice-len : (b : Bool) (s : String) → len s ≤ 200 → len (if b then "<unknown>" else s) ≤ 200
choice-len true s h = omega arith
choice-len false s h = h

or_unknown-len : (s : String) → len s ≤ 200 → len (or_unknown s) ≤ 200
or_unknown-len s h = choice-len (str_eq s "") s h

choice-some :
    (b : Bool) (s : String) → str_eq s "" ≡ b → str_eq (if b then "<unknown>" else s) "" ≡ false
choice-some true s h = refl
choice-some false s h = h

or_unknown-some : (s : String) → str_eq (or_unknown s) "" ≡ false
or_unknown-some s = choice-some (str_eq s "") s refl

reason-short : (o : Option String) → untorn_reason o ≡ 0 → too_long 2000 (clip_reason o) ≡ false
reason-short none h = refl
reason-short (some s) h = ground (arith, clip-len s 2000 (omega arith), h)

name-valid :
    (a b : Bool)
    → valid_notification_status (if a then if b then "skipped" else "sent" else "failed") ≡ true
name-valid true true = refl
name-valid true false = refl
name-valid false b = refl

status_of-valid : (r : Result) → valid_notification_status (status_of r) ≡ true
status_of-valid r = name-valid r.is_ok r.skipped

valid :
    (n : Notification)
    → str_eq n.kind "" ≡ false
    → len n.kind ≤ 200
    → str_eq n.target "" ≡ false
    → len n.target ≤ 200
    → valid_notification_status n.status ≡ true
    → too_long 2000 n.reason ≡ false
    → valid_notification n ≡ true
unfolding valid_notification
valid n a b c d e f = ground (arith, a, b, c, d, e, f)

notification_of-valid :
    (p : Parsers) (r : Result) → IsUntorn p r → valid_notification (notification_of p r) ≡ true
unfolding notification_of
notification_of-valid p r u =
    valid (notification_of p r) (or_unknown-some (clip r.kind 200))
      (or_unknown-len (clip r.kind 200) (omega (arith, clip-len r.kind 200 (omega arith), u.kind)))
      (or_unknown-some (clip (redact_target p r.kind r.target) 200))
      (or_unknown-len (clip (redact_target p r.kind r.target) 200)
        (omega (arith, clip-len (redact_target p r.kind r.target) 200 (omega arith), u.target)))
      (status_of-valid r) (reason-short (full_reason r) u.reason)

-- The notifications of any results of which no text is cut within a character are valid for the
-- endpoint.
pub build_notifications-valid :
    (p : Parsers) (rs : List Result)
    → All (IsUntorn p) rs
    → all valid_notification (build_notifications p rs) ≡ true
unfolding build_notifications
build_notifications-valid p [] h = refl
build_notifications-valid p (r ∷ rs) (u, h) =
    rw (notification_of-valid p r u, build_notifications-valid p rs h)

-- what int32 holds of a run
pub record IsSmall (r : RunResult) : Type 0 where
  pub forward : r.started_at ≤ r.finished_at
  pub duration : (r.finished_at - r.started_at) / 1000000 < 2 ^ 31
  pub input : r.usage.input_tokens < 2 ^ 31
  pub output : r.usage.output_tokens < 2 ^ 31
  pub cost : r.cost_cents < 2 ^ 31

to_int32-small : (n : ℕ) → n < 2 ^ 31 → to_int32 (pos n) ≡ pos n
unfolding to_int32
to_int32-small n h =
    let small : n % 2 ^ 32 ≡ n = omega arith in
    let below : ltb n (2 ^ 31) ≡ true = ground arith in rw (small, below)

tokens_of-positive : (n : ℕ) → n < 2 ^ 31 → is_below_zero (tokens_of n) ≡ false
tokens_of-positive n h = elim (Bool-cases (n == 0)) [
  | inl e ↦ rw e
  | inr e ↦ rw (e, to_int32-small n h)
]

forward-milliseconds : (a b : ℕ) → a ≤ b → milliseconds a b ≡ pos ((b - a) / 1000000)
unfolding milliseconds
forward-milliseconds a b h = let e : leb a b ≡ true = ground arith in rw e

duration_of-positive : (r : RunResult) → IsSmall r → is_below_zero (duration_of r) ≡ false
duration_of-positive r h = elim (Bool-cases (r.started_at == 0 || r.finished_at == 0)) [
  | inl e ↦ rw e
  | inr e ↦ rw (
    e,
    forward-milliseconds r.started_at r.finished_at h.forward,
    to_int32-small ((r.finished_at - r.started_at) / 1000000) h.duration,
  )
]

cost-positive : (n : ℕ) → n < 2 ^ 31 → is_below_zero (some (to_int32 (pos n))) ≡ false
cost-positive n h = rw (to_int32-small n h)

request-positive :
    (p : Parsers) (r : RunResult) (error : Option String)
    → IsSmall r
    → has_negative (finalize_request p r error) ≡ false
unfolding finalize_request
request-positive p r error h = rw (
  duration_of-positive r h,
  tokens_of-positive r.usage.input_tokens h.input,
  tokens_of-positive r.usage.output_tokens h.output,
  cost-positive r.cost_cents h.cost,
)

-- the status that the endpoint reads
abbrev pub stored_status : Option String → RunStatus → Status
stored_status none succeeded = Status.succeeded
stored_status none partial_failure = Status.partial_failure
stored_status none failed = Status.failed
stored_status (some message) s = Status.failed

request-status :
    (error : Option String) (s : RunStatus)
    → finalize_status (reported_status error s) ≡ some (stored_status error s)
unfolding finalize_status
request-status none succeeded = refl
request-status none partial_failure = refl
request-status none failed = refl
request-status (some message) s = refl

checked :
    (s : Show) (id : ℕ) (b : FinalizeBody) (st : Status)
    → finalize_status b.status ≡ some st
    → has_negative b ≡ false
    → all valid_notification b.notifications ≡ true
    → finalize_body s id (some b) ≡ finalize_valid s id b st
unfolding finalize_body finalize_checked
checked s id b st x y z = rw (x, y, z)

-- If the clock has not gone back, the duration in milliseconds, the tokens and the cost are below
-- 2 ^ 31, and no text of a publish result is cut within a character, then the report of a run passes
-- every check of the endpoint: it goes on to store it with the status of the run, or failed if the run
-- returned an error.
pub finalize_request-accepted :
    (p : Parsers) (s : Show) (id : ℕ) (r : RunResult) (error : Option String)
    → IsSmall r
    → All (IsUntorn p) r.publish_results
    → finalize_body s id (some (finalize_request p r error))
      ≡ finalize_valid s id (finalize_request p r error) (stored_status error r.status)
unfolding finalize_request
finalize_request-accepted p s id r error small untorn =
    checked s id (finalize_request p r error) (stored_status error r.status)
      (request-status error r.status) (request-positive p r error small)
      (build_notifications-valid p r.publish_results untorn)

-- The report of a failure before the run passes every check of the endpoint, whatever its kind and
-- message are.
pub failed_request-accepted :
    (s : Show) (id : ℕ) (kind message : String)
    → finalize_body s id (some (failed_request kind message))
      ≡ finalize_valid s id (failed_request kind message) Status.failed
unfolding failed_request finalize_status
failed_request-accepted s id kind message =
    checked s id (failed_request kind message) Status.failed refl refl refl
