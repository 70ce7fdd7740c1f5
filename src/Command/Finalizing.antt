-- ===== src/Command/Finalizing.antt =====
-- cmd/cronfoundry/runner.go: the report of a run, and the checks of the endpoint that takes it.
use cronfoundry.Prelude.{
  ℕ, ◌-◌, ◌/◌, ◌%◌, ◌^◌, ℤ, pos, negsuc, String, ◌||◌, Option, none, some, [], ltb, leb, ◌==◌,
  str_eq, if◌then◌else◌,
}
use cronfoundry.Api.Finalize.{FinalizeBody}
use cronfoundry.Runner.Execute.{RunResult, RunStatus, succeeded, partial_failure, failed}
use cronfoundry.Command.Delivery.{Parsers, build_notifications}

abbrev pub status_name : RunStatus → String
status_name succeeded = "succeeded"
status_name partial_failure = "partial_failure"
status_name failed = "failed"

abbrev pub signed : ℕ → ℤ
signed m = if ltb m (2 ^ 31) then pos m else negsuc (2 ^ 32 - 1 - m)

-- int32(…), by the last 32 bits
unfoldable pub to_int32 : ℤ → ℤ
to_int32 (pos n) = signed (n % 2 ^ 32)
to_int32 (negsuc n) = signed (2 ^ 32 - 1 - n % 2 ^ 32)

-- a / time.Millisecond, of a difference of times in nanoseconds; it rounds towards zero
unfoldable pub milliseconds : ℕ → ℕ → ℤ
milliseconds started finished =
    if leb started finished
    then pos ((finished - started) / 1000000)
    else (let n = (started - finished) / 1000000 in if n == 0 then pos 0 else negsuc (n - 1))

-- zero is the zero time
abbrev pub duration_of : RunResult → Option ℤ
duration_of r =
    if r.started_at == 0 || r.finished_at == 0
    then none
    else some (to_int32 (milliseconds r.started_at r.finished_at))

abbrev pub tokens_of : ℕ → Option ℤ
tokens_of n = if n == 0 then none else some (to_int32 (pos n))

abbrev pub sha_of : String → Option String
sha_of s = if str_eq s "" then none else some s

abbrev pub kind_of : Option String → Option String
kind_of none = none
kind_of (some message) = some "runner"

abbrev pub reported_status : Option String → RunStatus → String
reported_status none s = status_name s
reported_status (some message) s = "failed"

-- the body of step 10, for the text of the error of Run
unfoldable pub finalize_request : Parsers → RunResult → Option String → FinalizeBody
finalize_request p r error = record {
  status = reported_status error r.status;
  duration_ms = duration_of r;
  tokens_in = tokens_of r.usage.input_tokens;
  tokens_out = tokens_of r.usage.output_tokens;
  cost_cents = some (to_int32 (pos r.cost_cents));
  error_kind = kind_of error;
  error_msg = error;
  writeback_commit_sha = sha_of r.writeback_sha;
  notifications = build_notifications p r.publish_results;
}

-- the body of failRun
unfoldable pub failed_request : String → String → FinalizeBody
failed_request kind message = record {
  status = "failed";
  duration_ms = none;
  tokens_in = none;
  tokens_out = none;
  cost_cents = none;
  error_kind = some kind;
  error_msg = some message;
  writeback_commit_sha = none;
  notifications = [];
}
