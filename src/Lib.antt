-- ===== src/Lib.antt =====
-- cronfoundry runs skills (prompts kept in a git repository) on cron schedules. The server keeps
-- schedules and runs in PostgreSQL; once in a while its scheduler ticks: it inserts a run for each
-- schedule that is due, applies the schedule's overlap policy, and launches a runner process with
-- a token for that run. The runner calls the server back for its secrets, posts events, and
-- reports the end of the run. A streak of failures pauses the schedule. Users sign in with GitHub,
-- and admins pause, resume and trigger schedules in the browser. All of these parts work on the
-- tables `run` and `schedule`, where they meet.
--
-- Which file models which part:
-- - Store/Rows: the tables (internal/db/gen/models.go) and `World`, the state that everything runs
--   on: the tables, the supply of ids, the clock, and the script of the coming calls of the
--   database. Store/Exec: the monad of an operation, `M E A`, with an error for each failure; a
--   `statement` consumes one call of the script, which may take time and may fail, and a
--   `transaction` puts the tables back unless its Commit succeeds. The script is chosen by the
--   environment, so a theorem about every world is about every pattern of failures.
-- - Store/Runs, Store/Schedules, Store/Logs: the SQL statements (internal/db/gen/run.sql.go,
--   schedule.sql.go, run_event.sql.go, run_notification.sql.go, audit_log.sql.go) as functions on
--   lists of rows in the order of insertion, `none` where a constraint refuses them. Store/Users:
--   those on organizations and users (organization.sql.go, app_user.sql.go).
-- - Scheduler/Overlap: Decide of internal/scheduler/overlap.go. Scheduler/Tick: Tick, processOne,
--   dispatchRun and dispatchPending of internal/scheduler/tick.go, and NextFire of cron.go.
-- - Api/Finalize, Api/AutoPause, Api/Events, Api/Secrets, Api/RunContext, Api/Trigger, Api/Auth:
--   the handlers and the middleware of internal/api (finalize.go, finalize_autopause.go,
--   events.go, secrets.go, run_context.go, clone_url.go, trigger.go, auth.go). A handler gets its
--   request as parsed parts and ends with a result or with the HTTP error it answers. Api/Keeps
--   has the rules by which they keep conditions on the tables.
-- - Server: one step of the server, a tick or a request of any kind, and histories of steps.
-- - Config/Manifest and Config/SecretRefs: validation and lookup of internal/config/manifest.go,
--   and the secret names of internal/config/secretrefs.go.
-- - Config/Skill, Config/Include, Config/Resolver: SKILL.md files and their include directives
--   (internal/config/skill.go, include.go), and the secrets by the names of environment variables
--   (internal/secrets/runner/resolver.go).
-- - Command/Client and Command/Http: the subcommand that the scheduler launches
--   (cmd/cronfoundry/runner.go). It fetches the context and the secrets of a run, clones the
--   repository, executes the skill and posts the report. Command/Clip, Command/Delivery and
--   Command/Finalizing are the report that it posts, and Command/Accepted sets it against the
--   checks of Api/Finalize.
-- - Runner/Session, Runner/Turns, Runner/Load, Runner/Execute: Run of internal/runner/runner.go,
--   in the monad `Job` of actions that emit events and may stop with a failure. Runner/Cost is
--   internal/llm/pricing.go. Publish is the dispatcher of internal/publish/dispatcher.go, and
--   Memory the memory and output blocks of internal/memory/parser.go. These parts run in the
--   runner process and keep no tables: what they do to the outside world is a function on a type
--   `W`, of which nothing is assumed, so that it stands for every behaviour of the model provider,
--   the MCP servers, the channels, the files and git.
-- - Sync and Sync/Reconcile: UpsertSkillsAndSchedules of internal/sync/upsert.go, which makes the
--   rows of the skills and schedules from a manifest, on rows of its own that have the columns
--   which only the sync writes; Sync/Poller: SyncOne and LoadManifest of poller.go and
--   manifest.go.
-- - Webapi/Session, Webapi/Auth, Webapi/Oauth: the session cookie, the middleware in front of the
--   browser's endpoints and the sign-in (internal/webapi/session.go, auth.go, csrf.go, oauth.go,
--   and server.go). Webapi/Users and Webapi/Schedules: the handlers of users.go, schedules.go and
--   schedule_overrides.go, in the monad of Store/Exec with the codes of apierr.go as errors.
-- - Webapi/Webhook: the push webhook of internal/webapi/webhook.go, with VerifyWebhookSignature of
--   internal/github/webhook.go. The syncer that it calls is a parameter.
-- - Mcp/RingBuf: ringBuf of internal/mcp/manager.go, the last 1024 bytes that a server writes to its
--   stderr. The chunks that the goroutine of Start reads are the list of its writes.
-- - Webapi/RateLimit: the cap on event streams of internal/webapi/ratelimit.go, where requests
--   interleave step by step.
-- - Tests: small worlds, runs of the definitions on them, and uses of the theorems.
--
-- How values are modelled: a uuid is a number, and a fresh one is above all that were given out; a
-- time is a number of microseconds, and of nanoseconds in the runner process; durations and counts
-- that may be negative are integers; the sentence in `auto_pause_reason` is the threshold that it
-- names; the length of a text counts what the library's `len` counts; two logins are equal if a
-- function `fold`, which stands for the column type citext, makes them equal. A loop is a
-- recursion on a list, where it can be. The tool loop of a run recurses on the number of turns
-- that are left, which is the bound of the source's own loop. The searches for blocks and for
-- include directives recurse on fuel, which is the number of characters of the text: each match is
-- at least one character long. All operations are total.
--
-- Concurrency: the operations of Server follow each other; two that run at the same time are not
-- interleaved inside, except for the atomic steps of Webapi/RateLimit. The goroutines of a
-- dispatch run in any order, each without a pause. A tick that lost the race for a fire time to
-- another one is a tick in a world where the run is there already.
--
-- Parameters are the code that is not in the repository or that only does input and output: the
-- cron library and the time zones, the JWT library behind internal/token, the random source,
-- GitHub's installation tokens, the job dispatchers, the secret store, URL, YAML and JSON parsing,
-- the model providers, the MCP manager, the publishers, git, the files, HTTP between the runner
-- and the server, base64, hex and HMAC, the syncer of the webhook, and the answer of the
-- token-bucket limiter. Regular expressions are written out by what their documentation says that
-- they match.
--
-- Not modelled: logging and metrics, which nothing reads; the deadline of a run, which the calls
-- of the runner may meet as an error of any kind; the posting of the events that a run emits,
-- which are kept in a list; the channels, templates, the rest of the web API, the chat, the GitHub
-- and cloud clients, and the other commands.
pub mod Prelude
pub mod Config
pub mod Store
pub mod Scheduler
pub mod Api
pub mod Server
pub mod Webapi
pub mod Runner
pub mod Publish
pub mod Memory
pub mod Mcp
pub mod Command
pub mod Sync
mod Tests
