-- ===== src/Server.antt =====
-- cmd/cronfoundry/serve.go and internal/api/server.go: the server as a whole. Its ticks and the
-- requests that it serves follow each other in any order, and any of them may be the next.
pub mod History
use cronfoundry.Prelude.{ℕ, ◌+◌, String, Bool, Option, List}
use cronfoundry.Store.Rows.{World, Call}
use cronfoundry.Scheduler.Tick.{Deps, tick}
use cronfoundry.Api.AutoPause.{Show}
use cronfoundry.Api.Finalize.{FinalizeBody, finalize_handler}
use cronfoundry.Api.Events.{Event, events_handler}
use cronfoundry.Api.Auth.{RunClaims}
use cronfoundry.Api.Secrets.{secrets_handler}
use cronfoundry.Api.RunContext.{context_handler, clone_url_handler}
use cronfoundry.Api.Trigger.{trigger_handler}
use cronfoundry.Store.Rows.{UiOverrides}
use cronfoundry.Webapi.Session.{Codec}
use cronfoundry.Webapi.Auth.{Request}
use cronfoundry.Webapi.Oauth.{Github, Random, callback}
use cronfoundry.Webapi.Users.{create, update_role, delete}
use cronfoundry.Webapi.Schedules.{
  ListedSchedule, Hop, set_schedule_enabled, patch_overrides, delete_overrides, run_now,
}

-- The world after one step of the server: a tick, a request of a runner with verified claims, a
-- manual trigger, or a request of the browser that changes a schedule or the users; or time passes and the database will answer the coming calls as it likes.
pub data Step (w : World) : World → Type 0 where
  ticks : (d : Deps) → Step w (tick d w).1
  finalizes :
      (s : Show) (c : ℕ) (url : Option ℕ) (b : Option FinalizeBody)
      → Step w (finalize_handler s c url b w).1
  posts : (c : ℕ) (url : Option ℕ) (b : Option (List Event)) → Step w (events_handler c url b w).1
  fetches :
      (store : String → Option String) (c : RunClaims) (names : List String)
      → Step w (secrets_handler store c names w).1
  triggers :
      (hex : ℕ → Option String) (text : ℕ → String) (loopback : Bool) (url : Option ℕ)
      (body : Option (Option String))
      → Step w (trigger_handler hex text loopback url body w).1
  reads : (c : ℕ) (url : Option ℕ) → Step w (context_handler c url w).1
  clones :
      (token : ℕ → Option String) (c : ℕ) (url : Option ℕ)
      → Step w (clone_url_handler token c url w).1
  switches :
      (before : ListedSchedule → ListedSchedule → Bool) (actor : String) (on : Bool)
      (url : Option ℕ)
      → Step w (set_schedule_enabled before actor on url w).1
  overrides :
      (actor : String) (url : Option ℕ) (o : Option UiOverrides)
      → Step w (patch_overrides actor url o w).1
  clears : (actor : String) (url : Option ℕ) → Step w (delete_overrides actor url w).1
  runs_now :
      (hex : ℕ → Option String) (text : ℕ → String) (loopback : Bool) (hop : Hop)
      (base actor : String) (url : Option ℕ)
      → Step w (run_now hex text loopback hop base actor url w).1
  creates_user :
      (fold : String → String) (actor : String) (body : Option (String × String))
      → Step w (create fold actor body w).1
  updates_role :
      (fold : String → String) (actor login : String) (role : Option String)
      → Step w (update_role fold actor login role w).1
  deletes_user :
      (fold : String → String) (actor login : String) → Step w (delete fold actor login w).1
  signs_in :
      (x : Codec) (key : String) (fold : String → String) (g : Github) (random : Random)
      (state code : String) (r : Request)
      → Step w (callback x key fold g random state code r w).1
  waits : (n : ℕ) (calls : List Call) → Step w (record w { clock = w.clock + n; script = calls })

-- the worlds that a history of steps leads to
pub data Reach (w : World) : World → Type 0 where
  here : Reach w w
  then : (v u : World) → Reach w v → Step v u → Reach w u
