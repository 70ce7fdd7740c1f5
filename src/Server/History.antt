-- ===== src/Server/History.antt =====
-- Histories of the server (internal/scheduler, internal/api and internal/webapi together) and the run table.
use cronfoundry.Prelude.{ℕ, ◌≡◌, Bool, false}
use cronfoundry.Store.Rows.{World, Run, is_active}
use cronfoundry.Store.Exec.Keeps.{Cond, At, Landed, Landed-imp, Keeps-after}
use cronfoundry.Store.Runs.{InsertRunParams, FinalizeRunParams, insert_row, finalize_row}
use cronfoundry.Store.Runs.Insert.{GoodRuns}
use cronfoundry.Store.Runs.Update.{finalize_row-GoodRuns}
use cronfoundry.Store.Runs.Frozen.{Frozen, finalize_row-Frozen}
use cronfoundry.Scheduler.Tick.Keeps.{Stable, tick-Keeps}
use cronfoundry.Scheduler.Tick.Safety.{GoodRuns-Stable, Frozen-Stable}
use cronfoundry.Api.Keeps.{OnRuns, events_handler-Keeps}
use cronfoundry.Api.Keeps.Finalizing.{GoodCond-OnRuns, Frozen-OnRuns, finalize_handler-Keeps}
use cronfoundry.Api.Keeps.Secrets.{secrets_handler-Keeps, trigger_handler-Keeps}
use cronfoundry.Api.Keeps.Reading.{context_handler-Keeps, clone_url_handler-Keeps}
use cronfoundry.Api.Keeps.Browser.{
  audit, switch-Landed, override-Landed, create_user-Landed, set_user_role-Landed,
  delete_user-Landed, upsert-Landed,
}
use cronfoundry.Webapi.Keeps.{callback-Keeps}
use cronfoundry.Webapi.Users.Keeps.{create-Keeps, update_role-Keeps, delete-Keeps}
use cronfoundry.Webapi.Schedules.Keeps.{
  set_schedule_enabled-Keeps, patch_overrides-Keeps, delete_overrides-Keeps, run_now-Keeps,
}
use cronfoundry.Server.{
  switches, overrides, clears, runs_now, creates_user, updates_role, deletes_user, signs_in, reads,
  clones, Step, ticks, finalizes, posts, fetches, triggers, waits, Reach, here, then,
}

-- A condition that the statements keep; `Free` holds of the runs that the scheduler may write to.
record Lasting (P : Cond) (Free : ℕ → Type 0) : Type 0 where
  stable : Stable P Free
  on_runs : OnRuns P
  at_finalize :
      (p : FinalizeRunParams) (w : World)
      → is_active p.status ≡ false
      → At P w
      → Landed (λ _. P) (finalize_row p w)

module _ (P : Cond) (Free : ℕ → Type 0) (l : Lasting P Free) where
  inserts :
      (p : InsertRunParams) (w : World) → At P w → Landed (λ (x : Run × Bool). P) (insert_row p w)
  inserts p w h = Landed-imp _ _ (insert_row p w) (λ x t n k. k.0) (l.stable.at_insert p w h)

  step-At : (w u : World) → Step w u → At P w → At P u
  step-At w _ (ticks d) p = Keeps-after _ (tick-Keeps P Free l.stable d) w p
  step-At w _ (finalizes s c url b) p =
      Keeps-after _ (finalize_handler-Keeps P l.on_runs l.at_finalize s c url b) w p
  step-At w _ (posts c url b) p = Keeps-after _ (events_handler-Keeps P l.on_runs c url b) w p
  step-At w _ (fetches store c names) p =
      Keeps-after _ (secrets_handler-Keeps P l.on_runs store c names) w p
  step-At w _ (triggers hex text loopback url body) p =
      Keeps-after _ (trigger_handler-Keeps P l.on_runs inserts hex text loopback url body) w p
  step-At w _ (reads c url) p = Keeps-after _ (context_handler-Keeps P c url) w p
  step-At w _ (clones token c url) p = Keeps-after _ (clone_url_handler-Keeps P token c url) w p
  step-At w _ (switches before actor on url) p =
      Keeps-after _
        (set_schedule_enabled-Keeps P (audit P l.on_runs) before actor on
          (switch-Landed P l.on_runs on) url)
        w p
  step-At w _ (overrides actor url o) p =
      Keeps-after _
        (patch_overrides-Keeps P (audit P l.on_runs) (override-Landed P l.on_runs) actor url o) w p
  step-At w _ (clears actor url) p =
      Keeps-after _
        (delete_overrides-Keeps P (audit P l.on_runs) (override-Landed P l.on_runs) actor url) w p
  step-At w _ (runs_now hex text loopback hop base actor url) p =
      Keeps-after _
        (run_now-Keeps P hex text loopback
          (trigger_handler-Keeps P l.on_runs inserts hex text loopback) hop base actor url)
        w p
  step-At w _ (creates_user fold actor body) p =
      Keeps-after _
        (create-Keeps P (audit P l.on_runs) fold actor (create_user-Landed P l.on_runs fold) body) w
        p
  step-At w _ (updates_role fold actor login role) p =
      Keeps-after _
        (update_role-Keeps P (audit P l.on_runs) fold actor (set_user_role-Landed P l.on_runs fold)
          login role)
        w p
  step-At w _ (deletes_user fold actor login) p =
      Keeps-after _
        (delete-Keeps P (audit P l.on_runs) fold actor (delete_user-Landed P l.on_runs fold) login)
        w p
  step-At w _ (signs_in x key fold g random state code r) p =
      Keeps-after _
        (callback-Keeps P x key fold g random (upsert-Landed P l.on_runs fold) state code r) w p
  step-At w _ (waits n calls) p = p

  Reach-At : (w u : World) → Reach w u → At P w → At P u
  Reach-At w _ here p = p
  Reach-At w u (then v _ r s) p = step-At v u s (Reach-At w v r p)

-- Whatever ticks, reports, events, secret requests, manual triggers and requests of the browser that
-- change schedules or users follow each other, with whatever failures of the database between them: the run table stays well formed. Ids are unique,
-- no schedule has two runs for one fire time, and `finished_at` is set exactly on the ended runs.
pub Reach-GoodRuns :
    (w u : World) → Reach w u → GoodRuns w.runs w.next_id → GoodRuns u.runs u.next_id
Reach-GoodRuns w u r g =
    Reach-At (λ t n. GoodRuns t.runs n) (λ i. Unit)
      (record {
        stable = GoodRuns-Stable;
        on_runs = GoodCond-OnRuns;
        at_finalize = λ p v a h. finalize_row-GoodRuns p v a h;
      })
      w u r g

-- A run that has ended is never touched again: after any history of ticks and requests, and whatever
-- calls of the database fail in it, its row is there and unchanged.
pub Reach-Frozen :
    (i : ℕ) (r : Run) (w u : World)
    → is_active r.status ≡ false
    → Reach w u
    → Frozen i r w.tables w.next_id
    → Frozen i r u.tables u.next_id
Reach-Frozen i r w u finished h z =
    Reach-At (Frozen i r) _
      (record {
        stable = Frozen-Stable i r finished;
        on_runs = Frozen-OnRuns i r;
        at_finalize = λ p v a k. finalize_row-Frozen i r finished p v k;
      })
      w u h z
