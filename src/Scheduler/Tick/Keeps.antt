-- ===== src/Scheduler/Tick/Keeps.antt =====
-- internal/scheduler/tick.go: a condition that each statement of the scheduler keeps, under a tick,
-- whichever calls of the database and of the collaborators fail.
use cronfoundry.Prelude.{
  ℕ, String, ◌≡◌, refl, Bool, true, false, Option, none, some, List, [], ◌∷◌, All,
}
use cronfoundry.Store.Rows.{World, Run, DispatchRequest}
use cronfoundry.Store.Exec.Keeps.{
  Cond, At, Post, Landed, Keeps, Ensures-pure, Ensures-raise, Ensures-gets, Ensures-statement,
  Ensures-bind, Ensures-attempt, Ensures-given,
}
use cronfoundry.Store.Runs.{
  InsertRunParams, insert_row, set_running, set_token_hash, delete_row, orphan_sweep,
}
use cronfoundry.Store.Schedules.{JoinedSchedule, set_next_fire_at}
use cronfoundry.Scheduler.Overlap.{Decision, dispatch, skip, queue}
use cronfoundry.Scheduler.Tick.{
  Deps, TickError, Stats, lift, DispatchArgs, launch_runner, launched_as, dispatch_run, args_of,
  apply_decision, settle, process_one, after_one, process_all, list_pending, after_dispatch,
  dispatch_all, dispatch_pending, no_stats, tick,
}

-- What each statement must do for `P` to be kept; `Free` holds of the runs that the scheduler may
-- write to.
pub record Stable (P : Cond) (Free : ℕ → Type 0) : Type 0 where
  pub at_insert :
      (p : InsertRunParams) (w : World)
      → At P w
      → Landed (λ (x : Run × Bool) t n. P t n × (x.1 ≡ true → Free x.0.id)) (insert_row p w)
  pub at_next_fire :
      (i u : ℕ) (w : World) → At P w → Landed (λ (x : Unit {0}). P) (set_next_fire_at i u w)
  pub at_delete :
      (i : ℕ) (w : World) → Free i → At P w → Landed (λ (x : Unit {0}). P) (delete_row i w)
  pub at_hash :
      (i : ℕ) (h : String) (w : World)
      → Free i
      → At P w
      → Landed (λ (x : Unit {0}). P) (set_token_hash i h w)
  pub at_running :
      (i : ℕ) (pid : Option ℕ) (w : World)
      → Free i
      → At P w
      → Landed (λ (x : Option Run). P) (set_running i pid w)
  pub at_pending : (w : World) → At P w → All (λ (a : DispatchArgs). Free a.run_id) (list_pending w)
  pub at_sweep : (w : World) → At P w → Landed (λ (x : ℕ). P) (orphan_sweep w)

module _ (P : Cond) (Free : ℕ → Type 0) (s : Stable P Free) (d : Deps) where
  lift-Keeps : {A : Type 0} (e : TickError) (o : Option A) → Keeps P (lift e o)
  lift-Keeps e none = Ensures-raise e (λ t n p. p)
  lift-Keeps e (some a) = Ensures-pure a (λ t n p. p)

  launch_runner-Keeps : (req : DispatchRequest) → Keeps P (launch_runner d req)
  unfolding launch_runner
  launch_runner-Keeps req = record { at = λ w p. launched_Post (d.launch req) w p }
    where
      launched_Post :
          (o : Option ℕ) (w : World) → At P w → Post (λ (x : ℕ). P) P (launched_as req o w)
      launched_Post none w p = p
      launched_Post (some pid) w p = p

  dispatch_run-Keeps : (a : DispatchArgs) → Free a.run_id → Keeps P (dispatch_run d a)
  unfolding dispatch_run
  dispatch_run-Keeps a f = Ensures-bind _ _ (Ensures-gets _) λ t.
      Ensures-bind _ _ (lift-Keeps _ _) λ signed.
        Ensures-bind _ _
          (Ensures-statement _ _ (λ t n p. p) (λ w p. s.at_hash a.run_id signed.1 w f p))
          λ u. Ensures-bind _ _ (launch_runner-Keeps _) λ pid.
            Ensures-bind _ _
              (Ensures-attempt _ (
                Ensures-statement _ _ (λ t n p. p) (λ w p. s.at_running a.run_id (some pid) w f p)))
              λ v. Ensures-pure tt (λ t n p. p)

  apply_decision-Keeps :
      (j : JoinedSchedule) (i : ℕ) (stats : Stats) (c : Decision)
      → Free i
      → Keeps P (apply_decision d j i stats c)
  unfolding apply_decision
  apply_decision-Keeps j i stats skip f =
      Ensures-bind _ _ (Ensures-statement _ _ (λ t n p. p) (λ w p. s.at_delete i w f p))
        λ u. Ensures-pure _ (λ t n p. p)
  apply_decision-Keeps j i stats queue f = Ensures-pure _ (λ t n p. p)
  apply_decision-Keeps j i stats dispatch f =
      Ensures-bind _ _ (dispatch_run-Keeps (args_of i j) f) λ u. Ensures-pure _ (λ t n p. p)

  settle-Keeps :
      (j : JoinedSchedule) (stats : Stats) (run : Run) (b : Bool)
      → (b ≡ true → Free run.id)
      → Keeps P (settle d j stats run b)
  unfolding settle
  settle-Keeps j stats run false f = Ensures-pure _ (λ t n p. p)
  settle-Keeps j stats run true f =
      Ensures-bind _ _ (Ensures-statement _ _ (λ t n p. p) (λ w p. p))
        λ active. apply_decision-Keeps j run.id stats _ (f refl)

  process_one-Keeps : (j : JoinedSchedule) (stats : Stats) → Keeps P (process_one d j stats)
  unfolding process_one
  process_one-Keeps j stats = Ensures-bind _ _ (lift-Keeps _ _) λ next.
      Ensures-bind _ _ (Ensures-gets _) λ seed. Ensures-bind _ _ (lift-Keeps _ _) λ hash.
        Ensures-bind _ _ (Ensures-statement _ _ (λ t n p. p) (λ w p. s.at_insert _ w p)) λ run.
          Ensures-given (run.1 ≡ true → Free run.0.id) _ λ f.
            Ensures-bind _ _ (Ensures-statement _ _ (λ t n p. p) (λ w p. s.at_next_fire _ _ w p))
              λ u. settle-Keeps j stats run.0 run.1 f

  process_all-Keeps : (js : List JoinedSchedule) (stats : Stats) → Keeps P (process_all d js stats)
  unfolding process_all
  process_all-Keeps [] stats = Ensures-pure _ (λ t n p. p)
  process_all-Keeps (j ∷ js) stats =
      Ensures-bind _ _ (Ensures-attempt _ (process_one-Keeps j stats))
        λ r. process_all-Keeps js (after_one stats r)

  dispatch_all-Keeps :
      (as' : List DispatchArgs) (stats : Stats)
      → All (λ (a : DispatchArgs). Free a.run_id) as'
      → Keeps P (dispatch_all d as' stats)
  unfolding dispatch_all
  dispatch_all-Keeps [] stats h = Ensures-pure _ (λ t n p. p)
  dispatch_all-Keeps (a ∷ as') stats (h, hs) =
      Ensures-bind _ _ (Ensures-attempt _ (dispatch_run-Keeps a h))
        λ r. dispatch_all-Keeps as' (after_dispatch stats r) hs

  dispatch_pending-Keeps : (stats : Stats) → Keeps P (dispatch_pending d stats)
  unfolding dispatch_pending
  dispatch_pending-Keeps stats =
      Ensures-bind {Q = λ rows t n. P t n × All (λ (a : DispatchArgs). Free a.run_id) rows} _ _
        (Ensures-statement _ _ (λ t n p. p) (λ w p. (p, s.at_pending w p)))
        λ rows. Ensures-given _ _ λ f. dispatch_all-Keeps rows stats f

  pub tick-Keeps : Keeps P (tick d)
  unfolding tick
  tick-Keeps = Ensures-bind _ _ (Ensures-statement _ _ (λ t n p. p) (λ w p. p)) λ due.
      Ensures-bind _ _ (process_all-Keeps due no_stats) λ stats.
        Ensures-bind _ _ (Ensures-attempt _ (dispatch_pending-Keeps stats)) λ drained.
          Ensures-bind _ _
            (Ensures-attempt _ (Ensures-statement _ _ (λ t n p. p) (λ w p. s.at_sweep w p)))
            λ swept. Ensures-pure _ (λ t n p. p)
