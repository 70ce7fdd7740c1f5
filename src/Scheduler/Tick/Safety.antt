-- ===== src/Scheduler/Tick/Safety.antt =====
-- internal/scheduler/tick.go: two conditions on the run table under the statements of a tick: it is
-- well formed, and a run that has ended stays as it is.
use cronfoundry.Prelude.{
  ℕ, ◌≡◌, ◌≢◌, Bool, true, false, Option, none, some, List, [], ◌∷◌, All, All-sort_by, All-intro,
  arith, find, Bool-cases, inl, inr, ◌==◌,
}
use cronfoundry.Store.Rows.{World, Run, Schedule, is_active, is_pending}
use cronfoundry.Store.Exec.Keeps.{Cond, Landed-imp}
use cronfoundry.Store.Runs.{insert_row, created_before}
use cronfoundry.Store.Runs.Insert.{GoodRuns, insert_row-GoodRuns}
use cronfoundry.Store.Runs.Update.{
  set_running-GoodRuns, set_token_hash-GoodRuns, orphan_sweep-GoodRuns, delete_row-GoodRuns,
}
use cronfoundry.Store.Runs.Frozen.{
  Unchanged, Frozen, set_running-Frozen, set_token_hash-Frozen, orphan_sweep-Frozen,
  delete_row-Frozen, insert_row-Frozen,
}
use cronfoundry.Store.Schedules.{join, cons?, JoinedSchedule, set_next_fire_at}
use cronfoundry.Scheduler.Tick.{
  DispatchArgs, drains, pending_args, pending_row, pending_rows, list_pending,
}
use cronfoundry.Scheduler.Tick.Keeps.{Stable}

abbrev pub GoodCond : Cond
GoodCond t n = GoodRuns t.runs n

pub GoodRuns-Stable : Stable GoodCond (λ i. Unit)
unfolding set_next_fire_at
GoodRuns-Stable = record {
  at_insert = λ p w g.
      Landed-imp (λ (x : Run × Bool). GoodCond) _ (insert_row p w) (λ x t n k. (k, λ e. tt))
        (insert_row-GoodRuns p w g);
  at_next_fire = λ i u w g. g;
  at_delete = λ i w f g. delete_row-GoodRuns i w g;
  at_hash = λ i h w f g. set_token_hash-GoodRuns i h w g;
  at_running = λ i pid w f g. set_running-GoodRuns i pid w g;
  at_pending = λ w g. All-intro (λ (a : DispatchArgs). Unit) (λ a. tt) (list_pending w);
  at_sweep = λ w g. orphan_sweep-GoodRuns w g;
}

module _ (i : ℕ) (r : Run) (finished : is_active r.status ≡ false) where
  drains-Unchanged :
      (runs : List Run) (s : Run) (sc : Schedule)
      → Unchanged i r s
      → drains runs s sc ≡ true
      → i ≢ s.id
  drains-Unchanged runs s sc u h e =
      let same : s ≡ r = u (ground arith) in
      let quiet : is_active s.status ≡ false = rw same finished in
      let p : is_pending s.status ≡ true = ground arith in ground arith

  pending_row-Free :
      (w : World) (s : Run) (o : Option Schedule) (rest : List DispatchArgs)
      → Unchanged i r s
      → All (λ (a : DispatchArgs). i ≢ a.run_id) rest
      → All (λ (a : DispatchArgs). i ≢ a.run_id) (cons? (pending_row w s o) rest)
  pending_row-Free w s none rest u h = h
  pending_row-Free w s (some sc) rest u h = elim (Bool-cases (drains w.runs s sc)) [
    | inr e ↦ rw e h
    | inl e ↦ rw e (joined (join w sc) (drains-Unchanged w.runs s sc u e))
  ]
    where
      joined :
          (o : Option JoinedSchedule)
          → i ≢ s.id
          → All
              (λ (a : DispatchArgs). i ≢ a.run_id)
              (cons?
                (elim o as (λ _. Option DispatchArgs) [
                  | none ↦ none
                  | some j ↦ some (pending_args s j)
                ])
                rest)
      joined none d = h
      joined (some j) d = (d, h)

  pending_rows-Free :
      (w : World) (rs : List Run)
      → All (Unchanged i r) rs
      → All (λ (a : DispatchArgs). i ≢ a.run_id) (pending_rows w rs)
  pending_rows-Free w [] h = tt
  pending_rows-Free w (s ∷ rs) (h, hs) =
      pending_row-Free w s (find (λ sc. sc.id == s.schedule_id) w.schedules) (pending_rows w rs) h
        (pending_rows-Free w rs hs)

  pub Frozen-Stable : Stable (Frozen i r) (λ j. i ≢ j)
  unfolding set_next_fire_at list_pending
  Frozen-Stable = record {
    at_insert = λ p w z. insert_row-Frozen i r finished p w z;
    at_next_fire =
        λ j u w z. record { present = z.present; given = z.given; unchanged = z.unchanged };
    at_delete = λ j w f z. delete_row-Frozen i r finished j w f z;
    at_hash = λ j h w f z. set_token_hash-Frozen i r finished j h w f z;
    at_running = λ j pid w f z. set_running-Frozen i r finished j pid w z;
    at_pending = λ w z.
        pending_rows-Free w _ (All-sort_by (Unchanged i r) created_before w.runs z.unchanged);
    at_sweep = λ w z. orphan_sweep-Frozen i r finished w z;
  }
