-- ===== src/Store/Runs/Sweep.antt =====
-- OrphanSweep: what it leaves and what it ends.
use mathlib.Core.List.{Memᴰ}
use cronfoundry.Prelude.{
  pos, ℕ, ◌+◌, ◌*◌, ◌<◌, ◌≡◌, refl, true, false, ◌&&◌, Option, none, some, List, [], ◌∷◌, arith,
  find, any, All, ◌==◌, Bool-cases, inl, inr,
}
use cronfoundry.Store.Rows.{World, Run, Schedule, pending, is_failed, now}
use cronfoundry.Store.Runs.{
  update_where, orphaned, shut_down, overflows, orphan_sweep, timed_out, has_id,
}

module _ (t : ℕ) (ss : List Schedule) where
  shut_down-rests : (r : Run) (o : Option Schedule) → timed_out t (shut_down t r) o ≡ false
  shut_down-rests r none = refl
  shut_down-rests r (some s) = refl

  swept-rests :
      (rs : List Run)
      → All (λ r. orphaned t ss r ≡ false) (update_where (orphaned t ss) (shut_down t) rs)
  swept-rests [] = tt
  swept-rests (r ∷ rs) = elim (Bool-cases (orphaned t ss r)) [
    | inl e ↦ rw e (shut_down-rests r (find (λ s. s.id == r.schedule_id) ss), swept-rests rs)
    | inr e ↦ rw e (e, swept-rests rs)
  ]

  swept-fails :
      (r : Run) (rs : List Run)
      → Memᴰ r rs
      → orphaned t ss r ≡ true
      → any
          (λ x. has_id r.id x && is_failed x.status)
          (update_where (orphaned t ss) (shut_down t) rs)
        ≡ true
  swept-fails r [] m h = elim m [ ]
  swept-fails r (x ∷ rs) (Memᴰ.head e) h = rw (← e, h) (ground arith)
  swept-fails r (x ∷ rs) (Memᴰ.tail m) h = ground (arith, swept-fails r rs m h)

abbrev pub runs_after : Option (ℕ × World) → List Run
runs_after none = []
runs_after (some (n, w)) = w.runs

-- After a sweep no run is left that is pending or running and has been so for longer than the
-- timeout of its schedule and five minutes more.
orphan_sweep_lem :
    (w : World) → All (λ r. orphaned (now w) w.schedules r ≡ false) (runs_after (orphan_sweep w))
unfolding orphan_sweep
orphan_sweep_lem w = elim (Bool-cases (any (overflows w.schedules) w.runs)) [
  | inl e ↦ rw e tt
  | inr e ↦ rw e (swept-rests (now w) w.schedules w.runs)
]

-- A pending run that never started is ended as failed by a sweep, whether it waits in the queue of
-- a paused schedule or not, once it is older than its schedule's timeout and five minutes, where the
-- timeout is not negative and the sum is in range for each active run.
pub orphan_sweep-pending :
    (w : World) (r : Run) (s : Schedule) (n : ℕ)
    → Memᴰ r w.runs
    → find (λ x. x.id == r.schedule_id) w.schedules ≡ some s
    → r.status ≡ pending
    → r.started_at ≡ none
    → s.timeout_sec ≡ pos n
    → r.created_at + (n + 300) * 1000000 < now w
    → any (overflows w.schedules) w.runs ≡ false
    → any (λ x. has_id r.id x && is_failed x.status) (runs_after (orphan_sweep w)) ≡ true
unfolding orphan_sweep
orphan_sweep-pending w r s n m f p q e h fits =
    rw fits (swept-fails (now w) w.schedules r w.runs m (rw (f, e) (ground arith)))
