-- ===== src/Scheduler/Tick/Drain.antt =====
-- Which pending runs dispatchPending picks up.
use mathlib.Core.List.{Memᴰ}
use cronfoundry.Prelude.{
  ◌≡◌, ◌≢◌, ◌⊎◌, inl, inr, Bool, true, false, List, [], ◌∷◌, arith, any, Bool-cases, eq_iff,
}
use cronfoundry.Store.Rows.{Run, Schedule, is_manual, is_active, is_pending}
use cronfoundry.Scheduler.Tick.{drains, blocks}

any-Mem : (p : Run → Bool) (r : Run) (rs : List Run) → Memᴰ r rs → any p rs ≡ false → p r ≡ false
any-Mem p r [] m h = elim m [ ]
any-Mem p r (x ∷ rs) (Memᴰ.head e) h = rw e (ground arith)
any-Mem p r (x ∷ rs) (Memᴰ.tail m) h = any-Mem p r rs m (ground arith)

drains-quiet :
    (runs : List Run) (r : Run) (s : Schedule)
    → drains runs r s ≡ true
    → is_manual r.fire_reason ≡ false
    → any (blocks r) runs ≡ false
drains-quiet runs r s h m = ground arith

drains-pending :
    (runs : List Run) (r : Run) (s : Schedule) → drains runs r s ≡ true → is_active r.status ≡ true
drains-pending runs r s h = ground arith

-- Of the scheduled runs of one schedule at most one is picked up in a pass, the oldest: two that
-- are picked up were created at the same time.
pub drains-oldest :
    (runs : List Run) (r q : Run) (s : Schedule)
    → Memᴰ r runs
    → Memᴰ q runs
    → r.schedule_id ≡ q.schedule_id
    → r.id ≢ q.id
    → is_manual r.fire_reason ≡ false
    → is_manual q.fire_reason ≡ false
    → drains runs r s ≡ true
    → drains runs q s ≡ true
    → r.created_at ≡ q.created_at
drains-oldest runs r q s mr mq e d nr nq dr dq = ground (
  arith,
  any-Mem (blocks r) q runs mq (drains-quiet runs r s dr nr),
  any-Mem (blocks q) r runs mr (drains-quiet runs q s dq nq),
  drains-pending runs r s dr,
  drains-pending runs q s dq,
)

-- A run that is picked up is pending and its schedule is enabled; and it is a manual one, or the
-- schedule's policy is `queue` and no older run of the schedule is active.
pub drains_lem :
    (runs : List Run) (r : Run) (s : Schedule)
    → drains runs r s ≡ true
    → (is_pending r.status ≡ true)
      × (s.enabled ≡ true)
      × ((is_manual r.fire_reason ≡ true)
          ⊎ (s.overlap_policy ≡ "queue") × ((q : Run) → Memᴰ q runs → blocks r q ≡ false))
drains_lem runs r s h = (
  ground arith,
  ground arith,
  elim (Bool-cases (is_manual r.fire_reason)) [
    | inl e ↦ inl e
    | inr e ↦ inr (
      ground (arith, eq_iff s.overlap_policy "queue"),
      λ q m. any-Mem (blocks r) q runs m (drains-quiet runs r s h e),
    )
  ],
)
