-- ===== src/Scheduler/Overlap.antt =====
-- internal/scheduler/overlap.go
use cronfoundry.Prelude.{ℕ, String, ◌==◌, str_eq, eq_iff, if◌then◌else◌, ◌≡◌, ◌≢◌, ◌↔◌, ◌⊎◌, arith}

-- `Policy` is a string.
pub data Decision : Type 0 where
  dispatch skip queue : Decision

-- `PolicySkip`, the empty policy and unknown ones share the last branch.
unfoldable pub decide : String → ℕ → Decision
decide policy active_count =
    if str_eq policy "concurrent"
    then dispatch
    else if str_eq policy "queue"
    then (if active_count == 0 then dispatch else queue)
    else (if active_count == 0 then dispatch else skip)

-- A run is dispatched exactly if the policy is `concurrent` or no other run is active; it is queued
-- exactly if another is active and the policy is `queue`; it is skipped exactly if another is
-- active and the policy is neither.
pub decide_lem :
    (p : String) (n : ℕ)
    → (decide p n ≡ dispatch ↔ (p ≡ "concurrent") ⊎ (n ≡ 0))
      × (decide p n ≡ queue ↔ (p ≡ "queue") × (n ≢ 0))
      × (decide p n ≡ skip ↔ (p ≢ "concurrent") × (p ≢ "queue") × (n ≢ 0))
unfolding decide
decide_lem p n = (
  (
    λ h. ground (arith, eq_iff p "concurrent", eq_iff p "queue", eq_iff "queue" "concurrent"),
    λ h. ground (arith, eq_iff p "concurrent", eq_iff p "queue", eq_iff "queue" "concurrent"),
  ),
  (
    λ h. ground (arith, eq_iff p "concurrent", eq_iff p "queue", eq_iff "queue" "concurrent"),
    λ h. ground (arith, eq_iff p "concurrent", eq_iff p "queue", eq_iff "queue" "concurrent"),
  ),
  (
    λ h. ground (arith, eq_iff p "concurrent", eq_iff p "queue", eq_iff "queue" "concurrent"),
    λ h. ground (arith, eq_iff p "concurrent", eq_iff p "queue", eq_iff "queue" "concurrent"),
  ),
)
