-- ===== src/Store/Runs/Keys.antt =====
-- The keys of the table `run`: ids, and the pairs (schedule_id, fire_time) of scheduled runs.
use cronfoundry.Prelude.{
  ℕ, ◌<◌, ◌≡◌, ◌≢◌, Bool, true, false, not, Option, none, some, List, [], ◌∷◌, ◌++◌, map, arith,
  select, All, All-append, All-map, All-select, if◌then◌else◌,
}
use cronfoundry.Store.Rows.{Run, Status, running, is_active}
use cronfoundry.Store.Runs.{same_fire, is_consistent}

abbrev pub is_some {ℓ} : {A : Type ℓ} → Option A → Bool
is_some none = false
is_some (some a) = true

abbrev pub is_running : Status → Bool
is_running running = true
is_running _ = false

-- A row of the table: `n` is the next free id.
pub record GoodRun (n : ℕ) (r : Run) : Type 0 where
  pub id_given : r.id < n
  pub fire_consistent : is_consistent r.fire_reason r.fire_time ≡ true
  pub finished_when_terminal : is_some r.finished_at ≡ not (is_active r.status)
  pub started_when_running : is_running r.status ≡ true → is_some r.started_at ≡ true

-- Two rows differ in their id, and in their schedule or fire time if both have one.
abbrev pub Apart : Run → Run → Type 0
Apart r s = (r.id ≢ s.id) × (same_fire r.schedule_id r.fire_time s ≡ false)

abbrev pub Distinct : List Run → Type 0
Distinct [] = Unit
Distinct (r ∷ rs) = All (Apart r) rs × Distinct rs

-- an update that leaves the keys alone
pub record SameKeys (f : Run → Run) : Type 0 where
  pub same_id : (r : Run) → (f r).id ≡ r.id
  pub same_schedule : (r : Run) → (f r).schedule_id ≡ r.schedule_id
  pub same_time : (r : Run) → (f r).fire_time ≡ r.fire_time

module _ (f : Run → Run) (same : SameKeys f) where
  Apart-both : (r s : Run) → Apart r s → Apart (f r) (f s)
  Apart-both r s (d, e) = ground (
    arith,
    same.same_id r,
    same.same_id s,
    same.same_schedule r,
    same.same_schedule s,
    same.same_time r,
    same.same_time s,
  )

  pub Distinct-map : (rs : List Run) → Distinct rs → Distinct (map f rs)
  Distinct-map [] h = tt
  Distinct-map (r ∷ rs) (h, hs) =
      (All-map (Apart r) (Apart (f r)) f rs (Apart-both r) h, Distinct-map rs hs)

pub update_SameKeys :
    (p : Run → Bool) (f : Run → Run) → SameKeys f → SameKeys (λ r. if p r then f r else r)
update_SameKeys p f same = record {
  same_id = λ r. ground (arith, same.same_id r);
  same_schedule = λ r. ground (arith, same.same_schedule r);
  same_time = λ r. ground (arith, same.same_time r);
}

pub Distinct-select : (p : Run → Bool) (rs : List Run) → Distinct rs → Distinct (select p rs)
Distinct-select p [] h = tt
Distinct-select p (r ∷ rs) (h, hs) =
    elim (p r) as (λ b. Distinct (if b then r ∷ select p rs else select p rs)) [
      | true ↦ (All-select (Apart r) p rs h, Distinct-select p rs hs)
      | false ↦ Distinct-select p rs hs
    ]

-- a row at the end, apart from all
pub Distinct-append :
    (rs : List Run) (s : Run) → Distinct rs → All (λ r. Apart r s) rs → Distinct (rs ++ s ∷ [])
Distinct-append [] s h a = (tt, tt)
Distinct-append (r ∷ rs) s (h, hs) (a, as') =
    (All-append (Apart r) rs (s ∷ []) h (a, tt), Distinct-append rs s hs as')
