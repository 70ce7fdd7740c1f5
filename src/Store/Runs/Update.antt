-- ===== src/Store/Runs/Update.antt =====
-- The updates of the table `run` (internal/db/gen/run.sql.go) and the rows and keys of the table.
use cronfoundry.Prelude.{
  Bool-cases, any, inl, inr, ℕ, String, ◌≡◌, refl, Bool, true, false, not, Option, List, [], ◌∷◌,
  arith, All, All-select, if◌then◌else◌, Bool-cases, inl, inr,
}
use cronfoundry.Store.Rows.{World, Run, is_active, now}
use cronfoundry.Store.Exec.Keeps.{Landed}
use cronfoundry.Store.Runs.{
  has_id, update_where, starts, start, set_running, FinalizeRunParams, finalizes, finish,
  finalize_row, set_token_hash, delete_row, orphaned, shut_down, orphan_sweep, overflows,
}
use cronfoundry.Store.Runs.Keys.{GoodRun, SameKeys, Distinct-map, Distinct-select, update_SameKeys}
use cronfoundry.Store.Runs.Insert.{GoodRuns}

-- An update of rows that pass `p` by `f`.
module _ (p : Run → Bool) (f : Run → Run) (n : ℕ) (same : SameKeys f)
    (ok : (r : Run) → p r ≡ true → GoodRun n r → GoodRun n (f r)) where
  GoodRun-update : (rs : List Run) → All (GoodRun n) rs → All (GoodRun n) (update_where p f rs)
  GoodRun-update [] g = tt
  GoodRun-update (r ∷ rs) (g, gs) = elim (Bool-cases (p r)) [
    | inl e ↦ rw e (ok r e g, GoodRun-update rs gs)
    | inr e ↦ rw e (g, GoodRun-update rs gs)
  ]

  GoodRuns-update : (rs : List Run) → GoodRuns rs n → GoodRuns (update_where p f rs) n
  GoodRuns-update rs g = record {
    good = GoodRun-update rs g.good;
    apart = Distinct-map (λ r. if p r then f r else r) (update_SameKeys p f same) rs g.apart;
  }

pub set_running-GoodRuns :
    (i : ℕ) (pid : Option ℕ) (w : World)
    → GoodRuns w.runs w.next_id
    → Landed (λ (x : Option Run) t n. GoodRuns t.runs n) (set_running i pid w)
unfolding set_running
set_running-GoodRuns i pid w g =
    GoodRuns-update (starts i) (start (now w) pid) w.next_id
      (record { same_id = λ r. refl; same_schedule = λ r. refl; same_time = λ r. refl })
      (λ r e h. ground arith) w.runs g

pub set_token_hash-GoodRuns :
    (i : ℕ) (hash : String) (w : World)
    → GoodRuns w.runs w.next_id
    → Landed (λ (x : Unit {0}) t n. GoodRuns t.runs n) (set_token_hash i hash w)
unfolding set_token_hash
set_token_hash-GoodRuns i hash w g =
    GoodRuns-update (has_id i) (λ r. record r { runner_token_hash = hash }) w.next_id
      (record { same_id = λ r. refl; same_schedule = λ r. refl; same_time = λ r. refl })
      (λ r e h. ground arith) w.runs g

pub finalize_row-GoodRuns :
    (p : FinalizeRunParams) (w : World)
    → is_active p.status ≡ false
    → GoodRuns w.runs w.next_id
    → Landed (λ (x : Option Run) t n. GoodRuns t.runs n) (finalize_row p w)
unfolding finalize_row
finalize_row-GoodRuns p w a g =
    GoodRuns-update (finalizes p.id) (finish (now w) p) w.next_id
      (record { same_id = λ r. refl; same_schedule = λ r. refl; same_time = λ r. refl })
      (λ r e h. ground arith) w.runs g

pub orphan_sweep-GoodRuns :
    (w : World)
    → GoodRuns w.runs w.next_id
    → Landed (λ (x : ℕ) t n. GoodRuns t.runs n) (orphan_sweep w)
unfolding orphan_sweep
orphan_sweep-GoodRuns w g = elim (Bool-cases (any (overflows w.schedules) w.runs)) [
  | inl e ↦ rw e tt
  | inr e ↦ rw e (
      GoodRuns-update (orphaned (now w) w.schedules) (shut_down (now w)) w.next_id
        (record { same_id = λ r. refl; same_schedule = λ r. refl; same_time = λ r. refl })
        (λ r k h. ground arith) w.runs g)
]

pub delete_row-GoodRuns :
    (i : ℕ) (w : World)
    → GoodRuns w.runs w.next_id
    → Landed (λ (x : Unit {0}) t n. GoodRuns t.runs n) (delete_row i w)
unfolding delete_row
delete_row-GoodRuns i w g = record {
  good = All-select (GoodRun w.next_id) (λ r. not (has_id i r)) w.runs g.good;
  apart = Distinct-select (λ r. not (has_id i r)) w.runs g.apart;
}
