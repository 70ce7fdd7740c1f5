-- ===== src/Store/Runs/Insert.antt =====
-- InsertRun (internal/db/gen/run.sql.go): a second insert, and the keys of the table.
use mathlib.Core.Path.{subst}
use cronfoundry.Prelude.{
  ℕ, ◌≤◌, suc, ◌≡◌, refl, Bool, true, false, Option, none, some, List, [], ◌∷◌, ◌++◌, arith, find,
  All, All-append, All-imp, ◌==◌, any, Bool-cases, ◌⊎◌, inl, inr,
}
use cronfoundry.Store.Rows.{World, Run, Schedule, now}
use cronfoundry.Store.Runs.{
  InsertRunParams, insert_row, insert_or, new_run, same_fire, is_consistent,
}
use cronfoundry.Store.Exec.Keeps.{Landed}
use cronfoundry.Store.Runs.Keys.{GoodRun, Apart, Distinct, Distinct-append}

-- The table of runs is well formed: `n` is above every id.
pub record GoodRuns (runs : List Run) (n : ℕ) : Type 0 where
  pub good : All (GoodRun n) runs
  pub apart : Distinct runs

find-none : (p : Run → Bool) (rs : List Run) → find p rs ≡ none → All (λ r. p r ≡ false) rs
find-none p [] h = tt
find-none p (r ∷ rs) h = elim (Bool-cases (p r)) [
  | inl e ↦ absurd (ground (arith, e))
  | inr e ↦ (e, find-none p rs (ground (arith, e)))
]

new-Apart :
    (p : InsertRunParams) (t n : ℕ) (rs : List Run)
    → All (GoodRun n) rs
    → All (λ r. same_fire p.schedule_id p.fire_time r ≡ false) rs
    → All (λ r. Apart r (new_run p n t)) rs
new-Apart p t n [] g h = tt
new-Apart p t n (r ∷ rs) (g, gs) (h, hs) = (ground arith, new-Apart p t n rs gs hs)

GoodRun-upward : (n k : ℕ) (r : Run) → n ≤ k → GoodRun n r → GoodRun k r
GoodRun-upward n k r h g = record {
  id_given = omega (arith, g.id_given);
  fire_consistent = g.fire_consistent;
  finished_when_terminal = g.finished_when_terminal;
  started_when_running = g.started_when_running;
}

pub GoodRuns-upward : (rs : List Run) (n k : ℕ) → GoodRuns rs n → n ≤ k → GoodRuns rs k
GoodRuns-upward rs n k g h = record {
  good = All-imp (GoodRun n) (GoodRun k) rs (λ r. GoodRun-upward n k r h) g.good;
  apart = g.apart;
}

new-GoodRun :
    (p : InsertRunParams) (t n : ℕ)
    → is_consistent p.fire_reason p.fire_time ≡ true
    → GoodRun (suc n) (new_run p n t)
new-GoodRun p t n h = ground arith

module _ (p : InsertRunParams) (w : World) (g : GoodRuns w.runs w.next_id) where
  GoodRuns-insert_or :
      (o : Option Run)
      → find (same_fire p.schedule_id p.fire_time) w.runs ≡ o
      → is_consistent p.fire_reason p.fire_time ≡ true
      → GoodRuns (insert_or p w o).1.runs (insert_or p w o).1.next_id
  GoodRuns-insert_or none e c = record {
    good =
        All-append (GoodRun (suc w.next_id)) w.runs (new_run p w.next_id (now w) ∷ [])
          (All-imp (GoodRun w.next_id) (GoodRun (suc w.next_id)) w.runs
            (λ r. GoodRun-upward w.next_id (suc w.next_id) r (omega arith)) g.good)
          (new-GoodRun p (now w) w.next_id c, tt);
    apart =
        Distinct-append w.runs (new_run p w.next_id (now w)) g.apart
          (new-Apart p (now w) w.next_id w.runs g.good (find-none _ w.runs e));
  }
  GoodRuns-insert_or (some r) e c = g

-- A row that is returned as new has the next free id, and the supply moves past it.
pub insert_or_id :
    (p : InsertRunParams) (w : World) (o : Option Run)
    → (insert_or p w o).0.1 ≡ true
    → (insert_or p w o).0.0.id ≡ w.next_id
insert_or_id p w none h = refl
insert_or_id p w (some r) h = cc

pub insert_row-cases :
    (p : InsertRunParams) (w : World)
    → (insert_row p w ≡ none)
      ⊎ ((insert_row p w ≡ some (insert_or p w (find (same_fire p.schedule_id p.fire_time) w.runs)))
          × (is_consistent p.fire_reason p.fire_time ≡ true)
          × (any (λ (s : Schedule). s.id == p.schedule_id) w.schedules ≡ true))
unfolding insert_row
insert_row-cases p w =
    elim (Bool-cases (any (λ (s : Schedule). s.id == p.schedule_id) w.schedules)) [
      | inr e ↦ inl (rw e)
      | inl e ↦ elim (Bool-cases (is_consistent p.fire_reason p.fire_time)) [
        | inr c ↦ inl (rw (e, c))
        | inl c ↦ inr (rw (e, c), c, e)
      ]
    ]

pub insert_row-GoodRuns :
    (p : InsertRunParams) (w : World)
    → GoodRuns w.runs w.next_id
    → Landed (λ (x : Run × Bool) t n. GoodRuns t.runs n) (insert_row p w)
insert_row-GoodRuns p w g = elim (insert_row-cases p w) [
  | inl e ↦ rw e tt
  | inr (e, c, s) ↦
      rw e (GoodRuns-insert_or p w g (find (same_fire p.schedule_id p.fire_time) w.runs) refl c)
]

find-append :
    (q : Run → Bool) (rs : List Run) (s : Run)
    → find q rs ≡ none
    → q s ≡ true
    → find q (rs ++ s ∷ []) ≡ some s
find-append q [] s h e = rw e
find-append q (r ∷ rs) s h e = elim (Bool-cases (q r)) [
  | inl f ↦ absurd (ground (arith, f))
  | inr f ↦ rw f (find-append q rs s (ground (arith, f)) e)
]

-- the search that a second insert makes
insert_or-find :
    (p : InsertRunParams) (w : World) (t : ℕ) (o : Option Run)
    → p.fire_time ≡ some t
    → find (same_fire p.schedule_id p.fire_time) w.runs ≡ o
    → find (same_fire p.schedule_id p.fire_time) (insert_or p w o).1.runs
      ≡ some (insert_or p w o).0.0
insert_or-find p w t none e f =
    find-append (same_fire p.schedule_id p.fire_time) w.runs (new_run p w.next_id (now w)) f
      (ground arith)
insert_or-find p w t (some r) e f = f

insert_or-schedules :
    (p : InsertRunParams) (w : World) (o : Option Run) → (insert_or p w o).1.schedules ≡ w.schedules
insert_or-schedules p w none = refl
insert_or-schedules p w (some r) = refl

module _ (p q : InsertRunParams) (w : World) (o : Option Run) (t : ℕ) where
  insert_again :
      p.fire_time ≡ some t
      → find (same_fire p.schedule_id p.fire_time) w.runs ≡ o
      → is_consistent p.fire_reason p.fire_time ≡ true
      → any (λ (s : Schedule). s.id == p.schedule_id) w.schedules ≡ true
      → q.schedule_id ≡ p.schedule_id
      → q.fire_time ≡ p.fire_time
      → q.fire_reason ≡ p.fire_reason
      → insert_row q (insert_or p w o).1
        ≡ some (((insert_or p w o).0.0, false), (insert_or p w o).1)
  unfolding insert_row
  insert_again e l c d s f g =
      rw (s, f, g, insert_or-schedules p w o, d, c, insert_or-find p w t o e l)

-- Inserting a run with a fire time once more for the same schedule, fire time and reason returns
-- the row that the first insert returned, marked as not inserted, and changes nothing, whatever
-- else the second call gives.
pub insert-insert :
    (p q : InsertRunParams) (w w' : World) (r : Run) (b : Bool) (t : ℕ)
    → insert_row p w ≡ some ((r, b), w')
    → p.fire_time ≡ some t
    → q.schedule_id ≡ p.schedule_id
    → q.fire_time ≡ p.fire_time
    → q.fire_reason ≡ p.fire_reason
    → insert_row q w' ≡ some ((r, false), w')
insert-insert p q w w' r b t h e s f g = elim (insert_row-cases p w) [
  | inl n ↦ cc
  | inr (l, c, d) ↦
      let o = find (same_fire p.schedule_id p.fire_time) w.runs in
      let k : insert_or p w o ≡ ((r, b), w') = cc (l, h) in
      subst (λ x. insert_row q x.1 ≡ some ((x.0.0, false), x.1)) k
        (insert_again p q w o t e refl c d s f g)
]
