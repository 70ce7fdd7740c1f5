-- ===== src/Store/Runs/Frozen.antt =====
-- The statements on the table `run` and a run that has ended, under conditions on the id that they are
-- given.
use cronfoundry.Prelude.{
  Bool-cases, any, inl, inr, ℕ, String, ◌<◌, ◌≡◌, ◌≢◌, refl, Bool, true, false, not, Option, none,
  some, List, [], ◌∷◌, ◌++◌, arith, find, select, any, All, All-append, All-select, if◌then◌else◌,
  Bool-cases, inl, inr,
}
use cronfoundry.Store.Rows.{World, Run, Tables, is_active, now}
use cronfoundry.Store.Exec.Keeps.{Landed, At}
use cronfoundry.Store.Runs.{
  InsertRunParams, insert_row, insert_or, new_run, same_fire, has_id, update_where, starts, start,
  set_running, FinalizeRunParams, finalizes, finish, finalize_row, set_token_hash, delete_row,
  orphaned, shut_down, orphan_sweep, overflows,
}
use cronfoundry.Store.Runs.Insert.{insert_row-cases}

abbrev pub Unchanged : ℕ → Run → Run → Type 0
Unchanged i r s = has_id i s ≡ true → s ≡ r

-- The table holds a row with the id `i`, and every such row is `r`.
pub record Frozen (i : ℕ) (r : Run) (t : Tables) (n : ℕ) : Type 0 where
  pub present : any (has_id i) t.runs ≡ true
  pub given : i < n
  pub unchanged : All (Unchanged i r) t.runs

module _ (i : ℕ) (r : Run) (p : Run → Bool) (f : Run → Run) (same : (s : Run) → (f s).id ≡ s.id)
    (off : (s : Run) → has_id i s ≡ true → s ≡ r → p s ≡ false) where
  Unchanged-update : (s : Run) → Unchanged i r s → Unchanged i r (if p s then f s else s)
  Unchanged-update s u = elim (Bool-cases (p s)) [
    | inl e ↦ rw e λ h.
        let k : has_id i s ≡ true = ground (arith, same s) in absurd (ground (arith, off s k (u k)))
    | inr e ↦ rw e u
  ]

  any-update :
      (rs : List Run) → any (has_id i) rs ≡ true → any (has_id i) (update_where p f rs) ≡ true
  any-update [] h = h
  any-update (s ∷ rs) h = ground (arith, same s, any-update rs)

  Unchanged-update_where :
      (rs : List Run) → All (Unchanged i r) rs → All (Unchanged i r) (update_where p f rs)
  Unchanged-update_where [] h = tt
  Unchanged-update_where (s ∷ rs) (h, hs) = (Unchanged-update s h, Unchanged-update_where rs hs)

any-append_left : (p : Run → Bool) (rs ss : List Run) → any p rs ≡ true → any p (rs ++ ss) ≡ true
any-append_left p [] ss h = absurd (ground arith)
any-append_left p (r ∷ rs) ss h = ground (arith, any-append_left p rs ss)

any-without :
    (i j : ℕ) (rs : List Run)
    → i ≢ j
    → any (has_id i) rs ≡ true
    → any (has_id i) (select (λ r. not (has_id j r)) rs) ≡ true
any-without i j [] d h = h
any-without i j (r ∷ rs) d h = ground (arith, any-without i j rs d)

module _ (i : ℕ) (r : Run) (finished : is_active r.status ≡ false) where
  pub set_running-Frozen :
      (j : ℕ) (pid : Option ℕ) (w : World)
      → At (Frozen i r) w
      → Landed (λ (x : Option Run). Frozen i r) (set_running j pid w)
  unfolding set_running
  set_running-Frozen j pid w z = record {
    present =
        any-update i r (starts j) (start (now w) pid) (λ s. refl) (λ s h e. rw e (ground arith))
          w.runs z.present;
    given = z.given;
    unchanged =
        Unchanged-update_where i r (starts j) (start (now w) pid) (λ s. refl)
          (λ s h e. rw e (ground arith)) w.runs z.unchanged;
  }

  pub set_token_hash-Frozen :
      (j : ℕ) (hash : String) (w : World)
      → i ≢ j
      → At (Frozen i r) w
      → Landed (λ (x : Unit {0}). Frozen i r) (set_token_hash j hash w)
  unfolding set_token_hash
  set_token_hash-Frozen j hash w d z = record {
    present =
        any-update i r (has_id j) (λ s. record s { runner_token_hash = hash }) (λ s. refl)
          (λ s h e. ground arith) w.runs z.present;
    given = z.given;
    unchanged =
        Unchanged-update_where i r (has_id j) (λ s. record s { runner_token_hash = hash })
          (λ s. refl) (λ s h e. ground arith) w.runs z.unchanged;
  }

  pub finalize_row-Frozen :
      (p : FinalizeRunParams) (w : World)
      → At (Frozen i r) w
      → Landed (λ (x : Option Run). Frozen i r) (finalize_row p w)
  unfolding finalize_row
  finalize_row-Frozen p w z = record {
    present =
        any-update i r (finalizes p.id) (finish (now w) p) (λ s. refl)
          (λ s h e. rw e (ground arith)) w.runs z.present;
    given = z.given;
    unchanged =
        Unchanged-update_where i r (finalizes p.id) (finish (now w) p) (λ s. refl)
          (λ s h e. rw e (ground arith)) w.runs z.unchanged;
  }

  pub orphan_sweep-Frozen :
      (w : World) → At (Frozen i r) w → Landed (λ (x : ℕ). Frozen i r) (orphan_sweep w)
  unfolding orphan_sweep
  orphan_sweep-Frozen w z = elim (Bool-cases (any (overflows w.schedules) w.runs)) [
    | inl o ↦ rw o tt
    | inr o ↦ rw o (record {
      present =
          any-update i r (orphaned (now w) w.schedules) (shut_down (now w)) (λ s. refl)
            (λ s h e. rw e (ground arith)) w.runs z.present;
      given = z.given;
      unchanged =
          Unchanged-update_where i r (orphaned (now w) w.schedules) (shut_down (now w)) (λ s. refl)
            (λ s h e. rw e (ground arith)) w.runs z.unchanged;
    })
  ]

  pub delete_row-Frozen :
      (j : ℕ) (w : World)
      → i ≢ j
      → At (Frozen i r) w
      → Landed (λ (x : Unit {0}). Frozen i r) (delete_row j w)
  unfolding delete_row
  delete_row-Frozen j w d z = record {
    present = any-without i j w.runs d z.present;
    given = z.given;
    unchanged = All-select (Unchanged i r) (λ s. not (has_id j s)) w.runs z.unchanged;
  }

  Frozen-insert_or :
      (p : InsertRunParams) (w : World) (o : Option Run)
      → At (Frozen i r) w
      → At (Frozen i r) (insert_or p w o).1
        × ((insert_or p w o).0.1 ≡ true → i ≢ (insert_or p w o).0.0.id)
  Frozen-insert_or p w none z = (
    record {
      present = any-append_left (has_id i) w.runs (new_run p w.next_id (now w) ∷ []) z.present;
      given = omega (arith, z.given);
      unchanged =
          All-append (Unchanged i r) w.runs (new_run p w.next_id (now w) ∷ []) z.unchanged
            ((λ h. absurd (ground (arith, z.given))), tt);
    },
    λ h. omega (arith, z.given),
  )
  Frozen-insert_or p w (some s) z = (z, λ h. absurd (cc))

  -- A row that InsertRun reports as new is not the finished one.
  pub insert_row-Frozen :
      (p : InsertRunParams) (w : World)
      → At (Frozen i r) w
      → Landed (λ (x : Run × Bool) t n. Frozen i r t n × (x.1 ≡ true → i ≢ x.0.id)) (insert_row p w)
  insert_row-Frozen p w z = elim (insert_row-cases p w) [
    | inl e ↦ rw e tt
    | inr (e, c, s) ↦
        rw e (Frozen-insert_or p w (find (same_fire p.schedule_id p.fire_time) w.runs) z)
  ]
