-- ===== src/Api/Finalize/Done.antt =====
-- What a report that is answered with 204 has done.
use mathlib.Core.List.{Memᴰ}
use mathlib.Core.Path.{subst}
use cronfoundry.Prelude.{
  ℕ, ◌≡◌, refl, sym, ap, ◌∙◌, true, false, ◌||◌, not, Option, none, some, List, [], ◌∷◌, ◌==◌,
  arith, any, all, map, select, head?, Bool-cases, inl, inr, ◌≢◌, All,
}
use cronfoundry.Store.Rows.{World, now, Run, Status, is_active}
use cronfoundry.Store.Exec.{Outcome, ok, err, raise, call}
use cronfoundry.Store.Exec.Keeps.{Keeps-after, Ensures-bind, Ensures-attempt, Keeps-pure}
use cronfoundry.Store.Exec.Atomic.{call-tables}
use cronfoundry.Store.Exec.Inversion.{bind-ok, bind-goes, statement-ok, transaction-commits}
use cronfoundry.Store.Runs.{
  FinalizeRunParams, finalize_row, finalizes, finish, update_where, has_id,
}
use cronfoundry.Store.Runs.Frozen.{Frozen, Unchanged}
use cronfoundry.Api.Response.{Response, bad_request, forbidden, internal_error}
use cronfoundry.Api.AutoPause.{Show}
use cronfoundry.Api.Finalize.{
  Notification, FinalizeBody, finalize_status, finalize_params, finalized, finalize_tx,
  after_finalize, finalize_valid, finalize_checked, finalize_body, finalize_handler, has_negative,
  valid_notification,
}
use cronfoundry.Api.Keeps.{OnRuns, insert_notifications-Keeps, evaluate_auto_pause-Keeps}

-- A row of the run `i` that has the status `st` and what the report `b` says.
abbrev pub IsReported : ℕ → Status → FinalizeBody → Run → Type 0
IsReported i st b r =
    (r.id ≡ i)
    × (r.status ≡ st)
    × (r.duration_ms ≡ b.duration_ms)
    × (r.tokens_in ≡ b.tokens_in)
    × (r.tokens_out ≡ b.tokens_out)
    × (r.cost_cents ≡ b.cost_cents)
    × (r.error_kind ≡ b.error_kind)
    × (r.error_msg ≡ b.error_msg)
    × (r.writeback_commit_sha ≡ b.writeback_commit_sha)

abbrev pub Recorded : ℕ → Status → FinalizeBody → List Run → Type 0
Recorded i st b rs = (r : Run) × Memᴰ r rs × IsReported i st b r

-- the row that the statement writes
abbrev Wrote : FinalizeRunParams → List Run → Type 0
Wrote p rs = (t : ℕ) × (x : Run) × (has_id p.id x ≡ true) × Memᴰ (finish t p x) rs

Wrote-Recorded :
    (i : ℕ) (st : Status) (b : FinalizeBody) (rs : List Run)
    → Wrote (finalize_params i st b) rs
    → Recorded i st b rs
Wrote-Recorded i st b rs (t, x, e, m) = (
  finish t (finalize_params i st b) x,
  m,
  (ground arith, refl, refl, refl, refl, refl, refl, refl, refl),
)

module _ (t : ℕ) (p : FinalizeRunParams) where
  select-some :
      (rs : List Run) (r : Run)
      → head? (map (finish t p) (select (finalizes p.id) rs)) ≡ some r
      → any (finalizes p.id) rs ≡ true
  select-some [] r h = absurd (cc)
  select-some (x ∷ rs) r h = elim (Bool-cases (finalizes p.id x)) [
    | inl e ↦ ground (arith, e)
    | inr e ↦ ground (arith, e, select-some rs r)
  ]

  recorded :
      (rs : List Run)
      → any (finalizes p.id) rs ≡ true
      → Wrote p (update_where (finalizes p.id) (finish t p) rs)
  recorded [] h = absurd (cc)
  recorded (x ∷ rs) h = elim (Bool-cases (finalizes p.id x)) [
    | inl e ↦ (t, x, ground (arith, e), Memᴰ.head (rw e))
    | inr e ↦ let (u, y, k, m) = recorded rs (ground arith) in (u, y, k, Memᴰ.tail m)
  ]

Wrote-OnRuns : (p : FinalizeRunParams) → OnRuns (λ t n. Wrote p t.runs)
Wrote-OnRuns p = record { only_runs = λ t u n e h. rw e at h; upward = λ t n k h l. h }

module _ (p : FinalizeRunParams) (ns : List Notification) where
  finalized-ok :
      (o : Option Run) (w v : World) (x : Run)
      → finalize_row p v ≡ some (o, w)
      → (finalized ns o w).0 ≡ ok x
      → (any (finalizes p.id) v.runs ≡ true) × Wrote p (finalized ns o w).1.runs
  unfolding finalized finalize_row raise
  finalized-ok none w v x h k = absurd (cc)
  finalized-ok (some r) w v x h k =
      let t = now v in
      let q : head? (map (finish t p) (select (finalizes p.id) v.runs)) ≡ some r = cc (h) in
      let u : record v {
        tables = record v.tables { runs = update_where (finalizes p.id) (finish t p) v.runs };
      }
          ≡ w =
        cc (h) in
      let a = select-some t p v.runs r q in
      (
        a,
        Keeps-after _ (insert_notifications-Keeps _ (Wrote-OnRuns p) r ns) w
            (subst (λ z. Wrote p z.runs) u (recorded t p v.runs a)),
      )

  finalize_tx-ok :
      (w : World) (x : Run)
      → (finalize_tx p ns w).0 ≡ ok x
      → (any (finalizes p.id) w.runs ≡ true) × Wrote p (finalize_tx p ns w).1.runs
  unfolding finalize_tx
  finalize_tx-ok w x h =
      let (v, e, k, s) = transaction-commits internal_error internal_error _ w x h in
      let (o, r, l) = bind-ok _ _ v x k in
      let g = bind-goes _ (λ row. finalized ns row) v o r in
      let f = statement-ok internal_error (finalize_row p) v o r in
      let (a, d) = finalized-ok o _ (call v).0 x f l in
      (
        subst (λ t. any (finalizes p.id) t.runs ≡ true) (call-tables v ∙ e) a,
        subst (λ t. Wrote p t.runs) (sym (s ∙ ap (λ z. z.1.tables) g)) d,
      )

-- The report `b` of the run `i` with the status `st` was accepted: the run was active, and its row has
-- what the report says.
abbrev pub Accepted : ℕ → Status → FinalizeBody → World → World → Type 0
Accepted i st b w w' = (any (finalizes i) w.runs ≡ true) × Recorded i st b w'.runs

module _ (s : Show) (i : ℕ) where
  after_finalize-Wrote :
      (p : FinalizeRunParams) (st : Status) (r : Run) (w : World)
      → Wrote p w.runs
      → Wrote p (after_finalize s i st r w).1.runs
  unfolding after_finalize
  after_finalize-Wrote p st r w h =
      Keeps-after {E = Response} _
        (Ensures-bind _ _
          (Ensures-attempt _
            (evaluate_auto_pause-Keeps _ (Wrote-OnRuns p) s r.schedule_id i st r.fire_reason))
          λ u. Keeps-pure _)
        w h

  finalize_valid-ok :
      (b : FinalizeBody) (st : Status) (w : World)
      → (finalize_valid s i b st w).0 ≡ ok tt
      → Accepted i st b w (finalize_valid s i b st w).1
  unfolding finalize_valid
  finalize_valid-ok b st w h =
      let p = finalize_params i st b in
      let (r, k, l) = bind-ok _ _ w tt h in
      let (a, d) = finalize_tx-ok p b.notifications w r k in
      let g = bind-goes _ (after_finalize s i st) w r k in
      (
        a,
        Wrote-Recorded i st b _
            (subst (λ z. Wrote p z.1.runs) (sym g) (after_finalize-Wrote p st r _ d)),
      )

  finalize_checked-ok :
      (b : FinalizeBody) (o : Option Status) (w : World)
      → (finalize_checked s i b o w).0 ≡ ok tt
      → (st : Status) × (o ≡ some st) × Accepted i st b w (finalize_checked s i b o w).1
  unfolding finalize_checked raise
  finalize_checked-ok b none w h = absurd (cc)
  finalize_checked-ok b (some st) w h =
      elim (Bool-cases (has_negative b || not (all valid_notification b.notifications))) [
        | inl e ↦
            let l : ◌≡◌ {A = Outcome Response (Unit {0})} (err bad_request) (ok tt) = rw e at h in
            absurd (cc (l))
        | inr e ↦ (st, refl, rw e (finalize_valid-ok b st w (rw e at h)))
      ]

  finalize_body-ok :
      (o : Option FinalizeBody) (w : World)
      → (finalize_body s i o w).0 ≡ ok tt
      → (b : FinalizeBody) × (o ≡ some b)
        × (st : Status) × (finalize_status b.status ≡ some st)
        × Accepted i st b w (finalize_body s i o w).1
  unfolding finalize_body raise
  finalize_body-ok none w h = absurd (cc)
  finalize_body-ok (some b) w h =
      let (st, e, a) = finalize_checked-ok b (finalize_status b.status) w h in (b, refl, st, e, a)

-- A report that is answered with 204 names a run that was active, that of the bearer's claims, and
-- has a known status; afterwards, whatever became of the auto-pause evaluation, a row of that run has
-- the status, the usage and the error that the report gives.
pub finalize_handler-ok :
    (s : Show) (claimed : ℕ) (url : Option ℕ) (body : Option FinalizeBody) (w : World)
    → (finalize_handler s claimed url body w).0 ≡ ok tt
    → (url ≡ some claimed)
      × (b : FinalizeBody) × (body ≡ some b)
      × (st : Status) × (finalize_status b.status ≡ some st)
      × Accepted claimed st b w (finalize_handler s claimed url body w).1
unfolding finalize_handler raise
finalize_handler-ok s claimed none body w h = absurd (cc)
finalize_handler-ok s claimed (some i) body w h = elim (Bool-cases (claimed == i)) [
  | inl e ↦ rw e (accepted (ground arith) (finalize_body-ok s i body w (rw e at h)))
  | inr e ↦
      let l : ◌≡◌ {A = Outcome Response (Unit {0})} (err forbidden) (ok tt) = rw e at h in
      absurd (cc (l))
]
  where
    accepted :
        i ≡ claimed
        → ((b : FinalizeBody) × (body ≡ some b)
            × (st : Status) × (finalize_status b.status ≡ some st)
            × Accepted i st b w (finalize_body s i body w).1)
        → (some i ≡ some claimed)
          × (b : FinalizeBody) × (body ≡ some b)
          × (st : Status) × (finalize_status b.status ≡ some st)
          × Accepted claimed st b w (finalize_body s i body w).1
    accepted q (b, f, st, g, a) =
        (ap some q, b, f, st, g, subst (λ k. Accepted k st b w (finalize_body s i body w).1) q a)

-- A run that has ended is never reported again: no report of it is answered with 204.
pub finalize_handler-twice :
    (s : Show) (i : ℕ) (r : Run) (url : Option ℕ) (body : Option FinalizeBody) (w : World)
    → is_active r.status ≡ false
    → Frozen i r w.tables w.next_id
    → (finalize_handler s i url body w).0 ≢ ok tt
finalize_handler-twice s i r url body w finished z h =
    let (u, b, e, st, f, (a, d)) = finalize_handler-ok s i url body w h in
    absurd (idle w.runs z.unchanged a)
  where
    idle : (rs : List Run) → All (Unchanged i r) rs → any (finalizes i) rs ≡ true → ⊥
    idle [] h a = cc (a)
    idle (x ∷ rs) (u, us) a = elim (Bool-cases (finalizes i x)) [
      | inl e ↦ absurd (ground (arith, u (ground arith)))
      | inr e ↦ idle rs us (ground arith)
    ]
