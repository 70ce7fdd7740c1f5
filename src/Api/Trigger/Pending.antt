-- ===== src/Api/Trigger/Pending.antt =====
-- internal/api/trigger.go: what an accepted manual trigger leaves.
use mathlib.Core.List.{Memᴰ}
use mathlib.Core.Path.{subst}
use cronfoundry.Prelude.{
  ℕ, String, ◌≡◌, refl, sym, ap, ◌∙◌, Bool, true, false, Option, none, some, List, [], ◌∷◌, ◌++◌,
  ◌==◌, arith, find, Bool-cases, inl, inr,
}
use cronfoundry.Store.Rows.{World, Run, Schedule, SkillRow, pending, manual, now}
use cronfoundry.Store.Exec.{M, ok, pure, raise, ◌>>=◌, ◌>>◌, call, statement, attempt}
use cronfoundry.Store.Exec.Keeps.{Keeps-after, Ensures-attempt, Ensures-bind, Keeps-pure}
use cronfoundry.Store.Exec.Inversion.{bind-ok, read-ok, bind-goes, statement-ok}
use cronfoundry.Store.Runs.{insert_row, insert_or, same_fire, new_run}
use cronfoundry.Store.Runs.Insert.{insert_row-cases}
use cronfoundry.Store.Logs.{insert_audit_log}
use cronfoundry.Store.Schedules.{trigger_schedule, schedule_has_id, with_sha}
use cronfoundry.Api.Response.{Response, internal_error}
use cronfoundry.Api.Keeps.{OnRuns, insert_audit_log-Keeps}
use cronfoundry.Api.Trigger.{
  manual_run, trigger_audit, or_internal, trigger_found, trigger_body, trigger_at, trigger_handler,
}

-- A pending manual run of the schedule is in the table.
abbrev pub Waits : ℕ → ℕ → List Run → Type 0
Waits sid i rs =
    (r : Run) × Memᴰ r rs
    × (r.id ≡ i)
    × (r.schedule_id ≡ sid)
    × (r.status ≡ pending)
    × (r.fire_reason ≡ manual)

Waits-OnRuns : (sid i : ℕ) → OnRuns (λ t n. Waits sid i t.runs)
Waits-OnRuns sid i = record { only_runs = λ t u n e h. rw e at h; upward = λ t n k h l. h }

mem-last : (r : Run) (rs : List Run) → Memᴰ r (rs ++ r ∷ [])
mem-last r [] = Memᴰ.head refl
mem-last r (x ∷ rs) = Memᴰ.tail (mem-last r rs)

no_fire : (sid : ℕ) (rs : List Run) → find (same_fire sid none) rs ≡ none
no_fire sid [] = refl
no_fire sid (r ∷ rs) = ground (arith, no_fire sid rs)

-- a manual run never conflicts with another row
insert_row-Waits :
    (s : Schedule) (sha hash : String) (actor : Option String) (v w : World) (x : Run × Bool)
    → insert_row (manual_run s sha actor hash) v ≡ some (x, w)
    → Waits s.id x.0.id w.runs
insert_row-Waits s sha hash actor v w x h =
    elim (insert_row-cases (manual_run s sha actor hash) v) [
      | inl n ↦ absurd (cc)
      | inr (e, c, d) ↦
          let p = manual_run s sha actor hash in
          let f : insert_or p v none ≡ (x, w) =
            cc (ap (insert_or p v) (no_fire s.id v.runs), e, h) in
          let r = new_run p v.next_id (now v) in
          subst (λ z. Waits s.id z.0.0.id z.1.runs) f (r, mem-last r v.runs, refl, refl, refl, refl)
    ]

pure-same : (a i : ℕ) (w : World) → (pure {E = Response} a w).0 ≡ ok i → a ≡ i
unfolding pure
pure-same a i w h = cc (h)

module _ (hex : ℕ → Option String) (text : ℕ → String) (actor : Option String) (s : Schedule) where
  -- the audit row, and the answer
  abbrev noted : Run → M Response ℕ
  noted x =
      attempt (statement internal_error (insert_audit_log (trigger_audit text s actor x)))
      >> pure x.id

  noted-ok :
      (x : Run) (i : ℕ) (w : World)
      → Waits s.id x.id w.runs
      → (noted x w).0 ≡ ok i
      → Waits s.id i (noted x w).1.runs
  noted-ok x i w h k =
      let (r, e, l) = bind-ok _ _ w i k in
      subst (λ j. Waits s.id j (noted x w).1.runs) (pure-same x.id i _ l)
        (Keeps-after _
          (Ensures-bind _ _
            (Ensures-attempt _ (
              insert_audit_log-Keeps _ (Waits-OnRuns s.id x.id) internal_error
                (trigger_audit text s actor x)))
            λ u. Keeps-pure x.id)
          w h)

  abbrev inserted : String → String → M Response ℕ
  inserted sha hash =
      statement internal_error (insert_row (manual_run s sha actor hash)) >>= λ run. noted run.0

  inserted-ok :
      (sha hash : String) (i : ℕ) (w : World)
      → (inserted sha hash w).0 ≡ ok i
      → Waits s.id i (inserted sha hash w).1.runs
  inserted-ok sha hash i w h =
      let (x, c, m) = bind-ok _ _ w i h in
      let q = statement-ok internal_error _ w x c in
      let g = bind-goes _ (λ (run : Run × Bool). noted run.0) w x c in
      subst (λ z. Waits s.id i z.1.runs) (sym g)
        (noted-ok x.0 i _ (insert_row-Waits s sha hash actor (call w).0 _ x q) m)

  trigger_found-ok :
      (sha : String) (w : World) (i : ℕ)
      → (trigger_found hex text actor (some (s, sha)) w).0 ≡ ok i
      → Waits s.id i (trigger_found hex text actor (some (s, sha)) w).1.runs
  unfolding trigger_found
  trigger_found-ok sha w i h =
      let (seed, a, k) = bind-ok _ _ w i h in
      let (hash, b, l) = bind-ok _ _ _ i k in
      let g = bind-goes _ (λ (n : ℕ). or_internal (hex n) >>= inserted sha) w seed a in
      let f = bind-goes _ (inserted sha) _ hash b in
      subst (λ z. Waits s.id i z.1.runs) (sym (g ∙ f)) (inserted-ok sha hash i _ l)

find-has_id :
    (i : ℕ) (ss : List Schedule) (s : Schedule) → find (schedule_has_id i) ss ≡ some s → s.id ≡ i
find-has_id i [] s h = absurd (cc)
find-has_id i (x ∷ ss) s h = elim (Bool-cases (schedule_has_id i x)) [
  | inl e ↦
      let q : ◌≡◌ {A = Option Schedule} (some x) (some s) = rw e at h in
      let k : x ≡ s = cc (q) in ground arith
  | inr e ↦ find-has_id i ss s (rw e at h)
]

trigger_schedule-id :
    (i : ℕ) (w : World) (s : Schedule) (sha : String)
    → trigger_schedule i w ≡ some (s, sha)
    → s.id ≡ i
unfolding trigger_schedule
trigger_schedule-id i w s sha h = joined (find (schedule_has_id i) w.schedules) refl h
  where
    with_row : (x : Schedule) (k : Option SkillRow) → with_sha x k ≡ some (s, sha) → x ≡ s
    with_row x none q = absurd (cc)
    with_row x (some k) q = cc (q)

    joined :
        (o : Option Schedule)
        → find (schedule_has_id i) w.schedules ≡ o
        → (elim o as (λ _. Option (Schedule × String)) [
          | none ↦ none
          | some x ↦ with_sha x (find (λ (k : SkillRow). k.id == x.skill_id) w.skills)
        ])
          ≡ some (s, sha)
        → s.id ≡ i
    joined none e q = absurd (cc)
    joined (some x) e q =
        ap (λ (y : Schedule). y.id) (sym (with_row x _ q)) ∙ find-has_id i w.schedules x e

module _ (hex : ℕ → Option String) (text : ℕ → String) where
  found-ok :
      (sid : ℕ) (actor : Option String) (o : Option (Schedule × String)) (v w : World) (i : ℕ)
      → o ≡ trigger_schedule sid v
      → (trigger_found hex text actor o w).0 ≡ ok i
      → Waits sid i (trigger_found hex text actor o w).1.runs
  unfolding trigger_found raise
  found-ok sid actor none v w i e h = absurd (cc)
  found-ok sid actor (some (s, sha)) v w i e h =
      subst (λ k. Waits k i (trigger_found hex text actor (some (s, sha)) w).1.runs)
        (trigger_schedule-id sid v s sha (sym e)) (trigger_found-ok hex text actor s sha w i h)

  trigger_body-ok :
      (sid : ℕ) (body : Option (Option String)) (w : World) (i : ℕ)
      → (trigger_body hex text sid body w).0 ≡ ok i
      → Waits sid i (trigger_body hex text sid body w).1.runs
  unfolding trigger_body raise
  trigger_body-ok sid none w i h = absurd (cc)
  trigger_body-ok sid (some actor) w i h =
      let (o, r, t) = bind-ok _ _ w i h in
      let (e, f) = read-ok internal_error (trigger_schedule sid) w o r in
      let g = bind-goes _ (trigger_found hex text actor) w o r in
      subst (λ z. Waits sid i z.1.runs) (sym g) (found-ok sid actor o (call w).0 _ i e t)

  trigger_at-ok :
      (url : Option ℕ) (body : Option (Option String)) (w : World) (i : ℕ)
      → (trigger_at hex text url body w).0 ≡ ok i
      → (sid : ℕ) × (url ≡ some sid) × Waits sid i (trigger_at hex text url body w).1.runs
  unfolding trigger_at raise
  trigger_at-ok none body w i h = absurd (cc)
  trigger_at-ok (some sid) body w i h = (sid, refl, trigger_body-ok sid body w i h)

-- A manual trigger that is answered with the id of a run came from the loopback address, and has left
-- a pending manual run with that id, of the schedule that the request names, in the table.
pub trigger_handler-ok :
    (hex : ℕ → Option String) (text : ℕ → String) (loopback : Bool) (url : Option ℕ)
    (body : Option (Option String)) (w : World) (i : ℕ)
    → (trigger_handler hex text loopback url body w).0 ≡ ok i
    → (loopback ≡ true)
      × (sid : ℕ) × (url ≡ some sid)
      × Waits sid i (trigger_handler hex text loopback url body w).1.runs
unfolding trigger_handler raise
trigger_handler-ok hex text true url body w i h =
    let (sid, e, q) = trigger_at-ok hex text url body w i h in (refl, sid, e, q)
trigger_handler-ok hex text false url body w i h = absurd (cc)
