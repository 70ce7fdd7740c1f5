-- ===== src/Api/AutoPause/Streak.antt =====
-- internal/api/finalize_autopause.go: when a schedule is paused.
use cronfoundry.Prelude.{
  ℕ, ◌≤◌, ◌≡◌, refl, sym, ap, ◌∙◌, Bool, true, false, ◌||◌, not, Option, none, some, List, [], ◌∷◌,
  map, arith, All, Bool-cases, inl, inr, length, take, sort_by, select, find, all,
}
use cronfoundry.Store.Rows.{World, Schedule, Status, failed, is_failed, FireReason, is_manual}
use cronfoundry.Store.Exec.{Outcome, ok, pure, statement, call}
use cronfoundry.Store.Exec.Atomic.{call-tables}
use cronfoundry.Store.Exec.Inversion.{bind-ok, read-ok, transaction-ok}
use cronfoundry.Store.Runs.{recent_terminal, newer, counts}
use cronfoundry.Store.Schedules.{get_schedule, schedule_has_id}
use cronfoundry.Api.AutoPause.{
  Show, PauseError, begin, commit, get_config, list_recent, threshold_of, is_streak,
  pause_if_streak, committed, evaluate_tx, evaluate_auto_pause,
}

recent-tables :
    (sid since k : ℕ) (v w : World)
    → v.tables ≡ w.tables
    → recent_terminal sid since k v ≡ recent_terminal sid since k w
unfolding recent_terminal
recent-tables sid since k v w e =
    ap (λ t. map (λ r. r.status) (take k (sort_by newer (select (counts sid since) t.runs)))) e

get_schedule-tables :
    (i : ℕ) (v w : World) → v.tables ≡ w.tables → get_schedule i v ≡ get_schedule i w
unfolding get_schedule
get_schedule-tables i v w e = ap (λ t. find (schedule_has_id i) t.schedules) e

all_failed : (xs : List Status) → all is_failed xs ≡ true → All (λ x. x ≡ failed) xs
all_failed [] h = tt
all_failed (x ∷ xs) h = (ground arith, all_failed xs (ground arith))

-- the schedule's newest terminal scheduled runs since it was last enabled, `threshold` at most
abbrev pub newest : Schedule → World → List Status
newest cfg w = recent_terminal cfg.id cfg.last_enabled_at (threshold_of cfg.auto_pause_after) w

abbrev pub Streak : Schedule → World → Type 0
Streak cfg w =
    (threshold_of cfg.auto_pause_after ≤ length (newest cfg w))
    × All (λ x. x ≡ failed) (newest cfg w)

is_streak-Streak :
    (k : ℕ) (xs : List Status) → is_streak k xs ≡ true → (k ≤ length xs) × All (λ x. x ≡ failed) xs
is_streak-Streak k xs h = (ground arith, all_failed xs (ground arith))

pause_if_streak-ok :
    (s : Show) (i : ℕ) (o : Option Schedule) (w : World)
    → (pause_if_streak s i o w).0 ≡ ok true
    → (cfg : Schedule) × (o ≡ some cfg) × Streak cfg w
unfolding pause_if_streak pure
pause_if_streak-ok s i none w h = absurd (cc)
pause_if_streak-ok s i (some cfg) w h =
    let k = threshold_of cfg.auto_pause_after in
    let (xs, r, t) = bind-ok _ _ w true h in
    let (e, f) = read-ok list_recent (recent_terminal cfg.id cfg.last_enabled_at k) w xs r in
    let same : xs ≡ newest cfg w =
      e ∙ recent-tables cfg.id cfg.last_enabled_at k (call w).0 w (call-tables w) in
    elim (Bool-cases (is_streak k xs)) [
      | inl b ↦ (cfg, refl, rw same at (is_streak-Streak k xs b))
      | inr b ↦
          let l : ◌≡◌ {A = Outcome PauseError Bool} (ok false) (ok true) = rw b at t in
          absurd (cc (l))
    ]

Streak-tables : (cfg : Schedule) (v w : World) → v.tables ≡ w.tables → Streak cfg v → Streak cfg w
Streak-tables cfg v w e h =
    rw (recent-tables cfg.id cfg.last_enabled_at (threshold_of cfg.auto_pause_after) v w e) at h

evaluate_tx-ok :
    (s : Show) (sid i : ℕ) (w : World)
    → (evaluate_tx s sid i w).0 ≡ ok true
    → (cfg : Schedule) × (get_schedule sid w ≡ some cfg) × Streak cfg w
unfolding evaluate_tx
evaluate_tx-ok s sid i w h =
    let (o, r, t) =
      bind-ok (statement get_config (λ v. some (get_schedule sid v, v))) (pause_if_streak s i) w
        true h in
    let (e, f) = read-ok get_config (get_schedule sid) w o r in
    let u : (pause_if_streak s i o (call w).0).0 ≡ ok true =
      ap (λ x. (pause_if_streak s i o x).0) (sym f) ∙ t in
    let (cfg, g, k) = pause_if_streak-ok s i o (call w).0 u in
    (
      cfg,
      sym (get_schedule-tables sid (call w).0 w (call-tables w)) ∙ sym e ∙ g,
      Streak-tables cfg (call w).0 w (call-tables w) k,
    )

-- The evaluation reports a pause only for a failed scheduled run, and only if the schedule exists
-- and has, since it was last enabled, at least as many terminal scheduled runs as its threshold,
-- the newest of which, as many as the threshold, have all failed.
pub evaluate_auto_pause-ok :
    (s : Show) (schedule_id run_id : ℕ) (status : Status) (reason : FireReason) (w : World)
    → (evaluate_auto_pause s schedule_id run_id status reason w).0 ≡ ok true
    → (status ≡ failed)
      × (is_manual reason ≡ false)
      × (cfg : Schedule) × (get_schedule schedule_id w ≡ some cfg)
      × Streak cfg w
unfolding evaluate_auto_pause pure
evaluate_auto_pause-ok s schedule_id run_id status reason w h =
    elim (Bool-cases (is_manual reason || not (is_failed status))) [
      | inl e ↦
          let l : ◌≡◌ {A = Outcome PauseError Bool} (ok false) (ok true) = rw e at h in
          absurd (cc (l))
      | inr e ↦
          let (v, t, k) =
            transaction-ok committed begin commit (evaluate_tx s schedule_id run_id) w true
              (rw e at h) in
          let (cfg, g, streak) = evaluate_tx-ok s schedule_id run_id v k in
          (
            ground arith,
            ground arith,
            cfg,
            sym (get_schedule-tables schedule_id v w t) ∙ g,
            Streak-tables cfg v w t streak,
          )
    ]
