-- ===== src/Webapi/Schedules/RunNow.antt =====
-- internal/webapi/schedules.go: run-now, through the endpoint that it calls.
use mathlib.Core.Path.{subst}
use cronfoundry.Prelude.{
  ℕ, ◌≡◌, ◌≢◌, refl, String, Bool, true, Option, some, arith, Bool-cases, inl, inr, str_eq, eq_iff,
}
use cronfoundry.Store.Rows.{World}
use cronfoundry.Store.Exec.{Outcome, ok, err, pure, raise, ◌>>=◌, attempt}
use cronfoundry.Api.Response.{Response}
use cronfoundry.Api.Trigger.{trigger_handler}
use cronfoundry.Api.Trigger.Pending.{Waits, trigger_handler-ok}
use cronfoundry.Webapi.Response.{Fault}
use cronfoundry.Webapi.Schedules.{
  Hop, unreachable, lost, answered, forwarded, is_unreachable, run_now,
}

forwarded-ok :
    (text : ℕ → String) (hop : Hop) (o : Outcome Response ℕ) (w : World) (s : String)
    → (forwarded text hop o w).0 ≡ ok s
    → (hop ≡ answered) × (i : ℕ) × (o ≡ ok i) × (s ≡ text i) × ((forwarded text hop o w).1 ≡ w)
unfolding forwarded pure raise
forwarded-ok text answered (ok i) w s h = elim (Bool-cases (str_eq (text i) "")) [
  | inl e ↦
      let k : ◌≡◌ {A = Outcome Fault String} (err Fault.gateway) (ok s) = rw e at h in
      absurd (cc (k))
  | inr e ↦
      let k : ◌≡◌ {A = Outcome Fault String} (ok (text i)) (ok s) = rw e at h in
      (refl, i, refl, cc (k), rw e)
]
forwarded-ok text answered (err e) w s h = absurd (cc)
forwarded-ok text unreachable o w s h = absurd (cc)
forwarded-ok text lost o w s h = absurd (cc)

module _ (hex : ℕ → Option String) (text : ℕ → String) (loopback : Bool) (hop : Hop) where
  -- the hop, with the endpoint behind it
  through :
      (sid : ℕ) (actor : String) (w : World) (s : String)
      → ((attempt {F = Fault} (trigger_handler hex text loopback (some sid) (some (some actor)))
            >>= forwarded text hop)
          w).0
        ≡ ok s
      → (hop ≡ answered)
        × (i : ℕ) × (s ≡ text i)
        × (loopback ≡ true)
        × Waits sid i
            ((attempt {F = Fault} (trigger_handler hex text loopback (some sid) (some (some actor)))
                >>= forwarded text hop)
              w).1.runs
  unfolding ◌>>=◌ attempt
  through sid actor w s h =
      let m = trigger_handler hex text loopback (some sid) (some (some actor)) w in
      let (at, i, e, f, same) = forwarded-ok text hop m.0 m.1 s h in
      let (l, j, same_id, waits) =
        trigger_handler-ok hex text loopback (some sid) (some (some actor)) w i e in
      let named : j ≡ sid = cc (same_id) in
      (at, i, f, l, rw same (subst (λ k. Waits k i m.1.runs) named waits))

  -- A run-now request that is answered with a run id has reached the internal endpoint through the
  -- loopback address, the id is that of the run in the answer, and the run waits in the table: a
  -- pending manual run of the schedule that the request names.
  pub run_now-ok :
      (api_base actor : String) (sid : ℕ) (w : World) (s : String)
      → (run_now hex text loopback hop api_base actor (some sid) w).0 ≡ ok s
      → (api_base ≢ "")
        × (hop ≡ answered)
        × (i : ℕ) × (s ≡ text i)
        × (loopback ≡ true)
        × Waits sid i (run_now hex text loopback hop api_base actor (some sid) w).1.runs
  unfolding run_now raise
  run_now-ok api_base actor sid w s h = elim (Bool-cases (str_eq api_base "")) [
    | inl e ↦
        let k : ◌≡◌ {A = Outcome Fault String} (err Fault.config) (ok s) = rw e at h in
        absurd (cc (k))
    | inr e ↦ elim (Bool-cases (is_unreachable hop)) [
      | inl u ↦
          let k : ◌≡◌ {A = Outcome Fault String} (err Fault.gateway) (ok s) = rw (e, u) at h in
          absurd (cc (k))
      | inr u ↦
          let (at, i, f, l, waits) = through sid actor w s (rw (e, u) at h) in
          ((λ empty. ground (arith, eq_iff api_base "")), at, i, f, l, rw (e, u) waits)
    ]
  ]
