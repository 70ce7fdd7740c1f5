-- ===== src/Runner/Statuses.antt =====
-- internal/runner/runner.go: the status of a run, its error and its publish results.
use cronfoundry.Prelude.{
  ap, ℕ, String, Bool, true, false, ◌&&◌, ◌≡◌, ◌≢◌, refl, Option, none, some, [], all,
}
use cronfoundry.Store.Exec.{Outcome, ok, err}
use cronfoundry.Config.Manifest.{Destination, should_publish}
use cronfoundry.Memory.{Extracted}
use cronfoundry.Publish.{Publisher, Result, skip, deliver}
use cronfoundry.Publish.Slots.{Covers, Aligned, dispatch-Aligned}
use cronfoundry.Runner.Session.{Deps, Session, Job, Failure, pure, call, ◌>>=◌, continue, enter}
use cronfoundry.Runner.Load.{RunInput, Loaded}
use cronfoundry.Runner.Unfilled.{IsUnfilled, phases-IsUnfilled}
use cronfoundry.Runner.Execute.{
  session_at, succeeded, failed, Finished, Ran, is_fine, final_status, output_for, context_of,
  publish, conclude, extracted_at, phases, finish, run,
}

-- what holds of every value that an action returns
abbrev pub Of : {W A : Type 0} → (A → Type 0) → Outcome Failure A × Session W → Type 0
Of Q (ok a, s) = Q a
Of Q (err e, s) = Unit

abbrev pub Gives : {W A : Type 0} → (A → Type 0) → Job W A → Type 0
Gives {W} Q m = (s : Session W) → Of Q (m s)

module _ {W A B : Type 0} (Q : B → Type 0) where
  Of-continue :
      (o : Outcome Failure A × Session W) (f : A → Job W B)
      → ((a : A) → Gives Q (f a))
      → Of Q (continue o f)
  Of-continue (ok a, s) f h = h a s
  Of-continue (err e, s) f h = tt

  pub Gives-bind : (m : Job W A) (f : A → Job W B) → ((a : A) → Gives Q (f a)) → Gives Q (m >>= f)
  unfolding ◌>>=◌
  Gives-bind m f h s = Of-continue (m s) f h

  pub Gives-call :
      (g : W → A × W) (f : A → Job W B) → ((w : W) → Gives Q (f (g w).0)) → Gives Q (call g >>= f)
  unfolding ◌>>=◌ call
  Gives-call g f h s = h s.world (record s { world = (g s.world).1 })

-- A run that did not fail has not the status of one that did, and has succeeded only if each result
-- was sent or skipped.
abbrev Honest : Finished → Type 0
Honest f = (f.status ≢ failed) × (f.status ≡ succeeded → all is_fine f.publish_results ≡ true)

final_status-succeeded : (a b : Bool) → final_status (a && b) ≡ succeeded → a ≡ true
final_status-succeeded true b h = refl
final_status-succeeded false b h = absurd (cc)

final_status-failed : (b : Bool) → final_status b ≢ failed
final_status-failed true h = absurd (cc)
final_status-failed false h = absurd (cc)

module _ {W : Type 0} (deps : Deps W) (inp : RunInput) where
  publish-Honest :
      (t cost : ℕ) (l : Loaded W) (e : Extracted) → Gives Honest (publish deps inp t l cost e)
  unfolding publish pure
  publish-Honest t cost l e = Gives-bind _ _ _ (λ x. Gives-bind _ _ _ (λ results.
      Gives-bind _ _ _ (λ y. Gives-bind _ _ _ (λ w s. (
        final_status-failed (all is_fine results && w.1),
        final_status-succeeded (all is_fine results) w.1,
      )))))

  conclude-Honest :
      (b : Bool) (t cost : ℕ) (l : Loaded W) (e : Extracted)
      → Gives Honest (conclude deps inp b t l cost e)
  unfolding conclude pure
  conclude-Honest true t cost l e s = ((λ h. absurd (cc)), λ h. refl)
  conclude-Honest false t cost l e s = publish-Honest t cost l e s

  extracted_at-Honest :
      (t : ℕ) (l : Loaded W) (cost : ℕ) (e : Extracted)
      → Gives Honest (extracted_at deps inp t l cost e)
  unfolding extracted_at
  extracted_at-Honest t l cost e = Gives-bind _ _ _ (λ x. conclude-Honest inp.dry_run t cost l e)

  phases-Honest : (t : ℕ) → Gives Honest (phases deps inp t)
  unfolding phases
  phases-Honest t =
      Gives-bind _ _ _
        (λ l. Gives-bind _ _ _ (λ output. Gives-bind _ _ _ (λ spent. extracted_at-Honest t l _ _)))

  -- what a run returns, by its error
  abbrev pub Reports : Ran W → Option Failure → Type 0
  Reports r none =
      (r.result.status ≢ failed)
      × (r.result.status ≡ succeeded → all is_fine r.result.publish_results ≡ true)
      × (r.result.error_kind ≡ "")
  Reports r (some e) =
      (r.result.status ≡ failed)
      × (r.result.publish_results ≡ [])
      × (r.result.error_kind ≡ e.kind)
      × (r.result.writeback_sha ≡ "")

  finish-Reports :
      (t : ℕ) (o : Outcome Failure Finished × Session W)
      → Of Honest o
      → IsUnfilled o
      → Reports (finish deps inp t o) (finish deps inp t o).error
  unfolding finish
  finish-Reports t (ok f, s) (a, b) h = (a, b, refl)
  finish-Reports t (err e, s) u h =
      (refl, ap (λ r. r.publish_results) h, refl, ap (λ r. r.writeback_sha) h)

  -- A run that returns an error has the status failed, the kind of the error, no publish results and
  -- no commit. One that returns none has another status and no kind, and its status is succeeded only
  -- if each of its publish results was sent or skipped.
  pub run-Reports : (w : W) → Reports (run deps inp w) (run deps inp w).error
  unfolding run
  run-Reports w =
      finish-Reports _ _ (phases-Honest _ _)
        (phases-IsUnfilled deps inp (deps.now w).0 (session_at deps inp (deps.now w).1) refl)

  -- a destination for failures only was skipped
  abbrev pub Spared : Destination → Result → Type 0
  Spared d r = d.when ≡ "on_failure" → r ≡ skip d

  never : (d : Destination) → d.when ≡ "on_failure" → should_publish d true ≡ false
  unfolding should_publish
  never d h = rw h

  pub deliver-Spared :
      (kind : String → Option (Publisher W)) (output : Destination → String) (d : Destination)
      (w : W)
      → Spared d (deliver kind output true d w).0
  unfolding deliver
  deliver-Spared kind output d w h = rw (never d h)

  -- The publish phase, whatever the order of its goroutines, as long as each has run, has one result
  -- for each destination of the schedule, in order; and that of a destination with `when: on_failure`
  -- says that it was skipped, whatever the run has come to.
  pub publish-Spared :
      (t cost : ℕ) (l : Loaded W) (e : Extracted)
      → Covers deps.order l.schedule.destinations
      → Gives
          (λ f. Aligned Spared l.schedule.destinations f.publish_results)
          (publish deps inp t l cost e)
  unfolding publish pure call enter
  publish-Spared t cost l e h = Gives-bind _ _ _ (λ x. Gives-call _ _ _ (λ w. Gives-bind _ _ _ (λ y.
      Gives-bind _ _ _ (λ written s.
        dispatch-Aligned (deps.publishers (context_of deps inp t l e)) (output_for deps inp e)
          Spared deps.order l.schedule.destinations true w h
          (deliver-Spared (deps.publishers (context_of deps inp t l e)) (output_for deps inp e))))))
