-- ===== src/Command/Once.antt =====
-- cmd/cronfoundry/runner.go: the reports of one execution of the subcommand, over all of its ways to
-- end.
use cronfoundry.Prelude.{
  String, Bool, true, false, ◌≡◌, refl, ap, Option, none, some, List, [], ◌∷◌, ◌++◌, ◌⊎◌, inl, inr,
}
use cronfoundry.Store.Exec.{Outcome, ok, err}
use cronfoundry.Api.Finalize.{FinalizeBody}
use cronfoundry.Runner.Session.{Deps, Failure}
use cronfoundry.Runner.Execute.{run}
use cronfoundry.Runner.Load.{RunInput}
use cronfoundry.Command.Finalizing.{finalize_request, failed_request}
use cronfoundry.Command.Client.{
  Api, Client, Command, Event, RunContext, pure, call, ◌>>=◌, continue,
}
use cronfoundry.Command.Http.{
  fail_run, or_fail_run, post_events, post_some, copilot_key, keep_temp_dir, cloned, finalized,
  error_text, report, conclude, execute, with_context, run_runner_http,
}

module _ {W : Type 0} (api : Api W) (run_id : String) where
  -- the report of a run of the skill under this id, and what is returned after it
  abbrev pub OfRun : Deps W → Outcome String (Unit {0}) → List FinalizeBody → Type 0
  OfRun deps o bodies =
      (inp : RunInput) × (v : W) × (inp.run_id ≡ run_id)
      × (bodies
          ≡ finalize_request api.parsers (run deps inp v).result
              (error_text api run_id (run deps inp v).error)
            ∷ [])
      × (o ≡ ok tt → (run deps inp v).error ≡ none)

  -- one report, that of a failure of this kind or that of a run
  abbrev pub HasOne : Deps W → Outcome String (Unit {0}) → List FinalizeBody → Type 0
  HasOne deps o bodies =
      ((kind : String) × (message : String) × (bodies ≡ failed_request kind message ∷ [])
        × (o ≡ err kind))
      ⊎ OfRun deps o bodies

module _ {W : Type 0} (api : Api W) (run_id : String) (deps : Deps W) where
  -- no report yet, or, after an error, one
  abbrev Open : {A : Type 0} → Outcome String A × Client W → Type 0
  Open (ok a, c) = c.reports ≡ []
  Open (err kind, c) = HasOne api run_id deps (err kind) c.reports

  abbrev Opens : {A : Type 0} → Command W A → Type 0
  Opens m = (c : Client W) → c.reports ≡ [] → Open (m c)

  abbrev Ends : Command W (Unit {0}) → Type 0
  Ends m = (c : Client W) → c.reports ≡ [] → HasOne api run_id deps (m c).0 (m c).1.reports

  Open-continue :
      {A B : Type 0} (o : Outcome String A × Client W) (f : A → Command W B)
      → Open o
      → ((a : A) → Opens (f a))
      → Open (continue o f)
  Open-continue (ok a, c) f h k = k a c h
  Open-continue (err e, c) f h k = h

  Opens-bind :
      {A B : Type 0} (m : Command W A) (f : A → Command W B)
      → Opens m
      → ((a : A) → Opens (f a))
      → Opens (m >>= f)
  unfolding ◌>>=◌
  Opens-bind m f h k c e = Open-continue (m c) f (h c e) k

  Ends-continue :
      {A : Type 0} (o : Outcome String A × Client W) (f : A → Command W (Unit {0}))
      → Open o
      → ((a : A) → Ends (f a))
      → HasOne api run_id deps (continue o f).0 (continue o f).1.reports
  Ends-continue (ok a, c) f h k = k a c h
  Ends-continue (err e, c) f h k = h

  Ends-bind :
      {A : Type 0} (m : Command W A) (f : A → Command W (Unit {0}))
      → Opens m
      → ((a : A) → Ends (f a))
      → Ends (m >>= f)
  unfolding ◌>>=◌
  Ends-bind m f h k c e = Ends-continue (m c) f (h c e) k

  Opens-call : {A : Type 0} (f : W → A × W) → Opens (call f)
  unfolding call
  Opens-call f c h = h

  fail_run-Opens :
      (A : Type 0) (kind message : String) → Opens {A = A} (fail_run api run_id kind message)
  unfolding fail_run
  fail_run-Opens A kind message c h =
      inl (kind, message, ap (◌++ (failed_request kind message ∷ [])) h, refl)

  or_fail_run-Opens :
      {A : Type 0} (kind : String) (o : String ⊎ A) → Opens (or_fail_run api run_id kind o)
  unfolding or_fail_run pure
  or_fail_run-Opens kind (inl message) c h = fail_run-Opens _ kind message c h
  or_fail_run-Opens kind (inr a) c h = h

  post_events-Opens : (es : List Event) → Opens (post_events api run_id es)
  unfolding post_events
  post_events-Opens es c h = h

  post_some-Opens : (es : List Event) → Opens (post_some api run_id es)
  unfolding post_some pure
  post_some-Opens [] c h = h
  post_some-Opens (e ∷ es) c h = post_events-Opens (e ∷ es) c h

  copilot_key-Opens : (b : Bool) (key : String) → Opens (copilot_key api run_id b key)
  unfolding copilot_key pure
  copilot_key-Opens false key c h = h
  copilot_key-Opens true key c h =
      Opens-bind _ _ (Opens-call _) (λ answer. or_fail_run-Opens _ _) c h

  cloned-Opens : (url : String) (o : Option String) → Opens (cloned api run_id url o)
  unfolding cloned pure
  cloned-Opens url none c h = h
  cloned-Opens url (some message) c h = fail_run-Opens _ "clone" _ c h

  keep_temp_dir-Opens : (dir : String) → Opens (keep_temp_dir api run_id dir)
  unfolding keep_temp_dir
  keep_temp_dir-Opens dir c h = h

  error_text-none : (e : Option Failure) → error_text api run_id e ≡ none → e ≡ none
  error_text-none none h = refl
  error_text-none (some f) h = absurd (cc)

  finalized-ok :
      (body : FinalizeBody) (error : Option String) (c : Client W) (answer : Bool × W)
      → (finalized api run_id body error c answer).0 ≡ ok tt
      → error ≡ none
  finalized-ok body none c answer h = refl
  finalized-ok body (some x) c (true, w) h = absurd (cc)
  finalized-ok body (some x) c (false, w) h = absurd (cc)

  finalized-reports :
      (body : FinalizeBody) (error : Option String) (c : Client W) (answer : Bool × W)
      → c.reports ≡ []
      → (finalized api run_id body error c answer).1.reports ≡ body ∷ []
  finalized-reports body error c (true, w) h = ap (◌++ (body ∷ [])) h
  finalized-reports body error c (false, w) h = ap (◌++ (body ∷ [])) h

  conclude-Ends :
      (inp : RunInput) (v : W)
      → inp.run_id ≡ run_id
      → Ends (
          conclude api run_id
            (run deps inp v).result
            (error_text api run_id (run deps inp v).error))
  unfolding conclude report
  conclude-Ends inp v own =
      let r = run deps inp v in
      let e = error_text api run_id r.error in
      Ends-bind _ _ (post_some-Opens _) (λ x. Ends-bind _ _ (post_events-Opens _) (λ y c h. inr (
        inp,
        v,
        own,
        finalized-reports (finalize_request api.parsers r.result e) e c _ h,
        λ k. error_text-none r.error (finalized-ok _ e c _ k),
      )))

  -- a call of the outside world, and what follows its answer
  Ends-call :
      {A : Type 0} (f : W → A × W) (g : A → Command W (Unit {0}))
      → ((v : W) → Ends (g (f v).0))
      → Ends (call f >>= g)
  unfolding call ◌>>=◌
  Ends-call f g k c h = k c.world (record c { world = (f c.world).1 }) h

  execute-Ends : (c : RunContext) → Ends (execute api run_id deps c)
  unfolding execute
  execute-Ends c = Ends-bind _ _ (post_events-Opens _) (λ x.
      Ends-bind _ _ (Opens-call _) (λ fetched. Ends-bind _ _ (or_fail_run-Opens _ _) (λ secrets.
        Ends-bind _ _ (copilot_key-Opens _ _) (λ key. Ends-bind _ _ (Opens-call _) (λ answer.
          Ends-bind _ _ (or_fail_run-Opens _ _) (λ url. Ends-bind _ _ (Opens-call _) (λ made.
            Ends-bind _ _ (or_fail_run-Opens _ _) (λ dir.
              Ends-bind _ _ (keep_temp_dir-Opens dir) (λ y. Ends-bind _ _ (Opens-call _) (λ clone.
                Ends-bind _ _ (cloned-Opens url clone) (λ z.
                  Ends-bind _ _ (post_events-Opens _) (λ u.
                    Ends-bind _ _ (or_fail_run-Opens _ _)
                      (λ mcp. Ends-call _ _ (λ v. conclude-Ends _ v refl))))))))))))))

  -- However the API, the repository and the run answer, the subcommand posts exactly one report: that
  -- of the failure whose kind it returns, or that of the result and the error of a run of the skill
  -- under the id of the command; and if it returns no error, then that run had none.
  pub run_runner_http-HasOne :
      (w : W)
      → HasOne api run_id deps
          (run_runner_http api run_id deps w).0
          (run_runner_http api run_id deps w).1.reports
  unfolding run_runner_http with_context
  run_runner_http-HasOne w =
      Ends-bind _ _ (Opens-call _)
        (λ answer. Ends-bind _ _ (or_fail_run-Opens "context_fetch" answer) execute-Ends) _ refl
