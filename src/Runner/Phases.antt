-- ===== src/Runner/Phases.antt =====
-- internal/runner/runner.go: the phases that a run announces, over all of its ways to end.
use mathlib.Core.Path.{subst}
use cronfoundry.Prelude.{
  ℕ, String, Bool, true, false, ◌≡◌, refl, sym, ap, ◌∙◌, Option, none, some, List, [], ◌∷◌, ◌++◌,
  ◌⊎◌, inl, inr,
}
use cronfoundry.Store.Exec.{Outcome, ok, err}
use cronfoundry.Config.Manifest.{WritebackConfig}
use cronfoundry.Memory.{Extracted}
use cronfoundry.Config.Skill.{McpServer}
use cronfoundry.Runner.Session.{
  ToolDef, turns_exceeded, Deps, Session, Failure, Cause, phase_enter, enter, CallOptions, Message,
  TurnResult,
}
use cronfoundry.Runner.Turns.{or_fail}
use cronfoundry.Runner.Leaves.{
  View, view, announced, announced-append, Lands, Leaves, Leaves-pure, Leaves-fail, Leaves-call,
  Leaves-bind, or_fail-Leaves, start_servers-Leaves, turns-Leaves, set_usage-Leaves,
  set_managed-Leaves, used-Leaves, assign-Leaves,
}
use cronfoundry.Runner.Load.{
  RunInput, Loaded, load, single_shot, terminated, multi_turn, exec, exec_by,
}
use cronfoundry.Runner.Execute.{
  Finished, push_by, write_back_if, push_commit, committed, write_back, maybe_write_back, publish,
  conclude, extracted_at, phases, finish, run, session_at, prev_of,
}

abbrev entered : List String → List (String × Option String)
entered [] = []
entered (p ∷ ps) = (p, none) ∷ entered ps

-- the views in which a run may fail
abbrev at_boot : View
at_boot = (entered ("boot" ∷ []), "boot")

abbrev at_secrets : View
at_secrets = (entered ("boot" ∷ "secrets" ∷ []), "secrets")

abbrev at_exec : View
at_exec = (entered ("boot" ∷ "secrets" ∷ "exec" ∷ []), "exec")

abbrev at_publish : View
at_publish = (entered ("boot" ∷ "secrets" ∷ "exec" ∷ "publish" ∷ []), "publish")

abbrev MayFail : View → Type 0
MayFail v = (v ≡ at_boot) ⊎ ((v ≡ at_secrets) ⊎ (v ≡ at_exec))

boot-MayFail : MayFail at_boot
boot-MayFail = inl refl

secrets-MayFail : MayFail at_secrets
secrets-MayFail = inr (inl refl)

exec-MayFail : MayFail at_exec
exec-MayFail = inr (inr refl)

enter-Leaves :
    {W : Type 0} {E : View → Type 0} (v : View) (phase : String)
    → Leaves {W = W} v (v.0 ++ ((phase, none) ∷ []), phase) E (enter phase)
unfolding enter
enter-Leaves v phase = record {
  at = λ s k.
      ap (λ es. (es, phase))
        (announced-append s.events (phase_enter phase none ∷ [])
          ∙ ap (λ x. x.0 ++ ((phase, none) ∷ [])) k);
}

stops :
    {W F A : Type 0} {v : View} (kind : String) (c : F → Cause) (o : F ⊎ A)
    → MayFail v
    → Leaves {W = W} v v MayFail (or_fail kind c o)
stops {v = v} kind c o h = or_fail-Leaves v MayFail h kind c o

prev_of-MayFail : (v : View) → MayFail v → prev_of v.1 ≡ some v.1
prev_of-MayFail v (inl e) = subst (λ x. prev_of x.1 ≡ some x.1) (sym e) refl
prev_of-MayFail v (inr (inl e)) = subst (λ x. prev_of x.1 ≡ some x.1) (sym e) refl
prev_of-MayFail v (inr (inr e)) = subst (λ x. prev_of x.1 ≡ some x.1) (sym e) refl

module _ {W : Type 0} (deps : Deps W) (inp : RunInput) where
  load-Leaves : Leaves ([], "") at_secrets MayFail (load deps inp)
  unfolding load
  load-Leaves = Leaves-bind _ _ (enter-Leaves ([], "") "boot") (λ x.
      Leaves-bind _ _ (Leaves-call _) (λ text.
        Leaves-bind _ _ (stops "" _ _ boot-MayFail) (λ source.
          Leaves-bind _ _ (stops "" _ _ boot-MayFail) (λ m.
            Leaves-bind _ _ (stops "" _ _ boot-MayFail) (λ y.
              Leaves-bind _ _ (stops "" _ _ boot-MayFail) (λ found.
                Leaves-bind _ _ (Leaves-call _) (λ markdown.
                  Leaves-bind _ _ (stops "" _ _ boot-MayFail) (λ bytes.
                    Leaves-bind _ _ (stops "" _ _ boot-MayFail) (λ skill.
                      Leaves-bind _ _ (Leaves-call _) (λ resolved.
                        Leaves-bind _ _ (stops "" _ _ boot-MayFail) (λ body.
                          Leaves-bind _ _ (enter-Leaves at_boot "secrets") (λ z.
                            Leaves-bind _ _ (stops "" _ _ secrets-MayFail)
                              (λ provider. Leaves-pure _)))))))))))))

  single_shot-Leaves : (l : Loaded W) → Leaves at_exec at_exec MayFail (single_shot deps inp l)
  unfolding single_shot
  single_shot-Leaves l = Leaves-bind _ _ (Leaves-call _) (λ answer.
      Leaves-bind _ _ (stops "" _ answer exec-MayFail) (λ chatted.
        Leaves-bind _ _ (set_usage-Leaves at_exec MayFail exec-MayFail _) (λ x. Leaves-pure _)))

  terminated-Leaves : (o : Option String) → Leaves {W = W} at_exec at_exec MayFail (terminated o)
  unfolding terminated
  terminated-Leaves none = Leaves-fail "max_turns_exceeded" turns_exceeded exec-MayFail
  terminated-Leaves (some output) = Leaves-pure output

  multi_turn-Leaves :
      (l : Loaded W)
      (chat : List Message → List ToolDef → CallOptions → W → (String ⊎ TurnResult) × W)
      → Leaves at_exec at_exec MayFail (multi_turn deps inp l chat)
  unfolding multi_turn
  multi_turn-Leaves l chat = Leaves-bind _ _ (set_managed-Leaves at_exec MayFail exec-MayFail) (λ x.
      Leaves-bind _ _ (start_servers-Leaves at_exec MayFail exec-MayFail _ _ _ _) (λ y.
        Leaves-bind _ _ (Leaves-call _) (λ tools.
          Leaves-bind _ _ (turns-Leaves at_exec MayFail exec-MayFail _ _ _ _ _) terminated-Leaves)))

  exec_by-Leaves :
      (l : Loaded W) (ss : List McpServer)
      (chat : Option (List Message → List ToolDef → CallOptions → W → (String ⊎ TurnResult) × W))
      → Leaves at_exec at_exec MayFail (exec_by deps inp l ss chat)
  unfolding exec_by
  exec_by-Leaves l [] chat = single_shot-Leaves l
  exec_by-Leaves l (s ∷ ss) none = Leaves-fail _ _ exec-MayFail
  exec_by-Leaves l (s ∷ ss) (some chat) = multi_turn-Leaves l chat

  exec-Leaves : (l : Loaded W) → Leaves at_secrets at_exec MayFail (exec deps inp l)
  unfolding exec
  exec-Leaves l =
      Leaves-bind _ _ (enter-Leaves at_secrets "exec")
        (λ x. exec_by-Leaves l inp.mcp_servers l.provider.chat_turn)

  module _ {E : View → Type 0} where
    push_by-Leaves : (a b : Bool) → Leaves at_publish at_publish E (push_by deps inp a b)
    unfolding push_by
    push_by-Leaves true b = Leaves-pure true
    push_by-Leaves false true = Leaves-pure true
    push_by-Leaves false false = Leaves-call _

    committed-Leaves : (o : String ⊎ String) → Leaves at_publish at_publish E (committed deps inp o)
    unfolding committed push_commit
    committed-Leaves (inl e) = Leaves-pure _
    committed-Leaves (inr sha) =
        Leaves-bind _ _ (assign-Leaves _)
          (λ x. Leaves-bind _ _ (push_by-Leaves _ _) (λ b. Leaves-pure _))

    write_back_if-Leaves :
        (b : Bool) (c : WritebackConfig) (block : String)
        → Leaves at_publish at_publish E (write_back_if deps inp b c block)
    unfolding write_back_if write_back
    write_back_if-Leaves true c block = Leaves-bind _ _ (Leaves-call _) committed-Leaves
    write_back_if-Leaves false c block = Leaves-pure _

    maybe_write_back-Leaves :
        (o : Option WritebackConfig) (e : Extracted)
        → Leaves at_publish at_publish E (maybe_write_back deps inp o e)
    unfolding maybe_write_back
    maybe_write_back-Leaves none e = Leaves-pure _
    maybe_write_back-Leaves (some c) e = write_back_if-Leaves _ c e.memory

    publish-Leaves :
        (t cost : ℕ) (l : Loaded W) (e : Extracted)
        → Leaves at_exec at_publish E (publish deps inp t l cost e)
    unfolding publish
    publish-Leaves t cost l e = Leaves-bind _ _ (enter-Leaves at_exec "publish") (λ x.
        Leaves-bind _ _ (Leaves-call _) (λ results.
          Leaves-bind _ _ (assign-Leaves _)
            (λ y. Leaves-bind _ _ (maybe_write_back-Leaves _ e) (λ w. Leaves-pure _))))

  -- where a run ends that does not fail
  abbrev last_view : Bool → View
  last_view true = at_exec
  last_view false = at_publish

  conclude-Leaves :
      (b : Bool) (t cost : ℕ) (l : Loaded W) (e : Extracted)
      → Leaves at_exec (last_view b) MayFail (conclude deps inp b t l cost e)
  unfolding conclude
  conclude-Leaves true t cost l e = Leaves-pure _
  conclude-Leaves false t cost l e = publish-Leaves t cost l e

  extracted_at-Leaves :
      (t : ℕ) (l : Loaded W) (cost : ℕ) (e : Extracted)
      → Leaves at_exec (last_view inp.dry_run) MayFail (extracted_at deps inp t l cost e)
  unfolding extracted_at
  extracted_at-Leaves t l cost e =
      Leaves-bind _ _ (assign-Leaves _) (λ x. conclude-Leaves inp.dry_run t cost l e)

  phases-Leaves : (t : ℕ) → Leaves ([], "") (last_view inp.dry_run) MayFail (phases deps inp t)
  unfolding phases
  phases-Leaves t = Leaves-bind _ _ load-Leaves (λ l. Leaves-bind _ _ (exec-Leaves l) (λ output.
      Leaves-bind _ _ (used-Leaves at_exec MayFail exec-MayFail)
        (λ spent. extracted_at-Leaves t l _ _)))

  -- what the events of a run say of its phases
  abbrev pub IsLegal : Bool → Option Failure → List (String × Option String) → Type 0
  IsLegal dry none es = es ≡ (last_view dry).0
  IsLegal dry (some e) es = (v : View) × MayFail v × (es ≡ v.0 ++ (("fail", some v.1) ∷ []))

  finish-IsLegal :
      (t : ℕ) (o : Outcome Failure Finished × Session W)
      → Lands (last_view inp.dry_run) MayFail o
      → IsLegal inp.dry_run (finish deps inp t o).error (announced (finish deps inp t o).events)
  unfolding finish
  finish-IsLegal t (ok f, s) h = ap (λ v. v.0) h
  finish-IsLegal t (err e, s) h = (
    view s,
    h,
    announced-append s.events (phase_enter "fail" (prev_of s.active) ∷ [])
        ∙ ap (λ p. announced s.events ++ (("fail", p) ∷ [])) (prev_of-MayFail (view s) h),
  )

  -- A run announces the phases boot, secrets, exec and publish in this order and once each. One that
  -- ends without an error announces all of them, or all but publish if it is a dry run; one that fails
  -- has announced the first, the first two or the first three, never publish, and then "fail" with
  -- the last of them.
  pub run-IsLegal :
      (w : W) → IsLegal inp.dry_run (run deps inp w).error (announced (run deps inp w).events)
  unfolding run
  run-IsLegal w =
      finish-IsLegal _ _
        ((phases-Leaves (deps.now w).0).at (session_at deps inp (deps.now w).1) refl)
