-- ===== src/Runner/Unfilled.antt =====
-- internal/runner/runner.go: which code assigns the fields of the result, and that none of it fails.
use cronfoundry.Prelude.{
  ℕ, zero, suc, ◌≡◌, refl, ◌∙◌, String, Bool, true, false, Option, none, some, List, [], ◌∷◌, ◌⊎◌,
  inl, inr,
}
use cronfoundry.Store.Exec.{Outcome, ok, err}
use cronfoundry.Config.Manifest.{EnvMap, WritebackConfig}
use cronfoundry.Config.Skill.{McpServer}
use cronfoundry.Memory.{Extracted}
use cronfoundry.Runner.Session.{
  ToolUse, ToolDef, CallOptions, Deps, Session, Filled, blank, assign, Job, Failure, Cause,
  RunEvent, pure, fail, call, ◌>>=◌, continue, emit, enter, set_managed, set_usage, add_usage, used,
  McpManager, McpCall, CallResult, FatalError, Message, TurnResult,
}
use cronfoundry.Runner.Turns.{
  or_fail, started, resolved, start_servers, emit_all, dispatched, after_turn, turns, ChatTurn,
}
use cronfoundry.Runner.Load.{
  RunInput, Loaded, load, single_shot, terminated, multi_turn, exec, exec_by,
}
use cronfoundry.Runner.Execute.{
  push_by, write_back_if, push_commit, committed, write_back, maybe_write_back, publish, conclude,
  extracted_at, phases,
}

-- an action that assigns no field, whether it returns or fails
abbrev Spares : {W A : Type 0} → Job W A → Type 0
Spares {W} m = (s : Session W) → (m s).1.filled ≡ s.filled

module _ {W : Type 0} where
  pure-Spares : {A : Type 0} (a : A) → Spares {W = W} (pure a)
  unfolding pure
  pure-Spares a s = refl

  fail-Spares : (A : Type 0) (kind : String) (c : Cause) → Spares {W = W} {A = A} (fail kind c)
  unfolding fail
  fail-Spares A kind c s = refl

  call-Spares : {A : Type 0} (f : W → A × W) → Spares (call f)
  unfolding call
  call-Spares f s = refl

  emit-Spares : (e : RunEvent) → Spares {W = W} (emit e)
  unfolding emit
  emit-Spares e s = refl

  enter-Spares : (phase : String) → Spares {W = W} (enter phase)
  unfolding enter
  enter-Spares phase s = refl

  continue-Spares :
      {A B : Type 0} (o : Outcome Failure A × Session W) (f : A → Job W B) (c : Filled)
      → o.1.filled ≡ c
      → ((a : A) → Spares (f a))
      → (continue o f).1.filled ≡ c
  continue-Spares (ok a, s) f c e h = h a s ∙ e
  continue-Spares (err x, s) f c e h = e

  bind-Spares :
      {A B : Type 0} (m : Job W A) (f : A → Job W B)
      → Spares m
      → ((a : A) → Spares (f a))
      → Spares (m >>= f)
  unfolding ◌>>=◌
  bind-Spares m f h k s = continue-Spares (m s) f s.filled (h s) k

  or_fail-Spares :
      {F A : Type 0} (kind : String) (c : F → Cause) (o : F ⊎ A) → Spares {W = W} (or_fail kind c o)
  unfolding or_fail
  or_fail-Spares kind c (inl e) = fail-Spares _ kind (c e)
  or_fail-Spares kind c (inr a) = pure-Spares a

  started-Spares : (o : Option String) → Spares {W = W} (started o)
  unfolding started
  started-Spares none = pure-Spares tt
  started-Spares (some m) = fail-Spares _ _ _

  resolved-Spares : (o : Option (List String)) → Spares {W = W} (resolved o)
  unfolding resolved
  resolved-Spares none = fail-Spares _ _ _
  resolved-Spares (some env) = pure-Spares env

  start_servers-Spares :
      (mgr : McpManager W) (get : Option (String → Option String)) (env : List (String × EnvMap))
      (ss : List McpServer)
      → Spares (start_servers mgr get env ss)
  unfolding start_servers
  start_servers-Spares mgr get env [] = pure-Spares tt
  start_servers-Spares mgr get env (x ∷ ss) = bind-Spares _ _ (resolved-Spares _) (λ e.
      bind-Spares _ _ (call-Spares _) (λ a. bind-Spares _ _ (started-Spares a) (λ u.
        bind-Spares _ _ (call-Spares _)
          (λ t. bind-Spares _ _ (emit-Spares _) (λ y. start_servers-Spares mgr get env ss)))))

  emit_all-Spares : (es : List RunEvent) → Spares {W = W} (emit_all es)
  unfolding emit_all
  emit_all-Spares [] = pure-Spares tt
  emit_all-Spares (e ∷ es) = bind-Spares _ _ (emit-Spares e) (λ x. emit_all-Spares es)

  dispatched-Spares :
      (calls : List McpCall) (o : FatalError ⊎ List CallResult)
      → Spares {W = W} (dispatched calls o)
  unfolding dispatched
  dispatched-Spares calls (inl f) = bind-Spares _ _ (emit-Spares _) (λ x. fail-Spares _ _ _)
  dispatched-Spares calls (inr rs) = bind-Spares _ _ (emit_all-Spares _) (λ x. pure-Spares _)

  after_turn-Spares :
      (mgr : McpManager W) (next : List Message → Job W (Option String)) (ms : List Message)
      (t : TurnResult) (us : List ToolUse)
      → ((ns : List Message) → Spares (next ns))
      → Spares (after_turn mgr next ms t us)
  unfolding after_turn
  after_turn-Spares mgr next ms t [] k = pure-Spares _
  after_turn-Spares mgr next ms t (u ∷ us) k =
      bind-Spares _ _ (call-Spares _)
        (λ a. bind-Spares _ _ (dispatched-Spares _ a) (λ replies. k _))

  add_usage-Spares : (t : TurnResult) → Spares {W = W} (add_usage t.usage)
  unfolding add_usage
  add_usage-Spares t s = refl

  turns-Spares :
      (chat : ChatTurn W) (mgr : McpManager W) (left turn : ℕ) (ms : List Message)
      → Spares (turns chat mgr left turn ms)
  unfolding turns
  turns-Spares chat mgr zero turn ms = pure-Spares none
  turns-Spares chat mgr (suc left) turn ms = bind-Spares _ _ (emit-Spares _) (λ x.
      bind-Spares _ _ (call-Spares _) (λ a. bind-Spares _ _ (or_fail-Spares "llm_error" _ a) (λ t.
        bind-Spares _ _ (add_usage-Spares t)
          (λ u. after_turn-Spares mgr _ ms t t.tool_uses (turns-Spares chat mgr left (suc turn))))))

  terminated-Spares : (o : Option String) → Spares {W = W} (terminated o)
  unfolding terminated
  terminated-Spares none = fail-Spares _ _ _
  terminated-Spares (some output) = pure-Spares output

-- an action that does not fail
abbrev IsOk : {W A : Type 0} → Outcome Failure A × Session W → Type 0
IsOk (ok a, s) = Unit
IsOk (err e, s) = ⊥

abbrev Returns : {W A : Type 0} → Job W A → Type 0
Returns {W} m = (s : Session W) → IsOk (m s)

continue-IsOk :
    {W A B : Type 0} (o : Outcome Failure A × Session W) (f : A → Job W B)
    → IsOk o
    → ((a : A) → Returns (f a))
    → IsOk (continue o f)
continue-IsOk (ok a, s) f h k = k a s
continue-IsOk (err e, s) f h k = h

bind-Returns :
    {W A B : Type 0} (m : Job W A) (f : A → Job W B)
    → Returns m
    → ((a : A) → Returns (f a))
    → Returns (m >>= f)
unfolding ◌>>=◌
bind-Returns m f h k s = continue-IsOk (m s) f (h s) k

-- an action that fails has failed before any field was assigned
abbrev pub IsUnfilled : {W A : Type 0} → Outcome Failure A × Session W → Type 0
IsUnfilled (ok a, s) = Unit
IsUnfilled (err e, s) = s.filled ≡ blank

continue-IsUnfilled :
    {W A B : Type 0} (o : Outcome Failure A × Session W) (f : A → Job W B)
    → o.1.filled ≡ blank
    → ((a : A) (s : Session W) → s.filled ≡ blank → IsUnfilled (f a s))
    → IsUnfilled (continue o f)
continue-IsUnfilled (ok a, s) f h k = k a s h
continue-IsUnfilled (err e, s) f h k = h

IsOk-IsUnfilled : {W A : Type 0} (o : Outcome Failure A × Session W) → IsOk o → IsUnfilled o
IsOk-IsUnfilled (ok a, s) h = tt
IsOk-IsUnfilled (err e, s) h = absurd h

module _ {W : Type 0} (deps : Deps W) (inp : RunInput) where
  load-Spares : Spares (load deps inp)
  unfolding load
  load-Spares = bind-Spares _ _ (enter-Spares "boot") (λ x. bind-Spares _ _ (call-Spares _) (λ text.
      bind-Spares _ _ (or_fail-Spares "" _ _) (λ source.
        bind-Spares _ _ (or_fail-Spares "" _ _) (λ m. bind-Spares _ _ (or_fail-Spares "" _ _) (λ y.
          bind-Spares _ _ (or_fail-Spares "" _ _) (λ found.
            bind-Spares _ _ (call-Spares _) (λ markdown.
              bind-Spares _ _ (or_fail-Spares "" _ _) (λ bytes.
                bind-Spares _ _ (or_fail-Spares "" _ _) (λ skill.
                  bind-Spares _ _ (call-Spares _) (λ resolved.
                    bind-Spares _ _ (or_fail-Spares "" _ _) (λ body.
                      bind-Spares _ _ (enter-Spares "secrets") (λ z.
                        bind-Spares _ _ (or_fail-Spares "" _ _)
                          (λ provider. pure-Spares _)))))))))))))

  single_shot-Spares : (l : Loaded W) → Spares (single_shot deps inp l)
  unfolding single_shot set_usage
  single_shot-Spares l = bind-Spares _ _ (call-Spares _) (λ answer.
      bind-Spares _ _ (or_fail-Spares "" _ answer)
        (λ chatted. bind-Spares _ _ (λ s. refl) (λ x. pure-Spares _)))

  multi_turn-Spares :
      (l : Loaded W)
      (chat : List Message → List ToolDef → CallOptions → W → (String ⊎ TurnResult) × W)
      → Spares (multi_turn deps inp l chat)
  unfolding multi_turn set_managed
  multi_turn-Spares l chat =
      bind-Spares _ _ (λ s. refl)
        (λ x. bind-Spares _ _ (start_servers-Spares _ _ _ _) (λ y.
          bind-Spares _ _ (call-Spares _)
            (λ tools. bind-Spares _ _ (turns-Spares _ _ _ _ _) terminated-Spares)))

  exec_by-Spares :
      (l : Loaded W) (ss : List McpServer)
      (chat : Option (List Message → List ToolDef → CallOptions → W → (String ⊎ TurnResult) × W))
      → Spares (exec_by deps inp l ss chat)
  unfolding exec_by
  exec_by-Spares l [] chat = single_shot-Spares l
  exec_by-Spares l (x ∷ ss) none = fail-Spares _ _ _
  exec_by-Spares l (x ∷ ss) (some chat) = multi_turn-Spares l chat

  exec-Spares : (l : Loaded W) → Spares (exec deps inp l)
  unfolding exec
  exec-Spares l =
      bind-Spares _ _ (enter-Spares "exec")
        (λ x. exec_by-Spares l inp.mcp_servers l.provider.chat_turn)

  push_by-Returns : (a b : Bool) → Returns (push_by deps inp a b)
  unfolding push_by pure call
  push_by-Returns true b s = tt
  push_by-Returns false true s = tt
  push_by-Returns false false s = tt

  committed-Returns : (o : String ⊎ String) → Returns (committed deps inp o)
  unfolding committed push_commit pure assign
  committed-Returns (inl e) = λ s. tt
  committed-Returns (inr sha) =
      bind-Returns _ _ (λ s. tt) (λ x. bind-Returns _ _ (push_by-Returns _ _) (λ b s. tt))

  write_back_if-Returns :
      (b : Bool) (c : WritebackConfig) (block : String) → Returns (write_back_if deps inp b c block)
  unfolding write_back_if write_back pure call
  write_back_if-Returns true c block = bind-Returns _ _ (λ s. tt) committed-Returns
  write_back_if-Returns false c block = λ s. tt

  maybe_write_back-Returns :
      (o : Option WritebackConfig) (e : Extracted) → Returns (maybe_write_back deps inp o e)
  unfolding maybe_write_back pure
  maybe_write_back-Returns none e = λ s. tt
  maybe_write_back-Returns (some c) e = write_back_if-Returns _ c e.memory

  conclude-Returns :
      (b : Bool) (t cost : ℕ) (l : Loaded W) (e : Extracted)
      → Returns (conclude deps inp b t l cost e)
  unfolding conclude publish pure call enter assign
  conclude-Returns true t cost l e = λ s. tt
  conclude-Returns false t cost l e =
      bind-Returns _ _ (λ s. tt)
        (λ x.
          bind-Returns _ _ (λ s. tt)
            (λ results.
              bind-Returns _ _ (λ s. tt)
                (λ y. bind-Returns _ _ (maybe_write_back-Returns _ e) (λ w s. tt))))

  extracted_at-Returns :
      (t : ℕ) (l : Loaded W) (cost : ℕ) (e : Extracted) → Returns (extracted_at deps inp t l cost e)
  unfolding extracted_at assign
  extracted_at-Returns t l cost e =
      bind-Returns _ _ (λ s. tt) (λ x. conclude-Returns inp.dry_run t cost l e)

  pub phases-IsUnfilled :
      (t : ℕ) (s : Session W) → s.filled ≡ blank → IsUnfilled (phases deps inp t s)
  unfolding phases ◌>>=◌ used
  phases-IsUnfilled t s h = continue-IsUnfilled (load deps inp s) _ (load-Spares s ∙ h) (λ l v k.
      continue-IsUnfilled (exec deps inp l v) _ (exec-Spares l v ∙ k)
        (λ output u j. IsOk-IsUnfilled _ (extracted_at-Returns t l _ _ u)))
