-- ===== src/Runner/Leaves.antt =====
-- internal/runner/runner.go: what an action announces, whether it returns or fails.
use mathlib.Core.Path.{subst}
use cronfoundry.Prelude.{
  append-nil, length, ℕ, zero, suc, String, true, false, ◌≡◌, refl, sym, ap, ◌∙◌, Option, none,
  some, List, [], ◌∷◌, ◌++◌, ◌⊎◌, inl, inr, if◌then◌else◌, map,
}
use cronfoundry.Store.Exec.{Outcome, ok, err}
use cronfoundry.Config.Manifest.{EnvMap}
use cronfoundry.Config.Skill.{McpServer}
use cronfoundry.Runner.Cost.{Usage}
use cronfoundry.Runner.Session.{
  ToolUse, Session, Filled, assign, Job, Failure, Cause, RunEvent, phase_enter, server_start_ok,
  turn_start, tool_call_ok, tool_call_fail, mcp_fatal, pure, fail, call, ◌>>=◌, continue, emit,
  set_managed, set_usage, add_usage, used, McpManager, McpCall, CallResult, FatalError, Message,
  TurnResult,
}
use cronfoundry.Runner.Turns.{
  or_fail, started, resolved, start_servers, emit_all, dispatched, after_turn, turns, ChatTurn,
  tool_event, call_name,
}

-- the announced phases, with the phase in which a run failed
abbrev pub announced : List RunEvent → List (String × Option String)
announced [] = []
announced (phase_enter phase prev ∷ es) = (phase, prev) ∷ announced es
announced (server_start_ok _ _ ∷ es) = announced es
announced (turn_start _ ∷ es) = announced es
announced (tool_call_ok _ _ ∷ es) = announced es
announced (tool_call_fail _ _ ∷ es) = announced es
announced (mcp_fatal _ _ ∷ es) = announced es

pub announced-append : (xs ys : List RunEvent) → announced (xs ++ ys) ≡ announced xs ++ announced ys
announced-append [] ys = refl
announced-append (phase_enter p q ∷ xs) ys = ap ((p, q) ∷◌) (announced-append xs ys)
announced-append (server_start_ok _ _ ∷ xs) ys = announced-append xs ys
announced-append (turn_start _ ∷ xs) ys = announced-append xs ys
announced-append (tool_call_ok _ _ ∷ xs) ys = announced-append xs ys
announced-append (tool_call_fail _ _ ∷ xs) ys = announced-append xs ys
announced-append (mcp_fatal _ _ ∷ xs) ys = announced-append xs ys

abbrev pub View : Type 0
View = List (String × Option String) × String

abbrev pub view : {W : Type 0} → Session W → View
view s = (announced s.events, s.active)

-- an action that returns leaves `after`; one that fails leaves what `E` allows
abbrev pub Lands : {W A : Type 0} → View → (View → Type 0) → Outcome Failure A × Session W → Type 0
Lands after E (ok a, s) = view s ≡ after
Lands after E (err e, s) = E (view s)

pub record Leaves {W A : Type 0} (before after : View) (E : View → Type 0) (m : Job W A)
    : Type 0 where
  pub at : (s : Session W) → view s ≡ before → Lands after E (m s)

module _ {W : Type 0} {v : View} {E : View → Type 0} where
  pub assign-Leaves : (f : Filled → Filled) → Leaves {W = W} v v E (assign f)
  unfolding assign
  assign-Leaves f = record { at = λ s k. k }

module _ {W A : Type 0} {v : View} {E : View → Type 0} where
  pub Leaves-pure : (a : A) → Leaves {W = W} v v E (pure a)
  unfolding pure
  Leaves-pure a = record { at = λ s h. h }

  pub Leaves-fail : (kind : String) (c : Cause) → E v → Leaves {W = W} {A = A} v v E (fail kind c)
  unfolding fail
  Leaves-fail kind c h = record { at = λ s e. subst E (sym e) h }

  pub Leaves-call : (f : W → A × W) → Leaves v v E (call f)
  unfolding call
  Leaves-call f = record { at = λ s h. h }

module _ {W A B : Type 0} {v w : View} {E : View → Type 0} where
  Lands-continue :
      (f : A → Job W B) (o : Outcome Failure A × Session W)
      → ((a : A) → Leaves v w E (f a))
      → Lands v E o
      → Lands w E (continue o f)
  Lands-continue f (ok a, s) h l = (h a).at s l
  Lands-continue f (err e, s) h l = l

  pub Leaves-bind :
      {u : View} (m : Job W A) (f : A → Job W B)
      → Leaves u v E m
      → ((a : A) → Leaves v w E (f a))
      → Leaves u w E (m >>= f)
  unfolding ◌>>=◌
  Leaves-bind m f h k = record { at = λ s e. Lands-continue f (m s) k (h.at s e) }

tool_event-silent :
    (calls : List McpCall) (r : CallResult) → announced (tool_event calls r ∷ []) ≡ []
tool_event-silent calls r =
    elim r.is_error
      as (λ b.
        announced (
          (if b
            then tool_call_fail (call_name calls r.id) r.duration_ms
            else tool_call_ok (call_name calls r.id) r.duration_ms)
          ∷ [])
        ≡ []) [ true ↦ refl | false ↦ refl ]

-- what does not announce a phase
module _ {W : Type 0} (v : View) (E : View → Type 0) (h : E v) where
  pub silent : (e : RunEvent) → announced (e ∷ []) ≡ [] → Leaves {W = W} v v E (emit e)
  unfolding emit
  silent e h = record {
    at = λ s k.
        ap (λ es. (es, s.active))
          (announced-append s.events (e ∷ [])
            ∙ ap (announced s.events ++◌) h
            ∙ append-nil (announced s.events))
        ∙ k;
  }

  add_usage-Leaves : (u : Usage) → Leaves {W = W} v v E (add_usage u)
  unfolding add_usage
  add_usage-Leaves u = record { at = λ s k. k }

  pub set_usage-Leaves : (u : Usage) → Leaves {W = W} v v E (set_usage u)
  unfolding set_usage
  set_usage-Leaves u = record { at = λ s k. k }

  pub set_managed-Leaves : Leaves {W = W} v v E set_managed
  unfolding set_managed
  set_managed-Leaves = record { at = λ s k. k }

  pub used-Leaves : Leaves {W = W} v v E used
  unfolding used
  used-Leaves = record { at = λ s k. k }

  pub or_fail-Leaves :
      {F A : Type 0} (kind : String) (c : F → Cause) (o : F ⊎ A)
      → Leaves {W = W} v v E (or_fail kind c o)
  unfolding or_fail
  or_fail-Leaves kind c (inl e) = Leaves-fail kind (c e) h
  or_fail-Leaves kind c (inr a) = Leaves-pure a

  started-Leaves : (o : Option String) → Leaves {W = W} v v E (started o)
  unfolding started
  started-Leaves none = Leaves-pure tt
  started-Leaves (some m) = search (Leaves-fail, h)

  resolved-Leaves : (o : Option (List String)) → Leaves {W = W} v v E (resolved o)
  unfolding resolved
  resolved-Leaves none = search (Leaves-fail, h)
  resolved-Leaves (some env) = Leaves-pure env

  pub start_servers-Leaves :
      (mgr : McpManager W) (get : Option (String → Option String)) (env : List (String × EnvMap))
      (ss : List McpServer)
      → Leaves v v E (start_servers mgr get env ss)
  unfolding start_servers
  start_servers-Leaves mgr get env [] = Leaves-pure tt
  start_servers-Leaves mgr get env (s ∷ ss) = Leaves-bind _ _ (resolved-Leaves _) (λ e.
      Leaves-bind _ _ (Leaves-call _) (λ a. Leaves-bind _ _ (started-Leaves a) (λ u.
        Leaves-bind _ _ (Leaves-call _) (λ t.
          Leaves-bind _ _ (silent (server_start_ok s.name (length t)) refl)
            (λ x. start_servers-Leaves mgr get env ss)))))

  emit_all-Leaves :
      (calls : List McpCall) (rs : List CallResult)
      → Leaves {W = W} v v E (emit_all (map (tool_event calls) rs))
  unfolding emit_all
  emit_all-Leaves calls [] = Leaves-pure tt
  emit_all-Leaves calls (r ∷ rs) =
      Leaves-bind _ _ (silent (tool_event calls r) (tool_event-silent calls r))
        (λ x. emit_all-Leaves calls rs)

  dispatched-Leaves :
      (calls : List McpCall) (o : FatalError ⊎ List CallResult)
      → Leaves {W = W} v v E (dispatched calls o)
  unfolding dispatched
  dispatched-Leaves calls (inl f) =
      Leaves-bind _ _ (silent (mcp_fatal f.kind f.message) refl) (λ x. Leaves-fail f.kind _ h)
  dispatched-Leaves calls (inr rs) = Leaves-bind _ _ (emit_all-Leaves calls rs) (λ x. Leaves-pure _)

  after_turn-Leaves :
      (mgr : McpManager W) (next : List Message → Job W (Option String)) (ms : List Message)
      (t : TurnResult) (us : List ToolUse)
      → ((ns : List Message) → Leaves v v E (next ns))
      → Leaves v v E (after_turn mgr next ms t us)
  unfolding after_turn
  after_turn-Leaves mgr next ms t [] k = Leaves-pure (some t.text)
  after_turn-Leaves mgr next ms t (u ∷ us) k =
      Leaves-bind _ _ (Leaves-call _)
        (λ a. Leaves-bind _ _ (dispatched-Leaves _ a) (λ replies. k _))

  pub turns-Leaves :
      (chat : ChatTurn W) (mgr : McpManager W) (left turn : ℕ) (ms : List Message)
      → Leaves v v E (turns chat mgr left turn ms)
  unfolding turns
  turns-Leaves chat mgr zero turn ms = Leaves-pure none
  turns-Leaves chat mgr (suc left) turn ms = Leaves-bind _ _ (silent (turn_start turn) refl) (λ x.
      Leaves-bind _ _ (Leaves-call _) (λ a. Leaves-bind _ _ (or_fail-Leaves "llm_error" _ a) (λ t.
        Leaves-bind _ _ (add_usage-Leaves t.usage)
          (λ u. after_turn-Leaves mgr _ ms t t.tool_uses (turns-Leaves chat mgr left (suc turn))))))
