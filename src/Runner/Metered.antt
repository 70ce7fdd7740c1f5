-- ===== src/Runner/Metered.antt =====
-- internal/runner/runner.go: the usage of a run of the tool loop and that of the answers it got.
use cronfoundry.Prelude.{
  ℕ, zero, suc, ◌+◌, ◌≡◌, refl, String, Option, List, [], ◌∷◌, ◌++◌, map, arith, ◌⊎◌, inl, inr,
}
use cronfoundry.Store.Exec.{Outcome, ok, err}
use cronfoundry.Runner.Cost.{Usage}
use cronfoundry.Runner.Session.{
  ToolUse, Session, Job, Failure, turn_failed, turn_start, RunEvent, mcp_fatal, pure, fail, call,
  ◌>>=◌, continue, emit, add_usage, sum_usage, McpManager, McpCall, CallResult, FatalError, Message,
  TurnResult,
}
use cronfoundry.Runner.Turns.{
  or_fail, emit_all, dispatched, after_turn, turns, ChatTurn, tool_event,
}

-- `meter` is what the provider has charged for; an answer raises it by its own usage
abbrev pub Charged : {W : Type 0} → (W → ℕ) → (Usage → ℕ) → (String ⊎ TurnResult) × W → W → Type 0
Charged meter part (inl e, v) w = meter v ≡ meter w
Charged meter part (inr t, v) w = meter v ≡ meter w + part t.usage

module _ {W : Type 0} (meter : W → ℕ) (part : Usage → ℕ)
    (part-sum : (u v : Usage) → part (sum_usage u v) ≡ part u + part v) where
  -- the meter and the usage of the run go together
  abbrev Even : {A : Type 0} → Outcome Failure A × Session W → Session W → Type 0
  Even o s = part o.1.usage + meter s.world ≡ part s.usage + meter o.1.world

  abbrev Fair : {A : Type 0} → Job W A → Type 0
  Fair m = (s : Session W) → Even (m s) s

  Fair-continue :
      {A B : Type 0} (o : Outcome Failure A × Session W) (f : A → Job W B) (s : Session W)
      → Even o s
      → ((a : A) → Fair (f a))
      → Even (continue o f) s
  Fair-continue (ok a, v) f s e h = omega (arith, h a v)
  Fair-continue (err x, v) f s e h = e

  Fair-bind :
      {A B : Type 0} (m : Job W A) (f : A → Job W B)
      → Fair m
      → ((a : A) → Fair (f a))
      → Fair (m >>= f)
  unfolding ◌>>=◌
  Fair-bind m f h k s = Fair-continue (m s) f s (h s) k

  emit_all-Fair : (es : List RunEvent) → Fair (emit_all es)
  unfolding emit_all pure emit
  emit_all-Fair [] s = refl
  emit_all-Fair (e ∷ es) s = Fair-bind (emit e) _ (λ v. refl) (λ x. emit_all-Fair es) s

  dispatched-Fair :
      (calls : List McpCall) (o : FatalError ⊎ List CallResult) → Fair (dispatched calls o)
  unfolding dispatched fail pure emit
  dispatched-Fair calls (inl f) s =
      Fair-bind (emit (mcp_fatal f.kind f.message)) _ (λ v. refl) (λ x v. refl) s
  dispatched-Fair calls (inr rs) s =
      Fair-bind (emit_all (map (tool_event calls) rs)) _ (emit_all-Fair _) (λ x v. refl) s

  module _ (chat : ChatTurn W) (mgr : McpManager W)
      (charges : (ms : List Message) (w : W) → Charged meter part (chat ms w) w)
      (free : (calls : List McpCall) (w : W) → meter (mgr.dispatch_all calls w).1 ≡ meter w) where
    after_turn-Fair :
        (next : List Message → Job W (Option String)) (ms : List Message) (t : TurnResult)
        (us : List ToolUse)
        → ((ns : List Message) → Fair (next ns))
        → Fair (after_turn mgr next ms t us)
    unfolding after_turn pure call
    after_turn-Fair next ms t [] h s = refl
    after_turn-Fair next ms t (u ∷ us) h s =
        Fair-bind (call (mgr.dispatch_all _)) _ (λ v. omega (arith, free _ v.world))
          (λ a. Fair-bind _ _ (dispatched-Fair _ a) (λ replies. h _)) s

    -- the answer to a turn, with what is done with it: the usage is added where there is one
    answered-Fair :
        (o : (String ⊎ TurnResult) × W) (s : Session W) (k : TurnResult → Job W (Option String))
        → Charged meter part o s.world
        → ((t : TurnResult) → Fair (k t))
        → Even
            (((or_fail "llm_error" turn_failed o.0 >>= λ t. (add_usage t.usage >>= λ x. k t))
              (record s { world = o.1 })))
            s
    unfolding or_fail fail pure add_usage ◌>>=◌
    answered-Fair (inl e, v) s k c h = omega (arith, c)
    answered-Fair (inr t, v) s k c h = omega (
      arith,
      c,
      part-sum s.usage t.usage,
      h t (record s { world = v; usage = sum_usage s.usage t.usage }),
    )

    -- If the meter of the outside world goes up by the usage of each answer of the model, and by
    -- nothing else, then the usage of the run goes up by what the meter goes up by, whether the loop
    -- ends with an answer, without one or in a failure.
    pub turns-Fair :
        (left turn : ℕ) (ms : List Message) (s : Session W)
        → part (turns chat mgr left turn ms s).1.usage + meter s.world
          ≡ part s.usage + meter (turns chat mgr left turn ms s).1.world
    unfolding turns pure ◌>>=◌ emit call
    turns-Fair zero turn ms s = refl
    turns-Fair (suc left) turn ms s =
        answered-Fair (chat ms s.world) (record s { events = s.events ++ (turn_start turn ∷ []) })
          (λ t. after_turn mgr (turns chat mgr left (suc turn)) ms t t.tool_uses)
          (charges ms s.world)
          (λ t.
            after_turn-Fair (turns chat mgr left (suc turn)) ms t t.tool_uses
              (turns-Fair left (suc turn)))
