-- ===== src/Runner/Bounds.antt =====
-- internal/runner/runner.go: the turns of the tool loop, by the numbers that they announce.
use cronfoundry.Prelude.{
  ℕ, zero, suc, ◌≤◌, ◌≡◌, refl, sym, ap, ◌∙◌, String, Option, none, List, [], ◌∷◌, ◌++◌, map,
  append-nil, append_assoc, arith, ◌⊎◌, inl, inr,
}
use cronfoundry.Store.Exec.{Outcome, ok, err}
use cronfoundry.Runner.Session.{
  ToolUse, Session, Job, Failure, Cause, RunEvent, phase_enter, server_start_ok, turn_start,
  tool_call_ok, tool_call_fail, mcp_fatal, pure, fail, call, ◌>>=◌, continue, emit, add_usage,
  McpManager, McpCall, CallResult, FatalError, Message, TurnResult,
}
use cronfoundry.Runner.Turns.{
  or_fail, emit_all, dispatched, after_turn, turns, ChatTurn, tool_event,
}

abbrev pub turn_numbers : List RunEvent → List ℕ
turn_numbers [] = []
turn_numbers (turn_start n ∷ es) = n ∷ turn_numbers es
turn_numbers (phase_enter _ _ ∷ es) = turn_numbers es
turn_numbers (server_start_ok _ _ ∷ es) = turn_numbers es
turn_numbers (tool_call_ok _ _ ∷ es) = turn_numbers es
turn_numbers (tool_call_fail _ _ ∷ es) = turn_numbers es
turn_numbers (mcp_fatal _ _ ∷ es) = turn_numbers es

turn_numbers-append :
    (xs ys : List RunEvent) → turn_numbers (xs ++ ys) ≡ turn_numbers xs ++ turn_numbers ys
turn_numbers-append [] ys = refl
turn_numbers-append (turn_start n ∷ xs) ys = ap (n ∷◌) (turn_numbers-append xs ys)
turn_numbers-append (phase_enter _ _ ∷ xs) ys = turn_numbers-append xs ys
turn_numbers-append (server_start_ok _ _ ∷ xs) ys = turn_numbers-append xs ys
turn_numbers-append (tool_call_ok _ _ ∷ xs) ys = turn_numbers-append xs ys
turn_numbers-append (tool_call_fail _ _ ∷ xs) ys = turn_numbers-append xs ys
turn_numbers-append (mcp_fatal _ _ ∷ xs) ys = turn_numbers-append xs ys

-- `n` numbers from `k` on
abbrev pub from : ℕ → ℕ → List ℕ
from k zero = []
from k (suc n) = k ∷ from (suc k) n

-- no turn starts
abbrev Still : {W A : Type 0} → Job W A → Type 0
Still {W} m = (s : Session W) → turn_numbers (m s).1.events ≡ turn_numbers s.events

-- The turns that start have the numbers from `k` on, no more than `left`, and all of them if there is
-- no answer.
abbrev pub Turned :
    {W : Type 0} → ℕ → ℕ → List ℕ → Outcome Failure (Option String) × Session W → Type 0
Turned left k before o =
    (n : ℕ) × (n ≤ left)
    × (turn_numbers o.1.events ≡ before ++ from k n)
    × (o.0 ≡ ok none → n ≡ left)

abbrev Makes : {W : Type 0} → ℕ → ℕ → Job W (Option String) → Type 0
Makes {W} left k m = (s : Session W) → Turned left k (turn_numbers s.events) (m s)

tool_event-numbers :
    (calls : List McpCall) (r : CallResult) → turn_numbers (tool_event calls r ∷ []) ≡ []
tool_event-numbers calls r = ground arith

module _ {W A : Type 0} where
  Still-continue :
      {B : Type 0} (o : Outcome Failure A × Session W) (f : A → Job W B)
      → ((a : A) → Still (f a))
      → turn_numbers (continue o f).1.events ≡ turn_numbers o.1.events
  Still-continue (ok a, s) f h = h a s
  Still-continue (err e, s) f h = refl

  Still-bind :
      {B : Type 0} (m : Job W A) (f : A → Job W B)
      → Still m
      → ((a : A) → Still (f a))
      → Still (m >>= f)
  unfolding ◌>>=◌
  Still-bind m f h k s = Still-continue (m s) f k ∙ h s

  Makes-continue :
      (left k : ℕ) (before : List ℕ) (o : Outcome Failure A × Session W)
      (f : A → Job W (Option String))
      → turn_numbers o.1.events ≡ before
      → ((a : A) → Makes left k (f a))
      → Turned left k before (continue o f)
  Makes-continue left k before (ok a, s) f e h =
      let (n, l, r, x) = h a s in (n, l, r ∙ ap (◌++ from k n) e, x)
  Makes-continue left k before (err x, s) f e h =
      (0, omega arith, e ∙ sym (append-nil before), λ y. absurd (cc))

  Makes-bind :
      (left k : ℕ) (m : Job W A) (f : A → Job W (Option String))
      → Still m
      → ((a : A) → Makes left k (f a))
      → Makes left k (m >>= f)
  unfolding ◌>>=◌
  Makes-bind left k m f h g s = Makes-continue left k (turn_numbers s.events) (m s) f (h s) g

module _ {W : Type 0} where
  Makes-turn :
      (left k : ℕ) (f : Unit {0} → Job W (Option String))
      → Makes left (suc k) (f tt)
      → Makes (suc left) k (emit (turn_start k) >>= f)
  unfolding ◌>>=◌ emit
  Makes-turn left k f h s =
      let (n, l, r, x) = h (record s { events = s.events ++ (turn_start k ∷ []) }) in
      (
        suc n,
        omega arith,
        r
            ∙ ap (◌++ from (suc k) n) (turn_numbers-append s.events (turn_start k ∷ []))
            ∙ append_assoc (turn_numbers s.events) (k ∷ []) (from (suc k) n),
        λ y. ap suc (x y),
      )

  quiet-Still : (e : RunEvent) → turn_numbers (e ∷ []) ≡ [] → Still {W = W} (emit e)
  unfolding emit
  quiet-Still e h s =
      turn_numbers-append s.events (e ∷ [])
      ∙ ap (turn_numbers s.events ++◌) h
      ∙ append-nil (turn_numbers s.events)

  or_fail-Still :
      {F A : Type 0} (kind : String) (c : F → Cause) (o : F ⊎ A) → Still {W = W} (or_fail kind c o)
  unfolding or_fail fail pure
  or_fail-Still kind c (inl e) s = refl
  or_fail-Still kind c (inr a) s = refl

  emit_all-Still :
      (calls : List McpCall) (rs : List CallResult)
      → Still {W = W} (emit_all (map (tool_event calls) rs))
  unfolding emit_all pure
  emit_all-Still calls [] s = refl
  emit_all-Still calls (r ∷ rs) s =
      Still-bind _ _ (quiet-Still _ (tool_event-numbers calls r)) (λ x. emit_all-Still calls rs) s

  dispatched-Still :
      (calls : List McpCall) (o : FatalError ⊎ List CallResult) → Still {W = W} (dispatched calls o)
  unfolding dispatched fail pure
  dispatched-Still calls (inl f) =
      Still-bind _ _ (quiet-Still (mcp_fatal f.kind f.message) refl) (λ x s. refl)
  dispatched-Still calls (inr rs) = Still-bind _ _ (emit_all-Still calls rs) (λ x s. refl)

  after_turn-Makes :
      (left k : ℕ) (mgr : McpManager W) (next : List Message → Job W (Option String))
      (ms : List Message) (t : TurnResult) (us : List ToolUse)
      → ((ns : List Message) → Makes left k (next ns))
      → Makes left k (after_turn mgr next ms t us)
  unfolding after_turn pure call
  after_turn-Makes left k mgr next ms t [] h s =
      (0, omega arith, sym (append-nil (turn_numbers s.events)), λ y. absurd (cc))
  after_turn-Makes left k mgr next ms t (u ∷ us) h s =
      Makes-bind left k (call _) _ (λ v. refl)
        (λ a. Makes-bind left k _ _ (dispatched-Still _ a) (λ replies. h _)) s

  -- Whatever the model and the servers answer, a run of the loop with `left` turns starts at most
  -- `left` turns, numbered one after the other from `turn` on; and if it ends without an answer and
  -- without a failure, then it has started all of them.
  pub turns-Turned :
      (chat : ChatTurn W) (mgr : McpManager W) (left turn : ℕ) (ms : List Message) (s : Session W)
      → Turned left turn (turn_numbers s.events) (turns chat mgr left turn ms s)
  unfolding turns pure call add_usage
  turns-Turned chat mgr zero turn ms s =
      (0, omega arith, sym (append-nil (turn_numbers s.events)), λ y. refl)
  turns-Turned chat mgr (suc left) turn ms s =
      Makes-turn left turn _
        (Makes-bind left (suc turn) (call _) _ (λ v. refl)
          (λ a. Makes-bind left (suc turn) _ _ (or_fail-Still _ _ a) (λ t.
            Makes-bind left (suc turn) (add_usage t.usage) _ (λ v. refl)
              (λ x.
                after_turn-Makes left (suc turn) mgr _ ms t t.tool_uses
                  (turns-Turned chat mgr left (suc turn))))))
        s
