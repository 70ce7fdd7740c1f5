-- ===== src/Store/Exec.antt =====
-- Code that works on the database and may return an error. What was written before an error stays
-- written, except by the rollback of a transaction.
pub mod Keeps
pub mod Atomic
pub mod Quiet
pub mod Inversion
use cronfoundry.Prelude.{
  ℕ, ◌+◌, Bool, true, false, Option, none, some, List, [], ◌∷◌, if◌then◌else◌,
}
use cronfoundry.Store.Rows.{World, Tables, Call}

pub data Outcome (E A : Type 0) : Type 0 where
  ok : A → Outcome E A
  err : E → Outcome E A

abbrev pub M : Type 0 → Type 0 → Type 0
M E A = World → Outcome E A × World

module _ {E A : Type 0} where
  unfoldable pub pure : A → M E A
  pure a w = (ok a, w)

  unfoldable pub raise : E → M E A
  raise e w = (err e, w)

  unfoldable pub gets : (World → A) → M E A
  gets f w = (ok (f w), w)

module _ {E A B : Type 0} where
  abbrev pub continue : Outcome E A → (A → M E B) → M E B
  continue (ok a) f w = f a w
  continue (err e) f w = (err e, w)

  infixl 10 ◌>>=◌ ◌>>◌
  unfoldable pub ◌>>=◌ : M E A → (A → M E B) → M E B
  unfolding pure raise gets
  ◌>>=◌ m f w = let (r, w') = m w in continue r f w'

  abbrev pub ◌>>◌ : M E A → M E B → M E B
  m >> n = m >>= λ _. n

-- One call: time passes, and it may fail.
abbrev answer : World → List Call → World × Bool
answer w [] = (w, false)
answer w (c ∷ cs) = (record w { clock = w.clock + c.elapsed; script = cs }, c.fails)

unfoldable pub call : World → World × Bool
call w = answer w w.script

abbrev pub rollback : Tables → World → World
rollback before w = record w { tables = before; tx_start = none }

module _ {E A : Type 0} where
  abbrev pub run_statement : E → (World → Option (A × World)) → World → Bool → Outcome E A × World
  run_statement e f w true = (err e, w)
  run_statement e f w false = elim (f w) [ none ↦ (err e, w) | some (a, w') ↦ (ok a, w') ]

  -- A statement; `none` is a violated constraint.
  unfoldable pub statement : E → (World → Option (A × World)) → M E A
  statement e f w = let (w', fails) = call w in run_statement e f w' fails

  -- the last argument is whether the body asks for a Commit
  abbrev pub close_tx : E → Tables → A → World → World × Bool → Bool → Outcome E A × World
  close_tx e before a w (w', true) true = (err e, rollback before w')
  close_tx e before a w (w', false) true = (ok a, record w' { tx_start = none })
  close_tx e before a w answered false = (ok a, rollback before w)

  abbrev pub end_tx : (A → Bool) → E → Tables → Outcome E A × World → Outcome E A × World
  end_tx commits e before (err x, w) = (err x, rollback before w)
  end_tx commits e before (ok a, w) = close_tx e before a w (call w) (commits a)

  abbrev pub begin_tx : (A → Bool) → E → E → M E A → World × Bool → Outcome E A × World
  begin_tx commits begin_error commit_error m (w, true) = (err begin_error, w)
  begin_tx commits begin_error commit_error m (w, false) =
      end_tx commits commit_error w.tables (m (record w { tx_start = some w.clock }))

  -- Begin; the body; Commit if `commits` holds of its result, and otherwise, or after an error, the
  -- deferred Rollback. A Commit that fails has written nothing.
  unfoldable pub transaction_if : (A → Bool) → E → E → M E A → M E A
  unfolding call
  transaction_if commits begin_error commit_error m w =
      begin_tx commits begin_error commit_error m (call w)

  abbrev pub transaction : E → E → M E A → M E A
  transaction = transaction_if (λ a. true)

module _ {E F A : Type 0} where
  -- The result of an action, error or not, as a value: the caller goes on.
  abbrev pub as_value : Outcome E A × World → Outcome F (Outcome E A) × World
  as_value (r, w) = (ok r, w)

  unfoldable pub attempt : M E A → M F (Outcome E A)
  attempt m w = as_value (m w)
