-- ===== src/Store/Exec/Inversion.antt =====
-- What a result tells of the parts of an action.
use cronfoundry.Prelude.{◌≡◌, refl, ◌∙◌, Option, none, some, Bool, true, false}
use cronfoundry.Store.Rows.{World, Tables}
use cronfoundry.Store.Exec.{
  M, Outcome, ok, err, ◌>>=◌, continue, call, statement, run_statement, transaction_if, close_tx,
  end_tx, begin_tx,
}
use cronfoundry.Store.Exec.Atomic.{call-tables}

module _ {E A B : Type 0} where
  continue-ok :
      (r : Outcome E A) (f : A → M E B) (w : World) (b : B)
      → (continue r f w).0 ≡ ok b
      → (a : A) × (r ≡ ok a) × ((f a w).0 ≡ ok b)
  continue-ok (ok a) f w b h = (a, refl, h)
  continue-ok (err e) f w b h = absurd (cc)

  pub bind-ok :
      (m : M E A) (f : A → M E B) (w : World) (b : B)
      → ((m >>= f) w).0 ≡ ok b
      → (a : A) × ((m w).0 ≡ ok a) × ((f a (m w).1).0 ≡ ok b)
  unfolding ◌>>=◌
  bind-ok m f w b h = continue-ok (m w).0 f (m w).1 b h

module _ {E A : Type 0} where
  read_lem :
      (e : E) (g : World → A) (w : World) (b : Bool) (a : A)
      → (run_statement e (λ v. some (g v, v)) w b).0 ≡ ok a
      → (a ≡ g w) × ((run_statement e (λ v. some (g v, v)) w b).1 ≡ w)
  read_lem e g w true a h = absurd (cc)
  read_lem e g w false a h = (cc, refl)

  -- a statement that only reads
  pub read-ok :
      (e : E) (g : World → A) (w : World) (a : A)
      → (statement e (λ v. some (g v, v)) w).0 ≡ ok a
      → (a ≡ g (call w).0) × ((statement e (λ v. some (g v, v)) w).1 ≡ (call w).0)
  unfolding statement
  read-ok e g w a h = read_lem e g (call w).0 (call w).1 a h

  close_tx-ok :
      (e : E) (before : Tables) (a : A) (w : World) (c : World × Bool) (b : Bool) (x : A)
      → (close_tx e before a w c b).0 ≡ ok x
      → ◌≡◌ {A = Outcome E A} (ok a) (ok x)
  close_tx-ok e before a w (w', true) true x h = absurd (cc)
  close_tx-ok e before a w (w', false) true x h = h
  close_tx-ok e before a w c false x h = h

  end_tx-ok :
      (commits : A → Bool) (e : E) (before : Tables) (o : Outcome E A × World) (x : A)
      → (end_tx commits e before o).0 ≡ ok x
      → o.0 ≡ ok x
  end_tx-ok commits e before (err y, w) x h = h
  end_tx-ok commits e before (ok a, w) x h = close_tx-ok e before a w (call w) (commits a) x h

  begin_tx-ok :
      (commits : A → Bool) (b e : E) (m : M E A) (c : World × Bool) (x : A)
      → (begin_tx commits b e m c).0 ≡ ok x
      → (w : World) × (w.tables ≡ c.0.tables) × ((m w).0 ≡ ok x)
  begin_tx-ok commits b e m (w, true) x h = absurd (cc)
  begin_tx-ok commits b e m (w, false) x h =
      (record w { tx_start = some w.clock }, refl, end_tx-ok commits e w.tables _ x h)

  -- the body of a transaction that returned a result had that result, from the same tables
  pub transaction-ok :
      (commits : A → Bool) (b e : E) (m : M E A) (w : World) (x : A)
      → (transaction_if commits b e m w).0 ≡ ok x
      → (v : World) × (v.tables ≡ w.tables) × ((m v).0 ≡ ok x)
  unfolding transaction_if
  transaction-ok commits b e m w x h =
      let (v, t, k) = begin_tx-ok commits b e m (call w) x h in (v, t ∙ call-tables w, k)

module _ {E A : Type 0} where
  statement_lem :
      (e : E) (f : World → Option (A × World)) (w : World) (b : Bool) (a : A)
      → (run_statement e f w b).0 ≡ ok a
      → f w ≡ some (a, (run_statement e f w b).1)
  statement_lem e f w true a h = absurd (cc)
  statement_lem e f w false a h = landed (f w) refl h
    where
      landed :
          (o : Option (A × World))
          → f w ≡ o
          → (elim o as (λ _. Outcome E A × World) [ none ↦ (err e, w) | some (x, v) ↦ (ok x, v) ]).0
            ≡ ok a
          → o
            ≡ some (
              a,
              (elim o as (λ _. Outcome E A × World) [
                | none ↦ (err e, w)
                | some (x, v) ↦ (ok x, v)
              ]).1,
            )
      landed none q k = absurd (cc)
      landed (some (x, v)) q k = cc (k)

  -- a statement that returned a result has changed the state as its function says
  pub statement-ok :
      (e : E) (f : World → Option (A × World)) (w : World) (a : A)
      → (statement e f w).0 ≡ ok a
      → f (call w).0 ≡ some (a, (statement e f w).1)
  unfolding statement
  statement-ok e f w a h = statement_lem e f (call w).0 (call w).1 a h

  end_tx-commits :
      (e : E) (before : Tables) (o : Outcome E A × World) (x : A)
      → (end_tx (λ a. true) e before o).0 ≡ ok x
      → (end_tx (λ a. true) e before o).1.tables ≡ o.1.tables
  end_tx-commits e before (err y, w) x h = absurd (cc)
  end_tx-commits e before (ok a, w) x h = closed (call w) h ∙ call-tables w
    where
      closed :
          (c : World × Bool)
          → (close_tx e before a w c true).0 ≡ ok x
          → (close_tx e before a w c true).1.tables ≡ c.0.tables
      closed (v, true) k = absurd (cc)
      closed (v, false) k = refl

  begin_tx-commits :
      (b e : E) (m : M E A) (c : World × Bool) (x : A)
      → (begin_tx (λ a. true) b e m c).0 ≡ ok x
      → (v : World) × (v.tables ≡ c.0.tables)
        × ((m v).0 ≡ ok x)
        × ((begin_tx (λ a. true) b e m c).1.tables ≡ (m v).1.tables)
  begin_tx-commits b e m (w, true) x h = absurd (cc)
  begin_tx-commits b e m (w, false) x h =
      let v = record w { tx_start = some w.clock } in
      (v, refl, end_tx-ok (λ a. true) e w.tables (m v) x h, end_tx-commits e w.tables (m v) x h)

  -- a transaction that returned a result has written what its body wrote
  pub transaction-commits :
      (b e : E) (m : M E A) (w : World) (x : A)
      → (transaction_if (λ a. true) b e m w).0 ≡ ok x
      → (v : World) × (v.tables ≡ w.tables)
        × ((m v).0 ≡ ok x)
        × ((transaction_if (λ a. true) b e m w).1.tables ≡ (m v).1.tables)
  unfolding transaction_if
  transaction-commits b e m w x h =
      let (v, t, k, s) = begin_tx-commits b e m (call w) x h in (v, t ∙ call-tables w, k, s)

module _ {E A B : Type 0} where
  continue-goes :
      (r : Outcome E A) (f : A → M E B) (w : World) (a : A) → r ≡ ok a → continue r f w ≡ f a w
  continue-goes r f w a h = rw h

  -- an action whose first part returned a result goes on with it
  pub bind-goes :
      (m : M E A) (f : A → M E B) (w : World) (a : A) → (m w).0 ≡ ok a → (m >>= f) w ≡ f a (m w).1
  unfolding ◌>>=◌
  bind-goes m f w a h = continue-goes (m w).0 f (m w).1 a h
