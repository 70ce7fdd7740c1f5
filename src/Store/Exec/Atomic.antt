-- ===== src/Store/Exec/Atomic.antt =====
-- Transactions that fail, and conditions under transactions.
use cronfoundry.Prelude.{ℕ, ◌≡◌, refl, ◌∙◌, ◌≤◌, some, Bool, true, false, List, [], ◌∷◌, arith}
use cronfoundry.Store.Rows.{World, Tables, Call}
use cronfoundry.Store.Exec.{
  M, Outcome, ok, err, call, answer, close_tx, end_tx, begin_tx, transaction_if,
}
use cronfoundry.Store.Exec.Keeps.{Cond, At, Post, Keeps}

abbrev pub IsErr : {E A : Type 0} → Outcome E A → Type 0
IsErr (ok a) = ⊥
IsErr (err e) = Unit

answer-tables : (w : World) (cs : List Call) → (answer w cs).0.tables ≡ w.tables
answer-tables w [] = refl
answer-tables w (c ∷ cs) = refl

pub call-tables : (w : World) → (call w).0.tables ≡ w.tables
unfolding call
call-tables w = answer-tables w w.script

answer-next_id : (w : World) (cs : List Call) → (answer w cs).0.next_id ≡ w.next_id
answer-next_id w [] = refl
answer-next_id w (c ∷ cs) = refl

pub call-next_id : (w : World) → (call w).0.next_id ≡ w.next_id
unfolding call
call-next_id w = answer-next_id w w.script

module _ {E A : Type 0} (commits : A → Bool) (e : E) where
  close_tx-err :
      (before : Tables) (a : A) (w : World) (c : World × Bool) (b : Bool)
      → IsErr (close_tx e before a w c b).0
      → (close_tx e before a w c b).1.tables ≡ before
  close_tx-err before a w (w', true) true h = refl
  close_tx-err before a w (w', false) true h = absurd h
  close_tx-err before a w (w', b) false h = absurd h

  end_tx-err :
      (before : Tables) (o : Outcome E A × World)
      → IsErr (end_tx commits e before o).0
      → (end_tx commits e before o).1.tables ≡ before
  end_tx-err before (err x, w) h = refl
  end_tx-err before (ok a, w) h = close_tx-err before a w (call w) (commits a) h

  begin_tx-err :
      (b : E) (m : M E A) (c : World × Bool)
      → IsErr (begin_tx commits b e m c).0
      → (begin_tx commits b e m c).1.tables ≡ c.0.tables
  begin_tx-err b m (w, true) h = refl
  begin_tx-err b m (w, false) h = end_tx-err w.tables (m (record w { tx_start = some w.clock })) h

  pub transaction-err :
      (b : E) (m : M E A) (w : World)
      → IsErr (transaction_if commits b e m w).0
      → (transaction_if commits b e m w).1.tables ≡ w.tables
  unfolding transaction_if
  transaction-err b m w h = begin_tx-err b m (call w) h ∙ call-tables w

-- A condition on the tables that does not fail when the id supply moves on is kept by a
-- transaction, if its body keeps it and does not turn the supply back.
module _ {E A : Type 0} (P : Cond) (grow : (t : Tables) (n k : ℕ) → P t n → n ≤ k → P t k)
    (commits : A → Bool) (e : E) where
  abbrev Above : ℕ → Cond
  Above n₀ t n = P t n × (n₀ ≤ n)

  close_tx-Keeps :
      (before : Tables) (a : A) (w : World) (c : World × Bool) (b : Bool)
      → P before w.next_id
      → P before c.0.next_id
      → At P c.0
      → Post (λ _. P) P (close_tx e before a w c b)
  close_tx-Keeps before a w (w', true) true p q r = q
  close_tx-Keeps before a w (w', false) true p q r = r
  close_tx-Keeps before a w (w', b) false p q r = p

  end_tx-Keeps :
      (before : Tables) (n₀ : ℕ) (o : Outcome E A × World)
      → P before n₀
      → Post (λ _. Above n₀) (Above n₀) o
      → Post (λ _. P) P (end_tx commits e before o)
  end_tx-Keeps before n₀ (err x, w) p (q, g) = grow before n₀ w.next_id p g
  end_tx-Keeps before n₀ (ok a, w) p (q, g) =
      close_tx-Keeps before a w (call w) (commits a) (grow before n₀ w.next_id p g)
        (rw (call-next_id w) (grow before n₀ w.next_id p g)) (rw (call-next_id w, call-tables w) q)

  begin_tx-Keeps :
      (b : E) (m : M E A) (c : World × Bool)
      → ((n₀ : ℕ) → Keeps (Above n₀) m)
      → At P c.0
      → Post (λ _. P) P (begin_tx commits b e m c)
  begin_tx-Keeps b m (w, true) h p = p
  begin_tx-Keeps b m (w, false) h p =
      end_tx-Keeps w.tables w.next_id (m (record w { tx_start = some w.clock })) p
        ((h w.next_id).at (record w { tx_start = some w.clock }) (p, omega arith))

  pub Keeps-transaction :
      (b : E) (m : M E A)
      → ((n₀ : ℕ) → Keeps (λ t n. P t n × (n₀ ≤ n)) m)
      → Keeps P (transaction_if commits b e m)
  unfolding transaction_if
  Keeps-transaction b m h = record {
    at = λ w p. begin_tx-Keeps b m (call w) h (rw (call-next_id w, call-tables w) p);
  }
