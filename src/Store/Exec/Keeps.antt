-- ===== src/Store/Exec/Keeps.antt =====
-- Conditions on the tables and the id supply under actions, with a rule for each way to build one, for
-- every script of the database.
use cronfoundry.Prelude.{
  ℕ, Bool, true, false, if◌then◌else◌, Option, none, some, List, [], ◌∷◌, ◌≡◌, refl,
}
use cronfoundry.Store.Rows.{World, Tables, Call}
use cronfoundry.Store.Exec.{
  M, Outcome, ok, err, pure, raise, gets, ◌>>=◌, call, answer, statement, attempt, continue,
  run_statement,
}

abbrev pub Cond : Type 1
Cond = Tables → ℕ → Type 0

abbrev pub At : Cond → World → Type 0
At P w = P w.tables w.next_id

-- `Q` of the result, or `X` after an error
abbrev pub Post : {E A : Type 0} → (A → Cond) → Cond → Outcome E A × World → Type 0
Post Q X (ok a, w) = At (Q a) w
Post Q X (err e, w) = At X w

-- the same of a statement, where a violated constraint leaves the state as it was
abbrev pub Landed : {A : Type 0} → (A → Cond) → Option (A × World) → Type 0
Landed Q none = Unit
Landed Q (some (a, w)) = At (Q a) w

pub record Ensures {E A : Type 0} (P : Cond) (m : M E A) (Q : A → Cond) (X : Cond) : Type 0 where
  pub at : (w : World) → At P w → Post Q X (m w)

-- `m` keeps `P`, whether it returns or fails
abbrev pub Keeps : {E A : Type 0} → Cond → M E A → Type 0
Keeps P m = Ensures P m (λ _. P) P

module _ {E A : Type 0} {P X : Cond} where
  pub Ensures-pure :
      {Q : A → Cond} (a : A)
      → ((t : Tables) (n : ℕ) → P t n → Q a t n)
      → Ensures {E = E} P (pure a) Q X
  unfolding pure
  Ensures-pure a h = record { at = λ w p. h w.tables w.next_id p }

  pub Ensures-raise :
      {Q : A → Cond} (e : E) → ((t : Tables) (n : ℕ) → P t n → X t n) → Ensures P (raise e) Q X
  unfolding raise
  Ensures-raise e h = record { at = λ w p. h w.tables w.next_id p }

  pub Ensures-gets : (f : World → A) → Ensures {E = E} P (gets f) (λ _. P) X
  unfolding gets
  Ensures-gets f = record { at = λ w p. p }

-- a call of the database changes no table
call-tables :
    (w : World) (cs : List Call)
    → ((answer w cs).0.tables ≡ w.tables) × ((answer w cs).0.next_id ≡ w.next_id)
call-tables w [] = (refl, refl)
call-tables w (c ∷ cs) = (refl, refl)

At-answer : (P : Cond) (w : World) (cs : List Call) → At P w → At P (answer w cs).0
At-answer P w [] p = p
At-answer P w (c ∷ cs) p = p

module _ {E A : Type 0} (Q : A → Cond) (X : Cond) where
  statement_lem :
      (e : E) (f : World → Option (A × World)) (w : World) (b : Bool)
      → At X w
      → Landed Q (f w)
      → Post Q X (run_statement e f w b)
  statement_lem e f w true x l = x
  statement_lem e f w false x l = landed (f w) l
    where
      landed :
          (o : Option (A × World))
          → Landed Q o
          → Post Q X (elim o as (λ _. Outcome E A × World) [
            | none ↦ (err e, w)
            | some (a, w') ↦ (ok a, w')
          ])
      landed none l' = x
      landed (some (a, w')) l' = l'

module _ {E A : Type 0} {P X : Cond} {Q : A → Cond} where
  pub Ensures-statement :
      (e : E) (f : World → Option (A × World))
      → ((t : Tables) (n : ℕ) → P t n → X t n)
      → ((w : World) → At P w → Landed Q (f w))
      → Ensures P (statement e f) Q X
  unfolding statement call
  Ensures-statement e f px h = record {
    at = λ w p.
        let w' = (answer w w.script).0 in
        let q = At-answer P w w.script p in
        statement_lem Q X e f w' (answer w w.script).1 (px w'.tables w'.next_id q) (h w' q);
  }

module _ {E A B : Type 0} (Q : A → Cond) (R : B → Cond) (X : Cond) where
  bind_lem :
      (f : A → M E B)
      → ((a : A) → Ensures (Q a) (f a) R X)
      → (r : Outcome E A) (w : World) → Post Q X (r, w)
      → Post R X (continue r f w)
  bind_lem f h (ok a) w q = (h a).at w q
  bind_lem f h (err e) w x = x

module _ {E A B : Type 0} {P X : Cond} {Q : A → Cond} {R : B → Cond} where
  pub Ensures-bind :
      (m : M E A) (f : A → M E B)
      → Ensures P m Q X
      → ((a : A) → Ensures (Q a) (f a) R X)
      → Ensures P (m >>= f) R X
  unfolding ◌>>=◌
  Ensures-bind m f hm hf = record { at = λ w p. bind_lem Q R X f hf (m w).0 (m w).1 (hm.at w p) }

attempt_lem : {E A : Type 0} (R : Cond) (o : Outcome E A × World) → Post (λ _. R) R o → At R o.1
attempt_lem R (ok a, w) r = r
attempt_lem R (err e, w) r = r

module _ {E F A : Type 0} {P R X : Cond} where
  pub Ensures-attempt :
      (m : M E A) → Ensures P m (λ _. R) R → Ensures P (attempt {F = F} m) (λ _. R) X
  unfolding attempt
  Ensures-attempt m h = record { at = λ w p. attempt_lem R (m w) (h.at w p) }

-- what holds after the action, in both of its outcomes
pub Ensures-after :
    {E A : Type 0} {P R : Cond} (m : M E A)
    → Ensures P m (λ _. R) R
    → (w : World) → At P w
    → At R (m w).1
Ensures-after {R} m h w p = attempt_lem R (m w) (h.at w p)

module _ {E A : Type 0} {P : Cond} where
  -- what a kept condition says of the state after the action
  pub Keeps-after : (m : M E A) → Keeps P m → (w : World) → At P w → At P (m w).1
  Keeps-after m h w p = attempt_lem P (m w) (h.at w p)

-- a fact about values, established by an earlier action
pub Ensures-given :
    {E A : Type 0} {P X : Cond} {Q : A → Cond} (F : Type 0) (m : M E A)
    → (F → Ensures P m Q X)
    → Ensures (λ t n. P t n × F) m Q X
Ensures-given F m h = record { at = λ w p. (h p.1).at w p.0 }

-- an action that needs less than is known
pub Ensures-before :
    {E A : Type 0} {P X : Cond} {Q : A → Cond} (R : Cond) (m : M E A)
    → ((t : Tables) (n : ℕ) → P t n → R t n)
    → Ensures R m Q X
    → Ensures P m Q X
Ensures-before R m f h = record { at = λ w p. h.at w (f w.tables w.next_id p) }

pub Landed-imp :
    {A : Type 0} (Q R : A → Cond) (o : Option (A × World))
    → ((a : A) (t : Tables) (n : ℕ) → Q a t n → R a t n)
    → Landed Q o
    → Landed R o
Landed-imp Q R none h l = tt
Landed-imp Q R (some (a, w)) h l = h a w.tables w.next_id l

module _ {E A : Type 0} {P : Cond} where
  pub Keeps-pure : (a : A) → Keeps {E = E} P (pure a)
  Keeps-pure a = Ensures-pure a (λ t n p. p)

  pub Keeps-raise : (e : E) → Keeps {A = A} P (raise e)
  Keeps-raise e = Ensures-raise e (λ t n p. p)

  pub Keeps-statement :
      (e : E) (f : World → Option (A × World))
      → ((w : World) → At P w → Landed (λ _. P) (f w))
      → Keeps P (statement e f)
  Keeps-statement e f h = Ensures-statement e f (λ t n p. p) h

  pub Keeps-if : (b : Bool) {m k : M E A} → Keeps P m → Keeps P k → Keeps P (if b then m else k)
  Keeps-if true hm hk = hm
  Keeps-if false hm hk = hk
