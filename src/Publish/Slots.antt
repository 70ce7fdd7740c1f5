-- ===== src/Publish/Slots.antt =====
-- internal/publish/dispatcher.go: the results and the destinations, slot by slot, in every order of
-- the goroutines.
use mathlib.Core.Path.{subst}
use cronfoundry.Prelude.{
  get_elem?, set, ◌||◌, ℕ, zero, suc, String, Bool, true, false, ◌≡◌, refl, Option, none, some,
  List, [], ◌∷◌, arith, any, ◌==◌, length, ◌<◌,
}
use cronfoundry.Config.Manifest.{Destination}
use cronfoundry.Publish.{Result, Publisher, slots, finish, run_goroutines, dispatch, deliver}

-- Slot by slot: a slot that is marked as written holds what `P` allows for its destination.
abbrev pub Filled :
    (Destination → Result → Type 0) → (ℕ → Bool) → List Destination → List Result → Type 0
Filled P marked [] [] = Unit
Filled P marked [] (r ∷ rs) = ⊥
Filled P marked (d ∷ ds) [] = ⊥
Filled P marked (d ∷ ds) (r ∷ rs) = (marked 0 ≡ true → P d r) × Filled P (λ i. marked (suc i)) ds rs

-- every slot holds what `P` allows for its destination
abbrev pub Aligned : (Destination → Result → Type 0) → List Destination → List Result → Type 0
Aligned P [] [] = Unit
Aligned P [] (r ∷ rs) = ⊥
Aligned P (d ∷ ds) [] = ⊥
Aligned P (d ∷ ds) (r ∷ rs) = P d r × Aligned P ds rs

-- the index is among those that ran
abbrev pub ran : List ℕ → ℕ → Bool
ran order i = any (◌==◌ i) order

-- every index of the list is in the order
abbrev pub Covers : List ℕ → List Destination → Type 0
Covers order dests = (i : ℕ) → i < length dests → ran order i ≡ true

or-left : (a : Bool) → a ≡ true → (a || false) ≡ true
or-left a h = ground arith

same : (d c : Destination) → some c ≡ some d → d ≡ c
same d c e = cc

module _ (P : Destination → Result → Type 0) where
  Filled-slots : (ds : List Destination) → Filled P (λ i. false) ds (slots ds)
  Filled-slots [] = tt
  Filled-slots (d ∷ ds) = ((λ h. absurd (cc)), Filled-slots ds)

  Filled-less :
      (m n : ℕ → Bool) (ds : List Destination) (rs : List Result)
      → ((i : ℕ) → n i ≡ true → m i ≡ true)
      → Filled P m ds rs
      → Filled P n ds rs
  Filled-less m n [] [] h f = tt
  Filled-less m n [] (r ∷ rs) h f = f
  Filled-less m n (d ∷ ds) [] h f = f
  Filled-less m n (d ∷ ds) (r ∷ rs) h (p, f) =
      (λ e. p (h 0 e), Filled-less (λ i. m (suc i)) (λ i. n (suc i)) ds rs (λ i. h (suc i)) f)

  Filled-set :
      (m : ℕ → Bool) (i : ℕ) (d : Destination) (r : Result) (ds : List Destination)
      (rs : List Result)
      → get_elem? ds i ≡ some d
      → P d r
      → Filled P m ds rs
      → Filled P (λ j. (j == i) || m j) ds (set rs i r)
  Filled-set m i d r [] [] e p f = tt
  Filled-set m i d r [] (x ∷ rs) e p f = absurd f
  Filled-set m i d r (c ∷ ds) [] e p f = absurd f
  Filled-set m zero d r (c ∷ ds) (x ∷ rs) e p (q, f) = (
    λ _. subst (λ k. P k r) (same d c e) p,
    Filled-less (λ j. m (suc j)) (λ j. (suc j == 0) || m (suc j)) ds rs (λ j h. ground arith) f,
  )
  Filled-set m (suc i) d r (c ∷ ds) (x ∷ rs) e p (q, f) = (
    λ h. q (ground arith),
    Filled-less (λ j. (j == i) || m (suc j)) (λ j. (suc j == suc i) || m (suc j)) ds (set rs i r)
        (λ j h. ground arith) (Filled-set (λ j. m (suc j)) i d r ds rs e p f),
  )

  Filled-none :
      (m : ℕ → Bool) (i : ℕ) (ds : List Destination) (rs : List Result)
      → get_elem? ds i ≡ none
      → Filled P m ds rs
      → Filled P (λ j. (j == i) || m j) ds rs
  Filled-none m i [] [] e f = tt
  Filled-none m i [] (r ∷ rs) e f = f
  Filled-none m i (d ∷ ds) [] e f = f
  Filled-none m zero (d ∷ ds) (r ∷ rs) e f = absurd (cc)
  Filled-none m (suc i) (d ∷ ds) (r ∷ rs) e (p, f) = (
    λ h. p (ground arith),
    Filled-less (λ j. (j == i) || m (suc j)) (λ j. (suc j == suc i) || m (suc j)) ds rs
        (λ j h. ground arith) (Filled-none (λ j. m (suc j)) i ds rs e f),
  )

  Aligned-intro :
      (m : ℕ → Bool) (ds : List Destination) (rs : List Result)
      → ((i : ℕ) → i < length ds → m i ≡ true)
      → Filled P m ds rs
      → Aligned P ds rs
  Aligned-intro m [] [] h f = tt
  Aligned-intro m [] (r ∷ rs) h f = f
  Aligned-intro m (d ∷ ds) [] h f = f
  Aligned-intro m (d ∷ ds) (r ∷ rs) h (p, f) = (
    p (h 0 (omega arith)),
    Aligned-intro (λ i. m (suc i)) ds rs (λ i l. h (suc i) (omega arith)) f,
  )

  module _ {W : Type 0} (goroutine : Destination → W → Result × W)
      (holds : (d : Destination) (w : W) → P d (goroutine d w).0) where
    Filled-finish :
        (m : ℕ → Bool) (i : ℕ) (o : Option Destination) (ds : List Destination) (rs : List Result)
        (w : W)
        → get_elem? ds i ≡ o
        → Filled P m ds rs
        → Filled P (λ j. (j == i) || m j) ds (finish goroutine i o rs w).0
    Filled-finish m i none ds rs w e f = Filled-none m i ds rs e f
    Filled-finish m i (some d) ds rs w e f =
        Filled-set m i d (goroutine d w).0 ds rs e (holds d w) f

    Filled-run_goroutines :
        (m : ℕ → Bool) (order : List ℕ) (ds : List Destination) (rs : List Result) (w : W)
        → Filled P m ds rs
        → Filled P (λ i. ran order i || m i) ds (run_goroutines goroutine order ds rs w).0
    unfolding run_goroutines
    Filled-run_goroutines m [] ds rs w f = f
    Filled-run_goroutines m (i ∷ order) ds rs w f =
        let o = finish goroutine i (get_elem? ds i) rs w in
        Filled-less (λ j. ran order j || ((j == i) || m j)) (λ j. ran (i ∷ order) j || m j) ds
          (run_goroutines goroutine (i ∷ order) ds rs w).0 (λ j h. ground arith)
          (Filled-run_goroutines (λ j. (j == i) || m j) order ds o.0 o.1
            (Filled-finish m i (get_elem? ds i) ds rs w refl f))

    -- Whatever the order of the goroutines, if each index is in it, then the slot of each destination
    -- has what its own goroutine returned.
    run_goroutines-Aligned :
        (order : List ℕ) (ds : List Destination) (w : W)
        → Covers order ds
        → Aligned P ds (run_goroutines goroutine order ds (slots ds) w).0
    run_goroutines-Aligned order ds w h =
        Aligned-intro (λ i. ran order i || false) ds
          (run_goroutines goroutine order ds (slots ds) w).0 (λ i l. or-left (ran order i) (h i l))
          (Filled-run_goroutines (λ i. false) order ds (slots ds) w (Filled-slots ds))

module _ {W : Type 0} (publishers : String → Option (Publisher W))
    (output_for : Destination → String) (P : Destination → Result → Type 0) where
  -- Whatever the order in which the goroutines run, as long as each index is in it: if every result
  -- that a publisher returns for the text of its destination has `P`, and so have the results of the
  -- destinations that are skipped or have no publisher, then the results have one slot for each
  -- destination, in order, and each slot has `P` of its own destination.
  pub dispatch-Aligned :
      (order : List ℕ) (ds : List Destination) (run_succeeded : Bool) (w : W)
      → Covers order ds
      → ((d : Destination) (v : W) → P d (deliver publishers output_for run_succeeded d v).0)
      → Aligned P ds (dispatch publishers order ds output_for run_succeeded w).0
  unfolding dispatch
  dispatch-Aligned order ds run_succeeded w h holds =
      run_goroutines-Aligned P (deliver publishers output_for run_succeeded) holds order ds w h
