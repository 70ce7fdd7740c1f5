-- ===== src/Prelude/Places.antt =====
-- The elements of a list by their places.
use Prim.Native.Nat.{ℕ, zero, suc, ◌+◌, ◌-◌, ◌≤◌, ◌<◌}
use mathlib.Core.Path.{◌≡◌, refl}
use mathlib.Core.Option.{Option, none, some}
use mathlib.Core.List.{List, [], ◌∷◌, ◌++◌}
use native.Mathlib.Omega.{arith}
use cronfoundry.Prelude.Tests.{ltb, ◌==◌, if◌then◌else◌}
use cronfoundry.Prelude.Lists.{length, take, drop}

module _ {ℓ} {A : Type ℓ} where
  abbrev pub get_elem? : List A → ℕ → Option A
  get_elem? [] i = none
  get_elem? (x ∷ xs) zero = some x
  get_elem? (x ∷ xs) (suc i) = get_elem? xs i

  -- a write in a list; out of bounds it changes nothing
  abbrev pub set : List A → ℕ → A → List A
  set [] i a = []
  set (x ∷ xs) zero a = a ∷ xs
  set (x ∷ xs) (suc i) a = x ∷ set xs i a

  pub get-set :
      (xs : List A) (i j : ℕ) (v : A)
      → i < length xs
      → get_elem? (set xs i v) j ≡ (if i == j then some v else get_elem? xs j)
  get-set [] i j v h = absurd (omega arith)
  get-set (x ∷ xs) zero zero v h = refl
  get-set (x ∷ xs) zero (suc j) v h = ground arith
  get-set (x ∷ xs) (suc i) zero v h = ground arith
  get-set (x ∷ xs) (suc i) (suc j) v h = ground (arith, get-set xs i j v)

  pub length-set : (xs : List A) (i : ℕ) (v : A) → length (set xs i v) ≡ length xs
  length-set [] i v = refl
  length-set (x ∷ xs) zero v = refl
  length-set (x ∷ xs) (suc i) v = omega (arith, length-set xs i v)

  pub length-append : (xs ys : List A) → length (xs ++ ys) ≡ length xs + length ys
  length-append [] ys = omega arith
  length-append (x ∷ xs) ys = omega (arith, length-append xs ys)

  pub get-append :
      (xs ys : List A) (i : ℕ)
      → get_elem? (xs ++ ys) i
        ≡ (if ltb i (length xs) then get_elem? xs i else get_elem? ys (i - length xs))
  get-append [] ys i = ground arith
  get-append (x ∷ xs) ys zero = ground arith
  get-append (x ∷ xs) ys (suc i) = ground (arith, get-append xs ys i)

  pub get-past : (xs : List A) (i : ℕ) → length xs ≤ i → get_elem? xs i ≡ none
  get-past [] i h = refl
  get-past (x ∷ xs) zero h = absurd (omega arith)
  get-past (x ∷ xs) (suc i) h = get-past xs i (omega arith)

  pub get-drop : (k i : ℕ) (xs : List A) → get_elem? (drop k xs) i ≡ get_elem? xs (k + i)
  get-drop zero i xs = ground arith
  get-drop (suc k) i [] = refl
  get-drop (suc k) i (x ∷ xs) = ground (arith, get-drop k i xs)

  pub get-take :
      (k i : ℕ) (xs : List A) → get_elem? (take k xs) i ≡ (if ltb i k then get_elem? xs i else none)
  get-take zero i xs = ground arith
  get-take (suc k) i [] = ground arith
  get-take (suc k) zero (x ∷ xs) = ground arith
  get-take (suc k) (suc i) (x ∷ xs) = ground (arith, get-take k i xs)

  pub length-drop : (k : ℕ) (xs : List A) → length (drop k xs) ≡ length xs - k
  length-drop zero xs = omega arith
  length-drop (suc k) [] = omega arith
  length-drop (suc k) (x ∷ xs) = omega (arith, length-drop k xs)

  -- lists with the same elements at every place are the same
  pub list_ext : (xs ys : List A) → ((i : ℕ) → get_elem? xs i ≡ get_elem? ys i) → xs ≡ ys
  list_ext [] [] h = refl
  list_ext [] (y ∷ ys) h = absurd (cc (h 0))
  list_ext (x ∷ xs) [] h = absurd (cc (h 0))
  list_ext (x ∷ xs) (y ∷ ys) h =
      let same : x ≡ y = cc (h 0) in
      let rest : xs ≡ ys = list_ext xs ys (λ i. h (suc i)) in cc (same, rest)
