-- ===== src/Store/Users/Counts.antt =====
-- How many rows of `app_user` meet a test, after each statement.
use cronfoundry.Prelude.{
  ℕ, ◌+◌, ◌≤◌, ◌<◌, ◌≡◌, ◌≢◌, refl, String, Bool, true, false, ◌&&◌, Option, some, List, [], ◌∷◌,
  ◌++◌, map, arith, Bool-cases, inl, inr, if◌then◌else◌, length, select, find, any, eq_iff, ◌==◌,
}
use cronfoundry.Store.Rows.{AppUser}
use cronfoundry.Store.Users.{is_user, is_admin, set_role_of, role_column}

module _ {ℓ} {A : Type ℓ} where
  abbrev pub count : (A → Bool) → List A → ℕ
  count p xs = length (select p xs)

  pub count-map :
      (p : A → Bool) (f : A → A) (xs : List A)
      → ((x : A) → p (f x) ≡ p x)
      → count p (map f xs) ≡ count p xs
  count-map p f [] h = refl
  count-map p f (x ∷ xs) h = ground (arith, h x, count-map p f xs h)

  pub count-select : (p q : A → Bool) (xs : List A) → count p (select q xs) ≤ count p xs
  count-select p q [] = omega arith
  count-select p q (x ∷ xs) = ground (arith, count-select p q xs)

  pub count-snoc :
      (p : A → Bool) (xs : List A) (y : A)
      → count p (xs ++ y ∷ []) ≡ count p xs + (if p y then 1 else 0)
  count-snoc p [] y = ground arith
  count-snoc p (x ∷ xs) y = ground (arith, count-snoc p xs y)

  pub count-none : (p : A → Bool) (xs : List A) → any p xs ≡ false → count p xs ≡ 0
  count-none p [] h = refl
  count-none p (x ∷ xs) h = ground (arith, count-none p xs)

  pub count_eq : (p q : A → Bool) (xs : List A) → ((x : A) → p x ≡ q x) → count p xs ≡ count q xs
  count_eq p q [] h = refl
  count_eq p q (x ∷ xs) h = ground (arith, h x, count_eq p q xs h)

  -- an element that passes both tests is there after the selection
  pub count-select_pos :
      (p q r : A → Bool) (xs : List A)
      → any r xs ≡ true
      → ((x : A) → r x ≡ true → (p x ≡ true) × (q x ≡ true))
      → 0 < count p (select q xs)
  count-select_pos p q r [] h k = absurd (cc)
  count-select_pos p q r (x ∷ xs) h k = elim (Bool-cases (r x)) [
    | inl e ↦ ground (arith, k x e)
    | inr e ↦ ground (arith, count-select_pos p q r xs)
  ]

abbrev pub admin_of : ℕ → AppUser → Bool
admin_of org u = u.org_id == org && is_admin u

module _ (fold : String → String) (org o : ℕ) (l r : String) where
  -- making a user an admin
  pub count-promote :
      (us : List AppUser)
      → r ≡ "admin"
      → count (admin_of org) us ≤ count (admin_of org) (map (set_role_of fold o l r) us)
  count-promote [] e = omega arith
  count-promote (u ∷ us) e =
      ground (arith, eq_iff r "admin", eq_iff u.role "admin", count-promote us e)

  -- at worst the users of that login were admins
  pub count-demote :
      (us : List AppUser)
      → count (admin_of org) us
        ≤ count (admin_of org) (map (set_role_of fold o l r) us) + count (is_user fold o l) us
  count-demote [] = omega arith
  count-demote (u ∷ us) = ground (arith, count-demote us)

  -- nobody has the login
  count-absent :
      (us : List AppUser)
      → count (is_user fold o l) us ≤ 0
      → count (admin_of org) us ≤ count (admin_of org) (map (set_role_of fold o l r) us)
  count-absent us h = omega (arith, count-demote us)

  -- the only user of the login was no admin
  pub count-other :
      (us : List AppUser) (current : String)
      → role_column (find (is_user fold o l) us) ≡ some current
      → current ≢ "admin"
      → count (is_user fold o l) us ≤ 1
      → count (admin_of org) us ≤ count (admin_of org) (map (set_role_of fold o l r) us)
  count-other [] c f n h = absurd (cc)
  count-other (u ∷ us) c f n h = elim (Bool-cases (is_user fold o l u)) [
    | inl e ↦
        let f' : ◌≡◌ {A = Option String} (some u.role) (some c) = rw e at f in
        let a : u.role ≡ c = cc (f') in ground (arith, eq_iff u.role "admin", count-absent us)
    | inr e ↦ ground (arith, count-other us c)
  ]

-- no two users of an organization have one login
abbrev pub HasUniqueLogins : (String → String) → List AppUser → Type 0
HasUniqueLogins fold us = (o : ℕ) (l : String) → count (is_user fold o l) us ≤ 1

module _ (fold : String → String) (v : AppUser) where
  same_user :
      (o : ℕ) (l : String)
      → is_user fold o l v ≡ true
      → (u : AppUser) → is_user fold o l u ≡ is_user fold v.org_id v.github_login u
  same_user o l h u =
      let e : v.org_id ≡ o = ground arith in
      let f : fold v.github_login ≡ fold l =
        ground (arith, eq_iff (fold v.github_login) (fold l)) in
      rw (e, f)

  pub HasUniqueLogins-snoc :
      (us : List AppUser)
      → any (is_user fold v.org_id v.github_login) us ≡ false
      → HasUniqueLogins fold us
      → HasUniqueLogins fold (us ++ v ∷ [])
  HasUniqueLogins-snoc us fresh h o l = elim (Bool-cases (is_user fold o l v)) [
    | inl e ↦ ground (
      arith,
      count-snoc (is_user fold o l) us v,
      count_eq (is_user fold o l) (is_user fold v.org_id v.github_login) us (same_user o l e),
      count-none (is_user fold v.org_id v.github_login) us fresh,
    )
    | inr e ↦ ground (arith, count-snoc (is_user fold o l) us v, h o l)
  ]
