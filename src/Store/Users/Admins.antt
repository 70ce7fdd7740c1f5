-- ===== src/Store/Users/Admins.antt =====
-- internal/db/queries/app_user.sql: the statements keep an admin and the uniqueness of the logins.
use cronfoundry.Prelude.{
  ℕ, ◌<◌, ◌≡◌, ◌≢◌, sym, String, true, false, ◌&&◌, not, Option, none, some, [], ◌∷◌, ◌++◌, map,
  arith, Bool-cases, inl, inr, leb, str_eq, eq_iff, head?, any,
}
use cronfoundry.Store.Rows.{World, Tables, AppUser, now}
use cronfoundry.Store.Exec.Keeps.{Cond, At, Landed}
use cronfoundry.Store.Users.{
  count_admins, user_role, is_user, is_admin, goes, valid_role, new_user, admissible, logged_in,
  set_role_of, create_user, set_user_role, delete_user_if_not_last, upsert_user_on_login,
}
use cronfoundry.Store.Users.Counts.{
  count, admin_of, count-map, count-select, count-snoc, count-select_pos, count-promote,
  count-demote, count-other, HasUniqueLogins, HasUniqueLogins-snoc,
}

-- the organization of the requests has an admin
abbrev pub HasAdmin : (String → String) → ℕ → Cond
HasAdmin fold org t n =
    (head? t.orgs ≡ some org) × HasUniqueLogins fold t.users × (0 < count (admin_of org) t.users)

-- a user of that login is an admin
abbrev pub IsAdmin : (String → String) → ℕ → String → Cond
IsAdmin fold org login t n = any (λ u. is_user fold org login u && is_admin u) t.users ≡ true

module _ (fold : String → String) (org : ℕ) where
  abbrev P : Cond
  P = HasAdmin fold org

  module _ (login role : String) where
    -- the table after the update has an admin
    abbrev pub Safe : Cond
    Safe t n = P t n × (0 < count (admin_of org) (map (set_role_of fold org login role) t.users))

    same_login :
        (o : ℕ) (l : String) (u : AppUser)
        → is_user fold o l (set_role_of fold org login role u) ≡ is_user fold o l u
    same_login o l u = elim (Bool-cases (is_user fold org login u)) [ inl e ↦ rw e | inr e ↦ rw e ]

    pub set_user_role-Landed :
        (w : World) → At Safe w → Landed (λ u. P) (set_user_role fold org login role w)
    unfolding set_user_role
    set_user_role-Landed w (p, s) = elim (Bool-cases (valid_role role)) [
      | inl e ↦ rw e (
        p.0,
        (λ o l.
            rw
              (count-map (is_user fold o l) (set_role_of fold org login role) w.users
                (same_login o l))
              (p.1 o l)),
        s,
      )
      | inr e ↦ rw e tt
    ]

    abbrev pub Found : Option String → Cond
    Found c t n = P t n × (c ≡ user_role fold org login t.users)

    -- with two admins one of them may be demoted
    pub demoted-Safe :
        (t : Tables) (n k : ℕ) → P t n → k ≡ count_admins org t.users → leb k 1 ≡ false → Safe t n
    unfolding count_admins
    demoted-Safe t n k p e h =
        (p, ground (arith, count-demote fold org org login role t.users, p.1 org login))

    -- a promotion, and a change of a user that is no admin
    pub kept-Safe :
        (t : Tables) (n : ℕ) (current : String)
        → Found (some current) t n
        → (str_eq current "admin" && not (str_eq role "admin")) ≡ false
        → Safe t n
    unfolding user_role
    kept-Safe t n current (p, f) h = elim (Bool-cases (str_eq role "admin")) [
      | inl e ↦
          let promoted =
            count-promote fold org org login role t.users ((eq_iff role "admin").0 e) in
          (p, omega (arith, p.2, promoted))
      | inr e ↦
          let other : current ≢ "admin" = λ a. ground (arith, eq_iff current "admin") in
          let kept =
            count-other fold org org login role t.users current (sym f) other (p.1 org login) in
          (p, omega (arith, p.2, kept))
    ]

  -- a new row keeps the invariant
  snoc_lem :
      (t : Tables) (n : ℕ) (u : AppUser)
      → any (is_user fold u.org_id u.github_login) t.users ≡ false
      → P t n
      → P (record t { users = t.users ++ u ∷ [] }) n
  snoc_lem t n u fresh p = (
    p.0,
    HasUniqueLogins-snoc fold u t.users fresh p.1,
    ground (arith, count-snoc (admin_of org) t.users u),
  )

  pub create_user-Landed :
      (o : ℕ) (login role : String) (w : World)
      → At P w
      → Landed (λ (x : Option AppUser). P) (create_user fold o login role w)
  unfolding create_user
  create_user-Landed o login role w p = elim (Bool-cases (admissible o role w)) [
    | inr e ↦ rw e tt
    | inl e ↦ elim (Bool-cases (any (is_user fold o login) w.users)) [
      | inl there ↦ rw (e, there) p
      | inr fresh ↦
          rw (e, fresh) (snoc_lem w.tables w.next_id (new_user o login role (now w) none) fresh p)
    ]
  ]

  -- the request's own admin stays when another user is deleted
  module _ (actor login : String) (other : fold actor ≢ fold login) where
    abbrev pub Both : Cond
    Both t n = P t n × IsAdmin fold org actor t n

    pub delete-Landed :
        (w : World)
        → At (λ t n. P t n × IsAdmin fold org actor t n) w
        → Landed (λ (k : ℕ). P) (delete_user_if_not_last fold org login w)
    unfolding delete_user_if_not_last
    delete-Landed w (p, a) = (
      p.0,
      (λ o l. omega (
        arith,
        p.1 o l,
        count-select (is_user fold o l) (λ u. not (goes fold org login w.users u)) w.users,
      )),
      count-select_pos (admin_of org) (λ u. not (goes fold org login w.users u))
          (λ u. is_user fold org actor u && is_admin u) w.users a
          λ u h. (
            ground arith,
            ground (
              arith,
              eq_iff (fold u.github_login) (fold actor),
              eq_iff (fold u.github_login) (fold login),
            ),
          ),
    )

  login_user :
      (o o' : ℕ) (l l' : String) (t : ℕ) (u : AppUser)
      → is_user fold o' l' (logged_in fold o l t u) ≡ is_user fold o' l' u
  login_user o o' l l' t u = elim (Bool-cases (is_user fold o l u)) [ inl e ↦ rw e | inr e ↦ rw e ]

  login_admin :
      (o : ℕ) (l : String) (t : ℕ) (u : AppUser)
      → admin_of org (logged_in fold o l t u) ≡ admin_of org u
  login_admin o l t u = elim (Bool-cases (is_user fold o l u)) [ inl e ↦ rw e | inr e ↦ rw e ]

  pub login-Landed :
      (o : ℕ) (login role : String) (w : World)
      → At P w
      → Landed (λ u. P) (upsert_user_on_login fold o login role w)
  unfolding upsert_user_on_login
  login-Landed o login role w p =
      let t = now w in
      elim (Bool-cases (admissible o role w)) [
        | inr e ↦ rw e tt
        | inl e ↦ elim (Bool-cases (any (is_user fold o login) w.users)) [
          | inl there ↦
              rw (e, there)
                (
                  p.0,
                  (λ o' l'.
                      rw
                        (count-map (is_user fold o' l') (logged_in fold o login t) w.users
                          (login_user o o' login l' t))
                        (p.1 o' l')),
                  rw
                      (count-map (admin_of org) (logged_in fold o login t) w.users
                        (login_admin o login t))
                      p.2,
                )
          | inr fresh ↦
              rw (e, fresh) (snoc_lem w.tables w.next_id (new_user o login role t (some t)) fresh p)
        ]
      ]
