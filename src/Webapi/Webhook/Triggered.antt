-- ===== src/Webapi/Webhook/Triggered.antt =====
-- internal/webapi/webhook.go: when a delivery reaches the sync.
use cronfoundry.Prelude.{
  ℕ, ◌≡◌, ◌≢◌, ◌⊎◌, refl, sym, ap, ◌∙◌, String, true, false, ◌||◌, Option, none, some, arith, find,
  head?, Bool-cases, inl, inr, str_eq, eq_iff,
}
use cronfoundry.Store.Rows.{World, Tables, RepoRow}
use cronfoundry.Store.Exec.{M, Outcome, ok, err, pure, raise, ◌>>=◌, continue, statement, attempt}
use cronfoundry.Store.Exec.Keeps.{Cond, Keeps-after, Keeps-statement}
use cronfoundry.Webapi.Keeps.{load_org-Keeps}
use cronfoundry.Webapi.Response.{Fault, load_org}
use cronfoundry.Webapi.Response.Loaded.{load_org-ok, read_tables-ok}
use cronfoundry.Webapi.Webhook.{
  Signing, PushPayload, Delivery, Answer, verify_webhook_signature, is_named, repo_by_owner_name,
  is_other_branch, after_sync, sync_connection, sync_pushed, handle_payload, handle_body, webhook,
}

module _ {E : Type 0} (g : Signing) (parse : String → Option PushPayload) (secret : String)
    (sync_one : ℕ → M E (Unit {0})) where
  -- the sync of a connection of the organization, in a world with the tables of `w`
  abbrev pub Syncs : PushPayload → World → Outcome Fault Answer × World → Type 0
  Syncs p w r =
      (org : ℕ) × (head? w.orgs ≡ some org)
      × (c : RepoRow) × (find (is_named org p.owner p.name) w.repos ≡ some c)
      × (v : World) × (v.tables ≡ w.tables)
      × (r.1 ≡ (sync_one c.id v).1)

  -- nothing in the tables is changed, or a sync was made
  abbrev pub Quiet : PushPayload → World → Outcome Fault Answer × World → Type 0
  Quiet p w r = (r.1.tables ≡ w.tables) ⊎ Syncs p w r

  after_sync-world :
      (r : Outcome E (Unit {0})) (v : World) → (after_sync g parse secret sync_one r v).1 ≡ v
  unfolding after_sync pure raise
  after_sync-world (ok u) v = refl
  after_sync-world (err e) v = refl

  continue-Quiet :
      {A : Type 0} (p : PushPayload) (w : World) (f : A → M Fault Answer) (r : Outcome Fault A)
      (v : World)
      → v.tables ≡ w.tables
      → ((a : A) → r ≡ ok a → Quiet p w (f a v))
      → Quiet p w (continue r f v)
  continue-Quiet p w f (ok a) v same h = h a refl
  continue-Quiet p w f (err e) v same h = inl same

  -- a step that changes nothing, and what follows it
  bind-Quiet :
      {A : Type 0} (p : PushPayload) (w : World) (m : M Fault A) (f : A → M Fault Answer)
      (v : World)
      → (m v).1.tables ≡ w.tables
      → ((a : A) → (m v).0 ≡ ok a → Quiet p w (f a (m v).1))
      → Quiet p w ((m >>= f) v)
  unfolding ◌>>=◌
  bind-Quiet p w m f v same h = continue-Quiet p w f (m v).0 (m v).1 same h

  sync_connection-Quiet :
      (p : PushPayload) (w v : World) (org : ℕ) (o : Option RepoRow)
      → head? w.orgs ≡ some org
      → o ≡ find (is_named org p.owner p.name) w.repos
      → v.tables ≡ w.tables
      → Quiet p w (sync_connection g parse secret sync_one o v)
  unfolding sync_connection pure attempt ◌>>=◌
  sync_connection-Quiet p w v org none first found same = inl same
  sync_connection-Quiet p w v org (some c) first found same =
      inr (
        org,
        first,
        c,
        sym found,
        v,
        same,
        after_sync-world (sync_one c.id v).0 (sync_one c.id v).1,
      )

  unchanged : Tables → Cond
  unchanged x t n = t ≡ x

  sync_pushed-Quiet :
      (p : PushPayload) (w : World) → Quiet p w (sync_pushed g parse secret sync_one p w)
  unfolding sync_pushed unchanged repo_by_owner_name
  sync_pushed-Quiet p w =
      let T = unchanged w.tables in
      let loaded : (load_org w).1.tables ≡ w.tables = Keeps-after _ (load_org-Keeps T) w refl in
      bind-Quiet p w load_org _ w loaded λ org e.
        let v : World = (load_org w).1 in
        let read =
          statement Fault.internal
            (λ (u : World). some (repo_by_owner_name org p.owner p.name u, u)) in
        let kept : (read v).1.tables ≡ w.tables =
          Keeps-after {P = T} read (Keeps-statement _ _ (λ u q. q)) v loaded in
        bind-Quiet p w read (sync_connection g parse secret sync_one) v kept λ o f.
          let (found, _) = read_tables-ok (λ t. find (is_named org p.owner p.name) t.repos) v o f in
          sync_connection-Quiet p w (read v).1 org o (load_org-ok w org e).0
            (found ∙ ap (λ (t : Tables). find (is_named org p.owner p.name) t.repos) loaded) kept

  -- a signed push to the default branch of a repository that is connected
  abbrev pub Triggers : Delivery → World → Outcome Fault Answer × World → Type 0
  Triggers d w r =
      (d.event ≡ "push")
      × (secret ≢ "")
      × (body : String) × (d.body ≡ ok body)
      × (verify_webhook_signature g secret body d.signature ≡ true)
      × (p : PushPayload) × (parse body ≡ some p)
      × (is_other_branch p ≡ false)
      × Syncs p w r

  payload-Quiet :
      (o : Option PushPayload) (w : World)
      → ((handle_payload g parse secret sync_one o w).1.tables ≡ w.tables)
        ⊎ ((p : PushPayload) × (o ≡ some p)
            × (is_other_branch p ≡ false)
            × Syncs p w (handle_payload g parse secret sync_one o w))
  unfolding handle_payload raise pure
  payload-Quiet none w = inl refl
  payload-Quiet (some p) w = elim (Bool-cases (str_eq p.owner "" || str_eq p.name "")) [
    | inl e ↦ rw e (inl refl)
    | inr e ↦ elim (Bool-cases (is_other_branch p)) [
      | inl other ↦ rw (e, other) (inl refl)
      | inr same ↦
          rw (e, same)
            (elim (sync_pushed-Quiet p w) [
              | inl quiet ↦ inl quiet
              | inr syncs ↦ inr (p, refl, same, syncs)
            ])
    ]
  ]

  body-Quiet :
      (sig : String) (o : Outcome Fault String) (w : World)
      → ((handle_body g parse secret sync_one sig o w).1.tables ≡ w.tables)
        ⊎ ((body : String) × (o ≡ ok body)
            × (verify_webhook_signature g secret body sig ≡ true)
            × (p : PushPayload) × (parse body ≡ some p)
            × (is_other_branch p ≡ false)
            × Syncs p w (handle_body g parse secret sync_one sig o w))
  unfolding handle_body raise
  body-Quiet sig (err f) w = inl refl
  body-Quiet sig (ok body) w = elim (Bool-cases (verify_webhook_signature g secret body sig)) [
    | inr e ↦ rw e (inl refl)
    | inl e ↦ rw e (elim (payload-Quiet (parse body) w) [
      | inl quiet ↦ inl quiet
      | inr (p, parsed, same, syncs) ↦ inr (body, refl, e, p, parsed, same, syncs)
    ])
  ]

  -- A delivery of any kind changes no table, or it is a push whose body is signed with the secret, to
  -- the default branch, if the payload names one, of a repository that is connected to the oldest
  -- organization, and it syncs that connection.
  pub webhook-Triggers :
      (d : Delivery) (w : World)
      → ((webhook g parse secret sync_one d w).1.tables ≡ w.tables)
        ⊎ Triggers d w (webhook g parse secret sync_one d w)
  unfolding webhook raise pure
  webhook-Triggers d w = elim (Bool-cases (str_eq d.event "ping")) [
    | inl e ↦ rw e (inl refl)
    | inr e ↦ elim (Bool-cases (str_eq d.event "push")) [
      | inr f ↦ rw (e, f) (inl refl)
      | inl f ↦ elim (Bool-cases (str_eq secret "")) [
        | inl k ↦ rw (e, f, k) (inl refl)
        | inr k ↦
            rw (e, f, k)
              (elim (body-Quiet d.signature d.body w) [
                | inl quiet ↦ inl quiet
                | inr (body, read, signed, p, parsed, same, syncs) ↦ inr (
                  (eq_iff d.event "push").0 f,
                  (λ s. ground (arith, eq_iff secret "")),
                  body,
                  read,
                  signed,
                  p,
                  parsed,
                  same,
                  syncs,
                )
              ])
      ]
    ]
  ]
