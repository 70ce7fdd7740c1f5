-- ===== src/Sync/Poller/Effects.antt =====
-- internal/sync/poller.go: the rows and the marks that a pass of the poller leaves.
use cronfoundry.Prelude.{
  sym, ap, ◌≡◌, refl, String, Bool, true, false, Option, none, some, List, eq_iff, if◌then◌else◌,
  ◌⊎◌, inl, inr,
}
use cronfoundry.Config.Manifest.{Manifest}
use cronfoundry.Config.Skill.{Skill}
use cronfoundry.Sync.{SyncError}
use cronfoundry.Sync.Reconcile.{Tables, upsert_skills_and_schedules}
use cronfoundry.Sync.Poller.{
  PollError, mark_failed, Outside, Pass, Loading, Ended, failed_mark, mark_err, ok_mark, mark_ok,
  source_of, stored, upserted, fetched, is_same, fetch, at_head, with_head, with_token, with_row,
  sync_one,
}

module _ {W : Type 0} (out : Outside W) where
  -- the rows are what the upsert of the manifest and the skills that were fetched for the commit makes
  -- of those of the pass
  abbrev pub Applied : Pass W → String → Tables → Type 0
  Applied p sha t =
      (token : String) × (v w : W) × (m : Manifest) × (ks : List (String × Skill)) × (fetch out
          token sha v
        ≡ (inr (m, ks), w))
      × (upsert_skills_and_schedules (source_of out p sha) m.skills ks p.tables ≡ inr t)

  -- the error is recorded, or a call of the database has failed and nothing is
  abbrev pub Marked : Pass W → PollError → Pass W → Type 0
  Marked p e q =
      (q.connection.last_sync_error ≡ some e)
      ⊎ ((v : W) × ((out.database_fails v).0 ≡ true) × (q.connection ≡ p.connection))

  abbrev pub After : Pass W → Ended out → Type 0
  After p (none, q) =
      (sha : String) × (q.connection.last_synced_head_sha ≡ some sha)
      × (q.connection.last_sync_error ≡ none)
      × (((q.tables ≡ p.tables) × (p.connection.last_synced_head_sha ≡ some sha))
          ⊎ Applied p sha q.tables)
  After p (some e, q) =
      (q.connection.last_synced_head_sha ≡ p.connection.last_synced_head_sha)
      × Marked p e q
      × ((q.tables ≡ p.tables) ⊎ ((e ≡ mark_failed) × (sha : String) × Applied p sha q.tables))

  failed_mark-After :
      (p : Pass W) (e : PollError) (v u : W) (answer : Bool × W)
      → answer ≡ out.database_fails u
      → After p (failed_mark out e (record p { world = v }) answer)
  failed_mark-After p e v u (true, w) h = (refl, inr (u, ap (λ a. a.0) (sym h), refl), inl refl)
  failed_mark-After p e v u (false, w) h = (refl, inl refl, inl refl)

  mark_err-After :
      (p : Pass W) (e : PollError) (v : W) → After p (mark_err out e (record p { world = v }))
  unfolding mark_err
  mark_err-After p e v = failed_mark-After p e v v (out.database_fails v) refl

  same_mark-After :
      (p : Pass W) (sha : String) (v u : W) (answer : Bool × W)
      → answer ≡ out.database_fails u
      → p.connection.last_synced_head_sha ≡ some sha
      → After p (ok_mark out sha (record p { world = v }) answer)
  same_mark-After p sha v u (true, w) k h = (refl, inr (u, ap (λ a. a.0) (sym k), refl), inl refl)
  same_mark-After p sha v u (false, w) k h = (sha, refl, refl, inl (refl, h))

  new_mark-After :
      (p : Pass W) (sha : String) (t : Tables) (v u : W) (answer : Bool × W)
      → answer ≡ out.database_fails u
      → Applied p sha t
      → After p (ok_mark out sha (record p { world = v; tables = t }) answer)
  new_mark-After p sha t v u (true, w) k h =
      (refl, inr (u, ap (λ a. a.0) (sym k), refl), inr (refl, sha, h))
  new_mark-After p sha t v u (false, w) k h = (sha, refl, refl, inr h)

  stored-After :
      (p : Pass W) (token sha : String) (m : Manifest) (ks : List (String × Skill)) (b u v : W)
      (r : SyncError ⊎ Tables)
      → fetch out token sha b ≡ (inr (m, ks), u)
      → upsert_skills_and_schedules (source_of out p sha) m.skills ks p.tables ≡ r
      → After p (stored out sha (record p { world = v }) r)
  unfolding mark_ok
  stored-After p token sha m ks b u v (inl e) f h = mark_err-After p _ v
  stored-After p token sha m ks b u v (inr t) f h =
      new_mark-After p sha t v v (out.database_fails v) refl (token, b, u, m, ks, f, h)

  upserted-After :
      (p : Pass W) (token sha : String) (m : Manifest) (ks : List (String × Skill)) (b u v : W)
      (answer : Bool × W)
      → fetch out token sha b ≡ (inr (m, ks), u)
      → After p (upserted out sha (record p { world = v }) m ks answer)
  upserted-After p token sha m ks b u v (true, w) f = mark_err-After p _ w
  upserted-After p token sha m ks b u v (false, w) f = stored-After p token sha m ks b u w _ f refl

  fetched-After :
      (p : Pass W) (token sha : String) (b v : W)
      (r : Loading out (Manifest × List (String × Skill)))
      → fetch out token sha b ≡ r
      → After p (fetched out sha (record p { world = v }) r)
  fetched-After p token sha b v (inl e, w) f = mark_err-After p e w
  fetched-After p token sha b v (inr (m, ks), w) f =
      upserted-After p token sha m ks b w w (out.database_fails w) f

  is_same-some : (o : Option String) (sha : String) → is_same out o sha ≡ true → o ≡ some sha
  is_same-some none sha h = absurd (cc)
  is_same-some (some s) sha h = ap some ((eq_iff s sha).0 h)

  at_head-After :
      (p : Pass W) (token sha : String) (v : W)
      → After p (at_head out token sha (record p { world = v }))
  unfolding at_head mark_ok
  at_head-After p token sha v = step (is_same out p.connection.last_synced_head_sha sha) refl
    where
      step :
          (b : Bool)
          → is_same out p.connection.last_synced_head_sha sha ≡ b
          → After p (
              if b
              then mark_ok out sha (record p { world = v })
              else fetched out sha (record p { world = v }) (fetch out token sha v))
      step true e = same_mark-After p sha v v (out.database_fails v) refl (is_same-some _ sha e)
      step false e = fetched-After p token sha v v (fetch out token sha v) refl

  with_head-After :
      (p : Pass W) (token : String) (v : W) (r : Loading out String)
      → After p (with_head out token (record p { world = v }) r)
  with_head-After p token v (inl e, w) = mark_err-After p e w
  with_head-After p token v (inr sha, w) = at_head-After p token sha w

  with_token-After :
      (p : Pass W) (v : W) (r : Loading out String)
      → After p (with_token out (record p { world = v }) r)
  with_token-After p v (inl e, w) = mark_err-After p e w
  with_token-After p v (inr token, w) = with_head-After p token w _

  with_row-After :
      (p : Pass W) (u : W) (answer : Bool × W)
      → answer ≡ out.database_fails u
      → After p (with_row out p answer)
  with_row-After p u (true, w) h = (refl, inr (u, ap (λ a. a.0) (sym h), refl), inl refl)
  with_row-After p u (false, w) h = with_token-After p w _

  -- Whatever GitHub, the files and the database answer: a pass that returns no error records a commit
  -- and no error, and either the commit is the one that was recorded before and no row has changed,
  -- or the rows are what the upsert of the manifest that was fetched for that commit makes of them. A
  -- pass that returns an error leaves the recorded commit, so the next pass tries again; it records
  -- the error, unless a call of the database failed and it leaves the connection as it was; and it
  -- changes no row, unless the upsert was done and only the mark after it failed.
  pub sync_one-After : (p : Pass W) → After p (sync_one out p)
  unfolding sync_one
  sync_one-After p = with_row-After p p.world (out.database_fails p.world) refl
