-- ===== src/Sync/Synced.antt =====
-- internal/sync/upsert.go: what a sync leaves of the schedules of one skill.
use mathlib.Core.Path.{subst}
use cronfoundry.Prelude.{
  ℕ, ◌≡◌, refl, sym, ap, ◌∙◌, String, Bool, true, false, ◌&&◌, not, List, [], ◌∷◌, find, ◌==◌,
  ==-refl, str_eq, eq_iff, arith, if◌then◌else◌, any, ◌⊎◌, inl, inr, All, Bool-cases,
}
use cronfoundry.Config.Manifest.{ScheduleEntry}
use cronfoundry.Config.Skill.{Frontmatter}
use cronfoundry.Sync.{UpsertScheduleParams, ScheduleRecord, SyncError, schedule_params}
use cronfoundry.Sync.Reconcile.{
  Tables, Source, has_key, is_missing, disable, disable_missing, put_schedule, names_of, then_do,
  upsert_schedules, sync_skill,
}
use cronfoundry.Sync.Upserts.{
  From, schedule_params-From, Holds, upsert_into-Holds, upsert_into-other,
}

and_middle : (a b c : Bool) → (a && c) ≡ false → (a && (b && c)) ≡ false
and_middle a b c h = ground arith

other_skill : (id j : ℕ) (b : Bool) → (j == id) ≡ false → ((id == j) && b) ≡ false
other_skill id j b h = ground arith

disable_if-key :
    (b : Bool) (j : ℕ) (n : String) (r : ScheduleRecord)
    → has_key j n (if b then disable r else r) ≡ has_key j n r
disable_if-key true j n r = refl
disable_if-key false j n r = refl

-- a row that is listed, or that is of another skill, stays as it is
disable_missing-find :
    (id j : ℕ) (n : String) (names : List String) (rows : List ScheduleRecord)
    → ((j == id) && not (any (str_eq n) names)) ≡ false
    → find (has_key j n) (disable_missing id names rows) ≡ find (has_key j n) rows
unfolding disable_missing
disable_missing-find id j n names [] h = refl
disable_missing-find id j n names (r ∷ rows) h = elim (Bool-cases (has_key j n r)) [
  | inl e ↦
      let same : r.fields.name ≡ n = ground (arith, e, eq_iff r.fields.name n) in
      let whose : r.fields.skill_id ≡ j = ground (arith, e) in
      let kept : is_missing id names r ≡ false =
        and_middle (r.fields.skill_id == id) r.fields.enabled
          (not (any (str_eq r.fields.name) names)) (rw (whose, same, h)) in
      rw (kept, e)
  | inr e ↦
      rw (disable_if-key (is_missing id names r) j n r, e, disable_missing-find id j n names rows h)
]

-- no enabled row of the skill is unlisted
abbrev pub Listed : ℕ → List String → ScheduleRecord → Type 0
Listed id names r =
    r.fields.skill_id ≡ id → r.fields.enabled ≡ true → any (str_eq r.fields.name) names ≡ true

disable_if-Listed :
    (b : Bool) (id : ℕ) (names : List String) (r : ScheduleRecord)
    → is_missing id names r ≡ b
    → Listed id names (if b then disable r else r)
disable_if-Listed true id names r e = λ x y. absurd (cc)
disable_if-Listed false id names r e = λ x y. ground (arith, e, x, y)

disable_missing-Listed :
    (id : ℕ) (names : List String) (rows : List ScheduleRecord)
    → All (Listed id names) (disable_missing id names rows)
unfolding disable_missing
disable_missing-Listed id names [] = tt
disable_missing-Listed id names (r ∷ rows) = (
  disable_if-Listed (is_missing id names r) id names r refl,
  disable_missing-Listed id names rows,
)

abbrev pub Distinct : List ScheduleEntry → Type 0
Distinct [] = Unit
Distinct (e ∷ es) = (any (str_eq e.name) (names_of es) ≡ false) × Distinct es

put_schedule-other :
    (s : Source) (id j : ℕ) (n : String) (e : ScheduleEntry) (p : UpsertScheduleParams) (t : Tables)
    → From s.org_id id e p
    → ((id == j) && str_eq e.name n) ≡ false
    → find (has_key j n) (put_schedule s p t).schedules ≡ find (has_key j n) t.schedules
put_schedule-other s id j n e p t (turns, pause, next, same) h =
    upsert_into-other t.next_id s.now j n p t.schedules
      (ap (λ q. (q.skill_id == j) && str_eq q.name n) same ∙ h)

-- a key that no entry of the skill has
upsert_schedules-other :
    (s : Source) (id j : ℕ) (n : String) (f : Frontmatter) (es : List ScheduleEntry) (t v : Tables)
    → ((id == j) && any (str_eq n) (names_of es)) ≡ false
    → upsert_schedules s id f es t ≡ inr v
    → find (has_key j n) v.schedules ≡ find (has_key j n) t.schedules
unfolding upsert_schedules
upsert_schedules-other s id j n f [] t v h e = cc
upsert_schedules-other s id j n f (x ∷ es) t v h e =
    step (λ u k. upsert_schedules-other s id j n f es u v (ground (arith, h)) k)
      (schedule_params s.next_fire s.org_id id f x) refl e
  where
    step :
        ((u : Tables)
          → upsert_schedules s id f es u ≡ inr v
          → find (has_key j n) v.schedules ≡ find (has_key j n) u.schedules)
        → (o : SyncError ⊎ UpsertScheduleParams) → schedule_params s.next_fire s.org_id id f x ≡ o
        → then_do o (λ p. upsert_schedules s id f es (put_schedule s p t)) ≡ inr v
        → find (has_key j n) v.schedules ≡ find (has_key j n) t.schedules
    step later (inl y) q k = absurd (cc)
    step later (inr p) q k =
        later (put_schedule s p t) k
        ∙ put_schedule-other s id j n x p t (schedule_params-From s.next_fire s.org_id id f x p q)
            (ground (arith, h, eq_iff x.name n, eq_iff n x.name))

-- an entry has a row with its columns
abbrev pub Stored : Source → ℕ → Frontmatter → List ScheduleRecord → ScheduleEntry → Type 0
Stored s id f rows e =
    (p : UpsertScheduleParams) × (schedule_params s.next_fire s.org_id id f e ≡ inr p)
    × Holds id e.name p rows

put_schedule-Holds :
    (s : Source) (id : ℕ) (e : ScheduleEntry) (p : UpsertScheduleParams) (t : Tables)
    → From s.org_id id e p
    → Holds id e.name p (put_schedule s p t).schedules
put_schedule-Holds s id e p t (turns, pause, next, same) =
    subst (λ q. Holds q.skill_id q.name p (put_schedule s p t).schedules) same
      (upsert_into-Holds t.next_id s.now p t.schedules)

upsert_schedules-Stored :
    (s : Source) (id : ℕ) (f : Frontmatter) (es : List ScheduleEntry) (t v : Tables)
    → Distinct es
    → upsert_schedules s id f es t ≡ inr v
    → All (Stored s id f v.schedules) es
unfolding upsert_schedules
upsert_schedules-Stored s id f [] t v h e = tt
upsert_schedules-Stored s id f (x ∷ es) t v (fresh, h) e =
    step (λ u k. upsert_schedules-Stored s id f es u v h k)
      (schedule_params s.next_fire s.org_id id f x) refl e
  where
    step :
        ((u : Tables) → upsert_schedules s id f es u ≡ inr v → All (Stored s id f v.schedules) es)
        → (o : SyncError ⊎ UpsertScheduleParams) → schedule_params s.next_fire s.org_id id f x ≡ o
        → then_do o (λ p. upsert_schedules s id f es (put_schedule s p t)) ≡ inr v
        → All (Stored s id f v.schedules) (x ∷ es)
    step rest (inl y) q k = absurd (cc)
    step rest (inr p) q k =
        let (r, found, same) =
          put_schedule-Holds s id x p t (schedule_params-From s.next_fire s.org_id id f x p q) in
        let later : find (has_key id x.name) v.schedules
            ≡ find (has_key id x.name) (put_schedule s p t).schedules =
          upsert_schedules-other s id id x.name f es (put_schedule s p t) v (rw (==-refl id, fresh))
            k in
        ((p, q, (r, later ∙ found, same)), rest (put_schedule s p t) k)

-- what the names of the entries are for the entries
listed_name :
    (e : ScheduleEntry) (es : List ScheduleEntry) → any (str_eq e.name) (names_of (e ∷ es)) ≡ true
listed_name e es = ground (arith, eq_iff e.name e.name)

disable_missing-Stored :
    (s : Source) (id : ℕ) (f : Frontmatter) (names : List String) (rows : List ScheduleRecord)
    (es : List ScheduleEntry)
    → All (λ e. any (str_eq e.name) names ≡ true) es
    → All (Stored s id f rows) es
    → All (Stored s id f (disable_missing id names rows)) es
disable_missing-Stored s id f names rows [] l h = tt
disable_missing-Stored s id f names rows (e ∷ es) (x, l) ((p, q, (r, found, same)), h) = (
  (p, q, (r, disable_missing-find id id e.name names rows (rw (==-refl id, x)) ∙ found, same)),
  disable_missing-Stored s id f names rows es l h,
)

names_of-All :
    (es fs : List ScheduleEntry)
    → ((n : String) → any (str_eq n) (names_of es) ≡ true → any (str_eq n) (names_of fs) ≡ true)
    → All (λ e. any (str_eq e.name) (names_of fs) ≡ true) es
names_of-All [] fs h = tt
names_of-All (e ∷ es) fs h =
    (h e.name (listed_name e es), names_of-All es fs (λ n k. h n (ground (arith, k))))

-- If the schedules of a skill have different names, then a sync of the skill that succeeds leaves for
-- each of them a row with the columns that are computed from the manifest, except for the organization,
-- which a row that was there keeps; no row of the skill with another name is enabled; and the row of each key of another skill is what it was.
pub sync_skill-Stored :
    (s : Source) (id : ℕ) (f : Frontmatter) (es : List ScheduleEntry) (t v : Tables)
    → Distinct es
    → sync_skill s id f es t ≡ inr v
    → All (Stored s id f v.schedules) es
      × All (Listed id (names_of es)) v.schedules
      × ((j : ℕ) (n : String)
          → (j == id) ≡ false
          → find (has_key j n) v.schedules ≡ find (has_key j n) t.schedules)
unfolding sync_skill
sync_skill-Stored s id f es t v h e = step (upsert_schedules s id f es t) refl e
  where
    step :
        (o : SyncError ⊎ Tables)
        → upsert_schedules s id f es t ≡ o
        → then_do o
            (λ u. inr (record u { schedules = disable_missing id (names_of es) u.schedules }))
          ≡ inr v
        → All (Stored s id f v.schedules) es
          × All (Listed id (names_of es)) v.schedules
          × ((j : ℕ) (n : String)
              → (j == id) ≡ false
              → find (has_key j n) v.schedules ≡ find (has_key j n) t.schedules)
    step (inl y) q k = absurd (cc)
    step (inr u) q k =
        let same : v.schedules ≡ disable_missing id (names_of es) u.schedules = cc in
        (
          subst (λ rows. All (Stored s id f rows) es) (sym same)
              (disable_missing-Stored s id f (names_of es) u.schedules es
                (names_of-All es es (λ n l. l)) (upsert_schedules-Stored s id f es t u h q)),
          subst (λ rows. All (Listed id (names_of es)) rows) (sym same)
              (disable_missing-Listed id (names_of es) u.schedules),
          λ j n apart.
              ap (find (has_key j n)) same
              ∙ disable_missing-find id j n (names_of es) u.schedules (rw apart)
              ∙ upsert_schedules-other s id j n f es t u
                  (other_skill id j (any (str_eq n) (names_of es)) apart) q,
        )
