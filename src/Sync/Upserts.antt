-- ===== src/Sync/Upserts.antt =====
-- internal/sync/upsert.go: the schedules of a skill after a sync.
use mathlib.Core.Path.{subst}
use cronfoundry.Prelude.{
  ◌≢◌, ℕ, ◌≡◌, refl, String, Bool, true, false, ◌&&◌, Option, none, some, List, [], ◌∷◌, find, ◌==◌,
  str_eq, eq_iff, arith, if◌then◌else◌, ◌⊎◌, inl, inr, Bool-cases, ℤ,
}
use cronfoundry.Config.Manifest.{ScheduleEntry}
use cronfoundry.Config.Skill.{Frontmatter}
use cronfoundry.Sync.{
  UpsertScheduleParams, ScheduleRecord, SyncError, params_with, then_fire, then_pause, then_turns,
  unless, check_servers, max_turns_column, auto_pause_column, timezone_of, schedule_params,
}
use cronfoundry.Sync.Reconcile.{has_key, updated, inserted, is_none, upsert_into, rearms}

-- the columns that a schedule of the manifest gets
abbrev pub From : ℕ → ℕ → ScheduleEntry → UpsertScheduleParams → Type 0
From org_id skill_id s p =
    (turns : Option ℤ) × (pause : Option ℤ) × (next : ℕ) × (p
      ≡ params_with org_id skill_id s turns pause next)

then_fire-From :
    (org_id skill_id : ℕ) (s : ScheduleEntry) (turns pause : Option ℤ) (next : Option ℕ)
    (p : UpsertScheduleParams)
    → then_fire org_id skill_id s turns pause next ≡ inr p
    → From org_id skill_id s p
then_fire-From org_id skill_id s turns pause none p h = absurd (cc)
then_fire-From org_id skill_id s turns pause (some n) p h = (turns, pause, n, cc)

then_pause-From :
    (org_id skill_id : ℕ) (s : ScheduleEntry) (turns : Option ℤ) (pause : SyncError ⊎ Option ℤ)
    (next : Option ℕ) (p : UpsertScheduleParams)
    → then_pause org_id skill_id s turns pause next ≡ inr p
    → From org_id skill_id s p
then_pause-From org_id skill_id s turns (inl e) next p h = absurd (cc)
then_pause-From org_id skill_id s turns (inr pause) next p h =
    then_fire-From org_id skill_id s turns pause next p h

then_turns-From :
    (org_id skill_id : ℕ) (s : ScheduleEntry) (turns : SyncError ⊎ Option ℤ) (next : Option ℕ)
    (p : UpsertScheduleParams)
    → then_turns org_id skill_id s turns next ≡ inr p
    → From org_id skill_id s p
then_turns-From org_id skill_id s (inl e) next p h = absurd (cc)
then_turns-From org_id skill_id s (inr turns) next p h =
    then_pause-From org_id skill_id s turns (auto_pause_column s.auto_pause) next p h

unless-From :
    (org_id skill_id : ℕ) (s : ScheduleEntry) (o : Option SyncError) (turns : SyncError ⊎ Option ℤ)
    (next : Option ℕ) (p : UpsertScheduleParams)
    → unless o (then_turns org_id skill_id s turns next) ≡ inr p
    → From org_id skill_id s p
unless-From org_id skill_id s none turns next p h = then_turns-From org_id skill_id s turns next p h
unless-From org_id skill_id s (some e) turns next p h = absurd (cc)

pub schedule_params-From :
    (next_fire : String → String → Option ℕ) (org_id skill_id : ℕ) (f : Frontmatter)
    (s : ScheduleEntry) (p : UpsertScheduleParams)
    → schedule_params next_fire org_id skill_id f s ≡ inr p
    → From org_id skill_id s p
unfolding schedule_params
schedule_params-From next_fire org_id skill_id f s p h =
    unless-From org_id skill_id s (check_servers f.mcp_servers s.provider s.mcp_env)
      (max_turns_column s.max_turns) (next_fire s.cron (timezone_of s)) p h

-- the row has these columns, and an organization that may be another
abbrev pub HasColumns : UpsertScheduleParams → ScheduleRecord → Type 0
HasColumns p r = r.fields ≡ record p { org_id = r.fields.org_id }

-- the row of a key has these columns
abbrev pub Holds : ℕ → String → UpsertScheduleParams → List ScheduleRecord → Type 0
Holds skill_id name p rows =
    (r : ScheduleRecord) × (find (has_key skill_id name) rows ≡ some r) × HasColumns p r

own_key : (r : ScheduleRecord) → has_key r.fields.skill_id r.fields.name r ≡ true
own_key r = ground (arith, eq_iff r.fields.name r.fields.name)

pub upsert_into-Holds :
    (id now : ℕ) (p : UpsertScheduleParams) (rows : List ScheduleRecord)
    → Holds p.skill_id p.name p (upsert_into id now p rows)
unfolding upsert_into updated
upsert_into-Holds id now p [] = (inserted id now p, rw (own_key (inserted id now p)), refl)
upsert_into-Holds id now p (r ∷ rows) = elim (Bool-cases (has_key p.skill_id p.name r)) [
  | inl e ↦ (updated r p, rw (e, own_key (updated r p)), refl)
  | inr e ↦ let (x, found, same) = upsert_into-Holds id now p rows in (x, rw (e, e, found), same)
]

-- two keys differ
abbrev pub Apart : ℕ → String → UpsertScheduleParams → Type 0
Apart j n p = ((p.skill_id == j) && str_eq p.name n) ≡ false

pub upsert_into-other :
    (id now j : ℕ) (n : String) (p : UpsertScheduleParams) (rows : List ScheduleRecord)
    → Apart j n p
    → find (has_key j n) (upsert_into id now p rows) ≡ find (has_key j n) rows
unfolding upsert_into updated
upsert_into-other id now j n p [] h = rw h
upsert_into-other id now j n p (r ∷ rows) h = elim (Bool-cases (has_key p.skill_id p.name r)) [
  | inl e ↦
      let other : has_key j n r ≡ false =
        ground
          (arith, e, h, eq_iff r.fields.name p.name, eq_iff r.fields.name n, eq_iff p.name n) in
      rw (e, h, other)
  | inr e ↦ rw (e, upsert_into-other id now j n p rows h)
]

-- a row that has a fire time, is enabled, and has the cron expression and the time zone of the update
abbrev pub IsArmed : ScheduleRecord → UpsertScheduleParams → Type 0
IsArmed r p =
    (r.next_fire_at ≢ none)
    × (r.fields.enabled ≡ true)
    × (r.fields.cron ≡ p.cron)
    × (r.fields.timezone ≡ p.timezone)

-- a row of which one of these does not hold
abbrev pub IsStale : ScheduleRecord → UpsertScheduleParams → Type 0
IsStale r p =
    (r.next_fire_at ≡ none)
    ⊎ (r.fields.enabled ≡ false)
    ⊎ (r.fields.cron ≢ p.cron)
    ⊎ (r.fields.timezone ≢ p.timezone)

is_none-true : (o : Option ℕ) → is_none o ≡ true → o ≡ none
is_none-true none h = refl
is_none-true (some n) h = absurd (cc)

is_none-false : (o : Option ℕ) → is_none o ≡ false → o ≢ none
is_none-false none h = absurd (cc)
is_none-false (some n) h = λ e. cc (e)

armed : (r : ScheduleRecord) (p : UpsertScheduleParams) → rearms r p ≡ false → IsArmed r p
armed r p h = (
  is_none-false r.next_fire_at (ground (arith, h)),
  ground (arith, h),
  ground (arith, h, eq_iff r.fields.cron p.cron),
  ground (arith, h, eq_iff r.fields.timezone p.timezone),
)

differs : (s t : String) → str_eq s t ≡ false → s ≢ t
differs s t h = ground (arith, eq_iff s t)

stale : (r : ScheduleRecord) (p : UpsertScheduleParams) → rearms r p ≡ true → IsStale r p
stale r p h = elim (Bool-cases (is_none r.next_fire_at)) [
  | inl e ↦ inl (is_none-true r.next_fire_at e)
  | inr e ↦ elim (Bool-cases r.fields.enabled) [
    | inr f ↦ inr (inl f)
    | inl f ↦ elim (Bool-cases (str_eq r.fields.cron p.cron)) [
      | inr g ↦ inr (inr (inl (differs _ _ g)))
      | inl g ↦ inr (inr (inr (differs _ _ (ground (arith, h, e, f, g)))))
    ]
  ]
]

-- what an upsert makes of a row that was there
abbrev pub Kept : ScheduleRecord → UpsertScheduleParams → ScheduleRecord → Type 0
Kept r p x =
    (x.id ≡ r.id)
    × (x.fields ≡ record p { org_id = r.fields.org_id })
    × (x.auto_paused_at ≡ r.auto_paused_at)
    × (x.auto_pause_reason ≡ r.auto_pause_reason)
    × (x.last_enabled_at ≡ r.last_enabled_at)
    × ((IsArmed r p × (x.next_fire_at ≡ r.next_fire_at))
        ⊎ (IsStale r p × (x.next_fire_at ≡ some p.next_fire_at)))

updated-Kept : (r : ScheduleRecord) (p : UpsertScheduleParams) → Kept r p (updated r p)
unfolding updated
updated-Kept r p = (
  refl,
  refl,
  refl,
  refl,
  refl,
  elim (Bool-cases (rearms r p)) [
    | inl e ↦ rw e (inr (stale r p e, refl))
    | inr e ↦ rw e (inl (armed r p e, refl))
  ],
)

own_updated :
    (y : ScheduleRecord) (p : UpsertScheduleParams) (rows : List ScheduleRecord)
    → find (has_key p.skill_id p.name) (updated y p ∷ rows) ≡ some (updated y p)
unfolding updated
own_updated y p rows = rw (own_key (updated y p))

same_row : (y r : ScheduleRecord) → some y ≡ some r → y ≡ r
same_row y r h = cc

-- A schedule that is in the table keeps its row and its organization and takes the other columns of
-- the manifest. It keeps its fire time if it has one, is enabled and has the same cron expression and
-- time zone, and gets the new one otherwise; but the mark and the reason of an automatic
-- pause and the time when it was last enabled stay too, whether it was paused or not.
pub upsert_into-Kept :
    (id now : ℕ) (p : UpsertScheduleParams) (r : ScheduleRecord) (rows : List ScheduleRecord)
    → find (has_key p.skill_id p.name) rows ≡ some r
    → (x : ScheduleRecord) × (find (has_key p.skill_id p.name) (upsert_into id now p rows) ≡ some x)
      × Kept r p x
unfolding upsert_into
upsert_into-Kept id now p r [] h = absurd (cc)
upsert_into-Kept id now p r (y ∷ rows) h =
    step (upsert_into-Kept id now p r rows) (has_key p.skill_id p.name y) refl h
  where
    step :
        (find (has_key p.skill_id p.name) rows ≡ some r
          → (x : ScheduleRecord) × (find (has_key p.skill_id p.name) (upsert_into id now p rows)
              ≡ some x)
            × Kept r p x)
        → (b : Bool) → has_key p.skill_id p.name y ≡ b
        → (if b then some y else find (has_key p.skill_id p.name) rows) ≡ some r
        → (x : ScheduleRecord) × (find
              (has_key p.skill_id p.name)
              (if b then updated y p ∷ rows else y ∷ upsert_into id now p rows)
            ≡ some x)
          × Kept r p x
    step rest true e k = (
      updated y p,
      own_updated y p rows,
      subst (λ z. Kept z p (updated y p)) (same_row y r k) (updated-Kept y p),
    )
    step rest false e k = let (x, found, kept) = rest k in (x, rw (e, found), kept)
