-- ===== src/Config/Manifest/Lookup.antt =====
-- FindSchedule on a manifest that passed Validate.
use mathlib.Core.List.{Memᴰ}
use cronfoundry.Prelude.{
  String, ◌≡◌, ◌≢◌, refl, ap, Option, none, some, List, [], ◌∷◌, arith, eq_iff, All,
}
use cronfoundry.Config.Manifest.{
  ScheduleEntry, SkillEntry, Manifest, Url, find_in, find_schedule, validate,
}
use cronfoundry.Config.Manifest.Valid.{
  AreFresh, names, paths, IsValidSkill, validate-IsValidManifest,
}

All-Mem : {A : Type 0} (P : A → Type 0) (x : A) (xs : List A) → Memᴰ x xs → All P xs → P x
All-Mem P x [] m h = elim m [ ]
All-Mem P x (y ∷ ys) (Memᴰ.head e) (h, hs) = rw e h
All-Mem P x (y ∷ ys) (Memᴰ.tail m) (h, hs) = All-Mem P x ys m hs

differs :
    (n m : String) (seen ns : List String) → Memᴰ n ns → Memᴰ m seen → AreFresh seen ns → n ≢ m
differs n m seen [] i j h = elim i [ ]
differs n m seen (x ∷ ns) (Memᴰ.head e) j (a, b, c) = rw e (All-Mem (λ y. x ≢ y) m seen j b)
differs n m seen (x ∷ ns) (Memᴰ.tail i) j (a, b, c) = differs n m (x ∷ seen) ns i (Memᴰ.tail j) c

mem-names : (s : ScheduleEntry) (ss : List ScheduleEntry) → Memᴰ s ss → Memᴰ s.name (names ss)
mem-names s [] m = elim m [ ]
mem-names s (x ∷ ss) (Memᴰ.head e) = Memᴰ.head (ap (λ y. y.name) e)
mem-names s (x ∷ ss) (Memᴰ.tail m) = Memᴰ.tail (mem-names s ss m)

mem-paths : (k : SkillEntry) (ks : List SkillEntry) → Memᴰ k ks → Memᴰ k.path (paths ks)
mem-paths k [] m = elim m [ ]
mem-paths k (x ∷ ks) (Memᴰ.head e) = Memᴰ.head (ap (λ y. y.path) e)
mem-paths k (x ∷ ks) (Memᴰ.tail m) = Memᴰ.tail (mem-paths k ks m)

find_in-mem :
    (s : ScheduleEntry) (seen : List String) (ss : List ScheduleEntry)
    → Memᴰ s ss
    → AreFresh seen (names ss)
    → find_in s.name ss ≡ some s
unfolding find_in
find_in-mem s seen [] m h = elim m [ ]
find_in-mem s seen (x ∷ ss) (Memᴰ.head e) h = rw (← e, (eq_iff s.name s.name).1 refl)
find_in-mem s seen (x ∷ ss) (Memᴰ.tail m) (a, b, c) = ground (
  arith,
  eq_iff x.name s.name,
  find_in-mem s (x.name ∷ seen) ss m c,
  differs s.name x.name (x.name ∷ seen) (names ss) (mem-names s ss m) (Memᴰ.head refl) c,
)

find_schedule-mem :
    (k : SkillEntry) (s : ScheduleEntry) (seen : List String) (ks : List SkillEntry)
    → Memᴰ k ks
    → AreFresh seen (paths ks)
    → find_in s.name k.schedules ≡ some s
    → find_schedule k.path s.name ks ≡ some (k, s)
unfolding find_schedule
find_schedule-mem k s seen [] m h f = elim m [ ]
find_schedule-mem k s seen (x ∷ ks) (Memᴰ.head e) h f = rw (← e, (eq_iff k.path k.path).1 refl, f)
find_schedule-mem k s seen (x ∷ ks) (Memᴰ.tail m) (a, b, c) f = ground (
  arith,
  eq_iff x.path k.path,
  find_schedule-mem k s (x.path ∷ seen) ks m c f,
  differs k.path x.path (x.path ∷ seen) (paths ks) (mem-paths k ks m) (Memᴰ.head refl) c,
)

-- In a manifest that Validate accepts every schedule of every skill is found by the skill's path
-- and its own name, so no other entry hides it.
pub find_schedule_complete :
    (parse : String → Option Url) (m : Manifest) (k : SkillEntry) (s : ScheduleEntry)
    → validate parse m ≡ none
    → Memᴰ k m.skills
    → Memᴰ s k.schedules
    → find_schedule k.path s.name m.skills ≡ some (k, s)
find_schedule_complete parse m k s h i j =
    let v = validate-IsValidManifest parse m h in
    let g = All-Mem (IsValidSkill parse) k m.skills i v.skills_valid in
    find_schedule-mem k s [] m.skills i v.paths_fresh (find_in-mem s [] k.schedules j g.0)
