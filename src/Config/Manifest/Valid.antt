-- ===== src/Config/Manifest/Valid.antt =====
-- What a manifest that passes Validate is.
use cronfoundry.Prelude.{
  not, ◌≤◌, String, ◌≡◌, ◌≢◌, ◌⊎◌, refl, Bool, false, Option, none, some, List, [], ◌∷◌, ℤ, pos,
  negsuc, arith, str_eq, eq_iff, any, All,
}
use cronfoundry.Config.Manifest.{
  HttpDest, EmailDest, Destination, ScheduleEntry, SkillEntry, Manifest, Url, ConfigError, refuse,
  first_error, validate_http, validate_email, validate_destination, validate_destinations,
  valid_overlap, valid_when, bad_max_turns, bad_auto_pause, validate_fields, validate_schedules,
  validate_skills, validate, bad_scheme, no_host, is_empty, version_error, valid_method, is_blank,
  bad_port, valid_format,
}

-- a check that lets pass
refuse-none :
    (b : Bool) (e : ConfigError) (rest : Option ConfigError)
    → refuse b e rest ≡ none
    → (b ≡ false) × (rest ≡ none)
refuse-none b e rest h = ground arith

first_error-none : (a b : Option ConfigError) → first_error a b ≡ none → (a ≡ none) × (b ≡ none)
first_error-none none b h = (refl, h)
first_error-none (some e) b h = absurd (cc)

str_ne : (s t : String) → str_eq s t ≡ false → s ≢ t
str_ne s t h = ground (arith, eq_iff s t)

not_empty : (xs : List String) → is_empty xs ≡ false → xs ≢ []
not_empty [] h = absurd (cc)
not_empty (x ∷ xs) h = λ e. cc (e)

abbrev pub IsWhen : String → Type 0
IsWhen w = (w ≡ "") ⊎ (w ≡ "always") ⊎ (w ≡ "on_success") ⊎ (w ≡ "on_failure")

abbrev pub IsOverlap : String → Type 0
IsOverlap o = (o ≡ "") ⊎ (o ≡ "skip") ⊎ (o ≡ "queue") ⊎ (o ≡ "concurrent")

-- a URL with a scheme that the publisher speaks, and a host
abbrev pub IsHttpUrl : Option Url → Type 0
IsHttpUrl none = ⊥
IsHttpUrl (some u) = ((u.scheme ≡ "http") ⊎ (u.scheme ≡ "https")) × (u.host ≢ "")

abbrev pub IsMethod : String → Type 0
IsMethod m = (m ≡ "") ⊎ (m ≡ "GET") ⊎ (m ≡ "POST") ⊎ (m ≡ "PUT") ⊎ (m ≡ "PATCH") ⊎ (m ≡ "DELETE")

-- a port of SMTP, or 0 where none is set
abbrev pub IsPort : ℤ → Type 0
IsPort (pos n) = n ≤ 65535
IsPort (negsuc n) = ⊥

abbrev pub IsFormat : String → Type 0
IsFormat f = (f ≡ "") ⊎ (f ≡ "html") ⊎ (f ≡ "text")

abbrev pub IsValidHttp : (String → Option Url) → Option HttpDest → Type 0
IsValidHttp parse none = Unit
IsValidHttp parse (some h) = (h.url ≢ "") × IsHttpUrl (parse h.url) × IsMethod h.method

abbrev pub IsValidEmail : Option EmailDest → Type 0
IsValidEmail none = Unit
IsValidEmail (some e) =
    (e.smtp_host ≢ "")
    × (e.username_secret ≢ "")
    × (e.password_secret ≢ "")
    × (e.from ≢ "")
    × (e.to ≢ [])
    × All (λ t. is_blank t ≡ false) e.to
    × IsPort e.smtp_port
    × IsFormat e.format

abbrev pub IsValidDestination : (String → Option Url) → Destination → Type 0
IsValidDestination parse d = IsWhen d.when × IsValidHttp parse d.http × IsValidEmail d.email

abbrev pub InRange : ℤ → Type 0
InRange (pos n) = n ≤ 2147483647
InRange (negsuc n) = ⊥

abbrev pub IsThreshold : Option ℤ → Type 0
IsThreshold none = Unit
IsThreshold (some (pos n)) = 1 ≤ n
IsThreshold (some (negsuc n)) = ⊥

pub record IsValidSchedule (parse : String → Option Url) (s : ScheduleEntry) : Type 0 where
  pub cron_set : s.cron ≢ ""
  pub provider_set : s.provider ≢ ""
  pub model_set : s.model ≢ ""
  pub prefix_set : s.provider ≡ "copilot-enterprise" → s.copilot_prefix ≢ ""
  pub turns_fit : InRange s.max_turns
  pub overlap_known : IsOverlap s.overlap_policy
  pub threshold_fits : IsThreshold s.auto_pause
  pub destinations_valid : All (IsValidDestination parse) s.destinations

-- The names are set, and none stands in `seen` or twice.
abbrev pub AreFresh : List String → List String → Type 0
AreFresh seen [] = Unit
AreFresh seen (n ∷ ns) = (n ≢ "") × All (λ m. n ≢ m) seen × AreFresh (n ∷ seen) ns

abbrev pub names : List ScheduleEntry → List String
names [] = []
names (s ∷ ss) = s.name ∷ names ss

abbrev pub paths : List SkillEntry → List String
paths [] = []
paths (k ∷ ks) = k.path ∷ paths ks

abbrev pub IsValidSkill : (String → Option Url) → SkillEntry → Type 0
IsValidSkill parse k = AreFresh [] (names k.schedules) × All (IsValidSchedule parse) k.schedules

pub record IsValidManifest (parse : String → Option Url) (m : Manifest) : Type 0 where
  pub version_one : m.version ≡ pos 1
  pub paths_fresh : AreFresh [] (paths m.skills)
  pub skills_valid : All (IsValidSkill parse) m.skills

module _ (parse : String → Option Url) where
  IsMethod-intro : (m : String) → not (valid_method m) ≡ false → IsMethod m
  unfolding valid_method
  IsMethod-intro m h = ground (
    arith,
    eq_iff m "",
    eq_iff m "GET",
    eq_iff m "POST",
    eq_iff m "PUT",
    eq_iff m "PATCH",
    eq_iff m "DELETE",
  )

  none_blank : (ts : List String) → any is_blank ts ≡ false → All (λ t. is_blank t ≡ false) ts
  none_blank [] h = tt
  none_blank (t ∷ ts) h = (ground arith, none_blank ts (ground arith))

  IsPort-intro : (z : ℤ) → bad_port z ≡ false → IsPort z
  unfolding bad_port
  IsPort-intro (pos n) h = ground arith
  IsPort-intro (negsuc n) h = absurd (cc)

  IsFormat-intro : (f : String) → not (valid_format f) ≡ false → IsFormat f
  unfolding valid_format
  IsFormat-intro f h = ground (arith, eq_iff f "", eq_iff f "html", eq_iff f "text")

  http-valid : (o : Option HttpDest) → validate_http parse o ≡ none → IsValidHttp parse o
  unfolding validate_http
  http-valid none h = tt
  http-valid (some d) h =
      let (a, h') = refuse-none _ _ _ h in
      let (b, h'') = refuse-none _ _ _ h' in
      let (c, h₃) = refuse-none _ _ _ h'' in
      let (m, _) = refuse-none _ _ _ h₃ in
      (str_ne d.url "" a, url-valid (parse d.url) b c, IsMethod-intro d.method m)
    where
      url-valid : (o : Option Url) → bad_scheme o ≡ false → no_host o ≡ false → IsHttpUrl o
      url-valid none b c = absurd (cc)
      url-valid (some u) b c =
          (ground (arith, eq_iff u.scheme "http", eq_iff u.scheme "https"), str_ne u.host "" c)

  email-valid : (o : Option EmailDest) → validate_email o ≡ none → IsValidEmail o
  unfolding validate_email
  email-valid none h = tt
  email-valid (some e) h =
      let (a, h₁) = refuse-none _ _ _ h in
      let (b, h₂) = refuse-none _ _ _ h₁ in
      let (c, h₃) = refuse-none _ _ _ h₂ in
      let (d, h₄) = refuse-none _ _ _ h₃ in
      let (f, h₅) = refuse-none _ _ _ h₄ in
      let (k, h₆) = refuse-none _ _ _ h₅ in
      let (p, h₇) = refuse-none _ _ _ h₆ in
      let (q, _) = refuse-none _ _ _ h₇ in
      (
        str_ne _ _ a,
        str_ne _ _ b,
        str_ne _ _ c,
        str_ne _ _ d,
        not_empty e.to f,
        none_blank e.to k,
        IsPort-intro e.smtp_port p,
        IsFormat-intro e.format q,
      )

  destination-valid :
      (d : Destination) → validate_destination parse d ≡ none → IsValidDestination parse d
  unfolding validate_destination valid_when
  destination-valid d h =
      let (a, h') = refuse-none _ _ _ h in
      let (b, c) = first_error-none _ _ h' in
      (
        ground (
          arith,
          eq_iff d.when "",
          eq_iff d.when "always",
          eq_iff d.when "on_success",
          eq_iff d.when "on_failure",
        ),
        http-valid d.http b,
        email-valid d.email c,
      )

  destinations-valid :
      (ds : List Destination)
      → validate_destinations parse ds ≡ none
      → All (IsValidDestination parse) ds
  unfolding validate_destinations
  destinations-valid [] h = tt
  destinations-valid (d ∷ ds) h =
      let (a, b) = first_error-none _ _ h in (destination-valid d a, destinations-valid ds b)

  turns-fit : (z : ℤ) → bad_max_turns z ≡ false → InRange z
  unfolding bad_max_turns
  turns-fit (pos n) h = ground arith
  turns-fit (negsuc n) h = absurd (cc)

  IsThreshold-intro : (o : Option ℤ) → bad_auto_pause o ≡ false → IsThreshold o
  unfolding bad_auto_pause
  IsThreshold-intro none h = tt
  IsThreshold-intro (some (pos n)) h = ground arith
  IsThreshold-intro (some (negsuc n)) h = absurd (cc)

  fields-valid : (s : ScheduleEntry) → validate_fields parse s ≡ none → IsValidSchedule parse s
  unfolding validate_fields valid_overlap
  fields-valid s h =
      let (a, h₁) = refuse-none _ _ _ h in
      let (b, h₂) = refuse-none _ _ _ h₁ in
      let (c, h₃) = refuse-none _ _ _ h₂ in
      let (d, h₄) = refuse-none _ _ _ h₃ in
      let (e, h₅) = refuse-none _ _ _ h₄ in
      let (f, h₆) = refuse-none _ _ _ h₅ in
      let (g, h₇) = refuse-none _ _ _ h₆ in
      record {
        cron_set = str_ne _ _ a;
        provider_set = str_ne _ _ b;
        model_set = str_ne _ _ c;
        prefix_set = λ p q.
            ground (arith, eq_iff s.provider "copilot-enterprise", eq_iff s.copilot_prefix "");
        turns_fit = turns-fit s.max_turns e;
        overlap_known = ground (
          arith,
          eq_iff s.overlap_policy "",
          eq_iff s.overlap_policy "skip",
          eq_iff s.overlap_policy "queue",
          eq_iff s.overlap_policy "concurrent",
        );
        threshold_fits = IsThreshold-intro s.auto_pause g;
        destinations_valid = destinations-valid s.destinations h₇;
      }

  not_seen : (n : String) (seen : List String) → any (str_eq n) seen ≡ false → All (λ m. n ≢ m) seen
  not_seen n [] h = tt
  not_seen n (m ∷ seen) h = (str_ne n m (ground arith), not_seen n seen (ground arith))

  schedules-valid :
      (seen : List String) (ss : List ScheduleEntry)
      → validate_schedules parse seen ss ≡ none
      → AreFresh seen (names ss) × All (IsValidSchedule parse) ss
  unfolding validate_schedules
  schedules-valid seen [] h = (tt, tt)
  schedules-valid seen (s ∷ ss) h =
      let (a, h₁) = refuse-none _ _ _ h in
      let (b, h₂) = refuse-none _ _ _ h₁ in
      let (c, d) = first_error-none _ _ h₂ in
      let (fresh, valid) = schedules-valid (s.name ∷ seen) ss d in
      ((str_ne s.name "" a, not_seen s.name seen b, fresh), (fields-valid s c, valid))

  skills-valid :
      (seen : List String) (ks : List SkillEntry)
      → validate_skills parse seen ks ≡ none
      → AreFresh seen (paths ks) × All (IsValidSkill parse) ks
  unfolding validate_skills
  skills-valid seen [] h = (tt, tt)
  skills-valid seen (k ∷ ks) h =
      let (a, h₁) = refuse-none _ _ _ h in
      let (b, h₂) = refuse-none _ _ _ h₁ in
      let (c, d) = first_error-none _ _ h₂ in
      let (fresh, valid) = skills-valid (k.path ∷ seen) ks d in
      (
        (str_ne k.path "" a, not_seen k.path seen b, fresh),
        (schedules-valid [] k.schedules c, valid),
      )

  version-valid :
      (v : ℤ) (r : Option ConfigError) → version_error v r ≡ none → (v ≡ pos 1) × (r ≡ none)
  version-valid (pos n) r h = ground arith
  version-valid (negsuc n) r h = absurd (cc)

-- A manifest that Validate accepts has version 1, skill paths that are set and pairwise different,
-- in each skill schedule names that are set and pairwise different, and schedules whose cron,
-- provider and model are set, whose `max_turns` fits an int32, whose overlap policy is known, whose
-- auto-pause threshold is at least 1, whose copilot prefix is set where the provider needs one, and
-- whose destinations have a known `when`. A destination for http has a URL with a host and a scheme
-- that is http or https, and a known method, if any; one for e-mail has a host, two secrets, a sender
-- and recipients, none of which is blank, a port of at most 65535, and a known format, if any.
pub validate-IsValidManifest :
    (parse : String → Option Url) (m : Manifest) → validate parse m ≡ none → IsValidManifest parse m
unfolding validate
validate-IsValidManifest parse m h =
    let (v, r) = version-valid parse m.version _ h in
    let (fresh, valid) = skills-valid parse [] m.skills r in
    record { version_one = v; paths_fresh = fresh; skills_valid = valid }
