-- ===== src/Webapi/Schedules/Switched.antt =====
-- internal/webapi/schedules.go: pause and resume.
use cronfoundry.Prelude.{
  ◌⊎◌, ℕ, ◌<◌, ◌≡◌, Bool, true, false, none, List, [], ◌∷◌, select, length, not,
}
use cronfoundry.Store.Rows.{World, Schedule}
use cronfoundry.Store.Schedules.{in_org}

-- a schedule before and after it is resumed at `t`, or paused: no other column changes
abbrev pub HasSwitched : ℕ → Bool → Schedule → Schedule → Type 0
HasSwitched t true s x =
    (((s.enabled ≡ true) × (x.last_enabled_at ≡ s.last_enabled_at))
      ⊎ ((s.enabled ≡ false) × (x.last_enabled_at ≡ t)))
    × (x ≡ record s {
      enabled = true;
      auto_paused_at = none;
      auto_pause_reason = none;
      last_enabled_at = x.last_enabled_at;
    })
HasSwitched t false s x = x ≡ record s { enabled = false }

-- row by row
abbrev pub HaveSwitched : ℕ → Bool → List Schedule → List Schedule → Type 0
HaveSwitched t on [] [] = Unit
HaveSwitched t on [] (x ∷ xs) = ⊥
HaveSwitched t on (s ∷ ss) [] = ⊥
HaveSwitched t on (s ∷ ss) (x ∷ xs) = HasSwitched t on s x × HaveSwitched t on ss xs

-- The rows of the schedule after the switch at the time `t`, and all others.
abbrev pub Switched : ℕ → ℕ → ℕ → Bool → World → World → Type 0
Switched i org t on w u =
    (0 < length (select (in_org i org) w.schedules))
    × HaveSwitched t on (select (in_org i org) w.schedules) (select (in_org i org) u.schedules)
    × (select (λ s. not (in_org i org s)) u.schedules
        ≡ select (λ s. not (in_org i org s)) w.schedules)
