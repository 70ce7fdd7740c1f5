-- ===== src/Webapi/Schedules/Overrides.antt =====
-- internal/webapi/schedules.go: what an override changes.
use cronfoundry.Prelude.{not, ℕ, ◌<◌, ◌≡◌, some, map, All, select, length}
use cronfoundry.Store.Rows.{World, Schedule, UiOverrides, no_overrides}
use cronfoundry.Store.Schedules.{in_org, is_due}

-- a schedule without its overrides: all that the scheduler reads of it
abbrev pub erase : Schedule → Schedule
erase s = record s { ui_overrides_json = some no_overrides }

-- the schedules that the request names carry the overrides and have no other column changed, the others
-- are as they were, and a tick at `t` reads the same
abbrev pub Overridden : ℕ → ℕ → UiOverrides → ℕ → World → World → Type 0
Overridden i org o t w u =
    (0 < length (select (in_org i org) u.schedules))
    × All (λ s. s.ui_overrides_json ≡ some o) (select (in_org i org) u.schedules)
    × (map erase u.schedules ≡ map erase w.schedules)
    × (select (λ s. not (in_org i org s)) u.schedules
        ≡ select (λ s. not (in_org i org s)) w.schedules)
    × (map erase (select (is_due t) u.schedules) ≡ map erase (select (is_due t) w.schedules))
