-- ===== src/Webapi/Response/Loaded.antt =====
-- internal/webapi: what the first calls of the handlers return.
use cronfoundry.Prelude.{ℕ, ◌≡◌, sym, ap, ◌∙◌, Option, none, some, head?}
use cronfoundry.Store.Rows.{World, Tables}
use cronfoundry.Store.Exec.{ok, statement, call}
use cronfoundry.Store.Exec.Atomic.{call-tables}
use cronfoundry.Store.Exec.Inversion.{read-ok, statement-ok}
use cronfoundry.Store.Users.{first_org, with_org}
use cronfoundry.Webapi.Response.{Fault, load_org}

with_org-some :
    (o : Option ℕ) (w v : World) (org : ℕ) → with_org w o ≡ some (org, v) → (o ≡ some org) × (w ≡ v)
with_org-some none w v org h = absurd (cc)
with_org-some (some b) w v org h = (cc (h), cc (h))

-- the oldest organization, and nothing changes
pub load_org-ok :
    (w : World) (org : ℕ)
    → (load_org w).0 ≡ ok org
    → (head? w.orgs ≡ some org) × ((load_org w).1.tables ≡ w.tables)
unfolding load_org first_org
load_org-ok w org h =
    let e = statement-ok Fault.internal first_org w org h in
    let (f, g) = with_org-some (head? (call w).0.orgs) (call w).0 (load_org w).1 org e in
    (ap (λ t. head? t.orgs) (sym (call-tables w)) ∙ f, sym (ap (λ v. v.tables) g) ∙ call-tables w)

-- a statement that reads the tables
pub read_tables-ok :
    {A : Type 0} (f : Tables → A) (w : World) (a : A)
    → (statement Fault.internal (λ v. some (f v.tables, v)) w).0 ≡ ok a
    → (a ≡ f w.tables)
      × ((statement Fault.internal (λ v. some (f v.tables, v)) w).1.tables ≡ w.tables)
read_tables-ok f w a h =
    let (e, s) = read-ok Fault.internal (λ v. f v.tables) w a h in
    (e ∙ ap f (call-tables w), ap (λ v. v.tables) s ∙ call-tables w)

-- what a statement's function gives back
pub landed-eq :
    {A : Type 0} (a b : A) (v u : World)
    → ◌≡◌ {A = Option (A × World)} (some (a, v)) (some (b, u))
    → (a ≡ b) × (v.tables ≡ u.tables)
landed-eq a b v u h = let e : v ≡ u = cc (h) in (cc (h), ap (λ x. x.tables) e)
