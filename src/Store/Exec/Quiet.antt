-- ===== src/Store/Exec/Quiet.antt =====
-- Runs in which the coming calls of the database succeed: each step is an equation.
use cronfoundry.Prelude.{◌≡◌, refl, ap, ◌∙◌, Option, some, false, List, [], ◌∷◌}
use cronfoundry.Store.Rows.{World, Call}
use cronfoundry.Store.Exec.{M, ok, ◌>>=◌, call, statement, answer, run_statement}

pub bind_ok :
    {E A B : Type 0} (m : M E A) (f : A → M E B) (w w' : World) (a : A)
    → m w ≡ (ok a, w')
    → (m >>= f) w ≡ f a w'
unfolding ◌>>=◌
bind_ok m f w w' a h = rw h

answer_nil : (w : World) (cs : List Call) → cs ≡ [] → answer w cs ≡ (w, false)
answer_nil w [] h = refl
answer_nil w (c ∷ cs) h = cc

pub call_quiet : (w : World) → w.script ≡ [] → call w ≡ (w, false)
unfolding call
call_quiet w s = answer_nil w w.script s

run_statement_ok :
    {E A : Type 0} (e : E) (f : World → Option (A × World)) (w w' : World) (a : A)
    → f w ≡ some (a, w')
    → run_statement e f w false ≡ (ok a, w')
run_statement_ok e f w w' a h = rw (h, run_statement)

pub statement_ok :
    {E A : Type 0} (e : E) (f : World → Option (A × World)) (w w' : World) (a : A)
    → w.script ≡ []
    → f w ≡ some (a, w')
    → statement e f w ≡ (ok a, w')
unfolding statement
statement_ok e f w w' a s h =
    ap (λ c. run_statement e f c.0 c.1) (call_quiet w s) ∙ run_statement_ok e f w w' a h
