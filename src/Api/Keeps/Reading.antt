-- ===== src/Api/Keeps/Reading.antt =====
-- internal/api/run_context.go and clone_url.go: conditions under requests that only read.
use cronfoundry.Prelude.{ℕ, String, Option, none, some, ◌==◌}
use cronfoundry.Store.Rows.{RepoRow}
use cronfoundry.Store.Exec.Keeps.{
  Cond, Keeps, Ensures-bind, Keeps-pure, Keeps-raise, Keeps-statement, Keeps-if,
}
use cronfoundry.Api.RunContext.{
  ContextRow, found_context, load_context, context_handler, minted, mint_url, scoped_url,
  clone_url_handler,
}

module _ (P : Cond) where
  found_context-Keeps : (row : Option ContextRow) → Keeps P (found_context row)
  unfolding found_context
  found_context-Keeps none = Keeps-raise _
  found_context-Keeps (some c) = Keeps-pure _

  load_context-Keeps : (i : ℕ) → Keeps P (load_context i)
  unfolding load_context
  load_context-Keeps i = Ensures-bind _ _ (Keeps-statement _ _ (λ w p. p)) found_context-Keeps

  pub context_handler-Keeps : (claimed : ℕ) (url : Option ℕ) → Keeps P (context_handler claimed url)
  unfolding context_handler
  context_handler-Keeps claimed none = Keeps-raise _
  context_handler-Keeps claimed (some i) =
      Keeps-if (claimed == i) (load_context-Keeps i) (Keeps-raise _)

  module _ (token : ℕ → Option String) where
    minted-Keeps : (c : RepoRow) (t : Option String) → Keeps P (minted c t)
    minted-Keeps c none = Keeps-raise _
    minted-Keeps c (some t) = Keeps-pure _

    mint_url-Keeps : (row : Option RepoRow) → Keeps P (mint_url token row)
    unfolding mint_url
    mint_url-Keeps none = Keeps-raise _
    mint_url-Keeps (some c) = minted-Keeps c (token c.github_app_install_id)

    scoped_url-Keeps : (i : ℕ) (scoped : Option ℕ) → Keeps P (scoped_url token i scoped)
    unfolding scoped_url
    scoped_url-Keeps i none = Keeps-raise _
    scoped_url-Keeps i (some s) =
        Keeps-if (s == i) (Ensures-bind _ _ (Keeps-statement _ _ (λ w p. p)) mint_url-Keeps)
          (Keeps-raise _)

    pub clone_url_handler-Keeps :
        (claimed : ℕ) (url : Option ℕ) → Keeps P (clone_url_handler token claimed url)
    unfolding clone_url_handler
    clone_url_handler-Keeps claimed none = Keeps-raise _
    clone_url_handler-Keeps claimed (some i) =
        Ensures-bind _ _ (Keeps-statement _ _ (λ w p. p)) λ scoped. scoped_url-Keeps i scoped
