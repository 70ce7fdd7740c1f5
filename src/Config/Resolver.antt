-- ===== src/Config/Resolver.antt =====
-- internal/secrets/runner/resolver.go: secrets by the names of their environment variables.
-- `strings.ToUpper` is a parameter.
use Prim.Native.String.{◌++◌}
use cronfoundry.Prelude.{String, Option, List, [], ◌∷◌}
use cronfoundry.Runner.Cost.{lookup}

abbrev pub prefix : String
prefix = "CRONFOUNDRY_SECRET_"

module _ (to_upper : String → String) where
  -- Get
  unfoldable pub get_secret : List (String × String) → String → Option String
  get_secret env name = lookup (prefix ++ to_upper name) env

  -- envMapForSecrets: the last of the names with one key decides, and a Go map has no order, so the
  -- names stand here in the order in which the loop meets them, the last one first
  unfoldable pub env_map_for_secrets : List (String × String) → List (String × String)
  env_map_for_secrets [] = []
  env_map_for_secrets ((name, value) ∷ rest) =
      (prefix ++ to_upper name, value) ∷ env_map_for_secrets rest
