-- ===== src/Config/SecretRefs.antt =====
-- internal/config/secretrefs.go: the secret names that JSON documents mention. A Go map's random
-- order of iteration is the order of the members here; the result is sorted.
pub mod Found
use Prim.Native.String.{compare}
use text.Mathlib.Text.{is_le}
use cronfoundry.Prelude.{
  String, Bool, Option, none, some, List, [], ◌∷◌, str_eq, if◌then◌else◌, any, sort_by,
}
use cronfoundry.Config.Json.{
  Json, Elements, Members, null, bool, number, string, array, object, no_elements, element,
  no_members, member,
}

-- a set of names, with no name twice
abbrev pub has_name : String → List String → Bool
has_name n seen = any (str_eq n) seen

abbrev pub mark : String → List String → List String
mark n seen = if has_name n seen then seen else n ∷ seen

-- t["secret"].(string), "" where there is none
abbrev pub string_value : Json → String
string_value (string s) = s
string_value _ = ""

abbrev pub secret_of : Members → String
secret_of no_members = ""
secret_of (member k v ms) =
    let rest = secret_of ms in if str_eq k "secret" then string_value v else rest

abbrev pub mark_secret : String → List String → List String
mark_secret n seen = if str_eq n "" then seen else mark n seen

unfoldable mutual
  -- walkSecretRefs
  pub walk : Json → List String → List String
  walk null seen = seen
  walk (bool b) seen = seen
  walk (number n) seen = seen
  walk (string s) seen = seen
  walk (array xs) seen = walk_elements xs seen
  walk (object ms) seen = walk_members ms (mark_secret (secret_of ms) seen)

  pub walk_elements : Elements → List String → List String
  walk_elements no_elements seen = seen
  walk_elements (element x xs) seen = walk_elements xs (walk x seen)

  pub walk_members : Members → List String → List String
  walk_members no_members seen = seen
  walk_members (member k v ms) seen = walk_members ms (walk v seen)

abbrev pub mark_ref : Option String → List String → List String
mark_ref none seen = seen
mark_ref (some n) seen = mark_secret n seen

abbrev pub name_le : String → String → Bool
name_le a b = is_le (compare a b)

-- the scan of the further documents
unfoldable pub walk_all : List Json → List String → List String
walk_all [] seen = seen
walk_all (j ∷ js) seen = walk_all js (walk j seen)

-- the keys of the map, before they are sorted
unfoldable pub seen_refs : Json → Json → Option String → List Json → List String
unfolding walk_all
seen_refs destinations env llm_ref extra =
    mark_ref llm_ref (walk_all extra (walk env (walk destinations [])))

-- CollectSecretRefs
unfoldable pub collect_secret_refs : Json → Json → Option String → List Json → List String
unfolding seen_refs
collect_secret_refs destinations env llm_ref extra =
    sort_by name_le (seen_refs destinations env llm_ref extra)
