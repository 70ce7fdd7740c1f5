-- ===== src/Config/Include.antt =====
-- internal/config/include.go: the include directives of a skill's body. The expression is its
-- documented reading; the file system and the functions on paths are parameters.
use Prim.Native.Char.{Char}
use Prim.Native.String.{◌++◌}
use cronfoundry.Prelude.{
  ◌⊎◌, inl, inr, ℕ, zero, suc, String, Bool, ◌||◌, Option, none, some, str_eq, if◌then◌else◌,
}
use cronfoundry.Memory.{after_prefix, size}
use cronfoundry.Memory.Outputs.{skip_spaces, some_spaces, quoted, try}
use cronfoundry.Config.Skill.{is_some}

pub data IncludeError : Type 0 where
  root_unresolved include_absolute include_unresolved include_outside include_unread : IncludeError

-- one directive: the path, the text of the directive, and what follows
pub record Directive : Type 0 where
  pub before : String
  pub path : String
  pub after : String

abbrev pub to_end : String × String → Option (String × String)
to_end (path, rest) =
    if str_eq path ""
    then none
    else try (after_prefix "}}" (skip_spaces rest)) (λ after. some (path, after))

-- a directive at the front of a text
unfoldable pub open_include : String → Option (String × String)
open_include s = try (after_prefix "{{" s) (λ a.
    try (after_prefix "include" (skip_spaces a))
      (λ b. try (some_spaces b) (λ c. try (after_prefix "\"" c) (λ d. try (quoted d) to_end))))

abbrev pub push_text : Char → Option Directive → Option Directive
push_text c none = none
push_text c (some d) = some (record d { before = String.◌∷◌ c d.before })

abbrev pub include_here : Option (String × String) → Option Directive → Option Directive
include_here none later = later
include_here (some (path, after)) later = some (record { before = ""; path = path; after = after })

-- includeRe: the first match
unfoldable pub find_include : String → Option Directive
find_include String.[] = none
find_include (String.◌∷◌ c s) =
    include_here (open_include (String.◌∷◌ c s)) (push_text c (find_include s))

pub record Files (W : Type 0) : Type 0 where
  pub read_file : String → W → Option String × W
  pub join : String → String → String
  pub abs : String → Option String
  pub is_abs : String → Bool

module _ {W : Type 0} (files : Files W) where
  -- a path is inside the root, or is the root
  unfoldable pub is_inside : String → String → Bool
  is_inside root path = is_some (after_prefix (root ++ "/") path) || str_eq path root

  abbrev pub read_include : Option String × W → (IncludeError ⊎ String) × W
  read_include (none, w) = (inl include_unread, w)
  read_include (some text, w) = (inr text, w)

  abbrev pub include_cleaned : String → Option String → W → (IncludeError ⊎ String) × W
  include_cleaned root none w = (inl include_unresolved, w)
  include_cleaned root (some path) w =
      if is_inside root path
      then read_include (files.read_file path w)
      else (inl include_outside, w)

  -- the function that gives the replacement of a directive
  unfoldable pub include : String → String → W → (IncludeError ⊎ String) × W
  unfolding is_inside
  include root rel w =
      if files.is_abs rel
      then (inl include_absolute, w)
      else include_cleaned root (files.abs (files.join root rel)) w

  abbrev pub put_before : String → (IncludeError ⊎ String) × W → (IncludeError ⊎ String) × W
  put_before s (inl e, w) = (inl e, w)
  put_before s (inr t, w) = (inr (s ++ t), w)

  abbrev pub put_text :
      String
      → (IncludeError ⊎ String) × W
      → (W → (IncludeError ⊎ String) × W)
      → (IncludeError ⊎ String) × W
  put_text s (inl e, w) more = (inl e, w)
  put_text s (inr t, w) more = put_before (s ++ t) (more w)

  abbrev pub replace_one :
      String
      → String
      → Option Directive
      → W
      → (String → W → (IncludeError ⊎ String) × W)
      → (IncludeError ⊎ String) × W
  replace_one root s none w more = (inr s, w)
  replace_one root s (some d) w more = put_text d.before (include root d.path w) (more d.after)

  -- ReplaceAllStringFunc, up to the first error; the fuel bounds the number of directives
  unfoldable pub replace_all : ℕ → String → String → W → (IncludeError ⊎ String) × W
  replace_all zero root s w = (inr s, w)
  replace_all (suc fuel) root s w = replace_one root s (find_include s) w (replace_all fuel root)

  abbrev pub include_under : String → Option String → W → (IncludeError ⊎ String) × W
  include_under body none w = (inl root_unresolved, w)
  include_under body (some root) w = replace_all (size body) root body w

  -- ResolveIncludes
  unfoldable pub resolve_includes : String → String → W → (IncludeError ⊎ String) × W
  resolve_includes body root w = include_under body (files.abs root) w
