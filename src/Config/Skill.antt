-- ===== src/Config/Skill.antt =====
-- internal/config/skill.go: the frontmatter and the body of a SKILL.md, and Validate. YAML is a
-- parameter. The expression of a server's name is its documented reading.
use Prim.Native.Char.{Char, code}
use cronfoundry.Prelude.{
  ◌⊎◌, inl, inr, ℕ, String, Bool, true, false, ◌&&◌, ◌||◌, not, Option, none, some, List, [], ◌∷◌,
  ℤ, is_negative, leb, ◌==◌, str_eq, if◌then◌else◌, any,
}
use cronfoundry.Memory.{after_prefix}

pub record McpServer : Type 0 where
  pub name : String
  pub command : String
  pub args : List String

-- SkillFrontmatter; the description, the model hint and the block format are read by no modelled code
pub record Frontmatter : Type 0 where
  pub name : String
  pub max_tokens : ℤ
  pub max_turns : ℤ
  pub mcp_servers : List McpServer

pub record Skill : Type 0 where
  pub frontmatter : Frontmatter
  pub body : String

pub data SkillError : Type 0 where
  frontmatter_required frontmatter_unterminated frontmatter_invalid : SkillError
  server_name_invalid server_duplicate command_required max_turns_negative : SkillError

abbrev pub or_else {ℓ} : {A : Type ℓ} → Option A → Option A → Option A
or_else none b = b
or_else (some a) b = some a

abbrev pub without : String → String → String
without p s = elim (after_prefix p s) [ none ↦ s | some rest ↦ rest ]

-- one optional line end
abbrev pub skip_line_end : String → String
skip_line_end s = without "\n" (without "\r" s)

abbrev pub is_some {ℓ} : {A : Type ℓ} → Option A → Bool
is_some none = false
is_some (some a) = true

-- a fence on a line of its own
abbrev pub starts_fence : String → Bool
starts_fence s = is_some (after_prefix "---\n" s) || is_some (after_prefix "---\r\n" s)

abbrev pub push_line : Char → Option (String × String) → Option (String × String)
push_line c none = none
push_line c (some (before, after)) = some (String.◌∷◌ c before, after)

-- the closing fence: the text before it, and what follows its three dashes
unfoldable pub find_fence : Bool → String → Option (String × String)
find_fence line_start String.[] = none
find_fence line_start (String.◌∷◌ c s) =
    let later = push_line c (find_fence (code c == 10) s) in
    if line_start && (starts_fence (String.◌∷◌ c s) || str_eq (String.◌∷◌ c s) "---")
    then some ("", without "---" (String.◌∷◌ c s))
    else later

abbrev pub with_yaml : (String → Option Frontmatter) → Option (String × String) → SkillError ⊎ Skill
with_yaml yaml none = inl frontmatter_unterminated
with_yaml yaml (some (front, rest)) = elim (yaml front) [
  | none ↦ inl frontmatter_invalid
  | some f ↦ inr (record { frontmatter = f; body = skip_line_end rest })
]

-- ParseSkillFile
unfoldable pub parse_skill_file : (String → Option Frontmatter) → String → SkillError ⊎ Skill
parse_skill_file yaml source =
    if starts_fence source
    then with_yaml yaml (find_fence true (skip_line_end (without "---" source)))
    else inl frontmatter_required

abbrev pub is_lower : ℕ → Bool
is_lower c = leb 97 c && leb c 122

abbrev pub is_name_char : ℕ → Bool
is_name_char c = is_lower c || (leb 48 c && leb c 57 || (c == 95 || c == 45))

unfoldable pub all_name_chars : String → Bool
all_name_chars String.[] = true
all_name_chars (String.◌∷◌ c s) = is_name_char (code c) && all_name_chars s

-- mcpServerNameRe
unfoldable pub valid_server_name : String → Bool
unfolding all_name_chars
valid_server_name String.[] = false
valid_server_name (String.◌∷◌ c s) = is_lower (code c) && all_name_chars s

-- the loop over the servers; `seen` holds the names before
unfoldable pub validate_servers : List String → List McpServer → Option SkillError
validate_servers seen [] = none
validate_servers seen (s ∷ ss) =
    let rest = validate_servers (s.name ∷ seen) ss in
    if not (valid_server_name s.name)
    then some server_name_invalid
    else if any (str_eq s.name) seen
    then some server_duplicate
    else if str_eq s.command ""
    then some command_required
    else rest

abbrev pub then_turns : Option SkillError → ℤ → Option SkillError
then_turns (some e) turns = some e
then_turns none turns = if is_negative turns then some max_turns_negative else none

-- Skill.Validate
unfoldable pub validate_skill : Skill → Option SkillError
validate_skill s =
    then_turns (validate_servers [] s.frontmatter.mcp_servers) s.frontmatter.max_turns
