-- ===== src/Memory/Outputs.antt =====
-- internal/memory/parser.go: the named output blocks.
use Prim.Native.Char.{Char, code}
use cronfoundry.Prelude.{
  ℕ, String, Bool, ◌||◌, Option, none, some, List, [], ◌∷◌, ◌==◌, str_eq, if◌then◌else◌,
}
use cronfoundry.Memory.{
  after_prefix, split_at, Piece, plain, block, Match, closed, pieces, size, texts, trim_space,
}

-- \s of a regular expression
abbrev pub is_ascii_space : ℕ → Bool
is_ascii_space c = c == 9 || (c == 10 || (c == 12 || (c == 13 || c == 32)))

unfoldable pub skip_spaces : String → String
skip_spaces String.[] = ""
skip_spaces (String.◌∷◌ c s) =
    let rest = skip_spaces s in if is_ascii_space (code c) then rest else String.◌∷◌ c s

-- \s+
unfoldable pub some_spaces : String → Option String
unfolding skip_spaces
some_spaces String.[] = none
some_spaces (String.◌∷◌ c s) = if is_ascii_space (code c) then some (skip_spaces s) else none

abbrev pub try {ℓ κ} : {A : Type ℓ} → {B : Type κ} → Option A → (A → Option B) → Option B
try none f = none
try (some a) f = f a

abbrev pub push_name : Char → Option (String × String) → Option (String × String)
push_name c none = none
push_name c (some (name, rest)) = some (String.◌∷◌ c name, rest)

-- the text up to a quote, and what follows the quote
unfoldable pub quoted : String → Option (String × String)
quoted String.[] = none
quoted (String.◌∷◌ c s) =
    let rest = push_name c (quoted s) in if code c == 34 then some ("", s) else rest

abbrev pub named : String × String → Option (String × String)
named (name, rest) =
    if str_eq name "" then none else try (after_prefix ">" rest) (λ inner. some (name, inner))

-- an opening tag at the front of a text: its name, and what follows
unfoldable pub open_tag : String → Option (String × String)
open_tag s =
    try (after_prefix "<output" s)
      (λ a. try (some_spaces a) (λ b. try (after_prefix "name=\"" b) (λ c. try (quoted c) named)))

abbrev pub push_before :
    Char → Option (String × (String × String)) → Option (String × (String × String))
push_before c none = none
push_before c (some (before, tag)) = some (String.◌∷◌ c before, tag)

abbrev pub tag_here :
    Option (String × String)
    → Option (String × (String × String))
    → Option (String × (String × String))
tag_here none later = later
tag_here (some tag) later = some ("", tag)

-- the text before the first opening tag, and the tag
unfoldable pub find_tag : String → Option (String × (String × String))
find_tag String.[] = none
find_tag (String.◌∷◌ c s) = tag_here (open_tag (String.◌∷◌ c s)) (push_before c (find_tag s))

abbrev pub tagged : Option (String × (String × String)) → Option Match
tagged none = none
tagged (some (before, (name, rest))) = closed before name (split_at "</output>" rest)

-- outputBlockRe: the first match
unfoldable pub find_output : String → Option Match
find_output s = tagged (find_tag s)

unfoldable pub output_pieces : String → List Piece
output_pieces s = pieces find_output (size s) s

-- the map, where a later block of a name replaces an earlier one: the last stands first
abbrev pub blocks_onto : List (String × String) → List Piece → List (String × String)
blocks_onto acc [] = acc
blocks_onto acc (plain s ∷ ps) = blocks_onto acc ps
blocks_onto acc (block n c ∷ ps) = blocks_onto ((trim_space n, trim_space c) ∷ acc) ps

abbrev pub with_blocks : String → String → List (String × String) → List (String × String) × String
with_blocks output rest [] = ([], output)
with_blocks output rest (b ∷ bs) = (b ∷ bs, trim_space rest)

-- ExtractOutputBlocks
unfoldable pub extract_output_blocks : String → List (String × String) × String
extract_output_blocks output =
    with_blocks output (texts (output_pieces output)) (blocks_onto [] (output_pieces output))
