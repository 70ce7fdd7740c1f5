-- ===== src/Memory.antt =====
-- internal/memory/parser.go: the memory block of an output and the named output blocks. A regular
-- expression is its documented reading: the leftmost opening, then the first closing after it; what
-- both capture is trimmed by the caller.
pub mod Found
pub mod Outputs
use Prim.Native.Char.{Char, code}
use Prim.Native.String.{◌++◌}
use cronfoundry.Prelude.{
  ℕ, zero, suc, String, Bool, true, false, ◌&&◌, not, Option, none, some, List, [], ◌∷◌, ◌==◌,
  str_eq, if◌then◌else◌,
}
use cronfoundry.Config.Manifest.{is_space}

-- what follows a prefix
unfoldable pub after_prefix : String → String → Option String
after_prefix String.[] s = some s
after_prefix (String.◌∷◌ c p) String.[] = none
after_prefix (String.◌∷◌ c p) (String.◌∷◌ d s) =
    let rest = after_prefix p s in if code c == code d then rest else none

abbrev pub push : Char → Option (String × String) → Option (String × String)
push c none = none
push c (some (before, after)) = some (String.◌∷◌ c before, after)

abbrev pub or_later : Option String → Option (String × String) → Option (String × String)
or_later none later = later
or_later (some after) later = some ("", after)

-- what stands before and after the first occurrence
unfoldable pub split_at : String → String → Option (String × String)
split_at tag String.[] = or_later (after_prefix tag "") none
split_at tag (String.◌∷◌ c s) =
    or_later (after_prefix tag (String.◌∷◌ c s)) (push c (split_at tag s))

unfoldable pub trim_left : String → String
trim_left String.[] = ""
trim_left (String.◌∷◌ c s) =
    let rest = trim_left s in if is_space (code c) then rest else String.◌∷◌ c s

unfoldable pub trim_right : String → String
trim_right String.[] = ""
trim_right (String.◌∷◌ c s) =
    let rest = trim_right s in if is_space (code c) && str_eq rest "" then "" else String.◌∷◌ c rest

-- strings.TrimSpace
unfoldable pub trim_space : String → String
trim_space s = trim_right (trim_left s)

-- An output in pieces: text, and the blocks that FindAll returns. The first field of a block is the
-- name, "" for a memory block.
pub data Piece : Type 0 where
  plain : String → Piece
  block : String → String → Piece

-- one match: the text before, the name, the content and the text after
pub record Match : Type 0 where
  pub before : String
  pub name : String
  pub content : String
  pub after : String

abbrev pub closed : String → String → Option (String × String) → Option Match
closed before name none = none
closed before name (some (content, after)) =
    some (record { before = before; name = name; content = content; after = after })

abbrev pub opened : Option (String × String) → Option Match
opened none = none
opened (some (before, rest)) = closed before "" (split_at "</memory>" rest)

-- blockRe: the first match
unfoldable pub find_memory : String → Option Match
find_memory s = opened (split_at "<memory>" s)

module _ (first : String → Option Match) where
  abbrev pub cut : String → Option Match → (String → List Piece) → List Piece
  cut s none more = plain s ∷ []
  cut s (some m) more = plain m.before ∷ block m.name m.content ∷ more m.after

  -- FindAll, from each match to the next; the fuel bounds the number of matches
  unfoldable pub pieces : ℕ → String → List Piece
  pieces zero s = plain s ∷ []
  pieces (suc fuel) s = cut s (first s) (pieces fuel)

-- the number of characters
unfoldable pub size : String → ℕ
size String.[] = 0
size (String.◌∷◌ c s) = suc (size s)

unfoldable pub memory_pieces : String → List Piece
memory_pieces s = pieces find_memory (size s) s

-- ReplaceAllString with ""
abbrev pub texts : List Piece → String
texts [] = ""
texts (plain s ∷ ps) = s ++ texts ps
texts (block n c ∷ ps) = texts ps

-- the last block
abbrev pub later_of : Option String → String → Option String
later_of none c = some c
later_of (some d) c = some d

abbrev pub last_block : List Piece → Option String
last_block [] = none
last_block (plain s ∷ ps) = last_block ps
last_block (block n c ∷ ps) = later_of (last_block ps) c

pub record Extracted : Type 0 where
  pub published : String
  pub memory : String
  pub found : Bool

abbrev pub extracted : String → String → Option String → Extracted
extracted output rest none = record { published = output; memory = ""; found = false }
extracted output rest (some c) = record {
  published = trim_space rest;
  memory = trim_space c;
  found = true;
}

-- Extract
unfoldable pub extract : String → Extracted
extract output = extracted output (texts (memory_pieces output)) (last_block (memory_pieces output))
