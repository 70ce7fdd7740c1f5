-- ===== src/Memory/Found.antt =====
-- internal/memory/parser.go: where a memory block is found in an output.
use Prim.Native.Char.{code, Char}
use Prim.Native.String.{◌++◌}
use text.Mathlib.TextLemmas.{nil-append, cons-append, append_assoc}
use text.Mathlib.TextEquality.{Char-path}
use cronfoundry.Prelude.{
  ◌↔◌, ◌⊎◌, ◌≢◌, false, ==-refl, sym, ◌∙◌, ==-eq, ℕ, zero, suc, ◌+◌, ◌≤◌, ◌<◌, String, true, ◌≡◌,
  refl, ap, Option, none, some, ◌==◌, arith, Bool-cases, inl, inr,
}
use cronfoundry.Memory.{
  later_of, memory_pieces, extract, last_block, texts, Extracted, extracted, after_prefix, push,
  or_later, split_at, Match, closed, opened, find_memory, pieces, size,
}

code-eq : (c d : Char) → (code c == code d) ≡ true → c ≡ d
code-eq c d h = Char-path c d (==-eq (code c) (code d) h)

after_prefix-eq : (p s r : String) → after_prefix p s ≡ some r → s ≡ p ++ r
unfolding after_prefix
after_prefix-eq String.[] s r h = cc (nil-append r)
after_prefix-eq (String.◌∷◌ c p) String.[] r h = absurd (cc)
after_prefix-eq (String.◌∷◌ c p) (String.◌∷◌ d s) r h = elim (Bool-cases (code c == code d)) [
  | inl e ↦
      let k : after_prefix p s ≡ some r = rw e at h in
      cc (after_prefix-eq p s r k, code-eq c d e, cons-append c p r)
  | inr e ↦ let k : ◌≡◌ {A = Option String} none (some r) = rw e at h in absurd (cc (k))
]

or_later-eq :
    (t s b a : String) (o : Option String) (later : Option (String × String))
    → ((r : String) → o ≡ some r → s ≡ t ++ r)
    → (later ≡ some (b, a) → s ≡ b ++ (t ++ a))
    → or_later o later ≡ some (b, a)
    → s ≡ b ++ (t ++ a)
or_later-eq t s b a none later f g h = g h
or_later-eq t s b a (some r) later f g h = cc (f r refl, nil-append (t ++ r))

push-eq :
    (c : Char) (t s b a : String) (o : Option (String × String))
    → ((x y : String) → o ≡ some (x, y) → s ≡ x ++ (t ++ y))
    → push c o ≡ some (b, a)
    → String.◌∷◌ c s ≡ b ++ (t ++ a)
push-eq c t s b a none f h = absurd (cc)
push-eq c t s b a (some (x, y)) f h = cc (f x y refl, cons-append c x (t ++ y))

split_at-eq : (t s b a : String) → split_at t s ≡ some (b, a) → s ≡ b ++ (t ++ a)
unfolding split_at
split_at-eq t String.[] b a h =
    or_later-eq t "" b a (after_prefix t "") none (after_prefix-eq t "") (λ k. absurd (cc)) h
split_at-eq t (String.◌∷◌ c s) b a h =
    or_later-eq t (String.◌∷◌ c s) b a (after_prefix t (String.◌∷◌ c s)) (push c (split_at t s))
      (after_prefix-eq t (String.◌∷◌ c s)) (push-eq c t s b a (split_at t s) (split_at-eq t s)) h

abbrev pub whole : Match → String
whole m = m.before ++ ("<memory>" ++ (m.content ++ ("</memory>" ++ m.after)))

closed-eq :
    (b t rest : String) (m : Match)
    → closed b "" (split_at "</memory>" rest) ≡ some m
    → b ++ (t ++ rest) ≡ m.before ++ (t ++ (m.content ++ ("</memory>" ++ m.after)))
closed-eq b t rest m h = closed_lem (split_at "</memory>" rest) refl h
  where
    closed_lem :
        (o : Option (String × String))
        → split_at "</memory>" rest ≡ o
        → closed b "" o ≡ some m
        → b ++ (t ++ rest) ≡ m.before ++ (t ++ (m.content ++ ("</memory>" ++ m.after)))
    closed_lem none e k = absurd (cc)
    closed_lem (some (x, y)) e k =
        let r : rest ≡ x ++ ("</memory>" ++ y) = split_at-eq "</memory>" rest x y e in cc

pub find_memory-eq : (s : String) (m : Match) → find_memory s ≡ some m → s ≡ whole m
unfolding find_memory
find_memory-eq s m h = opened_lem (split_at "<memory>" s) refl h
  where
    opened_lem :
        (o : Option (String × String)) → split_at "<memory>" s ≡ o → opened o ≡ some m → s ≡ whole m
    opened_lem none e k = absurd (cc)
    opened_lem (some (x, rest)) e k =
        cc (split_at-eq "<memory>" s x rest e, closed-eq x "<memory>" rest m k)

size-append : (s t : String) → size (s ++ t) ≡ size s + size t
unfolding size
size-append String.[] t = omega (arith, ap size (nil-append t))
size-append (String.◌∷◌ c s) t = omega (arith, ap size (cons-append c s t), size-append s t)

split_at-here : (t s r : String) → after_prefix t s ≡ some r → split_at t s ≡ some ("", r)
unfolding split_at
split_at-here t String.[] r h = rw h
split_at-here t (String.◌∷◌ c s) r h = rw h

after_prefix-append : (p s : String) → after_prefix p (p ++ s) ≡ some s
unfolding after_prefix
after_prefix-append String.[] s = ap some (nil-append s)
after_prefix-append (String.◌∷◌ c p) s =
    rw (cons-append c p s, ==-refl (code c), after_prefix-append p s)

cons-tail : (c d : Char) (s t : String) → String.◌∷◌ c s ≡ String.◌∷◌ d t → s ≡ t
cons-tail c d s t h = cc

-- what follows the shorter of two beginnings ends with what follows the longer
suffix :
    (t u rest r : String) → size t ≤ size u → t ++ rest ≡ u ++ r → (d : String) × (rest ≡ d ++ r)
unfolding size
suffix String.[] u rest r le e = (u, cc (nil-append rest))
suffix (String.◌∷◌ c t) String.[] rest r le e = absurd (omega arith)
suffix (String.◌∷◌ c t) (String.◌∷◌ b u) rest r le e =
    suffix t u rest r (omega arith)
      (cons-tail c b (t ++ rest) (u ++ r) (cc (cons-append c t rest, cons-append b u r)))

-- an occurrence of the tag is found, or an earlier one
split_at-found :
    (t b r : String) → (x : String) × (d : String) × (split_at t (b ++ (t ++ r)) ≡ some (x, d ++ r))
unfolding split_at
split_at-found t String.[] r = (
  "",
  "",
  ap (split_at t) (nil-append (t ++ r))
      ∙ split_at-here t (t ++ r) r (after_prefix-append t r)
      ∙ ap (λ y. some ("", y)) (sym (nil-append r)),
)
split_at-found t (String.◌∷◌ c b) r =
    let s = b ++ (t ++ r) in
    let (x, d, e) = split_at-found t b r in step x d e (after_prefix t (String.◌∷◌ c s)) refl
  where
    step :
        (x d : String)
        → split_at t (b ++ (t ++ r)) ≡ some (x, d ++ r)
        → (o : Option String) → after_prefix t (String.◌∷◌ c (b ++ (t ++ r))) ≡ o
        → (y : String) × (f : String) × (split_at t (String.◌∷◌ c b ++ (t ++ r)) ≡ some (y, f ++ r))
    step x d e none k = (String.◌∷◌ c x, d, rw (cons-append c b (t ++ r), k, e))
    step x d e (some rest) k =
        let whole_eq = after_prefix-eq t (String.◌∷◌ c (b ++ (t ++ r))) rest k in
        let (f, g) =
          suffix t (String.◌∷◌ c b ++ t) rest r (omega (arith, size-append (String.◌∷◌ c b) t)) (
            sym whole_eq
            ∙ sym (cons-append c b (t ++ r))
            ∙ sym (append_assoc (String.◌∷◌ c b) t r)) in
        ("", f, rw (cons-append c b (t ++ r), k, g))

-- an opening tag, and a closing one after it
abbrev pub HasBlock : String → Type 0
HasBlock s =
    (b : String) × (c : String) × (a : String) × (s
      ≡ b ++ ("<memory>" ++ (c ++ ("</memory>" ++ a))))

HasBlock-find_memory :
    (b c a : String)
    → (m : Match) × (find_memory (b ++ ("<memory>" ++ (c ++ ("</memory>" ++ a)))) ≡ some m)
unfolding find_memory
HasBlock-find_memory b c a =
    let (x, d, e) = split_at-found "<memory>" b (c ++ ("</memory>" ++ a)) in
    let (y, f, g) = split_at-found "</memory>" (d ++ c) a in
    let rest : d ++ (c ++ ("</memory>" ++ a)) ≡ (d ++ c) ++ ("</memory>" ++ a) =
      sym (append_assoc d c ("</memory>" ++ a)) in
    (record { before = x; name = ""; content = y; after = f ++ a }, rw (e, rest, g) refl)

size-tail : (t s : String) → 0 < size t → size s < size (t ++ s)
size-tail t s h = omega (arith, size-append t s)

size-later : (t s : String) → size s ≤ size (t ++ s)
size-later t s = omega (arith, size-append t s)

opening-size : 0 < size "<memory>"
unfolding size
opening-size = omega arith

-- a match leaves less than it was found in
find_memory-size : (s : String) (m : Match) → find_memory s ≡ some m → size m.after < size s
find_memory-size s m h =
    let rest = m.content ++ ("</memory>" ++ m.after) in
    omega (
      arith,
      ap size (find_memory-eq s m h),
      size-later m.before ("<memory>" ++ rest),
      size-tail "<memory>" rest opening-size,
      size-later m.content ("</memory>" ++ m.after),
      size-later "</memory>" m.after,
    )

later_of-some : (o : Option String) (c : String) → later_of o c ≢ none
later_of-some none c e = cc (e)
later_of-some (some d) c e = cc (e)

-- the pieces of an output that has a match have a block
matched : (s : String) (m : Match) → find_memory s ≡ some m → last_block (memory_pieces s) ≢ none
unfolding memory_pieces pieces
matched s m e = step (size s) (omega (arith, find_memory-size s m e))
  where
    step : (n : ℕ) → 0 < n → last_block (pieces find_memory n s) ≢ none
    step zero h = absurd (omega arith)
    step (suc n) h = rw e (later_of-some (last_block (pieces find_memory n m.after)) m.content)

plain_only : (s : String) → find_memory s ≡ none → last_block (memory_pieces s) ≡ none
unfolding memory_pieces pieces
plain_only s e = step (size s)
  where
    step : (n : ℕ) → last_block (pieces find_memory n s) ≡ none
    step zero = refl
    step (suc n) = rw e refl

abbrev pub IsExtracted : String → Extracted → Type 0
IsExtracted s e =
    (e.found ≡ true ↔ HasBlock s)
    × ((e.found ≡ true) ⊎ (e ≡ record { published = s; memory = ""; found = false }))

-- An output is found to have a memory exactly if it has an opening tag and a closing one after it; one
-- that has none is published as it is.
pub extract-IsExtracted : (s : String) → IsExtracted s (extract s)
unfolding extract
extract-IsExtracted s = found_by (find_memory s) refl (last_block (memory_pieces s)) refl
  where
    found_by :
        (o : Option Match)
        → find_memory s ≡ o
        → (l : Option String) → last_block (memory_pieces s) ≡ l
        → IsExtracted s (extracted s (texts (memory_pieces s)) l)
    found_by (some m) e none k = absurd (matched s m e k)
    found_by (some m) e (some c) k =
        (((λ h. (m.before, m.content, m.after, find_memory-eq s m e)), λ h. refl), inl refl)
    found_by none e (some c) k = absurd (cc (plain_only s e))
    found_by none e none k = (
      (
        (λ h. absurd (cc (h))),
        λ h.
            let (b, c, a, w) = h in
            let (m, f) = HasBlock-find_memory b c a in absurd (cc (e, ap find_memory w, f)),
      ),
      inr refl,
    )
