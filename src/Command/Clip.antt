-- ===== src/Command/Clip.antt =====
-- cmd/cronfoundry/runner.go: clip, by the bytes of UTF-8, as the other side decodes the result: the
-- encoder writes U+FFFD for each byte of a character that the cut has left incomplete.
use Prim.Native.Char.{Char, len_utf8}
use Prim.Native.String.{len, ◌++◌}
use text.Mathlib.TextPositions.{len-append}
use cronfoundry.Prelude.{
  ℕ, zero, suc, ◌+◌, ◌-◌, ◌*◌, ◌≤◌, ◌<◌, ◌≡◌, refl, String, Bool, true, false, leb, arith,
  if◌then◌else◌, Bool-cases, inl, inr,
}

-- the characters that end within the first bytes
unfoldable pub whole_chars : String → ℕ → String
whole_chars String.[] n = ""
whole_chars (String.◌∷◌ c s) n =
    let rest = whole_chars s (n - len_utf8 c) in
    if leb (len_utf8 c) n then String.◌∷◌ c rest else ""

-- the bytes that are left of the character that is cut
unfoldable pub torn_bytes : String → ℕ → ℕ
torn_bytes String.[] n = 0
torn_bytes (String.◌∷◌ c s) n =
    let rest = torn_bytes s (n - len_utf8 c) in if leb (len_utf8 c) n then rest else n

abbrev pub replacements : ℕ → String
replacements zero = ""
replacements (suc n) = "�" ++ replacements n

-- s[:n], decoded
unfoldable pub cut_at : String → ℕ → String
cut_at s n = whole_chars s n ++ replacements (torn_bytes s n)

-- clip
unfoldable pub clip : String → ℕ → String
clip s max =
    if leb (len s) max
    then s
    else if leb max (len "…")
    then cut_at s max
    else cut_at s (max - len "…") ++ "…"

-- how many bytes of a torn character clip leaves
unfoldable pub torn_by_clip : String → ℕ → ℕ
torn_by_clip s max = if leb (len s) max then 0 else torn_bytes s (max - len "…")

replacements-len : (n : ℕ) → len (replacements n) ≡ 3 * n
replacements-len zero = refl
replacements-len (suc n) = omega (arith, len-append "�" (replacements n), replacements-len n)

len-cons : (c : Char) (s : String) → len (String.◌∷◌ c s) ≡ len_utf8 c + len s
len-cons c s = Prim.Native.String.len.cons c s

cut_step :
    (b : Bool) (c : Char) (s : String) (t n : ℕ)
    → (b ≡ true → len_utf8 c ≤ n)
    → len s + t ≡ n - len_utf8 c
    → len (if b then String.◌∷◌ c s else "") + (if b then t else n) ≡ n
cut_step true c s t n h e = omega (arith, h refl, e, len-cons c s)
cut_step false c s t n h e = omega arith

cut-len : (s : String) (n : ℕ) → n ≤ len s → len (whole_chars s n) + torn_bytes s n ≡ n
unfolding whole_chars torn_bytes
cut-len String.[] n h = omega arith
cut-len (String.◌∷◌ c s) n h =
    cut_step (leb (len_utf8 c) n) c (whole_chars s (n - len_utf8 c)) (torn_bytes s (n - len_utf8 c))
      n (λ e. ground (arith, e)) (cut-len s (n - len_utf8 c) (omega (arith, len-cons c s, h)))

cut_at-len : (s : String) (n : ℕ) → n ≤ len s → len (cut_at s n) ≡ n + 2 * torn_bytes s n
unfolding cut_at
cut_at-len s n h = omega (
  arith,
  len-append (whole_chars s n) (replacements (torn_bytes s n)),
  replacements-len (torn_bytes s n),
  cut-len s n h,
)

-- With a limit above three bytes, what arrives of a clipped text has at most as many bytes as the
-- limit, and two more for each byte of a character that the cut has torn.
pub clip-len : (s : String) (max : ℕ) → 3 < max → len (clip s max) ≤ max + 2 * torn_by_clip s max
unfolding clip torn_by_clip
clip-len s max h = elim (Bool-cases (leb (len s) max)) [
  | inl e ↦ ground (arith, e)
  | inr e ↦
      let long : max < len s = ground (arith, e) in
      ground (
        arith,
        e,
        long,
        len-append (cut_at s (max - 3)) "…",
        cut_at-len s (max - 3) (omega (arith, long)),
      )
]
