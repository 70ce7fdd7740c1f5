-- ===== src/Tests/Codec.antt =====
-- A codec that meets the laws: texts without dots, claims in frames, and a signature that is the key
-- with the text.
use Prim.Native.Char.{Char, code}
use Prim.Native.String.{◌++◌ as str_append}
use text.Mathlib.TextEquality.{Char-path}
use cronfoundry.Prelude.{
  ℕ, zero, suc, ◌+◌, ◌*◌, ◌/◌, ◌%◌, ◌≤◌, ◌≡◌, refl, ap, String, Option, none, some, arith,
  Bool-cases, inl, inr, ◌==◌, ==-eq, if◌then◌else◌, ℤ, pos, negsuc,
}
use cronfoundry.Webapi.Session.{SessionClaims, Codec}
use cronfoundry.Webapi.Session.Verified.{HasNoDot, Laws}

abbrev then_char : Char → Option String → Option String
then_char c none = none
then_char c (some s) = some (String.◌∷◌ c s)

-- a dot is two letters d, any other character follows a letter n
abbrev pub encode : String → String
encode String.[] = ""
encode (String.◌∷◌ c s) =
    let rest = encode s in
    if code c == b'.'
    then String.◌∷◌ "d" (String.◌∷◌ "d" rest)
    else String.◌∷◌ "n" (String.◌∷◌ c rest)

abbrev pub decode : String → Option String
decode String.[] = some ""
decode (String.◌∷◌ m String.[]) = none
decode (String.◌∷◌ m (String.◌∷◌ c s)) =
    let rest = decode s in if code m == b'd' then then_char "." rest else then_char c rest

decode-encode : (s : String) → decode (encode s) ≡ some s
decode-encode String.[] = refl
decode-encode (String.◌∷◌ c s) = elim (Bool-cases (code c == b'.')) [
  | inl e ↦
      let dot : c ≡ "." = Char-path c "." (==-eq (code c) b'.' e) in
      rw (e, decode-encode s, dot) refl
  | inr e ↦ rw (e, decode-encode s) refl
]

encode-HasNoDot : (s : String) → HasNoDot (encode s)
encode-HasNoDot String.[] = tt
encode-HasNoDot (String.◌∷◌ c s) = elim (Bool-cases (code c == b'.')) [
  | inl e ↦ rw e (refl, (refl, encode-HasNoDot s))
  | inr e ↦ rw e (refl, (e, encode-HasNoDot s))
]

-- binary digits, the lowest first
abbrev bits : ℕ → ℕ → String
bits zero n = ""
bits (suc f) n =
    let rest = bits f (n / 2) in
    if n == 0 then "" else if n % 2 == 1 then String.◌∷◌ "1" rest else String.◌∷◌ "0" rest

abbrev number : String → ℕ
number String.[] = 0
number (String.◌∷◌ c s) = let rest = number s in if code c == b'1' then 2 * rest + 1 else 2 * rest

number-bits : (f n : ℕ) → n ≤ f → number (bits f n) ≡ n
number-bits zero n h = omega arith
number-bits (suc f) n h =
    let ih : number (bits f (n / 2)) ≡ n / 2 = number-bits f (n / 2) (omega arith) in
    elim (Bool-cases (n == 0)) [
      | inl e ↦ rw e (ground arith)
      | inr e ↦ elim (Bool-cases (n % 2 == 1)) [
        | inl odd ↦ rw (e, odd, ih) (ground arith)
        | inr even ↦ rw (e, even, ih) (ground arith)
      ]
    ]

-- characters behind a letter n, up to a letter e
abbrev frame : String → String → String
frame String.[] rest = String.◌∷◌ "e" rest
frame (String.◌∷◌ c s) rest = String.◌∷◌ "n" (String.◌∷◌ c (frame s rest))

abbrev push : Char → Option (String × String) → Option (String × String)
push c none = none
push c (some (s, rest)) = some (String.◌∷◌ c s, rest)

abbrev unframe : String → Option (String × String)
unframe String.[] = none
unframe (String.◌∷◌ m String.[]) = if code m == b'e' then some ("", "") else none
unframe (String.◌∷◌ m (String.◌∷◌ c s)) =
    let rest = unframe s in if code m == b'e' then some ("", String.◌∷◌ c s) else push c rest

unframe-frame : (s rest : String) → unframe (frame s rest) ≡ some (s, rest)
unframe-frame String.[] String.[] = refl
unframe-frame String.[] (String.◌∷◌ c r) = refl
unframe-frame (String.◌∷◌ c s) rest = rw (unframe-frame s rest) refl

abbrev integer_text : ℤ → String
integer_text (pos n) = String.◌∷◌ "p" (bits n n)
integer_text (negsuc n) = String.◌∷◌ "m" (bits n n)

abbrev integer : String → Option ℤ
integer String.[] = none
integer (String.◌∷◌ c s) =
    if code c == b'p' then some (pos (number s)) else some (negsuc (number s))

integer-text : (z : ℤ) → integer (integer_text z) ≡ some z
integer-text (pos n) = ap (λ k. some (pos k)) (number-bits n n (omega arith))
integer-text (negsuc n) = ap (λ k. some (negsuc k)) (number-bits n n (omega arith))

abbrev pub marshal : SessionClaims → String
marshal c = frame c.login (frame c.role (integer_text c.exp))

abbrev with_exp : String → String → Option ℤ → Option SessionClaims
with_exp login role none = none
with_exp login role (some e) = some (record { login = login; role = role; exp = e })

abbrev with_role : String → Option (String × String) → Option SessionClaims
with_role login none = none
with_role login (some (role, rest)) = with_exp login role (integer rest)

abbrev with_login : Option (String × String) → Option SessionClaims
with_login none = none
with_login (some (login, rest)) = with_role login (unframe rest)

abbrev pub unmarshal : String → Option SessionClaims
unmarshal s = with_login (unframe s)

unmarshal-marshal : (c : SessionClaims) → unmarshal (marshal c) ≡ some c
unmarshal-marshal c =
    rw
      (
        unframe-frame c.login (frame c.role (integer_text c.exp)),
        unframe-frame c.role (integer_text c.exp),
        integer-text c.exp,
      )
      refl

abbrev pub framed : Codec
framed = record {
  encode = encode;
  decode = decode;
  marshal = marshal;
  unmarshal = unmarshal;
  mac = λ text key. str_append key text;
}

pub framed-Laws : Laws framed
framed-Laws = record {
  decode-encode = decode-encode;
  unmarshal-marshal = unmarshal-marshal;
  encode-HasNoDot = encode-HasNoDot;
}
