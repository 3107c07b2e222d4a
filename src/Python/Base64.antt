-- ===== src/Python/Base64.antt =====
-- `base64.b64encode` and the lenient `base64.b64decode`: characters outside the alphabet are
-- skipped, and a complete padding ends the input.
pub mod RoundTrip
use khipu_consensus.Prelude.{
  ℕ, suc, ◌+◌, ◌-◌, ◌*◌, ◌/◌, ◌%◌, ◌≡◌, refl, Bool, true, false, ◌&&◌, Option, none, some, [], ◌∷◌,
  ◌++◌, ltb, leb, ◌==◌, if◌then◌else◌, all, Text, Bytes, text,
}
use khipu_consensus.Python.Error.{Result, ok, err, value_error, type_error}
use khipu_consensus.Python.Value.{Value, str}

-- the character of a six-bit value
unfoldable pub symbol : ℕ → ℕ
symbol n =
    if ltb n 26
    then n + 65
    else if ltb n 52
    then n + 71
    else if ltb n 62
    then n - 4
    else if n == 62
    then 43
    else 47

-- the six-bit value of a character
unfoldable pub sextet : ℕ → Option ℕ
sextet c =
    if leb 65 c && leb c 90
    then some (c - 65)
    else if leb 97 c && leb c 122
    then some (c - 71)
    else if leb 48 c && leb c 57
    then some (c + 4)
    else if c == 43
    then some 62
    else if c == 47
    then some 63
    else none

abbrev pad : ℕ
pad = 61

unfoldable pub b64encode : Bytes → Text
unfolding symbol
b64encode [] = []
b64encode (a ∷ []) = symbol (a / 4) ∷ symbol (a % 4 * 16) ∷ pad ∷ pad ∷ []
b64encode (a ∷ b ∷ []) =
    symbol (a / 4) ∷ symbol (a % 4 * 16 + b / 16) ∷ symbol (b % 16 * 4) ∷ pad ∷ []
b64encode (a ∷ b ∷ c ∷ rest) =
    symbol (a / 4)
    ∷ symbol (a % 4 * 16 + b / 16)
    ∷ symbol (b % 16 * 4 + c / 64)
    ∷ symbol (c % 64)
    ∷ b64encode rest

-- How many characters of the current group are read, and the bits that wait for the next.
pub data Quad : Type 0 where
  start : Quad
  one two three : ℕ → Quad

-- A padding character: does it complete a group?
abbrev closes : Quad → ℕ → Bool
closes start pads = false
closes (one l) pads = false
closes (two l) pads = leb 4 (2 + suc pads)
closes (three l) pads = true

abbrev pads_after : Quad → ℕ → ℕ
pads_after start pads = pads
pads_after (one l) pads = pads
pads_after q pads = suc pads

-- the group and the bytes after one more six-bit value
abbrev shift : Quad → ℕ → Quad
shift start v = one v
shift (one l) v = two (v % 16)
shift (two l) v = three (v % 4)
shift (three l) v = start

abbrev emit : Quad → ℕ → Bytes
emit start v = []
emit (one l) v = (l * 4 + v / 16) ∷ []
emit (two l) v = (l * 16 + v / 4) ∷ []
emit (three l) v = (l * 64 + v) ∷ []

abbrev finish : Quad → Bytes → Result Bytes
finish start out = ok out
finish (one l) out = err (value_error (text "Invalid base64-encoded string"))
finish q out = err (value_error (text "Incorrect padding"))

-- the loop of `binascii.a2b_base64` without its strict mode
unfoldable pub decode_from : Quad → ℕ → Bytes → Text → Result Bytes
unfolding sextet
decode_from q pads out [] = finish q out
decode_from q pads out (c ∷ s) =
    let padded = decode_from q (pads_after q pads) out s in
    let skipped = decode_from q pads out s in
    if c == pad
    then (if closes q pads then ok out else padded)
    else elim (sextet c) [ none ↦ skipped | some v ↦ decode_from (shift q v) 0 (out ++ emit q v) s ]

abbrev is_ascii : ℕ → Bool
is_ascii c = ltb c 128

unfoldable pub b64decode : Value → Result Bytes
unfolding decode_from
b64decode (str s) =
    if all is_ascii s
    then decode_from start 0 [] s
    else err (value_error (text "string argument should contain only ASCII characters"))
b64decode _ = err type_error

hello : b64encode (text "hello") ≡ text "aGVsbG8="
unfolding b64encode
hello = refl

hello_again : b64decode (str (text "aGVs bG8=!!")) ≡ ok (text "hello")
unfolding b64decode
hello_again = refl
