-- ===== src/Python/Utf8.antt =====
-- `str.encode("utf-8")`: a lone surrogate has no encoding.
use khipu_consensus.Prelude.{
  ℕ, true, arith, ◌+◌, ◌/◌, ◌%◌, ◌≡◌, refl, [], ◌∷◌, ◌++◌, ◌&&◌, ltb, leb, if◌then◌else◌, Text,
  Bytes,
}
use khipu_consensus.Python.Error.{
  Result, ok, err, unicode_encode_error, ◌>>=◌, >>=-eq-ok, ok-injective,
}
use khipu_consensus.Python.Value.{str, truthy}

-- the bytes of one code point
encode_point : ℕ → Result Bytes
encode_point c =
    if ltb c 0x80
    then ok (c ∷ [])
    else if ltb c 0x800
    then ok ((0xc0 + c / 0x40) ∷ (0x80 + c % 0x40) ∷ [])
    else if leb 0xd800 c && leb c 0xdfff
    then err unicode_encode_error
    else if ltb c 0x10000
    then ok ((0xe0 + c / 0x1000) ∷ (0x80 + c / 0x40 % 0x40) ∷ (0x80 + c % 0x40) ∷ [])
    else ok (
        (0xf0 + c / 0x40000)
        ∷ (0x80 + c / 0x1000 % 0x40)
        ∷ (0x80 + c / 0x40 % 0x40)
        ∷ (0x80 + c % 0x40)
        ∷ [])

unfoldable pub utf8 : Text → Result Bytes
unfolding encode_point
utf8 [] = ok []
utf8 (c ∷ s) = do b ← encode_point c; rest ← utf8 s; ok (b ++ rest)

euro : utf8 (0x20ac ∷ []) ≡ ok (0xe2 ∷ 0x82 ∷ 0xac ∷ [])
unfolding utf8
euro = refl

point-truthy : (c : ℕ) (p : Bytes) → encode_point c ≡ ok p → truthy (str p) ≡ true
unfolding encode_point
point-truthy c p h = ground arith

append-truthy_left : (p q : Bytes) → truthy (str p) ≡ true → truthy (str (p ++ q)) ≡ true
append-truthy_left (c ∷ p) q h = refl
append-truthy_left [] q h = cc

-- A text that is not empty has an encoding that is not.
pub utf8-truthy : (c : ℕ) (s b : Bytes) → utf8 (c ∷ s) ≡ ok b → truthy (str b) ≡ true
unfolding utf8
utf8-truthy c s b h =
    let (p, encoded, h1) = >>=-eq-ok (encode_point c) _ h in
    let (rest, _, h2) = >>=-eq-ok (utf8 s) _ h1 in
    let same : p ++ rest ≡ b = ok-injective h2 in
    rw (← same) (append-truthy_left p rest (point-truthy c p encoded))
