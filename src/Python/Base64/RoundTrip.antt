-- ===== src/Python/Base64/RoundTrip.antt =====
-- Decoding what `b64encode` wrote gives the bytes back.
use khipu_consensus.Prelude.{
  ℕ, ◌+◌, ◌*◌, ◌/◌, ◌%◌, ◌<◌, ◌≡◌, refl, ap, ◌∙◌, true, false, some, [], ◌∷◌, ◌++◌, append-nil,
  append_assoc, arith, ◌==◌, all, All, Bytes, Text,
}
use khipu_consensus.Python.Error.{ok}
use khipu_consensus.Python.Value.{str}
use khipu_consensus.Python.Base64.{
  symbol, sextet, pad, b64encode, Quad, start, one, two, three, shift, emit, is_ascii, decode_from,
  b64decode,
}

abbrev pub IsByte : ℕ → Type 0
IsByte b = b < 256

sextet-symbol : (v : ℕ) → v < 64 → sextet (symbol v) ≡ some v
unfolding sextet symbol
sextet-symbol v h = ground arith

symbol_is_no_pad : (v : ℕ) → v < 64 → (symbol v == pad) ≡ false
unfolding symbol
symbol_is_no_pad v h = ground arith

symbol-is_ascii : (v : ℕ) → v < 64 → is_ascii (symbol v) ≡ true
unfolding symbol
symbol-is_ascii v h = ground arith

-- one character of the alphabet
decode_step :
    (q : Quad) (pads : ℕ) (out : Bytes) (v : ℕ) (s : Text)
    → v < 64
    → decode_from q pads out (symbol v ∷ s) ≡ decode_from (shift q v) 0 (out ++ emit q v) s
unfolding decode_from
decode_step q pads out v s h = ground (arith, sextet-symbol v h, symbol_is_no_pad v h)

module _ (a b c : ℕ) (ha : a < 256) (hb : b < 256) (hc : c < 256) where
  first_byte : a / 4 * 4 + (a % 4 * 16 + b / 16) / 16 ≡ a
  first_byte = omega arith

  second_byte : (a % 4 * 16 + b / 16) % 16 * 16 + (b % 16 * 4 + c / 64) / 4 ≡ b
  second_byte = omega arith

  third_byte : (b % 16 * 4 + c / 64) % 4 * 64 + c % 64 ≡ c
  third_byte = omega arith

  -- four characters of a whole group
  decode_group :
      (out : Bytes) (s : Text)
      → decode_from start 0 out (
          symbol (a / 4)
          ∷ symbol (a % 4 * 16 + b / 16)
          ∷ symbol (b % 16 * 4 + c / 64)
          ∷ symbol (c % 64)
          ∷ s)
        ≡ decode_from start 0 (out ++ a ∷ b ∷ c ∷ []) s
  decode_group out s =
      rw
        (
          decode_step start 0 out (a / 4) _ (omega arith),
          decode_step (one (a / 4)) 0 _ (a % 4 * 16 + b / 16) _ (omega arith),
          decode_step (two ((a % 4 * 16 + b / 16) % 16)) 0 _ (b % 16 * 4 + c / 64) _ (omega arith),
          decode_step (three ((b % 16 * 4 + c / 64) % 4)) 0 _ (c % 64) _ (omega arith),
        )
        (simp (first_byte, second_byte, third_byte, append-nil, append_assoc))

decode_one :
    (a : ℕ) (out : Bytes)
    → a < 256
    → decode_from start 0 out (b64encode (a ∷ [])) ≡ ok (out ++ a ∷ [])
unfolding b64encode
decode_one a out h =
    rw
      (
        decode_step start 0 out (a / 4) _ (omega arith),
        decode_step (one (a / 4)) 0 _ (a % 4 * 16) _ (omega arith),
      )
      (unfold decode_from in
        let e : a / 4 * 4 + a % 4 * 16 / 16 ≡ a = omega arith in simp (e, append-nil, append_assoc))

decode_two :
    (a b : ℕ) (out : Bytes)
    → a < 256
    → b < 256
    → decode_from start 0 out (b64encode (a ∷ b ∷ [])) ≡ ok (out ++ a ∷ b ∷ [])
unfolding b64encode
decode_two a b out ha hb =
    rw
      (
        decode_step start 0 out (a / 4) _ (omega arith),
        decode_step (one (a / 4)) 0 _ (a % 4 * 16 + b / 16) _ (omega arith),
        decode_step (two ((a % 4 * 16 + b / 16) % 16)) 0 _ (b % 16 * 4) _ (omega arith),
      )
      (unfold decode_from in
        let e : a / 4 * 4 + (a % 4 * 16 + b / 16) / 16 ≡ a = omega arith in
        let f : (a % 4 * 16 + b / 16) % 16 * 16 + b % 16 * 4 / 4 ≡ b = omega arith in
        simp (e, f, append-nil, append_assoc))

decode_none : (out : Bytes) → decode_from start 0 out (b64encode []) ≡ ok (out ++ [])
unfolding decode_from b64encode
decode_none out = rw append-nil

decode-encode :
    (bs out : Bytes) → All IsByte bs → decode_from start 0 out (b64encode bs) ≡ ok (out ++ bs)
unfolding b64encode
decode-encode [] out h = decode_none out
decode-encode (a ∷ []) out (ha, _) = decode_one a out ha
decode-encode (a ∷ b ∷ []) out (ha, (hb, _)) = decode_two a b out ha hb
decode-encode (a ∷ b ∷ c ∷ rest) out (ha, (hb, (hc, h))) =
    decode_group a b c ha hb hc out (b64encode rest)
    ∙ decode-encode rest (out ++ a ∷ b ∷ c ∷ []) h
    ∙ ap ok (append_assoc out (a ∷ b ∷ c ∷ []) rest)

b64encode-is_ascii : (bs : Bytes) → All IsByte bs → all is_ascii (b64encode bs) ≡ true
unfolding b64encode
b64encode-is_ascii [] h = refl
b64encode-is_ascii (a ∷ []) (ha, _) =
    rw (symbol-is_ascii (a / 4) (omega arith), symbol-is_ascii (a % 4 * 16) (omega arith))
b64encode-is_ascii (a ∷ b ∷ []) (ha, (hb, _)) = rw (
  symbol-is_ascii (a / 4) (omega arith),
  symbol-is_ascii (a % 4 * 16 + b / 16) (omega arith),
  symbol-is_ascii (b % 16 * 4) (omega arith),
)
b64encode-is_ascii (a ∷ b ∷ c ∷ rest) (ha, (hb, (hc, h))) =
    rw
      (
        symbol-is_ascii (a / 4) (omega arith),
        symbol-is_ascii (a % 4 * 16 + b / 16) (omega arith),
        symbol-is_ascii (b % 16 * 4 + c / 64) (omega arith),
        symbol-is_ascii (c % 64) (omega arith),
      )
      (b64encode-is_ascii rest h)

-- Whatever bytes are encoded in base64, the lenient decoder gives them back.
pub b64decode-b64encode : (bs : Bytes) → All IsByte bs → b64decode (str (b64encode bs)) ≡ ok bs
unfolding b64decode
b64decode-b64encode bs h = rw b64encode-is_ascii (decode-encode bs [] h)
