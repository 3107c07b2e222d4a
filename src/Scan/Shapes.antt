-- ===== src/Scan/Shapes.antt =====
-- .github/scripts/forbidden_domain_scan.py: the shapes KEYED and ABSENT of code and of string
-- literals.
use khipu_consensus.Prelude.{
  ℕ, zero, suc, ◌+◌, ◌-◌, Bool, true, false, not, ◌&&◌, ◌||◌, Option, none, some, [], ◌∷◌, length,
  ltb, leb, ◌==◌, if◌then◌else◌, Bytes, text,
}
use khipu_consensus.Prelude.Lists.{get_elem?}
use khipu_consensus.Scan.Marks.{
  byte_in, byte_is, byte_has, slice, starts_at, back, forth, blank, whitespace, is_letter, is_digit,
  not_word_before, not_word_after,
}
use khipu_consensus.Scan.Lexer.{Segment, max, min}
use khipu_consensus.Scan.Tokens.{closer_for}
use khipu_consensus.Scan.Source.{
  Source, segment_at, is_code, is_literal, is_comment, literal_ending_at, literal_starting_at,
  skip_back, skip_forward,
}
use khipu_consensus.Scan.Guard.{before_in, token_bounds, guard_name, guard_binding}

abbrev chaining : Bytes
chaining = text ".([+*/%|&?<>=!^~"

-- The literals before one in its collection, on fuel, since each round moves back: where the first
-- starts, and whether there are any. `none` when something else stands there.
unfoldable pub before_commas : Source → (fuel position : ℕ) → (crossed : Bool) → Option (ℕ × Bool)
before_commas source zero position crossed = some (position, crossed)
before_commas source (suc fuel) position crossed =
    if before_in (text ",") source.bytes position
    then elim (literal_ending_at source (skip_back source (position - 1))) [
      | none ↦ none
      | some previous ↦ before_commas source fuel (skip_back source previous.start) true
    ]
    else some (position, crossed)

-- The literals after one in its collection, on fuel, since each round moves on: where the closing
-- bracket should be.
unfoldable pub after_commas : Source → (closer fuel cursor : ℕ) → Option ℕ
after_commas source closer zero cursor = some cursor
after_commas source closer (suc fuel) cursor =
    let next = skip_forward source (suc cursor) in
    if not (byte_is 44 source.bytes cursor)
    then some cursor
    else if byte_is closer source.bytes next
    then some next
    else elim (literal_starting_at source next) [
      | none ↦ none
      | some following ↦ after_commas source closer fuel (skip_forward source following.end)
    ]

-- what stands before the value: its opening bracket, if any, and the position before that
abbrev opener_before : Source → (position : ℕ) → (crossed : Bool) → Option (Option ℕ × ℕ)
opener_before source zero crossed = if crossed then none else some (none, zero)
opener_before source (suc i) crossed = elim (get_elem? source.bytes i) [
  | none ↦ none
  | some b ↦ elim (closer_for b) [
    | some closer ↦ some (some closer, skip_back source i)
    | none ↦ if crossed then none else some (none, suc i)
  ]
]

-- the end of the value, given the closing bracket that it needs
abbrev value_end : Source → (cursor : ℕ) → Option ℕ → Option ℕ
value_end source cursor none = some cursor
value_end source cursor (some closer) =
    elim (after_commas source closer (length source.bytes) (skip_forward source cursor)) [
      | none ↦ none
      | some last ↦ if byte_is closer source.bytes last then some (suc last) else none
    ]

abbrev keyed_value : Source → (end line_start : ℕ) → Option ℕ × ℕ → Bool
keyed_value source end line_start (closer, position) = elim (value_end source end closer) [
  | none ↦ false
  | some last ↦
      if byte_in chaining source.bytes (skip_forward source last)
      then false
      else guard_binding source position line_start
]

abbrev keyed_from : Source → (end line_start : ℕ) → ℕ × Bool → Bool
keyed_from source end line_start (position, crossed) =
    elim (opener_before source position crossed) [
      | none ↦ false
      | some opened ↦ keyed_value source end line_start opened
    ]

unfoldable pub keyed_literal : Source → Segment → (line_start : ℕ) → Bool
keyed_literal source s line_start =
    let position = skip_back source s.start in
    elim (before_commas source (suc position) position false) [
      | none ↦ false
      | some first ↦ keyed_from source s.end line_start first
    ]

-- `[A-Za-z_][A-Za-z0-9_.\-]*`
abbrev is_inline : ℕ → Bool
is_inline b = is_letter b || is_digit b || b == 95 || b == 46 || b == 45

-- `INLINE_BINDING.match(data, token_start, start)`: where the name ends
abbrev inline_binding : Bytes → (token_start start : ℕ) → Option ℕ
inline_binding src token_start start =
    let name_end = forth (byte_has is_inline src) token_start start in
    if ltb token_start start
      && byte_has (λ b. is_letter b || b == 95) src token_start
      && ltb name_end start
      && byte_is 61 src name_end
    then some name_end
    else none

-- whether a bare value ends its line: only a comment may follow
abbrev ends_line : Source → (rest line_end : ℕ) → Bool
ends_line source rest line_end =
    if ltb rest line_end
    then elim (segment_at source rest) [
      | none ↦ false
      | some following ↦ is_comment following && following.start == rest
    ]
    else true

unfoldable pub keyed_bare : Source → Segment → (start stop line_start line_end : ℕ) → Bool
keyed_bare source s start stop line_start line_end =
    let (token_start, token_end) =
      token_bounds source.bytes (max s.start line_start) (min s.end line_end) start stop
        whitespace in
    if not (ends_line source (forth (byte_in blank source.bytes) token_end line_end) line_end)
    then false
    else elim (inline_binding source.bytes token_start start) [
      | some name_end ↦
          guard_name source (slice source.bytes token_start name_end) token_start line_start
      | none ↦
          guard_binding source (back (byte_in blank source.bytes) line_start token_start) line_start
    ]

-- `ASSERT_NOT_IN_CALL.search(data, low, start)`: where its bracket is
abbrev assert_not_in_call : Bytes → (low start : ℕ) → Option ℕ
assert_not_in_call src low start =
    let after_opener = back (byte_in (32 ∷ 9 ∷ 13 ∷ 10 ∷ []) src) 0 start in
    let name_end = back (byte_in blank src) 0 (after_opener - 1) in
    if before_in (text "(") src after_opener
      && leb (low + 11) name_end
      && starts_at (text "assertNotIn") src (name_end - 11)
      && not_word_before src (name_end - 11)
    then some (after_opener - 1)
    else none

-- `NOT_IN_AFTER.match(data, end)`
abbrev not_in_after : Bytes → (end : ℕ) → Bool
not_in_after src end =
    let not_start = forth (byte_in blank src) end (length src) in
    let in_start = forth (byte_in blank src) (not_start + 3) (length src) in
    ltb end not_start
    && starts_at (text "not") src not_start
    && ltb (not_start + 3) in_start
    && starts_at (text "in") src in_start
    && not_word_after src (in_start + 2) (length src)

abbrev is_code_at : Source → ℕ → Bool
is_code_at source position = elim (segment_at source position) [
  | none ↦ false
  | some owner ↦ is_code owner
]

abbrev opened_in_code : Source → Option ℕ → Bool
opened_in_code source none = false
opened_in_code source (some opener) = is_code_at source opener

unfoldable pub asserted_absent : Source → Segment → Bool
asserted_absent source s =
    opened_in_code source (assert_not_in_call source.bytes (s.start - 64) s.start)
    || (not_in_after source.bytes s.end && is_code_at source s.end)

unfoldable pub structural : Source → Segment → (start stop line_start line_end : ℕ) → Bool
structural source s start stop line_start line_end =
    if is_code s
    then keyed_bare source s start stop line_start line_end
    else is_literal s
      && s.structured
      && (keyed_literal source s line_start || asserted_absent source s)
