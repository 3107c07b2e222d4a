-- ===== src/Scan/Source.antt =====
-- .github/scripts/forbidden_domain_scan.py: the lines of prose, the class Source, and finding one's
-- way in its segments.
pub mod Ordered
pub mod Placed
use khipu_consensus.Prelude.{
  ℕ, zero, suc, ◌+◌, ◌-◌, Bool, true, false, not, ◌&&◌, ◌||◌, Option, none, some, List, [], ◌∷◌,
  ◌++◌, length, map, ltb, leb, ◌==◌, if◌then◌else◌, Bytes, text,
}
use khipu_consensus.Prelude.Lists.{get_elem?}
use khipu_consensus.Scan.Marks.{
  byte_in, byte_is, byte_has, slice, lower, starts_at, back, forth, find_in, blank, whitespace,
  is_letter, is_digit,
}
use khipu_consensus.Scan.Family.{FamilyName, Reading, as_prose, as_code, family_of, fence_language}
use khipu_consensus.Scan.Tokens.{Stack, advance}
use khipu_consensus.Scan.Lexer.{Segment, Kind, code, literal, comment, prose, html_text, add, lex}

-- An open fence: its marker, how often it stands there, where its block starts, and its language.
pub record Fence : Type 0 where
  pub marker : ℕ
  pub count : ℕ
  pub block_start : ℕ
  pub language : FamilyName

-- one optional byte
abbrev optional : ℕ → Bytes → (i end : ℕ) → ℕ
optional b src i end = if ltb i end && byte_is b src i then suc i else i

-- `[A-Za-z0-9_+\-]`
abbrev is_language : ℕ → Bool
is_language b = is_letter b || is_digit b || b == 95 || b == 43 || b == 45

abbrev fence_name : Bytes → (i end : ℕ) → FamilyName
fence_name src i end =
    let named = optional 46 src (optional 123 src (forth (byte_in blank src) i end) end) end in
    fence_language (map lower (slice src named (forth (byte_has is_language src) named end)))

-- `FENCE_OPEN.match(line)` on the line in `[index, end)`
unfoldable pub fence_open : Bytes → (index end following : ℕ) → Option Fence
fence_open src index end following =
    let first = forth (byte_in blank src) index end in
    elim (get_elem? src first) [
      | none ↦ none
      | some b ↦
          let last = forth (byte_is b src) first end in
          if leb (first - index) 3 && ltb first end && (b == 96 || b == 126) && leb (first + 3) last
          then some (record {
            marker = b;
            count = last - first;
            block_start = following;
            language = fence_name src last end;
          })
          else none
    ]

-- the pattern that closes a fence, on the line in `[index, end)`
unfoldable pub fence_closes : Fence → Bytes → (index end : ℕ) → Bool
fence_closes fence src index end =
    let first = forth (byte_in blank src) index end in
    let last = forth (byte_is fence.marker src) first end in
    leb (first - index) 3
    && leb fence.count (last - first)
    && forth (byte_in blank src) last end == end

abbrev pub prose_segment : (start end : ℕ) → Segment
prose_segment start end = record {
  start = start;
  end = end;
  kind = prose;
  inner_start = start;
  inner_end = end;
  stack = none;
  structured = false;
}

-- a line's end, and the start of the next
abbrev pub line_bounds : Bytes → ℕ → ℕ × ℕ
line_bounds src index = elim (find_in (10 ∷ []) src index (length src)) [
  | none ↦ (length src, length src)
  | some newline ↦ (newline, suc newline)
]

abbrev pub fenced : Bytes → Fence → (end : ℕ) → List Segment
fenced src fence end = lex (family_of fence.language) src fence.block_start end

-- the loop of `_lex_prose`, on fuel: each round moves the index on
unfoldable pub lex_prose_by : Bytes → (fuel index : ℕ) → Option Fence → List Segment
lex_prose_by src zero index none = []
lex_prose_by src zero index (some fence) = fenced src fence (length src)
lex_prose_by src (suc fuel) index none =
    let (stop, following) = line_bounds src index in
    let line_end = back (byte_is 13 src) index stop in
    if ltb index (length src)
    then add (prose_segment index stop)
      ++ lex_prose_by src fuel following (fence_open src index line_end following)
    else []
lex_prose_by src (suc fuel) index (some fence) =
    let (stop, following) = line_bounds src index in
    let line_end = back (byte_is 13 src) index stop in
    let closed = lex_prose_by src fuel following none in
    let still_open = lex_prose_by src fuel following (some fence) in
    if ltb index (length src)
    then (if fence_closes fence src index line_end
        then fenced src fence index ++ (add (prose_segment index stop) ++ closed)
        else still_open)
    else fenced src fence (length src)

-- One tracked file split into segments.
pub record Source : Type 0 where
  pub bytes : Bytes
  pub segments : List Segment

abbrev pub segments_of : Bytes → Reading → List Segment
segments_of src as_prose = lex_prose_by src (length src) 0 none
segments_of src (as_code name) = lex (family_of name) src 0 (length src)

-- `Source(data, family)`
abbrev pub source_of : Bytes → Reading → Source
source_of src reading = record { bytes = src; segments = segments_of src reading }

-- `bisect.bisect_right` of the segments' starts, which ascend
unfoldable pub bisect_right : List Segment → ℕ → ℕ
bisect_right [] position = 0
bisect_right (s ∷ ss) position =
    let rest = bisect_right ss position in if leb s.start position then suc rest else 0

-- the segment before an index, if it reaches beyond a position
abbrev pub reaching : List Segment → (index position : ℕ) → Option Segment
reaching ss zero position = none
reaching ss (suc i) position = elim (get_elem? ss i) [
  | none ↦ none
  | some s ↦ if ltb position s.end then some s else none
]

abbrev pub segment_at : Source → ℕ → Option Segment
segment_at source position =
    reaching source.segments (bisect_right source.segments position) position

abbrev stack_in : Bytes → (position : ℕ) → Segment → Stack
stack_in src position s = elim s.kind [
  | code ↦ advance s.stack (slice src s.start position)
  | _ ↦ s.stack
]

abbrev pub stack_at : Source → ℕ → Stack
stack_at source position = elim (segment_at source position) [
  | none ↦ none
  | some s ↦ stack_in source.bytes position s
]

abbrev pub is_code : Segment → Bool
is_code s = elim s.kind [ code ↦ true | _ ↦ false ]

abbrev pub is_literal : Segment → Bool
is_literal s = elim s.kind [ literal ↦ true | _ ↦ false ]

abbrev pub is_comment : Segment → Bool
is_comment s = elim s.kind [ comment ↦ true | _ ↦ false ]

abbrev kept : (Segment → Bool) → Option Segment → Option Segment
kept p none = none
kept p (some s) = if p s then some s else none

abbrev pub literal_ending_at : Source → ℕ → Option Segment
literal_ending_at source zero = none
literal_ending_at source (suc i) = kept (λ s. is_literal s && s.end == suc i) (segment_at source i)

abbrev pub literal_starting_at : Source → ℕ → Option Segment
literal_starting_at source position =
    kept (λ s. is_literal s && s.start == position) (segment_at source position)

-- `skip_back`, on fuel: each round moves back
unfoldable pub skip_back_by : Source → (fuel position : ℕ) → ℕ
skip_back_by source fuel zero = zero
skip_back_by source zero (suc i) = suc i
skip_back_by source (suc fuel) (suc i) =
    let over_space = skip_back_by source fuel i in
    if byte_in whitespace source.bytes i
    then over_space
    else elim (kept is_comment (segment_at source i)) [
      | none ↦ suc i
      | some s ↦ skip_back_by source fuel s.start
    ]

abbrev pub skip_back : Source → ℕ → ℕ
skip_back source position = skip_back_by source position position

-- `skip_forward`, on fuel: each round moves on
unfoldable pub skip_forward_by : Source → (fuel position : ℕ) → ℕ
skip_forward_by source zero position = position
skip_forward_by source (suc fuel) position =
    let over_space = skip_forward_by source fuel (suc position) in
    if not (ltb position (length source.bytes))
    then position
    else if byte_in whitespace source.bytes position
    then over_space
    else elim (kept (λ s. is_comment s && s.start == position) (segment_at source position)) [
      | none ↦ position
      | some s ↦ skip_forward_by source fuel s.end
    ]

abbrev pub skip_forward : Source → ℕ → ℕ
skip_forward source position = skip_forward_by source (length source.bytes - position) position
