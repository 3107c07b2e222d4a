-- ===== src/Scan/Lexer.antt =====
-- .github/scripts/forbidden_domain_scan.py: splitting a tracked file into the segments that the
-- judgement reads.

pub mod Ends
pub mod Tiles
use khipu_consensus.Prelude.{
  ℕ, zero, suc, ◌+◌, ◌-◌, Bool, true, false, not, ◌&&◌, ◌||◌, Option, none, some, List, [], ◌∷◌,
  ◌++◌, length, map, ltb, leb, ◌==◌, if◌then◌else◌, Bytes, text,
}
use khipu_consensus.Prelude.Lists.{get_elem?}
use khipu_consensus.Scan.Marks.{
  byte_in, byte_is, byte_has, elem, slice, lower, starts_at, back, forth, first_in, find_in, blank,
  whitespace, is_letter, is_digit,
}
use khipu_consensus.Scan.Family.{
  Family, FamilyName, Rule, anywhere, after_space, not_after_colon, Reading, as_prose, as_code,
  family_of, interesting, fence_language, among,
}
use khipu_consensus.Scan.Tokens.{Stack, advance, scan_string, scan_regex}

pub data Kind : Type 0 where
  code literal comment prose html_text : Kind

pub record Segment : Type 0 where
  pub start : ℕ
  pub end : ℕ
  pub kind : Kind
  pub inner_start : ℕ
  pub inner_end : ℕ
  pub stack : Stack
  pub structured : Bool

-- `_add`
unfoldable pub add : Segment → List Segment
add s = if ltb s.start s.end then s ∷ [] else []

-- What starts at an index: its kind, its end, its content, and whether the nesting is lost.
pub record Found : Type 0 where
  pub kind : Kind
  pub stop : ℕ
  pub inner_start : ℕ
  pub inner_end : ℕ
  pub poison : Bool

abbrev pub or_else : Option Found → Option Found → Option Found
or_else none other = other
or_else (some x) other = some x

-- `find`, or the end of the text
abbrev pub close_at : Option ℕ → (end : ℕ) → (closer : Bytes) → ℕ × ℕ
close_at none end closer = (end, end)
close_at (some close) end closer = (close + length closer, close)

abbrev pub block_comment : Bytes → (index end : ℕ) → List (Bytes × Bytes) → Option Found
block_comment src index end [] = none
block_comment src index end ((opener, closer) ∷ marks) =
    let inner = index + length opener in
    let (stop, close) = close_at (find_in closer src inner end) end closer in
    if starts_at opener src index
    then some (record {
      kind = comment;
      stop = stop;
      inner_start = inner;
      inner_end = close;
      poison = false;
    })
    else block_comment src index end marks

-- the condition of a line comment's rule
abbrev pub rule_holds : Rule → Bytes → (begin index : ℕ) → Bool
rule_holds anywhere src begin index = true
rule_holds after_space src begin index = index == begin || byte_in whitespace src (index - 1)
rule_holds not_after_colon src begin index = index == begin || not (byte_is 58 src (index - 1))

abbrev pub or_end : (end : ℕ) → Option ℕ → ℕ
or_end end none = end
or_end end (some i) = i

abbrev pub line_comment : Bytes → (begin index end : ℕ) → List (Bytes × Rule) → Option Found
line_comment src begin index end [] = none
line_comment src begin index end ((marker, rule) ∷ marks) =
    let stop = or_end end (find_in (10 ∷ []) src index end) in
    if starts_at marker src index && rule_holds rule src begin index
    then some (record {
      kind = comment;
      stop = stop;
      inner_start = index + length marker;
      inner_end = stop;
      poison = false;
    })
    else line_comment src begin index end marks

abbrev pub string_found : (inner : ℕ) → ℕ × ℕ → Found
string_found inner (stop, close) = record {
  kind = literal;
  stop = stop;
  inner_start = inner;
  inner_end = close;
  poison = false;
}

abbrev pub multiline_string : Bytes → (index end : ℕ) → List (Bytes × Bytes × Bool) → Option Found
multiline_string src index end [] = none
multiline_string src index end ((opener, closer, escapes) ∷ marks) =
    let inner = index + length opener in
    if starts_at opener src index
    then some (string_found inner (scan_string src inner end closer escapes true))
    else multiline_string src index end marks

abbrev pub regex_literal : Bool → Bytes → (begin index end : ℕ) → Option Found
regex_literal regex src begin index end =
    if regex && byte_is 47 src index
    then elim (scan_regex src index begin end) [
      | none ↦ none
      | some r ↦
          let (stop, ambiguous) = r in
          some (record {
            kind = literal;
            stop = stop;
            inner_start = suc index;
            inner_end = stop - 1;
            poison = ambiguous;
          })
    ]
    else none

abbrev pub quoted_string : Family → Bytes → (index end : ℕ) → Option Found
quoted_string f src index end = elim (get_elem? src index) [
  | none ↦ none
  | some quote ↦
      if elem quote f.quotes
      then some (
          string_found (suc index)
            (scan_string src (suc index) end (quote ∷ []) (elem quote f.escapes) false))
      else none
]

-- the body of the loop of `_lex`: what starts at an index, if anything does
unfoldable pub found_at : Family → Bytes → (begin index end : ℕ) → Option Found
found_at f src begin index end = or_else (block_comment src index end f.block) (
    or_else (line_comment src begin index end f.line) (
      or_else (multiline_string src index end f.multiline)
        (or_else (regex_literal f.regex src begin index end) (quoted_string f src index end))))

abbrev pub code_kind : Family → Kind
code_kind f = if f.structured then code else html_text

-- the segment that `flush` adds
abbrev pub code_segment : Family → Stack → (start end : ℕ) → Segment
code_segment f stack start end = record {
  start = start;
  end = end;
  kind = code_kind f;
  inner_start = start;
  inner_end = end;
  stack = stack;
  structured = f.structured;
}

abbrev pub found_segment : Family → Stack → (index : ℕ) → Found → Segment
found_segment f stack index found = record {
  start = index;
  end = found.stop;
  kind = found.kind;
  inner_start = found.inner_start;
  inner_end = found.inner_end;
  stack = stack;
  structured = f.structured;
}

abbrev pub max : ℕ → ℕ → ℕ
max a b = if ltb a b then b else a

abbrev pub min : ℕ → ℕ → ℕ
min a b = if ltb b a then b else a

-- the loop of `_lex`, on fuel: the segments that it adds from its local variables
unfoldable pub lex_by :
    Family → Bytes → (begin end fuel : ℕ) → Stack → (code_start index : ℕ) → List Segment
lex_by f src begin end zero stack code_start index = []
lex_by f src begin end (suc fuel) stack code_start index =
    elim (first_in (byte_in (interesting f) src) index end) [
      | none ↦ add (code_segment f stack code_start end)
      | some i ↦ elim (found_at f src begin i end) [
        | none ↦ lex_by f src begin end fuel stack code_start (suc i)
        | some found ↦
            let here = advance stack (slice src code_start i) in
            let next = max found.stop (suc i) in
            add (code_segment f stack code_start i)
            ++ (add (found_segment f here i found)
                ++ lex_by f src begin end fuel (if found.poison then none else here) next next)
      ]
    ]

abbrev pub first_stack : Family → Stack
first_stack f = if f.structured && f.brackets then some [] else none

-- `_lex`; each round moves the index on
abbrev pub lex : Family → Bytes → (begin end : ℕ) → List Segment
lex f src begin end = lex_by f src begin end (suc (end - begin)) (first_stack f) begin begin
