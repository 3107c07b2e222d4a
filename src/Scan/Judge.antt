-- ===== src/Scan/Judge.antt =====
-- .github/scripts/forbidden_domain_scan.py: the judgement of the matched lines, and the exit code.
-- `none` stands for the exception of `fail`: the gate could not complete.
pub mod Lines
pub mod Stands
use khipu_consensus.Prelude.{
  ℕ, suc, ◌+◌, ◌-◌, Bool, false, ◌&&◌, ◌||◌, Option, none, some, List, [], ◌∷◌, all, length, ltb,
  ◌==◌, if◌then◌else◌, Bytes,
}
use khipu_consensus.Prelude.Texts.{text_eq}
use khipu_consensus.Prelude.Lists.{get_elem?}
use khipu_consensus.Scan.Marks.{byte_is, slice, find_in, whitespace, hosts_in}
use khipu_consensus.Scan.Family.{hash, as_code}
use khipu_consensus.Scan.Lexer.{Segment, code, literal, comment, prose, html_text, max, min}
use khipu_consensus.Scan.Source.{Source, source_of, segment_at}
use khipu_consensus.Scan.Guard.{token_bounds}
use khipu_consensus.Scan.Shapes.{structural}
use khipu_consensus.Scan.Prose.{is_locator, prose_guard, text_unit}

unfoldable pub prose_line_structural : Source → (start stop line_start line_end : ℕ) → Bool
prose_line_structural source start stop line_start line_end =
    let line = source_of (slice source.bytes line_start line_end) (as_code hash) in
    let relative = start - line_start in
    elim (segment_at line relative) [
      | none ↦ false
      | some s ↦
          if ltb s.end (stop - line_start)
          then false
          else structural line s relative (stop - line_start) 0 (line_end - line_start)
    ]

-- the end of `covered`, of the text that a host stands in
unfoldable pub bare_and_forbidden :
    Source → (words : Bytes) → (offset start stop line_start : ℕ) → Bool
bare_and_forbidden source words offset start stop line_start =
    let (token_start, token_end) =
      token_bounds words 0 (length words) (start - offset) (stop - offset) whitespace in
    if is_locator words token_start token_end (start - offset) (stop - offset)
    then false
    else prose_guard source words offset start stop line_start

abbrev pub own_words : Source → Segment → (start stop line_start line_end : ℕ) → Bool
own_words source s start stop line_start line_end =
    let low = max s.inner_start line_start in
    let high = min s.inner_end line_end in
    bare_and_forbidden source (slice source.bytes low high) low start stop line_start

abbrev pub covered_in : Source → (start stop line_start line_end : ℕ) → Segment → Bool
covered_in source start stop line_start line_end s = if ltb s.end stop then false else elim s.kind [
  | code ↦ structural source s start stop line_start line_end
  | literal ↦
      structural source s start stop line_start line_end
      || own_words source s start stop line_start line_end
  | comment ↦ own_words source s start stop line_start line_end
  | prose ↦
      prose_line_structural source start stop line_start line_end
      || own_words source s start stop line_start line_end
  | html_text ↦
      bare_and_forbidden source (text_unit source line_start line_end) line_start start stop
        line_start
]

-- `covered` of a host that starts at an index
unfoldable pub covered : Source → (start line_start line_end : ℕ) → Bool
covered source start line_start line_end = elim (segment_at source start) [
  | none ↦ false
  | some s ↦ covered_in source start (start + 9) line_start line_end s
]

-- where the lines start that follow the bytes before an index, of the bytes that are left
abbrev pub line_starts_by : Bytes → (i : ℕ) → List ℕ
line_starts_by [] i = []
line_starts_by (b ∷ bs) i =
    let rest = line_starts_by bs (suc i) in if b == 10 then suc i ∷ rest else rest

abbrev pub line_starts : Bytes → List ℕ
line_starts src = 0 ∷ line_starts_by src 0

-- the end of a line with its line break, and without
abbrev pub line_ends : Bytes → (line_start : ℕ) → ℕ × ℕ
line_ends src line_start = elim (find_in (10 ∷ []) src line_start (length src)) [
  | none ↦ (length src, length src)
  | some newline ↦ (suc newline, newline)
]

abbrev pub without_return : Bytes → (line_start line_end : ℕ) → ℕ
without_return src line_start line_end =
    if ltb line_start line_end && byte_is 13 src (line_end - 1) then line_end - 1 else line_end

abbrev pub judge_hosts : Source → (line_start line_end : ℕ) → List ℕ → Option Bool
judge_hosts source line_start line_end [] = none
judge_hosts source line_start line_end (host ∷ hosts) =
    some (all (λ start. covered source start line_start line_end) (host ∷ hosts))

abbrev pub judge_line : Source → (line : Bytes) → (line_start : ℕ) → Option Bool
judge_line source line line_start =
    let (after, content_end) = line_ends source.bytes line_start in
    let line_end = without_return source.bytes line_start content_end in
    if text_eq (slice source.bytes line_start after) line
    then judge_hosts source line_start line_end (hosts_in source.bytes line_start line_end)
    else none

-- `judge`: lines are numbered from one
unfoldable pub judge : Source → (number : ℕ) → (line : Bytes) → Option Bool
judge source number line = elim (get_elem? (line_starts source.bytes) (number - 1)) [
  | none ↦ none
  | some line_start ↦ judge_line source line line_start
]
