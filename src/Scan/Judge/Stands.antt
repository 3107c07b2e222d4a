-- ===== src/Scan/Judge/Stands.antt =====
-- The lines that the forbidden-domain gate lets pass.
use khipu_consensus.Prelude.{ℕ, ◌+◌, ◌≤◌, ◌≡◌, true, some, Bytes}
use khipu_consensus.Scan.Marks.{host_at}
use khipu_consensus.Scan.Lexer.{Segment, code, literal, comment, prose, html_text}
use khipu_consensus.Scan.Source.{Source, segment_at}
use khipu_consensus.Scan.Shapes.{structural}
use khipu_consensus.Scan.Prose.{text_unit}
use khipu_consensus.Scan.Judge.{
  prose_line_structural, bare_and_forbidden, own_words, without_return,
}
use khipu_consensus.Scan.Judge.Lines.{IsLineStart, IsLineFrom}
pub mod Excused
pub mod Hosts
pub mod Lined

-- A prohibited host that stands at an index, within a part of the file.
pub IsHostIn : Bytes → (low high i : ℕ) → Type 0
IsHostIn src low high i = (low ≤ i) × (i + 9 ≤ high) × (host_at src i ≡ true)

-- What covers a host in a segment, by the segment's kind: a structure of the file, the words that
-- stand in the segment on the line, or the unit of text on the line.
pub data Excuses (source : Source) (start low high : ℕ) (s : Segment) : Type 0 where
  in_code :
      s.kind ≡ code
      → structural source s start (start + 9) low high ≡ true
      → Excuses source start low high s
  literal_structure :
      s.kind ≡ literal
      → structural source s start (start + 9) low high ≡ true
      → Excuses source start low high s
  literal_words :
      s.kind ≡ literal
      → own_words source s start (start + 9) low high ≡ true
      → Excuses source start low high s
  comment_words :
      s.kind ≡ comment
      → own_words source s start (start + 9) low high ≡ true
      → Excuses source start low high s
  prose_line :
      s.kind ≡ prose
      → prose_line_structural source start (start + 9) low high ≡ true
      → Excuses source start low high s
  prose_words :
      s.kind ≡ prose
      → own_words source s start (start + 9) low high ≡ true
      → Excuses source start low high s
  page_text :
      s.kind ≡ html_text
      → bare_and_forbidden source (text_unit source low high) low start (start + 9) low ≡ true
      → Excuses source start low high s

-- The host stands within one segment of the file, which covers it.
pub IsExcused : Source → (start low high : ℕ) → Type 0
IsExcused source start low high =
    (s : Segment) × (segment_at source start ≡ some s)
    × (start + 9 ≤ s.end)
    × Excuses source start low high s

-- There is a prohibited host in a part of the file, and each one there is covered.
pub HostsCovered : Source → (low high : ℕ) → Type 0
HostsCovered source low high =
    ((i : ℕ) × IsHostIn source.bytes low high i)
    × ((i : ℕ) → IsHostIn source.bytes low high i → IsExcused source i low high)

-- A line stands in the file under its number, with a prohibited host, and each one there is covered;
-- a carriage return at its end does not belong to its text.
pub Stands : Source → (number : ℕ) → (line : Bytes) → Type 0
Stands source number line =
    (start : ℕ) × (content_end : ℕ) × IsLineStart source.bytes number start
    × IsLineFrom source.bytes start content_end line
    × HostsCovered source start (without_return source.bytes start content_end)
