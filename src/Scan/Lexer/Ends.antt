-- ===== src/Scan/Lexer/Ends.antt =====
-- What the forbidden-domain gate finds at an index: where it ends.
use khipu_consensus.Prelude.{
  ℕ, suc, ◌+◌, ◌≤◌, ◌<◌, ◌≡◌, ◌≢◌, refl, Bool, true, false, not, ◌&&◌, Option, none, some, List, [],
  ◌∷◌, inl, inr, arith, length, All, ◌==◌, if◌then◌else◌, Bytes,
}
use khipu_consensus.Prelude.Tests.{Option-cases}
use khipu_consensus.Prelude.Lists.{get_elem?}
use khipu_consensus.Scan.Marks.{elem, byte_is, starts_at, find_in}
use khipu_consensus.Scan.Family.{Family, Rule}
use khipu_consensus.Scan.Bounds.{IsStop, find_in_lem, starts_at-get}
use khipu_consensus.Scan.Tokens.{scan_regex}
use khipu_consensus.Scan.Tokens.Ends.{clear, Fits, IsStop-Fits, string-bounds, scan_regex-bounds}
use khipu_consensus.Scan.Lexer.{
  rule_holds, Found, found_at, block_comment, line_comment, multiline_string, regex_literal,
  quoted_string, or_else, or_end, close_at,
}

-- a marker: not empty, and it does not begin with a line break
abbrev pub mark : Bytes → Bool
mark [] = false
mark (c ∷ cs) = not (c == 10)

-- the markers of a family
pub record IsMarked (f : Family) : Type 0 where
  pub blocks : All (λ (opener, closer). mark opener ≡ true) f.block
  pub lines : All (λ (marker, rule). mark marker ≡ true) f.line
  pub strings :
      All (λ (opener, closer, escapes). (mark opener ≡ true) × (clear closer ≡ true)) f.multiline

-- What is found at an index reaches beyond it, and not beyond the file.
Reaches : (index size : ℕ) → Option Found → Type 0
Reaches index size none = Unit
Reaches index size (some found) = (index < found.stop) × (found.stop ≤ size)

or_else-Reaches :
    (index size : ℕ) (a b : Option Found)
    → Reaches index size a
    → Reaches index size b
    → Reaches index size (or_else a b)
or_else-Reaches index size none b ha hb = hb
or_else-Reaches index size (some found) b ha hb = ha

if-Reaches :
    (index size : ℕ) (b : Bool) (x y : Option Found)
    → (b ≡ true → Reaches index size x)
    → Reaches index size y
    → Reaches index size (if b then x else y)
if-Reaches index size true x y hx hy = hx refl
if-Reaches index size false x y hx hy = hy

-- The end of a block comment.
close_at-bounds :
    (closer src : Bytes) (end i inner : ℕ)
    → i < inner
    → i < end
    → (i < (close_at (find_in closer src inner end) end closer).0)
      × ((close_at (find_in closer src inner end) end closer).0 ≤ end)
close_at-bounds closer src end i inner before h =
    elim (Option-cases (find_in closer src inner end)) [
      | inl nowhere ↦ rw nowhere (h, omega arith)
      | inr (k, there) ↦ rw there (omega (arith, find_in_lem closer src inner end k there))
    ]

block_comment-Reaches :
    (src : Bytes) (end : ℕ) (index : ℕ) (marks : List (Bytes × Bytes))
    → All (λ (opener, closer). mark opener ≡ true) marks
    → index < end
    → Reaches index end (block_comment src index end marks)
unfolding Reaches
block_comment-Reaches src end index [] all h = tt
block_comment-Reaches src end index (([], closer) ∷ marks) (first, others) h = cc
block_comment-Reaches src end index ((c ∷ cs, closer) ∷ marks) (first, others) h =
    if-Reaches index end (starts_at (c ∷ cs) src index) _ (block_comment src index end marks)
      (λ here. close_at-bounds closer src end index (index + suc (length cs)) (omega arith) h)
      (block_comment-Reaches src end index marks others h)

-- A line break does not stand where a marker does.
marker-newline-ne :
    (c : ℕ) (cs src : Bytes) (i k : ℕ)
    → not (c == 10) ≡ true
    → starts_at (c ∷ cs) src i ≡ true
    → starts_at (10 ∷ []) src k ≡ true
    → i ≢ k
marker-newline-ne c cs src i k first here there e =
    let marker = starts_at-get c cs src i here in
    let newline = starts_at-get 10 [] src k there in ground arith

-- The end of a line comment.
or_end-bounds :
    (c : ℕ) (cs src : Bytes) (end : ℕ) (i : ℕ)
    → not (c == 10) ≡ true
    → starts_at (c ∷ cs) src i ≡ true
    → i < end
    → (i < or_end end (find_in (10 ∷ []) src i end))
      × (or_end end (find_in (10 ∷ []) src i end) ≤ end)
or_end-bounds c cs src end i first here h = elim (Option-cases (find_in (10 ∷ []) src i end)) [
  | inl nowhere ↦ rw nowhere (h, omega arith)
  | inr (k, there) ↦
      let (low, high, newline) = find_in_lem (10 ∷ []) src i end k there in
      let apart = marker-newline-ne c cs src i k first here newline in
      rw there (ground arith, omega arith)
]

line_comment-Reaches :
    (src : Bytes) (end : ℕ) (begin index : ℕ) (marks : List (Bytes × Rule))
    → All (λ (marker, rule). mark marker ≡ true) marks
    → index < end
    → Reaches index end (line_comment src begin index end marks)
unfolding Reaches
line_comment-Reaches src end begin index [] all h = tt
line_comment-Reaches src end begin index (([], rule) ∷ marks) (first, others) h = cc
line_comment-Reaches src end begin index ((c ∷ cs, rule) ∷ marks) (first, others) h =
    if-Reaches index end (starts_at (c ∷ cs) src index && rule_holds rule src begin index) _
      (line_comment src begin index end marks)
      (λ both. or_end-bounds c cs src end index first (ground arith) h)
      (line_comment-Reaches src end begin index marks others h)

multiline_string-Reaches :
    (src : Bytes) (end : ℕ) (index : ℕ) (marks : List (Bytes × Bytes × Bool))
    → IsStop src end
    → All (λ (opener, closer, escapes). (mark opener ≡ true) × (clear closer ≡ true)) marks
    → index < end
    → Reaches index end (multiline_string src index end marks)
unfolding Reaches
multiline_string-Reaches src end index [] stop all h = tt
multiline_string-Reaches src end index (([], closer, escapes) ∷ marks) stop (first, others) h = cc
multiline_string-Reaches src end index ((c ∷ cs, [], escapes) ∷ marks) stop (first, others) h = cc
multiline_string-Reaches src end index ((c ∷ cs, d ∷ ds, escapes) ∷ marks) stop (first, others) h =
    if-Reaches index end (starts_at (c ∷ cs) src index) _ (multiline_string src index end marks)
      (λ here.
        string-bounds d ds src end escapes true index (index + suc (length cs))
          (IsStop-Fits d ds src end stop first.1) (omega arith) h)
      (multiline_string-Reaches src end index marks stop others h)

regex_literal-Reaches :
    (regex : Bool) (src : Bytes) (end : ℕ) (begin index : ℕ)
    → Reaches index end (regex_literal regex src begin index end)
unfolding Reaches
regex_literal-Reaches regex src end begin index =
    if-Reaches index end (regex && byte_is 47 src index) _ none
      (λ here. elim (Option-cases (scan_regex src index begin end)) [
        | inl nothing ↦ rw nothing tt
        | inr (r, found) ↦ rw found (scan_regex-bounds src index begin end r found)
      ])
      tt

quoted_string-Reaches :
    (f : Family) (src : Bytes) (end : ℕ) (index : ℕ)
    → index < end
    → Reaches index end (quoted_string f src index end)
unfolding Reaches Fits
quoted_string-Reaches f src end index h = elim (Option-cases (get_elem? src index)) [
  | inl nothing ↦ rw (quoted_string, nothing) tt
  | inr (quote, here) ↦
      rw (quoted_string, here)
        (if-Reaches index end (elem quote f.quotes) _ none
          (λ opens.
            string-bounds quote [] src end (elem quote f.escapes) false index (suc index)
              (λ i starts before. omega arith) (omega arith) h)
          tt)
]

pub found_at-Reaches :
    (f : Family) (src : Bytes) (end : ℕ) (begin index : ℕ) (found : Found)
    → IsMarked f
    → IsStop src end
    → index < end
    → found_at f src begin index end ≡ some found
    → (index < found.stop) × (found.stop ≤ end)
unfolding found_at Reaches
found_at-Reaches f src end begin index found m stop h e =
    let reaches =
      or_else-Reaches index end (block_comment src index end f.block) _
        (block_comment-Reaches src end index f.block m.blocks h)
        (or_else-Reaches index end (line_comment src begin index end f.line) _
          (line_comment-Reaches src end begin index f.line m.lines h)
          (or_else-Reaches index end (multiline_string src index end f.multiline) _
            (multiline_string-Reaches src end index f.multiline stop m.strings h)
            (or_else-Reaches index end (regex_literal f.regex src begin index end) _
              (regex_literal-Reaches f.regex src end begin index)
              (quoted_string-Reaches f src end index h)))) in
    rw e at reaches
