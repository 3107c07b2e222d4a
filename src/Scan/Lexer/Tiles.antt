-- ===== src/Scan/Lexer/Tiles.antt =====
-- The segments of a file of code, side by side.
use khipu_consensus.Prelude.{
  ℕ, zero, suc, ◌-◌, ◌≤◌, ◌<◌, ◌≡◌, refl, false, List, [], ◌∷◌, ◌++◌, inl, inr, arith, ltb, Bytes,
}
use khipu_consensus.Prelude.Tests.{Bool-cases, Option-cases}
use khipu_consensus.Scan.Marks.{byte_in, slice, first_in}
use khipu_consensus.Scan.Bounds.{IsStop, first_by_lem}
use khipu_consensus.Scan.Family.{
  Family, FamilyName, family_of, interesting, python, hash, script, jsx, c, css, dash, lua,
  data_file, html,
}
use khipu_consensus.Scan.Tokens.{Stack, advance}
use khipu_consensus.Scan.Lexer.{
  Segment, add, found_at, found_segment, code_segment, max, lex_by, lex, first_stack,
}
use khipu_consensus.Scan.Lexer.Ends.{IsMarked, found_at-Reaches}

-- The segments fill `[low, high)`, without a gap and without an overlap; none is empty.
unfoldable pub Tiles : (low : ℕ) → List Segment → (high : ℕ) → Type 0
Tiles low [] high = low ≡ high
Tiles low (s ∷ ss) high = (s.start ≡ low) × (s.start < s.end) × Tiles s.end ss high

end_is :
    (s : Segment) (low : ℕ) → s.start ≡ low → low ≤ s.end → ltb s.start s.end ≡ false → s.end ≡ low
end_is s low start order empty = ground arith

-- A segment that is added stands before the others, if it is not empty.
pub add-Tiles :
    (s : Segment) (rest : List Segment) (low high : ℕ)
    → s.start ≡ low
    → low ≤ s.end
    → Tiles s.end rest high
    → Tiles low (add s ++ rest) high
unfolding add Tiles
add-Tiles s rest low high start order tiles = elim (Bool-cases (ltb s.start s.end)) [
  | inl some_bytes ↦ rw some_bytes (start, ground arith, tiles)
  | inr empty ↦ let same = end_is s low start order empty in rw (empty, ← same) tiles
]

add_last-Tiles :
    (s : Segment) (high : ℕ) → s.start ≤ s.end → s.end ≡ high → Tiles s.start (add s) high
unfolding add Tiles
add_last-Tiles s high order last = elim (Bool-cases (ltb s.start s.end)) [
  | inl some_bytes ↦ rw some_bytes (refl, ground arith, last)
  | inr empty ↦ rw empty (ground arith)
]

max_first : (a b : ℕ) → b ≤ a → max a b ≡ a
max_first a b h = ground arith

lex_by-Tiles :
    (f : Family) (src : Bytes) (begin end fuel : ℕ) (stack : Stack) (code_start index : ℕ)
    → IsMarked f
    → IsStop src end
    → code_start ≤ index
    → index ≤ end
    → end - index < fuel
    → Tiles code_start (lex_by f src begin end fuel stack code_start index) end
unfolding lex_by Tiles
lex_by-Tiles f src begin end zero stack code_start index m stop before inside enough = omega arith
lex_by-Tiles f src begin end (suc fuel) stack code_start index m stop before inside enough =
    elim (Option-cases (first_in (byte_in (interesting f) src) index end)) [
      | inl plain ↦
          rw (lex_by, plain)
            (add_last-Tiles (code_segment f stack code_start end) end (omega arith) refl)
      | inr (i, first) ↦
          let (low, high, here) =
            first_by_lem (byte_in (interesting f) src) (end - index) index i first in
          elim (Option-cases (found_at f src begin i end)) [
            | inl nothing ↦
                rw (lex_by, first, nothing)
                  (lex_by-Tiles f src begin end fuel stack code_start (suc i) m stop (omega arith)
                    (omega arith) (omega arith))
            | inr (found, there) ↦
                let (beyond, bound) =
                  found_at-Reaches f src end begin i found m stop (omega arith) there in
                rw (lex_by, first, there, max_first found.stop (suc i) beyond)
                  (add-Tiles (code_segment f stack code_start i) _ code_start end refl (omega arith)
                    (add-Tiles (found_segment f (advance stack (slice src code_start i)) i found) _
                      i end refl (omega arith)
                      (lex_by-Tiles f src begin end fuel _ found.stop found.stop m stop
                        (omega arith) bound (omega arith))))
          ]
    ]

family_of-IsMarked : (name : FamilyName) → IsMarked (family_of name)
family_of-IsMarked python = record {
  blocks = tt;
  lines = (refl, tt);
  strings = ((refl, refl), ((refl, refl), tt));
}
family_of-IsMarked hash = record { blocks = tt; lines = (refl, tt); strings = tt }
family_of-IsMarked script = record {
  blocks = (refl, tt);
  lines = (refl, tt);
  strings = ((refl, refl), tt);
}
family_of-IsMarked jsx = record {
  blocks = (refl, tt);
  lines = (refl, tt);
  strings = ((refl, refl), tt);
}
family_of-IsMarked c = record { blocks = (refl, tt); lines = (refl, tt); strings = tt }
family_of-IsMarked css = record { blocks = (refl, tt); lines = tt; strings = tt }
family_of-IsMarked dash = record {
  blocks = (refl, (refl, (refl, tt)));
  lines = (refl, tt);
  strings = tt;
}
family_of-IsMarked lua = record {
  blocks = (refl, tt);
  lines = (refl, tt);
  strings = ((refl, refl), tt);
}
family_of-IsMarked data_file = record { blocks = tt; lines = tt; strings = tt }
family_of-IsMarked html = record { blocks = (refl, tt); lines = tt; strings = tt }

-- The segments of a stretch of code, up to the end of the file or the start of a line.
pub lex-Tiles :
    (name : FamilyName) (src : Bytes) (begin end : ℕ)
    → IsStop src end
    → begin ≤ end
    → Tiles begin (lex (family_of name) src begin end) end
lex-Tiles name src begin end stop h =
    lex_by-Tiles (family_of name) src begin end (suc (end - begin)) (first_stack (family_of name))
      begin begin (family_of-IsMarked name) stop (omega arith) h (omega arith)
