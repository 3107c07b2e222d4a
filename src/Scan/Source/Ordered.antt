-- ===== src/Scan/Source/Ordered.antt =====
-- The segments of any file, in their order.
use khipu_consensus.Prelude.{
  ℕ, zero, suc, ◌-◌, ◌≤◌, ◌<◌, refl, Bool, true, false, Option, none, some, List, [], ◌∷◌, ◌++◌,
  inl, inr, arith, length, ltb, if◌then◌else◌, Bytes,
}
use khipu_consensus.Prelude.Tests.{Bool-cases, Option-cases}
use khipu_consensus.Prelude.Lists.{get_elem?}
use khipu_consensus.Scan.Marks.{back, forth, blank, byte_in, byte_is, find_in}
use khipu_consensus.Scan.Bounds.{IsStop, find_in_lem, starts_at-get}
use khipu_consensus.Scan.Family.{Reading, as_prose, as_code}
use khipu_consensus.Scan.Lexer.{Segment, add}
use khipu_consensus.Scan.Lexer.Tiles.{Tiles, lex-Tiles}
use khipu_consensus.Scan.Source.{
  Fence, fence_open, fence_closes, prose_segment, line_bounds, fenced, lex_prose_by, segments_of,
}

-- The segments of `[low, high)` stand in order; none is empty, and there may be gaps.
unfoldable pub Ascends : (low : ℕ) → List Segment → (high : ℕ) → Type 0
Ascends low [] high = low ≤ high
Ascends low (s ∷ ss) high = (low ≤ s.start) × (s.start < s.end) × Ascends s.end ss high

Ascends-later :
    (low next : ℕ) (ss : List Segment) (high : ℕ)
    → low ≤ next
    → Ascends next ss high
    → Ascends low ss high
unfolding Ascends
Ascends-later low next [] high h order = omega arith
Ascends-later low next (s ∷ ss) high h (start, some_bytes, order) = (omega arith, some_bytes, order)

-- Segments side by side, and those after them.
Tiles-Ascends :
    (low : ℕ) (ss : List Segment) (high : ℕ) (rest : List Segment) (end : ℕ)
    → Tiles low ss high
    → Ascends high rest end
    → Ascends low (ss ++ rest) end
unfolding Ascends Tiles
Tiles-Ascends low [] high rest end same order = rw same order
Tiles-Ascends low (s ∷ ss) high rest end (start, some_bytes, tiles) order =
    (omega arith, some_bytes, Tiles-Ascends s.end ss high rest end tiles order)

add-Ascends :
    (s : Segment) (rest : List Segment) (end : ℕ)
    → s.start ≤ s.end
    → Ascends s.end rest end
    → Ascends s.start (add s ++ rest) end
unfolding add Ascends
add-Ascends s rest end h order = elim (Bool-cases (ltb s.start s.end)) [
  | inl some_bytes ↦ rw some_bytes (omega arith, ground arith, order)
  | inr empty ↦ rw empty (Ascends-later s.start s.end rest end h order)
]

-- A line ends where it starts or later, and the next starts beyond it.
line_bounds_lem :
    (src : Bytes) (index : ℕ)
    → index < length src
    → (index ≤ (line_bounds src index).0)
      × ((line_bounds src index).0 ≤ (line_bounds src index).1)
      × (index < (line_bounds src index).1)
      × ((line_bounds src index).1 ≤ length src)
      × IsStop src ((line_bounds src index).1)
unfolding IsStop
line_bounds_lem src index h = elim (Option-cases (find_in (10 ∷ []) src index (length src))) [
  | inl last ↦ rw (line_bounds, last) (omega arith, omega arith, h, omega arith, inl refl)
  | inr (k, there) ↦
      let (low, high, newline) = find_in_lem (10 ∷ []) src index (length src) k there in
      rw (line_bounds, there)
        (
          low,
          omega arith,
          omega arith,
          omega arith,
          inr (k, refl, starts_at-get 10 [] src k newline),
        )
]

-- where the segments go on: at a line, or at the start of an open block
start_of : (index : ℕ) → Option Fence → ℕ
start_of index none = index
start_of index (some fence) = fence.block_start

-- An open block starts at or before the line.
IsOpen : Bytes → (index : ℕ) → Option Fence → Type 0
IsOpen src index none = Unit
IsOpen src index (some fence) = (fence.block_start ≤ index) × IsStop src index

-- A fence that opens makes its block start at the next line.
IsNext : Bytes → (following : ℕ) → Option Fence → Type 0
IsNext src following fence = IsOpen src following fence × (following ≤ start_of following fence)

if-IsNext :
    (src : Bytes) (following : ℕ) (b : Bool) (fence : Fence)
    → IsNext src following (some fence)
    → IsNext src following (if b then some fence else none)
unfolding IsNext IsOpen start_of
if-IsNext src following true fence h = h
if-IsNext src following false fence h = (tt, omega arith)

no_fence : (src : Bytes) (following : ℕ) → IsNext src following none
unfolding IsNext IsOpen start_of
no_fence src following = (tt, omega arith)

open_here :
    (src : Bytes) (fence : Fence)
    → IsStop src fence.block_start
    → IsNext src fence.block_start (some fence)
unfolding IsNext IsOpen start_of
open_here src fence stop = ((omega arith, stop), omega arith)

fence_open-IsNext :
    (src : Bytes) (index end following : ℕ)
    → IsStop src following
    → IsNext src following (fence_open src index end following)
unfolding fence_open
fence_open-IsNext src index end following stop =
    elim (Option-cases (get_elem? src (forth (byte_in blank src) index end))) [
      | inl nothing ↦ rw (fence_open, nothing) (no_fence src following)
      | inr (b, there) ↦ rw (fence_open, there) (if-IsNext src following _ _ (open_here src _ stop))
    ]

Tiles-ends : (low : ℕ) (ss : List Segment) (high : ℕ) → Tiles low ss high → Ascends low ss high
unfolding Ascends Tiles
Tiles-ends low [] high same = omega arith
Tiles-ends low (s ∷ ss) high (start, some_bytes, tiles) =
    (omega arith, some_bytes, Tiles-ends s.end ss high tiles)

-- A block that no fence closes.
fenced-Ascends :
    (src : Bytes) (fence : Fence)
    → fence.block_start ≤ length src
    → Ascends fence.block_start (fenced src fence (length src)) (length src)
unfolding IsStop
fenced-Ascends src fence h =
    Tiles-ends fence.block_start _ (length src)
      (lex-Tiles fence.language src fence.block_start (length src) (inl refl) h)

lex_prose_by-Ascends :
    (src : Bytes) (fuel index : ℕ) (fence : Option Fence)
    → index ≤ length src
    → length src - index ≤ fuel
    → IsOpen src index fence
    → Ascends (start_of index fence) (lex_prose_by src fuel index fence) (length src)
unfolding lex_prose_by IsOpen IsNext start_of IsStop Ascends
lex_prose_by-Ascends src zero index none inside enough is_open = inside
lex_prose_by-Ascends src zero index (some fence) inside enough (before, stop) =
    fenced-Ascends src fence (omega arith)
lex_prose_by-Ascends src (suc fuel) index none inside enough is_open =
    elim (Bool-cases (ltb index (length src))) [
      | inr done ↦ rw (lex_prose_by, done) inside
      | inl more ↦
          let (a, b, c, d, e) = line_bounds_lem src index (ground arith) in
          let (stop, following) = line_bounds src index in
          let line_end = back (byte_is 13 src) index stop in
          let (is_next, onward) = fence_open-IsNext src index line_end following e in
          rw (lex_prose_by, more)
            (add-Ascends (prose_segment index stop) _ (length src) a (
              Ascends-later stop (start_of following (fence_open src index line_end following)) _
                (length src) (omega arith)
                (lex_prose_by-Ascends src fuel following (fence_open src index line_end following) d
                  (omega arith) is_next)))
    ]
lex_prose_by-Ascends src (suc fuel) index (some fence) inside enough (before, stop) =
    elim (Bool-cases (ltb index (length src))) [
      | inr done ↦ rw (lex_prose_by, done) (fenced-Ascends src fence (omega arith))
      | inl more ↦
          let (a, b, c, d, e) = line_bounds_lem src index (ground arith) in
          let (line_stop, following) = line_bounds src index in
          let line_end = back (byte_is 13 src) index line_stop in
          elim (Bool-cases (fence_closes fence src index line_end)) [
            | inl closes ↦
                rw (lex_prose_by, more, closes)
                  (Tiles-Ascends fence.block_start _ index _ (length src)
                    (lex-Tiles fence.language src fence.block_start index stop before)
                    (add-Ascends (prose_segment index line_stop) _ (length src) a (
                      Ascends-later line_stop following _ (length src) b
                        (lex_prose_by-Ascends src fuel following none d (omega arith) tt))))
            | inr inner ↦
                rw (lex_prose_by, more, inner)
                  (lex_prose_by-Ascends src fuel following (some fence) d (omega arith)
                    (omega arith, e))
          ]
    ]

pub segments_of-Ascends :
    (src : Bytes) (reading : Reading) → Ascends 0 (segments_of src reading) (length src)
unfolding IsOpen start_of IsStop Ascends
segments_of-Ascends src as_prose =
    lex_prose_by-Ascends src (length src) 0 none (omega arith) (omega arith) tt
segments_of-Ascends src (as_code name) =
    Tiles-ends 0 _ (length src) (lex-Tiles name src 0 (length src) (inl refl) (omega arith))
