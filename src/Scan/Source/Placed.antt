-- ===== src/Scan/Source/Placed.antt =====
-- The search for the segment of a position.
use khipu_consensus.Prelude.{
  ℕ, zero, suc, ◌≤◌, ◌<◌, ◌≡◌, refl, true, some, List, [], ◌∷◌, inl, inr, arith, length, ltb, leb,
  Bytes,
}
use khipu_consensus.Prelude.Tests.{Bool-cases}
use khipu_consensus.Prelude.Lists.{get_elem?}
use khipu_consensus.Scan.Bounds.{IsStop}
use khipu_consensus.Scan.Family.{FamilyName, family_of, Reading, as_code}
use khipu_consensus.Scan.Lexer.{Segment, lex}
use khipu_consensus.Scan.Lexer.Tiles.{Tiles, lex-Tiles}
use khipu_consensus.Scan.Source.{source_of, segments_of, bisect_right, reaching, segment_at}
use khipu_consensus.Scan.Source.Ordered.{Ascends, segments_of-Ascends}

-- A segment of a list that a position is in.
Holds : List Segment → (index p : ℕ) → Segment → Type 0
Holds ss index p s = (get_elem? ss index ≡ some s) × (s.start ≤ p) × (p < s.end)

-- Nothing starts at or before a position that the segments lie beyond.
bisect_right_beyond :
    (ss : List Segment) (low high p : ℕ) → Ascends low ss high → p < low → bisect_right ss p ≡ 0
unfolding bisect_right Ascends
bisect_right_beyond [] low high p order h = refl
bisect_right_beyond (s ∷ ss) low high p (start, some_bytes, order) h = ground arith

leb-true : (a b : ℕ) → a ≤ b → leb a b ≡ true
leb-true a b h = ground arith

ltb-true : (a b : ℕ) → a < b → ltb a b ≡ true
ltb-true a b h = ground arith

some_inj : {r s : Segment} → some r ≡ some s → r ≡ s
some_inj e = cc

-- The segments that stand in order end at the latest where they start after.
Ascends-start :
    (ss : List Segment) (low high index : ℕ) (s : Segment)
    → Ascends low ss high
    → get_elem? ss index ≡ some s
    → low ≤ s.start
unfolding Ascends
Ascends-start [] low high index s order there = cc
Ascends-start (r ∷ ss) low high zero s (start, some_bytes, order) there =
    rw (← some_inj there) start
Ascends-start (r ∷ ss) low high (suc index) s (start, some_bytes, order) there =
    omega (arith, Ascends-start ss r.end high index s order there)

reaching_later :
    (r : Segment) (ss : List Segment) (index p : ℕ) (s : Segment)
    → reaching ss index p ≡ some s
    → reaching (r ∷ ss) (suc index) p ≡ some s
reaching_later r ss zero p s there = cc
reaching_later r ss (suc index) p s there = there

first-reaching :
    (r : Segment) (ss : List Segment) (high p : ℕ)
    → Ascends r.end ss high
    → r.start ≤ p
    → p < r.end
    → reaching (r ∷ ss) (bisect_right (r ∷ ss) p) p ≡ some r
unfolding bisect_right
first-reaching r ss high p order before inside =
    rw
      (
        bisect_right,
        leb-true r.start p before,
        bisect_right_beyond ss r.end high p order inside,
        ltb-true p r.end inside,
      )
      refl

Ascends-reaching :
    (ss : List Segment) (low high index p : ℕ) (s : Segment)
    → Ascends low ss high
    → Holds ss index p s
    → reaching ss (bisect_right ss p) p ≡ some s
unfolding bisect_right Ascends Holds
Ascends-reaching [] low high index p s order (there, before, inside) = cc
Ascends-reaching (r ∷ ss) low high zero p s (start, some_bytes, order) (there, before, inside) =
    let same = some_inj there in
    rw (← same) (first-reaching r ss high p order (rw (← same) at before) (rw (← same) at inside))
Ascends-reaching (r ∷ ss) low high (suc index) p s (start, some_bytes, order)
      (there, before, inside) =
    let beyond = Ascends-start ss r.end high index s order there in
    rw (bisect_right, leb-true r.start p (omega arith))
      (reaching_later r ss (bisect_right ss p) p s
        (Ascends-reaching ss r.end high index p s order (there, before, inside)))

-- Whatever file the gate reads, as prose or as code of a family: if a position is in a segment of
-- the file, `segment_at` finds that segment.
pub segment_at_unique :
    (reading : Reading) (src : Bytes) (index p : ℕ) (s : Segment)
    → get_elem? (segments_of src reading) index ≡ some s
    → s.start ≤ p
    → p < s.end
    → segment_at (source_of src reading) p ≡ some s
unfolding Holds
segment_at_unique reading src index p s there before inside =
    Ascends-reaching (segments_of src reading) 0 (length src) index p s
      (segments_of-Ascends src reading) (there, before, inside)

-- A position in a stretch that segments fill is in one of them.
Tiles-Holds :
    (ss : List Segment) (low high p : ℕ)
    → Tiles low ss high
    → low ≤ p
    → p < high
    → (index : ℕ) × (s : Segment) × Holds ss index p s
unfolding Tiles Holds
Tiles-Holds [] low high p tiles before inside = ground arith
Tiles-Holds (s ∷ ss) low high p (start, some_bytes, tiles) before inside =
    elim (Bool-cases (ltb p s.end)) [
      | inl here ↦ (0, s, (refl, omega arith, ground arith))
      | inr later ↦
          let (index, r, there) = Tiles-Holds ss s.end high p tiles (ground arith) inside in
          (suc index, r, there)
    ]

-- The lexer of the forbidden-domain gate comes to the end of every file of code: each position of
-- the file is in a segment, and the search of `segment_at` finds one that it is in.
pub segment_at_finds :
    (name : FamilyName) (src : Bytes) (p : ℕ)
    → p < length src
    → (s : Segment) × (segment_at (source_of src (as_code name)) p ≡ some s)
      × (s.start ≤ p)
      × (p < s.end)
unfolding Holds IsStop
segment_at_finds name src p inside =
    let (index, s, (there, before, within)) =
      Tiles-Holds (lex (family_of name) src 0 (length src)) 0 (length src) p
        (lex-Tiles name src 0 (length src) (inl refl) (omega arith)) (omega arith) inside in
    (s, segment_at_unique (as_code name) src index p s there before within, before, within)
