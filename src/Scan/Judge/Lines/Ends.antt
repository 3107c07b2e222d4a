-- ===== src/Scan/Judge/Lines/Ends.antt =====
-- Where the lines of a file end.
use khipu_consensus.Prelude.{
  ℕ, zero, suc, ◌+◌, ◌-◌, ◌≤◌, ◌<◌, ◌≡◌, ◌≢◌, refl, Bool, true, false, ◌&&◌, Option, none, some, [],
  ◌∷◌, inl, inr, arith, length, ltb, leb, ◌==◌, Bytes,
}
use khipu_consensus.Prelude.Tests.{some_inj, Bool-cases, Option-cases}
use khipu_consensus.Prelude.Lists.{get_elem?}
use khipu_consensus.Scan.Marks.{starts_at, first_by, find_in}
use khipu_consensus.Scan.Bounds.{find_in_lem, starts_at-get}
use khipu_consensus.Scan.Judge.{line_ends}

-- Before a first index the test fails, and nowhere does it hold if there is none.
same_index : (i j : ℕ) → i == j ≡ true → i ≡ j
same_index i j h = ground arith

some-ne-none : (i : ℕ) → some i ≡ none → ⊥
some-ne-none i e = cc

first_is :
    (p : ℕ → Bool) (i k left j : ℕ)
    → p i ≡ true
    → first_by p (suc left) i ≡ some k
    → i ≤ j
    → j < k
    → ⊥
unfolding first_by
first_is p i k left j here h low high =
    let same = some_inj (rw (first_by, here) at h) in omega arith

first_by_before :
    (p : ℕ → Bool) (left i k : ℕ)
    → first_by p left i ≡ some k
    → (j : ℕ) → i ≤ j
    → j < k
    → p j ≡ false
unfolding first_by
first_by_before p zero i k h j low high = cc
first_by_before p (suc left) i k h j low high = elim (Bool-cases (p i)) [
  | inl here ↦ absurd (first_is p i k left j here h low high)
  | inr later ↦ elim (Bool-cases (i == j)) [
    | inl same ↦ rw (← same_index i j same) later
    | inr apart ↦ first_by_before p left (suc i) k (rw (first_by, later) at h) j (ground arith) high
  ]
]

first_by_nowhere :
    (p : ℕ → Bool) (left i : ℕ)
    → first_by p left i ≡ none
    → (j : ℕ) → i ≤ j
    → j < i + left
    → p j ≡ false
unfolding first_by
first_by_nowhere p zero i h j low high = absurd (omega arith)
first_by_nowhere p (suc left) i h j low high = elim (Bool-cases (p i)) [
  | inl here ↦ absurd (some-ne-none i (rw (first_by, here) at h))
  | inr later ↦ elim (Bool-cases (i == j)) [
    | inl same ↦ rw (← same_index i j same) later
    | inr apart ↦
        first_by_nowhere p left (suc i) (rw (first_by, later) at h) j (ground arith) (omega arith)
  ]
]

get_elem?-starts_at :
    (src : Bytes) (k : ℕ) → get_elem? src k ≡ some 10 → starts_at (10 ∷ []) src k ≡ true
unfolding starts_at
get_elem?-starts_at (b ∷ src) zero h = elim (Bool-cases (b == 10)) [
  | inl same ↦ rw (starts_at, same) refl
  | inr other ↦ absurd (ground arith)
]
get_elem?-starts_at (b ∷ src) (suc k) h = get_elem?-starts_at src k h
get_elem?-starts_at [] k h = cc

pub get_elem?-length : (src : Bytes) (i b : ℕ) → get_elem? src i ≡ some b → i < length src
get_elem?-length [] i b h = cc
get_elem?-length (c ∷ src) zero b h = omega arith
get_elem?-length (c ∷ src) (suc i) b h = omega (arith, get_elem?-length src i b h)

-- What a search for a line break passes over, and where it stops.
opened :
    (src : Bytes) (start : ℕ) (o : Option ℕ)
    → find_in (10 ∷ []) src start (length src) ≡ o
    → first_by
        (λ k. leb (k + 1) (length src) && starts_at (10 ∷ []) src k)
        (length src - start)
        start
      ≡ o
unfolding find_in
opened src start o h = h

is_break :
    (src : Bytes) (i : ℕ)
    → get_elem? src i ≡ some 10
    → leb (i + 1) (length src) && starts_at (10 ∷ []) src i ≡ false
    → ⊥
is_break src i there h =
    let inside = get_elem?-length src i 10 there in
    let here = get_elem?-starts_at src i there in ground arith

pub find_in-break :
    (src : Bytes) (start k : ℕ)
    → find_in (10 ∷ []) src start (length src) ≡ some k
    → (start ≤ k)
      × (get_elem? src k ≡ some 10)
      × ((i : ℕ) → start ≤ i → i < k → get_elem? src i ≢ some 10)
find_in-break src start k h =
    let (low, high, newline) = find_in_lem (10 ∷ []) src start (length src) k h in
    (
      low,
      starts_at-get 10 [] src k newline,
      λ i after before there. is_break src i there (
          first_by_before (λ k. leb (k + 1) (length src) && starts_at (10 ∷ []) src k)
            (length src - start) start k (opened src start (some k) h) i after before),
    )

pub find_in-none :
    (src : Bytes) (start : ℕ)
    → find_in (10 ∷ []) src start (length src) ≡ none
    → (i : ℕ) → start ≤ i
    → i < length src
    → get_elem? src i ≢ some 10
find_in-none src start h i after before there = is_break src i there (
    first_by_nowhere (λ k. leb (k + 1) (length src) && starts_at (10 ∷ []) src k)
      (length src - start) start (opened src start none h) i after (omega arith))

one_break : (k l : ℕ) → (k < l → ⊥) → (l < k → ⊥) → k ≡ l
one_break k l below above = elim (Bool-cases (ltb k l)) [
  | inl first ↦ absurd (below (ground arith))
  | inr later ↦ elim (Bool-cases (ltb l k)) [
    | inl second ↦ absurd (above (ground arith))
    | inr neither ↦ ground arith
  ]
]

-- Where a line ends that the file ends, and one that a line break ends.
pub line_ends_last :
    (src : Bytes) (start content_end : ℕ)
    → ((i : ℕ) → start ≤ i → i < content_end → get_elem? src i ≢ some 10)
    → content_end ≡ length src
    → line_ends src start ≡ (length src, length src)
line_ends_last src start content_end clear last =
    elim (Option-cases (find_in (10 ∷ []) src start (length src))) [
      | inl nowhere ↦ rw (line_ends, nowhere) refl
      | inr (k, there) ↦
          let (low, newline, before) = find_in-break src start k there in
          let inside = get_elem?-length src k 10 newline in
          absurd (clear k low (omega arith) newline)
    ]

pub line_ends_break :
    (src : Bytes) (start content_end : ℕ)
    → ((i : ℕ) → start ≤ i → i < content_end → get_elem? src i ≢ some 10)
    → start ≤ content_end
    → get_elem? src content_end ≡ some 10
    → line_ends src start ≡ (suc content_end, content_end)
line_ends_break src start content_end clear low newline =
    let inside = get_elem?-length src content_end 10 newline in
    elim (Option-cases (find_in (10 ∷ []) src start (length src))) [
      | inl nowhere ↦ absurd (find_in-none src start nowhere content_end low inside newline)
      | inr (k, there) ↦
          let (after, break_at, before) = find_in-break src start k there in
          let same =
            one_break k content_end (λ h. clear k after h break_at)
              (λ h. before content_end low h newline) in
          rw (line_ends, there, same) refl
    ]
