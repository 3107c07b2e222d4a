-- ===== src/Scan/Judge/Lines/Starts.antt =====
-- Where the lines of a file start.
use khipu_consensus.Prelude.{
  ℕ, zero, suc, ◌+◌, ◌-◌, ◌≤◌, ◌≡◌, ◌↔◌, ◌⊎◌, refl, sym, ap, ◌∙◌, true, false, some, [], ◌∷◌, inl,
  inr, arith, ◌==◌, Bytes,
}
use khipu_consensus.Prelude.Tests.{some_inj, Bool-cases}
use khipu_consensus.Prelude.Lists.{get_elem?}
use khipu_consensus.Scan.Marks.{take}
use khipu_consensus.Scan.Judge.{line_starts_by, line_starts}
use khipu_consensus.Scan.Judge.Lines.{breaks, IsLineStart}

shown_first : (s i : ℕ) → suc i ≡ s → s ≡ suc (i + 0)
shown_first s i e = omega arith

breaks_break : (b : ℕ) (bs : Bytes) → b == 10 ≡ true → breaks (b ∷ bs) ≡ suc (breaks bs)
breaks_break b bs e = rw (breaks, e) refl

breaks_other : (b : ℕ) (bs : Bytes) → b == 10 ≡ false → breaks (b ∷ bs) ≡ breaks bs
breaks_other b bs e = rw (breaks, e) refl

line_starts_by_lem :
    (src : Bytes) (i k s : ℕ)
    → get_elem? (line_starts_by src i) k ≡ some s
    → (j : ℕ) × (s ≡ suc (i + j))
      × (get_elem? src j ≡ some 10)
      × (breaks (take src (suc j)) ≡ suc k)
line_starts_by_lem [] i k s h = cc
line_starts_by_lem (b ∷ src) i zero s h = elim (Bool-cases (b == 10)) [
  | inl broken ↦ (
    0,
    shown_first s i (some_inj (rw broken at h)),
    ap some (ground arith),
    breaks_break b [] broken,
  )
  | inr plain ↦
      let (j, e, there, counted) = line_starts_by_lem src (suc i) zero s (rw plain at h) in
      (suc j, omega arith, there, breaks_other b (take src (suc j)) plain ∙ counted)
]
line_starts_by_lem (b ∷ src) i (suc k) s h = elim (Bool-cases (b == 10)) [
  | inl broken ↦
      let (j, e, there, counted) = line_starts_by_lem src (suc i) k s (rw broken at h) in
      (suc j, omega arith, there, breaks_break b (take src (suc j)) broken ∙ ap suc counted)
  | inr plain ↦
      let (j, e, there, counted) = line_starts_by_lem src (suc i) (suc k) s (rw plain at h) in
      (suc j, omega arith, there, breaks_other b (take src (suc j)) plain ∙ counted)
]

one_apart : (k : ℕ) → Path ℕ 1 (suc (suc k)) → ⊥
one_apart k e = omega arith

pred_eq : (a b : ℕ) → suc a ≡ suc b → a ≡ b
pred_eq a b e = omega arith

here_next : (i j : ℕ) → suc (i + suc j) ≡ suc (suc i + j)
here_next i j = omega arith

-- A line break is counted up to its end.
breaks_positive : (src : Bytes) (j : ℕ) → get_elem? src j ≡ some 10 → 1 ≤ breaks (take src (suc j))
breaks_positive [] j there = cc
breaks_positive (b ∷ src) zero there = elim (Bool-cases (b == 10)) [
  | inl broken ↦ omega (arith, breaks_break b [] broken)
  | inr plain ↦ absurd (ground arith)
]
breaks_positive (b ∷ src) (suc j) there = elim (Bool-cases (b == 10)) [
  | inl broken ↦ omega (arith, breaks_break b (take src (suc j)) broken)
  | inr plain ↦ omega (arith, breaks_other b (take src (suc j)) plain, breaks_positive src j there)
]

counted_ne :
    (src : Bytes) (j : ℕ) → get_elem? src j ≡ some 10 → suc (breaks (take src (suc j))) ≡ 1 → ⊥
counted_ne src j there e = omega (arith, breaks_positive src j there)

line_starts_by_here :
    (src : Bytes) (i k j : ℕ)
    → get_elem? src j ≡ some 10
    → breaks (take src (suc j)) ≡ suc k
    → get_elem? (line_starts_by src i) k ≡ some (suc (i + j))
line_starts_by_here [] i k j there counted = cc
line_starts_by_here (b ∷ src) i zero zero there counted = elim (Bool-cases (b == 10)) [
  | inl broken ↦ rw broken (ap some (omega arith))
  | inr plain ↦ absurd (ground arith)
]
line_starts_by_here (b ∷ src) i (suc k) zero there counted = elim (Bool-cases (b == 10)) [
  | inl broken ↦ absurd (one_apart k (sym (breaks_break b [] broken) ∙ counted))
  | inr plain ↦ absurd (ground arith)
]
line_starts_by_here (b ∷ src) i zero (suc j) there counted = elim (Bool-cases (b == 10)) [
  | inl broken ↦
      absurd (counted_ne src j there (sym (breaks_break b (take src (suc j)) broken) ∙ counted))
  | inr plain ↦
      rw (plain, here_next i j)
        (line_starts_by_here src (suc i) zero j there
          (sym (breaks_other b (take src (suc j)) plain) ∙ counted))
]
line_starts_by_here (b ∷ src) i (suc k) (suc j) there counted = elim (Bool-cases (b == 10)) [
  | inl broken ↦
      rw (broken, here_next i j)
        (line_starts_by_here src (suc i) k j there
          (pred_eq _ (suc k) (sym (breaks_break b (take src (suc j)) broken) ∙ counted)))
  | inr plain ↦
      rw (plain, here_next i j)
        (line_starts_by_here src (suc i) (suc k) j there
          (sym (breaks_other b (take src (suc j)) plain) ∙ counted))
]

-- The starts of the lines, by the number of lines before.
StartOf : Bytes → (k start : ℕ) → Type 0
StartOf src k start =
    ((start ≡ 0) ⊎ ((j : ℕ) × (start ≡ suc j) × (get_elem? src j ≡ some 10)))
    × (breaks (take src start) ≡ k)

line_starts-StartOf :
    (src : Bytes) (k s : ℕ) → get_elem? (line_starts src) k ≡ some s → StartOf src k s
unfolding StartOf
line_starts-StartOf src zero s h = let start = sym (some_inj h) in (inl start, rw start refl)
line_starts-StartOf src (suc k) s h =
    let (j, e, there, counted) = line_starts_by_lem src 0 k s h in
    let after : s ≡ suc j = omega arith in (inr (j, after, there), rw after counted)

zero_apart : (k : ℕ) → Path ℕ 0 (suc k) → ⊥
zero_apart k e = omega arith

first_start :
    (src : Bytes) (k s : ℕ)
    → s ≡ 0
    → breaks (take src s) ≡ k
    → get_elem? (line_starts src) k ≡ some s
first_start src zero s first counted = ap some (sym first)
first_start src (suc k) s first counted = absurd (zero_apart k (rw first at counted))

no_break : (src : Bytes) (j : ℕ) → get_elem? src j ≡ some 10 → breaks (take src (suc j)) ≡ 0 → ⊥
no_break src j there e = omega (arith, breaks_positive src j there)

StartOf-line_starts :
    (src : Bytes) (k s : ℕ) → StartOf src k s → get_elem? (line_starts src) k ≡ some s
unfolding StartOf
StartOf-line_starts src k s (inl first, counted) = first_start src k s first counted
StartOf-line_starts src zero s (inr (j, after, there), counted) =
    absurd (no_break src j there (rw after at counted))
StartOf-line_starts src (suc k) s (inr (j, after, there), counted) =
    line_starts_by_here src 0 k j there (rw after at counted) ∙ ap some (omega arith)

pub line_starts-IsLineStart :
    (src : Bytes) (number s : ℕ)
    → (get_elem? (line_starts src) (number - 1) ≡ some s) ↔ IsLineStart src number s
unfolding StartOf IsLineStart
line_starts-IsLineStart src number s =
    (line_starts-StartOf src (number - 1) s, StartOf-line_starts src (number - 1) s)
