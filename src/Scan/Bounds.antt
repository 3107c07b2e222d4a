-- ===== src/Scan/Bounds.antt =====
-- How far the searches of the forbidden-domain gate go.
use khipu_consensus.Prelude.{
  ℕ, zero, suc, ◌+◌, ◌-◌, ◌≤◌, ◌<◌, ◌≡◌, ◌≢◌, ◌⊎◌, refl, ap, ◌∙◌, Bool, true, not, ◌==◌, ◌&&◌, some,
  [], ◌∷◌, inl, inr, arith, length, leb, Bytes,
}
use khipu_consensus.Prelude.Tests.{Bool-cases}
use khipu_consensus.Prelude.Lists.{get_elem?}
use khipu_consensus.Scan.Marks.{drop, is_prefix, starts_at, first_by, find_in, forth_by}

first_by_next :
    (p : ℕ → Bool) (left i k : ℕ)
    → (suc i ≤ k) × (k < suc i + left) × (p k ≡ true)
    → (i ≤ k) × (k < i + suc left) × (p k ≡ true)
first_by_next p left i k (low, high, holds) = (omega arith, omega arith, holds)

-- A first index lies in its range, and passes the test.
pub first_by_lem :
    (p : ℕ → Bool) (left i k : ℕ)
    → first_by p left i ≡ some k
    → (i ≤ k) × (k < i + left) × (p k ≡ true)
unfolding first_by
first_by_lem p zero i k h = cc
first_by_lem p (suc left) i k h = elim (Bool-cases (p i)) [
  | inl here ↦ (ground arith, ground arith, ground arith)
  | inr later ↦ first_by_next p left i k (first_by_lem p left (suc i) k (ground arith))
]

pub forth_by_lem :
    (p : ℕ → Bool) (left stop : ℕ)
    → (stop ≤ forth_by p left stop) × (forth_by p left stop ≤ stop + left)
unfolding forth_by
forth_by_lem p zero stop = (omega arith, omega arith)
forth_by_lem p (suc left) stop =
    (ground (arith, forth_by_lem p left (suc stop)), ground (arith, forth_by_lem p left (suc stop)))

pub is_prefix-length :
    (f : ℕ → ℕ) (ps bs : Bytes) → is_prefix f ps bs ≡ true → length ps ≤ length bs
is_prefix-length f [] bs h = omega arith
is_prefix-length f (p ∷ ps) [] h = cc
is_prefix-length f (p ∷ ps) (b ∷ bs) h = ground (arith, is_prefix-length f ps bs)

-- A text that is found ends in bounds.
pub drop-length : (bs : Bytes) (i n : ℕ) → suc n ≤ length (drop bs i) → i + suc n ≤ length bs
drop-length bs zero n h = omega arith
drop-length [] (suc i) n h = omega arith
drop-length (b ∷ bs) (suc i) n h = omega (arith, drop-length bs i n h)

pub starts_at-length :
    (c : ℕ) (cs src : Bytes) (i : ℕ)
    → starts_at (c ∷ cs) src i ≡ true
    → i + suc (length cs) ≤ length src
unfolding starts_at
starts_at-length c cs src i h =
    drop-length src i (length cs) (is_prefix-length (λ b. b) (c ∷ cs) (drop src i) h)

-- Its first byte stands at its index.
prefix-get :
    (c : ℕ) (cs src : Bytes) (i : ℕ)
    → is_prefix (λ b. b) (c ∷ cs) (drop src i) ≡ true
    → get_elem? src i ≡ some c
prefix-get c cs (b ∷ src) zero h = ground arith
prefix-get c cs (b ∷ src) (suc i) h = prefix-get c cs src i h
prefix-get c cs [] zero h = cc
prefix-get c cs [] (suc i) h = cc

pub starts_at-get :
    (c : ℕ) (cs src : Bytes) (i : ℕ) → starts_at (c ∷ cs) src i ≡ true → get_elem? src i ≡ some c
unfolding starts_at
starts_at-get c cs src i h = prefix-get c cs src i h

find_in_parts :
    (s src : Bytes) (i high k : ℕ)
    → (i ≤ k) × (k < i + (high - i)) × (leb (k + length s) high && starts_at s src k ≡ true)
    → (i ≤ k) × (k + length s ≤ high) × (starts_at s src k ≡ true)
find_in_parts s src i high k (low, bound, here) = (low, ground arith, ground arith)

-- What `find` gives starts in its range and ends in it, and the text stands there.
pub find_in_lem :
    (s src : Bytes) (i high k : ℕ)
    → find_in s src i high ≡ some k
    → (i ≤ k) × (k + length s ≤ high) × (starts_at s src k ≡ true)
unfolding find_in
find_in_lem s src i high k h =
    find_in_parts s src i high k
      (first_by_lem (λ k. leb (k + length s) high && starts_at s src k) (high - i) i k h)

-- The end of a file, or the start of a line.
unfoldable pub IsStop : Bytes → ℕ → Type 0
IsStop src end = (end ≡ length src) ⊎ ((i : ℕ) × (end ≡ suc i) × (get_elem? src i ≡ some 10))

abbrev pub not_break : Bytes → Bool
not_break [] = true
not_break (b ∷ bs) = not (b == 10) && not_break bs

-- No line break stands where a text without one does.
prefix-break-ne :
    (ps bs : Bytes) (k : ℕ)
    → is_prefix (λ b. b) ps bs ≡ true
    → not_break ps ≡ true
    → k < length ps
    → get_elem? bs k ≢ some 10
prefix-break-ne [] bs k starts whole h e = omega arith
prefix-break-ne (p ∷ ps) [] k starts whole h e = cc
prefix-break-ne (p ∷ ps) (b ∷ bs) zero starts whole h e = ground arith
prefix-break-ne (p ∷ ps) (b ∷ bs) (suc k) starts whole h e =
    prefix-break-ne ps bs k (ground arith) (ground arith) (omega arith) e

drop-get : (bs : Bytes) (i k : ℕ) → get_elem? (drop bs i) k ≡ get_elem? bs (i + k)
drop-get bs zero k = ap (get_elem? bs) (omega arith)
drop-get [] (suc i) k = refl
drop-get (b ∷ bs) (suc i) k =
    let shift : suc (i + k) ≡ suc i + k = omega arith in
    drop-get bs i k ∙ ap (get_elem? (b ∷ bs)) shift

pub starts_at-stop :
    (c : ℕ) (cs src : Bytes) (end i : ℕ)
    → IsStop src end
    → not_break (c ∷ cs) ≡ true
    → starts_at (c ∷ cs) src i ≡ true
    → i < end
    → i + suc (length cs) ≤ end
unfolding IsStop starts_at
starts_at-stop c cs src end i (inl last) whole starts before =
    rw last (starts_at-length c cs src i starts)
starts_at-stop c cs src end i (inr (j, after, newline)) whole starts before =
    elim (Bool-cases (leb (i + suc (length cs)) end)) [
      | inl inside ↦ ground arith
      | inr beyond ↦ absurd (
          prefix-break-ne (c ∷ cs) (drop src i) (j - i) starts whole (ground arith)
            (drop-get src i (j - i) ∙ ap (get_elem? src) (omega arith) ∙ newline))
    ]
