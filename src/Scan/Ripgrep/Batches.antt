-- ===== src/Scan/Ripgrep/Batches.antt =====
-- The batches of paths that are handed to ripgrep.
use khipu_consensus.Prelude.{
  ℕ, ◌+◌, ◌≤◌, ◌<◌, ◌≡◌, ◌⊎◌, refl, ap, ◌||◌, List, [], ◌∷◌, ◌++◌, inl, inr, All, arith, length,
  ltb, leb, append_assoc, Bytes,
}
use khipu_consensus.Prelude.Tests.{Bool-cases}
use khipu_consensus.Prelude.Lists.{length-append}
use khipu_consensus.Scan.Ripgrep.{batches, batches_from}

-- the size that the program counts for a batch: each path and a byte that ends it
abbrev pub total : List Bytes → ℕ
total [] = 0
total (p ∷ ps) = length p + 1 + total ps

abbrev pub joined : List (List Bytes) → List Bytes
joined [] = []
joined (b ∷ bs) = b ++ joined bs

-- A batch of 1 to 128 paths, of at most 16384 bytes unless it is one path.
pub IsBounded : List Bytes → Type 0
IsBounded b = (1 ≤ length b) × (length b ≤ 128) × ((total b ≤ 16384) ⊎ (length b ≡ 1))

total-append : (a : List Bytes) (p : Bytes) → total (a ++ (p ∷ [])) ≡ total a + length p + 1
total-append [] p = omega arith
total-append (q ∷ a) p = omega (arith, total-append a p)

IsBounded-one : (p : Bytes) → IsBounded (p ∷ [])
unfolding IsBounded
IsBounded-one p = (omega arith, omega arith, inr refl)

IsBounded-more :
    (p : Bytes) (batch : List Bytes) (path : Bytes)
    → length (p ∷ batch) < 128
    → total (p ∷ batch) + length path + 1 ≤ 16384
    → IsBounded (p ∷ (batch ++ (path ∷ [])))
unfolding IsBounded
IsBounded-more p batch path few small =
    let longer = length-append batch (path ∷ []) in
    let larger = total-append batch path in (omega arith, omega arith, inl (omega arith))

-- The batches that the loop gives from a batch in bounds, whose size is counted right.
Splits : (paths : List Bytes) → List (List Bytes) → Type 0
Splits paths bs = (joined bs ≡ paths) × All IsBounded bs

no_paths : Splits [] []
unfolding Splits
no_paths = (refl, tt)

Splits-first :
    (b paths : List Bytes) (bs : List (List Bytes))
    → IsBounded b
    → Splits paths bs
    → Splits (b ++ paths) (b ∷ bs)
unfolding Splits
Splits-first b paths bs h (whole, all) = (ap (λ ps. b ++ ps) whole, (h, all))

batches_from-Splits :
    (p : Bytes) (batch : List Bytes) (size : ℕ) (paths : List Bytes)
    → size ≡ total (p ∷ batch)
    → IsBounded (p ∷ batch)
    → Splits ((p ∷ batch) ++ paths) (batches_from (p ∷ batch) size paths)
unfolding batches_from
batches_from-Splits p batch size [] counted h = Splits-first (p ∷ batch) [] [] h no_paths
batches_from-Splits p batch size (path ∷ paths) counted h =
    elim (Bool-cases (leb 128 (length (p ∷ batch)) || ltb 16384 (size + length path + 1))) [
      | inl full ↦
          rw (batches_from, full)
            (Splits-first (p ∷ batch) (path ∷ paths) _ h (
              batches_from-Splits path [] (length path + 1) paths (omega arith)
                (IsBounded-one path)))
      | inr room ↦
          rw (batches_from, room, ← append_assoc (p ∷ batch) (path ∷ []) paths)
            (batches_from-Splits p (batch ++ (path ∷ [])) (size + length path + 1) paths
              (omega (arith, total-append batch path))
              (IsBounded-more p batch path (ground arith) (ground arith)))
    ]

-- The batches that are handed to ripgrep are, one after the other, all the paths in their order;
-- each has 1 to 128 paths, and at most 16384 bytes, one added for each path, unless it is a
-- single path.
pub batches_lem :
    (paths : List Bytes) → (joined (batches paths) ≡ paths) × All IsBounded (batches paths)
unfolding batches_from Splits
batches_lem [] = (refl, tt)
batches_lem (path ∷ paths) =
    batches_from-Splits path [] (0 + length path + 1) paths (omega arith) (IsBounded-one path)
