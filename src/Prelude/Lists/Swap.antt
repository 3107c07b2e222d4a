-- ===== src/Prelude/Lists/Swap.antt =====
-- What an exchange of two entries keeps.
use Prim.Native.Nat.{ℕ, zero, suc, ◌+◌}
use mathlib.Core.Path.{◌≡◌, refl, subst}
use mathlib.Core.Logic.{inl, inr}
use mathlib.Core.Bool.{Bool}
use mathlib.Core.Option.{none, some}
use mathlib.Core.List.{List, [], ◌∷◌}
use native.Mathlib.Omega.{arith}
use khipu_consensus.Prelude.Tests.{Option-cases, one_if}
use khipu_consensus.Prelude.Lists.{get_elem?, set, put_if, swap, count, All}

module _ {ℓ κ} {A : Type ℓ} (P : A → Type κ) where
  pub All-get_elem? : (xs : List A) (i : ℕ) (v : A) → All P xs → get_elem? xs i ≡ some v → P v
  All-get_elem? [] i v h e = cc
  All-get_elem? (x ∷ xs) zero v (p, h) e = subst P (cc) p
  All-get_elem? (x ∷ xs) (suc i) v (p, h) e = All-get_elem? xs i v h e

  All-set : (xs : List A) (i : ℕ) (v : A) → All P xs → P v → All P (set xs i v)
  All-set [] i v h pv = tt
  All-set (x ∷ xs) zero v (p, h) pv = (pv, h)
  All-set (x ∷ xs) (suc i) v (p, h) pv = (p, All-set xs i v h pv)

  All-put_if :
      (xs ys : List A) (i j : ℕ) → All P xs → All P ys → All P (put_if xs i (get_elem? ys j))
  All-put_if xs ys i j h k = elim (Option-cases (get_elem? ys j)) [
    | inl out ↦ rw out h
    | inr (v, found) ↦ rw found (All-set xs i v h (All-get_elem? ys j v k found))
  ]

  -- An exchange keeps what every entry has.
  pub All-swap : (xs : List A) (i j : ℕ) → All P xs → All P (swap xs i j)
  unfolding swap
  All-swap xs i j h = All-put_if (put_if xs i (get_elem? xs j)) xs j i (All-put_if xs xs i j h h) h

module _ {ℓ} {A : Type ℓ} where
  set_out : (xs : List A) (i : ℕ) (v : A) → get_elem? xs i ≡ none → set xs i v ≡ xs
  set_out [] i v e = refl
  set_out (x ∷ xs) zero v e = cc
  set_out (x ∷ xs) (suc i) v e = rw (set_out xs i v e) refl

  get_elem?-set :
      (xs : List A) (i j : ℕ) (v : A) → get_elem? xs j ≡ some v → get_elem? (set xs i v) j ≡ some v
  get_elem?-set [] i j v e = e
  get_elem?-set (x ∷ xs) zero zero v e = refl
  get_elem?-set (x ∷ xs) zero (suc j) v e = e
  get_elem?-set (x ∷ xs) (suc i) zero v e = e
  get_elem?-set (x ∷ xs) (suc i) (suc j) v e = get_elem?-set xs i j v e

  count-set :
      (f : A → Bool) (xs : List A) (i : ℕ) (v w : A)
      → get_elem? xs i ≡ some v
      → count f (set xs i w) + one_if (f v) ≡ count f xs + one_if (f w)
  count-set f [] i v w e = cc
  count-set f (x ∷ xs) zero v w e = ground arith
  count-set f (x ∷ xs) (suc i) v w e = ground (arith, count-set f xs i v w)

  -- An exchange keeps the number of entries that pass a test.
  pub count-swap : (f : A → Bool) (xs : List A) (i j : ℕ) → count f (swap xs i j) ≡ count f xs
  unfolding swap
  count-swap f xs i j = elim (Option-cases (get_elem? xs j)) [
    | inl out ↦ elim (Option-cases (get_elem? xs i)) [
      | inl away ↦ rw (out, away) refl
      | inr (a, at) ↦ rw (out, at, set_out xs j a out) refl
    ]
    | inr (b, found) ↦ elim (Option-cases (get_elem? xs i)) [
      | inl away ↦ rw (found, away, set_out xs i b away) refl
      | inr (a, at) ↦
          rw (found, at)
            (omega (
              arith,
              count-set f xs i a b at,
              count-set f (set xs i b) j b a (get_elem?-set xs i j b found),
            ))
    ]
  ]
