-- ===== src/Prelude/Texts/Decimal.antt =====
-- A decimal numeral can be read back, and holds digits alone.
use Prim.Native.Nat.{ℕ, zero, suc, ◌+◌, ◌-◌, ◌*◌, ◌/◌, ◌%◌, ◌≤◌, ◌<◌}
use mathlib.Core.Path.{◌≡◌, refl, sym, ◌∙◌, ap}
use mathlib.Core.Logic.{inl, inr}
use mathlib.Core.List.{[], ◌∷◌, ◌++◌}
use native.Mathlib.Omega.{arith}
use khipu_consensus.Prelude.Tests.{ltb, Bool-cases}
use khipu_consensus.Prelude.Lists.{length, All}
use khipu_consensus.Prelude.Texts.{Text, decimal, decimal_on}

-- `int(s)` after the digits that are read already
pub read : ℕ → Text → ℕ
read acc [] = acc
read acc (c ∷ s) = read (acc * 10 + (c - 48)) s

read-decimal_on :
    (fuel n : ℕ) (done : Text) → n < fuel → read 0 (decimal_on fuel n done) ≡ read n done
unfolding decimal_on read
read-decimal_on zero n done h = absurd (omega arith)
read-decimal_on (suc fuel) n done h = elim (Bool-cases (ltb n 10)) [
  | inl small ↦ rw small (ap (λ (k : ℕ). read k done) (omega arith))
  | inr large ↦
      let ih = read-decimal_on fuel (n / 10) ((48 + n % 10) ∷ done) (ground arith) in
      rw large (ih ∙ ap (λ (k : ℕ). read k done) (omega arith))
]

-- what is printed is read back
read-decimal : (n : ℕ) → read 0 (decimal n) ≡ n
unfolding decimal read
read-decimal n = read-decimal_on (suc n) n [] (omega arith)

pub decimal-injective : (m n : ℕ) → decimal m ≡ decimal n → m ≡ n
decimal-injective m n e = sym (read-decimal m) ∙ ap (read 0) e ∙ read-decimal n

abbrev IsDigit : ℕ → Type 0
IsDigit c = 48 ≤ c

decimal_on-IsDigit :
    (fuel n : ℕ) (done : Text) → All IsDigit done → All IsDigit (decimal_on fuel n done)
unfolding decimal_on
decimal_on-IsDigit zero n done h = h
decimal_on-IsDigit (suc fuel) n done h = elim (Bool-cases (ltb n 10)) [
  | inl small ↦ rw (small, All) (omega arith, h)
  | inr large ↦ rw large (decimal_on-IsDigit fuel (n / 10) ((48 + n % 10) ∷ done) (omega arith, h))
]

pub decimal-IsDigit : (n : ℕ) → All IsDigit (decimal n)
unfolding decimal
decimal-IsDigit n = decimal_on-IsDigit (suc n) n [] tt

-- A run of digits ends at the first space.
pub digits_end :
    (s t x y : Text) → All IsDigit s → All IsDigit t → s ++ 32 ∷ x ≡ t ++ 32 ∷ y → (s ≡ t) × (x ≡ y)
digits_end [] [] x y h k e = (refl, cc)
digits_end [] (d ∷ t) x y h (kd, k) e = absurd (let f : d ≡ 32 = cc in omega arith)
digits_end (c ∷ s) [] x y (hc, h) k e = absurd (let f : c ≡ 32 = cc in omega arith)
digits_end (c ∷ s) (d ∷ t) x y (hc, h) (kd, k) e =
    let (same, rest) = digits_end s t x y h k (cc) in (cc, rest)

-- Of two equal texts the parts of equal length are equal.
pub parts_of_length : (s t x y : Text) → length s ≡ length t → s ++ x ≡ t ++ y → (s ≡ t) × (x ≡ y)
parts_of_length [] [] x y l e = (refl, e)
parts_of_length [] (d ∷ t) x y l e = absurd (omega arith)
parts_of_length (c ∷ s) [] x y l e = absurd (omega arith)
parts_of_length (c ∷ s) (d ∷ t) x y l e =
    let (same, rest) = parts_of_length s t x y (omega arith) (cc) in (cc, rest)
