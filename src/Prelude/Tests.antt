-- ===== src/Prelude/Tests.antt =====
-- Boolean tests on the native numbers, the conditional, and Python's `==` as an interface.
use Prim.Native.Nat.{ℕ, compare, Ordering}
use mathlib.Core.Path.{◌≡◌, refl}
use mathlib.Core.Logic.{◌⊎◌, inl, inr}
use mathlib.Core.Bool.{Bool, true, false}
use mathlib.Core.Option.{Option, none, some}

abbrev pub ltb : ℕ → ℕ → Bool
ltb a b = elim (compare a b) [ Ordering.lt ↦ true | _ ↦ false ]

abbrev pub leb : ℕ → ℕ → Bool
leb a b = elim (compare a b) [ Ordering.gt ↦ false | _ ↦ true ]

infix 50 ◌==◌
abbrev pub ◌==◌ : ℕ → ℕ → Bool
a == b = elim (compare a b) [ Ordering.eq ↦ true | _ ↦ false ]

infix 1 if◌then◌else◌
abbrev pub if◌then◌else◌ {ℓ} : {A : Type ℓ} → Bool → A → A → A
if true then x else y = x
if false then x else y = y

-- To split on a computed value and keep the equation.
pub Bool-cases : (b : Bool) → (b ≡ true) ⊎ (b ≡ false)
Bool-cases true = inl refl
Bool-cases false = inr refl

pub Option-cases {ℓ} : {A : Type ℓ} (o : Option A) → (o ≡ none) ⊎ ((a : A) × (o ≡ some a))
Option-cases none = inl refl
Option-cases (some a) = inr (a, refl)

-- `int(b)`
abbrev pub one_if : Bool → ℕ
one_if true = 1
one_if false = 0

-- A call that may fail, and what follows it if it does not.
abbrev pub bind {ℓ κ} : {V : Type ℓ} {W : Type κ} → Option V → (V → Option W) → Option W
bind none rest = none
bind (some v) rest = rest v

-- The value in the middle of a call that does not fail.
pub bind-eq-some {ℓ κ} :
    {V : Type ℓ} {W : Type κ} (m : Option V) (rest : V → Option W) {w : W}
    → bind m rest ≡ some w
    → (v : V) × (m ≡ some v) × (rest v ≡ some w)
bind-eq-some none rest h = cc
bind-eq-some (some v) rest h = (v, refl, h)

pub some_inj {ℓ} : {V : Type ℓ} {v w : V} → Path (Option V) (some v) (some w) → v ≡ w
some_inj e = cc

pub none-ne-some {ℓ κ} : {V : Type ℓ} {W : Type κ} {w : W} → Path (Option W) none (some w) → V
none-ne-some e = cc

-- `if not b: fail(...)`
abbrev pub unless_fail : Bool → Option (Unit {0})
unless_fail b = if b then some tt else none

pub unless_fail_lem : (b : Bool) {t : Unit {0}} → unless_fail b ≡ some t → b ≡ true
unless_fail_lem true h = refl
unless_fail_lem false h = cc
