-- ===== src/Python/Error.antt =====
-- Exceptions as values. `UnicodeEncodeError`, `UnicodeDecodeError` and `JSONDecodeError` are
-- subclasses of `ValueError` in Python.
use khipu_consensus.Prelude.{◌≡◌, refl, Bool, if◌then◌else◌, Text}

pub data Error : Type 0 where
  value_error : Text → Error
  type_error attribute_error index_error : Error
  key_error : Text → Error
  unicode_encode_error unicode_decode_error json_decode_error : Error
  os_error : Error
  -- `SpineUnavailable` of the program, a `RuntimeError`
  spine_unavailable : Error
  -- an exception of a third-party package
  library_error : Text → Error

-- What a call returns, or the exception that it raises.
pub data Result {ℓ} (V : Type ℓ) : Type ℓ where
  ok : V → Result V
  err : Error → Result V

-- `if not b: raise e`
abbrev pub require : Bool → Error → Result (Unit {0})
require b e = if b then ok tt else err e

infixl 5 ◌>>=◌
abbrev pub ◌>>=◌ {ℓ κ} : {V : Type ℓ} {W : Type κ} → Result V → (V → Result W) → Result W
err raised >>= rest = err raised
ok v >>= rest = rest v

pub ok-injective {ℓ} : {V : Type ℓ} {v w : V} → Path (Result V) (ok v) (ok w) → v ≡ w
ok-injective h = cc

-- The value in the middle of a bind that returns.
pub >>=-eq-ok {ℓ κ} :
    {V : Type ℓ} {W : Type κ} (m : Result V) (rest : V → Result W) {w : W}
    → (m >>= rest) ≡ ok w
    → (v : V) × (m ≡ ok v) × (rest v ≡ ok w)
>>=-eq-ok (err raised) rest h = cc
>>=-eq-ok (ok v) rest h = (v, refl, h)

-- A bind of results that return returns.
pub >>=-total {ℓ κ} :
    {V : Type ℓ} {W : Type κ} (m : Result V) (rest : V → Result W) {v : V}
    → m ≡ ok v
    → (w : W) × (rest v ≡ ok w)
    → (w : W) × ((m >>= rest) ≡ ok w)
>>=-total m rest h (w, e) = (w, rw h e)

-- The same where the result is known to have a property.
pub >>=-gives {ℓ κ ι} :
    {V : Type ℓ} {W : Type κ} (P : W → Type ι) (m : Result V) (rest : V → Result W) {v : V}
    → m ≡ ok v
    → (w : W) × (rest v ≡ ok w) × P w
    → (w : W) × ((m >>= rest) ≡ ok w) × P w
>>=-gives P m rest h (w, e, p) = (w, rw h e, p)

infixl 5 ◌>>◌
abbrev pub ◌>>◌ {ℓ} : {W : Type ℓ} → Result (Unit {0}) → Result W → Result W
first >> second = first >>= λ _. second
