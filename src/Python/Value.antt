-- ===== src/Python/Value.antt =====
-- The values of Python that JSON knows. A finite float is `m / 2 ^ k`; NaN and the infinities are
-- left out. The keys of an object are texts; its entries stand in the order of insertion.
use khipu_consensus.Prelude.{
  ℕ, zero, suc, ◌^◌, ◌≡◌, refl, ap, Bool, true, false, ◌&&◌, Option, none, some, List, [], ◌∷◌,
  arith, ◌==◌, if◌then◌else◌, ℤ, pos, Text,
}
use khipu_consensus.Prelude.Int.{◌==ℤ◌, scale}
use khipu_consensus.Prelude.Texts.{text_eq, text_eq→≡, text_eq_refl, text_eq-sym}

mutual
  pub data Value : Type 0 where
    null : Value
    bool : Bool → Value
    int : ℤ → Value
    float : ℤ → ℕ → Value
    str : Text → Value
    arr : Items → Value
    obj : Fields → Value

  pub data Items : Type 0 where
    nil : Items
    cons : Value → Items → Items

  pub data Fields : Type 0 where
    end : Fields
    field : Text → Value → Fields → Fields

abbrev pub items : Items → List Value
items nil = []
items (cons v vs) = v ∷ items vs

abbrev pub item_list : List Value → Items
item_list [] = nil
item_list (v ∷ vs) = cons v (item_list vs)

pub items-item_list : (vs : List Value) → items (item_list vs) ≡ vs
items-item_list [] = refl
items-item_list (v ∷ vs) = ap (λ (ws : List Value). v ∷ ws) (items-item_list vs)

-- An `int` that is a count.
abbrev pub nat : ℕ → Value
nat n = int (pos n)

-- `len(d)`
abbrev size : Fields → ℕ
size end = 0
size (field k v f) = suc (size f)

-- The entry of a key, if there is one.
unfoldable pub find : Text → Fields → Option Value
find k end = none
find k (field j v f) = if text_eq j k then some v else find k f

abbrev pub or_else : Option Value → Value → Value
or_else none d = d
or_else (some v) d = v

-- `d.get(k, default)`
abbrev pub get_or : Fields → Text → Value → Value
get_or f k d = or_else (find k f) d

-- `d.get(k)`
abbrev pub get : Fields → Text → Value
get f k = get_or f k null

-- `d[k] = v`
unfoldable pub put : Text → Value → Fields → Fields
put k v end = field k v end
put k v (field j w f) = if text_eq j k then field j v f else field j w (put k v f)

-- A number as `m / 2 ^ k`; `True` is 1 and `False` is 0.
abbrev pub number : Value → Option (ℤ × ℕ)
number (bool b) = some (if b then pos 1 else pos 0, 0)
number (int z) = some (z, 0)
number (float m k) = some (m, k)
number _ = none

abbrev eq_number : Option (ℤ × ℕ) → Option (ℤ × ℕ) → Bool
eq_number (some (m, j)) (some (n, k)) = ◌==ℤ◌ (scale m (2 ^ k)) (scale n (2 ^ j))
eq_number _ _ = false

-- `a == b`. Dicts are equal whatever the order of their entries.
unfoldable mutual
  pub eq : Value → Value → Bool
  eq null null = true
  eq null _ = false
  eq (str s) (str t) = text_eq s t
  eq (str s) _ = false
  eq (arr xs) (arr ys) = eq_items xs ys
  eq (arr xs) _ = false
  eq (obj f) (obj g) = size f == size g && eq_fields f g
  eq (obj f) _ = false
  eq (bool b) w = eq_number (number (bool b)) (number w)
  eq (int z) w = eq_number (number (int z)) (number w)
  eq (float m k) w = eq_number (number (float m k)) (number w)

  eq_items : Items → Items → Bool
  eq_items nil nil = true
  eq_items (cons v vs) (cons w ws) = eq v w && eq_items vs ws
  eq_items _ _ = false

  eq_fields : Fields → Fields → Bool
  eq_fields end g = true
  eq_fields (field k v f) g = elim (find k g) [ none ↦ false | some w ↦ eq v w ] && eq_fields f g

-- `bool(v)`
abbrev pub truthy : Value → Bool
truthy null = false
truthy (bool b) = b
truthy (int (pos zero)) = false
truthy (int z) = true
truthy (float (pos zero) k) = false
truthy (float m k) = true
truthy (str []) = false
truthy (str (c ∷ s)) = true
truthy (arr nil) = false
truthy (arr (cons v vs)) = true
truthy (obj end) = false
truthy (obj (field k v f)) = true

-- Lists and dicts have no hash.
abbrev pub hashable : Value → Bool
hashable (arr xs) = false
hashable (obj f) = false
hashable _ = true

-- `isinstance(v, str)`
abbrev pub is_str : Value → Bool
is_str (str s) = true
is_str _ = false

-- Only a text equals a text.
pub eq-str→≡ : (v : Value) (s : Text) → eq v (str s) ≡ true → v ≡ str s
unfolding eq
eq-str→≡ (str t) s h = ground (arith, text_eq→≡ t s)
eq-str→≡ null s h = cc
eq-str→≡ (arr xs) s h = cc
eq-str→≡ (obj f) s h = cc
eq-str→≡ (bool b) s h = cc
eq-str→≡ (int z) s h = cc
eq-str→≡ (float m k) s h = cc

pub eq-str_refl : (s : Text) → eq (str s) (str s) ≡ true
unfolding eq
eq-str_refl s = text_eq_refl s

eq-str_sym : (v : Value) (s : Text) → eq v (str s) ≡ eq (str s) v
unfolding eq
eq-str_sym (str t) s = text_eq-sym t s
eq-str_sym null s = refl
eq-str_sym (arr xs) s = refl
eq-str_sym (obj f) s = refl
eq-str_sym (bool b) s = refl
eq-str_sym (int z) s = refl
eq-str_sym (float m k) s = refl

pub eq-text→≡ : (v : Value) (s : Text) → eq (str s) v ≡ true → v ≡ str s
eq-text→≡ v s h = eq-str→≡ v s (rw (eq-str_sym v s) h)

-- The same at a value that is known to be a text.
pub eq-is_str_sym : (v w : Value) → is_str w ≡ true → eq v w ≡ eq w v
eq-is_str_sym v (str s) h = eq-str_sym v s
eq-is_str_sym v null h = cc
eq-is_str_sym v (arr xs) h = cc
eq-is_str_sym v (obj f) h = cc
eq-is_str_sym v (bool b) h = cc
eq-is_str_sym v (int z) h = cc
eq-is_str_sym v (float m k) h = cc

pub eq-is_str→≡ : (v w : Value) → is_str w ≡ true → eq v w ≡ true → v ≡ w
eq-is_str→≡ v (str s) h e = eq-str→≡ v s e
eq-is_str→≡ v null h e = cc
eq-is_str→≡ v (arr xs) h e = cc
eq-is_str→≡ v (obj f) h e = cc
eq-is_str→≡ v (bool b) h e = cc
eq-is_str→≡ v (int z) h e = cc
eq-is_str→≡ v (float m k) h e = cc

pub eq-is_str_refl : (v : Value) → is_str v ≡ true → eq v v ≡ true
eq-is_str_refl (str s) h = eq-str_refl s
eq-is_str_refl null h = cc
eq-is_str_refl (arr xs) h = cc
eq-is_str_refl (obj f) h = cc
eq-is_str_refl (bool b) h = cc
eq-is_str_refl (int z) h = cc
eq-is_str_refl (float m k) h = cc

pub hashable-is_str : (v : Value) → is_str v ≡ true → hashable v ≡ true
hashable-is_str (str s) h = refl
hashable-is_str (arr xs) h = cc
hashable-is_str (obj f) h = cc
hashable-is_str _ h = refl
