-- ===== src/Python/Dict/Keys.antt =====
-- Dicts whose keys are distinct texts, and how many of their keys belong to a set.
use khipu_consensus.Prelude.{
  ℕ, suc, ◌≡◌, refl, Bool, true, false, none, some, List, [], ◌∷◌, arith, inl, inr, Bool-cases,
  count, All, length, ◌≤◌,
}
use khipu_consensus.Python.Value.{Value, eq, is_str, eq-is_str_sym, eq-is_str→≡, eq-is_str_refl}
use khipu_consensus.Python.Dict.{Dict, lookup, member, insert, has_key}

-- The keys are texts, and no key stands twice.
abbrev pub HasTextKeys : Dict Value → Type 0
HasTextKeys [] = Unit
HasTextKeys ((k, v) ∷ d) = (is_str k ≡ true) × (lookup k d ≡ none) × HasTextKeys d

-- how many entries have their key in a set
abbrev pub covered : List Value → Dict Value → ℕ
covered s = count (λ (k, v). member k s)

pub count-ext {ℓ} :
    {A : Type ℓ} (f g : A → Bool) (xs : List A) → All (λ x. f x ≡ g x) xs → count f xs ≡ count g xs
count-ext f g [] h = refl
count-ext f g (x ∷ xs) (e, h) = ground (arith, count-ext f g xs h)

pub count-le-length {ℓ} : {A : Type ℓ} (f : A → Bool) (xs : List A) → count f xs ≤ length xs
count-le-length f [] = omega arith
count-le-length f (x ∷ xs) = ground (arith, count-le-length f xs)

-- A value whose key is not there adds nothing.
covered-absent :
    (o : Value) (s : List Value) (d : Dict Value)
    → HasTextKeys d
    → lookup o d ≡ none
    → covered (o ∷ s) d ≡ covered s d
unfolding lookup member
covered-absent o s [] t h = refl
covered-absent o s ((k, v) ∷ d) (text, fresh, t) h =
    ground (arith, eq-is_str_sym o k text, covered-absent o s d t)

-- A key that is there, and new to the set, adds one.
pub covered-insert :
    (o v : Value) (s : List Value) (d : Dict Value)
    → HasTextKeys d
    → lookup o d ≡ some v
    → member o s ≡ false
    → covered (o ∷ s) d ≡ suc (covered s d)
unfolding lookup member
covered-insert o v s [] t h new = cc
covered-insert o v s ((k, w) ∷ d) (text, fresh, t) h new = elim (Bool-cases (eq k o)) [
  | inl same ↦
      let o_is_k : o ≡ k = eq-is_str→≡ o k text (rw (eq-is_str_sym o k text) same) in
      let absent : lookup o d ≡ none = rw o_is_k fresh in
      let outside : member k s ≡ false = rw (← o_is_k) new in
      ground (arith, eq-is_str_sym o k text, covered-absent o s d t absent)
  | inr other ↦ ground (arith, eq-is_str_sym o k text, covered-insert o v s d t)
]

-- Each entry is what its key looks up.
lookup_tail :
    (o k w : Value) (d : Dict Value)
    → HasTextKeys ((k, w) ∷ d)
    → (v : Value) → lookup o d ≡ some v
    → lookup o ((k, w) ∷ d) ≡ some v
unfolding lookup
lookup_tail o k w d (text, fresh, t) v h = elim (Bool-cases (eq k o)) [
  | inl same ↦
      let o_is_k : o ≡ k = eq-is_str→≡ o k text (rw (eq-is_str_sym o k text) same) in
      let absent : lookup o d ≡ none = rw o_is_k fresh in cc
  | inr other ↦ rw other h
]

abbrev pub IsEntryOf : Dict Value → Value × Value → Type 0
IsEntryOf d (k, v) = (is_str k ≡ true) × (lookup k d ≡ some v)

IsEntryOf-tail :
    (k w : Value) (d : Dict Value)
    → HasTextKeys ((k, w) ∷ d)
    → (es : List (Value × Value)) → All (IsEntryOf d) es
    → All (IsEntryOf ((k, w) ∷ d)) es
IsEntryOf-tail k w d t [] h = tt
IsEntryOf-tail k w d t ((j, v) ∷ es) ((text, found), h) =
    ((text, lookup_tail j k w d t v found), IsEntryOf-tail k w d t es h)

pub entries-IsEntryOf : (d : Dict Value) → HasTextKeys d → All (IsEntryOf d) d
unfolding lookup
entries-IsEntryOf [] t = tt
entries-IsEntryOf ((k, v) ∷ d) (text, fresh, t) = (
  (text, rw (eq-is_str_refl k text)),
  IsEntryOf-tail k v d (text, fresh, t) d (entries-IsEntryOf d t),
)

module _ {ℓ} {V : Type ℓ} where
  pub has_key-insert :
      (v k : Value) (x : V) (d : Dict V) → has_key v d ≡ true → has_key v (insert k x d) ≡ true
  unfolding insert lookup
  has_key-insert v k x [] h = cc
  has_key-insert v k x ((j, w) ∷ d) h = ground (arith, has_key-insert v k x d)

  pub has_key-insert_own :
      (k : Value) (x : V) (d : Dict V) → eq k k ≡ true → has_key k (insert k x d) ≡ true
  unfolding insert lookup
  has_key-insert_own k x [] h = ground (arith, h)
  has_key-insert_own k x ((j, w) ∷ d) h = ground (arith, has_key-insert_own k x d)

  pub insert-All {κ} :
      (P : V → Type κ) (k : Value) (x : V) (d : Dict V)
      → P x
      → All (λ (j, v). P v) d
      → All (λ (j, v). P v) (insert k x d)
  unfolding insert
  insert-All P k x [] px h = (px, tt)
  insert-All P k x ((j, w) ∷ d) px (pw, h) = elim (Bool-cases (eq j k)) [
    | inl same ↦ rw same (px, h)
    | inr other ↦ rw other (pw, insert-All P k x d px h)
  ]

  -- What is found has what every entry has.
  pub has_key-All {κ} :
      (P : V → Type κ) (k : Value) (d : Dict V)
      → has_key k d ≡ true
      → All (λ (j, v). P v) d
      → (v : V) × (lookup k d ≡ some v) × P v
  unfolding lookup
  has_key-All P k [] h a = cc
  has_key-All P k ((j, w) ∷ d) h (pw, a) = elim (Bool-cases (eq j k)) [
    | inl same ↦ (w, rw same, pw)
    | inr other ↦
        let (v, e, pv) = has_key-All P k d (rw (other, has_key) at h) a in (v, rw other e, pv)
  ]
