-- ===== src/Scan/Marks.antt =====
-- Searching in bytes: the sets of bytes, the loops that walk over them, and the patterns of `re`
-- that the program uses.
use khipu_consensus.Prelude.{
  ℕ, zero, suc, ◌+◌, ◌-◌, Bool, true, false, not, ◌&&◌, ◌||◌, Option, none, some, List, [], ◌∷◌,
  any, length, ltb, leb, ◌==◌, if◌then◌else◌, Bytes, text,
}
use khipu_consensus.Prelude.Lists.{get_elem?}

-- `b in s` of one byte
abbrev pub elem : ℕ → Bytes → Bool
elem b = any (λ c. c == b)

-- `src[i] in s`, where the index is in bounds
abbrev pub byte_in : Bytes → Bytes → ℕ → Bool
byte_in s src i = elim (get_elem? src i) [ none ↦ false | some b ↦ elem b s ]

-- `src[i] == b`
abbrev pub byte_is : ℕ → Bytes → ℕ → Bool
byte_is b src i = elim (get_elem? src i) [ none ↦ false | some c ↦ c == b ]

-- a test on the byte at an index in bounds
abbrev pub byte_has : (ℕ → Bool) → Bytes → ℕ → Bool
byte_has p src i = elim (get_elem? src i) [ none ↦ false | some b ↦ p b ]

abbrev pub drop : Bytes → ℕ → Bytes
drop bs zero = bs
drop [] (suc i) = []
drop (b ∷ bs) (suc i) = drop bs i

abbrev pub take : Bytes → ℕ → Bytes
take bs zero = []
take [] (suc i) = []
take (b ∷ bs) (suc i) = b ∷ take bs i

-- `src[i:j]`
abbrev pub slice : Bytes → (i j : ℕ) → Bytes
slice src i j = take (drop src i) (j - i)

-- a byte of `bytes.lower()`
abbrev pub lower : ℕ → ℕ
lower b = if leb 65 b && leb b 90 then b + 32 else b

-- `src.startswith(p)`, byte by byte under a map
abbrev pub is_prefix : (ℕ → ℕ) → Bytes → Bytes → Bool
is_prefix f [] bs = true
is_prefix f (p ∷ ps) [] = false
is_prefix f (p ∷ ps) (b ∷ bs) = f b == p && is_prefix f ps bs

-- `src.startswith(p, i)`
unfoldable pub starts_at : Bytes → Bytes → ℕ → Bool
starts_at p src i = is_prefix (λ b. b) p (drop src i)

-- the same of a text in small letters, whatever the case of the src
unfoldable pub starts_at_any_case : Bytes → Bytes → ℕ → Bool
starts_at_any_case p src i = is_prefix lower p (drop src i)

-- `while start > low and p(start - 1): start -= 1`
unfoldable pub back : (ℕ → Bool) → (low start : ℕ) → ℕ
back p low zero = zero
back p low (suc i) = (let rest = back p low i in if ltb low (suc i) && p i then rest else suc i)

-- `while stop < high and p(stop): stop += 1`, of the bytes that are left
unfoldable pub forth_by : (ℕ → Bool) → (left stop : ℕ) → ℕ
forth_by p zero stop = stop
forth_by p (suc left) stop = let rest = forth_by p left (suc stop) in if p stop then rest else stop

abbrev pub forth : (ℕ → Bool) → (stop high : ℕ) → ℕ
forth p stop high = forth_by p (high - stop) stop

-- the first index from `i` with a property, of the bytes that are left
unfoldable pub first_by : (ℕ → Bool) → (left i : ℕ) → Option ℕ
first_by p zero i = none
first_by p (suc left) i = (let rest = first_by p left (suc i) in if p i then some i else rest)

-- the first index in `[i, high)`
abbrev pub first_in : (ℕ → Bool) → (i high : ℕ) → Option ℕ
first_in p i high = first_by p (high - i) i

-- `src.find(s, i, high)` of a text that is not empty; `none` is -1
unfoldable pub find_in : Bytes → Bytes → (i high : ℕ) → Option ℕ
find_in s src i high = first_in (λ k. leb (k + length s) high && starts_at s src k) i high

abbrev pub whitespace : Bytes
whitespace = 32 ∷ 9 ∷ 13 ∷ 10 ∷ 12 ∷ 11 ∷ []

abbrev pub blank : Bytes
blank = 32 ∷ 9 ∷ []

abbrev pub is_letter : ℕ → Bool
is_letter b = (leb 65 b && leb b 90) || (leb 97 b && leb b 122)

abbrev pub is_digit : ℕ → Bool
is_digit b = leb 48 b && leb b 57

-- `[A-Za-z0-9_$]`
abbrev pub is_word : ℕ → Bool
is_word b = is_letter b || is_digit b || b == 95 || b == 36

-- `(?<![A-Za-z0-9_$])`
abbrev pub not_word_before : Bytes → ℕ → Bool
not_word_before src zero = true
not_word_before src (suc i) = not (byte_has is_word src i)

-- `(?![A-Za-z0-9_$])`, where the src ends at `high`
abbrev pub not_word_after : Bytes → (i high : ℕ) → Bool
not_word_after src i high = not (ltb i high && byte_has is_word src i)

-- `(?<!-)a11oy\.com`, whatever the case
unfoldable pub host_at : Bytes → ℕ → Bool
host_at src zero = starts_at_any_case (text "a11oy.com") src zero
host_at src (suc i) = not (byte_is 45 src i) && starts_at_any_case (text "a11oy.com") src (suc i)

-- `PROHIBITED_HOST.finditer(src, low, high)`: where the matches start, of the indices that are
-- left. The host has nine bytes, and its first is not another of them, so no two matches overlap.
unfoldable pub hosts_by : Bytes → (high left i : ℕ) → List ℕ
hosts_by src high zero i = []
hosts_by src high (suc left) i =
    let rest = hosts_by src high left (suc i) in
    if leb (i + 9) high && host_at src i then i ∷ rest else rest

abbrev pub hosts_in : Bytes → (low high : ℕ) → List ℕ
hosts_in src low high = hosts_by src high (high - low) low
