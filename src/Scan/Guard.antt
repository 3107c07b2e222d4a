-- ===== src/Scan/Guard.antt =====
-- .github/scripts/forbidden_domain_scan.py: the keys and constants whose name forbids.
use khipu_consensus.Prelude.{
  ℕ, zero, suc, ◌-◌, Bool, true, false, not, ◌||◌, Option, none, some, List, [], ◌∷◌, ◌++◌, any,
  length, map, ltb, ◌==◌, if◌then◌else◌, Bytes, text,
}
use khipu_consensus.Scan.Marks.{
  byte_in, byte_has, slice, lower, back, forth, blank, is_letter, is_digit, hosts_in,
}
use khipu_consensus.Scan.Family.{among}
use khipu_consensus.Scan.Tokens.{Stack}
use khipu_consensus.Scan.Source.{Source, stack_at, literal_ending_at}

-- `data[position - 1] in s`, where the position is not the start
abbrev pub before_in : Bytes → Bytes → (position : ℕ) → Bool
before_in s src zero = false
before_in s src (suc i) = byte_in s src i

abbrev pub is_token : Bytes → Bytes → ℕ → Bool
is_token stops src i = not (byte_in stops src i)

-- `token_bounds(data, low, high, start, stop, stops)`
abbrev pub token_bounds : Bytes → (low high start stop : ℕ) → (stops : Bytes) → ℕ × ℕ
token_bounds src low high start stop stops =
    (back (is_token stops src) low start, forth (is_token stops src) stop high)

abbrev guard_key_parts : List Bytes
guard_key_parts = text "never" ∷ text "forbidden" ∷ text "blocklist" ∷ text "blocklists" ∷ []

abbrev binding_prefixes : List Bytes
binding_prefixes =
    text "const"
    ∷ text "let"
    ∷ text "var"
    ∷ text "export"
    ∷ text "readonly"
    ∷ text "local"
    ∷ text "declare"
    ∷ text "final"
    ∷ text "static"
    ∷ text "public"
    ∷ text "private"
    ∷ text "protected"
    ∷ text "val"
    ∷ text "assert"
    ∷ text "if"
    ∷ text "elif"
    ∷ text "and"
    ∷ text "or"
    ∷ text "not"
    ∷ text "return"
    ∷ text "while"
    ∷ []

-- `NAME_BYTES`
abbrev is_name : ℕ → Bool
is_name b = is_letter b || is_digit b || b == 95 || b == 36 || b == 46 || b == 45

-- `entry_start`, of the rounds that are left
unfoldable pub entry_start_by : Bytes → (rounds position : ℕ) → Bool
entry_start_by src zero position = false
entry_start_by src (suc rounds) position =
    let here = back (byte_in blank src) 0 position in
    let word = back (byte_has is_letter src) 0 here in
    let after_dash = entry_start_by src rounds (here - 1) in
    let after_word = entry_start_by src rounds word in
    if here == 0 || before_in (10 ∷ text "{[(,;") src here
    then true
    else if before_in (text "-") src here
    then after_dash
    else if among (slice src word here) binding_prefixes
    then after_word
    else false

abbrev pub entry_start : Bytes → ℕ → Bool
entry_start src position = entry_start_by src 4 position

-- `re.split(rb"[_.\-]+", name)`, given the part before; empty parts may stand between
abbrev split_parts : (part : Bytes) → Bytes → List Bytes
split_parts part [] = part ∷ []
split_parts part (b ∷ bs) =
    let cut = split_parts [] bs in
    let rest = split_parts (part ++ (b ∷ [])) bs in
    if b == 95 || b == 46 || b == 45 then part ∷ cut else rest

abbrev pub has_guard_part : Bytes → Bool
has_guard_part name = any (λ p. among p guard_key_parts) (split_parts [] (map lower name))

abbrev pub outside_calls : Stack → Bool
outside_calls none = false
outside_calls (some open_now) = not (any (λ b. b == 40) open_now)

abbrev pub names_host : Bytes → Bool
names_host name = elim (hosts_in name 0 (length name)) [ [] ↦ false | i ∷ rest ↦ true ]

unfoldable pub guard_name : Source → (name : Bytes) → (key_start line_start : ℕ) → Bool
guard_name source name key_start line_start =
    if ltb key_start line_start || names_host name
    then false
    else if not (has_guard_part name)
    then false
    else if not (entry_start source.bytes key_start)
    then false
    else outside_calls (stack_at source key_start)

-- where the key ends that an operator before a position binds, white space included
abbrev pub operator_before : Bytes → ℕ → Option ℕ
operator_before src position =
    if before_in (text ":") src position
    then (if before_in (text ":") src (position - 1) then none else some (position - 1))
    else if before_in (text "=") src position
    then (if before_in (text "=") src (position - 1)
        then (if before_in (text "=!<>") src (position - 2) then none else some (position - 2))
        else if before_in (text "!<>+-*/%&|^~:?.@") src (position - 1)
        then none
        else some (position - 1))
    else none

-- `name[:1].isalpha() or name[:1] in (b"_", b"$")`
abbrev starts_name : Bytes → Bool
starts_name [] = false
starts_name (b ∷ bs) = is_letter b || b == 95 || b == 36

abbrev bare_key : Source → (key_end line_start : ℕ) → Bool
bare_key source key_end line_start =
    let key_start = back (byte_has is_name source.bytes) 0 key_end in
    let name = slice source.bytes key_start key_end in
    if starts_name name then guard_name source name key_start line_start else false

unfoldable pub guard_binding : Source → (position line_start : ℕ) → Bool
guard_binding source position line_start = elim (operator_before source.bytes position) [
  | none ↦ false
  | some operator ↦
      let key_end = back (byte_in blank source.bytes) 0 operator in
      elim (literal_ending_at source key_end) [
        | some quoted ↦
            guard_name source (slice source.bytes quoted.inner_start quoted.inner_end) quoted.start
              line_start
        | none ↦ bare_key source key_end line_start
      ]
]
