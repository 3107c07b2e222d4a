-- ===== src/Scan/Tokens.antt =====
-- .github/scripts/forbidden_domain_scan.py: brackets, string literals and regular expressions.
pub mod Ends
use khipu_consensus.Prelude.{
  ℕ, zero, suc, ◌+◌, ◌-◌, Bool, true, false, not, ◌&&◌, Option, none, some, List, [], ◌∷◌, length,
  ltb, ◌==◌, if◌then◌else◌, Bytes, text,
}
use khipu_consensus.Scan.Marks.{
  byte_in, byte_is, byte_has, slice, starts_at, back, forth, blank, is_letter,
}
use khipu_consensus.Scan.Family.{among}

-- The brackets that are open, the innermost first; `none` when the nesting is not known.
abbrev pub Stack : Type 0
Stack = Option (List ℕ)

-- `CLOSER_FOR.get(b)`
abbrev pub closer_for : ℕ → Option ℕ
closer_for b =
    if b == 91 then some 93 else if b == 40 then some 41 else if b == 123 then some 125 else none

-- `OPENER_FOR.get(b)`
abbrev pub opener_for : ℕ → Option ℕ
opener_for b =
    if b == 93 then some 91 else if b == 41 then some 40 else if b == 125 then some 123 else none

-- a closing bracket, given the opening one that it needs
abbrev pop : ℕ → List ℕ → Stack
pop opener [] = none
pop opener (b ∷ open_now) = if b == opener then some open_now else none

-- one byte of `advance`
abbrev bracket : ℕ → List ℕ → Stack
bracket b open_now = elim (closer_for b) [
  | some closer ↦ some (b ∷ open_now)
  | none ↦ elim (opener_for b) [ some opener ↦ pop opener open_now | none ↦ some open_now ]
]

unfoldable pub advance : Stack → Bytes → Stack
advance stack [] = stack
advance none (b ∷ chunk) = none
advance (some open_now) (b ∷ chunk) = advance (bracket b open_now) chunk

-- `scan_string`, of the bytes that are left: the end of the literal, and of its content
unfoldable pub scan_string_by :
    Bytes → (end : ℕ) → (delimiter : Bytes) → (escapes multiline : Bool) → (left index : ℕ) → ℕ × ℕ
scan_string_by src end delimiter escapes multiline zero index = (end, end)
scan_string_by src end delimiter escapes multiline (suc left) index =
    let after_escape = scan_string_by src end delimiter escapes multiline left (index + 2) in
    let rest = scan_string_by src end delimiter escapes multiline left (index + 1) in
    if not (ltb index end)
    then (end, end)
    else if escapes && byte_is 92 src index
    then after_escape
    else if starts_at delimiter src index
    then (index + length delimiter, index)
    else if not multiline && byte_is 10 src index
    then (index, index)
    else rest

abbrev pub scan_string :
    Bytes → (index end : ℕ) → (delimiter : Bytes) → (escapes multiline : Bool) → ℕ × ℕ
scan_string src index end delimiter escapes multiline =
    scan_string_by src end delimiter escapes multiline (end - index) index

abbrev regex_preceders : Bytes
regex_preceders = text "(,=:[!&|?{};+-*%<>~^"

abbrev regex_keywords : List Bytes
regex_keywords =
    text "return"
    ∷ text "typeof"
    ∷ text "void"
    ∷ text "delete"
    ∷ text "in"
    ∷ text "of"
    ∷ text "new"
    ∷ text "instanceof"
    ∷ text "case"
    ∷ text "do"
    ∷ text "else"
    ∷ text "throw"
    ∷ text "yield"
    ∷ text "await"
    ∷ []

-- the loop of `scan_regex` over the body, of the bytes that are left
unfoldable pub regex_body : Bytes → (end left cursor : ℕ) → (in_class : Bool) → Option ℕ
regex_body src end zero cursor in_class = none
regex_body src end (suc left) cursor in_class =
    let after_escape = regex_body src end left (cursor + 2) in_class in
    let rest = regex_body src end left (cursor + 1) in
    if not (ltb cursor end && not (byte_is 10 src cursor))
    then none
    else if byte_is 92 src cursor
    then after_escape
    else if in_class
    then rest (not (byte_is 93 src cursor))
    else if byte_is 91 src cursor
    then rest true
    else if byte_is 47 src cursor
    then some (forth (byte_has is_letter src) (cursor + 1) end)
    else rest false

-- `previous`, and the ambiguity that a line start has
abbrev pub regex_context : Bytes → (index begin : ℕ) → ℕ × Bool
regex_context src index begin =
    let previous = back (byte_in blank src) begin index in
    (previous, ltb begin previous && byte_is 10 src (previous - 1))

-- whether what precedes the slash allows a regular expression
abbrev pub regex_allowed : Bytes → (begin previous : ℕ) → (ambiguous : Bool) → Bool
regex_allowed src begin previous ambiguous =
    if ltb begin previous && not (byte_in regex_preceders src (previous - 1)) && not ambiguous
    then among (slice src (back (byte_has is_letter src) begin previous) previous) regex_keywords
    else true

unfoldable pub scan_regex : Bytes → (index begin end : ℕ) → Option (ℕ × Bool)
scan_regex src index begin end =
    let (previous, ambiguous) = regex_context src index begin in
    if regex_allowed src begin previous ambiguous
    then elim (regex_body src end (end - suc index) (suc index) false) [
      | none ↦ none
      | some stop ↦ some (stop, ambiguous)
    ]
    else none
