-- ===== src/Scan/Tokens/Ends.antt =====
-- Where string literals and regular expressions of the forbidden-domain gate end.
use khipu_consensus.Prelude.{
  ℕ, zero, suc, ◌+◌, ◌-◌, ◌≤◌, ◌<◌, ◌≡◌, ◌⊎◌, refl, Bool, true, false, not, ◌&&◌, Option, none,
  some, [], ◌∷◌, inl, inr, arith, length, ltb, Bytes,
}
use khipu_consensus.Prelude.Tests.{Bool-cases, Option-cases}
use khipu_consensus.Scan.Marks.{byte_is, byte_has, starts_at, is_letter}
use khipu_consensus.Scan.Bounds.{IsStop, not_break, forth_by_lem, starts_at-stop}
use khipu_consensus.Scan.Tokens.{
  scan_string_by, scan_string, regex_allowed, regex_context, regex_body, scan_regex,
}

-- An end in a file of some length, where an index or later, or the end of the file.
IsEnd : (size index end : ℕ) → Type 0
IsEnd size index end = (end ≤ size) × ((index ≤ end) ⊎ (end ≡ size))

IsEnd-later : (size i j end : ℕ) → i ≤ j → IsEnd size j end → IsEnd size i end
unfolding IsEnd
IsEnd-later size i j end h (low, inl after) = (low, inl (omega arith))
IsEnd-later size i j end h (low, inr last) = (low, inr last)

-- A delimiter that starts before the end of the text ends there at the latest.
unfoldable pub Fits : (delimiter src : Bytes) (end : ℕ) → Type 0
Fits delimiter src end =
    (i : ℕ) → starts_at delimiter src i ≡ true → i < end → i + length delimiter ≤ end

-- A literal ends where it starts or later, or with the file.
scan_string_by-IsEnd :
    (c : ℕ) (cs src : Bytes) (end : ℕ) (escapes multiline : Bool) (left index : ℕ)
    → Fits (c ∷ cs) src end
    → IsEnd end index ((scan_string_by src end (c ∷ cs) escapes multiline left index).0)
unfolding scan_string_by IsEnd Fits
scan_string_by-IsEnd c cs src end escapes multiline zero index fits = (omega arith, inr refl)
scan_string_by-IsEnd c cs src end escapes multiline (suc left) index fits =
    let after_escape =
      IsEnd-later end index (index + 2)
        ((scan_string_by src end (c ∷ cs) escapes multiline left (index + 2)).0) (omega arith)
        (scan_string_by-IsEnd c cs src end escapes multiline left (index + 2) fits) in
    let rest =
      IsEnd-later end index (index + 1)
        ((scan_string_by src end (c ∷ cs) escapes multiline left (index + 1)).0) (omega arith)
        (scan_string_by-IsEnd c cs src end escapes multiline left (index + 1) fits) in
    elim (Bool-cases (ltb index end)) [
      | inr outside ↦ rw outside (omega arith, inr refl)
      | inl inside ↦ elim (Bool-cases (escapes && byte_is 92 src index)) [
        | inl escaped ↦ rw (inside, escaped) after_escape
        | inr plain ↦ elim (Bool-cases (starts_at (c ∷ cs) src index)) [
          | inl closed ↦
              rw (inside, plain, closed) (fits index closed (ground arith), inl (omega arith))
          | inr other ↦ elim (Bool-cases (not multiline && byte_is 10 src index)) [
            | inl broken ↦ rw (inside, plain, other, broken) (ground arith, inl (omega arith))
            | inr more ↦ rw (inside, plain, other, more) rest
          ]
        ]
      ]
    ]

-- A regular expression ends after its slash, and in the file.
regex_body-bounds :
    (src : Bytes) (end left cursor : ℕ) (in_class : Bool) (stop : ℕ)
    → regex_body src end left cursor in_class ≡ some stop
    → (cursor ≤ stop) × (stop ≤ end)
unfolding regex_body
regex_body-bounds src end zero cursor in_class stop h = cc
regex_body-bounds src end (suc left) cursor in_class stop h = ground (
  arith,
  regex_body-bounds src end left (cursor + 2) in_class stop,
  regex_body-bounds src end left (cursor + 1) (not (byte_is 93 src cursor)) stop,
  regex_body-bounds src end left (cursor + 1) true stop,
  regex_body-bounds src end left (cursor + 1) false stop,
  forth_by_lem (byte_has is_letter src) (end - (cursor + 1)) (cursor + 1),
)

-- a delimiter: not empty, and without a line break
abbrev pub clear : Bytes → Bool
clear [] = false
clear (c ∷ cs) = not_break (c ∷ cs)

pub IsStop-Fits :
    (c : ℕ) (cs src : Bytes) (end : ℕ)
    → IsStop src end
    → clear (c ∷ cs) ≡ true
    → Fits (c ∷ cs) src end
unfolding Fits
IsStop-Fits c cs src end stop whole i starts before =
    starts_at-stop c cs src end i stop whole starts before

-- The end of a string, of which something is known to be before it.
pub string-bounds :
    (c : ℕ) (cs src : Bytes) (end : ℕ) (escapes multiline : Bool) (i inner : ℕ)
    → Fits (c ∷ cs) src end
    → i < inner
    → i < end
    → (i < (scan_string src inner end (c ∷ cs) escapes multiline).0)
      × ((scan_string src inner end (c ∷ cs) escapes multiline).0 ≤ end)
unfolding IsEnd
string-bounds c cs src end escapes multiline i inner fits before h =
    let (low, place) =
      scan_string_by-IsEnd c cs src end escapes multiline (end - inner) inner fits in
    elim place [ inl after ↦ (omega arith, low) | inr last ↦ (omega arith, low) ]

absurd-none : {A : Type 0} {r : ℕ × Bool} → Path (Option (ℕ × Bool)) none (some r) → A
absurd-none e = cc

regex-parts :
    (index end stop : ℕ) (ambiguous : Bool) (r : ℕ × Bool)
    → Path (Option (ℕ × Bool)) (some (stop, ambiguous)) (some r)
    → (suc index ≤ stop) × (stop ≤ end)
    → (index < r.0) × (r.0 ≤ end)
regex-parts index end stop ambiguous (s, a) e (low, high) = (ground arith, ground arith)

pub scan_regex-bounds :
    (src : Bytes) (index begin end : ℕ) (r : ℕ × Bool)
    → scan_regex src index begin end ≡ some r
    → (index < r.0) × (r.0 ≤ end)
unfolding scan_regex
scan_regex-bounds src index begin end r e =
    let (previous, ambiguous) = regex_context src index begin in
    elim (Bool-cases (regex_allowed src begin previous ambiguous)) [
      | inr division ↦ absurd-none (rw division at e)
      | inl allowed ↦ elim (Option-cases (regex_body src end (end - suc index) (suc index) false)) [
        | inl nothing ↦ absurd-none (rw (allowed, nothing) at e)
        | inr (stop, closed) ↦
            regex-parts index end stop ambiguous r (rw (allowed, closed) at e)
              (regex_body-bounds src end (end - suc index) (suc index) false stop closed)
      ]
    ]
