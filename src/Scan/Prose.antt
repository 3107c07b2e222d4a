-- ===== src/Scan/Prose.antt =====
-- .github/scripts/forbidden_domain_scan.py: the shape PROSE, which exempts the bare host beside a
-- phrase that forbids it.
use khipu_consensus.Prelude.{
  ℕ, zero, suc, ◌+◌, ◌-◌, Bool, true, false, not, ◌&&◌, ◌||◌, Option, none, some, List, [], ◌∷◌,
  ◌++◌, any, length, ltb, leb, ◌==◌, if◌then◌else◌, Bytes, text,
}
use khipu_consensus.Scan.Marks.{
  byte_in, byte_is, byte_has, slice, starts_at, starts_at_any_case, forth, first_in, blank,
  whitespace, is_letter, is_digit, not_word_before, not_word_after, hosts_in,
}
use khipu_consensus.Scan.Lexer.{Segment, html_text, max, min}
use khipu_consensus.Scan.Source.{Source, bisect_right}
use khipu_consensus.Scan.Guard.{token_bounds}

abbrev pub some_in : (ℕ → Bool) → (i high : ℕ) → Bool
some_in p i high = elim (first_in p i high) [ none ↦ false | some k ↦ true ]

-- `\\?/|%2[Ff]` at an index: where it ends
abbrev slash_at : Bytes → (i high : ℕ) → Option ℕ
slash_at src i high =
    if ltb i high && byte_is 47 src i
    then some (i + 1)
    else if leb (i + 2) high && starts_at (text "\\/") src i
    then some (i + 2)
    else if leb (i + 3) high && starts_at_any_case (text "%2f") src i
    then some (i + 3)
    else none

-- `LOCATOR_PREFIX.match(text, i, high)`
abbrev locator_prefix : Bytes → (high i : ℕ) → Bool
locator_prefix src high i = elim (slash_at src i high) [
  | none ↦ false
  | some j ↦ elim (slash_at src j high) [ none ↦ false | some k ↦ true ]
]

unfoldable pub is_locator : Bytes → (token_start token_end start stop : ℕ) → Bool
is_locator src token_start token_end start stop =
    some_in (locator_prefix src start) token_start start
    || (ltb stop token_end && byte_in (text "/?#@\\%") src stop)
    || (ltb (suc stop) token_end && byte_is 58 src stop && byte_has is_digit src (suc stop))

-- `(?:href|src|srcset|action|url)\s*[=(]` for one of the words
abbrev link_word : Bytes → (high i : ℕ) → Bytes → Bool
link_word src high i word =
    let sign = forth (byte_in whitespace src) (i + length word) high in
    leb (i + length word) high
    && starts_at_any_case word src i
    && ltb sign high
    && byte_in (text "=(") src sign

-- `[A-Za-z0-9+.\-]`
abbrev is_scheme : ℕ → Bool
is_scheme b = is_letter b || is_digit b || b == 43 || b == 46 || b == 45

-- `<[A-Za-z][A-Za-z0-9+.\-]*:`
abbrev link_scheme : Bytes → (high i : ℕ) → Bool
link_scheme src high i =
    let colon = forth (byte_has is_scheme src) (i + 1) high in
    byte_is 60 src i
    && byte_has is_letter src (i + 1)
    && ltb (i + 1) colon
    && ltb colon high
    && byte_is 58 src colon

-- `LINK_TARGET.match(text, i, high)`
abbrev link_target : Bytes → (high i : ℕ) → Bool
link_target src high i =
    (leb (i + 2) high && starts_at (text "](") src i)
    || any (link_word src high i)
        (text "href" ∷ text "src" ∷ text "srcset" ∷ text "action" ∷ text "url" ∷ [])
    || link_scheme src high i

-- `LINK_DEFINITION.match(data, line_start, start)`
abbrev link_definition : Bytes → (line_start start : ℕ) → Bool
link_definition src line_start start =
    let opener = forth (byte_in blank src) line_start start in
    let closer = forth (byte_has (λ b. not (b == 93) && not (b == 10)) src) (opener + 1) start in
    leb (opener - line_start) 3
    && ltb opener start
    && byte_is 91 src opener
    && leb (closer + 2) start
    && starts_at (text "]:") src closer

-- spaces in place of the bytes of `[low, high)`
unfoldable pub blank_out : Bytes → (low high : ℕ) → Bytes
blank_out [] low high = []
blank_out (b ∷ bs) low zero = b ∷ bs
blank_out (b ∷ bs) zero (suc high) = 32 ∷ blank_out bs zero high
blank_out (b ∷ bs) (suc low) (suc high) = b ∷ blank_out bs low high

-- `PROSE_STOPS`
abbrev pub prose_stops : Bytes
prose_stops = whitespace ++ text "\"'`<>"

-- the token of a host that holds no guard phrase: all of a locator, or the host's own word
abbrev host_token : Bytes → (host : ℕ) → ℕ × ℕ
host_token src host =
    let (first, last) = token_bounds src 0 (length src) host (host + 9) whitespace in
    if is_locator src first last host (host + 9)
    then (first, last)
    else token_bounds src 0 (length src) host (host + 9) prose_stops

-- the loop over the hosts of a text
unfoldable pub without_hosts : Bytes → (hosts : List ℕ) → (unit : Bytes) → Bytes
without_hosts src [] unit = unit
without_hosts src (host ∷ hosts) unit =
    let (first, last) = host_token src host in without_hosts src hosts (blank_out unit first last)

-- the words of `EXEMPTION`, in small letters
abbrev guard_words : List Bytes
guard_words =
    text "never"
    ∷ text "forbidden"
    ∷ text "not in"
    ∷ text "assertnotin"
    ∷ text "does not appear"
    ∷ text "is not a surface"
    ∷ text "blocklists"
    ∷ text "blocklist"
    ∷ []

-- the end of the first of some words that stands at an index, alone
abbrev word_at : Bytes → (i : ℕ) → List Bytes → Option ℕ
word_at unit i [] = none
word_at unit i (word ∷ words) =
    if starts_at_any_case word unit i && not_word_after unit (i + length word) (length unit)
    then some (i + length word)
    else word_at unit i words

-- `GUARD_PHRASE.match(unit, i)`: where it ends. No phrase starts inside another.
unfoldable pub phrase_at : Bytes → (i : ℕ) → Option ℕ
phrase_at unit i = if not_word_before unit i then word_at unit i guard_words else none

-- `NOT_PROSE_BEFORE` and `NOT_PROSE_AFTER`
abbrev not_prose : Bytes
not_prose = text "/=?&%\\"

abbrev not_prose_before : Bytes → ℕ → Bool
not_prose_before unit zero = false
not_prose_before unit (suc i) = byte_in not_prose unit i

-- the body of the loop over the guard phrases
abbrev forbids_at : Bytes → (i : ℕ) → Bool
forbids_at unit i = elim (phrase_at unit i) [
  | none ↦ false
  | some end ↦
      let (first, last) = token_bounds unit 0 (length unit) i end prose_stops in
      not (
        some_in (λ k. leb (k + 3) last && starts_at (text "://") unit k) first last
        || not_prose_before unit i
        || byte_in not_prose unit end)
]

-- whether a unit holds a guard phrase that counts
unfoldable pub forbids : Bytes → Bool
forbids unit = some_in (forbids_at unit) 0 (length unit)

unfoldable pub prose_guard : Source → (words : Bytes) → (offset start stop line_start : ℕ) → Bool
prose_guard source words offset start stop line_start =
    let relative = start - offset in
    let (token_start, token_end) =
      token_bounds words 0 (length words) relative (stop - offset) whitespace in
    if some_in (link_target words relative) token_start relative
    then false
    else if link_definition source.bytes line_start start
    then false
    else forbids (without_hosts words (hosts_in words 0 (length words)) words)

abbrev is_html_text : Segment → Bool
is_html_text s = elim s.kind [ html_text ↦ true | _ ↦ false ]

abbrev pub from_index : List Segment → ℕ → List Segment
from_index ss zero = ss
from_index [] (suc i) = []
from_index (s ∷ ss) (suc i) = from_index ss i

-- the loop of `text_unit`
unfoldable pub without_marks : (line_start line_end : ℕ) → List Segment → Bytes → Bytes
without_marks line_start line_end [] unit = unit
without_marks line_start line_end (s ∷ ss) unit =
    let shown =
      if is_html_text s
      then unit
      else blank_out unit (max s.start line_start - line_start) (min s.end line_end - line_start) in
    let rest = without_marks line_start line_end ss shown in
    if ltb s.start line_end then rest else unit

abbrev pub text_unit : Source → (line_start line_end : ℕ) → Bytes
text_unit source line_start line_end =
    without_marks line_start line_end
      (from_index source.segments (bisect_right source.segments line_start - 1))
      (slice source.bytes line_start line_end)
