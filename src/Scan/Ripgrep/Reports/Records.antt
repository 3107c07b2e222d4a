-- ===== src/Scan/Ripgrep/Reports/Records.antt =====
-- The match and summary records of ripgrep, as the forbidden-domain gate reads them.
use mathlib.Core.List.{Memᴰ}
use khipu_consensus.Prelude.{
  ℕ, zero, suc, ◌≤◌, ◌<◌, ◌≡◌, ◌≢◌, ◌⊎◌, refl, sym, ap, ◌∙◌, Bool, true, false, not, ◌&&◌, some,
  List, [], ◌∷◌, inl, inr, bind, arith, length, leb, ◌==◌, pos, negsuc, Text, Bytes, text,
}
use khipu_consensus.Prelude.Tests.{some_inj, none-ne-some, Bool-cases, bind-eq-some}
use khipu_consensus.Prelude.Lists.{get_elem?}
use khipu_consensus.Prelude.Texts.{text_eq, text_eq→≡, text_eq_refl}
use khipu_consensus.Python.Value.{Value, Fields, null, bool, float, arr, str, int, obj, find}
use khipu_consensus.Scan.Family.{among}
use khipu_consensus.Scan.Ripgrep.{
  Ripgrep, Match, raw, fields_of, count_of, one_line, match_record, summary_record, is_frame,
  kind_is, same,
}
use khipu_consensus.Scan.Ripgrep.Reports.{Encodes, IsLine, IsReported, IsSummary}

IsLine-cons :
    (b c : ℕ) (bs : Bytes)
    → not (b == 10) ≡ true
    → ((i : ℕ) → suc i < length (c ∷ bs) → get_elem? (c ∷ bs) i ≢ some 10)
    → (i : ℕ) → suc i < length (b ∷ c ∷ bs)
    → get_elem? (b ∷ c ∷ bs) i ≢ some 10
IsLine-cons b c bs first others zero inside e = ground arith
IsLine-cons b c bs first others (suc i) inside e = others i (omega arith) e

one_line-IsLine : (bs : Bytes) → one_line bs ≡ true → IsLine bs
unfolding IsLine
one_line-IsLine [] h = cc
one_line-IsLine (b ∷ []) h = (omega arith, λ i inside e. omega arith)
one_line-IsLine (b ∷ c ∷ bs) h =
    let (some_bytes, others) = one_line-IsLine (c ∷ bs) (ground arith) in
    (omega arith, IsLine-cons b c bs (ground arith) others)

-- No line break is first in a line of two bytes or more.
no_break_first : (b c : ℕ) (bs : Bytes) → IsLine (b ∷ c ∷ bs) → b ≡ 10 → ⊥
unfolding IsLine
no_break_first b c bs (some_bytes, h) e = h 0 (omega arith) (rw e refl)

IsLine-one_line : (bs : Bytes) → IsLine bs → one_line bs ≡ true
unfolding IsLine
IsLine-one_line [] (some_bytes, h) = absurd (omega arith)
IsLine-one_line (b ∷ []) h = refl
IsLine-one_line (b ∷ c ∷ bs) (some_bytes, h) =
    let rest = IsLine-one_line (c ∷ bs) (omega arith, λ i inside e. h (suc i) (omega arith) e) in
    elim (Bool-cases (b == 10)) [
      | inl broken ↦ absurd (no_break_first b c bs (some_bytes, h) (ground arith))
      | inr plain ↦ rw (plain, rest) refl
    ]

among-Memᴰ : (k : Bytes) (js : List Bytes) → among k js ≡ true → Memᴰ k js
among-Memᴰ k [] h = cc
among-Memᴰ k (j ∷ js) h = elim (Bool-cases (text_eq j k)) [
  | inl same ↦ Memᴰ.head (sym (text_eq→≡ j k same))
  | inr other ↦ Memᴰ.tail (among-Memᴰ k js (rw other at h))
]

Memᴰ-among : (k : Bytes) (js : List Bytes) → Memᴰ k js → among k js ≡ true
Memᴰ-among k [] h = elim h [ ]
Memᴰ-among k (j ∷ js) (Memᴰ.head e) = rw (e, text_eq_refl j) refl
Memᴰ-among k (j ∷ js) (Memᴰ.tail h) = elim (Bool-cases (text_eq j k)) [
  | inl same ↦ rw same refl
  | inr other ↦ rw other (Memᴰ-among k js h)
]

false-ne-true : Path Bool false true → ⊥
false-ne-true e = cc

pub kind_is-str : (kind : Text) (v : Value) → kind_is kind v ≡ true → v ≡ str kind
kind_is-str kind (str s) h = ap str (text_eq→≡ s kind h)
kind_is-str kind null h = cc
kind_is-str kind (arr vs) h = cc
kind_is-str kind (obj f) h = cc
kind_is-str kind (bool b) h = cc
kind_is-str kind (int z) h = cc
kind_is-str kind (float z k) h = cc

pub is_frame-str :
    (v : Value) → is_frame v ≡ true → (v ≡ str (text "begin")) ⊎ (v ≡ str (text "end"))
is_frame-str (str s) h = elim (Bool-cases (text_eq (text "begin") s)) [
  | inl begins ↦ inl (ap str (sym (text_eq→≡ (text "begin") s begins)))
  | inr other ↦ elim (Bool-cases (text_eq (text "end") s)) [
    | inl ends ↦ inr (ap str (sym (text_eq→≡ (text "end") s ends)))
    | inr neither ↦ absurd (false-ne-true (rw (other, neither) at h))
  ]
]
is_frame-str null h = cc
is_frame-str (arr vs) h = cc
is_frame-str (obj f) h = cc
is_frame-str (bool b) h = cc
is_frame-str (int z) h = cc
is_frame-str (float z k) h = cc

pub fields_of-obj : (v : Value) (f : Fields) → fields_of v ≡ some f → v ≡ obj f
fields_of-obj (obj g) f h = ap obj (some_inj h)
fields_of-obj null f h = cc
fields_of-obj (arr vs) f h = cc
fields_of-obj (str s) f h = cc
fields_of-obj (bool b) f h = cc
fields_of-obj (int z) f h = cc
fields_of-obj (float z k) f h = cc

count_of-int : (v : Value) (n : ℕ) → count_of v ≡ some n → v ≡ int (pos n)
count_of-int (int (pos k)) n h = ap (λ (i : ℕ). int (pos i)) (some_inj h)
count_of-int (int (negsuc k)) n h = cc
count_of-int null n h = cc
count_of-int (arr vs) n h = cc
count_of-int (obj f) n h = cc
count_of-int (str s) n h = cc
count_of-int (bool b) n h = cc
count_of-int (float z k) n h = cc

reported :
    (tool : Ripgrep) (arguments : List Bytes) (fields : Fields) (path line : Bytes) (number : ℕ)
    → Encodes tool fields (text "path") path
    → Encodes tool fields (text "lines") line
    → find (text "line_number") fields ≡ some (int (pos number))
    → among path arguments && leb 1 number && one_line line ≡ true
    → IsReported tool arguments fields (record { path = path; number = number; line = line })
reported tool arguments fields path line number p l k good = record {
  path_field = p;
  line_field = l;
  number_field = k;
  expected = among-Memᴰ path arguments (ground arith);
  numbered = ground arith;
  whole = one_line-IsLine line (ground arith);
}

leb_one : (n : ℕ) → 1 ≤ n → leb 1 n ≡ true
leb_one n h = ground arith

pub match_record-IsReported :
    (tool : Ripgrep) (arguments : List Bytes) (fields : Fields) (m : Match)
    → match_record tool arguments fields ≡ some m
    → IsReported tool arguments fields m
unfolding match_record Encodes
match_record-IsReported tool arguments fields m h =
    let (path, e1, h1) = bind-eq-some (bind (find (text "path") fields) (raw tool)) _ h in
    let (line, e2, h2) = bind-eq-some (bind (find (text "lines") fields) (raw tool)) _ h1 in
    let (number, e3, h3) = bind-eq-some (bind (find (text "line_number") fields) count_of) _ h2 in
    let (v, found, counts) = bind-eq-some (find (text "line_number") fields) count_of e3 in
    elim (Bool-cases (among path arguments && leb 1 number && one_line line)) [
      | inr bad ↦ none-ne-some (rw bad at h3)
      | inl good ↦ rw (← some_inj (rw good at h3)) (
          reported tool arguments fields path line number
            (bind-eq-some (find (text "path") fields) (raw tool) e1)
            (bind-eq-some (find (text "lines") fields) (raw tool) e2)
            (found ∙ ap some (count_of-int v number counts)) good)
    ]

pub IsReported-match_record :
    (tool : Ripgrep) (arguments : List Bytes) (fields : Fields) (m : Match)
    → IsReported tool arguments fields m
    → match_record tool arguments fields ≡ some m
unfolding match_record Encodes
IsReported-match_record tool arguments fields m r =
    let (p, found_path, reads_path) = r.path_field in
    let (l, found_line, reads_line) = r.line_field in
    rw
      (
        match_record,
        found_path,
        reads_path,
        found_line,
        reads_line,
        r.number_field,
        Memᴰ-among m.path arguments r.expected,
        leb_one m.number r.numbered,
        IsLine-one_line m.line r.whole,
      )
      refl

pub summary_record-IsSummary :
    (fields : Fields) (n : ℕ) → summary_record fields ≡ some n → IsSummary fields n
unfolding IsSummary
summary_record-IsSummary fields n h =
    let (stats, e1, h1) = bind-eq-some (bind (find (text "stats") fields) fields_of) _ h in
    let (v, found, is_obj) = bind-eq-some (find (text "stats") fields) fields_of e1 in
    let (w, there, counts) = bind-eq-some (find (text "matched_lines") stats) count_of h1 in
    (
      stats,
      found ∙ ap some (fields_of-obj v stats is_obj),
      there ∙ ap some (count_of-int w n counts),
    )

pub IsSummary-summary_record :
    (fields : Fields) (n : ℕ) → IsSummary fields n → summary_record fields ≡ some n
unfolding IsSummary
IsSummary-summary_record fields n (stats, found, there) = rw (summary_record, found, there) refl
