-- ===== src/Scan/Ripgrep.antt =====
-- .github/scripts/forbidden_domain_scan.py: the matches that ripgrep reports. `none` stands for the
-- exception of `fail`, and for those that the program turns into it.
pub mod Batches
pub mod Reports
use khipu_consensus.Prelude.{
  bind, ℕ, zero, suc, ◌+◌, Bool, true, false, not, ◌&&◌, ◌||◌, Option, none, some, List, [], ◌∷◌,
  ◌++◌, any, length, map, ltb, leb, ◌==◌, if◌then◌else◌, ℤ, pos, negsuc, Text, Bytes, text,
}
use khipu_consensus.Prelude.Texts.{text_eq}
use khipu_consensus.Python.Value.{Value, Fields, end, field, str, int, obj, find, is_str}
use khipu_consensus.Python.Utf8.{utf8}
use khipu_consensus.Python.Error.{ok, err}
use khipu_consensus.Scan.Family.{among}

-- What the program takes from outside: ripgrep, and two decoders of the standard library.
pub record Ripgrep : Type 0 where
  -- the return code of `rg --version`; `none` if it could not run
  pub version : Option ℤ
  -- the return code and the output of a scan of some paths
  pub scan : List Bytes → Option (ℤ × Bytes)
  -- `json.loads`
  pub loads : Bytes → Option Value
  -- `base64.b64decode` with `validate`
  pub b64decode : Text → Option Bytes

pub record Match : Type 0 where
  pub path : Bytes
  pub number : ℕ
  pub line : Bytes

abbrev encoded : Text → Option Bytes
encoded s = elim (utf8 s) [ ok bs ↦ some bs | err e ↦ none ]

-- `raw`: an object of one field, `text` or `bytes`
unfoldable pub raw : Ripgrep → Value → Option Bytes
raw tool (obj (field name (str s) end)) =
    if text_eq name (text "text")
    then encoded s
    else if text_eq name (text "bytes")
    then tool.b64decode s
    else none
raw tool _ = none

abbrev pub fields_of : Value → Option Fields
fields_of (obj f) = some f
fields_of _ = none

-- an `int` that is not negative, and not a `bool`
abbrev pub count_of : Value → Option ℕ
count_of (int (pos n)) = some n
count_of _ = none

-- `not line or b"\n" in line.removesuffix(b"\n")`
abbrev pub one_line : Bytes → Bool
one_line [] = false
one_line (b ∷ []) = true
one_line (b ∷ c ∷ bs) = not (b == 10) && one_line (c ∷ bs)

-- a record of the kind "match"
unfoldable pub match_record :
    Ripgrep → (expected_paths : List Bytes) → (fields : Fields) → Option Match
match_record tool expected_paths fields = bind (bind (find (text "path") fields) (raw tool)) λ path.
    bind (bind (find (text "lines") fields) (raw tool)) λ line.
      bind (bind (find (text "line_number") fields) count_of) λ number.
        if among path expected_paths && leb 1 number && one_line line
        then some (record { path = path; number = number; line = line })
        else none

-- a record of the kind "summary"
abbrev pub summary_record : Fields → Option ℕ
summary_record fields =
    bind (bind (find (text "stats") fields) fields_of)
      λ stats. bind (find (text "matched_lines") stats) count_of

-- the kinds of records that carry no result
abbrev pub is_frame : Value → Bool
is_frame (str kind) = among kind (text "begin" ∷ text "end" ∷ [])
is_frame _ = false

abbrev pub kind_is : Text → Value → Bool
kind_is kind (str s) = text_eq s kind
kind_is kind _ = false

-- the variables of the loop: the matches, and the summary
abbrev pub Batch : Type 0
Batch = List Match × Option ℕ

-- the body of the loop of `batch_matches`
unfoldable pub batch_record :
    Ripgrep → (expected_paths : List Bytes) → Batch → (event : Fields) → Option Batch
batch_record tool expected_paths (matches, some summary) event = none
batch_record tool expected_paths (matches, none) event = bind (find (text "type") event) λ kind.
    bind (bind (find (text "data") event) fields_of) λ fields.
      if kind_is (text "match") kind
      then bind (match_record tool expected_paths fields) (λ m. some (matches ++ (m ∷ []), none))
      else if kind_is (text "summary") kind
      then bind (summary_record fields) (λ summary. some (matches, some summary))
      else if is_frame kind
      then some (matches, none)
      else none

unfoldable pub batch_records :
    Ripgrep → (expected_paths : List Bytes) → Batch → List Bytes → Option Batch
batch_records tool expected_paths batch [] = some batch
batch_records tool expected_paths batch (record_line ∷ records) =
    bind (bind (tool.loads record_line) fields_of) λ event.
      bind (batch_record tool expected_paths batch event)
        λ after. batch_records tool expected_paths after records

-- the first line grows by one byte
abbrev longer : ℕ → List Bytes → List Bytes
longer b [] = (b ∷ []) ∷ []
longer b (line ∷ lines) = (b ∷ line) ∷ lines

-- `bs.splitlines()`: a line ends at "\n", at "\r\n" or at "\r"
abbrev pub splitlines : Bytes → List Bytes
splitlines [] = []
splitlines (b ∷ []) = if b == 10 || b == 13 then [] ∷ [] else (b ∷ []) ∷ []
splitlines (b ∷ c ∷ bs) =
    let rest = splitlines (c ∷ bs) in
    let after_both = splitlines bs in
    if b == 10
    then [] ∷ rest
    else if b == 13
    then (if c == 10 then [] ∷ after_both else [] ∷ rest)
    else longer b rest

abbrev pub is_zero : ℤ → Bool
is_zero (pos zero) = true
is_zero _ = false

abbrev pub some_match : List Match → Bool
some_match [] = false
some_match (m ∷ matches) = true

abbrev pub same : Bool → Bool → Bool
same true b = b
same false b = not b

-- the checks on a whole batch
unfoldable pub complete : (clean_exit : Bool) → Batch → Option (List Match)
complete clean_exit (matches, none) = none
complete clean_exit (matches, some summary) =
    if summary == length matches && same clean_exit (some_match matches) then some matches else none

-- `batch_matches`
unfoldable pub batch_matches :
    Ripgrep → (expected_paths : List Bytes) → ℤ × Bytes → Option (List Match)
batch_matches tool expected_paths (returncode, output) =
    bind (batch_records tool expected_paths ([], none) (splitlines output))
      λ batch. complete (is_zero returncode) batch

-- the return codes that `rg` accepts
abbrev pub accepted : ℤ → Bool
accepted (pos n) = leb n 1
accepted (negsuc n) = false

-- `collect`, the run of `rg` included
unfoldable pub collect : Ripgrep → List Bytes → Option (List Match)
collect tool values =
    let arguments = map (λ value. text "./" ++ value) values in
    bind (tool.scan arguments) λ result.
      let (returncode, output) = result in
      if accepted returncode then batch_matches tool arguments (returncode, output) else none

-- the loop of `collect_matches`: the batches that it collects, in their order
unfoldable pub batches_from : (batch : List Bytes) → (size : ℕ) → List Bytes → List (List Bytes)
batches_from [] size [] = []
batches_from (p ∷ batch) size [] = (p ∷ batch) ∷ []
batches_from [] size (path ∷ paths) = batches_from (path ∷ []) (size + length path + 1) paths
batches_from (p ∷ batch) size (path ∷ paths) =
    let fresh = batches_from (path ∷ []) (length path + 1) paths in
    let fuller = batches_from ((p ∷ batch) ++ (path ∷ [])) (size + length path + 1) paths in
    if leb 128 (length (p ∷ batch)) || ltb 16384 (size + length path + 1)
    then (p ∷ batch) ∷ fresh
    else fuller

abbrev pub batches : List Bytes → List (List Bytes)
batches paths = batches_from [] 0 paths

-- `matches.extend(collect(batch))` for each batch
unfoldable pub collect_all : Ripgrep → List (List Bytes) → Option (List Match)
collect_all tool [] = some []
collect_all tool (batch ∷ rest) =
    bind (collect tool batch)
      λ matches. bind (collect_all tool rest) λ others. some (matches ++ others)

abbrev pub version_clean : Option ℤ → Bool
version_clean none = false
version_clean (some returncode) = is_zero returncode
