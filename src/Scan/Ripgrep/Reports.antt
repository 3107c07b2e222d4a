-- ===== src/Scan/Ripgrep/Reports.antt =====
-- The reports of ripgrep that the forbidden-domain gate accepts, and what it takes from them.
use mathlib.Core.List.{Memᴰ}
use khipu_consensus.Prelude.{
  ℕ, suc, ◌≤◌, ◌<◌, ◌≡◌, ◌≢◌, ◌⊎◌, some, List, [], ◌∷◌, ◌++◌, length, map, ℤ, pos, Text, Bytes,
  text,
}
use khipu_consensus.Prelude.Lists.{get_elem?}
use khipu_consensus.Python.Value.{Value, Fields, str, int, obj, find}
use khipu_consensus.Scan.Ripgrep.{Ripgrep, Match, raw, splitlines}
pub mod Records
pub mod Loop
pub mod Collected

-- A field that encodes some bytes.
pub Encodes : Ripgrep → Fields → Text → Bytes → Type 0
Encodes tool fields name bs = (v : Value) × (find name fields ≡ some v) × (raw tool v ≡ some bs)

-- One line: it is not empty, and no line break stands before its last byte.
pub IsLine : Bytes → Type 0
IsLine bs = (1 ≤ length bs) × ((i : ℕ) → suc i < length bs → get_elem? bs i ≢ some 10)

-- A record of a kind, with its data.
pub IsEvent : Ripgrep → (record_line : Bytes) → (kind : Text) → Fields → Type 0
IsEvent tool record_line kind fields =
    (event : Fields) × (tool.loads record_line ≡ some (obj event))
    × (find (text "type") event ≡ some (str kind))
    × (find (text "data") event ≡ some (obj fields))

-- The data of a match: one line, under its number, of a file that was asked for.
pub record IsReported (tool : Ripgrep) (arguments : List Bytes) (fields : Fields) (m : Match)
    : Type 0 where
  pub path_field : Encodes tool fields (text "path") m.path
  pub line_field : Encodes tool fields (text "lines") m.line
  pub number_field : find (text "line_number") fields ≡ some (int (pos m.number))
  pub expected : Memᴰ m.path arguments
  pub numbered : 1 ≤ m.number
  pub whole : IsLine m.line

pub IsSummary : Fields → ℕ → Type 0
IsSummary fields n =
    (stats : Fields) × (find (text "stats") fields ≡ some (obj stats))
    × (find (text "matched_lines") stats ≡ some (int (pos n)))

-- The records of a report: frames and matches, and one summary, the last.
pub data Reads (tool : Ripgrep) (arguments : List Bytes)
    : List Bytes → List Match → ℕ → Type 0 where
  frame :
      {l : Bytes} {ls : List Bytes} {ms : List Match} {n : ℕ} (fields : Fields)
      → IsEvent tool l (text "begin") fields ⊎ IsEvent tool l (text "end") fields
      → Reads tool arguments ls ms n
      → Reads tool arguments (l ∷ ls) ms n
  matched :
      {l : Bytes} {ls : List Bytes} {m : Match} {ms : List Match} {n : ℕ} (fields : Fields)
      → IsEvent tool l (text "match") fields
      → IsReported tool arguments fields m
      → Reads tool arguments ls ms n
      → Reads tool arguments (l ∷ ls) (m ∷ ms) n
  summed :
      {l : Bytes} {n : ℕ} (fields : Fields)
      → IsEvent tool l (text "summary") fields
      → IsSummary fields n
      → Reads tool arguments (l ∷ []) [] n

-- A run that is accepted: ripgrep exits with 0 and reports a match, or with 1 and reports none; the
-- summary has the number of the matches.
pub IsReport : Ripgrep → (batch : List Bytes) → List Match → Type 0
IsReport tool batch ms =
    (returncode : ℤ) × (output : Bytes) × (tool.scan (map (λ value. text "./" ++ value) batch)
      ≡ some (returncode, output))
    × Reads tool (map (λ value. text "./" ++ value) batch) (splitlines output) ms (length ms)
    × (((returncode ≡ pos 0) × (ms ≢ [])) ⊎ ((returncode ≡ pos 1) × (ms ≡ [])))

-- The matches of the reports, in the order of the batches.
pub AreReports : Ripgrep → (batches : List (List Bytes)) → List Match → Type 0
AreReports tool [] ms = ms ≡ []
AreReports tool (b ∷ bs) ms =
    (here : List Match) × (rest : List Match) × (ms ≡ here ++ rest)
    × IsReport tool b here
    × AreReports tool bs rest
