-- ===== src/Scan/Gate.antt =====
-- .github/scripts/forbidden_domain_scan.py: the whole gate, from the tracked files to the exit code.
pub mod Exit
use khipu_consensus.Prelude.{
  ℕ, Bool, true, false, Option, none, some, List, [], ◌∷◌, ◌++◌, if◌then◌else◌, Bytes,
}
use khipu_consensus.Prelude.Texts.{text_eq}
use khipu_consensus.Scan.Family.{family_for}
use khipu_consensus.Scan.Source.{Source, source_of}
use khipu_consensus.Scan.Judge.{judge}
use khipu_consensus.Scan.Index.{Checkout, tracked_sources}
use khipu_consensus.Scan.Ripgrep.{Ripgrep, Match, batches, collect_all, version_clean}

unfoldable pub collect_matches : Checkout → Ripgrep → Option (List Match)
collect_matches checkout tool = elim (tracked_sources checkout) [
  | none ↦ none
  | some paths ↦ if version_clean tool.version then collect_all tool (batches paths) else none
]

-- The file that the loop read last, with its path.
abbrev pub Current : Type 0
Current = Option (Bytes × Source)

unfoldable pub load_source : Checkout → (path : Bytes) → Option Source
load_source checkout path = elim (checkout.read path) [
  | none ↦ none
  | some bytes ↦ some (source_of bytes (family_for path))
]

-- the source of a match: the file read last, if it is that one
unfoldable pub current_source : Checkout → Current → (path : Bytes) → Option Source
current_source checkout none path = load_source checkout path
current_source checkout (some (current, source)) path =
    if text_eq path current then some source else load_source checkout path

abbrev keep_unless : Bool → Match → List Match → List Match
keep_unless true m violations = violations
keep_unless false m violations = m ∷ violations

-- the loop of `filter_violations`
unfoldable pub filter_from : Checkout → Current → List Match → Option (List Match)
filter_from checkout current [] = some []
filter_from checkout current (m ∷ matches) = elim (current_source checkout current m.path) [
  | none ↦ none
  | some source ↦ elim (judge source m.number m.line) [
    | none ↦ none
    | some covered ↦ elim (filter_from checkout (some (m.path, source)) matches) [
      | none ↦ none
      | some violations ↦ some (keep_unless covered m violations)
    ]
  ]
]

unfoldable pub filter_violations : Checkout → List Match → Option (List Match)
filter_violations checkout matches = filter_from checkout none matches

unfoldable pub scan_root : Checkout → Ripgrep → Option (List Match)
scan_root checkout tool = elim (collect_matches checkout tool) [
  | none ↦ none
  | some matches ↦ filter_violations checkout matches
]

-- the exit code of `main`
unfoldable pub main : Checkout → Ripgrep → ℕ
main checkout tool = elim (scan_root checkout tool) [
  | none ↦ 2
  | some [] ↦ 0
  | some (m ∷ violations) ↦ 1
]
