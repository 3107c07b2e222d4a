-- ===== src/Tests/Scanned.antt =====
-- A file that the forbidden-domain gate judges, in a checkout of one file.
use khipu_consensus.Prelude.{
  true, if◌then◌else◌, ◌≤◌, ◌<◌, ◌≡◌, ◌↔◌, refl, Option, none, some, [], ◌∷◌, List, All, pos, text,
  Bytes, arith,
}
use khipu_consensus.Prelude.Texts.{text_eq}
use khipu_consensus.Prelude.Lists.{get_elem?}
use khipu_consensus.Python.Value.{Value, str, nat, obj, field, end, find}
use khipu_consensus.Python.Utf8.{utf8}
use khipu_consensus.Scan.Marks.{
  starts_at, starts_at_any_case, back, forth_by, first_by, find_in, host_at, hosts_by,
}
use khipu_consensus.Scan.Family.{python, as_code, as_prose}
use khipu_consensus.Scan.Tokens.{advance, scan_string_by, regex_body, scan_regex}
use khipu_consensus.Scan.Lexer.{literal, Segment, add, found_at, lex_by}
use khipu_consensus.Scan.Source.{
  source_of, segments_of, lex_prose_by, fence_open, fence_closes, bisect_right, segment_at,
  skip_back_by, skip_forward_by,
}
use khipu_consensus.Scan.Source.Placed.{segment_at_unique, segment_at_finds}
use khipu_consensus.Scan.Guard.{entry_start_by, guard_name, guard_binding}
use khipu_consensus.Scan.Shapes.{
  before_commas, after_commas, keyed_literal, asserted_absent, structural,
}
use khipu_consensus.Scan.Judge.{covered, judge}
use khipu_consensus.Scan.Index.{
  Checkout, regular, split_on, words_after, cut_at, parts_hold, scannable, index_paths,
  tracked_sources,
}
use khipu_consensus.Scan.Index.Sound.{IsSource, Distinct, tracked_sources_lem}
use khipu_consensus.Scan.Ripgrep.{
  Ripgrep, Match, raw, match_record, batch_record, batch_records, complete, batch_matches, collect,
  batches_from, batches, collect_all,
}
use khipu_consensus.Scan.Ripgrep.Batches.{IsBounded, joined, batches_lem}
use khipu_consensus.Scan.Gate.{
  collect_matches, load_source, current_source, filter_from, filter_violations, scan_root, main,
}
use khipu_consensus.Scan.Gate.Exit.{IsCovered, IsScan, gate_exits_0}

abbrev blocklist : Bytes
blocklist = text "BLOCKLIST = [\"a11oy.com\"]"

abbrev checkout : Checkout
checkout = record {
  ls_files = some (pos 0, text "100644 x 0\ta.py\0");
  lstat = λ parts. some regular;
  read = λ path. some blocklist;
}

abbrev event : Bytes → Option Value
event line =
    if text_eq line (text "summary")
    then some (
        obj (
          field (text "type") (str (text "summary")) (
            field (text "data")
              (obj (field (text "stats") (obj (field (text "matched_lines") (nat 1) end)) end))
              end)))
    else some (
        obj (
          field (text "type") (str (text "match")) (
            field (text "data")
              (obj (
                field (text "path") (obj (field (text "text") (str (text "./a.py")) end)) (
                  field (text "lines") (obj (field (text "text") (str blocklist) end))
                    (field (text "line_number") (nat 1) end))))
              end)))

abbrev tool : Ripgrep
tool = record {
  version = some (pos 0);
  scan = λ arguments. some (pos 0, text "match\nsummary\n");
  loads = event;
  b64decode = λ s. none;
}

-- The gate passes: the constant's name forbids the host.
passes : main checkout tool ≡ 0
unfolding main scan_root filter_violations collect_matches load_source current_source filter_from
    raw match_record batch_record batch_records complete batch_matches collect batches_from
    collect_all split_on words_after cut_at parts_hold scannable index_paths tracked_sources covered
    judge before_commas after_commas keyed_literal asserted_absent structural entry_start_by
    guard_name guard_binding bisect_right skip_back_by skip_forward_by add found_at lex_by advance
    scan_string_by regex_body scan_regex starts_at starts_at_any_case back forth_by first_by find_in
    host_at hosts_by text_eq find utf8
passes = refl

gate_exits_0_example :
    (main checkout tool ≡ 0)
    ↔ ((matches : List Match) × IsScan checkout tool matches × All (IsCovered checkout) matches)
gate_exits_0_example = gate_exits_0 checkout tool

listed : tracked_sources checkout ≡ some (text "a.py" ∷ [])
unfolding split_on words_after cut_at parts_hold scannable index_paths tracked_sources text_eq
listed = refl

tracked_sources_lem_example :
    Distinct (text "a.py" ∷ []) × All (IsSource checkout) (text "a.py" ∷ [])
tracked_sources_lem_example = tracked_sources_lem checkout (text "a.py" ∷ []) listed

abbrev two_paths : List Bytes
two_paths = text "a.py" ∷ text "b/c.md" ∷ []

batches_lem_example : (joined (batches two_paths) ≡ two_paths) × All IsBounded (batches two_paths)
batches_lem_example = batches_lem two_paths

segment_at_finds_example :
    (s : Segment) × (segment_at (source_of blocklist (as_code python)) 14 ≡ some s)
    × (s.start ≤ 14)
    × (14 < s.end)
segment_at_finds_example = segment_at_finds python blocklist 14 (omega arith)

abbrev fenced_file : Bytes
fenced_file = text "x\n```py\nf(\"b\")\n```\n"

abbrev quoted : Segment
quoted = record {
  start = 10;
  end = 13;
  kind = literal;
  inner_start = 11;
  inner_end = 12;
  stack = some (40 ∷ []);
  structured = true;
}

-- The string in the block of a prose file.
fourth : get_elem? (segments_of fenced_file as_prose) 3 ≡ some quoted
unfolding lex_prose_by fence_open fence_closes add found_at lex_by advance scan_string_by regex_body
    scan_regex starts_at back forth_by first_by find_in text_eq
fourth = refl

segment_at_unique_example : segment_at (source_of fenced_file as_prose) 12 ≡ some quoted
segment_at_unique_example =
    segment_at_unique as_prose fenced_file 3 12 quoted fourth (omega arith) (omega arith)
