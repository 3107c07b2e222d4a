-- ===== src/Scan/Family.antt =====
-- .github/scripts/forbidden_domain_scan.py: how comments and strings of a file type are recognised.
use khipu_consensus.Prelude.{
  Bool, true, false, List, [], ◌∷◌, ◌++◌, ◌-◌, not, length, ltb, map, if◌then◌else◌, Bytes, text,
}
use khipu_consensus.Prelude.Texts.{text_eq}
use khipu_consensus.Scan.Marks.{lower, back, byte_is, slice}

-- Where a marker begins a line comment: anywhere, after white space, or not after a colon. At the
-- start of the text it always does.
pub data Rule : Type 0 where
  anywhere after_space not_after_colon : Rule

pub record Family : Type 0 where
  pub quotes : Bytes
  pub escapes : Bytes
  -- opening, closing, and whether a backslash escapes
  pub multiline : List (Bytes × Bytes × Bool)
  pub line : List (Bytes × Rule)
  pub block : List (Bytes × Bytes)
  pub structured : Bool
  pub regex : Bool
  pub brackets : Bool

pub data FamilyName : Type 0 where
  python hash script jsx c css dash lua data_file html : FamilyName

abbrev both_quotes : Bytes
both_quotes = text "\"'"

abbrev double_quote : Bytes
double_quote = text "\""

abbrev slash_comment : List (Bytes × Rule)
slash_comment = (text "//", not_after_colon) ∷ []

abbrev star_comment : List (Bytes × Bytes)
star_comment = (text "/*", text "*/") ∷ []

abbrev plain : Family
plain = record {
  quotes = both_quotes;
  escapes = both_quotes;
  multiline = [];
  line = [];
  block = [];
  structured = true;
  regex = false;
  brackets = true;
}

-- the entry of `FAMILIES`
abbrev pub family_of : FamilyName → Family
family_of python = record plain {
  multiline = (text "\"\"\"", text "\"\"\"", true) ∷ (text "'''", text "'''", true) ∷ [];
  line = (text "#", anywhere) ∷ [];
}
family_of hash = record plain { escapes = double_quote; line = (text "#", after_space) ∷ [] }
family_of script = record plain {
  multiline = (text "`", text "`", true) ∷ [];
  line = slash_comment;
  block = star_comment;
  regex = true;
}
family_of jsx = record plain {
  multiline = (text "`", text "`", true) ∷ [];
  line = slash_comment;
  block = star_comment;
  regex = true;
  brackets = false;
}
family_of c = record plain { line = slash_comment; block = star_comment }
family_of css = record plain { block = star_comment }
family_of dash = record plain {
  quotes = double_quote;
  escapes = double_quote;
  line = (text "--", anywhere) ∷ [];
  block = (text "/-", text "-/") ∷ (text "{-", text "-}") ∷ star_comment;
}
family_of lua = record plain {
  multiline = (text "[[", text "]]", false) ∷ [];
  line = (text "--", anywhere) ∷ [];
  block = (text "--[[", text "]]") ∷ [];
}
family_of data_file = record plain { quotes = double_quote; escapes = double_quote }
family_of html = record plain {
  quotes = double_quote;
  escapes = [];
  block = (text "<!--", text "-->") ∷ [];
  structured = false;
}

abbrev first_byte : Bytes → Bytes
first_byte [] = []
first_byte (b ∷ bs) = b ∷ []

abbrev first_bytes : List Bytes → Bytes
first_bytes [] = []
first_bytes (m ∷ ms) = first_byte m ++ first_bytes ms

-- `spec["interesting"]`: the bytes at which a comment or a string can start
abbrev pub interesting : Family → Bytes
interesting f =
    f.quotes
    ++ ((if f.regex then text "/" else [])
        ++ (first_bytes (map (λ (m, close, e). m) f.multiline)
            ++ (first_bytes (map (λ (m, r). m) f.line)
                ++ first_bytes (map (λ (open_mark, close). open_mark) f.block))))

-- A file is prose, or read as code of a family.
pub data Reading : Type 0 where
  as_prose : Reading
  as_code : FamilyName → Reading

abbrev Names {ℓ} : Type ℓ → Type ℓ
Names A = List (List Bytes × A)

abbrev pub among : Bytes → List Bytes → Bool
among k [] = false
among k (j ∷ js) = if text_eq j k then true else among k js

abbrev look {ℓ} : {A : Type ℓ} → Bytes → A → Names A → A
look k other [] = other
look k other ((js, v) ∷ rest) = if among k js then v else look k other rest

-- `EXTENSIONS`
abbrev extensions : Names Reading
extensions =
    (text ".py" ∷ text ".pyi" ∷ [], as_code python)
    ∷ (
      text ".js"
          ∷ text ".mjs"
          ∷ text ".cjs"
          ∷ text ".ts"
          ∷ text ".mts"
          ∷ text ".cts"
          ∷ text ".go"
          ∷ [],
      as_code script,
    )
    ∷ (text ".jsx" ∷ text ".tsx" ∷ [], as_code jsx)
    ∷ (
      text ".c"
          ∷ text ".h"
          ∷ text ".cc"
          ∷ text ".cpp"
          ∷ text ".hpp"
          ∷ text ".java"
          ∷ text ".rs"
          ∷ text ".swift"
          ∷ text ".kt"
          ∷ text ".kts"
          ∷ text ".scala"
          ∷ text ".cs"
          ∷ text ".php"
          ∷ text ".dart"
          ∷ [],
      as_code c,
    )
    ∷ (text ".css" ∷ text ".scss" ∷ text ".less" ∷ [], as_code css)
    ∷ (text ".sql" ∷ text ".hs" ∷ text ".lean" ∷ [], as_code dash)
    ∷ (text ".lua" ∷ [], as_code lua)
    ∷ (
      text ".json" ∷ text ".jsonl" ∷ text ".ndjson" ∷ text ".geojson" ∷ text ".ipynb" ∷ [],
      as_code data_file,
    )
    ∷ (text ".html" ∷ text ".htm" ∷ text ".xhtml" ∷ text ".xml" ∷ text ".svg" ∷ [], as_code html)
    ∷ (text ".md" ∷ text ".markdown" ∷ text ".txt" ∷ text ".rst" ∷ text ".adoc" ∷ [], as_prose)
    ∷ []

-- `FENCE_LANGUAGES.get(name, "hash")`
abbrev pub fence_language : Bytes → FamilyName
fence_language name = look name hash (
    (text "python" ∷ text "py" ∷ [], python)
    ∷ (text "js" ∷ text "javascript" ∷ text "ts" ∷ text "typescript" ∷ [], script)
    ∷ (text "jsx" ∷ text "tsx" ∷ [], jsx)
    ∷ (text "json" ∷ [], data_file)
    ∷ (text "html" ∷ text "xml" ∷ [], html)
    ∷ (text "css" ∷ [], css)
    ∷ (text "sql" ∷ text "lean" ∷ [], dash)
    ∷ (text "lua" ∷ [], lua)
    ∷ [])

abbrev after_slash : Bytes → Bytes
after_slash bs = slice bs (back (λ i. not (byte_is 47 bs i)) 0 (length bs)) (length bs)

-- `family_for`
abbrev pub family_for : Bytes → Reading
family_for path =
    let name = map lower (after_slash path) in
    let dot = back (λ i. not (byte_is 46 name i)) 0 (length name) in
    if ltb 1 dot
    then look (slice name (dot - 1) (length name)) (as_code hash) extensions
    else as_code hash
