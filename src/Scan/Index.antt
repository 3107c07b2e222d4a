-- ===== src/Scan/Index.antt =====
-- .github/scripts/forbidden_domain_scan.py: the tracked files that the Git index lists. `none`
-- stands for the exception of `fail`: the gate could not complete.
pub mod Sound
use khipu_consensus.Prelude.{
  ℕ, zero, suc, Bool, true, false, not, ◌&&◌, ◌||◌, Option, none, some, List, [], ◌∷◌, ◌++◌, any,
  ◌==◌, if◌then◌else◌, ℤ, pos, negsuc, Bytes, text,
}
use khipu_consensus.Prelude.Texts.{text_eq}
use khipu_consensus.Scan.Marks.{elem, whitespace}
use khipu_consensus.Scan.Family.{among}

-- what `lstat` tells of a path
pub data FileType : Type 0 where
  regular directory other : FileType

-- What the program asks of Git and of the file system.
pub record Checkout : Type 0 where
  -- `git ls-files --stage -z`: its return code and its output; `none` if it could not run
  pub ls_files : Option (ℤ × Bytes)
  -- `lstat` of the path that some parts make under the root; `none` is an `OSError`
  pub lstat : List Bytes → Option FileType
  -- the bytes of a file, if it is a regular one and can be read
  pub read : Bytes → Option Bytes

-- a part that grows by one byte
abbrev grow : ℕ → List Bytes → List Bytes
grow b [] = (b ∷ []) ∷ []
grow b (part ∷ parts) = (b ∷ part) ∷ parts

-- `bs.split(sep)` of one byte
unfoldable pub split_on : ℕ → Bytes → List Bytes
split_on sep [] = [] ∷ []
split_on sep (b ∷ bs) = let rest = split_on sep bs in if b == sep then [] ∷ rest else grow b rest

-- `bs.split()`, given the word before
unfoldable pub words_after : (word : Bytes) → Bytes → List Bytes
words_after [] [] = []
words_after (w ∷ word) [] = (w ∷ word) ∷ []
words_after [] (b ∷ bs) =
    let skipped = words_after [] bs in
    let started = words_after (b ∷ []) bs in if elem b whitespace then skipped else started
words_after (w ∷ word) (b ∷ bs) =
    let ended = words_after [] bs in
    let longer = words_after ((w ∷ word) ++ (b ∷ [])) bs in
    if elem b whitespace then (w ∷ word) ∷ ended else longer

-- `bs.split(b"\t", 1)`, where there must be two parts
unfoldable pub cut_at : ℕ → Bytes → Option (Bytes × Bytes)
cut_at sep [] = none
cut_at sep (b ∷ bs) =
    let rest = cut_at sep bs in
    if b == sep
    then some ([], bs)
    else elim rest [ none ↦ none | some cut ↦ (let (front, back) = cut in some (b ∷ front, back)) ]

-- `items[:-1]`
abbrev pub init : List Bytes → List Bytes
init [] = []
init (x ∷ []) = []
init (x ∷ y ∷ ys) = x ∷ init (y ∷ ys)

-- `stat.S_ISREG` and `stat.S_ISDIR` of a path
abbrev pub is_regular : Option FileType → Bool
is_regular (some regular) = true
is_regular _ = false

abbrev is_directory : Option FileType → Bool
is_directory (some directory) = true
is_directory _ = false

-- the loop over the parts of a path: directories, and at the end a regular file
unfoldable pub parts_hold : Checkout → (front : List Bytes) → (parts : List Bytes) → Bool
parts_hold checkout front [] = true
parts_hold checkout front (part ∷ []) = is_regular (checkout.lstat (front ++ (part ∷ [])))
parts_hold checkout front (part ∷ next ∷ parts) =
    is_directory (checkout.lstat (front ++ (part ∷ [])))
    && parts_hold checkout (front ++ (part ∷ [])) (next ∷ parts)

abbrev pub unsafe_parts : List Bytes
unsafe_parts = [] ∷ text "." ∷ text ".." ∷ text ".git" ∷ []

-- whether a path may be scanned: no part that escapes the root, and a regular file
unfoldable pub scannable : Checkout → (mode path : Bytes) → Bool
scannable checkout mode path =
    among mode (text "100644" ∷ text "100755" ∷ [])
    && not (any (λ part. among part unsafe_parts) (split_on 47 path))
    && parts_hold checkout [] (split_on 47 path)

-- symbolic links and submodules
abbrev pub not_followed : Bytes → Bool
not_followed mode = among mode (text "120000" ∷ text "160000" ∷ [])

-- what an entry of the index adds to the paths; `none` is a `ValueError` or an `OSError`
abbrev pub entry_paths : Checkout → (mode path : Bytes) → Option (List Bytes)
entry_paths checkout mode path =
    if not_followed mode
    then some []
    else if scannable checkout mode path
    then some (path ∷ [])
    else none

-- `mode, _object_id, stage = metadata.split()`
abbrev pub mode_and_stage : List Bytes → Option (Bytes × Bytes)
mode_and_stage (mode ∷ object_id ∷ stage ∷ []) = some (mode, stage)
mode_and_stage _ = none

abbrev pub empty : Bytes → Bool
empty [] = true
empty (b ∷ bs) = false

-- a record with its path and the paths that it adds
abbrev pub staged : Checkout → (seen : List Bytes) → Bytes × Bytes → Option (Bytes × List Bytes)
staged checkout seen (metadata, path) = elim (mode_and_stage (words_after [] metadata)) [
  | none ↦ none
  | some entry ↦
      let (mode, stage) = entry in
      if not (text_eq stage (text "0")) || empty path || among path seen
      then none
      else elim (entry_paths checkout mode path) [ none ↦ none | some added ↦ some (path, added) ]
]

abbrev pub index_record : Checkout → (seen : List Bytes) → Bytes → Option (Bytes × List Bytes)
index_record checkout seen bs = elim (cut_at 9 bs) [
  | none ↦ none
  | some cut ↦ staged checkout seen cut
]

abbrev pub prepend : List Bytes → Option (List Bytes) → Option (List Bytes)
prepend added none = none
prepend added (some paths) = some (added ++ paths)

-- the loop of `tracked_sources` over the records
unfoldable pub index_paths : Checkout → (seen : List Bytes) → List Bytes → Option (List Bytes)
index_paths checkout seen [] = some []
index_paths checkout seen (bs ∷ records) = elim (index_record checkout seen bs) [
  | none ↦ none
  | some entry ↦
      let (path, added) = entry in prepend added (index_paths checkout (path ∷ seen) records)
]

-- `not output or output.endswith(b"\0")`
abbrev pub framed : Bytes → Bool
framed [] = true
framed (b ∷ []) = b == 0
framed (b ∷ c ∷ bs) = framed (c ∷ bs)

abbrev pub listed : Checkout → ℤ × Bytes → Option (List Bytes)
listed checkout (negsuc n, output) = none
listed checkout (pos (suc n), output) = none
listed checkout (pos zero, output) =
    if framed output then index_paths checkout [] (init (split_on 0 output)) else none

unfoldable pub tracked_sources : Checkout → Option (List Bytes)
tracked_sources checkout = elim checkout.ls_files [
  | none ↦ none
  | some result ↦ listed checkout result
]
