-- ===== src/Release/Names.antt =====
-- .github/scripts/szl_pypi_release_gate.py: names of packages, their declaration, and tags.
use khipu_consensus.Prelude.{
  ℕ, Bool, true, false, not, ◌&&◌, ◌||◌, Option, none, some, List, [], ◌∷◌, ◌++◌, ◌==◌,
  if◌then◌else◌, Text, text,
}
use khipu_consensus.Prelude.Texts.{strip}

-- The tables of Unicode that `str.lower` and `\d` read.
pub record Characters : Type 0 where
  pub lower : Text → Text
  pub is_decimal : ℕ → Bool

abbrev is_dash : ℕ → Bool
is_dash c = c == 45 || c == 95 || c == 46

-- `re.sub(r"[-_.]+", "-", name)`, given whether the character before was one of a run
unfoldable pub one_dash : (in_run : Bool) → Text → Text
one_dash in_run [] = []
one_dash true (c ∷ s) =
    let more = one_dash true s in
    let next = one_dash false s in if is_dash c then more else c ∷ next
one_dash false (c ∷ s) =
    let more = one_dash true s in
    let next = one_dash false s in if is_dash c then 45 ∷ more else c ∷ next

abbrev pub norm : Characters → Text → Text
norm chars name = chars.lower (one_dash false name)

-- what stands before the first of a character, and after it
unfoldable pub partition : ℕ → Text → Text × Text
partition sep [] = ([], [])
partition sep (c ∷ s) =
    let (front, rest) = partition sep s in if c == sep then ([], s) else (c ∷ front, rest)

abbrev join_first : ℕ → List Text → List Text
join_first c [] = (c ∷ []) ∷ []
join_first c (s ∷ rest) = (c ∷ s) ∷ rest

-- `s.split(sep)` of one character
unfoldable pub split_text : ℕ → Text → List Text
split_text sep [] = [] ∷ []
split_text sep (c ∷ s) =
    let rest = split_text sep s in if c == sep then [] ∷ rest else join_first c rest

pub record Package : Type 0 where
  pub name : Text
  pub dir : Text
  pub environment : Text

-- `(s or default).strip()`
abbrev or_text : Text → Text → Text
or_text [] default = strip default
or_text (c ∷ s) default = strip (c ∷ s)

abbrev package_of : Text → Package
package_of item =
    let (name, rest) = partition 61 item in
    let (directory, env) = partition 58 rest in
    record {
      name = strip name;
      dir = or_text directory (text ".");
      environment = or_text env (text "pypi");
    }

-- the items that are not blank
abbrev packages_of : List Text → List Package
packages_of [] = []
packages_of (item ∷ items) = elim (strip item) [
  | [] ↦ packages_of items
  | c ∷ s ↦ package_of (c ∷ s) ∷ packages_of items
]

-- `parse_packages`; `none` is the exit with 1, as everywhere in this program
unfoldable pub parse_packages : Text → Option (List Package)
parse_packages spec = elim (packages_of (split_text 59 spec)) [ [] ↦ none | p ∷ ps ↦ some (p ∷ ps) ]

abbrev only_last_break : Text → Bool
only_last_break [] = true
only_last_break (c ∷ []) = true
only_last_break (c ∷ d ∷ s) = not (c == 10) && only_last_break (d ∷ s)

-- `-v(?P<ver>\d.*)$` at the start of a text
abbrev version_follows : Characters → Text → Bool
version_follows chars (a ∷ b ∷ d ∷ s) =
    a == 45 && b == 118 && chars.is_decimal d && only_last_break s
version_follows chars _ = false

-- the loop of `^(?P<name>.+?)-v(?P<ver>\d.*)$`, given the name so far: the shortest name
unfoldable pub tag_name_after : Characters → (name : Text) → Text → Option Text
tag_name_after chars name [] = none
tag_name_after chars [] (c ∷ s) =
    let rest = tag_name_after chars (c ∷ []) s in if c == 10 then none else rest
tag_name_after chars (n ∷ name) (c ∷ s) =
    let rest = tag_name_after chars ((n ∷ name) ++ (c ∷ [])) s in
    if version_follows chars (c ∷ s) then some (n ∷ name) else if c == 10 then none else rest

-- the group `name` of the match
abbrev pub tag_name : Characters → Text → Option Text
tag_name chars tag = tag_name_after chars [] tag
