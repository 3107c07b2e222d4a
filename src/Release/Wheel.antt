-- ===== src/Release/Wheel.antt =====
-- .github/scripts/szl_pypi_release_gate.py: the files that a build makes, and what is in its wheel.
use khipu_consensus.Prelude.{
  ℕ, zero, suc, Bool, true, false, not, ◌&&◌, ◌||◌, Option, none, some, List, [], ◌∷◌, bind,
  unless_fail, any, all, map, length, ltb, ◌==◌, if◌then◌else◌, Text, text, Bytes,
}
use khipu_consensus.Prelude.Texts.{text_eq}
use khipu_consensus.Python.Value.{
  Value, Fields, str, arr, obj, end, field, items, eq, truthy, hashable,
}
use khipu_consensus.Release.Names.{Characters, Package, norm, partition}

-- A wheel: the names in the archive, and the header fields of its metadata, if there are any.
pub record Archive : Type 0 where
  pub namelist : List Text
  -- `msg[name]`
  pub header : Text → Option Text
  -- `msg.get_all(name)` is not empty
  pub has_header : Text → Bool

-- A file of the build.
pub record File : Type 0 where
  pub name : Text
  pub content : Bytes

abbrev reversed : Text → (done : Text) → Text
reversed [] done = done
reversed (c ∷ s) done = reversed s (c ∷ done)

abbrev starts : Text → Text → Bool
starts [] s = true
starts (p ∷ ps) [] = false
starts (p ∷ ps) (c ∷ s) = p == c && starts ps s

-- `s.endswith(t)`
abbrev pub ends_with : Text → Text → Bool
ends_with t s = starts (reversed t []) (reversed s [])

abbrev keep : (File → Bool) → List File → List File
keep p [] = []
keep p (f ∷ fs) = if p f then f ∷ keep p fs else keep p fs

-- `f.suffix == ".whl"`: a name that is nothing but a suffix has none
abbrev is_wheel : File → Bool
is_wheel f = ends_with (text ".whl") f.name && ltb 4 (length f.name)

abbrev is_sdist : File → Bool
is_sdist f = ends_with (text ".tar.gz") f.name

abbrev one_of : List File → Option File
one_of (f ∷ []) = some f
one_of _ = none

-- the wheel, if there are one wheel and one sdist
unfoldable pub only_wheel : List File → Option File
only_wheel files =
    bind (one_of (keep is_wheel files))
      λ wheel. bind (one_of (keep is_sdist files)) λ sdist. some wheel

abbrev forbidden_top_level : List Text
forbidden_top_level =
    text "tests"
    ∷ text "test"
    ∷ text "docs"
    ∷ text "examples"
    ∷ text "example"
    ∷ text "scripts"
    ∷ text "benchmarks"
    ∷ text "build"
    ∷ text "dist"
    ∷ text "out"
    ∷ text "data"
    ∷ text "payload"
    ∷ text "fixtures"
    ∷ []

abbrev pub text_among : Text → List Text → Bool
text_among t = any (λ s. text_eq s t)

abbrev first_part : Text → Text
first_part name = (let (first, rest) = partition 47 name in first)

-- `meta["top_level"]` as a set, which the program sorts
unfoldable pub top_level : List Text → List Text
top_level [] = []
top_level (name ∷ names) =
    let rest = top_level names in
    let top = first_part name in
    if ends_with (text ".dist-info") top || text_among top rest then rest else top ∷ rest

abbrev chop : ℕ → Text → Text
chop zero s = s
chop (suc n) [] = []
chop (suc n) (c ∷ s) = chop n s

-- `t[:-3] if t.endswith(".py") else t`
abbrev module_name : Text → Text
module_name t = if ends_with (text ".py") t then reversed (chop 3 (reversed t [])) [] else t

abbrev names_in : Fields → List Value
names_in end = []
names_in (field k v f) = str k ∷ names_in f

-- the items of `declared`, which the program makes a set of
abbrev pub declared_items : Value → Option (List Value)
declared_items (arr vs) = if all hashable (items vs) then some (items vs) else none
declared_items (obj f) = some (names_in f)
declared_items (str s) = some (map (λ c. str (c ∷ [])) s)
declared_items _ = none

abbrev subset : List Value → List Value → Bool
subset vs ws = all (λ v. any (λ w. eq v w) ws) vs

-- `actual != set(declared)` is an error, if anything is declared
abbrev check_imports : (declared : Value) → (tops : List Text) → Option (Unit {0})
check_imports declared tops =
    let actual = map (λ t. str (module_name t)) tops in
    if truthy declared
    then bind (declared_items declared)
        (λ names. unless_fail (subset actual names && subset names actual))
    else some tt

-- the checks on the wheel
unfoldable pub check_wheel : Characters → Package → (declared : Value) → Archive → Option (Unit {0})
check_wheel chars pkg declared archive =
    bind (unless_fail (any (ends_with (text ".dist-info/METADATA")) archive.namelist)) λ has_meta.
      bind (archive.header (text "Name")) λ name.
        bind (unless_fail (text_eq (norm chars name) (norm chars pkg.name))) λ named.
          bind (unless_fail (any (ends_with (text ".py")) archive.namelist)) λ has_python.
            bind
              (unless_fail
                (not (any (λ t. text_among t forbidden_top_level) (top_level archive.namelist))))
              λ clean.
                bind (check_imports declared (top_level archive.namelist))
                  λ imports. unless_fail (archive.has_header (text "Project-URL"))
