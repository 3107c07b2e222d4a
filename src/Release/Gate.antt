-- ===== src/Release/Gate.antt =====
-- .github/scripts/szl_pypi_release_gate.py: one package, and the run over those that are selected.
pub mod Bound
use khipu_consensus.Prelude.{
  ℕ, zero, suc, Bool, true, false, not, ◌&&◌, ◌||◌, Option, none, some, List, [], ◌∷◌, ◌++◌, bind,
  unless_fail, any, all, map, ◌==◌, if◌then◌else◌, Text, text, Bytes,
}
use khipu_consensus.Prelude.Texts.{text_eq}
use khipu_consensus.Python.Value.{
  Value, Fields, str, obj, end, field, nil, cons, arr, items, find, truthy,
}
use khipu_consensus.Release.Names.{Characters, Package, norm, parse_packages, tag_name}
use khipu_consensus.Release.Project.{read_project}
use khipu_consensus.Release.Wheel.{
  Archive, File, only_wheel, text_among, top_level, check_wheel, declared_items,
}

-- An answer of the package index.
pub data Page : Type 0 where
  -- the body, as `json.loads` reads it
  body : Value → Page
  http_error : ℕ → Page
  failed : Page

-- What the program calls: the file system, the package index, and the tools that it runs.
pub record Tools : Type 0 where
  pub characters : Characters
  -- `tomllib.load` of the `pyproject.toml` of a directory, if it is there and can be read
  pub load : (dir : Text) → Option Fields
  -- `python -m build`: the files that it makes, by name
  pub build : (dir : Text) → Option (List File)
  -- `twine check --strict`
  pub twine : List File → Bool
  pub open_wheel : File → Option Archive
  -- the page of a package, by its normal name
  pub fetch : Text → Page
  -- installing the wheel in a new environment, and comparing the version there
  pub installs : File → (name : Text) → (version : Option Text) → Bool
  -- importing a module there
  pub imports : Value → Bool
  pub sha256 : Bytes → Text

-- The arguments of the command line.
pub record Arguments : Type 0 where
  pub packages : Text
  pub repo : Text
  pub event : Text
  pub ref_type : Text
  pub ref_name : Text

pub record ReleaseReceipt : Type 0 where
  pub package_name : Text
  pub version : Option Text
  pub environment : Text
  pub event : Text
  pub ref_type : Text
  pub ref_name : Text
  pub repository : Text
  pub files : List (Text × Text)
  pub top_level : List Text

abbrev keys_of : Fields → List Text
keys_of end = []
keys_of (field k v f) = k ∷ keys_of f

abbrev releases_in : Value → Option (List Text)
releases_in (obj f) = elim (find (text "releases") f) [
  | some (obj releases) ↦ some (keys_of releases)
  | _ ↦ none
]
releases_in _ = none

-- `pypi_versions`, whose exceptions are `None`
unfoldable pub pypi_versions : Tools → (name : Text) → Option (List Text)
pypi_versions tools name = elim (tools.fetch (norm tools.characters name)) [
  | body v ↦ releases_in v
  | http_error code ↦ if code == 404 then some [] else none
  | failed ↦ none
]

-- `f"{version}"`
abbrev pub shown : Option Text → Text
shown none = text "None"
shown (some version) = version

abbrev pub is_release : Arguments → Bool
is_release a = text_eq a.event (text "release")

-- the two names that a tag may have
abbrev pub tags_for : Characters → (name : Text) → (version : Option Text) → List Text
tags_for chars name version =
    (text "v" ++ shown version) ∷ (norm chars name ++ (text "-v" ++ shown version)) ∷ []

abbrev pub holds_version : Option Text → List Text → Bool
holds_version none existing = false
holds_version (some version) existing = text_among version existing

-- whether the list of the releases allows this one
abbrev pub is_new : (version : Option Text) → Option (List Text) → Bool
is_new version none = false
is_new version (some existing) = not (holds_version version existing)

-- the tag binding and the check of the package index
unfoldable pub bind_tag : Tools → Arguments → Package → (version : Option Text) → Option (Unit {0})
bind_tag tools a pkg version =
    if is_release a
    then bind (unless_fail (text_eq a.ref_type (text "tag"))) (λ is_tag.
      bind (unless_fail (text_among a.ref_name (tags_for tools.characters pkg.name version)))
        (λ bound. unless_fail (is_new version (pypi_versions tools pkg.name))))
    else some tt

-- `for mod in declared or []`
abbrev pub imported : Tools → (declared : Value) → Option (Unit {0})
imported tools declared =
    if truthy declared
    then bind (declared_items declared) (λ modules. unless_fail (all tools.imports modules))
    else some tt

abbrev receipt_of : Tools → Arguments → Package → List File → Archive → ReleaseReceipt
receipt_of tools a pkg files archive = record {
  package_name = pkg.name;
  version = archive.header (text "Version");
  environment = pkg.environment;
  event = a.event;
  ref_type = a.ref_type;
  ref_name = a.ref_name;
  repository = a.repo;
  files = map (λ f. (f.name, tools.sha256 f.content)) files;
  top_level = top_level archive.namelist;
}

-- the part of `gate_package` that follows the build
unfoldable pub gate_build :
    Tools → Arguments → Package → (declared : Value) → List File → Option ReleaseReceipt
gate_build tools a pkg declared files = bind (only_wheel files) λ wheel.
    bind (unless_fail (tools.twine files)) λ strict. bind (tools.open_wheel wheel) λ archive.
      bind (check_wheel tools.characters pkg declared archive) λ checked.
        bind (bind_tag tools a pkg (archive.header (text "Version"))) λ bound.
          bind (unless_fail (tools.installs wheel pkg.name (archive.header (text "Version"))))
            λ installed.
              bind (imported tools declared) λ works. some (receipt_of tools a pkg files archive)

unfoldable pub gate_package : Tools → Arguments → Package → Option ReleaseReceipt
gate_package tools a pkg = bind (tools.load pkg.dir) λ pp.
    bind (read_project tools.characters a.repo pkg pp)
      λ declared. bind (tools.build pkg.dir) λ files. gate_build tools a pkg declared files

abbrev pub named : Characters → Text → List Package → List Package
named chars name [] = []
named chars name (p ∷ ps) =
    if text_eq (norm chars p.name) (norm chars name)
    then p ∷ named chars name ps
    else named chars name ps

abbrev pub one_package : List Package → Option (List Package)
one_package (p ∷ []) = some (p ∷ [])
one_package _ = none

-- the packages that a release selects
unfoldable pub select : Characters → (ref_name : Text) → List Package → Option (List Package)
select chars ref_name (p ∷ []) = some (p ∷ [])
select chars ref_name pkgs =
    bind (tag_name chars ref_name) λ name. one_package (named chars name pkgs)

abbrev pub selected : Tools → Arguments → List Package → Option (List Package)
selected tools a pkgs = if is_release a then select tools.characters a.ref_name pkgs else some pkgs

-- the loop of `main`
unfoldable pub gate_all : Tools → Arguments → List Package → Option (List ReleaseReceipt)
gate_all tools a [] = some []
gate_all tools a (pkg ∷ pkgs) =
    bind (gate_package tools a pkg)
      λ receipt. bind (gate_all tools a pkgs) λ receipts. some (receipt ∷ receipts)

-- `main`: the receipts that it writes, if it ends with success
unfoldable pub main : Tools → Arguments → Option (List ReleaseReceipt)
main tools a =
    bind (parse_packages a.packages)
      λ pkgs. bind (selected tools a pkgs) λ chosen. gate_all tools a chosen
