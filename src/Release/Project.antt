-- ===== src/Release/Project.antt =====
-- .github/scripts/szl_pypi_release_gate.py: what pyproject.toml must declare.
use khipu_consensus.Prelude.{
  Bool, true, false, not, ◌&&◌, ◌||◌, Option, none, some, List, [], ◌∷◌, ◌++◌, bind, unless_fail,
  any, all, ◌==◌, if◌then◌else◌, Text, text,
}
use khipu_consensus.Prelude.Texts.{text_eq}
use khipu_consensus.Python.Value.{
  Value, Fields, str, arr, obj, end, items, find, get, get_or, eq, truthy,
}
use khipu_consensus.Release.Names.{Characters, Package, norm}

abbrev truthy_fields : Value → Option Fields
truthy_fields (obj f) = some f
truthy_fields _ = none

-- `(v or {})` of a value that is then read as a dict
abbrev or_empty : Value → Option Fields
or_empty v = if truthy v then truthy_fields v else some end

abbrev pub starts_with : Text → Text → Bool
starts_with [] s = true
starts_with (p ∷ ps) [] = false
starts_with (p ∷ ps) (c ∷ s) = p == c && starts_with ps s

-- `t in s` of texts
abbrev contains : Text → Text → Bool
contains t [] = starts_with t []
contains t (c ∷ s) = starts_with t (c ∷ s) || contains t s

abbrev has_name : Text → Fields → Bool
has_name k f = elim (find k f) [ none ↦ false | some v ↦ true ]

-- `t in v`; `none` is the `TypeError` of a value that holds nothing
abbrev text_in : Text → Value → Option Bool
text_in t (arr vs) = some (any (λ v. eq v (str t)) (items vs))
text_in t (obj f) = some (has_name t f)
text_in t (str s) = some (contains t s)
text_in t _ = none

abbrev private_classifier : Text
private_classifier = text "Private :: Do Not Upload"

abbrev text_of : Value → Option Text
text_of (str s) = some s
text_of _ = none

abbrev pub or_value : Value → Value → Value
or_value v w = if truthy v then v else w

-- `s.rstrip("/")`
abbrev pub trim_slash : Text → Text
trim_slash [] = []
trim_slash (c ∷ s) = elim (trim_slash s) [
  | [] ↦ if c == 47 then [] else c ∷ []
  | d ∷ rest ↦ c ∷ d ∷ rest
]

abbrev source_url : Fields → Value
source_url urls =
    or_value (get urls (text "Source"))
      (or_value (get urls (text "Repository")) (get urls (text "Source Code")))

abbrev is_source_url : Characters → (repo : Text) → Value → Bool
is_source_url chars repo (str url) =
    text_eq (chars.lower (trim_slash url)) (chars.lower (text "https://github.com/" ++ repo))
is_source_url chars repo _ = false

-- no private classifier, whatever holds the classifiers
abbrev is_public : Fields → Option Bool
is_public project =
    let classifiers = get project (text "classifiers") in
    if truthy classifiers
    then bind (text_in private_classifier classifiers) (λ found. some (not found))
    else some true

abbrev required : List Text
required = text "description" ∷ text "readme" ∷ text "requires-python" ∷ []

-- the checks on `[project]`
unfoldable pub check_project :
    Characters → (repo : Text) → Package → (pp project : Fields) → Option (Unit {0})
check_project chars repo pkg pp project =
    bind (text_of (get_or project (text "name") (str []))) λ name.
      bind (unless_fail (text_eq (norm chars name) (norm chars pkg.name))) λ named.
        bind (bind (is_public project) unless_fail) λ public.
          bind (or_empty (get pp (text "build-system"))) λ build_system.
            bind (unless_fail (truthy (get build_system (text "build-backend")))) λ backend.
              bind (unless_fail (all (λ key. truthy (get project key)) required)) λ described.
                bind
                  (unless_fail (
                    truthy (get project (text "license"))
                    || truthy (get project (text "license-files"))))
                  λ licensed.
                    bind (or_empty (get project (text "urls")))
                      λ urls. unless_fail (is_source_url chars repo (source_url urls))

-- `[tool.szl.release].import_names`
unfoldable pub import_names : (pp : Fields) → Option Value
import_names pp = bind (or_empty (get pp (text "tool"))) λ tool.
    bind (or_empty (get tool (text "szl"))) λ szl.
      bind (or_empty (get szl (text "release"))) λ release. some (get release (text "import_names"))

-- the first part of `gate_package`, on the table that the file holds: what it declares to import
unfoldable pub read_project : Characters → (repo : Text) → Package → (pp : Fields) → Option Value
read_project chars repo pkg pp = bind (or_empty (get pp (text "project"))) λ project.
    bind (import_names pp)
      λ declared. bind (check_project chars repo pkg pp project) λ checked. some declared
