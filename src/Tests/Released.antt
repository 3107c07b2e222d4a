-- ===== src/Tests/Released.antt =====
-- A release of one of two packages.
use khipu_consensus.Prelude.{
  ◌&&◌, ◌≡◌, refl, true, some, List, [], ◌∷◌, leb, if◌then◌else◌, Text, text,
}
use khipu_consensus.Prelude.Texts.{text_eq, strip}
use khipu_consensus.Python.Value.{Fields, str, arr, obj, nil, cons, field, end, find, eq}
use khipu_consensus.Release.Names.{one_dash, partition, split_text, parse_packages, tag_name_after}
use khipu_consensus.Release.Project.{check_project, import_names, read_project}
use khipu_consensus.Release.Wheel.{Archive, only_wheel, top_level, check_wheel}
use khipu_consensus.Release.Gate.{
  Tools, Arguments, ReleaseReceipt, body, pypi_versions, bind_tag, gate_build, gate_package, select,
  gate_all, main,
}
use khipu_consensus.Release.Gate.Bound.{IsBound, release-IsBound}

abbrev entry : Text → Text → Fields → Fields
entry k s f = field k (str s) f

abbrev project : Fields
project = entry (text "name") (text "my_pkg") (
    entry (text "description") (text "d") (
      entry (text "readme") (text "r") (
        entry (text "requires-python") (text "3") (
          entry (text "license") (text "MIT") (
            field (text "urls") (obj (entry (text "Source") (text "https://github.com/o/r/") end))
              end)))))

abbrev pyproject : Fields
pyproject = field (text "project") (obj project) (
    field (text "build-system") (obj (entry (text "build-backend") (text "b") end)) (
      field (text "tool")
        (obj (
          field (text "szl")
            (obj (
              field (text "release")
                (obj (field (text "import_names") (arr (cons (str (text "my_pkg")) nil)) end)) end))
            end))
        end))

abbrev wheel : Archive
wheel = record {
  namelist = text "my_pkg/a.py" ∷ text "m.dist-info/METADATA" ∷ [];
  header =
      λ name. if text_eq name (text "Version") then some (text "1.0") else some (text "my-pkg");
  has_header = λ name. true;
}

abbrev tools : Tools
tools = record {
  characters = record { lower = λ s. s; is_decimal = λ c. leb 48 c && leb c 57 };
  load = λ dir. some pyproject;
  build = λ dir. some (
      record { name = text "m.tar.gz"; content = [] }
      ∷ record { name = text "m.whl"; content = [] }
      ∷ []);
  twine = λ files. true;
  open_wheel = λ f. some wheel;
  fetch = λ name. body (obj (field (text "releases") (obj (field (text "0.9") (arr nil) end)) end));
  installs = λ f name version. true;
  imports = λ m. true;
  sha256 = λ bs. [];
}

abbrev tagged : Arguments
tagged = record {
  packages = text "my.pkg=.; other=o:test";
  repo = text "o/r";
  event = text "release";
  ref_type = text "tag";
  ref_name = text "my-pkg-v1.0";
}

released : (receipts : List ReleaseReceipt) × (main tools tagged ≡ some receipts)
unfolding main gate_all select gate_package gate_build bind_tag pypi_versions check_wheel top_level
    only_wheel read_project import_names check_project one_dash partition split_text parse_packages
    tag_name_after find eq text_eq strip
released = (_, refl)

release-IsBound_example : (r : ReleaseReceipt) × (released.0 ≡ r ∷ []) × IsBound tools tagged r
release-IsBound_example = release-IsBound tools tagged released.0 refl released.1
