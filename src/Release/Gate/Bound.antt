-- ===== src/Release/Gate/Bound.antt =====
-- What a release of the release gate is bound to.
use mathlib.Core.Path.{subst}
use khipu_consensus.Prelude.{
  ◌≡◌, ◌⊎◌, refl, sym, true, false, Option, none, some, List, [], ◌∷◌, ◌++◌, inl, inr, bind,
  unless_fail, arith, Text, text,
}
use khipu_consensus.Prelude.Tests.{bind-eq-some, unless_fail_lem, Bool-cases}
use khipu_consensus.Prelude.Texts.{text_eq, text_eq→≡, text_eq_refl}
use khipu_consensus.Python.Value.{Value}
use khipu_consensus.Release.Names.{Characters, Package, norm, parse_packages, tag_name}
use khipu_consensus.Release.Project.{read_project}
use khipu_consensus.Release.Wheel.{File, text_among, only_wheel, check_wheel}
use khipu_consensus.Release.Gate.{
  Tools, Arguments, ReleaseReceipt, shown, is_release, tags_for, is_new, holds_version,
  pypi_versions, bind_tag, gate_build, imported, gate_package, select, selected, one_package, named,
  gate_all, main,
}

-- A tag that names a version, in one of two ways.
pub IsTagFor : Tools → (tag name : Text) → (version : Option Text) → Type 0
IsTagFor tools tag name version =
    (tag ≡ text "v" ++ shown version)
    ⊎ (tag ≡ norm tools.characters name ++ (text "-v" ++ shown version))

-- The package index answers, and does not hold the version.
pub IsNew : Tools → (name : Text) → (version : Option Text) → Type 0
IsNew tools name version =
    (existing : List Text) × (pypi_versions tools name ≡ some existing)
    × (holds_version version existing ≡ false)

-- What a receipt of a release says of its run.
pub IsBound : Tools → Arguments → ReleaseReceipt → Type 0
IsBound tools a r =
    (a.ref_type ≡ text "tag")
    × IsTagFor tools a.ref_name r.package_name r.version
    × IsNew tools r.package_name r.version

some_inj : {V : Type 0} {v w : V} → Path (Option V) (some v) (some w) → v ≡ w
some_inj e = cc

is_new-IsNew :
    (version : Option Text) (found : Option (List Text))
    → is_new version found ≡ true
    → (existing : List Text) × (found ≡ some existing) × (holds_version version existing ≡ false)
is_new-IsNew version none h = cc
is_new-IsNew version (some existing) h = (existing, refl, ground arith)

tag_among : (tag a b : Text) → text_among tag (a ∷ b ∷ []) ≡ true → (tag ≡ a) ⊎ (tag ≡ b)
tag_among tag a b h = elim (Bool-cases (text_eq a tag)) [
  | inl first ↦ inl (sym (text_eq→≡ a tag first))
  | inr other ↦ inr (sym (text_eq→≡ b tag (ground arith)))
]

bind_tag_lem :
    (tools : Tools) (a : Arguments) (pkg : Package) (version : Option Text) {done : Unit {0}}
    → is_release a ≡ true
    → bind_tag tools a pkg version ≡ some done
    → (a.ref_type ≡ text "tag")
      × IsTagFor tools a.ref_name pkg.name version
      × IsNew tools pkg.name version
unfolding IsTagFor IsNew bind_tag
bind_tag_lem tools a pkg version release h =
    let (t, is_tag, h1) =
      bind-eq-some (unless_fail (text_eq a.ref_type (text "tag"))) _
        (rw (bind_tag, release) at h) in
    let (u, bound, h2) =
      bind-eq-some
        (unless_fail (text_among a.ref_name (tags_for tools.characters pkg.name version))) _ h1 in
    (
      text_eq→≡ a.ref_type (text "tag") (unless_fail_lem _ is_tag),
      tag_among a.ref_name _ _ (unless_fail_lem _ bound),
      is_new-IsNew version (pypi_versions tools pkg.name) (unless_fail_lem _ h2),
    )

-- A predicate at what a call gives, if it does not fail.
Gives : {V : Type 0} → (P : V → Type 0) → Option V → Type 0
Gives P none = Unit
Gives P (some v) = P v

bind-Gives :
    {V W : Type 0} (P : W → Type 0) (m : Option V) (rest : V → Option W)
    → ((v : V) → m ≡ some v → Gives P (rest v))
    → Gives P (bind m rest)
unfolding Gives
bind-Gives P none rest h = tt
bind-Gives P (some v) rest h = h v refl

Gives-some : {V : Type 0} (P : V → Type 0) (m : Option V) {v : V} → Gives P m → m ≡ some v → P v
unfolding Gives
Gives-some P none h e = cc
Gives-some P (some w) h e = subst P (some_inj e) h

gate_build-IsBound :
    (tools : Tools) (a : Arguments) (pkg : Package) (declared : Value) (files : List File)
    → is_release a ≡ true
    → Gives (IsBound tools a) (gate_build tools a pkg declared files)
unfolding gate_build IsBound Gives
gate_build-IsBound tools a pkg declared files release =
    bind-Gives _ (only_wheel files) _ λ wheel e1.
      bind-Gives _ (unless_fail (tools.twine files)) _ λ strict e2.
        bind-Gives _ (tools.open_wheel wheel) _ λ archive e3.
          bind-Gives _ (check_wheel tools.characters pkg declared archive) _ λ checked e4.
            bind-Gives _ (bind_tag tools a pkg (archive.header (text "Version"))) _ λ bound e5.
              bind-Gives _
                (unless_fail (tools.installs wheel pkg.name (archive.header (text "Version")))) _
                λ installed e6.
                  bind-Gives _ (imported tools declared) _ λ works e7.
                    bind_tag_lem tools a pkg (archive.header (text "Version")) release e5

gate_package-IsBound :
    (tools : Tools) (a : Arguments) (pkg : Package)
    → is_release a ≡ true
    → Gives (IsBound tools a) (gate_package tools a pkg)
unfolding gate_package
gate_package-IsBound tools a pkg release = bind-Gives _ (tools.load pkg.dir) _ λ pp e1.
    bind-Gives _ (read_project tools.characters a.repo pkg pp) _ λ declared e2.
      bind-Gives _ (tools.build pkg.dir) _
        λ files e3. gate_build-IsBound tools a pkg declared files release

one_package_lem :
    (ps chosen : List Package) → one_package ps ≡ some chosen → (p : Package) × (chosen ≡ p ∷ [])
one_package_lem [] chosen h = cc
one_package_lem (p ∷ []) chosen h = (p, sym (some_inj h))
one_package_lem (p ∷ q ∷ ps) chosen h = cc

-- A release selects one package.
select-one :
    (chars : Characters) (ref_name : Text) (pkgs chosen : List Package)
    → select chars ref_name pkgs ≡ some chosen
    → (p : Package) × (chosen ≡ p ∷ [])
unfolding select
select-one chars ref_name (p ∷ []) chosen h = (p, sym (some_inj h))
select-one chars ref_name [] chosen h =
    let (name, there, rest) = bind-eq-some (tag_name chars ref_name) _ h in
    one_package_lem (named chars name []) chosen rest
select-one chars ref_name (p ∷ q ∷ ps) chosen h =
    let (name, there, rest) = bind-eq-some (tag_name chars ref_name) _ h in
    one_package_lem (named chars name (p ∷ q ∷ ps)) chosen rest

-- One receipt, bound to its run.
IsRelease : Tools → Arguments → List ReleaseReceipt → Type 0
IsRelease tools a receipts = (r : ReleaseReceipt) × (receipts ≡ r ∷ []) × IsBound tools a r

gate_all-IsRelease :
    (tools : Tools) (a : Arguments) (chosen : List Package) (p : Package)
    → chosen ≡ p ∷ []
    → is_release a ≡ true
    → Gives (IsRelease tools a) (gate_all tools a chosen)
unfolding gate_all IsRelease Gives
gate_all-IsRelease tools a chosen p one release =
    rw (one, gate_all)
      (bind-Gives (IsRelease tools a) (gate_package tools a p) _ λ r e. (
        r,
        refl,
        Gives-some (IsBound tools a) (gate_package tools a p)
            (gate_package-IsBound tools a p release) e,
      ))

main-IsRelease :
    (tools : Tools) (a : Arguments) → is_release a ≡ true → Gives (IsRelease tools a) (main tools a)
unfolding main
main-IsRelease tools a release = bind-Gives _ (parse_packages a.packages) _ λ pkgs e1.
    bind-Gives _ (selected tools a pkgs) _ λ chosen e2.
      let (p, one) = select-one tools.characters a.ref_name pkgs chosen (rw release at e2) in
      gate_all-IsRelease tools a chosen p one release

-- A run of the release gate for a release that ends with success writes one receipt. Its tag is
-- `v` and the version, or the package's normal name, `-v` and the version; the package index has
-- answered, and does not hold the version of the package.
pub release-IsBound :
    (tools : Tools) (a : Arguments) (receipts : List ReleaseReceipt)
    → a.event ≡ text "release"
    → main tools a ≡ some receipts
    → (r : ReleaseReceipt) × (receipts ≡ r ∷ []) × IsBound tools a r
unfolding IsRelease
release-IsBound tools a receipts event h =
    Gives-some (IsRelease tools a) (main tools a)
      (main-IsRelease tools a (rw event (text_eq_refl (text "release")))) h
