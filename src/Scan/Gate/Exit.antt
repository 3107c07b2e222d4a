-- ===== src/Scan/Gate/Exit.antt =====
-- The exit code of the forbidden-domain gate.
use khipu_consensus.Prelude.{
  ℕ, ◌≡◌, ◌↔◌, refl, sym, Bool, true, false, Option, none, some, List, [], ◌∷◌, inl, inr, All,
  All-map, ℤ, pos, negsuc, zero, suc, Bytes,
}
use khipu_consensus.Prelude.Tests.{some_inj, none-ne-some, Bool-cases, Option-cases}
use khipu_consensus.Prelude.Texts.{text_eq, text_eq→≡}
use khipu_consensus.Scan.Source.{Source, source_of}
use khipu_consensus.Scan.Judge.{judge}
use khipu_consensus.Scan.Judge.Stands.{Stands}
use khipu_consensus.Scan.Judge.Stands.Lined.{judge-Stands}
use khipu_consensus.Scan.Family.{family_for}
use khipu_consensus.Scan.Index.{Checkout, tracked_sources}
use khipu_consensus.Scan.Ripgrep.{Ripgrep, Match, batches, version_clean}
use khipu_consensus.Scan.Ripgrep.Reports.{AreReports}
use khipu_consensus.Scan.Ripgrep.Reports.Collected.{collect_all-AreReports, AreReports-collect_all}
use khipu_consensus.Scan.Gate.{
  Current, collect_matches, load_source, current_source, filter_from, filter_violations, scan_root,
  main, keep_unless,
}

-- The file of a match can be read again, and the line stands there, with each prohibited host on
-- it covered.
pub IsCovered : Checkout → Match → Type 0
IsCovered checkout m =
    (bytes : Bytes) × (checkout.read m.path ≡ some bytes)
    × Stands (source_of bytes (family_for m.path)) m.number m.line

-- The same by the functions of the program.
IsJudged : Checkout → Match → Type 0
IsJudged checkout m =
    (source : Source) × (load_source checkout m.path ≡ some source)
    × (judge source m.number m.line ≡ some true)

IsJudged-IsCovered : (checkout : Checkout) (m : Match) → IsJudged checkout m → IsCovered checkout m
unfolding IsJudged IsCovered load_source
IsJudged-IsCovered checkout m (source, loaded, judged) =
    elim (Option-cases (checkout.read m.path)) [
      | inl unread ↦ none-ne-some (rw (load_source, unread) at loaded)
      | inr (bytes, there) ↦
          let same = some_inj (rw (load_source, there) at loaded) in
          (
            bytes,
            there,
            (judge-Stands (source_of bytes (family_for m.path)) m.number m.line).0 (rw same judged),
          )
    ]

IsCovered-IsJudged : (checkout : Checkout) (m : Match) → IsCovered checkout m → IsJudged checkout m
unfolding IsJudged IsCovered load_source
IsCovered-IsJudged checkout m (bytes, there, stands) = (
  source_of bytes (family_for m.path),
  rw (load_source, there) refl,
  (judge-Stands (source_of bytes (family_for m.path)) m.number m.line).1 stands,
)

-- The file read last is the one of its path.
IsCurrent : Checkout → Current → Type 0
IsCurrent checkout none = Unit
IsCurrent checkout (some (path, source)) = load_source checkout path ≡ some source

-- Keeping the file read last changes nothing.
current_source-load_source :
    (checkout : Checkout) (current : Current) (path : Bytes)
    → IsCurrent checkout current
    → current_source checkout current path ≡ load_source checkout path
unfolding current_source IsCurrent
current_source-load_source checkout none path h = refl
current_source-load_source checkout (some (last, source)) path h =
    elim (Bool-cases (text_eq path last)) [
      | inr other ↦ rw other refl
      | inl same ↦ rw (same, text_eq→≡ path last same) (sym h)
    ]

-- Nothing is kept only if the match is covered and nothing else is kept.
kept_nothing :
    (m : Match) (covered : Bool) (rest : Option (List Match))
    → Path
        (Option (List Match))
        (elim rest [ none ↦ none | some violations ↦ some (keep_unless covered m violations) ])
        (some [])
    → (covered ≡ true) × (rest ≡ some [])
kept_nothing m covered none e = none-ne-some e
kept_nothing m true (some violations) e = (refl, e)
kept_nothing m false (some violations) e = cc

filter_from-All :
    (checkout : Checkout) (current : Current) (matches : List Match)
    → IsCurrent checkout current
    → filter_from checkout current matches ≡ some []
    → All (IsJudged checkout) matches
unfolding filter_from IsCurrent IsJudged
filter_from-All checkout current [] h e = tt
filter_from-All checkout current (m ∷ matches) h e =
    let same = current_source-load_source checkout current m.path h in
    elim (Option-cases (load_source checkout m.path)) [
      | inl unread ↦ none-ne-some (rw (filter_from, same, unread) at e)
      | inr (source, loaded) ↦ elim (Option-cases (judge source m.number m.line)) [
        | inl failed ↦ none-ne-some (rw (filter_from, same, loaded, failed) at e)
        | inr (covered, judged) ↦
            let (clean, rest) =
              kept_nothing m covered (filter_from checkout (some (m.path, source)) matches)
                (rw (filter_from, same, loaded, judged) at e) in
            (
              (source, loaded, rw (← clean) judged),
              filter_from-All checkout (some (m.path, source)) matches loaded rest,
            )
      ]
    ]

All-filter_from :
    (checkout : Checkout) (current : Current) (matches : List Match)
    → IsCurrent checkout current
    → All (IsJudged checkout) matches
    → filter_from checkout current matches ≡ some []
unfolding filter_from IsCurrent IsJudged
All-filter_from checkout current [] h all = refl
All-filter_from checkout current (m ∷ matches) h ((source, loaded, judged), all) =
    rw
      (
        filter_from,
        current_source-load_source checkout current m.path h,
        loaded,
        judged,
        All-filter_from checkout (some (m.path, source)) matches loaded all,
      )
      refl

two-ne-zero : {A : Type 0} → Path ℕ 2 0 → A
two-ne-zero e = cc

clean_exit :
    (outcome : Option (List Match))
    → Path ℕ (elim outcome [ none ↦ 2 | some [] ↦ 0 | some (m ∷ violations) ↦ 1 ]) 0
    → outcome ≡ some []
clean_exit none e = two-ne-zero e
clean_exit (some []) e = refl
clean_exit (some (m ∷ violations)) e = cc

exit_0-All :
    (checkout : Checkout) (tool : Ripgrep)
    → main checkout tool ≡ 0
    → (matches : List Match) × (collect_matches checkout tool ≡ some matches)
      × All (IsJudged checkout) matches
unfolding main scan_root filter_violations IsCurrent
exit_0-All checkout tool e = elim (Option-cases (collect_matches checkout tool)) [
  | inl failed ↦ two-ne-zero (rw (main, scan_root, failed) at e)
  | inr (matches, found) ↦ (
    matches,
    found,
    filter_from-All checkout none matches tt
        (clean_exit (filter_from checkout none matches) (rw (main, scan_root, found) at e)),
  )
]

All-exit_0 :
    (checkout : Checkout) (tool : Ripgrep) (matches : List Match)
    → collect_matches checkout tool ≡ some matches
    → All (IsJudged checkout) matches
    → main checkout tool ≡ 0
unfolding main scan_root filter_violations IsCurrent
All-exit_0 checkout tool matches found all =
    rw (main, scan_root, found, All-filter_from checkout none matches tt all) refl

-- What the gate looks at: the paths of the index, and the matches that ripgrep reports of them.
pub IsScan : Checkout → Ripgrep → List Match → Type 0
IsScan checkout tool matches =
    (paths : List Bytes) × (tracked_sources checkout ≡ some paths)
    × (tool.version ≡ some (pos 0))
    × AreReports tool (batches paths) matches

version_clean-zero : (v : Option ℤ) → version_clean v ≡ true → v ≡ some (pos 0)
version_clean-zero none h = cc
version_clean-zero (some (pos zero)) h = refl
version_clean-zero (some (pos (suc n))) h = cc
version_clean-zero (some (negsuc n)) h = cc

version_clean-some : (v : Option ℤ) → v ≡ some (pos 0) → version_clean v ≡ true
version_clean-some v works = rw works refl

collect_matches-IsScan :
    (checkout : Checkout) (tool : Ripgrep) (matches : List Match)
    → collect_matches checkout tool ≡ some matches
    → IsScan checkout tool matches
unfolding collect_matches IsScan
collect_matches-IsScan checkout tool matches h = elim (Option-cases (tracked_sources checkout)) [
  | inl failed ↦ none-ne-some (rw (collect_matches, failed) at h)
  | inr (paths, there) ↦ elim (Bool-cases (version_clean tool.version)) [
    | inr broken ↦ none-ne-some (rw (collect_matches, there, broken) at h)
    | inl works ↦ (
      paths,
      there,
      version_clean-zero tool.version works,
      collect_all-AreReports tool (batches paths) matches (rw (collect_matches, there, works) at h),
    )
  ]
]

IsScan-collect_matches :
    (checkout : Checkout) (tool : Ripgrep) (matches : List Match)
    → IsScan checkout tool matches
    → collect_matches checkout tool ≡ some matches
unfolding collect_matches IsScan
IsScan-collect_matches checkout tool matches (paths, there, works, reports) =
    rw (collect_matches, there, version_clean-some tool.version works)
      (AreReports-collect_all tool (batches paths) matches reports)

-- The forbidden-domain gate exits with 0 exactly if the index can be listed, `rg --version` exits
-- with 0, and there are matches such that: ripgrep's reports of the batches of the paths hold
-- them in order, each report being a run that exits with 0 and has matches, or with 1 and has
-- none, whose records are frames, matches of one numbered line of a file that was asked for, and
-- last one summary with the number of the matches; and each match's file can be read again, its
-- line starts there at the place of its number and ends at the next line break or the end of the
-- file, a prohibited host is on it, and every prohibited host on it stands within one segment of
-- the file and is covered there, as the segment's kind asks.
pub gate_exits_0 :
    (checkout : Checkout) (tool : Ripgrep)
    → (main checkout tool ≡ 0)
      ↔ ((matches : List Match) × IsScan checkout tool matches × All (IsCovered checkout) matches)
gate_exits_0 checkout tool = (
  λ e.
      let (matches, found, all) = exit_0-All checkout tool e in
      (
        matches,
        collect_matches-IsScan checkout tool matches found,
        All-map (IsJudged checkout) (IsCovered checkout) matches (IsJudged-IsCovered checkout) all,
      ),
  λ (matches, scan, all).
      All-exit_0 checkout tool matches (IsScan-collect_matches checkout tool matches scan) (
        All-map (IsCovered checkout) (IsJudged checkout) matches (IsCovered-IsJudged checkout) all),
)
