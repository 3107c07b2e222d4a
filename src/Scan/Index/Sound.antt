-- ===== src/Scan/Index/Sound.antt =====
-- The tracked files that the forbidden-domain gate scans.
use khipu_consensus.Prelude.{
  ℕ, ◌≡◌, ◌⊎◌, ◌==◌, refl, sym, true, false, not, ◌||◌, Option, none, some, List, [], ◌∷◌, ◌++◌,
  inl, inr, any, All, arith, append_assoc, Bytes, text, ℤ, pos, negsuc, zero, suc,
}
use khipu_consensus.Prelude.Tests.{Bool-cases, Option-cases}
use khipu_consensus.Prelude.Texts.{text_eq, text_eq-sym}
use khipu_consensus.Scan.Family.{among}
use khipu_consensus.Scan.Index.{
  Checkout, FileType, is_regular, not_followed, mode_and_stage, cut_at, words_after, regular,
  directory, other, split_on, parts_hold, unsafe_parts, scannable, entry_paths, index_record,
  index_paths, listed, staged, empty, framed, init, tracked_sources,
}

-- A path without a part that leaves the root or enters Git's own files, and a regular file.
pub IsSource : Checkout → Bytes → Type 0
IsSource checkout path =
    (any (λ part. among part unsafe_parts) (split_on 47 path) ≡ false)
    × (checkout.lstat (split_on 47 path) ≡ some regular)

-- No path twice.
pub Distinct : List Bytes → Type 0
Distinct [] = Unit
Distinct (p ∷ ps) = (among p ps ≡ false) × Distinct ps

-- Paths that are not among those seen.
Fresh : (seen paths : List Bytes) → Type 0
Fresh seen [] = Unit
Fresh seen (p ∷ ps) = (among p seen ≡ false) × Fresh seen ps

is_regular_lem : (o : Option FileType) → is_regular o ≡ true → o ≡ some regular
is_regular_lem (some regular) h = refl
is_regular_lem (some directory) h = cc
is_regular_lem (some other) h = cc
is_regular_lem none h = cc

parts_hold-regular :
    (checkout : Checkout) (front : List Bytes) (part : Bytes) (parts : List Bytes)
    → parts_hold checkout front (part ∷ parts) ≡ true
    → checkout.lstat (front ++ (part ∷ parts)) ≡ some regular
unfolding parts_hold
parts_hold-regular checkout front part [] h =
    is_regular_lem (checkout.lstat (front ++ (part ∷ []))) h
parts_hold-regular checkout front part (next ∷ parts) h =
    rw (← append_assoc front (part ∷ []) (next ∷ parts))
      (parts_hold-regular checkout (front ++ (part ∷ [])) next parts (ground arith))

split_on-cons :
    (sep : ℕ) (bs : Bytes) → (p : Bytes) × (ps : List Bytes) × (split_on sep bs ≡ p ∷ ps)
unfolding split_on
split_on-cons sep [] = ([], [], refl)
split_on-cons sep (b ∷ bs) = elim (Bool-cases (b == sep)) [
  | inl cut ↦ ([], split_on sep bs, rw cut refl)
  | inr inside ↦ let (p, ps, parts) = split_on-cons sep bs in (b ∷ p, ps, rw (inside, parts) refl)
]

scannable-IsSource :
    (checkout : Checkout) (mode path : Bytes)
    → scannable checkout mode path ≡ true
    → IsSource checkout path
unfolding scannable IsSource
scannable-IsSource checkout mode path h =
    let (p, ps, parts) = split_on-cons 47 path in
    let held : parts_hold checkout [] (split_on 47 path) ≡ true = ground arith in
    (ground arith, rw parts (parts_hold-regular checkout [] p ps (rw parts at held)))

-- What a record adds: nothing, or its path, which is a source that no earlier record names.
Adds : Checkout → (seen : List Bytes) → Bytes × List Bytes → Type 0
Adds checkout seen (path, added) =
    (among path seen ≡ false) × ((added ≡ []) ⊎ ((added ≡ path ∷ []) × IsSource checkout path))

some_inj : {A : Type 0} {a b : A} → Path (Option A) (some a) (some b) → a ≡ b
some_inj e = cc

none-ne-some : {A B : Type 0} {a : A} → Path (Option A) none (some a) → B
none-ne-some e = cc

entry_paths_lem :
    (checkout : Checkout) (mode path : Bytes) (added : List Bytes)
    → entry_paths checkout mode path ≡ some added
    → (added ≡ []) ⊎ ((added ≡ path ∷ []) × IsSource checkout path)
entry_paths_lem checkout mode path added h = elim (Bool-cases (not_followed mode)) [
  | inl link ↦ inl (sym (some_inj (rw link at h)))
  | inr file ↦ elim (Bool-cases (scannable checkout mode path)) [
    | inl good ↦
        inr (sym (some_inj (rw (file, good) at h)), scannable-IsSource checkout mode path good)
    | inr bad ↦ none-ne-some (rw (file, bad) at h)
  ]
]

staged-Adds :
    (checkout : Checkout) (seen : List Bytes) (metadata path : Bytes) (entry : Bytes × List Bytes)
    → staged checkout seen (metadata, path) ≡ some entry
    → Adds checkout seen entry
unfolding Adds
staged-Adds checkout seen metadata path entry h =
    elim (Option-cases (mode_and_stage (words_after [] metadata))) [
      | inl short ↦ none-ne-some (rw (staged, short) at h)
      | inr (fields, there) ↦
          elim (Bool-cases (not (text_eq (fields.1) (text "0")) || empty path || among path seen)) [
            | inl unsound ↦ none-ne-some (rw (staged, there, unsound) at h)
            | inr sound ↦ elim (Option-cases (entry_paths checkout (fields.0) path)) [
              | inl failed ↦ none-ne-some (rw (staged, there, sound, failed) at h)
              | inr (added, gives) ↦
                  rw (← some_inj (rw (staged, there, sound, gives) at h))
                    (ground arith, entry_paths_lem checkout (fields.0) path added gives)
            ]
          ]
    ]

index_record-Adds :
    (checkout : Checkout) (seen : List Bytes) (bs : Bytes) (entry : Bytes × List Bytes)
    → index_record checkout seen bs ≡ some entry
    → Adds checkout seen entry
unfolding Adds
index_record-Adds checkout seen bs entry h = elim (Option-cases (cut_at 9 bs)) [
  | inl uncut ↦ none-ne-some (rw (index_record, uncut) at h)
  | inr (cut, there) ↦
      staged-Adds checkout seen (cut.0) (cut.1) entry (rw (index_record, there) at h)
]

AreSources : (checkout : Checkout) (seen paths : List Bytes) → Type 0
AreSources checkout seen paths = Distinct paths × Fresh seen paths × All (IsSource checkout) paths

Fresh-later :
    (path : Bytes) (seen paths : List Bytes)
    → Fresh (path ∷ seen) paths
    → Fresh seen paths × (among path paths ≡ false)
unfolding Fresh
Fresh-later path seen [] h = (tt, refl)
Fresh-later path seen (p ∷ ps) (first, others) =
    let (fresh, apart) = Fresh-later path seen ps others in
    let turned = text_eq-sym p path in ((ground arith, fresh), ground arith)

Adds-AreSources :
    (checkout : Checkout) (seen : List Bytes) (path : Bytes) (added others : List Bytes)
    → Adds checkout seen (path, added)
    → AreSources checkout (path ∷ seen) others
    → AreSources checkout seen (added ++ others)
unfolding AreSources Adds Distinct Fresh
Adds-AreSources checkout seen path added others (unseen, adds) (distinct, fresh, sources) =
    let (still, apart) = Fresh-later path seen others fresh in
    elim adds [
      | inl skipped ↦ rw skipped (distinct, still, sources)
      | inr (kept, source) ↦ rw kept ((apart, distinct), (unseen, still), (source, sources))
    ]

index_paths-AreSources :
    (checkout : Checkout) (seen records paths : List Bytes)
    → index_paths checkout seen records ≡ some paths
    → AreSources checkout seen paths
unfolding index_paths AreSources Distinct Fresh
index_paths-AreSources checkout seen [] paths h = rw (← some_inj h) (tt, tt, tt)
index_paths-AreSources checkout seen (bs ∷ records) paths h =
    elim (Option-cases (index_record checkout seen bs)) [
      | inl failed ↦ none-ne-some (rw (index_paths, failed) at h)
      | inr (entry, gives) ↦ elim (Option-cases (index_paths checkout (entry.0 ∷ seen) records)) [
        | inl stopped ↦ none-ne-some (rw (index_paths, gives, stopped) at h)
        | inr (others, rest) ↦ rw (← some_inj (rw (index_paths, gives, rest) at h)) (
            Adds-AreSources checkout seen (entry.0) (entry.1) others
              (index_record-Adds checkout seen bs entry gives)
              (index_paths-AreSources checkout (entry.0 ∷ seen) records others rest))
      ]
    ]

listed_sound :
    (checkout : Checkout) (result : ℤ × Bytes) (paths : List Bytes)
    → listed checkout result ≡ some paths
    → Distinct paths × All (IsSource checkout) paths
unfolding AreSources
listed_sound checkout (negsuc n, output) paths h = none-ne-some h
listed_sound checkout (pos (suc n), output) paths h = none-ne-some h
listed_sound checkout (pos zero, output) paths h = elim (Bool-cases (framed output)) [
  | inr cut_short ↦ none-ne-some (rw cut_short at h)
  | inl whole ↦
      let (distinct, fresh, sources) =
        index_paths-AreSources checkout [] (init (split_on 0 output)) paths (rw whole at h) in
      (distinct, sources)
]

-- The paths that the gate takes from the Git index are distinct; each is of a regular file, and
-- has no part that is empty, `.`, `..` or `.git`.
pub tracked_sources_lem :
    (checkout : Checkout) (paths : List Bytes)
    → tracked_sources checkout ≡ some paths
    → Distinct paths × All (IsSource checkout) paths
unfolding tracked_sources
tracked_sources_lem checkout paths h = elim (Option-cases checkout.ls_files) [
  | inl failed ↦ none-ne-some (rw (tracked_sources, failed) at h)
  | inr (result, ran) ↦ listed_sound checkout result paths (rw (tracked_sources, ran) at h)
]
