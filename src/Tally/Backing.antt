-- ===== src/Tally/Backing.antt =====
-- What stands behind a canonical decision: distinct registered witnesses, each with a genuine
-- verdict among the items.
use mathlib.Core.List.{Memᴰ}
use khipu_consensus.Prelude.{
  ℕ, ◌≤◌, ◌≡◌, refl, Bool, true, false, none, some, List, [], ◌∷◌, arith, inl, inr, Bool-cases,
  Option-cases, count, any, All, All-map, length,
}
use khipu_consensus.Python.Value.{Value, eq, nat, eq-is_str→≡}
use khipu_consensus.Python.Dict.{Dict, lookup}
use khipu_consensus.Python.Dict.Keys.{HasTextKeys, IsEntryOf, entries-IsEntryOf}
use khipu_consensus.Python.Error.{ok}
use khipu_consensus.Python.Host.{Host}
use khipu_consensus.Verdict.{OrganVerdict, verify_verdict}
use khipu_consensus.Verdict.Genuine.{IsGenuine, IsGenuine-counts}
use khipu_consensus.Tally.{Item, ConsensusResult, canonical, valid_quorum_counts, tally}
use khipu_consensus.Tally.Count.{verdict_of, vouches, vouched}
use khipu_consensus.Tally.Outcome.{tally-valid_count}

-- the items that pass a test
keep {ℓ} : {A : Type ℓ} → (A → Bool) → List A → List A
keep f [] = []
keep f (x ∷ xs) = (let rest = keep f xs in elim (f x) [ true ↦ x ∷ rest | false ↦ rest ])

module _ {ℓ} {A : Type ℓ} (f : A → Bool) where
  length-keep : (xs : List A) → length (keep f xs) ≡ count f xs
  unfolding keep
  length-keep [] = refl
  length-keep (x ∷ xs) = ground (arith, length-keep xs)

  keep_cons :
      (P : A → Type 0) (x : A) (xs : List A)
      → P x
      → All (λ x. P x × (f x ≡ true)) (keep f xs)
      → (b : Bool) → f x ≡ b
      → All (λ x. P x × (f x ≡ true)) (elim b [ true ↦ x ∷ keep f xs | false ↦ keep f xs ])
  keep_cons P x xs p h true e = ((p, e), h)
  keep_cons P x xs p h false e = h

  All-keep : (P : A → Type 0) (xs : List A) → All P xs → All (λ x. P x × (f x ≡ true)) (keep f xs)
  unfolding keep
  All-keep P [] h = tt
  All-keep P (x ∷ xs) (p, h) = keep_cons P x xs p (All-keep P xs h) (f x) refl

lookup-keep :
    (f : Value × Value → Bool) (k : Value) (d : Dict Value)
    → lookup k d ≡ none
    → lookup k (keep f d) ≡ none
unfolding lookup keep
lookup-keep f k [] h = refl
lookup-keep f k ((j, v) ∷ d) h = ground (arith, lookup-keep f k d)

keep-HasTextKeys :
    (f : Value × Value → Bool) (d : Dict Value) → HasTextKeys d → HasTextKeys (keep f d)
unfolding keep
keep-HasTextKeys f [] h = tt
keep-HasTextKeys f ((k, v) ∷ d) (text, fresh, h) = elim (Bool-cases (f (k, v))) [
  | inl kept ↦ rw (kept, HasTextKeys) (text, lookup-keep f k d fresh, keep-HasTextKeys f d h)
  | inr dropped ↦ rw (dropped, HasTextKeys) (keep-HasTextKeys f d h)
]

any_witness {ℓ} :
    {A : Type ℓ} (p : A → Bool) (xs : List A) → any p xs ≡ true → (x : A) × Memᴰ x xs × (p x ≡ true)
any_witness p [] h = cc
any_witness p (x ∷ xs) h = elim (Bool-cases (p x)) [
  | inl here ↦ (x, Memᴰ.head refl, here)
  | inr there ↦ let (y, m, py) = any_witness p xs (ground arith) in (y, Memᴰ.tail m, py)
]

module _ (H : Host) (action_hash : Value) (pubkeys : Dict Value) (is : List Item) where
  -- A registered witness with a genuine verdict of its own about the action.
  pub record IsBacker (e : Value × Value) : Type 0 where
    pub registered : lookup e.0 pubkeys ≡ some e.1
    pub item : Item
    pub submitted : Memᴰ item is
    pub by : OrganVerdict
    pub brought : verdict_of item ≡ some by
    pub own : by.organ ≡ e.0
    pub genuine : IsGenuine H by e.1 action_hash

  vouches_cases :
      (e : Value × Value) (i : Item)
      → vouches H action_hash e i ≡ true
      → (v : OrganVerdict) × (verdict_of i ≡ some v)
        × (eq v.organ e.0 ≡ true)
        × ((verify_verdict H v e.1 action_hash).counts ≡ true)
  vouches_cases e i h = elim (Option-cases (verdict_of i)) [
    | inl none_of ↦ ground arith
    | inr (v, found) ↦ (v, found, ground arith, ground arith)
  ]

  vouched-IsBacker :
      (e : Value × Value) → IsEntryOf pubkeys e × (vouched H action_hash is e ≡ true) → IsBacker e
  vouched-IsBacker e (entry, h) =
      let (i, m, vouching) = any_witness (vouches H action_hash e) is (ground arith) in
      let (v, found, same, counts) = vouches_cases e i vouching in
      record {
        registered = entry.1;
        item = i;
        submitted = m;
        by = v;
        brought = found;
        own = eq-is_str→≡ v.organ e.0 entry.0 same;
        genuine = IsGenuine-counts H v e.1 action_hash counts;
      }

  -- A canonical decision has at least `threshold` distinct registered witnesses behind it, each
  -- with a genuine verdict among the items. The registry has distinct text keys, the quorum
  -- counts are valid, and `tally` returns.
  pub canonical_is_backed :
      (threshold : ℕ) (n : Value) (r : ConsensusResult)
      → HasTextKeys pubkeys
      → valid_quorum_counts (nat threshold) n ≡ true
      → tally H action_hash pubkeys is (nat threshold) n ≡ ok r
      → r.decision ≡ canonical
      → (es : Dict Value) × HasTextKeys es × (threshold ≤ length es) × All IsBacker es
  canonical_is_backed threshold n r t q h c =
      let f = vouched H action_hash is in
      let (_, decided) = tally-valid_count H action_hash pubkeys is threshold n r t q h in
      let enough = decided.0 c in
      let all_entries = All-keep f (IsEntryOf pubkeys) pubkeys (entries-IsEntryOf pubkeys t) in
      (
        keep f pubkeys,
        keep-HasTextKeys f pubkeys t,
        omega (arith, length-keep f pubkeys),
        All-map _ IsBacker (keep f pubkeys) vouched-IsBacker all_entries,
      )
