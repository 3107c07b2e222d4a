-- ===== src/Tally/Outcome.antt =====
-- The result of `tally`: its count, its decision, its rows, and when it raises.
use mathlib.Core.List.{Perm, Memᴰ}
use mathlib.Core.Path.{fun_ext}
use khipu_consensus.Prelude.{
  ℕ, ◌≤◌, ◌≡◌, refl, sym, ap, ◌∙◌, ◌↔◌, Bool, true, false, ◌&&◌, List, [], ◌++◌, arith, inl, inr,
  Bool-cases, count, All, length, ℤ,
}
use khipu_consensus.Python.Value.{Value, null, bool, int, float, str, arr, obj, truthy, nat}
use khipu_consensus.Python.Dict.{Dict}
use khipu_consensus.Python.Dict.Keys.{HasTextKeys, count-le-length}
use khipu_consensus.Python.Error.{ok}
use khipu_consensus.Python.Host.{Host}
use khipu_consensus.Tally.{
  canonical, rejected, ConsensusResult, Item, Progress, outset, valid_quorum_counts, run, report,
  tally, decide,
}
use khipu_consensus.Tally.Count.{valid_count, vouched, run-valid_count}
use khipu_consensus.Tally.Order.{any-perm, any-append, any_again}

-- A valid threshold is an `int`, and so is `n`.
pub valid_threshold :
    (threshold n : Value) → valid_quorum_counts threshold n ≡ true → (t : ℤ) × (threshold ≡ int t)
unfolding valid_quorum_counts
valid_threshold (int t) n q = (t, refl)
valid_threshold null n q = cc
valid_threshold (bool b) n q = cc
valid_threshold (float m k) n q = cc
valid_threshold (str s) n q = cc
valid_threshold (arr xs) n q = cc
valid_threshold (obj f) n q = cc

module _ (H : Host) (action_hash : Value) (pubkeys : Dict Value) where
  pub tally-run :
      (is : List Item) (threshold n : Value) (r : ConsensusResult)
      → valid_quorum_counts threshold n ≡ true
      → tally H action_hash pubkeys is threshold n ≡ ok r
      → (p : Progress) × (run H action_hash pubkeys outset is ≡ ok p)
        × (r.consensus_count ≡ p.count)
        × (r.decision ≡ decide p.count threshold)
        × (r.checks ≡ p.checks)
  unfolding tally
  tally-run is threshold n r q h = ground arith

  -- For valid quorum counts and a registry of distinct text keys, where `tally` returns: the
  -- count is the number of registered witnesses for whom some item vouches, whatever the order
  -- and the repetitions, and the decision is canonical exactly if that number reaches the
  -- threshold.
  pub tally-valid_count :
      (is : List Item) (threshold : ℕ) (n : Value) (r : ConsensusResult)
      → HasTextKeys pubkeys
      → valid_quorum_counts (nat threshold) n ≡ true
      → tally H action_hash pubkeys is (nat threshold) n ≡ ok r
      → (r.consensus_count ≡ valid_count H action_hash pubkeys is)
        × ((r.decision ≡ canonical) ↔ (threshold ≤ valid_count H action_hash pubkeys is))
  tally-valid_count is threshold n r t q h =
      let (p, ran, counted, decided, _) = tally-run is (nat threshold) n r q h in
      let exact = run-valid_count H action_hash pubkeys t is p ran in
      (counted ∙ exact, (λ c. ground arith, λ le. ground arith))

  vouched-perm :
      (is js : List Item) (e : Value × Value)
      → Perm is js
      → vouched H action_hash is e ≡ vouched H action_hash js e
  vouched-perm is js (k, pem) h = ap (λ (b : Bool). truthy pem && b) (any-perm _ is js h)

  valid_count-perm :
      (is js : List Item)
      → Perm is js
      → valid_count H action_hash pubkeys is ≡ valid_count H action_hash pubkeys js
  valid_count-perm is js h =
      ap (λ (f : Value × Value → Bool). count f pubkeys) (fun_ext (λ e. vouched-perm is js e h))

  vouched-resubmit :
      (is js : List Item) (e : Value × Value)
      → All (λ j. Memᴰ j is) js
      → vouched H action_hash is e ≡ vouched H action_hash (is ++ js) e
  vouched-resubmit is js (k, pem) h =
      ap (λ (b : Bool). truthy pem && b) (sym (any-append _ is js ∙ any_again _ is js h))

  valid_count-resubmit :
      (is js : List Item)
      → All (λ j. Memᴰ j is) js
      → valid_count H action_hash pubkeys is ≡ valid_count H action_hash pubkeys (is ++ js)
  valid_count-resubmit is js h =
      ap (λ (f : Value × Value → Bool). count f pubkeys) (fun_ext (λ e. vouched-resubmit is js e h))

  pub tally_invalid :
      (is : List Item) (threshold n : Value)
      → valid_quorum_counts threshold n ≡ false
      → tally H action_hash pubkeys is threshold n
        ≡ ok (report H action_hash pubkeys threshold n 0 rejected [])
  unfolding tally
  tally_invalid is threshold n invalid = rw invalid

  tally_refused :
      (is : List Item) (threshold n : Value) (r : ConsensusResult)
      → valid_quorum_counts threshold n ≡ false
      → tally H action_hash pubkeys is threshold n ≡ ok r
      → r.consensus_count ≤ length pubkeys
  unfolding tally
  tally_refused is threshold n r invalid h = ground arith

  -- For valid quorum counts and a registry of distinct text keys, the order of arrival changes
  -- neither the count nor the decision of runs that return.
  pub tally_perm :
      (is js : List Item) (threshold : ℕ) (n : Value) (r s : ConsensusResult)
      → HasTextKeys pubkeys
      → Perm is js
      → valid_quorum_counts (nat threshold) n ≡ true
      → tally H action_hash pubkeys is (nat threshold) n ≡ ok r
      → tally H action_hash pubkeys js (nat threshold) n ≡ ok s
      → (r.consensus_count ≡ s.consensus_count) × (r.decision ≡ s.decision)
  tally_perm is js threshold n r s t perm q h k =
      let (p, ran, counted, decided, _) = tally-run is (nat threshold) n r q h in
      let (p', ran', counted', decided', _) = tally-run js (nat threshold) n s q k in
      let left = run-valid_count H action_hash pubkeys t is p ran in
      let right = run-valid_count H action_hash pubkeys t js p' ran' in
      let same = valid_count-perm is js perm in
      let alike : p.count ≡ p'.count = left ∙ same ∙ sym right in
      (cc, decided ∙ ap (λ (c : ℕ). decide c (nat threshold)) alike ∙ sym decided')

  -- For valid quorum counts and a registry of distinct text keys, submitting items again, any
  -- number of times, changes neither the count nor the decision of runs that return.
  pub tally_resubmit :
      (is js : List Item) (threshold : ℕ) (n : Value) (r s : ConsensusResult)
      → HasTextKeys pubkeys
      → All (λ j. Memᴰ j is) js
      → valid_quorum_counts (nat threshold) n ≡ true
      → tally H action_hash pubkeys is (nat threshold) n ≡ ok r
      → tally H action_hash pubkeys (is ++ js) (nat threshold) n ≡ ok s
      → (r.consensus_count ≡ s.consensus_count) × (r.decision ≡ s.decision)
  tally_resubmit is js threshold n r s t again q h k =
      let (p, ran, counted, decided, _) = tally-run is (nat threshold) n r q h in
      let (p', ran', counted', decided', _) = tally-run (is ++ js) (nat threshold) n s q k in
      let left = run-valid_count H action_hash pubkeys t is p ran in
      let right = run-valid_count H action_hash pubkeys t (is ++ js) p' ran' in
      let same = valid_count-resubmit is js again in
      let alike : p.count ≡ p'.count = left ∙ same ∙ sym right in
      (cc, decided ∙ ap (λ (c : ℕ). decide c (nat threshold)) alike ∙ sym decided')

  -- Where the registry has distinct text keys, the count of a run that returns is at most the
  -- number of registered witnesses.
  pub tally_bounded :
      (is : List Item) (threshold n : Value) (r : ConsensusResult)
      → HasTextKeys pubkeys
      → tally H action_hash pubkeys is threshold n ≡ ok r
      → r.consensus_count ≤ length pubkeys
  tally_bounded is threshold n r t h = elim (Bool-cases (valid_quorum_counts threshold n)) [
    | inl valid ↦
        let (p, ran, counted, decided, _) = tally-run is threshold n r valid h in
        let exact = run-valid_count H action_hash pubkeys t is p ran in
        let most = count-le-length (vouched H action_hash is) pubkeys in omega arith
    | inr invalid ↦ tally_refused is threshold n r invalid h
  ]
