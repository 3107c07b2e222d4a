-- ===== src/Receipt/Backed.antt =====
-- What stands behind the receipt of an attestation.
use khipu_consensus.Prelude.{ℕ, ◌≤◌, ◌≡◌, sym, ap, ◌∙◌, true, Option, List, arith, map, length, All}
use khipu_consensus.Python.Value.{Value, Fields, nat}
use khipu_consensus.Python.Dict.{Dict}
use khipu_consensus.Python.Dict.Keys.{HasTextKeys}
use khipu_consensus.Python.Error.{ok, require, >>=-eq-ok, ok-injective}
use khipu_consensus.Python.Host.{Host}
use khipu_consensus.Verdict.{Moment}
use khipu_consensus.Tally.{ConsensusResult, canonical, valid_quorum_counts, tally}
use khipu_consensus.Tally.Backing.{IsBacker, canonical_is_backed}
use khipu_consensus.Registry.{WitnessRegistry, all, n, pubkeys}
use khipu_consensus.Registry.Keys.{IsTextKey, pubkeys-HasTextKeys}
use khipu_consensus.Verify.Decides.{nat_threshold}
use khipu_consensus.Receipt.{MultiWitnessReceipt, item_of, collect, attest}

-- What an attestation that returns went through.
pub record IsAttested (H : Host) (action_hash : Value) (reg : WitnessRegistry)
    (r : MultiWitnessReceipt) : Type 0 where
  pub result : ConsensusResult
  pub valid : valid_quorum_counts reg.threshold (nat (n reg)) ≡ true
  pub tallied :
      tally H action_hash (pubkeys reg) (map item_of r.signatures) reg.threshold (nat (n reg))
      ≡ ok result
  pub decides : r.decision ≡ result.decision
  pub counts : r.consensus_count ≡ result.consensus_count
  pub rows : r.checks ≡ result.checks

module _ (H : Host) (action_hash : Value) where
  pub attest-IsAttested :
      (reg : WitnessRegistry) (verdicts : Fields) (reason lean_sha : Value)
      (moments : Value → Moment) (r : MultiWitnessReceipt)
      → attest H action_hash reg verdicts reason lean_sha moments ≡ ok r
      → IsAttested H action_hash reg r
  unfolding attest
  attest-IsAttested reg verdicts reason lean_sha moments r h =
      let (u, valid, h1) =
        >>=-eq-ok (require (valid_quorum_counts reg.threshold (nat (n reg))) _) _ h in
      let (collected, signed, h2) =
        >>=-eq-ok (collect H action_hash verdicts reason lean_sha moments (all reg)) _ h1 in
      let (result, tallied, h3) =
        >>=-eq-ok
          (tally H action_hash (pubkeys reg) (map item_of collected) reg.threshold (nat (n reg))) _
          h2 in
      let e = ok-injective h3 in
      let same : collected ≡ r.signatures = ap (λ (x : MultiWitnessReceipt). x.signatures) e in
      let rerun : tally H action_hash (pubkeys reg) (map item_of r.signatures) reg.threshold
            (nat (n reg))
          ≡ ok result =
        ap
          (λ (c : List (Option Fields)).
            tally H action_hash (pubkeys reg) (map item_of c) reg.threshold (nat (n reg)))
          (sym same)
        ∙ tallied in
      record {
        result = result;
        valid = ground (arith, valid);
        tallied = rerun;
        decides = sym (ap (λ (x : MultiWitnessReceipt). x.decision) e);
        counts = sym (ap (λ (x : MultiWitnessReceipt). x.consensus_count) e);
        rows = sym (ap (λ (x : MultiWitnessReceipt). x.checks) e);
      }

  -- A receipt that an attestation calls canonical has at least the registry's threshold of
  -- distinct witnesses of the registry behind it, each with a genuine verdict about the action
  -- among the receipt's signatures. The names in the registry are texts.
  pub attest_is_backed :
      (reg : WitnessRegistry) (verdicts : Fields) (reason lean_sha : Value)
      (moments : Value → Moment) (r : MultiWitnessReceipt)
      → All IsTextKey (pubkeys reg)
      → attest H action_hash reg verdicts reason lean_sha moments ≡ ok r
      → r.decision ≡ canonical
      → (t : ℕ) × (reg.threshold ≡ nat t)
        × ((es : Dict Value) × HasTextKeys es
            × (t ≤ length es)
            × All (IsBacker H action_hash (pubkeys reg) (map item_of r.signatures)) es)
  attest_is_backed reg verdicts reason lean_sha moments r keys h c =
      let a = attest-IsAttested reg verdicts reason lean_sha moments r h in
      let (t, level) = nat_threshold reg.threshold (nat (n reg)) a.valid in
      (
        t,
        level,
        canonical_is_backed H action_hash (pubkeys reg) (map item_of r.signatures) t (nat (n reg))
            a.result (pubkeys-HasTextKeys reg keys) (rw (← level) a.valid) (rw (← level) a.tallied)
            (sym a.decides ∙ c),
      )
