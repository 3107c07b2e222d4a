-- ===== src/Receipt/Unsigned.antt =====
-- What `attest` makes of witnesses that hold no key.
use khipu_consensus.Prelude.{
  ℕ, ◌≡◌, refl, ap, ◌∙◌, true, false, Option, none, List, [], ◌∷◌, arith, map, All,
}
use khipu_consensus.Python.Value.{Value, Fields, nat}
use khipu_consensus.Python.Dict.{Dict}
use khipu_consensus.Python.Error.{ok}
use khipu_consensus.Python.Host.{Host}
use khipu_consensus.Verdict.{Moment, version}
use khipu_consensus.Tally.{
  Progress, outset, log, abstained, rejected, decide, valid_quorum_counts, run, step, tally, report,
  ratio, ConsensusResult,
}
use khipu_consensus.Registry.{Witness, WitnessRegistry, can_sign, sign, all, n, pubkeys, public_all}
use khipu_consensus.Verify.Decides.{nat_threshold}
use khipu_consensus.Receipt.{
  MultiWitnessReceipt, receipt_schema, safety_status, item_of, collect, attest,
}

abbrev pub IsUnsigned : Witness → Type 0
IsUnsigned w = can_sign w ≡ false

abbrev silent : List Witness → List (Option Fields)
silent = map (λ (w : Witness). none)

-- a threshold above 0 is not reached by no verdict
short_of_one : (t m : ℕ) → valid_quorum_counts (nat t) (nat m) ≡ true → decide 0 (nat t) ≡ rejected
unfolding valid_quorum_counts
short_of_one t m q = ground arith

undecided :
    (threshold : Value) (m : ℕ)
    → valid_quorum_counts threshold (nat m) ≡ true
    → decide 0 threshold ≡ rejected
undecided threshold m q =
    let (t, level) = nat_threshold threshold (nat m) q in
    rw level (short_of_one t m (rw (← level) q))

module _ (H : Host) (action_hash : Value) where
  -- the receipt of a result in which no witness signed
  abbrev receipt_of : WitnessRegistry → ConsensusResult → MultiWitnessReceipt
  receipt_of reg result = record {
    schema = receipt_schema;
    action_hash = action_hash;
    threshold = reg.threshold;
    n = n reg;
    decision = result.decision;
    consensus_count = result.consensus_count;
    khipu_consensus = ratio H result;
    signatures = silent (all reg);
    checks = result.checks;
    witnesses = public_all H reg;
    provenance = safety_status;
    version = version;
  }

  collect_unsigned :
      (verdicts : Fields) (reason lean_sha : Value) (moments : Value → Moment) (ws : List Witness)
      → All IsUnsigned ws
      → collect H action_hash verdicts reason lean_sha moments ws ≡ ok (silent ws)
  unfolding collect sign
  collect_unsigned verdicts reason lean_sha moments [] h = refl
  collect_unsigned verdicts reason lean_sha moments (w ∷ ws) (u, h) =
      rw (u, collect_unsigned verdicts reason lean_sha moments ws h) refl

  run-silent :
      (pubkeys : Dict Value) (ws : List Witness) (p : Progress)
      → (q : Progress) × (run H action_hash pubkeys p (map item_of (silent ws)) ≡ ok q)
        × (q.count ≡ p.count)
  unfolding run step
  run-silent pubkeys [] p = (p, refl, refl)
  run-silent pubkeys (w ∷ ws) p = run-silent pubkeys ws (log p abstained)

  tally-silent :
      (pubkeys : Dict Value) (ws : List Witness) (threshold : Value) (m : ℕ)
      → valid_quorum_counts threshold (nat m) ≡ true
      → (r : ConsensusResult) × (tally H action_hash pubkeys
            (map item_of (silent ws))
            threshold
            (nat m)
          ≡ ok r)
        × (r.decision ≡ rejected)
        × (r.consensus_count ≡ 0)
  unfolding tally
  tally-silent pubkeys ws threshold m q =
      let (p, ran, no_count) = run-silent pubkeys ws outset in
      (
        report H action_hash pubkeys threshold (nat m) p.count (decide p.count threshold) p.checks,
        rw (q, ran) refl,
        ap (λ (c : ℕ). decide c threshold) no_count ∙ undecided threshold m q,
        no_count,
      )

  -- Where no witness holds a key and the quorum counts are valid, an attestation returns a
  -- receipt that says rejected with a count of 0 and no signature.
  pub attest_unsigned :
      (reg : WitnessRegistry) (verdicts : Fields) (reason lean_sha : Value)
      (moments : Value → Moment)
      → All IsUnsigned (all reg)
      → valid_quorum_counts reg.threshold (nat (n reg)) ≡ true
      → (r : MultiWitnessReceipt) × (attest H action_hash reg verdicts reason lean_sha moments
          ≡ ok r)
        × (r.decision ≡ rejected)
        × (r.consensus_count ≡ 0)
        × (r.signatures ≡ silent (all reg))
  unfolding attest
  attest_unsigned reg verdicts reason lean_sha moments h q =
      let (result, tallied, says, no_count) =
        tally-silent (pubkeys reg) (all reg) reg.threshold (n reg) q in
      let made = collect_unsigned verdicts reason lean_sha moments (all reg) h in
      (receipt_of reg result, rw (q, made, tallied) refl, says, no_count, refl)
