-- ===== src/Adversary/Hardened.antt =====
-- `distinct_witness_tally` agrees with `tally`, its errors included.
use mathlib.Core.Path.{fun_ext}
use khipu_consensus.Prelude.{
  ◌≡◌, refl, ap, true, List, [], ◌∷◌, arith, inl, inr, Bool-cases, ℤ, pos,
}
use khipu_consensus.Prelude.Int.{leb_ℤ}
use khipu_consensus.Python.Value.{Value, int}
use khipu_consensus.Python.Dict.{Dict}
use khipu_consensus.Python.Error.{ok, ◌>>=◌}
use khipu_consensus.Python.Host.{Host}
use khipu_consensus.Verdict.{OrganVerdict, from_dict}
use khipu_consensus.Tally.{
  Item, abstain, verdict, row, other, Progress, outset, settle, admit, step, run, tally, decide,
  report, valid_quorum_counts,
}
use khipu_consensus.Tally.Outcome.{valid_threshold}
use khipu_consensus.Adversary.{
  add, at_least, decision_of, hardened_verdict, hardened_run, distinct_witness_tally,
}
use khipu_consensus.Adversary.Oracle.{at_least-int}

module _ (H : Host) (action_hash : Value) (pubkeys : Dict Value) where
  hardened_verdict-admit :
      (p : Progress) (v : OrganVerdict)
      → hardened_verdict H action_hash pubkeys p v ≡ admit H action_hash pubkeys p v
  unfolding hardened_verdict admit settle add
  hardened_verdict-admit p v = ground arith

  hardened_run-run :
      (is : List Item) (p : Progress)
      → hardened_run H action_hash pubkeys p is ≡ run H action_hash pubkeys p is
  unfolding hardened_run run step
  hardened_run-run [] p = refl
  hardened_run-run (abstain ∷ is) p = hardened_run-run is _
  hardened_run-run (verdict v ∷ is) p =
      rw hardened_verdict-admit
        (ap (λ f. admit H action_hash pubkeys p v >>= f) (fun_ext (hardened_run-run is)))
  hardened_run-run (other v ∷ is) p = refl
  hardened_run-run (row d ∷ is) p =
      rw hardened_verdict-admit (
        ap (λ f. admit H action_hash pubkeys p (from_dict d) >>= f) (fun_ext (hardened_run-run is)))

  -- the last lines of both, for a threshold that is an `int`
  conclude :
      (t : ℤ) (n : Value) (p : Progress)
      → (at_least p.count (int t) >>= λ reached.
          ok (report H action_hash pubkeys (int t) n p.count (decision_of reached) p.checks))
        ≡ ok (report H action_hash pubkeys (int t) n p.count (decide p.count (int t)) p.checks)
  conclude t n p = elim (Bool-cases (leb_ℤ t (pos p.count))) [
    | inl enough ↦ rw (at_least-int p.count t, enough)
    | inr short ↦ rw (at_least-int p.count t, short)
  ]

  at_int :
      (is : List Item) (t : ℤ) (n : Value)
      → valid_quorum_counts (int t) n ≡ true
      → distinct_witness_tally H action_hash pubkeys is (int t) n
        ≡ tally H action_hash pubkeys is (int t) n
  unfolding distinct_witness_tally tally
  at_int is t n q =
      rw (q, hardened_run-run is outset)
        (ap (λ f. run H action_hash pubkeys outset is >>= f) (fun_ext (conclude t n)))

  -- For valid quorum counts the hardened tally is `tally`: the same result, rows and errors.
  pub distinct_witness_tally-tally :
      (is : List Item) (threshold n : Value)
      → valid_quorum_counts threshold n ≡ true
      → distinct_witness_tally H action_hash pubkeys is threshold n
        ≡ tally H action_hash pubkeys is threshold n
  distinct_witness_tally-tally is threshold n q =
      let (t, e) = valid_threshold threshold n q in rw e (at_int is t n (rw e at q))
