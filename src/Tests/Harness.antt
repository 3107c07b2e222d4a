-- ===== src/Tests/Harness.antt =====
-- The theorems on the harness, the simulation and the spine, at concrete inputs.
use khipu_consensus.Prelude.{ℕ, ◌≡◌, refl, true, false, [], ◌∷◌, Bytes, text, All, arith}
use khipu_consensus.Prelude.Texts.{text_eq, decimal}
use khipu_consensus.Python.Value.{str, Fields, find, eq, nat}
use khipu_consensus.Python.Dict.{lookup, member}
use khipu_consensus.Python.Error.{ok, ok-injective}
use khipu_consensus.Python.Utf8.{utf8}
use khipu_consensus.Python.Base64.{b64encode, b64decode, decode_from, sextet, symbol}
use khipu_consensus.Python.Host.{encode}
use khipu_consensus.Verdict.{
  canonical_json, statement, pae, pae_bytes, sign_verdict, wire_row, from_dict, verify_verdict,
  verify_signed, check_statement, check_fields, caught,
}
use khipu_consensus.Tally.{
  ConsensusResult, canonical, tally, valid_quorum_counts, run, step, admit, settle, register,
  key_for,
}
use khipu_consensus.Tally.Rows.{HasHash}
use khipu_consensus.Adversary.{
  duplicate_stuffing, honest_allow_count, safety_holds, false_canonical, naive_perverdict_tally,
  distinct_witness_tally, naive_run, naive_verdict, hardened_run, hardened_verdict, is_false,
  honest_run, honest_verdict, at_least, add,
}
use khipu_consensus.Adversary.Oracle.{honest_allow_count-tally, safety_holds-tally}
use khipu_consensus.Adversary.Hardened.{distinct_witness_tally-tally}
use khipu_consensus.Adversary.Naive.{IsGood, naive_is_unsafe}
use khipu_consensus.Adversary.Attacks.{
  Rejects, forged_signature_verdict, equivocation_verdict, equivocation_never_counts,
}
use khipu_consensus.Adversary.Scenario.{Scenario, scenario}
use khipu_consensus.Tests.{toy, action, moment, row_s, row_of, two_keys, two_rows}
use khipu_consensus.Tests.Evaluation.{toy-IsKeyPair, said-ReadsBack, two_tallied, one_counts}

valid_two : valid_quorum_counts (nat 2) (nat 2) ≡ true
unfolding valid_quorum_counts
valid_two = refl

two_rows-HasHash : All HasHash two_rows
unfolding from_dict find text_eq
two_rows-HasHash = (refl, (refl, tt))

honest_allow_count-tally_example :
    honest_allow_count toy action two_keys two_rows ≡ ok two_tallied.0.consensus_count
honest_allow_count-tally_example =
    honest_allow_count-tally toy action two_keys two_rows (nat 2) (nat 2) two_tallied.0 valid_two
      two_tallied.1

safety_holds-tally_example :
    safety_holds toy action two_keys two_rows
      (nat 2)
      (nat 2)
      (text "tally")
      (tally toy action two_keys)
    ≡ ok (true, text "ok")
safety_holds-tally_example =
    safety_holds-tally toy action two_keys two_rows (nat 2) (nat 2) (text "tally") two_rows-HasHash

distinct_witness_tally-tally_example :
    distinct_witness_tally toy action two_keys two_rows (nat 2) (nat 2)
    ≡ tally toy action two_keys two_rows (nat 2) (nat 2)
distinct_witness_tally-tally_example =
    distinct_witness_tally-tally toy action two_keys two_rows (nat 2) (nat 2) valid_two

row_s-IsGood : IsGood toy action two_keys row_s
unfolding from_dict find text_eq lookup eq
row_s-IsGood = record {
  pem = str (text "K");
  named = refl;
  registered = refl;
  has_key = refl;
  counts = one_counts;
}

naive_is_unsafe_example :
    (r : ConsensusResult) × (naive_perverdict_tally toy action two_keys
        (duplicate_stuffing row_s 3)
        (nat 3)
        (nat 4)
      ≡ ok r)
    × (r.decision ≡ canonical)
    × (honest_allow_count toy action two_keys (duplicate_stuffing row_s 3) ≡ ok 1)
    × (safety_holds toy action two_keys
          (duplicate_stuffing row_s 3)
          (nat 3)
          (nat 4)
          (text "naive")
          (naive_perverdict_tally toy action two_keys)
        ≡ ok (false, false_canonical toy action two_keys (text "naive") r 1 (nat 3)))
naive_is_unsafe_example =
    naive_is_unsafe toy action two_keys row_s row_s-IsGood 3 (nat 4) (text "naive") (omega arith)

abbrev random : Bytes
random = 1 ∷ 2 ∷ 3 ∷ []

too_long : (a b : ℕ) → text_eq random (a ∷ b ∷ []) ≡ true → ⊥
unfolding text_eq
too_long a b h = ground arith

random-Rejects : Rejects toy (str (text "K")) random
random-Rejects = record {
  are_bytes = (omega arith, (omega arith, (omega arith, tt)));
  refuses = λ pem key message e l v. too_long _ _ (ok-injective v);
}

forged_s :
    forged_signature_verdict toy
      (str (text "s"))
      action
      (str (text "allow"))
      (str (text "t"))
      random
    ≡ ok (row_of (text "s") random)
unfolding forged_signature_verdict canonical_json statement wire_row utf8 find text_eq
forged_s = refl

-- the row of the first witness about another action
equivocated :
    (d : Fields) × (equivocation_verdict toy
        (str (text "s"))
        (str (text "y"))
        (str (text "K"))
        (str (text "allow"))
        (str (text "t"))
        moment
      ≡ ok d)
unfolding equivocation_verdict sign_verdict canonical_json statement pae pae_bytes wire_row encode
    utf8 find text_eq b64encode decimal
equivocated = (_, refl)

unlike : text_eq (text "y") (text "x") ≡ false
unfolding text_eq
unlike = refl

y_encodes : utf8 (115 ∷ 121 ∷ 97 ∷ []) ≡ ok (115 ∷ 121 ∷ 97 ∷ [])
unfolding utf8
y_encodes = refl

equivocation_never_counts_example :
    ((verify_verdict toy (from_dict equivocated.0) (str (text "K")) (str (text "x"))).valid ≡ true)
    × ((verify_verdict toy (from_dict equivocated.0) (str (text "K")) (str (text "x"))).counts
        ≡ false)
equivocation_never_counts_example =
    equivocation_never_counts toy (text "s") (text "x") (text "y") (text "allow") (str (text "K"))
      (str (text "K")) (str (text "t")) moment equivocated.0 refl unlike toy-IsKeyPair
      (said-ReadsBack 121 y_encodes (omega arith)) equivocated.1

staged :
    (s : Scenario) × (scenario toy action two_keys
        (text "two")
        (text "none")
        (text "")
        two_rows
        (nat 2)
        (nat 2)
      ≡ ok s)
unfolding tally run step admit settle register key_for valid_quorum_counts from_dict find text_eq
    verify_verdict caught verify_signed check_statement check_fields b64decode decode_from sextet
    symbol b64encode utf8 encode pae pae_bytes decimal eq lookup member scenario
    naive_perverdict_tally naive_run naive_verdict distinct_witness_tally hardened_run
    hardened_verdict safety_holds is_false honest_allow_count honest_run honest_verdict at_least add
staged = (_, refl)
