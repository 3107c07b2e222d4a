-- ===== src/Tests/Attested.antt =====
-- The verification of a receipt that was attested, at concrete inputs.
use khipu_consensus.Prelude.{◌≡◌, refl, true, none, some, [], text, All}
use khipu_consensus.Prelude.Texts.{text_eq, decimal, is_blank}
use khipu_consensus.Python.Value.{null, str, end, find, eq}
use khipu_consensus.Python.Dict.{lookup, insert, member, agrees}
use khipu_consensus.Python.Error.{ok, ok-injective}
use khipu_consensus.Python.Utf8.{utf8, utf8-truthy}
use khipu_consensus.Python.Base64.{b64encode, b64decode, decode_from, sextet, symbol}
use khipu_consensus.Python.Host.{encode}
use khipu_consensus.Verdict.{
  canonical_json, statement, pae, pae_bytes, sign_verdict, wire_row, from_dict, verify_verdict,
  caught, verify_signed, check_statement, check_fields,
}
use khipu_consensus.Tally.{tally, run, step, admit, settle, register, key_for, valid_quorum_counts}
use khipu_consensus.Registry.{all, n, pubkeys, pubkeys_onto, can_sign, sign, public_all, public}
use khipu_consensus.Registry.Fleet.{IsFleet}
use khipu_consensus.Receipt.{MultiWitnessReceipt, attest, collect, to_dict}
use khipu_consensus.Receipt.Rows.{IsProductive}
use khipu_consensus.Policy.{
  embedded_pubkeys, embedded_from, check_required, check_optional, check_entry, check_entries,
  validate_signature_entries,
}
use khipu_consensus.Verify.{
  Verification, verify_receipt, verify_under, policy_matches, policy_object, canonical_sha256,
}
use khipu_consensus.Verify.Attested.{verify_receipt-attest, IsAskedText}
use khipu_consensus.Tests.{toy, signature_of, action, moments, two_witnesses, two_policy}
use khipu_consensus.Tests.Evaluation.{two_resolved}

two_witnesses-IsFleet : IsFleet [] (all two_witnesses)
unfolding all lookup insert eq text_eq is_blank
two_witnesses-IsFleet = (refl, refl, refl, (refl, refl, refl, tt))

two_witnesses-asked : All (IsAskedText end) (all two_witnesses)
unfolding all lookup
two_witnesses-asked = (refl, (refl, tt))

toy-IsProductive : IsProductive toy
unfolding canonical_json
toy-IsProductive = record {
  body = λ f b h. utf8-truthy _ _ b h;
  sig = λ key draw message s h.
      let e : signature_of key message ≡ s = ok-injective h in rw (← e) refl;
}

attested_and_verified :
    (r : MultiWitnessReceipt) × ((v : Verification) × (attest toy action two_witnesses end
          (str (text ""))
          (str (text ""))
          moments
        ≡ ok r)
      × (verify_under toy (to_dict r) two_policy ≡ ok v))
unfolding tally run step admit settle register key_for valid_quorum_counts from_dict find text_eq
    verify_verdict caught verify_signed check_statement check_fields b64decode decode_from sextet
    symbol b64encode utf8 encode pae pae_bytes decimal eq lookup member attest collect all n pubkeys
    pubkeys_onto insert can_sign sign sign_verdict canonical_json statement wire_row public_all
    public verify_under policy_matches embedded_pubkeys embedded_from validate_signature_entries
    check_entries check_entry check_required check_optional canonical_sha256 policy_object agrees
    is_blank to_dict
attested_and_verified = (_, (_, refl, refl))

two_verifies :
    verify_receipt toy (to_dict attested_and_verified.0) none null (some two_witnesses)
    ≡ ok attested_and_verified.1.0
unfolding verify_receipt
two_verifies = rw two_resolved attested_and_verified.1.2

verify_receipt-attest_example :
    (attested_and_verified.1.0.decision ≡ attested_and_verified.0.decision)
    × (attested_and_verified.1.0.consensus_count ≡ attested_and_verified.0.consensus_count)
    × (attested_and_verified.1.0.matches_claimed_decision ≡ true)
verify_receipt-attest_example =
    verify_receipt-attest toy toy-IsProductive two_witnesses action end (str (text ""))
      (str (text "")) moments attested_and_verified.0 attested_and_verified.1.0
      two_witnesses-IsFleet refl two_witnesses-asked attested_and_verified.1.1 two_verifies
