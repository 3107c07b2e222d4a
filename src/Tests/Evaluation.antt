-- ===== src/Tests/Evaluation.antt =====
-- The runs at the concrete inputs that the tests share.
use khipu_consensus.Prelude.{
  ℕ, ◌<◌, ◌%◌, ◌≡◌, refl, sym, ap, ◌∙◌, Bool-cases, inl, inr, length, arith, Bytes, Bool, true,
  none, some, [], ◌∷◌, Text, text,
}
use khipu_consensus.Prelude.Texts.{text_eq, text_eq_refl, decimal, is_blank}
use khipu_consensus.Python.Value.{
  null, str, Fields, end, field, find, get, eq, nat, is_str, eq-is_str_refl,
}
use khipu_consensus.Python.Dict.{lookup, member, insert, agrees}
use khipu_consensus.Python.Dict.Keys.{HasTextKeys}
use khipu_consensus.Python.Error.{ok, ok-injective}
use khipu_consensus.Python.Utf8.{utf8}
use khipu_consensus.Python.Base64.{b64encode, b64decode, decode_from, sextet, symbol}
use khipu_consensus.Python.Host.{encode}
use khipu_consensus.Verdict.{
  canonical_json, statement, pae, pae_bytes, sign_verdict, wire_row, from_dict, verify_verdict,
  verify_signed, check_statement, check_fields, caught,
}
use khipu_consensus.Tally.{
  canonical, row, valid_quorum_counts, tally, run, step, admit, settle, register, key_for,
  ConsensusResult,
}
use khipu_consensus.Registry.{
  pubkeys, pubkeys_onto, all, n, can_sign, sign, public, public_all, iterate, witness_of,
  witnesses_of, registry, add, add_all,
}
use khipu_consensus.Registry
use khipu_consensus.Cli.{main, check_files, check_objects, set_of, exit_code}
use khipu_consensus.Receipt.{MultiWitnessReceipt, attest, collect}
use khipu_consensus.Policy.{
  resolve_trust_policy, check_policy, check_keys, is_null, embedded_pubkeys, embedded_from,
  check_required, check_optional, check_entry, check_entries, validate_signature_entries,
}
use khipu_consensus.Verify.{
  Verification, verify_receipt, verify_under, policy_matches, policy_object, canonical_sha256,
}
use khipu_consensus.Verdict.Signing.{IsKeyPair, ReadsBack}
use khipu_consensus.Tests.{
  toy, signature_of, action, moments, row_s, row_u, two_keys, two_rows, two_witnesses, two_policy,
  two_receipt, receipt_saying, two_files,
}

pub two_keys-HasTextKeys : HasTextKeys two_keys
unfolding lookup eq text_eq
two_keys-HasTextKeys = (refl, refl, (refl, refl, tt))

pub two_tallied :
    (r : ConsensusResult) × (tally toy action two_keys two_rows (nat 2) (nat 2) ≡ ok r)
    × (r.decision ≡ canonical)
unfolding tally run step admit settle register key_for valid_quorum_counts from_dict find text_eq
    verify_verdict caught verify_signed check_statement check_fields b64decode decode_from sextet
    symbol b64encode utf8 encode pae pae_bytes decimal eq lookup member
two_tallied = (_, refl, refl)

-- both rows twice over
pub two_tallied_again :
    (r : ConsensusResult) × (tally toy action two_keys
        (row row_s ∷ row row_u ∷ row row_u ∷ row row_s ∷ [])
        (nat 2)
        (nat 2)
      ≡ ok r)
unfolding tally run step admit settle register key_for valid_quorum_counts from_dict find text_eq
    verify_verdict caught verify_signed check_statement check_fields b64decode decode_from sextet
    symbol b64encode utf8 encode pae pae_bytes decimal eq lookup member
two_tallied_again = (_, refl)

pub two_tallied_swapped :
    (r : ConsensusResult) × (tally toy action two_keys (row row_u ∷ row row_s ∷ []) (nat 2) (nat 2)
      ≡ ok r)
unfolding tally run step admit settle register key_for valid_quorum_counts from_dict find text_eq
    verify_verdict caught verify_signed check_statement check_fields b64decode decode_from sextet
    symbol b64encode utf8 encode pae pae_bytes decimal eq lookup member
two_tallied_swapped = (_, refl)

pub one_counts : (verify_verdict toy (from_dict row_s) (str (text "K")) action).counts ≡ true
unfolding tally run step admit settle register key_for valid_quorum_counts from_dict find text_eq
    verify_verdict caught verify_signed check_statement check_fields b64decode decode_from sextet
    symbol b64encode utf8 encode pae pae_bytes decimal eq lookup member
one_counts = refl

pub attested :
    (r : MultiWitnessReceipt) × (attest toy action two_witnesses end
        (str (text ""))
        (str (text ""))
        moments
      ≡ ok r)
    × (r.decision ≡ canonical)
unfolding tally run step admit settle register key_for valid_quorum_counts from_dict find text_eq
    verify_verdict caught verify_signed check_statement check_fields b64decode decode_from sextet
    symbol b64encode utf8 encode pae pae_bytes decimal eq lookup member attest collect all n pubkeys
    pubkeys_onto insert can_sign sign sign_verdict canonical_json statement wire_row public_all
    public
attested = (_, refl, refl)

pub two_verified_under :
    (decision : Text)
    → (v : Verification) × (verify_under toy (receipt_saying decision) two_policy ≡ ok v)
      × (v.decision ≡ canonical)
unfolding tally run step admit settle register key_for valid_quorum_counts from_dict find text_eq
    verify_verdict caught verify_signed check_statement check_fields b64decode decode_from sextet
    symbol b64encode utf8 encode pae pae_bytes decimal eq lookup member verify_under policy_matches
    embedded_pubkeys embedded_from validate_signature_entries check_entries check_entry
    check_required check_optional canonical_sha256 canonical_json policy_object agrees insert
    is_blank
two_verified_under decision = (_, refl, refl)

pub two_resolved : resolve_trust_policy toy none null (some two_witnesses) ≡ ok two_policy
unfolding resolve_trust_policy check_policy check_keys is_null is_blank pubkeys pubkeys_onto all
    insert eq text_eq
two_resolved = refl

pub two_verified :
    (v : Verification) × (verify_receipt toy two_receipt none null (some two_witnesses) ≡ ok v)
    × (v.decision ≡ canonical)
unfolding verify_receipt
two_verified =
    let (v, ran, says) = two_verified_under (text "canonical") in (v, rw two_resolved ran, says)

pub main_exits_0 : main toy two_files (text "r" ∷ text "p" ∷ []) ≡ ok 0
unfolding tally run step admit settle register key_for valid_quorum_counts from_dict find text_eq
    verify_verdict caught verify_signed check_statement check_fields b64decode decode_from sextet
    symbol b64encode utf8 encode pae pae_bytes decimal eq lookup member main check_files
    check_objects set_of exit_code Registry.from_dict iterate witness_of witnesses_of registry add
    add_all verify_receipt resolve_trust_policy check_policy check_keys is_null is_blank pubkeys
    pubkeys_onto all insert verify_under policy_matches embedded_pubkeys embedded_from
    validate_signature_entries check_entries check_entry check_required check_optional
    canonical_sha256 canonical_json policy_object agrees
main_exits_0 = refl

-- Every value is a text.
AllText : Fields → Type 0
AllText end = Unit
AllText (field k v f) = (is_str v ≡ true) × AllText f

get_refl : (f : Fields) (k : Text) → AllText f → eq (get f k) (get f k) ≡ true
unfolding AllText find eq
get_refl end k h = refl
get_refl (field j v f) k (text, h) = elim (Bool-cases (text_eq j k)) [
  | inl same ↦ rw same (eq-is_str_refl v text)
  | inr other ↦ rw other (get_refl f k h)
]

abbrev said : Text → Fields
said a =
    statement toy (str (text "s")) (str a) (str (text "allow")) (str (text "")) (str (text ""))
      (str (text "t"))

pub said-ReadsBack :
    (c : ℕ)
    → utf8 (115 ∷ c ∷ 97 ∷ []) ≡ ok (115 ∷ c ∷ 97 ∷ [])
    → c < 256
    → ReadsBack toy (said (c ∷ []))
unfolding canonical_json statement find text_eq AllText
said-ReadsBack c encodes small = record {
  bytes = λ b h.
      let same = ok-injective (sym encodes ∙ h) in
      rw (← same) ((omega arith, (small, (omega arith, tt))), refl);
  reads = λ b h.
      let same = ok-injective (sym encodes ∙ h) in
      (
        said (c ∷ []),
        rw (← same) refl,
        λ k.
            get_refl (said (c ∷ [])) k
              (refl, (refl, (refl, (refl, (refl, (refl, (refl, (refl, tt)))))))),
      );
}

pub toy-IsKeyPair : IsKeyPair toy (str (text "K")) (str (text "K"))
unfolding encode utf8
toy-IsKeyPair = record {
  public_bytes = text "K";
  public = text "K";
  encodes = refl;
  loads = refl;
  verifies = λ b key draw message sig eb ek es.
      let is_key : text "K" ≡ key = ok-injective (eb ∙ ek) in
      let is_sig : sig ≡ 75 ∷ length message % 256 ∷ [] =
        sym (ok-injective es) ∙ ap (λ (k : Bytes). signature_of k message) (sym is_key) in
      rw is_sig (
        ap (λ (t : Bool). ok t) (text_eq_refl (75 ∷ length message % 256 ∷ [])),
        (omega arith, (omega arith, tt)),
        refl,
      );
}
