-- ===== src/Tests/Attacks.antt =====
-- The theorems on attestation, impersonation and tampering, at concrete inputs.
use khipu_consensus.Prelude.{
  ℕ, ◌≡◌, refl, sym, ap, ◌∙◌, true, false, none, some, [], ◌∷◌, Text, Bytes, text, All, arith,
  length, ◌%◌, map, ◌≤◌,
}
use khipu_consensus.Prelude.Texts.{text_eq, text_eq→≡, decimal}
use khipu_consensus.Python.Value.{null, str, Fields, end, field, find, get, put, nat, Value, eq}
use khipu_consensus.Python.Error.{ok, ok-injective}
use khipu_consensus.Python.Utf8.{utf8}
use khipu_consensus.Python.Base64.{b64encode, b64decode, decode_from, sextet, symbol}
use khipu_consensus.Python.Host.{Host, encode}
use khipu_consensus.Verdict.{
  canonical_json, statement, pae, pae_bytes, sign_verdict, wire_row, from_dict, verify_verdict,
  organ_verdict_payload_type,
}
use khipu_consensus.Tally.{rejected, valid_quorum_counts}
use khipu_consensus.Registry.{Witness, WitnessRegistry, can_sign, all, n, pubkeys, pubkeys_onto}
use khipu_consensus.Receipt.{MultiWitnessReceipt, attest, item_of}
use khipu_consensus.Registry.Keys.{IsTextKey}
use khipu_consensus.Python.Dict.{Dict, insert}
use khipu_consensus.Python.Dict.Keys.{HasTextKeys}
use khipu_consensus.Tally.Backing.{IsBacker}
use khipu_consensus.Receipt.Backed.{attest_is_backed}
use khipu_consensus.Tests.{
  two_witnesses, toy, action, moment, moments, mark, signature_of, spoken, read_spoken,
}
use khipu_consensus.Tests.Evaluation.{attested}
use khipu_consensus.Receipt.Unsigned.{IsUnsigned, attest_unsigned}
use khipu_consensus.Adversary.Attacks.{impersonation_verdict, tamper_verdict}
use khipu_consensus.Adversary.Tampered.{
  IsForeign, IsBoundTo, impersonation_never_counts, tampered_never_counts,
}

abbrev keyless : Text → Witness
keyless organ = record {
  organ = str organ;
  public_key_pem = str (text "K");
  region = str (text "unknown");
  org = str (text "unknown");
  endpoint = str (text "");
  private_key_pem = null;
}

abbrev keyless_registry : WitnessRegistry
keyless_registry = record {
  witnesses = (str (text "s"), keyless (text "s")) ∷ (str (text "u"), keyless (text "u")) ∷ [];
  threshold = nat 1;
}

keyless-IsUnsigned : All IsUnsigned (all keyless_registry)
unfolding can_sign all
keyless-IsUnsigned = (refl, (refl, tt))

keyless_valid : valid_quorum_counts (nat 1) (nat (n keyless_registry)) ≡ true
unfolding valid_quorum_counts n
keyless_valid = refl

attest_unsigned_example :
    (r : MultiWitnessReceipt) × (attest toy action keyless_registry end
        (str (text ""))
        (str (text ""))
        moments
      ≡ ok r)
    × (r.decision ≡ rejected)
    × (r.consensus_count ≡ 0)
    × (r.signatures ≡ none ∷ none ∷ [])
unfolding all
attest_unsigned_example =
    attest_unsigned toy action keyless_registry end (str (text "")) (str (text "")) moments
      keyless-IsUnsigned keyless_valid

unlike : (a b : ℕ) → text_eq (76 ∷ a ∷ []) (75 ∷ b ∷ []) ≡ true → ⊥
unfolding text_eq
unlike a b h = ground arith

K_encodes : encode (str (text "K")) ≡ ok (text "K")
unfolding encode utf8
K_encodes = refl

L_encodes : encode (str (text "L")) ≡ ok (text "L")
unfolding encode utf8
L_encodes = refl

L-IsForeign : IsForeign toy (str (text "L")) (str (text "K"))
L-IsForeign = record {
  refuses = λ b pem key public draw message other sig eb ek es ep el.
      let is_key : text "L" ≡ key = ok-injective (sym L_encodes ∙ eb ∙ ek) in
      let is_public : text "K" ≡ public = ok-injective (sym K_encodes ∙ ep ∙ el) in
      let is_sig : sig ≡ 76 ∷ length message % 256 ∷ [] =
        sym (ok-injective es) ∙ ap (λ (k : Bytes). signature_of k message) (sym is_key) in
      let eqs : text_eq sig (signature_of public other)
          ≡ text_eq (76 ∷ length message % 256 ∷ []) (75 ∷ length other % 256 ∷ []) =
        ap (λ (t : Bytes). text_eq t (signature_of public other)) is_sig
        ∙ ap (λ (k : Bytes). text_eq (76 ∷ length message % 256 ∷ []) (signature_of k other))
            (sym is_public) in
      (rw is_sig (omega arith, (omega arith, tt)), λ v. unlike _ _ (sym eqs ∙ ok-injective v));
}

-- the row of the second witness, in the name of the first
impersonated :
    (d : Fields) × (impersonation_verdict toy
        (str (text "s"))
        action
        (str (text "L"))
        (str (text "allow"))
        (str (text "t"))
        moment
      ≡ ok d)
unfolding impersonation_verdict sign_verdict canonical_json statement pae pae_bytes wire_row encode
    utf8 find text_eq b64encode decimal
impersonated = (_, refl)

impersonation_never_counts_example :
    (verify_verdict toy (from_dict impersonated.0) (str (text "K")) action).counts ≡ false
impersonation_never_counts_example =
    impersonation_never_counts toy (str (text "s")) action (str (text "L")) (str (text "allow"))
      (str (text "t")) (str (text "K")) action moment impersonated.0 L-IsForeign impersonated.1

-- A host whose signature holds the whole message.
abbrev strict : Host
strict = record toy {
  sign = λ key draw message. ok (mark key ∷ message);
  verify = λ key sig message. ok (text_eq sig (mark key ∷ message));
}

abbrev block_body : Bytes
block_body = text "sxb"

abbrev block_message : Bytes
block_message = pae_bytes organ_verdict_payload_type block_body

-- the first witness's `block`
abbrev block_row : Fields
block_row = field (text "organ") (str (text "s")) (
    field (text "keyid") (str (text "s-cosign")) (
      field (text "payloadType") (str organ_verdict_payload_type) (
        field (text "payload") (str (b64encode block_body)) (
          field (text "signature") (str (b64encode (75 ∷ block_message)))
            (field (text "verdict") (str (text "block")) end)))))

block_decodes : b64decode (from_dict block_row).signature_b64 ≡ ok (75 ∷ block_message)
unfolding from_dict find text_eq b64encode b64decode decode_from sextet symbol pae_bytes decimal
block_decodes = refl

block_encodes : pae (str organ_verdict_payload_type) block_body ≡ ok block_message
unfolding pae encode utf8 pae_bytes decimal
block_encodes = refl

block_states : get (spoken 115 120 98) (text "verdict") ≡ str (text "allow") → ⊥
unfolding find text_eq
block_states h = cc

abbrev rest : Bytes → Bytes
rest [] = []
rest (c ∷ b) = b

block-IsBoundTo : IsBoundTo strict block_row (str (text "K")) block_body (spoken 115 120 98)
block-IsBoundTo = record {
  only = λ pem sig message public e l d v.
      let is_sig : sig ≡ 75 ∷ block_message = ok-injective (sym d ∙ block_decodes) in
      let equal : text_eq sig (mark public ∷ message) ≡ true = ok-injective v in
      let same : sig ≡ mark public ∷ message = text_eq→≡ sig (mark public ∷ message) equal in
      let messages : block_message ≡ message = ap rest (sym is_sig ∙ same) in
      block_encodes ∙ ap (λ (b : Bytes). ok b) messages;
  reads = refl;
  blocks = block_states;
}

flipped :
    (d : Fields) × (tamper_verdict strict read_spoken block_row none (some (str (text "allow")))
      ≡ ok d)
unfolding tamper_verdict find text_eq b64decode decode_from sextet symbol b64encode canonical_json
    utf8 put
flipped = (_, refl)

tampered_never_counts_example :
    (verify_verdict strict (from_dict flipped.0) (str (text "K")) action).counts ≡ false
tampered_never_counts_example =
    tampered_never_counts strict read_spoken block_row flipped.0 (spoken 115 120 98) none
      (some (str (text "allow"))) (str (text "K")) action block_body block-IsBoundTo flipped.1

two_keys-IsTextKey : All IsTextKey (pubkeys two_witnesses)
unfolding pubkeys pubkeys_onto all insert eq text_eq
two_keys-IsTextKey = (refl, (refl, tt))

attest_is_backed_example :
    (t : ℕ) × (nat 2 ≡ nat t)
    × ((es : Dict Value) × HasTextKeys es
        × (t ≤ length es)
        × All (IsBacker toy action (pubkeys two_witnesses) (map item_of attested.0.signatures)) es)
attest_is_backed_example =
    attest_is_backed toy action two_witnesses end (str (text "")) (str (text "")) moments attested.0
      two_keys-IsTextKey attested.1 attested.2
