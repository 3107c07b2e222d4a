-- ===== src/Tests/Receipts.antt =====
-- The theorems on policies, receipts, the command line and the service, at concrete inputs.
use khipu_consensus.Prelude.{ℕ, ◌≤◌, ◌≡◌, refl, ◌↔◌, true, none, some, [], ◌∷◌, text, All, length}
use khipu_consensus.Prelude.Texts.{text_eq, decimal}
use khipu_consensus.Python.Value.{Value, null, arr, item_list, end, find, get, nat}
use khipu_consensus.Python.Dict.{Dict}
use khipu_consensus.Python.Dict.Keys.{HasTextKeys}
use khipu_consensus.Python.Error.{ok, err, os_error}
use khipu_consensus.Python.Utf8.{utf8}
use khipu_consensus.Verdict.{canonical_json}
use khipu_consensus.Tally.{canonical}
use khipu_consensus.Tally.Count.{valid_count}
use khipu_consensus.Tally.Backing.{IsBacker}
use khipu_consensus.Registry.{pubkeys}
use khipu_consensus.Policy.{Policy, resolve_trust_policy, validate_signature_entries}
use khipu_consensus.Policy.Trusted.{IsTrusted, resolve-IsTrusted}
use khipu_consensus.Policy.Entries.{AreSignatures, validate_iff}
use khipu_consensus.Verify.{Verification, verify_under, canonical_sha256, policy_object}
use khipu_consensus.Verify.Backed.{verify_receipt_is_backed}
use khipu_consensus.Verify.Decides.{
  submitted, IsInOrder, verify_under_decides, verify_under_total, verify_under_ignores_claims,
}
use khipu_consensus.Cli.ExitCode.{Accepts, main_is_backed}
use khipu_consensus.Sdk.{Transport, local, client_verify}
use khipu_consensus.Service.{
  VerifyRequest, reply_200, verified, require_registry, v1_verify, verified_reply,
}
use khipu_consensus.Service.Verified.{v1_verify_is_backed, client_verify-v1_verify}
use khipu_consensus.Tests.{
  toy, action, two_keys, two_witnesses, two_policy, two_receipt, receipt_saying, two_signatures,
  two_files,
}
use khipu_consensus.Tests.Evaluation.{main_exits_0, two_resolved, two_verified, two_verified_under}

two_policy-IsTrusted : IsTrusted two_policy
two_policy-IsTrusted =
    resolve-IsTrusted toy none null (some two_witnesses) two_policy tt two_resolved

resolve-IsTrusted_example : IsTrusted two_policy
resolve-IsTrusted_example =
    resolve-IsTrusted toy none null (some two_witnesses) two_policy tt two_resolved

validate_iff_example :
    ((validate_signature_entries toy two_keys (arr (item_list two_signatures)) 2).0 ≡ true)
    ↔ ((2 ≤ 2) × AreSignatures two_keys [] two_signatures)
validate_iff_example = validate_iff toy two_keys (item_list two_signatures) 2

-- a receipt that claims to be rejected
abbrev disowned : Verification
disowned = (two_verified_under (text "rejected")).0

verify_under_decides_example :
    (disowned.consensus_count
      ≡ valid_count toy action two_keys
          (submitted toy (receipt_saying (text "rejected")) two_policy))
    × ((disowned.decision ≡ canonical) ↔ (
        IsInOrder toy (receipt_saying (text "rejected")) two_policy
        × ((t : ℕ) × (nat 2 ≡ nat t)
            × (t
                ≤ valid_count toy action two_keys
                    (submitted toy (receipt_saying (text "rejected")) two_policy)))))
unfolding find text_eq
verify_under_decides_example =
    verify_under_decides toy (receipt_saying (text "rejected")) two_policy disowned
      two_policy-IsTrusted (two_verified_under (text "rejected")).1

verify_under_ignores_claims_example :
    (disowned.decision ≡ (two_verified_under (text "canonical")).0.decision)
    × (disowned.consensus_count ≡ (two_verified_under (text "canonical")).0.consensus_count)
unfolding find text_eq
verify_under_ignores_claims_example =
    verify_under_ignores_claims toy two_policy (receipt_saying (text "rejected"))
      (receipt_saying (text "canonical")) disowned (two_verified_under (text "canonical")).0 refl
      refl refl refl refl refl (two_verified_under (text "rejected")).1
      (two_verified_under (text "canonical")).1

-- an empty receipt
verify_under_total_example : (v : Verification) × (verify_under toy end two_policy ≡ ok v)
unfolding canonical_sha256 policy_object find text_eq utf8 canonical_json decimal
verify_under_total_example = verify_under_total toy end two_policy (text "3") (text "3") refl refl

verify_receipt_is_backed_example :
    (p : Policy) × (resolve_trust_policy toy none null (some two_witnesses) ≡ ok p)
    × ((p.trusted_pubkeys ≡ pubkeys two_witnesses)
        × (p.trusted_threshold ≡ two_witnesses.threshold))
    × ((t : ℕ) × (p.trusted_threshold ≡ nat t)
        × ((es : Dict Value) × HasTextKeys es
            × (t ≤ length es)
            × All
                (IsBacker toy
                  (get two_receipt (text "action_hash"))
                  p.trusted_pubkeys
                  (submitted toy two_receipt p))
                es))
verify_receipt_is_backed_example =
    verify_receipt_is_backed toy two_receipt none null (some two_witnesses) two_verified.0 tt
      two_verified.1 two_verified.2

main_is_backed_example :
    (a : Accepts toy two_files (text "r" ∷ text "p" ∷ [])) × ((p : Policy) × (resolve_trust_policy
          toy none null
          (some a.reg)
        ≡ ok p)
      × ((p.trusted_pubkeys ≡ pubkeys a.reg) × (p.trusted_threshold ≡ a.reg.threshold))
      × ((t : ℕ) × (p.trusted_threshold ≡ nat t)
          × ((es : Dict Value) × HasTextKeys es
              × (t ≤ length es)
              × All
                  (IsBacker toy
                    (get a.receipt (text "action_hash"))
                    p.trusted_pubkeys
                    (submitted toy a.receipt p))
                  es)))
main_is_backed_example = main_is_backed toy two_files (text "r" ∷ text "p" ∷ []) main_exits_0

abbrev request : VerifyRequest
request = record { receipt = two_receipt; pubkeys = end }

served : v1_verify toy (some two_witnesses) request ≡ ok (reply_200 (verified two_verified.0))
unfolding v1_verify require_registry verified_reply
served = rw two_verified.1 refl

v1_verify_is_backed_example :
    (p : Policy) × (resolve_trust_policy toy none null (some two_witnesses) ≡ ok p)
    × ((p.trusted_pubkeys ≡ pubkeys two_witnesses)
        × (p.trusted_threshold ≡ two_witnesses.threshold))
    × ((t : ℕ) × (p.trusted_threshold ≡ nat t)
        × ((es : Dict Value) × HasTextKeys es
            × (t ≤ length es)
            × All
                (IsBacker toy
                  (get two_receipt (text "action_hash"))
                  p.trusted_pubkeys
                  (submitted toy two_receipt p))
                es))
v1_verify_is_backed_example =
    v1_verify_is_backed toy two_witnesses request two_verified.0 served two_verified.2

abbrev offline : Transport
offline = record { post = λ url body. err os_error; get_json = λ url. err os_error }

client_verify-v1_verify_example :
    (client_verify toy offline
        (record { registry = some two_witnesses; base_url = none })
        two_receipt
        end
      ≡ ok (local two_verified.0))
    ↔ (v1_verify toy (some two_witnesses) request ≡ ok (reply_200 (verified two_verified.0)))
client_verify-v1_verify_example =
    client_verify-v1_verify toy offline two_witnesses request two_verified.0
