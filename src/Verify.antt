-- ===== src/Verify.antt =====
-- python/khipu_consensus/witness.py: the independent verification of a receipt.
pub mod Decides
pub mod Matched
pub mod Attested
pub mod Embeds
pub mod Backed
use khipu_consensus.Prelude.{
  ℕ, Bool, true, false, not, ◌&&◌, Option, none, some, List, [], ◌∷◌, map, if◌then◌else◌, Text,
  Bytes, text,
}
use khipu_consensus.Python.Value.{
  Value, null, bool, str, int, float, arr, obj, Items, items, Fields, end, field, get, eq, nat,
}
use khipu_consensus.Python.Dict.{Dict, dict_eq}
use khipu_consensus.Python.Error.{Result, ok, err, ◌>>=◌}
use khipu_consensus.Python.Host.{Host}
use khipu_consensus.Verdict.{OrganCheck, canonical_json}
use khipu_consensus.Tally.{
  Decision, canonical, rejected, decision_text, ConsensusResult, ratio, Item, abstain, row, other,
  tally,
}
use khipu_consensus.Registry.{WitnessRegistry}
use khipu_consensus.Receipt.{receipt_schema}
use khipu_consensus.Policy.{
  Policy, resolve_trust_policy, embedded_pubkeys, validate_signature_entries,
}

unfoldable pub canonical_sha256 : Host → Value → Result Text
canonical_sha256 H v = do b ← canonical_json H v; ok (H.sha256 b)

-- an entry of the list of signatures as an item of the tally
abbrev pub entry_item : Value → Item
entry_item null = abstain
entry_item (obj d) = row d
entry_item v = other v

abbrev entries : Value → List Value
entries (arr vs) = items vs
entries _ = []

-- `sigs if signatures_valid else []`
abbrev pub safe_items : Bool → Value → List Item
safe_items true sigs = map entry_item (entries sigs)
safe_items false sigs = []

-- a dict with text keys as a JSON object
abbrev object_of : Dict Value → Fields
object_of [] = end
object_of ((str k, v) ∷ d) = field k v (object_of d)
object_of (_ ∷ d) = object_of d

pub record Verification : Type 0 where
  pub action_hash : Value
  pub decision : Decision
  pub consensus_count : ℕ
  pub khipu_consensus : Text
  pub threshold : Value
  pub n : Value
  pub checks : List OrganCheck
  pub schema_matches : Bool
  pub trust_policy_matches : Bool
  pub signatures_valid : Bool
  pub signature_error : Text
  pub receipt_schema : Value
  pub receipt_sha256 : Text
  pub policy_threshold : Value
  pub policy_n : ℕ
  pub policy_sha256 : Text
  pub matches_claimed_decision : Bool

-- the policy as the object whose digest identifies it
unfoldable pub policy_object : Policy → Value
policy_object p = obj (
    field (text "threshold") p.trusted_threshold (
      field (text "n") (nat p.trusted_n)
        (field (text "pubkeys") (obj (object_of p.trusted_pubkeys)) end)))

-- the embedded claims are exactly the policy's
unfoldable pub policy_matches : Fields → Policy → Bool
policy_matches receipt p =
    let (embedded, well_formed) = embedded_pubkeys receipt in
    well_formed
    && dict_eq embedded p.trusted_pubkeys
    && eq (get receipt (text "threshold")) p.trusted_threshold
    && eq (get receipt (text "n")) (nat p.trusted_n)

-- `verify_receipt` once the policy is resolved
unfoldable pub verify_under : Host → Fields → Policy → Result Verification
verify_under H receipt p =
    let action_hash = get receipt (text "action_hash") in
    let sigs = get receipt (text "signatures") in
    let (signatures_valid, signature_error) =
      validate_signature_entries H p.trusted_pubkeys sigs p.trusted_n in
    let trust_policy_matches = policy_matches receipt p in
    let schema_matches = eq (get receipt (text "schema")) (str receipt_schema) in
    do
      result ←
          tally H action_hash p.trusted_pubkeys (safe_items signatures_valid sigs)
            p.trusted_threshold (nat p.trusted_n)
      let trusted = schema_matches && trust_policy_matches && signatures_valid
      let decision = if trusted then result.decision else rejected
      receipt_sha256 ← canonical_sha256 H (obj receipt)
      policy_sha256 ← canonical_sha256 H (policy_object p)
      ok (record {
        action_hash = action_hash;
        decision = decision;
        consensus_count = result.consensus_count;
        khipu_consensus = ratio H result;
        threshold = result.threshold;
        n = result.n;
        checks = result.checks;
        schema_matches = schema_matches;
        trust_policy_matches = trust_policy_matches;
        signatures_valid = signatures_valid;
        signature_error = signature_error;
        receipt_schema = get receipt (text "schema");
        receipt_sha256 = receipt_sha256;
        policy_threshold = p.trusted_threshold;
        policy_n = p.trusted_n;
        policy_sha256 = policy_sha256;
        matches_claimed_decision =
            trusted && eq (str (decision_text decision)) (get receipt (text "decision"));
      })

unfoldable pub verify_receipt :
    Host → Fields → Option (Dict Value) → Value → Option WitnessRegistry → Result Verification
verify_receipt H receipt pubkeys threshold registry = do
  p ← resolve_trust_policy H pubkeys threshold registry
  verify_under H receipt p
