-- ===== src/Receipt.antt =====
-- python/khipu_consensus/witness.py: one witnessed attestation and its receipt.
pub mod Unsigned
pub mod Rows
pub mod Live
pub mod Answers
pub mod Backed
use khipu_consensus.Prelude.{ℕ, Option, none, some, List, [], ◌∷◌, map, Text, text}
use khipu_consensus.Python.Value.{
  Value, null, bool, str, arr, obj, item_list, Fields, end, field, nat, or_else,
}
use khipu_consensus.Python.Dict.{lookup, dict_of}
use khipu_consensus.Python.Error.{Result, ok, value_error, require, ◌>>=◌, ◌>>◌}
use khipu_consensus.Python.Host.{Host}
use khipu_consensus.Verdict.{OrganCheck, Moment, version}
use khipu_consensus.Tally.{
  Decision, decision_text, ratio, Item, abstain, row, valid_quorum_counts, tally,
}
use khipu_consensus.Registry.{Witness, WitnessRegistry, sign, all, n, pubkeys, public_all}

abbrev pub receipt_schema : Text
receipt_schema = text "szl.khipu.multi-witness-receipt/v1"

abbrev pub safety_status : Fields
safety_status =
    field (text "safety")
      (obj (
        field (text "id") (str (text "Conjecture 2")) (
          field (text "name") (str (text "khipu_consensus_safety"))
            (field (text "status") (str (text "proof-deferred")) end))))
      (field (text "liveness")
        (obj (
          field (text "id") (str (text "Conjecture 3")) (
            field (text "name") (str (text "khipu_consensus_liveness"))
              (field (text "status") (str (text "proof-deferred")) end))))
        (field (text "economic_slashing")
          (obj (
            field (text "status") (str (text "ROADMAP")) (
              field (text "note") (str (text "EigenLayer-style AVS slashing not yet implemented"))
                end)))
          end))

pub record MultiWitnessReceipt : Type 0 where
  pub schema : Text
  pub action_hash : Value
  pub threshold : Value
  pub n : ℕ
  pub decision : Decision
  pub consensus_count : ℕ
  pub khipu_consensus : Text
  pub signatures : List (Option Fields)
  pub checks : List OrganCheck
  pub witnesses : List Fields
  pub provenance : Fields
  pub version : Text

-- one row of `_checks_to_public`
unfoldable pub check_to_public : OrganCheck → Fields
check_to_public c = field (text "organ") c.organ (
    field (text "keyid") c.keyid (
      field (text "valid") (bool c.valid) (
        field (text "verdict") c.verdict (
          field (text "action_hash_match") (bool c.action_hash_match)
            (field (text "counts") (bool c.counts) (field (text "reason") (str c.reason) end))))))

unfoldable pub checks_to_public : List OrganCheck → Value
checks_to_public cs = arr (item_list (map (λ c. obj (check_to_public c)) cs))

abbrev pub signature_value : Option Fields → Value
signature_value none = null
signature_value (some r) = obj r

unfoldable pub to_dict : MultiWitnessReceipt → Fields
to_dict r = field (text "schema") (str r.schema) (
    field (text "action_hash") r.action_hash (
      field (text "threshold") r.threshold (
        field (text "n") (nat r.n) (
          field (text "decision") (str (decision_text r.decision)) (
            field (text "consensus_count") (nat r.consensus_count) (
              field (text "khipu_consensus") (str r.khipu_consensus) (
                field (text "signatures") (arr (item_list (map signature_value r.signatures))) (
                  field (text "checks") (checks_to_public r.checks) (
                    field (text "witnesses") (arr (item_list (map obj r.witnesses))) (
                      field (text "provenance") (obj r.provenance)
                        (field (text "version") (str r.version) end)))))))))))

-- a collected verdict as an item of the tally
abbrev pub item_of : Option Fields → Item
item_of none = abstain
item_of (some r) = row r

module _ (H : Host) (action_hash : Value) where
  -- The verdicts of all witnesses, in the registry's order. A witness allows unless `verdicts`
  -- says otherwise; `moments` has the randomness and the time of each signature.
  unfoldable pub collect :
      Fields
      → (reason lean_sha : Value) → (Value → Moment)
      → List Witness
      → Result (List (Option Fields))
  collect verdicts reason lean_sha moments [] = ok []
  collect verdicts reason lean_sha moments (w ∷ ws) =
      let says = or_else (lookup w.organ (dict_of verdicts)) (str (text "allow")) in
      do
        v ← sign H w action_hash says reason lean_sha (str (text "")) (moments w.organ)
        vs ← collect verdicts reason lean_sha moments ws
        ok (v ∷ vs)

  unfoldable pub attest :
      WitnessRegistry
      → Fields
      → (reason lean_sha : Value) → (Value → Moment)
      → Result MultiWitnessReceipt
  attest reg verdicts reason lean_sha moments = do
    require (valid_quorum_counts reg.threshold (nat (n reg)))
        (value_error (text "quorum counts must be integers with 1 <= threshold <= n"))
    collected ← collect verdicts reason lean_sha moments (all reg)
    result ← tally H action_hash (pubkeys reg) (map item_of collected) reg.threshold (nat (n reg))
    ok (record {
      schema = receipt_schema;
      action_hash = action_hash;
      threshold = reg.threshold;
      n = n reg;
      decision = result.decision;
      consensus_count = result.consensus_count;
      khipu_consensus = ratio H result;
      signatures = collected;
      checks = result.checks;
      witnesses = public_all H reg;
      provenance = safety_status;
      version = version;
    })
