-- ===== src/Spine.antt =====
-- python/khipu_consensus/spine.py: a consensus decision as a receipt of the `szl_receipt` package.
pub mod Rebind
pub mod Counted
use khipu_consensus.Prelude.{
  ℕ, Bool, true, false, not, Option, none, some, List, [], ◌∷◌, if◌then◌else◌, Text, Bytes, text,
  ◌++◌,
}
use khipu_consensus.Python.Value.{
  Value, null, str, arr, obj, nil, item_list, Fields, end, field, find, get, eq, truthy,
}
use khipu_consensus.Python.Error.{
  Error, Result, ok, err, attribute_error, key_error, spine_unavailable, ◌>>=◌,
}
use khipu_consensus.Python.Base64.{b64decode}
use khipu_consensus.Registry.{iterate}
use khipu_consensus.Receipt.{MultiWitnessReceipt, to_dict, safety_status}

abbrev receipt_kind : Text
receipt_kind = text "khipu-consensus-witness"

abbrev pcgi_receipt_schema : Text
pcgi_receipt_schema = text "szl.pcgi.receipt/khipu-consensus/v1"

abbrev default_policy_id : Text
default_policy_id = text "szl.pcgi.policy/khipu-bft-quorum/v1"

-- The package `szl_receipt`: the digest of a receipt, its signing, and its verification, with
-- the detail that goes with the answer.
pub record SzlReceipt : Type 0 where
  pub digest : (kind : Text) → Fields → Result Text
  pub sign_receipt : (kind : Text) → Fields → (private_key_pem organ keyid : Value) → Result Fields
  pub verify_receipt : Fields → (public_key_pem : Value) → Result (Bool × Text)

-- What else is called: `json.loads(b.decode("utf-8"))`, and `str(e)`.
pub record Reader : Type 0 where
  pub loads : Bytes → Result Value
  pub describe : Error → Text

-- a receipt, as an object or as its dict
pub data Source : Type 0 where
  receipt : MultiWitnessReceipt → Source
  dict : Fields → Source

unfoldable pub as_dict : Source → Fields
as_dict (receipt r) = to_dict r
as_dict (dict f) = f

-- the lazy import; `none` is a package that is not installed
unfoldable pub require_szl_receipt : Option SzlReceipt → Result SzlReceipt
require_szl_receipt none = err spine_unavailable
require_szl_receipt (some S) = ok S

unfoldable pub consensus_input : Fields → Fields
consensus_input r = field (text "action_hash") (get r (text "action_hash")) (
    field (text "threshold") (get r (text "threshold")) (
      field (text "n") (get r (text "n")) (
        field (text "signatures") (get r (text "signatures"))
          (field (text "witnesses") (get r (text "witnesses")) end))))

unfoldable pub consensus_output : Fields → Fields
consensus_output r = field (text "decision") (get r (text "decision")) (
    field (text "consensus_count") (get r (text "consensus_count")) (
      field (text "khipu_consensus") (get r (text "khipu_consensus"))
        (field (text "checks") (get r (text "checks")) end)))

-- a check of the list, if it counted
abbrev counted_of : Fields → List Value → List Value
counted_of c rest =
    if truthy (get c (text "counts"))
    then obj (
        field (text "organ") (get c (text "organ"))
          (field (text "keyid") (get c (text "keyid")) end))
      ∷ rest
    else rest

unfoldable pub counted_among : List Value → Result (List Value)
counted_among [] = ok []
counted_among (obj c ∷ cs) = do rest ← counted_among cs; ok (counted_of c rest)
counted_among (_ ∷ cs) = err attribute_error

unfoldable pub counting_witnesses : Fields → Result (List Value)
unfolding counted_among
counting_witnesses r =
    let checks = get r (text "checks") in
    do cs ← iterate (if truthy checks then checks else arr nil); counted_among cs

module _ (installed : Option SzlReceipt) where
  unfoldable pub digest : Fields → Result Text
  digest body = do S ← require_szl_receipt installed; S.digest (text "_digest") body

  unfoldable pub consensus_input_digest : Source → Result Text
  consensus_input_digest s = digest (consensus_input (as_dict s))

  unfoldable pub consensus_output_digest : Source → Result Text
  consensus_output_digest s = digest (consensus_output (as_dict s))

  abbrev unmeasured_energy : Fields
  unmeasured_energy = field (text "status") (str (text "UNAVAILABLE")) (
      field (text "joules") null (
        field (text "reason")
          (str (
            text
              "khipu consensus measures no joules here; energy reported UNAVAILABLE, never fabricated."))
          end))

  abbrev honesty : Fields
  honesty =
      field (text "asserts") (str (text "integrity/reproducibility of the quorum, NOT correctness"))
        (field (text "receipt_is")
          (str (
            text
              "evidence trail binding this decision (subject+input+output+policy+energy), not a proof the agreed value is correct"))
          (field (text "safety") (obj safety_status) end))

  abbrev body_of :
      Fields → (input_digest output_digest : Text) → (policy_id : Value) → List Value → Fields
  body_of r input_digest output_digest policy_id witnesses =
      field (text "schema") (str pcgi_receipt_schema) (
        field (text "kind") (str receipt_kind) (
          field (text "subject")
            (obj (
              field (text "type") (str (text "khipu-consensus-round"))
                (field (text "action_hash") (get r (text "action_hash")) end)))
            (field (text "input_digest") (str input_digest) (
              field (text "output_digest") (str output_digest) (
                field (text "policy_id") policy_id (
                  field (text "energy") (obj unmeasured_energy) (
                    field (text "witnesses") (arr (item_list witnesses)) (
                      field (text "quorum")
                        (obj (
                          field (text "threshold") (get r (text "threshold")) (
                            field (text "n") (get r (text "n")) (
                              field (text "consensus_count") (get r (text "consensus_count")) (
                                field (text "khipu_consensus") (get r (text "khipu_consensus"))
                                  (field (text "decision") (get r (text "decision")) end))))))
                        (field (text "honesty") (obj honesty) end)))))))))

  -- the witnesses that are given, or those whose verdicts counted
  abbrev witnesses_or : Option (List Value) → Fields → Result (List Value)
  witnesses_or (some ws) r = ok ws
  witnesses_or none r = counting_witnesses r

  unfoldable build_consensus_receipt_body :
      Source → (policy_id : Value) → (witnesses : Option (List Value)) → Result Fields
  build_consensus_receipt_body s policy_id witnesses =
      let r = as_dict s in
      do
        ws ← witnesses_or witnesses r
        i ← consensus_input_digest (dict r)
        o ← consensus_output_digest (dict r)
        ok (body_of r i o policy_id ws)

  unfoldable consensus_receipt_body_digest :
      Source → (policy_id : Value) → (witnesses : Option (List Value)) → Result Text
  consensus_receipt_body_digest s policy_id witnesses = do
    body ← build_consensus_receipt_body s policy_id witnesses
    digest body

  unfoldable emit_consensus_receipt :
      Source
      → (private_key_pem policy_id organ keyid : Value) → (witnesses : Option (List Value))
      → Result Fields
  emit_consensus_receipt s private_key_pem policy_id organ keyid witnesses = do
    S ← require_szl_receipt installed
    body ← build_consensus_receipt_body s policy_id witnesses
    S.sign_receipt receipt_kind body private_key_pem organ keyid

  module _ (R : Reader) where
    -- `json.loads(base64.b64decode(envelope["payload"]).decode("utf-8"))`
    unfoldable pub signed_body : Fields → Result Value
    signed_body envelope = elim (find (text "payload") envelope) [
      | none ↦ err (key_error (text "payload"))
      | some payload ↦ b64decode payload >>= R.loads
    ]

    -- the comparison of the second digest
    unfoldable pub rebind_output : Fields → Source → Result (Bool × Text)
    rebind_output body s = do
      o ← consensus_output_digest s
      ok (
          if not (eq (get body (text "output_digest")) (str o))
          then (false, text "output-digest-rebind-mismatch")
          else (true, text "ok"))

    -- the comparison of the digests of the signed body with those of a receipt
    unfoldable pub rebind_body : Value → Source → Result (Bool × Text)
    unfolding rebind_output
    rebind_body (obj body) s = do
      i ← consensus_input_digest s
      if not (eq (get body (text "input_digest")) (str i))
          then ok (false, text "input-digest-rebind-mismatch")
          else rebind_output body s
    rebind_body body s = err attribute_error

    -- the `try` around the decoding, and what follows it
    unfoldable pub rebind : Result Value → Source → Result (Bool × Text)
    rebind (ok body) s = rebind_body body s
    rebind (err e) s = ok (false, text "payload decode error: " ++ R.describe e)

    unfoldable pub verify_consensus_receipt :
        Fields → (public_key_pem : Value) → Option Source → Result (Bool × Text)
    verify_consensus_receipt envelope public_key_pem given = do
      S ← require_szl_receipt installed
      (good, detail) ← S.verify_receipt envelope public_key_pem
      if not good
          then ok (good, detail)
          else elim given [ none ↦ ok (true, text "ok") | some s ↦ rebind (signed_body envelope) s ]
