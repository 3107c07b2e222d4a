-- ===== src/Service.antt =====
-- service/app.py: the HTTP handlers. Pydantic's reading of a request and FastAPI's rendering of a
-- reply are left to those packages.
pub mod Verified
use khipu_consensus.Prelude.{
  ℕ, Bool, true, false, not, ◌&&◌, Option, none, some, List, [], ◌∷◌, any, map, if◌then◌else◌, Text,
  text,
}
use khipu_consensus.Prelude.Texts.{strip}
use khipu_consensus.Python.Value.{
  Value, null, bool, str, arr, obj, item_list, Fields, end, field, nat, truthy,
}
use khipu_consensus.Python.Dict.{dict_of, dict_eq}
use khipu_consensus.Python.Error.{Result, ok, err, attribute_error, unicode_encode_error, ◌>>=◌}
use khipu_consensus.Python.Host.{Host}
use khipu_consensus.Verdict.{Moment, version}
use khipu_consensus.Registry.{WitnessRegistry, can_sign, from_dict, all, n, pubkeys, public_all}
use khipu_consensus.Receipt.{MultiWitnessReceipt, receipt_schema, safety_status, attest}
use khipu_consensus.Verify.{Verification, verify_receipt}

-- What a handler sends back.
pub data Content : Type 0 where
  witnessed : MultiWitnessReceipt → Content
  verified : Verification → Content
  -- the `detail` of an error
  detail : Text → Content
  object : Fields → Content

pub record Reply : Type 0 where
  pub status : ℕ
  pub content : Content

record AttestRequest : Type 0 where
  pub action_hash : Text
  pub verdicts : Fields
  pub reason : Text
  pub lean_sha : Text

pub record VerifyRequest : Type 0 where
  pub receipt : Fields
  pub pubkeys : Fields

abbrev registry_of : Value → Result WitnessRegistry
registry_of (obj d) = from_dict d
registry_of _ = err attribute_error

-- `read` stands for reading a file as JSON, and the first argument for `KHIPU_WITNESSES`
unfoldable load_registry :
    (configured : Text) → (read : Text → Result Value) → Result (Option WitnessRegistry)
load_registry configured read =
    let configured_path = strip configured in
    if not (truthy (str configured_path))
    then ok none
    else do data_read ← read configured_path; r ← registry_of data_read; ok (some r)

abbrev unavailable : Reply
unavailable = record {
  status = 503;
  content = detail (text "operator trust registry unavailable; set KHIPU_WITNESSES");
}

-- `require_registry`, whose exception becomes the reply
unfoldable pub require_registry :
    Option WitnessRegistry → (WitnessRegistry → Result Reply) → Result Reply
require_registry none handler = ok unavailable
require_registry (some r) handler = handler r

abbrev pub keys_refused : Reply
keys_refused = record {
  status = 400;
  content = detail (text "pubkeys must exactly match the operator-owned witness registry");
}

abbrev not_utf8 : Reply
not_utf8 = record {
  status = 400;
  content = detail (text "receipt contains text that is not valid UTF-8");
}

abbrev pub reply_200 : Content → Reply
reply_200 c = record { status = 200; content = c }

-- `except UnicodeEncodeError`
unfoldable pub verified_reply : Result Verification → Result Reply
verified_reply (ok v) = ok (reply_200 (verified v))
verified_reply (err unicode_encode_error) = ok not_utf8
verified_reply (err e) = err e

-- keys that are given and are not the registry's
abbrev pub other_keys : Fields → WitnessRegistry → Bool
other_keys given r = truthy (obj given) && not (dict_eq (dict_of given) (pubkeys r))

module _ (H : Host) (REGISTRY : Option WitnessRegistry) where
  unfoldable v1_attest : AttestRequest → (Value → Moment) → Result Reply
  v1_attest req moments = require_registry REGISTRY (λ registry. do
    receipt ←
        attest H (str req.action_hash) registry req.verdicts (str req.reason) (str req.lean_sha)
          moments
    ok (reply_200 (witnessed receipt)))

  unfoldable pub v1_verify : VerifyRequest → Result Reply
  v1_verify req = require_registry REGISTRY (λ registry.
      if other_keys req.pubkeys registry
      then ok keys_refused
      else verified_reply (verify_receipt H req.receipt none null (some registry)))

  unfoldable v1_witnesses : Result Reply
  v1_witnesses = require_registry REGISTRY (λ registry. ok (
      reply_200 (
        object (
          field (text "schema") (str receipt_schema) (
            field (text "threshold") registry.threshold (
              field (text "n") (nat (n registry)) (
                field (text "witnesses") (arr (item_list (map obj (public_all H registry))))
                  end)))))))

  abbrev mode_of : Bool → Text
  mode_of true = text "signed"
  mode_of false = text "UNSIGNED-honest (no private keys; witnesses abstain)"

  abbrev health_of : Option WitnessRegistry → Reply
  health_of none = record {
    status = 503;
    content = object (
        field (text "status") (str (text "unavailable")) (
          field (text "ready") (bool false) (
            field (text "version") (str version) (
              field (text "mode") (str (text "UNAVAILABLE (set KHIPU_WITNESSES)"))
                (field (text "provenance") (obj safety_status) end)))));
  }
  health_of (some r) =
      let signing = any can_sign (all r) in
      reply_200 (
        object (
          field (text "status") (str (text "ok")) (
            field (text "ready") (bool true) (
              field (text "version") (str version) (
                field (text "n") (nat (n r)) (
                  field (text "threshold") r.threshold (
                    field (text "signing_witnesses") (bool signing) (
                      field (text "mode") (str (mode_of signing))
                        (field (text "provenance") (obj safety_status) end)))))))))

  unfoldable v1_healthz : Reply
  v1_healthz = health_of REGISTRY
