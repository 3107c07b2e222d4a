-- ===== src/Verdict.antt =====
-- python/khipu_consensus/__init__.py: the DSSE encoding, and one witness's signed verdict.
pub mod Genuine
pub mod Pae
pub mod Signing
pub mod Total
use khipu_consensus.Prelude.{
  ℕ, ◌≡◌, Bool, true, false, not, ◌&&◌, ◌||◌, ◌++◌, if◌then◌else◌, length, Text, Bytes, text,
  decimal,
}
use khipu_consensus.Python.Value.{
  Value, null, str, obj, Fields, end, field, get, get_or, eq, truthy,
}
use khipu_consensus.Python.Error.{Result, ok, err, ◌>>=◌}
use khipu_consensus.Python.Utf8.{utf8}
use khipu_consensus.Python.Base64.{b64encode, b64decode}
use khipu_consensus.Python.Host.{Host, format, encode}

abbrev pub organ_verdict_payload_type : Text
organ_verdict_payload_type = text "application/vnd.szl.khipu.organ-verdict+json"

abbrev pub statement_schema : Text
statement_schema = text "szl.khipu.organ_verdict/v1"

abbrev pub version : Text
version = text "0.1.0"

unfoldable pub canonical_json : Host → Value → Result Bytes
canonical_json H v = do s ← H.dumps v; utf8 s

-- the bytes that are signed, of an encoded type and a body
unfoldable pub pae_bytes : Bytes → Bytes → Bytes
pae_bytes t body =
    text "DSSEv1 "
    ++ (decimal (length t)
        ++ (text " " ++ (t ++ (text " " ++ (decimal (length body) ++ (text " " ++ body))))))

unfoldable pub pae : Value → Bytes → Result Bytes
pae payload_type body = do t ← encode payload_type; ok (pae_bytes t body)

-- The fields hold whatever the wire row held.
pub record OrganVerdict : Type 0 where
  pub organ : Value
  pub keyid : Value
  pub payload_type : Value
  pub payload_b64 : Value
  pub signature_b64 : Value
  pub verdict : Value
  pub reason : Value

unfoldable pub from_dict : Fields → OrganVerdict
from_dict d = record {
  organ = get_or d (text "organ") (str (text ""));
  keyid = get_or d (text "keyid") (str (text ""));
  payload_type = get_or d (text "payloadType") (str organ_verdict_payload_type);
  payload_b64 = get_or d (text "payload") (str (text ""));
  signature_b64 = get_or d (text "signature") (str (text ""));
  verdict = get_or d (text "verdict") (str (text "allow"));
  reason = get_or d (text "reason") (str (text ""));
}

pub record OrganCheck : Type 0 where
  pub organ : Value
  pub keyid : Value
  pub valid : Bool
  pub verdict : Value
  pub action_hash_match : Bool
  pub counts : Bool
  pub reason : Text

-- The randomness and the time of one signature.
pub record Moment : Type 0 where
  pub draw : ℕ
  pub now : Text

-- `f"{organ}-cosign"`
abbrev pub keyid_of : Host → Value → Text
keyid_of H organ = format H organ ++ text "-cosign"

unfoldable pub statement : Host → (organ action_hash verdict reason lean_sha ts : Value) → Fields
statement H organ action_hash verdict reason lean_sha ts =
    field (text "schema") (str statement_schema) (
      field (text "organ") organ (
        field (text "keyid") (str (keyid_of H organ)) (
          field (text "action_hash") action_hash (
            field (text "verdict") verdict (
              field (text "reason") reason
                (field (text "lean_sha") lean_sha (field (text "ts") ts end)))))))

-- the row that `sign_verdict` returns
unfoldable pub wire_row : Host → (organ verdict reason : Value) → Bytes → Bytes → Fields
wire_row H organ verdict reason body sig = field (text "organ") organ (
    field (text "keyid") (str (keyid_of H organ)) (
      field (text "payloadType") (str organ_verdict_payload_type) (
        field (text "payload") (str (b64encode body)) (
          field (text "signature") (str (b64encode sig))
            (field (text "verdict") verdict (field (text "reason") reason end))))))

module _ (H : Host) where
  unfoldable pub sign_verdict :
      (organ action_hash verdict private_key_pem reason lean_sha ts : Value)
      → Moment
      → Result Fields
  sign_verdict organ action_hash verdict private_key_pem reason lean_sha ts m =
      let time = if truthy ts then ts else str m.now in
      do
        body ← canonical_json H (obj (statement H organ action_hash verdict reason lean_sha time))
        pem ← encode private_key_pem
        priv ← H.load_private pem
        message ← pae (str organ_verdict_payload_type) body
        sig ← H.sign priv m.draw message
        ok (wire_row H organ verdict reason body sig)

  -- a check of a verdict that is not valid
  abbrev pub refused : OrganVerdict → Text → OrganCheck
  refused v why = record {
    organ = v.organ;
    keyid = v.keyid;
    valid = false;
    verdict = null;
    action_hash_match = false;
    counts = false;
    reason = why;
  }

  -- what the signed statement says, once its signature is good
  unfoldable pub check_fields : OrganVerdict → Text → Value → Fields → OrganCheck
  check_fields v expected_keyid action_hash decoded =
      if not (eq (get decoded (text "schema")) (str statement_schema))
      then refused v (text "statement-schema-mismatch")
      else if not (eq (get decoded (text "organ")) v.organ)
          || not (eq (get decoded (text "keyid")) (str expected_keyid))
      then refused v (text "signed-witness-identity-mismatch")
      else let ah_match = eq (get decoded (text "action_hash")) action_hash in
        let said = get decoded (text "verdict") in
        record {
          organ = v.organ;
          keyid = v.keyid;
          valid = true;
          verdict = said;
          action_hash_match = ah_match;
          counts = ah_match && eq said (str (text "allow"));
          reason = text "";
        }

  unfoldable pub check_statement : OrganVerdict → Text → Value → Value → OrganCheck
  check_statement v expected_keyid action_hash (obj decoded) =
      check_fields v expected_keyid action_hash decoded
  check_statement v expected_keyid action_hash _ = refused v (text "statement-schema-mismatch")

  -- the `try` block of `verify_verdict`
  unfoldable pub verify_signed : OrganVerdict → Text → Value → Value → Result OrganCheck
  verify_signed v expected_keyid public_key_pem action_hash = do
    body ← b64decode v.payload_b64
    to_verify ← pae v.payload_type body
    pem ← encode public_key_pem
    public ← H.load_public pem
    sig ← b64decode v.signature_b64
    good ← H.verify public sig to_verify
    if not good
        then ok (refused v (text "signature mismatch"))
        else do decoded ← H.loads body; ok (check_statement v expected_keyid action_hash decoded)

  -- its `except Exception`
  unfoldable pub caught : OrganVerdict → Result OrganCheck → OrganCheck
  caught v (ok c) = c
  caught v (err e) = refused v (H.describe e)

  unfoldable pub verify_verdict : OrganVerdict → Value → Value → OrganCheck
  verify_verdict v public_key_pem action_hash =
      let expected_keyid = keyid_of H v.organ in
      if not (truthy v.payload_b64) || not (truthy v.signature_b64)
      then refused v (text "missing payload/signature")
      else if not (eq v.payload_type (str organ_verdict_payload_type))
      then refused v (text "payload-type-mismatch")
      else if not (truthy v.organ) || not (eq v.keyid (str expected_keyid))
      then refused v (text "witness-identity-mismatch")
      else caught v (verify_signed v expected_keyid public_key_pem action_hash)
