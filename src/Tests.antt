-- ===== src/Tests.antt =====
-- Concrete inputs for the tests: a host whose signatures, digests and JSON are small functions.
pub mod Core
pub mod Receipts
pub mod Harness
pub mod Attacks
pub mod Attested
pub mod Simulation
pub mod Suite
pub mod Scanned
pub mod Released
pub mod Live
pub mod Evaluation
use khipu_consensus.Prelude.{
  ℕ, ◌+◌, ◌%◌, ◌≡◌, refl, Bool, true, false, List, [], ◌∷◌, ◌++◌, length, ◌==◌, if◌then◌else◌, Text,
  Bytes, text, decimal, arith, All, Bool-cases, inl, inr,
}
use khipu_consensus.Prelude.Texts.{text_eq}
use khipu_consensus.Python.Value.{
  Value, null, str, arr, obj, item_list, Fields, end, field, get, find, eq, is_str, nat,
  eq-is_str_refl, truthy,
}
use khipu_consensus.Python.Dict.{Dict}
use khipu_consensus.Python.Error.{Error, Result, ok, err, ok-injective, json_decode_error}
use khipu_consensus.Python.Utf8.{utf8}
use khipu_consensus.Python.Base64.{b64encode}
use khipu_consensus.Python.Host.{Host, encode}
use khipu_consensus.Verdict.{
  Moment, OrganVerdict, canonical_json, statement, keyid_of, statement_schema, sign_verdict,
}
use khipu_consensus.Verdict.Signing.{ReadsBack, IsKeyPair}
use khipu_consensus.Registry.{Witness, WitnessRegistry}
use khipu_consensus.Tally.{Item, row}
use khipu_consensus.Policy.{Policy}

-- the first character of a text
abbrev first : Value → ℕ
first (str (c ∷ s)) = c
first _ = 63

abbrev pub mark : Bytes → ℕ
mark [] = 1
mark (c ∷ b) = c % 256

abbrev pub signature_of : Bytes → Bytes → Bytes
signature_of key message = mark key ∷ length message % 256 ∷ []

abbrev word : ℕ → Text
word c = if c == 97 then text "allow" else text "block"

-- A statement is read back from its organ, its action and the first letter of its verdict.
abbrev pub spoken : ℕ → ℕ → ℕ → Fields
spoken o a x = field (text "schema") (str statement_schema) (
    field (text "organ") (str (o ∷ [])) (
      field (text "keyid") (str (o ∷ text "-cosign")) (
        field (text "action_hash") (str (a ∷ [])) (
          field (text "verdict") (str (word x)) (
            field (text "reason") (str (text "")) (
              field (text "lean_sha") (str (text "")) (field (text "ts") (str (text "t")) end)))))))

abbrev pub read_spoken : Bytes → Result Value
read_spoken (o ∷ a ∷ x ∷ []) = ok (obj (spoken o a x))
read_spoken _ = err json_decode_error

abbrev write_spoken : Value → Text
write_spoken (obj f) =
    first (get f (text "organ"))
    ∷ first (get f (text "action_hash"))
    ∷ first (get f (text "verdict"))
    ∷ []
write_spoken _ = text "0"

abbrev pub toy : Host
toy = record {
  PublicKey = Bytes;
  PrivateKey = Bytes;
  load_public = λ b. ok b;
  load_private = λ b. ok b;
  sign = λ key draw message. ok (signature_of key message);
  verify = λ key sig message. ok (text_eq sig (signature_of key message));
  sha256 = λ b. decimal (length b);
  dumps = λ v. ok (write_spoken v);
  loads = read_spoken;
  repr = λ v. text "?";
  describe = λ e. text "error";
}

abbrev pub action : Value
action = str (text "x")

abbrev pub moment : Moment
moment = record { draw = 7; now = text "t" }

abbrev pub moments : Value → Moment
moments o = moment

abbrev witness_with : Text → Text → Witness
witness_with organ key = record {
  organ = str organ;
  public_key_pem = str key;
  region = str (text "unknown");
  org = str (text "unknown");
  endpoint = str (text "");
  private_key_pem = str key;
}

abbrev pub two_keys : Dict Value
two_keys = (str (text "s"), str (text "K")) ∷ (str (text "u"), str (text "L")) ∷ []

abbrev pub two_witnesses : WitnessRegistry
two_witnesses = record {
  witnesses =
      (str (text "s"), witness_with (text "s") (text "K"))
      ∷ (str (text "u"), witness_with (text "u") (text "L"))
      ∷ [];
  threshold = nat 2;
}

-- the rows that the two witnesses sign
abbrev row_body : Text → Bytes
row_body o = o ++ text "xa"

abbrev pub row_of : Text → Bytes → Fields
row_of organ sig = field (text "organ") (str organ) (
    field (text "keyid") (str (organ ++ text "-cosign")) (
      field (text "payloadType") (str (text "application/vnd.szl.khipu.organ-verdict+json")) (
        field (text "payload") (str (b64encode (row_body organ))) (
          field (text "signature") (str (b64encode sig)) (
            field (text "verdict") (str (text "allow"))
              (field (text "reason") (str (text "")) end))))))

abbrev pub row_s : Fields
row_s = row_of (text "s") (75 ∷ 60 ∷ [])

abbrev pub row_u : Fields
row_u = row_of (text "u") (76 ∷ 60 ∷ [])

abbrev pub two_rows : List Item
two_rows = row row_s ∷ row row_u ∷ []

abbrev public_of : Text → Text → Value
public_of organ key =
    obj (field (text "organ") (str organ) (field (text "public_key_pem") (str key) end))

abbrev pub two_signatures : List Value
two_signatures = obj row_s ∷ obj row_u ∷ []

abbrev pub receipt_saying : Text → Fields
receipt_saying decision = field (text "schema") (str (text "szl.khipu.multi-witness-receipt/v1")) (
    field (text "action_hash") action (
      field (text "threshold") (nat 2) (
        field (text "n") (nat 2) (
          field (text "decision") (str decision) (
            field (text "signatures") (arr (item_list two_signatures)) (
              field (text "witnesses")
                (arr (
                  item_list
                    (public_of (text "s") (text "K") ∷ public_of (text "u") (text "L") ∷ [])))
                end))))))

abbrev pub two_receipt : Fields
two_receipt = receipt_saying (text "canonical")

abbrev pub two_policy : Policy
two_policy = record { trusted_pubkeys = two_keys; trusted_threshold = nat 2; trusted_n = 2 }

abbrev policy_file : Fields
policy_file = field (text "threshold") (nat 2) (
    field (text "witnesses")
      (arr (item_list (public_of (text "s") (text "K") ∷ public_of (text "u") (text "L") ∷ [])))
      end)

-- the receipt at the path `r`, and the policy at any other
abbrev pub two_files : Text → Result Value
two_files path = if text_eq path (text "r") then ok (obj two_receipt) else ok (obj policy_file)
