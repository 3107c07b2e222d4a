-- ===== src/Tests/Simulation.antt =====
-- The theorems on the spine and the simulation, at concrete inputs.
use khipu_consensus.Prelude.{
  ◌≡◌, refl, true, false, some, List, [], ◌∷◌, ◌++◌, Text, text, length, arith, if◌then◌else◌, pos,
  ◌==◌,
}
use khipu_consensus.Prelude.Texts.{text_eq}
use khipu_consensus.Python.Value.{
  Value, null, int, str, obj, Fields, end, field, find, get, put, eq, nat,
}
use khipu_consensus.Python.Error.{ok}
use khipu_consensus.Python.Utf8.{utf8}
use khipu_consensus.Python.Base64.{b64decode, decode_from, sextet}
use khipu_consensus.Collusion.{Tools, Campaign, run_campaign, hash_of, canon, payload_for}
use khipu_consensus.Collusion.Lane.{campaigns, lane_holds}
use khipu_consensus.Collusion.Outcomes.{
  Distinguishes, IsExpected, run_campaign_outcomes, lane_holds_always,
}
use khipu_consensus.Spine.{
  SzlReceipt, Reader, dict, digest, as_dict, require_szl_receipt, consensus_input, consensus_output,
  consensus_input_digest, consensus_output_digest, signed_body, rebind, rebind_body, rebind_output,
  verify_consensus_receipt, counting_witnesses,
}
use khipu_consensus.Spine.Rebind.{rebind_decides}
use khipu_consensus.Spine.Counted.{attest-counting_witnesses}
use khipu_consensus.Receipt.{to_dict}
use khipu_consensus.Tests.{toy, action, moments, two_witnesses, two_receipt, receipt_saying}
use khipu_consensus.Tests.Evaluation.{attested}

attest-counting_witnesses_example :
    (ws : List Value) × (counting_witnesses (to_dict attested.0) ≡ ok ws)
    × (length ws ≡ attested.0.consensus_count)
attest-counting_witnesses_example =
    attest-counting_witnesses toy action two_witnesses end (str (text "")) (str (text "")) moments
      attested.0 attested.1

-- the text of a value
abbrev spelled : Value → Text
spelled (str s) = s
spelled v = text "x"

-- A package whose digest is the decision, or `x` where there is none.
abbrev installed : SzlReceipt
installed = record {
  digest = λ kind f. ok (spelled (get f (text "decision")));
  sign_receipt = λ kind f key organ keyid. ok f;
  verify_receipt = λ envelope key. ok (true, text "ok");
}

abbrev reader : Reader
reader = record {
  loads = λ b. ok (
      obj (
        field (text "input_digest") (str (text "x"))
          (field (text "output_digest") (str (text "canonical")) end)));
  describe = λ e. text "error";
}

abbrev envelope : Fields
envelope = field (text "payload") (str (text "")) end

rebound :
    verify_consensus_receipt (some installed) reader envelope null (some (dict two_receipt))
    ≡ ok (true, text "ok")
unfolding verify_consensus_receipt require_szl_receipt rebind rebind_body rebind_output signed_body
    consensus_input_digest consensus_output_digest digest consensus_input consensus_output as_dict
    find text_eq b64decode decode_from sextet eq
rebound = refl

digests :
    (decision : Text)
    → (consensus_input_digest (some installed) (dict (receipt_saying decision)) ≡ ok (text "x"))
      × (consensus_output_digest (some installed) (dict (receipt_saying decision)) ≡ ok decision)
unfolding require_szl_receipt consensus_input_digest consensus_output_digest digest consensus_input
    consensus_output as_dict find text_eq
digests decision = (refl, refl)

-- the same envelope with the decision of its receipt edited
rebind_decides_example :
    verify_consensus_receipt
      (some installed)
      reader
      envelope
      null
      (some (dict (receipt_saying (text "rejected"))))
    ≡ ok (false, text "output-digest-rebind-mismatch")
unfolding text_eq
rebind_decides_example =
    rebind_decides (some installed) reader envelope null (dict two_receipt)
      (dict (receipt_saying (text "rejected"))) (text "ok") (text "x") (text "canonical") (text "x")
      (text "rejected") rebound (digests (text "canonical")).0 (digests (text "canonical")).1
      (digests (text "rejected")).0 (digests (text "rejected")).1

-- the amount of a payload
abbrev amount_of : Value → Text
amount_of (int (pos n)) = if n == 1 then text "1" else text "100"
amount_of v = text ""

abbrev amount_text : Value → Text
amount_text (obj f) = amount_of (get f (text "amount"))
amount_text v = text ""

abbrev tools : Tools
tools = record {
  dumps = amount_text;
  hmac = λ key b. key ++ b;
  sha256 = λ b. b;
  times = λ m k n. ok null;
}

tools-Distinguishes : Distinguishes tools (nat 1337)
unfolding hash_of canon payload_for find put text_eq utf8
tools-Distinguishes = record {
  committed = text "1";
  presented = text "100";
  committed_bytes = text "1";
  presented_bytes = text "100";
  hashes = refl;
  hashes_tampered = refl;
  encodes = refl;
  encodes_tampered = refl;
  differ = refl;
}

run_campaign_outcomes_example :
    (c : Campaign) × (run_campaign tools (λ i. i ∷ []) (nat 3) (nat 2) (nat 1337) ≡ ok c)
    × IsExpected 3 2 c
run_campaign_outcomes_example =
    run_campaign_outcomes tools (nat 1337) tools-Distinguishes (λ i. i ∷ []) 3 2 (omega arith)
      (omega arith)

lane_holds_always_example :
    (cs : List Campaign) × (campaigns tools
        (λ k i. k ∷ i ∷ [])
        (0 ∷ 1 ∷ 2 ∷ 3 ∷ 4 ∷ [])
        (nat 2)
        (nat 1337)
      ≡ ok cs)
    × (lane_holds tools cs 2 ≡ ok true)
lane_holds_always_example =
    lane_holds_always tools (nat 1337) tools-Distinguishes (λ k i. k ∷ i ∷ []) 2 (omega arith)
