-- ===== src/Tests/Suite.antt =====
-- A run of the adversarial harness, at concrete draws.
use khipu_consensus.Prelude.{◌≡◌, refl, true, [], ◌∷◌, Bytes, text, arith, pos}
use khipu_consensus.Prelude.Texts.{text_eq}
use khipu_consensus.Python.Value.{Value, str, obj, end, find, put, int, nat}
use khipu_consensus.Python.Error.{Result, ok}
use khipu_consensus.Python.Utf8.{utf8}
use khipu_consensus.Python.Host.{encode}
use khipu_consensus.Verdict.{canonical_json, statement}
use khipu_consensus.Tally.{valid_quorum_counts}
use khipu_consensus.Verdict.Total.{IsSigner}
use khipu_consensus.Adversary.Battery.{Sources, allows}
use khipu_consensus.Adversary.Battery.Total.{Speaks}
use khipu_consensus.Adversary.Suite.{default_organs, main, run_adversarial_suite, Report}
use khipu_consensus.Adversary.Suite.Ready.{IsEquipped}
use khipu_consensus.Adversary.Suite.Verdict.{
  IsClean, Apart-AreDistinct, default_organs-Apart, run_adversarial_suite-IsClean, main_exits_0,
}
use khipu_consensus.Tests.{toy, moment, signature_of}

-- Everyone draws the same key, and every verdict allows; each round has two copies.
abbrev plain : Sources
plain = record {
  keypair = λ i. (str (text "K"), str (text "K"));
  attacker = (str (text "L"), str (text "L"));
  moment = λ r i. moment;
  urandom = λ r i. 7 ∷ [];
  choice = λ r i. allows;
  stuffs = λ r. true;
  victim = λ r. 0;
  copies = λ r. 1;
  exchange = λ r i. 0;
}

abbrev read_any : Bytes → Result Value
read_any b = ok (obj end)

pub signer : IsSigner toy (str (text "K"))
unfolding encode utf8
signer = record {
  bytes = text "K";
  key = text "K";
  encodes = refl;
  loads = refl;
  signs = λ draw message. (signature_of (text "K") message, refl);
}

attacking : IsSigner toy (str (text "L"))
unfolding encode utf8
attacking = record {
  bytes = text "L";
  key = text "L";
  encodes = refl;
  loads = refl;
  signs = λ draw message. (signature_of (text "L") message, refl);
}

sentra-Speaks : Speaks toy read_any (text "sentra")
unfolding canonical_json statement find put text_eq utf8
sentra-Speaks = record {
  allows_a = record { body = _; writes = refl; are_bytes = omega arith };
  blocks_a = record { body = _; writes = refl; are_bytes = omega arith };
  allows_b = record { body = _; writes = refl; are_bytes = omega arith };
  read_back = end;
  reads = refl;
  edited = _;
  writes_edited = refl;
}

amaru-Speaks : Speaks toy read_any (text "amaru")
unfolding canonical_json statement find put text_eq utf8
amaru-Speaks = record {
  allows_a = record { body = _; writes = refl; are_bytes = omega arith };
  blocks_a = record { body = _; writes = refl; are_bytes = omega arith };
  allows_b = record { body = _; writes = refl; are_bytes = omega arith };
  read_back = end;
  reads = refl;
  edited = _;
  writes_edited = refl;
}

a11oy-Speaks : Speaks toy read_any (text "a11oy")
unfolding canonical_json statement find put text_eq utf8
a11oy-Speaks = record {
  allows_a = record { body = _; writes = refl; are_bytes = omega arith };
  blocks_a = record { body = _; writes = refl; are_bytes = omega arith };
  allows_b = record { body = _; writes = refl; are_bytes = omega arith };
  read_back = end;
  reads = refl;
  edited = _;
  writes_edited = refl;
}

killinchu-Speaks : Speaks toy read_any (text "killinchu")
unfolding canonical_json statement find put text_eq utf8
killinchu-Speaks = record {
  allows_a = record { body = _; writes = refl; are_bytes = omega arith };
  blocks_a = record { body = _; writes = refl; are_bytes = omega arith };
  allows_b = record { body = _; writes = refl; are_bytes = omega arith };
  read_back = end;
  reads = refl;
  edited = _;
  writes_edited = refl;
}

plain-IsEquipped : IsEquipped toy read_any plain default_organs
plain-IsEquipped = record {
  signers = λ i. signer;
  attacker = attacking;
  speak = (sentra-Speaks, (amaru-Speaks, (a11oy-Speaks, (killinchu-Speaks, tt))));
}

four_organs_valid : valid_quorum_counts (int (pos 3)) (nat 4) ≡ true
unfolding valid_quorum_counts
four_organs_valid = refl

run_adversarial_suite-IsClean_example :
    (r : Report) × (run_adversarial_suite toy read_any plain default_organs (pos 3) 5 ≡ ok r)
    × IsClean r.summary
run_adversarial_suite-IsClean_example =
    run_adversarial_suite-IsClean toy read_any plain default_organs (pos 3) 5 plain-IsEquipped
      (Apart-AreDistinct default_organs default_organs-Apart) (omega arith) four_organs_valid

main_exits_0_example : main toy read_any plain 200 ≡ ok 0
main_exits_0_example = main_exits_0 toy read_any plain 200 plain-IsEquipped
