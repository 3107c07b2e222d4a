-- ===== src/Tests/Live.antt =====
-- An attestation by one witness that signs and one that is silent.
use khipu_consensus.Prelude.{◌≤◌, ◌≡◌, ◌↔◌, refl, true, inl, inr, [], ◌∷◌, text, All, count, arith}
use khipu_consensus.Prelude.Texts.{text_eq, is_blank}
use khipu_consensus.Python.Value.{str, null, nat, end, eq, find}
use khipu_consensus.Python.Dict.{lookup, insert}
use khipu_consensus.Python.Error.{ok}
use khipu_consensus.Python.Utf8.{utf8}
use khipu_consensus.Verdict.{canonical_json, statement}
use khipu_consensus.Tally.{canonical, valid_quorum_counts}
use khipu_consensus.Registry.{Witness, WitnessRegistry, can_sign, all, n}
use khipu_consensus.Registry.Fleet.{IsFleet}
use khipu_consensus.Receipt.{MultiWitnessReceipt, attest}
use khipu_consensus.Receipt.Answers.{IsAble, IsCorrect, willing}
use khipu_consensus.Receipt.Live.{attest_is_live}
use khipu_consensus.Tests.{toy, moments}
use khipu_consensus.Tests.Evaluation.{toy-IsKeyPair, said-ReadsBack}
use khipu_consensus.Tests.Suite.{signer}

abbrev signing : Witness
signing = record {
  organ = str (text "s");
  public_key_pem = str (text "K");
  region = str (text "unknown");
  org = str (text "unknown");
  endpoint = str (text "");
  private_key_pem = str (text "K");
}

abbrev silent : Witness
silent = record signing { organ = str (text "u"); private_key_pem = null }

abbrev half_silent : WitnessRegistry
half_silent = record {
  witnesses = (str (text "s"), signing) ∷ (str (text "u"), silent) ∷ [];
  threshold = nat 1;
}

utf8_120 : utf8 (115 ∷ 120 ∷ 97 ∷ []) ≡ ok (115 ∷ 120 ∷ 97 ∷ [])
unfolding utf8
utf8_120 = refl

signing-IsAble : IsAble toy (text "x") end (str (text "")) (str (text "")) moments signing
unfolding canonical_json statement find text_eq utf8 lookup
signing-IsAble = record {
  o = text "s";
  x = text "allow";
  organ = refl;
  says = refl;
  named = refl;
  pair = toy-IsKeyPair;
  signer = signer;
  back = said-ReadsBack 120 utf8_120 (omega arith);
  body = _;
  writes = refl;
}

half_silent-IsFleet : IsFleet [] (all half_silent)
unfolding all lookup insert eq text_eq is_blank
half_silent-IsFleet = (refl, refl, refl, (refl, refl, refl, tt))

half_silent-IsCorrect :
    All (IsCorrect toy (text "x") end (str (text "")) (str (text "")) moments) (all half_silent)
unfolding all can_sign
half_silent-IsCorrect = (inr signing-IsAble, (inl refl, tt))

one_of_two : valid_quorum_counts (nat 1) (nat (n half_silent)) ≡ true
unfolding valid_quorum_counts n
one_of_two = refl

attest_is_live_example :
    (r : MultiWitnessReceipt) × (attest toy
        (str (text "x"))
        half_silent
        end
        (str (text ""))
        (str (text ""))
        moments
      ≡ ok r)
    × (r.consensus_count ≡ count (willing end) (all half_silent))
    × ((r.decision ≡ canonical) ↔ (1 ≤ count (willing end) (all half_silent)))
attest_is_live_example =
    attest_is_live toy (text "x") half_silent end (str (text "")) (str (text "")) moments 1 refl
      one_of_two half_silent-IsFleet half_silent-IsCorrect
