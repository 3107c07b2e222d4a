-- ===== src/Receipt/Live.antt =====
-- An attestation by witnesses that are able or silent.
use khipu_consensus.Prelude.{
  ℕ, ◌≤◌, ◌≡◌, refl, ap, ◌∙◌, true, false, List, [], ◌∷◌, ◌↔◌, All, any, count, map, Text, text,
}
use khipu_consensus.Python.Value.{Value, str, nat, Fields}
use khipu_consensus.Python.Dict.{member}
use khipu_consensus.Python.Error.{ok, require, value_error, >>=-gives}
use khipu_consensus.Python.Host.{Host}
use khipu_consensus.Verdict.{Moment}
use khipu_consensus.Tally.{canonical, valid_quorum_counts, tally}
use khipu_consensus.Tally.Rows.{tally_total}
use khipu_consensus.Tally.Count.{vouches, valid_count}
use khipu_consensus.Tally.Outcome.{tally-valid_count}
use khipu_consensus.Registry.{Witness, WitnessRegistry, all, n, pubkeys}
use khipu_consensus.Registry.Fleet.{IsFleet, IsFleet-AreApart}
use khipu_consensus.Registry.Keys.{pubkeys-HasTextKeys}
use khipu_consensus.Receipt.{MultiWitnessReceipt, attest, item_of}
use khipu_consensus.Registry.Entries.{pubkeys_onto-IsFleet, IsFleet-keys, entries-IsTextKey}
use khipu_consensus.Receipt.Answers.{willing, IsCorrect, collect_total, All2-HasHash, count_willing}

none_said :
    (H : Host) (a : Text) (ws : List Witness)
    → All (λ (w : Witness). any (vouches H (str a) (w.organ, w.public_key_pem)) [] ≡ false) ws
none_said H a [] = tt
none_said H a (w ∷ ws) = (refl, none_said H a ws)

module _ (H : Host) (a : Text) (reg : WitnessRegistry) (verdicts : Fields) (reason lean_sha : Value)
    (moments : Value → Moment) (t : ℕ) where
  -- Where every witness has no key or is able to sign what it is asked to say, an attestation
  -- returns, its count is the number of witnesses that can sign and are asked to allow, and it is
  -- canonical exactly if that number reaches the threshold. The quorum counts are valid, and the
  -- witnesses have distinct non-empty names and keys that are not blank. An able witness holds a
  -- private key whose signatures its published key verifies, and JSON reads its statement back.
  pub attest_is_live :
      reg.threshold ≡ nat t
      → valid_quorum_counts (nat t) (nat (n reg)) ≡ true
      → IsFleet [] (all reg)
      → All (IsCorrect H a verdicts reason lean_sha moments) (all reg)
      → (r : MultiWitnessReceipt) × (attest H (str a) reg verdicts reason lean_sha moments ≡ ok r)
        × (r.consensus_count ≡ count (willing verdicts) (all reg))
        × ((r.decision ≡ canonical) ↔ (t ≤ count (willing verdicts) (all reg)))
  unfolding attest pubkeys member
  attest_is_live level valid fleet correct =
      let (vs, collected, answers) =
        collect_total H a verdicts reason lean_sha moments (all reg) correct in
      let hashed = All2-HasHash H a verdicts reason lean_sha moments (all reg) vs answers in
      let (result, tallied) =
        tally_total H (str a) (pubkeys reg) (map item_of vs) (nat t) (nat (n reg)) hashed in
      let (keys, texts) = IsFleet-keys [] (all reg) fleet in
      let exact =
        count_willing H a verdicts reason lean_sha moments (all reg) vs [] [] answers keys texts
          (IsFleet-AreApart [] [] (all reg) (λ v h. refl) fleet) (none_said H a (all reg)) in
      let published = pubkeys_onto-IsFleet [] (all reg) fleet in
      let text_keys = pubkeys-HasTextKeys reg (rw published (entries-IsTextKey (all reg) texts)) in
      let enough : valid_count H (str a) (pubkeys reg) (map item_of vs)
          ≡ count (willing verdicts) (all reg) =
        rw published exact in
      let (counted, (to, back)) =
        tally-valid_count H (str a) (pubkeys reg) (map item_of vs) t (nat (n reg)) result text_keys
          valid tallied in
      let here : tally H (str a) (pubkeys reg) (map item_of vs) reg.threshold (nat (n reg))
          ≡ ok result =
        ap (λ z. tally H (str a) (pubkeys reg) (map item_of vs) z (nat (n reg))) level ∙ tallied in
      let accepted : valid_quorum_counts reg.threshold (nat (n reg)) ≡ true =
        ap (λ z. valid_quorum_counts z (nat (n reg))) level ∙ valid in
      let admitted : require (valid_quorum_counts reg.threshold (nat (n reg)))
            (value_error (text "quorum counts must be integers with 1 <= threshold <= n"))
          ≡ ok tt =
        rw accepted refl in
      let P = λ (r : MultiWitnessReceipt).
        (r.consensus_count ≡ count (willing verdicts) (all reg))
        × ((r.decision ≡ canonical) ↔ (t ≤ count (willing verdicts) (all reg))) in
      let (r, ran, (exactly, decides)) : (r : MultiWitnessReceipt) × (attest H (str a) reg verdicts
              reason lean_sha moments
            ≡ ok r)
          × P r =
        >>=-gives P _ _ admitted (
          >>=-gives P _ _ collected (
            >>=-gives P _ _ here (
              _,
              refl,
              (counted ∙ enough, (λ c. rw (← enough) (to c), λ le. back (rw enough le))),
            ))) in
      (r, ran, exactly, decides)
