-- ===== src/Collusion/Lane.antt =====
-- python/khipu_consensus/collusion.py: the campaigns of all five numbers of colluders, their
-- verdict, and the lane's record.
use khipu_consensus.Prelude.{
  ℕ, zero, suc, Bool, true, false, ◌&&◌, List, [], ◌∷◌, all, map, ◌==◌, if◌then◌else◌, Text, Bytes,
  text, pos,
}
use khipu_consensus.Python.Value.{
  Value, bool, int, str, arr, obj, item_list, Fields, end, field, put, nat,
}
use khipu_consensus.Python.Error.{Result, ok, err, index_error, ◌>>=◌}
use khipu_consensus.Collusion.{Tools, Campaign, run_campaign, hash_of}

module _ (T : Tools) where
  unfoldable pub campaigns :
      (ℕ → ℕ → Bytes) → List ℕ → (rounds seed : Value) → Result (List Campaign)
  unfolding run_campaign
  campaigns keys [] rounds seed = ok []
  campaigns keys (k ∷ ks) rounds seed = do
    c ← run_campaign T (keys k) (nat k) rounds seed
    cs ← campaigns keys ks rounds seed
    ok (c ∷ cs)

  -- `s[i]`
  abbrev pub at : List Campaign → ℕ → Result Campaign
  at [] i = err index_error
  at (c ∷ cs) zero = ok c
  at (c ∷ cs) (suc i) = at cs i

  -- `s[1:3]`
  abbrev second_and_third : List Campaign → List Campaign
  second_and_third (_ ∷ a ∷ b ∷ _) = a ∷ b ∷ []
  second_and_third (_ ∷ a ∷ []) = a ∷ []
  second_and_third _ = []

  abbrev all_repelled : Campaign → Bool
  all_repelled c = c.repelled_count == c.rounds

  -- `_verdict`: whether the lane holds or is inconclusive
  unfoldable pub lane_holds : List Campaign → ℕ → Result Bool
  lane_holds spectrum rounds =
      let repel_ok = all all_repelled (second_and_third spectrum) in
      do
        three ← at spectrum 3
        catch_ok ←
            if three.caught_count == rounds
            then (do four ← at spectrum 4; ok (four.caught_count == rounds))
            else ok false
        ok (repel_ok && catch_ok)

  abbrev holds_text : Text
  holds_text =
      text
        "BFT holds below quorum; at and above quorum the committed-hash chain catches every tamper. DESIGN REQUIREMENT: khipu verdicts must always be paired with tamper-evident receipt verification — witnesses alone breach."

  abbrev verdict_text : Bool → Text
  verdict_text true = holds_text
  verdict_text false = text "INCONCLUSIVE"

  unfoldable campaign_object : Campaign → Fields
  campaign_object c = field (text "colluders") (nat c.colluders) (
      field (text "rounds") (nat c.rounds) (
        field (text "repelled") (nat c.repelled_count) (
          field (text "quorum_breach_chain_caught") (nat c.caught_count)
            (field (text "passed_honest") (nat c.passed_count) end))))

  abbrev spectrum_value : List Campaign → Value
  spectrum_value cs = arr (item_list (map (λ (c : Campaign). obj (campaign_object c)) cs))

  unfoldable lane_object : List Campaign → Bool → Fields
  lane_object spectrum holds = field (text "schema") (str (text "szl.khipu-collusion/v1")) (
      field (text "state") (str (text "MEASURED")) (
        field (text "quorum_model")
          (str (text "3-of-4 BFT (HMAC stand-in for ECDSA-P256 witness keys)"))
          (field (text "spectrum") (spectrum_value spectrum) (
            field (text "verdict") (str (verdict_text holds)) (
              field (text "simulation") (bool true) (
                field (text "signature_stand_in") (str (text "HMAC-SHA256"))
                  (field (text "not_production_crypto") (bool true) end)))))))

  -- `rounds` of the five campaigns, once it has been checked
  abbrev rounds_of : Value → ℕ
  rounds_of (int (pos n)) = n
  rounds_of _ = 0

  unfoldable full_lane : (ℕ → ℕ → Bytes) → (seed rounds : Value) → Result Fields
  unfolding campaigns lane_holds
  full_lane keys seed rounds = do
    spectrum ← campaigns keys (0 ∷ 1 ∷ 2 ∷ 3 ∷ 4 ∷ []) rounds seed
    holds ← lane_holds spectrum (rounds_of rounds)
    digest ← hash_of T (obj (lane_object spectrum holds))
    ok (put (text "lane_digest") (str digest) (lane_object spectrum holds))
