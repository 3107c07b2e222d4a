-- ===== src/Adversary/Suite/Scenarios.antt =====
-- The scenarios of the battery: that they are decided, and safely.
use khipu_consensus.Prelude.{◌≡◌, refl, ◌∙◌, true, List, All, Text, text, ℤ}
use khipu_consensus.Python.Value.{Value, int}
use khipu_consensus.Python.Dict.{Dict}
use khipu_consensus.Python.Error.{ok, >>=-total}
use khipu_consensus.Python.Host.{Host}
use khipu_consensus.Tally.{Item, valid_quorum_counts}
use khipu_consensus.Tally.Rows.{tally_total}
use khipu_consensus.Adversary.Hardened.{distinct_witness_tally-tally}
use khipu_consensus.Adversary.Oracle.{safety_holds-tally, honest_allow_count_total}
use khipu_consensus.Adversary.Naive.Apart.{naive_total, safety_holds-naive_total}
use khipu_consensus.Adversary.Scenario.{Scenario, scenario, scenario_is_safe, safety_holds-hardened}
use khipu_consensus.Adversary.Battery.Rounds.{IsNamed, All-HasHash}

-- The shipped and the hardened tally are safe in a scenario.
abbrev pub IsSafe : Scenario → Type 0
IsSafe s = (s.core_safe ≡ true) × (s.hardened_safe ≡ true)

module _ (H : Host) (action_hash : Value) (pubkeys : Dict Value) where
  decided :
      (name attack description : Text) (is : List Item) (t : ℤ) (n : Value)
      → All IsNamed is
      → valid_quorum_counts (int t) n ≡ true
      → (s : Scenario) × (scenario H action_hash pubkeys name attack description is (int t) n
          ≡ ok s)
  unfolding scenario
  decided name attack description is t n named q =
      let hashed = All-HasHash is named in
      let (naive, naive_e) = naive_total H action_hash pubkeys is t n name named in
      let (core, core_e) = tally_total H action_hash pubkeys is (int t) n hashed in
      let hard_e = distinct_witness_tally-tally H action_hash pubkeys is (int t) n q ∙ core_e in
      let (safe, safe_e) =
        safety_holds-naive_total H action_hash pubkeys is t n (text "naive_perverdict_tally")
          named in
      let core_s = safety_holds-tally H action_hash pubkeys is (int t) n (text "tally") hashed in
      let hard_s =
        safety_holds-hardened H action_hash pubkeys is (int t) n (text "distinct_witness_tally")
          hashed q in
      let (honest, honest_e) = honest_allow_count_total H action_hash pubkeys is hashed in
      >>=-total _ _ naive_e (
        >>=-total _ _ core_e (
          >>=-total _ _ hard_e (
            >>=-total _ _ safe_e
              (>>=-total _ _ core_s (>>=-total _ _ hard_s (>>=-total _ _ honest_e (_, refl)))))))

  -- A scenario of named witnesses with valid quorum counts is decided, and safely.
  pub scenario_total :
      (name attack description : Text) (is : List Item) (t : ℤ) (n : Value)
      → All IsNamed is
      → valid_quorum_counts (int t) n ≡ true
      → (s : Scenario) × (scenario H action_hash pubkeys name attack description is (int t) n
          ≡ ok s)
        × IsSafe s
  scenario_total name attack description is t n named q =
      let hashed = All-HasHash is named in
      let (s, ran) = decided name attack description is t n named q in
      let (core, hard, same) =
        scenario_is_safe H action_hash pubkeys name attack description is (int t) n s hashed q
          ran in
      (s, ran, (core, hard))
