-- ===== src/Adversary/Scenario.antt =====
-- python/khipu_consensus/adversary.py: one scenario, decided by the three tallies.
use khipu_consensus.Prelude.{ℕ, ◌≡◌, ap, sym, ◌∙◌, Bool, true, List, if◌then◌else◌, Text, text, All}
use khipu_consensus.Python.Value.{Value}
use khipu_consensus.Python.Dict.{Dict}
use khipu_consensus.Python.Error.{Result, ok, ◌>>=◌, >>=-eq-ok, ok-injective}
use khipu_consensus.Python.Host.{Host}
use khipu_consensus.Tally.{Decision, ConsensusResult, Item, tally, valid_quorum_counts}
use khipu_consensus.Tally.Rows.{HasHash}
use khipu_consensus.Adversary.{
  TallyFn, honest_allow_count, safety_holds, distinct_witness_tally, naive_perverdict_tally,
}
use khipu_consensus.Adversary.Oracle.{safety_holds-tally}
use khipu_consensus.Adversary.Hardened.{distinct_witness_tally-tally}

pub record Scenario : Type 0 where
  pub name : Text
  pub attack : Text
  pub description : Text
  pub honest_distinct_allow : ℕ
  pub threshold : Value
  pub n : Value
  pub naive_decision : Decision
  pub core_decision : Decision
  pub hardened_decision : Decision
  pub naive_safe : Bool
  pub core_safe : Bool
  pub hardened_safe : Bool
  pub note : Text

module _ (H : Host) (action_hash : Value) (pubkeys : Dict Value) where
  abbrev naive_fn : TallyFn
  naive_fn = naive_perverdict_tally H action_hash pubkeys

  abbrev core_fn : TallyFn
  core_fn = tally H action_hash pubkeys

  abbrev hardened_fn : TallyFn
  hardened_fn = distinct_witness_tally H action_hash pubkeys

  unfoldable pub scenario :
      (name attack description : Text) → List Item → (threshold n : Value) → Result Scenario
  scenario name attack description verdicts threshold n = do
    naive ← naive_fn verdicts threshold n
    core ← core_fn verdicts threshold n
    hard ← hardened_fn verdicts threshold n
    (naive_ok, naive_detail) ←
        safety_holds H action_hash pubkeys verdicts threshold n (text "naive_perverdict_tally")
          naive_fn
    (core_ok, core_detail) ←
        safety_holds H action_hash pubkeys verdicts threshold n (text "tally") core_fn
    (hard_ok, hard_detail) ←
        safety_holds H action_hash pubkeys verdicts threshold n (text "distinct_witness_tally")
          hardened_fn
    honest ← honest_allow_count H action_hash pubkeys verdicts
    ok (record {
      name = name;
      attack = attack;
      description = description;
      honest_distinct_allow = honest;
      threshold = threshold;
      n = n;
      naive_decision = naive.decision;
      core_decision = core.decision;
      hardened_decision = hard.decision;
      naive_safe = naive_ok;
      core_safe = core_ok;
      hardened_safe = hard_ok;
      note = if naive_ok then text "" else naive_detail;
    })

  pub safety_holds-hardened :
      (is : List Item) (threshold n : Value) (name : Text)
      → All HasHash is
      → valid_quorum_counts threshold n ≡ true
      → safety_holds H action_hash pubkeys is threshold n name hardened_fn ≡ ok (true, text "ok")
  unfolding safety_holds
  safety_holds-hardened is threshold n name h q =
      rw (distinct_witness_tally-tally H action_hash pubkeys is threshold n q)
        (safety_holds-tally H action_hash pubkeys is threshold n name h)

  -- A scenario with valid quorum counts that returns finds the shipped and the hardened tally
  -- safe and of the same decision, whatever the verdicts, as long as their organs have a hash.
  pub scenario_is_safe :
      (name attack description : Text) (is : List Item) (threshold n : Value) (s : Scenario)
      → All HasHash is
      → valid_quorum_counts threshold n ≡ true
      → scenario name attack description is threshold n ≡ ok s
      → (s.core_safe ≡ true) × (s.hardened_safe ≡ true) × (s.core_decision ≡ s.hardened_decision)
  unfolding scenario
  scenario_is_safe name attack description is threshold n s h q ran =
      let (naive, _, h1) = >>=-eq-ok (naive_fn is threshold n) _ ran in
      let (core, core_e, h2) = >>=-eq-ok (core_fn is threshold n) _ h1 in
      let (hard, hard_e, h3) = >>=-eq-ok (hardened_fn is threshold n) _ h2 in
      let (naive_pair, _, h4) =
        >>=-eq-ok (safety_holds H action_hash pubkeys is threshold n _ naive_fn) _ h3 in
      let (core_pair, core_s, h5) =
        >>=-eq-ok (safety_holds H action_hash pubkeys is threshold n _ core_fn) _ h4 in
      let (hard_pair, hard_s, h6) =
        >>=-eq-ok (safety_holds H action_hash pubkeys is threshold n _ hardened_fn) _ h5 in
      let (honest, _, h7) = >>=-eq-ok (honest_allow_count H action_hash pubkeys is) _ h6 in
      let e = ok-injective h7 in
      let core_good =
        ok-injective (sym core_s ∙ safety_holds-tally H action_hash pubkeys is threshold n _ h) in
      let hard_good = ok-injective (sym hard_s ∙ safety_holds-hardened is threshold n _ h q) in
      let same : core ≡ hard = ok-injective (
        sym core_e
        ∙ sym (distinct_witness_tally-tally H action_hash pubkeys is threshold n q)
        ∙ hard_e) in
      (
        sym (ap (λ (x : Scenario). x.core_safe) e) ∙ ap (λ (x : Bool × Text). x.0) core_good,
        sym (ap (λ (x : Scenario). x.hardened_safe) e) ∙ ap (λ (x : Bool × Text). x.0) hard_good,
        sym (ap (λ (x : Scenario). x.core_decision) e)
            ∙ ap (λ (x : ConsensusResult). x.decision) same
            ∙ ap (λ (x : Scenario). x.hardened_decision) e,
      )
