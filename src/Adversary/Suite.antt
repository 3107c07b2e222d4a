-- ===== src/Adversary/Suite.antt =====
-- python/khipu_consensus/adversary.py: the battery, the rounds of fuzzing, the report's summary and
-- the exit code of the module's command line.
pub mod Scenarios
pub mod Ready
pub mod Safe
pub mod Fuzz
pub mod Verdict
use khipu_consensus.Prelude.{
  ℕ, zero, suc, ◌+◌, Bool, true, false, not, ◌&&◌, List, [], ◌∷◌, ◌++◌, map, all, count,
  if◌then◌else◌, length, Text, Bytes, text, ◌==◌, ℤ, pos,
}
use khipu_consensus.Python.Value.{Value, str, int, nat, Fields}
use khipu_consensus.Python.Dict.{Dict, values}
use khipu_consensus.Python.Error.{Result, ok, ◌>>=◌}
use khipu_consensus.Python.Host.{Host}
use khipu_consensus.Tally.{Item, row, tally}
use khipu_consensus.Adversary.{
  TallyFn, safety_holds, distinct_witness_tally, naive_perverdict_tally, duplicate_stuffing,
}
use khipu_consensus.Adversary.Attacks.{replay_verdict}
use khipu_consensus.Adversary.Scenario.{Scenario, scenario}
use khipu_consensus.Adversary.Battery.{
  action_a, Move, allows, blocks, silence, forged_signature, impersonation, action_mismatch,
  payload_tamper, replay, Sources, shuffle, keys_onto, pubkeys_from, organ_at, signed, plays, deal,
  stuffing, had_duplicate,
}

-- The violations that the rounds of fuzzing found.
pub record Violations : Type 0 where
  pub naive : ℕ
  pub core : ℕ
  pub hardened : ℕ
  pub naive_had_duplicate : ℕ

abbrev pub no_violations : Violations
no_violations = record { naive = 0; core = 0; hardened = 0; naive_had_duplicate = 0 }

abbrev pub one_unless : Bool → ℕ
one_unless true = 0
one_unless false = 1

-- one more round, safe or not for each tally
unfoldable pub found : (naive_ok core_ok hard_ok had_duplicate : Bool) → Violations → Violations
found naive_ok core_ok hard_ok had w = record {
  naive = w.naive + one_unless naive_ok;
  core = w.core + one_unless core_ok;
  hardened = w.hardened + one_unless hard_ok;
  naive_had_duplicate = w.naive_had_duplicate + (if had then one_unless naive_ok else 0);
}

pub record Summary : Type 0 where
  pub scenarios_total : ℕ
  pub core_all_safe : Bool
  pub hardened_all_safe : Bool
  pub naive_gap_findings : ℕ
  pub fuzz_core_safety_violations : ℕ
  pub fuzz_hardened_safety_violations : ℕ
  pub fuzz_naive_safety_violations : ℕ
  pub fuzz_naive_violations_all_from_duplicate_stuffing : Bool

-- What the report says of this run.
pub record Report : Type 0 where
  pub organs : List Text
  pub threshold : ℤ
  pub n : ℕ
  pub fuzz_rounds : ℕ
  pub scenarios : List Scenario
  pub summary : Summary

abbrev pub default_organs : List Text
default_organs = text "sentra" ∷ text "amaru" ∷ text "a11oy" ∷ text "killinchu" ∷ []

-- the moves of the last two witnesses in the scenarios "... below threshold"
abbrev pub two_honest : List Text → Move → List (Result Text × Move)
two_honest organs move =
    (organ_at organs 0, allows)
    ∷ (organ_at organs 1, allows)
    ∷ (organ_at organs 2, move)
    ∷ (organ_at organs 3, move)
    ∷ []

abbrev pub one_fault : List Text → List (Result Text × Move)
one_fault organs =
    (organ_at organs 0, allows)
    ∷ (organ_at organs 1, allows)
    ∷ (organ_at organs 2, allows)
    ∷ (organ_at organs 3, blocks)
    ∷ []

-- The two silent witnesses are not named.
abbrev pub two_silent : List Text → List (Result Text × Move)
two_silent organs =
    (organ_at organs 0, allows)
    ∷ (organ_at organs 1, allows)
    ∷ (ok (text ""), silence)
    ∷ (ok (text ""), silence)
    ∷ []

module _ (H : Host) (read : Bytes → Result Value) (S : Sources) (organs : List Text)
    (threshold : ℤ) where
  module _ (keys : Dict (Value × Value)) (pubkeys : Dict Value) where
    -- one scenario whose verdicts are played, signed in the given round
    unfoldable pub staged :
        (round : ℕ) → (name attack description : Text) → List (Result Text × Move) → Result Scenario
    staged r name attack description cast = do
      verdicts ← plays H read S keys r 0 cast
      scenario H (str action_a) pubkeys name attack description verdicts (int threshold)
          (nat (length organs))

    unfoldable pub stuffed : (round : ℕ) → Result Scenario
    stuffed r = do
      o ← organ_at organs 0
      d ← signed H read S keys o action_a (text "allow") (S.moment r 0)
      scenario H (str action_a) pubkeys (text "duplicate-stuffing-single-witness")
          (text "duplicate_stuffing_single_witness")
          (text
            "ONE genuine witness's allow resubmitted 3x -> naive per-verdict counting over-counts (false canonical); shipped distinct-witness tally rejects")
          (duplicate_stuffing d 3) (int threshold) (nat (length organs))

    -- the nine scenarios
    unfoldable pub battery : Result (List Scenario)
    battery = do
      happy ←
          staged 0 (text "happy-4-of-4") (text "none")
            (text "four honest witnesses allow the exact action -> canonical")
            (map (λ o. (ok o, allows)) organs)
      one ←
          staged 1 (text "one-fault-tolerated") (text "none")
            (text "three allow + one block -> canonical (tolerates f=1)") (one_fault organs)
      silent ←
          staged 2 (text "two-silent-rejected") (text "silent_witness_abstain")
            (text "two witnesses abstain (>= 2 faults) -> must be rejected (safety)")
            (two_silent organs)
      forged ←
          staged 3 (text "forged-below-threshold") (text "forged_signature")
            (text "two honest allow + two forged (random-sig) allow -> forged never count")
            (two_honest organs forged_signature)
      impersonated ←
          staged 4 (text "impersonation-below-threshold") (text "impersonation_wrong_key")
            (text "two honest allow + two impersonated (attacker-key) allow -> never count")
            (two_honest organs impersonation)
      equivocated ←
          staged 5 (text "equivocation-below-threshold") (text "equivocation_action_mismatch")
            (text "two honest allow + two witnesses sign a DIFFERENT action -> never count")
            (two_honest organs action_mismatch)
      tampered ←
          staged 6 (text "tamper-verdict-flip") (text "payload_tamper_verdict_flip")
            (text "two honest allow + two block verdicts flipped to allow -> signature breaks")
            (two_honest organs payload_tamper)
      replayed ←
          staged 7 (text "replay-other-action") (text "replay_other_action")
            (text
              "two honest allow + two genuine allows replayed from another action -> never count")
            (two_honest organs replay)
      duplicated ← stuffed 8
      ok (
          happy ∷ one ∷ silent ∷ forged ∷ impersonated ∷ equivocated ∷ tampered ∷ replayed
          ∷ duplicated ∷ [])

    abbrev safe_by : Text → TallyFn → List Item → Result (Bool × Text)
    safe_by name tally_fn verdicts =
        safety_holds H (str action_a) pubkeys verdicts (int threshold) (nat (length organs)) name
          tally_fn

    -- The verdicts of a round of fuzzing, and whether a copy was added.
    unfoldable pub fuzz_verdicts : (round : ℕ) → Result (List Item × Bool)
    fuzz_verdicts r = do
      (dealt, used) ← deal H read S keys r 0 organs [] []
      let victims = values used
      ok (shuffle (S.exchange r) (dealt ++ stuffing S r victims), had_duplicate S r victims)

    unfoldable pub fuzz_round : (round : ℕ) → Violations → Result Violations
    fuzz_round r w = do
      (verdicts, had) ← fuzz_verdicts r
      (naive_ok, naive_detail) ←
          safe_by (text "naive_perverdict_tally") (naive_perverdict_tally H (str action_a) pubkeys)
            verdicts
      (core_ok, core_detail) ← safe_by (text "tally") (tally H (str action_a) pubkeys) verdicts
      (hard_ok, hard_detail) ←
          safe_by (text "distinct_witness_tally") (distinct_witness_tally H (str action_a) pubkeys)
            verdicts
      ok (found naive_ok core_ok hard_ok had w)

    -- `for _ in range(fuzz_rounds)`, the rounds numbered after those of the battery
    unfoldable pub fuzz : (rounds round : ℕ) → Violations → Result Violations
    fuzz zero r w = ok w
    fuzz (suc rounds) r w = do v ← fuzz_round r w; fuzz rounds (suc r) v

  unfoldable pub summary_of : List Scenario → Violations → Summary
  summary_of scenarios w = record {
    scenarios_total = length scenarios;
    core_all_safe = all (λ s. s.core_safe) scenarios;
    hardened_all_safe = all (λ s. s.hardened_safe) scenarios;
    naive_gap_findings = count (λ s. not s.naive_safe) scenarios;
    fuzz_core_safety_violations = w.core;
    fuzz_hardened_safety_violations = w.hardened;
    fuzz_naive_safety_violations = w.naive;
    fuzz_naive_violations_all_from_duplicate_stuffing = w.naive == w.naive_had_duplicate;
  }

  unfoldable pub run_adversarial_suite : (fuzz_rounds : ℕ) → Result Report
  run_adversarial_suite fuzz_rounds =
      let keys = keys_onto S 0 [] organs in
      do
        pubkeys ← pubkeys_from keys [] organs
        scenarios ← battery keys pubkeys
        w ← fuzz keys pubkeys fuzz_rounds 9 no_violations
        ok (record {
          organs = organs;
          threshold = threshold;
          n = length organs;
          fuzz_rounds = fuzz_rounds;
          scenarios = scenarios;
          summary = summary_of scenarios w;
        })

-- the test at the end of `_main`
unfoldable pub passes : Summary → Bool
passes s =
    s.core_all_safe
    && s.hardened_all_safe
    && s.fuzz_core_safety_violations == 0
    && s.fuzz_hardened_safety_violations == 0

-- `_main`, whose report is printed and not modelled; the seed chooses the draws
unfoldable pub main : Host → (Bytes → Result Value) → Sources → (fuzz_rounds : ℕ) → Result ℕ
main H read S fuzz_rounds = do
  report ← run_adversarial_suite H read S default_organs (pos 3) fuzz_rounds
  ok (if passes report.summary then 0 else 1)
