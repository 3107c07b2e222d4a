-- ===== src/Adversary/Suite/Verdict.antt =====
-- The run of the harness as a whole: its report and its exit code.
use khipu_consensus.Prelude.{
  ℕ, ◌≤◌, ◌≡◌, refl, true, List, [], ◌∷◌, arith, inl, inr, Bool-cases, All, all, count, length,
  Text, Bytes, ℤ, pos,
}
use khipu_consensus.Prelude.Texts.{text_eq, text_eq→≡}
use khipu_consensus.Python.Value.{Value, int, nat}
use khipu_consensus.Python.Error.{Result, ok, >>=-gives}
use khipu_consensus.Python.Host.{Host}
use khipu_consensus.Tally.{valid_quorum_counts}
use khipu_consensus.Adversary.Scenario.{Scenario}
use khipu_consensus.Adversary.Battery.{Sources, keys_onto}
use khipu_consensus.Adversary.Suite.{
  Violations, no_violations, Summary, Report, summary_of, run_adversarial_suite, passes, main,
  default_organs,
}
use khipu_consensus.Adversary.Suite.Scenarios.{IsSafe}
use khipu_consensus.Adversary.Suite.Ready.{
  IsEquipped, keys_onto-Signs, keys_onto-HaveKeys, speak-IsReady, pubkeys_from_total,
}
use khipu_consensus.Adversary.Suite.Safe.{battery_total}
use khipu_consensus.Adversary.Suite.Fuzz.{AreDistinct, Grows, fuzz_total}

-- What a summary says when the shipped and the hardened tally were always safe, and the naive tally
-- unsafe only in rounds with a copy.
pub record IsClean (s : Summary) : Type 0 where
  pub scenarios : s.core_all_safe ≡ true
  pub hardened_scenarios : s.hardened_all_safe ≡ true
  pub rounds : s.fuzz_core_safety_violations ≡ 0
  pub hardened_rounds : s.fuzz_hardened_safety_violations ≡ 0
  pub naive_rounds : s.fuzz_naive_violations_all_from_duplicate_stuffing ≡ true

all_core : (ss : List Scenario) → All IsSafe ss → all (λ (s : Scenario). s.core_safe) ss ≡ true
all_core [] h = refl
all_core (s ∷ ss) ((core, hard), h) = rw core (all_core ss h)

all_hardened :
    (ss : List Scenario) → All IsSafe ss → all (λ (s : Scenario). s.hardened_safe) ss ≡ true
all_hardened [] h = refl
all_hardened (s ∷ ss) ((core, hard), h) = rw hard (all_hardened ss h)

-- each text is not among those after it
abbrev pub Apart : List Text → Type 0
Apart [] = Unit {0}
Apart (o ∷ os) = (count (λ p. text_eq p o) os ≡ 0) × Apart os

pub Apart-AreDistinct : (os : List Text) → Apart os → AreDistinct os
Apart-AreDistinct [] h k = omega arith
Apart-AreDistinct (o ∷ os) (away, h) k = elim (Bool-cases (text_eq o k)) [
  | inl same ↦
      let none_after : count (λ p. text_eq p k) os ≡ 0 = rw (← text_eq→≡ o k same) away in
      ground (arith, same, none_after)
  | inr other ↦ ground (arith, other, Apart-AreDistinct os h k)
]

pub default_organs-Apart : Apart default_organs
unfolding text_eq
default_organs-Apart = (refl, (refl, (refl, (refl, tt))))

module _ (H : Host) (read : Bytes → Result Value) (S : Sources) where
  summary_of-IsClean :
      (organs : List Text) (t : ℤ) (ss : List Scenario) (w : Violations)
      → All IsSafe ss
      → Grows no_violations w
      → IsClean (summary_of H read S organs t ss w)
  unfolding summary_of
  summary_of-IsClean organs t ss w safe (core, hard, naive) = record {
    scenarios = all_core ss safe;
    hardened_scenarios = all_hardened ss safe;
    rounds = core;
    hardened_rounds = hard;
    naive_rounds = ground (arith, naive);
  }

  -- A run of the harness over at least four distinct organs with valid quorum counts returns a
  -- report in which the shipped and the hardened tally are safe in every scenario and in every
  -- round, and the naive tally is unsafe only in rounds with an added copy. The fresh keys sign,
  -- and the statements that the harness makes have encodings, the edited ones included.
  pub run_adversarial_suite-IsClean :
      (organs : List Text) (t : ℤ) (fuzz_rounds : ℕ)
      → IsEquipped H read S organs
      → AreDistinct organs
      → 4 ≤ length organs
      → valid_quorum_counts (int t) (nat (length organs)) ≡ true
      → (r : Report) × (run_adversarial_suite H read S organs t fuzz_rounds ≡ ok r)
        × IsClean r.summary
  unfolding run_adversarial_suite
  run_adversarial_suite-IsClean organs t fuzz_rounds e distinct four quorum =
      let keys = keys_onto S 0 [] organs in
      let signers = keys_onto-Signs H S e.signers organs 0 [] tt in
      let have = keys_onto-HaveKeys S organs 0 [] in
      let ready = speak-IsReady H read S keys signers e.attacker organs e.speak have in
      let (pubkeys, published) =
        pubkeys_from_total H read S keys signers e.attacker [] organs have in
      let (ss, staged, safe) =
        battery_total H read S organs t keys pubkeys signers e.attacker ready quorum four in
      let (w, fuzzed, grows) =
        fuzz_total H read S organs t keys pubkeys signers e.attacker ready quorum distinct
          fuzz_rounds 9 no_violations in
      let P = λ (r : Report). IsClean r.summary in
      >>=-gives P _ _ published (
        >>=-gives P _ _ staged
          (>>=-gives P _ _ fuzzed (_, refl, summary_of-IsClean organs t ss w safe grows)))

  -- Whatever the draws and the number of rounds, the harness's command line comes to an end and
  -- exits with 0. The fresh keys sign, and the statements that the harness makes have encodings,
  -- the edited ones included.
  pub main_exits_0 :
      (fuzz_rounds : ℕ) → IsEquipped H read S default_organs → main H read S fuzz_rounds ≡ ok 0
  unfolding main passes valid_quorum_counts
  main_exits_0 fuzz_rounds e =
      let (r, ran, clean) =
        run_adversarial_suite-IsClean default_organs (pos 3) fuzz_rounds e
          (Apart-AreDistinct default_organs default_organs-Apart) (omega arith) refl in
      rw (ran, clean.scenarios, clean.hardened_scenarios, clean.rounds, clean.hardened_rounds) refl
