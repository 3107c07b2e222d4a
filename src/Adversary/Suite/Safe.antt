-- ===== src/Adversary/Suite/Safe.antt =====
-- A run of the harness: its battery, its rounds of fuzzing and its exit code.
use khipu_consensus.Prelude.{
  ℕ, ◌≤◌, ◌<◌, ◌≡◌, refl, true, List, [], ◌∷◌, arith, All, map, length, Text, Bytes, text, ℤ,
}
use khipu_consensus.Python.Value.{Value, str, int, nat}
use khipu_consensus.Python.Dict.{Dict}
use khipu_consensus.Python.Error.{Result, ok, ◌>>=◌, >>=-gives}
use khipu_consensus.Python.Host.{Host}
use khipu_consensus.Tally.{valid_quorum_counts}
use khipu_consensus.Adversary.Scenario.{Scenario}
use khipu_consensus.Verdict.Total.{IsSigner}
use khipu_consensus.Adversary.Battery.{
  action_a, Move, allows, blocks, silence, forged_signature, impersonation, action_mismatch,
  payload_tamper, replay, Sources, organ_at,
}
use khipu_consensus.Adversary.Battery.Total.{IsReady, play_total, silence_total, signed_total, made}
use khipu_consensus.Adversary.Battery.Rounds.{duplicates-IsNamed}
use khipu_consensus.Adversary.Battery.Deal.{IsCast, plays_total}
use khipu_consensus.Adversary.Suite.{two_honest, one_fault, two_silent, staged, stuffed, battery}
use khipu_consensus.Adversary.Suite.Scenarios.{IsSafe, scenario_total}
use khipu_consensus.Adversary.Suite.Ready.{organ_at-All}

module _ (H : Host) (read : Bytes → Result Value) (S : Sources) (organs : List Text) (t : ℤ)
    (keys : Dict (Value × Value)) (pubkeys : Dict Value)
    (signers : All (λ (o, k). IsSigner H k.0) keys) (attacker : IsSigner H S.attacker.0)
    (ready : All (IsReady H read S keys signers attacker) organs)
    (quorum : valid_quorum_counts (int t) (nat (length organs)) ≡ true) where
  abbrev Casts : List (Result Text × Move) → Type 0
  Casts = All (IsCast H read S keys signers attacker)

  staged_total :
      (r : ℕ) (name attack description : Text) (cast : List (Result Text × Move))
      → Casts cast
      → (s : Scenario) × (staged H read S organs t keys pubkeys r name attack description cast
          ≡ ok s)
        × IsSafe s
  unfolding staged
  staged_total r name attack description cast h =
      let (is, played, named) = plays_total H read S keys signers attacker cast r 0 h in
      let (s, ran, safe) =
        scenario_total H (str action_a) pubkeys name attack description is t (nat (length organs))
          named quorum in
      (s, rw played ran, safe)

  -- a scenario and what comes after it
  next :
      (r : ℕ) (name attack description : Text) (cast : List (Result Text × Move))
      (rest : Scenario → Result (List Scenario))
      → Casts cast
      → ((s : Scenario) → IsSafe s → (ss : List Scenario) × (rest s ≡ ok ss) × All IsSafe ss)
      → (ss : List Scenario) × ((staged H read S organs t keys pubkeys r name attack description
              cast
            >>= rest)
          ≡ ok ss)
        × All IsSafe ss
  next r name attack description cast rest h go =
      let (s, ran, safe) = staged_total r name attack description cast h in
      let (ss, gone, all_safe) = go s safe in (ss, rw ran gone, all_safe)

  Casts-allows :
      (os : List Text)
      → All (IsReady H read S keys signers attacker) os
      → Casts (map (λ o. (ok o, allows)) os)
  Casts-allows [] h = tt
  Casts-allows (o ∷ os) (p, h) =
      ((o, refl, play_total H read S keys signers attacker allows o p), Casts-allows os h)

  IsCast-at :
      (i : ℕ) (move : Move)
      → i < length organs
      → IsCast H read S keys signers attacker (organ_at organs i, move)
  IsCast-at i move b =
      let (o, at, p) = organ_at-All (IsReady H read S keys signers attacker) organs i ready b in
      (o, at, play_total H read S keys signers attacker move o p)

  module _ (four : 4 ≤ length organs) where
    below_threshold : (move : Move) → Casts (two_honest organs move)
    below_threshold move = (
      IsCast-at 0 allows (omega arith),
      (
        IsCast-at 1 allows (omega arith),
        (IsCast-at 2 move (omega arith), (IsCast-at 3 move (omega arith), tt)),
      ),
    )

    with_fault : Casts (one_fault organs)
    with_fault = (
      IsCast-at 0 allows (omega arith),
      (
        IsCast-at 1 allows (omega arith),
        (IsCast-at 2 allows (omega arith), (IsCast-at 3 blocks (omega arith), tt)),
      ),
    )

    with_silence : Casts (two_silent organs)
    with_silence =
        let silent : IsCast H read S keys signers attacker (ok (text ""), silence) =
          (text "", refl, silence_total H read S keys signers attacker (text "")) in
        (
          IsCast-at 0 allows (omega arith),
          (IsCast-at 1 allows (omega arith), (silent, (silent, tt))),
        )

    stuffed_total :
        (r : ℕ) → (s : Scenario) × (stuffed H read S organs t keys pubkeys r ≡ ok s) × IsSafe s
    unfolding stuffed
    stuffed_total r =
        let (o, at, (speaks, has)) =
          organ_at-All (IsReady H read S keys signers attacker) organs 0 ready (omega arith) in
        let (sig, signs) =
          signed_total H read S keys signers attacker o action_a (text "allow") (S.moment r 0)
            speaks.allows_a has in
        let by = made H read S keys signers attacker o (text "allow") speaks.allows_a.body sig in
        >>=-gives IsSafe _ _ at (
          >>=-gives IsSafe _ _ signs (
            scenario_total H (str action_a) pubkeys _ _ _ _ t (nat (length organs))
              (duplicates-IsNamed _ 3 (o, by)) quorum))

    pub battery_total :
        (ss : List Scenario) × (battery H read S organs t keys pubkeys ≡ ok ss) × All IsSafe ss
    unfolding battery
    battery_total = next 0 _ _ _ _ _ (Casts-allows organs ready) λ happy s0.
        next 1 _ _ _ _ _ with_fault λ one s1. next 2 _ _ _ _ _ with_silence λ silent s2.
          next 3 _ _ _ _ _ (below_threshold forged_signature) λ forged s3.
            next 4 _ _ _ _ _ (below_threshold impersonation) λ impersonated s4.
              next 5 _ _ _ _ _ (below_threshold action_mismatch) λ equivocated s5.
                next 6 _ _ _ _ _ (below_threshold payload_tamper) λ tampered s6.
                  next 7 _ _ _ _ _ (below_threshold replay) λ replayed s7.
                    let (duplicated, e8, s8) = stuffed_total 8 in
                    (>>=-gives (All IsSafe) _ _ e8
                      (_, refl, (s0, (s1, (s2, (s3, (s4, (s5, (s6, (s7, (s8, tt)))))))))))
