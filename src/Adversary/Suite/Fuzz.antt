-- ===== src/Adversary/Suite/Fuzz.antt =====
-- The rounds of fuzzing, and the run as a whole.
use khipu_consensus.Prelude.{
  ℕ, zero, suc, ◌+◌, ◌≤◌, ◌≡◌, refl, ◌∙◌, Bool, true, false, List, [], ◌∷◌, ◌++◌, append-nil, arith,
  All, count, length, Text, Bytes, text, ℤ,
}
use khipu_consensus.Prelude.Texts.{text_eq}
use khipu_consensus.Python.Value.{Value, Fields, str, int, nat}
use khipu_consensus.Python.Dict.{Dict, values}
use khipu_consensus.Python.Error.{Result, ok, >>=-gives}
use khipu_consensus.Python.Host.{Host}
use khipu_consensus.Tally.{Item, valid_quorum_counts}
use khipu_consensus.Adversary.{naive_perverdict_tally, safety_holds}
use khipu_consensus.Adversary.Oracle.{safety_holds-tally}
use khipu_consensus.Adversary.Naive.Apart.{safety_holds-naive_total, safety_holds-naive_apart}
use khipu_consensus.Adversary.Scenario.{safety_holds-hardened}
use khipu_consensus.Verdict.Total.{IsSigner}
use khipu_consensus.Adversary.Battery.{action_a, Sources, shuffle, stuffing, had_duplicate}
use khipu_consensus.Adversary.Battery.Total.{IsReady}
use khipu_consensus.Adversary.Battery.Rounds.{
  IsNamed, names, All-HasHash, append-All, shuffle-All, count-shuffle, stuffing-IsNamed, values-All,
}
use khipu_consensus.Adversary.Battery.Deal.{deal_total}
use khipu_consensus.Adversary.Suite.{Violations, found, fuzz_verdicts, fuzz_round, fuzz}

-- No text stands twice.
abbrev pub AreDistinct : List Text → Type 0
AreDistinct organs = (k : Text) → count (λ o. text_eq o k) organs ≤ 1

stuffing_none :
    (S : Sources) (r : ℕ) (ds : List Fields) → had_duplicate S r ds ≡ false → stuffing S r ds ≡ []
unfolding stuffing had_duplicate
stuffing_none S r [] h = refl
stuffing_none S r (d ∷ ds) h = rw h refl

-- Two counts of violations of which the second has the same of the shipped and the hardened tally,
-- and grew by as many of the naive tally as rounds with a copy.
abbrev pub Grows : Violations → Violations → Type 0
Grows w v =
    (v.core ≡ w.core)
    × (v.hardened ≡ w.hardened)
    × (v.naive + w.naive_had_duplicate ≡ w.naive + v.naive_had_duplicate)

found-Grows :
    (b had : Bool) (w : Violations) → (had ≡ false → b ≡ true) → Grows w (found b true true had w)
unfolding found
found-Grows true true w h = (omega arith, omega arith, omega arith)
found-Grows true false w h = (omega arith, omega arith, omega arith)
found-Grows false true w h = (omega arith, omega arith, omega arith)
found-Grows false false w h = cc (h refl)

module _ (H : Host) (read : Bytes → Result Value) (S : Sources) (organs : List Text) (t : ℤ)
    (keys : Dict (Value × Value)) (pubkeys : Dict Value)
    (signers : All (λ (o, k). IsSigner H k.0) keys) (attacker : IsSigner H S.attacker.0)
    (ready : All (IsReady H read S keys signers attacker) organs)
    (quorum : valid_quorum_counts (int t) (nat (length organs)) ≡ true)
    (distinct : AreDistinct organs) where
  fuzz_verdicts_total :
      (r : ℕ)
      → (out : List Item × Bool) × (fuzz_verdicts H read S organs t keys pubkeys r ≡ ok out)
        × (All IsNamed out.0 × (out.1 ≡ false → (k : Text) → count (names k) out.0 ≤ 1))
  unfolding fuzz_verdicts
  fuzz_verdicts_total r =
      let ((dealt, used), ran, named, texts, counted) =
        deal_total H read S keys signers attacker organs r 0 [] [] ready tt tt in
      let ds = values used in
      let all_named =
        append-All IsNamed dealt (stuffing S r ds) named
          (stuffing-IsNamed S r ds (values-All used texts)) in
      (
        (shuffle (S.exchange r) (dealt ++ stuffing S r ds), had_duplicate S r ds),
        rw ran refl,
        (
          shuffle-All IsNamed (S.exchange r) (dealt ++ stuffing S r ds) all_named,
          λ none_added k.
              let alone : dealt ++ stuffing S r ds ≡ dealt =
                rw (stuffing_none S r ds none_added) (append-nil dealt) in
              let kept = count-shuffle (names k) (S.exchange r) dealt in
              rw alone (omega (arith, kept, counted k, distinct k)),
        ),
      )

  -- the naive tally's judgement of the round, safe if no copy was added
  naive_judged :
      (is : List Item) (had : Bool)
      → All IsNamed is
      → (had ≡ false → (k : Text) → count (names k) is ≤ 1)
      → (out : Bool × Text) × (safety_holds H
            (str action_a)
            pubkeys
            is
            (int t)
            (nat (length organs))
            (text "naive_perverdict_tally")
            (naive_perverdict_tally H (str action_a) pubkeys)
          ≡ ok out)
        × (had ≡ false → out.0 ≡ true)
  naive_judged is true named apart =
      let (out, judged) =
        safety_holds-naive_total H (str action_a) pubkeys is t (nat (length organs)) _ named in
      (out, judged, λ h. cc)
  naive_judged is false named apart = (
    (true, text "ok"),
    safety_holds-naive_apart H (str action_a) pubkeys is t (nat (length organs)) _ named
        (apart refl),
    λ h. refl,
  )

  fuzz_round_total :
      (r : ℕ) (w : Violations)
      → (v : Violations) × (fuzz_round H read S organs t keys pubkeys r w ≡ ok v) × Grows w v
  unfolding fuzz_round
  fuzz_round_total r w =
      let ((is, had), dealt, (named, apart)) = fuzz_verdicts_total r in
      let ((b, detail), naive, safe) = naive_judged is had named apart in
      let hashed = All-HasHash is named in
      >>=-gives (Grows w) _ _ dealt (
        >>=-gives (Grows w) _ _ naive (
          >>=-gives (Grows w) _ _
            (safety_holds-tally H (str action_a) pubkeys is (int t) (nat (length organs)) _ hashed)
            (>>=-gives (Grows w) _ _
              (safety_holds-hardened H (str action_a) pubkeys is (int t) (nat (length organs)) _
                hashed quorum)
              (_, refl, found-Grows b had w safe))))

  pub fuzz_total :
      (rounds r : ℕ) (w : Violations)
      → (v : Violations) × (fuzz H read S organs t keys pubkeys rounds r w ≡ ok v) × Grows w v
  unfolding fuzz
  fuzz_total zero r w = (w, refl, (refl, refl, refl))
  fuzz_total (suc rounds) r w =
      let (v, ran, (core, hard, naive)) = fuzz_round_total r w in
      let (u, rest, (core', hard', naive')) = fuzz_total rounds (suc r) v in
      (u, rw ran rest, (core' ∙ core, hard' ∙ hard, omega (arith, naive, naive')))
