-- ===== src/Collusion/Outcomes.antt =====
-- What the simulated campaigns come to, for each number of colluders.
use khipu_consensus.Prelude.{
  ℕ, zero, suc, ◌≤◌, ◌≡◌, refl, ap, ◌∙◌, Bool, true, false, none, some, List, [], ◌∷◌, arith, inl,
  inr, Bool-cases, count, length, ltb, leb, ◌==◌, if◌then◌else◌, Text, Bytes, text, All,
}
use khipu_consensus.Prelude.Texts.{text_eq, text_eq_refl}
use khipu_consensus.Python.Value.{Value, obj, nat, eq, Fields, put, find}
use khipu_consensus.Python.Dict.{Dict, insert}
use khipu_consensus.Python.Error.{ok}
use khipu_consensus.Python.Utf8.{utf8}
use khipu_consensus.Collusion.{
  Tools, Outcome, repelled, quorum_breach_chain_caught, passed, Round, Campaign, is_repelled,
  is_caught, is_passed, hash_of, sign, attest, hundredfold, present, signatures, keep_signature,
  judge, run_round, run_rounds, witness, witnesses_for, payload_for, summarise, run_counts,
  run_campaign,
}
use khipu_consensus.Collusion.Lane.{campaigns, lane_holds}

-- The payload that a campaign commits to, with the amount times 100.
abbrev tampered_payload : Tools → Value → Fields
tampered_payload T seed = put (text "amount") (nat 100) (payload_for T seed)

-- The digests of a payload and of its tampered version, which can be encoded and differ.
pub record Distinguishes (T : Tools) (seed : Value) : Type 0 where
  pub committed : Text
  pub presented : Text
  pub committed_bytes : Bytes
  pub presented_bytes : Bytes
  pub hashes : hash_of T (obj (payload_for T seed)) ≡ ok committed
  pub hashes_tampered : hash_of T (obj (tampered_payload T seed)) ≡ ok presented
  pub encodes : utf8 committed ≡ ok committed_bytes
  pub encodes_tampered : utf8 presented ≡ ok presented_bytes
  pub differ : text_eq presented committed ≡ false

-- the outcome of each round, by the number of colluders
abbrev expected : ℕ → Outcome
expected k = if k == 0 then passed else if ltb k 3 then repelled else quorum_breach_chain_caught

module _ (T : Tools) (keys : ℕ → Bytes) (seed : Value) (d : Distinguishes T seed) where
  present_tampered : present T (payload_for T seed) true ≡ ok (tampered_payload T seed)
  unfolding present payload_for hundredfold find text_eq
  present_tampered = refl

  -- who signs when the payload is tampered with
  attest_tampered :
      (k i : ℕ)
      → attest T (witness T keys k i) d.committed d.presented
        ≡ ok (if ltb i k then some (T.hmac (keys i) d.presented_bytes) else none)
  unfolding attest sign
  attest_tampered k i = elim (Bool-cases (ltb i k)) [
    | inl colludes ↦ rw (colludes, d.encodes_tampered) refl
    | inr honest ↦ rw (honest, d.differ) refl
  ]

  attest_honest :
      (i : ℕ)
      → attest T (witness T keys 0 i) d.committed d.committed
        ≡ ok (some (T.hmac (keys i) d.committed_bytes))
  unfolding attest sign
  attest_honest i = rw (text_eq_refl d.committed, d.encodes) (ground arith)

  abbrev HasOutcome : ℕ → Type 0
  HasOutcome k =
      (r : Round) × (run_round T (witnesses_for T keys k) (payload_for T seed) (ltb 0 k) ≡ ok r)
      × (r.outcome ≡ expected k)

  -- the signatures of the witnesses with these ids
  abbrev signed_by : Bytes → List ℕ → Dict Text
  signed_by b [] = []
  signed_by b (i ∷ is) = (nat i, T.hmac (keys i) b) ∷ signed_by b is

  round_honest :
      run_round T (witnesses_for T keys 0) (payload_for T seed) false
      ≡ ok
          (judge T false d.committed d.committed (signed_by d.committed_bytes (0 ∷ 1 ∷ 2 ∷ 3 ∷ [])))
  unfolding run_round witnesses_for signatures insert eq present
  round_honest =
      rw (d.hashes, attest_honest 0, attest_honest 1, attest_honest 2, attest_honest 3) refl

  -- the signature of a witness on the tampered payload, if it colludes
  abbrev collude : ℕ → ℕ → Dict Text → Dict Text
  collude k i =
      keep_signature T i (if ltb i k then some (T.hmac (keys i) d.presented_bytes) else none)

  round_tampered :
      (k : ℕ)
      → run_round T (witnesses_for T keys k) (payload_for T seed) true
        ≡ ok (
            judge T true d.committed d.presented
              (collude k 3 (collude k 2 (collude k 1 (collude k 0 [])))))
  unfolding run_round witnesses_for signatures
  round_tampered k =
      rw
        (
          d.hashes,
          present_tampered,
          d.hashes_tampered,
          attest_tampered k 0,
          attest_tampered k 1,
          attest_tampered k 2,
          attest_tampered k 3,
        )
        refl

  -- A round has its expected outcome.
  round_outcome : (k : ℕ) → k ≤ 4 → HasOutcome k
  unfolding judge insert eq
  round_outcome zero le = (_, round_honest, rw (text_eq_refl d.committed) refl)
  round_outcome (suc zero) le = (_, round_tampered 1, refl)
  round_outcome (suc (suc zero)) le = (_, round_tampered 2, refl)
  round_outcome (suc (suc (suc zero))) le = (_, round_tampered 3, rw d.differ refl)
  round_outcome (suc (suc (suc (suc zero)))) le = (_, round_tampered 4, rw d.differ refl)
  round_outcome (suc (suc (suc (suc (suc k))))) le = absurd (omega (arith, le))

  -- as many rounds with this outcome
  rounds_alike :
      (n k : ℕ) (r : Round) (o : Outcome)
      → run_round T (witnesses_for T keys k) (payload_for T seed) (ltb 0 k) ≡ ok r
      → r.outcome ≡ o
      → (rs : List Round) × (run_rounds T n (witnesses_for T keys k) (payload_for T seed) (ltb 0 k)
          ≡ ok rs)
        × (All (λ (r : Round). r.outcome ≡ o) rs)
        × (length rs ≡ n)
  unfolding run_rounds
  rounds_alike zero k r o h e = ([], refl, tt, refl)
  rounds_alike (suc n) k r o h e =
      let (rs, ran, alike, long) = rounds_alike n k r o h e in
      (r ∷ rs, rw (h, ran) refl, (e, alike), ap (λ (m : ℕ). suc m) long)

count_alike :
    (f : Outcome → Bool) (o : Outcome) (rs : List Round)
    → All (λ (r : Round). r.outcome ≡ o) rs
    → count (λ (r : Round). f r.outcome) rs ≡ (if f o then length rs else 0)
count_alike f o [] h = ground arith
count_alike f o (r ∷ rs) (e, h) = rw e (ground (arith, count_alike f o rs h))

count_of :
    (f : Outcome → Bool) (o : Outcome) (n : ℕ) (rs : List Round)
    → All (λ (r : Round). r.outcome ≡ o) rs
    → length rs ≡ n
    → count (λ (r : Round). f r.outcome) rs ≡ (if f o then n else 0)
count_of f o n rs h long = count_alike f o rs h ∙ ap (λ (m : ℕ). if f o then m else 0) long

-- what a campaign of `n` rounds with `k` colluders reports
pub record IsExpected (k n : ℕ) (c : Campaign) : Type 0 where
  pub of_colluders : c.colluders ≡ k
  pub of_rounds : c.rounds ≡ n
  pub of_repelled : c.repelled_count ≡ (if is_repelled (expected k) then n else 0)
  pub of_caught : c.caught_count ≡ (if is_caught (expected k) then n else 0)
  pub of_passed : c.passed_count ≡ (if is_passed (expected k) then n else 0)

module _ (T : Tools) (seed : Value) (d : Distinguishes T seed) where
  -- A campaign of at least one round with at most four colluders: every round passes if there are
  -- none, is repelled if there are one or two, and is a breach that the committed hash catches if
  -- there are three or four. The digests of the payload and of its tampered version can be
  -- computed and differ.
  pub run_campaign_outcomes :
      (keys : ℕ → Bytes) (k n : ℕ)
      → k ≤ 4
      → 1 ≤ n
      → (c : Campaign) × (run_campaign T keys (nat k) (nat n) seed ≡ ok c) × IsExpected k n c
  unfolding run_campaign run_counts summarise
  run_campaign_outcomes keys k n few some_round =
      let (r, ran, as_expected) = round_outcome T keys seed d k few in
      let (rs, all_ran, alike, long) =
        rounds_alike T keys seed d n k r (expected k) ran as_expected in
      let in_range : leb k 4 ≡ true = ground (arith, few) in
      let positive : leb 1 n ≡ true = ground (arith, some_round) in
      (
        summarise T k n rs,
        rw (in_range, positive, all_ran) refl,
        record {
          of_colluders = refl;
          of_rounds = refl;
          of_repelled = count_of is_repelled (expected k) n rs alike long;
          of_caught = count_of is_caught (expected k) n rs alike long;
          of_passed = count_of is_passed (expected k) n rs alike long;
        },
      )

  -- The lane of any positive number of rounds comes to the verdict that the model holds, whatever
  -- keys the witnesses draw. The digests of the payload and of its tampered version can be
  -- computed and differ.
  pub lane_holds_always :
      (keys : ℕ → ℕ → Bytes) (n : ℕ)
      → 1 ≤ n
      → (cs : List Campaign) × (campaigns T keys (0 ∷ 1 ∷ 2 ∷ 3 ∷ 4 ∷ []) (nat n) seed ≡ ok cs)
        × (lane_holds T cs n ≡ ok true)
  unfolding campaigns lane_holds
  lane_holds_always keys n some_round =
      let (c0, r0, e0) = run_campaign_outcomes (keys 0) 0 n (omega arith) some_round in
      let (c1, r1, e1) = run_campaign_outcomes (keys 1) 1 n (omega arith) some_round in
      let (c2, r2, e2) = run_campaign_outcomes (keys 2) 2 n (omega arith) some_round in
      let (c3, r3, e3) = run_campaign_outcomes (keys 3) 3 n (omega arith) some_round in
      let (c4, r4, e4) = run_campaign_outcomes (keys 4) 4 n (omega arith) some_round in
      let same : (n == n) ≡ true = ground arith in
      (
        c0 ∷ c1 ∷ c2 ∷ c3 ∷ c4 ∷ [],
        rw (r0, r1, r2, r3, r4) refl,
        rw
            (
              e1.of_repelled, e2.of_repelled, e1.of_rounds, e2.of_rounds, e3.of_caught,
              e4.of_caught, same,
            )
            refl,
      )
