-- ===== src/Adversary/Oracle.antt =====
-- The oracle counts what `tally` counts, so that no round of `tally` is falsely canonical.
use native.Mathlib.Nat.{mul-one}
use khipu_consensus.Prelude.Int.{leb_ℤ}
use khipu_consensus.Prelude.{
  ℕ, ◌≡◌, refl, ap, true, false, List, [], ◌∷◌, arith, inl, inr, Bool-cases, All, length, Text,
  text, ℤ, pos,
}
use khipu_consensus.Python.Value.{Value, null, bool, int, float, str, arr, obj}
use khipu_consensus.Python.Dict.{Dict}
use khipu_consensus.Python.Error.{ok, >>=-eq-ok}
use khipu_consensus.Python.Host.{Host}
use khipu_consensus.Verdict.{OrganVerdict, from_dict}
use khipu_consensus.Tally.{
  ConsensusResult, Item, abstain, verdict, row, other, Progress, outset, settle, admit, step, run,
  tally, decide, valid_quorum_counts,
}
use khipu_consensus.Tally.Outcome.{tally-run, tally_invalid}
use khipu_consensus.Tally.Rows.{HasHash, run_total, tally_total}
use khipu_consensus.Adversary.{
  add, at_least, honest_verdict, honest_run, honest_allow_count, is_false, safety_holds,
}

-- the count of the loop is the size of its set
abbrev IsCounted : Progress → Type 0
IsCounted p = length p.counted ≡ p.count

pub at_least-int : (count : ℕ) (t : ℤ) → at_least count (int t) ≡ ok (leb_ℤ t (pos count))
unfolding at_least
at_least-int count t = ap (λ (c : ℕ). ok (leb_ℤ t (pos c))) (mul-one count)

module _ (H : Host) (action_hash : Value) (pubkeys : Dict Value) where
  honest_verdict-admit :
      (p q : Progress) (v : OrganVerdict)
      → admit H action_hash pubkeys p v ≡ ok q
      → (honest_verdict H action_hash pubkeys p.counted v ≡ ok q.counted)
        × (IsCounted p → IsCounted q)
  unfolding honest_verdict admit settle add
  honest_verdict-admit p q v h = ground arith

  honest_run-run :
      (is : List Item) (p q : Progress)
      → IsCounted p
      → run H action_hash pubkeys p is ≡ ok q
      → (honest_run H action_hash pubkeys p.counted is ≡ ok q.counted) × IsCounted q
  unfolding honest_run run step
  honest_run-run [] p q c h = ground arith
  honest_run-run (abstain ∷ is) p q c h = honest_run-run is _ q c h
  honest_run-run (verdict v ∷ is) p q c h =
      let (p', admitted, rest) =
        >>=-eq-ok (admit H action_hash pubkeys p v) (λ r. run H action_hash pubkeys r is) h in
      let (same, keeps) = honest_verdict-admit p p' v admitted in
      let (more, counted) = honest_run-run is p' q (keeps c) rest in (rw same more, counted)
  honest_run-run (other v ∷ is) p q c h = cc
  honest_run-run (row d ∷ is) p q c h =
      let (p', admitted, rest) =
        >>=-eq-ok (admit H action_hash pubkeys p (from_dict d))
          (λ r. run H action_hash pubkeys r is) h in
      let (same, keeps) = honest_verdict-admit p p' (from_dict d) admitted in
      let (more, counted) = honest_run-run is p' q (keeps c) rest in (rw same more, counted)

  -- For valid quorum counts, where `tally` returns, the oracle's number is the count of `tally`.
  pub honest_allow_count-tally :
      (is : List Item) (threshold n : Value) (r : ConsensusResult)
      → valid_quorum_counts threshold n ≡ true
      → tally H action_hash pubkeys is threshold n ≡ ok r
      → honest_allow_count H action_hash pubkeys is ≡ ok r.consensus_count
  unfolding honest_allow_count
  honest_allow_count-tally is threshold n r q h =
      let (p, ran, counted, _, _) = tally-run H action_hash pubkeys is threshold n r q h in
      let (same, size) = honest_run-run is outset p refl ran in rw (same, counted, size)

  -- a canonical result of `tally` has the threshold reached
  canonical_reaches :
      (count : ℕ) (threshold n : Value)
      → valid_quorum_counts threshold n ≡ true
      → is_false (decide count threshold) count threshold ≡ ok false
  unfolding valid_quorum_counts is_false
  canonical_reaches count (int t) n q = elim (Bool-cases (leb_ℤ t (pos count))) [
    | inl enough ↦ rw (enough, is_false) (rw (at_least-int count t, enough))
    | inr short ↦ rw (short, is_false)
  ]
  canonical_reaches count null n q = cc
  canonical_reaches count (bool b) n q = cc
  canonical_reaches count (float m k) n q = cc
  canonical_reaches count (str s) n q = cc
  canonical_reaches count (arr xs) n q = cc
  canonical_reaches count (obj f) n q = cc

  pub honest_allow_count_total :
      (is : List Item)
      → All HasHash is
      → (k : ℕ) × (honest_allow_count H action_hash pubkeys is ≡ ok k)
  unfolding honest_allow_count
  honest_allow_count_total is h =
      let (q, ran) = run_total H action_hash pubkeys is outset h in
      let (same, size) = honest_run-run is outset q refl ran in (length q.counted, rw same)

  -- Whatever the items, the threshold and `n`: the safety check finds `tally` safe in every round
  -- whose organs have a hash.
  pub safety_holds-tally :
      (is : List Item) (threshold n : Value) (name : Text)
      → All HasHash is
      → safety_holds H action_hash pubkeys is threshold n name (tally H action_hash pubkeys)
        ≡ ok (true, text "ok")
  unfolding safety_holds is_false
  safety_holds-tally is threshold n name h =
      let (r, tallied) = tally_total H action_hash pubkeys is threshold n h in
      elim (Bool-cases (valid_quorum_counts threshold n)) [
        | inl valid ↦
            let (p, _, counted, decided, _) =
              tally-run H action_hash pubkeys is threshold n r valid tallied in
            rw (
              tallied,
              honest_allow_count-tally is threshold n r valid tallied,
              counted,
              decided,
              canonical_reaches p.count threshold n valid,
            )
        | inr invalid ↦
            let (k, honest) = honest_allow_count_total is h in
            rw (tally_invalid H action_hash pubkeys is threshold n invalid, honest, is_false)
      ]
