-- ===== src/Tally/Rows.antt =====
-- The rows that `tally` reports, and when it raises.
use khipu_consensus.Prelude.{
  ℕ, ◌+◌, ◌≡◌, refl, true, List, [], ◌∷◌, ◌++◌, arith, inl, inr, Bool-cases, one_if, count, All,
  length, length-append, text,
}
use khipu_consensus.Python.Value.{Value, str, truthy, hashable, or_else}
use khipu_consensus.Python.Dict.{Dict, lookup, member}
use khipu_consensus.Python.Error.{Result, ok, >>=-eq-ok}
use khipu_consensus.Python.Host.{Host}
use khipu_consensus.Verdict.{OrganVerdict, OrganCheck, from_dict, verify_verdict}
use khipu_consensus.Tally.{
  ConsensusResult, Item, rejected, decide, report, abstain, verdict, row, other, Progress, outset,
  abstained, no_public_key, duplicate, key_for, valid_quorum_counts, register, settle, admit, step,
  run, tally,
}
use khipu_consensus.Tally.Outcome.{tally-run}

abbrev pub counting : List OrganCheck → ℕ
counting = count (λ (c : OrganCheck). c.counts)

counting-append : (xs ys : List OrganCheck) → counting (xs ++ ys) ≡ counting xs + counting ys
counting-append [] ys = omega arith
counting-append (x ∷ xs) ys = ground (arith, counting-append xs ys)

-- An item whose organ can be a key.
abbrev pub HasHash : Item → Type 0
HasHash abstain = Unit {0}
HasHash (verdict v) = hashable v.organ ≡ true
HasHash (row d) = hashable (from_dict d).organ ≡ true
HasHash (other v) = ⊥

-- One more row, which counts exactly if the count grows.
record Logs (p q : Progress) : Type 0 where
  last : OrganCheck
  checks_are : q.checks ≡ p.checks ++ last ∷ []
  count_is : q.count ≡ p.count + one_if last.counts

module _ (H : Host) (action_hash : Value) (pubkeys : Dict Value) where
  register-Logs :
      (p : Progress) (v : OrganVerdict) (c : OrganCheck)
      → Logs p (register H action_hash pubkeys p v c)
  unfolding register
  register-Logs p v c = elim (Bool-cases c.counts) [
    | inl counts ↦ elim (Bool-cases (member v.organ p.counted)) [
      | inl old ↦ record {
        last = duplicate v c;
        checks_are = ground arith;
        count_is = ground arith;
      }
      | inr new ↦ record { last = c; checks_are = ground arith; count_is = ground arith }
    ]
    | inr fails ↦ record { last = c; checks_are = ground arith; count_is = ground arith }
  ]

  settle-Logs :
      (p : Progress) (v : OrganVerdict) (pem : Value)
      → Logs p (settle H action_hash pubkeys p v pem)
  unfolding settle
  settle-Logs p v pem = elim (Bool-cases (truthy pem)) [
    | inl has ↦ rw has (register-Logs p v (verify_verdict H v pem action_hash))
    | inr none_of ↦
        rw none_of (record { last = no_public_key v; checks_are = refl; count_is = omega arith })
  ]

  Logs-subst : {p q r : Progress} → Logs p q → Path (Result Progress) (ok q) (ok r) → Logs p r
  Logs-subst {p} {q} {r} l e = let same : q ≡ r = cc in rw (← same) l

  step-Logs : (p q : Progress) (i : Item) → step H action_hash pubkeys p i ≡ ok q → Logs p q
  unfolding step admit
  step-Logs p q abstain h = record {
    last = abstained;
    checks_are = ground arith;
    count_is = ground arith;
  }
  step-Logs p q (verdict v) h =
      let (pem, found, e) = >>=-eq-ok (key_for pubkeys v.organ) _ h in
      Logs-subst (settle-Logs p v pem) e
  step-Logs p q (row d) h =
      let (pem, found, e) = >>=-eq-ok (key_for pubkeys (from_dict d).organ) _ h in
      Logs-subst (settle-Logs p (from_dict d) pem) e
  step-Logs p q (other v) h = cc

  -- the rows and the count that one round keeps in step
  Logs-rows :
      (p q : Progress)
      → Logs p q
      → (length q.checks ≡ length p.checks + 1)
        × (counting q.checks + p.count ≡ counting p.checks + q.count)
  Logs-rows p q l =
      let rows = length-append p.checks (l.last ∷ []) in
      let marks = counting-append p.checks (l.last ∷ []) in
      (rw l.checks_are (omega (arith, rows)), rw (l.checks_are, l.count_is) (ground (arith, marks)))

  run_rows :
      (is : List Item) (p q : Progress)
      → run H action_hash pubkeys p is ≡ ok q
      → (length q.checks ≡ length p.checks + length is)
        × (counting q.checks + p.count ≡ counting p.checks + q.count)
  unfolding run
  run_rows [] p q h = let same : p ≡ q = cc in rw (← same) (omega arith, omega arith)
  run_rows (i ∷ is) p q h =
      let (p', stepped, rest) =
        >>=-eq-ok (step H action_hash pubkeys p i) (λ r. run H action_hash pubkeys r is) h in
      let (a, b) = Logs-rows p p' (step-Logs p p' i stepped) in
      let (c, d) = run_rows is p' q rest in (omega arith, omega arith)

  -- For valid quorum counts, a run that returns has one row for each item, and as many of its
  -- rows count as its count says.
  pub tally_rows :
      (is : List Item) (threshold n : Value) (r : ConsensusResult)
      → valid_quorum_counts threshold n ≡ true
      → tally H action_hash pubkeys is threshold n ≡ ok r
      → (length r.checks ≡ length is) × (counting r.checks ≡ r.consensus_count)
  tally_rows is threshold n r q h =
      let (p, ran, counted, _, rows) = tally-run H action_hash pubkeys is threshold n r q h in
      let (a, b) = run_rows is outset p ran in
      (rw rows (omega arith), rw (rows, counted) (omega arith))

  abbrev settle_found : Progress → OrganVerdict → Progress
  settle_found p v =
      settle H action_hash pubkeys p v (or_else (lookup v.organ pubkeys) (str (text "")))

  step_total :
      (p : Progress) (i : Item)
      → HasHash i
      → (q : Progress) × (step H action_hash pubkeys p i ≡ ok q)
  unfolding step admit key_for
  step_total p abstain h = (_, refl)
  step_total p (verdict v) h = (settle_found p v, rw h)
  step_total p (row d) h = (settle_found p (from_dict d), rw h)
  step_total p (other v) h = absurd h

  pub run_total :
      (is : List Item) (p : Progress)
      → All HasHash is
      → (q : Progress) × (run H action_hash pubkeys p is ≡ ok q)
  unfolding run
  run_total [] p h = (p, refl)
  run_total (i ∷ is) p (hi, h) =
      let (p', stepped) = step_total p i hi in
      let (q, rest) = run_total is p' h in (q, rw (stepped) rest)

  -- Whatever the counts and the rows hold, `tally` returns if every item is an abstention, a
  -- verdict or a dict, and every organ has a hash.
  pub tally_total :
      (is : List Item) (threshold n : Value)
      → All HasHash is
      → (r : ConsensusResult) × (tally H action_hash pubkeys is threshold n ≡ ok r)
  unfolding tally
  tally_total is threshold n h = elim (Bool-cases (valid_quorum_counts threshold n)) [
    | inl valid ↦
        let (q, ran) = run_total is outset h in
        (
          report H action_hash pubkeys threshold n q.count (decide q.count threshold) q.checks,
          rw (valid, ran),
        )
    | inr invalid ↦ (report H action_hash pubkeys threshold n 0 rejected [], rw invalid)
  ]
