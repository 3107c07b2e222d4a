-- ===== src/Adversary.antt =====
-- python/khipu_consensus/adversary.py: the oracle of honest witnesses, the safety check of one
-- round, the hardened and the naive tally, and the attacks.
pub mod Oracle
pub mod Hardened
pub mod Naive
pub mod Attacks
pub mod Tampered
pub mod Scenario
pub mod Battery
pub mod Suite
use khipu_consensus.Prelude.{
  ℕ, zero, suc, ◌+◌, ◌*◌, ◌^◌, Bool, true, false, not, ◌&&◌, Option, none, some, List, [], ◌∷◌,
  ◌++◌, if◌then◌else◌, length, Text, text, decimal, ℤ, pos,
}
use khipu_consensus.Prelude.Int.{leb_ℤ}
use khipu_consensus.Python.Value.{Value, Fields, truthy, number}
use khipu_consensus.Python.Dict.{Dict, member}
use khipu_consensus.Python.Error.{Result, ok, err, type_error, attribute_error, ◌>>=◌}
use khipu_consensus.Python.Host.{Host, format}
use khipu_consensus.Verdict.{OrganVerdict, OrganCheck, from_dict, verify_verdict}
use khipu_consensus.Tally.{
  Decision, canonical, rejected, ConsensusResult, Item, abstain, verdict, row, other, Progress,
  outset, log, abstained, no_public_key, duplicate, key_for, ratio,
}

-- `s.add(v)`
unfoldable pub add : Value → List Value → List Value
add v s = if member v s then s else v ∷ s

-- `count >= threshold`; only a number can be compared
unfoldable pub at_least : ℕ → Value → Result Bool
at_least count threshold = elim (number threshold) [
  | none ↦ err type_error
  | some (m, k) ↦ ok (leb_ℤ m (pos (count * 2 ^ k)))
]

abbrev pub decision_of : Bool → Decision
decision_of true = canonical
decision_of false = rejected

-- whether the decision is canonical and the honest witnesses are too few
unfoldable pub is_false : Decision → ℕ → Value → Result Bool
is_false rejected honest threshold = ok false
is_false canonical honest threshold = do enough ← at_least honest threshold; ok (not enough)

-- A round of one of the tallies: the items, the threshold and the number of witnesses.
abbrev pub TallyFn : Type 0
TallyFn = List Item → (threshold n : Value) → Result ConsensusResult

-- One genuine verdict, submitted again and again.
unfoldable pub duplicate_stuffing : Fields → ℕ → List Item
duplicate_stuffing d zero = []
duplicate_stuffing d (suc times) = row d ∷ duplicate_stuffing d times

module _ (H : Host) (action_hash : Value) (pubkeys : Dict Value) where
  unfoldable pub honest_verdict : List Value → OrganVerdict → Result (List Value)
  honest_verdict counted v = do
    pem ← key_for pubkeys v.organ
    ok (
        if not (truthy pem)
        then counted
        else if (verify_verdict H v pem action_hash).counts
        then add v.organ counted
        else counted)

  unfoldable pub honest_run : List Value → List Item → Result (List Value)
  honest_run counted [] = ok counted
  honest_run counted (abstain ∷ is) = honest_run counted is
  honest_run counted (verdict v ∷ is) = do s ← honest_verdict counted v; honest_run s is
  honest_run counted (other v ∷ is) = err attribute_error
  honest_run counted (row d ∷ is) = do s ← honest_verdict counted (from_dict d); honest_run s is

  unfoldable pub honest_allow_count : List Item → Result ℕ
  honest_allow_count verdicts = do s ← honest_run [] verdicts; ok (length s)

  -- the message of a false-canonical
  unfoldable pub false_canonical : Text → ConsensusResult → ℕ → Value → Text
  false_canonical name res honest threshold =
      text "FALSE-CANONICAL: "
      ++ (name
          ++ (text " returned canonical ("
              ++ (ratio H res
                  ++ (text ") but only "
                      ++ (decimal honest
                          ++ (text " distinct honest allow(s) < threshold "
                              ++ format H threshold))))))

  unfoldable pub safety_holds :
      List Item → (threshold n : Value) → Text → TallyFn → Result (Bool × Text)
  safety_holds verdicts threshold n name tally_fn = do
    res ← tally_fn verdicts threshold n
    honest ← honest_allow_count verdicts
    bad ← is_false res.decision honest threshold
    ok (if bad then (false, false_canonical name res honest threshold) else (true, text "ok"))

  -- `distinct_witness_tally`, which writes the loop of `tally` out again
  unfoldable pub hardened_verdict : Progress → OrganVerdict → Result Progress
  hardened_verdict p v = do
    pem ← key_for pubkeys v.organ
    let chk = verify_verdict H v pem action_hash
    ok (
        if not (truthy pem)
        then log p (no_public_key v)
        else if chk.counts && member v.organ p.counted
        then log p (duplicate v chk)
        else if chk.counts
        then record {
          checks = p.checks ++ chk ∷ [];
          counted = add v.organ p.counted;
          count = p.count + 1;
        }
        else log p chk)

  unfoldable pub hardened_run : Progress → List Item → Result Progress
  hardened_run p [] = ok p
  hardened_run p (abstain ∷ is) = hardened_run (log p abstained) is
  hardened_run p (verdict v ∷ is) = do q ← hardened_verdict p v; hardened_run q is
  hardened_run p (other v ∷ is) = err attribute_error
  hardened_run p (row d ∷ is) = do q ← hardened_verdict p (from_dict d); hardened_run q is

  unfoldable pub distinct_witness_tally : TallyFn
  distinct_witness_tally verdicts threshold n = do
    p ← hardened_run outset verdicts
    reached ← at_least p.count threshold
    ok (record {
      action_hash = action_hash;
      threshold = threshold;
      n = n;
      consensus_count = p.count;
      decision = decision_of reached;
      checks = p.checks;
    })

  -- `naive_perverdict_tally`: the rows and the count
  unfoldable pub naive_verdict : List OrganCheck × ℕ → OrganVerdict → Result (List OrganCheck × ℕ)
  naive_verdict (checks, count) v = do
    pem ← key_for pubkeys v.organ
    let chk = verify_verdict H v pem action_hash
    ok (
        if not (truthy pem)
        then (checks ++ no_public_key v ∷ [], count)
        else (checks ++ chk ∷ [], if chk.counts then count + 1 else count))

  unfoldable pub naive_run : List OrganCheck × ℕ → List Item → Result (List OrganCheck × ℕ)
  naive_run s [] = ok s
  naive_run (checks, count) (abstain ∷ is) = naive_run (checks ++ abstained ∷ [], count) is
  naive_run s (verdict v ∷ is) = do t ← naive_verdict s v; naive_run t is
  naive_run s (other v ∷ is) = err attribute_error
  naive_run s (row d ∷ is) = do t ← naive_verdict s (from_dict d); naive_run t is

  unfoldable pub naive_perverdict_tally : TallyFn
  naive_perverdict_tally verdicts threshold n = do
    (checks, count) ← naive_run ([], 0) verdicts
    reached ← at_least count threshold
    ok (record {
      action_hash = action_hash;
      threshold = threshold;
      n = n;
      consensus_count = count;
      decision = decision_of reached;
      checks = checks;
    })
