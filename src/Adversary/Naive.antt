-- ===== src/Adversary/Naive.antt =====
-- The weakness that the naive tally shows: one genuine verdict, submitted `threshold` times.
pub mod Apart
use khipu_consensus.Prelude.{
  ℕ, zero, suc, ◌+◌, ◌≤◌, ◌≡◌, refl, ◌∙◌, true, false, some, List, [], ◌∷◌, ◌++◌, arith, Text, pos,
}
use khipu_consensus.Prelude.Int.{leb_ℤ}
use khipu_consensus.Python.Value.{
  Value, Fields, nat, is_str, truthy, hashable-is_str, eq-is_str_refl,
}
use khipu_consensus.Python.Dict.{Dict, lookup, member}
use khipu_consensus.Python.Error.{ok}
use khipu_consensus.Python.Host.{Host}
use khipu_consensus.Verdict.{OrganCheck, from_dict, verify_verdict}
use khipu_consensus.Tally.{canonical, ConsensusResult, key_for, report}
use khipu_consensus.Adversary.{
  add, duplicate_stuffing, honest_verdict, honest_run, honest_allow_count, is_false,
  false_canonical, safety_holds, naive_verdict, naive_run, naive_perverdict_tally,
}
use khipu_consensus.Adversary.Oracle.{at_least-int}

-- A row of a registered witness that counts.
pub record IsGood (H : Host) (action_hash : Value) (pubkeys : Dict Value) (d : Fields)
    : Type 0 where
  pub pem : Value
  pub named : is_str (from_dict d).organ ≡ true
  pub registered : lookup (from_dict d).organ pubkeys ≡ some pem
  pub has_key : truthy pem ≡ true
  pub counts : (verify_verdict H (from_dict d) pem action_hash).counts ≡ true

module _ (H : Host) (action_hash : Value) (pubkeys : Dict Value) (d : Fields)
    (g : IsGood H action_hash pubkeys d) where
  key_found : key_for pubkeys (from_dict d).organ ≡ ok g.pem
  unfolding key_for
  key_found = rw (hashable-is_str (from_dict d).organ g.named, g.registered)

  naive_once :
      (checks : List OrganCheck) (count : ℕ)
      → naive_verdict H action_hash pubkeys (checks, count) (from_dict d)
        ≡ ok (checks ++ verify_verdict H (from_dict d) g.pem action_hash ∷ [], count + 1)
  unfolding naive_verdict
  naive_once checks count = rw (key_found, g.has_key, g.counts)

  naive_many :
      (k : ℕ) (checks : List OrganCheck) (count : ℕ)
      → (cs : List OrganCheck) × (naive_run H action_hash pubkeys
            (checks, count)
            (duplicate_stuffing d k)
          ≡ ok (cs, count + k))
  unfolding naive_run duplicate_stuffing
  naive_many zero checks count = (checks, ground arith)
  naive_many (suc k) checks count =
      let chk = verify_verdict H (from_dict d) g.pem action_hash in
      let (cs, ran) = naive_many k (checks ++ chk ∷ []) (count + 1) in
      (cs, rw (naive_once checks count) (ran ∙ ground arith))

  honest_again :
      (k : ℕ) (s : List Value)
      → member (from_dict d).organ s ≡ true
      → honest_run H action_hash pubkeys s (duplicate_stuffing d k) ≡ ok s
  unfolding honest_run duplicate_stuffing honest_verdict add
  honest_again zero s m = refl
  honest_again (suc k) s m = rw (key_found, g.has_key, g.counts, m) (honest_again k s m)

  itself : member (from_dict d).organ ((from_dict d).organ ∷ []) ≡ true
  unfolding member
  itself = rw (eq-is_str_refl (from_dict d).organ g.named)

  honest_stuffing :
      (k : ℕ) → honest_allow_count H action_hash pubkeys (duplicate_stuffing d (suc k)) ≡ ok 1
  unfolding honest_allow_count honest_run duplicate_stuffing honest_verdict add member
  honest_stuffing k =
      rw (key_found, g.has_key, g.counts) (rw (honest_again k ((from_dict d).organ ∷ []) itself))

  naive_canonical :
      (t : ℕ) (n : Value)
      → (cs : List OrganCheck) × (naive_perverdict_tally H action_hash pubkeys
            (duplicate_stuffing d t)
            (nat t)
            n
          ≡ ok (report H action_hash pubkeys (nat t) n t canonical cs))
  unfolding naive_perverdict_tally
  naive_canonical t n =
      let (cs, ran) = naive_many t [] 0 in
      let none_before : 0 + t ≡ t = omega arith in
      let reached : leb_ℤ (pos t) (pos t) ≡ true = ground arith in
      (cs, rw (ran, none_before, at_least-int t (pos t), reached))

  -- One row that counts for a registered witness, submitted as often as a threshold above 1 asks:
  -- the naive tally calls it canonical, the oracle finds one witness, and the safety check
  -- reports the false-canonical.
  pub naive_is_unsafe :
      (threshold : ℕ) (n : Value) (name : Text)
      → 2 ≤ threshold
      → (r : ConsensusResult) × (naive_perverdict_tally H action_hash pubkeys
            (duplicate_stuffing d threshold)
            (nat threshold)
            n
          ≡ ok r)
        × (r.decision ≡ canonical)
        × (honest_allow_count H action_hash pubkeys (duplicate_stuffing d threshold) ≡ ok 1)
        × (safety_holds H action_hash pubkeys
              (duplicate_stuffing d threshold)
              (nat threshold)
              n
              name
              (naive_perverdict_tally H action_hash pubkeys)
            ≡ ok (false, false_canonical H action_hash pubkeys name r 1 (nat threshold)))
  unfolding safety_holds is_false
  naive_is_unsafe zero n name h = absurd (omega arith)
  naive_is_unsafe (suc zero) n name h = absurd (omega arith)
  naive_is_unsafe (suc (suc m)) n name h =
      let (cs, tallied) = naive_canonical (suc (suc m)) n in
      let honest = honest_stuffing (suc m) in
      let few : leb_ℤ (pos (suc (suc m))) (pos 1) ≡ false = ground arith in
      (
        report H action_hash pubkeys (nat (suc (suc m))) n (suc (suc m)) canonical cs,
        tallied,
        refl,
        honest,
        rw (tallied, honest, at_least-int 1 (pos (suc (suc m))), few),
      )
