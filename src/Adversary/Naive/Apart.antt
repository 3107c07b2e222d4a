-- ===== src/Adversary/Naive/Apart.antt =====
-- The naive tally in a round of named witnesses: that it returns, and that it counts as the oracle
-- does where no witness stands twice.
use khipu_consensus.Prelude.{
  ℕ, ◌+◌, ◌≤◌, ◌≡◌, refl, ◌∙◌, Bool, true, false, not, ◌&&◌, List, [], ◌∷◌, ◌++◌, arith, inl, inr,
  Bool-cases, All, length, count, one_if, if◌then◌else◌, Text, text, ℤ, pos,
}
use khipu_consensus.Prelude.Int.{leb_ℤ}
use khipu_consensus.Python.Value.{
  Value, Fields, str, int, eq, eq-str_refl, truthy, hashable, or_else,
}
use khipu_consensus.Python.Dict.{Dict, lookup, member}
use khipu_consensus.Python.Error.{ok}
use khipu_consensus.Python.Host.{Host}
use khipu_consensus.Verdict.{OrganCheck, from_dict, verify_verdict}
use khipu_consensus.Tally.{
  ConsensusResult, Item, abstain, verdict, row, other, abstained, no_public_key, key_for, Decision,
  canonical, rejected, report,
}
use khipu_consensus.Adversary.{
  add, decision_of, is_false, honest_verdict, honest_run, honest_allow_count, safety_holds,
  false_canonical, naive_verdict, naive_run, naive_perverdict_tally,
}
use khipu_consensus.Adversary.Oracle.{at_least-int, honest_allow_count_total}
use khipu_consensus.Adversary.Battery.Rounds.{IsNamed, IsText, names, All-HasHash}

-- A witness that is named now is not in a set of names that are not named again.
new_to :
    (d : Fields) (o : Text) (s : List Value) (is : List Item)
    → (from_dict d).organ ≡ str o
    → ((k : Text) → member (str k) s ≡ true → count (names k) (row d ∷ is) ≡ 0)
    → member (str o) s ≡ false
new_to d o s is e apart = elim (Bool-cases (member (str o) s)) [
  | inr new ↦ new
  | inl old ↦
      let named : names o (row d) ≡ true = rw e (eq-str_refl o) in
      absurd (let z = apart o old in ground (arith, z, named))
]

no_member : (k : Text) → member (str k) [] ≡ true → ⊥
unfolding member
no_member k m = cc

later :
    (d : Fields) (o k : Text) (s : List Value) (is : List Item)
    → (from_dict d).organ ≡ str o
    → count (names k) (row d ∷ is) ≤ 1
    → (member (str k) s ≡ true → count (names k) (row d ∷ is) ≡ 0)
    → member (str k) (str o ∷ s) ≡ true
    → count (names k) is ≡ 0
unfolding member
later d o k s is e once apart m = elim (Bool-cases (eq (str o) (str k))) [
  | inl same ↦ let named : names k (row d) ≡ true = rw e same in ground (arith, once, named)
  | inr other_one ↦ let z = apart (rw (other_one, member) at m) in ground (arith, z)
]

module _ (H : Host) (action_hash : Value) (pubkeys : Dict Value) where
  -- the key of a row's witness, and whether the row counts under it
  abbrev pem_of : Fields → Value
  pem_of d = or_else (lookup (from_dict d).organ pubkeys) (str (text ""))

  abbrev vouches : Fields → Bool
  vouches d = truthy (pem_of d) && (verify_verdict H (from_dict d) (pem_of d) action_hash).counts

  key_found : (d : Fields) → IsText d → key_for pubkeys (from_dict d).organ ≡ ok (pem_of d)
  unfolding key_for
  key_found d (o, e) = let h : hashable (from_dict d).organ ≡ true = rw e refl in rw h refl

  naive_once :
      (d : Fields) (checks : List OrganCheck) (c : ℕ)
      → IsText d
      → (r : OrganCheck) × (naive_verdict H action_hash pubkeys (checks, c) (from_dict d)
          ≡ ok (checks ++ r ∷ [], c + one_if (vouches d)))
  unfolding naive_verdict
  naive_once d checks c t =
      let found = key_found d t in
      let chk = verify_verdict H (from_dict d) (pem_of d) action_hash in
      elim (Bool-cases (truthy (pem_of d))) [
        | inr no_key ↦ (no_public_key (from_dict d), rw (found, no_key) (ground arith))
        | inl has_key ↦ (chk, rw (found, has_key) (ground arith))
      ]

  honest_once :
      (d : Fields) (s : List Value)
      → IsText d
      → honest_verdict H action_hash pubkeys s (from_dict d)
        ≡ ok (if vouches d then add (from_dict d).organ s else s)
  unfolding honest_verdict
  honest_once d s t = rw (key_found d t) (ground arith)

  honest_stays :
      (d : Fields) (s : List Value)
      → IsText d
      → vouches d ≡ false
      → honest_verdict H action_hash pubkeys s (from_dict d) ≡ ok s
  honest_stays d s t fails = honest_once d s t ∙ rw fails refl

  honest_grows :
      (d : Fields) (o : Text) (s : List Value)
      → (from_dict d).organ ≡ str o
      → vouches d ≡ true
      → member (str o) s ≡ false
      → honest_verdict H action_hash pubkeys s (from_dict d) ≡ ok (str o ∷ s)
  unfolding add
  honest_grows d o s e counts fresh =
      let added : add (from_dict d).organ s ≡ str o ∷ s = rw (e, fresh) refl in
      honest_once d s (o, e) ∙ rw (counts, added) refl

  naive_run_total :
      (is : List Item) (checks : List OrganCheck) (c : ℕ)
      → All IsNamed is
      → (out : List OrganCheck × ℕ) × (naive_run H action_hash pubkeys (checks, c) is ≡ ok out)
  unfolding naive_run
  naive_run_total [] checks c h = ((checks, c), refl)
  naive_run_total (abstain ∷ is) checks c (_, h) = naive_run_total is (checks ++ abstained ∷ []) c h
  naive_run_total (row d ∷ is) checks c (t, h) =
      let (r, once) = naive_once d checks c t in
      let (out, ran) = naive_run_total is (checks ++ r ∷ []) (c + one_if (vouches d)) h in
      (out, rw once ran)
  naive_run_total (verdict v ∷ is) checks c (n, h) = absurd n
  naive_run_total (other v ∷ is) checks c (n, h) = absurd n

  -- Where no witness stands twice, the naive count grows as the oracle's set does.
  naive_run-honest_run :
      (is : List Item) (checks : List OrganCheck) (c : ℕ) (s : List Value)
      → All IsNamed is
      → ((k : Text) → count (names k) is ≤ 1)
      → ((k : Text) → member (str k) s ≡ true → count (names k) is ≡ 0)
      → (out : List OrganCheck × ℕ) × ((s' : List Value) × (naive_run H action_hash pubkeys
              (checks, c)
              is
            ≡ ok out)
          × (honest_run H action_hash pubkeys s is ≡ ok s')
          × (out.1 + length s ≡ c + length s'))
  unfolding naive_run honest_run
  naive_run-honest_run [] checks c s h once apart = ((checks, c), (s, refl, refl, refl))
  naive_run-honest_run (abstain ∷ is) checks c s (_, h) once apart =
      naive_run-honest_run is (checks ++ abstained ∷ []) c s h once apart
  naive_run-honest_run (row d ∷ is) checks c s ((o, e), h) once apart =
      let (r, naive) = naive_once d checks c (o, e) in
      elim (Bool-cases (vouches d)) [
        | inr fails ↦
            let (out, (s', ran, same, sums)) =
              naive_run-honest_run is (checks ++ r ∷ []) (c + one_if (vouches d)) s h
                (λ k. let b = once k in ground (arith, b))
                (λ k m. let z = apart k m in ground (arith, z)) in
            (
              out,
              (
                s',
                rw naive ran,
                rw (honest_stays d s (o, e) fails) same,
                ground (arith, sums, fails),
              ),
            )
        | inl counts ↦
            let grows = honest_grows d o s e counts (new_to d o s is e apart) in
            let (out, (s', ran, same, sums)) =
              naive_run-honest_run is (checks ++ r ∷ []) (c + one_if (vouches d)) (str o ∷ s) h
                (λ k. let b = once k in ground (arith, b))
                (λ k m. later d o k s is e (once k) (apart k) m) in
            (out, (s', rw naive ran, rw grows same, ground (arith, sums, counts)))
      ]
  naive_run-honest_run (verdict v ∷ is) checks c s (n, h) once apart = absurd n
  naive_run-honest_run (other v ∷ is) checks c s (n, h) once apart = absurd n

  module _ (is : List Item) (t : ℤ) (n : Value) (name : Text) (named : All IsNamed is) where
    is_false_total :
        (d : Decision) (honest : ℕ) → (bad : Bool) × (is_false d honest (int t) ≡ ok bad)
    unfolding is_false
    is_false_total canonical honest = (not (leb_ℤ t (pos honest)), rw (at_least-int honest t) refl)
    is_false_total rejected honest = (false, refl)

    pub naive_total :
        (res : ConsensusResult) × (naive_perverdict_tally H action_hash pubkeys is (int t) n
          ≡ ok res)
    unfolding naive_perverdict_tally
    naive_total =
        let ((checks, c), ran) = naive_run_total is [] 0 named in
        (
          report H action_hash pubkeys (int t) n c (decision_of (leb_ℤ t (pos c))) checks,
          rw (ran, at_least-int c t) refl,
        )

    -- The naive tally of a round of named witnesses is found safe or not.
    pub safety_holds-naive_total :
        (out : Bool × Text) × (safety_holds H action_hash pubkeys is
            (int t)
            n
            name
            (naive_perverdict_tally H action_hash pubkeys)
          ≡ ok out)
    unfolding safety_holds
    safety_holds-naive_total =
        let (res, tallied) = naive_total in
        let (k, honest) =
          honest_allow_count_total H action_hash pubkeys is (All-HasHash is named) in
        let (bad, judged) = is_false_total res.decision k in
        (
          if bad
              then (false, false_canonical H action_hash pubkeys name res k (int t))
              else (true, text "ok"),
          rw (tallied, honest, judged) refl,
        )

    -- It is safe where no witness stands twice.
    pub safety_holds-naive_apart :
        ((k : Text) → count (names k) is ≤ 1)
        → safety_holds H action_hash pubkeys is
            (int t)
            n
            name
            (naive_perverdict_tally H action_hash pubkeys)
          ≡ ok (true, text "ok")
    unfolding safety_holds naive_perverdict_tally is_false honest_allow_count
    safety_holds-naive_apart once =
        let ((checks, c), (s, ran, honest, sums)) =
          naive_run-honest_run is [] 0 [] named once (λ k m. absurd (no_member k m)) in
        let same : length s ≡ c = omega (arith, sums) in
        elim (Bool-cases (leb_ℤ t (pos c))) [
          | inr short ↦ rw (ran, at_least-int c t, short, honest) refl
          | inl enough ↦
              rw (ran, at_least-int c t, enough, honest, same, at_least-int c t, enough) refl
        ]
