-- ===== src/Tally/Count.antt =====
-- What `tally` counts, told without its loop: the registered witnesses that some item vouches for.
use khipu_consensus.Prelude.{
  ℕ, ◌≡◌, refl, sym, ap, ◌∙◌, Bool, true, false, ◌&&◌, ◌||◌, Option, none, some, List, [], ◌∷◌,
  arith, ◌⊎◌, inl, inr, Bool-cases, count, any, All-map, text,
}
use khipu_consensus.Python.Value.{Value, str, eq, is_str, truthy, eq-is_str→≡}
use khipu_consensus.Python.Dict.{Dict, lookup, member}
use khipu_consensus.Python.Dict.Keys.{
  HasTextKeys, IsEntryOf, entries-IsEntryOf, covered, covered-insert, count-ext,
}
use khipu_consensus.Python.Error.{Result, ok, >>=-eq-ok}
use khipu_consensus.Python.Host.{Host}
use khipu_consensus.Verdict.{OrganVerdict, from_dict, verify_verdict}
use khipu_consensus.Tally.{
  Item, abstain, verdict, row, other, Progress, outset, key_for, settle, admit, step, run,
}

-- the verdict that an item brings
abbrev pub verdict_of : Item → Option OrganVerdict
verdict_of abstain = none
verdict_of (verdict v) = some v
verdict_of (row d) = some (from_dict d)
verdict_of (other v) = none

module _ (H : Host) (action_hash : Value) where
  -- The item holds a verdict of this witness that verifies under the witness's key and counts.
  abbrev pub vouches : Value × Value → Item → Bool
  vouches (organ, pem) i = elim (verdict_of i) [
    | none ↦ false
    | some v ↦ eq v.organ organ && (verify_verdict H v pem action_hash).counts
  ]

  -- a witness with a key, for whom some item vouches
  abbrev pub vouched : List Item → Value × Value → Bool
  vouched is (organ, pem) = truthy pem && any (vouches (organ, pem)) is

  -- The number of registered witnesses that genuinely allow the action.
  abbrev pub valid_count : Dict Value → List Item → ℕ
  valid_count pubkeys is = count (vouched is) pubkeys

  module _ (pubkeys : Dict Value) where
    -- the witnesses that are counted after one verdict
    settle_counted :
        (p : Progress) (v : OrganVerdict) (pem k : Value)
        → is_str k ≡ true
        → member k (settle H action_hash pubkeys p v pem).counted ≡ (
            member k p.counted
            || (eq v.organ k && (truthy pem && (verify_verdict H v pem action_hash).counts)))
    unfolding settle member
    settle_counted p v pem k text = elim (Bool-cases (eq v.organ k)) [
      | inl same ↦
          let is_k : v.organ ≡ k = eq-is_str→≡ v.organ k text same in
          let alike : member v.organ p.counted ≡ member k p.counted =
            ap (λ (w : Value). member w p.counted) is_k in
          ground (arith, alike)
      | inr apart ↦ ground arith
    ]

    -- the count stays the number of keys that are counted
    settle_count :
        (p : Progress) (v : OrganVerdict) (pem : Value)
        → HasTextKeys pubkeys
        → lookup v.organ pubkeys ≡ some pem
        → p.count ≡ covered p.counted pubkeys
        → let q = settle H action_hash pubkeys p v pem in q.count ≡ covered q.counted pubkeys
    unfolding settle
    settle_count p v pem t found h = elim (Bool-cases (member v.organ p.counted)) [
      | inl old ↦ ground arith
      | inr new ↦ ground (arith, covered-insert v.organ pem p.counted pubkeys t found new)
    ]

    -- without a key nothing is counted
    settle_keyless :
        (p : Progress) (v : OrganVerdict)
        → let q = settle H action_hash pubkeys p v (str (text "")) in
          (q.count ≡ p.count) × (q.counted ≡ p.counted)
    unfolding settle
    settle_keyless p v = (refl, refl)

    -- What the loop's body keeps, at each entry of the registry and for the count.
    record Advances (p : Progress) (i : Item) (q : Progress) : Type 0 where
      count_kept : p.count ≡ covered p.counted pubkeys → q.count ≡ covered q.counted pubkeys
      counted_at :
          (e : Value × Value)
          → IsEntryOf pubkeys e
          → member e.0 q.counted ≡ (member e.0 p.counted || (truthy e.1 && vouches e i))

    key_for_cases :
        (o pem : Value)
        → key_for pubkeys o ≡ ok pem
        → ((lookup o pubkeys ≡ none) × (pem ≡ str (text ""))) ⊎ (lookup o pubkeys ≡ some pem)
    unfolding key_for
    key_for_cases o pem h = ground arith

    lookup_at_entry :
        (o : Value) (e : Value × Value)
        → IsEntryOf pubkeys e
        → eq o e.0 ≡ true
        → lookup o pubkeys ≡ some e.1
    lookup_at_entry o e (text, found) same =
        let o_is : o ≡ e.0 = eq-is_str→≡ o e.0 text same in rw o_is found

    key_for_found :
        (o pem found : Value)
        → key_for pubkeys o ≡ ok pem
        → lookup o pubkeys ≡ some found
        → pem ≡ found
    unfolding key_for
    key_for_found o pem found h e = ground arith

    settle_counted_at :
        (p : Progress) (i : Item) (v : OrganVerdict) (pem : Value) (e : Value × Value)
        → verdict_of i ≡ some v
        → key_for pubkeys v.organ ≡ ok pem
        → IsEntryOf pubkeys e
        → member e.0 (settle H action_hash pubkeys p v pem).counted
          ≡ (member e.0 p.counted || (truthy e.1 && vouches e i))
    settle_counted_at p i v pem e iv h entry = elim (Bool-cases (eq v.organ e.0)) [
      | inl same ↦
          let at_e : lookup v.organ pubkeys ≡ some e.1 = lookup_at_entry v.organ e entry same in
          let same_pem : pem ≡ e.1 = key_for_found v.organ pem e.1 h at_e in
          ground (arith, settle_counted p v pem e.0 entry.0)
      | inr apart ↦ ground (arith, settle_counted p v pem e.0 entry.0)
    ]

    settle-Advances :
        HasTextKeys pubkeys
        → (p : Progress) (i : Item) (v : OrganVerdict) (pem : Value) → verdict_of i ≡ some v
        → key_for pubkeys v.organ ≡ ok pem
        → Advances p i (settle H action_hash pubkeys p v pem)
    settle-Advances t p i v pem iv h = record {
      count_kept = λ kept. elim (key_for_cases v.organ pem h) [
        | inl (absent, keyless) ↦ rw (keyless, (settle_keyless p v).0, (settle_keyless p v).1) kept
        | inr found ↦ settle_count p v pem t found kept
      ];
      counted_at = λ e entry. settle_counted_at p i v pem e iv h entry;
    }

    subst-Advances :
        {p : Progress} {i : Item} {q r : Progress}
        → Advances p i q
        → Path (Result Progress) (ok q) (ok r)
        → Advances p i r
    subst-Advances {p} {i} {q} {r} a e = let same : q ≡ r = cc in rw (← same) a

    -- One round of the loop, whatever the item.
    step-Advances :
        HasTextKeys pubkeys
        → (p q : Progress) (i : Item) → step H action_hash pubkeys p i ≡ ok q
        → Advances p i q
    unfolding step admit
    step-Advances t p q abstain h = record {
      count_kept = λ kept. ground arith;
      counted_at = λ e entry. ground arith;
    }
    step-Advances t p q (verdict v) h =
        let (pem, found, e) = >>=-eq-ok (key_for pubkeys v.organ) _ h in
        subst-Advances (settle-Advances t p (verdict v) v pem refl found) e
    step-Advances t p q (row d) h =
        let (pem, found, e) = >>=-eq-ok (key_for pubkeys (from_dict d).organ) _ h in
        subst-Advances (settle-Advances t p (row d) (from_dict d) pem refl found) e
    step-Advances t p q (other v) h = cc

    none_covered : (d : Dict Value) → covered [] d ≡ 0
    unfolding member
    none_covered [] = refl
    none_covered (e ∷ d) = none_covered d

    -- Pointwise equal tests count the same entries.
    recount :
        HasTextKeys pubkeys
        → (f g : Value × Value → Bool) → ((e : Value × Value) → IsEntryOf pubkeys e → f e ≡ g e)
        → count f pubkeys ≡ count g pubkeys
    recount t f g same =
        count-ext f g pubkeys
          (All-map (IsEntryOf pubkeys) (λ e. f e ≡ g e) pubkeys same (entries-IsEntryOf pubkeys t))

    run_count :
        HasTextKeys pubkeys
        → (p q : Progress) (is : List Item) → p.count ≡ covered p.counted pubkeys
        → run H action_hash pubkeys p is ≡ ok q
        → q.count ≡ count (λ e. member e.0 p.counted || vouched is e) pubkeys
    unfolding run
    run_count t p q [] kept h =
        let same : p ≡ q = cc in rw (← same) (kept ∙ recount t _ _ (λ e entry. ground arith))
    run_count t p q (i ∷ is) kept h =
        let (p', stepped, rest) =
          >>=-eq-ok (step H action_hash pubkeys p i) (λ r. run H action_hash pubkeys r is) h in
        let a = step-Advances t p p' i stepped in
        run_count t p' q is (a.count_kept kept) rest
        ∙ recount t _ _ (λ e entry. ground (arith, a.counted_at e entry))

    -- The loop counts each witness once: the count is that of the witnesses vouched for.
    pub run-valid_count :
        HasTextKeys pubkeys
        → (is : List Item) (q : Progress) → run H action_hash pubkeys outset is ≡ ok q
        → q.count ≡ valid_count pubkeys is
    unfolding member
    run-valid_count t is q h = run_count t outset q is (sym (none_covered pubkeys)) h
