-- ===== src/Verify/Attested.antt =====
-- The verification of a receipt that the registry's own attestation made.
use khipu_consensus.Prelude.{
  ℕ, suc, ◌≡◌, refl, sym, ap, ◌∙◌, Bool, true, false, ◌&&◌, Option, none, some, List, [], ◌∷◌,
  arith, All, length, map, text, pos,
}
use khipu_consensus.Prelude.Texts.{text_eq}
use khipu_consensus.Python.Value.{
  Value, str, arr, nat, item_list, items-item_list, Fields, find, get, eq, is_str, or_else, null,
  eq-str_refl,
}
use khipu_consensus.Python.Dict.{Dict, lookup, has_key, member, dict_of, values}
use khipu_consensus.Python.Error.{ok, require, >>=-eq-ok, ok-injective}
use khipu_consensus.Python.Host.{Host}
use khipu_consensus.Registry.{Witness, WitnessRegistry, public_all, all, n, pubkeys}
use khipu_consensus.Registry.Fleet.{IsFleet, IsFleet-AreApart, IsFleet-known, length-pubkeys_onto}
use khipu_consensus.Receipt.{
  MultiWitnessReceipt, to_dict, attest, collect, item_of, signature_value, receipt_schema,
}
use khipu_consensus.Receipt.Rows.{IsProductive, AreAsked, collect-AreSignatures}
use khipu_consensus.Receipt.Backed.{attest-IsAttested}
use khipu_consensus.Tally.{tally, decision_text, valid_quorum_counts, Decision, ConsensusResult}
use khipu_consensus.Verdict.{Moment}
use khipu_consensus.Policy.{Policy, named, resolve_trust_policy, validate_signature_entries}
use khipu_consensus.Policy.Entries.{validate_iff}
use khipu_consensus.Policy.Trusted.{check_policy_cases, given_none, resolve-IsTrusted}
use khipu_consensus.Verify.{policy_matches, safe_items, entry_item, Verification, verify_receipt}
use khipu_consensus.Verify.Decides.{recount, well_formed, verify_under_cases, nat_threshold}
use khipu_consensus.Verify.Embeds.{
  embedded_from-public, dict_eq_refl, int_eq_refl, policy_matches-to_dict,
}

entry_item-signature : (v : Option Fields) → entry_item (signature_value v) ≡ item_of v
entry_item-signature none = refl
entry_item-signature (some d) = refl

entry_items-signatures :
    (vs : List (Option Fields)) → map entry_item (map signature_value vs) ≡ map item_of vs
entry_items-signatures [] = refl
entry_items-signatures (v ∷ vs) = rw (entry_item-signature v, entry_items-signatures vs) refl

length-signatures : (vs : List (Option Fields)) → length (map signature_value vs) ≡ length vs
length-signatures [] = refl
length-signatures (v ∷ vs) = ap (λ (m : ℕ). suc m) (length-signatures vs)

-- the items that a verification submits, for signatures that are accepted
accepted_items :
    (b : Bool) (vs : List (Option Fields))
    → b ≡ true
    → safe_items b (arr (item_list (map signature_value vs))) ≡ map item_of vs
accepted_items true vs h = rw (items-item_list (map signature_value vs)) (entry_items-signatures vs)
accepted_items false vs h = cc

-- What each witness is asked to say is a text.
abbrev pub IsAskedText : Fields → Witness → Type 0
IsAskedText verdicts w =
    is_str (or_else (lookup w.organ (dict_of verdicts)) (str (text "allow"))) ≡ true

module _ (H : Host) (action_hash : Value) (reg : WitnessRegistry) (verdicts : Fields)
    (reason lean_sha : Value) (moments : Value → Moment) where
  attest_fields :
      (r : MultiWitnessReceipt)
      → attest H action_hash reg verdicts reason lean_sha moments ≡ ok r
      → (collect H action_hash verdicts reason lean_sha moments (all reg) ≡ ok r.signatures)
        × (r.schema ≡ receipt_schema)
        × (r.action_hash ≡ action_hash)
        × (r.threshold ≡ reg.threshold)
        × (r.n ≡ n reg)
        × (r.witnesses ≡ public_all H reg)
  unfolding attest
  attest_fields r h =
      let (u, valid, h1) =
        >>=-eq-ok (require (valid_quorum_counts reg.threshold (nat (n reg))) _) _ h in
      let (collected, signed, h2) =
        >>=-eq-ok (collect H action_hash verdicts reason lean_sha moments (all reg)) _ h1 in
      let (result, tallied, h3) =
        >>=-eq-ok
          (tally H action_hash (pubkeys reg) (map item_of collected) reg.threshold (nat (n reg))) _
          h2 in
      let e = ok-injective h3 in
      (
        signed ∙ ap (λ (x : MultiWitnessReceipt). ok x.signatures) e,
        sym (ap (λ (x : MultiWitnessReceipt). x.schema) e),
        sym (ap (λ (x : MultiWitnessReceipt). x.action_hash) e),
        sym (ap (λ (x : MultiWitnessReceipt). x.threshold) e),
        sym (ap (λ (x : MultiWitnessReceipt). x.n) e),
        sym (ap (λ (x : MultiWitnessReceipt). x.witnesses) e),
      )

length-values : (d : List (Value × Witness)) → length (values d) ≡ length d
length-values [] = refl
length-values ((k, w) ∷ d) = ap (λ (m : ℕ). suc m) (length-values d)

-- What each witness is asked to say is a text, and the witnesses are keys of their own dict.
fleet-AreAsked :
    (H : Host) (productive : IsProductive H) (trusted : Dict Value) (verdicts : Fields)
    (ws : List Witness)
    → All (λ (w : Witness). (named w.organ ≡ true) × (has_key w.organ trusted ≡ true)) ws
    → All (IsAskedText verdicts) ws
    → AreAsked H productive trusted verdicts ws
fleet-AreAsked H productive trusted verdicts [] k a = tt
fleet-AreAsked H productive trusted verdicts (w ∷ ws) ((name, known), k) (says, a) =
    ((name, known, says), fleet-AreAsked H productive trusted verdicts ws k a)

module _ (H : Host) (reg : WitnessRegistry) (p : Policy) where
  registry_policy :
      IsFleet [] (all reg)
      → resolve_trust_policy H none null (some reg) ≡ ok p
      → (p.trusted_pubkeys ≡ pubkeys reg)
        × (p.trusted_threshold ≡ reg.threshold)
        × (p.trusted_n ≡ n reg)
  unfolding pubkeys n all member
  registry_policy fleet h =
      let (_, _, keys, level, size) =
        check_policy_cases H (pubkeys reg) reg.threshold p (given_none H none null reg p h) in
      (
        keys,
        level,
        omega (
          arith,
          size,
          length-pubkeys_onto [] (values reg.witnesses) fleet,
          length-values reg.witnesses,
        ),
      )

module _ (H : Host) (productive : IsProductive H) (reg : WitnessRegistry) (p : Policy)
    (fleet : IsFleet [] (all reg)) (resolved : resolve_trust_policy H none null (some reg) ≡ ok p)
    (action_hash : Value) (verdicts : Fields) (reason lean_sha : Value) (moments : Value → Moment)
    (r : MultiWitnessReceipt)
    (attested : attest H action_hash reg verdicts reason lean_sha moments ≡ ok r) where
  accepts :
      is_str reason ≡ true
      → All (IsAskedText verdicts) (all reg)
      → (validate_signature_entries H p.trusted_pubkeys
          (arr (item_list (map signature_value r.signatures)))
          p.trusted_n).0
        ≡ true
  unfolding pubkeys n all member
  accepts text_reason asked =
      let (keys, level, size) = registry_policy H reg p fleet resolved in
      let (signed, _, _, _, _, _) =
        attest_fields H action_hash reg verdicts reason lean_sha moments r attested in
      let apart = IsFleet-AreApart [] [] (all reg) (λ v e. refl) fleet in
      let known = IsFleet-known [] (all reg) fleet in
      let (are, long) =
        collect-AreSignatures H productive (pubkeys reg) action_hash verdicts reason lean_sha
          moments (all reg) [] r.signatures text_reason
          (fleet-AreAsked H productive (pubkeys reg) verdicts (all reg) known asked) apart signed in
      (validate_iff H p.trusted_pubkeys (item_list (map signature_value r.signatures))
          p.trusted_n).1
        (rw (items-item_list (map signature_value r.signatures), keys)
          (
            omega (arith, size, long, length-signatures r.signatures, length-values reg.witnesses),
            are,
          ))

  matches_policy : policy_matches (to_dict r) p ≡ true
  unfolding pubkeys all public_all
  matches_policy =
      let (keys, level, size) = registry_policy H reg p fleet resolved in
      let (_, _, _, threshold, size', witnesses) =
        attest_fields H action_hash reg verdicts reason lean_sha moments r attested in
      let trusted = resolve-IsTrusted H none null (some reg) p tt resolved in
      let (t, is_count) = nat_threshold p.trusted_threshold (nat p.trusted_n) trusted.quorum in
      policy_matches-to_dict r p (rw (witnesses, keys) (embedded_from-public H [] (all reg) fleet))
        (dict_eq_refl p.trusted_pubkeys trusted.distinct trusted.keyed)
        (rw (threshold, ← level, is_count) (int_eq_refl (pos t)))
        (rw (size', size) (int_eq_refl (pos (n reg))))

  verifies_well :
      is_str reason ≡ true
      → All (IsAskedText verdicts) (all reg)
      → well_formed H (to_dict r) p ≡ true
  unfolding to_dict find text_eq
  verifies_well text_reason asked =
      let (_, schema, _, _, _, _) =
        attest_fields H action_hash reg verdicts reason lean_sha moments r attested in
      ground (
        arith,
        matches_policy,
        accepts text_reason asked,
        ap str schema,
        eq-str_refl receipt_schema,
      )

  recounts :
      is_str reason ≡ true
      → All (IsAskedText verdicts) (all reg)
      → recount H (to_dict r) p
        ≡ tally H action_hash (pubkeys reg) (map item_of r.signatures) reg.threshold (nat (n reg))
  unfolding to_dict find text_eq
  recounts text_reason asked =
      let (keys, level, size) = registry_policy H reg p fleet resolved in
      let (_, _, action, _, _, _) =
        attest_fields H action_hash reg verdicts reason lean_sha moments r attested in
      let items_same = accepted_items _ r.signatures (accepts text_reason asked) in
      rw (items_same, action, keys, level, size) refl

claims :
    (r : MultiWitnessReceipt) (d : Decision) (b : Bool)
    → b ≡ true
    → d ≡ r.decision
    → b && eq (str (decision_text d)) (get (to_dict r) (text "decision")) ≡ true
unfolding to_dict find text_eq
claims r d b well same = rw (well, same) (eq-str_refl (decision_text r.decision))

module _ (H : Host) (productive : IsProductive H) (reg : WitnessRegistry) (action_hash : Value)
    (verdicts : Fields) (reason lean_sha : Value) (moments : Value → Moment) where
  -- A receipt that `attest` makes and that is verified under its own registry gets the decision
  -- and the count that it states, and the verification says that they match. The witnesses have
  -- distinct non-empty names and keys that are not blank, each is asked to say a text, the reason
  -- is a text, neither the encoding of an object nor a signature is empty, and both calls return.
  pub verify_receipt-attest :
      (r : MultiWitnessReceipt) (v : Verification)
      → IsFleet [] (all reg)
      → is_str reason ≡ true
      → All (IsAskedText verdicts) (all reg)
      → attest H action_hash reg verdicts reason lean_sha moments ≡ ok r
      → verify_receipt H (to_dict r) none null (some reg) ≡ ok v
      → (v.decision ≡ r.decision)
        × (v.consensus_count ≡ r.consensus_count)
        × (v.matches_claimed_decision ≡ true)
  unfolding verify_receipt
  verify_receipt-attest r v fleet text_reason asked attested h =
      let (p, resolved, h1) = >>=-eq-ok (resolve_trust_policy H none null (some reg)) _ h in
      let (result, tallied, decided, counted, matches) = verify_under_cases H (to_dict r) p v h1 in
      let well =
        verifies_well H productive reg p fleet resolved action_hash verdicts reason lean_sha moments
          r attested text_reason asked in
      let same_run =
        recounts H productive reg p fleet resolved action_hash verdicts reason lean_sha moments r
          attested text_reason asked in
      let a = attest-IsAttested H action_hash reg verdicts reason lean_sha moments r attested in
      let same = ok-injective (sym tallied ∙ same_run ∙ a.tallied) in
      let agree = rw (well, same, ← a.decides) at decided in
      (
        agree,
        counted ∙ ap (λ (x : ConsensusResult). x.consensus_count) same ∙ sym a.counts,
        matches ∙ claims r v.decision (well_formed H (to_dict r) p) well agree,
      )
