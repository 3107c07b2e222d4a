-- ===== src/Verify/Decides.antt =====
-- What the verification of a receipt decides, and on what.
use khipu_consensus.Prelude.{
  ℕ, ◌≤◌, ◌≡◌, refl, sym, ap, ◌∙◌, ◌↔◌, Bool, true, false, ◌&&◌, List, [], arith, All,
  if◌then◌else◌, Text, text, pos, negsuc,
}
use khipu_consensus.Python.Value.{
  Value, null, bool, float, str, arr, obj, int, nat, items, Fields, get, eq, eq-text→≡, eq-str_refl,
}
use khipu_consensus.Python.Error.{Result, ok, >>=-eq-ok, >>=-total, ok-injective}
use khipu_consensus.Python.Host.{Host}
use khipu_consensus.Tally.{
  Decision, canonical, rejected, decision_text, ConsensusResult, Item, valid_quorum_counts, tally,
}
use khipu_consensus.Tally.Count.{valid_count}
use khipu_consensus.Tally.Outcome.{tally-valid_count}
use khipu_consensus.Tally.Rows.{HasHash, tally_total}
use khipu_consensus.Receipt.{receipt_schema}
use khipu_consensus.Policy.{Policy, embedded_pubkeys, validate_signature_entries}
use khipu_consensus.Policy.Trusted.{IsTrusted}
use khipu_consensus.Policy.Entries.{AreSignatures-HasHash, validate_iff}
use khipu_consensus.Verify.Matched.{EmbedsPolicy, policy_matches-EmbedsPolicy}
use khipu_consensus.Verify.{
  safe_items, Verification, policy_object, policy_matches, canonical_sha256, verify_under,
}

-- A valid threshold is a count.
pub nat_threshold :
    (threshold n : Value) → valid_quorum_counts threshold n ≡ true → (t : ℕ) × (threshold ≡ nat t)
unfolding valid_quorum_counts
nat_threshold (int (pos t)) n q = (t, refl)
nat_threshold (int (negsuc t)) (int z) q = ground arith
nat_threshold (int (negsuc t)) null q = cc
nat_threshold (int (negsuc t)) (bool b) q = cc
nat_threshold (int (negsuc t)) (float m k) q = cc
nat_threshold (int (negsuc t)) (str s) q = cc
nat_threshold (int (negsuc t)) (arr xs) q = cc
nat_threshold (int (negsuc t)) (obj f) q = cc
nat_threshold null n q = cc
nat_threshold (bool b) n q = cc
nat_threshold (float m k) n q = cc
nat_threshold (str s) n q = cc
nat_threshold (arr xs) n q = cc
nat_threshold (obj f) n q = cc

all_three : (a b c : Bool) → (a && b && c ≡ true) ↔ ((a ≡ true) × (b ≡ true) × (c ≡ true))
all_three a b c = (λ h. (ground arith, ground arith, ground arith), λ (e, f, g). rw (e, f, g) refl)

pub guarded :
    (b : Bool) (d e : Decision)
    → d ≡ (if b then e else rejected)
    → (d ≡ canonical) ↔ ((b ≡ true) × (e ≡ canonical))
guarded true d e h = (λ c. (refl, sym h ∙ c), λ (_, c). h ∙ c)
guarded false d e h = (λ c. absurd cc, λ (b, _). absurd cc)

module _ (H : Host) (receipt : Fields) (p : Policy) where
  abbrev sigs : Value
  sigs = get receipt (text "signatures")

  abbrev accepted : Bool
  accepted = (validate_signature_entries H p.trusted_pubkeys sigs p.trusted_n).0

  abbrev schema_right : Bool
  schema_right = eq (get receipt (text "schema")) (str receipt_schema)

  -- the verdicts that are tallied
  abbrev pub submitted : List Item
  submitted = safe_items accepted sigs

  abbrev pub recount : Result ConsensusResult
  recount =
      tally H (get receipt (text "action_hash")) p.trusted_pubkeys submitted p.trusted_threshold
        (nat p.trusted_n)

  -- the three tests in front of the decision
  abbrev pub well_formed : Bool
  well_formed = schema_right && policy_matches receipt p && accepted

  -- the same, with what the policy that the receipt embeds has to be
  abbrev pub IsInOrder : Type 0
  IsInOrder = (schema_right ≡ true) × EmbedsPolicy receipt p × (accepted ≡ true)

  well_formed-IsInOrder : (well_formed ≡ true) ↔ IsInOrder
  well_formed-IsInOrder =
      let parts = all_three schema_right (policy_matches receipt p) accepted in
      let embeds = policy_matches-EmbedsPolicy receipt p in
      (
        λ h. let (right, matches, valid) = parts.0 h in (right, embeds.0 matches, valid),
        λ (right, embedded, valid). parts.1 (right, embeds.1 embedded, valid),
      )

  -- what a verification that returns went through
  pub verify_under_cases :
      (v : Verification)
      → verify_under H receipt p ≡ ok v
      → (r : ConsensusResult) × (recount ≡ ok r)
        × (v.decision ≡ (if well_formed then r.decision else rejected))
        × (v.consensus_count ≡ r.consensus_count)
        × (v.matches_claimed_decision
            ≡ (well_formed && eq (str (decision_text v.decision)) (get receipt (text "decision"))))
  unfolding verify_under
  verify_under_cases v h =
      let (r, tallied, h1) = >>=-eq-ok recount _ h in
      let (a, digest, h2) = >>=-eq-ok (canonical_sha256 H (obj receipt)) _ h1 in
      let (b, policy, h3) = >>=-eq-ok (canonical_sha256 H (policy_object p)) _ h2 in
      let e = ok-injective h3 in
      (
        r,
        tallied,
        sym (ap (λ (u : Verification). u.decision) e),
        sym (ap (λ (u : Verification). u.consensus_count) e),
        sym (ap (λ (u : Verification). u.matches_claimed_decision) e)
            ∙ ap
                (λ (d : Decision).
                  well_formed && eq (str (decision_text d)) (get receipt (text "decision")))
                (ap (λ (u : Verification). u.decision) e),
      )

  abbrev vouching : ℕ
  vouching = valid_count H (get receipt (text "action_hash")) p.trusted_pubkeys submitted

  recount_decides :
      (t : ℕ) (r : ConsensusResult)
      → IsTrusted p
      → p.trusted_threshold ≡ nat t
      → recount ≡ ok r
      → (r.consensus_count ≡ vouching) × ((r.decision ≡ canonical) ↔ (t ≤ vouching))
  recount_decides t r trusted level h =
      tally-valid_count H (get receipt (text "action_hash")) p.trusted_pubkeys submitted t
        (nat p.trusted_n) r trusted.distinct (rw (← level) trusted.quorum) (rw (← level) h)

  -- Under a trusted policy, a verification that returns says canonical exactly if the schema is
  -- right, the receipt embeds well-formed keys, the same as the trusted ones, with the trusted
  -- threshold and the number of the trusted witnesses, the list of signatures is accepted, and
  -- the number of trusted witnesses that the tallied signatures vouch for reaches the trusted
  -- threshold. Its count is that number.
  pub verify_under_decides :
      (v : Verification)
      → IsTrusted p
      → verify_under H receipt p ≡ ok v
      → (v.consensus_count
          ≡ valid_count H (get receipt (text "action_hash")) p.trusted_pubkeys submitted)
        × ((v.decision ≡ canonical) ↔ (
            IsInOrder
            × ((t : ℕ) × (p.trusted_threshold ≡ nat t)
                × (t
                    ≤ valid_count H
                        (get receipt (text "action_hash"))
                        p.trusted_pubkeys
                        submitted))))
  verify_under_decides v trusted h =
      let (r, tallied, decided, counted, _) = verify_under_cases v h in
      let (t, level) = nat_threshold p.trusted_threshold (nat p.trusted_n) trusted.quorum in
      let (exact, (to, _)) = recount_decides t r trusted level tallied in
      let split = guarded well_formed v.decision r.decision decided in
      (
        counted ∙ exact,
        (
          λ c. let (w, d) = split.0 c in (well_formed-IsInOrder.0 w, (t, level, to d)),
          λ (w, (u, level', le)).
              split.1
                (well_formed-IsInOrder.1 w, ((recount_decides u r trusted level' tallied).1).1 le),
        ),
      )

  -- A verification that returns claims to match the receipt's decision exactly if the schema, the
  -- policy and the signatures are in order and the decision that it reached itself is the text
  -- that the receipt states.
  pub verify_under_matches :
      (v : Verification)
      → verify_under H receipt p ≡ ok v
      → (v.matches_claimed_decision ≡ true)
        ↔ ((well_formed ≡ true) × (get receipt (text "decision") ≡ str (decision_text v.decision)))
  verify_under_matches v h =
      let (_, _, _, _, matches) = verify_under_cases v h in
      (
        λ m. (
          ground arith,
          eq-text→≡ (get receipt (text "decision")) (decision_text v.decision) (ground arith),
        ),
        λ (w, same). rw (matches, w, same) (eq-str_refl (decision_text v.decision)),
      )

  accepted-HasHash :
      (b : Bool) (v : Value)
      → (validate_signature_entries H p.trusted_pubkeys v p.trusted_n).0 ≡ b
      → All HasHash (safe_items b v)
  accepted-HasHash false v h = tt
  accepted-HasHash true (arr vs) h =
      let (_, signed) = (validate_iff H p.trusted_pubkeys vs p.trusted_n).0 h in
      AreSignatures-HasHash p.trusted_pubkeys [] (items vs) signed
  accepted-HasHash true null h = tt
  accepted-HasHash true (bool b) h = tt
  accepted-HasHash true (int z) h = tt
  accepted-HasHash true (float m k) h = tt
  accepted-HasHash true (str s) h = tt
  accepted-HasHash true (obj f) h = tt

  -- Whatever an untrusted receipt holds, its verification under a policy returns, as long as the
  -- receipt and the policy can be written as JSON for their digests.
  pub verify_under_total :
      (a b : Text)
      → canonical_sha256 H (obj receipt) ≡ ok a
      → canonical_sha256 H (policy_object p) ≡ ok b
      → (v : Verification) × (verify_under H receipt p ≡ ok v)
  unfolding verify_under
  verify_under_total a b ha hb =
      let (r, tallied) =
        tally_total H (get receipt (text "action_hash")) p.trusted_pubkeys submitted
          p.trusted_threshold (nat p.trusted_n) (accepted-HasHash accepted sigs refl) in
      >>=-total recount _ tallied (
        >>=-total (canonical_sha256 H (obj receipt)) _ ha
          (>>=-total (canonical_sha256 H (policy_object p)) _ hb (_, refl)))

module _ (H : Host) (p : Policy) where
  -- The decision and the count do not depend on anything else that a receipt claims: two receipts
  -- with the same schema, action, signatures and embedded policy, whose verifications under one
  -- policy return, get the same.
  pub verify_under_ignores_claims :
      (f g : Fields) (v w : Verification)
      → get f (text "schema") ≡ get g (text "schema")
      → get f (text "action_hash") ≡ get g (text "action_hash")
      → get f (text "signatures") ≡ get g (text "signatures")
      → get f (text "witnesses") ≡ get g (text "witnesses")
      → get f (text "threshold") ≡ get g (text "threshold")
      → get f (text "n") ≡ get g (text "n")
      → verify_under H f p ≡ ok v
      → verify_under H g p ≡ ok w
      → (v.decision ≡ w.decision) × (v.consensus_count ≡ w.consensus_count)
  unfolding policy_matches embedded_pubkeys
  verify_under_ignores_claims f g v w es ea el ew et en hv hw =
      let (r, tallied, decided, counted, _) = verify_under_cases H f p v hv in
      let (r', tallied', decided', counted', _) = verify_under_cases H g p w hw in
      let lists : accepted H f p ≡ accepted H g p =
        ap (λ (s : Value). (validate_signature_entries H p.trusted_pubkeys s p.trusted_n).0) el in
      let schemas : schema_right H f p ≡ schema_right H g p =
        ap (λ (s : Value). eq s (str receipt_schema)) es in
      let policies : policy_matches f p ≡ policy_matches g p = rw (ew, et, en) refl in
      let forms : well_formed H f p ≡ well_formed H g p = rw (schemas, policies, lists) refl in
      let items_are : submitted H f p ≡ submitted H g p = rw (lists, el) refl in
      let runs : recount H f p ≡ recount H g p = rw (ea, items_are) refl in
      let same : r ≡ r' = ok-injective (sym tallied ∙ runs ∙ tallied') in
      (decided ∙ rw (forms, same) refl ∙ sym decided', counted ∙ rw same refl ∙ sym counted')
