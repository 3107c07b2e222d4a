-- ===== src/Spine/Counted.antt =====
-- The witnesses that the receipt of an attested action lists.
use khipu_consensus.Prelude.{
  suc, ◌≡◌, refl, sym, ap, ◌∙◌, List, [], ◌∷◌, map, length, arith, if◌then◌else◌,
}
use khipu_consensus.Prelude.Texts.{text_eq}
use khipu_consensus.Python.Value.{Value, arr, obj, nil, items-item_list, nat, Fields, find, truthy}
use khipu_consensus.Python.Error.{ok}
use khipu_consensus.Python.Host.{Host}
use khipu_consensus.Verdict.{OrganCheck, Moment}
use khipu_consensus.Tally.Rows.{counting, tally_rows}
use khipu_consensus.Registry.{WitnessRegistry, iterate, n, pubkeys}
use khipu_consensus.Receipt.{
  MultiWitnessReceipt, check_to_public, checks_to_public, to_dict, item_of, attest,
}
use khipu_consensus.Receipt.Backed.{attest-IsAttested}
use khipu_consensus.Spine.{counted_of, counted_among, counting_witnesses}

abbrev published : List OrganCheck → List Value
published = map (λ (c : OrganCheck). obj (check_to_public c))

length-counted_of :
    (c : OrganCheck) (rest : List Value)
    → length (counted_of (check_to_public c) rest)
      ≡ (if c.counts then suc (length rest) else length rest)
unfolding check_to_public find text_eq
length-counted_of c rest = ground arith

counted_among-published :
    (cs : List OrganCheck)
    → (ws : List Value) × (counted_among (published cs) ≡ ok ws) × (length ws ≡ counting cs)
unfolding counted_among
counted_among-published [] = ([], refl, refl)
counted_among-published (c ∷ cs) =
    let (ws, found, long) = counted_among-published cs in
    (counted_of (check_to_public c) ws, rw found refl, ground (arith, length-counted_of c ws))

iterate-published :
    (cs : List OrganCheck)
    → iterate (if truthy (checks_to_public cs) then checks_to_public cs else arr nil)
      ≡ ok (published cs)
unfolding iterate checks_to_public
iterate-published [] = refl
iterate-published (c ∷ cs) =
    ap (λ (vs : List Value). ok (obj (check_to_public c) ∷ vs)) (items-item_list (published cs))

counting_witnesses-to_dict :
    (r : MultiWitnessReceipt)
    → (ws : List Value) × (counting_witnesses (to_dict r) ≡ ok ws) × (length ws ≡ counting r.checks)
unfolding counting_witnesses to_dict find text_eq
counting_witnesses-to_dict r =
    let (ws, found, long) = counted_among-published r.checks in
    (ws, rw (iterate-published r.checks, found) refl, long)

module _ (H : Host) (action_hash : Value) where
  -- The spine's list of the witnesses of an attested action has as many entries as the receipt's
  -- count says.
  pub attest-counting_witnesses :
      (reg : WitnessRegistry) (verdicts : Fields) (reason lean_sha : Value)
      (moments : Value → Moment) (r : MultiWitnessReceipt)
      → attest H action_hash reg verdicts reason lean_sha moments ≡ ok r
      → (ws : List Value) × (counting_witnesses (to_dict r) ≡ ok ws)
        × (length ws ≡ r.consensus_count)
  attest-counting_witnesses reg verdicts reason lean_sha moments r h =
      let a = attest-IsAttested H action_hash reg verdicts reason lean_sha moments r h in
      let (ws, found, long) = counting_witnesses-to_dict r in
      let (_, exact) =
        tally_rows H action_hash (pubkeys reg) (map item_of r.signatures) reg.threshold
          (nat (n reg)) a.result a.valid a.tallied in
      (ws, found, long ∙ ap counting a.rows ∙ exact ∙ sym a.counts)
