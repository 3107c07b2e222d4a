-- ===== src/Adversary/Attacks.antt =====
-- python/khipu_consensus/adversary.py: the attacks as rows on the wire, and what they come to.
use khipu_consensus.Prelude.{
  ◌≡◌, refl, sym, ap, ◌∙◌, Bool, true, false, Option, none, some, All, Text, Bytes, text,
}
use khipu_consensus.Prelude.Texts.{text_eq}
use khipu_consensus.Python.Value.{Value, str, obj, Fields, find, put, eq, truthy}
use khipu_consensus.Python.Error.{
  Result, ok, err, key_error, type_error, ◌>>=◌, >>=-eq-ok, ok-injective,
}
use khipu_consensus.Python.Base64.{b64encode, b64decode}
use khipu_consensus.Python.Base64.RoundTrip.{IsByte, b64decode-b64encode}
use khipu_consensus.Python.Host.{Host, encode}
use khipu_consensus.Verdict.{
  Moment, OrganCheck, canonical_json, statement, wire_row, sign_verdict, from_dict, verify_verdict,
}
use khipu_consensus.Verdict.Genuine.{IsGenuine-counts}
use khipu_consensus.Verdict.Signing.{ReadsBack, IsKeyPair, signed_at, verify-sign_verdict}

module _ (H : Host) where
  -- `random` stands for `os.urandom(72)`
  unfoldable pub forged_signature_verdict :
      (organ action_hash verdict ts : Value) → (random : Bytes) → Result Fields
  forged_signature_verdict organ action_hash verdict ts random = do
    body ←
        canonical_json H
          (obj (statement H organ action_hash verdict (str (text "")) (str (text "")) ts))
    ok (wire_row H organ verdict (str (text "")) body random)

  unfoldable pub impersonation_verdict :
      (organ action_hash attacker_private_key_pem verdict ts : Value) → Moment → Result Fields
  impersonation_verdict organ action_hash attacker verdict ts m =
      sign_verdict H organ action_hash verdict attacker (str (text "")) (str (text "")) ts m

  unfoldable pub equivocation_verdict :
      (organ other_action_hash private_key_pem verdict ts : Value) → Moment → Result Fields
  equivocation_verdict organ other_action_hash private_key_pem verdict ts m =
      sign_verdict H organ other_action_hash verdict private_key_pem (str (text "")) (str (text ""))
        ts m

  -- `d[k] = v` on what was read from JSON, if a value is given
  abbrev pub with_value : Text → Option Value → Value → Result Value
  with_value k none v = ok v
  with_value k (some w) (obj f) = ok (obj (put k w f))
  with_value k (some w) v = err type_error

  abbrev pub with_field : Text → Option Value → Fields → Fields
  with_field k none f = f
  with_field k (some w) f = put k w f

  -- `read` stands for `json.loads(b.decode("utf-8"))`
  unfoldable pub tamper_verdict :
      (read : Bytes → Result Value)
      → Fields
      → (new_action_hash new_verdict : Option Value) → Result Fields
  tamper_verdict read valid_verdict new_action_hash new_verdict =
      elim (find (text "payload") valid_verdict) [
        | none ↦ err (key_error (text "payload"))
        | some payload ↦ (do
          b ← b64decode payload
          body ← read b
          with_action ← with_value (text "action_hash") new_action_hash body
          with_verdict ← with_value (text "verdict") new_verdict with_action
          encoded ← canonical_json H with_verdict
          ok (
              put (text "payload") (str (b64encode encoded))
                (with_field (text "verdict") new_verdict valid_verdict)))
      ]

  unfoldable pub replay_verdict : Fields → Fields
  replay_verdict d = d

  unfoldable pub silent_verdict : Option Fields
  silent_verdict = none

  -- No message verifies under the witness's key with these bytes as its signature.
  pub record Rejects (public_pem : Value) (random : Bytes) : Type 0 where
    pub are_bytes : All IsByte random
    pub refuses :
        (pem : Bytes) (key : H.PublicKey) (message : Bytes)
        → encode public_pem ≡ ok pem
        → H.load_public pem ≡ ok key
        → H.verify key random message ≡ ok true
        → ⊥

  pub forged_signature :
      (organ verdict reason : Value) (body sig : Bytes)
      → (from_dict (wire_row H organ verdict reason body sig)).signature_b64 ≡ str (b64encode sig)
  unfolding from_dict wire_row find text_eq
  forged_signature organ verdict reason body sig = refl

  pub not_counted : (b : Bool) → (b ≡ true → ⊥) → b ≡ false
  not_counted true h = absurd (h refl)
  not_counted false h = refl

  -- A forged verdict never counts, whatever it claims and whatever action it is checked against,
  -- if the witness's key accepts no message with the forged bytes as its signature.
  pub forged_never_counts :
      (organ action_hash verdict ts public_pem action : Value) (random : Bytes) (row : Fields)
      → Rejects public_pem random
      → forged_signature_verdict organ action_hash verdict ts random ≡ ok row
      → (verify_verdict H (from_dict row) public_pem action).counts ≡ false
  unfolding forged_signature_verdict
  forged_never_counts organ action_hash verdict ts public_pem action random row r h =
      let (body, _, made) =
        >>=-eq-ok
          (canonical_json H
            (obj (statement H organ action_hash verdict (str (text "")) (str (text "")) ts)))
          _ h in
      let same = ok-injective made in
      not_counted _ (λ counts.
        let g = IsGenuine-counts H (from_dict row) public_pem action counts in
        let stated : (from_dict row).signature_b64 ≡ str (b64encode random) =
          rw (← same) (forged_signature organ verdict (str (text "")) body random) in
        let decoded : b64decode (from_dict row).signature_b64 ≡ ok random =
          rw stated (b64decode-b64encode random r.are_bytes) in
        let is_random : g.sig ≡ random = ok-injective (sym g.signature_decodes ∙ decoded) in
        r.refuses g.pem_bytes g.public g.message g.pem_encodes g.key_loads
          (rw (← is_random) g.verifies))

module _ (H : Host) (o a other x : Text) (private_pem public_pem ts : Value) (m : Moment) where
  -- The verdict of a witness that signs another action is valid and yet never counts for the
  -- round's action. The witness's name, the actions and the verdict are texts, the name is not
  -- empty, the actions differ, the keys are a pair, and JSON reads the statement back.
  pub equivocation_never_counts :
      (row : Fields)
      → truthy (str o) ≡ true
      → text_eq other a ≡ false
      → IsKeyPair H private_pem public_pem
      → ReadsBack H (
          statement H
            (str o)
            (str other)
            (str x)
            (str (text ""))
            (str (text ""))
            (signed_at H o other x private_pem public_pem (str (text "")) (str (text "")) ts m))
      → equivocation_verdict H (str o) (str other) private_pem (str x) ts m ≡ ok row
      → ((verify_verdict H (from_dict row) public_pem (str a)).valid ≡ true)
        × ((verify_verdict H (from_dict row) public_pem (str a)).counts ≡ false)
  unfolding equivocation_verdict eq
  equivocation_never_counts row named differ k back h =
      let checked =
        verify-sign_verdict H o other x private_pem public_pem (str (text "")) (str (text "")) ts m
          row (str a) named k back h in
      (
        ap (λ (c : OrganCheck). c.valid) checked,
        ap (λ (c : OrganCheck). c.counts) checked ∙ rw differ refl,
      )
