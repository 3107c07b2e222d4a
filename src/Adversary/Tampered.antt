-- ===== src/Adversary/Tampered.antt =====
-- Impersonated and tampered verdicts: their signatures are good, but of something else.
use khipu_consensus.Prelude.{
  ℕ, ◌≡◌, refl, sym, ap, ◌∙◌, true, false, Option, none, some, All, Text, Bytes, text, Bool-cases,
  inl, inr, if◌then◌else◌,
}
use khipu_consensus.Prelude.Texts.{text_eq, text_eq→≡}
use khipu_consensus.Python.Value.{Value, str, obj, Fields, end, field, find, get, put, or_else}
use khipu_consensus.Python.Error.{Result, ok, >>=-eq-ok, ok-injective}
use khipu_consensus.Python.Base64.{b64encode, b64decode}
use khipu_consensus.Python.Base64.RoundTrip.{IsByte, b64decode-b64encode}
use khipu_consensus.Python.Host.{Host, encode}
use khipu_consensus.Verdict.{
  Moment, organ_verdict_payload_type, canonical_json, pae, sign_verdict, from_dict, verify_verdict,
}
use khipu_consensus.Verdict.Genuine.{IsGenuine-counts}
use khipu_consensus.Verdict.Pae.{pae-injective}
use khipu_consensus.Adversary.Attacks.{
  impersonation_verdict, tamper_verdict, with_field, with_value, not_counted, forged_signature,
}

-- Writing one key leaves what another holds.
find-put :
    (k j : Text) (v : Value) (f : Fields) → text_eq j k ≡ false → find k (put j v f) ≡ find k f
unfolding find put
find-put k j v end h = rw h refl
find-put k j v (field i w f) h = elim (Bool-cases (text_eq i j)) [
  | inl same ↦
      let is_j : i ≡ j = text_eq→≡ i j same in
      let other : text_eq i k ≡ false = rw is_j h in rw (same, other) refl
  | inr differs ↦
      rw differs (ap (λ (o : Option Value). if text_eq i k then some w else o) (find-put k j v f h))
]

find-with_field :
    (H : Host) (k j : Text) (v : Option Value) (f : Fields)
    → text_eq j k ≡ false
    → find k (with_field H j v f) ≡ find k f
find-with_field H k j none f h = refl
find-with_field H k j (some v) f h = find-put k j v f h

obj-injective : {f g : Fields} → Path Value (obj f) (obj g) → f ≡ g
obj-injective h = cc

module _ (H : Host) where
  -- Whatever the private key signs, no message verifies under the public key with that signature.
  pub record IsForeign (private_pem public_pem : Value) : Type 0 where
    pub refuses :
        (b pem : Bytes) (key : H.PrivateKey) (public : H.PublicKey) (draw : ℕ)
        (message other sig : Bytes)
        → encode private_pem ≡ ok b
        → H.load_private b ≡ ok key
        → H.sign key draw message ≡ ok sig
        → encode public_pem ≡ ok pem
        → H.load_public pem ≡ ok public
        → All IsByte sig × (H.verify public sig other ≡ ok true → ⊥)

  -- A verdict that an attacker signs with its own key in a witness's name never counts, whatever
  -- it claims, if the witness's key accepts no signature of the attacker's.
  pub impersonation_never_counts :
      (organ action_hash attacker verdict ts public_pem action : Value) (m : Moment) (row : Fields)
      → IsForeign attacker public_pem
      → impersonation_verdict H organ action_hash attacker verdict ts m ≡ ok row
      → (verify_verdict H (from_dict row) public_pem action).counts ≡ false
  unfolding impersonation_verdict sign_verdict
  impersonation_never_counts organ action_hash attacker verdict ts public_pem action m row f h =
      let (body, _, h1) = >>=-eq-ok (canonical_json H _) _ h in
      let (b, b_e, h2) = >>=-eq-ok (encode attacker) _ h1 in
      let (key, key_e, h3) = >>=-eq-ok (H.load_private b) _ h2 in
      let (message, _, h4) = >>=-eq-ok (pae (str organ_verdict_payload_type) body) _ h3 in
      let (sig, sig_e, h5) = >>=-eq-ok (H.sign key m.draw message) _ h4 in
      let same = ok-injective h5 in
      not_counted H _ (λ counts.
        let g = IsGenuine-counts H (from_dict row) public_pem action counts in
        let (are_bytes, refused) =
          f.refuses b g.pem_bytes key g.public m.draw message g.message sig b_e key_e sig_e
            g.pem_encodes g.key_loads in
        let stated : (from_dict row).signature_b64 ≡ str (b64encode sig) =
          ap (λ (r : Fields). (from_dict r).signature_b64) (sym same)
          ∙ forged_signature H organ verdict (str (text "")) body sig in
        let decoded : b64decode (from_dict row).signature_b64 ≡ ok sig =
          rw stated (b64decode-b64encode sig are_bytes) in
        let is_sig : g.sig ≡ sig = ok-injective (sym g.signature_decodes ∙ decoded) in
        refused (rw (← is_sig) g.verifies))

  -- The signature of a row is good for one body only, and that body says another verdict than
  -- `allow`.
  pub record IsBoundTo (row : Fields) (public_pem : Value) (body : Bytes) (stated : Fields)
      : Type 0 where
    pub only :
        (pem sig message : Bytes) (public : H.PublicKey)
        → encode public_pem ≡ ok pem
        → H.load_public pem ≡ ok public
        → b64decode (from_dict row).signature_b64 ≡ ok sig
        → H.verify public sig message ≡ ok true
        → pae (str organ_verdict_payload_type) body ≡ ok message
    pub reads : H.loads body ≡ ok (obj stated)
    pub blocks : get stated (text "verdict") ≡ str (text "allow") → ⊥

  found_signature :
      (read : Bytes → Result Value) (row tampered : Fields) (action verdict payload : Option Value)
      → find (text "payload") row ≡ payload
      → tamper_verdict H read row action verdict ≡ ok tampered
      → find (text "signature") tampered ≡ find (text "signature") row
  unfolding tamper_verdict text_eq
  found_signature read row tampered action verdict none missing h =
      let refused = rw (missing, tamper_verdict) at h in absurd cc
  found_signature read row tampered action verdict (some payload) found h =
      let (b, _, h1) = >>=-eq-ok (b64decode payload) _ (rw (found, tamper_verdict) at h) in
      let (body, _, h2) = >>=-eq-ok (read b) _ h1 in
      let (with_action, _, h3) = >>=-eq-ok (with_value H (text "action_hash") action body) _ h2 in
      let (with_verdict, _, h4) =
        >>=-eq-ok (with_value H (text "verdict") verdict with_action) _ h3 in
      let (encoded, _, h5) = >>=-eq-ok (canonical_json H with_verdict) _ h4 in
      ap (λ (f : Fields). find (text "signature") f) (sym (ok-injective h5))
      ∙ find-put (text "signature") (text "payload") (str (b64encode encoded))
          (with_field H (text "verdict") verdict row) refl
      ∙ find-with_field H (text "signature") (text "verdict") verdict row refl

  tampered_signature :
      (read : Bytes → Result Value) (row tampered : Fields) (action verdict : Option Value)
      → tamper_verdict H read row action verdict ≡ ok tampered
      → (from_dict tampered).signature_b64 ≡ (from_dict row).signature_b64
  unfolding from_dict
  tampered_signature read row tampered action verdict h =
      ap (λ (o : Option Value). or_else o (str (text "")))
        (found_signature read row tampered action verdict (find (text "payload") row) refl h)

  -- A verdict that does not allow never counts once its payload is edited, whatever the edit, if
  -- its signature is good for the original payload only.
  pub tampered_never_counts :
      (read : Bytes → Result Value) (row tampered stated : Fields)
      (new_action new_verdict : Option Value) (public_pem action : Value) (body : Bytes)
      → IsBoundTo row public_pem body stated
      → tamper_verdict H read row new_action new_verdict ≡ ok tampered
      → (verify_verdict H (from_dict tampered) public_pem action).counts ≡ false
  tampered_never_counts read row tampered stated new_action new_verdict public_pem action body bound
        h =
      let kept = tampered_signature read row tampered new_action new_verdict h in
      not_counted H _ (λ counts.
        let g = IsGenuine-counts H (from_dict tampered) public_pem action counts in
        let signed : b64decode (from_dict row).signature_b64 ≡ ok g.sig =
          rw (← kept) g.signature_decodes in
        let original =
          bound.only g.pem_bytes g.sig g.message g.public g.pem_encodes g.key_loads signed
            g.verifies in
        let typed : pae (str organ_verdict_payload_type) g.body ≡ ok g.message =
          rw (← g.typed) g.encodes in
        let (_, same) =
          pae-injective (str organ_verdict_payload_type) (str organ_verdict_payload_type) g.body
            body g.message typed original in
        let reread : H.loads g.body ≡ ok (obj stated) = rw same bound.reads in
        let is_stated : g.decoded ≡ stated =
          obj-injective (ok-injective (sym g.body_loads ∙ reread)) in
        bound.blocks (rw (← is_stated) g.allows))
