-- ===== src/Verdict/Signing.antt =====
-- What `verify_verdict` says of a verdict that `sign_verdict` made.
use khipu_consensus.Prelude.{
  ℕ, ◌≡◌, refl, ap, true, ◌&&◌, [], ◌∷◌, if◌then◌else◌, All, Text, Bytes, text,
}
use khipu_consensus.Python.Value.{
  Value, str, obj, Fields, get, find, eq, truthy, eq-str→≡, eq-str_refl,
}
use khipu_consensus.Prelude.Texts.{text_eq}
use khipu_consensus.Python.Error.{ok, >>=-eq-ok, ok-injective}
use khipu_consensus.Python.Base64.{b64encode}
use khipu_consensus.Python.Base64.RoundTrip.{IsByte, b64decode-b64encode}
use khipu_consensus.Python.Host.{Host, encode}
use khipu_consensus.Verdict.{
  OrganVerdict, OrganCheck, Moment, organ_verdict_payload_type, statement_schema, keyid_of,
  canonical_json, pae, statement, wire_row, sign_verdict, from_dict, check_fields, check_statement,
  verify_signed, caught, verify_verdict,
}

-- What the verification relies on of `json`: the encoded object is not empty, and reading it back
-- gives an object that is equal at every key.
pub record ReadsBack (H : Host) (f : Fields) : Type 0 where
  pub bytes : (b : Bytes) → canonical_json H (obj f) ≡ ok b → All IsByte b × (truthy (str b) ≡ true)
  pub reads :
      (b : Bytes)
      → canonical_json H (obj f) ≡ ok b
      → (g : Fields) × (H.loads b ≡ ok (obj g)) × ((k : Text) → eq (get g k) (get f k) ≡ true)

-- What it relies on of ECDSA: whatever the private key signs, the public key verifies.
pub record IsKeyPair (H : Host) (private_pem public_pem : Value) : Type 0 where
  pub public_bytes : Bytes
  pub public : H.PublicKey
  pub encodes : encode public_pem ≡ ok public_bytes
  pub loads : H.load_public public_bytes ≡ ok public
  pub verifies :
      (b : Bytes) (key : H.PrivateKey) (draw : ℕ) (message sig : Bytes)
      → encode private_pem ≡ ok b
      → H.load_private b ≡ ok key
      → H.sign key draw message ≡ ok sig
      → (H.verify public sig message ≡ ok true) × All IsByte sig × (truthy (str sig) ≡ true)

pub b64encode-truthy : (b : Bytes) → truthy (str b) ≡ true → truthy (str (b64encode b)) ≡ true
unfolding b64encode
b64encode-truthy [] h = h
b64encode-truthy (x ∷ []) h = refl
b64encode-truthy (x ∷ y ∷ []) h = refl
b64encode-truthy (x ∷ y ∷ z ∷ b) h = refl

module _ (H : Host) (o a x : Text) (reason lean_sha time : Value) where
  abbrev said : Fields
  said = statement H (str o) (str a) (str x) reason lean_sha time

  -- the statement's texts, in the object that is read back
  record Reads (g : Fields) : Type 0 where
    schema : get g (text "schema") ≡ str statement_schema
    organ : get g (text "organ") ≡ str o
    keyid : get g (text "keyid") ≡ str (keyid_of H (str o))
    action_hash : get g (text "action_hash") ≡ str a
    verdict : get g (text "verdict") ≡ str x

  Reads-back : (g : Fields) → ((k : Text) → eq (get g k) (get said k) ≡ true) → Reads g
  unfolding statement find text_eq
  Reads-back g h = record {
    schema = eq-str→≡ (get g (text "schema")) statement_schema (h (text "schema"));
    organ = eq-str→≡ (get g (text "organ")) o (h (text "organ"));
    keyid = eq-str→≡ (get g (text "keyid")) (keyid_of H (str o)) (h (text "keyid"));
    action_hash = eq-str→≡ (get g (text "action_hash")) a (h (text "action_hash"));
    verdict = eq-str→≡ (get g (text "verdict")) x (h (text "verdict"));
  }

  -- the verdict that the row is read as
  abbrev read_row : Bytes → Bytes → OrganVerdict
  read_row body sig = record {
    organ = str o;
    keyid = str (keyid_of H (str o));
    payload_type = str organ_verdict_payload_type;
    payload_b64 = str (b64encode body);
    signature_b64 = str (b64encode sig);
    verdict = str x;
    reason = reason;
  }

  from_dict-wire_row :
      (body sig : Bytes)
      → from_dict (wire_row H (str o) (str x) reason body sig) ≡ read_row body sig
  unfolding from_dict wire_row find text_eq
  from_dict-wire_row body sig = refl

  -- the check of an honest verdict against an action
  abbrev pub honest_check : Value → OrganCheck
  honest_check action = record {
    organ = str o;
    keyid = str (keyid_of H (str o));
    valid = true;
    verdict = str x;
    action_hash_match = eq (str a) action;
    counts = eq (str a) action && eq (str x) (str (text "allow"));
    reason = text "";
  }

  check_fields_honest :
      (body sig : Bytes) (g : Fields) (action : Value)
      → Reads g
      → check_fields H (read_row body sig) (keyid_of H (str o)) action g ≡ honest_check action
  unfolding check_fields
  check_fields_honest body sig g action r =
      rw
        (
          r.schema,
          r.organ,
          r.keyid,
          r.action_hash,
          r.verdict,
          eq-str_refl statement_schema,
          eq-str_refl o,
          eq-str_refl (keyid_of H (str o)),
        )
        refl

  verify_signed_honest :
      (public_pem action : Value) (body message pem sig : Bytes) (public : H.PublicKey) (g : Fields)
      → All IsByte body
      → All IsByte sig
      → pae (str organ_verdict_payload_type) body ≡ ok message
      → encode public_pem ≡ ok pem
      → H.load_public pem ≡ ok public
      → H.verify public sig message ≡ ok true
      → H.loads body ≡ ok (obj g)
      → Reads g
      → verify_signed H (read_row body sig) (keyid_of H (str o)) public_pem action
        ≡ ok (honest_check action)
  unfolding verify_signed check_statement
  verify_signed_honest public_pem action body message pem sig public g hb hs em ep el ev er r =
      rw (b64decode-b64encode body hb, em, ep, el, b64decode-b64encode sig hs, ev, er)
        (ap (λ (c : OrganCheck). ok c) (check_fields_honest body sig g action r))

  verify_verdict_honest :
      (public_pem action : Value) (body sig : Bytes)
      → truthy (str o) ≡ true
      → truthy (str body) ≡ true
      → truthy (str sig) ≡ true
      → verify_signed H (read_row body sig) (keyid_of H (str o)) public_pem action
        ≡ ok (honest_check action)
      → verify_verdict H (read_row body sig) public_pem action ≡ honest_check action
  unfolding verify_verdict caught
  verify_verdict_honest public_pem action body sig ho hb hs h =
      let b = b64encode-truthy body hb in
      let s = b64encode-truthy sig hs in
      rw (b, s, eq-str_refl organ_verdict_payload_type, ho, eq-str_refl (keyid_of H (str o)), h)
        refl

module _ (H : Host) (o a x : Text) (private_pem public_pem reason lean_sha ts : Value)
    (m : Moment) where
  abbrev pub signed_at : Value
  signed_at = if truthy ts then ts else str m.now

  -- A verdict that the witness signs over an action is valid under its public key, whatever
  -- action it is then verified against. It matches that action exactly if the action equals the
  -- one signed, and it counts exactly if it also allows. The witness's name, the action and the
  -- verdict are texts, the name is not empty, the keys are a pair, and JSON reads the statement
  -- back.
  pub verify-sign_verdict :
      (row : Fields) (action : Value)
      → truthy (str o) ≡ true
      → IsKeyPair H private_pem public_pem
      → ReadsBack H (statement H (str o) (str a) (str x) reason lean_sha signed_at)
      → sign_verdict H (str o) (str a) (str x) private_pem reason lean_sha ts m ≡ ok row
      → verify_verdict H (from_dict row) public_pem action
        ≡ honest_check H o a x reason lean_sha signed_at action
  unfolding sign_verdict
  verify-sign_verdict row action named k back h =
      let f = statement H (str o) (str a) (str x) reason lean_sha signed_at in
      let (body, body_e, h1) = >>=-eq-ok (canonical_json H (obj f)) _ h in
      let (pem, pem_e, h2) = >>=-eq-ok (encode private_pem) _ h1 in
      let (key, key_e, h3) = >>=-eq-ok (H.load_private pem) _ h2 in
      let (message, message_e, h4) = >>=-eq-ok (pae (str organ_verdict_payload_type) body) _ h3 in
      let (sig, sig_e, h5) = >>=-eq-ok (H.sign key m.draw message) _ h4 in
      let made : wire_row H (str o) (str x) reason body sig ≡ row = ok-injective h5 in
      let (are_bytes, nonempty) = back.bytes body body_e in
      let (g, loaded, agrees) = back.reads body body_e in
      let (good, sig_bytes, sig_nonempty) =
        k.verifies pem key m.draw message sig pem_e key_e sig_e in
      rw (← made, from_dict-wire_row H o a x reason lean_sha signed_at body sig)
        (verify_verdict_honest H o a x reason lean_sha signed_at public_pem action body sig named
          nonempty sig_nonempty
          (verify_signed_honest H o a x reason lean_sha signed_at public_pem action body message
            k.public_bytes sig k.public g are_bytes sig_bytes message_e k.encodes k.loads good
            loaded (Reads-back H o a x reason lean_sha signed_at g agrees)))
