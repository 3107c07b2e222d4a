-- ===== src/Verdict/Genuine.antt =====
-- What a verdict that counts has to carry: evidence for every guard of `verify_verdict`.
use khipu_consensus.Prelude.{
  ◌≡◌, refl, ◌↔◌, Bool, true, false, not, if◌then◌else◌, arith, Text, Bytes, text,
}
use khipu_consensus.Python.Value.{
  Value, null, bool, int, float, arr, str, obj, Fields, get, eq, truthy, eq-str→≡, eq-str_refl,
}
use khipu_consensus.Python.Error.{Result, ok, err, ◌>>=◌, >>=-eq-ok}
use khipu_consensus.Python.Base64.{b64decode}
use khipu_consensus.Python.Host.{Host, encode}
use khipu_consensus.Verdict.{
  OrganVerdict, OrganCheck, organ_verdict_payload_type, statement_schema, keyid_of, pae, refused,
  check_fields, check_statement, verify_signed, caught, verify_verdict,
}

-- A signature of the witness's own key over the DSSE encoding of a statement that names the
-- witness, allows, and is about this action.
pub record IsGenuine (H : Host) (v : OrganVerdict) (pem action_hash : Value) : Type 0 where
  pub body : Bytes
  pub message : Bytes
  pub pem_bytes : Bytes
  pub public : H.PublicKey
  pub sig : Bytes
  pub decoded : Fields
  pub has_payload : truthy v.payload_b64 ≡ true
  pub has_signature : truthy v.signature_b64 ≡ true
  pub has_organ : truthy v.organ ≡ true
  pub typed : v.payload_type ≡ str organ_verdict_payload_type
  pub named : v.keyid ≡ str (keyid_of H v.organ)
  pub payload_decodes : b64decode v.payload_b64 ≡ ok body
  pub encodes : pae v.payload_type body ≡ ok message
  pub pem_encodes : encode pem ≡ ok pem_bytes
  pub key_loads : H.load_public pem_bytes ≡ ok public
  pub signature_decodes : b64decode v.signature_b64 ≡ ok sig
  pub verifies : H.verify public sig message ≡ ok true
  pub body_loads : H.loads body ≡ ok (obj decoded)
  pub schema : get decoded (text "schema") ≡ str statement_schema
  pub signed_organ : eq (get decoded (text "organ")) v.organ ≡ true
  pub signed_keyid : get decoded (text "keyid") ≡ str (keyid_of H v.organ)
  pub signed_action : eq (get decoded (text "action_hash")) action_hash ≡ true
  pub allows : get decoded (text "verdict") ≡ str (text "allow")

module _ (H : Host) (v : OrganVerdict) where
  check_fields_counts :
      (k : Text) (ah : Value) (f : Fields)
      → (check_fields H v k ah f).counts ≡ true
      → (eq (get f (text "schema")) (str statement_schema) ≡ true)
        × (eq (get f (text "organ")) v.organ ≡ true)
        × (eq (get f (text "keyid")) (str k) ≡ true)
        × (eq (get f (text "action_hash")) ah ≡ true)
        × (eq (get f (text "verdict")) (str (text "allow")) ≡ true)
  unfolding check_fields
  check_fields_counts k ah f h = ground arith

  -- the guards in front of the `try` block
  verify_verdict_counts :
      (pem ah : Value)
      → (verify_verdict H v pem ah).counts ≡ true
      → (truthy v.payload_b64 ≡ true)
        × (truthy v.signature_b64 ≡ true)
        × (eq v.payload_type (str organ_verdict_payload_type) ≡ true)
        × (truthy v.organ ≡ true)
        × (eq v.keyid (str (keyid_of H v.organ)) ≡ true)
        × ((caught H v (verify_signed H v (keyid_of H v.organ) pem ah)).counts ≡ true)
  unfolding verify_verdict
  verify_verdict_counts pem ah h = ground arith

  caught_counts :
      (r : Result OrganCheck)
      → (caught H v r).counts ≡ true
      → (c : OrganCheck) × (r ≡ ok c) × (c.counts ≡ true)
  unfolding caught
  caught_counts (ok c) h = (c, refl, h)
  caught_counts (err e) h = cc

  check_statement_counts :
      (k : Text) (ah d : Value)
      → (check_statement H v k ah d).counts ≡ true
      → (f : Fields) × (d ≡ obj f) × ((check_fields H v k ah f).counts ≡ true)
  unfolding check_statement
  check_statement_counts k ah (obj f) h = (f, refl, h)
  check_statement_counts k ah null h = cc
  check_statement_counts k ah (bool b) h = cc
  check_statement_counts k ah (int z) h = cc
  check_statement_counts k ah (float m e) h = cc
  check_statement_counts k ah (str s) h = cc
  check_statement_counts k ah (arr xs) h = cc

  -- the rest of the `try` block, once the signature has been checked
  signed_counts :
      (k : Text) (ah : Value) (body : Bytes) (good : Bool) (c : OrganCheck)
      → (if not good
          then ok (refused H v (text "signature mismatch"))
          else H.loads body >>= λ d. ok (check_statement H v k ah d))
        ≡ ok c
      → c.counts ≡ true
      → (good ≡ true)
        × ((f : Fields) × (H.loads body ≡ ok (obj f)) × ((check_fields H v k ah f).counts ≡ true))
  signed_counts k ah body false c h t = ground arith
  signed_counts k ah body true c h t =
      let (d, loaded, e) = >>=-eq-ok (H.loads body) (λ d. ok (check_statement H v k ah d)) h in
      let counted : (check_statement H v k ah d).counts ≡ true = ground arith in
      let (f, is_obj, r) = check_statement_counts k ah d counted in (refl, (f, cc, r))

  -- A verdict that counts is genuine.
  pub IsGenuine-counts :
      (pem ah : Value) → (verify_verdict H v pem ah).counts ≡ true → IsGenuine H v pem ah
  unfolding verify_signed
  IsGenuine-counts pem ah h =
      let k = keyid_of H v.organ in
      let (p, s, t, o, n, inside) = verify_verdict_counts pem ah h in
      let (c, run, counted) = caught_counts (verify_signed H v k pem ah) inside in
      let (body, body_e, h1) = >>=-eq-ok (b64decode v.payload_b64) _ run in
      let (message, message_e, h2) = >>=-eq-ok (pae v.payload_type body) _ h1 in
      let (pem_bytes, pem_e, h3) = >>=-eq-ok (encode pem) _ h2 in
      let (public, public_e, h4) = >>=-eq-ok (H.load_public pem_bytes) _ h3 in
      let (sig, sig_e, h5) = >>=-eq-ok (b64decode v.signature_b64) _ h4 in
      let (good, good_e, h6) = >>=-eq-ok (H.verify public sig message) _ h5 in
      let (is_good, rest) = signed_counts k ah body good c h6 counted in
      let (f, loaded, fields) = rest in
      let (c1, c2, c3, c4, c5) = check_fields_counts k ah f fields in
      record {
        body = body;
        message = message;
        pem_bytes = pem_bytes;
        public = public;
        sig = sig;
        decoded = f;
        has_payload = p;
        has_signature = s;
        has_organ = o;
        typed = eq-str→≡ _ _ t;
        named = eq-str→≡ _ _ n;
        payload_decodes = body_e;
        encodes = message_e;
        pem_encodes = pem_e;
        key_loads = public_e;
        signature_decodes = sig_e;
        verifies = cc;
        body_loads = loaded;
        schema = eq-str→≡ _ _ c1;
        signed_organ = c2;
        signed_keyid = eq-str→≡ _ _ c3;
        signed_action = c4;
        allows = eq-str→≡ _ _ c5;
      }

  check_fields_genuine :
      (pem ah : Value) (g : IsGenuine H v pem ah)
      → (check_fields H v (keyid_of H v.organ) ah g.decoded).counts ≡ true
  unfolding check_fields
  check_fields_genuine pem ah g =
      let s : eq (get g.decoded (text "schema")) (str statement_schema) ≡ true =
        rw g.schema (eq-str_refl statement_schema) in
      let k : eq (get g.decoded (text "keyid")) (str (keyid_of H v.organ)) ≡ true =
        rw g.signed_keyid (eq-str_refl (keyid_of H v.organ)) in
      let a : eq (get g.decoded (text "verdict")) (str (text "allow")) ≡ true =
        rw g.allows (eq-str_refl (text "allow")) in
      rw (s, g.signed_organ, k, g.signed_action, a)

  verify_signed_genuine :
      (pem ah : Value) (g : IsGenuine H v pem ah)
      → verify_signed H v (keyid_of H v.organ) pem ah
        ≡ ok (check_fields H v (keyid_of H v.organ) ah g.decoded)
  unfolding verify_signed check_statement
  verify_signed_genuine pem ah g = rw (
    g.payload_decodes, g.encodes, g.pem_encodes, g.key_loads, g.signature_decodes, g.verifies,
    g.body_loads,
  )

  -- A genuine verdict counts.
  counts-IsGenuine :
      (pem ah : Value) → IsGenuine H v pem ah → (verify_verdict H v pem ah).counts ≡ true
  unfolding verify_verdict caught
  counts-IsGenuine pem ah g =
      let t : eq v.payload_type (str organ_verdict_payload_type) ≡ true =
        rw g.typed (eq-str_refl organ_verdict_payload_type) in
      let n : eq v.keyid (str (keyid_of H v.organ)) ≡ true =
        rw g.named (eq-str_refl (keyid_of H v.organ)) in
      rw (g.has_payload, g.has_signature, t, g.has_organ, n, verify_signed_genuine pem ah g)
        (check_fields_genuine pem ah g)

  -- A verdict counts exactly if it is genuine: it is typed and named as it should be, its
  -- signature verifies under the given key over the DSSE encoding of its payload, and the payload
  -- states the schema, the witness, this action and `allow`.
  pub counts_iff :
      (pem ah : Value) → ((verify_verdict H v pem ah).counts ≡ true) ↔ IsGenuine H v pem ah
  counts_iff pem ah = (IsGenuine-counts pem ah, counts-IsGenuine pem ah)
