-- ===== src/Receipt/Rows.antt =====
-- The rows that an attestation collects, as signatures that a verification checks.
use khipu_consensus.Prelude.{
  ℕ, suc, ◌≡◌, refl, ap, true, false, Option, none, some, List, [], ◌∷◌, ◌++◌, arith, inl, inr,
  Bool-cases, All, length, map, Text, Bytes, text,
}
use khipu_consensus.Prelude.Texts.{text_eq}
use khipu_consensus.Python.Value.{Value, str, obj, Fields, find, get, is_str, truthy, or_else}
use khipu_consensus.Python.Dict.{Dict, lookup, has_key, member, dict_of}
use khipu_consensus.Python.Error.{ok, >>=-eq-ok, ok-injective}
use khipu_consensus.Python.Host.{Host, encode}
use khipu_consensus.Verdict.{
  Moment, organ_verdict_payload_type, canonical_json, pae, wire_row, sign_verdict,
}
use khipu_consensus.Verdict.Signing.{b64encode-truthy}
use khipu_consensus.Registry.{Witness, can_sign, sign}
use khipu_consensus.Registry.Fleet.{AreApart, AreApart-fewer}
use khipu_consensus.Policy.{named}
use khipu_consensus.Policy.Entries.{IsSignature, AreSignatures}
use khipu_consensus.Receipt.{collect, signature_value}

-- Neither the encoding of an object nor a signature is empty.
pub record IsProductive (H : Host) : Type 0 where
  pub body : (f : Fields) (b : Bytes) → canonical_json H (obj f) ≡ ok b → truthy (str b) ≡ true
  pub sig :
      (key : H.PrivateKey) (draw : ℕ) (message s : Bytes)
      → H.sign key draw message ≡ ok s
      → truthy (str s) ≡ true

append-truthy : (s t : Text) → truthy (str t) ≡ true → truthy (str (s ++ t)) ≡ true
append-truthy [] t h = h
append-truthy (c ∷ s) t h = refl

module _ (H : Host) (productive : IsProductive H) (trusted : Dict Value) where
  wire_row-IsSignature :
      (organ says reason : Value) (body sig : Bytes)
      → named organ ≡ true
      → is_str says ≡ true
      → is_str reason ≡ true
      → has_key organ trusted ≡ true
      → truthy (str body) ≡ true
      → truthy (str sig) ≡ true
      → IsSignature trusted (wire_row H organ says reason body sig)
  unfolding wire_row find text_eq
  wire_row-IsSignature organ says reason body sig o x r k b s = record {
    required = (
      o,
      (
        append-truthy _ (text "-cosign") refl,
        (refl, (b64encode-truthy body b, (b64encode-truthy sig s, tt))),
      ),
    );
    optional = (ground (arith, x), (ground (arith, r), tt));
    known = k;
  }

  sign_verdict-IsSignature :
      (organ action says pem reason lean_sha ts : Value) (m : Moment) (row : Fields)
      → named organ ≡ true
      → is_str says ≡ true
      → is_str reason ≡ true
      → has_key organ trusted ≡ true
      → sign_verdict H organ action says pem reason lean_sha ts m ≡ ok row
      → IsSignature trusted row × (get row (text "organ") ≡ organ)
  unfolding sign_verdict wire_row find text_eq
  sign_verdict-IsSignature organ action says pem reason lean_sha ts m row o x r k h =
      let (body, body_e, h1) = >>=-eq-ok (canonical_json H _) _ h in
      let (b, _, h2) = >>=-eq-ok (encode pem) _ h1 in
      let (key, _, h3) = >>=-eq-ok (H.load_private b) _ h2 in
      let (message, _, h4) = >>=-eq-ok (pae (str organ_verdict_payload_type) body) _ h3 in
      let (sig, sig_e, h5) = >>=-eq-ok (H.sign key m.draw message) _ h4 in
      let made : wire_row H organ says reason body sig ≡ row = ok-injective h5 in
      rw (← made) (
        wire_row-IsSignature organ says reason body sig o x r k (productive.body _ body body_e)
            (productive.sig key m.draw message sig sig_e),
        refl,
      )

  IsRow : Witness → Option Fields → Type 0
  IsRow w none = Unit
  IsRow w (some row) = IsSignature trusted row × (get row (text "organ") ≡ w.organ)

  sign-IsRow :
      (w : Witness) (action says reason lean_sha ts : Value) (m : Moment) (v : Option Fields)
      → named w.organ ≡ true
      → is_str says ≡ true
      → is_str reason ≡ true
      → has_key w.organ trusted ≡ true
      → sign H w action says reason lean_sha ts m ≡ ok v
      → IsRow w v
  unfolding sign IsRow
  sign-IsRow w action says reason lean_sha ts m v o x r k h = elim (Bool-cases (can_sign w)) [
    | inr silent ↦ let same : none ≡ v = ok-injective (rw silent at h) in rw (← same) tt
    | inl signs ↦
        let (row, made, e) =
          >>=-eq-ok (sign_verdict H w.organ action says w.private_key_pem reason lean_sha ts m)
            (λ row. ok (some row)) (rw signs at h) in
        let same : some row ≡ v = ok-injective e in
        rw (← same) (
          sign_verdict-IsSignature w.organ action says w.private_key_pem reason lean_sha ts m row o
            x r k made)
  ]

  -- The witnesses have names that are trusted, and what each is asked to say is a text.
  abbrev pub AreAsked : Fields → List Witness → Type 0
  AreAsked verdicts = All (λ (w : Witness).
      (named w.organ ≡ true)
      × (has_key w.organ trusted ≡ true)
      × (is_str (or_else (lookup w.organ (dict_of verdicts)) (str (text "allow"))) ≡ true))

  AreSignatures-cons :
      (w : Witness) (v : Option Fields) (seen : List Value) (ws : List Witness) (vs : List Value)
      → IsRow w v
      → member w.organ seen ≡ false
      → AreSignatures trusted (w.organ ∷ seen) vs
      → AreSignatures trusted seen vs
      → AreSignatures trusted seen (signature_value v ∷ vs)
  unfolding IsRow
  AreSignatures-cons w none seen ws vs row new h k = k
  AreSignatures-cons w (some d) seen ws vs (signed, own) new h k = (signed, rw own new, rw own h)

  pub collect-AreSignatures :
      (action : Value) (verdicts : Fields) (reason lean_sha : Value) (moments : Value → Moment)
      (ws : List Witness) (seen : List Value) (vs : List (Option Fields))
      → is_str reason ≡ true
      → AreAsked verdicts ws
      → AreApart seen ws
      → collect H action verdicts reason lean_sha moments ws ≡ ok vs
      → AreSignatures trusted seen (map signature_value vs) × (length vs ≡ length ws)
  unfolding collect member
  collect-AreSignatures action verdicts reason lean_sha moments [] seen vs r a apart h =
      let same : [] ≡ vs = ok-injective h in rw (← same) (tt, refl)
  collect-AreSignatures action verdicts reason lean_sha moments (w ∷ ws) seen vs r ((o, k, x), a)
        (new, apart) h =
      let (v, signed, h1) =
        >>=-eq-ok (sign H w action _ reason lean_sha (str (text "")) (moments w.organ)) _ h in
      let (rest, collected, h2) =
        >>=-eq-ok (collect H action verdicts reason lean_sha moments ws) _ h1 in
      let same : v ∷ rest ≡ vs = ok-injective h2 in
      let fewer = AreApart-fewer seen (w.organ ∷ seen) ws (λ u g. ground (arith, g)) apart in
      let (with, long) =
        collect-AreSignatures action verdicts reason lean_sha moments ws (w.organ ∷ seen) rest r a
          apart collected in
      let (without, _) =
        collect-AreSignatures action verdicts reason lean_sha moments ws seen rest r a fewer
          collected in
      let row =
        sign-IsRow w action _ reason lean_sha (str (text "")) (moments w.organ) v o x r k signed in
      rw (← same) (
        AreSignatures-cons w v seen ws (map signature_value rest) row new with without,
        ap (λ (m : ℕ). suc m) long,
      )
