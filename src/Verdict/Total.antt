-- ===== src/Verdict/Total.antt =====
-- When `sign_verdict` returns.
use khipu_consensus.Prelude.{ℕ, ◌≡◌, refl, if◌then◌else◌, Bytes}
use khipu_consensus.Python.Value.{Value, str, obj, truthy}
use khipu_consensus.Python.Error.{ok}
use khipu_consensus.Python.Utf8.{utf8}
use khipu_consensus.Python.Host.{Host, encode}
use khipu_consensus.Verdict.{
  Moment, organ_verdict_payload_type, canonical_json, pae, statement, wire_row, sign_verdict,
}

-- A private key that signs whatever it is given.
pub record IsSigner (H : Host) (private_pem : Value) : Type 0 where
  pub bytes : Bytes
  pub key : H.PrivateKey
  pub encodes : encode private_pem ≡ ok bytes
  pub loads : H.load_private bytes ≡ ok key
  pub signs : (draw : ℕ) (message : Bytes) → (sig : Bytes) × (H.sign key draw message ≡ ok sig)

pae_total :
    (body : Bytes) → (message : Bytes) × (pae (str organ_verdict_payload_type) body ≡ ok message)
unfolding pae encode utf8
pae_total body = (_, refl)

module _ (H : Host) (organ action says private_pem reason lean_sha ts : Value) (m : Moment) where
  -- A key that signs gives a row for a statement that has an encoding.
  pub sign_verdict-IsSigner :
      (body : Bytes)
      → canonical_json H (
          obj (statement H organ action says reason lean_sha (if truthy ts then ts else str m.now)))
        ≡ ok body
      → IsSigner H private_pem
      → (sig : Bytes) × (sign_verdict H organ action says private_pem reason lean_sha ts m
          ≡ ok (wire_row H organ says reason body sig))
  unfolding sign_verdict
  sign_verdict-IsSigner body writes k =
      let (message, encoded) = pae_total body in
      let (sig, e) = k.signs m.draw message in
      (sig, rw (writes, k.encodes, k.loads, encoded, e) refl)
