-- ===== src/Verdict/Pae.antt =====
-- The DSSE encoding tells apart every two pairs of a type and a body.
use khipu_consensus.Prelude.{◌≡◌, ◌++◌, ◌∷◌, length, Bytes, decimal}
use khipu_consensus.Prelude.Texts.Decimal.{
  decimal-injective, decimal-IsDigit, digits_end, parts_of_length,
}
use khipu_consensus.Python.Value.{Value}
use khipu_consensus.Python.Error.{ok, >>=-eq-ok}
use khipu_consensus.Python.Host.{encode}
use khipu_consensus.Verdict.{pae, pae_bytes}

-- The bytes that are signed determine the type and the body.
pae_bytes-injective :
    (t u body other : Bytes) → pae_bytes t body ≡ pae_bytes u other → (t ≡ u) × (body ≡ other)
unfolding pae_bytes
pae_bytes-injective t u body other e =
    let x : Bytes = decimal (length body) ++ 32 ∷ body in
    let y : Bytes = decimal (length other) ++ 32 ∷ other in
    let (sizes, after) =
      digits_end (decimal (length t)) (decimal (length u)) (t ++ 32 ∷ x) (u ++ 32 ∷ y)
        (decimal-IsDigit (length t)) (decimal-IsDigit (length u)) (cc) in
    let size = decimal-injective (length t) (length u) sizes in
    let (types, rest) = parts_of_length t u (32 ∷ x) (32 ∷ y) size after in
    let (_, bodies) =
      digits_end (decimal (length body)) (decimal (length other)) body other
        (decimal-IsDigit (length body)) (decimal-IsDigit (length other)) (cc) in
    (types, bodies)

-- Two envelopes with the same signed bytes have the same encoded type and the same body.
pub pae-injective :
    (type other_type : Value) (body other message : Bytes)
    → pae type body ≡ ok message
    → pae other_type other ≡ ok message
    → (encode type ≡ encode other_type) × (body ≡ other)
unfolding pae
pae-injective type other_type body other message h k =
    let (t, encoded, e) = >>=-eq-ok (encode type) (λ b. ok (pae_bytes b body)) h in
    let (u, encoded', e') = >>=-eq-ok (encode other_type) (λ b. ok (pae_bytes b other)) k in
    let (types, bodies) = pae_bytes-injective t u body other (cc) in (cc, bodies)
