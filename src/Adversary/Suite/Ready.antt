-- ===== src/Adversary/Suite/Ready.antt =====
-- What a run of the harness relies on, and the keys that it makes for its witnesses.
use khipu_consensus.Prelude.{
  ℕ, zero, suc, ◌<◌, ◌≡◌, refl, true, List, [], ◌∷◌, arith, All, length, Text, Bytes,
}
use khipu_consensus.Python.Value.{Value, str, eq-str_refl}
use khipu_consensus.Python.Dict.{Dict, insert, has_key}
use khipu_consensus.Python.Dict.Keys.{has_key-insert, has_key-insert_own, insert-All}
use khipu_consensus.Python.Error.{Result, ok}
use khipu_consensus.Python.Host.{Host}
use khipu_consensus.Verdict.Total.{IsSigner}
use khipu_consensus.Adversary.Battery.{Sources, keys_onto, pubkeys_from, organ_at}
use khipu_consensus.Adversary.Battery.Total.{Speaks, IsReady, key_of_total}

-- The fresh keys sign, and the statements that the harness makes have encodings.
pub record IsEquipped (H : Host) (read : Bytes → Result Value) (S : Sources) (organs : List Text)
    : Type 0 where
  pub signers : (i : ℕ) → IsSigner H (S.keypair i).0
  pub attacker : IsSigner H S.attacker.0
  pub speak : All (Speaks H read) organs

module _ (H : Host) (S : Sources) (signs : (i : ℕ) → IsSigner H (S.keypair i).0) where
  abbrev pub Signs : Dict (Value × Value) → Type 0
  Signs = All (λ (o, k). IsSigner H k.0)

  pub keys_onto-Signs :
      (os : List Text) (i : ℕ) (keys : Dict (Value × Value))
      → Signs keys
      → Signs (keys_onto S i keys os)
  unfolding keys_onto
  keys_onto-Signs [] i keys h = h
  keys_onto-Signs (o ∷ os) i keys h =
      keys_onto-Signs os (suc i) (insert (str o) (S.keypair i) keys)
        (insert-All (λ (k : Value × Value). IsSigner H k.0) (str o) (S.keypair i) keys (signs i) h)

has_key-keys_onto :
    (S : Sources) (v : Value) (os : List Text) (i : ℕ) (keys : Dict (Value × Value))
    → has_key v keys ≡ true
    → has_key v (keys_onto S i keys os) ≡ true
unfolding keys_onto
has_key-keys_onto S v [] i keys h = h
has_key-keys_onto S v (o ∷ os) i keys h =
    has_key-keys_onto S v os (suc i) (insert (str o) (S.keypair i) keys)
      (has_key-insert v (str o) (S.keypair i) keys h)

-- Every organ has a key.
abbrev pub HaveKeys : Dict (Value × Value) → List Text → Type 0
HaveKeys keys = All (λ o. has_key (str o) keys ≡ true)

pub keys_onto-HaveKeys :
    (S : Sources) (os : List Text) (i : ℕ) (keys : Dict (Value × Value))
    → HaveKeys (keys_onto S i keys os) os
unfolding keys_onto
keys_onto-HaveKeys S [] i keys = tt
keys_onto-HaveKeys S (o ∷ os) i keys = (
  has_key-keys_onto S (str o) os (suc i) (insert (str o) (S.keypair i) keys)
      (has_key-insert_own (str o) (S.keypair i) keys (eq-str_refl o)),
  keys_onto-HaveKeys S os (suc i) (insert (str o) (S.keypair i) keys),
)

pub speak-IsReady :
    (H : Host) (read : Bytes → Result Value) (S : Sources) (keys : Dict (Value × Value))
    (signers : All (λ (o, k). IsSigner H k.0) keys) (attacker : IsSigner H S.attacker.0)
    (os : List Text)
    → All (Speaks H read) os
    → HaveKeys keys os
    → All (IsReady H read S keys signers attacker) os
speak-IsReady H read S keys signers attacker [] s k = tt
speak-IsReady H read S keys signers attacker (o ∷ os) (so, s) (ko, k) =
    ((so, ko), speak-IsReady H read S keys signers attacker os s k)

pub pubkeys_from_total :
    (H : Host) (read : Bytes → Result Value) (S : Sources) (keys : Dict (Value × Value))
    (signers : All (λ (o, k). IsSigner H k.0) keys) (attacker : IsSigner H S.attacker.0)
    (d : Dict Value) (os : List Text)
    → HaveKeys keys os
    → (out : Dict Value) × (pubkeys_from keys d os ≡ ok out)
unfolding pubkeys_from
pubkeys_from_total H read S keys signers attacker d [] h = (d, refl)
pubkeys_from_total H read S keys signers attacker d (o ∷ os) (ho, h) =
    let (k, found, _) = key_of_total H read S keys signers attacker o ho in
    let (out, rest) =
      pubkeys_from_total H read S keys signers attacker (insert (str o) k.1 d) os h in
    (out, rw found rest)

-- An index in bounds finds an organ that has what all have.
pub organ_at-All {ℓ} :
    (P : Text → Type ℓ) (organs : List Text) (i : ℕ)
    → All P organs
    → i < length organs
    → (o : Text) × (organ_at organs i ≡ ok o) × P o
unfolding organ_at
organ_at-All P [] i h b = absurd (omega arith)
organ_at-All P (o ∷ os) zero (p, h) b = (o, refl, p)
organ_at-All P (o ∷ os) (suc i) (p, h) b = organ_at-All P os i h (omega arith)
