-- ===== src/Adversary/Battery.antt =====
-- python/khipu_consensus/adversary.py: the verdicts of the battery and of one round of fuzzing. The
-- draws of `random`, the randomness of the signatures and the fresh keys are arbitrary.
pub mod Total
pub mod Rounds
pub mod Deal
use khipu_consensus.Prelude.{
  ℕ, zero, suc, ◌+◌, ◌-◌, ◌%◌, Bool, true, false, ◌&&◌, Option, none, some, List, [], ◌∷◌, ◌++◌,
  map, if◌then◌else◌, length, Text, Bytes, text,
}
use khipu_consensus.Prelude.Lists.{get_elem?, swap}
use khipu_consensus.Python.Value.{Value, str, Fields}
use khipu_consensus.Python.Dict.{Dict, lookup, insert, values}
use khipu_consensus.Python.Error.{Result, ok, err, index_error, key_error, ◌>>=◌}
use khipu_consensus.Python.Host.{Host}
use khipu_consensus.Verdict.{Moment, sign_verdict}
use khipu_consensus.Tally.{Item, abstain, row}
use khipu_consensus.Adversary.{duplicate_stuffing}
use khipu_consensus.Adversary.Attacks.{
  forged_signature_verdict, impersonation_verdict, equivocation_verdict, tamper_verdict,
  replay_verdict, silent_verdict,
}

abbrev pub action_a : Text
action_a = text "c67945277763d12641ba4649349e42f221d4bd637268623ebe8a500edac02312"

abbrev pub action_b : Text
action_b = text "b100000000000000000000000000000000000000000000000000000000000b01"

-- What a witness is made to submit: the choices of a round of fuzzing.
pub data Move : Type 0 where
  allows blocks silence forged_signature impersonation action_mismatch payload_tamper replay : Move

-- What the harness draws. A signature and `os.urandom` draw at a round and a place in it.
pub record Sources : Type 0 where
  -- the i-th `_keypair()`: a private and a public key
  pub keypair : ℕ → Value × Value
  pub attacker : Value × Value
  pub moment : (round place : ℕ) → Moment
  pub urandom : (round place : ℕ) → Bytes
  -- `rng.choice` of a move
  pub choice : (round place : ℕ) → Move
  -- `rng.random() < 0.5`
  pub stuffs : (round : ℕ) → Bool
  -- `rng.choice` of a victim, and `rng.randint(1, 3)`
  pub victim : (round : ℕ) → ℕ
  pub copies : (round : ℕ) → ℕ
  -- the draws of `rng.shuffle`
  pub exchange : (round place : ℕ) → ℕ

-- `rng.shuffle(x)`: for i from the last index down to 1, x[i] and x[j] change places, j at most i
unfoldable pub shuffle_from {ℓ} : {A : Type ℓ} → (ℕ → ℕ) → ℕ → List A → List A
shuffle_from draw zero xs = xs
shuffle_from draw (suc i) xs = shuffle_from draw i (swap xs (suc i) (draw (suc i) % suc (suc i)))

unfoldable pub shuffle {ℓ} : {A : Type ℓ} → (ℕ → ℕ) → List A → List A
shuffle draw xs = shuffle_from draw (length xs - 1) xs

-- `{o: _keypair() for o in organs}`
unfoldable pub keys_onto : Sources → ℕ → Dict (Value × Value) → List Text → Dict (Value × Value)
keys_onto S i keys [] = keys
keys_onto S i keys (o ∷ os) = keys_onto S (suc i) (insert (str o) (S.keypair i) keys) os

-- `keys[o]`
unfoldable pub key_of : Dict (Value × Value) → Text → Result (Value × Value)
key_of keys o = elim (lookup (str o) keys) [ none ↦ err (key_error o) | some k ↦ ok k ]

-- `{o: keys[o][1] for o in organs}`
unfoldable pub pubkeys_from : Dict (Value × Value) → Dict Value → List Text → Result (Dict Value)
pubkeys_from keys d [] = ok d
pubkeys_from keys d (o ∷ os) = do
  (private_pem, public_pem) ← key_of keys o
  pubkeys_from keys (insert (str o) public_pem d) os

-- `organs[i]`
unfoldable pub organ_at : List Text → ℕ → Result Text
organ_at organs i = elim (get_elem? organs i) [ none ↦ err index_error | some o ↦ ok o ]

abbrev pub item : Option Fields → Item
item none = abstain
item (some d) = row d

-- `used_genuine[o] = v`, of a verdict that allows
abbrev pub genuine : Move → Text → Option Fields → Dict Fields → Dict Fields
genuine allows o (some d) used = insert (str o) d used
genuine _ o v used = used

module _ (H : Host) (read : Bytes → Result Value) (S : Sources) (keys : Dict (Value × Value)) where
  -- `allow` and `block` of the harness
  unfoldable pub signed : (organ action verdict : Text) → Moment → Result Fields
  signed o action x m = do
    (private_pem, public_pem) ← key_of keys o
    sign_verdict H (str o) (str action) (str x) private_pem (str (text "")) (str (text ""))
        (str (text "seed")) m

  unfoldable pub play : Move → Text → (round place : ℕ) → Result (Option Fields)
  play allows o r i = do d ← signed o action_a (text "allow") (S.moment r i); ok (some d)
  play blocks o r i = do d ← signed o action_a (text "block") (S.moment r i); ok (some d)
  play silence o r i = ok (silent_verdict H)
  play forged_signature o r i = do
    d ←
        forged_signature_verdict H (str o) (str action_a) (str (text "allow")) (str (text "seed"))
          (S.urandom r i)
    ok (some d)
  play impersonation o r i = do
    d ←
        impersonation_verdict H (str o) (str action_a) S.attacker.0 (str (text "allow"))
          (str (text "seed")) (S.moment r i)
    ok (some d)
  play action_mismatch o r i = do
    (private_pem, public_pem) ← key_of keys o
    d ←
        equivocation_verdict H (str o) (str action_b) private_pem (str (text "allow"))
          (str (text "seed")) (S.moment r i)
    ok (some d)
  play payload_tamper o r i = do
    b ← signed o action_a (text "block") (S.moment r i)
    d ← tamper_verdict H read b none (some (str (text "allow")))
    ok (some d)
  play replay o r i = do
    d ← signed o action_b (text "allow") (S.moment r i)
    ok (some (replay_verdict H d))

  -- the verdicts of a scenario, in the order in which its list is evaluated
  unfoldable pub plays : (round place : ℕ) → List (Result Text × Move) → Result (List Item)
  plays r i [] = ok []
  plays r i ((who, move) ∷ cast) = do
    o ← who
    v ← play move o r i
    vs ← plays r (suc i) cast
    ok (item v ∷ vs)

  -- a round of fuzzing up to the stuffing: the verdicts, and the genuine ones by witness
  unfoldable pub deal :
      (round place : ℕ) → List Text → Dict Fields → List Item → Result (List Item × Dict Fields)
  deal r i [] used is = ok (is, used)
  deal r i (o ∷ os) used is = do
    v ← play (S.choice r i) o r i
    deal r (suc i) os (genuine (S.choice r i) o v used) (is ++ item v ∷ [])

-- the copies of one genuine verdict, if there is one and the coin says so
unfoldable pub stuffing : Sources → ℕ → List Fields → List Item
stuffing S r [] = []
stuffing S r (d ∷ ds) =
    if S.stuffs r
    then elim (get_elem? (d ∷ ds) (S.victim r % length (d ∷ ds))) [
      | none ↦ []
      | some victim ↦ duplicate_stuffing victim (1 + S.copies r % 3)
    ]
    else []

-- `had_duplicate`
unfoldable pub had_duplicate : Sources → ℕ → List Fields → Bool
had_duplicate S r [] = false
had_duplicate S r (d ∷ ds) = S.stuffs r
