-- ===== src/Collusion.antt =====
-- python/khipu_consensus/collusion.py: the simulated rounds with colluding witnesses.
pub mod Lane
pub mod Outcomes
use khipu_consensus.Prelude.{
  ℕ, zero, suc, ◌+◌, Bool, true, false, not, ◌&&◌, ◌||◌, Option, none, some, List, [], ◌∷◌, ◌++◌,
  count, all, map, length, ltb, leb, ◌==◌, if◌then◌else◌, Text, Bytes, text, ℤ, pos,
}
use khipu_consensus.Prelude.Int.{leb_ℤ, scale}
use khipu_consensus.Prelude.Texts.{text_eq}
use khipu_consensus.Python.Value.{
  Value, null, bool, int, float, str, arr, obj, Items, items, item_list, Fields, end, field, get_or,
  put, nat,
}
use khipu_consensus.Python.Dict.{Dict, insert}
use khipu_consensus.Python.Error.{
  Result, ok, err, Error, value_error, type_error, index_error, require, ◌>>=◌, ◌>>◌,
}
use khipu_consensus.Python.Utf8.{utf8}

-- What the simulation calls: `json.dumps` with ASCII escapes, `hmac.new(..).hexdigest()`,
-- `sha256(..).hexdigest()`, and the product of a float with an `int`.
pub record Tools : Type 0 where
  pub dumps : Value → Text
  pub hmac : Bytes → Bytes → Text
  pub sha256 : Bytes → Text
  pub times : ℤ → ℕ → ℕ → Result Value

-- Each witness draws its key; `key` stands for the 32 random bytes.
pub record Witness : Type 0 where
  pub witness_id : ℕ
  pub key : Bytes
  pub colluder : Bool

pub data Outcome : Type 0 where
  repelled quorum_breach_chain_caught passed : Outcome

pub record Round : Type 0 where
  pub quorum_reached : Bool
  pub signers : List ℕ
  pub tampered : Bool
  pub tamper_detected : Bool
  pub outcome : Outcome
  pub presented_hash : Text
  pub committed_hash : Text

pub record Campaign : Type 0 where
  pub colluders : ℕ
  pub rounds : ℕ
  pub repelled_count : ℕ
  pub caught_count : ℕ
  pub passed_count : ℕ

abbrev pub is_repelled : Outcome → Bool
is_repelled repelled = true
is_repelled _ = false

abbrev pub is_caught : Outcome → Bool
is_caught quorum_breach_chain_caught = true
is_caught _ = false

abbrev pub is_passed : Outcome → Bool
is_passed passed = true
is_passed _ = false

-- a list that is repeated
abbrev repeated {ℓ} : {A : Type ℓ} → ℕ → List A → List A
repeated zero xs = []
repeated (suc n) xs = xs ++ repeated n xs

-- one place of the sorted ids
abbrev place : ℕ → List ℕ → List ℕ
place i [] = i ∷ []
place i (j ∷ js) = (let rest = place i js in if leb i j then i ∷ j ∷ js else j ∷ rest)

-- `sorted(sigs)`
abbrev sorted : Dict Text → List ℕ
sorted [] = []
sorted ((int (pos i), s) ∷ d) = place i (sorted d)
sorted ((_, s) ∷ d) = sorted d

module _ (T : Tools) where
  unfoldable pub canon : Value → Result Bytes
  canon v = utf8 (T.dumps v)

  unfoldable pub sign : Bytes → Text → Result Text
  sign key payload_hash = do b ← utf8 payload_hash; ok (T.hmac key b)

  unfoldable pub hash_of : Value → Result Text
  unfolding canon
  hash_of v = do b ← canon v; ok (T.sha256 b)

  -- A colluder signs whatever is presented; an honest witness only what was committed.
  unfoldable pub attest : Witness → (committed presented : Text) → Result (Option Text)
  attest w committed presented =
      if w.colluder
      then (do s ← sign w.key presented; ok (some s))
      else if text_eq presented committed
      then (do s ← sign w.key committed; ok (some s))
      else ok none

  -- `v * 100`
  unfoldable pub hundredfold : Value → Result Value
  hundredfold (int z) = ok (int (scale z 100))
  hundredfold (bool b) = ok (nat (if b then 100 else 0))
  hundredfold (float m k) = T.times m k 100
  hundredfold (str s) = ok (str (repeated 100 s))
  hundredfold (arr xs) = ok (arr (item_list (repeated 100 (items xs))))
  hundredfold null = err type_error
  hundredfold (obj f) = err type_error

  unfoldable pub present : Fields → Bool → Result Fields
  unfolding hundredfold
  present committed tampered =
      if tampered
      then (do
        amount ← hundredfold (get_or committed (text "amount") (nat 0))
        ok (put (text "amount") amount committed))
      else ok committed

  abbrev pub keep_signature : ℕ → Option Text → Dict Text → Dict Text
  keep_signature i none d = d
  keep_signature i (some s) d = insert (nat i) s d

  -- the loop over the witnesses, onto the signatures so far
  unfoldable pub signatures :
      (committed presented : Text) → Dict Text → List Witness → Result (Dict Text)
  unfolding attest
  signatures committed presented d [] = ok d
  signatures committed presented d (w ∷ ws) = do
    s ← attest w committed presented
    signatures committed presented (keep_signature w.witness_id s d) ws

  unfoldable pub judge : (tampered : Bool) → (committed presented : Text) → Dict Text → Round
  judge tampered committed presented sigs =
      let quorum_reached = leb 3 (length sigs) in
      let tamper_detected = quorum_reached && not (text_eq presented committed) in
      record {
        quorum_reached = quorum_reached;
        signers = sorted sigs;
        tampered = tampered;
        tamper_detected = tamper_detected;
        outcome =
            if not quorum_reached
            then repelled
            else if tamper_detected
            then quorum_breach_chain_caught
            else passed;
        presented_hash = presented;
        committed_hash = committed;
      }

  unfoldable pub run_round : List Witness → Fields → Bool → Result Round
  run_round witnesses committed_payload tampered = do
    committed ← hash_of (obj committed_payload)
    presented_payload ← present committed_payload tampered
    presented ← hash_of (obj presented_payload)
    sigs ← signatures committed presented [] witnesses
    ok (judge tampered committed presented sigs)

  -- `rounds` rounds, one after the other
  unfoldable pub run_rounds : ℕ → List Witness → Fields → Bool → Result (List Round)
  run_rounds zero witnesses payload tampered = ok []
  run_rounds (suc n) witnesses payload tampered = do
    r ← run_round witnesses payload tampered
    rs ← run_rounds n witnesses payload tampered
    ok (r ∷ rs)

  abbrev pub witness : (ℕ → Bytes) → ℕ → ℕ → Witness
  witness keys colluders i = record { witness_id = i; key = keys i; colluder = ltb i colluders }

  -- the four witnesses, the first of which collude
  unfoldable pub witnesses_for : (ℕ → Bytes) → ℕ → List Witness
  witnesses_for keys k =
      witness keys k 0 ∷ witness keys k 1 ∷ witness keys k 2 ∷ witness keys k 3 ∷ []

  unfoldable pub payload_for : Value → Fields
  payload_for seed =
      field (text "proposal") (str (text "interdiction"))
        (field (text "amount") (nat 1) (field (text "nonce") seed end))

  unfoldable pub summarise : (colluders rounds : ℕ) → List Round → Campaign
  summarise colluders rounds results = record {
    colluders = colluders;
    rounds = rounds;
    repelled_count = count (λ (r : Round). is_repelled r.outcome) results;
    caught_count = count (λ (r : Round). is_caught r.outcome) results;
    passed_count = count (λ (r : Round). is_passed r.outcome) results;
  }

  abbrev bad_colluders : Error
  bad_colluders = value_error (text "colluders must be an integer in 0..4")

  abbrev bad_rounds : Error
  bad_rounds = value_error (text "rounds must be a positive integer")

  unfoldable pub run_counts : (ℕ → Bytes) → (colluders rounds : ℕ) → Value → Result Campaign
  run_counts keys colluders rounds seed = do
    require (leb colluders 4) bad_colluders
    require (leb 1 rounds) bad_rounds
    results ← run_rounds rounds (witnesses_for keys colluders) (payload_for seed) (ltb 0 colluders)
    ok (summarise colluders rounds results)

  -- The counts may be any values; `True` is no `int` here.
  unfoldable pub run_campaign : (ℕ → Bytes) → (colluders rounds seed : Value) → Result Campaign
  unfolding run_counts
  run_campaign keys (int (pos k)) (int (pos n)) seed = run_counts keys k n seed
  run_campaign keys (int (pos k)) rounds seed =
      if leb k 4 then err bad_rounds else err bad_colluders
  run_campaign keys colluders rounds seed = err bad_colluders
