-- ===== src/Registry.antt =====
-- python/khipu_consensus/witness.py: the witnesses and their registry.
pub mod Keys
pub mod Fleet
pub mod Entries
use khipu_consensus.Prelude.{
  ℕ, Bool, true, false, not, Option, none, some, List, [], ◌∷◌, ◌++◌, if◌then◌else◌, map, length,
  Text, text,
}
use khipu_consensus.Python.Value.{
  Value, null, str, arr, obj, Items, items, nil, cons, Fields, end, field, find, get_or, get, nat,
  truthy, hashable,
}
use khipu_consensus.Python.Dict.{Dict, lookup, insert, values}
use khipu_consensus.Python.Error.{Result, ok, err, type_error, key_error, ◌>>=◌}
use khipu_consensus.Python.Host.{Host}
use khipu_consensus.Verdict.{Moment, keyid_of, sign_verdict}

-- The fields hold whatever the registry's file held; no private key is `null`.
pub record Witness : Type 0 where
  pub organ : Value
  pub public_key_pem : Value
  pub region : Value
  pub org : Value
  pub endpoint : Value
  pub private_key_pem : Value

-- The public view, which leaves out any private key.
unfoldable pub public : Host → Witness → Fields
public H w = field (text "organ") w.organ (
    field (text "keyid") (str (keyid_of H w.organ)) (
      field (text "region") w.region (
        field (text "org") w.org (
          field (text "endpoint") w.endpoint
            (field (text "public_key_pem") w.public_key_pem end)))))

unfoldable pub can_sign : Witness → Bool
can_sign w = truthy w.private_key_pem

-- The witness's signed verdict, or nothing if it holds no key.
unfoldable pub sign :
    Host
    → Witness
    → (action_hash verdict reason lean_sha ts : Value) → Moment
    → Result (Option Fields)
sign H w action_hash verdict reason lean_sha ts m = if not (can_sign w) then ok none else do
  row ← sign_verdict H w.organ action_hash verdict w.private_key_pem reason lean_sha ts m
  ok (some row)

pub record WitnessRegistry : Type 0 where
  pub witnesses : Dict Witness
  pub threshold : Value

-- `self._w[w.organ] = w`
unfoldable pub add : Witness → Dict Witness → Result (Dict Witness)
add w d = if hashable w.organ then ok (insert w.organ w d) else err type_error

unfoldable pub add_all : List Witness → Dict Witness → Result (Dict Witness)
add_all [] d = ok d
add_all (w ∷ ws) d = do e ← add w d; add_all ws e

-- the constructor
unfoldable pub registry : List Witness → Value → Result WitnessRegistry
registry ws threshold = do d ← add_all ws []; ok (record { witnesses = d; threshold = threshold })

-- `registry.all()`
unfoldable pub all : WitnessRegistry → List Witness
all r = values r.witnesses

-- `registry.n`
unfoldable pub n : WitnessRegistry → ℕ
n r = length r.witnesses

-- `{w.organ: w.public_key_pem for w in ...}`
unfoldable pub pubkeys_onto : Dict Value → List Witness → Dict Value
pubkeys_onto d [] = d
pubkeys_onto d (w ∷ ws) = pubkeys_onto (insert w.organ w.public_key_pem d) ws

unfoldable pub pubkeys : WitnessRegistry → Dict Value
unfolding pubkeys_onto all
pubkeys r = pubkeys_onto [] (all r)

unfoldable pub public_all : Host → WitnessRegistry → List Fields
public_all H r = map (public H) (all r)

-- one entry of a registry's file
unfoldable pub witness_of : Value → Result Witness
witness_of (obj x) = elim (find (text "organ") x) [
  | none ↦ err (key_error (text "organ"))
  | some organ ↦ ok (record {
    organ = organ;
    public_key_pem = get_or x (text "public_key_pem") (str (text ""));
    region = get_or x (text "region") (str (text "unknown"));
    org = get_or x (text "org") (str (text "unknown"));
    endpoint = get_or x (text "endpoint") (str (text ""));
    private_key_pem = get x (text "private_key_pem");
  })
]
witness_of _ = err type_error

abbrev keys : Fields → List Value
keys end = []
keys (field k v f) = str k ∷ keys f

-- `for x in v`
unfoldable pub iterate : Value → Result (List Value)
iterate (arr xs) = ok (items xs)
iterate (str s) = ok (map (λ c. str (c ∷ [])) s)
iterate (obj f) = ok (keys f)
iterate _ = err type_error

unfoldable pub witnesses_of : List Value → Result (List Witness)
witnesses_of [] = ok []
witnesses_of (x ∷ xs) = do w ← witness_of x; ws ← witnesses_of xs; ok (w ∷ ws)

-- `WitnessRegistry.from_dict`
unfoldable pub from_dict : Fields → Result WitnessRegistry
from_dict d = do
  xs ← iterate (get_or d (text "witnesses") (arr nil))
  ws ← witnesses_of xs
  registry ws (get_or d (text "threshold") (nat 3))
