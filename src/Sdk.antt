-- ===== src/Sdk.antt =====
-- python/khipu_consensus/sdk.py: the client, in process or remote. The transport of `requests`,
-- with its timeout, is a parameter.
use khipu_consensus.Prelude.{
  Bool, true, false, not, ◌&&◌, Option, none, some, List, [], ◌∷◌, ◌++◌, ◌==◌, if◌then◌else◌, Text,
  text,
}
use khipu_consensus.Python.Value.{Value, null, str, obj, Fields, end, field, find, truthy}
use khipu_consensus.Python.Error.{
  Result, ok, err, value_error, attribute_error, type_error, key_error, require, ◌>>=◌, ◌>>◌,
}
use khipu_consensus.Python.Host.{Host}
use khipu_consensus.Verdict.{Moment}
use khipu_consensus.Registry.{WitnessRegistry, public_all}
use khipu_consensus.Receipt.{MultiWitnessReceipt, attest}
use khipu_consensus.Verify.{Verification, verify_receipt}
use khipu_consensus.Service.{other_keys}

-- A request that raises for its status, and the JSON of its reply.
pub record Transport : Type 0 where
  pub post : (url : Text) → Fields → Result Value
  pub get_json : (url : Text) → Result Value

pub record KhipuWitnessClient : Type 0 where
  pub registry : Option WitnessRegistry
  pub base_url : Option Text

-- What a call returns: the JSON of the remote, or a value made in process.
pub data Answer {ℓ} (A : Type ℓ) : Type ℓ where
  remote : Value → Answer A
  local : A → Answer A

-- a text that is there and not empty
abbrev is_given : Option Text → Bool
is_given none = false
is_given (some s) = truthy (str s)

abbrev is_set : Option WitnessRegistry → Bool
is_set none = false
is_set (some r) = true

-- `s.rstrip("/")`
unfoldable rstrip_slash : Text → Text
rstrip_slash [] = []
rstrip_slash (c ∷ s) =
    let rest = rstrip_slash s in if (c == 47) && not (truthy (str rest)) then [] else c ∷ rest

abbrev trimmed : Option Text → Option Text
trimmed none = none
trimmed (some s) = if truthy (str s) then some (rstrip_slash s) else none

unfoldable client : Option WitnessRegistry → Option Text → Result KhipuWitnessClient
unfolding rstrip_slash
client registry base_url =
    if not (is_set registry) && not (is_given base_url)
    then err (value_error (text "provide either a registry (in-process) or a base_url (remote)"))
    else ok (record { registry = registry; base_url = trimmed base_url })

-- `body["witnesses"]`
abbrev witnesses_field : Value → Result Value
witnesses_field (obj f) = elim (find (text "witnesses") f) [
  | none ↦ err (key_error (text "witnesses"))
  | some v ↦ ok v
]
witnesses_field _ = err type_error

module _ (H : Host) (T : Transport) (c : KhipuWitnessClient) where
  -- the dispatch: a base URL that is not empty, or in process
  abbrev dispatch {ℓ} : {A : Type ℓ} → (Text → Result Value) → Result A → Result (Answer A)
  dispatch send here = elim c.base_url [
    | none ↦ (do a ← here; ok (local a))
    | some url ↦
        (if truthy (str url) then (do v ← send url; ok (remote v)) else (do a ← here; ok (local a)))
  ]

  -- an attribute of a registry that may be `None`
  abbrev with_registry {ℓ} : {A : Type ℓ} → (WitnessRegistry → Result A) → Result A
  with_registry f = elim c.registry [ none ↦ err attribute_error | some r ↦ f r ]

  unfoldable client_attest :
      (action_hash : Value)
      → Fields
      → (reason lean_sha : Value) → (Value → Moment)
      → Result (Answer MultiWitnessReceipt)
  client_attest action_hash verdicts reason lean_sha moments =
      dispatch
        (λ url. T.post (url ++ text "/attest") (
          field (text "action_hash") action_hash (
            field (text "verdicts") (obj verdicts)
              (field (text "reason") reason (field (text "lean_sha") lean_sha end)))))
        (with_registry (λ r. attest H action_hash r verdicts reason lean_sha moments))

  -- `self.registry.pubkeys()` is called only if keys are given
  abbrev pub same_keys : Fields → Result (Unit {0})
  same_keys pubkeys =
      if truthy (obj pubkeys)
      then with_registry (λ r.
        require (not (other_keys pubkeys r))
          (value_error (text "pubkeys must exactly match the configured operator registry")))
      else ok tt

  unfoldable pub client_verify : Fields → (pubkeys : Fields) → Result (Answer Verification)
  client_verify receipt pubkeys =
      dispatch
        (λ url.
          T.post (url ++ text "/verify")
            (field (text "receipt") (obj receipt) (field (text "pubkeys") (obj pubkeys) end)))
        (do same_keys pubkeys; verify_receipt H receipt none null c.registry)

  unfoldable client_witnesses : Result (Answer (List Fields))
  client_witnesses =
      dispatch (λ url. do v ← T.get_json (url ++ text "/witnesses"); witnesses_field v)
        (with_registry (λ r. ok (public_all H r)))
