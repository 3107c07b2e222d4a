-- ===== src/Service/Verified.antt =====
-- What the service answers, and that the client answers the same in process.
use khipu_consensus.Prelude.{
  ℕ, ◌≤◌, ◌≡◌, refl, sym, ap, ◌∙◌, false, not, none, some, arith, length, All, text, Bool-cases,
  inl, inr, ◌↔◌,
}
use khipu_consensus.Python.Value.{Value, null, obj, Fields, get, nat, truthy}
use khipu_consensus.Python.Dict.{Dict}
use khipu_consensus.Python.Dict.Keys.{HasTextKeys}
use khipu_consensus.Python.Error.{
  Error, value_error, type_error, attribute_error, index_error, key_error, unicode_encode_error,
  unicode_decode_error, json_decode_error, os_error, spine_unavailable, library_error, Result, ok,
  err, require, ◌>>=◌, ◌>>◌, >>=-eq-ok, ok-injective,
}
use khipu_consensus.Python.Host.{Host}
use khipu_consensus.Tally.{canonical}
use khipu_consensus.Tally.Backing.{IsBacker}
use khipu_consensus.Registry.{WitnessRegistry, pubkeys}
use khipu_consensus.Policy.{Policy, resolve_trust_policy}
use khipu_consensus.Verify.{Verification, verify_receipt}
use khipu_consensus.Verify.Decides.{submitted}
use khipu_consensus.Verify.Backed.{verify_receipt_is_backed}
use khipu_consensus.Sdk.{Transport, KhipuWitnessClient, Answer, local, client_verify, same_keys}
use khipu_consensus.Service.{
  verified, Reply, reply_200, VerifyRequest, other_keys, keys_refused, verified_reply,
  require_registry, v1_verify,
}

refused_is_not :
    (v : Verification) → Path (Result Reply) (ok keys_refused) (ok (reply_200 (verified v))) → ⊥
refused_is_not v h =
    let statuses : Path ℕ 400 200 = ap (λ (r : Reply). r.status) (ok-injective h) in omega arith

local-injective : {v w : Verification} → Path (Answer Verification) (local v) (local w) → v ≡ w
local-injective h = cc

local_err :
    {e : Error} {v : Verification} → Path (Result (Answer Verification)) (ok (local v)) (err e) → ⊥
local_err h = cc

module _ (H : Host) where
  verified_reply_cases :
      (r : Result Verification) (v : Verification)
      → verified_reply r ≡ ok (reply_200 (verified v))
      → r ≡ ok v
  unfolding verified_reply
  verified_reply_cases (ok w) v h = cc
  verified_reply_cases (err unicode_encode_error) v h = cc
  verified_reply_cases (err (value_error m)) v h = cc
  verified_reply_cases (err type_error) v h = cc
  verified_reply_cases (err attribute_error) v h = cc
  verified_reply_cases (err index_error) v h = cc
  verified_reply_cases (err (key_error m)) v h = cc
  verified_reply_cases (err unicode_decode_error) v h = cc
  verified_reply_cases (err json_decode_error) v h = cc
  verified_reply_cases (err os_error) v h = cc
  verified_reply_cases (err spine_unavailable) v h = cc
  verified_reply_cases (err (library_error m)) v h = cc

  v1_verify_cases :
      (reg : WitnessRegistry) (req : VerifyRequest) (v : Verification)
      → v1_verify H (some reg) req ≡ ok (reply_200 (verified v))
      → (other_keys req.pubkeys reg ≡ false)
        × (verify_receipt H req.receipt none null (some reg) ≡ ok v)
  unfolding v1_verify require_registry
  v1_verify_cases reg req v h = elim (Bool-cases (other_keys req.pubkeys reg)) [
    | inl others ↦ absurd (refused_is_not v (rw others at h))
    | inr same ↦ (
      same,
      verified_reply_cases (verify_receipt H req.receipt none null (some reg)) v (rw same at h),
    )
  ]

  -- The service confirms a receipt as canonical only if its own registry backs it: at least the
  -- registry's threshold of distinct witnesses, each with a genuine verdict about the receipt's
  -- action among its signatures.
  pub v1_verify_is_backed :
      (reg : WitnessRegistry) (req : VerifyRequest) (v : Verification)
      → v1_verify H (some reg) req ≡ ok (reply_200 (verified v))
      → v.decision ≡ canonical
      → (p : Policy) × (resolve_trust_policy H none null (some reg) ≡ ok p)
        × ((p.trusted_pubkeys ≡ pubkeys reg) × (p.trusted_threshold ≡ reg.threshold))
        × ((t : ℕ) × (p.trusted_threshold ≡ nat t)
            × ((es : Dict Value) × HasTextKeys es
                × (t ≤ length es)
                × All
                    (IsBacker H
                      (get req.receipt (text "action_hash"))
                      p.trusted_pubkeys
                      (submitted H req.receipt p))
                    es))
  v1_verify_is_backed reg req v h c =
      let (_, verifies) = v1_verify_cases reg req v h in
      verify_receipt_is_backed H req.receipt none null (some reg) v tt verifies c

  abbrev in_process : WitnessRegistry → KhipuWitnessClient
  in_process reg = record { registry = some reg; base_url = none }

  abbrev keys_error : Error
  keys_error = value_error (text "pubkeys must exactly match the configured operator registry")

  same_keys_is :
      (T : Transport) (reg : WitnessRegistry) (pubkeys : Fields)
      → same_keys H T (in_process reg) pubkeys ≡ require (not (other_keys pubkeys reg)) keys_error
  same_keys_is T reg pubkeys = elim (Bool-cases (truthy (obj pubkeys))) [
    | inl given ↦ rw given refl
    | inr empty ↦ rw empty refl
  ]

  client_verify_is :
      (T : Transport) (reg : WitnessRegistry) (receipt pubkeys : Fields)
      → client_verify H T (in_process reg) receipt pubkeys ≡ (
          (require (not (other_keys pubkeys reg)) keys_error
            >> verify_receipt H receipt none null (some reg))
          >>= λ v. ok (local v))
  unfolding client_verify
  client_verify_is T reg receipt pubkeys = rw (same_keys_is T reg pubkeys) refl

  client_cases :
      (T : Transport) (reg : WitnessRegistry) (req : VerifyRequest) (v : Verification)
      → client_verify H T (in_process reg) req.receipt req.pubkeys ≡ ok (local v)
      → (other_keys req.pubkeys reg ≡ false)
        × (verify_receipt H req.receipt none null (some reg) ≡ ok v)
  client_cases T reg req v h =
      let h' = client_verify_is T reg req.receipt req.pubkeys in
      elim (Bool-cases (other_keys req.pubkeys reg)) [
        | inl others ↦ absurd (local_err {e = keys_error} (sym h ∙ rw others at h'))
        | inr same ↦
            let (w, verifies, e) =
              >>=-eq-ok (verify_receipt H req.receipt none null (some reg)) _
                (sym (rw same at h') ∙ h) in
            (same, rw (← local-injective (ok-injective e)) verifies)
      ]

  -- A client that holds the service's registry and no URL returns a verification in process
  -- exactly if the service replies with it.
  pub client_verify-v1_verify :
      (T : Transport) (reg : WitnessRegistry) (req : VerifyRequest) (v : Verification)
      → (client_verify H T (record { registry = some reg; base_url = none }) req.receipt req.pubkeys
          ≡ ok (local v))
        ↔ (v1_verify H (some reg) req ≡ ok (reply_200 (verified v)))
  unfolding v1_verify require_registry verified_reply
  client_verify-v1_verify T reg req v = (
    λ h. let (same, verifies) = client_cases T reg req v h in rw (same, verifies) refl,
    λ h.
        let (same, verifies) = v1_verify_cases reg req v h in
        client_verify_is T reg req.receipt req.pubkeys ∙ rw (same, verifies) refl,
  )
