-- ===== src/Verify/Backed.antt =====
-- What stands behind a receipt that verifies as canonical.
use khipu_consensus.Prelude.{ℕ, ◌≤◌, ◌≡◌, Option, All, length, text}
use khipu_consensus.Python.Value.{Value, nat, Fields, get}
use khipu_consensus.Python.Dict.{Dict}
use khipu_consensus.Python.Dict.Keys.{HasTextKeys}
use khipu_consensus.Python.Error.{ok, >>=-eq-ok}
use khipu_consensus.Python.Host.{Host}
use khipu_consensus.Tally.{canonical}
use khipu_consensus.Tally.Backing.{IsBacker, canonical_is_backed}
use khipu_consensus.Registry.{WitnessRegistry}
use khipu_consensus.Policy.{Policy, resolve_trust_policy}
use khipu_consensus.Policy.Trusted.{
  IsTrusted, IsDictIfGiven, IsFromCaller, resolve-IsTrusted, resolve-IsFromCaller,
}
use khipu_consensus.Verify.{Verification, verify_under, verify_receipt}
use khipu_consensus.Verify.Decides.{
  submitted, well_formed, verify_under_cases, nat_threshold, guarded,
}

module _ (H : Host) (receipt : Fields) (p : Policy) where
  -- Under a trusted policy, a canonical receipt has at least the trusted threshold of distinct
  -- trusted witnesses behind it, each with a genuine verdict about the receipt's action among
  -- its signatures.
  verified_is_backed :
      (v : Verification)
      → IsTrusted p
      → verify_under H receipt p ≡ ok v
      → v.decision ≡ canonical
      → (t : ℕ) × (p.trusted_threshold ≡ nat t)
        × ((es : Dict Value) × HasTextKeys es
            × (t ≤ length es)
            × All
                (IsBacker H
                  (get receipt (text "action_hash"))
                  p.trusted_pubkeys
                  (submitted H receipt p))
                es)
  verified_is_backed v trusted h c =
      let (r, tallied, decided, _, _) = verify_under_cases H receipt p v h in
      let (t, level) = nat_threshold p.trusted_threshold (nat p.trusted_n) trusted.quorum in
      let (_, said) = (guarded (well_formed H receipt p) v.decision r.decision decided).0 c in
      (
        t,
        level,
        canonical_is_backed H (get receipt (text "action_hash")) p.trusted_pubkeys
            (submitted H receipt p) t (nat p.trusted_n) r trusted.distinct
            (rw (← level) trusted.quorum) (rw (← level) tallied) said,
      )

module _ (H : Host) where
  -- A receipt that verifies as canonical has at least the threshold that the caller gave of
  -- distinct witnesses among the keys that the caller gave behind it, or, if the caller gave a
  -- registry, the registry's threshold among the registry's keys; each is there with a genuine
  -- verdict about the receipt's action among its signatures. Trusted keys that are given are a
  -- dict, which repeats no key.
  pub verify_receipt_is_backed :
      (receipt : Fields) (given : Option (Dict Value)) (threshold : Value)
      (reg : Option WitnessRegistry) (v : Verification)
      → IsDictIfGiven given
      → verify_receipt H receipt given threshold reg ≡ ok v
      → v.decision ≡ canonical
      → (p : Policy) × (resolve_trust_policy H given threshold reg ≡ ok p)
        × IsFromCaller given threshold reg p
        × ((t : ℕ) × (p.trusted_threshold ≡ nat t)
            × ((es : Dict Value) × HasTextKeys es
                × (t ≤ length es)
                × All
                    (IsBacker H
                      (get receipt (text "action_hash"))
                      p.trusted_pubkeys
                      (submitted H receipt p))
                    es))
  unfolding verify_receipt
  verify_receipt_is_backed receipt given threshold reg v u h c =
      let (p, resolved, verified) = >>=-eq-ok (resolve_trust_policy H given threshold reg) _ h in
      let trusted = resolve-IsTrusted H given threshold reg p u resolved in
      (
        p,
        resolved,
        resolve-IsFromCaller H given threshold reg p resolved,
        verified_is_backed H receipt p v trusted verified c,
      )
