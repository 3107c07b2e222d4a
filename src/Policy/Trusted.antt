-- ===== src/Policy/Trusted.antt =====
-- What a resolved policy guarantees.
use khipu_consensus.Prelude.{
  ℕ, ◌≡◌, sym, ap, true, ◌&&◌, Option, none, some, [], ◌∷◌, arith, All, All-map, length,
}
use khipu_consensus.Python.Value.{Value, null, bool, int, float, str, arr, obj, nat}
use khipu_consensus.Python.Dict.{Dict, lookup}
use khipu_consensus.Python.Dict.Keys.{HasTextKeys}
use khipu_consensus.Python.Error.{ok, require, >>=-eq-ok}
use khipu_consensus.Python.Host.{Host}
use khipu_consensus.Tally.{valid_quorum_counts}
use khipu_consensus.Registry.{WitnessRegistry, pubkeys}
use khipu_consensus.Registry.Keys.{IsTextKey, pubkeys-HasTextKeys}
use khipu_consensus.Policy.{
  Policy, named, has_pem, in_range, is_null, is_none, check_keys, check_policy,
  resolve_trust_policy,
}

abbrev pub IsKeyed : Value × Value → Type 0
IsKeyed (organ, pem) = (named organ ≡ true) × (has_pem pem ≡ true)

-- Every organ is a non-empty text with a key that is not blank, `n` is their number, and the
-- threshold is an `int` from 1 to `n`.
pub record IsTrusted (p : Policy) : Type 0 where
  pub keyed : All IsKeyed p.trusted_pubkeys
  pub distinct : HasTextKeys p.trusted_pubkeys
  pub sized : p.trusted_n ≡ length p.trusted_pubkeys
  pub quorum : valid_quorum_counts p.trusted_threshold (nat p.trusted_n) ≡ true

-- As every Python dict, it repeats no key.
abbrev IsDict : Dict Value → Type 0
IsDict [] = Unit
IsDict ((k, v) ∷ d) = (lookup k d ≡ none) × IsDict d

abbrev pub IsDictIfGiven : Option (Dict Value) → Type 0
IsDictIfGiven none = Unit
IsDictIfGiven (some d) = IsDict d

-- The keys and the threshold of the policy are the registry's, or those that the caller gave.
abbrev pub IsFromCaller : Option (Dict Value) → Value → Option WitnessRegistry → Policy → Type 0
IsFromCaller given threshold none p =
    (given ≡ some p.trusted_pubkeys) × (p.trusted_threshold ≡ threshold)
IsFromCaller given threshold (some r) p =
    (p.trusted_pubkeys ≡ pubkeys r) × (p.trusted_threshold ≡ r.threshold)

IsKeyed-IsTextKey : (e : Value × Value) → IsKeyed e → IsTextKey e
IsKeyed-IsTextKey e h = ground arith

IsDict-HasTextKeys : (d : Dict Value) → IsDict d → All IsKeyed d → HasTextKeys d
IsDict-HasTextKeys [] u h = tt
IsDict-HasTextKeys (e ∷ d) (fresh, u) (k, h) =
    (IsKeyed-IsTextKey e k, fresh, IsDict-HasTextKeys d u h)

module _ (H : Host) where
  check_keys-IsKeyed : (d : Dict Value) → check_keys H d ≡ ok tt → All IsKeyed d
  unfolding check_keys
  check_keys-IsKeyed [] h = tt
  check_keys-IsKeyed ((organ, pem) ∷ d) h =
      ((ground arith, ground arith), check_keys-IsKeyed d (ground arith))

  in_range-quorum :
      (threshold : Value) (n : ℕ)
      → in_range threshold n ≡ true
      → valid_quorum_counts threshold (nat n) ≡ true
  unfolding valid_quorum_counts
  in_range-quorum (int t) n h = h
  in_range-quorum null n h = cc
  in_range-quorum (bool b) n h = cc
  in_range-quorum (float m k) n h = cc
  in_range-quorum (str s) n h = cc
  in_range-quorum (arr xs) n h = cc
  in_range-quorum (obj f) n h = cc

  -- what the guards of `check_policy` leave
  pub check_policy_cases :
      (d : Dict Value) (threshold : Value) (p : Policy)
      → check_policy H (some d) threshold ≡ ok p
      → (check_keys H d ≡ ok tt)
        × (in_range threshold (length d) ≡ true)
        × (p.trusted_pubkeys ≡ d)
        × (p.trusted_threshold ≡ threshold)
        × (p.trusted_n ≡ length d)
  unfolding check_policy
  check_policy_cases d threshold p h = ground arith

  check_policy-IsTrusted :
      (d : Dict Value) (threshold : Value) (p : Policy)
      → (All IsKeyed d → HasTextKeys d)
      → check_policy H (some d) threshold ≡ ok p
      → IsTrusted p
  check_policy-IsTrusted d threshold p distinct h =
      let (checked, fits, keys, level, size) = check_policy_cases d threshold p h in
      let keyed = check_keys-IsKeyed d checked in
      record {
        keyed = rw keys keyed;
        distinct = rw keys (distinct keyed);
        sized = rw (size, keys);
        quorum = rw (level, size) (in_range-quorum threshold (length d) fits);
      }

  check_policy-none : (threshold : Value) (p : Policy) → check_policy H none threshold ≡ ok p → ⊥
  unfolding check_policy
  check_policy-none threshold p h = cc

  registry-IsTrusted :
      (r : WitnessRegistry) (p : Policy)
      → check_policy H (some (pubkeys r)) r.threshold ≡ ok p
      → IsTrusted p
  registry-IsTrusted r p h =
      check_policy-IsTrusted (pubkeys r) r.threshold p
        (λ keyed.
          pubkeys-HasTextKeys r (All-map IsKeyed IsTextKey (pubkeys r) IsKeyed-IsTextKey keyed))
        h

  pub given_none :
      (given : Option (Dict Value)) (threshold : Value) (r : WitnessRegistry) (p : Policy)
      → resolve_trust_policy H given threshold (some r) ≡ ok p
      → check_policy H (some (pubkeys r)) r.threshold ≡ ok p
  unfolding resolve_trust_policy
  given_none given threshold r p h =
      let (u, _, rest) = >>=-eq-ok (require (is_none given && is_null threshold) _) _ h in rest

  pub resolve-IsFromCaller :
      (given : Option (Dict Value)) (threshold : Value) (reg : Option WitnessRegistry) (p : Policy)
      → resolve_trust_policy H given threshold reg ≡ ok p
      → IsFromCaller given threshold reg p
  unfolding resolve_trust_policy
  resolve-IsFromCaller none threshold none p h = absurd (check_policy-none threshold p h)
  resolve-IsFromCaller (some d) threshold none p h =
      let (_, _, keys, level, _) = check_policy_cases d threshold p h in (ap some (sym keys), level)
  resolve-IsFromCaller given threshold (some r) p h =
      let (_, _, keys, level, _) =
        check_policy_cases (pubkeys r) r.threshold p (given_none given threshold r p h) in
      (keys, level)

  -- A policy that is resolved is sound, whether the caller gave keys and a threshold or a
  -- registry, and whatever the values in them: distinct non-empty names, keys that are not blank,
  -- and a threshold from 1 to their number. Keys that are given are a dict, which repeats no key.
  pub resolve-IsTrusted :
      (given : Option (Dict Value)) (threshold : Value) (reg : Option WitnessRegistry) (p : Policy)
      → IsDictIfGiven given
      → resolve_trust_policy H given threshold reg ≡ ok p
      → IsTrusted p
  unfolding resolve_trust_policy
  resolve-IsTrusted none threshold none p u h = absurd (check_policy-none threshold p h)
  resolve-IsTrusted (some d) threshold none p u h =
      check_policy-IsTrusted d threshold p (IsDict-HasTextKeys d u) h
  resolve-IsTrusted given threshold (some r) p u h =
      registry-IsTrusted r p (given_none given threshold r p h)
