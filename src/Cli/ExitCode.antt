-- ===== src/Cli/ExitCode.antt =====
-- What the exit code 0 of `khipu-verify` means.
use khipu_consensus.Prelude.{
  ℕ, ◌≤◌, ◌≡◌, refl, Bool, true, false, none, some, List, [], ◌∷◌, arith, length, All,
  if◌then◌else◌, Text, text, ◌==◌,
}
use khipu_consensus.Python.Value.{
  Value, null, bool, int, float, str, arr, obj, Fields, get, get_or, nat, nil,
}
use khipu_consensus.Python.Dict.{Dict}
use khipu_consensus.Python.Dict.Keys.{HasTextKeys}
use khipu_consensus.Python.Error.{Error, Result, ok, err, require, >>=-eq-ok, ok-injective}
use khipu_consensus.Python.Host.{Host}
use khipu_consensus.Tally.{Decision, canonical, rejected}
use khipu_consensus.Tally.Backing.{IsBacker}
use khipu_consensus.Registry.{WitnessRegistry, pubkeys, from_dict}
use khipu_consensus.Policy.{Policy, resolve_trust_policy}
use khipu_consensus.Verify.{Verification, verify_receipt}
use khipu_consensus.Verify.Decides.{submitted}
use khipu_consensus.Verify.Backed.{verify_receipt_is_backed}
use khipu_consensus.Cli.{
  is_int, object_list, organs_of, set_of, check_objects, check_files, exit_code, rejects, main,
}

decision_0 :
    (d : Decision)
    → Path (Result ℕ) (elim d [ canonical ↦ ok 0 | rejected ↦ ok 1 ]) (ok 0)
    → d ≡ canonical
decision_0 canonical h = refl
decision_0 rejected h = ground (arith, ok-injective h)

error_0 : (e : Error) (b : Bool) → Path (Result ℕ) (if b then ok 2 else err e) (ok 0) → ⊥
error_0 e true h = ground (arith, ok-injective h)
error_0 e false h = cc

exit_code_0 :
    (r : Result Verification)
    → exit_code r ≡ ok 0
    → (v : Verification) × (r ≡ ok v) × (v.decision ≡ canonical)
unfolding exit_code
exit_code_0 (ok v) h = (v, refl, decision_0 v.decision h)
exit_code_0 (err e) h = absurd (error_0 e (rejects e) h)

-- What `main` has checked when it answers 0: two files that hold objects, a registry in the second,
-- and a canonical verification of the first under that registry.
pub record Accepts (H : Host) (load : Text → Result Value) (paths : List Text) : Type 0 where
  pub receipt_path : Text
  pub policy_path : Text
  pub receipt : Fields
  pub policy : Fields
  pub reg : WitnessRegistry
  pub result : Verification
  pub two : paths ≡ receipt_path ∷ policy_path ∷ []
  pub receipt_loads : load receipt_path ≡ ok (obj receipt)
  pub policy_loads : load policy_path ≡ ok (obj policy)
  pub reg_loads : from_dict policy ≡ ok reg
  pub verifies : verify_receipt H receipt none null (some reg) ≡ ok result
  pub is_canonical : result.decision ≡ canonical

module _ (H : Host) where
  check_objects_cases :
      (a b : Value) (v : Verification)
      → check_objects H a b ≡ ok v
      → (receipt : Fields) × (policy : Fields) × (reg : WitnessRegistry) × (a ≡ obj receipt)
        × (b ≡ obj policy)
        × (from_dict policy ≡ ok reg)
        × (verify_receipt H receipt none null (some reg) ≡ ok v)
  unfolding check_objects
  check_objects_cases (obj receipt) (obj policy) v h =
      let (_, _, h1) =
        >>=-eq-ok (require (is_int (get_or policy (text "threshold") (nat 3))) _) _ h in
      let (ws, _, h2) = >>=-eq-ok (object_list (get_or policy (text "witnesses") (arr nil))) _ h1 in
      let (distinct, _, h3) = >>=-eq-ok (set_of [] (organs_of ws)) _ h2 in
      let (_, _, h4) = >>=-eq-ok (require (length (organs_of ws) == length distinct) _) _ h3 in
      let (reg, loaded, h5) = >>=-eq-ok (from_dict policy) _ h4 in
      (receipt, policy, reg, refl, refl, loaded, h5)
  check_objects_cases (obj f) null v h = cc
  check_objects_cases (obj f) (bool b) v h = cc
  check_objects_cases (obj f) (int z) v h = cc
  check_objects_cases (obj f) (float m k) v h = cc
  check_objects_cases (obj f) (str s) v h = cc
  check_objects_cases (obj f) (arr xs) v h = cc
  check_objects_cases null w v h = cc
  check_objects_cases (bool b) w v h = cc
  check_objects_cases (int z) w v h = cc
  check_objects_cases (float m k) w v h = cc
  check_objects_cases (str s) w v h = cc
  check_objects_cases (arr xs) w v h = cc

  -- The exit code is 0 only for two files, an object and a policy whose registry verifies it as
  -- canonical.
  main-Accepts :
      (load : Text → Result Value) (paths : List Text)
      → main H load paths ≡ ok 0
      → Accepts H load paths
  unfolding main check_files
  main-Accepts load (a ∷ b ∷ []) h =
      let (v, ran, c) = exit_code_0 (check_files H load a b) h in
      let (x, loaded_x, h1) = >>=-eq-ok (load a) _ ran in
      let (y, loaded_y, h2) = >>=-eq-ok (load b) _ h1 in
      let (receipt, policy, reg, ex, ey, loads, verified) = check_objects_cases x y v h2 in
      record {
        receipt_path = a;
        policy_path = b;
        receipt = receipt;
        policy = policy;
        reg = reg;
        result = v;
        two = refl;
        receipt_loads = rw (← ex) loaded_x;
        policy_loads = rw (← ey) loaded_y;
        reg_loads = loads;
        verifies = verified;
        is_canonical = c;
      }
  main-Accepts load [] h = ground (arith, ok-injective h)
  main-Accepts load (a ∷ []) h = ground (arith, ok-injective h)
  main-Accepts load (a ∷ b ∷ c ∷ rest) h = ground (arith, ok-injective h)

  -- If `khipu-verify` exits with 0, the first file holds a receipt and the second a registry that
  -- backs it: at least the registry's threshold of distinct witnesses of the registry, each with
  -- a genuine verdict about the receipt's action among its signatures.
  pub main_is_backed :
      (load : Text → Result Value) (paths : List Text)
      → main H load paths ≡ ok 0
      → (a : Accepts H load paths) × ((p : Policy) × (resolve_trust_policy H none null (some a.reg)
            ≡ ok p)
          × ((p.trusted_pubkeys ≡ pubkeys a.reg) × (p.trusted_threshold ≡ a.reg.threshold))
          × ((t : ℕ) × (p.trusted_threshold ≡ nat t)
              × ((es : Dict Value) × HasTextKeys es
                  × (t ≤ length es)
                  × All
                      (IsBacker H
                        (get a.receipt (text "action_hash"))
                        p.trusted_pubkeys
                        (submitted H a.receipt p))
                      es)))
  main_is_backed load paths h =
      let a = main-Accepts load paths h in
      (
        a,
        verify_receipt_is_backed H a.receipt none null (some a.reg) a.result tt a.verifies
            a.is_canonical,
      )
