-- ===== src/Verify/Matched.antt =====
-- The policy that a receipt embeds, and the trusted one.
use khipu_consensus.Prelude.{◌≡◌, ◌↔◌, Bool, true, ◌&&◌, refl, text, arith}
use khipu_consensus.Python.Value.{nat, Fields, get, eq}
use khipu_consensus.Python.Dict.{dict_eq}
use khipu_consensus.Policy.{Policy, embedded_pubkeys}
use khipu_consensus.Verify.{policy_matches}

-- The receipt embeds the keys, the threshold and the number of witnesses of the policy.
pub record EmbedsPolicy (receipt : Fields) (p : Policy) : Type 0 where
  pub well_formed_keys : (embedded_pubkeys receipt).1 ≡ true
  pub same_keys : dict_eq ((embedded_pubkeys receipt).0) p.trusted_pubkeys ≡ true
  pub same_threshold : eq (get receipt (text "threshold")) p.trusted_threshold ≡ true
  pub same_n : eq (get receipt (text "n")) (nat p.trusted_n) ≡ true

all_four :
    (a b c d : Bool)
    → (a && b && c && d ≡ true) ↔ ((a ≡ true) × (b ≡ true) × (c ≡ true) × (d ≡ true))
all_four a b c d = (
  λ h. (ground arith, ground arith, ground arith, ground arith),
  λ (e, f, g, h). rw (e, f, g, h) refl,
)

pub policy_matches-EmbedsPolicy :
    (receipt : Fields) (p : Policy) → (policy_matches receipt p ≡ true) ↔ EmbedsPolicy receipt p
unfolding policy_matches
policy_matches-EmbedsPolicy receipt p =
    let parts =
      all_four ((embedded_pubkeys receipt).1)
        (dict_eq ((embedded_pubkeys receipt).0) p.trusted_pubkeys)
        (eq (get receipt (text "threshold")) p.trusted_threshold)
        (eq (get receipt (text "n")) (nat p.trusted_n)) in
    (
      λ h.
          let (keys, same, level, number) = parts.0 h in
          record {
            well_formed_keys = keys;
            same_keys = same;
            same_threshold = level;
            same_n = number;
          },
      λ e. parts.1 (e.well_formed_keys, e.same_keys, e.same_threshold, e.same_n),
    )
