-- ===== src/Verify/Embeds.antt =====
-- What a receipt of a fleet of witnesses embeds, and the policy it is compared with.
use khipu_consensus.Prelude.{
  ◌≡◌, refl, true, some, List, [], ◌∷◌, arith, All, map, text, pos, negsuc, ℤ,
}
use khipu_consensus.Prelude.Texts.{text_eq}
use khipu_consensus.Python.Value.{Value, int, obj, nat, items-item_list, find, eq, eq-is_str_refl}
use khipu_consensus.Python.Dict.{Dict, insert, agrees, dict_eq}
use khipu_consensus.Python.Dict.Keys.{HasTextKeys, IsEntryOf, entries-IsEntryOf}
use khipu_consensus.Python.Host.{Host}
use khipu_consensus.Registry.{Witness, public, pubkeys_onto}
use khipu_consensus.Registry.Fleet.{IsFleet}
use khipu_consensus.Receipt.{MultiWitnessReceipt, to_dict}
use khipu_consensus.Policy.{Policy, embedded_from, embedded_pubkeys}
use khipu_consensus.Policy.Trusted.{IsKeyed}
use khipu_consensus.Verify.{policy_matches}

module _ (H : Host) where
  pub embedded_from-public :
      (d : Dict Value) (ws : List Witness)
      → IsFleet d ws
      → embedded_from d (map obj (map (public H) ws)) ≡ some (pubkeys_onto d ws)
  unfolding embedded_from pubkeys_onto public find text_eq
  embedded_from-public d [] h = refl
  embedded_from-public d (w ∷ ws) (name, pem, fresh, h) =
      rw (name, pem, fresh) (embedded_from-public (insert w.organ w.public_key_pem d) ws h)

-- A dict with text values agrees with one that has its entries.
agrees-entries : (d e : Dict Value) → All (IsEntryOf e) d → All IsKeyed d → agrees d e ≡ true
unfolding agrees
agrees-entries [] e h k = refl
agrees-entries ((o, v) ∷ d) e ((text, found), h) ((name, pem), k) =
    rw (found, eq-is_str_refl v (ground arith)) (agrees-entries d e h k)

pub dict_eq_refl : (d : Dict Value) → HasTextKeys d → All IsKeyed d → dict_eq d d ≡ true
dict_eq_refl d t k = let e = agrees-entries d d (entries-IsEntryOf d t) k in ground (arith, e)

pub int_eq_refl : (z : ℤ) → eq (int z) (int z) ≡ true
unfolding eq
int_eq_refl (pos m) = ground arith
int_eq_refl (negsuc m) = ground arith

pub policy_matches-to_dict :
    (r : MultiWitnessReceipt) (p : Policy)
    → embedded_from [] (map obj r.witnesses) ≡ some p.trusted_pubkeys
    → dict_eq p.trusted_pubkeys p.trusted_pubkeys ≡ true
    → eq r.threshold p.trusted_threshold ≡ true
    → eq (nat r.n) (nat p.trusted_n) ≡ true
    → policy_matches (to_dict r) p ≡ true
unfolding policy_matches embedded_pubkeys to_dict find text_eq
policy_matches-to_dict r p embeds self level size =
    rw (items-item_list (map obj r.witnesses), embeds) (ground (arith, self, level, size))
