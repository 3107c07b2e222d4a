-- ===== src/Registry/Entries.antt =====
-- The keys of a fleet of witnesses, entry by entry.
use khipu_consensus.Prelude.{
  ◌≡◌, refl, sym, ◌∙◌, true, false, List, [], ◌∷◌, ◌++◌, append-nil, append_assoc, arith, All, map,
}
use khipu_consensus.Prelude.Texts.{is_blank}
use khipu_consensus.Python.Value.{Value, str, is_str, truthy}
use khipu_consensus.Python.Dict.{Dict, lookup, insert, has_key}
use khipu_consensus.Registry.{Witness, pubkeys_onto}
use khipu_consensus.Registry.Fleet.{IsFleet}
use khipu_consensus.Registry.Keys.{IsTextKey}
use khipu_consensus.Policy.{has_pem}

insert_new : (k v : Value) (d : Dict Value) → has_key k d ≡ false → insert k v d ≡ d ++ (k, v) ∷ []
unfolding insert lookup
insert_new k v [] h = refl
insert_new k v ((j, w) ∷ d) h = ground (arith, insert_new k v d)

pub pubkeys_onto-IsFleet :
    (d : Dict Value) (ws : List Witness)
    → IsFleet d ws
    → pubkeys_onto d ws ≡ d ++ map (λ (w : Witness). (w.organ, w.public_key_pem)) ws
unfolding pubkeys_onto
pubkeys_onto-IsFleet d [] h = sym (append-nil d)
pubkeys_onto-IsFleet d (w ∷ ws) (name, pem, fresh, h) =
    pubkeys_onto-IsFleet (insert w.organ w.public_key_pem d) ws h
    ∙ rw (insert_new w.organ w.public_key_pem d fresh) (
        append_assoc d ((w.organ, w.public_key_pem) ∷ [])
          (map (λ (w : Witness). (w.organ, w.public_key_pem)) ws))

has_pem-truthy : (v : Value) → has_pem v ≡ true → truthy v ≡ true
unfolding is_blank
has_pem-truthy (str []) h = cc
has_pem-truthy (str (c ∷ s)) h = refl
has_pem-truthy _ h = cc

pub IsFleet-keys :
    (d : Dict Value) (ws : List Witness)
    → IsFleet d ws
    → All (λ (w : Witness). truthy w.public_key_pem ≡ true) ws
      × All (λ (w : Witness). is_str w.organ ≡ true) ws
IsFleet-keys d [] h = (tt, tt)
IsFleet-keys d (w ∷ ws) (name, pem, fresh, h) =
    let (ks, ts) = IsFleet-keys (insert w.organ w.public_key_pem d) ws h in
    ((has_pem-truthy w.public_key_pem pem, ks), (ground (arith, name), ts))

pub entries-IsTextKey :
    (ws : List Witness)
    → All (λ (w : Witness). is_str w.organ ≡ true) ws
    → All IsTextKey (map (λ (w : Witness). (w.organ, w.public_key_pem)) ws)
entries-IsTextKey [] h = tt
entries-IsTextKey (w ∷ ws) (t, h) = (t, entries-IsTextKey ws h)
