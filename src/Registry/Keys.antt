-- ===== src/Registry/Keys.antt =====
-- The public keys of a registry: a dict with distinct text keys, if its keys are texts at all.
use mathlib.Core.Path.{subst}
use khipu_consensus.Prelude.{
  ◌≡◌, refl, sym, true, false, none, List, [], ◌∷◌, arith, inl, inr, Bool-cases, All,
}
use khipu_consensus.Python.Value.{Value, eq, is_str, eq-is_str_sym, eq-is_str→≡}
use khipu_consensus.Python.Dict.{Dict, lookup, insert}
use khipu_consensus.Python.Dict.Keys.{HasTextKeys}
use khipu_consensus.Registry.{Witness, WitnessRegistry, all, pubkeys, pubkeys_onto}

abbrev pub IsTextKey : Value × Value → Type 0
IsTextKey (k, v) = is_str k ≡ true

module _ (k v j w : Value) (d : Dict Value) where
  insert_there : eq j k ≡ true → insert k v ((j, w) ∷ d) ≡ (j, v) ∷ d
  unfolding insert
  insert_there same = rw same

  insert_beyond : eq j k ≡ false → insert k v ((j, w) ∷ d) ≡ (j, w) ∷ insert k v d
  unfolding insert
  insert_beyond apart = rw apart

-- An insertion keeps the keys that are there, and its own key is among them.
insert-IsTextKey :
    (k v : Value) (d : Dict Value)
    → All IsTextKey (insert k v d)
    → (is_str k ≡ true) × All IsTextKey d
insert-IsTextKey k v [] h = (unfold insert in h.0, tt)
insert-IsTextKey k v ((j, w) ∷ d) h = elim (Bool-cases (eq j k)) [
  | inl same ↦
      let (text, rest) = subst (All IsTextKey) (insert_there k v j w d same) h in
      let k_is : k ≡ j = eq-is_str→≡ k j text (rw (eq-is_str_sym k j text) same) in
      (rw k_is text, (text, rest))
  | inr apart ↦
      let (text, rest) = subst (All IsTextKey) (insert_beyond k v j w d apart) h in
      let (own, kept) = insert-IsTextKey k v d rest in (own, (text, kept))
]

pubkeys_onto-IsTextKey :
    (d : Dict Value) (ws : List Witness) → All IsTextKey (pubkeys_onto d ws) → All IsTextKey d
unfolding pubkeys_onto
pubkeys_onto-IsTextKey d [] h = h
pubkeys_onto-IsTextKey d (w ∷ ws) h =
    (insert-IsTextKey w.organ w.public_key_pem d
      (pubkeys_onto-IsTextKey (insert w.organ w.public_key_pem d) ws h)).1

lookup-insert_apart :
    (j k v : Value) (d : Dict Value)
    → is_str j ≡ true
    → eq j k ≡ false
    → lookup j d ≡ none
    → lookup j (insert k v d) ≡ none
unfolding lookup insert
lookup-insert_apart j k v [] text apart h = ground (arith, eq-is_str_sym k j text)
lookup-insert_apart j k v ((i, w) ∷ d) text apart h =
    ground (arith, lookup-insert_apart j k v d text apart, eq-is_str_sym k j text)

insert-HasTextKeys :
    (k v : Value) (d : Dict Value) → is_str k ≡ true → HasTextKeys d → HasTextKeys (insert k v d)
insert-HasTextKeys k v [] text h = unfold insert lookup in (text, refl, tt)
insert-HasTextKeys k v ((j, w) ∷ d) text (own, fresh, h) = elim (Bool-cases (eq j k)) [
  | inl same ↦ subst HasTextKeys (sym (insert_there k v j w d same)) (own, fresh, h)
  | inr apart ↦
      subst HasTextKeys (sym (insert_beyond k v j w d apart))
        (own, lookup-insert_apart j k v d own apart fresh, insert-HasTextKeys k v d text h)
]

pubkeys_onto-HasTextKeys :
    (d : Dict Value) (ws : List Witness)
    → HasTextKeys d
    → All IsTextKey (pubkeys_onto d ws)
    → HasTextKeys (pubkeys_onto d ws)
unfolding pubkeys_onto
pubkeys_onto-HasTextKeys d [] h all_text = h
pubkeys_onto-HasTextKeys d (w ∷ ws) h all_text =
    let (text, _) =
      insert-IsTextKey w.organ w.public_key_pem d
        (pubkeys_onto-IsTextKey (insert w.organ w.public_key_pem d) ws all_text) in
    pubkeys_onto-HasTextKeys (insert w.organ w.public_key_pem d) ws
      (insert-HasTextKeys w.organ w.public_key_pem d text h) all_text

pub pubkeys-HasTextKeys :
    (r : WitnessRegistry) → All IsTextKey (pubkeys r) → HasTextKeys (pubkeys r)
unfolding pubkeys
pubkeys-HasTextKeys r h = pubkeys_onto-HasTextKeys [] (all r) tt h
