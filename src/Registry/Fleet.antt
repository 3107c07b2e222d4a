-- ===== src/Registry/Fleet.antt =====
-- Witnesses with names and keys, no two of one name.
use khipu_consensus.Prelude.{suc, ◌+◌, ◌≡◌, refl, true, false, List, [], ◌∷◌, arith, All, length}
use khipu_consensus.Python.Value.{Value, eq, eq-is_str_refl}
use khipu_consensus.Python.Dict.{Dict, lookup, insert, has_key, member}
use khipu_consensus.Python.Dict.Keys.{has_key-insert, has_key-insert_own}
use khipu_consensus.Registry.{Witness, pubkeys_onto}
use khipu_consensus.Policy.{named, has_pem}

-- Witnesses with names and keys, each with a name that is not yet a key of the dict.
abbrev pub IsFleet : Dict Value → List Witness → Type 0
IsFleet d [] = Unit
IsFleet d (w ∷ ws) =
    (named w.organ ≡ true)
    × (has_pem w.public_key_pem ≡ true)
    × (has_key w.organ d ≡ false)
    × IsFleet (insert w.organ w.public_key_pem d) ws

-- No witness of the list has a name that is seen, or that stands twice.
abbrev pub AreApart : List Value → List Witness → Type 0
AreApart seen [] = Unit
AreApart seen (w ∷ ws) = (member w.organ seen ≡ false) × AreApart (w.organ ∷ seen) ws

pub AreApart-fewer :
    (s t : List Value) (ws : List Witness)
    → ((v : Value) → member v t ≡ false → member v s ≡ false)
    → AreApart t ws
    → AreApart s ws
unfolding member
AreApart-fewer s t [] f h = tt
AreApart-fewer s t (w ∷ ws) f (new, h) =
    (f w.organ new, AreApart-fewer (w.organ ∷ s) (w.organ ∷ t) ws (λ v g. ground (arith, g, f v)) h)

-- A key that is not there after an insertion is not the one inserted.
has_key-insert_new :
    (v k x : Value) (d : Dict Value)
    → has_key k d ≡ false
    → has_key v (insert k x d) ≡ false
    → (eq k v ≡ false) × (has_key v d ≡ false)
unfolding insert lookup
has_key-insert_new v k x [] fresh h = ground arith
has_key-insert_new v k x ((j, w) ∷ d) fresh h = ground (arith, has_key-insert_new v k x d)

pub IsFleet-AreApart :
    (d : Dict Value) (s : List Value) (ws : List Witness)
    → ((v : Value) → has_key v d ≡ false → member v s ≡ false)
    → IsFleet d ws
    → AreApart s ws
unfolding member
IsFleet-AreApart d s [] link h = tt
IsFleet-AreApart d s (w ∷ ws) link (name, pem, fresh, h) = (
  link w.organ fresh,
  IsFleet-AreApart (insert w.organ w.public_key_pem d) (w.organ ∷ s) ws
      (λ v g.
        let (apart, old) = has_key-insert_new v w.organ w.public_key_pem d fresh g in
        let e = link v old in ground (arith, apart, e))
      h,
)

has_key-pubkeys_onto :
    (v : Value) (d : Dict Value) (ws : List Witness)
    → has_key v d ≡ true
    → has_key v (pubkeys_onto d ws) ≡ true
unfolding pubkeys_onto
has_key-pubkeys_onto v d [] h = h
has_key-pubkeys_onto v d (w ∷ ws) h =
    has_key-pubkeys_onto v (insert w.organ w.public_key_pem d) ws
      (has_key-insert v w.organ w.public_key_pem d h)

-- The names of the witnesses are keys of their dict.
pub IsFleet-known :
    (d : Dict Value) (ws : List Witness)
    → IsFleet d ws
    → All
        (λ (w : Witness). (named w.organ ≡ true) × (has_key w.organ (pubkeys_onto d ws) ≡ true))
        ws
unfolding pubkeys_onto
IsFleet-known d [] h = tt
IsFleet-known d (w ∷ ws) (name, pem, fresh, h) = (
  (
    name,
    has_key-pubkeys_onto w.organ (insert w.organ w.public_key_pem d) ws (
        has_key-insert_own w.organ w.public_key_pem d
          (eq-is_str_refl w.organ (ground (arith, name)))),
  ),
  IsFleet-known (insert w.organ w.public_key_pem d) ws h,
)

insert-length :
    (k v : Value) (d : Dict Value) → has_key k d ≡ false → length (insert k v d) ≡ suc (length d)
unfolding insert lookup
insert-length k v [] h = refl
insert-length k v ((j, w) ∷ d) h = ground (arith, insert-length k v d)

pub length-pubkeys_onto :
    (d : Dict Value) (ws : List Witness)
    → IsFleet d ws
    → length (pubkeys_onto d ws) ≡ length d + length ws
unfolding pubkeys_onto
length-pubkeys_onto d [] h = omega arith
length-pubkeys_onto d (w ∷ ws) (name, pem, fresh, h) = omega (
  arith,
  length-pubkeys_onto (insert w.organ w.public_key_pem d) ws h,
  insert-length w.organ w.public_key_pem d fresh,
)
