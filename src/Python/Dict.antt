-- ===== src/Python/Dict.antt =====
-- A `dict` whose keys are any values with a hash, and a `set` of such. An entry keeps the place of
-- its key's first insertion.
pub mod Keys
use khipu_consensus.Prelude.{
  Bool, true, false, ◌&&◌, ◌||◌, Option, none, some, List, [], ◌∷◌, ◌==◌, if◌then◌else◌, length,
  map,
}
use khipu_consensus.Python.Value.{Value, str, Fields, end, field, eq}

abbrev pub Dict {ℓ} : Type ℓ → Type ℓ
Dict V = List (Value × V)

module _ {ℓ} {V : Type ℓ} where
  -- the entry of a key
  unfoldable pub lookup : Value → Dict V → Option V
  lookup k [] = none
  lookup k ((j, v) ∷ d) = if eq j k then some v else lookup k d

  -- `d[k] = v`
  unfoldable pub insert : Value → V → Dict V → Dict V
  insert k v [] = (k, v) ∷ []
  insert k v ((j, w) ∷ d) = if eq j k then (j, v) ∷ d else (j, w) ∷ insert k v d

  -- `k in d`
  abbrev pub has_key : Value → Dict V → Bool
  has_key k d = elim (lookup k d) [ none ↦ false | some v ↦ true ]

  -- `list(d.values())`
  abbrev pub values : Dict V → List V
  values = map (λ (k, v). v)

-- `v in seen`
unfoldable pub member : Value → List Value → Bool
member v [] = false
member v (w ∷ ws) = eq w v || member v ws

-- `{k: v for ...}` of a JSON object
abbrev pub dict_of : Fields → Dict Value
dict_of end = []
dict_of (field k v f) = (str k, v) ∷ dict_of f

-- every entry of the first dict is an entry of the second
unfoldable pub agrees : Dict Value → Dict Value → Bool
agrees [] e = true
agrees ((k, v) ∷ d) e = elim (lookup k e) [ none ↦ false | some w ↦ eq v w ] && agrees d e

-- `d == e`
abbrev pub dict_eq : Dict Value → Dict Value → Bool
dict_eq d e = length d == length e && agrees d e
