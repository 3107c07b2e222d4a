-- ===== src/Policy.antt =====
-- python/khipu_consensus/witness.py: the trusted policy, and the checks of an untrusted receipt
-- before any cryptography.
pub mod Trusted
pub mod Entries
use khipu_consensus.Prelude.{
  ℕ, zero, suc, ◌+◌, Bool, true, false, not, ◌&&◌, ◌||◌, Option, none, some, List, [], ◌∷◌, ◌++◌,
  ltb, leb, ◌==◌, if◌then◌else◌, length, Text, text, decimal, ℤ, pos,
}
use khipu_consensus.Prelude.Int.{leb_ℤ}
use khipu_consensus.Prelude.Texts.{is_blank}
use khipu_consensus.Python.Value.{
  Value, null, str, int, arr, obj, Items, items, nil, cons, Fields, find, get, truthy, is_str,
}
use khipu_consensus.Python.Dict.{Dict, lookup, insert, has_key, member}
use khipu_consensus.Python.Error.{Result, ok, err, value_error, require, ◌>>=◌, ◌>>◌}
use khipu_consensus.Python.Host.{Host}
use khipu_consensus.Registry.{WitnessRegistry, pubkeys}

-- what `_resolve_trust_policy` returns
pub record Policy : Type 0 where
  pub trusted_pubkeys : Dict Value
  pub trusted_threshold : Value
  pub trusted_n : ℕ

-- a non-empty `str`
abbrev pub named : Value → Bool
named v = is_str v && truthy v

-- `isinstance(pem, str) and pem.strip()`
abbrev pub has_pem : Value → Bool
has_pem (str s) = not (is_blank s)
has_pem _ = false

abbrev is_int : Value → Bool
is_int (int z) = true
is_int _ = false

unfoldable pub check_keys : Host → Dict Value → Result (Unit {0})
check_keys H [] = ok tt
check_keys H ((organ, pem) ∷ d) = do
  require (named organ) (value_error (text "trusted pubkey organ names must be non-empty strings"))
  require (has_pem pem) (
      value_error
        (text "trusted public key for " ++ (H.repr organ ++ text " must be non-empty PEM")))
  check_keys H d

-- `1 <= threshold <= n` of an `int`
abbrev in_range : Value → ℕ → Bool
in_range (int t) n = leb_ℤ (pos 1) t && leb_ℤ t (pos n)
in_range _ n = false

unfoldable pub is_null : Value → Bool
is_null null = true
is_null _ = false

unfoldable pub check_policy : Host → Option (Dict Value) → Value → Result Policy
check_policy H none threshold = err (
    value_error (text "trusted witness registry or explicit trusted pubkeys+threshold is required"))
check_policy H (some pubkeys) threshold = do
  require (not (is_null threshold)) (
      value_error
        (text "trusted witness registry or explicit trusted pubkeys+threshold is required"))
  require (not (length pubkeys == 0))
      (value_error (text "trusted pubkeys must be a non-empty organ-to-PEM mapping"))
  require (is_int threshold) (value_error (text "trusted threshold must be an integer"))
  check_keys H pubkeys
  require (in_range threshold (length pubkeys))
      (value_error (text "trusted threshold must be between 1 and the trusted witness count"))
  ok (record {
    trusted_pubkeys = pubkeys;
    trusted_threshold = threshold;
    trusted_n = length pubkeys;
  })

abbrev is_none {ℓ} : {A : Type ℓ} → Option A → Bool
is_none none = true
is_none (some a) = false

unfoldable pub resolve_trust_policy :
    Host → Option (Dict Value) → Value → Option WitnessRegistry → Result Policy
resolve_trust_policy H given threshold none = check_policy H given threshold
resolve_trust_policy H given threshold (some registry) = do
  require (is_none given && is_null threshold)
      (value_error (text "provide either registry or trusted pubkeys+threshold, not both"))
  check_policy H (some (pubkeys registry)) registry.threshold

-- the loop of `_embedded_pubkeys`; `none` is a malformed or a repeated entry
unfoldable pub embedded_from : Dict Value → List Value → Option (Dict Value)
embedded_from d [] = some d
embedded_from d (obj w ∷ ws) =
    let organ = get w (text "organ") in
    let pem = get w (text "public_key_pem") in
    let rest = embedded_from (insert organ pem d) ws in
    if not (named organ) || has_key organ d || not (has_pem pem) then none else rest
embedded_from d (_ ∷ ws) = none

abbrev embedded_result : Option (Dict Value) → Dict Value × Bool
embedded_result none = ([], false)
embedded_result (some d) = (d, true)

abbrev embedded_list : Value → Dict Value × Bool
embedded_list (arr ws) = embedded_result (embedded_from [] (items ws))
embedded_list _ = ([], false)

unfoldable pub embedded_pubkeys : Fields → Dict Value × Bool
unfolding embedded_from
embedded_pubkeys receipt = embedded_list (get receipt (text "witnesses"))

abbrev pub required_strings : List Text
required_strings =
    text "organ" ∷ text "keyid" ∷ text "payloadType" ∷ text "payload" ∷ text "signature" ∷ []

abbrev pub optional_strings : List Text
optional_strings = text "verdict" ∷ text "reason" ∷ []

-- a field that is there but is no `str`
abbrev bad_optional : Option Value → Bool
bad_optional none = false
bad_optional (some v) = not (is_str v)

abbrev entry_message : ℕ → Text → Text
entry_message index rest = text "signature entry " ++ (decimal index ++ rest)

abbrev field_message : ℕ → Text → Text → Text
field_message index name rest =
    entry_message index (text " field '" ++ (name ++ (text "' must be a " ++ rest)))

-- the first required field that is not a non-empty text
unfoldable pub check_required : ℕ → Fields → List Text → Option Text
check_required index item [] = none
check_required index item (name ∷ names) =
    let rest = check_required index item names in
    if named (get item name)
    then rest
    else some (field_message index name (text "non-empty string"))

unfoldable pub check_optional : ℕ → Fields → List Text → Option Text
check_optional index item [] = none
check_optional index item (name ∷ names) =
    let rest = check_optional index item names in
    if bad_optional (find name item) then some (field_message index name (text "string")) else rest

abbrev first_of_two : Option Text → Option Text → Option Text
first_of_two none b = b
first_of_two (some a) b = some a

module _ (H : Host) (trusted : Dict Value) where
  -- the checks of one entry that is a dict
  unfoldable pub check_entry : ℕ → List Value → Fields → Option Text
  check_entry index seen item =
      let organ = get item (text "organ") in
      first_of_two (check_required index item required_strings) (
        first_of_two (check_optional index item optional_strings) (
          if not (has_key organ trusted)
          then some (entry_message index (text " names an untrusted witness"))
          else if member organ seen
          then some (entry_message index (text " duplicates witness " ++ H.repr organ))
          else none))

  -- the loop of `_validate_signature_entries`; `none` is that every entry is valid
  unfoldable pub check_entries : ℕ → List Value → List Value → Option Text
  check_entries index seen [] = none
  check_entries index seen (null ∷ vs) = check_entries (index + 1) seen vs
  check_entries index seen (obj item ∷ vs) =
      let rest = check_entries (index + 1) (get item (text "organ") ∷ seen) vs in
      first_of_two (check_entry index seen item) rest
  check_entries index seen (_ ∷ vs) = some (entry_message index (text " must be an object or null"))

  abbrev verdict_on : Option Text → Bool × Text
  verdict_on none = (true, text "")
  verdict_on (some why) = (false, why)

  unfoldable pub validate_signature_entries : Value → ℕ → Bool × Text
  validate_signature_entries (arr vs) trusted_n =
      if ltb trusted_n (length (items vs))
      then (false, text "signature count exceeds the trusted witness count")
      else verdict_on (check_entries 0 [] (items vs))
  validate_signature_entries _ trusted_n = (false, text "signatures must be a list")
