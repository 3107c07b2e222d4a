-- ===== src/Cli.antt =====
-- python/khipu_consensus/cli.py: the exit code of `khipu-verify`. What it prints is left out; a
-- file's opening and `json.load` are a parameter.
pub mod ExitCode
use khipu_consensus.Prelude.{
  ℕ, Bool, true, false, not, ◌&&◌, Option, none, some, List, [], ◌∷◌, all, length, ◌==◌, map,
  if◌then◌else◌, Text, text,
}
use khipu_consensus.Python.Value.{
  Value, null, int, arr, nil, obj, items, Fields, get, get_or, nat, hashable,
}
use khipu_consensus.Python.Dict.{member}
use khipu_consensus.Python.Error.{
  Error, Result, ok, err, value_error, type_error, attribute_error, index_error, key_error,
  unicode_encode_error, unicode_decode_error, json_decode_error, os_error, spine_unavailable,
  library_error, require, ◌>>=◌, ◌>>◌,
}
use khipu_consensus.Python.Host.{Host}
use khipu_consensus.Tally.{Decision, canonical, rejected}
use khipu_consensus.Registry.{from_dict}
use khipu_consensus.Verify.{Verification, verify_receipt}

abbrev pub is_int : Value → Bool
is_int (int z) = true
is_int _ = false

abbrev is_dict : Value → Bool
is_dict (obj f) = true
is_dict _ = false

-- the organs of the policy's witnesses
abbrev organs_of : List Value → List Value
organs_of [] = []
organs_of (obj w ∷ ws) = get w (text "organ") ∷ organs_of ws
organs_of (_ ∷ ws) = organs_of ws

-- `set(organs)`
unfoldable pub set_of : List Value → List Value → Result (List Value)
set_of seen [] = ok seen
set_of seen (v ∷ vs) = do
  require (hashable v) type_error
  set_of (if member v seen then seen else v ∷ seen) vs

-- a list of objects
abbrev object_list : Value → Result (List Value)
object_list (arr ws) = if all is_dict (items ws) then ok (items ws) else err (type_error)
object_list _ = err type_error

unfoldable pub check_objects : Host → Value → Value → Result Verification
unfolding set_of
check_objects H (obj receipt) (obj policy) = do
  require (is_int (get_or policy (text "threshold") (nat 3))) type_error
  witnesses ← object_list (get_or policy (text "witnesses") (arr nil))
  distinct ← set_of [] (organs_of witnesses)
  require (length (organs_of witnesses) == length distinct)
      (value_error (text "trust policy contains duplicate witness organs"))
  registry ← from_dict policy
  verify_receipt H receipt none null (some registry)
check_objects H receipt policy = err type_error

-- the `try` block, for the two paths
unfoldable pub check_files :
    Host → (load : Text → Result Value) → (receipt policy : Text) → Result Verification
check_files H load receipt_path policy_path = do
  receipt ← load receipt_path
  policy ← load policy_path
  check_objects H receipt policy

-- the exceptions of the `except` clause
abbrev rejects : Error → Bool
rejects os_error = true
rejects unicode_encode_error = true
rejects unicode_decode_error = true
rejects json_decode_error = true
rejects type_error = true
rejects (value_error m) = true
rejects (key_error k) = true
rejects attribute_error = true
rejects index_error = false
rejects spine_unavailable = false
rejects (library_error m) = false

unfoldable pub exit_code : Result Verification → Result ℕ
exit_code (ok v) = elim v.decision [ canonical ↦ ok 0 | rejected ↦ ok 1 ]
exit_code (err e) = if rejects e then ok 2 else err e

unfoldable pub main : Host → (load : Text → Result Value) → List Text → Result ℕ
unfolding check_files exit_code
main H load (receipt ∷ policy ∷ []) = exit_code (check_files H load receipt policy)
main H load _ = ok 2
