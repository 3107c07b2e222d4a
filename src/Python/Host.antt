-- ===== src/Python/Host.antt =====
-- What the program calls and does not implement: the `cryptography` package, `hashlib`, and the
-- parts of the standard library whose results it never looks into.
use khipu_consensus.Prelude.{ℕ, Bool, Text, Bytes, pos, decimal}
use khipu_consensus.Python.Utf8.{utf8}
use khipu_consensus.Python.Value.{Value, str, int}
use khipu_consensus.Python.Error.{Error, Result, err, attribute_error}

pub record Host : Type 1 where
  pub PublicKey : Type 0
  pub PrivateKey : Type 0
  -- `load_pem_public_key`, `load_pem_private_key`
  pub load_public : Bytes → Result PublicKey
  pub load_private : Bytes → Result PrivateKey
  -- `private_key.sign(message, ECDSA(SHA256()))`; the number is the randomness that it draws
  pub sign : PrivateKey → ℕ → Bytes → Result Bytes
  -- `public_key.verify(signature, message, ECDSA(SHA256()))`: `false` is `InvalidSignature`, and
  -- an error any other exception
  pub verify : PublicKey → Bytes → Bytes → Result Bool
  -- `hashlib.sha256(b).hexdigest()`
  pub sha256 : Bytes → Text
  -- `json.dumps(v, sort_keys=True, separators=(",", ":"), ensure_ascii=False)`
  pub dumps : Value → Result Text
  -- `json.loads(b)`
  pub loads : Bytes → Result Value
  -- `repr(v)`, which is also `str(v)` of every value but a text
  pub repr : Value → Text
  -- `f"{type(e).__name__}: {e}"`
  pub describe : Error → Text

-- `f"{v}"`
abbrev pub format : Host → Value → Text
format H (str s) = s
format H (int (pos n)) = decimal n
format H v = H.repr v

-- `v.encode()`
unfoldable pub encode : Value → Result Bytes
encode (str s) = utf8 s
encode _ = err attribute_error
