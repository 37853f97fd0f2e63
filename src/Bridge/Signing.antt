-- ===== src/Bridge/Signing.antt =====
-- Signatures of src/voodoo_skillset/executor_bridge.py: HMAC-SHA256 over the canonical JSON text.
use Prim.Native.String.{◌++◌, len}
use voodoo_skillset.Prelude.{
  String, Bool, true, false, not, ◌||◌, ltb, starts_with, str_eq, is_ascii, if◌then◌else◌,
}
use voodoo_skillset.Json.{Fields}
use voodoo_skillset.Python.{Result, ok, err, value_error, type_error}
use voodoo_skillset.Platform.{Platform}

unfoldable pub secret_bytes : String → Result String
secret_bytes secret =
    if ltb (len secret) 32
    then err (value_error "executor shared secret must be at least 32 bytes")
    else ok secret

unfoldable pub payload_sha256 : Platform → Fields → String
payload_sha256 env value = env.sha256 (env.dumps value)

-- With the bytes that `secret_bytes` has passed.
unfoldable pub signature_of : Platform → Fields → String → String
signature_of env value secret = "v1=" ++ env.hmac_sha256 secret (env.dumps value)

unfoldable pub sign_payload : Platform → Fields → String → Result String
unfolding secret_bytes signature_of
sign_payload env value secret = elim (secret_bytes secret) [
  | ok key ↦ ok (signature_of env value key)
  | err e ↦ err e
]

-- `hmac.compare_digest` of two texts.
unfoldable pub compare_digest : String → String → Result Bool
compare_digest a b =
    if not (is_ascii a) || not (is_ascii b)
    then err (type_error "comparing strings with non-ASCII characters is not supported")
    else ok (str_eq a b)

unfoldable pub verify_signature : Platform → Fields → String → String → Result Bool
unfolding sign_payload compare_digest
verify_signature env value signature secret = elim (starts_with "v1=" signature) [
  | false ↦ ok false
  | true ↦ elim (sign_payload env value secret) [
    | ok expected ↦ compare_digest expected signature
    | err e ↦ err e
  ]
]
