-- ===== src/Bridge/Client.antt =====
-- `RemoteExecutorClient` of src/voodoo_skillset/executor_bridge.py. The HTTP exchange is a
-- parameter: from the path, the payload and its signature to the response, and none where the executor
-- cannot be reached.
use Prim.Native.String.{len}
use voodoo_skillset.Prelude.{
  ℕ, ltb, String, true, not, ◌||◌, ◌&&◌, Option, none, some, [], ◌∷◌, contains, str_eq,
}
use voodoo_skillset.Json.{Json, Fields, text, bool, object, dict, get, is_text}
use voodoo_skillset.Python.{
  value_error, protocol_error, auth_error, Method, pure, raise, or_raise, raise_if, ◌>>=◌, ◌>>◌,
}
use voodoo_skillset.Platform.{Platform}
use voodoo_skillset.Bridge.Request.{ExecutionRequest, to_dict, lift}
use voodoo_skillset.Bridge.Signing.{payload_sha256, sign_payload, verify_signature, secret_bytes}

-- The constructor's tests of its URL; `urlparse` has split it into a scheme and a hostname.
unfoldable pub check_url : {S : Type 0} → String → Option String → String → Method S String
check_url scheme none secret = raise (value_error "executor URL must be http(s)")
check_url scheme (some hostname) secret = do
  raise_if (not (contains scheme ("http" ∷ "https" ∷ [])) || str_eq hostname "")
      (value_error "executor URL must be http(s)")
  raise_if
      (str_eq scheme "http" && not (contains hostname ("127.0.0.1" ∷ "localhost" ∷ "::1" ∷ [])))
      (value_error "remote executor requires HTTPS; plaintext HTTP is localhost-only")
  lift (secret_bytes secret)

-- The body is UTF-8 text.
pub record HttpResponse : Type 0 where
  pub status : ℕ
  pub body : String

abbrev pub dict_of : Json → Option Fields
dict_of (object d) = some d
dict_of v = none

module _ {S : Type 0} (env : Platform)
    (exchange : String → Fields → String → Method S (Option HttpResponse)) (secret : String) where
  -- `urlopen` raises HTTPError for a status that is not of success; `len` counts the bytes.
  unfoldable pub open_body : Option HttpResponse → Method S Fields
  open_body found = do
    response ← or_raise found (protocol_error "executor unavailable")
    raise_if (ltb response.status 200 || not (ltb response.status 300))
        (protocol_error "executor HTTP error")
    raise_if (ltb 65536 (len response.body)) (protocol_error "executor response too large")
    value ← or_raise (env.parse_json response.body) (protocol_error "executor unavailable")
    or_raise (dict_of value) (protocol_error "executor returned non-object JSON")

  unfoldable pub post_request : String → Fields → Method S Fields
  unfolding open_body
  post_request path payload = do
    signature ← lift (sign_payload env payload secret)
    found ← exchange path payload signature
    open_body found

  unfoldable pub check_receipt : ExecutionRequest → Fields → Fields → String → Method S Fields
  check_receipt request value receipt signature = do
    valid ← lift (verify_signature env receipt signature secret)
    raise_if (not valid) (auth_error "receipt signature invalid")
    raise_if (not (is_text request.operation_id (get "operation_id" receipt)))
        (protocol_error "receipt operation_id mismatch")
    raise_if (not (is_text (payload_sha256 env value) (get "request_sha256" receipt)))
        (protocol_error "receipt request hash mismatch")
    pure (
        dict (
          ("receipt", object receipt)
          ∷ ("receipt_signature_verified", bool true)
          ∷ ("independent_verification", text "PENDING")
          ∷ []))

  unfoldable pub open_response :
      ExecutionRequest → Fields → Option Json → Option Json → Method S Fields
  unfolding check_receipt
  open_response request value (some (object receipt)) (some (text signature)) =
      check_receipt request value receipt signature
  open_response request value _ _ =
      raise (protocol_error "executor response missing signed receipt")

  unfoldable pub execute : ExecutionRequest → Method S Fields
  unfolding post_request open_response
  execute request = do
    response ← post_request "/v1/execute" (to_dict request)
    open_response request (to_dict request) (get "receipt" response) (get "signature" response)
