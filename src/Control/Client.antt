-- ===== src/Control/Client.antt =====
-- `FleetCoordinatorClient` of src/voodoo_skillset/fleet_client.py: the workers' and verifiers' side of
-- the coordinator. The HTTP exchange is a parameter: from the path, the payload and the authorization to
-- the reply, and none where the coordinator cannot be reached.
pub mod Delivery
use Prim.Native.String.{◌++◌ as ◌+++◌, len}
use voodoo_skillset.Prelude.{
  ℕ, String, Bool, true, false, not, ◌||◌, ◌&&◌, Option, none, some, List, [], ◌∷◌, ℤ, pos, ltb,
  text_length, contains, str_eq, if◌then◌else◌,
}
use voodoo_skillset.Json.{Json, Fields, null, bool, text, int, object, dict, get, is_text}
use voodoo_skillset.Python.{
  PyError, Result, ok, err, Method, pure, or_raise, raise_if, value_error, runtime_error, ◌>>=◌,
  ◌>>◌,
}
use voodoo_skillset.Platform.{Platform}
use voodoo_skillset.Bridge.Request.{lift, int_of}
use voodoo_skillset.Control.Values.{text_value, dict_value}

pub record Reply : Type 0 where
  pub status : ℕ
  pub raw : String

-- A lease as the client reads it: the job is a dict.
pub record ClientLease : Type 0 where
  pub job_id : String
  pub owner_id : String
  pub token : String
  pub expires_at : ℤ
  pub job : Fields

-- The constructor's tests; `urlparse` has split the URL into a scheme and a hostname.
unfoldable pub check_coordinator : {S : Type 0} → String → Option String → String → Method S String
check_coordinator scheme hostname bearer_token = do
  host ← or_raise hostname (value_error "fleet coordinator URL must be http(s)")
  raise_if (not (contains scheme ("http" ∷ "https" ∷ [])) || str_eq host "")
      (value_error "fleet coordinator URL must be http(s)")
  raise_if (str_eq scheme "http" && not (contains host ("127.0.0.1" ∷ "localhost" ∷ "::1" ∷ [])))
      (value_error "remote fleet coordinator requires HTTPS; plaintext HTTP is localhost-only")
  raise_if (ltb (text_length bearer_token) 16)
      (value_error "fleet bearer token is missing or too short")
  pure bearer_token

module _ {S : Type 0} (env : Platform)
    (exchange : String → Fields → String → Method S (Option Reply)) (bearer_token : String) where
  -- `raw or b"{}"`
  abbrev pub raw_or_empty : String → String
  raw_or_empty raw = if str_eq raw "" then "{}" else raw

  -- `urlopen` raises HTTPError for a status that is not of success.
  unfoldable pub open_reply : Option Reply → Method S Fields
  open_reply found = do
    reply ← or_raise found (runtime_error "fleet coordinator unavailable")
    raise_if (ltb reply.status 200 || not (ltb reply.status 300))
        (runtime_error "fleet coordinator HTTP error")
    raise_if (ltb 2097152 (len reply.raw)) (runtime_error "fleet coordinator response too large")
    value ←
        or_raise (env.parse_json (raw_or_empty reply.raw))
          (runtime_error "fleet coordinator returned invalid JSON")
    or_raise (dict_value (some value))
        (runtime_error "fleet coordinator response must be a JSON object")

  unfoldable pub post : String → Fields → Method S Fields
  unfolding open_reply
  post path payload = do
    found ← exchange path payload ("Bearer " +++ bearer_token)
    open_reply found

  -- `raw.get("expires_at") or 0`
  abbrev pub or_zero : Option Json → Json
  or_zero none = int (pos 0)
  or_zero (some null) = int (pos 0)
  or_zero (some (bool false)) = int (pos 0)
  or_zero (some (text t)) = if str_eq t "" then int (pos 0) else text t
  or_zero (some v) = v

  unfoldable pub lease_fields : String → Fields → Method S ClientLease
  unfolding lift int_of
  lease_fields owner_id raw = do
    token ←
        or_raise (text_value (get "token" raw)) (runtime_error "coordinator returned invalid lease")
    job ← or_raise (dict_value (get "job" raw)) (runtime_error "coordinator returned invalid lease")
    job_id ←
        or_raise (text_value (get "job_id" raw))
          (runtime_error "coordinator returned invalid lease")
    expires_at ← lift (int_of env (or_zero (get "expires_at" raw)))
    pure (record {
      job_id = job_id;
      owner_id = owner_id;
      token = token;
      expires_at = expires_at;
      job = job;
    })

  abbrev pub found_lease : ClientLease → Method S (Option ClientLease)
  found_lease lease = pure (some lease)

  -- `_lease`
  unfoldable pub lease_from : Fields → String → Method S (Option ClientLease)
  unfolding lease_fields
  lease_from value owner_id =
      if is_text "IDLE" (get "status" value)
      then pure none
      else or_raise (dict_value (get "lease" value))
          (runtime_error "coordinator omitted lease object")
        >>= λ raw. lease_fields owner_id raw >>= found_lease

  unfoldable pub claim_execution : String → ℤ → Method S (Option ClientLease)
  unfolding post lease_from
  claim_execution worker_id lease_seconds = do
    value ←
        post "/api/fleet/claim"
          (dict (("worker_id", text worker_id) ∷ ("lease_seconds", int lease_seconds) ∷ []))
    lease_from value worker_id

  unfoldable pub heartbeat_execution : String → String → String → ℤ → Method S (Option Json)
  unfolding post
  heartbeat_execution job_id worker_id token lease_seconds = do
    value ← post "/api/fleet/heartbeat" (
        dict (
          ("job_id", text job_id)
          ∷ ("worker_id", text worker_id)
          ∷ ("lease_token", text token)
          ∷ ("lease_seconds", int lease_seconds)
          ∷ []))
    pure (get "expires_at" value)

  unfoldable pub complete_execution_signed :
      String → String → String → Fields → String → Method S Fields
  unfolding post
  complete_execution_signed job_id worker_id token receipt receipt_signature =
      post "/api/fleet/complete" (
        dict (
          ("job_id", text job_id)
          ∷ ("worker_id", text worker_id)
          ∷ ("lease_token", text token)
          ∷ ("receipt", object receipt)
          ∷ ("receipt_signature", text receipt_signature)
          ∷ []))

  unfoldable pub fail_execution : String → String → String → String → ℤ → Method S Fields
  unfolding post
  fail_execution job_id worker_id token error retry_delay_seconds = post "/api/fleet/fail" (
      dict (
        ("job_id", text job_id)
        ∷ ("worker_id", text worker_id)
        ∷ ("lease_token", text token)
        ∷ ("error", text error)
        ∷ ("retry_delay_seconds", int retry_delay_seconds)
        ∷ []))

  unfoldable pub claim_verification : String → ℤ → Method S (Option ClientLease)
  unfolding post lease_from
  claim_verification verifier_id lease_seconds = do
    value ←
        post "/api/fleet/verify/claim"
          (dict (("verifier_id", text verifier_id) ∷ ("lease_seconds", int lease_seconds) ∷ []))
    lease_from value verifier_id

  unfoldable pub complete_verification :
      String → String → String → String → Fields → Method S Fields
  unfolding post
  complete_verification job_id verifier_id token verdict proof = post "/api/fleet/verify/complete" (
      dict (
        ("job_id", text job_id)
        ∷ ("verifier_id", text verifier_id)
        ∷ ("lease_token", text token)
        ∷ ("verdict", text verdict)
        ∷ ("proof", object proof)
        ∷ []))
