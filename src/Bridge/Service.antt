-- ===== src/Bridge/Service.antt =====
-- `ExecutorService` and the handler's `do_GET` and `do_POST` of src/voodoo_skillset/executor_bridge.py.
-- The state is the nonce ledger and the calls that the adapter has been given. The service reads its clock three times, for `validate`, for the
-- ledger and for the receipt; each reading is an argument.
use voodoo_skillset.Prelude.{
  ℕ, String, Bool, true, false, not, ◌||◌, Option, none, some, List, [], ◌∷◌, ℤ, pos, ltb_ℤ, str_eq,
  if◌then◌else◌,
}
use voodoo_skillset.Json.{Json, Fields, text, int, bool, array, object, texts, dict, get_or}
use voodoo_skillset.Python.{
  PyError, value_error, protocol_error, auth_error, policy_error, Result, ok, err, Method, pure,
  raise_if, ◌>>=◌, ◌>>◌,
}
use voodoo_skillset.Platform.{Platform}
use voodoo_skillset.Fleet.Validation.{is_workspace_id}
use voodoo_skillset.Bridge.Request.{ExecutionRequest, lift, from_dict, validate, list_items}
use voodoo_skillset.Bridge.Signing.{payload_sha256, signature_of, verify_signature}
use voodoo_skillset.Bridge.Replay.{Nonces, claim}

pub record ExecutionEnvelope : Type 0 where
  pub operation_id : String
  pub target : String
  pub network_default : String
  pub isolation_required : Bool

-- `shared_secret` has passed `secret_bytes`.
pub record ExecutorService : Type 0 where
  pub executor_id : String
  pub shared_secret : String
  pub workspace_root : String
  -- (workspace_root / id).resolve(), its parent, and whether it is a directory
  pub resolve : String → String
  pub parent : String → String
  pub is_dir : String → Bool
  -- adapter.execute(capability_id, payload, envelope), which may raise
  pub execute : String → Fields → ExecutionEnvelope → Result Fields
  -- adapter.available()
  pub available : Bool × String

-- A call of the adapter.
pub record Run : Type 0 where
  pub capability_id : String
  pub payload : Fields
  pub envelope : ExecutionEnvelope

-- The replay guard's table, and what the adapter has been asked to execute, the latest call first.
pub record Serving : Type 0 where
  pub nonces : Nonces
  pub runs : List Run

module _ (env : Platform) (service : ExecutorService) where
  unfoldable pub health : Fields
  health = dict (
      ("status", text (if service.available.0 then "ok" else "blocked"))
      ∷ ("service", text "voodoo-skillset-executor")
      ∷ ("protocol", text "executor-v1")
      ∷ ("executor_id", text service.executor_id)
      ∷ ("execution", text (if service.available.0 then "AVAILABLE" else "BLOCKED"))
      ∷ ("reason", text service.available.1)
      ∷ ("operation_classes", array (texts ("COMPUTE" ∷ [])))
      ∷ ("network_default", text "DENY")
      ∷ ("receipt_is_verification", bool false)
      ∷ ("replay_protection", text "SQLITE_PERSISTENT")
      ∷ [])

  unfoldable pub workspace : {S : Type 0} → String → Method S String
  workspace workspace_id = do
    raise_if (not (is_workspace_id workspace_id)) (policy_error "invalid workspace_id")
    raise_if (not (str_eq (service.parent (service.resolve workspace_id)) service.workspace_root))
        (policy_error "workspace escaped executor root")
    raise_if (not (service.is_dir (service.resolve workspace_id)))
        (policy_error "workspace does not exist")
    pure (service.resolve workspace_id)

  unfoldable pub claim_nonce : String → ℤ → ℤ → Method Serving Bool
  claim_nonce nonce expires_at now s =
      let (accepted, after) = claim nonce expires_at now s.nonces in
      (ok accepted, record s { nonces = after })

  unfoldable pub new_receipt : ExecutionRequest → Fields → Fields → ℤ → Fields
  new_receipt req value result issued_at = dict (
      ("protocol", text "executor-v1")
      ∷ ("executor_id", text service.executor_id)
      ∷ ("operation_id", text req.operation_id)
      ∷ ("plan_id", text req.plan_id)
      ∷ ("request_sha256", text (payload_sha256 env value))
      ∷ ("issued_at", int issued_at)
      ∷ ("verification_status", get_or "verification_status" (text "UNKNOWN") result)
      ∷ ("result", object result)
      ∷ [])

  abbrev pub run_of : ExecutionRequest → String → Run
  run_of req target = record {
    capability_id = req.capability_id;
    payload = dict (("argv", array (list_items req.argv)) ∷ ("cwd", text req.cwd) ∷ []);
    envelope = record {
      operation_id = req.operation_id;
      target = target;
      network_default = "DENY";
      isolation_required = true;
    };
  }

  -- The call is made, whether it returns or raises.
  unfoldable pub run_adapter : ExecutionRequest → String → Method Serving Fields
  run_adapter req target s =
      let run = run_of req target in
      (service.execute run.capability_id run.payload run.envelope, record s { runs = run ∷ s.runs })

  -- Everything behind the check of the signature: a receipt.
  unfoldable pub execute_request : Fields → ℤ → ℤ → ℤ → Method Serving Fields
  unfolding workspace claim_nonce new_receipt run_adapter
  execute_request value now claimed_at issued_at = do
    req ← from_dict env value
    validate env req now
    accepted ← claim_nonce req.nonce req.expires_at claimed_at
    raise_if (not accepted) (auth_error "request replay detected")
    target ← workspace req.workspace_id
    result ← run_adapter req target
    pure (new_receipt req value result issued_at)

  unfoldable pub signed : Fields → Fields
  signed receipt = dict (
      ("receipt", object receipt)
      ∷ ("signature", text (signature_of env receipt service.shared_secret))
      ∷ [])

  unfoldable pub execute_signed : Fields → String → ℤ → ℤ → ℤ → Method Serving Fields
  unfolding execute_request signed
  execute_signed value signature now claimed_at issued_at = do
    valid ← lift (verify_signature env value signature service.shared_secret)
    raise_if (not valid) (auth_error "request signature invalid")
    receipt ← execute_request value now claimed_at issued_at
    pure (signed receipt)

  -- The status of the response, and its body.
  abbrev pub Response : Type 0
  Response = ℕ × Fields

  abbrev pub failure : ℕ → String → Response
  failure status message = (status, dict (("error", text message) ∷ []))

  unfoldable pub do_get : String → Response
  unfolding health
  do_get path = if str_eq path "/health" then (200, health) else failure 404 "not found"

  -- The `except` clauses of `do_POST`.
  unfoldable pub error_response : PyError → Response
  error_response (auth_error t) = failure 401 t
  error_response (policy_error t) = failure 403 t
  error_response (protocol_error t) = failure 400 t
  error_response (value_error t) = failure 400 t
  error_response _ = failure 500 "executor failure"

  unfoldable pub respond : Result Fields × Serving → Response × Serving
  unfolding error_response
  respond (ok value, rows) = ((200, value), rows)
  respond (err e, rows) = (error_response e, rows)

  unfoldable pub post_value : Option Json → String → ℤ → ℤ → ℤ → Method Serving Fields
  unfolding execute_signed
  post_value none signature now claimed_at issued_at rows =
      (err (value_error "JSONDecodeError"), rows)
  post_value (some (object value)) signature now claimed_at issued_at rows =
      execute_signed value signature now claimed_at issued_at rows
  post_value (some v) signature now claimed_at issued_at rows =
      (err (protocol_error "JSON object required"), rows)

  -- `body size` is what the connection yields for `rfile.read(size)`; the path is that of `urlparse`.
  unfoldable pub post_sized :
      Option ℤ → (ℤ → String) → String → ℤ → ℤ → ℤ → Serving → Response × Serving
  unfolding respond post_value
  post_sized none body signature now claimed_at issued_at rows =
      respond (err (value_error "invalid literal for int()"), rows)
  post_sized (some size) body signature now claimed_at issued_at rows =
      if ltb_ℤ size (pos 1) || ltb_ℤ (pos 65536) size
      then (failure 413 "request size invalid", rows)
      else respond (post_value (env.parse_json (body size)) signature now claimed_at issued_at rows)

  unfoldable pub do_post :
      String → String → (ℤ → String) → String → ℤ → ℤ → ℤ → Serving → Response × Serving
  unfolding post_sized
  do_post path content_length body signature now claimed_at issued_at rows =
      if str_eq path "/v1/execute"
      then post_sized (env.parse_int content_length) body signature now claimed_at issued_at rows
      else (failure 404 "not found", rows)
