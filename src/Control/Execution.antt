-- ===== src/Control/Execution.antt =====
-- `execute_remote` of src/voodoo_skillset/api.py, which sends a command of a verified plan to the
-- remote executor and notes the receipt, and `plan`, which notes what the planner has planned. The
-- exchange with the executor, and the planner with its floating-point scores, are parameters.
use Prim.Native.String.{◌++◌ as ◌+++◌}
use voodoo_skillset.Prelude.{
  ℕ, String, Bool, not, ◌&&◌, ◌||◌, Option, none, some, [], ◌∷◌, ℤ, pos, str_eq, any_of,
  if◌then◌else◌,
}
use voodoo_skillset.Json.{Json, Fields, null, text, dict, get, get_or, is_text, as_dict, field, end}
use voodoo_skillset.Python.{
  PyError, Result, ok, err, Method, pure, or_raise, raise_if, value_error, runtime_error,
  permission_error, key_error, type_error, integrity_error, overflow_error, protocol_error,
  auth_error, policy_error, ◌>>=◌, ◌>>◌,
}
use voodoo_skillset.Platform.{Platform, text_of}
use voodoo_skillset.Fleet.Tables.{Store}
use voodoo_skillset.Fleet.Queue.{record_plan, verified_plan_exists}
use voodoo_skillset.Bridge.Request.{ExecutionRequest, lift, create, items_list}
use voodoo_skillset.Bridge.Client.{HttpResponse, check_url, execute}
use voodoo_skillset.Control.Values.{text_value, required_text, required_array}
use voodoo_skillset.Control.App.{
  Settings, App, inc, run_record, append_run, list_runs, append_event, call_fleet, require_control,
}

-- `except Exception as exc`: `str(exc)`, which quotes the key of a KeyError.
abbrev pub message_of : PyError → String
message_of (value_error t) = t
message_of (permission_error t) = t
message_of (runtime_error t) = t
message_of (key_error t) = "'" +++ (t +++ "'")
message_of (type_error t) = t
message_of (integrity_error t) = t
message_of (overflow_error t) = t
message_of (protocol_error t) = t
message_of (auth_error t) = t
message_of (policy_error t) = t

-- What one call of `execute_remote` or `plan` draws from the clock and from `uuid4`; `timestamp n` is
-- its reading number `n` of the time as a text.
pub record Draws : Type 0 where
  pub now : ℤ
  pub operation_uuid : String
  pub nonce : String
  pub run_uuid : String
  pub timestamp : ℕ → String

-- The plan that the orchestrator returns, and its `to_dict()`.
pub record Planned : Type 0 where
  pub plan_id : String
  pub goal : String
  pub mode : String
  pub status : String
  pub stages : Json
  pub authority_gates : Json
  pub plan_dict : Fields

-- `strip` is Python's `str.strip`.
module _ (env : Platform) (cfg : Settings) (strip : String → String) where
  abbrev pub is_planned_run : String → Fields → Bool
  is_planned_run plan_id run =
      is_text plan_id (get "plan_id" run)
      && is_text "VERIFIED_PLAN" (get "plan_status" (as_dict (get "metadata" run)))

  -- `except Exception as exc: raise RuntimeError(...) from exc`
  abbrev pub recast_authority : {A : Type 0} → Result A × App → Result A × App
  recast_authority (ok a, s) = (ok a, s)
  recast_authority (err e, s) = (err (runtime_error (message_of e)), s)

  -- `_verified_plan_exists`
  abbrev pub exists_in : String → App → Option Store → Result Bool × App
  exists_in plan_id s none = (ok (any_of (is_planned_run plan_id) (list_runs 200 s)), s)
  exists_in plan_id s (some t) = recast_authority (call_fleet cfg (verified_plan_exists plan_id) s)

  unfoldable pub plan_exists : String → Method App Bool
  plan_exists plan_id s = exists_in plan_id s s.fleet

  abbrev no_plan : PyError
  no_plan = permission_error "execution requires a recorded VERIFIED_PLAN"

  unfoldable pub planned_id : Option Json → Method App String
  unfolding plan_exists
  planned_id v = do
    plan_id ← or_raise (text_value v) no_plan
    exists ← plan_exists plan_id
    raise_if (not exists) no_plan
    pure plan_id

  -- `executor_configuration()["status"] != "CONFIGURED"`
  abbrev pub is_unconfigured : Bool
  is_unconfigured = str_eq (strip cfg.executor_url) "" || str_eq cfg.executor_secret ""

  abbrev pub receipt_of : Fields → Fields
  receipt_of out = as_dict (get "receipt" out)

  -- What is noted of an accepted receipt; the subject of its event is the executor's id as a text.
  unfoldable pub note_execution : Draws → ExecutionRequest → Fields → Method App (Unit {0})
  unfolding append_run append_event inc
  note_execution d request out = do
    let receipt = receipt_of out
    let status = get_or "verification_status" (text "UNKNOWN") receipt
    append_run (
        run_record d.run_uuid request.plan_id "EXECUTED" (d.timestamp 0) (
          dict (
            ("operation_id", text request.operation_id)
            ∷ ("capability_id", text request.capability_id)
            ∷ ("verification_status", status)
            ∷ [])))
    append_event env "EXECUTION_REQUEST" "control-plane"
        (dict (
          ("plan_id", text request.plan_id)
          ∷ ("operation_id", text request.operation_id)
          ∷ ("capability_id", text request.capability_id)
          ∷ ("workspace_id", text request.workspace_id)
          ∷ ("operation_class", text request.operation_class)
          ∷ []))
        (d.timestamp 1)
    append_event env "EXECUTION_RECEIPT"
        (text_of env (get_or "executor_id" (text "executor") receipt))
        (dict (
          ("plan_id", text request.plan_id)
          ∷ ("operation_id", text request.operation_id)
          ∷ ("request_sha256", get_or "request_sha256" null receipt)
          ∷ ("verification_status", status)
          ∷ ("receipt_signature_verified", get_or "receipt_signature_verified" null out)
          ∷ []))
        (d.timestamp 2)
    inc "executions_receipted"

  module _ (exchange : String → Fields → String → Option HttpResponse) (d : Draws) where
    abbrev pub exchanged : String → Fields → String → Method App (Option HttpResponse)
    exchanged path value signature = pure (exchange path value signature)

    -- From the checked request on.
    unfoldable pub send_request : ExecutionRequest → Method App Fields
    unfolding check_url inc execute note_execution
    send_request request = do
      secret ← check_url cfg.executor_scheme cfg.executor_hostname cfg.executor_secret
      inc "executions_requested"
      out ← execute env exchanged secret request
      note_execution d request out
      pure out

    unfoldable pub execute_remote : Fields → String → Method App Fields
    unfolding require_control planned_id create send_request
    execute_remote payload authorization = do
      require_control cfg authorization
      raise_if is_unconfigured
          (runtime_error "VOODOO_EXECUTOR_URL and VOODOO_EXECUTOR_SHARED_SECRET are both required")
      plan_id ← planned_id (get "plan_id" payload)
      workspace_id ← required_text (get "workspace_id" payload) "workspace_id is required"
      capability_id ← required_text (get "capability_id" payload) "capability_id is required"
      argv ← required_array (get "argv" payload)
      request ←
          create env d.operation_uuid plan_id capability_id workspace_id (items_list argv)
            (text_of env (get_or "cwd" (text ".") payload)) "control-plane-api" (pos 60) d.now
            d.nonce
      send_request request

  -- `plan_dict["durable_record"]` and its reason, set last.
  abbrev pub with_field : String → Json → Fields → Fields
  with_field key v end = field key v end
  with_field key v (field k w rest) =
      if str_eq k key then field k v rest else field k w (with_field key v rest)

  abbrev pub outcome : Fields → Result (Unit {0}) × Store → App → Fields × App
  outcome plan (ok _, t) s =
      (with_field "durable_record" (text "RECORDED") plan, record s { fleet = some t })
  outcome plan (err e, t) s = (
    with_field "durable_record_reason" (text (message_of e))
        (with_field "durable_record" (text "FAILED") plan),
    record s { fleet = some t },
  )

  abbrev pub kept : Fields × App → Result Fields × App
  kept (plan, s) = (ok plan, s)

  -- `self.fleet.record_plan(plan_dict)` with what becomes of it.
  abbrev pub keep_in : ℤ → Fields → App → Option Store → Result Fields × App
  keep_in now plan s none = (ok (with_field "durable_record" (text "UNAVAILABLE") plan), s)
  keep_in now plan s (some t) = kept (outcome plan (record_plan env plan now t) s)

  unfoldable pub keep_plan : ℤ → Fields → Method App Fields
  keep_plan now plan s = keep_in now plan s s.fleet

  unfoldable pub note_plan : Draws → Planned → Method App (Unit {0})
  unfolding append_run append_event
  note_plan d p = do
    append_run (
        run_record d.run_uuid p.plan_id "PLANNED" (d.timestamp 0) (
          dict
            (("plan_status", text p.status) ∷ ("mode", text p.mode) ∷ ("goal", text p.goal) ∷ [])))
    append_event env "PLAN" "orchestrator"
        (dict (
          ("plan_id", text p.plan_id)
          ∷ ("status", text p.status)
          ∷ ("goal", text p.goal)
          ∷ ("mode", text p.mode)
          ∷ []))
        (d.timestamp 1)
    append_event env "DAG" "composer"
        (dict (("plan_id", text p.plan_id) ∷ ("stages", p.stages) ∷ [])) (d.timestamp 2)
    append_event env "AUTHORITY_GATES" "policy"
        (dict (("plan_id", text p.plan_id) ∷ ("gates", p.authority_gates) ∷ [])) (d.timestamp 3)
    append_event env "PLAN_VERIFICATION" "independent-verifier"
        (dict (("plan_id", text p.plan_id) ∷ ("status", text p.status) ∷ [])) (d.timestamp 4)

  -- `plan`: `read` makes the planner's arguments of the payload.
  unfoldable pub plan :
      {R : Type 0} → (Fields → Result R) → (R → Result Planned) → Draws → Fields → Method App Fields
  unfolding inc note_plan keep_plan
  plan read orchestrate d payload = do
    arguments ← lift (read payload)
    inc "plans_requested"
    p ← lift (orchestrate arguments)
    note_plan d p
    out ← keep_plan d.now p.plan_dict
    inc (if str_eq p.status "BLOCKED" then "plans_blocked" else "plans_verified")
    pure out
