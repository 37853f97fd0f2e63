-- ===== src/Control/Coordinator.antt =====
-- The fleet routes of src/voodoo_skillset/api.py: the coordinator's side of the protocol between the
-- store and its workers and verifiers. What the store draws for itself, the time of its clock and the
-- fresh identifiers, is an argument.
use voodoo_skillset.Prelude.{String, Bool, false, not, Option, none, some, [], ◌∷◌, ℤ, pos}
use voodoo_skillset.Json.{Items, Fields, int, text, dict, get}
use voodoo_skillset.Python.{
  Result, ok, err, Method, pure, or_raise, raise_if, value_error, runtime_error, permission_error,
  ◌>>=◌, ◌>>◌,
}
use voodoo_skillset.Platform.{Platform}
use voodoo_skillset.Fleet.Tables.{Job}
use voodoo_skillset.Fleet.Queue.{verified_plan_exists, enqueue}
use voodoo_skillset.Fleet.Validation.{validate_job_input}
use voodoo_skillset.Fleet.Execution.{
  claim_execution, heartbeat_execution, complete_execution, fail_execution,
}
use voodoo_skillset.Fleet.Verification.{claim_verification, complete_verification}
use voodoo_skillset.Bridge.Request.{lift}
use voodoo_skillset.Bridge.Signing.{secret_bytes, verify_signature}
use voodoo_skillset.Control.App.{
  Settings, App, inc, call_fleet, require_fleet, require_control, require_worker, require_verifier,
}
use voodoo_skillset.Control.Values.{
  text_value, dict_value, is_spec, required_text, required_array, job_dict, lease_dict, str_of,
  int_at, arguments, column_text,
}

module _ (env : Platform) (cfg : Settings) (now : ℤ) (fresh token : String) (payload : Fields)
    (authorization : String) where
  -- `isinstance(plan_id, str) and fleet.verified_plan_exists(plan_id)`
  unfoldable pub planned : Option String → Method App Bool
  unfolding call_fleet verified_plan_exists
  planned none = pure false
  planned (some plan_id) = call_fleet cfg (verified_plan_exists plan_id)

  -- The call of `enqueue`. A value that cannot be bound fails the INSERT behind the validation.
  unfoldable pub enqueue_job : Items → ℤ → ℤ → Method App Job
  unfolding call_fleet column_text
  enqueue_job argv priority max_attempts = do
    let workspace_id = str_of env "workspace_id" "" payload
    let capability_id = str_of env "capability_id" "" payload
    let cwd = str_of env "cwd" "." payload
    validate_job_input env workspace_id capability_id (arguments env argv) cwd max_attempts
    before ← lift (column_text env (get "workspace_before_sha256" payload))
    call_fleet cfg (
        enqueue env
          (record {
            plan_id = str_of env "plan_id" "" payload;
            workspace_id = workspace_id;
            capability_id = capability_id;
            argv = arguments env argv;
            cwd = cwd;
            verification_spec = dict_value (get "verification_spec" payload);
            workspace_before_sha256 = before;
            priority = priority;
            max_attempts = max_attempts;
            job_id = none;
          })
          fresh now)

  unfoldable pub enqueue_fleet_job : Method App Fields
  unfolding require_control require_fleet planned enqueue_job inc job_dict
  enqueue_fleet_job = do
    require_control cfg authorization
    require_fleet cfg
    allowed ← planned (text_value (get "plan_id" payload))
    raise_if (not allowed) (permission_error "fleet enqueue requires durable VERIFIED_PLAN")
    raise_if (not (is_spec (get "verification_spec" payload)))
        (value_error "non-empty verification_spec is required")
    argv ← required_array (get "argv" payload)
    priority ← int_at env "priority" (pos 100) payload
    max_attempts ← int_at env "max_attempts" (pos 3) payload
    out ← enqueue_job argv priority max_attempts
    inc "fleet_jobs_enqueued"
    pure (job_dict env out)

  unfoldable pub fleet_claim_execution : Method App Fields
  unfolding require_worker require_fleet call_fleet lease_dict
  fleet_claim_execution = do
    require_worker cfg authorization
    worker_id ← required_text (get "worker_id" payload) "worker_id is required"
    require_fleet cfg
    seconds ← int_at env "lease_seconds" (pos 30) payload
    lease ← call_fleet cfg (claim_execution env worker_id seconds now token)
    pure (lease_dict env lease)

  unfoldable pub fleet_heartbeat_execution : Method App Fields
  unfolding require_worker require_fleet call_fleet
  fleet_heartbeat_execution = do
    require_worker cfg authorization
    require_fleet cfg
    seconds ← int_at env "lease_seconds" (pos 30) payload
    expires ← call_fleet cfg (
        heartbeat_execution env (str_of env "job_id" "" payload) (str_of env "worker_id" "" payload)
          (str_of env "lease_token" "" payload) seconds now)
    pure (dict (("status", text "HEARTBEAT") ∷ ("expires_at", int expires) ∷ []))

  -- `len(secret.encode("utf-8")) < 32` raises.
  abbrev pub checked_secret : Result String → Result (Unit {0})
  checked_secret (ok key) = ok tt
  checked_secret (err e) =
      err (runtime_error "VOODOO_EXECUTOR_SHARED_SECRET is required to verify fleet receipts")

  unfoldable pub require_secret : Method App (Unit {0})
  require_secret = lift (checked_secret (secret_bytes cfg.executor_secret))

  unfoldable pub complete_signed : Method App Job
  unfolding require_secret require_fleet call_fleet
  complete_signed = do
    receipt ←
        or_raise (dict_value (get "receipt" payload))
          (value_error "receipt and receipt_signature are required")
    signature ←
        or_raise (text_value (get "receipt_signature" payload))
          (value_error "receipt and receipt_signature are required")
    require_secret
    signature_ok ← lift (verify_signature env receipt signature cfg.executor_secret)
    require_fleet cfg
    call_fleet cfg (
        complete_execution env (str_of env "job_id" "" payload) (str_of env "worker_id" "" payload)
          (str_of env "lease_token" "" payload) receipt signature_ok now)

  unfoldable pub fleet_complete_execution : Method App Fields
  unfolding require_worker complete_signed inc job_dict
  fleet_complete_execution = do
    require_worker cfg authorization
    out ← complete_signed
    inc "fleet_execution_receipts"
    pure (job_dict env out)

  unfoldable pub fleet_fail_execution : Method App Fields
  unfolding require_worker require_fleet call_fleet job_dict
  fleet_fail_execution = do
    require_worker cfg authorization
    require_fleet cfg
    delay ← int_at env "retry_delay_seconds" (pos 1) payload
    out ← call_fleet cfg (
        fail_execution env (str_of env "job_id" "" payload) (str_of env "worker_id" "" payload)
          (str_of env "lease_token" "" payload)
          (str_of env "error" "worker reported failure" payload) delay now)
    pure (job_dict env out)

  unfoldable pub fleet_claim_verification : Method App Fields
  unfolding require_verifier require_fleet call_fleet lease_dict
  fleet_claim_verification = do
    require_verifier cfg authorization
    verifier_id ← required_text (get "verifier_id" payload) "verifier_id is required"
    require_fleet cfg
    seconds ← int_at env "lease_seconds" (pos 30) payload
    lease ← call_fleet cfg (claim_verification env verifier_id seconds now token)
    pure (lease_dict env lease)

  unfoldable pub complete_proof : Method App Job
  unfolding require_fleet call_fleet
  complete_proof = do
    proof ← or_raise (dict_value (get "proof" payload)) (value_error "proof is required")
    require_fleet cfg
    call_fleet cfg (
        complete_verification env (str_of env "job_id" "" payload)
          (str_of env "verifier_id" "" payload) (str_of env "lease_token" "" payload)
          (str_of env "verdict" "" payload) proof now)

  unfoldable pub fleet_complete_verification : Method App Fields
  unfolding require_verifier complete_proof inc job_dict
  fleet_complete_verification = do
    require_verifier cfg authorization
    out ← complete_proof
    inc "fleet_verifications"
    pure (job_dict env out)
