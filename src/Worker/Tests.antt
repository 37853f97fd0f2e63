-- ===== src/Worker/Tests.antt =====
-- A round of the worker of src/voodoo_skillset/fleet_worker.py on a concrete job.
use Prim.Native.String.{◌++◌}
use voodoo_skillset.Prelude.{
  String, Bool, true, false, Option, none, [], ◌∷◌, ◌≡◌, refl, ap, arith, pos, ◌+ℤ◌, str_eq, eq_iff,
}
use voodoo_skillset.Json.{text, int, dict}
use voodoo_skillset.Python.{Result, ok, err}
use voodoo_skillset.Platform.Sample.{sample}
use voodoo_skillset.Fleet.Tables.{Store, find, init_db}
use voodoo_skillset.Fleet.Updates.{queued_job}
use voodoo_skillset.Fleet.Queue.{update_job, get_job}
use voodoo_skillset.Fleet.Events.{record_event}
use voodoo_skillset.Fleet.Validation.{
  is_workspace_id, is_capability_id, is_bad_argument, is_bad_cwd,
}
use voodoo_skillset.Fleet.Execution.{
  claim_execution, heartbeat_execution, complete_execution, check_receipt, store_receipt,
  has_succeeded,
}
use voodoo_skillset.Bridge.Request.{
  from_dict, to_dict, validate, is_bad_value, lift, tuple_of, int_of, new_request,
}
use voodoo_skillset.Bridge.Signing.{
  secret_bytes, signature_of, sign_payload, verify_signature, compare_digest, payload_sha256,
}
use voodoo_skillset.Bridge.Replay.{claim}
use voodoo_skillset.Bridge.Service.{ExecutorService, signed, new_receipt}
use voodoo_skillset.Worker.{
  Node, Report, idle, executed, failed, lease_uncertain, Moment, beat, execute_job, deliver,
  give_up, finish, run_lease, run_once,
}
use voodoo_skillset.Worker.Delivery.{Succeeded, run_once-Succeeded}

abbrev service : ExecutorService
service = record {
  executor_id = "worker";
  shared_secret = "0123456789abcdef0123456789abcdef";
  workspace_root = "/w";
  resolve = λ id. "/w/" ++ id;
  parent = λ p. "/w";
  is_dir = λ p. true;
  execute = λ capability payload envelope.
      ok (dict (("status", text "EXECUTED") ∷ ("exit_code", int (pos 0)) ∷ []));
  available = (true, "");
}

-- The only heartbeat comes when the lease has run out.
abbrev moment : Moment
moment = record {
  claimed_at = pos 10;
  token = "t";
  beats = pos 99 ∷ [];
  late_beats = [];
  uuid = "u";
  nonce = "n";
  created_at = pos 10;
  validated_at = pos 10;
  nonce_at = pos 10;
  issued_at = pos 11;
  completed_at = pos 12;
  failed_at = pos 12;
}

abbrev waiting : Store
waiting = record init_db {
  jobs = queued_job "J" "P" "w" "c" ("true" ∷ []) "." (dict []) none (pos 100) (pos 3) (pos 2) ∷ [];
}

abbrev start : Node
start = record { fleet = waiting; served = record { nonces = []; runs = [] } }

-- The worker does not deliver what it has executed.
withheld : (run_once sample service "worker" (pos 30) moment start).0 ≡ ok (lease_uncertain "J")
unfolding run_once run_lease finish claim_execution beat heartbeat_execution execute_job ◌+ℤ◌ find
    is_workspace_id is_capability_id is_bad_argument is_bad_cwd is_bad_value from_dict to_dict
    tuple_of int_of claim validate verify_signature compare_digest sign_payload secret_bytes
    signature_of signed new_receipt payload_sha256 lift new_request
withheld = refl

-- A round whose heartbeat comes in time.
abbrev prompt : Moment
prompt = record moment { beats = pos 11 ∷ [] }

abbrev hash_in : Result Report → Option String
hash_in (ok (executed id hash)) = hash
hash_in _ = none

abbrev is_executed : String → Result Report → Bool
is_executed id (ok (executed other hash)) = str_eq other id
is_executed id _ = false

executed_hash :
    (id : String) (r : Result Report) → is_executed id r ≡ true → r ≡ ok (executed id (hash_in r))
executed_hash id (ok (executed other hash)) h =
    ap (λ t. ok (executed t hash)) ((eq_iff other id).0 h)
executed_hash id (ok idle) h = absurd (ground arith)
executed_hash id (ok (lease_uncertain t)) h = absurd (ground arith)
executed_hash id (ok (failed t u)) h = absurd (ground arith)
executed_hash id (err e) h = absurd (ground arith)

delivers : is_executed "J" (run_once sample service "worker" (pos 30) prompt start).0 ≡ true
unfolding run_once run_lease finish claim_execution beat heartbeat_execution execute_job ◌+ℤ◌ find
    is_workspace_id is_capability_id is_bad_argument is_bad_cwd is_bad_value from_dict to_dict
    tuple_of int_of claim validate verify_signature compare_digest sign_payload secret_bytes
    signature_of signed new_receipt payload_sha256 lift new_request deliver complete_execution
    check_receipt store_receipt has_succeeded record_event update_job get_job give_up
delivers = refl

run_once-Succeeded_example :
    Succeeded sample service "worker"
      (pos 30)
      prompt
      start
      "J"
      (hash_in (run_once sample service "worker" (pos 30) prompt start).0)
      (run_once sample service "worker" (pos 30) prompt start).1
run_once-Succeeded_example =
    run_once-Succeeded sample service "worker" (pos 30) prompt start "J"
      (hash_in (run_once sample service "worker" (pos 30) prompt start).0)
      (executed_hash "J" (run_once sample service "worker" (pos 30) prompt start).0 delivers)
