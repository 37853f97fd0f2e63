-- ===== src/Worker.antt =====
-- `FleetWorker.run_once` of src/voodoo_skillset/fleet_worker.py over the fleet store, with the calls
-- of its `ExecutionLeaseHeartbeat`. The readings of the clocks, among them the rounds of the heartbeat
-- thread before it is stopped, and those that end later, as `stop` joins it with a timeout, are
-- arguments; the worker's own service has its nonces and the calls of its adapter.
pub mod Delivery
mod Tests
use Prim.Native.String.{◌++◌ as ◌+++◌}
use voodoo_skillset.Prelude.{String, Bool, Option, none, some, List, [], ◌∷◌, ℤ, pos, map}
use voodoo_skillset.Json.{Json, Fields, text, get}
use voodoo_skillset.Python.{PyError, Result, ok, err, Method, or_raise, key_error, ◌>>=◌, ◌>>◌}
use voodoo_skillset.Platform.{Platform}
use voodoo_skillset.Fleet.Tables.{Job, Store}
use voodoo_skillset.Fleet.Queue.{state_name}
use voodoo_skillset.Fleet.Execution.{
  Lease, claim_execution, heartbeat_execution, complete_execution, fail_execution,
}
use voodoo_skillset.Bridge.Request.{create, to_dict, lift}
use voodoo_skillset.Bridge.Signing.{sign_payload, verify_signature}
use voodoo_skillset.Bridge.Service.{Serving, ExecutorService, execute_signed}
use voodoo_skillset.Control.Values.{dict_value, text_value}
use voodoo_skillset.Control.Execution.{message_of}

-- The store and the worker's own service.
pub record Node : Type 0 where
  pub fleet : Store
  pub served : Serving

-- The report's status, its job and queue state, and the hash of an accepted receipt.
pub data Report : Type 0 where
  idle : Report
  lease_uncertain : String → Report
  executed : String → Option String → Report
  failed : String → String → Report

-- What one call draws from the clocks, from `uuid4` and from the store's `token_urlsafe`.
pub record Moment : Type 0 where
  pub claimed_at : ℤ
  pub token : String
  pub beats : List ℤ
  pub late_beats : List ℤ
  pub uuid : String
  pub nonce : String
  pub created_at : ℤ
  pub validated_at : ℤ
  pub nonce_at : ℤ
  pub issued_at : ℤ
  pub completed_at : ℤ
  pub failed_at : ℤ

module _ (env : Platform) (service : ExecutorService) (worker_id : String) (lease_seconds : ℤ)
    (m : Moment) where
  -- One round of the heartbeat, and the rest of its rounds.
  abbrev pub beaten : Result ℤ × Store → Option PyError × Store → Option PyError × Store
  beaten (ok expires, t) rest = rest
  beaten (err e, t) rest = (some e, t)

  -- `_run` of the heartbeat: its error, if a call has raised.
  unfoldable pub beat : Lease → List ℤ → Store → Option PyError × Store
  beat lease [] s = (none, s)
  beat lease (now ∷ nows) s =
      let q = heartbeat_execution env lease.job_id worker_id lease.token lease_seconds now s in
      beaten q (beat lease nows q.1)

  -- The signed response of the worker's own service to the job.
  unfoldable pub execute_job : Job → Method Serving Fields
  unfolding create sign_payload execute_signed lift
  execute_job job = do
    request ←
        create env m.uuid job.plan_id job.capability_id job.workspace_id (map text job.argv) job.cwd
          ("fleet:" +++ worker_id) (pos 60) m.created_at m.nonce
    signature ← lift (sign_payload env (to_dict request) service.shared_secret)
    execute_signed env service (to_dict request) signature m.validated_at m.nonce_at m.issued_at

  abbrev pub complete : Lease → Fields → String → Bool → Method Store Job
  complete lease receipt signature signature_ok =
      complete_execution env lease.job_id worker_id lease.token receipt signature_ok m.completed_at

  -- From the response on.
  unfoldable pub deliver : Lease → Fields → Method Store Job
  unfolding verify_signature lift
  deliver lease response = do
    receipt ← or_raise (dict_value (get "receipt" response)) (key_error "receipt")
    signature ← or_raise (text_value (get "signature" response)) (key_error "signature")
    signature_ok ← lift (verify_signature env receipt signature service.shared_secret)
    complete lease receipt signature signature_ok

  abbrev pub given_up : Lease → Result Job × Store → Report × Store
  given_up lease (ok job, s) = (failed lease.job_id (state_name job.state), s)
  given_up lease (err e, s) = (failed lease.job_id "LEASE_UNCERTAIN", s)

  -- `fail_execution`, where the heartbeat has no error.
  unfoldable pub give_up : Lease → PyError → Store → Report × Store
  give_up lease e s =
      given_up lease
        (fail_execution env lease.job_id worker_id lease.token (message_of e) (pos 1) m.failed_at s)

  -- The `except` clause, which looks at the heartbeat again.
  abbrev pub caught : Lease → PyError → Option PyError × Store → Report × Store
  caught lease e (some lost, s) = (lease_uncertain lease.job_id, s)
  caught lease e (none, s) = give_up lease e s

  abbrev pub delivered : Lease → Result Job × Store → Report × Store
  delivered lease (ok job, s) = (executed lease.job_id job.receipt_sha256, s)
  delivered lease (err e, s) = caught lease e (beat lease m.late_beats s)

  -- Once the workload has ended and the heartbeat is stopped.
  unfoldable pub finish : Lease → Result Fields → Option PyError × Store → Report × Store
  finish lease (err e) beating = caught lease e beating
  finish lease (ok response) (some lost, s) = (lease_uncertain lease.job_id, s)
  finish lease (ok response) (none, s) = delivered lease (deliver lease response s)

  unfoldable pub run_lease : Lease → Serving → Store → Report × Node
  run_lease lease served s =
      let (response, after) = execute_job lease.job served in
      let (report, t) = finish lease response (beat lease m.beats s) in
      (report, record { fleet = t; served = after })

  abbrev pub claimed : Serving → Result (Option Lease) × Store → Result Report × Node
  claimed served (err e, s) = (err e, record { fleet = s; served = served })
  claimed served (ok none, s) = (ok idle, record { fleet = s; served = served })
  claimed served (ok (some lease), s) =
      let (report, node) = run_lease lease served s in (ok report, node)

  unfoldable pub run_once : Node → Result Report × Node
  run_once node =
      claimed node.served
        (claim_execution env worker_id lease_seconds m.claimed_at m.token node.fleet)
