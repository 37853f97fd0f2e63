-- ===== src/Control/Tests.antt =====
-- The control plane of src/voodoo_skillset/api.py on concrete requests: a job from its plan to its
-- verdict.
mod Claims
use Prim.Native.String.{◌++◌ as ◌+++◌}
use voodoo_skillset.Prelude.{
  String, Bool, true, false, Option, none, some, List, [], ◌∷◌, ◌≡◌, ◌≢◌, refl, inr, arith, ℤ, pos,
  ◌+ℤ◌, str_eq, eq_iff, if◌then◌else◌,
}
use voodoo_skillset.Json.{Fields, text, int, bool, object, array, texts, dict, end, nil}
use voodoo_skillset.Python.{ok}
use voodoo_skillset.Platform.{Platform}
use voodoo_skillset.Platform.Sample.{sample}
use voodoo_skillset.Fleet.Tables.{State, Job, Store, find, init_db}
use voodoo_skillset.Fleet.Updates.{queued_job}
use voodoo_skillset.Fleet.Lifecycle.Validity.{IsAccepted, IsProven}
use voodoo_skillset.Fleet.Verification.{
  verification_dict, claim_verification, complete_verification,
}
use voodoo_skillset.Fleet.Validation.{
  is_workspace_id, is_capability_id, is_bad_argument, is_bad_cwd, validate_job_input,
}
use voodoo_skillset.Fleet.Queue.{enqueue, record_plan}
use voodoo_skillset.Fleet.Execution.{claim_execution, complete_execution}
use voodoo_skillset.Bridge.Request.{int_of, lift}
use voodoo_skillset.Bridge.Signing.{verify_signature, compare_digest}
use voodoo_skillset.Control.App.{Settings, App}
use voodoo_skillset.Control.Values.{column_text, job_dict, lease_dict}
use voodoo_skillset.Control.Coordinator.{
  enqueue_fleet_job, enqueue_job, fleet_claim_execution, fleet_complete_execution, complete_signed,
  require_secret, fleet_claim_verification, fleet_complete_verification, complete_proof, planned,
}
use voodoo_skillset.Control.Execution.{Planned, plan, note_plan, keep_plan}
use voodoo_skillset.Control.Handler.{
  Post, Outside, do_post, post_sized, post_value, route, respond, error_response,
}
use voodoo_skillset.Control.Scopes.{worker}
use voodoo_skillset.Control.Scopes.Routes.{IsRefused, unauthorized-IsRefused}
use voodoo_skillset.Control.Histories.Posts.{serve, posted_verified_independently}

abbrev receipt : Fields
receipt = dict (
    ("verification_status", text "UNKNOWN")
    ∷ ("result", object (dict (("status", text "EXECUTED") ∷ ("exit_code", int (pos 0)) ∷ [])))
    ∷ [])

abbrev secret : String
secret = "0123456789abcdef0123456789abcdef"

abbrev spec : Fields
spec = dict (("expected_exit_code", int (pos 0)) ∷ [])

abbrev proof : Fields
proof = dict (("checks", object (dict (("exit_code", bool true) ∷ []))) ∷ [])

-- The payload that a body stands for.
abbrev payload_of : String → Fields
payload_of body =
    if str_eq body "plan"
    then dict (("goal", text "g") ∷ [])
    else if str_eq body "job"
    then dict (
        ("plan_id", text "P")
        ∷ ("workspace_id", text "w")
        ∷ ("capability_id", text "c")
        ∷ ("argv", array (texts ("true" ∷ [])))
        ∷ ("verification_spec", object spec)
        ∷ [])
    else if str_eq body "claim"
    then dict (("worker_id", text "worker") ∷ [])
    else if str_eq body "receipt"
    then dict (
        ("job_id", text "JOB")
        ∷ ("worker_id", text "worker")
        ∷ ("lease_token", text "t")
        ∷ ("receipt", object receipt)
        ∷ ("receipt_signature", text ("v1=" +++ secret))
        ∷ [])
    else if str_eq body "verify"
    then dict (("verifier_id", text "verifier") ∷ [])
    else dict (
        ("job_id", text "JOB")
        ∷ ("verifier_id", text "verifier")
        ∷ ("lease_token", text "t")
        ∷ ("verdict", text "VERIFIED")
        ∷ ("proof", object proof)
        ∷ [])

abbrev platform : Platform
platform = record sample {
  parse_int = λ t. some (pos 9);
  parse_json = λ t. some (object (payload_of t));
}

abbrev settings : Settings
settings = record {
  control_token = "control";
  worker_token = "worker";
  verifier_token = "verifier";
  executor_url = "";
  executor_scheme = "";
  executor_hostname = none;
  executor_secret = secret;
  fleet_error = "";
}

abbrev some_plan : Planned
some_plan = record {
  plan_id = "P";
  goal = "g";
  mode = "PRO";
  status = "VERIFIED_PLAN";
  stages = array nil;
  authority_gates = array nil;
  plan_dict = dict (("plan_id", text "P") ∷ ("status", text "VERIFIED_PLAN") ∷ []);
}

abbrev outside : Outside
outside = record {
  exchange = λ path value signature. none;
  Arguments = Fields;
  read = λ payload. ok payload;
  orchestrate = λ payload. ok some_plan;
  strip = λ t. t;
}

abbrev post : String → String → String → ℤ → Post
post path token body now = record {
  path = path;
  authorization = "Bearer " +++ token;
  content_length = "9";
  body = λ n. body;
  draws = record {
    now = now;
    operation_uuid = "o";
    nonce = "n";
    run_uuid = "r";
    timestamp = λ n. "2026";
  };
  job_id = "JOB";
  lease_token = "t";
}

abbrev requests : List Post
requests =
    post "/api/plan" "" "plan" (pos 1)
    ∷ post "/api/fleet/jobs" "control" "job" (pos 2)
    ∷ post "/api/fleet/claim" "control" "claim" (pos 9)
    ∷ post "/api/fleet/claim" "worker" "claim" (pos 10)
    ∷ post "/api/fleet/complete" "worker" "receipt" (pos 20)
    ∷ post "/api/fleet/verify/claim" "verifier" "verify" (pos 22)
    ∷ post "/api/fleet/verify/complete" "verifier" "judge" (pos 30)
    ∷ []

abbrev start : App
start = record { fleet = some init_db; metrics = []; runs = []; ledger = [] }

abbrev store_of : Option Store → Store
store_of none = init_db
store_of (some t) = t

abbrev is_there : Option Store → Bool
is_there none = false
is_there (some t) = true

some-store_of : (o : Option Store) → is_there o ≡ true → o ≡ some (store_of o)
some-store_of none h = absurd (ground arith)
some-store_of (some t) h = refl

abbrev reached : Store
reached = store_of (serve platform settings outside requests start).fleet

abbrev job : Job
job = record (queued_job "JOB" "P" "w" "c" ("true" ∷ []) "." spec none (pos 100) (pos 3) (pos 2)) {
  state = State.verified;
  execution_worker_id = some "worker";
  attempts = 1;
  updated_at = pos 30;
  receipt = some receipt;
  receipt_sha256 = some "h";
  verifier_id = some "verifier";
  verification = some (verification_dict State.verified "verifier" proof (some "h") (pos 30));
}

abbrev loaded : App
loaded = serve platform settings outside requests start

has_store : is_there loaded.fleet ≡ true
unfolding serve do_post plan note_plan keep_plan enqueue_fleet_job enqueue_job column_text
    fleet_claim_execution fleet_complete_execution complete_signed require_secret verify_signature
    compare_digest fleet_claim_verification fleet_complete_verification complete_proof int_of
    job_dict lease_dict find ◌+ℤ◌ claim_execution enqueue is_workspace_id is_capability_id
    is_bad_argument is_bad_cwd record_plan complete_verification claim_verification
    complete_execution validate_job_input planned post_sized post_value route respond error_response
    lift
has_store = refl

reached_row : find "JOB" reached.jobs ≡ some job
unfolding serve do_post plan note_plan keep_plan enqueue_fleet_job enqueue_job column_text
    fleet_claim_execution fleet_complete_execution complete_signed require_secret verify_signature
    compare_digest fleet_claim_verification fleet_complete_verification complete_proof int_of
    job_dict lease_dict find ◌+ℤ◌ claim_execution enqueue is_workspace_id is_capability_id
    is_bad_argument is_bad_cwd record_plan complete_verification claim_verification
    complete_execution validate_job_input planned post_sized post_value route respond error_response
    lift
reached_row = refl

posted_verified_independently_example :
    (job.execution_worker_id ≢ none)
    × IsAccepted job.receipt
    × (job.verifier_id ≢ none)
    × (job.verifier_id ≢ job.execution_worker_id)
    × IsProven job.verification
posted_verified_independently_example =
    posted_verified_independently platform settings outside requests start reached "JOB" job refl
      (some-store_of loaded.fleet has_store) reached_row refl

-- The token of the control plane does not open a route of the workers.
abbrev stranger : Post
stranger = post "/api/fleet/claim" "control" "claim" (pos 9)

other_token : stranger.authorization ≢ "Bearer " +++ "worker"
other_token h = absurd (ground (arith, (eq_iff "Bearer control" "Bearer worker").1 h))

unauthorized-IsRefused_example : IsRefused start (do_post platform settings outside stranger start)
unauthorized-IsRefused_example =
    unauthorized-IsRefused platform settings outside stranger worker start refl (inr other_token)
