-- ===== src/Fleet/Queue.antt =====
-- `record_plan`, `verified_plan_exists`, `enqueue`, `get_job` and `_reap_expired` of
-- src/voodoo_skillset/fleet.py. The time, `int(self.clock())`, and fresh identifiers are arguments.
use voodoo_skillset.Prelude.{
  String, Bool, true, false, Option, none, some, List, [], ◌∷◌, ◌||◌, not, ◌&&◌, ℤ, pos, negsuc,
  ltb_ℤ, str_eq, keep, if◌then◌else◌,
}
use voodoo_skillset.Json.{Fields, int, text, text?, end, dict, get_or}
use voodoo_skillset.Python.{
  Method, pure, or_raise, gets, modify, transaction, raise_if, value_error, permission_error,
  key_error, integrity_error, overflow_error, ◌>>=◌, ◌>>◌,
}
use voodoo_skillset.Platform.{Platform, text_of}
use voodoo_skillset.Fleet.Tables.{
  State, Job, Plan, Store, find, update, insert, find_plan, upsert_plan,
}
use voodoo_skillset.Fleet.Updates.{queued_job, retry_state, expire_execution, expire_verification}
use voodoo_skillset.Fleet.Events.{record_event}
use voodoo_skillset.Fleet.Validation.{validate_job_input}

abbrev pub state_name : State → String
state_name State.queued = "QUEUED"
state_name State.leased = "LEASED"
state_name State.executed = "EXECUTED"
state_name State.verifying = "VERIFYING"
state_name State.verified = "VERIFIED"
state_name State.failed = "FAILED"
state_name State.blocked = "BLOCKED"

-- `_decode_job`: the row without the hashes of its leases, which are popped (here: `none`).
unfoldable pub decode_job : Job → Job
decode_job j = record j { execution_lease_hash = none; verification_lease_hash = none }

unfoldable pub get_job : String → Method Store Job
unfolding find decode_job
get_job id s = (do row ← or_raise (find id s.jobs) (key_error id); pure (decode_job row)) s

-- UPDATE jobs SET … WHERE job_id=?, as a statement.
unfoldable pub update_job : String → (Job → Job) → Method Store (Unit {0})
unfolding update
update_job id f s = modify (λ t. record t { jobs = update id f t.jobs }) s

-- INSERT INTO plans … ON CONFLICT(plan_id) DO UPDATE …, as a statement.
unfoldable pub write_plan : Plan → Method Store (Unit {0})
write_plan p s = modify (λ t. record t { plans = upsert_plan p t.plans }) s

unfoldable pub record_plan : Platform → Fields → ℤ → Method Store (Unit {0})
unfolding write_plan record_event
record_plan env plan_ now = do
  let id = text_of env (get_or "plan_id" (text "") plan_)
  let status_ = text_of env (get_or "status" (text "") plan_)
  raise_if (str_eq id "" || not (str_eq status_ "VERIFIED_PLAN" || str_eq status_ "BLOCKED"))
      (value_error "plan must have plan_id and terminal planning status")
  transaction (do
    write_plan (record { plan_id = id; status = status_; plan = plan_; created_at = now })
    record_event env none "PLAN_RECORDED" "control-plane"
        (dict (("plan_id", text id) ∷ ("status", text status_) ∷ [])) now
    pure tt)

-- `plan and plan["status"] == "VERIFIED_PLAN"`.
unfoldable pub is_verified_plan : Option Plan → Bool
is_verified_plan none = false
is_verified_plan (some p) = str_eq p.status "VERIFIED_PLAN"

unfoldable pub verified_plan_exists : String → Method Store Bool
unfolding is_verified_plan
verified_plan_exists plan_id s = (gets (λ t. is_verified_plan (find_plan plan_id t.plans))) s

-- `job_id or f"JOB-{…}"`, for a fresh identifier.
unfoldable pub job_id_or : Option String → String → String
job_id_or none fresh = fresh
job_id_or (some id) fresh = if str_eq id "" then fresh else id

-- INSERT INTO jobs, refused for a key that is there.
unfoldable pub insert_job : Job → Method Store (Unit {0})
unfolding find insert
insert_job j s =
    (do
      clash ← gets (λ t. elim (find j.job_id t.jobs) [ none ↦ false | some _ ↦ true ])
      raise_if clash (integrity_error "UNIQUE constraint failed: jobs.job_id")
      modify (λ t. record t { jobs = insert j t.jobs }))
      s

-- The keyword arguments of `enqueue`, with its defaults filled in.
pub record Request : Type 0 where
  pub plan_id : String
  pub workspace_id : String
  pub capability_id : String
  pub argv : List String
  pub cwd : String
  pub verification_spec : Option Fields
  pub workspace_before_sha256 : Option String
  pub priority : ℤ
  pub max_attempts : ℤ
  pub job_id : Option String

-- `verification_spec or {}`.
abbrev pub spec_or_empty : Option Fields → Fields
spec_or_empty none = end
spec_or_empty (some spec) = spec

-- SQLite's INTEGER has 64 bits.
abbrev pub is_integer : ℤ → Bool
is_integer n = not (ltb_ℤ n (negsuc 9223372036854775807)) && not (ltb_ℤ (pos 9223372036854775807) n)

-- The transaction of `enqueue`.
unfoldable pub admit_job : Platform → Request → String → ℤ → Method Store String
unfolding is_verified_plan insert_job record_event
admit_job env r id now = do
  allowed ← gets (λ s. is_verified_plan (find_plan r.plan_id s.plans))
  raise_if (not allowed) (permission_error "job enqueue requires a durable VERIFIED_PLAN")
  raise_if (not (is_integer r.priority))
      (overflow_error "Python int too large to convert to SQLite INTEGER")
  insert_job (
      queued_job id r.plan_id r.workspace_id r.capability_id r.argv r.cwd
        (spec_or_empty r.verification_spec) r.workspace_before_sha256 r.priority r.max_attempts now)
  record_event env (some id) "JOB_ENQUEUED" "control-plane"
      (dict (
        ("plan_id", text r.plan_id)
        ∷ ("workspace_id", text r.workspace_id)
        ∷ ("capability_id", text r.capability_id)
        ∷ ("priority", int r.priority)
        ∷ ("max_attempts", int r.max_attempts)
        ∷ []))
      now

unfoldable pub enqueue : Platform → Request → String → ℤ → Method Store Job
unfolding validate_job_input job_id_or admit_job get_job
enqueue env r fresh now = do
  validate_job_input env r.workspace_id r.capability_id r.argv r.cwd r.max_attempts
  transaction (admit_job env r (job_id_or r.job_id fresh) now)
  get_job (job_id_or r.job_id fresh)

-- `expires_at < now` in SQL, which no NULL meets.
abbrev pub is_past : Option ℤ → ℤ → Bool
is_past none now = false
is_past (some expires) now = ltb_ℤ expires now

-- The WHERE clause of `_reap_expired`.
unfoldable pub is_expired : ℤ → Job → Bool
is_expired now j = elim j.state [
  | State.leased ↦ is_past j.execution_lease_expires_at now
  | State.verifying ↦ is_past j.verification_lease_expires_at now
  | _ ↦ false
]

-- The body of the loop of `_reap_expired`, on a row that was read before the loop.
unfoldable pub reap_row : Platform → ℤ → Job → Method Store String
unfolding update_job record_event retry_state
reap_row env now row = elim row.state [
  | State.leased ↦ (do
    let next = retry_state row
    update_job row.job_id (expire_execution next now)
    record_event env (some row.job_id) "EXECUTION_LEASE_EXPIRED" "fleet-coordinator"
        (dict (
          ("previous_owner", text? row.execution_worker_id)
          ∷ ("next_state", text (state_name next))
          ∷ []))
        now)
  | _ ↦ (do
    update_job row.job_id (expire_verification now)
    record_event env (some row.job_id) "VERIFICATION_LEASE_EXPIRED" "fleet-coordinator"
        (dict (("previous_verifier", text? row.verifier_id) ∷ ("next_state", text "EXECUTED") ∷ []))
        now)
]

unfoldable pub reap_rows : Platform → ℤ → List Job → Method Store (Unit {0})
unfolding reap_row
reap_rows env now [] = pure tt
reap_rows env now (row ∷ rows) = reap_row env now row >> reap_rows env now rows

unfoldable pub reap_expired : Platform → ℤ → Method Store (Unit {0})
unfolding reap_rows is_expired
reap_expired env now = do rows ← gets (λ s. keep (is_expired now) s.jobs); reap_rows env now rows
