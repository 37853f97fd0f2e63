-- ===== src/Fleet/Verification.antt =====
-- The verification leases of src/voodoo_skillset/fleet.py: `claim_verification` and
-- `complete_verification`.
use voodoo_skillset.Prelude.{
  String, Bool, true, false, Option, none, some, [], ◌∷◌, ◌||◌, ◌&&◌, not, ℤ, ltb_ℤ, ◌+ℤ◌, str_eq,
  text_before, if◌then◌else◌,
}
use voodoo_skillset.Json.{Fields, int, text, text?, object, dict, get, passes_all}
use voodoo_skillset.Python.{
  Method, pure, or_raise, gets, transaction, raise_if, value_error, permission_error, ◌>>=◌, ◌>>◌,
}
use voodoo_skillset.Platform.{Platform}
use voodoo_skillset.Fleet.Tables.{State, Job, Store, find, first}
use voodoo_skillset.Fleet.Updates.{grant_verification, record_verdict}
use voodoo_skillset.Fleet.Events.{record_event}
use voodoo_skillset.Fleet.Queue.{state_name, update_job, get_job, reap_expired}
use voodoo_skillset.Fleet.Execution.{Lease, lease_of, token_hash, equals?, past_or_raise}
use voodoo_skillset.Fleet.Validation.{validate_owner}

-- WHERE state='EXECUTED' AND (execution_worker_id IS NULL OR execution_worker_id<>?)
unfoldable pub is_verifiable : String → Job → Bool
is_verifiable verifier_id j = elim j.state [
  | State.executed ↦ not (equals? j.execution_worker_id verifier_id)
  | _ ↦ false
]

-- ORDER BY updated_at ASC, job_id ASC
unfoldable pub updated_before : Job → Job → Bool
updated_before a b =
    if ltb_ℤ a.updated_at b.updated_at
    then true
    else if ltb_ℤ b.updated_at a.updated_at
    then false
    else text_before a.job_id b.job_id

-- The UPDATE and the event of `claim_verification`.
unfoldable pub grant_verifier :
    Platform → String → String → ℤ → ℤ → Job → Method Store (Option String)
unfolding update_job record_event
grant_verifier env verifier_id token expires now row = do
  update_job row.job_id (grant_verification verifier_id (token_hash env token) expires now)
  record_event env (some row.job_id) "VERIFICATION_LEASE_GRANTED" verifier_id
      (dict (("expires_at", int expires) ∷ [])) now
  pure (some row.job_id)

-- What `claim_verification` does with the row that its SELECT has found.
unfoldable pub grant_verifiable :
    Platform → String → String → ℤ → ℤ → Option Job → Method Store (Option String)
unfolding grant_verifier
grant_verifiable env verifier_id token expires now none = pure none
grant_verifiable env verifier_id token expires now (some row) =
    grant_verifier env verifier_id token expires now row

-- The transaction of `claim_verification`: the key of the row that it leases.
unfoldable pub claim_verifiable : Platform → String → ℤ → ℤ → String → Method Store (Option String)
unfolding reap_expired first is_verifiable updated_before grant_verifiable
claim_verifiable env verifier_id lease_seconds now token = do
  reap_expired env now
  candidate ← gets (λ s. first (is_verifiable verifier_id) updated_before s.jobs)
  grant_verifiable env verifier_id token (now +ℤ lease_seconds) now candidate

unfoldable pub claim_verification : Platform → String → ℤ → ℤ → String → Method Store (Option Lease)
unfolding validate_owner claim_verifiable lease_of
claim_verification env verifier_id lease_seconds now token = do
  validate_owner verifier_id
  claimed ← transaction (claim_verifiable env verifier_id lease_seconds now token)
  lease_of verifier_id token (now +ℤ lease_seconds) claimed

-- `row["state"] == "VERIFYING"`.
abbrev pub is_verifying : State → Bool
is_verifying State.verifying = true
is_verifying _ = false

-- `verdict in {"VERIFIED", "FAILED", "BLOCKED"}`, as the state that it names.
unfoldable pub verdict_state : String → Option State
verdict_state verdict =
    if str_eq verdict "VERIFIED"
    then some State.verified
    else if str_eq verdict "FAILED"
    then some State.failed
    else if str_eq verdict "BLOCKED"
    then some State.blocked
    else none

-- `verdict == "VERIFIED"`.
abbrev pub is_verified : State → Bool
is_verified State.verified = true
is_verified _ = false

abbrev pub verdict_error : State → Option String
verdict_error State.verified = none
verdict_error State.blocked = some "independent verification blocked"
verdict_error _ = some "independent verification failed"

-- The dict `verification`, which is stored and is the payload of the event.
abbrev pub verification_dict : State → String → Fields → Option String → ℤ → Fields
verification_dict verdict verifier_id proof receipt_sha256 now = dict (
    ("verdict", text (state_name verdict))
    ∷ ("verifier_id", text verifier_id)
    ∷ ("proof", object proof)
    ∷ ("receipt_sha256", text? receipt_sha256)
    ∷ ("verified_at", int now)
    ∷ [])

-- The tests of `complete_verification` on the row of the job.
unfoldable pub verifying_row : Platform → String → String → String → ℤ → Method Store Job
unfolding find
verifying_row env job_id verifier_id token now = do
  found ← gets (λ s. find job_id s.jobs)
  row ← or_raise found (permission_error "verification lease ownership mismatch")
  raise_if (not (is_verifying row.state) || not (equals? row.verifier_id verifier_id))
      (permission_error "verification lease ownership mismatch")
  raise_if (equals? row.execution_worker_id verifier_id)
      (permission_error "executor worker cannot verify its own job")
  past ← past_or_raise row.verification_lease_expires_at now
  raise_if (past || not (equals? row.verification_lease_hash (token_hash env token)))
      (permission_error "verification lease expired or token invalid")
  pure row

-- `complete_verification` after it has read the row that it may judge.
unfoldable pub judge_row :
    Platform → String → String → State → Fields → ℤ → Job → Method Store String
unfolding update_job record_event
judge_row env job_id verifier_id judged proof now row = do
  let verification_ = verification_dict judged verifier_id proof row.receipt_sha256 now
  update_job job_id (record_verdict judged verification_ (verdict_error judged) now)
  record_event env (some job_id) "INDEPENDENT_VERIFICATION" verifier_id verification_ now

-- The tests of `complete_verification` on its arguments: the state that the verdict names.
unfoldable pub check_verdict : String → Fields → Method Store State
unfolding verdict_state
check_verdict verdict proof = do
  judged ←
      or_raise (verdict_state verdict) (value_error "verdict must be VERIFIED, FAILED or BLOCKED")
  raise_if (is_verified judged && not (passes_all (get "checks" proof)))
      (permission_error "VERIFIED requires non-empty independently passing checks")
  pure judged

-- `complete_verification` after those tests.
unfoldable pub store_verdict :
    Platform → String → String → String → Fields → ℤ → State → Method Store Job
unfolding verifying_row judge_row get_job
store_verdict env job_id verifier_id token proof now judged = do
  transaction (do
    row ← verifying_row env job_id verifier_id token now
    judge_row env job_id verifier_id judged proof now row)
  get_job job_id

unfoldable pub complete_verification :
    Platform → String → String → String → String → Fields → ℤ → Method Store Job
unfolding validate_owner check_verdict store_verdict
complete_verification env job_id verifier_id token verdict proof now = do
  validate_owner verifier_id
  judged ← check_verdict verdict proof
  store_verdict env job_id verifier_id token proof now judged
