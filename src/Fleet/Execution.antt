-- ===== src/Fleet/Execution.antt =====
-- The execution leases of src/voodoo_skillset/fleet.py: `claim_execution`, `heartbeat_execution`,
-- `complete_execution` and `fail_execution`. The time, `int(self.clock())`, and the secret token of
-- `secrets.token_urlsafe(32)` are arguments.
use voodoo_skillset.Prelude.{
  ℕ, zero, suc, String, Bool, true, false, Option, none, some, [], ◌∷◌, ◌+◌, ◌||◌, ◌&&◌, not, ℤ,
  pos, ltb_ℤ, leb_ℤ, max_ℤ, ◌+ℤ◌, str_eq, text_before, if◌then◌else◌,
}
use voodoo_skillset.Json.{Json, Fields, int, text, object, null, dict, get, is_text, is_zero}
use voodoo_skillset.Python.{
  Method, pure, raise, or_raise, gets, transaction, raise_if, value_error, permission_error,
  runtime_error, type_error, ◌>>=◌, ◌>>◌,
}
use voodoo_skillset.Platform.{Platform}
use voodoo_skillset.Fleet.Tables.{State, Job, Store, find, first}
use voodoo_skillset.Fleet.Updates.{
  retry_state, grant_execution, renew_execution, accept_receipt, release_failed,
}
use voodoo_skillset.Fleet.Events.{record_event}
use voodoo_skillset.Fleet.Queue.{state_name, update_job, get_job, reap_expired}
use voodoo_skillset.Fleet.Validation.{validate_owner}

-- `_token_hash`.
abbrev pub token_hash : Platform → String → String
token_hash env token = env.sha256 token

-- What a claim returns.
pub record Lease : Type 0 where
  pub job_id : String
  pub owner_id : String
  pub token : String
  pub expires_at : ℤ
  pub job : Job

-- WHERE state='QUEUED' AND available_at<=? AND attempts<max_attempts
unfoldable pub is_claimable : ℤ → Job → Bool
is_claimable now j = elim j.state [
  | State.queued ↦ leb_ℤ j.available_at now && ltb_ℤ (pos j.attempts) j.max_attempts
  | _ ↦ false
]

-- ORDER BY priority ASC, created_at ASC, job_id ASC
unfoldable pub runs_before : Job → Job → Bool
runs_before a b =
    if ltb_ℤ a.priority b.priority
    then true
    else if ltb_ℤ b.priority a.priority
    then false
    else if ltb_ℤ a.created_at b.created_at
    then true
    else if ltb_ℤ b.created_at a.created_at
    then false
    else text_before a.job_id b.job_id

-- The UPDATE and the event of `claim_execution`.
unfoldable pub grant_row : Platform → String → String → ℤ → ℤ → Job → Method Store (Option String)
unfolding update_job record_event
grant_row env worker_id token expires now row = do
  update_job row.job_id (grant_execution worker_id (token_hash env token) expires now)
  record_event env (some row.job_id) "EXECUTION_LEASE_GRANTED" worker_id
      (dict (("expires_at", int expires) ∷ ("attempt", int (pos (row.attempts + 1))) ∷ [])) now
  pure (some row.job_id)

-- What `claim_execution` does with the row that its SELECT has found.
unfoldable pub grant_candidate :
    Platform → String → String → ℤ → ℤ → Option Job → Method Store (Option String)
unfolding grant_row
grant_candidate env worker_id token expires now none = pure none
grant_candidate env worker_id token expires now (some row) =
    grant_row env worker_id token expires now row

-- The transaction of `claim_execution`: the key of the row that it leases.
unfoldable pub claim_row : Platform → String → ℤ → ℤ → String → Method Store (Option String)
unfolding reap_expired first is_claimable runs_before grant_candidate
claim_row env worker_id lease_seconds now token = do
  reap_expired env now
  candidate ← gets (λ s. first (is_claimable now) runs_before s.jobs)
  grant_candidate env worker_id token (now +ℤ lease_seconds) now candidate

-- The lease that a claim returns on the row with a key, if it has leased one.
unfoldable pub lease_of : String → String → ℤ → Option String → Method Store (Option Lease)
unfolding get_job
lease_of owner token_ expires none = pure none
lease_of owner token_ expires (some id) = do
  row ← get_job id
  pure (
      some
        (record { job_id = id; owner_id = owner; token = token_; expires_at = expires; job = row }))

unfoldable pub claim_execution : Platform → String → ℤ → ℤ → String → Method Store (Option Lease)
unfolding validate_owner claim_row lease_of
claim_execution env worker_id lease_seconds now token = do
  validate_owner worker_id
  raise_if (ltb_ℤ lease_seconds (pos 5) || ltb_ℤ (pos 300) lease_seconds)
      (value_error "lease_seconds must be between 5 and 300")
  claimed ← transaction (claim_row env worker_id lease_seconds now token)
  lease_of worker_id token (now +ℤ lease_seconds) claimed

-- `value == t` for a column that may be NULL.
abbrev pub equals? : Option String → String → Bool
equals? none t = false
equals? (some u) t = str_eq u t

-- `row["state"] == "LEASED"`.
abbrev pub is_leased : State → Bool
is_leased State.leased = true
is_leased _ = false

-- `expires_at < now` on a Python value: `None` cannot be compared.
abbrev pub past_or_raise : Option ℤ → ℤ → Method Store Bool
past_or_raise none now = raise (type_error "'<' not supported between 'NoneType' and 'int'")
past_or_raise (some expires) now = pure (ltb_ℤ expires now)

-- The row of a job whose execution lease `worker_id` owns.
unfoldable pub owned_row : String → String → Method Store Job
unfolding find
owned_row job_id worker_id = do
  found ← gets (λ s. find job_id s.jobs)
  row ← or_raise found (permission_error "execution lease ownership mismatch")
  raise_if (not (is_leased row.state) || not (equals? row.execution_worker_id worker_id))
      (permission_error "execution lease ownership mismatch")
  pure row

-- The tests of `heartbeat_execution` and `complete_execution` on the row of the job.
unfoldable pub live_row : Platform → String → String → String → ℤ → Method Store Job
unfolding owned_row
live_row env job_id worker_id token now = do
  row ← owned_row job_id worker_id
  past ← past_or_raise row.execution_lease_expires_at now
  raise_if (past || not (equals? row.execution_lease_hash (token_hash env token)))
      (permission_error "execution lease expired or token invalid")
  pure row

unfoldable pub heartbeat_execution : Platform → String → String → String → ℤ → ℤ → Method Store ℤ
unfolding validate_owner live_row update_job record_event
heartbeat_execution env job_id worker_id token lease_seconds now = do
  validate_owner worker_id
  let expires = now +ℤ lease_seconds
  transaction (do
    live_row env job_id worker_id token now
    update_job job_id (renew_execution expires now)
    record_event env (some job_id) "EXECUTION_HEARTBEAT" worker_id
        (dict (("expires_at", int expires) ∷ [])) now
    pure expires)

-- `isinstance(result, dict) and result["status"] == "EXECUTED" and result["exit_code"] == 0`.
unfoldable pub has_succeeded : Option Json → Bool
has_succeeded (some (object result)) =
    is_text "EXECUTED" (get "status" result) && is_zero (get "exit_code" result)
has_succeeded _ = false

-- `receipt.get("executor_id")`.
abbrev pub value_or_null : Option Json → Json
value_or_null none = null
value_or_null (some v) = v

-- The tests of `complete_execution` on the receipt.
unfoldable pub check_receipt : Fields → Bool → Method Store (Unit {0})
unfolding has_succeeded
check_receipt receipt receipt_signature_verified = do
  raise_if (not receipt_signature_verified)
      (permission_error "unverified execution receipt cannot enter durable queue")
  raise_if (not (is_text "UNKNOWN" (get "verification_status" receipt)))
      (permission_error "execution receipt must remain UNKNOWN until independent verification")
  raise_if (not (has_succeeded (get "result" receipt)))
      (runtime_error "only successful execution receipts can advance to verification")

-- `complete_execution` after its tests on the receipt.
unfoldable pub store_receipt : Platform → String → String → String → Fields → ℤ → Method Store Job
unfolding live_row update_job record_event get_job
store_receipt env job_id worker_id token receipt now = do
  let receipt_sha = env.sha256 (env.dumps receipt)
  transaction (do
    live_row env job_id worker_id token now
    update_job job_id (accept_receipt receipt receipt_sha now)
    record_event env (some job_id) "EXECUTION_RECEIPT_ACCEPTED" worker_id
        (dict (
          ("receipt_sha256", text receipt_sha)
          ∷ ("verification_status", text "UNKNOWN")
          ∷ ("executor_id", value_or_null (get "executor_id" receipt))
          ∷ []))
        now)
  get_job job_id

unfoldable pub complete_execution :
    Platform → String → String → String → Fields → Bool → ℤ → Method Store Job
unfolding validate_owner check_receipt store_receipt
complete_execution env job_id worker_id token receipt receipt_signature_verified now = do
  validate_owner worker_id
  check_receipt receipt receipt_signature_verified
  store_receipt env job_id worker_id token receipt now

-- `text[:n]`.
unfoldable pub truncate : ℕ → String → String
truncate zero t = ""
truncate (suc n) String.[] = ""
truncate (suc n) (String.◌∷◌ c t) = String.◌∷◌ c (truncate n t)

-- The tests of `fail_execution` on the row of the job: the lease may have run out.
unfoldable pub releasable_row : Platform → String → String → String → Method Store Job
unfolding owned_row
releasable_row env job_id worker_id token = do
  row ← owned_row job_id worker_id
  raise_if (not (equals? row.execution_lease_hash (token_hash env token)))
      (permission_error "execution lease token invalid")
  pure row

-- `fail_execution` after those tests.
unfoldable pub release_row : Platform → String → String → String → ℤ → ℤ → Job → Method Store String
unfolding retry_state update_job record_event
release_row env job_id worker_id error retry_delay_seconds now row = do
  let next = retry_state row
  let available = now +ℤ max_ℤ (pos 0) retry_delay_seconds
  update_job job_id (release_failed next available (truncate 2048 error) now)
  record_event env (some job_id) "EXECUTION_FAILED" worker_id
      (dict (
        ("next_state", text (state_name next))
        ∷ ("attempt", int (pos row.attempts))
        ∷ ("error", text (truncate 512 error))
        ∷ []))
      now

unfoldable pub fail_execution :
    Platform → String → String → String → String → ℤ → ℤ → Method Store Job
unfolding validate_owner releasable_row release_row get_job
fail_execution env job_id worker_id token error retry_delay_seconds now = do
  validate_owner worker_id
  transaction (do
    row ← releasable_row env job_id worker_id token
    release_row env job_id worker_id error retry_delay_seconds now row)
  get_job job_id
