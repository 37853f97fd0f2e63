-- ===== src/Fleet/Updates.antt =====
-- The SET lists of the UPDATE statements on `jobs` in src/voodoo_skillset/fleet.py, and the row that
-- `enqueue` inserts.
use voodoo_skillset.Prelude.{String, Option, none, some, List, ◌+◌, ℤ, pos, ltb_ℤ, if◌then◌else◌}
use voodoo_skillset.Json.{Fields}
use voodoo_skillset.Fleet.Tables.{State, Job}

-- The row that `enqueue` inserts: the columns that it leaves out have their defaults.
abbrev pub queued_job :
    String
    → String
    → String
    → String
    → List String
    → String
    → Fields
    → Option String
    → ℤ
    → ℤ
    → ℤ
    → Job
queued_job id plan workspace capability args dir spec before prio most now = record {
  job_id = id;
  plan_id = plan;
  workspace_id = workspace;
  capability_id = capability;
  argv = args;
  cwd = dir;
  verification_spec = spec;
  workspace_before_sha256 = before;
  state = State.queued;
  priority = prio;
  available_at = now;
  created_at = now;
  updated_at = now;
  attempts = 0;
  max_attempts = most;
  execution_worker_id = none;
  execution_lease_hash = none;
  execution_lease_expires_at = none;
  receipt = none;
  receipt_sha256 = none;
  verifier_id = none;
  verification_lease_hash = none;
  verification_lease_expires_at = none;
  verification = none;
  last_error = none;
}

-- `"QUEUED" if row["attempts"] < row["max_attempts"] else "FAILED"`.
unfoldable pub retry_state : Job → State
retry_state j = if ltb_ℤ (pos j.attempts) j.max_attempts then State.queued else State.failed

-- `claim_execution`, for a worker, the hash of its token, and the end of the lease.
abbrev pub grant_execution : String → String → ℤ → ℤ → Job → Job
grant_execution worker hash expires now j = record j {
  state = State.leased;
  execution_worker_id = some worker;
  execution_lease_hash = some hash;
  execution_lease_expires_at = some expires;
  attempts = j.attempts + 1;
  updated_at = now;
  last_error = none;
}

-- `heartbeat_execution`.
abbrev pub renew_execution : ℤ → ℤ → Job → Job
renew_execution expires now j = record j {
  execution_lease_expires_at = some expires;
  updated_at = now;
}

-- `complete_execution`.
abbrev pub accept_receipt : Fields → String → ℤ → Job → Job
accept_receipt accepted sha now j = record j {
  state = State.executed;
  receipt = some accepted;
  receipt_sha256 = some sha;
  execution_lease_hash = none;
  execution_lease_expires_at = none;
  updated_at = now;
}

-- `fail_execution`.
abbrev pub release_failed : State → ℤ → String → ℤ → Job → Job
release_failed next available error now j = record j {
  state = next;
  available_at = available;
  execution_worker_id = none;
  execution_lease_hash = none;
  execution_lease_expires_at = none;
  updated_at = now;
  last_error = some error;
}

-- `_reap_expired` on a row in LEASED.
abbrev pub expire_execution : State → ℤ → Job → Job
expire_execution next now j = record j {
  state = next;
  execution_worker_id = none;
  execution_lease_hash = none;
  execution_lease_expires_at = none;
  updated_at = now;
  last_error = some "execution lease expired";
}

-- `_reap_expired` on a row in VERIFYING.
abbrev pub expire_verification : ℤ → Job → Job
expire_verification now j = record j {
  state = State.executed;
  verifier_id = none;
  verification_lease_hash = none;
  verification_lease_expires_at = none;
  updated_at = now;
  last_error = some "verification lease expired";
}

-- `claim_verification`.
abbrev pub grant_verification : String → String → ℤ → ℤ → Job → Job
grant_verification verifier hash expires now j = record j {
  state = State.verifying;
  verifier_id = some verifier;
  verification_lease_hash = some hash;
  verification_lease_expires_at = some expires;
  updated_at = now;
}

-- `complete_verification`.
abbrev pub record_verdict : State → Fields → Option String → ℤ → Job → Job
record_verdict verdict verification error now j = record j {
  state = verdict;
  verification = some verification;
  verification_lease_hash = none;
  verification_lease_expires_at = none;
  updated_at = now;
  last_error = error;
}
