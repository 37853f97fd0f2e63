-- ===== src/Fleet/Lifecycle.antt =====
-- The life of one job, as the coordinator of src/voodoo_skillset/fleet.py means it: a relation
-- between the rows before and after one change, which says who may make it and when. It does not
-- speak of tables, transactions or events.
pub mod Validity
pub mod Exclusion
use voodoo_skillset.Prelude.{String, true, false, some, ◌≡◌, ◌≢◌, ℤ, pos, ltb_ℤ}
use voodoo_skillset.Json.{Fields, get, is_text, passes_all}
use voodoo_skillset.Fleet.Tables.{State, Job}
use voodoo_skillset.Fleet.Updates.{
  retry_state, grant_execution, renew_execution, accept_receipt, release_failed, expire_execution,
  expire_verification, grant_verification, record_verdict,
}
use voodoo_skillset.Fleet.Execution.{has_succeeded}
use voodoo_skillset.Fleet.Verification.{verification_dict, verdict_error}

-- What the queue demands of a receipt.
abbrev pub IsAcceptable : Fields → Type 0
IsAcceptable receipt =
    (is_text "UNKNOWN" (get "verification_status" receipt) ≡ true)
    × (has_succeeded (get "result" receipt) ≡ true)

-- A verdict, with what VERIFIED asks of the checks in the proof.
abbrev pub IsVerdict : State → Fields → Type 0
IsVerdict State.verified proof = passes_all (get "checks" proof) ≡ true
IsVerdict State.failed proof = Unit
IsVerdict State.blocked proof = Unit
IsVerdict _ proof = ⊥

-- One change of the row of a job from `j` to `k`, by a call at the time `now`. `hash` is the hash of
-- the token that the call carries: the one that a claim issues, or the one that an owner shows.
pub data Step (hash : String) (now : ℤ) (j k : Job) : Type 0 where
  -- a worker leases a queued job that has attempts left
  granted :
      (worker : String) (expires : ℤ)
      → j.state ≡ State.queued
      → ltb_ℤ (pos j.attempts) j.max_attempts ≡ true
      → k ≡ grant_execution worker hash expires now j
      → Step hash now j k
  -- its owner prolongs the lease before it has run out
  renewed :
      (old expires : ℤ)
      → j.state ≡ State.leased
      → j.execution_lease_hash ≡ some hash
      → j.execution_lease_expires_at ≡ some old
      → ltb_ℤ old now ≡ false
      → k ≡ renew_execution expires now j
      → Step hash now j k
  -- its owner hands in an acceptable receipt before the lease has run out
  accepted :
      (old : ℤ) (receipt : Fields) (sha : String)
      → j.state ≡ State.leased
      → j.execution_lease_hash ≡ some hash
      → j.execution_lease_expires_at ≡ some old
      → ltb_ℤ old now ≡ false
      → IsAcceptable receipt
      → k ≡ accept_receipt receipt sha now j
      → Step hash now j k
  -- its owner gives up
  released :
      (available : ℤ) (error : String)
      → j.state ≡ State.leased
      → j.execution_lease_hash ≡ some hash
      → k ≡ release_failed (retry_state j) available error now j
      → Step hash now j k
  -- the lease has run out
  expired :
      (old : ℤ)
      → j.state ≡ State.leased
      → j.execution_lease_expires_at ≡ some old
      → ltb_ℤ old now ≡ true
      → k ≡ expire_execution (retry_state j) now j
      → Step hash now j k
  -- somebody other than the worker leases the job for verification
  verification_granted :
      (verifier : String) (expires : ℤ)
      → j.state ≡ State.executed
      → j.execution_worker_id ≢ some verifier
      → k ≡ grant_verification verifier hash expires now j
      → Step hash now j k
  -- the verification lease has run out
  verification_expired :
      (old : ℤ)
      → j.state ≡ State.verifying
      → j.verification_lease_expires_at ≡ some old
      → ltb_ℤ old now ≡ true
      → k ≡ expire_verification now j
      → Step hash now j k
  -- the verifier, who is not the worker, gives its verdict before its lease has run out
  judged :
      (verifier : String) (old : ℤ) (verdict : State) (proof : Fields)
      → j.state ≡ State.verifying
      → j.verifier_id ≡ some verifier
      → j.execution_worker_id ≢ some verifier
      → j.verification_lease_hash ≡ some hash
      → j.verification_lease_expires_at ≡ some old
      → ltb_ℤ old now ≡ false
      → IsVerdict verdict proof
      → k
        ≡ record_verdict verdict
            (verification_dict verdict verifier proof j.receipt_sha256 now)
            (verdict_error verdict)
            now
            j
      → Step hash now j k

-- Any number of changes by one call: a claim reaps first, and leases then.
pub data Steps (hash : String) (now : ℤ) (j : Job) : Job → Type 0 where
  here : Steps hash now j j
  next : {k l : Job} → Steps hash now j k → Step hash now k l → Steps hash now j l

pub Steps-trans :
    {hash : String} {now : ℤ} {j k l : Job}
    → Steps hash now j k
    → Steps hash now k l
    → Steps hash now j l
Steps-trans s here = s
Steps-trans s (next t u) = next (Steps-trans s t) u
