-- ===== src/Fleet/Refinement/Leases.antt =====
-- The operations on leases of src/voodoo_skillset/fleet.py: each lets every row live on.
use voodoo_skillset.Prelude.{
  String, Bool, true, false, Option, none, some, ◌≡◌, refl, arith, ℤ, ltb_ℤ, ◌+ℤ◌, eq_iff,
  Option-cases, inl, inr, max_ℤ, pos,
}
use voodoo_skillset.Json.{Fields}
use voodoo_skillset.Python.{Method, ok, ok-injective, gets, ◌>>◌}
use voodoo_skillset.Platform.{Platform}
use voodoo_skillset.Fleet.Tables.{State, Job, Store, find, first}
use voodoo_skillset.Fleet.Tables.Laws.{UniqueIds, IsRow, first-IsRow}
use voodoo_skillset.Fleet.Updates.{
  retry_state, grant_execution, renew_execution, accept_receipt, release_failed,
}
use voodoo_skillset.Fleet.Queue.{update_job}
use voodoo_skillset.Fleet.Validation.{validate_owner}
use voodoo_skillset.Fleet.Execution.{
  owned_row, live_row, heartbeat_execution, token_hash, equals?, is_claimable, runs_before,
  grant_row, claim_row, lease_of, claim_execution, complete_execution, fail_execution, truncate,
  release_row, releasable_row, check_receipt, store_receipt, grant_candidate,
}
use voodoo_skillset.Fleet.Lifecycle.{IsAcceptable, Step, granted, renewed, accepted, released}
use voodoo_skillset.Fleet.Refinement.{
  Evolves, Evolves-refl, Evolving, Evolving-pure, Evolving-transaction, Evolving-raise_if,
  Evolving-bind, Evolving-guarded, Evolving-record_event, Evolving-get_job, update_then-Evolves,
}
use voodoo_skillset.Fleet.Refinement.Reaping.{reap_expired-Evolving}

pub Evolving-validate_owner :
    (hash : String) (now : ℤ) (owner : String)
    → Evolving hash now (validate_owner {S = Store} owner)
unfolding validate_owner
Evolving-validate_owner hash now owner = Evolving-raise_if _ _ _ _

pub eq_of_equals? : (o : Option String) (t : String) → equals? o t ≡ true → o ≡ some t
eq_of_equals? none t h = cc
eq_of_equals? (some u) t h = ground (arith, eq_iff u t)

-- What `owned_row` has read, if it returns.
owned_row_reads : (id worker : String) (s : Store) → (owned_row id worker s).1 ≡ s
unfolding owned_row
owned_row_reads id worker s = ground arith

pub owned_row_found :
    (id worker : String) (s : Store) (j : Job)
    → (owned_row id worker s).0 ≡ ok j
    → (find id s.jobs ≡ some j) × (j.state ≡ State.leased) × (j.execution_worker_id ≡ some worker)
unfolding owned_row
owned_row_found id worker s j h = ground (arith, eq_of_equals? j.execution_worker_id worker)

live_row_reads :
    (env : Platform) (id worker token : String) (now : ℤ) (s : Store)
    → (live_row env id worker token now s).1 ≡ s
unfolding live_row
live_row_reads env id worker token now s = ground arith

-- What `live_row` has read, if it returns.
pub live_row_found :
    (env : Platform) (id worker token : String) (now : ℤ) (s : Store) (j : Job)
    → (live_row env id worker token now s).0 ≡ ok j
    → (find id s.jobs ≡ some j)
      × (j.state ≡ State.leased)
      × (j.execution_worker_id ≡ some worker)
      × (j.execution_lease_hash ≡ some (token_hash env token))
      × ((old : ℤ) × (j.execution_lease_expires_at ≡ some old) × (ltb_ℤ old now ≡ false))
unfolding live_row
live_row_found env id worker token now s j h =
    let worker_eq = eq_of_equals? j.execution_worker_id worker in
    let hash_eq = eq_of_equals? j.execution_lease_hash (token_hash env token) in
    elim (Option-cases j.execution_lease_expires_at) [
      | inl e ↦ absurd (ground arith)
      | inr (old, e) ↦ (
        ground arith,
        ground arith,
        ground (arith, worker_eq),
        ground (arith, hash_eq),
        (old, e, ground arith),
      )
    ]

-- An update of the row whose lease has been tested, by a step that the tests allow.
live_then-Evolving :
    {A : Type 0} (env : Platform) (id worker token : String) (now : ℤ) (f : Job → Job)
    (rest : Method Store A)
    → ((i : Job) → (f i).job_id ≡ i.job_id)
    → ((j : Job) (old : ℤ)
        → j.state ≡ State.leased
        → j.execution_lease_hash ≡ some (token_hash env token)
        → j.execution_lease_expires_at ≡ some old
        → ltb_ℤ old now ≡ false
        → Step (token_hash env token) now j (f j))
    → Evolving (token_hash env token) now rest
    → Evolving
        (token_hash env token)
        now
        (live_row env id worker token now >> (update_job id f >> rest))
live_then-Evolving env id worker token now f rest keeps step e =
    Evolving-guarded _ _ (live_row env id worker token now) (λ _. update_job id f >> rest)
      (live_row_reads env id worker token now)
      (λ s j u h.
        let (found, leased, owner, hash, (old, ends, live)) =
          live_row_found env id worker token now s j h in
        update_then-Evolves _ _ id f rest s j u keeps found (step j old leased hash ends live) e)

pub heartbeat_execution-Evolving :
    (env : Platform) (id worker token : String) (seconds now : ℤ)
    → Evolving (token_hash env token) now (heartbeat_execution env id worker token seconds now)
unfolding heartbeat_execution
heartbeat_execution-Evolving env id worker token seconds now =
    Evolving-bind _ _ _ _ (Evolving-validate_owner _ _ worker) λ _. Evolving-transaction _ _ _ (
      live_then-Evolving env id worker token now (renew_execution (now +ℤ seconds) now) _
        (λ i. refl) (λ j old leased hash ends live. renewed old _ leased hash ends live refl)
        (Evolving-bind _ _ _ _ (Evolving-record_event _ _ env (some id) _ worker _ now)
          (λ _. Evolving-pure _ _ (now +ℤ seconds))))

check_receipt_reads :
    (receipt : Fields) (signed : Bool) (s : Store) → (check_receipt receipt signed s).1 ≡ s
unfolding check_receipt
check_receipt_reads receipt signed s = ground arith

pub check_receipt-IsAcceptable :
    (receipt : Fields) (signed : Bool) (s : Store)
    → (check_receipt receipt signed s).0 ≡ ok tt
    → (signed ≡ true) × IsAcceptable receipt
unfolding check_receipt
check_receipt-IsAcceptable receipt signed s h = ground arith

store_receipt-Evolving :
    (env : Platform) (id worker token : String) (receipt : Fields) (now : ℤ)
    → IsAcceptable receipt
    → Evolving (token_hash env token) now (store_receipt env id worker token receipt now)
unfolding store_receipt
store_receipt-Evolving env id worker token receipt now acceptable =
    let sha = env.sha256 (env.dumps receipt) in
    Evolving-bind _ _ _ _
      (Evolving-transaction _ _ _ (
        live_then-Evolving env id worker token now (accept_receipt receipt sha now) _ (λ i. refl)
          (λ j old leased hash ends live.
            accepted old receipt sha leased hash ends live acceptable refl)
          (Evolving-record_event _ _ env (some id) "EXECUTION_RECEIPT_ACCEPTED" worker _ now)))
      (λ _. Evolving-get_job _ _ id)

pub complete_execution-Evolving :
    (env : Platform) (id worker token : String) (receipt : Fields) (signed : Bool) (now : ℤ)
    → Evolving
        (token_hash env token)
        now
        (complete_execution env id worker token receipt signed now)
unfolding complete_execution
complete_execution-Evolving env id worker token receipt signed now =
    Evolving-bind _ _ _ _ (Evolving-validate_owner _ _ worker) λ _.
      Evolving-guarded _ _ (check_receipt receipt signed)
        (λ _. store_receipt env id worker token receipt now) (check_receipt_reads receipt signed)
        λ s _ u h.
          (store_receipt-Evolving env id worker token receipt now
              (check_receipt-IsAcceptable receipt signed s h).1).at
            s u

releasable_row_reads :
    (env : Platform) (id worker token : String) (s : Store)
    → (releasable_row env id worker token s).1 ≡ s
unfolding releasable_row
releasable_row_reads env id worker token s = ground arith

-- What `releasable_row` has read, if it returns.
pub releasable_row_found :
    (env : Platform) (id worker token : String) (s : Store) (j : Job)
    → (releasable_row env id worker token s).0 ≡ ok j
    → (find id s.jobs ≡ some j)
      × (j.state ≡ State.leased)
      × (j.execution_worker_id ≡ some worker)
      × (j.execution_lease_hash ≡ some (token_hash env token))
unfolding releasable_row
releasable_row_found env id worker token s j h = ground (
  arith,
  eq_of_equals? j.execution_worker_id worker,
  eq_of_equals? j.execution_lease_hash (token_hash env token),
)

release_row-Evolves :
    (env : Platform) (id worker token error : String) (delay now : ℤ) (s : Store) (j : Job)
    → UniqueIds s.jobs
    → find id s.jobs ≡ some j
    → j.state ≡ State.leased
    → j.execution_lease_hash ≡ some (token_hash env token)
    → Evolves (token_hash env token) now s (release_row env id worker error delay now j s).1
unfolding release_row
release_row-Evolves env id worker token error delay now s j u found leased hash =
    let available = now +ℤ max_ℤ (pos 0) delay in
    let f = release_failed (retry_state j) available (truncate 2048 error) now in
    update_then-Evolves _ _ id f _ s j u (λ i. refl) found
      (released available (truncate 2048 error) leased hash refl)
      (Evolving-record_event _ _ env (some id) "EXECUTION_FAILED" worker _ now)

pub fail_execution-Evolving :
    (env : Platform) (id worker token error : String) (delay now : ℤ)
    → Evolving (token_hash env token) now (fail_execution env id worker token error delay now)
unfolding fail_execution
fail_execution-Evolving env id worker token error delay now =
    Evolving-bind _ _ _ _ (Evolving-validate_owner _ _ worker) λ _.
      Evolving-bind _ _ _ _
        (Evolving-transaction _ _ _ (
          Evolving-guarded _ _ (releasable_row env id worker token)
            (release_row env id worker error delay now) (releasable_row_reads env id worker token)
            λ s j u h.
              let (found, leased, owner, hash) = releasable_row_found env id worker token s j h in
              release_row-Evolves env id worker token error delay now s j u found leased hash))
        (λ _. Evolving-get_job _ _ id)

pub Evolving-lease_of :
    (hash : String) (now : ℤ) (owner token : String) (expires : ℤ) (o : Option String)
    → Evolving hash now (lease_of owner token expires o)
unfolding lease_of
Evolving-lease_of hash now owner token expires none = Evolving-pure _ _ none
Evolving-lease_of hash now owner token expires (some id) =
    Evolving-bind _ _ _ _ (Evolving-get_job _ _ id) (λ row. Evolving-pure _ _ _)

claimable_state :
    (now : ℤ) (j : Job)
    → is_claimable now j ≡ true
    → (j.state ≡ State.queued) × (ltb_ℤ (pos j.attempts) j.max_attempts ≡ true)
unfolding is_claimable
claimable_state now j h = ground arith

grant_row-Evolves :
    (env : Platform) (worker token : String) (expires now : ℤ) (s : Store) (j : Job)
    → UniqueIds s.jobs
    → IsRow s.jobs j
    → is_claimable now j ≡ true
    → Evolves (token_hash env token) now s (grant_row env worker token expires now j s).1
unfolding grant_row
grant_row-Evolves env worker token expires now s j u found h =
    let (queued, left) = claimable_state now j h in
    update_then-Evolves _ _ j.job_id (grant_execution worker (token_hash env token) expires now) _ s
      j u (λ i. refl) found (granted worker expires queued left refl)
      (Evolving-bind _ _ _ _
        (Evolving-record_event _ _ env (some j.job_id) "EXECUTION_LEASE_GRANTED" worker _ now)
        (λ _. Evolving-pure _ _ (some j.job_id)))

grant_candidate-Evolves :
    (env : Platform) (worker token : String) (expires now : ℤ) (s : Store) (o : Option Job)
    → UniqueIds s.jobs
    → first (is_claimable now) runs_before s.jobs ≡ o
    → Evolves (token_hash env token) now s (grant_candidate env worker token expires now o s).1
unfolding grant_candidate
grant_candidate-Evolves env worker token expires now s none u h = Evolves-refl _ _ s u
grant_candidate-Evolves env worker token expires now s (some j) u h =
    let (found, claimable) = first-IsRow (is_claimable now) runs_before s.jobs j u h in
    grant_row-Evolves env worker token expires now s j u found claimable

claim_row-Evolving :
    (env : Platform) (worker : String) (seconds now : ℤ) (token : String)
    → Evolving (token_hash env token) now (claim_row env worker seconds now token)
unfolding claim_row
claim_row-Evolving env worker seconds now token =
    Evolving-bind _ _ _ _ (reap_expired-Evolving _ env now) λ _.
      Evolving-guarded _ _ (gets (λ s. first (is_claimable now) runs_before s.jobs))
        (grant_candidate env worker token (now +ℤ seconds) now) (λ s. refl)
        λ s o u h.
          grant_candidate-Evolves env worker token (now +ℤ seconds) now s o u (ok-injective h)

pub claim_execution-Evolving :
    (env : Platform) (worker : String) (seconds now : ℤ) (token : String)
    → Evolving (token_hash env token) now (claim_execution env worker seconds now token)
unfolding claim_execution
claim_execution-Evolving env worker seconds now token =
    Evolving-bind _ _ _ _ (Evolving-validate_owner _ _ worker) λ _.
      Evolving-bind _ _ _ _ (Evolving-raise_if _ _ _ _) λ _.
        Evolving-bind _ _ _ _
          (Evolving-transaction _ _ _ (claim_row-Evolving env worker seconds now token))
          (Evolving-lease_of _ _ worker token (now +ℤ seconds))
