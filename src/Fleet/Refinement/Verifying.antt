-- ===== src/Fleet/Refinement/Verifying.antt =====
-- The verification leases of src/voodoo_skillset/fleet.py: each operation lets every row live on.
use voodoo_skillset.Prelude.{
  String, true, false, Option, none, some, ◌≡◌, ◌≢◌, refl, arith, ℤ, ltb_ℤ, ◌+ℤ◌, eq_iff,
  Option-cases, inl, inr,
}
use voodoo_skillset.Json.{Fields}
use voodoo_skillset.Python.{ok, ok-injective, gets}
use voodoo_skillset.Platform.{Platform}
use voodoo_skillset.Fleet.Tables.{State, Job, Store, find, first}
use voodoo_skillset.Fleet.Tables.Laws.{UniqueIds, IsRow, first-IsRow}
use voodoo_skillset.Fleet.Updates.{grant_verification, record_verdict}
use voodoo_skillset.Fleet.Execution.{token_hash, equals?}
use voodoo_skillset.Fleet.Verification.{
  is_verifiable, updated_before, grant_verifier, grant_verifiable, claim_verifiable,
  claim_verification, verdict_error, verification_dict, check_verdict, verifying_row, judge_row,
  store_verdict, complete_verification,
}
use voodoo_skillset.Fleet.Lifecycle.{IsVerdict, verification_granted, judged}
use voodoo_skillset.Fleet.Refinement.{
  Evolves, Evolves-refl, Evolving, Evolving-pure, Evolving-transaction, Evolving-bind,
  Evolving-guarded, Evolving-record_event, Evolving-get_job, update_then-Evolves,
}
use voodoo_skillset.Fleet.Refinement.Reaping.{reap_expired-Evolving}
use voodoo_skillset.Fleet.Refinement.Leases.{
  Evolving-validate_owner, Evolving-lease_of, eq_of_equals?,
}

ne_of_equals? : (o : Option String) (t : String) → equals? o t ≡ false → o ≢ some t
ne_of_equals? none t h e = cc
ne_of_equals? (some u) t h e = ground (arith, eq_iff u t)

verifiable_state :
    (verifier : String) (j : Job)
    → is_verifiable verifier j ≡ true
    → (j.state ≡ State.executed) × (equals? j.execution_worker_id verifier ≡ false)
unfolding is_verifiable
verifiable_state verifier j h = ground arith

grant_verifier-Evolves :
    (env : Platform) (verifier token : String) (expires now : ℤ) (s : Store) (j : Job)
    → UniqueIds s.jobs
    → IsRow s.jobs j
    → is_verifiable verifier j ≡ true
    → Evolves (token_hash env token) now s (grant_verifier env verifier token expires now j s).1
unfolding grant_verifier
grant_verifier-Evolves env verifier token expires now s j u found h =
    let (executed, other) = verifiable_state verifier j h in
    update_then-Evolves _ _ j.job_id
      (grant_verification verifier (token_hash env token) expires now) _ s j u (λ i. refl) found
      (verification_granted verifier expires executed
        (ne_of_equals? j.execution_worker_id verifier other) refl)
      (Evolving-bind _ _ _ _
        (Evolving-record_event _ _ env (some j.job_id) "VERIFICATION_LEASE_GRANTED" verifier _ now)
        (λ _. Evolving-pure _ _ (some j.job_id)))

grant_verifiable-Evolves :
    (env : Platform) (verifier token : String) (expires now : ℤ) (s : Store) (o : Option Job)
    → UniqueIds s.jobs
    → first (is_verifiable verifier) updated_before s.jobs ≡ o
    → Evolves (token_hash env token) now s (grant_verifiable env verifier token expires now o s).1
unfolding grant_verifiable
grant_verifiable-Evolves env verifier token expires now s none u h = Evolves-refl _ _ s u
grant_verifiable-Evolves env verifier token expires now s (some j) u h =
    let (found, verifiable) = first-IsRow (is_verifiable verifier) updated_before s.jobs j u h in
    grant_verifier-Evolves env verifier token expires now s j u found verifiable

claim_verifiable-Evolving :
    (env : Platform) (verifier : String) (seconds now : ℤ) (token : String)
    → Evolving (token_hash env token) now (claim_verifiable env verifier seconds now token)
unfolding claim_verifiable
claim_verifiable-Evolving env verifier seconds now token =
    Evolving-bind _ _ _ _ (reap_expired-Evolving _ env now) λ _.
      Evolving-guarded _ _ (gets (λ s. first (is_verifiable verifier) updated_before s.jobs))
        (grant_verifiable env verifier token (now +ℤ seconds) now) (λ s. refl)
        λ s o u h.
          grant_verifiable-Evolves env verifier token (now +ℤ seconds) now s o u (ok-injective h)

pub claim_verification-Evolving :
    (env : Platform) (verifier : String) (seconds now : ℤ) (token : String)
    → Evolving (token_hash env token) now (claim_verification env verifier seconds now token)
unfolding claim_verification
claim_verification-Evolving env verifier seconds now token =
    Evolving-bind _ _ _ _ (Evolving-validate_owner _ _ verifier) λ _.
      Evolving-bind _ _ _ _
        (Evolving-transaction _ _ _ (claim_verifiable-Evolving env verifier seconds now token))
        (Evolving-lease_of _ _ verifier token (now +ℤ seconds))

verifying_row_reads :
    (env : Platform) (id verifier token : String) (now : ℤ) (s : Store)
    → (verifying_row env id verifier token now s).1 ≡ s
unfolding verifying_row
verifying_row_reads env id verifier token now s = ground arith

-- What `verifying_row` has read, if it returns.
pub verifying_row_found :
    (env : Platform) (id verifier token : String) (now : ℤ) (s : Store) (j : Job)
    → (verifying_row env id verifier token now s).0 ≡ ok j
    → (find id s.jobs ≡ some j)
      × (j.state ≡ State.verifying)
      × (j.verifier_id ≡ some verifier)
      × (equals? j.execution_worker_id verifier ≡ false)
      × (j.verification_lease_hash ≡ some (token_hash env token))
      × ((old : ℤ) × (j.verification_lease_expires_at ≡ some old) × (ltb_ℤ old now ≡ false))
unfolding verifying_row
verifying_row_found env id verifier token now s j h =
    let verifier_eq = eq_of_equals? j.verifier_id verifier in
    let hash_eq = eq_of_equals? j.verification_lease_hash (token_hash env token) in
    elim (Option-cases j.verification_lease_expires_at) [
      | inl e ↦ absurd (ground arith)
      | inr (old, e) ↦ (
        ground arith,
        ground arith,
        ground (arith, verifier_eq),
        ground arith,
        ground (arith, hash_eq),
        (old, e, ground arith),
      )
    ]

judge_row-Evolves :
    (env : Platform) (id verifier token : String) (verdict : State) (proof : Fields) (now : ℤ)
    (s : Store) (j : Job)
    → UniqueIds s.jobs
    → (verifying_row env id verifier token now s).0 ≡ ok j
    → IsVerdict verdict proof
    → Evolves (token_hash env token) now s (judge_row env id verifier verdict proof now j s).1
unfolding judge_row
judge_row-Evolves env id verifier token verdict proof now s j u h sound =
    let (found, verifying, owner, other, hash, (old, ends, live)) =
      verifying_row_found env id verifier token now s j h in
    let v = verification_dict verdict verifier proof j.receipt_sha256 now in
    update_then-Evolves _ _ id (record_verdict verdict v (verdict_error verdict) now) _ s j u
      (λ i. refl) found
      (judged verifier old verdict proof verifying owner
        (ne_of_equals? j.execution_worker_id verifier other) hash ends live sound refl)
      (Evolving-record_event _ _ env (some id) "INDEPENDENT_VERIFICATION" verifier v now)

check_verdict_reads :
    (verdict : String) (proof : Fields) (s : Store) → (check_verdict verdict proof s).1 ≡ s
unfolding check_verdict
check_verdict_reads verdict proof s = ground arith

pub check_verdict-IsVerdict :
    (verdict : String) (proof : Fields) (s : Store) (v : State)
    → (check_verdict verdict proof s).0 ≡ ok v
    → IsVerdict v proof
unfolding check_verdict
check_verdict-IsVerdict verdict proof s State.queued h = ground arith
check_verdict-IsVerdict verdict proof s State.leased h = ground arith
check_verdict-IsVerdict verdict proof s State.executed h = ground arith
check_verdict-IsVerdict verdict proof s State.verifying h = ground arith
check_verdict-IsVerdict verdict proof s State.verified h = ground arith
check_verdict-IsVerdict verdict proof s State.failed h = tt
check_verdict-IsVerdict verdict proof s State.blocked h = tt

store_verdict-Evolving :
    (env : Platform) (id verifier token : String) (proof : Fields) (now : ℤ) (v : State)
    → IsVerdict v proof
    → Evolving (token_hash env token) now (store_verdict env id verifier token proof now v)
unfolding store_verdict
store_verdict-Evolving env id verifier token proof now v sound =
    Evolving-bind _ _ _ _
      (Evolving-transaction _ _ _ (
        Evolving-guarded _ _ (verifying_row env id verifier token now)
          (judge_row env id verifier v proof now) (verifying_row_reads env id verifier token now)
          λ s j u h. judge_row-Evolves env id verifier token v proof now s j u h sound))
      (λ _. Evolving-get_job _ _ id)

pub complete_verification-Evolving :
    (env : Platform) (id verifier token verdict : String) (proof : Fields) (now : ℤ)
    → Evolving
        (token_hash env token)
        now
        (complete_verification env id verifier token verdict proof now)
unfolding complete_verification
complete_verification-Evolving env id verifier token verdict proof now =
    Evolving-bind _ _ _ _ (Evolving-validate_owner _ _ verifier) λ _.
      Evolving-guarded _ _ (check_verdict verdict proof)
        (store_verdict env id verifier token proof now) (check_verdict_reads verdict proof)
        λ s v u h.
          (store_verdict-Evolving env id verifier token proof now v
              (check_verdict-IsVerdict verdict proof s v h)).at
            s u
