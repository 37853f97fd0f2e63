-- ===== src/Fleet/Guarantees.antt =====
-- What the fleet store (src/voodoo_skillset/fleet.py) guarantees of its jobs, over one call and over
-- any history of calls from the empty tables.
use voodoo_skillset.Prelude.{
  String, true, Option, none, some, List, [], ◌∷◌, ◌≡◌, ◌≢◌, refl, arith, subst, sym, ◌∙◌, ℤ, pos,
  ◌≤ℤ◌,
}
use voodoo_skillset.Platform.{Platform}
use voodoo_skillset.Fleet.Tables.{State, Job, Store, find, is_final, init_db}
use voodoo_skillset.Fleet.Tables.Laws.{UniqueIds}
use voodoo_skillset.Fleet.Queue.{Request, spec_or_empty}
use voodoo_skillset.Fleet.Updates.{queued_job}
use voodoo_skillset.Fleet.Lifecycle.{Steps}
use voodoo_skillset.Fleet.Lifecycle.Validity.{
  IsValid, IsValidIn, IsAccepted, IsProven, Steps-IsValid,
}
use voodoo_skillset.Fleet.Lifecycle.Exclusion.{IsHeld, Steps-final, Steps-held}
use voodoo_skillset.Fleet.Refinement.Operations.{
  Operation, op_hash, perform, run, IsFresh, Changed, lived, arrived, perform-Advances,
}

-- No two rows have one key, and every row is valid.
pub record IsSound (s : Store) : Type 0 where
  pub unique : UniqueIds s.jobs
  pub valid : (id : String) (j : Job) → find id s.jobs ≡ some j → IsValid j

-- What has become of a row that was there.
lived_on :
    (hash : String) (now : ℤ) (s : Store) (o p : Option Job) (j : Job)
    → o ≡ some j
    → Changed hash now s o p
    → (k : Job) × (p ≡ some k) × Steps hash now j k
lived_on hash now s none p j e c = absurd (ground arith)
lived_on hash now s (some i) none j e (lived l) = absurd l
lived_on hash now s (some i) (some k) j e (lived l) =
    (k, refl, subst (λ x. Steps hash now x k) (ground arith) l)
lived_on hash now s (some i) p j e (arrived k f q fresh) = absurd (ground arith)

fresh-IsValid : (s : Store) (k : Job) → IsFresh s k → IsValid k
fresh-IsValid s k f =
    let (r, id, now, e) = f.from_request in
    subst IsValid (sym e) (
      bounded_request r id now
        (subst (λ (x : Job). (pos 1 ≤ℤ x.max_attempts) × (x.max_attempts ≤ℤ pos 10)) e f.budget))
  where
    bounded_request :
        (r : Request) (id : String) (now : ℤ)
        → (pos 1 ≤ℤ r.max_attempts) × (r.max_attempts ≤ℤ pos 10)
        → IsValid (
            queued_job id r.plan_id r.workspace_id r.capability_id r.argv r.cwd
              (spec_or_empty r.verification_spec)
              r.workspace_before_sha256
              r.priority
              r.max_attempts
              now)
    bounded_request r id now b = ground arith

same_row : (j k : Job) → some j ≡ some k → j ≡ k
same_row j k e = cc

Changed-IsValid :
    (hash : String) (now : ℤ) (s : Store) (o p : Option Job) (k : Job)
    → ((j : Job) → o ≡ some j → IsValid j)
    → p ≡ some k
    → Changed hash now s o p
    → IsValid k
Changed-IsValid hash now s none none k v e (lived l) = absurd (ground arith)
Changed-IsValid hash now s none (some i) k v e (lived l) = absurd l
Changed-IsValid hash now s (some j) none k v e (lived l) = absurd l
Changed-IsValid hash now s (some j) (some i) k v e (lived l) =
    subst IsValid (same_row i k e) (Steps-IsValid hash now j i l (v j refl))
Changed-IsValid hash now s o p k v e (arrived i f q fresh) =
    subst IsValid (same_row i k (sym q ∙ e)) (fresh-IsValid s i fresh)

perform-IsSound :
    (env : Platform) (op : Operation) (now : ℤ) (s : Store)
    → IsSound s
    → IsSound (perform env op now s)
perform-IsSound env op now s h =
    let a = perform-Advances env op now s h.unique in
    record {
      unique = a.unique;
      valid = λ id k e.
          Changed-IsValid (op_hash env op) now s (find id s.jobs)
            (find id (perform env op now s).jobs) k (h.valid id) e (a.rows id);
    }

run-IsSound_from :
    (env : Platform) (ops : List (Operation × ℤ)) (s : Store) → IsSound s → IsSound (run env ops s)
unfolding run
run-IsSound_from env [] s h = h
run-IsSound_from env ((op, now) ∷ ops) s h =
    run-IsSound_from env ops (perform env op now s) (perform-IsSound env op now s h)

init_db-IsSound : IsSound init_db
unfolding find
init_db-IsSound = record { unique = tt; valid = λ id j e. absurd (ground arith) }

-- After any history of calls from the empty tables, failed ones among them, the keys of the jobs are
-- unique and each row is valid: what its state promises of the other columns holds (its leases,
-- worker, verifier, receipt and verification), its attempts are within its budget, and that is at
-- most 10.
pub run-IsSound : (env : Platform) (ops : List (Operation × ℤ)) → IsSound (run env ops init_db)
run-IsSound env ops = run-IsSound_from env ops init_db init_db-IsSound

-- A job that is VERIFIED after any history of calls was run by a worker, whose receipt says UNKNOWN,
-- EXECUTED and exit code 0, and was verified by somebody else, with a proof that has checks, all of
-- which pass.
pub verified_independently :
    (env : Platform) (ops : List (Operation × ℤ)) (id : String) (j : Job)
    → find id (run env ops init_db).jobs ≡ some j
    → j.state ≡ State.verified
    → (j.execution_worker_id ≢ none)
      × IsAccepted j.receipt
      × (j.verifier_id ≢ none)
      × (j.verifier_id ≢ j.execution_worker_id)
      × IsProven j.verification
verified_independently env ops id j e v =
    let w = subst (λ st. IsValidIn st j) v ((run-IsSound env ops).valid id j e).in_state in
    (w.0.0, w.0.1, w.1.0, w.1.1, w.3)

-- Whatever is called, a job in a final state keeps its row as it is.
pub final_frozen :
    (env : Platform) (ops : List (Operation × ℤ)) (s : Store) (id : String) (j : Job)
    → UniqueIds s.jobs
    → find id s.jobs ≡ some j
    → is_final j.state ≡ true
    → find id (run env ops s).jobs ≡ some j
unfolding run
final_frozen env [] s id j u e f = e
final_frozen env ((op, now) ∷ ops) s id j u e f =
    let a = perform-Advances env op now s u in
    let t = perform env op now s in
    let (k, found, steps) =
      lived_on (op_hash env op) now s (find id s.jobs) (find id t.jobs) j e (a.rows id) in
    final_frozen env ops t id j a.unique
      (subst (λ x. find id t.jobs ≡ some x) (Steps-final (op_hash env op) now j k f steps) found) f

-- While a lease of a job has not run out, a call whose token does not hash to that lease's hash
-- leaves the row of the job as it is, a claim by anybody included.
pub lease_exclusive :
    (env : Platform) (op : Operation) (now : ℤ) (s : Store) (id : String) (j : Job)
    → UniqueIds s.jobs
    → find id s.jobs ≡ some j
    → IsHeld (op_hash env op) now j
    → find id (perform env op now s).jobs ≡ some j
lease_exclusive env op now s id j u e held =
    let a = perform-Advances env op now s u in
    let t = perform env op now s in
    let (k, found, steps) =
      lived_on (op_hash env op) now s (find id s.jobs) (find id t.jobs) j e (a.rows id) in
    subst (λ x. find id t.jobs ≡ some x) (Steps-held (op_hash env op) now j k held steps) found
