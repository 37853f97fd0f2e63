-- ===== src/Fleet/Refinement/Operations.antt =====
-- All operations of the fleet store (src/voodoo_skillset/fleet.py) in one type, and what any of them
-- does to the rows of `jobs`.
use voodoo_skillset.Prelude.{
  String, Bool, true, Option, none, some, List, [], ◌∷◌, ◌≡◌, refl, sym, subst, arith, ℤ, pos, ◌≤ℤ◌,
  ◌⊎◌, inl, inr, Option-cases, Bool-cases, eq_iff, str_eq,
}
use voodoo_skillset.Json.{Fields}
use voodoo_skillset.Python.{Method, Result, ok, err, settle, transaction, ◌>>◌, ◌>>=◌}
use voodoo_skillset.Platform.{Platform}
use voodoo_skillset.Fleet.Tables.{Job, Store, find, insert, find_plan}
use voodoo_skillset.Fleet.Tables.Laws.{UniqueIds, UniqueIds-insert, find-insert}
use voodoo_skillset.Fleet.Updates.{queued_job}
use voodoo_skillset.Fleet.Queue.{
  Request, record_plan, is_verified_plan, job_id_or, spec_or_empty, is_integer, admit_job, enqueue,
  get_job,
}
use voodoo_skillset.Fleet.Validation.{validate_job_input}
use voodoo_skillset.Fleet.Execution.{
  token_hash, claim_execution, heartbeat_execution, complete_execution, fail_execution,
}
use voodoo_skillset.Fleet.Verification.{claim_verification, complete_verification}
use voodoo_skillset.Fleet.Refinement.{
  Evolved, Evolved-refl, Evolves, Evolves-jobs, Evolves-refl, Evolving, Evolving-reads,
}
use voodoo_skillset.Fleet.Refinement.Leases.{
  heartbeat_execution-Evolving, complete_execution-Evolving, fail_execution-Evolving,
  claim_execution-Evolving,
}
use voodoo_skillset.Fleet.Refinement.Verifying.{
  claim_verification-Evolving, complete_verification-Evolving,
}

-- A call of a method that writes, with its arguments; fresh identifiers and tokens are among them.
pub data Operation : Type 0 where
  plans : Fields → Operation
  enqueues : Request → String → Operation
  claims : String → ℤ → String → Operation
  renews : String → String → String → ℤ → Operation
  completes : String → String → String → Fields → Bool → Operation
  fails : String → String → String → String → ℤ → Operation
  claims_verification : String → ℤ → String → Operation
  judges : String → String → String → String → Fields → Operation

-- The store that a call leaves, at a time of the clock.
unfoldable pub perform : Platform → Operation → ℤ → Store → Store
perform env (plans plan) now s = (record_plan env plan now s).1
perform env (enqueues r fresh) now s = (enqueue env r fresh now s).1
perform env (claims worker seconds token) now s = (claim_execution env worker seconds now token s).1
perform env (renews id worker token seconds) now s =
    (heartbeat_execution env id worker token seconds now s).1
perform env (completes id worker token receipt signed) now s =
    (complete_execution env id worker token receipt signed now s).1
perform env (fails id worker token error delay) now s =
    (fail_execution env id worker token error delay now s).1
perform env (claims_verification verifier seconds token) now s =
    (claim_verification env verifier seconds now token s).1
perform env (judges id verifier token verdict proof) now s =
    (complete_verification env id verifier token verdict proof now s).1

-- The calls of a history, the oldest first.
unfoldable pub run : Platform → List (Operation × ℤ) → Store → Store
unfolding perform
run env [] s = s
run env ((op, now) ∷ ops) s = run env ops (perform env op now s)

-- The hash of the token that a call carries.
abbrev pub op_hash : Platform → Operation → String
op_hash env (claims worker seconds token) = token_hash env token
op_hash env (renews id worker token seconds) = token_hash env token
op_hash env (completes id worker token receipt signed) = token_hash env token
op_hash env (fails id worker token error delay) = token_hash env token
op_hash env (claims_verification verifier seconds token) = token_hash env token
op_hash env (judges id verifier token verdict proof) = token_hash env token
op_hash env _ = ""

-- A row that `enqueue` may insert: a job of a verified plan, with a sensible budget.
pub record IsFresh (s : Store) (k : Job) : Type 0 where
  pub from_request :
      (r : Request) × (id : String) × (now : ℤ) × (k
        ≡ queued_job id r.plan_id r.workspace_id r.capability_id r.argv r.cwd
            (spec_or_empty r.verification_spec)
            r.workspace_before_sha256
            r.priority
            r.max_attempts
            now)
  pub planned : is_verified_plan (find_plan k.plan_id s.plans) ≡ true
  pub budget : (pos 1 ≤ℤ k.max_attempts) × (k.max_attempts ≤ℤ pos 10)

-- How the row under one key may change by one operation.
pub data Changed (hash : String) (now : ℤ) (s : Store) (o p : Option Job) : Type 0 where
  lived : Evolved hash now o p → Changed hash now s o p
  arrived : (k : Job) → o ≡ none → p ≡ some k → IsFresh s k → Changed hash now s o p

pub record Advances (hash : String) (now : ℤ) (s t : Store) : Type 0 where
  pub unique : UniqueIds t.jobs
  pub rows : (id : String) → Changed hash now s (find id s.jobs) (find id t.jobs)

Evolves-Advances :
    (hash : String) (now : ℤ) (s t : Store) → Evolves hash now s t → Advances hash now s t
Evolves-Advances hash now s t e = record { unique = e.unique; rows = λ id. lived (e.rows id) }

record_plan-Evolving :
    (hash : String) (env : Platform) (plan : Fields) (now : ℤ)
    → Evolving hash now (record_plan env plan now)
unfolding record_plan
record_plan-Evolving hash env plan now =
    Evolving-reads _ _ (record_plan env plan now) (λ s. ground arith)

module _ (hash : String) (env : Platform) (r : Request) (id : String) (now : ℤ) where
  abbrev requested : Job
  requested =
      queued_job id r.plan_id r.workspace_id r.capability_id r.argv r.cwd
        (spec_or_empty r.verification_spec) r.workspace_before_sha256 r.priority r.max_attempts now

  -- The transaction changes no row, or inserts the requested one.
  jobs-admit_job :
      (s : Store)
      → ((admit_job env r id now s).1.jobs ≡ s.jobs)
        ⊎ (((admit_job env r id now s).1.jobs ≡ insert requested s.jobs)
            × (find id s.jobs ≡ none)
            × (is_verified_plan (find_plan r.plan_id s.plans) ≡ true))
  unfolding admit_job
  jobs-admit_job s = elim (Option-cases (find id s.jobs)) [
    | inl free ↦ elim (Bool-cases (is_verified_plan (find_plan r.plan_id s.plans))) [
      | inl planned ↦ elim (Bool-cases (is_integer r.priority)) [
        | inl small ↦ inr (ground arith, free, planned)
        | inr large ↦ inl (ground arith)
      ]
      | inr other ↦ inl (ground arith)
    ]
    | inr (j, taken) ↦ inl (ground arith)
  ]

  inserted-Advances :
      (s t : Store)
      → UniqueIds s.jobs
      → (pos 1 ≤ℤ r.max_attempts) × (r.max_attempts ≤ℤ pos 10)
      → (t.jobs ≡ s.jobs)
        ⊎ ((t.jobs ≡ insert requested s.jobs)
            × (find id s.jobs ≡ none)
            × (is_verified_plan (find_plan r.plan_id s.plans) ≡ true))
      → Advances hash now s t
  inserted-Advances s t u b (inl same) =
      Evolves-Advances _ _ s t (Evolves-jobs _ _ s s t same (Evolves-refl _ _ s u))
  inserted-Advances s t u b (inr (inserted, free, verified)) = record {
    unique = rw inserted (UniqueIds-insert requested s.jobs free u);
    rows = λ k. rw inserted (
        rw (find-insert k requested s.jobs free) (elim (Bool-cases (str_eq id k)) [
          | inl same ↦ rw same (
              arrived requested (subst (λ i. find i s.jobs ≡ none) ((eq_iff id k).0 same) free) refl
                (record { from_request = (r, id, now, refl); planned = verified; budget = b }))
          | inr other ↦ rw other (lived (Evolved-refl _ _ (find k s.jobs)))
        ]));
  }

  settle-Advances :
      (s : Store) (q : Result String × Store)
      → UniqueIds s.jobs
      → Advances hash now s q.1
      → Advances hash now s (settle s q).1
  settle-Advances s (ok a, t) u e = e
  settle-Advances s (err x, t) u e = Evolves-Advances _ _ s s (Evolves-refl _ _ s u)

-- A request that passes the validation has a budget of 1 to 10 attempts.
validate_job_input-budget :
    (env : Platform) (w c : String) (argv : List String) (cwd : String) (most : ℤ) (s : Store)
    → (validate_job_input env w c argv cwd most s).0 ≡ ok tt
    → (pos 1 ≤ℤ most) × (most ≤ℤ pos 10)
unfolding validate_job_input
validate_job_input-budget env w c argv cwd most s h = ground arith

validate_job_input_reads :
    (env : Platform) (w c : String) (argv : List String) (cwd : String) (most : ℤ) (s : Store)
    → (validate_job_input env w c argv cwd most s).1 ≡ s
unfolding validate_job_input
validate_job_input_reads env w c argv cwd most s = ground arith

guarded-Advances :
    {A B : Type 0} (hash : String) (now : ℤ) (s : Store) (q : Result A × Store)
    (f : A → Method Store B)
    → UniqueIds s.jobs
    → q.1 ≡ s
    → ((a : A) → q.0 ≡ ok a → Advances hash now s (f a s).1)
    → Advances hash now s (((λ (z : Store). q) >>= f) s).1
guarded-Advances hash now s (ok a, t) f u e h =
    subst (λ v. Advances hash now s (f a v).1) (sym e) (h a refl)
guarded-Advances hash now s (err x, t) f u e h =
    subst (Advances hash now s) (sym e) (Evolves-Advances _ _ s s (Evolves-refl _ _ s u))

-- Reading a row afterwards changes nothing.
then_get_job-Advances :
    (hash : String) (now : ℤ) (s : Store) (q : Result String × Store) (id : String)
    → Advances hash now s q.1
    → Advances hash now s (((λ (z : Store). q) >> get_job id) s).1
unfolding get_job
then_get_job-Advances hash now s (ok a, t) id e = subst (Advances hash now s) (ground arith) e
then_get_job-Advances hash now s (err x, t) id e = e

enqueue-Advances :
    (hash : String) (env : Platform) (r : Request) (fresh : String) (now : ℤ) (s : Store)
    → UniqueIds s.jobs
    → Advances hash now s (enqueue env r fresh now s).1
unfolding enqueue
enqueue-Advances hash env r fresh now s u =
    let id = job_id_or r.job_id fresh in
    guarded-Advances hash now s
      (validate_job_input env r.workspace_id r.capability_id r.argv r.cwd r.max_attempts s)
      (λ _. transaction (admit_job env r id now) >> get_job id) u
      (validate_job_input_reads env r.workspace_id r.capability_id r.argv r.cwd r.max_attempts s)
      (λ _ h. then_get_job-Advances hash now s (transaction (admit_job env r id now) s) id (
        settle-Advances hash env r id now s (admit_job env r id now s) u (
          inserted-Advances hash env r id now s (admit_job env r id now s).1 u
            (validate_job_input-budget env r.workspace_id r.capability_id r.argv r.cwd
              r.max_attempts s h)
            (jobs-admit_job hash env r id now s))))

-- One call, whether it returns or raises: keys stay unique, and every row lives on by steps of its
-- life or is a fresh job that `enqueue` has inserted.
pub perform-Advances :
    (env : Platform) (op : Operation) (now : ℤ) (s : Store)
    → UniqueIds s.jobs
    → Advances (op_hash env op) now s (perform env op now s)
unfolding perform
perform-Advances env (plans plan) now s u =
    Evolves-Advances _ _ s _ ((record_plan-Evolving "" env plan now).at s u)
perform-Advances env (enqueues r fresh) now s u = enqueue-Advances "" env r fresh now s u
perform-Advances env (claims worker seconds token) now s u =
    Evolves-Advances _ _ s _ ((claim_execution-Evolving env worker seconds now token).at s u)
perform-Advances env (renews id worker token seconds) now s u =
    Evolves-Advances _ _ s _ ((heartbeat_execution-Evolving env id worker token seconds now).at s u)
perform-Advances env (completes id worker token receipt signed) now s u =
    Evolves-Advances _ _ s _
      ((complete_execution-Evolving env id worker token receipt signed now).at s u)
perform-Advances env (fails id worker token error delay) now s u =
    Evolves-Advances _ _ s _ ((fail_execution-Evolving env id worker token error delay now).at s u)
perform-Advances env (claims_verification verifier seconds token) now s u =
    Evolves-Advances _ _ s _ ((claim_verification-Evolving env verifier seconds now token).at s u)
perform-Advances env (judges id verifier token verdict proof) now s u =
    Evolves-Advances _ _ s _
      ((complete_verification-Evolving env id verifier token verdict proof now).at s u)
