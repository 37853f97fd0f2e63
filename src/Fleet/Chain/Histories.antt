-- ===== src/Fleet/Chain/Histories.antt =====
-- The event chain under all operations of the fleet store (src/voodoo_skillset/fleet.py), and under
-- any history of calls.
use voodoo_skillset.Prelude.{
  String, Bool, Option, none, some, List, [], ◌∷◌, ◌++◌, ◌≡◌, refl, arith, ℤ, ap,
}
use voodoo_skillset.Json.{Fields}
use voodoo_skillset.Platform.{Platform}
use voodoo_skillset.Fleet.Tables.{State, Job, Plan, Event, Store, init_db}
use voodoo_skillset.Fleet.Events.{new_event, expected_hash, verify_event_chain}
use voodoo_skillset.Fleet.Queue.{
  update_job, write_plan, record_plan, insert_job, admit_job, Request, enqueue, reap_row, reap_rows,
  reap_expired,
}
use voodoo_skillset.Fleet.Updates.{retry_state, expire_execution, expire_verification}
use voodoo_skillset.Fleet.Execution.{
  grant_candidate, claim_row, lease_of, claim_execution, live_row, heartbeat_execution,
  check_receipt, store_receipt, complete_execution, releasable_row, release_row, fail_execution,
}
use voodoo_skillset.Fleet.Verification.{
  grant_verifiable, claim_verifiable, claim_verification, check_verdict, verifying_row, judge_row,
  store_verdict, complete_verification,
}
use voodoo_skillset.Fleet.Chain.{IsChain, verify_event_chain-IsChain}
use voodoo_skillset.Fleet.Chain.Appending.{
  Extends, same, more, Extends-trans, Appending-record_event, Appending, Appending-reads,
  Appending-bind, appending,
}
use voodoo_skillset.Fleet.Refinement.Operations.{
  Operation, plans, enqueues, claims, renews, completes, fails, claims_verification, judges,
  perform, run,
}

module _ (env : Platform) where
  live_row-Appending :
      (id worker token : String) (now : ℤ) → Appending env (live_row env id worker token now)
  unfolding live_row
  live_row-Appending id worker token now = Appending-reads env _ (λ s. ground arith)

  heartbeat_execution-Appending :
      (id worker token : String) (seconds now : ℤ)
      → Appending env (heartbeat_execution env id worker token seconds now)
  unfolding heartbeat_execution
  heartbeat_execution-Appending id worker token seconds now =
      search (appending, live_row-Appending) depth 9

  check_receipt-Appending :
      (receipt : Fields) (signed : Bool) → Appending env (check_receipt receipt signed)
  unfolding check_receipt
  check_receipt-Appending receipt signed = search appending depth 9

  store_receipt-Appending :
      (id worker token : String) (receipt : Fields) (now : ℤ)
      → Appending env (store_receipt env id worker token receipt now)
  unfolding store_receipt
  store_receipt-Appending id worker token receipt now =
      search (appending, live_row-Appending) depth 9

  complete_execution-Appending :
      (id worker token : String) (receipt : Fields) (signed : Bool) (now : ℤ)
      → Appending env (complete_execution env id worker token receipt signed now)
  unfolding complete_execution
  complete_execution-Appending id worker token receipt signed now =
      search (appending, check_receipt-Appending, store_receipt-Appending) depth 9

  releasable_row-Appending :
      (id worker token : String) → Appending env (releasable_row env id worker token)
  unfolding releasable_row
  releasable_row-Appending id worker token = Appending-reads env _ (λ s. ground arith)

  release_row-Appending :
      (id worker error : String) (delay now : ℤ) (row : Job)
      → Appending env (release_row env id worker error delay now row)
  unfolding release_row
  release_row-Appending id worker error delay now row = search appending depth 9

  fail_execution-Appending :
      (id worker token error : String) (delay now : ℤ)
      → Appending env (fail_execution env id worker token error delay now)
  unfolding fail_execution
  fail_execution-Appending id worker token error delay now =
      search (appending, releasable_row-Appending, release_row-Appending) depth 9

  reap_row-Appending : (now : ℤ) (row : Job) → Appending env (reap_row env now row)
  unfolding reap_row
  reap_row-Appending now row = record { at = λ s. reaped s row.state }
    where
      reaped :
          (s : Store) (st : State)
          → Extends env s.events (reap_row env now (record row { state = st }) s).1.events
      reaped s State.leased =
          (Appending-record_event env (some row.job_id) "EXECUTION_LEASE_EXPIRED"
              "fleet-coordinator" _ now).at
            (update_job row.job_id
              (expire_execution (retry_state (record row { state = State.leased })) now) s).1
      reaped s _ =
          (Appending-record_event env (some row.job_id) "VERIFICATION_LEASE_EXPIRED"
              "fleet-coordinator" _ now).at
            (update_job row.job_id (expire_verification now) s).1

  reap_rows-Appending : (now : ℤ) (rows : List Job) → Appending env (reap_rows env now rows)
  unfolding reap_rows
  reap_rows-Appending now [] = search appending
  reap_rows-Appending now (row ∷ rows) =
      Appending-bind env _ _ (reap_row-Appending now row) (λ _. reap_rows-Appending now rows)

  reap_expired-Appending : (now : ℤ) → Appending env (reap_expired env now)
  unfolding reap_expired
  reap_expired-Appending now = search (appending, reap_rows-Appending)

  lease_of-Appending :
      (owner token : String) (expires : ℤ) (o : Option String)
      → Appending env (lease_of owner token expires o)
  unfolding lease_of
  lease_of-Appending owner token expires none = search appending
  lease_of-Appending owner token expires (some id) = search appending

  grant_candidate-Appending :
      (worker token : String) (expires now : ℤ) (o : Option Job)
      → Appending env (grant_candidate env worker token expires now o)
  unfolding grant_candidate
  grant_candidate-Appending worker token expires now none = search appending
  grant_candidate-Appending worker token expires now (some row) = search appending depth 9

  claim_row-Appending :
      (worker : String) (seconds now : ℤ) (token : String)
      → Appending env (claim_row env worker seconds now token)
  unfolding claim_row
  claim_row-Appending worker seconds now token =
      search (appending, reap_expired-Appending, grant_candidate-Appending) depth 9

  claim_execution-Appending :
      (worker : String) (seconds now : ℤ) (token : String)
      → Appending env (claim_execution env worker seconds now token)
  unfolding claim_execution
  claim_execution-Appending worker seconds now token =
      search (appending, claim_row-Appending, lease_of-Appending) depth 9

  grant_verifiable-Appending :
      (verifier token : String) (expires now : ℤ) (o : Option Job)
      → Appending env (grant_verifiable env verifier token expires now o)
  unfolding grant_verifiable
  grant_verifiable-Appending verifier token expires now none = search appending
  grant_verifiable-Appending verifier token expires now (some row) = search appending depth 9

  claim_verifiable-Appending :
      (verifier : String) (seconds now : ℤ) (token : String)
      → Appending env (claim_verifiable env verifier seconds now token)
  unfolding claim_verifiable
  claim_verifiable-Appending verifier seconds now token =
      search (appending, reap_expired-Appending, grant_verifiable-Appending) depth 9

  claim_verification-Appending :
      (verifier : String) (seconds now : ℤ) (token : String)
      → Appending env (claim_verification env verifier seconds now token)
  unfolding claim_verification
  claim_verification-Appending verifier seconds now token =
      search (appending, claim_verifiable-Appending, lease_of-Appending) depth 9

  verifying_row-Appending :
      (id verifier token : String) (now : ℤ)
      → Appending env (verifying_row env id verifier token now)
  unfolding verifying_row
  verifying_row-Appending id verifier token now = Appending-reads env _ (λ s. ground arith)

  check_verdict-Appending :
      (verdict : String) (proof : Fields) → Appending env (check_verdict verdict proof)
  unfolding check_verdict
  check_verdict-Appending verdict proof = search appending depth 9

  judge_row-Appending :
      (id verifier : String) (v : State) (proof : Fields) (now : ℤ) (row : Job)
      → Appending env (judge_row env id verifier v proof now row)
  unfolding judge_row
  judge_row-Appending id verifier v proof now row = search appending depth 9

  store_verdict-Appending :
      (id verifier token : String) (proof : Fields) (now : ℤ) (v : State)
      → Appending env (store_verdict env id verifier token proof now v)
  unfolding store_verdict
  store_verdict-Appending id verifier token proof now v =
      search (appending, verifying_row-Appending, judge_row-Appending) depth 9

  complete_verification-Appending :
      (id verifier token verdict : String) (proof : Fields) (now : ℤ)
      → Appending env (complete_verification env id verifier token verdict proof now)
  unfolding complete_verification
  complete_verification-Appending id verifier token verdict proof now =
      search (appending, check_verdict-Appending, store_verdict-Appending) depth 9

  insert_job-Appending : (j : Job) → Appending env (insert_job j)
  unfolding insert_job
  insert_job-Appending j = Appending-reads env _ (λ s. ground arith)

  admit_job-Appending :
      (r : Request) (id : String) (now : ℤ) → Appending env (admit_job env r id now)
  unfolding admit_job
  admit_job-Appending r id now = search (appending, insert_job-Appending) depth 9

  enqueue-Appending :
      (r : Request) (fresh : String) (now : ℤ) → Appending env (enqueue env r fresh now)
  unfolding enqueue
  enqueue-Appending r fresh now = search (appending, admit_job-Appending) depth 9

  write_plan-Appending : (p : Plan) → Appending env (write_plan p)
  unfolding write_plan
  write_plan-Appending p = Appending-reads env _ (λ s. refl)

  record_plan-Appending : (plan : Fields) (now : ℤ) → Appending env (record_plan env plan now)
  unfolding record_plan
  record_plan-Appending plan now = search (appending, write_plan-Appending) depth 9

  -- The events that one call leaves extend the events that it has met.
  perform-Extends :
      (op : Operation) (now : ℤ) (s : Store) → Extends env s.events (perform env op now s).events
  unfolding perform
  perform-Extends (plans plan) now s = (record_plan-Appending plan now).at s
  perform-Extends (enqueues r fresh) now s = (enqueue-Appending r fresh now).at s
  perform-Extends (claims worker seconds token) now s =
      (claim_execution-Appending worker seconds now token).at s
  perform-Extends (renews id worker token seconds) now s =
      (heartbeat_execution-Appending id worker token seconds now).at s
  perform-Extends (completes id worker token receipt signed) now s =
      (complete_execution-Appending id worker token receipt signed now).at s
  perform-Extends (fails id worker token error delay) now s =
      (fail_execution-Appending id worker token error delay now).at s
  perform-Extends (claims_verification verifier seconds token) now s =
      (claim_verification-Appending verifier seconds now token).at s
  perform-Extends (judges id verifier token verdict proof) now s =
      (complete_verification-Appending id verifier token verdict proof now).at s

  run-Extends :
      (ops : List (Operation × ℤ)) (s : Store) → Extends env s.events (run env ops s).events
  unfolding run
  run-Extends [] s = same
  run-Extends ((op, now) ∷ ops) s =
      Extends-trans env (perform-Extends op now s) (run-Extends ops (perform env op now s))

  Extends-IsChain : {es fs : List Event} → Extends env es fs → IsChain env es → IsChain env fs
  unfolding new_event expected_hash
  Extends-IsChain same c = c
  Extends-IsChain (more job kind actor payload now e) c = (refl, refl, Extends-IsChain e c)

  Extends-append : {es fs : List Event} → Extends env es fs → (new : List Event) × (fs ≡ new ++ es)
  Extends-append same = ([], refl)
  Extends-append (more {fs = fs} job kind actor payload now e) =
      let (new, p) = Extends-append e in
      (
        new_event env job kind actor payload now fs ∷ new,
        ap (λ l. new_event env job kind actor payload now fs ∷ l) p,
      )

-- After any history of calls from the empty tables, failed ones among them, the verification of the
-- event chain succeeds.
pub run-verifies :
    (env : Platform) (ops : List (Operation × ℤ))
    → verify_event_chain env (run env ops init_db) ≡ none
run-verifies env ops =
    (verify_event_chain-IsChain env (run env ops init_db)).1
      (Extends-IsChain env (run-Extends env ops init_db) tt)

-- No call removes or rewrites an event: what a history leaves is what it has met, with events before
-- it, the newest first.
pub run_append_only :
    (env : Platform) (ops : List (Operation × ℤ)) (s : Store)
    → (new : List Event) × ((run env ops s).events ≡ new ++ s.events)
run_append_only env ops s = Extends-append env (run-Extends env ops s)
