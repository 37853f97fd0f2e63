-- ===== src/Fleet/Tests.antt =====
-- The fleet store of src/voodoo_skillset/fleet.py on concrete calls.
use voodoo_skillset.Prelude.{
  length, String, true, Option, none, some, List, [], ◌∷◌, ◌≡◌, ◌≢◌, ◌++◌, ◌↔◌, ◌⊎◌, refl, arith, ℤ,
  pos, ◌+ℤ◌, eq_iff,
}
use voodoo_skillset.Json.{Fields, text, int, bool, object, dict, end}
use voodoo_skillset.Python.{ok}
use voodoo_skillset.Platform.Sample.{sample}
use voodoo_skillset.Fleet.Tables.{State, Job, Event, Store, find, init_db}
use voodoo_skillset.Fleet.Updates.{queued_job}
use voodoo_skillset.Fleet.Queue.{Request, reap_expired, enqueue, record_plan}
use voodoo_skillset.Fleet.Validation.{
  is_workspace_id, is_capability_id, is_bad_argument, is_bad_cwd,
}
use voodoo_skillset.Fleet.Events.{verify_event_chain}
use voodoo_skillset.Fleet.Lifecycle.Validity.{IsAccepted, IsProven}
use voodoo_skillset.Fleet.Lifecycle.Exclusion.{IsHeld}
use voodoo_skillset.Fleet.Guarantees.{
  IsSound, run-IsSound, verified_independently, final_frozen, lease_exclusive,
}
use voodoo_skillset.Fleet.Chain.{
  IsChain, verify_event_chain-IsChain, SameTexts, Collision, chain_tamper_evident,
}
use voodoo_skillset.Fleet.Chain.Histories.{run-verifies, run_append_only}
use voodoo_skillset.Fleet.Reports.{stats, total, total-stats}
use voodoo_skillset.Fleet.Selection.{Claimed, claim_takes_best}
use voodoo_skillset.Fleet.Execution.{claim_row, token_hash, claim_execution, complete_execution}
use voodoo_skillset.Fleet.Verification.{
  verification_dict, claim_verification, complete_verification,
}
use voodoo_skillset.Fleet.Refinement.Operations.{
  Operation, plans, enqueues, claims, completes, claims_verification, judges, perform, run,
  Advances, perform-Advances,
}

abbrev plan : Fields
plan = dict (("plan_id", text "P") ∷ ("status", text "VERIFIED_PLAN") ∷ [])

abbrev request : Request
request = record {
  plan_id = "P";
  workspace_id = "w";
  capability_id = "c";
  argv = "true" ∷ [];
  cwd = ".";
  verification_spec = none;
  workspace_before_sha256 = none;
  priority = pos 100;
  max_attempts = pos 3;
  job_id = some "J";
}

abbrev receipt : Fields
receipt = dict (
    ("verification_status", text "UNKNOWN")
    ∷ ("result", object (dict (("status", text "EXECUTED") ∷ ("exit_code", int (pos 0)) ∷ [])))
    ∷ [])

abbrev proof : Fields
proof = dict (("checks", object (dict (("exit_code", bool true) ∷ []))) ∷ [])

abbrev queued_history : List (Operation × ℤ)
queued_history = (plans plan, pos 1) ∷ (enqueues request "F", pos 2) ∷ []

abbrev leased_history : List (Operation × ℤ)
leased_history =
    (plans plan, pos 1)
    ∷ (enqueues request "F", pos 2)
    ∷ (claims "worker" (pos 30) "t", pos 10)
    ∷ []

-- A job from its plan to its verdict, with a claim that fails, by its own worker, on the way.
abbrev history : List (Operation × ℤ)
history =
    (plans plan, pos 1)
    ∷ (enqueues request "F", pos 2)
    ∷ (claims "worker" (pos 30) "t", pos 10)
    ∷ (completes "J" "worker" "t" receipt true, pos 20)
    ∷ (claims_verification "worker" (pos 30) "u", pos 21)
    ∷ (claims_verification "verifier" (pos 30) "v", pos 22)
    ∷ (judges "J" "verifier" "v" "VERIFIED" proof, pos 30)
    ∷ []

abbrev queued : Job
queued = queued_job "J" "P" "w" "c" ("true" ∷ []) "." end none (pos 100) (pos 3) (pos 2)

abbrev leased : Job
leased = record queued {
  state = State.leased;
  execution_worker_id = some "worker";
  execution_lease_hash = some "ht";
  execution_lease_expires_at = some (pos 40);
  attempts = 1;
  updated_at = pos 10;
}

abbrev verified : Job
verified = record leased {
  state = State.verified;
  execution_lease_hash = none;
  execution_lease_expires_at = none;
  receipt = some receipt;
  receipt_sha256 = some "h";
  verifier_id = some "verifier";
  verification = some (verification_dict State.verified "verifier" proof (some "h") (pos 30));
  updated_at = pos 30;
}

leased_row : find "J" (run sample leased_history init_db).jobs ≡ some leased
unfolding run find ◌+ℤ◌ claim_execution enqueue is_workspace_id is_capability_id is_bad_argument
    is_bad_cwd record_plan
leased_row = refl

verified_row : find "J" (run sample history init_db).jobs ≡ some verified
unfolding run find ◌+ℤ◌ claim_execution enqueue is_workspace_id is_capability_id is_bad_argument
    is_bad_cwd record_plan complete_verification claim_verification complete_execution
verified_row = refl

abbrev held_hash : Option String
held_hash = some "ht"

other_token : held_hash ≢ some (token_hash sample "x")
other_token h = absurd (ground (arith, eq_iff "ht" "hx"))

abbrev queued_store : Store
queued_store = run sample queued_history init_db

abbrev leased_store : Store
leased_store = run sample leased_history init_db

leased-IsChain : IsChain sample leased_store.events
leased-IsChain =
    (verify_event_chain-IsChain sample leased_store).0 (run-verifies sample leased_history)

claimed_id : (claim_row sample "worker" (pos 30) (pos 10) "t" queued_store).0 ≡ ok (some "J")
unfolding run enqueue is_workspace_id is_capability_id is_bad_argument is_bad_cwd record_plan
    claim_row
claimed_id = refl

perform-Advances_example :
    Advances "ht"
      (pos 10)
      queued_store
      (perform sample (claims "worker" (pos 30) "t") (pos 10) queued_store)
perform-Advances_example =
    perform-Advances sample (claims "worker" (pos 30) "t") (pos 10) queued_store
      (run-IsSound sample queued_history).unique

run-IsSound_example : IsSound (run sample history init_db)
run-IsSound_example = run-IsSound sample history

verified_independently_example :
    (verified.execution_worker_id ≢ none)
    × IsAccepted verified.receipt
    × (verified.verifier_id ≢ none)
    × (verified.verifier_id ≢ verified.execution_worker_id)
    × IsProven verified.verification
verified_independently_example =
    verified_independently sample history "J" verified verified_row refl

final_frozen_example :
    find "J"
      (run sample ((claims "late" (pos 30) "x", pos 99) ∷ []) (run sample history init_db)).jobs
    ≡ some verified
final_frozen_example =
    final_frozen sample ((claims "late" (pos 30) "x", pos 99) ∷ []) (run sample history init_db) "J"
      verified (run-IsSound sample history).unique verified_row refl

lease_exclusive_example :
    find "J" (perform sample (claims "other" (pos 30) "x") (pos 12) leased_store).jobs ≡ some leased
lease_exclusive_example =
    lease_exclusive sample (claims "other" (pos 30) "x") (pos 12) leased_store "J" leased
      (run-IsSound sample leased_history).unique leased_row
      (IsHeld.executing (pos 40) refl refl refl other_token)

verify_event_chain-IsChain_example :
    (verify_event_chain sample leased_store ≡ none) ↔ IsChain sample leased_store.events
verify_event_chain-IsChain_example = verify_event_chain-IsChain sample leased_store

chain_tamper_evident_example :
    SameTexts sample leased_store.events leased_store.events ⊎ Collision sample
chain_tamper_evident_example =
    chain_tamper_evident sample (λ t. t) (λ e. refl) leased_store.events leased_store.events
      leased-IsChain leased-IsChain refl refl

run-verifies_example : verify_event_chain sample (run sample history init_db) ≡ none
run-verifies_example = run-verifies sample history

run_append_only_example :
    (new : List Event) × ((run sample history leased_store).events ≡ new ++ leased_store.events)
run_append_only_example = run_append_only sample history leased_store

claim_takes_best_example :
    (t : Store) × (reap_expired sample (pos 10) queued_store ≡ (ok tt, t))
    × Claimed sample "worker"
        (pos 30)
        (pos 10)
        "t"
        "J"
        t
        (claim_row sample "worker" (pos 30) (pos 10) "t" queued_store).1
claim_takes_best_example =
    claim_takes_best sample "worker" (pos 30) (pos 10) "t" queued_store "J"
      (run-IsSound sample queued_history).unique claimed_id

total-stats_example : total (stats leased_store).counts ≡ length leased_store.jobs
total-stats_example = total-stats leased_store
