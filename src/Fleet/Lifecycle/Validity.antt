-- ===== src/Fleet/Lifecycle/Validity.antt =====
-- What each state of a job promises of the other columns of its row (src/voodoo_skillset/fleet.py),
-- and that every change in the life of a job keeps it.
use voodoo_skillset.Prelude.{
  String, true, Option, none, some, ◌≡◌, ◌≢◌, arith, subst, sym, ℤ, pos, ltb_ℤ, ◌≤ℤ◌,
}
use voodoo_skillset.Json.{Fields, get, as_dict, passes_all}
use voodoo_skillset.Fleet.Tables.{State, Job}
use voodoo_skillset.Fleet.Updates.{retry_state}
use voodoo_skillset.Fleet.Lifecycle.{
  IsAcceptable, Step, granted, renewed, accepted, released, expired, verification_granted,
  verification_expired, judged, Steps, here, next,
}

abbrev pub IsAccepted : Option Fields → Type 0
IsAccepted none = ⊥
IsAccepted (some receipt) = IsAcceptable receipt

-- No lease is open.
abbrev pub HasNoLease : Job → Type 0
HasNoLease j =
    (j.execution_lease_hash ≡ none)
    × (j.execution_lease_expires_at ≡ none)
    × (j.verification_lease_hash ≡ none)
    × (j.verification_lease_expires_at ≡ none)

-- A worker has run the job, and its receipt was accepted.
abbrev pub HasRun : Job → Type 0
HasRun j = (j.execution_worker_id ≢ none) × IsAccepted j.receipt

-- Somebody other than the worker has taken on the verification.
abbrev pub HasVerifier : Job → Type 0
HasVerifier j = (j.verifier_id ≢ none) × (j.verifier_id ≢ j.execution_worker_id)

-- The stored verification carries a proof whose checks are not empty and all pass.
abbrev pub IsProven : Option Fields → Type 0
IsProven none = ⊥
IsProven (some v) = passes_all (get "checks" (as_dict (get "proof" v))) ≡ true

abbrev pub IsValidIn : State → Job → Type 0
IsValidIn State.queued j =
    (j.execution_worker_id ≡ none)
    × (j.verifier_id ≡ none)
    × HasNoLease j
    × (ltb_ℤ (pos j.attempts) j.max_attempts ≡ true)
IsValidIn State.leased j =
    (j.execution_worker_id ≢ none)
    × (j.execution_lease_hash ≢ none)
    × (j.execution_lease_expires_at ≢ none)
    × (j.verifier_id ≡ none)
    × (j.verification_lease_hash ≡ none)
    × (j.verification_lease_expires_at ≡ none)
IsValidIn State.executed j = HasRun j × (j.verifier_id ≡ none) × HasNoLease j
IsValidIn State.verifying j =
    HasRun j
    × HasVerifier j
    × (j.verification_lease_hash ≢ none)
    × (j.verification_lease_expires_at ≢ none)
    × (j.execution_lease_hash ≡ none)
    × (j.execution_lease_expires_at ≡ none)
IsValidIn State.verified j = HasRun j × HasVerifier j × HasNoLease j × IsProven j.verification
IsValidIn State.blocked j = HasRun j × HasVerifier j × HasNoLease j × (j.verification ≢ none)
IsValidIn State.failed j = HasNoLease j

pub record IsValid (j : Job) : Type 0 where
  pub in_state : IsValidIn j.state j
  pub within_budget : pos j.attempts ≤ℤ j.max_attempts
  pub bounded : j.max_attempts ≤ℤ pos 10

valid_at : (st : State) (j : Job) → j.state ≡ st → IsValid j → IsValidIn st j
valid_at st j e v = subst (λ x. IsValidIn x j) e v.in_state

pub Step-IsValid : (hash : String) (now : ℤ) (j k : Job) → Step hash now j k → IsValid j → IsValid k
unfolding retry_state
Step-IsValid hash now j k (granted worker expires queued left e) v =
    rw e (ground (arith, valid_at State.queued j queued v))
Step-IsValid hash now j k (renewed old expires leased owned ends live e) v =
    rw e (ground (arith, valid_at State.leased j leased v))
Step-IsValid hash now j k (accepted old receipt sha leased owned ends live acceptable e) v =
    rw e (ground (arith, valid_at State.leased j leased v))
Step-IsValid hash now j k (released available error leased owned e) v =
    rw e (ground (arith, valid_at State.leased j leased v))
Step-IsValid hash now j k (expired old leased ends past e) v =
    rw e (ground (arith, valid_at State.leased j leased v))
Step-IsValid hash now j k (verification_granted verifier expires executed other e) v =
    let valid = valid_at State.executed j executed v in
    rw e (record {
      in_state = (
        valid.0,
        (ground arith, λ q. other (sym q)),
        ground arith,
        ground arith,
        valid.2.0,
        valid.2.1,
      );
      within_budget = v.within_budget;
      bounded = v.bounded;
    })
Step-IsValid hash now j k (verification_expired old verifying ends past e) v =
    rw e (ground (arith, valid_at State.verifying j verifying v))
Step-IsValid hash now j k
      (judged verifier old State.verified proof verifying o other owned ends live sound e) v =
    rw e (ground (arith, valid_at State.verifying j verifying v))
Step-IsValid hash now j k
      (judged verifier old State.failed proof verifying o other owned ends live sound e) v =
    rw e (ground (arith, valid_at State.verifying j verifying v))
Step-IsValid hash now j k
      (judged verifier old State.blocked proof verifying o other owned ends live sound e) v =
    rw e (ground (arith, valid_at State.verifying j verifying v))
Step-IsValid hash now j k (judged verifier old _ proof verifying o other owned ends live sound e)
      v =
    absurd sound

pub Steps-IsValid :
    (hash : String) (now : ℤ) (j k : Job) → Steps hash now j k → IsValid j → IsValid k
Steps-IsValid hash now j k here v = v
Steps-IsValid hash now j k (next {k = i} s t) v =
    Step-IsValid hash now i k t (Steps-IsValid hash now j i s v)
