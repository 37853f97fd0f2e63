-- ===== src/Fleet/Lifecycle/Exclusion.antt =====
-- What no change in the life of a job can do (src/voodoo_skillset/fleet.py): leave a final state, or
-- touch a job whose lease lives without its token.
use voodoo_skillset.Prelude.{String, true, false, some, ◌≡◌, ◌≢◌, refl, arith, subst, ℤ, ltb_ℤ}
use voodoo_skillset.Fleet.Tables.{State, Job, is_final}
use voodoo_skillset.Fleet.Lifecycle.{
  Step, granted, renewed, accepted, released, expired, verification_granted, verification_expired,
  judged, Steps, here, next,
}

-- A row that no step can leave stays as it is.
Steps-stuck :
    (hash : String) (now : ℤ) (j k : Job)
    → ((l : Job) → ¬ Step hash now j l)
    → Steps hash now j k
    → k ≡ j
Steps-stuck hash now j k stuck here = refl
Steps-stuck hash now j k stuck (next {k = i} s t) =
    absurd (stuck k (subst (λ x. Step hash now x k) (Steps-stuck hash now j i stuck s) t))

Step-final : (hash : String) (now : ℤ) (j k : Job) → is_final j.state ≡ true → ¬ Step hash now j k
Step-final hash now j k f (granted _ _ s _ _) = ground arith
Step-final hash now j k f (renewed _ _ s _ _ _ _) = ground arith
Step-final hash now j k f (accepted _ _ _ s _ _ _ _ _) = ground arith
Step-final hash now j k f (released _ _ s _ _) = ground arith
Step-final hash now j k f (expired _ s _ _ _) = ground arith
Step-final hash now j k f (verification_granted _ _ s _ _) = ground arith
Step-final hash now j k f (verification_expired _ s _ _ _) = ground arith
Step-final hash now j k f (judged _ _ _ _ s _ _ _ _ _ _ _) = ground arith

pub Steps-final :
    (hash : String) (now : ℤ) (j k : Job) → is_final j.state ≡ true → Steps hash now j k → k ≡ j
Steps-final hash now j k f = Steps-stuck hash now j k (λ l. Step-final hash now j l f)

-- The execution lease of `j`, or its verification lease, has not run out, and `hash` does not open it.
pub data IsHeld (hash : String) (now : ℤ) (j : Job) : Type 0 where
  executing :
      (old : ℤ)
      → j.state ≡ State.leased
      → j.execution_lease_expires_at ≡ some old
      → ltb_ℤ old now ≡ false
      → j.execution_lease_hash ≢ some hash
      → IsHeld hash now j
  verifying :
      (old : ℤ)
      → j.state ≡ State.verifying
      → j.verification_lease_expires_at ≡ some old
      → ltb_ℤ old now ≡ false
      → j.verification_lease_hash ≢ some hash
      → IsHeld hash now j

Step-held : (hash : String) (now : ℤ) (j k : Job) → IsHeld hash now j → ¬ Step hash now j k
Step-held hash now j k (executing _ p _ _ _) (granted _ _ s _ _) = ground arith
Step-held hash now j k (executing _ p _ _ n) (renewed _ _ s h _ _ _) = n h
Step-held hash now j k (executing _ p _ _ n) (accepted _ _ _ s h _ _ _ _) = n h
Step-held hash now j k (executing _ p _ _ n) (released _ _ s h _) = n h
Step-held hash now j k (executing o p e l _) (expired x s q r _) = ground arith
Step-held hash now j k (executing _ p _ _ _) (verification_granted _ _ s _ _) = ground arith
Step-held hash now j k (executing _ p _ _ _) (verification_expired _ s _ _ _) = ground arith
Step-held hash now j k (executing _ p _ _ _) (judged _ _ _ _ s _ _ _ _ _ _ _) = ground arith
Step-held hash now j k (verifying _ p _ _ _) (granted _ _ s _ _) = ground arith
Step-held hash now j k (verifying _ p _ _ _) (renewed _ _ s _ _ _ _) = ground arith
Step-held hash now j k (verifying _ p _ _ _) (accepted _ _ _ s _ _ _ _ _) = ground arith
Step-held hash now j k (verifying _ p _ _ _) (released _ _ s _ _) = ground arith
Step-held hash now j k (verifying _ p _ _ _) (expired _ s _ _ _) = ground arith
Step-held hash now j k (verifying _ p _ _ _) (verification_granted _ _ s _ _) = ground arith
Step-held hash now j k (verifying o p e l _) (verification_expired x s q r _) = ground arith
Step-held hash now j k (verifying _ p _ _ n) (judged _ _ _ _ s _ _ h _ _ _ _) = n h

pub Steps-held :
    (hash : String) (now : ℤ) (j k : Job) → IsHeld hash now j → Steps hash now j k → k ≡ j
Steps-held hash now j k held = Steps-stuck hash now j k (λ l. Step-held hash now j l held)
