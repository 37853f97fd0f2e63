-- ===== src/Control/Histories/Fleet.antt =====
-- The fleet routes of src/voodoo_skillset/api.py, as histories of calls of the store.
use voodoo_skillset.Prelude.{String, Bool, false, Option, none, some, List, refl, ℤ}
use voodoo_skillset.Json.{Items, Fields}
use voodoo_skillset.Python.Keeping.{Keeps, keeping, Keeps-pure}
use voodoo_skillset.Platform.{Platform}
use voodoo_skillset.Fleet.Queue.{Request, enqueue}
use voodoo_skillset.Fleet.Validation.{validate_job_input}
use voodoo_skillset.Fleet.Refinement.Operations.{
  enqueues, claims, renews, completes, fails, claims_verification, judges, perform,
}
use voodoo_skillset.Fleet.Execution.{
  claim_execution, heartbeat_execution, complete_execution, fail_execution,
}
use voodoo_skillset.Fleet.Verification.{claim_verification, complete_verification}
use voodoo_skillset.Control.Coordinator.{
  enqueue_fleet_job, fleet_claim_execution, fleet_heartbeat_execution, fleet_complete_execution,
  fleet_fail_execution, fleet_claim_verification, fleet_complete_verification, planned, enqueue_job,
  require_secret, complete_signed, complete_proof,
}
use voodoo_skillset.Control.App.{Settings, call_fleet}
use voodoo_skillset.Control.Histories.{
  HasHistory, acts, Keeps-call, Keeps-exists, Keeps-require_control, Keeps-require_worker,
  Keeps-require_verifier, noting,
}

module _ (env : Platform) where
  module _ (cfg : Settings) (now : ℤ) (fresh token : String) (payload : Fields)
      (authorization : String) where
    Keeps-enqueues :
        (r : Request) → Keeps (HasHistory env) (call_fleet cfg (enqueue env r fresh now))
    unfolding perform
    Keeps-enqueues r =
        Keeps-call env cfg (enqueue env r fresh now)
          (acts env (enqueue env r fresh now) (enqueues r fresh) now (λ t. refl))

    Keeps-claims :
        (w : String) (n : ℤ)
        → Keeps (HasHistory env) (call_fleet cfg (claim_execution env w n now token))
    unfolding perform
    Keeps-claims w n =
        Keeps-call env cfg (claim_execution env w n now token)
          (acts env (claim_execution env w n now token) (claims w n token) now (λ t. refl))

    Keeps-renews :
        (id w t : String) (n : ℤ)
        → Keeps (HasHistory env) (call_fleet cfg (heartbeat_execution env id w t n now))
    unfolding perform
    Keeps-renews id w t n =
        Keeps-call env cfg (heartbeat_execution env id w t n now)
          (acts env (heartbeat_execution env id w t n now) (renews id w t n) now (λ t. refl))

    Keeps-completes :
        (id w t : String) (r : Fields) (b : Bool)
        → Keeps (HasHistory env) (call_fleet cfg (complete_execution env id w t r b now))
    unfolding perform
    Keeps-completes id w t r b =
        Keeps-call env cfg (complete_execution env id w t r b now)
          (acts env (complete_execution env id w t r b now) (completes id w t r b) now (λ t. refl))

    Keeps-fails :
        (id w t e : String) (n : ℤ)
        → Keeps (HasHistory env) (call_fleet cfg (fail_execution env id w t e n now))
    unfolding perform
    Keeps-fails id w t e n =
        Keeps-call env cfg (fail_execution env id w t e n now)
          (acts env (fail_execution env id w t e n now) (fails id w t e n) now (λ t. refl))

    Keeps-claims_verification :
        (v : String) (n : ℤ)
        → Keeps (HasHistory env) (call_fleet cfg (claim_verification env v n now token))
    unfolding perform
    Keeps-claims_verification v n = Keeps-call env cfg (claim_verification env v n now token) (
        acts env (claim_verification env v n now token) (claims_verification v n token) now
          (λ t. refl))

    Keeps-judges :
        (id v t w : String) (r : Fields)
        → Keeps (HasHistory env) (call_fleet cfg (complete_verification env id v t w r now))
    unfolding perform
    Keeps-judges id v t w r =
        Keeps-call env cfg (complete_verification env id v t w r now)
          (acts env (complete_verification env id v t w r now) (judges id v t w r) now (λ t. refl))

    Keeps-validate_job_input :
        (w c : String) (argv : List String) (cwd : String) (n : ℤ)
        → Keeps (HasHistory env) (validate_job_input env w c argv cwd n)
    unfolding validate_job_input
    Keeps-validate_job_input w c argv cwd n = search keeping depth 9

    Keeps-planned :
        (v : Option String)
        → Keeps (HasHistory env) (planned env cfg now fresh token payload authorization v)
    unfolding planned
    Keeps-planned none = Keeps-pure (HasHistory env) false
    Keeps-planned (some id) = Keeps-exists env cfg id

    Keeps-enqueue_job :
        (argv : Items) (n m : ℤ)
        → Keeps
            (HasHistory env)
            (enqueue_job env cfg now fresh token payload authorization argv n m)
    unfolding enqueue_job
    Keeps-enqueue_job argv n m = search (noting, Keeps-validate_job_input, Keeps-enqueues) depth 9

    pub Keeps-enqueue_fleet_job :
        Keeps (HasHistory env) (enqueue_fleet_job env cfg now fresh token payload authorization)
    unfolding enqueue_fleet_job
    Keeps-enqueue_fleet_job =
        search (noting, Keeps-require_control, Keeps-planned, Keeps-enqueue_job) depth 14

    pub Keeps-fleet_claim_execution :
        Keeps (HasHistory env) (fleet_claim_execution env cfg now fresh token payload authorization)
    unfolding fleet_claim_execution
    Keeps-fleet_claim_execution = search (noting, Keeps-require_worker, Keeps-claims) depth 12

    pub Keeps-fleet_heartbeat_execution :
        Keeps
          (HasHistory env)
          (fleet_heartbeat_execution env cfg now fresh token payload authorization)
    unfolding fleet_heartbeat_execution
    Keeps-fleet_heartbeat_execution = search (noting, Keeps-require_worker, Keeps-renews) depth 12

    Keeps-complete_signed :
        Keeps (HasHistory env) (complete_signed env cfg now fresh token payload authorization)
    unfolding complete_signed require_secret
    Keeps-complete_signed = search (noting, Keeps-completes) depth 12

    pub Keeps-fleet_complete_execution :
        Keeps
          (HasHistory env)
          (fleet_complete_execution env cfg now fresh token payload authorization)
    unfolding fleet_complete_execution
    Keeps-fleet_complete_execution =
        search (noting, Keeps-require_worker, Keeps-complete_signed) depth 12

    pub Keeps-fleet_fail_execution :
        Keeps (HasHistory env) (fleet_fail_execution env cfg now fresh token payload authorization)
    unfolding fleet_fail_execution
    Keeps-fleet_fail_execution = search (noting, Keeps-require_worker, Keeps-fails) depth 12

    pub Keeps-fleet_claim_verification :
        Keeps
          (HasHistory env)
          (fleet_claim_verification env cfg now fresh token payload authorization)
    unfolding fleet_claim_verification
    Keeps-fleet_claim_verification =
        search (noting, Keeps-require_verifier, Keeps-claims_verification) depth 12

    Keeps-complete_proof :
        Keeps (HasHistory env) (complete_proof env cfg now fresh token payload authorization)
    unfolding complete_proof
    Keeps-complete_proof = search (noting, Keeps-judges) depth 12

    pub Keeps-fleet_complete_verification :
        Keeps
          (HasHistory env)
          (fleet_complete_verification env cfg now fresh token payload authorization)
    unfolding fleet_complete_verification
    Keeps-fleet_complete_verification =
        search (noting, Keeps-require_verifier, Keeps-complete_proof) depth 12
