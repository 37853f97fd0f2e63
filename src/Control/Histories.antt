-- ===== src/Control/Histories.antt =====
-- What the routes of src/voodoo_skillset/api.py do to the fleet store: nothing but calls of its
-- operations, so that what every history of such calls guarantees holds behind the API.
pub mod Fleet
pub mod Remote
pub mod Posts
use voodoo_skillset.Prelude.{
  String, Bool, true, false, Option, none, some, List, [], ◌∷◌, ◌++◌, ◌≡◌, refl, sym, ap, ◌∙◌,
  subst, arith, inl, inr, Bool-cases, Option-cases, ℤ, str_eq, contains, ltb_ℤ, pos, if◌then◌else◌,
}
use voodoo_skillset.Json.{Json, Items, Fields, null, bool, int, text, array, object}
use voodoo_skillset.Python.{Result, ok, err, Method, pure, gets, value_error}
use voodoo_skillset.Python.Keeping.{Keeps, keeping, Keeps-pure, Keeps-raise, Keeps-bind}
use voodoo_skillset.Platform.{Platform}
use voodoo_skillset.Fleet.Tables.{Store, init_db}
use voodoo_skillset.Fleet.Queue.{Request, verified_plan_exists, enqueue, record_plan}
use voodoo_skillset.Fleet.Validation.{validate_job_input}
use voodoo_skillset.Fleet.Refinement.Operations.{
  Operation, plans, enqueues, claims, renews, completes, fails, claims_verification, judges,
  perform, run,
}
use voodoo_skillset.Fleet.Execution.{
  truncate, claim_execution, heartbeat_execution, complete_execution, fail_execution,
}
use voodoo_skillset.Fleet.Verification.{claim_verification, complete_verification}
use voodoo_skillset.Bridge.Keeping.{Keeps-lift}
use voodoo_skillset.Control.Coordinator.{
  enqueue_fleet_job, fleet_claim_execution, fleet_heartbeat_execution, fleet_complete_execution,
  fleet_fail_execution, fleet_claim_verification, fleet_complete_verification, planned, enqueue_job,
  require_secret, complete_signed, complete_proof,
}
use voodoo_skillset.Control.Values.{str_of, int_at}
use voodoo_skillset.Control.App.{
  Settings, App, on_store, with_store, call_fleet, inc, append_run, append_event, require_fleet,
  require_bearer, is_refused, require_control, require_worker, require_verifier,
}

run-append :
    (env : Platform) (ops more : List (Operation × ℤ)) (s : Store)
    → run env (ops ++ more) s ≡ run env more (run env ops s)
unfolding run
run-append env [] more s = refl
run-append env ((op, now) ∷ ops) more s = run-append env ops more (perform env op now s)

module _ (env : Platform) where
  -- The tables are those that some history of calls makes of the empty ones.
  abbrev pub IsReached : Store → Type 0
  IsReached t = (ops : List (Operation × ℤ)) × (t ≡ run env ops init_db)

  abbrev pub HasHistory : App → Type 0
  HasHistory s = (t : Store) → s.fleet ≡ some t → IsReached t

  -- A method of the store that does what an operation does.
  abbrev pub Acts : {A : Type 0} → Method Store A → Type 0
  Acts m = (t : Store) → IsReached t → IsReached (m t).1

  pub acts :
      {A : Type 0} (m : Method Store A) (op : Operation) (now : ℤ)
      → ((t : Store) → (m t).1 ≡ perform env op now t)
      → Acts m
  unfolding run
  acts m op now same t (ops, e) = (
    ops ++ (op, now) ∷ [],
    same t ∙ ap (perform env op now) e ∙ sym (run-append env ops ((op, now) ∷ []) init_db),
  )

  pub some_same : (t u : Store) → some t ≡ some u → t ≡ u
  some_same t u e = cc

  kept_on :
      {A : Type 0} (cfg : Settings) (s : App) (o : Option Store) (m : Method Store A)
      → o ≡ s.fleet
      → Acts m
      → HasHistory s
      → HasHistory (on_store cfg s o m).1
  kept_on cfg s none m e a h = h
  kept_on cfg s (some t) m e a h =
      λ u f. subst IsReached (some_same (m t).1 u f) (a t (h t (sym e)))

  pub Keeps-call :
      {A : Type 0} (cfg : Settings) (m : Method Store A)
      → Acts m
      → Keeps HasHistory (call_fleet cfg m)
  unfolding call_fleet
  Keeps-call cfg m a = record { at = λ s h. kept_on cfg s s.fleet m refl a h }

  pub Keeps-inc : (key : String) → Keeps HasHistory (inc key)
  unfolding inc
  Keeps-inc key = record { at = λ s h. h }

  pub Keeps-append_run : (r : Fields) → Keeps HasHistory (append_run r)
  unfolding append_run
  Keeps-append_run r = record { at = λ s h. h }

  pub Keeps-append_event :
      (kind subject : String) (payload : Fields) (timestamp : String)
      → Keeps HasHistory (append_event env kind subject payload timestamp)
  unfolding append_event
  Keeps-append_event kind subject payload timestamp = record { at = λ s h. h }

  module _ (cfg : Settings) where
    pub Keeps-require_fleet : Keeps HasHistory (require_fleet cfg)
    unfolding require_fleet
    Keeps-require_fleet = record { at = (Keeps-call cfg (pure tt) (λ t h. h)).at }

    pub Keeps-exists : (id : String) → Keeps HasHistory (call_fleet cfg (verified_plan_exists id))
    unfolding verified_plan_exists
    Keeps-exists id = record { at = (Keeps-call cfg (verified_plan_exists id) (λ t h. h)).at }

  pub Keeps-is_refused : (a e : String) → Keeps HasHistory (is_refused a e)
  unfolding is_refused
  Keeps-is_refused a e = elim (Bool-cases (str_eq (truncate 7 a) "Bearer ")) [
    | inl prefix ↦ rw prefix (search keeping depth 5)
    | inr other ↦ rw other (Keeps-pure HasHistory true)
  ]

  pub Keeps-require_bearer :
      (a e name purpose : String) → Keeps HasHistory (require_bearer a e name purpose)
  unfolding require_bearer
  Keeps-require_bearer a e name purpose = search (keeping, Keeps-is_refused) depth 9

  pub ruleset noting = (
    keeping, Keeps-lift, Keeps-inc, Keeps-append_run, Keeps-append_event, Keeps-require_fleet,
    Keeps-exists,
  )

  pub Keeps-require_control :
      (cfg : Settings) (a : String) → Keeps HasHistory (require_control cfg a)
  unfolding require_control
  Keeps-require_control cfg a = record {
    at = (Keeps-require_bearer a cfg.control_token "VOODOO_CONTROL_API_TOKEN" "control").at;
  }

  pub Keeps-require_worker : (cfg : Settings) (a : String) → Keeps HasHistory (require_worker cfg a)
  unfolding require_worker
  Keeps-require_worker cfg a = record {
    at = (Keeps-require_bearer a cfg.worker_token "VOODOO_FLEET_WORKER_TOKEN" "fleet worker").at;
  }

  pub Keeps-require_verifier :
      (cfg : Settings) (a : String) → Keeps HasHistory (require_verifier cfg a)
  unfolding require_verifier
  Keeps-require_verifier cfg a = record {
    at =
        (Keeps-require_bearer a cfg.verifier_token "VOODOO_FLEET_VERIFIER_TOKEN"
          "fleet verifier").at;
  }
