-- ===== src/Control/Scopes/Routes.antt =====
-- The routes of src/voodoo_skillset/api.py: a request without the token of its scope changes nothing.
use voodoo_skillset.Prelude.{
  String, Bool, true, false, Option, none, some, ◌≡◌, ◌≢◌, refl, sym, ap, ◌∙◌, arith, inl, inr,
  Bool-cases, ℤ, ltb_ℤ, pos, str_eq, eq_iff, contains, subst,
}
use voodoo_skillset.Json.{Json, Fields, null, bool, int, text, array, object}
use voodoo_skillset.Python.{
  PyError, Result, err, permission_error, runtime_error, type_error, value_error, key_error,
  protocol_error, auth_error, policy_error, integrity_error, overflow_error,
}
use voodoo_skillset.Platform.{Platform}
use voodoo_skillset.Control.App.{Settings, App, require_control, require_worker, require_verifier}
use voodoo_skillset.Control.Coordinator.{
  enqueue_fleet_job, fleet_claim_execution, fleet_heartbeat_execution, fleet_complete_execution,
  fleet_fail_execution, fleet_claim_verification, fleet_complete_verification,
}
use voodoo_skillset.Control.Execution.{execute_remote}
use voodoo_skillset.Control.Handler.{
  Post, Outside, paths, or_empty, Response, route, post_value, post_sized, do_post, respond,
  error_response,
}
use voodoo_skillset.Control.Scopes.{
  Scope, control, worker, verifier, token_of, scope_of, IsDenied, Raises, Raises-then,
  require_bearer-Raises,
}

module _ (cfg : Settings) (a : String) (s : App) where
  require_control-Raises : IsDenied a cfg.control_token → Raises s (require_control cfg a s)
  unfolding require_control
  require_control-Raises d =
      require_bearer-Raises a cfg.control_token "VOODOO_CONTROL_API_TOKEN" "control" s d

  require_worker-Raises : IsDenied a cfg.worker_token → Raises s (require_worker cfg a s)
  unfolding require_worker
  require_worker-Raises d =
      require_bearer-Raises a cfg.worker_token "VOODOO_FLEET_WORKER_TOKEN" "fleet worker" s d

  require_verifier-Raises : IsDenied a cfg.verifier_token → Raises s (require_verifier cfg a s)
  unfolding require_verifier
  require_verifier-Raises d =
      require_bearer-Raises a cfg.verifier_token "VOODOO_FLEET_VERIFIER_TOKEN" "fleet verifier" s d

module _ (env : Platform) (cfg : Settings) (now : ℤ) (fresh token : String) (payload : Fields)
    (a : String) (s : App) where
  enqueue_fleet_job_refused :
      IsDenied a cfg.control_token
      → Raises s (enqueue_fleet_job env cfg now fresh token payload a s)
  unfolding enqueue_fleet_job
  enqueue_fleet_job_refused d = search (Raises-then, require_control-Raises)

  fleet_claim_execution_refused :
      IsDenied a cfg.worker_token
      → Raises s (fleet_claim_execution env cfg now fresh token payload a s)
  unfolding fleet_claim_execution
  fleet_claim_execution_refused d = search (Raises-then, require_worker-Raises)

  fleet_heartbeat_execution_refused :
      IsDenied a cfg.worker_token
      → Raises s (fleet_heartbeat_execution env cfg now fresh token payload a s)
  unfolding fleet_heartbeat_execution
  fleet_heartbeat_execution_refused d = search (Raises-then, require_worker-Raises)

  fleet_complete_execution_refused :
      IsDenied a cfg.worker_token
      → Raises s (fleet_complete_execution env cfg now fresh token payload a s)
  unfolding fleet_complete_execution
  fleet_complete_execution_refused d = search (Raises-then, require_worker-Raises)

  fleet_fail_execution_refused :
      IsDenied a cfg.worker_token
      → Raises s (fleet_fail_execution env cfg now fresh token payload a s)
  unfolding fleet_fail_execution
  fleet_fail_execution_refused d = search (Raises-then, require_worker-Raises)

  fleet_claim_verification_refused :
      IsDenied a cfg.verifier_token
      → Raises s (fleet_claim_verification env cfg now fresh token payload a s)
  unfolding fleet_claim_verification
  fleet_claim_verification_refused d = search (Raises-then, require_verifier-Raises)

  fleet_complete_verification_refused :
      IsDenied a cfg.verifier_token
      → Raises s (fleet_complete_verification env cfg now fresh token payload a s)
  unfolding fleet_complete_verification
  fleet_complete_verification_refused d = search (Raises-then, require_verifier-Raises)

-- A route asks for the token of its scope.
IsDenied-at :
    (cfg : Settings) (authorization path t : String) (r scope : Scope)
    → scope_of t ≡ some r
    → str_eq path t ≡ true
    → scope_of path ≡ some scope
    → IsDenied authorization (token_of cfg scope)
    → IsDenied authorization (token_of cfg r)
IsDenied-at cfg authorization path t r scope e q h d =
    subst (λ x. IsDenied authorization (token_of cfg x))
      (same_scope scope r (sym h ∙ (ap scope_of ((eq_iff path t).0 q) ∙ e))) d
  where
    same_scope : (a b : Scope) → some a ≡ some b → a ≡ b
    same_scope a b e = cc

module _ (env : Platform) (cfg : Settings) (outside : Outside) (p : Post) where
  execute_remote_refused :
      (payload : Fields) (s : App)
      → IsDenied p.authorization cfg.control_token
      → Raises s
          (execute_remote env cfg outside.strip outside.exchange p.draws payload p.authorization s)
  unfolding execute_remote
  execute_remote_refused payload s d = search (Raises-then, require_control-Raises)

  abbrev at : String → Bool
  at t = str_eq p.path t

  module _ (scope : Scope) (s : App) (h : scope_of p.path ≡ some scope)
      (d : IsDenied p.authorization (token_of cfg scope)) where
    denied :
        (t : String) (r : Scope)
        → scope_of t ≡ some r
        → at t ≡ true
        → IsDenied p.authorization (token_of cfg r)
    denied t r e q = IsDenied-at cfg p.authorization p.path t r scope e q h d

    not_plan : at "/api/plan" ≡ false
    not_plan = elim (Bool-cases (at "/api/plan")) [
      | inl q ↦ absurd (no_scope (sym (ap scope_of ((eq_iff p.path "/api/plan").0 q)) ∙ h))
      | inr other ↦ other
    ]
      where
        no_scope : none ≡ some scope → ⊥
        no_scope e = ground arith

    route_refused : (payload : Fields) → Raises s (route env cfg outside p payload s)
    unfolding route
    route_refused payload =
        rw (not_plan, route)
          (elim (Bool-cases (at "/api/executor/execute")) [
            | inl q ↦
                rw q
                  (execute_remote_refused payload s (denied "/api/executor/execute" control refl q))
            | inr n0 ↦ rw n0 (elim (Bool-cases (at "/api/fleet/jobs")) [
              | inl q ↦ rw q (
                  enqueue_fleet_job_refused env cfg p.draws.now p.job_id p.lease_token payload
                    p.authorization s (denied "/api/fleet/jobs" control refl q))
              | inr n1 ↦ rw n1 (elim (Bool-cases (at "/api/fleet/claim")) [
                | inl q ↦ rw q (
                    fleet_claim_execution_refused env cfg p.draws.now p.job_id p.lease_token payload
                      p.authorization s (denied "/api/fleet/claim" worker refl q))
                | inr n2 ↦ rw n2 (elim (Bool-cases (at "/api/fleet/heartbeat")) [
                  | inl q ↦ rw q (
                      fleet_heartbeat_execution_refused env cfg p.draws.now p.job_id p.lease_token
                        payload p.authorization s (denied "/api/fleet/heartbeat" worker refl q))
                  | inr n3 ↦ rw n3 (elim (Bool-cases (at "/api/fleet/complete")) [
                    | inl q ↦ rw q (
                        fleet_complete_execution_refused env cfg p.draws.now p.job_id p.lease_token
                          payload p.authorization s (denied "/api/fleet/complete" worker refl q))
                    | inr n4 ↦ rw n4 (elim (Bool-cases (at "/api/fleet/fail")) [
                      | inl q ↦ rw q (
                          fleet_fail_execution_refused env cfg p.draws.now p.job_id p.lease_token
                            payload p.authorization s (denied "/api/fleet/fail" worker refl q))
                      | inr n5 ↦ rw n5 (elim (Bool-cases (at "/api/fleet/verify/claim")) [
                        | inl q ↦ rw q (
                            fleet_claim_verification_refused env cfg p.draws.now p.job_id
                              p.lease_token payload p.authorization s
                              (denied "/api/fleet/verify/claim" verifier refl q))
                        | inr n6 ↦ rw n6 (elim (Bool-cases (at "/api/fleet/verify/complete")) [
                          | inl q ↦
                              fleet_complete_verification_refused env cfg p.draws.now p.job_id
                                p.lease_token payload p.authorization s
                                (denied "/api/fleet/verify/complete" verifier refl q)
                          | inr n7 ↦ absurd (ground (arith, h))
                        ])
                      ])
                    ])
                  ])
                ])
              ])
            ])
          ])

    value_refused : (v : Option Json) → Raises s (post_value env cfg outside p v s)
    unfolding post_value
    value_refused none = (value_error "JSONDecodeError", refl)
    value_refused (some (object payload)) = rw not_plan (route_refused payload)
    value_refused (some null) = (value_error "JSON object required", refl)
    value_refused (some (bool b)) = (value_error "JSON object required", refl)
    value_refused (some (int n)) = (value_error "JSON object required", refl)
    value_refused (some (text t)) = (value_error "JSON object required", refl)
    value_refused (some (array vs)) = (value_error "JSON object required", refl)

-- The state is as it was, and the response is not that of success.
abbrev pub IsRefused : App → Response × App → Type 0
IsRefused s q = (q.1 ≡ s) × ((v : Fields) → q.0 ≢ some (200, v))

error_not_success : (e : PyError) (v : Fields) → error_response e ≢ some (200, v)
unfolding error_response
error_not_success (permission_error t) v h = absurd (ground arith)
error_not_success (protocol_error t) v h = absurd (ground arith)
error_not_success (auth_error t) v h = absurd (ground arith)
error_not_success (policy_error t) v h = absurd (ground arith)
error_not_success (runtime_error t) v h = absurd (ground arith)
error_not_success (value_error t) v h = absurd (ground arith)
error_not_success (key_error t) v h = absurd (ground arith)
error_not_success (type_error t) v h = absurd (ground arith)
error_not_success (integrity_error t) v h = absurd (ground arith)
error_not_success (overflow_error t) v h = absurd (ground arith)

raised-IsRefused : (s : App) (q : Result Fields × App) → Raises s q → IsRefused s (respond q)
unfolding respond
raised-IsRefused s q (x, e) =
    subst (λ r. IsRefused s (respond r)) (sym e) (refl, error_not_success x)

sized-IsRefused :
    (env : Platform) (cfg : Settings) (outside : Outside) (p : Post) (scope : Scope) (s : App)
    → scope_of p.path ≡ some scope
    → IsDenied p.authorization (token_of cfg scope)
    → (size : Option ℤ) → IsRefused s (post_sized env cfg outside p size s)
unfolding post_sized
sized-IsRefused env cfg outside p scope s h d none =
    raised-IsRefused s (err (value_error "invalid literal for int()"), s)
      (value_error "invalid literal for int()", refl)
sized-IsRefused env cfg outside p scope s h d (some n) = elim (Bool-cases (ltb_ℤ (pos 2097152) n)) [
  | inl large ↦ rw large (refl, λ v e. ground arith)
  | inr small ↦ rw small (
      raised-IsRefused s
        (post_value env cfg outside p (env.parse_json (or_empty env cfg outside p (p.body n))) s)
        (value_refused env cfg outside p scope s h d
          (env.parse_json (or_empty env cfg outside p (p.body n)))))
]

-- A request to a route with a scope that does not carry the token of this scope, or for which none is
-- set, changes nothing of what the control plane holds, and its response is not that of success.
pub unauthorized-IsRefused :
    (env : Platform) (cfg : Settings) (outside : Outside) (p : Post) (scope : Scope) (s : App)
    → scope_of p.path ≡ some scope
    → IsDenied p.authorization (token_of cfg scope)
    → IsRefused s (do_post env cfg outside p s)
unfolding do_post
unauthorized-IsRefused env cfg outside p scope s h d = elim (Bool-cases (contains p.path paths)) [
  | inr other ↦ rw other (refl, λ v e. ground arith)
  | inl known ↦
      rw known (sized-IsRefused env cfg outside p scope s h d (env.parse_int p.content_length))
]
