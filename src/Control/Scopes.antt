-- ===== src/Control/Scopes.antt =====
-- The scopes of the tokens of src/voodoo_skillset/api.py: which token each route asks for, and when
-- `_require_bearer` refuses.
pub mod Routes
use Prim.Native.String.{◌++◌ as ◌+++◌}
use Prim.Native.String.append
use voodoo_skillset.Prelude.{
  is_ascii, ℕ, zero, suc, String, Bool, true, false, not, Option, none, some, ◌≡◌, ◌≢◌, refl, sym,
  ap, ◌∙◌, arith, ◌⊎◌, inl, inr, Bool-cases, ℤ, ltb_ℤ, pos, str_eq, eq_iff, contains, if◌then◌else◌,
  subst, ◌||◌,
}
use voodoo_skillset.Json.{Json, Fields, null, bool, int, text, array, object}
use voodoo_skillset.Python.{
  PyError, Result, err, Method, permission_error, runtime_error, type_error, value_error, key_error,
  protocol_error, auth_error, policy_error, integrity_error, ◌>>=◌,
}
use voodoo_skillset.Platform.{Platform}
use voodoo_skillset.Fleet.Execution.{truncate}
use voodoo_skillset.Control.App.{
  Settings, App, drop, require_bearer, is_refused, require_control, require_worker,
  require_verifier,
}
use voodoo_skillset.Control.Coordinator.{
  enqueue_fleet_job, fleet_claim_execution, fleet_heartbeat_execution, fleet_complete_execution,
  fleet_fail_execution, fleet_claim_verification, fleet_complete_verification,
}
use voodoo_skillset.Control.Execution.{execute_remote}
use voodoo_skillset.Control.Handler.{
  Post, Outside, paths, or_empty, Response, route, post_value, post_sized, do_post, respond,
  error_response,
}

pub data Scope : Type 0 where
  control worker verifier : Scope

abbrev pub token_of : Settings → Scope → String
token_of cfg control = cfg.control_token
token_of cfg worker = cfg.worker_token
token_of cfg verifier = cfg.verifier_token

-- The scope of each route; planning asks for no token.
abbrev pub scope_of : String → Option Scope
scope_of path =
    if str_eq path "/api/executor/execute"
    then some control
    else if str_eq path "/api/fleet/jobs"
    then some control
    else if str_eq path "/api/fleet/claim"
    then some worker
    else if str_eq path "/api/fleet/heartbeat"
    then some worker
    else if str_eq path "/api/fleet/complete"
    then some worker
    else if str_eq path "/api/fleet/fail"
    then some worker
    else if str_eq path "/api/fleet/verify/claim"
    then some verifier
    else if str_eq path "/api/fleet/verify/complete"
    then some verifier
    else none

-- No token is set, or another authorization than the token's was sent.
abbrev pub IsDenied : String → String → Type 0
IsDenied authorization expected = (expected ≡ "") ⊎ (authorization ≢ "Bearer " +++ expected)

truncate-drop : (n : ℕ) (t : String) → truncate n t +++ drop n t ≡ t
unfolding truncate
truncate-drop zero t = append.nil t
truncate-drop (suc n) String.[] = append.nil ""
truncate-drop (suc n) (String.◌∷◌ c t) =
    append.cons c (truncate n t) (drop n t) ∙ ap (String.◌∷◌ c) (truncate-drop n t)

bearer_split :
    (a e : String)
    → str_eq (truncate 7 a) "Bearer " ≡ true
    → str_eq (drop 7 a) e ≡ true
    → a ≡ "Bearer " +++ e
bearer_split a e h k =
    sym (truncate-drop 7 a)
    ∙ ap (λ x. x +++ drop 7 a) ((eq_iff (truncate 7 a) "Bearer ").0 h)
    ∙ ap (λ x. "Bearer " +++ x) ((eq_iff (drop 7 a) e).0 k)

-- The method raises at once.
abbrev pub Raises : {S A : Type 0} → S → Result A × S → Type 0
Raises s q = (x : PyError) × (q ≡ (err x, s))

pub Raises-then :
    {S A B : Type 0} (m : Method S A) (f : A → Method S B) (s : S)
    → Raises s (m s)
    → Raises s ((m >>= f) s)
Raises-then {S = S} m f s (x, e) =
    subst (λ q. Raises s (((λ (z : S). q) >>= f) s)) (sym e) (x, refl)

module _ {S : Type 0} (a e name purpose : String) (s : S) where
  compared :
      a ≢ "Bearer " +++ e → str_eq (truncate 7 a) "Bearer " ≡ true → str_eq (drop 7 a) e ≡ false
  compared d h = elim (Bool-cases (str_eq (drop 7 a) e)) [
    | inl same ↦ absurd (d (bearer_split a e h same))
    | inr other ↦ other
  ]

  abbrev disabled : PyError
  disabled = runtime_error (purpose +++ (" API disabled: " +++ (name +++ " is not configured")))

  abbrev refused : PyError
  refused = permission_error (purpose +++ " API authorization failed")

  pub require_bearer-Raises : IsDenied a e → Raises s (require_bearer a e name purpose s)
  unfolding require_bearer is_refused
  require_bearer-Raises (inl h) = (disabled, rw h refl)
  require_bearer-Raises (inr d) = elim (Bool-cases (str_eq e "")) [
    | inl empty ↦ (disabled, rw empty refl)
    | inr set ↦ rw set (elim (Bool-cases (str_eq (truncate 7 a) "Bearer ")) [
      | inl prefix ↦ rw prefix (elim (Bool-cases (not (is_ascii (drop 7 a)) || not (is_ascii e))) [
        | inl odd ↦
            (type_error "comparing strings with non-ASCII characters is not supported", rw odd refl)
        | inr ascii ↦ (refused, rw (ascii, compared d prefix) refl)
      ])
      | inr other ↦ (refused, rw other refl)
    ])
  ]
