-- ===== src/Control/Handler.antt =====
-- `do_POST` of src/voodoo_skillset/api.py: its routes, and the status of each response. The path is
-- that of `urlparse`, the two headers are "" and "0" where they are not sent.
use voodoo_skillset.Prelude.{
  ℕ, String, Bool, false, not, ◌&&◌, Option, none, some, List, [], ◌∷◌, ℤ, pos, ltb_ℤ, str_eq,
  contains, if◌then◌else◌,
}
use voodoo_skillset.Json.{Json, Fields, text, object, dict, get}
use voodoo_skillset.Python.{
  PyError, Result, ok, err, Method, raise, value_error, permission_error, runtime_error, key_error,
  protocol_error, auth_error, policy_error,
}
use voodoo_skillset.Platform.{Platform}
use voodoo_skillset.Bridge.Client.{HttpResponse}
use voodoo_skillset.Control.App.{Settings, App}
use voodoo_skillset.Control.Coordinator.{
  enqueue_fleet_job, fleet_claim_execution, fleet_heartbeat_execution, fleet_complete_execution,
  fleet_fail_execution, fleet_claim_verification, fleet_complete_verification,
}
use voodoo_skillset.Control.Execution.{message_of, Draws, Planned, plan, execute_remote}

-- A request: what is sent, and what the call draws while it is answered.
pub record Post : Type 0 where
  pub path : String
  pub authorization : String
  pub content_length : String
  -- what the connection yields for `rfile.read(n)`
  pub body : ℤ → String
  pub draws : Draws
  pub job_id : String
  pub lease_token : String

-- What stands outside this module: the executor, the planner, and Python's `str.strip`.
pub record Outside : Type 1 where
  pub exchange : String → Fields → String → Option HttpResponse
  pub Arguments : Type 0
  pub read : Fields → Result Arguments
  pub orchestrate : Arguments → Result Planned
  pub strip : String → String

abbrev pub paths : List String
paths =
    "/api/plan" ∷ "/api/executor/execute" ∷ "/api/fleet/jobs" ∷ "/api/fleet/claim"
    ∷ "/api/fleet/heartbeat" ∷ "/api/fleet/complete" ∷ "/api/fleet/fail" ∷ "/api/fleet/verify/claim"
    ∷ "/api/fleet/verify/complete" ∷ []

-- The status and the body of a response; none where the exception is not caught and no response is sent.
abbrev pub Response : Type 0
Response = Option (ℕ × Fields)

abbrev pub failure : ℕ → String → Response
failure status message = some (status, dict (("error", text message) ∷ []))

-- The `except` clauses.
unfoldable pub error_response : PyError → Response
error_response (permission_error t) = failure 403 t
error_response (protocol_error t) = failure 502 t
error_response (auth_error t) = failure 502 t
error_response (policy_error t) = failure 502 t
error_response (runtime_error t) = failure 503 t
error_response (value_error t) = failure 400 t
error_response (key_error t) = failure 400 (message_of (key_error t))
error_response _ = none

unfoldable pub respond : Result Fields × App → Response × App
unfolding error_response
respond (ok value, s) = (some (200, value), s)
respond (err e, s) = (error_response e, s)

module _ (env : Platform) (cfg : Settings) (outside : Outside) (p : Post) where
  -- `routes[path](payload)`, for a path of `routes`.
  unfoldable pub route : Fields → Method App Fields
  route payload =
      if str_eq p.path "/api/plan"
      then plan env cfg outside.strip outside.read outside.orchestrate p.draws payload
      else if str_eq p.path "/api/executor/execute"
      then execute_remote env cfg outside.strip outside.exchange p.draws payload p.authorization
      else if str_eq p.path "/api/fleet/jobs"
      then enqueue_fleet_job env cfg p.draws.now p.job_id p.lease_token payload p.authorization
      else if str_eq p.path "/api/fleet/claim"
      then fleet_claim_execution env cfg p.draws.now p.job_id p.lease_token payload p.authorization
      else if str_eq p.path "/api/fleet/heartbeat"
      then fleet_heartbeat_execution env cfg p.draws.now p.job_id p.lease_token payload
          p.authorization
      else if str_eq p.path "/api/fleet/complete"
      then fleet_complete_execution env cfg p.draws.now p.job_id p.lease_token payload
          p.authorization
      else if str_eq p.path "/api/fleet/fail"
      then fleet_fail_execution env cfg p.draws.now p.job_id p.lease_token payload p.authorization
      else if str_eq p.path "/api/fleet/verify/claim"
      then fleet_claim_verification env cfg p.draws.now p.job_id p.lease_token payload
          p.authorization
      else fleet_complete_verification env cfg p.draws.now p.job_id p.lease_token payload
          p.authorization

  -- `isinstance(payload.get("goal"), str) and payload["goal"].strip()`
  abbrev pub has_goal : Option Json → Bool
  has_goal (some (text t)) = not (str_eq (outside.strip t) "")
  has_goal _ = false

  unfoldable pub post_value : Option Json → Method App Fields
  post_value none = raise (value_error "JSONDecodeError")
  post_value (some (object payload)) =
      if str_eq p.path "/api/plan" && not (has_goal (get "goal" payload))
      then raise (value_error "goal is required")
      else route payload
  post_value (some v) = raise (value_error "JSON object required")

  -- `self.rfile.read(n) or b"{}"`
  abbrev pub or_empty : String → String
  or_empty t = if str_eq t "" then "{}" else t

  unfoldable pub post_sized : Option ℤ → App → Response × App
  post_sized none s = respond (err (value_error "invalid literal for int()"), s)
  post_sized (some n) s =
      if ltb_ℤ (pos 2097152) n
      then (failure 413 "request too large", s)
      else respond (post_value (env.parse_json (or_empty (p.body n))) s)

  unfoldable pub do_post : App → Response × App
  do_post s =
      if contains p.path paths
      then post_sized (env.parse_int p.content_length) s
      else (failure 404 "not found", s)
