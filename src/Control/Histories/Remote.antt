-- ===== src/Control/Histories/Remote.antt =====
-- `execute_remote` and `plan` of src/voodoo_skillset/api.py, as histories of calls of the fleet store.
use voodoo_skillset.Prelude.{String, Option, none, some, List, ◌≡◌, refl, sym, subst, ℤ}
use voodoo_skillset.Json.{Json, Fields, null, bool, int, text, array, object}
use voodoo_skillset.Python.{Result, ok, err, PyError, protocol_error}
use voodoo_skillset.Python.Keeping.{Keeps, Keeps-raise}
use voodoo_skillset.Platform.{Platform}
use voodoo_skillset.Fleet.Tables.{Store}
use voodoo_skillset.Fleet.Queue.{verified_plan_exists, record_plan}
use voodoo_skillset.Fleet.Refinement.Operations.{plans, perform}
use voodoo_skillset.Control.App.{Settings, App, call_fleet}
use voodoo_skillset.Control.Histories.{
  IsReached, HasHistory, acts, some_same, Keeps-require_control, noting, Keeps-exists,
}
use voodoo_skillset.Bridge.Request.{ExecutionRequest, create}
use voodoo_skillset.Bridge.Client.{
  HttpResponse, open_body, check_url, execute, post_request, open_response, check_receipt,
}
use voodoo_skillset.Bridge.Keeping.{Keeps-validate}
use voodoo_skillset.Control.Execution.{
  Draws, Planned, plan, plan_exists, planned_id, note_execution, send_request, execute_remote,
  exchanged, note_plan, keep_plan, outcome, recast_authority, exists_in, keep_in,
}

module _ (env : Platform) (cfg : Settings) (strip : String → String) where
  recast_state :
      {A : Type 0} (q : Result A × App)
      → HasHistory env q.1
      → HasHistory env (recast_authority env cfg strip q).1
  recast_state (ok a, s) h = h
  recast_state (err e, s) h = h

  kept_exists :
      (id : String) (s : App) (o : Option Store)
      → HasHistory env s
      → HasHistory env (exists_in env cfg strip id s o).1
  kept_exists id s none h = h
  kept_exists id s (some t) h =
      recast_state (call_fleet cfg (verified_plan_exists id) s) ((Keeps-exists env cfg id).at s h)

  Keeps-plan_exists : (id : String) → Keeps (HasHistory env) (plan_exists env cfg strip id)
  unfolding plan_exists
  Keeps-plan_exists id = record { at = λ s h. kept_exists id s s.fleet h }

  Keeps-planned_id : (v : Option Json) → Keeps (HasHistory env) (planned_id env cfg strip v)
  unfolding planned_id
  Keeps-planned_id v = search (noting, Keeps-plan_exists) depth 9

  Keeps-note_execution :
      (d : Draws) (r : ExecutionRequest) (out : Fields)
      → Keeps (HasHistory env) (note_execution env cfg strip d r out)
  unfolding note_execution
  Keeps-note_execution d r out = search noting depth 9

  module _ (exchange : String → Fields → String → Option HttpResponse) (d : Draws) where
    Keeps-check_url :
        (scheme : String) (host : Option String) (secret : String)
        → Keeps (HasHistory env) (check_url scheme host secret)
    unfolding check_url
    Keeps-check_url scheme none secret = search noting depth 9
    Keeps-check_url scheme (some host) secret = search noting depth 9

    Keeps-create :
        (uuid a b c : String) (argv : List Json) (cwd by : String) (ttl now : ℤ) (nonce : String)
        → Keeps (HasHistory env) (create env uuid a b c argv cwd by ttl now nonce)
    unfolding create
    Keeps-create uuid a b c argv cwd by ttl now nonce = search (noting, Keeps-validate) depth 9

    abbrev missing : PyError
    missing = protocol_error "executor response missing signed receipt"

    Keeps-open_response :
        (secret : String) (r : ExecutionRequest) (value : Fields) (v w : Option Json)
        → Keeps
            (HasHistory env)
            (open_response env (exchanged env cfg strip exchange d) secret r value v w)
    unfolding open_response check_receipt
    Keeps-open_response secret r value none w = Keeps-raise (HasHistory env) missing
    Keeps-open_response secret r value (some null) w = Keeps-raise (HasHistory env) missing
    Keeps-open_response secret r value (some (bool b)) w = Keeps-raise (HasHistory env) missing
    Keeps-open_response secret r value (some (int n)) w = Keeps-raise (HasHistory env) missing
    Keeps-open_response secret r value (some (text t)) w = Keeps-raise (HasHistory env) missing
    Keeps-open_response secret r value (some (array vs)) w = Keeps-raise (HasHistory env) missing
    Keeps-open_response secret r value (some (object d)) none = Keeps-raise (HasHistory env) missing
    Keeps-open_response secret r value (some (object d)) (some null) =
        Keeps-raise (HasHistory env) missing
    Keeps-open_response secret r value (some (object d)) (some (bool b)) =
        Keeps-raise (HasHistory env) missing
    Keeps-open_response secret r value (some (object d)) (some (int n)) =
        Keeps-raise (HasHistory env) missing
    Keeps-open_response secret r value (some (object d)) (some (array vs)) =
        Keeps-raise (HasHistory env) missing
    Keeps-open_response secret r value (some (object d)) (some (object e)) =
        Keeps-raise (HasHistory env) missing
    Keeps-open_response secret r value (some (object d)) (some (text t)) = search noting depth 9

    Keeps-execute :
        (secret : String) (r : ExecutionRequest)
        → Keeps (HasHistory env) (execute env (exchanged env cfg strip exchange d) secret r)
    unfolding execute post_request open_body
    Keeps-execute secret r = search (noting, Keeps-open_response) depth 9

    Keeps-send_request :
        (r : ExecutionRequest) → Keeps (HasHistory env) (send_request env cfg strip exchange d r)
    unfolding send_request
    Keeps-send_request r =
        search (noting, Keeps-check_url, Keeps-execute, Keeps-note_execution) depth 9

    pub Keeps-execute_remote :
        (payload : Fields) (a : String)
        → Keeps (HasHistory env) (execute_remote env cfg strip exchange d payload a)
    unfolding execute_remote
    Keeps-execute_remote payload a =
        search (noting, Keeps-require_control, Keeps-planned_id, Keeps-create, Keeps-send_request)
          depth 14

  kept_outcome :
      (plan_dict : Fields) (q : Result (Unit {0}) × Store) (s : App)
      → IsReached env q.1
      → HasHistory env (outcome env cfg strip plan_dict q s).1
  kept_outcome plan_dict (ok u, t) s r v e = subst (IsReached env) (some_same env t v e) r
  kept_outcome plan_dict (err x, t) s r v e = subst (IsReached env) (some_same env t v e) r

  kept_plan :
      (now : ℤ) (plan_dict : Fields) (s : App) (o : Option Store)
      → o ≡ s.fleet
      → HasHistory env s
      → HasHistory env (keep_in env cfg strip now plan_dict s o).1
  unfolding perform
  kept_plan now plan_dict s none e h = h
  kept_plan now plan_dict s (some t) e h =
      kept_outcome plan_dict (record_plan env plan_dict now t) s
        (acts env (record_plan env plan_dict now) (plans plan_dict) now (λ u. refl) t (h t (sym e)))

  Keeps-keep_plan :
      (now : ℤ) (plan_dict : Fields)
      → Keeps (HasHistory env) (keep_plan env cfg strip now plan_dict)
  unfolding keep_plan
  Keeps-keep_plan now plan_dict = record { at = λ s h. kept_plan now plan_dict s s.fleet refl h }

  Keeps-note_plan : (d : Draws) (p : Planned) → Keeps (HasHistory env) (note_plan env cfg strip d p)
  unfolding note_plan
  Keeps-note_plan d p = search noting depth 9

  pub Keeps-plan :
      {R : Type 0} (read : Fields → Result R) (orchestrate : R → Result Planned) (d : Draws)
      (payload : Fields)
      → Keeps (HasHistory env) (plan env cfg strip read orchestrate d payload)
  unfolding plan
  Keeps-plan read orchestrate d payload = search (noting, Keeps-note_plan, Keeps-keep_plan) depth 12
