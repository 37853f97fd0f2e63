-- ===== src/Control/App.antt =====
-- `App` of src/voodoo_skillset/api.py: what the control plane holds, the counters of
-- src/voodoo_skillset/observability.py, and `RunStore` and `run_record` of
-- src/voodoo_skillset/execution.py. The environment variables are arguments, "" where one is not set.
use Prim.Native.String.{◌++◌ as ◌+++◌}
use voodoo_skillset.Prelude.{
  is_ascii, ℕ, suc, zero, String, Bool, true, not, Option, none, some, List, [], ◌∷◌, ◌++◌, str_eq,
  reverse, ◌||◌, if◌then◌else◌,
}
use voodoo_skillset.Json.{Fields, text, object, dict}
use voodoo_skillset.Python.{
  Result, err, Method, pure, raise_if, modify, runtime_error, permission_error, type_error, ◌>>=◌,
  ◌>>◌,
}
use voodoo_skillset.Platform.{Platform}
use voodoo_skillset.Fleet.Tables.{Store}
use voodoo_skillset.Fleet.Execution.{truncate}
use voodoo_skillset.Evidence.{EvidenceEvent, append}

-- The environment, and the split of VOODOO_EXECUTOR_URL by `urlparse`.
pub record Settings : Type 0 where
  pub control_token : String
  pub worker_token : String
  pub verifier_token : String
  pub executor_url : String
  pub executor_scheme : String
  pub executor_hostname : Option String
  pub executor_secret : String
  -- `fleet_error or ""`
  pub fleet_error : String

-- The counters, the runs and the ledger stand oldest first.
pub record App : Type 0 where
  pub fleet : Option Store
  pub metrics : List (String × ℕ)
  pub runs : List Fields
  pub ledger : List EvidenceEvent

-- `Metrics.inc`, on a `Counter`.
abbrev pub count : String → List (String × ℕ) → List (String × ℕ)
count key [] = (key, 1) ∷ []
count key ((k, n) ∷ rest) = if str_eq k key then (k, suc n) ∷ rest else (k, n) ∷ count key rest

unfoldable pub inc : String → Method App (Unit {0})
inc key s = modify (λ a. record a { metrics = count key a.metrics }) s

abbrev pub run_record : String → String → String → String → Fields → Fields
run_record uuid plan_id status timestamp metadata = dict (
    ("run_id", text ("RUN-" +++ uuid))
    ∷ ("plan_id", text plan_id)
    ∷ ("status", text status)
    ∷ ("timestamp", text timestamp)
    ∷ ("metadata", object metadata)
    ∷ [])

-- `RunStore.append`
unfoldable pub append_run : Fields → Method App (Unit {0})
append_run run s = modify (λ a. record a { runs = a.runs ++ run ∷ [] }) s

abbrev pub first_runs : ℕ → List Fields → List Fields
first_runs zero rs = []
first_runs (suc n) [] = []
first_runs (suc n) (r ∷ rs) = r ∷ first_runs n rs

-- `RunStore.list`: the newest first.
unfoldable pub list_runs : ℕ → App → List Fields
list_runs limit a = first_runs limit (reverse a.runs)

-- `self.ledger.append(kind, subject, payload)`
unfoldable pub append_event : Platform → String → String → Fields → String → Method App (Unit {0})
append_event env kind subject payload timestamp s =
    modify (λ a. record a { ledger = append env kind subject payload timestamp a.ledger }) s

-- The reason of `fleet_configuration` for a store that is not there.
unfoldable pub no_fleet : Settings → String
no_fleet cfg =
    if str_eq cfg.fleet_error "" then "durable fleet store is not configured" else cfg.fleet_error

abbrev pub with_store : {A : Type 0} → App → Result A × Store → Result A × App
with_store s (r, t) = (r, record s { fleet = some t })

abbrev pub on_store : {A : Type 0} → Settings → App → Option Store → Method Store A → Result A × App
on_store cfg s none m = (err (runtime_error (no_fleet cfg)), s)
on_store cfg s (some t) m = with_store s (m t)

-- A method of `self._require_fleet()`.
unfoldable pub call_fleet : {A : Type 0} → Settings → Method Store A → Method App A
unfolding no_fleet
call_fleet cfg m s = on_store cfg s s.fleet m

unfoldable pub require_fleet : Settings → Method App (Unit {0})
unfolding call_fleet
require_fleet cfg s = call_fleet cfg (pure tt) s

-- `text[n:]`
abbrev pub drop : ℕ → String → String
drop zero t = t
drop (suc n) String.[] = ""
drop (suc n) (String.◌∷◌ c t) = drop n t

-- `not authorization.startswith("Bearer ") or not hmac.compare_digest(authorization[7:], expected)`
unfoldable pub is_refused : {S : Type 0} → String → String → Method S Bool
unfolding truncate
is_refused authorization expected =
    if str_eq (truncate 7 authorization) "Bearer "
    then raise_if (not (is_ascii (drop 7 authorization)) || not (is_ascii expected))
        (type_error "comparing strings with non-ASCII characters is not supported")
      >> pure (not (str_eq (drop 7 authorization) expected))
    else pure true

-- `_require_bearer`
unfoldable pub require_bearer :
    {S : Type 0} → String → String → String → String → Method S (Unit {0})
unfolding is_refused
require_bearer authorization expected env_name purpose = do
  raise_if (str_eq expected "")
      (runtime_error (purpose +++ (" API disabled: " +++ (env_name +++ " is not configured"))))
  refused ← is_refused authorization expected
  raise_if refused (permission_error (purpose +++ " API authorization failed"))

unfoldable pub require_control : Settings → String → Method App (Unit {0})
unfolding require_bearer
require_control cfg authorization =
    require_bearer authorization cfg.control_token "VOODOO_CONTROL_API_TOKEN" "control"

unfoldable pub require_worker : Settings → String → Method App (Unit {0})
unfolding require_bearer
require_worker cfg authorization =
    require_bearer authorization cfg.worker_token "VOODOO_FLEET_WORKER_TOKEN" "fleet worker"

unfoldable pub require_verifier : Settings → String → Method App (Unit {0})
unfolding require_bearer
require_verifier cfg authorization =
    require_bearer authorization cfg.verifier_token "VOODOO_FLEET_VERIFIER_TOKEN" "fleet verifier"
