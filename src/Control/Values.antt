-- ===== src/Control/Values.antt =====
-- What src/voodoo_skillset/api.py reads of a payload, and the dicts that it sends for jobs and leases.
use voodoo_skillset.Prelude.{
  String, Bool, true, false, Option, none, some, List, [], ◌∷◌, ℤ, pos, if◌then◌else◌,
}
use voodoo_skillset.Json.{
  Json, Items, Fields, null, bool, int, text, array, object, nil, cons, field, texts, dict, get_or,
  text?,
}
use voodoo_skillset.Python.{Result, ok, err, Method, or_raise, value_error, type_error}
use voodoo_skillset.Platform.{Platform, text_of}
use voodoo_skillset.Fleet.Tables.{Job}
use voodoo_skillset.Fleet.Queue.{state_name}
use voodoo_skillset.Fleet.Execution.{Lease}
use voodoo_skillset.Bridge.Request.{lift, int_of}
use voodoo_skillset.Control.App.{App}

abbrev pub int? : Option ℤ → Json
int? none = null
int? (some n) = int n

abbrev pub dict? : Option Fields → Json
dict? none = null
dict? (some d) = object d

-- The text, the array or the dict that a value of the payload is.
abbrev pub text_value : Option Json → Option String
text_value (some (text t)) = some t
text_value _ = none

abbrev pub array_value : Option Json → Option Items
array_value (some (array vs)) = some vs
array_value _ = none

abbrev pub dict_value : Option Json → Option Fields
dict_value (some (object d)) = some d
dict_value _ = none

-- `isinstance(spec, dict) and spec`
abbrev pub is_spec : Option Json → Bool
is_spec (some (object (field k v rest))) = true
is_spec _ = false

-- A value that has to be a text.
abbrev pub required_text : Option Json → String → Method App String
required_text v message = or_raise (text_value v) (value_error message)

abbrev pub required_array : Option Json → Method App Items
required_array v = or_raise (array_value v) (value_error "argv must be an array")

module _ (env : Platform) where
  -- A column that holds JSON text.
  abbrev pub json_text? : Option Fields → Json
  json_text? none = null
  json_text? (some d) = text (env.dumps d)

  -- The dict that `_decode_job` makes of a row.
  unfoldable pub job_dict : Job → Fields
  job_dict j = dict (
      ("job_id", text j.job_id)
      ∷ ("plan_id", text j.plan_id)
      ∷ ("workspace_id", text j.workspace_id)
      ∷ ("capability_id", text j.capability_id)
      ∷ ("cwd", text j.cwd)
      ∷ ("workspace_before_sha256", text? j.workspace_before_sha256)
      ∷ ("state", text (state_name j.state))
      ∷ ("priority", int j.priority)
      ∷ ("available_at", int j.available_at)
      ∷ ("created_at", int j.created_at)
      ∷ ("updated_at", int j.updated_at)
      ∷ ("attempts", int (pos j.attempts))
      ∷ ("max_attempts", int j.max_attempts)
      ∷ ("execution_worker_id", text? j.execution_worker_id)
      ∷ ("execution_lease_expires_at", int? j.execution_lease_expires_at)
      ∷ ("receipt_json", json_text? j.receipt)
      ∷ ("receipt_sha256", text? j.receipt_sha256)
      ∷ ("verifier_id", text? j.verifier_id)
      ∷ ("verification_lease_expires_at", int? j.verification_lease_expires_at)
      ∷ ("verification_json", json_text? j.verification)
      ∷ ("last_error", text? j.last_error)
      ∷ ("argv", array (texts j.argv))
      ∷ ("verification_spec", object j.verification_spec)
      ∷ ("receipt", dict? j.receipt)
      ∷ ("verification", dict? j.verification)
      ∷ [])

  unfoldable pub lease_dict : Option Lease → Fields
  unfolding job_dict
  lease_dict none = dict (("status", text "IDLE") ∷ ("lease", null) ∷ [])
  lease_dict (some lease) = dict (
      ("status", text "LEASED")
      ∷ (
        "lease",
        object (
            dict (
              ("job_id", text lease.job_id)
              ∷ ("owner_id", text lease.owner_id)
              ∷ ("token", text lease.token)
              ∷ ("expires_at", int lease.expires_at)
              ∷ ("job", object (job_dict lease.job))
              ∷ [])),
      )
      ∷ [])

  -- `str(payload.get(key, default))` and `int(payload.get(key, default))`
  abbrev pub str_of : String → String → Fields → String
  str_of key default payload = text_of env (get_or key (text default) payload)

  abbrev pub int_at : String → ℤ → Fields → Method App ℤ
  int_at key default payload = lift (int_of env (get_or key (int default) payload))

  -- A value that is no text is refused like an empty text.
  abbrev pub arguments : Items → List String
  arguments nil = []
  arguments (cons (text t) vs) = t ∷ arguments vs
  arguments (cons v vs) = "" ∷ arguments vs

  -- What SQLite stores in a column of type TEXT, and the error of its binding for a list or a dict.
  unfoldable pub column_text : Option Json → Result (Option String)
  column_text none = ok none
  column_text (some null) = ok none
  column_text (some (text t)) = ok (some t)
  column_text (some (int n)) = ok (some (env.str (int n)))
  column_text (some (bool b)) = ok (some (if b then "1" else "0"))
  column_text (some _) = err (type_error "Error binding parameter: type is not supported")
