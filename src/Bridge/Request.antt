-- ===== src/Bridge/Request.antt =====
-- `ExecutionRequest` of src/voodoo_skillset/executor_bridge.py. The clock and the identifiers that
-- `uuid4` makes are arguments.
pub mod Laws
use Prim.Native.String.{◌++◌}
use voodoo_skillset.Prelude.{
  String, Bool, true, false, not, ◌||◌, ◌&&◌, Option, none, some, List, [], ◌∷◌, ℤ, pos, ◌+ℤ◌,
  ltb_ℤ, ltb, length, is_empty, any_of, text_length, str_eq, starts_with, if◌then◌else◌,
}
use voodoo_skillset.Json.{
  Json, Items, Fields, null, bool, int, text, array, object, nil, cons, end, field, dict, get,
  get_or,
}
use voodoo_skillset.Python.{
  PyError, Result, Method, value_error, key_error, type_error, protocol_error, auth_error,
  policy_error, ok, err, pure, raise, or_raise, raise_if, ◌>>=◌, ◌>>◌,
}
use voodoo_skillset.Platform.{Platform, text_of}
use voodoo_skillset.Fleet.Validation.{
  is_workspace_id, is_capability_id, is_bad_cwd, is_bad_argument,
}

-- What `from_dict` reads of "argv" and "allowed_hosts" can be any values.
pub record ExecutionRequest : Type 0 where
  pub operation_id : String
  pub plan_id : String
  pub capability_id : String
  pub operation_class : String
  pub workspace_id : String
  pub argv : List Json
  pub cwd : String
  pub network_default : String
  pub allowed_hosts : List Json
  pub issued_at : ℤ
  pub expires_at : ℤ
  pub nonce : String
  pub requested_by : String

-- `tuple(v)`: of a text its characters, of a dict its keys.
abbrev pub items_list : Items → List Json
items_list nil = []
items_list (cons v vs) = v ∷ items_list vs

abbrev pub keys_list : Fields → List Json
keys_list end = []
keys_list (field k v rest) = text k ∷ keys_list rest

abbrev pub characters : String → List Json
characters String.[] = []
characters (String.◌∷◌ c s) = text (String.◌∷◌ c String.[]) ∷ characters s

abbrev pub list_items : List Json → Items
list_items [] = nil
list_items (v ∷ vs) = cons v (list_items vs)

unfoldable pub tuple_of : Json → Option (List Json)
tuple_of (array vs) = some (items_list vs)
tuple_of (text t) = some (characters t)
tuple_of (object d) = some (keys_list d)
tuple_of _ = none

-- `int(v)`.
unfoldable pub int_of : Platform → Json → Result ℤ
int_of env (int n) = ok n
int_of env (bool b) = ok (if b then pos 1 else pos 0)
int_of env (text t) = elim (env.parse_int t) [
  | none ↦ err (value_error "invalid literal for int()")
  | some n ↦ ok n
]
int_of env _ = err (type_error "int() argument must be a string or a number")

-- A string argument that is not empty and not longer than 4096.
unfoldable pub is_bad_value : Json → Bool
is_bad_value (text t) = is_bad_argument t
is_bad_value _ = true

-- `except (KeyError, TypeError, ValueError) as exc: raise ExecutorProtocolError(...) from exc`; the
-- text of `exc` is left out of the message.
abbrev pub as_invalid_request : PyError → PyError
as_invalid_request (key_error t) = protocol_error "invalid execution request"
as_invalid_request (type_error t) = protocol_error "invalid execution request"
as_invalid_request (value_error t) = protocol_error "invalid execution request"
as_invalid_request e = e

module _ {S : Type 0} where
  unfoldable pub lift : {A : Type 0} → Result A → Method S A
  lift (ok a) = pure a
  lift (err e) = raise e

  -- `value[k]`.
  unfoldable pub item : String → Fields → Method S Json
  item k value = or_raise (get k value) (key_error k)

  -- `str(value[k])`.
  unfoldable pub str_item : Platform → String → Fields → Method S String
  unfolding item
  str_item env k value = do v ← item k value; pure (text_of env v)

  -- `int(value[k])`.
  unfoldable pub int_item : Platform → String → Fields → Method S ℤ
  unfolding item lift
  int_item env k value = do v ← item k value; lift (int_of env v)

  unfoldable pub tuple_item : Json → Method S (List Json)
  tuple_item v = or_raise (tuple_of v) (type_error "object is not iterable")

  abbrev pub recast : {A : Type 0} → Result A × S → Result A × S
  recast (ok a, s) = (ok a, s)
  recast (err e, s) = (err (as_invalid_request e), s)

  unfoldable pub read_request : Platform → Fields → Method S ExecutionRequest
  unfolding str_item int_item tuple_item item
  read_request env value = do
    operation_id ← str_item env "operation_id" value
    plan_id ← str_item env "plan_id" value
    capability_id ← str_item env "capability_id" value
    operation_class ← str_item env "operation_class" value
    workspace_id ← str_item env "workspace_id" value
    argv_value ← item "argv" value
    argv ← tuple_item argv_value
    network_default ← str_item env "network_default" value
    allowed_hosts ← tuple_item (get_or "allowed_hosts" (array nil) value)
    issued_at ← int_item env "issued_at" value
    expires_at ← int_item env "expires_at" value
    nonce ← str_item env "nonce" value
    requested_by ← str_item env "requested_by" value
    pure (record {
      operation_id = operation_id;
      plan_id = plan_id;
      capability_id = capability_id;
      operation_class = operation_class;
      workspace_id = workspace_id;
      argv = argv;
      cwd = text_of env (get_or "cwd" (text ".") value);
      network_default = network_default;
      allowed_hosts = allowed_hosts;
      issued_at = issued_at;
      expires_at = expires_at;
      nonce = nonce;
      requested_by = requested_by;
    })

  unfoldable pub from_dict : Platform → Fields → Method S ExecutionRequest
  unfolding read_request
  from_dict env value s = recast (read_request env value s)

  unfoldable pub validate : Platform → ExecutionRequest → ℤ → Method S (Unit {0})
  validate env r current = do
    raise_if (not (starts_with "OP-" r.operation_id) || ltb 64 (text_length r.operation_id))
        (protocol_error "invalid operation_id")
    raise_if (str_eq r.plan_id "" || ltb 128 (text_length r.plan_id))
        (protocol_error "invalid plan_id")
    raise_if (not (is_capability_id r.capability_id)) (protocol_error "invalid capability_id")
    raise_if (not (str_eq r.operation_class "COMPUTE"))
        (policy_error "executor-v1 authorizes COMPUTE only")
    raise_if (not (is_workspace_id r.workspace_id)) (policy_error "invalid workspace_id")
    raise_if (is_empty r.argv || ltb 64 (length r.argv))
        (protocol_error "argv must contain 1..64 arguments")
    raise_if (any_of is_bad_value r.argv) (protocol_error "invalid argv")
    raise_if (is_bad_cwd env r.cwd) (policy_error "cwd must stay relative to the workspace")
    raise_if (not (str_eq r.network_default "DENY"))
        (policy_error "executor-v1 requires deny-by-default network")
    raise_if (not (is_empty r.allowed_hosts))
        (policy_error "selective egress is unavailable in executor-v1")
    raise_if (str_eq r.nonce "" || ltb 128 (text_length r.nonce)) (protocol_error "invalid nonce")
    raise_if (str_eq r.requested_by "" || ltb 128 (text_length r.requested_by))
        (protocol_error "invalid requested_by")
    raise_if
        (ltb_ℤ r.expires_at (r.issued_at +ℤ pos 1) || ltb_ℤ (r.issued_at +ℤ pos 120) r.expires_at)
        (auth_error "request TTL outside allowed window")
    raise_if (ltb_ℤ (current +ℤ pos 5) r.issued_at) (auth_error "request issued in the future")
    raise_if (ltb_ℤ r.expires_at current) (auth_error "request expired")

-- `uuid` and `fresh` are the texts of the two `uuid4().hex`.
unfoldable pub new_request :
    String
    → String
    → String
    → String
    → List Json
    → String
    → String
    → ℤ
    → ℤ
    → String
    → ExecutionRequest
new_request uuid plan_id capability_id workspace_id argv cwd requested_by ttl_seconds current
      fresh =
    record {
      operation_id = "OP-" ++ uuid;
      plan_id = plan_id;
      capability_id = capability_id;
      operation_class = "COMPUTE";
      workspace_id = workspace_id;
      argv = argv;
      cwd = cwd;
      network_default = "DENY";
      allowed_hosts = [];
      issued_at = current;
      expires_at = current +ℤ ttl_seconds;
      nonce = fresh;
      requested_by = requested_by;
    }

unfoldable pub create :
    {S : Type 0}
    → Platform
    → String
    → String
    → String
    → String
    → List Json
    → String
    → String
    → ℤ
    → ℤ
    → String
    → Method S ExecutionRequest
unfolding validate
create env uuid plan_id capability_id workspace_id argv cwd requested_by ttl_seconds current fresh =
    let r =
      new_request uuid plan_id capability_id workspace_id argv cwd requested_by ttl_seconds current
        fresh in
    raise_if (ltb_ℤ ttl_seconds (pos 1) || ltb_ℤ (pos 120) ttl_seconds)
      (value_error "ttl_seconds must be between 1 and 120")
    >> (validate env r current >> pure r)

unfoldable pub to_dict : ExecutionRequest → Fields
to_dict r = dict (
    ("operation_id", text r.operation_id)
    ∷ ("plan_id", text r.plan_id)
    ∷ ("capability_id", text r.capability_id)
    ∷ ("operation_class", text r.operation_class)
    ∷ ("workspace_id", text r.workspace_id)
    ∷ ("argv", array (list_items r.argv))
    ∷ ("cwd", text r.cwd)
    ∷ ("network_default", text r.network_default)
    ∷ ("allowed_hosts", array (list_items r.allowed_hosts))
    ∷ ("issued_at", int r.issued_at)
    ∷ ("expires_at", int r.expires_at)
    ∷ ("nonce", text r.nonce)
    ∷ ("requested_by", text r.requested_by)
    ∷ [])
