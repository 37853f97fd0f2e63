-- ===== src/Bridge/Tests.antt =====
-- The executor bridge of src/voodoo_skillset/executor_bridge.py on concrete calls.
use Prim.Native.String.{◌++◌}
use voodoo_skillset.Prelude.{
  String, Option, true, false, some, List, [], ◌∷◌, ◌≡◌, ◌≢◌, refl, sym, ◌∙◌, str_eq, is_ascii,
  if◌then◌else◌, arith, pos, ◌+ℤ◌,
}
use voodoo_skillset.Json.{Fields, text, object, dict}
use voodoo_skillset.Python.{ok}
use voodoo_skillset.Platform.{Platform}
use voodoo_skillset.Fleet.Validation.{
  is_workspace_id, is_capability_id, is_bad_argument, is_bad_cwd,
}
use voodoo_skillset.Bridge.Request.{
  ExecutionRequest, from_dict, to_dict, validate, is_bad_value, lift, tuple_of, int_of,
}
use voodoo_skillset.Bridge.Request.Laws.{from_dict-to_dict, IsPermitted, validate-IsPermitted}
use voodoo_skillset.Bridge.Signing.{
  secret_bytes, signature_of, verify_signature, compare_digest, payload_sha256,
}
use voodoo_skillset.Bridge.Replay.{claim}
use voodoo_skillset.Bridge.Service.{
  ExecutorService, Serving, Run, run_of, execute_signed, signed, new_receipt,
}
use voodoo_skillset.Bridge.Client.{execute}
use voodoo_skillset.Bridge.Served.{Served, execute_signed-Served}
use voodoo_skillset.Bridge.Claims.{Call, answer, serve}
use voodoo_skillset.Bridge.Once.{executed_once}
use voodoo_skillset.Bridge.Trust.{served_by, accepted, client_accepts_service}

abbrev sample : Platform
sample = record {
  sha256 = λ t. "h" ++ t;
  hmac_sha256 = λ k t. k ++ t;
  dumps = λ d. "";
  str = λ v. "";
  parse_int = λ t. Option.none;
  parse_json = λ t. Option.none;
  is_absolute = λ t. false;
  parts = λ t. [];
}

abbrev service : ExecutorService
service = record {
  executor_id = "x";
  shared_secret = "0123456789abcdef0123456789abcdef";
  workspace_root = "/w";
  resolve = λ id. "/w/" ++ id;
  parent = λ p. "/w";
  is_dir = λ p. true;
  execute = λ capability payload envelope. ok (dict (("status", text "EXECUTED") ∷ []));
  available = (true, "");
}

abbrev request : ExecutionRequest
request = record {
  operation_id = "OP-1";
  plan_id = "P";
  capability_id = "c";
  operation_class = "COMPUTE";
  workspace_id = "w";
  argv = text "true" ∷ [];
  cwd = ".";
  network_default = "DENY";
  allowed_hosts = [];
  issued_at = pos 10;
  expires_at = pos 70;
  nonce = "n";
  requested_by = "control-plane";
}

abbrev idle : Serving
idle = record { nonces = []; runs = [] }

abbrev signature : String
signature = signature_of sample (to_dict request) service.shared_secret

abbrev call : Call
call = record {
  value = to_dict request;
  signature = signature;
  now = pos 11;
  claimed_at = pos 11;
  issued_at = pos 12;
}

abbrev receipt : Fields
receipt =
    new_receipt sample service request (to_dict request) (dict (("status", text "EXECUTED") ∷ []))
      (pos 12)

abbrev response : Fields
response = signed sample service receipt

-- The hypotheses of the theorems hold for the sample.
reads : (rows : Serving) → from_dict sample (to_dict request) rows ≡ (ok request, rows)
reads rows = from_dict-to_dict sample request rows

answered : (answer sample service call idle).0 ≡ ok response
unfolding execute_signed to_dict validate is_workspace_id is_capability_id is_bad_argument
    is_bad_cwd is_bad_value ◌+ℤ◌ lift verify_signature compare_digest from_dict tuple_of int_of
    claim
answered = refl

validated : (validate sample request (pos 11) idle).0 ≡ ok tt
unfolding validate is_workspace_id is_capability_id is_bad_argument is_bad_cwd is_bad_value ◌+ℤ◌
validated = refl

long_secret : secret_bytes service.shared_secret ≡ ok service.shared_secret
unfolding secret_bytes
long_secret = refl

validate-IsPermitted_example : IsPermitted sample request (pos 11)
validate-IsPermitted_example = validate-IsPermitted sample request (pos 11) idle validated

from_dict-to_dict_example : from_dict sample (to_dict request) idle ≡ (ok request, idle)
from_dict-to_dict_example = from_dict-to_dict sample request idle

execute_signed-Served_example :
    Served sample service
      (to_dict request)
      signature
      (pos 11)
      (pos 11)
      (pos 12)
      idle
      (execute_signed sample service (to_dict request) signature (pos 11) (pos 11) (pos 12) idle).1
      response
execute_signed-Served_example =
    execute_signed-Served sample service (to_dict request) signature (pos 11) (pos 11) (pos 12) idle
      response answered

ran : (answer sample service call idle).1.runs ≡ run_of sample service request "/w/w" ∷ []
unfolding execute_signed to_dict validate is_workspace_id is_capability_id is_bad_argument
    is_bad_cwd is_bad_value ◌+ℤ◌ lift verify_signature compare_digest from_dict tuple_of int_of
    claim
ran = refl

some_run : (answer sample service call idle).1.runs ≢ idle.runs
some_run h = absurd (cons_nil _ _ (sym ran ∙ h))
  where
    cons_nil : (r : Run) (rs : List Run) → r ∷ rs ≢ []
    cons_nil r rs e = ground arith

executed_once_example :
    let later = serve sample service (call ∷ []) (answer sample service call idle).1 in
    ((answer sample service call later).1 ≡ later)
    × ((answer sample service call later).0 ≢ ok response)
executed_once_example =
    executed_once sample service call idle request reads some_run (call ∷ []) (omega arith, tt) call
      request response reads refl (omega arith)

-- Where the texts of the request and of the response are read back.
abbrev wired : Platform
wired = record sample {
  parse_int = λ t. some (pos 1);
  parse_json = λ t. if str_eq t "" then some (object (to_dict request)) else some (object response);
}

abbrev length_text : Fields → String
length_text d = "1"

abbrev encode : Fields → String
encode d = "{}"

abbrev executed : Serving
executed = record { nonces = ("n", pos 70) ∷ []; runs = run_of sample service request "/w/w" ∷ [] }

executes :
    execute_signed wired service
      (to_dict request)
      (signature_of wired (to_dict request) service.shared_secret)
      (pos 11)
      (pos 11)
      (pos 12)
      idle
    ≡ (ok response, executed)
unfolding execute_signed to_dict validate is_workspace_id is_capability_id is_bad_argument
    is_bad_cwd is_bad_value ◌+ℤ◌ lift verify_signature compare_digest from_dict tuple_of int_of
    claim signature_of signed new_receipt payload_sha256
executes = refl

ascii : (value : Fields) → is_ascii (signature_of wired value service.shared_secret) ≡ true
unfolding signature_of
ascii value = refl

client_accepts_service_example :
    (r : Fields) × (response ≡ signed wired service r)
    × (execute wired
          (served_by wired service (pos 11) (pos 11) (pos 12) length_text encode)
          service.shared_secret
          request
          idle
        ≡ (ok (accepted wired service (pos 11) (pos 11) (pos 12) length_text encode r), executed))
client_accepts_service_example =
    client_accepts_service wired service (pos 11) (pos 11) (pos 12) length_text encode request idle
      executed response long_secret ascii (pos 1, refl, refl, refl, refl) executes (refl, refl)
