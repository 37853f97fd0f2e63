-- ===== src/Bridge/Request/Laws.antt =====
-- What `validate` of `ExecutionRequest` admits, and that `from_dict` reads back what `to_dict` writes
-- (src/voodoo_skillset/executor_bridge.py).
use voodoo_skillset.Prelude.{
  ℕ, String, Bool, true, false, not, ◌||◌, Option, none, some, List, [], ◌∷◌, ◌≡◌, ◌≢◌, refl, ap,
  arith, ℤ, pos, ◌+ℤ◌, ◌≤ℤ◌, ◌≤◌, length, All, any_of, text_length, str_eq, eq_iff, starts_with,
  int_laws, ltb_ℤ,
}
use voodoo_skillset.Json.{Json, text}
use voodoo_skillset.Python.{ok}
use voodoo_skillset.Platform.{Platform}
use voodoo_skillset.Fleet.Validation.{
  is_workspace_id, is_capability_id, is_bad_cwd, is_bad_argument,
}
use voodoo_skillset.Bridge.Request.{
  ExecutionRequest, items_list, list_items, from_dict, to_dict, read_request, str_item, int_item,
  item, tuple_item, tuple_of, int_of, lift, validate, is_bad_value,
}

-- An argument: a text that is neither empty nor longer than 4096.
pub record IsArgument (v : Json) : Type 0 where
  pub characters : String
  pub is_text_value : v ≡ text characters
  pub bounded : is_bad_argument characters ≡ false

-- What an executor may run: a COMPUTE command of bounded size, without network, in a live window.
pub record IsPermitted (env : Platform) (r : ExecutionRequest) (now : ℤ) : Type 0 where
  pub compute : r.operation_class ≡ "COMPUTE"
  pub no_network : (r.network_default ≡ "DENY") × (r.allowed_hosts ≡ [])
  pub arguments : (1 ≤ length r.argv) × (length r.argv ≤ 64) × All IsArgument r.argv
  pub inside : is_bad_cwd env r.cwd ≡ false
  pub workspace : is_workspace_id r.workspace_id ≡ true
  pub capability : is_capability_id r.capability_id ≡ true
  pub nonce : (r.nonce ≢ "") × (text_length r.nonce ≤ 128)
  pub lifetime : (r.issued_at +ℤ pos 1 ≤ℤ r.expires_at) × (r.expires_at ≤ℤ r.issued_at +ℤ pos 120)
  pub window : (r.issued_at ≤ℤ now +ℤ pos 5) × (now ≤ℤ r.expires_at)

IsArgument-of : (v : Json) → is_bad_value v ≡ false → IsArgument v
unfolding is_bad_value
IsArgument-of (text t) h = record { characters = t; is_text_value = refl; bounded = h }
IsArgument-of v h = absurd (ground arith)

arguments_of : (vs : List Json) → any_of is_bad_value vs ≡ false → All IsArgument vs
arguments_of [] h = tt
arguments_of (v ∷ vs) h = (IsArgument-of v (ground arith), arguments_of vs (ground arith))

no_hosts : (vs : List Json) → not (voodoo_skillset.Prelude.is_empty vs) ≡ false → vs ≡ []
no_hosts [] h = refl
no_hosts (v ∷ vs) h = absurd (ground arith)

-- A request that `validate` admits at a time is a COMPUTE command of 1 to 64 bounded arguments, without
-- network, in a directory and a workspace with sound names, with a nonce, that lives for 1 to 120
-- seconds, was not issued more than 5 seconds ahead and has not expired.
pub validate-IsPermitted :
    {S : Type 0} (env : Platform) (r : ExecutionRequest) (now : ℤ) (s : S)
    → (validate env r now s).0 ≡ ok tt
    → IsPermitted env r now
unfolding validate
validate-IsPermitted env r now s h = record {
  compute = ground (arith, eq_iff r.operation_class "COMPUTE");
  no_network =
      (ground (arith, eq_iff r.network_default "DENY"), no_hosts r.allowed_hosts (ground arith));
  arguments = (ground arith, ground arith, arguments_of r.argv (ground arith));
  inside = ground arith;
  workspace = ground arith;
  capability = ground arith;
  nonce = (ground (arith, eq_iff r.nonce ""), ground arith);
  lifetime = (ground arith, ground arith);
  window = (ground arith, ground arith);
}

items_list-list_items : (vs : List Json) → items_list (list_items vs) ≡ vs
items_list-list_items [] = refl
items_list-list_items (v ∷ vs) = ap (λ ws. v ∷ ws) (items_list-list_items vs)

-- Reading the dict that a request is written as gives the request back, and changes nothing.
pub from_dict-to_dict :
    {S : Type 0} (env : Platform) (r : ExecutionRequest) (s : S)
    → from_dict env (to_dict r) s ≡ (ok r, s)
unfolding from_dict read_request to_dict str_item int_item item tuple_item tuple_of int_of lift
from_dict-to_dict env r s =
    rw (items_list-list_items r.argv, items_list-list_items r.allowed_hosts) refl
