-- ===== src/Bridge/Keeping.antt =====
-- The reading and checking of a request changes no state (src/voodoo_skillset/executor_bridge.py).
use voodoo_skillset.Prelude.{String, ℤ}
use voodoo_skillset.Json.{Json, Fields}
use voodoo_skillset.Python.{Result, ok, err}
use voodoo_skillset.Python.Keeping.{Keeps, Keeps-pure, Keeps-raise, keeping}
use voodoo_skillset.Platform.{Platform}
use voodoo_skillset.Bridge.Request.{
  ExecutionRequest, lift, from_dict, read_request, validate, str_item, int_item, item, tuple_item,
  recast,
}
use voodoo_skillset.Bridge.Service.{ExecutorService, workspace}

module _ {S : Type 0} (P : S → Type 0) where
  pub Keeps-lift : {A : Type 0} (r : Result A) → Keeps P (lift r)
  unfolding lift
  Keeps-lift (ok a) = Keeps-pure P a
  Keeps-lift (err e) = Keeps-raise P e

  pub Keeps-item : (k : String) (value : Fields) → Keeps P (item k value)
  unfolding item
  Keeps-item k value = search keeping depth 9

  pub Keeps-str_item :
      (env : Platform) (k : String) (value : Fields) → Keeps P (str_item env k value)
  unfolding str_item
  Keeps-str_item env k value = search keeping depth 9

  pub Keeps-int_item :
      (env : Platform) (k : String) (value : Fields) → Keeps P (int_item env k value)
  unfolding int_item
  Keeps-int_item env k value = search (keeping, Keeps-lift) depth 9

  pub Keeps-tuple_item : (v : Json) → Keeps P (tuple_item v)
  unfolding tuple_item
  Keeps-tuple_item v = search keeping depth 9

  pub Keeps-read_request : (env : Platform) (value : Fields) → Keeps P (read_request env value)
  unfolding read_request
  Keeps-read_request env value = search (keeping, Keeps-str_item, Keeps-int_item) depth 20

  recast_state : {A : Type 0} (r : Result A × S) → P r.1 → P (recast r).1
  recast_state (ok a, s) p = p
  recast_state (err e, s) p = p

  pub Keeps-from_dict : (env : Platform) (value : Fields) → Keeps P (from_dict env value)
  unfolding from_dict
  Keeps-from_dict env value = record {
    at = λ s p. recast_state (read_request env value s) ((Keeps-read_request env value).at s p);
  }

  pub Keeps-validate :
      (env : Platform) (r : ExecutionRequest) (now : ℤ) → Keeps P (validate env r now)
  unfolding validate
  Keeps-validate env r now = search keeping depth 20

  pub Keeps-workspace :
      (env : Platform) (service : ExecutorService) (id : String)
      → Keeps P (workspace env service id)
  unfolding workspace
  Keeps-workspace env service id = search keeping depth 9
