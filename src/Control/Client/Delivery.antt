-- ===== src/Control/Client/Delivery.antt =====
-- The claims of `FleetCoordinatorClient` (src/voodoo_skillset/fleet_client.py) over the routes of
-- src/voodoo_skillset/api.py: the client gets the lease that the store grants.
use Prim.Native.String.{◌++◌ as ◌+++◌, len}
use Prim.Native.String.append
use voodoo_skillset.Prelude.{
  is_ascii, String, true, false, Option, none, some, [], ◌∷◌, ◌≡◌, refl, sym, ap, ◌∙◌, ℤ, ltb, pos,
  str_eq, eq_refl, text_length,
}
use voodoo_skillset.Json.{Fields, text, int, object, dict, get}
use voodoo_skillset.Python.{ok, Method, pure}
use voodoo_skillset.Python.Running.{Runs, Runs-bind, Runs-pure}
use voodoo_skillset.Platform.{Platform}
use voodoo_skillset.Fleet.Tables.{Store}
use voodoo_skillset.Fleet.Execution.{Lease, truncate, claim_execution}
use voodoo_skillset.Bridge.Request.{lift, int_of}
use voodoo_skillset.Control.App.{
  Settings, App, drop, is_refused, require_bearer, require_worker, require_fleet, call_fleet,
  on_store, with_store,
}
use voodoo_skillset.Control.Values.{job_dict, lease_dict, required_text, int_at}
use voodoo_skillset.Control.Coordinator.{fleet_claim_execution}
use voodoo_skillset.Control.Handler.{Post, Outside, Response, route, respond}
use voodoo_skillset.Control.Client.{Reply, ClientLease, open_reply, post, lease_from, lease_fields}
use voodoo_skillset.Control.Client as Client

-- The lease as it comes out of the JSON that is sent for it.
abbrev pub read_lease : Platform → String → Option Lease → Option ClientLease
read_lease env owner none = none
read_lease env owner (some l) = some (record {
  job_id = l.job_id;
  owner_id = owner;
  token = l.token;
  expires_at = l.expires_at;
  job = job_dict env l.job;
})

module _ {S : Type 0} (env : Platform)
    (exchange : String → Fields → String → Method S (Option Reply)) (bearer : String) where
  lease_from-lease_dict :
      (lease : Option Lease) (owner : String) (s : S)
      → lease_from env exchange bearer (lease_dict env lease) owner s
        ≡ (ok (read_lease env owner lease), s)
  unfolding lease_from lease_dict lease_fields lift int_of
  lease_from-lease_dict none owner s = refl
  lease_from-lease_dict (some l) owner s = refl

truncate-append : (p t : String) → truncate (text_length p) (p +++ t) ≡ p
unfolding truncate
truncate-append String.[] t = refl
truncate-append (String.◌∷◌ c p) t =
    rw (append.cons c p t) (ap (String.◌∷◌ c) (truncate-append p t))

drop-append : (p t : String) → drop (text_length p) (p +++ t) ≡ t
drop-append String.[] t = append.nil t
drop-append (String.◌∷◌ c p) t = rw (append.cons c p t) (drop-append p t)

-- The authorization of a token that is set and ASCII is accepted.
bearer_passes :
    (tok name purpose : String) (s : App)
    → str_eq tok "" ≡ false
    → is_ascii tok ≡ true
    → require_bearer ("Bearer " +++ tok) tok name purpose s ≡ (ok tt, s)
unfolding require_bearer is_refused
bearer_passes tok name purpose s set ascii =
    rw (truncate-append "Bearer " tok, drop-append "Bearer " tok, set, ascii, eq_refl tok) refl

module _ (env : Platform) (cfg : Settings) (now : ℤ) (fresh token : String) (worker : String)
    (seconds : ℤ) (s : App) (t u : Store) (lease : Option Lease) (fleet : s.fleet ≡ some t)
    (set : str_eq cfg.worker_token "" ≡ false) (ascii : is_ascii cfg.worker_token ≡ true)
    (claimed : claim_execution env worker seconds now token t ≡ (ok lease, u)) where
  abbrev authorization : String
  authorization = "Bearer " +++ cfg.worker_token

  abbrev payload : Fields
  payload = dict (("worker_id", text worker) ∷ ("lease_seconds", int seconds) ∷ [])

  abbrev left : App
  left = record s { fleet = some u }

  passes : Runs (require_worker cfg authorization) s tt s
  unfolding require_worker
  passes = record {
    equation =
        bearer_passes cfg.worker_token "VOODOO_FLEET_WORKER_TOKEN" "fleet worker" s set ascii;
  }

  there : Runs (require_fleet cfg) s tt s
  unfolding require_fleet call_fleet
  there = record {
    equation =
        ap (λ o. on_store cfg s o (pure tt)) fleet
        ∙ ap (λ o. (ok tt, record s { fleet = o })) (sym fleet);
  }

  named : Runs (required_text (get "worker_id" payload) "worker_id is required") s worker s
  named = record { equation = refl }

  counted : Runs (int_at env "lease_seconds" (pos 30) payload) s seconds s
  unfolding lift int_of
  counted = record { equation = refl }

  granted : Runs (call_fleet cfg (claim_execution env worker seconds now token)) s lease left
  unfolding call_fleet
  granted = record {
    equation =
        ap (λ o. on_store cfg s o (claim_execution env worker seconds now token)) fleet
        ∙ ap (with_store s) claimed;
  }

  route_runs :
      Runs
        (fleet_claim_execution env cfg now fresh token payload authorization)
        s
        (lease_dict env lease)
        left
  unfolding fleet_claim_execution
  route_runs = search (Runs-bind, Runs-pure, passes, there, named, counted, granted) depth 12

abbrev pub reply_of : (Fields → String) → Response → Option Reply
reply_of encode none = none
reply_of encode (some (code, v)) = some (record { status = code; raw = encode v })

module _ (env : Platform) (cfg : Settings) (outside : Outside) (p : Post)
    (encode : Fields → String) where
  -- The exchange with a control plane that answers at once, where `encode` writes the JSON text of its
  -- responses.
  unfoldable pub served : String → Fields → String → Method App (Option Reply)
  unfolding respond
  served path payload authorization s =
      let asked = record p { path = path; authorization = authorization } in
      let (response, after) = respond (route env cfg outside asked payload s) in
      (ok (reply_of encode response), after)

  module _ (worker : String) (seconds : ℤ) (s : App) (t u : Store) (lease : Option Lease)
      (fleet : s.fleet ≡ some t) (set : str_eq cfg.worker_token "" ≡ false)
      (ascii : is_ascii cfg.worker_token ≡ true)
      (claimed : claim_execution env worker seconds p.draws.now p.lease_token t
        ≡ (ok lease, u)) where
    abbrev asked : Fields
    asked = dict (("worker_id", text worker) ∷ ("lease_seconds", int seconds) ∷ [])

    abbrev found : Reply
    found = record { status = 200; raw = encode (lease_dict env lease) }

    abbrev after : App
    after = record s { fleet = some u }

    served_runs :
        Runs (served "/api/fleet/claim" asked ("Bearer " +++ cfg.worker_token)) s (some found) after
    unfolding served route respond
    served_runs = record {
      equation =
          ap (λ q. let (response, left) = respond q in (ok (reply_of encode response), left))
            (route_runs env cfg p.draws.now p.job_id p.lease_token worker seconds s t u lease fleet
              set ascii claimed).equation;
    }

    lease_runs :
        Runs
          (lease_from env served cfg.worker_token (lease_dict env lease) worker)
          after
          (read_lease env worker lease)
          after
    lease_runs = record {
      equation = lease_from-lease_dict env served cfg.worker_token lease worker after;
    }

    module _ (filled : str_eq (encode (lease_dict env lease)) "" ≡ false)
        (short : ltb 2097152 (len (encode (lease_dict env lease))) ≡ false)
        (decoded : env.parse_json (encode (lease_dict env lease))
          ≡ some (object (lease_dict env lease))) where
      opened :
          Runs
            (open_reply env served cfg.worker_token (some found))
            after
            (lease_dict env lease)
            after
      unfolding open_reply
      opened = record { equation = rw (short, filled, decoded) refl }

      posted :
          Runs
            (post env served cfg.worker_token "/api/fleet/claim" asked)
            s
            (lease_dict env lease)
            after
      unfolding post
      posted = search (Runs-bind, served_runs, opened) depth 4

      claim_runs :
          Runs
            (Client.claim_execution env served cfg.worker_token worker seconds)
            s
            (read_lease env worker lease)
            after
      unfolding Client.claim_execution
      claim_runs = search (Runs-bind, posted, lease_runs) depth 4

  -- A claim of the client, with the token of the workers, returns what the store grants: no lease, or
  -- the lease with its token, its end and the job, and it leaves the store as the store's claim does,
  -- where the text of this response is read back as what was written and is not too long.
  pub delivered :
      (worker : String) (seconds : ℤ) (s : App) (t u : Store) (lease : Option Lease)
      → s.fleet ≡ some t
      → str_eq cfg.worker_token "" ≡ false
      → is_ascii cfg.worker_token ≡ true
      → claim_execution env worker seconds p.draws.now p.lease_token t ≡ (ok lease, u)
      → str_eq (encode (lease_dict env lease)) "" ≡ false
      → ltb 2097152 (len (encode (lease_dict env lease))) ≡ false
      → env.parse_json (encode (lease_dict env lease)) ≡ some (object (lease_dict env lease))
      → Client.claim_execution env served cfg.worker_token worker seconds s
        ≡ (ok (read_lease env worker lease), record s { fleet = some u })
  delivered worker seconds s t u lease fleet set ascii claimed filled short decoded =
      (claim_runs worker seconds s t u lease fleet set ascii claimed filled short decoded).equation
