-- ===== src/Control/Histories/Posts.antt =====
-- All routes of `do_POST` of src/voodoo_skillset/api.py, as histories of calls of the fleet store, and
-- what follows for every job behind the API.
use voodoo_skillset.Prelude.{
  String, Bool, true, false, ◌≢◌, Option, none, some, List, [], ◌∷◌, ◌≡◌, sym, ◌∙◌, subst, inl, inr,
  Bool-cases, ℤ, contains, ltb_ℤ, pos, if◌then◌else◌,
}
use voodoo_skillset.Json.{Json, Fields, null, bool, int, text, array, object}
use voodoo_skillset.Python.{Result, ok, err, Method, value_error}
use voodoo_skillset.Python.Keeping.{Keeps}
use voodoo_skillset.Platform.{Platform}
use voodoo_skillset.Fleet.Tables.{State, Job, Store, find, init_db}
use voodoo_skillset.Fleet.Lifecycle.Validity.{IsAccepted, IsProven}
use voodoo_skillset.Fleet.Guarantees.{verified_independently}
use voodoo_skillset.Fleet.Refinement.Operations.{run}
use voodoo_skillset.Control.App.{Settings, App}
use voodoo_skillset.Control.Histories.{IsReached, HasHistory, some_same, noting}
use voodoo_skillset.Control.Histories.Fleet.{
  Keeps-enqueue_fleet_job, Keeps-fleet_claim_execution, Keeps-fleet_heartbeat_execution,
  Keeps-fleet_complete_execution, Keeps-fleet_fail_execution, Keeps-fleet_claim_verification,
  Keeps-fleet_complete_verification,
}
use voodoo_skillset.Control.Handler.{
  Post, Outside, route, post_value, post_sized, do_post, respond, or_empty, paths,
}
use voodoo_skillset.Control.Histories.Remote.{Keeps-plan, Keeps-execute_remote}

module _ (env : Platform) (cfg : Settings) (outside : Outside) where
  Keeps-if :
      {A : Type 0} (c : Bool) (m k : Method App A)
      → Keeps (HasHistory env) m
      → Keeps (HasHistory env) k
      → Keeps (HasHistory env) (if c then m else k)
  Keeps-if true m k hm hk = hm
  Keeps-if false m k hm hk = hk

  Keeps-route :
      (p : Post) (payload : Fields) → Keeps (HasHistory env) (route env cfg outside p payload)
  unfolding route
  Keeps-route p payload =
      search
        (
          Keeps-if, Keeps-plan, Keeps-execute_remote, Keeps-enqueue_fleet_job,
          Keeps-fleet_claim_execution, Keeps-fleet_heartbeat_execution,
          Keeps-fleet_complete_execution, Keeps-fleet_fail_execution,
          Keeps-fleet_claim_verification, Keeps-fleet_complete_verification,
        )
        depth 12

  Keeps-post_value :
      (p : Post) (v : Option Json) → Keeps (HasHistory env) (post_value env cfg outside p v)
  unfolding post_value
  Keeps-post_value p none = search noting depth 4
  Keeps-post_value p (some (object payload)) = search (noting, Keeps-if, Keeps-route) depth 4
  Keeps-post_value p (some null) = search noting depth 4
  Keeps-post_value p (some (bool b)) = search noting depth 4
  Keeps-post_value p (some (int n)) = search noting depth 4
  Keeps-post_value p (some (text t)) = search noting depth 4
  Keeps-post_value p (some (array vs)) = search noting depth 4

  respond_state : (q : Result Fields × App) → HasHistory env q.1 → HasHistory env (respond q).1
  unfolding respond
  respond_state (ok v, s) h = h
  respond_state (err e, s) h = h

  kept_sized :
      (p : Post) (size : Option ℤ) (s : App)
      → HasHistory env s
      → HasHistory env (post_sized env cfg outside p size s).1
  unfolding post_sized
  kept_sized p none s h = respond_state (err (value_error "invalid literal for int()"), s) h
  kept_sized p (some n) s h = elim (Bool-cases (ltb_ℤ (pos 2097152) n)) [
    | inl large ↦ rw large h
    | inr small ↦ rw small (
        let v = env.parse_json (or_empty env cfg outside p (p.body n)) in
        respond_state (post_value env cfg outside p v s) ((Keeps-post_value p v).at s h))
  ]

  kept_post :
      (p : Post) (s : App) → HasHistory env s → HasHistory env (do_post env cfg outside p s).1
  unfolding do_post
  kept_post p s h = elim (Bool-cases (contains p.path paths)) [
    | inl known ↦ rw known (kept_sized p (env.parse_int p.content_length) s h)
    | inr other ↦ rw other h
  ]

  -- The requests of a history, the oldest first.
  unfoldable pub serve : List Post → App → App
  serve [] s = s
  serve (p ∷ ps) s = serve ps (do_post env cfg outside p s).1

  kept_serve : (ps : List Post) (s : App) → HasHistory env s → HasHistory env (serve ps s)
  unfolding serve
  kept_serve [] s h = h
  kept_serve (p ∷ ps) s h = kept_serve ps (do_post env cfg outside p s).1 (kept_post p s h)

  pub serve-IsReached :
      (ps : List Post) (s : App) (t : Store)
      → s.fleet ≡ some init_db
      → (serve ps s).fleet ≡ some t
      → IsReached env t
  unfolding run
  serve-IsReached ps s t e f =
      kept_serve ps s (λ u g. ([], some_same env u init_db (sym g ∙ e))) t f

  -- A job that is VERIFIED after any requests that are posted to a control plane with empty tables was
  -- run by a worker, whose receipt says UNKNOWN, EXECUTED and exit code 0, and was verified by somebody
  -- else, with a proof that has checks, all of which pass.
  pub posted_verified_independently :
      (ps : List Post) (s : App) (t : Store) (id : String) (j : Job)
      → s.fleet ≡ some init_db
      → (serve ps s).fleet ≡ some t
      → find id t.jobs ≡ some j
      → j.state ≡ State.verified
      → (j.execution_worker_id ≢ none)
        × IsAccepted j.receipt
        × (j.verifier_id ≢ none)
        × (j.verifier_id ≢ j.execution_worker_id)
        × IsProven j.verification
  posted_verified_independently ps s t id j e f found v =
      let (ops, same) = serve-IsReached ps s t e f in
      verified_independently env ops id j (subst (λ x. find id x.jobs ≡ some j) same found) v
