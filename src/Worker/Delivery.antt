-- ===== src/Worker/Delivery.antt =====
-- What it means that a worker reports success (`FleetWorker.run_once`, src/voodoo_skillset/fleet_worker.py).
use voodoo_skillset.Prelude.{
  String, Bool, true, Option, none, some, ◌≡◌, ◌≢◌, refl, sym, ap, ◌∙◌, subst, arith, ℤ,
}
use voodoo_skillset.Json.{Fields, get, is_text}
use voodoo_skillset.Python.{
  PyError, Result, ok, err, Method, or_raise, key_error, ok-injective, ◌>>=◌,
}
use voodoo_skillset.Python.Keeping.{bound}
use voodoo_skillset.Platform.{Platform}
use voodoo_skillset.Fleet.Tables.{Job, Store}
use voodoo_skillset.Fleet.Execution.{
  Lease, claim_execution, complete_execution, check_receipt, store_receipt, has_succeeded,
}
use voodoo_skillset.Fleet.Validation.{validate_owner}
use voodoo_skillset.Bridge.Request.{lift}
use voodoo_skillset.Bridge.Signing.{verify_signature}
use voodoo_skillset.Bridge.Service.{ExecutorService}
use voodoo_skillset.Control.Values.{dict_value, text_value}
use voodoo_skillset.Worker.{
  Node, Report, executed, idle, lease_uncertain, Moment, beat, execute_job, complete, deliver,
  given_up, give_up, caught, delivered, finish, run_lease, claimed, run_once,
}

module _ (env : Platform) (service : ExecutorService) (worker_id : String) (lease_seconds : ℤ)
    (m : Moment) where
  -- A delivery that the store has accepted: the receipt and its signature stand in the response, and the
  -- store was told that the signature is genuine.
  pub record Accepted (lease : Lease) (response : Fields) (s : Store) (job : Job) (after : Store)
      : Type 0 where
    pub receipt : Fields
    pub signature : String
    pub receipt_of : dict_value (get "receipt" response) ≡ some receipt
    pub signature_of : text_value (get "signature" response) ≡ some signature
    pub genuine : verify_signature env receipt signature service.shared_secret ≡ ok true
    pub unknown : is_text "UNKNOWN" (get "verification_status" receipt) ≡ true
    pub success : has_succeeded (get "result" receipt) ≡ true
    pub completed :
        complete_execution env lease.job_id worker_id lease.token receipt true m.completed_at s
        ≡ (ok job, after)

  -- What a report of success means.
  pub record Succeeded (node : Node) (id : String) (hash : Option String) (after : Node)
      : Type 0 where
    pub lease : Lease
    pub queue : Store
    pub granted :
        claim_execution env worker_id lease_seconds m.claimed_at m.token node.fleet
        ≡ (ok (some lease), queue)
    pub same_job : id ≡ lease.job_id
    pub held : (beat env service worker_id lease_seconds m lease m.beats queue).0 ≡ none
    pub response : Fields
    pub ran :
        execute_job env service worker_id lease_seconds m lease.job node.served
        ≡ (ok response, after.served)
    pub job : Job
    pub accepted :
        Accepted lease response
          (beat env service worker_id lease_seconds m lease m.beats queue).1
          job
          after.fleet
    pub hash_of : hash ≡ job.receipt_sha256

  report_of : {a b : Report} → ok a ≡ ok b → a ≡ b
  report_of h = ok-injective h

  or_raised :
      {S A : Type 0} (o : Option A) (e : PyError) (s t : S) (a : A)
      → or_raise o e s ≡ (ok a, t)
      → (o ≡ some a) × (t ≡ s)
  or_raised (some b) e s t a h = (ground arith, sym (ap (λ q. q.1) h))
  or_raised none e s t a h = absurd (ground arith)

  lifted :
      {S A : Type 0} (r : Result A) (s t : S) (a : A) → lift r s ≡ (ok a, t) → (r ≡ ok a) × (t ≡ s)
  unfolding lift
  lifted (ok b) s t a h = (ap (λ q. q.0) h, sym (ap (λ q. q.1) h))
  lifted (err e) s t a h = absurd (ground arith)

  check_found :
      (receipt : Fields) (valid : Bool) (s t : Store)
      → check_receipt receipt valid s ≡ (ok tt, t)
      → (valid ≡ true)
        × (is_text "UNKNOWN" (get "verification_status" receipt) ≡ true)
        × (has_succeeded (get "result" receipt) ≡ true)
  unfolding check_receipt
  check_found receipt valid s t h = (ground arith, ground arith, ground arith)

  checked :
      (lease : Lease) (receipt : Fields) (valid : Bool) (s : Store) (job : Job)
      → (complete env service worker_id lease_seconds m lease receipt "" valid s).0 ≡ ok job
      → (valid ≡ true)
        × (is_text "UNKNOWN" (get "verification_status" receipt) ≡ true)
        × (has_succeeded (get "result" receipt) ≡ true)
  unfolding complete_execution
  checked lease receipt valid s job h =
      let store : Unit {0} → Method Store Job =
        λ _. store_receipt env lease.job_id worker_id lease.token receipt m.completed_at in
      let b1 =
        bound (validate_owner worker_id) (λ _. check_receipt receipt valid >>= store) s job h in
      let b2 = bound (check_receipt receipt valid) store b1.state job b1.then_ok in
      check_found receipt valid b1.state b2.state b2.first

  pair_of : {A B : Type 0} (q : Result A × B) (a : A) → q.0 ≡ ok a → q ≡ (ok a, q.1)
  pair_of (r, t) a h = ap (λ x. (x, t)) h

  deliver-Accepted :
      (lease : Lease) (response : Fields) (s : Store) (job : Job)
      → (deliver env service worker_id lease_seconds m lease response s).0 ≡ ok job
      → Accepted lease response s job
          (deliver env service worker_id lease_seconds m lease response s).1
  unfolding deliver
  deliver-Accepted lease response s job h =
      let with_valid : Fields → String → Bool → Method Store Job = λ receipt signature valid.
        complete env service worker_id lease_seconds m lease receipt signature valid in
      let with_signature : Fields → String → Method Store Job = λ receipt signature.
        lift (verify_signature env receipt signature service.shared_secret)
        >>= with_valid receipt signature in
      let with_receipt : Fields → Method Store Job = λ receipt.
        or_raise (text_value (get "signature" response)) (key_error "signature")
        >>= with_signature receipt in
      let b1 =
        bound (or_raise (dict_value (get "receipt" response)) (key_error "receipt")) with_receipt s
          job h in
      let (read, same_1) =
        or_raised (dict_value (get "receipt" response)) (key_error "receipt") s b1.state b1.value
          b1.first in
      let b2 =
        bound (or_raise (text_value (get "signature" response)) (key_error "signature"))
          (with_signature b1.value) b1.state job b1.then_ok in
      let (signed, same_2) =
        or_raised (text_value (get "signature" response)) (key_error "signature") b1.state b2.state
          b2.value b2.first in
      let verdict = verify_signature env b1.value b2.value service.shared_secret in
      let b3 = bound (lift verdict) (with_valid b1.value b2.value) b2.state job b2.then_ok in
      let (judged, same_3) = lifted verdict b2.state b3.state b3.value b3.first in
      let (valid, unknown, success) = checked lease b1.value b3.value b3.state job b3.then_ok in
      let back = same_3 ∙ same_2 ∙ same_1 in
      let whole : deliver env service worker_id lease_seconds m lease response s
          ≡ complete env service worker_id lease_seconds m lease b1.value b2.value true s =
        b1.result
        ∙ b2.result
        ∙ b3.result
        ∙ ap
            (λ x. complete env service worker_id lease_seconds m lease b1.value b2.value b3.value x)
            back
        ∙ ap (λ x. complete env service worker_id lease_seconds m lease b1.value b2.value x s)
            valid in
      record {
        receipt = b1.value;
        signature = b2.value;
        receipt_of = read;
        signature_of = signed;
        genuine = judged ∙ ap ok valid;
        unknown = unknown;
        success = success;
        completed =
            sym whole
            ∙ pair_of (deliver env service worker_id lease_seconds m lease response s) job h;
      }

  failed_report :
      (lease : Lease) (q : Result Job × Store) (id : String) (hash : Option String)
      → ¬ ((given_up env service worker_id lease_seconds m lease q).0 ≡ executed id hash)
  failed_report lease (ok job, s) id hash h = ground arith
  failed_report lease (err e, s) id hash h = ground arith

  caught_report :
      (lease : Lease) (e : PyError) (q : Option PyError × Store) (id : String)
      (hash : Option String)
      → ¬ ((caught env service worker_id lease_seconds m lease e q).0 ≡ executed id hash)
  unfolding give_up
  caught_report lease e (some lost, s) id hash h = ground arith
  caught_report lease e (none, s) id hash h = failed_report lease _ id hash h

  delivered-Accepted :
      (lease : Lease) (response : Fields) (s : Store) (q : Result Job × Store) (id : String)
      (hash : Option String)
      → deliver env service worker_id lease_seconds m lease response s ≡ q
      → (delivered env service worker_id lease_seconds m lease q).0 ≡ executed id hash
      → (id ≡ lease.job_id)
        × ((job : Job) × (hash ≡ job.receipt_sha256)
            × Accepted lease response s job
                (delivered env service worker_id lease_seconds m lease q).1)
  delivered-Accepted lease response s (ok job, t) id hash e h = (
    same_id _ _ _ _ h,
    (
      job,
      same_hash _ _ _ _ h,
      subst (λ x. Accepted lease response s job x) (ap (λ q. q.1) e)
          (deliver-Accepted lease response s job (ap (λ q. q.0) e)),
    ),
  )
    where
      same_id : (a b : String) (x y : Option String) → executed a x ≡ executed b y → b ≡ a
      same_id a b x y h = cc

      same_hash : (a b : String) (x y : Option String) → executed a x ≡ executed b y → y ≡ x
      same_hash a b x y h = cc
  delivered-Accepted lease response s (err e', t) id hash e h = absurd (
      caught_report lease e' (beat env service worker_id lease_seconds m lease m.late_beats t) id
        hash h)

  finish-Accepted :
      (lease : Lease) (response : Result Fields) (q : Option PyError × Store) (id : String)
      (hash : Option String)
      → (finish env service worker_id lease_seconds m lease response q).0 ≡ executed id hash
      → (q.0 ≡ none)
        × ((value : Fields) × (response ≡ ok value)
            × ((id ≡ lease.job_id)
                × ((job : Job) × (hash ≡ job.receipt_sha256)
                    × Accepted lease value q.1 job
                        (finish env service worker_id lease_seconds m lease response q).1)))
  unfolding finish
  finish-Accepted lease (err e) q id hash h = absurd (caught_report lease e q id hash h)
  finish-Accepted lease (ok value) (some lost, s) id hash h = absurd (uncertain h)
    where
      uncertain : lease_uncertain lease.job_id ≢ executed id hash
      uncertain h = ground arith
  finish-Accepted lease (ok value) (none, s) id hash h = (
    refl,
    (
      value,
      refl,
      delivered-Accepted lease value s (deliver env service worker_id lease_seconds m lease value s)
          id hash refl h,
    ),
  )

  claimed-Succeeded :
      (node : Node) (q : Result (Option Lease) × Store) (id : String) (hash : Option String)
      → claim_execution env worker_id lease_seconds m.claimed_at m.token node.fleet ≡ q
      → (claimed env service worker_id lease_seconds m node.served q).0 ≡ ok (executed id hash)
      → Succeeded node id hash (claimed env service worker_id lease_seconds m node.served q).1
  unfolding run_lease
  claimed-Succeeded node (err e', s) id hash e h = absurd (raised h)
    where
      raised : err e' ≢ ok (executed id hash)
      raised h = ground arith
  claimed-Succeeded node (ok none, s) id hash e h = absurd (nothing (ok-injective h))
    where
      nothing : idle ≢ executed id hash
      nothing h = ground arith
  claimed-Succeeded node (ok (some lease), s) id hash e h =
      let ran = execute_job env service worker_id lease_seconds m lease.job node.served in
      let (held, (value, returned, (same, (job, hash_of, accepted)))) =
        finish-Accepted lease ran.0 (beat env service worker_id lease_seconds m lease m.beats s) id
          hash (ok-injective h) in
      record {
        lease = lease;
        queue = s;
        granted = e;
        same_job = same;
        held = held;
        response = value;
        ran = pair_of ran value returned;
        job = job;
        accepted = accepted;
        hash_of = hash_of;
      }

  -- Where a worker reports that a job was executed, it has claimed a lease of this job, no heartbeat had
  -- failed before the delivery, its service has executed the job and returned a response, the receipt of
  -- the response is UNKNOWN, reports success and carries a genuine signature, and the store has accepted
  -- it; the hash of the report is that of the job that
  -- the store returns.
  pub run_once-Succeeded :
      (node : Node) (id : String) (hash : Option String)
      → (run_once env service worker_id lease_seconds m node).0 ≡ ok (executed id hash)
      → Succeeded node id hash (run_once env service worker_id lease_seconds m node).1
  unfolding run_once
  run_once-Succeeded node id hash h =
      claimed-Succeeded node
        (claim_execution env worker_id lease_seconds m.claimed_at m.token node.fleet) id hash refl h
