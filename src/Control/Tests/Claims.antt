-- ===== src/Control/Tests/Claims.antt =====
-- A claim of the client of src/voodoo_skillset/fleet_client.py over the routes of
-- src/voodoo_skillset/api.py.
use voodoo_skillset.Prelude.{Bool, true, false, Option, none, some, [], ◌∷◌, ◌≡◌, refl, arith, pos}
use voodoo_skillset.Json.{object}
use voodoo_skillset.Python.{Result, ok, err}
use voodoo_skillset.Platform.{Platform}
use voodoo_skillset.Platform.Sample.{sample}
use voodoo_skillset.Fleet.Tables.{Store, init_db}
use voodoo_skillset.Fleet.Updates.{queued_job}
use voodoo_skillset.Fleet.Execution.{Lease, claim_execution}
use voodoo_skillset.Control.App.{App}
use voodoo_skillset.Control.Values.{lease_dict}
use voodoo_skillset.Control.Handler.{Post}
use voodoo_skillset.Control.Client as Client
use voodoo_skillset.Control.Client.Delivery.{read_lease, served, delivered}
use voodoo_skillset.Control.Tests.{spec, settings, outside, post}

abbrev waiting : Store
waiting = record init_db {
  jobs = queued_job "JOB" "P" "w" "c" ("true" ∷ []) "." spec none (pos 100) (pos 3) (pos 2) ∷ [];
}

abbrev value_of : Result (Option Lease) → Option Lease
value_of (ok lease) = lease
value_of (err e) = none

abbrev is_ok : Result (Option Lease) → Bool
is_ok (ok lease) = true
is_ok (err e) = false

ok-value_of : (q : Result (Option Lease) × Store) → is_ok q.0 ≡ true → q ≡ (ok (value_of q.0), q.1)
ok-value_of (ok lease, t) h = refl
ok-value_of (err e, t) h = absurd (ground arith)

abbrev lease : Option Lease
lease = value_of (claim_execution sample "worker" (pos 30) (pos 10) "t" waiting).0

-- A platform that reads the text of one response.
abbrev reader : Platform
reader = record sample { parse_json = λ t. some (object (lease_dict sample lease)) }

abbrev idle : App
idle = record { fleet = some waiting; metrics = []; runs = []; ledger = [] }

abbrev claiming : Post
claiming = post "/api/fleet/claim" "worker" "claim" (pos 10)

abbrev granted : Result (Option Lease) × Store
granted = claim_execution reader "worker" (pos 30) (pos 10) "t" waiting

grants : is_ok granted.0 ≡ true
unfolding claim_execution
grants = refl

same_answer : reader.parse_json "lease" ≡ some (object (lease_dict reader (value_of granted.0)))
unfolding lease_dict claim_execution
same_answer = refl

delivered_example :
    Client.claim_execution reader
      (served reader settings outside claiming (λ d. "lease"))
      "worker"
      "worker"
      (pos 30)
      idle
    ≡ (ok (read_lease reader "worker" (value_of granted.0)), record idle { fleet = some granted.1 })
delivered_example =
    delivered reader settings outside claiming (λ d. "lease") "worker" (pos 30) idle waiting
      granted.1 (value_of granted.0) refl refl refl (ok-value_of granted grants) refl refl
      same_answer
