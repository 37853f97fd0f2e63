-- ===== src/Fleet/Tables.antt =====
-- The tables of `DurableFleetStore` (src/voodoo_skillset/fleet.py): `plans`, `jobs` and
-- `fleet_events`, and the queries that are made on `jobs`. A column that holds JSON text holds the
-- value itself here. `job_id` and `plan_id` are primary keys, so a query by key meets one row.
pub mod Laws
use voodoo_skillset.Prelude.{
  ℕ, String, Bool, true, false, Option, none, some, List, [], ◌∷◌, ℤ, str_eq, if◌then◌else◌,
}
use voodoo_skillset.Json.{Fields}

-- The values of the column `state`, which are those of JOB_STATES and of the CHECK constraint.
pub data State : Type 0 where
  queued leased executed verifying verified failed blocked : State

-- FINAL_STATES.
abbrev pub is_final : State → Bool
is_final State.verified = true
is_final State.failed = true
is_final State.blocked = true
is_final _ = false

pub record Plan : Type 0 where
  pub plan_id : String
  pub status : String
  pub plan : Fields
  pub created_at : ℤ

pub record Job : Type 0 where
  pub job_id : String
  pub plan_id : String
  pub workspace_id : String
  pub capability_id : String
  pub argv : List String
  pub cwd : String
  pub verification_spec : Fields
  pub workspace_before_sha256 : Option String
  pub state : State
  pub priority : ℤ
  pub available_at : ℤ
  pub created_at : ℤ
  pub updated_at : ℤ
  pub attempts : ℕ
  pub max_attempts : ℤ
  pub execution_worker_id : Option String
  pub execution_lease_hash : Option String
  pub execution_lease_expires_at : Option ℤ
  pub receipt : Option Fields
  pub receipt_sha256 : Option String
  pub verifier_id : Option String
  pub verification_lease_hash : Option String
  pub verification_lease_expires_at : Option ℤ
  pub verification : Option Fields
  pub last_error : Option String

pub record Event : Type 0 where
  pub seq : ℕ
  pub job_id : Option String
  pub kind : String
  pub actor : String
  pub payload : Fields
  pub created_at : ℤ
  pub prev_hash : String
  pub event_hash : String

-- The events stand newest first.
pub record Store : Type 0 where
  pub plans : List Plan
  pub jobs : List Job
  pub events : List Event

-- The empty tables of `_init_db`.
abbrev pub init_db : Store
init_db = record { plans = []; jobs = []; events = [] }

-- SELECT … FROM plans WHERE plan_id=?
abbrev pub find_plan : String → List Plan → Option Plan
find_plan id [] = none
find_plan id (p ∷ ps) = if str_eq p.plan_id id then some p else find_plan id ps

-- INSERT INTO plans … ON CONFLICT(plan_id) DO UPDATE SET status, plan_json
abbrev pub upsert_plan : Plan → List Plan → List Plan
upsert_plan new [] = new ∷ []
upsert_plan new (p ∷ ps) =
    if str_eq p.plan_id new.plan_id
    then record p { status = new.status; plan = new.plan } ∷ ps
    else p ∷ upsert_plan new ps

-- SELECT * FROM jobs WHERE job_id=?
unfoldable pub find : String → List Job → Option Job
find id [] = none
find id (j ∷ js) = if str_eq j.job_id id then some j else find id js

-- UPDATE jobs SET … WHERE job_id=?
unfoldable pub update : String → (Job → Job) → List Job → List Job
update id f [] = []
update id f (j ∷ js) = if str_eq j.job_id id then f j ∷ js else j ∷ update id f js

-- INSERT INTO jobs: a new row stands last.
unfoldable pub insert : Job → List Job → List Job
insert new [] = new ∷ []
insert new (j ∷ js) = j ∷ insert new js

-- SELECT * FROM jobs WHERE … ORDER BY … LIMIT 1, for a strict order of the rows.
unfoldable pub first : (Job → Bool) → (Job → Job → Bool) → List Job → Option Job
first p before [] = none
first p before (j ∷ js) =
    let best = first p before js in
    if p j
    then (elim best [ none ↦ some j | some k ↦ if before k j then some k else some j ])
    else best
