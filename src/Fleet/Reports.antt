-- ===== src/Fleet/Reports.antt =====
-- The reports of the fleet store, `stats` and `events` of src/voodoo_skillset/fleet.py.
use voodoo_skillset.Prelude.{
  ℕ, zero, suc, ◌+◌, String, Option, none, some, List, [], ◌∷◌, ◌≡◌, refl, arith, ℤ, pos, pos_part,
  ltb_ℤ, max_ℤ, length, str_eq, if◌then◌else◌,
}
use voodoo_skillset.Fleet.Tables.{State, Job, Event, Store}
use voodoo_skillset.Fleet.Queue.{state_name}

-- COUNT(*) of the jobs in a state.
unfoldable pub count_in : State → List Job → ℕ
count_in st [] = 0
count_in st (j ∷ js) =
    let rest = count_in st js in
    if str_eq (state_name j.state) (state_name st) then suc rest else rest

-- The states in the order of their names.
abbrev pub job_states : List State
job_states =
    State.blocked ∷ State.executed ∷ State.failed ∷ State.leased ∷ State.queued ∷ State.verified
    ∷ State.verifying ∷ []

abbrev pub counts_of : List State → List Job → List (State × ℕ)
counts_of [] jobs = []
counts_of (st ∷ sts) jobs = (st, count_in st jobs) ∷ counts_of sts jobs

abbrev pub newest_hash : List Event → Option String
newest_hash [] = none
newest_hash (e ∷ es) = some e.event_hash

pub record Stats : Type 0 where
  pub counts : List (State × ℕ)
  pub event_count : ℕ
  pub event_head : Option String

unfoldable pub stats : Store → Stats
stats s = record {
  counts = counts_of job_states s.jobs;
  event_count = length s.events;
  event_head = newest_hash s.events;
}

unfoldable pub take : ℕ → List Event → List Event
take zero es = []
take (suc n) [] = []
take (suc n) (e ∷ es) = e ∷ take n es

-- `max(1, min(limit, 1000))`
abbrev pub bounded_limit : ℤ → ℕ
bounded_limit limit = pos_part (max_ℤ (pos 1) (if ltb_ℤ limit (pos 1000) then limit else pos 1000))

-- The newest events first, as the table holds them.
unfoldable pub events : ℤ → Store → List Event
unfolding take
events limit s = take (bounded_limit limit) s.events

abbrev pub total : List (State × ℕ) → ℕ
total [] = 0
total ((st, n) ∷ rest) = n + total rest

counted :
    (st : State) (j : Job) (js : List Job)
    → j.state ≡ st
    → total (counts_of job_states (j ∷ js)) ≡ suc (total (counts_of job_states js))
unfolding count_in
counted State.queued j js e = rw e (omega arith)
counted State.leased j js e = rw e (omega arith)
counted State.executed j js e = rw e (omega arith)
counted State.verifying j js e = rw e (omega arith)
counted State.verified j js e = rw e (omega arith)
counted State.failed j js e = rw e (omega arith)
counted State.blocked j js e = rw e (omega arith)

total_jobs : (js : List Job) → total (counts_of job_states js) ≡ length js
unfolding count_in
total_jobs [] = refl
total_jobs (j ∷ js) = omega (arith, counted j.state j js refl, total_jobs js)

-- The counts that `stats` reports for the seven states add up to the number of jobs: no job is left
-- out and none is counted twice.
pub total-stats : (s : Store) → total (stats s).counts ≡ length s.jobs
unfolding stats
total-stats s = total_jobs s.jobs
