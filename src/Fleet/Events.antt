-- ===== src/Fleet/Events.antt =====
-- `_event` and `verify_event_chain` of src/voodoo_skillset/fleet.py: the append-only hash chain.
use voodoo_skillset.Prelude.{
  ℕ, String, Bool, false, Option, none, some, List, [], ◌∷◌, ◌+◌, ◌||◌, ℤ, str_eq, reverse,
  if◌then◌else◌, not,
}
use voodoo_skillset.Json.{Fields, int, text, text?, object, dict}
use voodoo_skillset.Python.{Method, ok, err, integrity_error}
use voodoo_skillset.Platform.{Platform}
use voodoo_skillset.Fleet.Tables.{Event, Store}

abbrev pub genesis_hash : String
genesis_hash = "0000000000000000000000000000000000000000000000000000000000000000"

-- The dict that is hashed, in `_event` and in `verify_event_chain`.
abbrev pub event_body : Option String → String → String → Fields → ℤ → String → Fields
event_body job_id kind actor payload created_at prev_hash = dict (
    ("job_id", text? job_id)
    ∷ ("kind", text kind)
    ∷ ("actor", text actor)
    ∷ ("payload", object payload)
    ∷ ("created_at", int created_at)
    ∷ ("prev_hash", text prev_hash)
    ∷ [])

-- SELECT event_hash FROM fleet_events ORDER BY seq DESC LIMIT 1, or GENESIS_HASH.
unfoldable pub head_hash : List Event → String
head_hash [] = genesis_hash
head_hash (e ∷ es) = e.event_hash

-- The UNIQUE constraint of the column `event_hash`.
unfoldable pub has_hash : String → List Event → Bool
has_hash h [] = false
has_hash h (e ∷ es) = str_eq e.event_hash h || has_hash h es

-- AUTOINCREMENT: rows are never deleted.
unfoldable pub next_seq : List Event → ℕ
next_seq [] = 1
next_seq (e ∷ es) = e.seq + 1

-- The row that `_event` inserts.
unfoldable pub new_event :
    Platform → Option String → String → String → Fields → ℤ → List Event → Event
unfolding head_hash next_seq
new_event env job kind_ actor_ payload_ now es = record {
  seq = next_seq es;
  job_id = job;
  kind = kind_;
  actor = actor_;
  payload = payload_;
  created_at = now;
  prev_hash = head_hash es;
  event_hash = env.sha256 (env.dumps (event_body job kind_ actor_ payload_ now (head_hash es)));
}

-- `_event`: it inserts the row, or raises where the hash is taken already.
unfoldable pub record_event :
    Platform → Option String → String → String → Fields → ℤ → Method Store String
unfolding new_event has_hash
record_event env job kind actor payload now s =
    let e = new_event env job kind actor payload now s.events in
    if has_hash e.event_hash s.events
    then (err (integrity_error "UNIQUE constraint failed: fleet_events.event_hash"), s)
    else (ok e.event_hash, record s { events = e ∷ s.events })

-- What `verify_event_chain` reports: `none` for a chain that holds, and otherwise the number of the
-- offending event and which of its two tests failed.
pub data Fault : Type 0 where
  prev_hash_mismatch hash_mismatch : ℕ → Fault

unfoldable pub expected_hash : Platform → Event → String
expected_hash env e =
    env.sha256 (env.dumps (event_body e.job_id e.kind e.actor e.payload e.created_at e.prev_hash))

-- The loop of `verify_event_chain`, over the rows in the order of `seq`.
unfoldable pub scan_chain : Platform → String → List Event → Option Fault
unfolding expected_hash
scan_chain env previous [] = none
scan_chain env previous (e ∷ es) =
    let rest = scan_chain env e.event_hash es in
    if not (str_eq e.prev_hash previous)
    then some (prev_hash_mismatch e.seq)
    else if not (str_eq e.event_hash (expected_hash env e))
    then some (hash_mismatch e.seq)
    else rest

unfoldable pub verify_event_chain : Platform → Store → Option Fault
unfolding scan_chain
verify_event_chain env s = scan_chain env genesis_hash (reverse s.events)
