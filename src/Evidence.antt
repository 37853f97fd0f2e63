-- ===== src/Evidence.antt =====
-- The evidence ledger of src/voodoo_skillset/evidence.py: events in the order in which they were
-- appended, each with the hash of the one before it. The file that `_persist` writes is left out.
pub mod Integrity
mod Tests
use voodoo_skillset.Prelude.{
  ℕ, suc, String, Bool, not, Option, none, some, List, [], ◌∷◌, ◌++◌, ◌+◌, ◌==◌, pos, length,
  str_eq, if◌then◌else◌,
}
use voodoo_skillset.Json.{Json, Fields, text, int, object, dict}
use voodoo_skillset.Platform.{Platform}

pub record EvidenceEvent : Type 0 where
  pub seq : ℕ
  pub timestamp : String
  pub kind : String
  pub subject : String
  pub payload : Fields
  pub prev_hash : String
  pub event_hash : String

-- "0" * 64
abbrev pub genesis : String
genesis = "0000000000000000000000000000000000000000000000000000000000000000"

-- `events[-1].event_hash if events else GENESIS`, where `prev` is the hash before the first event.
unfoldable pub last_hash : String → List EvidenceEvent → String
last_hash prev [] = prev
last_hash prev (e ∷ es) = last_hash e.event_hash es

abbrev pub core : ℕ → String → String → String → Fields → String → Fields
core seq timestamp kind subject payload prev_hash = dict (
    ("seq", int (pos seq))
    ∷ ("timestamp", text timestamp)
    ∷ ("kind", text kind)
    ∷ ("subject", text subject)
    ∷ ("payload", object payload)
    ∷ ("prev_hash", text prev_hash)
    ∷ [])

-- The position at which a ledger does not verify, and what does not match there.
pub data Mismatch : Type 0 where
  sequence prev_hash event_hash : ℕ → Mismatch

module _ (env : Platform) where
  -- `_hash`
  abbrev pub hash : Fields → String
  hash value = env.sha256 (env.dumps value)

  unfoldable pub new_event : String → String → Fields → String → List EvidenceEvent → EvidenceEvent
  new_event kind subject payload timestamp events =
      let seq_ = length events + 1 in
      let prev = last_hash genesis events in
      record {
        seq = seq_;
        timestamp = timestamp;
        kind = kind;
        subject = subject;
        payload = payload;
        prev_hash = prev;
        event_hash = hash (core seq_ timestamp kind subject payload prev);
      }

  unfoldable pub append :
      String → String → Fields → String → List EvidenceEvent → List EvidenceEvent
  unfolding new_event
  append kind subject payload timestamp events =
      events ++ new_event kind subject payload timestamp events ∷ []

  -- The loop of `verify`, at position `i`.
  unfoldable pub verify_from : ℕ → String → List EvidenceEvent → Option Mismatch
  verify_from i prev [] = none
  verify_from i prev (e ∷ es) =
      let rest = verify_from (suc i) e.event_hash es in
      if not (e.seq == i)
      then some (sequence i)
      else if not (str_eq e.prev_hash prev)
      then some (prev_hash i)
      else if not (
          str_eq (hash (core e.seq e.timestamp e.kind e.subject e.payload e.prev_hash))
            e.event_hash)
      then some (event_hash i)
      else rest

  -- None where the ledger passes.
  unfoldable pub verify : List EvidenceEvent → Option Mismatch
  unfolding verify_from
  verify events = verify_from 1 genesis events
