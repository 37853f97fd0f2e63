-- ===== src/Container/Supervision.antt =====
-- The watch over a process in `_run_bounded` of src/voodoo_skillset/container_executor.py, and what it
-- returns. What the loop sees in each round, and what the process writes, are arguments; `decode` is
-- `bytes.decode("utf-8", errors="replace")`. Times count the units of a monotonic clock.
pub mod Cleanup
use voodoo_skillset.Prelude.{
  ℕ, suc, String, Bool, true, false, not, ◌&&◌, ◌||◌, Option, none, some, List, [], ◌∷◌, ◌++◌, ◌+◌,
  ◌≡◌, ◌≢◌, ◌⊎◌, refl, sym, subst, ap, arith, inl, inr, Bool-cases, ◌≤◌, ◌<◌, length, any_of, codes,
  ℤ, pos, leb, if◌then◌else◌,
}
use voodoo_skillset.Container.Output.{
  max_capture_bytes, take, extend, drain, joined, drained, length-drained, length-extend,
}

pub data Termination : Type 0 where
  output_limit execution_timeout cleanup_timeout : Termination

abbrev pub reason : Termination → String
reason output_limit = "output limit exceeded"
reason execution_timeout = "execution timeout"
reason cleanup_timeout = "executor cleanup timeout"

-- `self._force_remove(name)` and `proc.kill()`.
pub data Effect : Type 0 where
  force_remove kill : Effect

-- One round: `proc.poll() is not None`, the chunks that the two threads have read by then,
-- `time.monotonic()`, and `proc.poll() is not None` once more, after the container is removed.
pub record Tick : Type 0 where
  pub exited : Bool
  pub stdout : List (List ℕ)
  pub stderr : List (List ℕ)
  pub now : ℕ
  pub exited_after : Bool

-- The chunks that each thread has read when `join(timeout=2)` returns, whether the two calls of
-- `proc.wait(timeout=5)` run out of time, and `proc.returncode or 0`.
pub record Process : Type 0 where
  pub ticks : List Tick
  pub stdout : List (List ℕ)
  pub stderr : List (List ℕ)
  pub wait_late : Bool
  pub kill_late : Bool
  pub returncode : ℤ

-- `overflow.is_set()`: one of the threads has read more than is kept.
abbrev pub overflowed : Tick → Bool
overflowed t = (drain max_capture_bytes t.stdout []).1 || (drain max_capture_bytes t.stderr []).1

-- `_force_remove`, and `kill` unless the process has ended.
abbrev pub removal : Tick → List Effect
removal t = force_remove ∷ (if t.exited_after then [] else kill ∷ [])

-- The loop: why it has stopped the process, if it has, and what it did; none where the rounds end first.
unfoldable pub supervise : ℕ → List Tick → Option (Option Termination × List Effect)
supervise deadline [] = none
supervise deadline (t ∷ ts) =
    let rest = supervise deadline ts in
    if t.exited
    then some (none, [])
    else if overflowed t
    then some (some output_limit, removal t)
    else if leb deadline t.now
    then some (some execution_timeout, removal t)
    else rest

-- `termination = termination or "executor cleanup timeout"`
abbrev pub or_cleanup : Option Termination → Termination
or_cleanup none = cleanup_timeout
or_cleanup (some t) = t

abbrev pub exit_code : ℤ → Option Termination → ℤ
exit_code returncode none = returncode
exit_code returncode (some execution_timeout) = pos 124
exit_code returncode (some output_limit) = pos 125
exit_code returncode (some cleanup_timeout) = pos 125

abbrev pub newline : List ℕ
newline = 10 ∷ []

-- The marker is ASCII: its bytes are its codes.
abbrev pub marked : Option Termination → List ℕ → List ℕ
marked none buffer = buffer
marked (some t) buffer =
    extend max_capture_bytes (newline ++ (codes "VOODOO: " ++ (codes (reason t) ++ newline))) buffer

pub record Captured : Type 0 where
  pub code : ℤ
  pub stdout : String
  pub stderr : String
  pub termination : Option Termination

-- The rounds have ended before the loop, `TimeoutExpired` has escaped from the second wait, or the call
-- has returned.
pub data Ending : Type 0 where
  running : Ending
  escaped : Ending
  returned : Captured → Ending

module _ (decode : List ℕ → String) where
  -- What is returned once the threads are joined.
  unfoldable pub capture : Process → Option Termination → Captured
  capture p ended = record {
    code = exit_code p.returncode ended;
    stdout = decode (drain max_capture_bytes p.stdout []).0;
    stderr = decode (marked ended (drain max_capture_bytes p.stderr []).0);
    termination = ended;
  }

  -- The waits behind the loop.
  unfoldable pub settle : Process → Option Termination × List Effect → Ending × List Effect
  unfolding capture
  settle p (seen, done) =
      if not p.wait_late
      then (returned (capture p seen), done)
      else if p.kill_late
      then (escaped, done ++ (force_remove ∷ kill ∷ []))
      else (returned (capture p (some (or_cleanup seen))), done ++ (force_remove ∷ kill ∷ []))

  unfoldable pub run_bounded : ℕ → Process → Ending × List Effect
  unfolding supervise settle
  run_bounded deadline p = elim (supervise deadline p.ticks) [
    | none ↦ (running, [])
    | some seen ↦ settle p seen
  ]
