-- ===== src/Container/Supervision/Cleanup.antt =====
-- What `_run_bounded` of src/voodoo_skillset/container_executor.py leaves behind: the output that it
-- returns, and whether the container and its process are gone.
use voodoo_skillset.Prelude.{
  ℕ, String, Bool, true, false, not, if◌then◌else◌, ◌||◌, Option, none, some, List, [], ◌∷◌, ◌++◌,
  ◌+◌, ◌≡◌, ◌≢◌, ◌⊎◌, refl, sym, ap, subst, arith, inl, inr, Bool-cases, ◌≤◌, ◌<◌, length, any_of,
  ℤ, pos, leb, codes,
}
use voodoo_skillset.Container.Output.{
  max_capture_bytes, take, drain, joined, drained, length-drained, length-extend,
}
use voodoo_skillset.Container.Supervision.{
  Termination, output_limit, execution_timeout, cleanup_timeout, reason, Effect, force_remove, kill,
  Tick, Process, overflowed, removal, supervise, or_cleanup, exit_code, newline, marked, Captured,
  Ending, running, escaped, returned, capture, settle, run_bounded,
}

abbrev pub is_removal : Effect → Bool
is_removal force_remove = true
is_removal kill = false

abbrev pub is_kill : Effect → Bool
is_kill force_remove = false
is_kill kill = true

abbrev pub has_ended : Tick → Bool
has_ended t = t.exited_after

-- The container has been removed, and the process killed unless a round has seen it gone after that.
pub record Removed (p : Process) (done : List Effect) : Type 0 where
  pub container : any_of is_removal done ≡ true
  pub process : (any_of is_kill done ≡ true) ⊎ (any_of has_ended p.ticks ≡ true)

-- What is returned: of stdout the first bytes up to the limit, decoded; of stderr no more bytes than the
-- limit, the marker included; the process's own code where nothing stopped it, and then nothing was
-- removed or killed; another code than 0 where something stopped it, and then it was removed.
pub record IsCaptured (decode : List ℕ → String) (p : Process) (c : Captured) (done : List Effect)
    : Type 0 where
  pub stdout : c.stdout ≡ decode (take max_capture_bytes (joined p.stdout))
  pub stderr : (bytes : List ℕ) × (c.stderr ≡ decode bytes) × (length bytes ≤ max_capture_bytes)
  pub outcome :
      ((c.termination ≡ none) × (c.code ≡ p.returncode) × (done ≡ []))
      ⊎ ((c.code ≢ pos 0) × Removed p done)

abbrev pub Ends : (List ℕ → String) → Process → Ending × List Effect → Type 0
Ends decode p (running, done) = ⊥
Ends decode p (escaped, done) = (p.wait_late ≡ true) × (p.kill_late ≡ true) × Removed p done
Ends decode p (returned c, done) = IsCaptured decode p c done

-- The clock moves between two rounds.
abbrev pub Advancing : ℕ → List Tick → Type 0
Advancing start [] = Unit {0}
Advancing start (t ∷ ts) = (start < t.now) × Advancing t.now ts

-- What the loop has done by its end.
abbrev pub Stopped : List Tick → Option Termination × List Effect → Type 0
Stopped ts (none, done) = done ≡ []
Stopped ts (some t, done) =
    (any_of is_removal done ≡ true) × ((any_of is_kill done ≡ true) ⊎ (any_of has_ended ts ≡ true))

removal-Stopped :
    (t : Tick) (ts : List Tick) (why : Termination) → Stopped (t ∷ ts) (some why, removal t)
removal-Stopped t ts why = elim (Bool-cases t.exited_after) [
  | inl gone ↦ (refl, inr (rw gone refl))
  | inr alive ↦ (refl, inl (rw alive refl))
]

later-Stopped :
    (t : Tick) (ts : List Tick) (seen : Option Termination × List Effect)
    → Stopped ts seen
    → Stopped (t ∷ ts) seen
later-Stopped t ts (none, done) h = h
later-Stopped t ts (some why, done) (removed, inl killed) = (removed, inl killed)
later-Stopped t ts (some why, done) (removed, inr gone) = (removed, inr (ground (arith, gone)))

-- The loop ends by the deadline.
supervise-Stopped :
    (start deadline : ℕ) (ts : List Tick)
    → start < deadline
    → Advancing start ts
    → deadline ≤ start + length ts
    → (seen : Option Termination × List Effect) × (supervise deadline ts ≡ some seen)
      × Stopped ts seen
unfolding supervise
supervise-Stopped start deadline [] before moves enough = absurd (omega (arith, before, enough))
supervise-Stopped start deadline (t ∷ ts) before moves enough = elim (Bool-cases t.exited) [
  | inl e ↦ ((none, []), rw e refl, refl)
  | inr e ↦ elim (Bool-cases (overflowed t)) [
    | inl o ↦ ((some output_limit, removal t), rw (e, o) refl, removal-Stopped t ts output_limit)
    | inr o ↦ elim (Bool-cases (leb deadline t.now)) [
      | inl d ↦ (
        (some execution_timeout, removal t),
        rw (e, o, d) refl,
        removal-Stopped t ts execution_timeout,
      )
      | inr d ↦
          let (seen, found, stopped) =
            supervise-Stopped t.now deadline ts (ground (arith, d)) moves.1
              (ground (arith, enough, moves.0)) in
          (seen, rw (e, o, d) found, later-Stopped t ts seen stopped)
    ]
  ]
]

marked_bound :
    (ended : Option Termination) (buffer : List ℕ)
    → length buffer ≤ max_capture_bytes
    → length (marked ended buffer) ≤ max_capture_bytes
marked_bound none buffer h = h
marked_bound (some t) buffer h =
    length-extend max_capture_bytes (newline ++ (codes "VOODOO: " ++ (codes (reason t) ++ newline)))
      buffer h

code_of_termination : (returncode : ℤ) (t : Termination) → exit_code returncode (some t) ≢ pos 0
code_of_termination returncode execution_timeout h = ground arith
code_of_termination returncode output_limit h = ground arith
code_of_termination returncode cleanup_timeout h = ground arith

any_of-append :
    (q : Effect → Bool) (xs ys : List Effect) → any_of q (xs ++ ys) ≡ (any_of q xs || any_of q ys)
any_of-append q [] ys = refl
any_of-append q (x ∷ xs) ys = ground (arith, any_of-append q xs ys)

forced-Removed : (p : Process) (done : List Effect) → Removed p (done ++ (force_remove ∷ kill ∷ []))
forced-Removed p done = record {
  container = rw (any_of-append is_removal done (force_remove ∷ kill ∷ [])) (ground arith);
  process = inl (rw (any_of-append is_kill done (force_remove ∷ kill ∷ [])) (ground arith));
}

module _ (decode : List ℕ → String) (p : Process) where
  captured :
      (ended : Option Termination) (done : List Effect)
      → ((ended ≡ none) × (exit_code p.returncode ended ≡ p.returncode) × (done ≡ []))
        ⊎ ((exit_code p.returncode ended ≢ pos 0) × Removed p done)
      → IsCaptured decode p (capture decode p ended) done
  unfolding capture
  captured ended done how = record {
    stdout = ap decode (drained max_capture_bytes p.stdout);
    stderr = (
      marked ended (drain max_capture_bytes p.stderr []).0,
      refl,
      marked_bound ended (drain max_capture_bytes p.stderr []).0
          (length-drained max_capture_bytes p.stderr),
    );
    outcome = how;
  }

  Stopped-how :
      (seen : Option Termination) (done : List Effect)
      → Stopped p.ticks (seen, done)
      → ((seen ≡ none) × (exit_code p.returncode seen ≡ p.returncode) × (done ≡ []))
        ⊎ ((exit_code p.returncode seen ≢ pos 0) × Removed p done)
  Stopped-how none done h = inl (refl, refl, h)
  Stopped-how (some t) done h =
      inr (code_of_termination p.returncode t, record { container = h.0; process = h.1 })

  settle-Ends :
      (seen : Option Termination) (done : List Effect)
      → Stopped p.ticks (seen, done)
      → Ends decode p (settle decode p (seen, done))
  unfolding settle
  settle-Ends seen done h =
      let forced = done ++ (force_remove ∷ kill ∷ []) in
      let in_time : Ending × List Effect = (returned (capture decode p seen), done) in
      let cleaned : Ending × List Effect =
        (returned (capture decode p (some (or_cleanup seen))), forced) in
      let after_kill : Bool → Ending × List Effect =
        λ b. if b then (escaped, forced) else cleaned in
      let Holds : Bool → Type 0 =
        λ b. Ends decode p (if not b then in_time else after_kill p.kill_late) in
      elim (Bool-cases p.wait_late) [
        | inr ended ↦ subst Holds (sym ended) (captured seen done (Stopped-how seen done h))
        | inl late ↦ subst Holds (sym late) (elim (Bool-cases p.kill_late) [
          | inl lost ↦
              subst (λ b. Ends decode p (after_kill b)) (sym lost)
                (late, lost, forced-Removed p done)
          | inr ended ↦
              subst (λ b. Ends decode p (after_kill b)) (sym ended)
                (captured (some (or_cleanup seen)) forced
                  (inr (code_of_termination p.returncode (or_cleanup seen), forced-Removed p done)))
        ])
      ]

  -- Where the clock moves in every round and the rounds reach the deadline, `_run_bounded` comes to an
  -- end. It returns the first bytes of stdout up to the limit and at most so many of stderr, decoded, with
  -- the process's own code where it neither removed nor killed anything, and otherwise with another code
  -- than 0, the container removed, and the process killed or seen to have ended after that. Only where
  -- both waits run out of time does an exception escape, and the container is removed then too.
  pub run_bounded-Ends :
      (start deadline : ℕ)
      → start < deadline
      → Advancing start p.ticks
      → deadline ≤ start + length p.ticks
      → Ends decode p (run_bounded decode deadline p)
  unfolding run_bounded
  run_bounded-Ends start deadline before moves enough =
      let ((seen, done), found, stopped) =
        supervise-Stopped start deadline p.ticks before moves enough in
      let ending : Option (Option Termination × List Effect) → Ending × List Effect =
        λ o. elim o [ none ↦ (running, []) | some x ↦ settle decode p x ] in
      subst (λ o. Ends decode p (ending o)) (sym found) (settle-Ends seen done stopped)
