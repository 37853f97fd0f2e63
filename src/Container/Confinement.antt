-- ===== src/Container/Confinement.antt =====
-- What the container runner runs (src/voodoo_skillset/container_executor.py).
use voodoo_skillset.Prelude.{
  String, Bool, true, false, not, some, List, [], ◌∷◌, ◌≡◌, refl, subst, sym, ap, ◌∙◌, arith, codes,
  contains, is_empty, str_eq, eq_iff, ℤ,
}
use voodoo_skillset.Json.{Json, Fields, text, get, get_or, is_text}
use voodoo_skillset.Python.{
  Result, ok, err, Method, pure, raise_if, value_error, permission_error, runtime_error,
  ok-injective, ◌>>=◌, ◌>>◌,
}
use voodoo_skillset.Python.Keeping.{bound, passed}
use voodoo_skillset.Platform.{Platform}
use voodoo_skillset.Runner.{
  Envelope, Manifest, argv_of, forbidden_executables, executable_of, validate_argv,
}
use voodoo_skillset.Runner.Confinement.{argv_checked, no_hosts}
use voodoo_skillset.Container.Image.{is_pinned}
use voodoo_skillset.Container.Supervision.{Captured}
use voodoo_skillset.Container.Runner.{
  Host, Commands, available, validate_cwd, name_of, command, run_command, run_contained,
  run_checked, result_of, execute,
}

module _ (env : Platform) (host : Host) (capability_id : String) (payload : Fields)
    (envelope : Envelope) (timeout : ℤ) (started finished : String) where
  abbrev raw : Json
  raw = get_or "cwd" (text ".") payload

  abbrev directory : String
  directory = host.machine.resolve envelope.target

  -- What a command that returned a result was, and what it left.
  pub record Contained (before after : Commands env host) (result : Fields) : Type 0 where
    pub argv : List String
    pub cwd : String
    pub no_network : (envelope.network_default ≡ "DENY") × (envelope.allowed_hosts ≡ [])
    pub arguments : argv_of (get "argv" payload) ≡ some argv
    pub executable : contains (executable_of env host.machine argv) forbidden_executables ≡ false
    pub inside : (host.escapes cwd ≡ false) × (host.is_staged_dir cwd ≡ true)
    pub target : host.machine.is_dir directory ≡ true
    pub pinned : is_pinned (codes host.image) ≡ true
    pub commands : after ≡ (command env host envelope cwd argv, name_of env host envelope) ∷ before
    pub unverified : is_text "UNKNOWN" (get "verification_status" result) ≡ true

  module _ (argv : List String) (cwd : String) where
    abbrev concluded : Captured × Manifest → Method (Commands env host) Fields
    concluded ran = pure (
        result_of env host capability_id envelope argv (host.machine.file_manifest directory) ran.0
          ran.1 started finished)

    abbrev ran : Method (Commands env host) Fields
    ran =
        run_command env host (command env host envelope cwd argv) (name_of env host envelope)
          timeout
        >>= concluded

    abbrev ran_pinned : Method (Commands env host) Fields
    ran_pinned =
        raise_if (not (is_pinned (codes host.image)))
          (value_error "container image must be digest-pinned: name@sha256:<64 hex>")
        >> ran

    abbrev ran_there : Method (Commands env host) Fields
    ran_there =
        raise_if (not (host.is_staged_dir cwd))
          (value_error "cwd does not exist in staged workspace")
        >> ran_pinned

    abbrev ran_inside : Method (Commands env host) Fields
    ran_inside =
        raise_if (host.escapes cwd)
          (value_error "cwd escaped staged workspace through symlink resolution")
        >> ran_there

    concluded_state :
        (r : Result (Captured × Manifest)) (s t : Commands env host)
        → (((λ (z : Commands env host). (r, s)) >>= concluded) t).1 ≡ s
    concluded_state (ok a) s t = refl
    concluded_state (err e) s t = refl

    concluded_result :
        (r : Result (Captured × Manifest)) (s t : Commands env host) (result : Fields)
        → (((λ (z : Commands env host). (r, s)) >>= concluded) t).0 ≡ ok result
        → is_text "UNKNOWN" (get "verification_status" result) ≡ true
    unfolding result_of
    concluded_result (ok a) s t result h =
        subst (λ r. is_text "UNKNOWN" (get "verification_status" r) ≡ true) (ok-injective h) refl
    concluded_result (err e) s t result h = absurd (ground arith)

    abbrev hosted : Result (Captured × Manifest)
    hosted = host.run (command env host envelope cwd argv) (name_of env host envelope) timeout

    ran_commands :
        (before : Commands env host)
        → (ran before).1 ≡ (command env host envelope cwd argv, name_of env host envelope) ∷ before
    unfolding run_command
    ran_commands before =
        concluded_state hosted
          ((command env host envelope cwd argv, name_of env host envelope) ∷ before) before

    ran_result :
        (before : Commands env host) (result : Fields)
        → (ran before).0 ≡ ok result
        → is_text "UNKNOWN" (get "verification_status" result) ≡ true
    unfolding run_command
    ran_result before result h =
        concluded_result hosted
          ((command env host envelope cwd argv, name_of env host envelope) ∷ before) before result h

    yes : (b : Bool) → not b ≡ false → b ≡ true
    yes b h = ground arith

    run_contained-Contained :
        (before : Commands env host) (result : Fields)
        → argv_of (get "argv" payload) ≡ some argv
        → contains (executable_of env host.machine argv) forbidden_executables ≡ false
        → (envelope.network_default ≡ "DENY") × (envelope.allowed_hosts ≡ [])
        → (run_contained env host capability_id envelope timeout started finished argv cwd before).0
          ≡ ok result
        → Contained before
            (run_contained env host capability_id envelope timeout started finished argv cwd
              before).1
            result
    unfolding run_contained
    run_contained-Contained before result e x n h =
        let g1 =
          passed (not (host.machine.is_dir directory))
            (runtime_error "execution target is not a directory") ran_inside before result h in
        let g2 =
          passed (host.escapes cwd)
            (value_error "cwd escaped staged workspace through symlink resolution") ran_there before
            result g1.1 in
        let g3 =
          passed (not (host.is_staged_dir cwd))
            (value_error "cwd does not exist in staged workspace") ran_pinned before result g2.1 in
        let g4 =
          passed (not (is_pinned (codes host.image)))
            (value_error "container image must be digest-pinned: name@sha256:<64 hex>") ran before
            result g3.1 in
        record {
          argv = argv;
          cwd = cwd;
          no_network = n;
          arguments = e;
          executable = x;
          inside = (g2.0, yes (host.is_staged_dir cwd) g3.0);
          target = yes (host.machine.is_dir directory) g1.0;
          pinned = yes (is_pinned (codes host.image)) g4.0;
          commands = g1.2 ∙ g2.2 ∙ g3.2 ∙ g4.2 ∙ ran_commands before;
          unverified = ran_result before result g4.1;
        }

  abbrev contained : List String → String → Method (Commands env host) Fields
  contained argv cwd =
      run_contained env host capability_id envelope timeout started finished argv cwd

  abbrev after_argv : List String → Method (Commands env host) Fields
  after_argv argv = validate_cwd env host raw >>= contained argv

  abbrev after_network : Method (Commands env host) Fields
  after_network =
      raise_if (not (is_empty envelope.allowed_hosts))
        (permission_error "selective egress requires a governed network broker; fail-closed")
      >> run_checked env host capability_id payload envelope timeout started finished

  abbrev after_available : Method (Commands env host) Fields
  after_available =
      raise_if (not (str_eq envelope.network_default "DENY"))
        (permission_error "container runner supports DENY network policy only")
      >> after_network

  cwd_state :
      (cwd : String) (s t : Commands env host) → validate_cwd env host raw s ≡ (ok cwd, t) → t ≡ s
  unfolding validate_cwd
  cwd_state cwd s t h = ground (arith, h)

  run_checked-Contained :
      (before : Commands env host) (result : Fields)
      → (envelope.network_default ≡ "DENY") × (envelope.allowed_hosts ≡ [])
      → (run_checked env host capability_id payload envelope timeout started finished before).0
        ≡ ok result
      → Contained before
          (run_checked env host capability_id payload envelope timeout started finished before).1
          result
  unfolding run_checked
  run_checked-Contained before result n h =
      let a = bound (validate_argv env host.machine payload) after_argv before result h in
      let c = bound (validate_cwd env host raw) (contained a.value) a.state result a.then_ok in
      let (given, allowed, same) =
        argv_checked env host.machine capability_id payload envelope started finished a.value before
          a.state a.first in
      let start = cwd_state c.value a.state c.state c.first ∙ same in
      subst (λ t. Contained before t result) (sym (ap (λ q. q.1) (a.result ∙ c.result)))
        (subst (λ t. Contained t (contained a.value c.value c.state).1 result) start
          (run_contained-Contained a.value c.value c.state result given allowed n c.then_ok))

  -- A result is returned only for one command that was run, in a container of a digest-pinned image, on
  -- an existing target, with a DENY network policy and no allowed hosts, arguments that are non-empty
  -- texts, an executable that is not forbidden, and a directory of the copy; and the result is UNKNOWN.
  pub execute-Contained :
      (before : Commands env host) (result : Fields)
      → (execute env host capability_id payload envelope timeout started finished before).0
        ≡ ok result
      → Contained before
          (execute env host capability_id payload envelope timeout started finished before).1
          result
  unfolding execute
  execute-Contained before result h =
      let g1 =
        passed (not (available env host).0) (runtime_error (available env host).1) after_available
          before result h in
      let g2 =
        passed (not (str_eq envelope.network_default "DENY"))
          (permission_error "container runner supports DENY network policy only") after_network
          before result g1.1 in
      let g3 =
        passed (not (is_empty envelope.allowed_hosts))
          (permission_error "selective egress requires a governed network broker; fail-closed")
          (run_checked env host capability_id payload envelope timeout started finished) before
          result g2.1 in
      subst (λ t. Contained before t result) (sym (g1.2 ∙ g2.2 ∙ g3.2))
        (run_checked-Contained before result
          (denied g2.0, no_hosts env host.machine envelope.allowed_hosts g3.0) g3.1)
    where
      denied :
          not (str_eq envelope.network_default "DENY") ≡ false → envelope.network_default ≡ "DENY"
      denied h = ground (arith, eq_iff envelope.network_default "DENY")
