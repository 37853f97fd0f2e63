-- ===== src/Runner/Confinement.antt =====
-- What the namespace runner runs (src/voodoo_skillset/execution.py).
use voodoo_skillset.Prelude.{
  String, Bool, true, false, not, ◌||◌, Option, none, some, List, [], ◌∷◌, ◌≡◌, refl, subst, sym,
  ap, ◌∙◌, arith, contains, is_empty, str_eq, eq_iff,
}
use voodoo_skillset.Json.{Fields, text, get, get_or, is_text}
use voodoo_skillset.Python.{
  Result, ok, err, Method, pure, or_raise, raise_if, value_error, permission_error, runtime_error,
  ok-injective, ◌>>=◌, ◌>>◌,
}
use voodoo_skillset.Python.Keeping.{bound, passed}
use voodoo_skillset.Platform.{Platform, text_of}
use voodoo_skillset.Runner.{
  Envelope, Machine, Completed, Manifest, argv_of, forbidden_executables, executable_of,
  validate_argv, command, Commands, run_command, run_confined, result_of, execute,
}

module _ (env : Platform) (machine : Machine) where
  -- The arguments, the directory in the copy and the envelope of a command that may run.
  pub record IsConfined (payload : Fields) (envelope : Envelope) (argv : List String) : Type 0 where
    pub no_network : (envelope.network_default ≡ "DENY") × (envelope.allowed_hosts ≡ [])
    pub arguments : argv_of (get "argv" payload) ≡ some argv
    pub executable : contains (executable_of env machine argv) forbidden_executables ≡ false
    pub inside :
        (env.is_absolute (text_of env (get_or "cwd" (text ".") payload)) ≡ false)
        × (contains ".." (env.parts (text_of env (get_or "cwd" (text ".") payload))) ≡ false)
    pub target : machine.is_dir (machine.resolve envelope.target) ≡ true

  pub no_hosts : (hosts : List String) → not (is_empty hosts) ≡ false → hosts ≡ []
  no_hosts [] h = refl
  no_hosts (x ∷ xs) h = absurd (ground arith)

  module _ (capability_id : String) (payload : Fields) (envelope : Envelope)
      (started finished : String) where
    abbrev cwd : String
    cwd = text_of env (get_or "cwd" (text ".") payload)

    abbrev directory : String
    directory = machine.resolve envelope.target

    abbrev concluded : List String → Completed × Manifest → Method (Commands env machine) Fields
    concluded argv ran = pure (
        result_of env machine capability_id envelope argv (machine.file_manifest directory) ran.0
          ran.1 started finished)

    abbrev ran : List String → Method (Commands env machine) Fields
    ran argv =
        run_command env machine (command env machine envelope argv cwd) directory >>= concluded argv

    abbrev ran_inside : List String → Method (Commands env machine) Fields
    ran_inside argv =
        raise_if (env.is_absolute cwd || contains ".." (env.parts cwd))
          (value_error "cwd must stay relative to staged workspace")
        >> ran argv

    -- What a command that returned a result was, and what it left.
    pub record Confined (before after : Commands env machine) (result : Fields) : Type 0 where
      pub argv : List String
      pub confined : IsConfined payload envelope argv
      pub commands : after ≡ (command env machine envelope argv cwd, directory) ∷ before
      pub unverified : is_text "UNKNOWN" (get "verification_status" result) ≡ true

    ran_result :
        (argv : List String) (before : Commands env machine) (result : Fields)
        → (ran argv before).0 ≡ ok result
        → is_text "UNKNOWN" (get "verification_status" result) ≡ true
    unfolding result_of
    ran_result argv before result h =
        let done =
          bound (run_command env machine (command env machine envelope argv cwd) directory)
            (concluded argv) before result h in
        subst (λ r. is_text "UNKNOWN" (get "verification_status" r) ≡ true)
          (ok-injective done.then_ok) refl

    ran_commands :
        (argv : List String) (before : Commands env machine)
        → (ran argv before).1 ≡ (command env machine envelope argv cwd, directory) ∷ before
    unfolding run_command
    ran_commands argv before = left (machine.run (command env machine envelope argv cwd) directory)
      where
        left :
            (r : Result (Completed × Manifest))
            → (((λ (done : Commands env machine).
                    (r, (command env machine envelope argv cwd, directory) ∷ done))
                  >>= concluded argv)
                before).1
              ≡ (command env machine envelope argv cwd, directory) ∷ before
        left (ok ended) = refl
        left (err e) = refl

    unforbidden :
        (xs : List String) (b : Bool) {argv : List String} {s t : Commands env machine}
        → contains (executable_of env machine xs) forbidden_executables ≡ b
        → (raise_if b (permission_error "shell/privileged wrapper blocked in isolated runner")
              >> pure xs)
            s
          ≡ (ok argv, t)
        → (some xs ≡ some argv)
          × (contains (executable_of env machine argv) forbidden_executables ≡ false)
          × (t ≡ s)
    unforbidden xs true e h = absurd (ground arith)
    unforbidden xs false e h =
        let same = ok-injective (ap (λ q. q.0) h) in
        (
          ap some same,
          subst (λ ys. contains (executable_of env machine ys) forbidden_executables ≡ false) same
              e,
          sym (ap (λ q. q.1) h),
        )

    pub argv_checked :
        (argv : List String) (s t : Commands env machine)
        → validate_argv env machine payload s ≡ (ok argv, t)
        → (argv_of (get "argv" payload) ≡ some argv)
          × (contains (executable_of env machine argv) forbidden_executables ≡ false)
          × (t ≡ s)
    unfolding validate_argv
    argv_checked argv s t h = checked (argv_of (get "argv" payload)) h
      where
        checked :
            (o : Option (List String))
            → (or_raise o (value_error "payload.argv must be a non-empty string array") >>= λ xs.
                  (raise_if
                      (contains (executable_of env machine xs) forbidden_executables)
                      (permission_error "shell/privileged wrapper blocked in isolated runner")
                    >> pure xs))
                s
              ≡ (ok argv, t)
            → (o ≡ some argv)
              × (contains (executable_of env machine argv) forbidden_executables ≡ false)
              × (t ≡ s)
        checked none h = absurd (ground arith)
        checked (some xs) h =
            unforbidden xs (contains (executable_of env machine xs) forbidden_executables) refl h

    after_argv-Confined :
        (argv : List String) (before : Commands env machine) (result : Fields)
        → argv_of (get "argv" payload) ≡ some argv
        → contains (executable_of env machine argv) forbidden_executables ≡ false
        → (envelope.network_default ≡ "DENY") × (envelope.allowed_hosts ≡ [])
        → (run_confined env machine capability_id envelope cwd started finished argv before).0
          ≡ ok result
        → Confined before
            (run_confined env machine capability_id envelope cwd started finished argv before).1
            result
    unfolding run_confined
    after_argv-Confined argv before result e x n h =
        let g1 =
          passed (not (machine.is_dir directory))
            (runtime_error "execution target is not a directory") (ran_inside argv) before result
            h in
        let g2 =
          passed (env.is_absolute cwd || contains ".." (env.parts cwd))
            (value_error "cwd must stay relative to staged workspace") (ran argv) before result
            g1.1 in
        record {
          argv = argv;
          confined = record {
            no_network = n;
            arguments = e;
            executable = x;
            inside = relative (env.is_absolute cwd) (contains ".." (env.parts cwd)) g2.0;
            target = exists (machine.is_dir directory) g1.0;
          };
          commands = g1.2 ∙ g2.2 ∙ ran_commands argv before;
          unverified = ran_result argv before result g2.1;
        }
      where
        relative : (a b : Bool) → (a || b) ≡ false → (a ≡ false) × (b ≡ false)
        relative a b h = ground arith

        exists : (b : Bool) → not b ≡ false → b ≡ true
        exists b h = ground arith

    abbrev after_hosts : Method (Commands env machine) Fields
    after_hosts =
        validate_argv env machine payload
        >>= run_confined env machine capability_id envelope cwd started finished

    abbrev after_network : Method (Commands env machine) Fields
    after_network =
        raise_if (not (is_empty envelope.allowed_hosts))
          (permission_error "selective egress requires a governed network broker; fail-closed")
        >> after_hosts

    abbrev after_available : Method (Commands env machine) Fields
    after_available =
        raise_if (not (str_eq envelope.network_default "DENY"))
          (permission_error "namespace runner supports DENY network policy only")
        >> after_network

    -- A result is returned only for one command that was run, in the namespaces, on an existing target,
    -- with a DENY network policy and no allowed hosts, arguments that are non-empty texts, an executable
    -- that is not forbidden, and a directory inside the copy; and the result is UNKNOWN.
    pub execute-Confined :
        (before : Commands env machine) (result : Fields)
        → (execute env machine capability_id payload envelope started finished before).0 ≡ ok result
        → Confined before
            (execute env machine capability_id payload envelope started finished before).1
            result
    unfolding execute
    execute-Confined before result h =
        let g1 =
          passed (not machine.available.0) (runtime_error machine.available.1) after_available
            before result h in
        let g2 =
          passed (not (str_eq envelope.network_default "DENY"))
            (permission_error "namespace runner supports DENY network policy only") after_network
            before result g1.1 in
        let g3 =
          passed (not (is_empty envelope.allowed_hosts))
            (permission_error "selective egress requires a governed network broker; fail-closed")
            after_hosts before result g2.1 in
        let b =
          bound (validate_argv env machine payload)
            (run_confined env machine capability_id envelope cwd started finished) before result
            g3.1 in
        let (given, allowed, same) = argv_checked b.value before b.state b.first in
        subst (λ t. Confined before t result) (sym (g1.2 ∙ g2.2 ∙ g3.2 ∙ ap (λ q. q.1) b.result))
          (subst
            (λ t.
              Confined t
                (run_confined env machine capability_id envelope cwd started finished b.value
                  b.state).1
                result)
            same
            (after_argv-Confined b.value b.state result given allowed
              (denied g2.0, no_hosts envelope.allowed_hosts g3.0) b.then_ok))
      where
        denied :
            not (str_eq envelope.network_default "DENY") ≡ false → envelope.network_default ≡ "DENY"
        denied h = ground (arith, eq_iff envelope.network_default "DENY")
