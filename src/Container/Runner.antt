-- ===== src/Container/Runner.antt =====
-- `DockerSandboxExecutor.execute` and `_command` of
-- src/voodoo_skillset/container_executor.py. The host (its files, `docker` and the processes) is a
-- parameter; `_validate_argv` and the manifests are those of the namespace runner.
use Prim.Native.String.{◌++◌ as ◌+++◌}
use voodoo_skillset.Prelude.{
  String, Bool, true, false, not, ◌||◌, Option, none, some, List, [], ◌∷◌, ℤ, pos, eqb_ℤ, contains,
  is_empty, codes, str_eq, if◌then◌else◌,
}
use voodoo_skillset.Json.{Json, Fields, null, text, int, bool, array, object, dict, get_or, texts}
use voodoo_skillset.Python.{
  Result, Method, pure, raise_if, value_error, permission_error, runtime_error, ◌>>=◌, ◌>>◌,
}
use voodoo_skillset.Platform.{Platform, text_of}
use voodoo_skillset.Runner.{Envelope, Machine, Manifest, validate_argv, staged_changes}
use voodoo_skillset.Container.Supervision.{Termination, reason, Captured}
use voodoo_skillset.Container.Image.{is_pinned, container_name}

pub record Host : Type 0 where
  -- the files, as for the namespace runner
  pub machine : Machine
  pub docker_path : String
  pub image : String
  -- the probe of `docker image inspect`, and `str.lower`
  pub probe : Bool × String
  pub lower : String → String
  pub uid : String
  pub gid : String
  -- str(staged / cwd), resolved, and whether it is inside of the staged copy, and a directory
  pub escapes : String → Bool
  pub is_staged_dir : String → Bool
  -- `_run_bounded(command, name, timeout)`, which may raise, and the manifest of the copy after it
  pub run : List String → String → ℤ → Result (Captured × Manifest)

module _ (env : Platform) (host : Host) where
  unfoldable pub available : Bool × String
  unfolding is_pinned
  available =
      if str_eq host.docker_path ""
      then (false, "docker executable not found")
      else if str_eq host.image ""
      then (false, "VOODOO_EXECUTOR_CONTAINER_IMAGE is not configured")
      else if not (is_pinned (codes host.image))
      then (false, "container image must be digest-pinned: name@sha256:<64 hex>")
      else host.probe

  -- `Path(str(raw if raw is not None else "."))`, as a text
  abbrev pub cwd_text : Json → String
  cwd_text null = "."
  cwd_text v = text_of env v

  unfoldable pub validate_cwd : {S : Type 0} → Json → Method S String
  validate_cwd raw = do
    raise_if (env.is_absolute (cwd_text raw) || contains ".." (env.parts (cwd_text raw)))
        (value_error "cwd must stay relative to staged workspace")
    pure (host.machine.path_text (cwd_text raw))

  abbrev pub workdir : String → String
  workdir cwd = if contains cwd ("." ∷ "" ∷ []) then "/workspace" else "/workspace/" +++ cwd

  abbrev pub limit : String → ℤ → String
  limit name n = name +++ env.str (int n)

  abbrev pub limits : String → ℤ → String
  limits name n = name +++ (env.str (int n) +++ (":" +++ env.str (int n)))

  abbrev pub name_of : Envelope → String
  name_of envelope = container_name (host.lower envelope.operation_id)

  unfoldable pub options : Envelope → String → List String → List String
  options envelope cwd rest =
      "--rm"
      ∷ ("--name=" +++ name_of envelope)
      ∷ "--pull=never"
      ∷ "--network=none"
      ∷ "--read-only"
      ∷ "--cap-drop=ALL"
      ∷ "--security-opt=no-new-privileges:true"
      ∷ "--pids-limit=128"
      ∷ limit "--memory=" envelope.memory_limit_bytes
      ∷ limit "--memory-swap=" envelope.memory_limit_bytes
      ∷ "--cpus=1.0"
      ∷ limits "--ulimit=nofile=" envelope.nofile_limit
      ∷ limits "--ulimit=fsize=" envelope.file_size_limit_bytes
      ∷ "--tmpfs=/tmp:rw,nosuid,nodev,noexec,size=67108864"
      ∷ ("--user=" +++ (host.uid +++ (":" +++ host.gid)))
      ∷ "--hostname=voodoo-sandbox"
      ∷ "--env=HOME=/tmp"
      ∷ "--env=PYTHONDONTWRITEBYTECODE=1"
      ∷ ("--mount=type=bind,src=" +++ (host.machine.staged +++ ",dst=/workspace"))
      ∷ ("--workdir=" +++ workdir cwd)
      ∷ rest

  unfoldable pub command : Envelope → String → List String → List String
  unfolding options
  command envelope cwd argv = host.docker_path ∷ "run" ∷ options envelope cwd (host.image ∷ argv)

  unfoldable pub isolation : Envelope → Fields
  isolation envelope = dict (
      ("container", bool true)
      ∷ ("network_namespace", bool true)
      ∷ ("network_default", text "DENY")
      ∷ ("root_filesystem", text "READ_ONLY")
      ∷ ("workspace", text "EPHEMERAL_COPY_ONLY")
      ∷ ("capabilities", text "ALL_DROPPED")
      ∷ ("no_new_privileges", bool true)
      ∷ ("environment_inherited", bool false)
      ∷ ("pids_limit", int (pos 128))
      ∷ ("cpu_limit", text "1.0")
      ∷ ("memory_limit_bytes", int envelope.memory_limit_bytes)
      ∷ ("file_size_limit_bytes", int envelope.file_size_limit_bytes)
      ∷ ("nofile_limit", int envelope.nofile_limit)
      ∷ [])

  abbrev pub reason? : Option Termination → Json
  reason? none = null
  reason? (some t) = text (reason t)

  unfoldable pub result_of :
      String → Envelope → List String → Manifest → Captured → Manifest → String → String → Fields
  unfolding isolation staged_changes
  result_of capability_id envelope argv before ran after started finished = dict (
      ("status", text (if eqb_ℤ ran.code (pos 0) then "EXECUTED" else "FAILED"))
      ∷ ("verification_status", text "UNKNOWN")
      ∷ ("capability_id", text capability_id)
      ∷ ("operation_id", text envelope.operation_id)
      ∷ ("runner", text "docker-container-v1")
      ∷ ("container_image", text host.image)
      ∷ ("termination_reason", reason? ran.termination)
      ∷ ("output_limit_bytes_per_stream", int (pos 4194304))
      ∷ ("isolation", object (isolation envelope))
      ∷ ("argv", array (texts argv))
      ∷ ("exit_code", int ran.code)
      ∷ ("stdout", text ran.stdout)
      ∷ ("stderr", text ran.stderr)
      ∷ ("stdout_sha256", text (host.machine.sha256_text ran.stdout))
      ∷ ("stderr_sha256", text (host.machine.sha256_text ran.stderr))
      ∷ ("started_at", text started)
      ∷ ("finished_at", text finished)
      ∷ ("staged_changes", array (texts (staged_changes before after)))
      ∷ ("persistent_effect", text "NONE")
      ∷ [])

  -- The state is the commands that were run, with the names of their containers.
  abbrev pub Commands : Type 0
  Commands = List (List String × String)

  unfoldable pub run_command : List String → String → ℤ → Method Commands (Captured × Manifest)
  run_command argv name timeout done = (host.run argv name timeout, (argv, name) ∷ done)

  -- From the checked directory on.
  unfoldable pub run_contained :
      String → Envelope → ℤ → String → String → List String → String → Method Commands Fields
  unfolding command run_command result_of
  run_contained capability_id envelope timeout started finished argv cwd = do
    raise_if (not (host.machine.is_dir (host.machine.resolve envelope.target)))
        (runtime_error "execution target is not a directory")
    raise_if (host.escapes cwd)
        (value_error "cwd escaped staged workspace through symlink resolution")
    raise_if (not (host.is_staged_dir cwd)) (value_error "cwd does not exist in staged workspace")
    raise_if (not (is_pinned (codes host.image)))
        (value_error "container image must be digest-pinned: name@sha256:<64 hex>")
    ran ← run_command (command envelope cwd argv) (name_of envelope) timeout
    pure (
        result_of capability_id envelope argv
          (host.machine.file_manifest (host.machine.resolve envelope.target)) ran.0 ran.1 started
          finished)

  -- Behind the checks of the envelope.
  unfoldable pub run_checked :
      String → Fields → Envelope → ℤ → String → String → Method Commands Fields
  unfolding validate_cwd run_contained
  run_checked capability_id payload envelope timeout started finished = do
    argv ← validate_argv env host.machine payload
    cwd ← validate_cwd (get_or "cwd" (text ".") payload)
    run_contained capability_id envelope timeout started finished argv cwd

  unfoldable pub execute : String → Fields → Envelope → ℤ → String → String → Method Commands Fields
  unfolding available run_checked
  execute capability_id payload envelope timeout started finished = do
    raise_if (not available.0) (runtime_error available.1)
    raise_if (not (str_eq envelope.network_default "DENY"))
        (permission_error "container runner supports DENY network policy only")
    raise_if (not (is_empty envelope.allowed_hosts))
        (permission_error "selective egress requires a governed network broker; fail-closed")
    run_checked capability_id payload envelope timeout started finished
