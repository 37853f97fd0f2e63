-- ===== src/Runner.antt =====
-- `LinuxNamespaceExecutor` of src/voodoo_skillset/execution.py: the guards before a command runs in
-- its namespaces, and the result. The machine (its files, `unshare` and the processes) is a parameter.
pub mod Confinement
mod Tests
use voodoo_skillset.Prelude.{
  ℕ, String, Bool, true, false, not, ◌&&◌, ◌||◌, Option, none, some, List, [], ◌∷◌, ◌++◌, ℤ, pos,
  eqb_ℤ, contains, is_empty, str_eq, text_before, if◌then◌else◌,
}
use voodoo_skillset.Json.{
  Json, Items, Fields, text, int, bool, array, object, nil, cons, dict, get, get_or, texts,
}
use voodoo_skillset.Python.{
  PyError, value_error, permission_error, runtime_error, Result, ok, err, Method, pure, raise,
  or_raise, raise_if, ◌>>=◌, ◌>>◌,
}
use voodoo_skillset.Platform.{Platform, text_of}

pub record Envelope : Type 0 where
  pub operation_id : String
  pub target : String
  pub network_default : String
  pub allowed_hosts : List String
  pub cpu_limit_seconds : ℤ
  pub memory_limit_bytes : ℤ
  pub file_size_limit_bytes : ℤ
  pub nofile_limit : ℤ

pub record Completed : Type 0 where
  pub returncode : ℤ
  pub stdout : String
  pub stderr : String

-- The paths and hashes of the files under a directory, by `_file_manifest`.
abbrev pub Manifest : Type 0
Manifest = List (String × String)

-- `run command directory` gives the process and the manifest of the staged copy after it.
pub record Machine : Type 0 where
  pub available : Bool × String
  pub unshare_path : String
  pub python : String
  pub rootfs : String
  pub staged : String
  pub name : String → String
  pub resolve : String → String
  -- str(Path(t))
  pub path_text : String → String
  pub is_dir : String → Bool
  pub file_manifest : String → Manifest
  pub sha256_text : String → String
  -- `subprocess.run`, which may raise, and the manifest of the copy after it
  pub run : List String → String → Result (Completed × Manifest)

abbrev pub forbidden_executables : List String
forbidden_executables =
    "bash" ∷ "sh" ∷ "zsh" ∷ "fish" ∷ "sudo" ∷ "su" ∷ "doas" ∷ "env" ∷ "printenv" ∷ []

-- The elements of an array of non-empty texts.
unfoldable pub argument_texts : Items → Option (List String)
argument_texts nil = some []
argument_texts (cons (text t) rest) =
    let others = argument_texts rest in
    if str_eq t "" then none else elim others [ none ↦ none | some ts ↦ some (t ∷ ts) ]
argument_texts (cons v rest) = none

unfoldable pub argv_of : Option Json → Option (List String)
unfolding argument_texts
argv_of (some (array (cons v rest))) = argument_texts (cons v rest)
argv_of _ = none

-- A sorted list without repetitions, and a new key.
unfoldable pub insert_key : String → List String → List String
insert_key k [] = k ∷ []
insert_key k (j ∷ js) =
    let rest = insert_key k js in
    if str_eq k j then j ∷ js else if text_before k j then k ∷ j ∷ js else j ∷ rest

unfoldable pub hash_of : String → Manifest → Option String
hash_of k [] = none
hash_of k ((j, h) ∷ rest) = let found = hash_of k rest in if str_eq k j then some h else found

abbrev pub same_hash : Option String → Option String → Bool
same_hash none none = true
same_hash (some a) (some b) = str_eq a b
same_hash _ _ = false

-- The keys of one manifest whose hashes differ in the two.
unfoldable pub changed_among : Manifest → Manifest → Manifest → List String → List String
unfolding insert_key hash_of
changed_among [] before after found = found
changed_among ((k, h) ∷ rest) before after found =
    changed_among rest before after
      (if same_hash (hash_of k before) (hash_of k after) then found else insert_key k found)

unfoldable pub staged_changes : Manifest → Manifest → List String
unfolding changed_among
staged_changes before after =
    changed_among before before after (changed_among after before after [])

module _ (env : Platform) (machine : Machine) where
  abbrev pub executable_of : List String → String
  executable_of [] = ""
  executable_of (exe ∷ rest) = machine.name exe

  unfoldable pub validate_argv : {S : Type 0} → Fields → Method S (List String)
  unfolding argv_of
  validate_argv payload = do
    argv ←
        or_raise (argv_of (get "argv" payload))
          (value_error "payload.argv must be a non-empty string array")
    raise_if (contains (executable_of argv) forbidden_executables)
        (permission_error "shell/privileged wrapper blocked in isolated runner")
    pure argv

  abbrev pub command : Envelope → List String → String → List String
  command envelope argv cwd =
      machine.unshare_path
      ∷ "--user"
      ∷ "--map-root-user"
      ∷ "--mount"
      ∷ "--net"
      ∷ "--pid"
      ∷ "--fork"
      ∷ "--kill-child"
      ∷ "--propagation"
      ∷ "private"
      ∷ machine.python
      ∷ "-m"
      ∷ "voodoo_skillset.sandbox_child"
      ∷ "--root"
      ∷ machine.rootfs
      ∷ "--workspace"
      ∷ machine.staged
      ∷ "--cwd"
      ∷ machine.path_text cwd
      ∷ "--cpu-seconds"
      ∷ env.str (int envelope.cpu_limit_seconds)
      ∷ "--memory-bytes"
      ∷ env.str (int envelope.memory_limit_bytes)
      ∷ "--file-size-bytes"
      ∷ env.str (int envelope.file_size_limit_bytes)
      ∷ "--nofile"
      ∷ env.str (int envelope.nofile_limit)
      ∷ argv

  unfoldable pub isolation : Envelope → Fields
  isolation envelope = dict (
      ("user_namespace", bool true)
      ∷ ("mount_namespace", bool true)
      ∷ ("network_namespace", bool true)
      ∷ ("pid_namespace", bool true)
      ∷ ("network_default", text "DENY")
      ∷ ("filesystem", text "CHROOT_STAGE_ONLY")
      ∷ ("system_mounts", text "READ_ONLY")
      ∷ ("workspace", text "EPHEMERAL_COPY")
      ∷ ("tmp", text "TMPFS")
      ∷ ("environment_inherited", bool false)
      ∷ ("cpu_limit_seconds", int envelope.cpu_limit_seconds)
      ∷ ("memory_limit_bytes", int envelope.memory_limit_bytes)
      ∷ ("file_size_limit_bytes", int envelope.file_size_limit_bytes)
      ∷ ("nofile_limit", int envelope.nofile_limit)
      ∷ [])

  -- `started` and `finished` are the texts of two readings of the clock.
  unfoldable pub result_of :
      String → Envelope → List String → Manifest → Completed → Manifest → String → String → Fields
  unfolding isolation staged_changes
  result_of capability_id envelope argv before proc after started finished = dict (
      ("status", text (if eqb_ℤ proc.returncode (pos 0) then "EXECUTED" else "FAILED"))
      ∷ ("verification_status", text "UNKNOWN")
      ∷ ("capability_id", text capability_id)
      ∷ ("operation_id", text envelope.operation_id)
      ∷ ("runner", text "linux-namespace-chroot-v1")
      ∷ ("isolation", object (isolation envelope))
      ∷ ("argv", array (texts argv))
      ∷ ("exit_code", int proc.returncode)
      ∷ ("stdout", text proc.stdout)
      ∷ ("stderr", text proc.stderr)
      ∷ ("stdout_sha256", text (machine.sha256_text proc.stdout))
      ∷ ("stderr_sha256", text (machine.sha256_text proc.stderr))
      ∷ ("started_at", text started)
      ∷ ("finished_at", text finished)
      ∷ ("staged_changes", array (texts (staged_changes before after)))
      ∷ ("persistent_effect", text "NONE")
      ∷ [])

  -- The state is the commands that were run, with their directories.
  abbrev pub Commands : Type 0
  Commands = List (List String × String)

  unfoldable pub run_command : List String → String → Method Commands (Completed × Manifest)
  run_command argv directory done = (machine.run argv directory, (argv, directory) ∷ done)

  -- What `execute` does with the arguments and the directory of the command in the copy.
  unfoldable pub run_confined :
      String → Envelope → String → String → String → List String → Method Commands Fields
  unfolding run_command result_of
  run_confined capability_id envelope cwd started finished argv = do
    raise_if (not (machine.is_dir (machine.resolve envelope.target)))
        (runtime_error "execution target is not a directory")
    raise_if (env.is_absolute cwd || contains ".." (env.parts cwd))
        (value_error "cwd must stay relative to staged workspace")
    ran ← run_command (command envelope argv cwd) (machine.resolve envelope.target)
    pure (
        result_of capability_id envelope argv
          (machine.file_manifest (machine.resolve envelope.target)) ran.0 ran.1 started finished)

  unfoldable pub execute : String → Fields → Envelope → String → String → Method Commands Fields
  unfolding validate_argv run_confined
  execute capability_id payload envelope started finished = do
    raise_if (not machine.available.0) (runtime_error machine.available.1)
    raise_if (not (str_eq envelope.network_default "DENY"))
        (permission_error "namespace runner supports DENY network policy only")
    raise_if (not (is_empty envelope.allowed_hosts))
        (permission_error "selective egress requires a governed network broker; fail-closed")
    argv ← validate_argv payload
    run_confined capability_id envelope (text_of env (get_or "cwd" (text ".") payload)) started
        finished argv
