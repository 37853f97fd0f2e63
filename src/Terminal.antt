-- ===== src/Terminal.antt =====
-- The governed terminal, src/voodoo_skillset/governed_terminal.py: a command is parsed, classified,
-- held against a grant and run. `shlex`, paths, dates and the process are a `System`.
pub mod Safety
mod Tests
use Prim.Native.String.{◌++◌}
use voodoo_skillset.Prelude.{
  ℕ, String, Bool, true, false, not, ◌&&◌, ◌||◌, Option, none, some, List, [], ◌∷◌, ℤ, leb_ℤ,
  contains, any_of, is_empty, str_eq, codes, is_infix, if◌then◌else◌,
}
use voodoo_skillset.Python.{
  PyError, value_error, permission_error, runtime_error, Result, ok, err, Method, pure, raise,
  or_raise, raise_if, ◌>>=◌, ◌>>◌,
}

pub record Process : Type 0 where
  pub returncode : ℤ
  pub stdout : String
  pub stderr : String

-- What a text is as a date: none is a ValueError, and some none has no time zone.
pub record System : Type 0 where
  pub is_blank : String → Bool
  pub split : String → Option (List String)
  pub name : String → String
  pub resolve : String → String
  pub is_dir : String → Bool
  pub date : String → Option (Option ℤ)
  pub sha256_text : String → String
  pub dumps : List String → String
  pub size : String → ℕ
  -- `subprocess.run`, which may raise TimeoutExpired or FileNotFoundError
  pub subprocess : List String → String → Result Process

pub data Classification : Type 0 where
  blocked read_only repo_write remote_write compute deploy : Classification

abbrev pub class_name : Classification → String
class_name blocked = "BLOCKED"
class_name read_only = "READ_ONLY"
class_name repo_write = "REPO_WRITE"
class_name remote_write = "REMOTE_WRITE"
class_name compute = "COMPUTE"
class_name deploy = "DEPLOY"

abbrev pub is_blocked : Classification → Bool
is_blocked blocked = true
is_blocked _ = false

abbrev pub is_compute : Classification → Bool
is_compute compute = true
is_compute _ = false

-- POLICY
abbrev pub read_only_commands : List String
read_only_commands =
    "pwd" ∷ "ls" ∷ "cat" ∷ "head" ∷ "tail" ∷ "wc" ∷ "stat" ∷ "uname" ∷ "whoami" ∷ []

abbrev pub compute_commands : List String
compute_commands = "pytest" ∷ "ruff" ∷ "mypy" ∷ "python" ∷ "python3" ∷ []

abbrev pub blocked_commands : List String
blocked_commands =
    "sudo" ∷ "su" ∷ "doas" ∷ "rm" ∷ "shred" ∷ "dd" ∷ "mkfs" ∷ "bash" ∷ "sh" ∷ "zsh" ∷ "fish"
    ∷ "eval" ∷ "exec" ∷ "env" ∷ "printenv" ∷ []

abbrev pub git_read_only : List String
git_read_only =
    "status" ∷ "diff" ∷ "log" ∷ "show" ∷ "rev-parse" ∷ "ls-files" ∷ "ls-tree" ∷ "cat-file" ∷ []

abbrev pub git_repo_write : List String
git_repo_write =
    "add" ∷ "apply" ∷ "restore" ∷ "checkout" ∷ "switch" ∷ "commit" ∷ "merge" ∷ "rebase"
    ∷ "cherry-pick" ∷ "reset" ∷ "clean" ∷ "stash" ∷ "tag" ∷ "fetch" ∷ "pull" ∷ []

abbrev pub git_remote_write : List String
git_remote_write = "push" ∷ []

abbrev pub deploy_executables : List String
deploy_executables = "vercel" ∷ "terraform" ∷ "kubectl" ∷ "helm" ∷ "aws" ∷ "az" ∷ "gcloud" ∷ []

abbrev pub forbidden_metacharacters : List String
forbidden_metacharacters = ";" ∷ "&&" ∷ "||" ∷ "|" ∷ ">" ∷ "<" ∷ "`" ∷ "$(" ∷ []

pub record CommandDecision : Type 0 where
  pub argv : List String
  pub classification : Classification
  pub reason : String
  pub allowed_without_grant : Bool

pub record AuthorizationGrant : Type 0 where
  pub operation_id : String
  pub target : String
  pub allowed_classes : List String
  pub allowed_prefixes : List (List String)
  pub authorized_by : String
  pub issued_at : String
  pub expires_at : String
  pub nonce : String

pub record ExecutionReceipt : Type 0 where
  pub receipt_id : String
  pub operation_id : String
  pub target : String
  pub argv : List String
  pub classification : Classification
  pub command_sha256 : String
  pub started_at : String
  pub finished_at : String
  pub exit_code : ℤ
  pub stdout_sha256 : String
  pub stderr_sha256 : String
  pub stdout_bytes : ℕ
  pub stderr_bytes : ℕ
  pub verification_status : String

-- `argv[:len(p)] == p`
abbrev pub is_prefix_of : List String → List String → Bool
is_prefix_of [] argv = true
is_prefix_of (p ∷ ps) [] = false
is_prefix_of (p ∷ ps) (a ∷ rest) = str_eq p a && is_prefix_of ps rest

unfoldable pub prefix_allowed : List String → List (List String) → Bool
prefix_allowed argv prefixes = any_of (λ p. is_prefix_of p argv) prefixes

abbrev decision : List String → Classification → String → Bool → CommandDecision
decision argv c reason allowed = record {
  argv = argv;
  classification = c;
  reason = reason;
  allowed_without_grant = allowed;
}

-- `git` with its subcommand.
unfoldable pub classify_git : List String → List String → CommandDecision
classify_git argv [] = decision argv blocked "git requires an explicit subcommand" false
classify_git argv (sub ∷ rest) =
    if contains sub git_read_only
    then decision argv read_only ("git " ++ sub ++ " is repository inspection") true
    else if contains sub git_repo_write
    then decision argv repo_write ("git " ++ sub ++ " mutates local repository state") false
    else if contains sub git_remote_write
    then decision argv remote_write ("git " ++ sub ++ " may mutate remote repository") false
    else decision argv blocked ("unknown git subcommand: " ++ sub) false

module _ (system : System) where
  unfoldable pub parse_command : {S : Type 0} → String → Method S (List String)
  parse_command command = do
    raise_if (system.is_blank command) (value_error "empty command")
    raise_if (any_of (λ x. is_infix (codes x) (codes command)) forbidden_metacharacters)
        (value_error "shell metacharacter/chaining is forbidden")
    argv ← or_raise (system.split command) (value_error "No closing quotation")
    raise_if (is_empty argv) (value_error "empty argv")
    pure argv

  -- `exe` is the name of the executable `argv[0]`, and `rest` is `argv[1:]`.
  unfoldable pub classify_named : String → List String → List String → CommandDecision
  unfolding classify_git
  classify_named exe argv rest =
      if contains exe blocked_commands
      then decision argv blocked (exe ++ " is hard-blocked") false
      else if str_eq exe "git"
      then classify_git argv rest
      else if contains exe read_only_commands
      then decision argv read_only (exe ++ " is allowlisted for inspection") true
      else if contains exe compute_commands
      then decision argv compute (exe ++ " executes code; isolated runner required") false
      else if contains exe deploy_executables
      then decision argv deploy (exe ++ " is classified as deployment/remote mutation") false
      else decision argv blocked ("executable not allowlisted: " ++ exe) false

  -- `argv` has an element where the code reads `argv[0]`; without one Python raises IndexError.
  unfoldable pub classify : List String → CommandDecision
  unfolding classify_named
  classify [] = decision [] blocked "IndexError" false
  classify (exe ∷ rest) = classify_named (system.name exe) (exe ∷ rest) rest

  -- None where the grant allows the command, and otherwise the reason.
  unfoldable pub grant_refusal : AuthorizationGrant → CommandDecision → String → ℤ → Option String
  unfolding prefix_allowed
  grant_refusal grant decision target now =
      if is_blocked decision.classification
      then some "blocked commands cannot be authorized"
      else elim (system.date grant.expires_at) [
        | none ↦ some "invalid grant expiry"
        | some none ↦ some "grant expiry must be timezone-aware"
        | some (some expiry) ↦
            if leb_ℤ expiry now
            then some "grant expired"
            else if not (str_eq (system.resolve grant.target) (system.resolve target))
            then some "grant target mismatch"
            else if not (contains (class_name decision.classification) grant.allowed_classes)
            then some "operation class not granted"
            else if not (prefix_allowed decision.argv grant.allowed_prefixes)
            then some "command prefix not granted"
            else none
      ]

  -- The calls of `subprocess.run`, also of those that raise: the arguments and the directory.
  abbrev pub Runs : Type 0
  Runs = List (List String × String)

  unfoldable pub run_process : List String → String → Method Runs Process
  run_process argv cwd runs = (system.subprocess argv cwd, (argv, cwd) ∷ runs)

  abbrev pub granted_id : Option AuthorizationGrant → String → String
  granted_id (some g) fresh = g.operation_id
  granted_id none fresh = fresh

  -- `operation_id or (grant.operation_id if grant else ...)`
  abbrev pub operation_id_of : Option String → Option AuthorizationGrant → String → String
  operation_id_of (some id) grant fresh = if str_eq id "" then granted_id grant fresh else id
  operation_id_of none grant fresh = granted_id grant fresh

  -- `if not decision.allowed_without_grant: ...`
  unfoldable pub check_grant :
      {S : Type 0} → Option AuthorizationGrant → CommandDecision → String → ℤ → Method S (Unit {0})
  unfolding grant_refusal
  check_grant grant decision cwd now =
      if decision.allowed_without_grant then pure tt else elim grant [
        | none ↦ raise (
            permission_error
              (class_name decision.classification ++ " requires explicit authorization grant"))
        | some g ↦ elim (grant_refusal g decision cwd now) [
          | none ↦ pure tt
          | some reason ↦ raise (permission_error reason)
        ]
      ]

  unfoldable pub new_receipt :
      String → String → String → CommandDecision → String → String → Process → ExecutionReceipt
  new_receipt fresh op_id cwd decision started finished proc = record {
    receipt_id = "RCP-" ++ fresh;
    operation_id = op_id;
    target = cwd;
    argv = decision.argv;
    classification = decision.classification;
    command_sha256 = system.sha256_text (system.dumps decision.argv);
    started_at = started;
    finished_at = finished;
    exit_code = proc.returncode;
    stdout_sha256 = system.sha256_text proc.stdout;
    stderr_sha256 = system.sha256_text proc.stderr;
    stdout_bytes = system.size proc.stdout;
    stderr_bytes = system.size proc.stderr;
    verification_status = "UNKNOWN";
  }

  -- What `execute` does with the decision and the resolved directory.
  unfoldable pub run_decision :
      CommandDecision → String → Option AuthorizationGrant → Bool → ℤ → Method Runs Process
  unfolding check_grant run_process
  run_decision decision cwd grant isolated_runner now = do
    raise_if (not (system.is_dir cwd)) (runtime_error "target cwd does not exist")
    raise_if (is_blocked decision.classification) (permission_error decision.reason)
    raise_if (is_compute decision.classification && not isolated_runner)
        (permission_error "COMPUTE requires isolated runner")
    check_grant grant decision cwd now
    run_process decision.argv cwd

  -- `now`, `started` and `finished` are readings of the clock, `fresh` and `receipt_hex` of `uuid4`.
  unfoldable pub execute :
      String
      → String
      → Option AuthorizationGrant
      → Option String
      → Bool
      → ℤ
      → String
      → String
      → String
      → String
      → Method Runs (ExecutionReceipt × Process)
  unfolding parse_command classify run_decision new_receipt
  execute command cwd grant operation_id isolated_runner now started finished fresh receipt_hex = do
    argv ← parse_command command
    proc ← run_decision (classify argv) (system.resolve cwd) grant isolated_runner now
    pure (
      new_receipt receipt_hex (operation_id_of operation_id grant fresh) (system.resolve cwd)
          (classify argv) started finished proc,
      proc,
    )
