-- ===== src/Container/Tests.antt =====
-- The container runner of src/voodoo_skillset/container_executor.py on a concrete command.
use Prim.Native.String.{◌++◌}
use voodoo_skillset.Prelude.{
  ℕ, String, List, true, false, none, some, [], ◌∷◌, ◌≡◌, ◌≤◌, refl, arith, pos, codes, all_of,
  text_length,
}
use voodoo_skillset.Json.{Fields, array, texts, dict}
use voodoo_skillset.Python.{ok}
use voodoo_skillset.Platform.Sample.{sample}
use voodoo_skillset.Runner.{Envelope, Machine, argv_of, argument_texts, validate_argv}
use voodoo_skillset.Container.Output.{drain, take, drain-take}
use voodoo_skillset.Container.Supervision.{
  Process, Captured, capture, run_bounded, supervise, settle, returned, execution_timeout,
}
use voodoo_skillset.Container.Supervision.Cleanup.{Ends, run_bounded-Ends}
use voodoo_skillset.Container.Image.{is_pinned, is_name_char, container_name, container_name_safe}
use voodoo_skillset.Container.Runner.{Host, Commands, execute, result_of, available}
use voodoo_skillset.Container.Confinement.{Contained, execute-Contained}

abbrev machine : Machine
machine = record {
  available = (true, "");
  unshare_path = "unshare";
  python = "python";
  rootfs = "/r";
  staged = "/s";
  name = λ t. t;
  resolve = λ t. t;
  path_text = λ t. t;
  is_dir = λ t. true;
  file_manifest = λ t. [];
  sha256_text = λ t. t;
  run = λ argv directory. ok (record { returncode = pos 0; stdout = ""; stderr = "" }, []);
}

abbrev ran : Captured
ran = record { code = pos 0; stdout = ""; stderr = ""; termination = none }

abbrev host : Host
host = record {
  machine = machine;
  docker_path = "docker";
  image = "python@sha256:0123456789abcdef0123456789abcdef0123456789abcdef0123456789abcdef";
  probe = (true, "");
  lower = λ t. "op-1";
  uid = "1000";
  gid = "1000";
  escapes = λ t. false;
  is_staged_dir = λ t. true;
  run = λ argv name timeout. ok (ran, []);
}

abbrev envelope : Envelope
envelope = record {
  operation_id = "OP-1";
  target = "/w";
  network_default = "DENY";
  allowed_hosts = [];
  cpu_limit_seconds = pos 30;
  memory_limit_bytes = pos 536870912;
  file_size_limit_bytes = pos 67108864;
  nofile_limit = pos 256;
}

abbrev payload : Fields
payload = dict (("argv", array (texts ("pytest" ∷ []))) ∷ [])

abbrev nothing_run : Commands sample host
nothing_run = []

abbrev result : Fields
result = result_of sample host "c" envelope ("pytest" ∷ []) [] ran [] "" ""

execute_returns :
    (execute sample host "c" payload envelope (pos 30) "" "" nothing_run).0 ≡ ok result
unfolding execute argv_of argument_texts available is_pinned validate_argv
execute_returns = refl

execute-Contained_example :
    Contained sample host "c" payload envelope
      (pos 30)
      ""
      ""
      nothing_run
      (execute sample host "c" payload envelope (pos 30) "" "" nothing_run).1
      result
execute-Contained_example =
    execute-Contained sample host "c" payload envelope (pos 30) "" "" nothing_run result
      execute_returns

abbrev process : Process
process = record {
  ticks =
      record { exited = false; stdout = []; stderr = []; now = 1; exited_after = false }
      ∷ record { exited = false; stdout = []; stderr = []; now = 9; exited_after = false }
      ∷ [];
  stdout = (104 ∷ 105 ∷ []) ∷ (33 ∷ []) ∷ [];
  stderr = [];
  wait_late = false;
  kill_late = false;
  returncode = pos 0;
}

-- A text with a character for each byte.
abbrev decode : List ℕ → String
decode [] = ""
decode (byte ∷ bytes) = "?" ++ decode bytes

timed_out :
    (run_bounded decode 2 process).0 ≡ returned (capture decode process (some execution_timeout))
unfolding run_bounded supervise settle drain
timed_out = refl

run_bounded-Ends_example : Ends decode process (run_bounded decode 2 process)
run_bounded-Ends_example =
    run_bounded-Ends decode process 0 2 (omega arith) (omega arith, (omega arith, tt)) (omega arith)

drain-take_example : drain 2 process.stdout [] ≡ (104 ∷ 105 ∷ [], true)
unfolding take
drain-take_example = drain-take 2 process.stdout [] (omega arith)

container_name_safe_example :
    (text_length (container_name "op/../1") ≤ 63)
    × (all_of is_name_char (codes (container_name "op/../1")) ≡ true)
container_name_safe_example = container_name_safe "op/../1"
