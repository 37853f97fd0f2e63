-- ===== src/Runner/Tests.antt =====
-- The namespace runner of src/voodoo_skillset/execution.py on a concrete command.
use voodoo_skillset.Prelude.{true, false, none, [], ◌∷◌, ◌≡◌, refl, pos}
use voodoo_skillset.Json.{Fields, array, texts, dict}
use voodoo_skillset.Python.{ok}
use voodoo_skillset.Platform.{Platform}
use voodoo_skillset.Runner.{
  Envelope, Machine, Commands, Completed, result_of, execute, argv_of, argument_texts,
}
use voodoo_skillset.Runner.Confinement.{Confined, execute-Confined}

abbrev sample : Platform
sample = record {
  sha256 = λ t. t;
  hmac_sha256 = λ k t. t;
  dumps = λ d. "";
  str = λ v. "";
  parse_int = λ t. none;
  parse_json = λ t. none;
  is_absolute = λ t. false;
  parts = λ t. [];
}

abbrev process : Completed
process = record { returncode = pos 0; stdout = ""; stderr = "" }

abbrev machine : Machine
machine = record {
  available = (true, "");
  unshare_path = "unshare";
  python = "python";
  rootfs = "/r";
  staged = "/s";
  name = λ t. t;
  resolve = λ t. t;
  path_text = λ t. t;
  is_dir = λ t. true;
  file_manifest = λ t. [];
  sha256_text = λ t. t;
  run = λ argv directory. ok (process, []);
}

abbrev envelope : Envelope
envelope = record {
  operation_id = "OP-1";
  target = "/w";
  network_default = "DENY";
  allowed_hosts = [];
  cpu_limit_seconds = pos 30;
  memory_limit_bytes = pos 536870912;
  file_size_limit_bytes = pos 67108864;
  nofile_limit = pos 256;
}

abbrev payload : Fields
payload = dict (("argv", array (texts ("pytest" ∷ []))) ∷ [])

abbrev nothing_run : Commands sample machine
nothing_run = []

abbrev result : Fields
result = result_of sample machine "c" envelope ("pytest" ∷ []) [] process [] "" ""

returned : (execute sample machine "c" payload envelope "" "" nothing_run).0 ≡ ok result
unfolding execute argv_of argument_texts
returned = refl

execute-Confined_example :
    Confined sample machine "c" payload envelope "" "" nothing_run
      (execute sample machine "c" payload envelope "" "" nothing_run).1
      result
execute-Confined_example =
    execute-Confined sample machine "c" payload envelope "" "" nothing_run result returned
