-- ===== src/Terminal/Tests.antt =====
-- The governed terminal of src/voodoo_skillset/governed_terminal.py on concrete commands.
use voodoo_skillset.Prelude.{String, true, false, none, some, List, [], ◌∷◌, ◌≡◌, ◌⊎◌, refl, pos}
use voodoo_skillset.Python.{ok}
use voodoo_skillset.Terminal.{
  System, AuthorizationGrant, classify, execute, grant_refusal, prefix_allowed, classify_named,
  CommandDecision,
}
use voodoo_skillset.Terminal.Safety.{
  Grants, Started, grant_refusal-Grants, execute-Started, blocked_never_starts,
}

-- A system on which every command splits into one word, and every date is at 100.
abbrev system : System
system = record {
  is_blank = λ t. false;
  split = λ t. some (t ∷ []);
  name = λ t. t;
  resolve = λ t. t;
  is_dir = λ t. true;
  date = λ t. some (some (pos 100));
  sha256_text = λ t. t;
  dumps = λ ts. "";
  size = λ t. 0;
  subprocess = λ argv cwd. ok (record { returncode = pos 0; stdout = ""; stderr = "" });
}

abbrev grant : AuthorizationGrant
grant = record {
  operation_id = "OP-1";
  target = "/w";
  allowed_classes = "COMPUTE" ∷ [];
  allowed_prefixes = ("pytest" ∷ []) ∷ [];
  authorized_by = "owner";
  issued_at = "";
  expires_at = "";
  nonce = "";
}

abbrev pytest : CommandDecision
pytest = classify system ("pytest" ∷ [])

allowed : grant_refusal system grant pytest "/w" (pos 50) ≡ none
unfolding grant_refusal classify classify_named prefix_allowed
allowed = refl

pytest_runs :
    (execute system "pytest" "/w" (some grant) none true (pos 50) "" "" "" "" []).1
    ≡ ("pytest" ∷ [], "/w") ∷ []
unfolding execute
pytest_runs = refl

grant_refusal-Grants_example : Grants system grant pytest "/w" (pos 50)
grant_refusal-Grants_example = grant_refusal-Grants system grant pytest "/w" (pos 50) allowed

execute-Started_example :
    ((execute system "pytest" "/w" (some grant) none true (pos 50) "" "" "" "" []).1 ≡ [])
    ⊎ ((argv : List String) × (some ("pytest" ∷ []) ≡ some argv)
        × Started system
            (classify system argv)
            "/w"
            (some grant)
            true
            (pos 50)
            []
            (execute system "pytest" "/w" (some grant) none true (pos 50) "" "" "" "" []).1)
execute-Started_example =
    execute-Started system "pytest" "/w" (some grant) none true (pos 50) "" "" "" "" []

blocked_never_starts_example :
    (execute system "sudo" "/w" (some grant) none true (pos 50) "" "" "" "" []).1 ≡ []
blocked_never_starts_example =
    blocked_never_starts system "sudo" "sudo" [] "/w" (some grant) none true (pos 50) "" "" "" "" []
      refl refl
