-- ===== src/Fleet/Validation.antt =====
-- `_validate_owner` and `_validate_job_input` of src/voodoo_skillset/fleet.py, and the patterns of
-- identifiers there and in src/voodoo_skillset/executor_bridge.py. The arguments are texts already,
-- so that `isinstance(x, str)` holds.
use voodoo_skillset.Prelude.{
  String, Bool, ◌||◌, not, List, ℤ, pos, ltb, ltb_ℤ, ◌==◌, length, is_empty, any_of, contains,
  codes, text_length, is_identifier_char, matches_identifier, str_eq,
}
use voodoo_skillset.Python.{Method, value_error, raise_if, ◌>>◌}
use voodoo_skillset.Platform.{Platform}

-- WORKER_ID_RE, by a full match.
unfoldable pub is_worker_id : String → Bool
is_worker_id id = matches_identifier (λ c. is_identifier_char c || c == b':') (codes id)

-- WORKSPACE_ID_RE, by a full match.
unfoldable pub is_workspace_id : String → Bool
is_workspace_id id = matches_identifier is_identifier_char (codes id)

-- CAPABILITY_ID_RE, by a full match.
unfoldable pub is_capability_id : String → Bool
is_capability_id id = matches_identifier is_identifier_char (codes id)

-- The refusal of a working directory: `Path(cwd).is_absolute() or ".." in Path(cwd).parts`, or the
-- text is longer than 512.
unfoldable pub is_bad_cwd : Platform → String → Bool
is_bad_cwd env cwd =
    env.is_absolute cwd || contains ".." (env.parts cwd) || ltb 512 (text_length cwd)

-- An argument that is empty or longer than 4096.
unfoldable pub is_bad_argument : String → Bool
is_bad_argument x = str_eq x "" || ltb 4096 (text_length x)

unfoldable pub validate_owner : {S : Type 0} → String → Method S (Unit {0})
unfolding is_worker_id
validate_owner owner_id =
    raise_if (not (is_worker_id owner_id)) (value_error "invalid worker/verifier id")

unfoldable pub validate_job_input :
    {S : Type 0} → Platform → String → String → List String → String → ℤ → Method S (Unit {0})
validate_job_input env workspace_id capability_id argv cwd max_attempts = do
  raise_if (not (is_workspace_id workspace_id)) (value_error "invalid workspace_id")
  raise_if (not (is_capability_id capability_id)) (value_error "invalid capability_id")
  raise_if (is_empty argv || ltb 64 (length argv) || any_of is_bad_argument argv)
      (value_error "argv must contain 1..64 bounded string arguments")
  raise_if (is_bad_cwd env cwd) (value_error "cwd must stay relative to workspace")
  raise_if (ltb_ℤ max_attempts (pos 1) || ltb_ℤ (pos 10) max_attempts)
      (value_error "max_attempts must be between 1 and 10")
