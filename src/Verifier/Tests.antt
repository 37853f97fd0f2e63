-- ===== src/Verifier/Tests.antt =====
-- The independent verifier of src/voodoo_skillset/fleet_worker.py on a concrete job.
use voodoo_skillset.Prelude.{true, false, none, some, [], ◌∷◌, ◌≡◌, refl, pos}
use voodoo_skillset.Json.{Json, Fields, text, int, object, dict}
use voodoo_skillset.Python.{ok}
use voodoo_skillset.Platform.{Platform}
use voodoo_skillset.Fleet.Tables.{Job}
use voodoo_skillset.Fleet.Updates.{queued_job}
use voodoo_skillset.Verifier.{Workspaces, Checks, checks, equal}
use voodoo_skillset.Verifier.Soundness.{Verifies, checks-Verifies}

abbrev sample : Platform
sample = record {
  sha256 = λ t. t;
  hmac_sha256 = λ k t. t;
  dumps = λ d. "";
  str = λ v. "";
  parse_int = λ t. none;
  parse_json = λ t. none;
  is_absolute = λ t. false;
  parts = λ t. [];
}

abbrev files : Workspaces
files = record {
  workspace_root = "/w";
  resolve = λ id. "/w/x";
  parent = λ p. "/w";
  is_dir = λ p. true;
  manifest_digest = λ p. "";
}

abbrev spec : Fields
spec = dict (("expected_exit_code", int (pos 0)) ∷ [])

abbrev job : Job
job = record (queued_job "J" "P" "w" "c" ("true" ∷ []) "." spec none (pos 100) (pos 3) (pos 2)) {
  receipt = some (
      dict (
        ("verification_status", text "UNKNOWN")
        ∷ ("result", object (dict (("exit_code", int (pos 0)) ∷ [])))
        ∷ []));
  receipt_sha256 = some "0123456789abcdef0123456789abcdef0123456789abcdef0123456789abcdef";
}

abbrev found : Checks
found =
    ("receipt_remains_unknown", true) ∷ ("receipt_hash_present", true) ∷ ("exit_code", true) ∷ []

abbrev seen : Fields
seen = dict (
    ("receipt_sha256", text "0123456789abcdef0123456789abcdef0123456789abcdef0123456789abcdef")
    ∷ ("runner", Json.null)
    ∷ ("exit_code", int (pos 0))
    ∷ ("persistent_effect", Json.null)
    ∷ [])

checked : (checks sample files job tt).0 ≡ ok (found, seen)
unfolding checks equal
checked = refl

checks-Verifies_example : Verifies sample files job found
checks-Verifies_example = checks-Verifies sample files job tt found seen checked refl
