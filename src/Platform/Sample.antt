-- ===== src/Platform/Sample.antt =====
-- A platform for concrete runs.
use Prim.Native.String.{◌++◌ as ◌+++◌}
use voodoo_skillset.Prelude.{String, false, none, []}
use voodoo_skillset.Json.{Json, text, get_or}
use voodoo_skillset.Platform.{Platform}

abbrev pub prev_hash_text : Json → String
prev_hash_text (text t) = t
prev_hash_text _ = ""

-- A platform whose hash marks a text, and whose JSON text is the field "prev_hash".
abbrev pub sample : Platform
sample = record {
  sha256 = λ t. "h" +++ t;
  hmac_sha256 = λ k t. k +++ t;
  dumps = λ d. prev_hash_text (get_or "prev_hash" (text "") d);
  str = λ v. "";
  parse_int = λ t. none;
  parse_json = λ t. none;
  is_absolute = λ t. false;
  parts = λ t. [];
}
