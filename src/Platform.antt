-- ===== src/Platform.antt =====
-- What the program takes from Python's standard library and does not implement.
pub mod Sample
use voodoo_skillset.Prelude.{String, Bool, Option, List, ℤ}
use voodoo_skillset.Json.{Json, Fields, text}

pub record Platform : Type 0 where
  -- hashlib.sha256(t.encode("utf-8")).hexdigest()
  pub sha256 : String → String
  -- hmac.new(key, t.encode("utf-8"), hashlib.sha256).hexdigest(), the key first
  pub hmac_sha256 : String → String → String
  -- json.dumps(value, sort_keys=True, separators=(",", ":")) of a dict
  pub dumps : Fields → String
  -- str(value) of a value that is no text
  pub str : Json → String
  -- int(t) of a text, and none where that raises ValueError
  pub parse_int : String → Option ℤ
  -- json.loads(t), and none where that raises JSONDecodeError
  pub parse_json : String → Option Json
  -- pathlib.Path(t).is_absolute() and pathlib.Path(t).parts
  pub is_absolute : String → Bool
  pub parts : String → List String

-- `str(value)`: a text is its own.
abbrev pub text_of : Platform → Json → String
text_of env (text t) = t
text_of env v = env.str v
