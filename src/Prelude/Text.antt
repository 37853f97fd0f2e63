-- ===== src/Prelude/Text.antt =====
-- Texts as sequences of code points, which is what Python's `len` and its patterns read.
use Prim.Native.Char.{code}
use Prim.Native.String.{String, compare, ◌++◌}
use Prim.Native.String.append
use mathlib.Core.Path.{◌≡◌, refl}
use native.Mathlib.Omega.{arith}
use Prim.Native.Nat.{ℕ}
use text.Mathlib.Text.{is_lt}
use mathlib.Core.Bool.{Bool, true, false, ◌&&◌, ◌||◌}
use mathlib.Core.List.{List, [], ◌∷◌}
use voodoo_skillset.Prelude.Tests.{leb, ltb, ◌==◌}
use voodoo_skillset.Prelude.Lists.{length, all_of}

abbrev pub codes : String → List ℕ
codes String.[] = []
codes (String.◌∷◌ c s) = code c ∷ codes s

-- Python's `len(s)`.
abbrev pub text_length : String → ℕ
text_length s = length (codes s)

-- The class `[A-Za-z0-9]`.
abbrev pub is_alphanumeric : ℕ → Bool
is_alphanumeric c =
    (leb b'a' c && leb c b'z') || (leb b'A' c && leb c b'Z') || (leb b'0' c && leb c b'9')

-- The class `[A-Za-z0-9._-]`.
abbrev pub is_identifier_char : ℕ → Bool
is_identifier_char c = is_alphanumeric c || c == b'.' || c == b'_' || c == b'-'

-- A full match of `[A-Za-z0-9]C{0,127}` for a class `C` of characters.
abbrev pub matches_identifier : (ℕ → Bool) → List ℕ → Bool
matches_identifier p [] = false
matches_identifier p (c ∷ cs) = is_alphanumeric c && all_of p cs && leb (length cs) 127

-- The order of the characters' codes, by which SQLite and Python compare texts.
abbrev pub text_before : String → String → Bool
text_before s t = is_lt (compare s t)

-- Python's `s.startswith(p)`, on the codes.
abbrev pub is_prefix : List ℕ → List ℕ → Bool
is_prefix [] cs = true
is_prefix (d ∷ ds) [] = false
is_prefix (d ∷ ds) (c ∷ cs) = d == c && is_prefix ds cs

abbrev pub starts_with : String → String → Bool
starts_with p s = is_prefix (codes p) (codes s)

pub starts_with-append : (p t : String) → starts_with p (p ++ t) ≡ true
starts_with-append String.[] t = refl
starts_with-append (String.◌∷◌ c p) t =
    rw (append.cons c p t, starts_with-append p t) (ground arith)

-- Python's `p in s` for texts.
abbrev pub is_infix : List ℕ → List ℕ → Bool
is_infix p [] = is_prefix p []
is_infix p (c ∷ cs) = is_prefix p (c ∷ cs) || is_infix p cs

-- Python's `s.isascii()`, on the codes.
abbrev pub is_ascii : String → Bool
is_ascii t = all_of (λ c. ltb c 128) (codes t)
