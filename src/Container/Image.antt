-- ===== src/Container/Image.antt =====
-- `validate_image` and `_container_name` of src/voodoo_skillset/container_executor.py.
use Prim.Native.Char.{Char, code}
use Prim.Native.String.{◌++◌ as ◌+++◌}
use Prim.Native.String.append
use voodoo_skillset.Prelude.{
  ℕ, zero, suc, String, Bool, true, false, ◌&&◌, ◌||◌, List, [], ◌∷◌, ◌==◌, ◌≡◌, ◌≤◌, refl, arith,
  inl, inr, Bool-cases, all_of, codes, length, text_length, leb, str_eq, is_alphanumeric,
  is_identifier_char, if◌then◌else◌,
}
use voodoo_skillset.Fleet.Execution.{truncate}

-- The class `[0-9a-f]`, and a full match of `sha256:[0-9a-f]{64}`.
abbrev pub is_hex : ℕ → Bool
is_hex c = (leb b'0' c && leb c b'9') || (leb b'a' c && leb c b'f')

abbrev pub is_digest : List ℕ → Bool
is_digest (s ∷ h ∷ a ∷ two ∷ five ∷ six ∷ colon ∷ rest) =
    s == b's'
    && h == b'h'
    && a == b'a'
    && two == b'2'
    && five == b'5'
    && six == b'6'
    && colon == b':'
    && length rest == 64
    && all_of is_hex rest
is_digest _ = false

-- The class `[A-Za-z0-9._:/-]`
abbrev pub is_image_char : ℕ → Bool
is_image_char c = is_identifier_char c || c == b':' || c == b'/'

-- A match of `[A-Za-z0-9._:/-]*@sha256:[0-9a-f]{64}`: the class has no `@`.
unfoldable pub is_pinned_rest : List ℕ → Bool
is_pinned_rest [] = false
is_pinned_rest (c ∷ cs) =
    let rest = is_pinned_rest cs in if c == b'@' then is_digest cs else is_image_char c && rest

unfoldable pub is_pinned : List ℕ → Bool
unfolding is_pinned_rest
is_pinned [] = false
is_pinned (c ∷ cs) = is_alphanumeric c && is_pinned_rest cs

-- The class `[a-z0-9_.-]`
abbrev pub is_name_char : ℕ → Bool
is_name_char c =
    (leb b'a' c && leb c b'z') || (leb b'0' c && leb c b'9') || c == b'_' || c == b'.' || c == b'-'

-- `re.sub(r"[^a-z0-9_.-]+", "-", t)`; the flag tells that the character before was replaced.
unfoldable pub replaced : Bool → String → String
replaced before String.[] = ""
replaced before (String.◌∷◌ c t) =
    let kept = replaced false t in
    let skipped = replaced true t in
    if is_name_char (code c)
    then String.◌∷◌ c kept
    else if before
    then skipped
    else String.◌∷◌ "-" skipped

-- `t.strip("-.")`
abbrev pub is_edge : Char → Bool
is_edge c = code c == b'-' || code c == b'.'

unfoldable pub lstrip : String → String
lstrip String.[] = ""
lstrip (String.◌∷◌ c t) = let rest = lstrip t in if is_edge c then rest else String.◌∷◌ c t

unfoldable pub rstrip : String → String
rstrip String.[] = ""
rstrip (String.◌∷◌ c t) =
    let rest = rstrip t in if is_edge c && str_eq rest "" then "" else String.◌∷◌ c rest

-- `lowered` is `operation_id.lower()`.
unfoldable pub container_name : String → String
unfolding truncate replaced lstrip rstrip
container_name lowered =
    let safe = rstrip (lstrip (replaced false lowered)) in
    truncate 63 ("voodoo-" +++ (if str_eq safe "" then "operation" else safe))

abbrev IsNamed : String → Type 0
IsNamed t = all_of is_name_char (codes t) ≡ true

IsNamed-replaced : (before : Bool) (t : String) → IsNamed (replaced before t)
unfolding replaced
IsNamed-replaced before String.[] = refl
IsNamed-replaced before (String.◌∷◌ c t) =
    ground (arith, IsNamed-replaced false t, IsNamed-replaced true t)

IsNamed-lstrip : (t : String) → IsNamed t → IsNamed (lstrip t)
unfolding lstrip
IsNamed-lstrip String.[] h = refl
IsNamed-lstrip (String.◌∷◌ c t) h = ground (arith, IsNamed-lstrip t, h)

IsNamed-rstrip : (t : String) → IsNamed t → IsNamed (rstrip t)
unfolding rstrip
IsNamed-rstrip String.[] h = refl
IsNamed-rstrip (String.◌∷◌ c t) h = elim (Bool-cases (is_edge c && str_eq (rstrip t) "")) [
  | inl edge ↦ rw edge refl
  | inr other ↦
      rw other (both (is_name_char (code c)) (all_of is_name_char (codes t)) h (IsNamed-rstrip t))
]
  where
    both :
        (a b : Bool)
        → (a && b) ≡ true
        → (b ≡ true → IsNamed (rstrip t))
        → (a && all_of is_name_char (codes (rstrip t))) ≡ true
    both a b h k = ground arith

IsNamed-truncate : (n : ℕ) (t : String) → IsNamed t → IsNamed (truncate n t)
unfolding truncate
IsNamed-truncate zero t h = refl
IsNamed-truncate (suc n) String.[] h = refl
IsNamed-truncate (suc n) (String.◌∷◌ c t) h = ground (arith, IsNamed-truncate n t, h)

IsNamed-append : (s t : String) → IsNamed s → IsNamed t → IsNamed (s +++ t)
IsNamed-append String.[] t h k = rw (append.nil t) k
IsNamed-append (String.◌∷◌ c s) t h k =
    rw (append.cons c s t) (ground (arith, IsNamed-append s t, h, k))

text_length-truncate : (n : ℕ) (t : String) → text_length (truncate n t) ≤ n
unfolding truncate
text_length-truncate zero t = omega arith
text_length-truncate (suc n) String.[] = omega arith
text_length-truncate (suc n) (String.◌∷◌ c t) = omega (arith, text_length-truncate n t)

or_operation :
    (safe : String) → IsNamed safe → IsNamed (if str_eq safe "" then "operation" else safe)
or_operation safe h = elim (Bool-cases (str_eq safe "")) [
  | inl empty ↦ rw empty refl
  | inr other ↦ rw other h
]

-- The name of a container has at most 63 characters, and each of them is a small letter, a digit, an
-- underscore, a dot or a dash, whatever the operation is called.
pub container_name_safe :
    (lowered : String)
    → (text_length (container_name lowered) ≤ 63)
      × (all_of is_name_char (codes (container_name lowered)) ≡ true)
unfolding container_name
container_name_safe lowered =
    let safe = rstrip (lstrip (replaced false lowered)) in
    let whole = "voodoo-" +++ (if str_eq safe "" then "operation" else safe) in
    (
      text_length-truncate 63 whole,
      IsNamed-truncate 63 whole (
          IsNamed-append "voodoo-" (if str_eq safe "" then "operation" else safe) refl (
            or_operation safe (
              IsNamed-rstrip (lstrip (replaced false lowered))
                (IsNamed-lstrip (replaced false lowered) (IsNamed-replaced false lowered))))),
    )
