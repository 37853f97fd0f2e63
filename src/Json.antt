-- ===== src/Json.antt =====
-- Python's JSON values, as the code under src/voodoo_skillset builds and inspects them: `None`,
-- Booleans, integers, texts, lists, and dicts with text keys. Fractional numbers are left out.
use voodoo_skillset.Prelude.{
  String, Bool, true, false, Option, none, some, List, [], ◌∷◌, ℤ, pos, eqb_ℤ, str_eq,
  if◌then◌else◌,
}

mutual
  pub data Json : Type 0 where
    null : Json
    bool : Bool → Json
    int : ℤ → Json
    text : String → Json
    array : Items → Json
    object : Fields → Json

  pub data Items : Type 0 where
    nil : Items
    cons : Json → Items → Items

  pub data Fields : Type 0 where
    end : Fields
    field : String → Json → Fields → Fields

-- A dict display, `{"k": v, ...}`.
abbrev pub dict : List (String × Json) → Fields
dict [] = end
dict ((k, v) ∷ kvs) = field k v (dict kvs)

-- A list of texts as a JSON array.
abbrev pub texts : List String → Items
texts [] = nil
texts (t ∷ ts) = cons (text t) (texts ts)

-- `d.get(k)`.
abbrev pub get : String → Fields → Option Json
get k end = none
get k (field j v rest) = if str_eq k j then some v else get k rest

-- `d.get(k, default)`.
abbrev pub get_or : String → Json → Fields → Json
get_or k default d = elim (get k d) [ none ↦ default | some v ↦ v ]

-- A value that may be `None`.
abbrev pub text? : Option String → Json
text? none = null
text? (some t) = text t

-- `v == t` for a text `t`, where a missing key is `None`.
abbrev pub is_text : String → Option Json → Bool
is_text t (some (text u)) = str_eq u t
is_text t _ = false

-- `v == 0`: Python's `False` equals 0 as well.
abbrev pub is_zero : Option Json → Bool
is_zero (some (int n)) = eqb_ℤ n (pos 0)
is_zero (some (bool false)) = true
is_zero _ = false

-- `all(value is True for value in d.values())`.
abbrev pub all_true : Fields → Bool
all_true end = true
all_true (field k (bool true) rest) = all_true rest
all_true (field k v rest) = false

-- `isinstance(v, dict) and v and all(value is True for value in v.values())`.
abbrev pub passes_all : Option Json → Bool
passes_all (some (object (field k v rest))) = all_true (field k v rest)
passes_all _ = false

-- The dict that a value is, and the empty one for any other.
abbrev pub as_dict : Option Json → Fields
as_dict (some (object d)) = d
as_dict _ = end
