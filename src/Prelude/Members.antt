-- ===== src/Prelude/Members.antt =====
-- Membership of texts in lists, by Python's `in`.
use Prim.Native.Nat.{◌≤◌, ◌<◌}
use Prim.Native.String.{String}
use mathlib.Core.Path.{◌≡◌, refl, sym, ap, ◌∙◌}
use mathlib.Core.Logic.{inl, inr}
use mathlib.Core.Bool.{Bool, true, false, ◌&&◌, ◌||◌}
use mathlib.Core.List.{List, [], ◌∷◌, ◌++◌}
use native.Mathlib.Omega.{arith}
use text.Mathlib.Text.{◌==◌}
use text.Mathlib.TextEquality.{eq_iff}
use voodoo_skillset.Prelude.Tests.{if◌then◌else◌, Bool-cases}
use voodoo_skillset.Prelude.Lists.{length, all_of, keep, contains}
use voodoo_skillset.Prelude.Text.{text_before}

pub contains-append :
    (t : String) (us vs : List String) → contains t (us ++ vs) ≡ (contains t us || contains t vs)
contains-append t [] vs = refl
contains-append t (u ∷ us) vs = ground (arith, contains-append t us vs)

same_test : (p : String → Bool) (t u : String) → t == u ≡ true → p u ≡ p t
same_test p t u h = ap p (sym ((eq_iff t u).0 h))

pub contains-keep :
    (p : String → Bool) (t : String) (us : List String)
    → contains t (keep p us) ≡ (contains t us && p t)
contains-keep p t [] = refl
contains-keep p t (u ∷ us) =
    ground (arith, contains-keep p t us, λ (h : t == u ≡ true). same_test p t u h)

pub all_of-member :
    (p : String → Bool) (us : List String) (t : String)
    → all_of p us ≡ true
    → contains t us ≡ true
    → p t ≡ true
all_of-member p [] t a h = absurd (ground arith)
all_of-member p (u ∷ us) t a h = elim (Bool-cases (t == u)) [
  | inl same ↦ sym (same_test p t u same) ∙ ground arith
  | inr other ↦ all_of-member p us t (ground arith) (ground arith)
]

pub all_of_members :
    (p : String → Bool) (us : List String)
    → ((t : String) → contains t us ≡ true → p t ≡ true)
    → all_of p us ≡ true
all_of_members p [] h = refl
all_of_members p (u ∷ us) h =
    ground
      (arith, h u (ground (arith, eq_iff u u)), all_of_members p us (λ t m. h t (ground arith)))

-- Insertion into a sorted list, and Python's `sorted`.
abbrev pub insert_text : String → List String → List String
insert_text t [] = t ∷ []
insert_text t (u ∷ us) =
    let rest = insert_text t us in if text_before u t then u ∷ rest else t ∷ u ∷ us

abbrev pub sorted : List String → List String
sorted [] = []
sorted (t ∷ ts) = insert_text t (sorted ts)

contains-insert_text :
    (t u : String) (us : List String) → contains t (insert_text u us) ≡ (t == u || contains t us)
contains-insert_text t u [] = refl
contains-insert_text t u (v ∷ vs) = ground (arith, contains-insert_text t u vs)

pub contains-sorted : (t : String) (us : List String) → contains t (sorted us) ≡ contains t us
contains-sorted t [] = refl
contains-sorted t (u ∷ us) =
    ground (arith, contains-insert_text t u (sorted us), contains-sorted t us)

-- A set's elements, each once.
abbrev pub distinct : List String → List String
distinct [] = []
distinct (t ∷ ts) = let rest = distinct ts in if contains t rest then rest else t ∷ rest

pub contains-distinct : (t : String) (us : List String) → contains t (distinct us) ≡ contains t us
contains-distinct t [] = refl
contains-distinct t (u ∷ us) = ground (
  arith,
  contains-distinct t us,
  λ (h : t == u ≡ true). ap (λ v. contains v (distinct us)) ((eq_iff t u).0 h),
)

-- No text twice.
abbrev pub IsDistinct : List String → Type 0
IsDistinct [] = Unit
IsDistinct (t ∷ ts) = (contains t ts ≡ false) × IsDistinct ts

pub distinct-IsDistinct : (us : List String) → IsDistinct (distinct us)
distinct-IsDistinct [] = tt
distinct-IsDistinct (u ∷ us) = elim (Bool-cases (contains u (distinct us))) [
  | inl found ↦ rw found (distinct-IsDistinct us)
  | inr missing ↦ rw missing (missing, distinct-IsDistinct us)
]

pub IsDistinct-keep :
    (p : String → Bool) (us : List String) → IsDistinct us → IsDistinct (keep p us)
IsDistinct-keep p [] h = tt
IsDistinct-keep p (u ∷ us) (new, h) = elim (Bool-cases (p u)) [
  | inl kept ↦ rw kept (ground (arith, contains-keep p u us), IsDistinct-keep p us h)
  | inr dropped ↦ rw dropped (IsDistinct-keep p us h)
]

IsDistinct-insert_text :
    (t : String) (us : List String)
    → contains t us ≡ false
    → IsDistinct us
    → IsDistinct (insert_text t us)
IsDistinct-insert_text t [] n h = (refl, tt)
IsDistinct-insert_text t (u ∷ us) n (new, h) = elim (Bool-cases (text_before u t)) [
  | inl before ↦ rw before (
    ground (arith, contains-insert_text u t us, eq_iff u t, eq_iff t u),
    IsDistinct-insert_text t us (ground arith) h,
  )
  | inr after ↦ rw after (n, (new, h))
]

pub sorted-IsDistinct : (us : List String) → IsDistinct us → IsDistinct (sorted us)
sorted-IsDistinct [] h = tt
sorted-IsDistinct (u ∷ us) (new, h) =
    IsDistinct-insert_text u (sorted us) (contains-sorted u us ∙ new) (sorted-IsDistinct us h)

pub append-IsDistinct :
    (us vs : List String)
    → IsDistinct us
    → IsDistinct vs
    → ((t : String) → contains t us ≡ true → contains t vs ≡ false)
    → IsDistinct (us ++ vs)
append-IsDistinct [] vs h k d = k
append-IsDistinct (u ∷ us) vs (new, h) k d = (
  ground (arith, contains-append u us vs, d u (ground (arith, eq_iff u u))),
  append-IsDistinct us vs h k (λ t m. d t (ground arith)),
)

-- What a filter drops makes the list shorter.
pub length-keep : (p : String → Bool) (us : List String) → length (keep p us) ≤ length us
length-keep p [] = omega arith
length-keep p (u ∷ us) = ground (arith, length-keep p us)

pub length-keep_less :
    (p : String → Bool) (us : List String) (t : String)
    → contains t us ≡ true
    → p t ≡ false
    → length (keep p us) < length us
length-keep_less p [] t m h = absurd (ground arith)
length-keep_less p (u ∷ us) t m h = elim (Bool-cases (t == u)) [
  | inl same ↦ ground (arith, length-keep p us, same_test p t u same)
  | inr other ↦ ground (arith, length-keep_less p us t (ground arith) h)
]

-- The parts of a list without repetitions have none, and share nothing.
pub IsDistinct-append :
    (us vs : List String)
    → IsDistinct (us ++ vs)
    → IsDistinct vs × ((t : String) → contains t vs ≡ true → contains t us ≡ false)
IsDistinct-append [] vs h = (h, λ t m. refl)
IsDistinct-append (u ∷ us) vs (new, h) =
    let (rest, apart) = IsDistinct-append us vs h in
    (
      rest,
      λ t m. ground (
        arith,
        apart t m,
        contains-append u us vs,
        λ (q : t == u ≡ true). ap (λ x. contains x vs) ((eq_iff t u).0 q),
      ),
    )
