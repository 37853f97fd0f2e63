-- ===== src/Fleet/Tables/Laws.antt =====
-- The laws of the queries on `jobs`. They rest on the uniqueness of the primary key.
use voodoo_skillset.Prelude.{
  String, Bool, true, Option, none, some, List, [], ◌∷◌, ◌≡◌, refl, inl, inr, str_eq, eq_iff,
  eq_refl, arith, if◌then◌else◌, Bool-cases, keep, All,
}
use voodoo_skillset.Fleet.Tables.{Job, find, update, insert, first}

-- The same as `map f o`.
abbrev pub map_row : (Job → Job) → Option Job → Option Job
map_row f none = none
map_row f (some j) = some (f j)

pub find-update :
    (id k : String) (f : Job → Job) (js : List Job)
    → ((j : Job) → (f j).job_id ≡ j.job_id)
    → find k (update id f js) ≡ (if str_eq id k then map_row f (find k js) else find k js)
unfolding find update
find-update id k f [] h = ground arith
find-update id k f (j ∷ js) h = ground (
  arith,
  eq_iff id k,
  eq_iff j.job_id id,
  eq_iff j.job_id k,
  eq_iff (f j).job_id k,
  h j,
  find-update id k f js h,
)

pub find-insert :
    (k : String) (new : Job) (js : List Job)
    → find new.job_id js ≡ none
    → find k (insert new js) ≡ (if str_eq new.job_id k then some new else find k js)
unfolding find insert
find-insert k new [] h = refl
find-insert k new (j ∷ js) h = ground (
  arith,
  eq_iff j.job_id new.job_id,
  eq_iff j.job_id k,
  eq_iff new.job_id k,
  find-insert k new js,
)

-- A found row has the key that was asked for.
pub job_id-find : (k : String) (js : List Job) (j : Job) → find k js ≡ some j → j.job_id ≡ k
unfolding find
job_id-find k [] j h = absurd (ground arith)
job_id-find k (i ∷ js) j h = ground (arith, eq_iff i.job_id k, job_id-find k js j)

-- PRIMARY KEY: no two rows have one key.
abbrev pub UniqueIds : List Job → Type 0
UniqueIds [] = Unit
UniqueIds (j ∷ js) = (find j.job_id js ≡ none) × UniqueIds js

pub UniqueIds-update :
    (id : String) (f : Job → Job) (js : List Job)
    → ((j : Job) → (f j).job_id ≡ j.job_id)
    → UniqueIds js
    → UniqueIds (update id f js)
unfolding update
UniqueIds-update id f [] h u = tt
UniqueIds-update id f (j ∷ js) h u =
    ground (
      arith,
      h j,
      eq_iff j.job_id id,
      find-update id j.job_id f js h,
      UniqueIds-update id f js h u.1,
    )

pub UniqueIds-insert :
    (new : Job) (js : List Job)
    → find new.job_id js ≡ none
    → UniqueIds js
    → UniqueIds (insert new js)
unfolding insert find
UniqueIds-insert new [] h u = ground arith
UniqueIds-insert new (j ∷ js) h u = ground (
  arith,
  eq_iff j.job_id new.job_id,
  eq_iff new.job_id j.job_id,
  find-insert j.job_id new js,
  UniqueIds-insert new js,
)

-- `r` is the row that its key finds.
abbrev pub IsRow : List Job → Job → Type 0
IsRow js r = find r.job_id js ≡ some r

pub IsRow-cons :
    (j : Job) (js : List Job) (r : Job) → find j.job_id js ≡ none → IsRow js r → IsRow (j ∷ js) r
unfolding find
IsRow-cons j js r h e = elim (Bool-cases (str_eq j.job_id r.job_id)) [
  | inl same ↦ cc (h, e, (eq_iff j.job_id r.job_id).0 same)
  | inr other ↦ rw other e
]

-- What `first` selects is a row that meets the condition.
pub first-IsRow :
    (p : Job → Bool) (before : Job → Job → Bool) (js : List Job) (r : Job)
    → UniqueIds js
    → first p before js ≡ some r
    → IsRow js r × (p r ≡ true)
unfolding first find
first-IsRow p before [] r u h = absurd (ground arith)
first-IsRow p before (j ∷ js) r u h =
    ground (arith, eq_refl j.job_id, first-IsRow p before js r u.1, IsRow-cons j js r u.0)

All-IsRow-cons :
    (j : Job) (js rs : List Job)
    → find j.job_id js ≡ none
    → All (IsRow js) rs
    → All (IsRow (j ∷ js)) rs
All-IsRow-cons j js [] h a = tt
All-IsRow-cons j js (r ∷ rs) h a = (IsRow-cons j js r h a.0, All-IsRow-cons j js rs h a.1)

-- The rows that `keep` selects are rows of the table.
pub keep-IsRow : (p : Job → Bool) (js : List Job) → UniqueIds js → All (IsRow js) (keep p js)
unfolding find
keep-IsRow p [] u = tt
keep-IsRow p (j ∷ js) u =
    let rest = All-IsRow-cons j js (keep p js) u.0 (keep-IsRow p js u.1) in
    elim (Bool-cases (p j)) [
      | inl kept ↦ rw (kept, All) (ground (arith, eq_refl j.job_id), rest)
      | inr left ↦ rw (left, All) rest
    ]

find-keep-none :
    (p : Job → Bool) (k : String) (js : List Job) → find k js ≡ none → find k (keep p js) ≡ none
unfolding find
find-keep-none p k [] h = refl
find-keep-none p k (j ∷ js) h = ground (arith, find-keep-none p k js)

pub UniqueIds-keep : (p : Job → Bool) (js : List Job) → UniqueIds js → UniqueIds (keep p js)
UniqueIds-keep p [] u = tt
UniqueIds-keep p (j ∷ js) u =
    let rest = UniqueIds-keep p js u.1 in
    elim (Bool-cases (p j)) [
      | inl kept ↦ rw (kept, UniqueIds) (find-keep-none p j.job_id js u.0, rest)
      | inr left ↦ rw (left, UniqueIds) rest
    ]

pub All-keep : (p : Job → Bool) (js : List Job) → All (λ j. p j ≡ true) (keep p js)
All-keep p [] = tt
All-keep p (j ∷ js) = elim (Bool-cases (p j)) [
  | inl kept ↦ rw (kept, All) (kept, All-keep p js)
  | inr left ↦ rw (left, All) (All-keep p js)
]

-- An update under a key leaves the rows with other keys in place.
pub All-IsRow-update :
    (id : String) (f : Job → Job) (js rs : List Job)
    → ((j : Job) → (f j).job_id ≡ j.job_id)
    → find id rs ≡ none
    → All (IsRow js) rs
    → All (IsRow (update id f js)) rs
unfolding find
All-IsRow-update id f js [] keeps h a = tt
All-IsRow-update id f js (r ∷ rs) keeps h a = (
  ground (arith, find-update id r.job_id f js keeps, eq_iff id r.job_id, eq_iff r.job_id id),
  All-IsRow-update id f js rs keeps (ground arith) a.1,
)
