-- ===== src/Fleet/Refinement.antt =====
-- The operations of the fleet store (src/voodoo_skillset/fleet.py) against the life of one job: how
-- a table of jobs may change, and a rule for each way to build an operation.
pub mod Reaping
pub mod Leases
pub mod Verifying
pub mod Operations
use voodoo_skillset.Prelude.{
  String, Bool, true, false, Option, none, some, ◌≡◌, refl, sym, subst, arith, eq_iff, str_eq,
  if◌then◌else◌, ℤ, ◌⊎◌, inl, inr, Bool-cases,
}
use voodoo_skillset.Json.{Fields}
use voodoo_skillset.Python.{
  Method, Result, ok, err, pure, raise, or_raise, gets, raise_if, settle, transaction, PyError,
  ◌>>=◌, ◌>>◌,
}
use voodoo_skillset.Platform.{Platform}
use voodoo_skillset.Fleet.Tables.{Job, Store, find}
use voodoo_skillset.Fleet.Tables.Laws.{UniqueIds, UniqueIds-update, find-update, map_row}
use voodoo_skillset.Fleet.Events.{record_event}
use voodoo_skillset.Fleet.Queue.{update_job, get_job}
use voodoo_skillset.Fleet.Lifecycle.{Step, Steps, here, next, Steps-trans}

-- The token and the time of the call that makes the changes.
module _ (hash : String) (at_time : ℤ) where
  -- How the row under one key may change: an absent row stays absent, and a row that is there lives on.
  abbrev pub Evolved : Option Job → Option Job → Type 0
  Evolved none none = Unit
  Evolved none (some k) = ⊥
  Evolved (some j) none = ⊥
  Evolved (some j) (some k) = Steps hash at_time j k

  pub Evolved-refl : (o : Option Job) → Evolved o o
  Evolved-refl none = tt
  Evolved-refl (some j) = here

  Evolved-trans : (o p q : Option Job) → Evolved o p → Evolved p q → Evolved o q
  Evolved-trans none none none e f = tt
  Evolved-trans none none (some k) e f = f
  Evolved-trans none (some j) q e f = absurd e
  Evolved-trans (some j) none q e f = absurd e
  Evolved-trans (some j) (some k) none e f = f
  Evolved-trans (some j) (some k) (some l) e f = Steps-trans e f

  -- One table after another: keys stay unique, and every row lives on.
  pub record Evolves (s t : Store) : Type 0 where
    pub unique : UniqueIds t.jobs
    pub rows : (id : String) → Evolved (find id s.jobs) (find id t.jobs)

  pub Evolves-refl : (s : Store) → UniqueIds s.jobs → Evolves s s
  Evolves-refl s u = record { unique = u; rows = λ id. Evolved-refl (find id s.jobs) }

  pub Evolves-trans : (s t v : Store) → Evolves s t → Evolves t v → Evolves s v
  Evolves-trans s t v e f = record {
    unique = f.unique;
    rows = λ id.
        Evolved-trans (find id s.jobs) (find id t.jobs) (find id v.jobs) (e.rows id) (f.rows id);
  }

  -- Only the jobs count.
  pub Evolves-jobs : (s t v : Store) → v.jobs ≡ t.jobs → Evolves s t → Evolves s v
  Evolves-jobs s t v same e = record {
    unique = subst UniqueIds (sym same) e.unique;
    rows = λ id. subst (λ js. Evolved (find id s.jobs) (find id js)) (sym same) (e.rows id);
  }

  -- An operation under which every table evolves, whether it returns or raises.
  pub record Evolving {A : Type 0} (m : Method Store A) : Type 0 where
    pub at : (s : Store) → UniqueIds s.jobs → Evolves s (m s).1

  module _ {A : Type 0} where
    -- what changes no job
    pub Evolving-reads : (m : Method Store A) → ((s : Store) → (m s).1.jobs ≡ s.jobs) → Evolving m
    Evolving-reads m same = record {
      at = λ s u. record {
        unique = subst UniqueIds (sym (same s)) u;
        rows = λ id.
            subst (λ js. Evolved (find id s.jobs) (find id js)) (sym (same s))
              (Evolved-refl (find id s.jobs));
      };
    }

    pub Evolving-pure : (a : A) → Evolving (pure a)
    Evolving-pure a = Evolving-reads (pure a) (λ s. refl)

    settle-Evolves :
        (s : Store) (r : Result A × Store)
        → UniqueIds s.jobs
        → Evolves s r.1
        → Evolves s (settle s r).1
    settle-Evolves s (ok a, t) u e = e
    settle-Evolves s (err x, t) u e = Evolves-refl s u

    pub Evolving-transaction : (m : Method Store A) → Evolving m → Evolving (transaction m)
    Evolving-transaction m e = record { at = λ s u. settle-Evolves s (m s) u (e.at s u) }

  pub Evolving-raise_if : (b : Bool) (e : PyError) → Evolving (raise_if {S = Store} b e)
  Evolving-raise_if true e = Evolving-reads (raise_if true e) (λ s. refl)
  Evolving-raise_if false e = Evolving-reads (raise_if false e) (λ s. refl)

  -- What follows a test may use that the test has passed.
  pub raise_if_then-Evolves :
      {A : Type 0} (b : Bool) (e : PyError) (m : Method Store A) (s : Store)
      → UniqueIds s.jobs
      → (b ≡ false → Evolves s (m s).1)
      → Evolves s ((raise_if b e >> m) s).1
  raise_if_then-Evolves true e m s u h = Evolves-refl s u
  raise_if_then-Evolves false e m s u h = h refl

  pub Evolving-raise_if_then :
      {A : Type 0} (b : Bool) (e : PyError) (m : Method Store A)
      → (b ≡ false → Evolving m)
      → Evolving (raise_if b e >> m)
  Evolving-raise_if_then b e m h = record {
    at = λ s u. raise_if_then-Evolves b e m s u (λ p. (h p).at s u);
  }

  pub Evolving-or_raise :
      {A : Type 0} (o : Option A) (e : PyError) → Evolving (or_raise {S = Store} o e)
  Evolving-or_raise none e = Evolving-reads (or_raise none e) (λ s. refl)
  Evolving-or_raise (some a) e = Evolving-reads (or_raise (some a) e) (λ s. refl)

  pub Evolving-record_event :
      (env : Platform) (id : Option String) (kind actor : String) (payload : Fields) (now : ℤ)
      → Evolving (record_event env id kind actor payload now)
  unfolding record_event
  Evolving-record_event env id kind actor payload now =
      Evolving-reads (record_event env id kind actor payload now) (λ s. ground arith)

  pub Evolving-get_job : (id : String) → Evolving (get_job id)
  unfolding get_job
  Evolving-get_job id = Evolving-reads (get_job id) (λ s. ground arith)

  module _ {A B : Type 0} where
    continue-Evolves :
        (s : Store) (r : Result A × Store) (f : A → Method Store B)
        → Evolves s r.1
        → ((a : A) → Evolving (f a))
        → Evolves s (((λ (z : Store). r) >>= f) s).1
    continue-Evolves s (ok a, t) f e h = Evolves-trans s t (f a t).1 e ((h a).at t e.unique)
    continue-Evolves s (err x, t) f e h = e

    pub Evolving-bind :
        (m : Method Store A) (f : A → Method Store B)
        → Evolving m
        → ((a : A) → Evolving (f a))
        → Evolving (m >>= f)
    Evolving-bind m f em ef = record { at = λ s u. continue-Evolves s (m s) f (em.at s u) ef }

    guarded-Evolves :
        (s : Store) (r : Result A × Store) (f : A → Method Store B)
        → UniqueIds s.jobs
        → r.1 ≡ s
        → ((a : A) → r.0 ≡ ok a → Evolves s (f a s).1)
        → Evolves s (((λ (z : Store). r) >>= f) s).1
    guarded-Evolves s (ok a, t) f u e h = subst (λ v. Evolves s (f a v).1) (sym e) (h a refl)
    guarded-Evolves s (err x, t) f u e h = subst (Evolves s) (sym e) (Evolves-refl s u)

    -- The tests on a row, and then an update of the row that they have read.
    pub Evolving-guarded :
        (guard : Method Store A) (f : A → Method Store B)
        → ((s : Store) → (guard s).1 ≡ s)
        → ((s : Store) (a : A) → UniqueIds s.jobs → (guard s).0 ≡ ok a → Evolves s (f a s).1)
        → Evolving (guard >>= f)
    Evolving-guarded guard f reads h = record {
      at = λ s u. guarded-Evolves s (guard s) f u (reads s) (λ a. h s a u);
    }

  -- The update of a row that the table holds, by a step of its life.
  pub update-Evolves :
      (id : String) (f : Job → Job) (s : Store) (j : Job)
      → UniqueIds s.jobs
      → ((i : Job) → (f i).job_id ≡ i.job_id)
      → find id s.jobs ≡ some j
      → Step hash at_time j (f j)
      → Evolves s (update_job id f s).1
  unfolding update_job
  update-Evolves id f s j u keeps found step = record {
    unique = UniqueIds-update id f s.jobs keeps u;
    rows = λ k. rw (find-update id k f s.jobs keeps) (elim (Bool-cases (str_eq id k)) [
      | inl same ↦
          rw (same, subst (λ i. find i s.jobs ≡ some j) ((eq_iff id k).0 same) found)
            (next here step)
      | inr other ↦ rw other (Evolved-refl (find k s.jobs))
    ]);
  }

  pub update_then-Evolves :
      {B : Type 0} (id : String) (f : Job → Job) (rest : Method Store B) (s : Store) (j : Job)
      → UniqueIds s.jobs
      → ((i : Job) → (f i).job_id ≡ i.job_id)
      → find id s.jobs ≡ some j
      → Step hash at_time j (f j)
      → Evolving rest
      → Evolves s ((update_job id f >> rest) s).1
  unfolding update_job
  update_then-Evolves id f rest s j u keeps found step e =
      let first : Evolves s (update_job id f s).1 = update-Evolves id f s j u keeps found step in
      Evolves-trans s (update_job id f s).1 (rest (update_job id f s).1).1 first
        (e.at (update_job id f s).1 first.unique)
