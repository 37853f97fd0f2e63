-- ===== src/Fleet/Refinement/Reaping.antt =====
-- `_reap_expired` of src/voodoo_skillset/fleet.py: every row that it touches takes a step of its
-- life, although the rows were read before the loop.
use voodoo_skillset.Prelude.{
  String, true, Option, some, List, [], ◌∷◌, ◌≡◌, refl, sym, subst, arith, ℤ, All, keep,
}
use voodoo_skillset.Python.{Result, ok, err, ◌>>◌}
use voodoo_skillset.Platform.{Platform}
use voodoo_skillset.Fleet.Tables.{State, Job, Store, update}
use voodoo_skillset.Fleet.Tables.Laws.{
  UniqueIds, IsRow, keep-IsRow, UniqueIds-keep, All-keep, All-IsRow-update,
}
use voodoo_skillset.Fleet.Updates.{retry_state, expire_execution, expire_verification}
use voodoo_skillset.Fleet.Queue.{update_job, is_expired, reap_row, reap_rows, reap_expired}
use voodoo_skillset.Fleet.Lifecycle.{Step, expired, verification_expired}
use voodoo_skillset.Fleet.Refinement.{
  Evolves, Evolves-refl, Evolves-trans, Evolves-jobs, Evolving, update-Evolves,
}

-- The update that the loop makes of a row that it has read.
abbrev expire : ℤ → Job → Job → Job
expire now row j = elim row.state [
  | State.leased ↦ expire_execution (retry_state row) now j
  | _ ↦ expire_verification now j
]

expire-job_id : (now : ℤ) (row j : Job) → (expire now row j).job_id ≡ j.job_id
expire-job_id now row j = ground arith

expired-Step_at :
    (hash : String) (now : ℤ) (j : Job) (st : State) (e v : Option ℤ)
    → j.state ≡ st
    → j.execution_lease_expires_at ≡ e
    → j.verification_lease_expires_at ≡ v
    → is_expired now j ≡ true
    → Step hash now j (expire now j j)
unfolding is_expired
expired-Step_at hash now j State.leased (some x) v p q r h =
    expired x p q (ground arith) (ground arith)
expired-Step_at hash now j State.verifying e (some x) p q r h =
    verification_expired x p r (ground arith) (ground arith)
expired-Step_at hash now j st e v p q r h = absurd (ground arith)

expired-Step :
    (hash : String) (now : ℤ) (j : Job) → is_expired now j ≡ true → Step hash now j (expire now j j)
expired-Step hash now j =
    expired-Step_at hash now j j.state j.execution_lease_expires_at j.verification_lease_expires_at
      refl refl refl

jobs-reap_row :
    (env : Platform) (now : ℤ) (row : Job) (s : Store)
    → (reap_row env now row s).1.jobs ≡ update row.job_id (expire now row) s.jobs
unfolding reap_row
jobs-reap_row env now row s = ground arith

reap_row-Evolves :
    (hash : String) (env : Platform) (now : ℤ) (row : Job) (s : Store)
    → UniqueIds s.jobs
    → IsRow s.jobs row
    → is_expired now row ≡ true
    → Evolves hash now s (reap_row env now row s).1
unfolding update_job
reap_row-Evolves hash env now row s u found h =
    Evolves-jobs _ _ s (update_job row.job_id (expire now row) s).1 (reap_row env now row s).1
      (jobs-reap_row env now row s)
      (update-Evolves _ _ row.job_id (expire now row) s row u (expire-job_id now row) found
        (expired-Step hash now row h))

-- The loop, with what still holds of the rows that are left: they stand in the table as they were
-- read.
reap_rows-Evolves :
    (hash : String) (env : Platform) (now : ℤ) (rows : List Job) (s : Store)
    → UniqueIds s.jobs
    → UniqueIds rows
    → All (IsRow s.jobs) rows
    → All (λ r. is_expired now r ≡ true) rows
    → Evolves hash now s (reap_rows env now rows s).1
unfolding reap_rows
reap_rows-Evolves hash env now [] s u v a h = Evolves-refl _ _ s u
reap_rows-Evolves hash env now (row ∷ rows) s u v a h =
    go (reap_row env now row s) (reap_row-Evolves hash env now row s u a.0 h.0)
      (subst (λ js. All (IsRow js) rows) (sym (jobs-reap_row env now row s))
        (All-IsRow-update row.job_id (expire now row) s.jobs rows (expire-job_id now row) v.0 a.1))
      (λ t e ut at.
        Evolves-trans _ _ s t (reap_rows env now rows t).1 e
          (reap_rows-Evolves hash env now rows t ut v.1 at h.1))
  where
    go :
        (r : Result String × Store)
        → Evolves hash now s r.1
        → All (IsRow r.1.jobs) rows
        → ((t : Store)
            → Evolves hash now s t
            → UniqueIds t.jobs
            → All (IsRow t.jobs) rows
            → Evolves hash now s (reap_rows env now rows t).1)
        → Evolves hash now s (((λ (z : Store). r) >> reap_rows env now rows) s).1
    go (ok x, t) e b rest = rest t e e.unique b
    go (err x, t) e b rest = e

-- Reaping lets every row of the table live on.
pub reap_expired-Evolving :
    (hash : String) (env : Platform) (now : ℤ) → Evolving hash now (reap_expired env now)
unfolding reap_expired
reap_expired-Evolving hash env now = record {
  at = λ s u.
      reap_rows-Evolves hash env now (keep (is_expired now) s.jobs) s u
        (UniqueIds-keep (is_expired now) s.jobs u) (keep-IsRow (is_expired now) s.jobs u)
        (All-keep (is_expired now) s.jobs);
}
