-- ===== src/Fleet/Selection.antt =====
-- Which job `claim_execution` of src/voodoo_skillset/fleet.py leases: ORDER BY priority, created_at.
use voodoo_skillset.Prelude.{
  String, Bool, true, false, Option, none, some, List, [], ◌∷◌, ◌≡◌, refl, subst, arith, ℤ, ltb_ℤ,
  ◌+ℤ◌, All, if◌then◌else◌, Bool-cases, inl, inr, eq_refl,
}
use voodoo_skillset.Python.{Result, ok, err, ◌>>◌}
use voodoo_skillset.Platform.{Platform}
use voodoo_skillset.Fleet.Tables.{Job, Store, find, update, first}
use voodoo_skillset.Fleet.Tables.Laws.{UniqueIds, first-IsRow, find-update}
use voodoo_skillset.Fleet.Updates.{grant_execution}
use voodoo_skillset.Fleet.Queue.{reap_expired}
use voodoo_skillset.Fleet.Execution.{
  token_hash, is_claimable, runs_before, grant_row, grant_candidate, claim_row,
}
use voodoo_skillset.Fleet.Refinement.Reaping.{reap_expired-Evolving}

-- `a` has a lower priority number than `b`, or the same one and is older.
abbrev pub outranks : Job → Job → Bool
outranks a b =
    if ltb_ℤ a.priority b.priority
    then true
    else if ltb_ℤ b.priority a.priority
    then false
    else ltb_ℤ a.created_at b.created_at

outranks_kept : (k j : Job) → runs_before k j ≡ true → outranks j k ≡ false
unfolding runs_before
outranks_kept k j h = ground arith

outranks_replaced :
    (x k j : Job) → runs_before k j ≡ false → outranks x k ≡ false → outranks x j ≡ false
unfolding runs_before
outranks_replaced x k j h e = ground arith

-- No row that meets the condition outranks `r`.
abbrev pub IsBest : (Job → Bool) → Job → List Job → Type 0
IsBest p r = All (λ k. p k ≡ true → outranks k r ≡ false)

IsBest-weaken :
    (p : Job → Bool) (k j : Job) (js : List Job)
    → runs_before k j ≡ false
    → IsBest p k js
    → IsBest p j js
IsBest-weaken p k j [] h b = tt
IsBest-weaken p k j (x ∷ js) h b =
    (λ q. outranks_replaced x k j h (b.0 q), IsBest-weaken p k j js h b.1)

first_none :
    (p : Job → Bool) (before : Job → Job → Bool) (js : List Job)
    → first p before js ≡ none
    → All (λ k. p k ≡ false) js
unfolding first
first_none p before [] h = tt
first_none p before (j ∷ js) h = ground (arith, first_none p before js)

IsBest-none : (p : Job → Bool) (r : Job) (js : List Job) → All (λ k. p k ≡ false) js → IsBest p r js
IsBest-none p r [] a = tt
IsBest-none p r (j ∷ js) a = (λ q. absurd (ground arith), IsBest-none p r js a.1)

outranks_irrefl : (j : Job) → outranks j j ≡ false
outranks_irrefl j = ground arith

same_row : (a c : Job) → some a ≡ some c → a ≡ c
same_row a c q = cc

-- One round of the selection, by the choice that it makes between a row and the best of the rest.
IsBest-of :
    (p : Job → Bool) (j : Job) (js : List Job) (b : Bool) (o : Option Job) (r : Job)
    → p j ≡ b
    → ((k : Job) → o ≡ some k → IsBest p k js)
    → (o ≡ none → All (λ k. p k ≡ false) js)
    → (if b
        then (elim o [ none ↦ some j | some k ↦ if runs_before k j then some k else some j ])
        else o)
      ≡ some r
    → IsBest p r (j ∷ js)
IsBest-of p j js false o r e rest none_left h = (λ q. absurd (ground arith), rest r h)
IsBest-of p j js true none r e rest none_left h =
    subst (λ x. IsBest p x (j ∷ js)) (same_row j r h)
      (λ _. outranks_irrefl j, IsBest-none p j js (none_left refl))
IsBest-of p j js true (some k) r e rest none_left h = elim (Bool-cases (runs_before k j)) [
  | inl before ↦
      subst (λ x. IsBest p x (j ∷ js)) (same_row k r (rw before at h))
        (λ _. outranks_kept k j before, rest k refl)
  | inr after ↦
      subst (λ x. IsBest p x (j ∷ js)) (same_row j r (rw after at h))
        (λ _. outranks_irrefl j, IsBest-weaken p k j js after (rest k refl))
]

first-IsBest :
    (p : Job → Bool) (js : List Job) (r : Job) → first p runs_before js ≡ some r → IsBest p r js
unfolding first
first-IsBest p [] r h = tt
first-IsBest p (j ∷ js) r h =
    IsBest-of p j js (p j) (first p runs_before js) r refl (first-IsBest p js)
      (first_none p runs_before js) h

find-update_self :
    (id : String) (f : Job → Job) (js : List Job) (j : Job)
    → ((i : Job) → (f i).job_id ≡ i.job_id)
    → find id js ≡ some j
    → find id (update id f js) ≡ some (f j)
find-update_self id f js j keeps e = rw (find-update id id f js keeps) (rw (eq_refl id, e))

-- What a claim leases, from the table that reaping leaves.
pub record Claimed (env : Platform) (worker : String) (seconds now : ℤ) (token id : String)
    (t v : Store) : Type 0 where
  pub row : Job
  pub found : find id t.jobs ≡ some row
  pub claimable : is_claimable now row ≡ true
  pub best : IsBest (is_claimable now) row t.jobs
  pub leased :
      find id v.jobs ≡ some (grant_execution worker (token_hash env token) (now +ℤ seconds) now row)

granted_row :
    (env : Platform) (worker token : String) (expires now : ℤ) (row : Job) (t : Store) (id : String)
    → (grant_row env worker token expires now row t).0 ≡ ok (some id)
    → (row.job_id ≡ id)
      × ((grant_row env worker token expires now row t).1.jobs
          ≡ update row.job_id (grant_execution worker (token_hash env token) expires now) t.jobs)
unfolding grant_row
granted_row env worker token expires now row t id h = ground arith

granted_candidate :
    (env : Platform) (worker token : String) (seconds now : ℤ) (t : Store) (o : Option Job)
    (id : String)
    → UniqueIds t.jobs
    → first (is_claimable now) runs_before t.jobs ≡ o
    → (grant_candidate env worker token (now +ℤ seconds) now o t).0 ≡ ok (some id)
    → Claimed env worker seconds now token id t
        (grant_candidate env worker token (now +ℤ seconds) now o t).1
unfolding grant_candidate
granted_candidate env worker token seconds now t none id u f h = absurd (ground arith)
granted_candidate env worker token seconds now t (some row_) id u f h =
    let (is_row, ok_row) = first-IsRow (is_claimable now) runs_before t.jobs row_ u f in
    let (same, jobs) = granted_row env worker token (now +ℤ seconds) now row_ t id h in
    let g = grant_execution worker (token_hash env token) (now +ℤ seconds) now in
    let found_ : find id t.jobs ≡ some row_ = subst (λ i. find i t.jobs ≡ some row_) same is_row in
    record {
      row = row_;
      found = found_;
      claimable = ok_row;
      best = first-IsBest (is_claimable now) t.jobs row_ f;
      leased = rw jobs (
          subst (λ i. find i (update row_.job_id g t.jobs) ≡ some (g row_)) same
            (find-update_self row_.job_id g t.jobs row_ (λ i. refl) is_row));
    }

Claimed-after :
    (env : Platform) (worker token : String) (seconds now : ℤ) (s : Store)
    (q : Result (Unit {0}) × Store) (id : String)
    → UniqueIds q.1.jobs
    → let after = λ (t : Store).
      grant_candidate env worker token
        (now +ℤ seconds)
        now
        (first (is_claimable now) runs_before t.jobs)
        t in
      let whole = (((λ (z : Store). q) >> after) s) in
      whole.0 ≡ ok (some id)
      → (t : Store) × (q ≡ (ok tt, t)) × Claimed env worker seconds now token id t whole.1
Claimed-after env worker token seconds now s (ok tt, t) id u h =
    (t, refl, granted_candidate env worker token seconds now t _ id u refl h)
Claimed-after env worker token seconds now s (err e, t) id u h = absurd (ground arith)

-- When a claim leases a job, then, in the table that reaping the expired leases leaves, the job is
-- QUEUED, due and has attempts left, no other such job has a lower priority number, or the same one
-- and is older, and its row becomes that of a lease of the worker under the hash of its token.
pub claim_takes_best :
    (env : Platform) (worker : String) (seconds now : ℤ) (token : String) (s : Store) (id : String)
    → UniqueIds s.jobs
    → (claim_row env worker seconds now token s).0 ≡ ok (some id)
    → (t : Store) × (reap_expired env now s ≡ (ok tt, t))
      × Claimed env worker seconds now token id t (claim_row env worker seconds now token s).1
unfolding claim_row
claim_takes_best env worker seconds now token s id u h =
    Claimed-after env worker token seconds now s (reap_expired env now s) id
      ((reap_expired-Evolving (token_hash env token) env now).at s u).unique h
