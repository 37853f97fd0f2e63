-- ===== src/Planner/Plans/Acceptance.antt =====
-- `verify_plan` (src/voodoo_skillset/verifier.py) has nothing to object to the stages that
-- `compose_stages` (src/voodoo_skillset/dag.py) makes.
use voodoo_skillset.Prelude.{
  ℕ, suc, String, Bool, true, false, not, ◌&&◌, some, List, [], ◌∷◌, ◌++◌, ◌≡◌, ◌⊎◌, inl, inr, refl,
  sym, ◌∙◌, subst, arith, ◌≤◌, ◌<◌, ◌==◌, length, contains, eq_refl, Bool-cases, Option-cases,
}
use voodoo_skillset.Prelude.Members.{
  distinct, IsDistinct, contains-append, IsDistinct-append, all_of_members, contains-distinct,
}
use voodoo_skillset.Python.{ok}
use voodoo_skillset.Planner.Stages.{
  deps, flat, dependency_rules, late_exclusions, compose_stages, stages,
}
use voodoo_skillset.Planner.Stages.Order.{IsOrdered, compose_stages_returns, contains-deps}
use voodoo_skillset.Planner.Plans.{
  ExecutionPlan, ids_of, position, not_before, late_problem, late_problems, verifier_problems,
  cover_problems, verify_plan, differ,
}

position_from :
    (x : String) (i j : ℕ) (sts : List (List String)) → position x i sts ≡ some j → i ≤ j
unfolding position
position_from x i j [] h = absurd (ground arith)
position_from x i j (st ∷ sts) h =
    ground (arith, Option-cases (position x (suc i) sts), position_from x (suc i) j sts)

-- Where a text stands in some stages of which the first one has the number `i`.
position_cases :
    (x : String) (i k : ℕ) (st : List String) (sts : List (List String))
    → position x i (st ∷ sts) ≡ some k
    → (position x (suc i) sts ≡ some k) ⊎ ((contains x st ≡ true) × (k ≡ i))
unfolding position
position_cases x i k st sts h =
    ground (arith, Option-cases (position x (suc i) sts), Bool-cases (contains x st))

pub position_found :
    (x : String) (i : ℕ) (sts : List (List String))
    → contains x (flat sts) ≡ true
    → (j : ℕ) × (position x i sts ≡ some j)
unfolding position
position_found x i [] h = absurd (ground arith)
position_found x i (st ∷ sts) h = elim (Option-cases (position x (suc i) sts)) [
  | inl missing ↦ (
    i,
    rw missing (ground (arith, contains-append x st (flat sts), position_found x (suc i) sts)),
  )
  | inr (j, found) ↦ (j, rw found refl)
]

position_empty : (x : String) (i k : ℕ) → position x i [] ≡ some k → ⊥
unfolding position
position_empty x i k h = absurd (ground arith)

pub position_inside :
    (x : String) (i k : ℕ) (sts : List (List String))
    → position x i sts ≡ some k
    → contains x (flat sts) ≡ true
position_inside x i k [] h = absurd (position_empty x i k h)
position_inside x i k (st ∷ sts) h = elim (position_cases x i k st sts h) [
  | inl later ↦
      ground (arith, contains-append x st (flat sts), position_inside x (suc i) k sts later)
  | inr (here, _) ↦ ground (arith, contains-append x st (flat sts), here)
]

-- The position of a dependency is before that of what depends on it.
position_before :
    (selected completed : List String) (i j k : ℕ) (sts : List (List String)) (x d : String)
    → IsOrdered selected completed sts
    → IsDistinct (flat sts)
    → contains d completed ≡ false
    → contains d (deps selected x) ≡ true
    → position d i sts ≡ some j
    → position x i sts ≡ some k
    → j < k
position_before selected completed i j k [] x d o once free dep pd px =
    absurd (no_position (position_inside x i k [] px))
  where
    no_position : false ≡ true → ⊥
    no_position h = ground arith
position_before selected completed i j k (st ∷ sts) x d o once free dep pd px =
    let (later_once, apart) = IsDistinct-append st (flat sts) once in
    elim (position_cases x i k st sts px) [
      | inr (here, _) ↦ absurd (both (o.1 x d here dep) free)
      | inl x_later ↦ elim (position_cases d i j st sts pd) [
        | inr (_, first) ↦ omega (arith, first, position_from x (suc i) k sts x_later)
        | inl d_later ↦
            position_before selected (completed ++ st) (suc i) j k sts x d o.2 later_once
              (ground (
                arith,
                free,
                contains-append d completed st,
                apart d (position_inside d (suc i) j sts d_later),
              ))
              dep d_later x_later
      ]
    ]
  where
    both : {b : Bool} → b ≡ true → b ≡ false → ⊥
    both p q = ground arith

distinct_already : (us : List String) → IsDistinct us → distinct us ≡ us
distinct_already [] h = refl
distinct_already (u ∷ us) (new, h) =
    let same = distinct_already us h in rw (contains-distinct u us, new, same) refl

-- Two lists with the same members do not differ.
differ_same :
    (as_ bs : List String) → ((t : String) → contains t as_ ≡ contains t bs) → differ as_ bs ≡ false
differ_same as_ bs same =
    let ab = all_of_members (λ a. contains a bs) as_ (λ t h. sym (same t) ∙ h) in
    let ba = all_of_members (λ b. contains b as_) bs (λ t h. same t ∙ h) in rw (ab, ba) refl

implementer_dependency :
    (selected : List String)
    → contains "implementer" selected ≡ true
    → contains "implementer" (deps selected "test-engineer") ≡ true
unfolding dependency_rules
implementer_dependency selected h = contains-deps selected "test-engineer" "implementer" ∙ rw h refl

verifier_dependency :
    (selected : List String) (x : String)
    → contains x selected ≡ true
    → contains x ("independent-verifier" ∷ "evidence-curator" ∷ []) ≡ false
    → contains x (deps selected "independent-verifier") ≡ true
unfolding dependency_rules late_exclusions
verifier_dependency selected x h n =
    contains-deps selected "independent-verifier" x ∙ rw (h, n) refl

module _ (ids : List String) (sts : List (List String)) (ordered : IsOrdered (distinct ids) [] sts)
    (members : (t : String) → contains t (flat sts) ≡ contains t ids)
    (once : IsDistinct (flat sts)) where
  chosen : (t : String) (i k : ℕ) → position t i sts ≡ some k → contains t (distinct ids) ≡ true
  chosen t i k h = contains-distinct t ids ∙ sym (members t) ∙ position_inside t i k sts h

  tests_after : not_before (position "implementer" 0 sts) (position "test-engineer" 0 sts) ≡ false
  tests_after = elim (Option-cases (position "implementer" 0 sts)) [
    | inl missing ↦ rw missing refl
    | inr (i, found) ↦ elim (Option-cases (position "test-engineer" 0 sts)) [
      | inl missing ↦ rw (found, missing) refl
      | inr (k, later) ↦
          let before =
            position_before (distinct ids) [] 0 i k sts "test-engineer" "implementer" ordered once
              refl (implementer_dependency (distinct ids) (chosen "implementer" 0 i found)) found
              later in
          rw (found, later) (ground arith)
    ]
  ]

  nobody_late :
      (v : ℕ)
      → position "independent-verifier" 0 sts ≡ some v
      → (x : String) → contains x ids ≡ true
      → late_problem sts v x ≡ ok []
  unfolding late_problem
  nobody_late v verifier x h =
      elim (Bool-cases (contains x ("independent-verifier" ∷ "evidence-curator" ∷ []))) [
        | inl excepted ↦ rw excepted refl
        | inr worker ↦
            let (i, found) = position_found x 0 sts (members x ∙ h) in
            let before =
              position_before (distinct ids) [] 0 i v sts "independent-verifier" x ordered once refl
                (verifier_dependency (distinct ids) x (contains-distinct x ids ∙ h) worker) found
                verifier in
            rw (worker, found) (ground arith)
      ]

  none_late :
      (v : ℕ)
      → position "independent-verifier" 0 sts ≡ some v
      → (xs : List String) → ((x : String) → contains x xs ≡ true → contains x ids ≡ true)
      → late_problems sts v xs ≡ ok []
  unfolding late_problems
  none_late v verifier [] inside = refl
  none_late v verifier (x ∷ xs) inside =
      rw
        (
          nobody_late v verifier x (inside x (ground (arith, eq_refl x))),
          none_late v verifier xs (λ y h. inside y (ground arith)),
          late_problems,
        )
        refl

  no_verifier_problems : verifier_problems sts ids ≡ ok []
  unfolding verifier_problems
  no_verifier_problems = elim (Option-cases (position "independent-verifier" 0 sts)) [
    | inl missing ↦ rw (missing, verifier_problems) refl
    | inr (v, found) ↦ rw (found, verifier_problems) (none_late v found ids (λ x h. h))
  ]

-- A plan whose stages are those that `compose_stages` makes of its workers, without blockers and with
-- the independent verifier where it is required, has no problems.
pub composed-verifies :
    (plan : ExecutionPlan) (require_verifier : Bool)
    → compose_stages (ids_of plan) ≡ stages plan.stages
    → plan.blockers ≡ []
    → (require_verifier ≡ true → contains "independent-verifier" (ids_of plan) ≡ true)
    → verify_plan plan require_verifier ≡ ok []
unfolding verify_plan cover_problems
composed-verifies plan require_verifier made unblocked verifier =
    let (sts, e, ordered, members, once) = compose_stages_returns (ids_of plan) in
    let same : sts ≡ plan.stages = same_stages sts plan.stages (sym e ∙ made) in
    let o = subst (λ x. IsOrdered (distinct (ids_of plan)) [] x) same ordered in
    let m =
      subst (λ x. (t : String) → contains t (flat x) ≡ contains t (ids_of plan)) same members in
    let n = subst (λ x. IsDistinct (flat x)) same once in
    rw
      (
        no_verifier_problems (ids_of plan) plan.stages o m n,
        tests_after (ids_of plan) plan.stages o m n,
        distinct_already (flat plan.stages) n,
        differ_same (flat plan.stages) (ids_of plan) m,
        ℕ_refl (length (flat plan.stages)),
        required require_verifier (contains "independent-verifier" (ids_of plan)) verifier,
        unblocked,
        verify_plan,
        cover_problems,
      )
      refl
  where
    same_stages : (a b : List (List String)) → stages a ≡ stages b → a ≡ b
    same_stages a b h = cc

    ℕ_refl : (n : ℕ) → (n == n) ≡ true
    ℕ_refl n = ground arith

    required : (a b : Bool) → (a ≡ true → b ≡ true) → (a && not b) ≡ false
    required a b h = ground arith
