-- ===== src/Planner/Plans/Uncovered.antt =====
-- What `verify_plan` (src/voodoo_skillset/verifier.py) does with a worker that stands in no stage.
use voodoo_skillset.Prelude.{
  ℕ, String, Bool, true, false, ◌++◌, some, List, [], ◌∷◌, ◌≡◌, ◌≢◌, arith, inl, inr, refl, sym, ap,
  ◌∙◌, contains, str_eq, eq_iff, Bool-cases, Option-cases,
}
use voodoo_skillset.Python.{Result, ok, err}
use voodoo_skillset.Planner.Stages.{flat}
use voodoo_skillset.Planner.Plans.{
  ExecutionPlan, ids_of, position, late_problem, late_problems, verifier_problems, verify_plan,
}
use voodoo_skillset.Planner.Plans.Acceptance.{position_found, position_inside}

module _ (sts : List (List String)) (v : ℕ) (x : String) where
  missing_raises :
      contains x ("independent-verifier" ∷ "evidence-curator" ∷ []) ≡ false
      → contains x (flat sts) ≡ false
      → (ps : List String) → late_problem sts v x ≢ ok ps
  unfolding late_problem
  missing_raises worker absent ps h = elim (Option-cases (position x 0 sts)) [
    | inl missing ↦ ground (arith, missing, worker)
    | inr (i, found) ↦ ground (arith, sym (position_inside x 0 i sts found) ∙ absent)
  ]

  late_problems_raise :
      ((ps : List String) → late_problem sts v x ≢ ok ps)
      → (xs : List String) → contains x xs ≡ true
      → (ps : List String) → late_problems sts v xs ≢ ok ps
  unfolding late_problems
  late_problems_raise raises [] m ps h = ground arith
  late_problems_raise raises (y ∷ ys) m ps h = elim (Bool-cases (str_eq x y)) [
    | inl same ↦
        first_raises (late_problem sts v y) (late_problems sts v ys)
          (λ qs e. raises qs (ap (late_problem sts v) ((eq_iff x y).0 same) ∙ e)) h
    | inr other ↦
        rest_raises (late_problem sts v y) (late_problems sts v ys)
          (late_problems_raise raises ys (ground arith)) h
  ]
    where
      first_raises :
          (a b : Result (List String)) {ps : List String}
          → ((qs : List String) → a ≢ ok qs)
          → elim a [ err e ↦ err e | ok qs ↦ elim b [ err e ↦ err e | ok rs ↦ ok (qs ++ rs) ] ]
            ≢ ok ps
      first_raises (ok qs) b n h = n qs refl
      first_raises (err e) b n h = ground arith

      rest_raises :
          (a b : Result (List String)) {ps : List String}
          → ((qs : List String) → b ≢ ok qs)
          → elim a [ err e ↦ err e | ok qs ↦ elim b [ err e ↦ err e | ok rs ↦ ok (qs ++ rs) ] ]
            ≢ ok ps
      rest_raises (ok qs) (ok rs) n h = n rs refl
      rest_raises (ok qs) (err e) n h = ground arith
      rest_raises (err e) b n h = ground arith

returned :
    {A B : Type 0} (r : Result A) (f : A → B) (b : B)
    → elim r [ err e ↦ err e | ok a ↦ ok (f a) ] ≡ ok b
    → (a : A) × (r ≡ ok a)
returned (ok a) f b h = (a, refl)
returned (err e) f b h = absurd (ground arith)

-- Where the independent verifier stands in a stage and some other selected worker, which is not the
-- evidence curator, stands in none, `verify_plan` returns no list of problems: it raises.
pub uncovered_raises :
    (plan : ExecutionPlan) (require_verifier : Bool) (x : String)
    → contains "independent-verifier" (flat plan.stages) ≡ true
    → contains x (ids_of plan) ≡ true
    → contains x ("independent-verifier" ∷ "evidence-curator" ∷ []) ≡ false
    → contains x (flat plan.stages) ≡ false
    → (problems : List String) → verify_plan plan require_verifier ≢ ok problems
unfolding verify_plan verifier_problems
uncovered_raises plan require_verifier x placed selected worker absent problems h =
    let (v, found) = position_found "independent-verifier" 0 plan.stages placed in
    let late = returned (verifier_problems plan.stages (ids_of plan)) _ problems h in
    late_problems_raise plan.stages v x (missing_raises plan.stages v x worker absent) (ids_of plan)
      selected (late.0) (sym (placed_verifier v found) ∙ late.1)
  where
    placed_verifier :
        (v : ℕ)
        → position "independent-verifier" 0 plan.stages ≡ some v
        → verifier_problems plan.stages (ids_of plan) ≡ late_problems plan.stages v (ids_of plan)
    placed_verifier v e = rw (e, verifier_problems) refl
