-- ===== src/Planner/Plans.antt =====
-- `verify_plan` of src/voodoo_skillset/verifier.py: what is wrong with a plan.
pub mod Acceptance
pub mod Uncovered
use Prim.Native.String.{◌++◌ as ◌+++◌}
use voodoo_skillset.Prelude.{
  ℕ, suc, String, Bool, true, false, not, ◌&&◌, ◌||◌, Option, none, some, List, [], ◌∷◌, ◌++◌, ◌==◌,
  leb, map, length, all_of, contains, if◌then◌else◌,
}
use voodoo_skillset.Prelude.Members.{distinct}
use voodoo_skillset.Python.{Result, ok, err, PyError, key_error}
use voodoo_skillset.Planner.Stages.{flat}

-- The fields of the two records that `verify_plan` reads.
pub record Selection : Type 0 where
  pub capability_id : String

pub record ExecutionPlan : Type 0 where
  pub selections : List Selection
  pub stages : List (List String)
  pub blockers : List String

abbrev pub ids_of : ExecutionPlan → List String
ids_of plan = map (λ (s : Selection). s.capability_id) plan.selections

-- `set(a) != set(b)`
abbrev pub differ : List String → List String → Bool
differ as_ bs = not (all_of (λ a. contains a bs) as_ && all_of (λ b. contains b as_) bs)

-- `where.get(x)`: the last of the stages from number `i` on that has `x`.
unfoldable pub position : String → ℕ → List (List String) → Option ℕ
position x i [] = none
position x i (st ∷ sts) =
    let later = position x (suc i) sts in
    elim later [ none ↦ if contains x st then some i else none | some j ↦ some j ]

abbrev pub when : Bool → String → List String
when true problem = problem ∷ []
when false problem = []

-- `a in where and b in where and where[a] >= where[b]`
abbrev pub not_before : Option ℕ → Option ℕ → Bool
not_before (some i) (some j) = leb j i
not_before _ _ = false

-- One round of the loop for "independent-verifier", which stands in stage `v`.
unfoldable pub late_problem : List (List String) → ℕ → String → Result (List String)
unfolding position
late_problem stages v x =
    let found = position x 0 stages in
    if contains x ("independent-verifier" ∷ "evidence-curator" ∷ []) then ok [] else elim found [
      | none ↦ err (key_error x)
      | some i ↦ ok (when (leb v i) ("verifier must run after " +++ x))
    ]

unfoldable pub late_problems : List (List String) → ℕ → List String → Result (List String)
unfolding late_problem
late_problems stages v [] = ok []
late_problems stages v (x ∷ xs) =
    let rest = late_problems stages v xs in
    elim (late_problem stages v x) [
      | err e ↦ err e
      | ok ps ↦ elim rest [ err e ↦ err e | ok qs ↦ ok (ps ++ qs) ]
    ]

unfoldable pub verifier_problems : List (List String) → List String → Result (List String)
unfolding late_problems
verifier_problems stages ids = elim (position "independent-verifier" 0 stages) [
  | none ↦ ok []
  | some v ↦ late_problems stages v ids
]

-- The problems that are found before the loop.
unfoldable pub cover_problems : ExecutionPlan → Bool → List String
unfolding position
cover_problems plan require_verifier =
    let together = flat plan.stages in
    when (not (length together == length (distinct together))) "duplicate capability in DAG"
    ++ (when (differ together (ids_of plan)) "DAG does not cover selected workers"
        ++ (when (require_verifier && not (contains "independent-verifier" (ids_of plan)))
              "independent verifier missing"
            ++ when
                (not_before (position "implementer" 0 plan.stages)
                  (position "test-engineer" 0 plan.stages))
                "tests must run after implementer"))

-- The problems: the plan is good where there are none.
unfoldable pub verify_plan : ExecutionPlan → Bool → Result (List String)
unfolding cover_problems verifier_problems
verify_plan plan require_verifier = elim (verifier_problems plan.stages (ids_of plan)) [
  | err e ↦ err e
  | ok late ↦ ok (cover_problems plan require_verifier ++ (late ++ plan.blockers))
]
