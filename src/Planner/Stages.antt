-- ===== src/Planner/Stages.antt =====
-- `compose_stages` of src/voodoo_skillset/dag.py: the stages in which the selected capabilities run.
pub mod Ranks
pub mod Order
use voodoo_skillset.Prelude.{
  ℕ, zero, suc, String, Bool, true, false, not, List, [], ◌∷◌, ◌++◌, length, is_empty, all_of, keep,
  contains, str_eq, if◌then◌else◌,
}
use voodoo_skillset.Prelude.Members.{distinct, sorted}

-- DEPENDENCY_RULES
unfoldable pub dependency_rules : String → List String
dependency_rules node =
    if str_eq node "implementer"
    then "architect" ∷ "repo-auditor" ∷ "security-reviewer" ∷ "reality-checker" ∷ []
    else if str_eq node "test-engineer"
    then "implementer" ∷ []
    else if str_eq node "devops-reviewer"
    then "test-engineer" ∷ []
    else []

-- What the last stages do not wait for.
unfoldable pub late_exclusions : String → List String
late_exclusions node =
    if str_eq node "red-team"
    then "red-team" ∷ "independent-verifier" ∷ "evidence-curator" ∷ []
    else "independent-verifier" ∷ "evidence-curator" ∷ []

abbrev pub is_late : String → Bool
is_late node = contains node ("red-team" ∷ "independent-verifier" ∷ "evidence-curator" ∷ [])

-- `deps[x]`, for a set of selected ids.
unfoldable pub deps : List String → String → List String
unfolding dependency_rules late_exclusions
deps selected node =
    keep (λ d. contains d (dependency_rules node)) selected
    ++ (if is_late node then keep (λ d. not (contains d (late_exclusions node))) selected else [])

pub data Composition : Type 0 where
  stages : List (List String) → Composition
  cycle : List String → Composition
  out_of_fuel : Composition

abbrev pub then_stages : List String → Composition → Composition
then_stages ready (stages rest) = stages (ready ∷ rest)
then_stages ready other = other

-- `sorted(x for x in remaining if deps[x]<=completed)`
unfoldable pub ready_of : List String → List String → List String → List String
unfolding deps
ready_of selected remaining completed =
    sorted (keep (λ x. all_of (λ d. contains d completed) (deps selected x)) remaining)

-- The `while` loop, on fuel.
unfoldable pub loop : List String → ℕ → List String → List String → Composition
unfolding ready_of
loop selected fuel [] completed = stages []
loop selected zero (x ∷ xs) completed = out_of_fuel
loop selected (suc fuel) (x ∷ xs) completed =
    let ready = ready_of selected (x ∷ xs) completed in
    if is_empty ready
    then cycle (sorted (x ∷ xs))
    else then_stages ready
        (loop selected fuel (keep (λ y. not (contains y ready)) (x ∷ xs)) (completed ++ ready))

unfoldable pub compose_stages : List String → Composition
unfolding loop
compose_stages selected_ids =
    let selected = distinct selected_ids in loop selected (length selected) selected []

-- The capabilities of all stages.
abbrev pub flat : List (List String) → List String
flat [] = []
flat (st ∷ sts) = st ++ flat sts
