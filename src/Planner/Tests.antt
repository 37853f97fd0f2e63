-- ===== src/Planner/Tests.antt =====
-- The planner (src/voodoo_skillset/policy.py, dag.py, verifier.py) on concrete plans.
use voodoo_skillset.Prelude.{String, true, false, List, [], ◌∷◌, ◌≡◌, ◌≢◌, ◌↔◌, refl, contains}
use voodoo_skillset.Prelude.Members.{distinct, IsDistinct}
use voodoo_skillset.Python.{ok}
use voodoo_skillset.Planner.Policy.{
  Capability, write, RuntimeManifest, IntentProfile, authority_gate, allow, IsStanding,
  authority_gate-IsStanding,
}
use voodoo_skillset.Planner.Stages.{stages, compose_stages, flat}
use voodoo_skillset.Planner.Stages.Order.{IsOrdered, compose_stages_returns}
use voodoo_skillset.Planner.Plans.{Selection, ExecutionPlan, verify_plan}
use voodoo_skillset.Planner.Plans.Acceptance.{composed-verifies}
use voodoo_skillset.Planner.Plans.Uncovered.{uncovered_raises}

abbrev writer : Capability
writer = record { id = "implementer"; authority = write }

abbrev intent : IntentProfile
intent = record { write_intent = true; deploy_intent = false }

abbrev runtime : RuntimeManifest
runtime = record { tools = []; standing_grants = "WRITE" ∷ [] }

authority_gate-IsStanding_example :
    ((authority_gate writer intent runtime).verdict ≡ allow) ↔ IsStanding write intent runtime
authority_gate-IsStanding_example = authority_gate-IsStanding writer intent runtime

abbrev workers : List String
workers = "independent-verifier" ∷ "test-engineer" ∷ "implementer" ∷ "architect" ∷ []

abbrev worker_stages : List (List String)
worker_stages =
    ("architect" ∷ [])
    ∷ ("implementer" ∷ [])
    ∷ ("test-engineer" ∷ [])
    ∷ ("independent-verifier" ∷ [])
    ∷ []

composed : compose_stages workers ≡ stages worker_stages
unfolding compose_stages
composed = refl

compose_stages_returns_example :
    (sts : List (List String)) × (compose_stages workers ≡ stages sts)
    × IsOrdered (distinct workers) [] sts
    × ((t : String) → contains t (flat sts) ≡ contains t workers)
    × IsDistinct (flat sts)
compose_stages_returns_example = compose_stages_returns workers

abbrev selection : String → Selection
selection id = record { capability_id = id }

abbrev plan : ExecutionPlan
plan = record {
  selections =
      selection "independent-verifier"
      ∷ selection "test-engineer"
      ∷ selection "implementer"
      ∷ selection "architect"
      ∷ [];
  stages = worker_stages;
  blockers = [];
}

composed-verifies_example : verify_plan plan true ≡ ok []
composed-verifies_example = composed-verifies plan true composed refl (λ h. refl)

-- A plan whose architect stands in no stage.
abbrev uncovered : ExecutionPlan
uncovered = record plan {
  stages = ("implementer" ∷ "test-engineer" ∷ []) ∷ ("independent-verifier" ∷ []) ∷ [];
}

uncovered_raises_example :
    verify_plan uncovered true ≢ ok ("DAG does not cover selected workers" ∷ [])
uncovered_raises_example =
    uncovered_raises uncovered true "architect" refl refl refl refl
      ("DAG does not cover selected workers" ∷ [])
