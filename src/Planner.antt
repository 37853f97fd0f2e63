-- ===== src/Planner.antt =====
-- The planner: the authority gate of src/voodoo_skillset/policy.py, the stages of
-- src/voodoo_skillset/dag.py and the plan check of src/voodoo_skillset/verifier.py.
pub mod Policy
pub mod Stages
pub mod Plans
mod Tests
