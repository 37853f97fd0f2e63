-- ===== src/Fleet.antt =====
-- The durable fleet store, src/voodoo_skillset/fleet.py: a job queue with leases for execution and
-- for verification, and a hash chain of events.
pub mod Tables
pub mod Validation
pub mod Updates
pub mod Events
pub mod Queue
pub mod Execution
pub mod Verification
pub mod Lifecycle
pub mod Refinement
pub mod Guarantees
pub mod Chain
pub mod Selection
pub mod Reports
mod Tests
