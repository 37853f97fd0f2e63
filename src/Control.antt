-- ===== src/Control.antt =====
-- The control plane of src/voodoo_skillset/api.py and its client, src/voodoo_skillset/fleet_client.py.
pub mod App
pub mod Values
pub mod Coordinator
pub mod Execution
pub mod Handler
pub mod Scopes
pub mod Histories
pub mod Client
mod Tests
