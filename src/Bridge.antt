-- ===== src/Bridge.antt =====
-- The signed bridge between the control plane and an executor, src/voodoo_skillset/executor_bridge.py:
-- requests and their signatures, the nonce ledger, the executor's service and the client.
pub mod Request
pub mod Signing
pub mod Replay
pub mod Service
pub mod Client
pub mod Keeping
pub mod Served
pub mod Claims
pub mod Once
pub mod Trust
mod Tests
