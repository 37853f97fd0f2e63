-- ===== src/Container.antt =====
-- The container runner, `DockerSandboxExecutor` of src/voodoo_skillset/container_executor.py.
pub mod Output
pub mod Supervision
pub mod Image
pub mod Runner
pub mod Confinement
mod Tests
