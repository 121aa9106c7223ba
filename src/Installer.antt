-- ===== src/Installer.antt =====
-- src/graph_skill_runtime/integrations/installer.py: the installer of host integration assets.
-- A resolved path is its text, and a file's content its bytes. Directories that are made and removed
-- on the way are not modelled, nor are file modes.
pub mod JsonPath
pub mod Disk
pub mod Apply
pub mod Rollback
pub mod Outcome
pub mod Atomic
pub mod Plan
pub mod Ownership
mod Tests
