-- ===== src/Domain.antt =====
-- src/graph_skill_runtime/domain/models.py: the contracts shared by the entry points and the adapters.
-- Times in seconds are kept by their text; schema_version and kind fields are constants and left out.
pub mod Profile
pub mod Run
pub mod Agent
pub mod Secrets
