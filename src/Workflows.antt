-- ===== src/Workflows.antt =====
-- `make_workflows.py`: the jobs of the workflows that it generates from `workflows.yml`.
pub mod Config
pub mod Steps
pub mod Jobs
pub mod Generate
mod Tests
