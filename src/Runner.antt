-- ===== src/Runner.antt =====
-- runner: the pipelines and the scheduler of jobs.
pub mod Pipeline
