-- ===== src/Runner.antt =====
-- The output of a run, read from the task's log (internal/app/result_parser.go).
pub mod Output
