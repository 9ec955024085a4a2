-- ===== src/Tasks.antt =====
-- runtime_task_runner.cpp: the runner of the window's service calls.
pub mod Runner
pub mod RunnerLaws
