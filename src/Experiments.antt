-- ===== src/Experiments.antt =====
-- apps/main_performance_experiments.cpp and apps/main_performance_evaluation.cpp: deployments that a
-- program starts by itself, and what it measures of them.
pub mod Deploy
pub mod Clear
pub mod Started
pub mod Kept
pub mod Journeys
pub mod Killed
pub mod Workload
pub mod Rounds
pub mod Evaluation
