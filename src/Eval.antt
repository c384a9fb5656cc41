-- ===== src/Eval.antt =====
-- engram/eval: the benchmark.
pub mod Metrics
pub mod Cases
pub mod Report
pub mod Runner
pub mod Judge
pub mod Locomo
