-- ===== src/Runner.antt =====
-- internal/runner: from a topology to booted nodes. Plan is the network plan (plan.go), Resolve the
-- boot specs (runner.go), Cluster what is done with both (cluster.go).
pub mod Plan
pub mod Resolve
pub mod Cluster
