-- ===== src/Runner.antt =====
-- boring_agent/runner.py: the claim that a runner makes before it does any work.
pub mod Claim
