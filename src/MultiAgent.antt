-- ===== src/MultiAgent.antt =====
-- src/trace_gate/multi_agent.py: scopes, writer leases, the task coordinator and its merge.
pub mod Paths
pub mod Leases
pub mod Coordinator
mod Examples
