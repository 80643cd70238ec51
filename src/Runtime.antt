-- ===== src/Runtime.antt =====
-- src/trace_gate/runtime.py: the event ledger and the tool registry.
pub mod Events
pub mod Ledger
pub mod Registry
pub mod Kernel
