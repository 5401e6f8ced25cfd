-- ===== src/Agent.antt =====
-- internal/agent: the node agent, which keeps the transport processes of a node running.
pub mod Processes
pub mod Configs
