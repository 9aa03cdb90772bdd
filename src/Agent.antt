-- ===== src/Agent.antt =====
-- internal/agent and internal/agentid: what an agent is called and how it reports.
pub mod Retry
pub mod Portable
