-- ===== src/Agent.antt =====
-- packages/default/src/deployment/agent.rs and bin/agent.rs: the agent on a system, which sends
-- heartbeats and deploys what the server asks for.
pub mod Shell
pub mod Deploy
pub mod Heartbeat
