-- ===== src/Proto.antt =====
-- packages/agent_proto: the messages between the agent and the tunnel servers.
pub mod Session
pub mod Rpc
pub mod Mtu
pub mod Register
pub mod Request
pub mod Response
pub mod Feed
pub mod Flow
