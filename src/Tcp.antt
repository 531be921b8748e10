-- ===== src/Tcp.antt =====
-- packages/agent_core/src/network/tcp: tunnelled TCP connections.
pub mod Pipe
pub mod Clients
