-- ===== src/Udp.antt =====
-- packages/agent_core/src/network/udp: tunnelled UDP packets.
pub mod Packets
pub mod Channel
pub mod Clients
