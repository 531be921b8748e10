-- ===== src/Stats.antt =====
-- packages/agent_core/src/stats.rs: the counters of the agent. `fetch_add` wraps.
use playit_agent.Common.{ℕ, ◌+◌, ◌%◌, ◌^◌}

pub record AgentStats : Type 0 where
  pub bytes_in : ℕ
  pub bytes_out : ℕ
  pub active_tcp : ℕ
  pub active_udp : ℕ

abbrev pub no_stats : AgentStats
no_stats = record { bytes_in = 0; bytes_out = 0; active_tcp = 0; active_udp = 0 }

unfoldable pub add_bytes_in : AgentStats → ℕ → AgentStats
add_bytes_in s bytes = record s { bytes_in = (s.bytes_in + bytes) % 2 ^ 64 }

unfoldable pub add_bytes_out : AgentStats → ℕ → AgentStats
add_bytes_out s bytes = record s { bytes_out = (s.bytes_out + bytes) % 2 ^ 64 }

unfoldable pub set_udp : AgentStats → ℕ → AgentStats
set_udp s count = record s { active_udp = count }

unfoldable pub set_tcp : AgentStats → ℕ → AgentStats
set_tcp s count = record s { active_tcp = count }
