-- ===== src/Tcp/Pipe.antt =====
-- packages/agent_core/src/network/tcp/tcp_pipe.rs: one direction of a connection. A turn of the loop is
-- what the read comes to, and whether what was read could be written on; what a failed `write_all` has
-- written of its chunk is not known, and is not counted. A pipe is one of `new_with_stats` that is
-- given the agent's counters, as those of a client are.
pub mod Accounts
use playit_agent.Common.{
  ℕ, ◌+◌, ◌-◌, ◌%◌, ◌^◌, Bool, true, false, Option, none, some, List, [], ◌∷◌, ◌++◌, length, ◌==◌,
  if◌then◌else◌,
}
use playit_agent.Io.{Bytes}
use playit_agent.Stats.{AgentStats, add_bytes_in, add_bytes_out}

pub data PipeDirection : Type 0 where
  tunnel_to_origin origin_to_tunnel : PipeDirection

-- `Shared`
pub record Shared : Type 0 where
  pub last_activity : ℕ
  pub bytes_written : ℕ

pub data Turn : Type 0 where
  chunk : (bytes : Bytes) (written : Bool) (now : ℕ) → Turn
  read_failed cancelled : Turn

-- The worker's state: what it shares, the agent's counters, and what was written on.
pub record Pipe : Type 0 where
  pub shared : Shared
  pub stats : AgentStats
  pub output : Bytes

abbrev pub new_pipe : AgentStats → ℕ → Pipe
new_pipe stats now = record {
  shared = record { last_activity = now; bytes_written = 0 };
  stats = stats;
  output = [];
}

unfoldable pub count_bytes : PipeDirection → AgentStats → ℕ → AgentStats
count_bytes PipeDirection.tunnel_to_origin stats bytes = add_bytes_in stats bytes
count_bytes PipeDirection.origin_to_tunnel stats bytes = add_bytes_out stats bytes

abbrev pub closed : Pipe → Pipe
closed p = record p { shared = record p.shared { last_activity = 2 ^ 64 - 1 } }

abbrev pub after_chunk : PipeDirection → Bytes → ℕ → Pipe → Pipe
after_chunk direction bytes now p = record {
  shared = record {
    last_activity = now;
    bytes_written = (p.shared.bytes_written + length bytes) % 2 ^ 64;
  };
  stats = count_bytes direction p.stats (length bytes);
  output = p.output ++ bytes;
}

-- The loop; after the turns given it still runs, or it has ended on the way.
unfoldable pub run : PipeDirection → List Turn → Pipe → Pipe
run direction [] p = p
run direction (Turn.read_failed ∷ rest) p = closed p
run direction (Turn.cancelled ∷ rest) p = closed p
run direction (Turn.chunk bytes written now ∷ rest) p =
    let later = run direction rest (after_chunk direction bytes now p) in
    if length bytes == 0 then closed p else if written then later else closed p

unfoldable pub last_activity : Shared → ℕ
last_activity s = if s.last_activity == 2 ^ 64 - 1 then 0 else s.last_activity

unfoldable pub is_closed : Shared → Bool
is_closed s = s.last_activity == 2 ^ 64 - 1
