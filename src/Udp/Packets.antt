-- ===== src/Udp/Packets.antt =====
-- packages/agent_core/src/network/udp/packets.rs: one buffer of the packet pool, with the length of
-- the packet in it.
use playit_agent.Common.{
  ℕ, ◌≤◌, ◌<◌, ◌≡◌, refl, length, take, ltb, ltb-false, ltb-true, if◌then◌else◌,
}
use playit_agent.Io.{Result, ok, err, invalid_input, Bytes}

abbrev pub packet_len : ℕ
packet_len = 2048

pub record Packet : Type 0 where
  pub buffer : Bytes
  pub len : ℕ

-- A buffer of the pool, and a length that fits it.
pub record ValidPacket (p : Packet) : Type 0 where
  pub buffer : length p.buffer ≡ packet_len
  pub len : p.len ≤ packet_len

-- `as_ref`: the packet's bytes.
unfoldable pub as_ref : Packet → Bytes
as_ref p = take p.len p.buffer

unfoldable pub set_len : Packet → ℕ → Result Packet
set_len p len = if ltb packet_len len then err invalid_input else ok (record p { len = len })

-- A length is set exactly if it fits the buffer.
pub set_len_fits :
    (p : Packet) (len : ℕ) → len ≤ packet_len → set_len p len ≡ ok (record p { len = len })
unfolding set_len
set_len_fits p len h = rw (ltb-false packet_len len h) refl

pub set_len_too_large :
    (p : Packet) (len : ℕ) → packet_len < len → set_len p len ≡ err invalid_input
unfolding set_len
set_len_too_large p len h = rw (ltb-true packet_len len h) refl
