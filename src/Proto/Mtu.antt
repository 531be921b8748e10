-- ===== src/Proto/Mtu.antt =====
-- packages/agent_proto/src/control_messages.rs: the byte pattern that fills an MTU test message.
pub mod Pattern
pub mod Verify
use playit_agent.Common.{
  ℕ, zero, suc, ◌+◌, ◌-◌, ◌%◌, min, List, [], ◌∷◌, true, false, take, drop, get_or, eq_bytes, ltb,
  leb, if◌then◌else◌,
}
use playit_agent.Io.{
  ok, panicked, invalid_data, Bytes, Written, Reader, pure, fail, ◌>>=◌, read_exact,
}

abbrev pub mtu_pattern_size : ℕ
mtu_pattern_size = 4

pattern_byte : ℕ → ℕ
pattern_byte i = get_or (0x0a ∷ 0x0b ∷ 0x0c ∷ 0x0d ∷ []) (i % 4) 0

-- `data[i] = PATTERN[i % 4]` for the next `n` indices.
unfoldable pub fill : ℕ → ℕ → Bytes
unfolding pattern_byte
fill zero i = []
fill (suc n) i = pattern_byte i ∷ fill n (i + 1)

unfoldable pub mtu_test_pattern : Bytes
unfolding fill
mtu_test_pattern = fill 2048 0

-- The `assert!` on the length is a panic.
unfoldable pub write_mtu_pattern : ℕ → Written
unfolding mtu_test_pattern
write_mtu_pattern len = if leb len 2048 then ok (take len mtu_test_pattern, len) else panicked

-- The bytes that a chunk of `size` bytes at `i` is compared with.
expected_chunk : ℕ → ℕ → Bytes
expected_chunk i size = take size (drop (i % mtu_pattern_size) mtu_test_pattern)

-- The rounds bound the loop. They do not run out (`verify_mtu_pattern-ne-panicked`).
verify_loop : ℕ → ℕ → ℕ → Reader (Unit {0})
unfolding expected_chunk read_exact fail
verify_loop zero i len bs = panicked
verify_loop (suc rounds) i len bs = elim (ltb i len) [
  | true ↦
      (do
        let size = min (len - i) 128
        buffer ← read_exact size
        if eq_bytes buffer (expected_chunk i size)
            then verify_loop rounds (i + size) len
            else fail invalid_data)
        bs
  | false ↦ ok (tt, bs)
]

unfoldable pub verify_mtu_pattern : ℕ → Reader (Unit {0})
unfolding verify_loop
verify_mtu_pattern len = verify_loop (suc len) 0 len
