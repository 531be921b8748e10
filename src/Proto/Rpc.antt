-- ===== src/Proto/Rpc.antt =====
-- packages/agent_proto/src/rpc.rs and raw_slice.rs: a request id in front of a message, and bytes that
-- are written as they are.
use playit_agent.Common.{ℕ, length}
use playit_agent.Io.{ok, unsupported, Bytes, Written, Reader, ◌▷◌, no_bytes, fail, pure, ◌>>=◌}
use playit_agent.Io.RoundTrip.{RoundTrip, then_field, last_field}
use playit_agent.Wire.{Wire, WireLaws, InWidth}
use playit_agent.Wire.Fields.{be-RoundTrip}

pub record ControlRpcMessage (T : Type 0) : Type 0 where
  pub request_id : ℕ
  pub content : T

-- A `Vec<u8>` takes the whole slice, so the test for a short write never fires.
unfoldable pub write_raw_slice : Bytes → Written
write_raw_slice bs = ok (bs, length bs)

unfoldable pub read_raw_slice : Reader Bytes
read_raw_slice = fail unsupported

module _ (wire : Wire) where
  unfoldable pub write_rpc : {T : Type 0} → (T → Written) → ControlRpcMessage T → Written
  write_rpc write m = wire.write_uint 8 m.request_id ▷ write m.content ▷ no_bytes

  unfoldable pub read_rpc : {T : Type 0} → Reader T → Reader (ControlRpcMessage T)
  read_rpc read = do
    request_id ← wire.read_be 8
    content ← read
    pure (record { request_id = request_id; content = content })

module _ (wire : Wire) (laws : WireLaws wire) where
  -- A message under a u64 request id is read back, if its content is, and the length reported is
  -- off by as much as the content's.
  pub rpc-RoundTrip :
      {T : Type 0} (missed : ℕ) (write : T → Written) (read : Reader T) (m : ControlRpcMessage T)
      → InWidth 8 m.request_id
      → RoundTrip missed (write m.content) read m.content
      → RoundTrip missed (write_rpc wire write m) (read_rpc wire read) m
  unfolding write_rpc read_rpc
  rpc-RoundTrip missed write read m h content =
      then_field _ (be-RoundTrip wire laws 8 m.request_id h) (last_field _ content)
