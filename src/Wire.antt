-- ===== src/Wire.antt =====
-- What the messages use of two crates that are not part of the repository: `byteorder` (integers of
-- fixed width in big-endian order) and `message_encoding` (the encodings of integers, options,
-- addresses and byte vectors). Both are parameters of the development, with the laws of `WireLaws`.
-- Addresses are those of Rust's standard library.
pub mod BigEndian
pub mod Fields
pub mod Addresses
use playit_agent.Common.{
  ℕ, zero, suc, ◌+◌, ◌^◌, ◌≤◌, ◌<◌, ◌≡◌, List, [], ◌∷◌, ◌++◌, length, take, drop, Option, none,
  some,
}
use playit_agent.Io.{Result, ok, err, unexpected_eof, Bytes, Written, Reader}
use playit_agent.Io.RoundTrip.{RoundTrip}

-- `std::net::IpAddr`: an address is the number that its octets spell.
pub data IpAddr : Type 0 where
  v4 : ℕ → IpAddr
  v6 : ℕ → IpAddr

-- `std::net::SocketAddrV4`
pub record SocketAddrV4 : Type 0 where
  pub ip : ℕ
  pub port : ℕ

-- `std::net::SocketAddrV6`
pub record SocketAddrV6 : Type 0 where
  pub ip : ℕ
  pub port : ℕ
  pub flowinfo : ℕ
  pub scope_id : ℕ

-- `std::net::SocketAddr`
pub data SocketAddr : Type 0 where
  v4 : SocketAddrV4 → SocketAddr
  v6 : SocketAddrV6 → SocketAddr

-- The range of an unsigned integer of `w` bytes.
abbrev pub InWidth : ℕ → ℕ → Type 0
InWidth w n = n < 256 ^ w

abbrev pub ValidIp : IpAddr → Type 0
ValidIp (v4 n) = InWidth 4 n
ValidIp (v6 n) = InWidth 16 n

-- The addresses that an encoding of address and port can carry: no flow label, no scope.
abbrev pub ValidSocketAddr : SocketAddr → Type 0
ValidSocketAddr (v4 a) = InWidth 4 a.ip × InWidth 2 a.port
ValidSocketAddr (v6 a) = InWidth 16 a.ip × InWidth 2 a.port × (a.flowinfo ≡ 0) × (a.scope_id ≡ 0)

abbrev pub IsByte : ℕ → Type 0
IsByte b = b < 256

abbrev pub AllBytes : Bytes → Type 0
AllBytes [] = Unit {0}
AllBytes (b ∷ bs) = IsByte b × AllBytes bs

pub record Wire : Type 1 where
  -- `byteorder`: `write_uN::<BigEndian>` and `read_uN::<BigEndian>`, the width in bytes first.
  pub be_bytes : ℕ → ℕ → Bytes
  pub read_be : ℕ → Reader ℕ
  -- `message_encoding`: `write_to` and `read_from` of `u8` to `u64`, of `Option<T>` over those of
  -- `T`, of `IpAddr`, of `SocketAddr` and of `Vec<u8>`.
  pub write_uint : ℕ → ℕ → Written
  pub read_uint : ℕ → Reader ℕ
  pub write_option : {A : Type 0} → (A → Written) → Option A → Written
  pub read_option : {A : Type 0} → Reader A → Reader (Option A)
  pub write_ip : IpAddr → Written
  pub read_ip : Reader IpAddr
  pub write_socket_addr : SocketAddr → Written
  pub read_socket_addr : Reader SocketAddr
  pub write_vec : Bytes → Written
  pub read_vec : Reader Bytes

-- What is assumed of the two crates.
pub record WireLaws (wire : Wire) : Type 1 where
  -- An integer of `w` bytes is written as `w` bytes, read back whatever follows, and read from any
  -- stream that has `w` bytes left; another stream is at its unexpected end.
  pub length-be_bytes : (w n : ℕ) → length (wire.be_bytes w n) ≡ w
  pub read-be_bytes :
      (w n : ℕ) (rest : Bytes)
      → InWidth w n
      → wire.read_be w (wire.be_bytes w n ++ rest) ≡ ok (n, rest)
  pub read-enough :
      (w : ℕ) (bs : Bytes) → w ≤ length bs → (n : ℕ) × (wire.read_be w bs ≡ ok (n, drop w bs))
  pub read-short : (w : ℕ) (bs : Bytes) → length bs < w → wire.read_be w bs ≡ err unexpected_eof
  -- A byte is read as what it is.
  pub read-byte : (b : ℕ) (rest : Bytes) → IsByte b → wire.read_be 1 (b ∷ rest) ≡ ok (b, rest)
  -- `message_encoding` writes the same integers, and reports the width.
  pub write_uint-eq : (w n : ℕ) → InWidth w n → wire.write_uint w n ≡ ok (wire.be_bytes w n, w)
  pub read_uint-eq : (w : ℕ) → wire.read_uint w ≡ wire.read_be w
  pub none-RoundTrip :
      {A : Type 0} (write : A → Written) (read : Reader A)
      → RoundTrip 0 (wire.write_option write none) (wire.read_option read) none
  pub some-RoundTrip :
      {A : Type 0} (write : A → Written) (read : Reader A) (a : A)
      → RoundTrip 0 (write a) read a
      → RoundTrip 0 (wire.write_option write (some a)) (wire.read_option read) (some a)
  pub ip-RoundTrip : (a : IpAddr) → ValidIp a → RoundTrip 0 (wire.write_ip a) wire.read_ip a
  pub socket_addr-RoundTrip :
      (a : SocketAddr)
      → ValidSocketAddr a
      → RoundTrip 0 (wire.write_socket_addr a) wire.read_socket_addr a
  pub vec-RoundTrip :
      (bs : Bytes)
      → length bs < 2 ^ 32
      → AllBytes bs
      → RoundTrip 0 (wire.write_vec bs) wire.read_vec bs
