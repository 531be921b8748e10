-- ===== src/Wire/Fields.antt =====
-- The encodings of single fields, from the laws of the external crates.
use playit_agent.Common.{ℕ, ◌≡◌, refl, length, Option, none, some, arith}
use playit_agent.Io.{ok, Bytes, Written, Reader, read_exact}
use playit_agent.Io.RoundTrip.{RoundTrip, read_exact-append}
use playit_agent.Wire.{Wire, WireLaws, InWidth}

-- What holds of the value, if there is one.
abbrev pub ValidOption : {A : Type 0} → (A → Type 0) → Option A → Type 0
ValidOption P none = Unit {0}
ValidOption P (some a) = P a

module _ (wire : Wire) (laws : WireLaws wire) where
  -- An integer written through `message_encoding` and read through `byteorder`.
  pub be-RoundTrip : (w n : ℕ) → InWidth w n → RoundTrip 0 (wire.write_uint w n) (wire.read_be w) n
  be-RoundTrip w n h = record {
    bytes = wire.be_bytes w n;
    reported = w;
    wrote = laws.write_uint-eq w n h;
    counted = omega (arith, laws.length-be_bytes w n);
    reads = λ rest. laws.read-be_bytes w n rest h;
  }

  -- The same integer read through `message_encoding`.
  pub uint-RoundTrip :
      (w n : ℕ) → InWidth w n → RoundTrip 0 (wire.write_uint w n) (wire.read_uint w) n
  uint-RoundTrip w n h = rw laws.read_uint-eq (be-RoundTrip w n h)

  pub option-RoundTrip :
      {A : Type 0} (P : A → Type 0) (write : A → Written) (read : Reader A)
      → ((a : A) → P a → RoundTrip 0 (write a) read a)
      → (o : Option A) → ValidOption P o
      → RoundTrip 0 (wire.write_option write o) (wire.read_option read) o
  option-RoundTrip P write read one none h = laws.none-RoundTrip write read
  option-RoundTrip P write read one (some a) h = laws.some-RoundTrip write read a (one a h)

-- A fixed array that is written by `write_all`, its length counted by hand, and read by `read_exact`.
pub array-RoundTrip :
    (n : ℕ) (bs : Bytes) → length bs ≡ n → RoundTrip 0 (ok (bs, length bs)) (read_exact n) bs
array-RoundTrip n bs e = record {
  bytes = bs;
  reported = length bs;
  wrote = refl;
  counted = omega arith;
  reads = λ rest. read_exact-append n bs rest e;
}

-- The same with the length of the array counted as the constant that it is.
pub counted_array-RoundTrip :
    (n : ℕ) (bs : Bytes) → length bs ≡ n → RoundTrip 0 (ok (bs, n)) (read_exact n) bs
counted_array-RoundTrip n bs e = record {
  bytes = bs;
  reported = n;
  wrote = refl;
  counted = omega arith;
  reads = λ rest. read_exact-append n bs rest e;
}
