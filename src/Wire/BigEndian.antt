-- ===== src/Wire/BigEndian.antt =====
-- An instance of the external encodings, which shows that their laws can hold together and which the
-- concrete examples run on: integers in big-endian order, a byte before an option and an address
-- that says which kind it is, four bytes of length before a vector.
use Prim.Native.Nat.{◌*◌, ◌/◌, ◌%◌}
use native.Mathlib.Nat.{div-add-mod', div-div-eq-div-mul, mod-eq_of_lt, pow-suc}
use playit_agent.Common.{
  ℕ, zero, suc, ◌+◌, ◌^◌, ◌≤◌, ◌<◌, ◌≡◌, refl, ap, [], ◌∷◌, ◌++◌, length, drop, Option, none, some,
  arith, append_assoc, length-append, ◌∙◌, ◌==◌, if◌then◌else◌,
}
use playit_agent.Wire.{
  IsByte, Wire, WireLaws, IpAddr, SocketAddr, InWidth, ValidIp, ValidSocketAddr,
}
use playit_agent.Io.RoundTrip.{RoundTrip, read_exact-append}
use playit_agent.Io.{
  continue, Result, ok, err, unexpected_eof, Bytes, Written, Reader, ◌▷◌, pure, read_exact,
}

unfoldable pub be_bytes : ℕ → ℕ → Bytes
be_bytes zero n = []
be_bytes (suc w) n = (n / 256 ^ w % 256) ∷ be_bytes w n

unfoldable pub be_value : ℕ → ℕ → Reader ℕ
be_value zero acc bs = ok (acc, bs)
be_value (suc w) acc [] = err unexpected_eof
be_value (suc w) acc (b ∷ bs) = be_value w (acc * 256 + b) bs

pub length-be_bytes : (w n : ℕ) → length (be_bytes w n) ≡ w
unfolding be_bytes
length-be_bytes zero n = refl
length-be_bytes (suc w) n = ap suc (length-be_bytes w n)

-- The leading digit of `n % (p * 256)`.
split_digit : (n p : ℕ) → n % (p * 256) ≡ n / p % 256 * p + n % p
split_digit n p = omega (
  arith,
  div-add-mod' n p,
  div-add-mod' n (p * 256),
  ap (λ (t : ℕ). t * p) (div-add-mod' (n / p) 256),
  ap (λ (t : ℕ). t * p) (div-div-eq-div-mul n p 256),
)

read_digits :
    (w n acc : ℕ)
    → (acc * 256 + n / 256 ^ w % 256) * 256 ^ w + n % 256 ^ w ≡ acc * 256 ^ suc w + n % 256 ^ suc w
read_digits w n acc = rw (pow-suc 256 w) (omega (arith, split_digit n (256 ^ w)))

be_value-be_bytes :
    (w n acc : ℕ) (rest : Bytes)
    → be_value w acc (be_bytes w n ++ rest) ≡ ok (acc * 256 ^ w + n % 256 ^ w, rest)
unfolding be_bytes be_value
be_value-be_bytes zero n acc rest = ap (λ (t : ℕ). ok (t, rest)) (omega arith)
be_value-be_bytes (suc w) n acc rest =
    be_value-be_bytes w n (acc * 256 + n / 256 ^ w % 256) rest
    ∙ ap (λ (t : ℕ). ok (t, rest)) (read_digits w n acc)

be_value_enough :
    (w acc : ℕ) (bs : Bytes) → w ≤ length bs → (n : ℕ) × (be_value w acc bs ≡ ok (n, drop w bs))
unfolding be_value
be_value_enough zero acc bs h = (acc, refl)
be_value_enough (suc w) acc [] h = absurd (omega arith)
be_value_enough (suc w) acc (b ∷ bs) h = be_value_enough w (acc * 256 + b) bs (omega arith)

read-be_bytes :
    (w n : ℕ) (rest : Bytes) → InWidth w n → be_value w 0 (be_bytes w n ++ rest) ≡ ok (n, rest)
read-be_bytes w n rest h =
    be_value-be_bytes w n 0 rest ∙ ap (λ (t : ℕ). ok (t, rest)) (omega (arith, mod-eq_of_lt h))

abbrev pub write_option : {A : Type 0} → (A → Written) → Option A → Written
write_option write none = ok (0 ∷ [], 1)
write_option write (some a) = ok (1 ∷ [], 1) ▷ write a

abbrev pub option_of : {A : Type 0} → Reader A → Bytes → Result (Option A × Bytes)
option_of read [] = err unexpected_eof
option_of read (zero ∷ bs) = ok (none, bs)
option_of read (suc n ∷ bs) = continue (read bs) (λ a. pure (some a))

abbrev pub write_ip : IpAddr → Written
write_ip (IpAddr.v4 n) = ok (4 ∷ be_bytes 4 n, 5)
write_ip (IpAddr.v6 n) = ok (6 ∷ be_bytes 16 n, 17)

abbrev pub ip_of : Bytes → Result (IpAddr × Bytes)
ip_of [] = err unexpected_eof
ip_of (t ∷ bs) =
    if t == 4
    then continue (be_value 4 0 bs) (λ n r. ok (IpAddr.v4 n, r))
    else continue (be_value 16 0 bs) (λ n r. ok (IpAddr.v6 n, r))

abbrev pub write_socket_addr : SocketAddr → Written
write_socket_addr (SocketAddr.v4 a) = ok (4 ∷ (be_bytes 4 a.ip ++ be_bytes 2 a.port), 7)
write_socket_addr (SocketAddr.v6 a) = ok (6 ∷ (be_bytes 16 a.ip ++ be_bytes 2 a.port), 19)

abbrev pub socket_addr_of : Bytes → Result (SocketAddr × Bytes)
socket_addr_of [] = err unexpected_eof
socket_addr_of (t ∷ bs) =
    if t == 4
    then continue (be_value 4 0 bs) (λ i.
      λ r. continue (be_value 2 0 r) (λ p s. ok (SocketAddr.v4 (record { ip = i; port = p }), s)))
    else continue (be_value 16 0 bs) (λ i. λ r.
      continue (be_value 2 0 r)
        (λ p s. ok (SocketAddr.v6 (record { ip = i; port = p; flowinfo = 0; scope_id = 0 }), s)))

abbrev pub vec_of : Bytes → Result (Bytes × Bytes)
vec_of bs = continue (be_value 4 0 bs) read_exact

abbrev pub big_endian : Wire
big_endian = record {
  be_bytes = be_bytes;
  read_be = λ w. be_value w 0;
  write_uint = λ w n. ok (be_bytes w n, w);
  read_uint = λ w. be_value w 0;
  write_option = write_option;
  read_option = option_of;
  write_ip = write_ip;
  read_ip = ip_of;
  write_socket_addr = write_socket_addr;
  read_socket_addr = socket_addr_of;
  write_vec = λ bs. ok (be_bytes 4 (length bs) ++ bs, 4 + length bs);
  read_vec = vec_of;
}

some-RoundTrip :
    {A : Type 0} (write : A → Written) (read : Reader A) (a : A)
    → RoundTrip 0 (write a) read a
    → RoundTrip 0 (write_option write (some a)) (option_of read) (some a)
unfolding ◌▷◌ pure
some-RoundTrip write read a h = record {
  bytes = 1 ∷ h.bytes;
  reported = 1 + h.reported;
  wrote = rw h.wrote refl;
  counted = omega (arith, h.counted);
  reads = λ rest. rw (h.reads rest) refl;
}

ip-RoundTrip : (a : IpAddr) → ValidIp a → RoundTrip 0 (write_ip a) ip_of a
ip-RoundTrip (IpAddr.v4 n) h = record {
  bytes = 4 ∷ be_bytes 4 n;
  reported = 5;
  wrote = refl;
  counted = omega (arith, length-be_bytes 4 n);
  reads = λ rest. rw (read-be_bytes 4 n rest h) refl;
}
ip-RoundTrip (IpAddr.v6 n) h = record {
  bytes = 6 ∷ be_bytes 16 n;
  reported = 17;
  wrote = refl;
  counted = omega (arith, length-be_bytes 16 n);
  reads = λ rest. rw (read-be_bytes 16 n rest h) refl;
}

-- An address of `w` bytes with its port.
addr_reads :
    (w i p : ℕ) (rest : Bytes) (mk : ℕ → ℕ → SocketAddr)
    → InWidth w i
    → InWidth 2 p
    → continue
        (be_value w 0 ((be_bytes w i ++ be_bytes 2 p) ++ rest))
        (λ i'. λ r. continue (be_value 2 0 r) (λ p' s. ok (mk i' p', s)))
      ≡ ok (mk i p, rest)
addr_reads w i p rest mk hi hp =
    rw (append_assoc (be_bytes w i) (be_bytes 2 p) rest)
      (rw (read-be_bytes w i (be_bytes 2 p ++ rest) hi) (rw (read-be_bytes 2 p rest hp) refl))

length_addr : (w i p : ℕ) → suc (length (be_bytes w i ++ be_bytes 2 p)) ≡ 1 + w + 2 + 0
length_addr w i p =
    omega
      (arith, length-append (be_bytes w i) (be_bytes 2 p), length-be_bytes w i, length-be_bytes 2 p)

socket_addr-RoundTrip :
    (a : SocketAddr) → ValidSocketAddr a → RoundTrip 0 (write_socket_addr a) socket_addr_of a
socket_addr-RoundTrip (SocketAddr.v4 a) (hi, hp) = record {
  bytes = 4 ∷ (be_bytes 4 a.ip ++ be_bytes 2 a.port);
  reported = 7;
  wrote = refl;
  counted = length_addr 4 a.ip a.port;
  reads = λ rest.
      addr_reads 4 a.ip a.port rest (λ i p. SocketAddr.v4 (record { ip = i; port = p })) hi hp;
}
socket_addr-RoundTrip (SocketAddr.v6 a) (hi, hp, hf, hs) = record {
  bytes = 6 ∷ (be_bytes 16 a.ip ++ be_bytes 2 a.port);
  reported = 19;
  wrote = refl;
  counted = length_addr 16 a.ip a.port;
  reads = λ rest.
      addr_reads 16 a.ip a.port rest
        (λ i p. SocketAddr.v6 (record { ip = i; port = p; flowinfo = 0; scope_id = 0 })) hi hp
      ∙ cc;
}

vec-RoundTrip :
    (bs : Bytes)
    → length bs < 2 ^ 32
    → RoundTrip 0 (ok (be_bytes 4 (length bs) ++ bs, 4 + length bs)) vec_of bs
vec-RoundTrip bs h = record {
  bytes = be_bytes 4 (length bs) ++ bs;
  reported = 4 + length bs;
  wrote = refl;
  counted = omega (arith, length-append (be_bytes 4 (length bs)) bs, length-be_bytes 4 (length bs));
  reads = λ rest. rw (append_assoc (be_bytes 4 (length bs)) bs rest) (
      rw (read-be_bytes 4 (length bs) (bs ++ rest) h) (read_exact-append (length bs) bs rest refl));
}

be_value_short : (w acc : ℕ) (bs : Bytes) → length bs < w → be_value w acc bs ≡ err unexpected_eof
unfolding be_value
be_value_short zero acc bs h = absurd (omega arith)
be_value_short (suc w) acc [] h = refl
be_value_short (suc w) acc (b ∷ bs) h = be_value_short w (acc * 256 + b) bs (omega arith)

read_byte : (b : ℕ) (rest : Bytes) → IsByte b → be_value 1 0 (b ∷ rest) ≡ ok (b, rest)
unfolding be_value
read_byte b rest h = let e : 0 * 256 + b ≡ b = omega arith in ap (λ (n : ℕ). ok (n, rest)) e

pub big_endian_laws : WireLaws big_endian
big_endian_laws = record {
  length-be_bytes = length-be_bytes;
  read-be_bytes = read-be_bytes;
  read-enough = λ w. be_value_enough w 0;
  read-short = λ w. be_value_short w 0;
  read-byte = read_byte;
  write_uint-eq = λ w n h. refl;
  read_uint-eq = λ w. refl;
  none-RoundTrip = λ write read. record {
    bytes = 0 ∷ [];
    reported = 1;
    wrote = refl;
    counted = refl;
    reads = λ rest. refl;
  };
  some-RoundTrip = some-RoundTrip;
  ip-RoundTrip = ip-RoundTrip;
  socket_addr-RoundTrip = socket_addr-RoundTrip;
  vec-RoundTrip = λ bs h _. vec-RoundTrip bs h;
}
