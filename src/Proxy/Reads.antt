-- ===== src/Proxy/Reads.antt =====
-- A header that comes over the network is parsed or turned down, and never makes the parser panic.
use playit_agent.Common.{
  ℕ, ◌+◌, ◌≤◌, ◌≡◌, ◌≢◌, refl, inl, inr, Bool-cases, Bool, true, false, Option, none, some, length,
  length-drop, length-take, take, drop, ltb, ltb→ge, ltb→lt, ◌==◌, eq_bytes, if◌then◌else◌, arith,
}
use playit_agent.Io.{
  Result, ok, err, panicked, other, unexpected_eof, Bytes, Reader, pure, fail, read_exact, ◌>>=◌,
}
use playit_agent.Wire.{Wire, WireLaws}
use playit_agent.Proxy.{
  ProxyProtocolHeader, unwrapped, or_none, read_fields, read_addresses, read_slab, by_proto_type,
  after_header, read_header, parse_v2_udp,
}

-- Given `n` bytes, `r` reads its value off them.
abbrev Reads : {A : Type 0} → ℕ → Reader A → Type 0
Reads {A} n r = (bs : Bytes) → n ≤ length bs → (a : A × Bytes) × (r bs ≡ ok a)

-- `r` does not panic.
abbrev Calm : {A : Type 0} → Reader A → Type 0
Calm r = (bs : Bytes) → r bs ≢ panicked

module _ {A : Type 0} where
  pure-Reads : (n : ℕ) (a : A) → Reads n (pure a)
  unfolding pure
  pure-Reads n a bs h = ((a, bs), refl)

  fail-Calm : (e : _) → Calm (fail {A = A} e)
  unfolding fail
  fail-Calm e bs h = cc h

  if-Calm : (b : Bool) (r s : Reader A) → Calm r → Calm s → Calm (if b then r else s)
  if-Calm true r s p q = p
  if-Calm false r s p q = q

  read_exact-Calm :
      (n : ℕ) (k : Bytes → Reader A)
      → ((slab : Bytes) → length slab ≡ n → Calm (k slab))
      → Calm (read_exact n >>= k)
  unfolding read_exact ◌>>=◌
  read_exact-Calm n k rest bs h = elim (Bool-cases (ltb (length bs) n)) [
    | inl short ↦
        let given : (read_exact n >>= k) bs ≡ err unexpected_eof = rw short refl in cc (given, h)
    | inr enough ↦
        let given : (read_exact n >>= k) bs ≡ k (take n bs) (drop n bs) = rw enough refl in
        rest (take n bs) (omega (arith, length-take n bs, ltb→ge _ _ enough)) (drop n bs)
          (cc (given, h))
  ]

  unwrapped-Calm :
      (r : Result (Option A × Bytes)) (a : Option A × Bytes) → r ≡ ok a → Calm (unwrapped r)
  unfolding unwrapped pure fail
  unwrapped-Calm (ok (some a, left)) b e bs h = cc h
  unwrapped-Calm (ok (none, left)) b e bs h = cc h
  unwrapped-Calm (err x) b e bs h = cc e
  unwrapped-Calm panicked b e bs h = cc e

  or_none-ne-panicked : (r : Result (A × Bytes)) → r ≢ panicked → or_none r ≢ panicked
  unfolding or_none
  or_none-ne-panicked (ok a) calm h = cc h
  or_none-ne-panicked (err e) calm h = cc h
  or_none-ne-panicked panicked calm h = calm refl

module _ (wire : Wire) (laws : WireLaws wire) where
  read-Reads :
      {A : Type 0} (w n : ℕ) (k : ℕ → Reader A)
      → ((a : ℕ) → Reads n (k a))
      → Reads (w + n) (wire.read_be w >>= k)
  unfolding ◌>>=◌
  read-Reads w n k rest bs h =
      let (a, e) = laws.read-enough w bs (omega arith) in
      rw (e, ◌>>=◌) (rest a (drop w bs) (omega (arith, length-drop w bs)))

  if-Reads :
      {A : Type 0} (n : ℕ) (b : Bool) (r s : Reader A)
      → Reads n r
      → Reads n s
      → Reads n (if b then r else s)
  if-Reads n true r s p q = p
  if-Reads n false r s p q = q

  read_fields-Reads :
      (w len : ℕ) (header : ℕ → ℕ → ℕ → ℕ → ProxyProtocolHeader)
      → Reads (2 + (w + (w + (2 + (2 + 0))))) (read_fields wire w len header)
  unfolding read_fields read_addresses
  read_fields-Reads w len header = read-Reads 2 _ _ λ n.
      if-Reads _ (n == len) _ _
        (read-Reads w _ _
          λ a. read-Reads w _ _ λ b. read-Reads 2 _ _ λ c. read-Reads 2 _ _ λ d. pure-Reads 0 _)
        (pure-Reads _ _)

  read_slab-Calm :
      (w len : ℕ) (header : ℕ → ℕ → ℕ → ℕ → ProxyProtocolHeader)
      → Calm (read_slab wire (2 + (w + (w + 4))) w len header)
  unfolding read_slab
  read_slab-Calm w len header = read_exact-Calm _ _ λ slab size.
      let (a, e) = read_fields-Reads w len header slab (omega arith) in unwrapped-Calm _ a e

  by_proto_type-Calm : (proto_type : ℕ) → Calm (by_proto_type wire proto_type)
  unfolding by_proto_type
  by_proto_type-Calm proto_type =
      if-Calm (proto_type == 18) _ _ (read_slab-Calm 4 12 _)
        (if-Calm (proto_type == 34) _ _ (read_slab-Calm 16 36 _) (fail-Calm other))

  after_header-Calm : (header : Bytes) → Calm (after_header wire header)
  unfolding after_header ◌>>=◌
  after_header-Calm header = if-Calm (eq_bytes header _) _ _ read_type (fail-Calm other)
    where
      read_type : Calm (wire.read_be 1 >>= by_proto_type wire)
      read_type bs h = elim (Bool-cases (ltb (length bs) 1)) [
        | inl short ↦
            let given : (wire.read_be 1 >>= by_proto_type wire) bs ≡ err unexpected_eof =
              rw (laws.read-short 1 bs (ltb→lt _ _ short), ◌>>=◌) refl in
            cc (given, h)
        | inr enough ↦
            let (a, e) = laws.read-enough 1 bs (ltb→ge _ _ enough) in
            let given : (wire.read_be 1 >>= by_proto_type wire) bs
                ≡ by_proto_type wire a (drop 1 bs) =
              rw (e, ◌>>=◌) refl in
            by_proto_type-Calm a (drop 1 bs) (cc (given, h))
      ]

  -- On no bytes does the parser panic: the slab that it reads before the fields is as long as the
  -- fields that it unwraps.
  pub parse_v2_udp-ne-panicked : (bs : Bytes) → parse_v2_udp wire bs ≢ panicked
  unfolding parse_v2_udp read_header
  parse_v2_udp-ne-panicked bs =
      or_none-ne-panicked (read_header wire bs)
        (read_exact-Calm 13 (after_header wire) (λ header _. after_header-Calm header) bs)
