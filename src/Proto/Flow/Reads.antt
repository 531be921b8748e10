-- ===== src/Proto/Flow/Reads.antt =====
-- The parses of a footer's fields never run short: given as many bytes as the footer has, each
-- ends in a flow whose footer has that length, or in a rejection.
use playit_agent.Common.{
  ℕ, ◌+◌, ◌≤◌, ◌≡◌, refl, inl, inr, Bool-cases, false, Option, none, some, length, length-drop,
  drop, ◌==◌, arith,
}
use playit_agent.Io.{Bytes, Reader, pure, ◌>>=◌}
use playit_agent.Wire.{Wire, WireLaws}
use playit_agent.Proto.Flow.{
  FlowResult, UdpFlow, FragmentInfo, footer_len, unwrapped, nonzero, v4_body, fragment_body,
  v4_extended_body, v6_body, v6_extended_body, ip4_len_v1, ip4_len_v2_without_frag,
  ip4_len_v2_with_frag, ip6_len_v1, ip6_len_v2,
}

-- A flow whose footer has `m` bytes, or a rejection; never a panic.
abbrev pub Lands : ℕ → FlowResult → Type 0
Lands m (FlowResult.parsed f) = footer_len f ≡ m
Lands m (FlowResult.rejected id) = Unit {0}
Lands m FlowResult.aborted = ⊥

-- With `n` bytes to read, `r` lands.
abbrev pub Needs : ℕ → ℕ → Reader (Option UdpFlow) → Type 0
Needs m n r = (bs : Bytes) → n ≤ length bs → Lands m (unwrapped (r bs))

module _ (wire : Wire) (laws : WireLaws wire) where
  read_then :
      (m w n : ℕ) (k : ℕ → Reader (Option UdpFlow))
      → ((a : ℕ) → Needs m n (k a))
      → Needs m (w + n) (wire.read_be w >>= k)
  unfolding ◌>>=◌
  read_then m w n k rest bs h =
      let (a, e) = laws.read-enough w bs (omega arith) in
      rw (e, ◌>>=◌) (rest a (drop w bs) (omega (arith, length-drop w bs)))

  found : (m : ℕ) (f : UdpFlow) → footer_len f ≡ m → Needs m 0 (pure (some f))
  unfolding pure
  found m f e bs h = e

  unless_zero : (m n a : ℕ) (r : Reader (Option UdpFlow)) → Needs m n r → Needs m n (nonzero a r)
  unfolding pure
  unless_zero m n a r rest bs h = elim (Bool-cases (a == 0)) [
    | inl zero_id ↦ rw zero_id tt
    | inr other ↦ rw other (rest bs h)
  ]

  pub v4_body-lands : Needs ip4_len_v1 12 (v4_body wire)
  unfolding v4_body footer_len
  v4_body-lands =
      read_then _ 4 8 _
        λ a. read_then _ 4 4 _ λ b. read_then _ 2 2 _ λ c. read_then _ 2 0 _ λ d. found _ _ refl

  pub v6_body-lands : Needs ip6_len_v1 40 (v6_body wire)
  unfolding v6_body footer_len
  v6_body-lands = read_then _ 16 24 _ λ a.
      read_then _ 16 8 _
        λ b. read_then _ 2 6 _ λ c. read_then _ 2 4 _ λ d. read_then _ 4 0 _ λ e. found _ _ refl

  pub v6_extended_body-lands : Needs ip6_len_v2 54 (v6_extended_body wire)
  unfolding v6_extended_body footer_len
  v6_extended_body-lands = read_then _ 16 38 _ λ a. read_then _ 16 22 _ λ b. read_then _ 2 20 _ λ c.
      read_then _ 2 18 _ λ d. read_then _ 8 10 _ λ e.
        unless_zero _ 10 e _
          (read_then _ 8 2 _ λ f. unless_zero _ 2 f _ (read_then _ 2 0 _ λ g. found _ _ refl))

  plain_tail :
      (m : ℕ) (k : Option FragmentInfo → Reader (Option UdpFlow))
      → Needs m 0 (k none)
      → Needs m 0 (pure none >>= k)
  unfolding pure ◌>>=◌
  plain_tail m k rest bs h = rest bs h

  fragment_tail :
      (m packet_id : ℕ) (k : Option FragmentInfo → Reader (Option UdpFlow))
      → (packet_id == 0) ≡ false
      → ((i : FragmentInfo) → Needs m 0 (k (some i)))
      → Needs m 3 (fragment_body wire packet_id >>= k)
  unfolding fragment_body ◌>>=◌ pure
  fragment_tail m packet_id k some_id rest bs h =
      let (a, e) = laws.read-enough 1 bs (omega arith) in
      let (b, e') = laws.read-enough 2 (drop 1 bs) (omega (arith, length-drop 1 bs)) in
      rw some_id (rw (e, ◌>>=◌) (rw (e', ◌>>=◌) (rest _ _ (omega arith))))

  pub v4_plain_body-lands : Needs ip4_len_v2_without_frag 30 (v4_extended_body wire 0)
  unfolding v4_extended_body fragment_body footer_len
  v4_plain_body-lands = read_then _ 4 26 _ λ a. read_then _ 4 22 _ λ b. read_then _ 2 20 _ λ c.
      read_then _ 2 18 _ λ d. read_then _ 8 10 _ λ e. unless_zero _ 10 e _ (
        read_then _ 8 2 _
          λ f. unless_zero _ 2 f _ (read_then _ 2 0 _ λ g. plain_tail _ _ (found _ _ refl)))

  pub v4_fragment_body-lands :
      (packet_id : ℕ)
      → (packet_id == 0) ≡ false
      → Needs ip4_len_v2_with_frag 33 (v4_extended_body wire packet_id)
  unfolding v4_extended_body footer_len
  v4_fragment_body-lands packet_id some_id = read_then _ 4 29 _ λ a. read_then _ 4 25 _ λ b.
      read_then _ 2 23 _ λ c. read_then _ 2 21 _ λ d. read_then _ 8 13 _ λ e. unless_zero _ 13 e _ (
        read_then _ 8 5 _ λ f.
          unless_zero _ 5 f _
            (read_then _ 2 3 _ λ g. fragment_tail _ packet_id _ some_id λ i. found _ _ refl))
