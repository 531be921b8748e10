-- ===== src/Proto/Flow/Tail.antt =====
-- The parse of a footer never panics, and a footer that it accepts lies within the packet.
use playit_agent.Common.{
  ℕ, ◌-◌, ◌≤◌, ◌≡◌, refl, inl, inr, Bool-cases, Bool, true, false, Option, length, length-drop, ltb,
  ltb→ge, ◌==◌, ==_iff, if◌then◌else◌, arith,
}
use playit_agent.Io.{Bytes, Reader}
use playit_agent.Wire.{Wire, WireLaws}
use playit_agent.Proto.Flow.{
  FlowResult, UdpFlow, footer_len, tail_of, parse_tail, with_number, v4_extended_tail, by_footer_id,
  from_tail, redirect_flow_4_footer_id_v1, redirect_flow_4_footer_id_v2,
  redirect_flow_6_footer_id_v1, redirect_flow_6_footer_id_v2,
}
use playit_agent.Proto.Flow.Reads.{
  Lands, Needs, v4_body-lands, v6_body-lands, v4_plain_body-lands, v4_fragment_body-lands,
  v6_extended_body-lands,
}

-- An accepted flow's footer is no longer than the packet, and the parse does not panic.
abbrev pub Fits : Bytes → FlowResult → Type 0
Fits slice (FlowResult.parsed f) = footer_len f ≤ length slice
Fits slice (FlowResult.rejected id) = Unit {0}
Fits slice FlowResult.aborted = ⊥

Fits-Lands : (slice : Bytes) (m : ℕ) (r : FlowResult) → m ≤ length slice → Lands m r → Fits slice r
Fits-Lands slice m (FlowResult.parsed f) h l = omega (arith, l)
Fits-Lands slice m (FlowResult.rejected id) h l = tt
Fits-Lands slice m FlowResult.aborted h l = l

parse_tail-Fits :
    (m n : ℕ) (body : Reader (Option UdpFlow)) (slice : Bytes)
    → n ≤ m
    → Needs m n body
    → Fits slice (parse_tail m body slice)
unfolding parse_tail
parse_tail-Fits m n body slice le needs = elim (Bool-cases (ltb (length slice) m)) [
  | inl short ↦ rw short tt
  | inr enough ↦
      let room : m ≤ length slice = ltb→ge _ _ enough in
      rw enough (
        Fits-Lands slice m _ room
          (needs (tail_of m slice) (omega (arith, length-drop (length slice - m) slice))))
]

if-Fits :
    (slice : Bytes) (b : Bool) (r s : FlowResult)
    → (b ≡ true → Fits slice r)
    → (b ≡ false → Fits slice s)
    → Fits slice (if b then r else s)
if-Fits slice true r s p q = p refl
if-Fits slice false r s p q = q refl

module _ (wire : Wire) (laws : WireLaws wire) where
  -- A number at a fixed distance from the end.
  number-Fits :
      (w n : ℕ) (slice : Bytes) (k : ℕ → FlowResult)
      → w ≤ n
      → n ≤ length slice
      → ((a : ℕ) → Fits slice (k a))
      → Fits slice (with_number (wire.read_be w (tail_of n slice)) k)
  number-Fits w n slice k le h rest =
      let (a, e) =
        laws.read-enough w (tail_of n slice)
          (omega (arith, length-drop (length slice - n) slice)) in
      rw e (rest a)

  v4_extended_tail-Fits :
      (slice : Bytes) (packet_id : ℕ) → Fits slice (v4_extended_tail wire slice packet_id)
  unfolding v4_extended_tail
  v4_extended_tail-Fits slice packet_id =
      if-Fits slice (packet_id == 0) _ _
        (λ e.
          rw ((==_iff packet_id 0).0 e)
            (parse_tail-Fits _ 30 _ slice (omega arith) (v4_plain_body-lands wire laws)))
        (λ e.
          parse_tail-Fits _ 33 _ slice (omega arith) (v4_fragment_body-lands wire laws packet_id e))

  by_footer_id-Fits : (slice : Bytes) (id : ℕ) → Fits slice (by_footer_id wire slice id)
  unfolding by_footer_id
  by_footer_id-Fits slice id =
      if-Fits slice (id == redirect_flow_4_footer_id_v1) _ _
        (λ _. parse_tail-Fits _ 12 _ slice (omega arith) (v4_body-lands wire laws))
        λ _.
          if-Fits slice (id == redirect_flow_4_footer_id_v2) _ _
            (λ _.
              if-Fits slice (ltb (length slice) 10) _ _ (λ _. tt)
                λ e.
                  number-Fits 2 10 slice _ (omega arith) (ltb→ge _ _ e)
                    (v4_extended_tail-Fits slice))
            λ _.
              if-Fits slice (id == redirect_flow_6_footer_id_v1) _ _
                (λ _. parse_tail-Fits _ 40 _ slice (omega arith) (v6_body-lands wire laws))
                λ _.
                  if-Fits slice (id == redirect_flow_6_footer_id_v2) _ _
                    (λ _.
                      parse_tail-Fits _ 54 _ slice (omega arith) (v6_extended_body-lands wire laws))
                    λ _. tt

  -- On every packet the parse ends without a panic, and where it accepts a flow, the footer of that
  -- flow is no longer than the packet: the payload's length `bytes - footer_len` does not underflow.
  pub from_tail-Fits : (slice : Bytes) → Fits slice (from_tail wire slice)
  unfolding from_tail
  from_tail-Fits slice =
      if-Fits slice (ltb (length slice) 8) _ _ (λ _. tt)
        λ e. number-Fits 8 8 slice _ (omega arith) (ltb→ge _ _ e) (by_footer_id-Fits slice)
