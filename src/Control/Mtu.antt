-- ===== src/Control/Mtu.antt =====
-- What is kept of the MTU tests is the largest of what was reported.
use playit_agent.Common.{
  ℕ, ◌≤◌, max, ◌≡◌, refl, ap, ◌∙◌, inl, inr, Bool-cases, Option-cases, false, Option, none, some,
  List, [], ◌∷◌, ◌++◌, leb, leb→le, leb→gt, ◌==◌, ==_iff, if◌then◌else◌, arith,
}
use playit_agent.Proto.Response.{CheckMtuReceivedAck, MtuTestPacket}
use playit_agent.Control.{
  MtuData, record_check_mtu_received_ack, raise_entry, record_mtu_test_packet,
}

abbrev pub record_acks : MtuData → List CheckMtuReceivedAck → MtuData
record_acks d [] = d
record_acks d (ack ∷ acks) = record_acks (record_check_mtu_received_ack d ack) acks

abbrev pub record_packets : MtuData → List MtuTestPacket → MtuData
record_packets d [] = d
record_packets d (p ∷ ps) = record_packets (record_mtu_test_packet d p) ps

-- The largest packet that was acknowledged has at least `n` bytes.
abbrev pub AtLeast : ℕ → MtuData → Type 0
AtLeast n d =
    (ack : CheckMtuReceivedAck) × (d.largest_received_packet ≡ some ack) × (n ≤ ack.message_length)

record_ack-AtLeast :
    (d : MtuData) (ack : CheckMtuReceivedAck) (n : ℕ)
    → AtLeast n d
    → AtLeast n (record_check_mtu_received_ack d ack)
unfolding record_check_mtu_received_ack
record_ack-AtLeast d ack n (old, held, h) =
    elim (Bool-cases (leb old.message_length ack.message_length)) [
      | inl larger ↦ (ack, rw (held, larger) refl, omega (arith, leb→le _ _ larger))
      | inr smaller ↦ (old, rw (held, smaller) refl, h)
    ]

recorded_ack-AtLeast :
    (d : MtuData) (ack : CheckMtuReceivedAck)
    → AtLeast ack.message_length (record_check_mtu_received_ack d ack)
unfolding record_check_mtu_received_ack
recorded_ack-AtLeast d ack = elim (Option-cases d.largest_received_packet) [
  | inl absent ↦ (ack, rw absent refl, omega arith)
  | inr (old, held) ↦ elim (Bool-cases (leb old.message_length ack.message_length)) [
    | inl larger ↦ (ack, rw (held, larger) refl, omega arith)
    | inr smaller ↦ (old, rw (held, smaller) refl, omega (arith, leb→gt _ _ smaller))
  ]
]

record_acks-AtLeast :
    (d : MtuData) (acks : List CheckMtuReceivedAck) (n : ℕ)
    → AtLeast n d
    → AtLeast n (record_acks d acks)
record_acks-AtLeast d [] n h = h
record_acks-AtLeast d (ack ∷ acks) n h =
    record_acks-AtLeast (record_check_mtu_received_ack d ack) acks n (record_ack-AtLeast d ack n h)

-- However many acknowledgements are recorded, and in whatever order, the one that is kept is at least
-- as long as each of them.
pub largest_ack :
    (d : MtuData) (before after : List CheckMtuReceivedAck) (ack : CheckMtuReceivedAck)
    → AtLeast ack.message_length (record_acks d (before ++ (ack ∷ after)))
largest_ack d [] after ack =
    record_acks-AtLeast (record_check_mtu_received_ack d ack) after ack.message_length
      (recorded_ack-AtLeast d ack)
largest_ack d (first ∷ before) after ack =
    largest_ack (record_check_mtu_received_ack d first) before after ack

abbrev pub lookup : ℕ → List (ℕ × ℕ) → Option ℕ
lookup key [] = none
lookup key ((k, v) ∷ rest) = let later = lookup key rest in if k == key then some v else later

abbrev pub raised : Option ℕ → ℕ → ℕ
raised none value = value
raised (some v) value = max v value

-- The largest payload that the packets report for a data center, from what is known before.
abbrev pub largest_payload : ℕ → Option ℕ → List MtuTestPacket → Option ℕ
largest_payload key best [] = best
largest_payload key best (p ∷ ps) =
    largest_payload key
      (if p.data_center_id == key then some (raised best p.udp_payload_length) else best) ps

lookup-raise_entry :
    (key k value : ℕ) (m : List (ℕ × ℕ))
    → lookup key (raise_entry k value m)
      ≡ (if k == key then some (raised (lookup key m) value) else lookup key m)
unfolding raise_entry
lookup-raise_entry key k value [] = refl
lookup-raise_entry key k value ((j, v) ∷ rest) = elim (Bool-cases (j == k)) [
  | inl found ↦
      let same : j ≡ k = (==_iff j k).0 found in
      elim (Bool-cases (k == key)) [
        | inl wanted ↦ rw (same, (==_iff k k).1 refl, wanted) refl
        | inr other ↦ rw (same, (==_iff k k).1 refl, other) refl
      ]
  | inr further ↦
      let rec : _ = lookup-raise_entry key k value rest in
      elim (Bool-cases (j == key)) [
        | inl wanted ↦
            let distinct : (k == key) ≡ false = ground arith in rw (further, wanted, distinct) refl
        | inr other ↦ rw (further, other) rec
      ]
]

-- After any sequence of test packets, the table has for each data center the largest payload that
-- was reported for it, and nothing for a data center without a report.
pub lookup-record_packets :
    (key : ℕ) (d : MtuData) (ps : List MtuTestPacket)
    → lookup key (record_packets d ps).largest_payload_by_datacenter
      ≡ largest_payload key (lookup key d.largest_payload_by_datacenter) ps
unfolding record_mtu_test_packet
lookup-record_packets key d [] = refl
lookup-record_packets key d (p ∷ ps) =
    lookup-record_packets key (record_mtu_test_packet d p) ps
    ∙ ap (λ (best : Option ℕ). largest_payload key best ps)
        (lookup-raise_entry key p.data_center_id p.udp_payload_length
          d.largest_payload_by_datacenter)
