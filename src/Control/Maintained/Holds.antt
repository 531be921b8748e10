-- ===== src/Control/Maintained/Holds.antt =====
-- What the parts of a round keep, the round keeps.
use playit_agent.Common.{
  ℕ, zero, suc, ◌+◌, ◌≡◌, refl, ◌⊎◌, inl, inr, Bool-cases, Option, none, some, leb,
}
use playit_agent.Control.{Receipt}
use playit_agent.Control.Maintained.{MaintainedControl}
use playit_agent.Control.Maintained.Update.{
  TunnelControlEvent, Waited, Outside, ping_if_due, keep_alive_if_due, on_receipt, or_continue,
  feed_loop, check_silence, after_loop, round,
}

Waited-cases :
    (w : Waited)
    → (w ≡ Waited.timed_out)
      ⊎ ((r : Receipt) × (now : ℕ) × (now_pong : ℕ) × (w ≡ Waited.arrived r now now_pong))
Waited-cases Waited.timed_out = inl refl
Waited-cases (Waited.arrived r now now_pong) = inr (r, now, now_pong, refl)

module _ (P : MaintainedControl → Type 0) where
  or_continue-holds :
      (p : Option TunnelControlEvent × MaintainedControl)
      (k : MaintainedControl → Option TunnelControlEvent × MaintainedControl)
      → P p.1
      → ((t : MaintainedControl) → P t → P (k t).1)
      → P (or_continue p k).1
  or_continue-holds (some event, t) k h g = h
  or_continue-holds (none, t) k h g = g t h

  module _ (waited : ℕ → Waited)
      (received : (s : MaintainedControl) (i : ℕ) (r : Receipt) (now now_pong : ℕ)
        → waited i ≡ Waited.arrived r now now_pong
        → P s
        → P (on_receipt s r now now_pong).1) where
    feed_loop-holds :
        (rounds i timeouts : ℕ) (s : MaintainedControl)
        → P s
        → P (feed_loop waited rounds i timeouts s).1
    unfolding feed_loop
    feed_loop-holds zero i timeouts s h = h
    feed_loop-holds (suc rounds) i timeouts s h = elim (Waited-cases (waited i)) [
      | inl late ↦ elim (Bool-cases (leb 10 (timeouts + 1))) [
        | inl enough ↦ rw (feed_loop, late, enough) h
        | inr more ↦ rw (feed_loop, late, more) (feed_loop-holds rounds (i + 1) (timeouts + 1) s h)
      ]
      | inr (r, now, now_pong, arrived) ↦
          rw (feed_loop, arrived)
            (or_continue-holds (on_receipt s r now now_pong)
              (feed_loop waited rounds (i + 1) timeouts) (received s i r now now_pong arrived h)
              (feed_loop-holds rounds (i + 1) timeouts))
    ]

  after_loop-holds :
      (now : ℕ) (p : Option TunnelControlEvent × MaintainedControl)
      → ((s : MaintainedControl) → P s → P (check_silence s now))
      → P p.1
      → P (after_loop p now).1
  after_loop-holds now (some event, s) g h = h
  after_loop-holds now (none, s) g h = g s h

  pub round-holds :
      (o : Outside)
      → ((s : MaintainedControl) → P s → P (ping_if_due s o).1)
      → ((s : MaintainedControl) → P s → P (keep_alive_if_due s o).1)
      → ((s : MaintainedControl) (i : ℕ) (r : Receipt) (now now_pong : ℕ)
          → o.waited i ≡ Waited.arrived r now now_pong
          → P s
          → P (on_receipt s r now now_pong).1)
      → ((s : MaintainedControl) → P s → P (check_silence s o.now_end))
      → (s : MaintainedControl) → P s
      → P (round s o).after
  unfolding round
  round-holds o pinged kept received silent s h =
      let t : MaintainedControl = (keep_alive_if_due (ping_if_due s o).1 o).1 in
      after_loop-holds o.now_end (feed_loop o.waited 30 0 0 t) silent
        (feed_loop-holds o.waited received 30 0 0 t (kept (ping_if_due s o).1 (pinged s h)))
