-- ===== src/Control/Maintained/Silence.antt =====
-- A server that falls silent is noticed within the round.
use playit_agent.Common.{
  ℕ, ◌≤◌, ◌≡◌, refl, sym, ap, ◌∙◌, ◌⊎◌, inl, inr, Bool-cases, true, false, Option, none, some, ltb,
  ltb→ge, not, ◌&&◌, ◌==◌, ==_iff, none_some,
}
use playit_agent.Control.{is_expired, set_expired, minus_u64}
use playit_agent.Control.Maintained.{MaintainedControl, fail_session, note_control_failure}
use playit_agent.Control.Maintained.Update.{
  TunnelControlEvent, Outside, Updated, ping_if_due, keep_alive_if_due, feed_loop, check_silence,
  after_loop, round, update,
}
use playit_agent.Control.Maintained.Renewal.{Renewal, Renewal-cases}
use playit_agent.Control.Maintained.Invariant.{Sound}
use playit_agent.Control.Maintained.Runs.{Timed, Reachable, Reachable-Sound, update-Sound}

heard_or_expired :
    (s : MaintainedControl) (now : ℕ)
    → (check_silence s now).control.force_expired ≡ false
    → ((check_silence s now).last_pong ≡ 0)
      ⊎ (minus_u64 now (check_silence s now).last_pong ≤ 6_000)
unfolding check_silence fail_session set_expired note_control_failure
heard_or_expired s now h =
    elim (Bool-cases (not (s.last_pong == 0) && ltb 6_000 (minus_u64 now s.last_pong))) [
      | inl silent ↦
          absurd (let given : false ≡ true = sym h ∙ rw (check_silence, silent) refl in cc given)
      | inr heard ↦
          rw (check_silence, heard) (by_test s.last_pong (minus_u64 now s.last_pong) heard)
    ]
  where
    by_test :
        (last since : ℕ)
        → (not (last == 0) && ltb 6_000 since) ≡ false
        → (last ≡ 0) ⊎ (since ≤ 6_000)
    by_test last since off = elim (Bool-cases (last == 0)) [
      | inl never ↦ inl ((==_iff last 0).0 never)
      | inr once ↦ inr (ltb→ge 6_000 since (rw once at off))
    ]

quiet_end :
    (p : Option TunnelControlEvent × MaintainedControl) (now : ℕ)
    → (after_loop p now).0 ≡ none
    → (after_loop p now).1 ≡ check_silence p.1 now
quiet_end (none, s) now h = refl
quiet_end (some event, s) now h = absurd (none_some (sym h))

round-heard :
    (s : MaintainedControl) (o : Outside)
    → (round s o).event ≡ none
    → (round s o).after.control.force_expired ≡ false
    → ((round s o).after.last_pong ≡ 0) ⊎ (minus_u64 o.now_end (round s o).after.last_pong ≤ 6_000)
unfolding round
round-heard s o quiet lives =
    let p : Option TunnelControlEvent × MaintainedControl =
      feed_loop o.waited 30 0 0 (keep_alive_if_due (ping_if_due s o).1 o).1 in
    let e : (round s o).after ≡ check_silence p.1 o.now_end = quiet_end p o.now_end quiet in
    rw e (
      heard_or_expired p.1 o.now_end
        (ap (λ (t : MaintainedControl). t.control.force_expired) (sym e) ∙ lives))

-- From any state that is reached, a round on a session that is not expired that ends without an event
-- ends in one of two ways: the session is marked as expired, or the last pong came at most six
-- seconds before the end.
pub update-heard :
    (s : MaintainedControl) (o : Outside)
    → Reachable s
    → Timed o
    → is_expired s.control o.now_expired ≡ none
    → (update s o).event ≡ none
    → (update s o).after.control.force_expired ≡ false
    → minus_u64 o.now_end (update s o).after.last_pong ≤ 6_000
update-heard s o reached timed valid quiet lives =
    let sound : Sound (update s o).after = update-Sound s o timed (Reachable-Sound s reached) in
    elim (Renewal-cases s o) [
      | Renewal.valid _ outcome ↦
          elim (round-heard s o (ap (λ (u : Updated). u.event) (sym outcome) ∙ quiet)
            (ap (λ (u : Updated). u.after.control.force_expired) (sym outcome) ∙ lives)) [
              | inl never ↦ absurd (
                  let given : false ≡ true =
                    sym lives
                    ∙ sound.silent (ap (λ (u : Updated). u.after.last_pong) outcome ∙ never) in
                  cc given)
              | inr heard ↦ rw outcome heard
            ]
      | Renewal.renewed reason r over given outcome ↦ absurd (none_some (sym valid ∙ over))
      | Renewal.failed reason over outcome ↦ absurd (none_some (sym valid ∙ over))
    ]
