-- ===== src/Acia/Rounds.antt =====
-- A round of the loop on a chip in order leaves it in order, and so does the loop.
use linapple.Common.{
  ℕ, zero, suc, ◌<◌, ◌≤◌, true, false, ◌&&◌, ◌==◌, if_split, sym, ◌≡◌, ◌≢◌, refl, arith, Bool-cases,
  inl, inr, ◌∙◌,
}
use linapple.Acia.State.{Acia6551, tx_busy, latch, frame_cycles, transmitter_sends}
use linapple.Acia.Events.{
  tx_boundary_armed, tx_interrupts, next_tx_boundary, received, run_event, acia_next_event,
  idle_until, event_loop,
}
use linapple.Acia.Measure.{
  stale, SameTransmitter, received-SameTransmitter, received-frame, armed-frame,
}
use linapple.Acia.Settled.{moved-armed, run_event-points}
use linapple.Acia.InOrder.{
  InOrder, AfterPoints, received-AfterPoints, next_event-le-rx, next_event-le-tx, event_ahead,
  boundary-InOrder,
}

same-armed :
    (a b : Acia6551)
    → SameTransmitter a b
    → latch b.status_latches tx_busy ≡ latch a.status_latches tx_busy
    → tx_boundary_armed b ≡ tx_boundary_armed a
unfolding tx_boundary_armed tx_interrupts transmitter_sends frame_cycles
same-armed a b s e =
    rw (s.same_clock, s.same_control, s.same_command, s.same_lines, s.same_break, e) refl

unsent-InOrder :
    (a : Acia6551) (next : ℕ)
    → AfterPoints next a (received a next)
    → InOrder a
    → a.synced ≤ next
    → (tx_boundary_armed a ≡ true → next < next_tx_boundary a)
    → InOrder (received a next)
unfolding stale next_tx_boundary
unsent-InOrder a next after o past ahead =
    let same = received-SameTransmitter a next in
    let armed = same-armed (record a { synced = next }) (received a next) same after.kept_latch in
    record {
      anchor_past = ground (arith, same.same_anchor, same.same_synced, o.anchor_past);
      sending = λ h. ground (
        arith,
        ahead (sym (armed ∙ moved-armed a next) ∙ h),
        after.kept_latch,
        same.same_busy_until,
        same.same_synced,
      );
      receiving = λ busy. ground (arith, after.ahead busy, same.same_synced);
      points_ordered = after.ordered;
      not_sending = rw after.kept_errors o.not_sending;
      not_receiving = rw after.kept_errors o.not_receiving;
    }

settled-AfterPoints :
    (a : Acia6551) (next : ℕ)
    → AfterPoints next a (received a next)
    → AfterPoints next (received a next) (received a next)
settled-AfterPoints a next after = record {
  kept_latch = refl;
  kept_errors = refl;
  ahead = after.ahead;
  ordered = after.ordered;
}

pub run_event-InOrder :
    (a : Acia6551)
    → InOrder a
    → a.synced < 9223372036854775808
    → acia_next_event a ≢ 0
    → acia_next_event a < 9223372036854775808
    → InOrder (run_event a (acia_next_event a))
unfolding run_event
run_event-InOrder a o bound some_time below =
    let next = acia_next_event a in
    let after = received-AfterPoints a next o (next_event-le-rx a o) in
    let later = event_ahead a o bound some_time in
    let same = received-SameTransmitter a next in
    if_split InOrder (tx_boundary_armed a && next_tx_boundary a == next)
      (λ due.
        let clocked : frame_cycles (received a next) ≢ 0 =
          rw (received-frame a next) (armed-frame a (ground arith)) in
        boundary-InOrder (received a next) next clocked below same.same_synced
          (ground (arith, same.same_anchor, o.anchor_past)) (settled-AfterPoints a next after)
          (rw after.kept_errors o.not_sending) (rw after.kept_errors o.not_receiving))
      (λ early.
        unsent-InOrder a next after o (omega arith)
          (λ armed. ground (arith, next_event-le-tx a o bound armed)))

pub busy-elim :
    (now : ℕ) (a : Acia6551)
    → idle_until now a ≡ false
    → (acia_next_event a ≢ 0) × (acia_next_event a ≤ now)
unfolding idle_until
busy-elim now a h = ground arith

pub event_loop-InOrder :
    (now fuel : ℕ) (a : Acia6551)
    → now < 9223372036854775808
    → a.synced ≤ now
    → InOrder a
    → InOrder (event_loop now fuel a)
unfolding event_loop
event_loop-InOrder now zero a bound past o = o
event_loop-InOrder now (suc fuel) a bound past o = elim (Bool-cases (idle_until now a)) [
  | inl idle ↦ rw idle o
  | inr busy ↦
      let (some_time, below) = busy-elim now a busy in
      rw busy (
        event_loop-InOrder now fuel (run_event a (acia_next_event a)) bound
          (rw (run_event-points a (acia_next_event a)).1 below)
          (run_event-InOrder a o (omega arith) some_time (omega arith)))
]
