-- ===== src/Acia/Departure.antt =====
-- A byte that waits in the transmit register while the byte before it goes out.
use linapple.Common.{ℕ, ◌-◌, true, false, ◌==◌, bit_and, subst, ◌≡◌, ◌≢◌, refl, arith, ◌∙◌}
use linapple.Acia.State.{
  Acia6551, overrun, error_mask, rdrf, tdr_full, tx_busy, rx_busy, tic_off, tic_break, tic, latch,
  set_latch, has_clock, transmitter_sends, frame_cycles,
}
use linapple.Acia.Events.{
  raise_irq, start_transmit, accept_byte, on_rx_rdrf, on_rx_free, receive_due, free_due,
  on_tx_boundary, received,
}
use linapple.Acia.Latches.{latch-set_other, latch-clear_self, latch-clear_other}
use linapple.Acia.Measure.{SameTransmitter, received-SameTransmitter, received-frame}

-- The receiver leaves the transmitter's two latches alone, when the frame's errors do.
pub record LeavesLatch (errors bit : ℕ) : Type 0 where
  pub no_error : bit_and errors bit ≡ 0
  pub no_rdrf : bit_and rdrf bit ≡ 0
  pub no_overrun : bit_and overrun bit ≡ 0
  pub kept_by_mask : bit_and (255 - error_mask) bit ≡ bit
  pub kept_by_free : bit_and (255 - rx_busy) bit ≡ bit

receive_due-latch :
    (a : Acia6551) (next bit : ℕ)
    → LeavesLatch a.shift_errors bit
    → latch (receive_due a next).status_latches bit ≡ latch a.status_latches bit
unfolding receive_due on_rx_rdrf accept_byte
receive_due-latch a next bit l =
    let s = a.status_latches in
    ground (
      arith,
      latch-set_other s overrun bit,
      latch-set_other s rdrf bit,
      latch-clear_other (set_latch s rdrf true) error_mask bit,
      latch-set_other (set_latch s rdrf true) a.shift_errors bit,
    )

free_due-latch :
    (a : Acia6551) (next bit : ℕ)
    → bit_and (255 - rx_busy) bit ≡ bit
    → latch (free_due a next).status_latches bit ≡ latch a.status_latches bit
unfolding free_due on_rx_free
free_due-latch a next bit l = ground (arith, latch-clear_other a.status_latches rx_busy bit)

received-latch :
    (a : Acia6551) (next bit : ℕ)
    → LeavesLatch a.shift_errors bit
    → latch (received a next).status_latches bit ≡ latch a.status_latches bit
unfolding received
received-latch a next bit l =
    let moved : Acia6551 = record a { synced = next } in
    free_due-latch (receive_due moved next) next bit l.kept_by_free
    ∙ receive_due-latch moved next bit l

-- What the receiver leaves of a byte that waits or that has left, when it does not echo.
record SameOutput (a b : Acia6551) : Type 0 where
  same_data : b.transmit_data ≡ a.transmit_data
  same_out : b.pending_out ≡ a.pending_out
  same_has_out : b.has_pending_out ≡ a.has_pending_out
  same_shift_errors : b.shift_errors ≡ a.shift_errors

received-SameOutput :
    (a : Acia6551) (next : ℕ) → (tic a.command == tic_off) ≡ false → SameOutput a (received a next)
unfolding received free_due on_rx_free receive_due on_rx_rdrf accept_byte
received-SameOutput a next h = ground arith

pub record IsQueued (due : ℕ) (byte : ℕ) (a : Acia6551) : Type 0 where
  pub queued_busy : latch a.status_latches tx_busy ≡ true
  pub queued_full : latch a.status_latches tdr_full ≡ true
  pub queued_byte : a.transmit_data ≡ byte
  pub queued_due : a.tx_busy_until ≡ due
  pub queued_sends : transmitter_sends a ≡ true
  pub queued_clock : frame_cycles a ≢ 0
  pub queued_errors : LeavesLatch a.shift_errors tx_busy × LeavesLatch a.shift_errors tdr_full

-- The byte has left, and no other can before the register is written.
pub record IsSent (byte : ℕ) (a : Acia6551) : Type 0 where
  pub sent_out : a.pending_out ≡ byte
  pub sent_has_out : a.has_pending_out ≡ true
  pub sent_empty : latch a.status_latches tdr_full ≡ false
  pub sent_on : (tic a.command == tic_off) ≡ false
  pub sent_errors : LeavesLatch a.shift_errors tdr_full

pub sends-on :
    (a : Acia6551)
    → transmitter_sends a ≡ true
    → (has_clock a.clock_mhz a.control ≡ true) × ((tic a.command == tic_off) ≡ false)
unfolding transmitter_sends
sends-on a h = ground arith

same-sends : (a b : Acia6551) → SameTransmitter a b → transmitter_sends b ≡ transmitter_sends a
unfolding transmitter_sends
same-sends a b s = rw (s.same_clock, s.same_control, s.same_command, s.same_lines) refl

pub received-IsQueued :
    (due byte : ℕ) (a : Acia6551) (next : ℕ)
    → IsQueued due byte a
    → IsQueued due byte (received a next)
received-IsQueued due byte a next q =
    let same = received-SameTransmitter a next in
    let out = received-SameOutput a next (sends-on a q.queued_sends).1 in
    record {
      queued_busy = received-latch a next tx_busy q.queued_errors.0 ∙ q.queued_busy;
      queued_full = received-latch a next tdr_full q.queued_errors.1 ∙ q.queued_full;
      queued_byte = out.same_data ∙ q.queued_byte;
      queued_due = same.same_busy_until ∙ q.queued_due;
      queued_sends =
          same-sends (record a { synced = next }) (received a next) same
          ∙ moved-sends a next
          ∙ q.queued_sends;
      queued_clock = rw (received-frame a next) q.queued_clock;
      queued_errors = rw out.same_shift_errors q.queued_errors;
    }
  where
    moved-sends :
        (a : Acia6551) (next : ℕ)
        → transmitter_sends (record a { synced = next }) ≡ transmitter_sends a
    moved-sends a next = unfold transmitter_sends in refl

pub received-IsSent :
    (byte : ℕ) (a : Acia6551) (next : ℕ) → IsSent byte a → IsSent byte (received a next)
received-IsSent byte a next s =
    let same = received-SameTransmitter a next in
    let out = received-SameOutput a next s.sent_on in
    record {
      sent_out = out.same_out ∙ s.sent_out;
      sent_has_out = out.same_has_out ∙ s.sent_has_out;
      sent_empty = received-latch a next tdr_full s.sent_errors ∙ s.sent_empty;
      sent_on = rw same.same_command s.sent_on;
      sent_errors = rw out.same_shift_errors s.sent_errors;
    }

pub boundary-IsSent :
    (byte : ℕ) (a : Acia6551) (at : ℕ) → IsSent byte a → IsSent byte (on_tx_boundary a at)
unfolding on_tx_boundary raise_irq
boundary-IsSent byte a at s = ground (arith, latch-clear_other a.status_latches tx_busy tdr_full)

started-IsSent :
    (a : Acia6551) (at : ℕ)
    → transmitter_sends a ≡ true
    → LeavesLatch a.shift_errors tdr_full
    → IsSent a.transmit_data (start_transmit a at)
unfolding start_transmit
started-IsSent a at h l =
    let (_, on) = sends-on a h in
    let s = set_latch a.status_latches tdr_full false in
    ground
      (arith, on, latch-set_other s tx_busy tdr_full, latch-clear_self a.status_latches tdr_full)

freed-sends :
    (a : Acia6551) (latches : ℕ)
    → transmitter_sends (record a { status_latches = latches }) ≡ transmitter_sends a
unfolding transmitter_sends
freed-sends a latches = refl

not_break : (a : Acia6551) → transmitter_sends a ≡ true → (tic a.command == tic_break) ≡ false
unfolding transmitter_sends
not_break a h = ground arith

pub boundary-queued :
    (due byte : ℕ) (a : Acia6551) (at : ℕ) → IsQueued due byte a → IsSent byte (on_tx_boundary a at)
unfolding on_tx_boundary
boundary-queued due byte a at q =
    let freed : Acia6551 = record a { status_latches = set_latch a.status_latches tx_busy false } in
    let sends = freed-sends a (set_latch a.status_latches tx_busy false) ∙ q.queued_sends in
    let full = latch-clear_other a.status_latches tx_busy tdr_full refl ∙ q.queued_full in
    rw (not_break a q.queued_sends, full, sends)
      (subst (λ b. IsSent b (start_transmit freed at)) q.queued_byte
        (started-IsSent freed at sends q.queued_errors.1))
