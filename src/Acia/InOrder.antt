-- ===== src/Acia/InOrder.antt =====
-- A chip whose pending events all lie ahead, and the loop's rounds on it.
use linapple.Common.{
  ℕ, ◌-◌, ◌<◌, ◌≤◌, true, false, ◌==◌, bit_and, if◌then◌else◌, ◌≡◌, ◌≢◌, refl, ◌∙◌, arith,
}
use linapple.Acia.State.{
  Acia6551, overrun, error_mask, rdrf, tdr_full, tx_busy, rx_busy, latch, set_latch, frame_cycles,
}
use linapple.Acia.Events.{
  tx_boundary_armed, next_tx_boundary, on_tx_boundary, on_rx_rdrf, accept_byte, start_transmit,
  receive_due, free_due, on_rx_free, received, acia_next_event, next_tx,
}
use linapple.Acia.Latches.{latch-set_other, latch-clear_self, latch-clear_other}
use linapple.Acia.Measure.{stale, next_rx, boundary_ahead, boundary_fresh}

-- The transmitter's clock is not ahead of the chip, the end of a frame that goes out and the next
-- point of one that comes in are, and the frame's errors are not the latches of the two shifters.
pub record InOrder (a : Acia6551) : Type 0 where
  pub anchor_past : a.tx_anchor ≤ a.synced
  pub sending : tx_boundary_armed a ≡ true → stale a ≡ 0
  pub receiving : latch a.status_latches rx_busy ≡ true → a.synced < next_rx a
  pub points_ordered :
      latch a.status_latches rx_busy ≡ true → a.rx_completed ≡ false → a.rx_rdrf_at ≤ a.rx_free_at
  pub not_sending : bit_and a.shift_errors tx_busy ≡ 0
  pub not_receiving : bit_and a.shift_errors rx_busy ≡ 0

-- The two shifters' latches and the receiver's clock after the point where RDRF is set.
record AfterRdrf (a b : Acia6551) : Type 0 where
  tx_latch : latch b.status_latches tx_busy ≡ latch a.status_latches tx_busy
  rx_latch : latch b.status_latches rx_busy ≡ latch a.status_latches rx_busy
  done : b.rx_completed ≡ true
  free_at : b.rx_free_at ≡ a.rx_free_at
  errors : b.shift_errors ≡ a.shift_errors

accepted_latch :
    (s errors bit : ℕ)
    → bit_and errors bit ≡ 0
    → bit_and rdrf bit ≡ 0
    → bit_and (255 - error_mask) bit ≡ bit
    → latch
        (if errors == 0
          then set_latch (set_latch s rdrf true) error_mask false
          else set_latch (set_latch s rdrf true) errors true)
        bit
      ≡ latch s bit
accepted_latch s errors bit h k l = ground (
  arith,
  latch-set_other s rdrf bit,
  latch-clear_other (set_latch s rdrf true) error_mask bit,
  latch-set_other (set_latch s rdrf true) errors bit,
)

on_rx_rdrf-AfterRdrf :
    (a : Acia6551)
    → bit_and a.shift_errors tx_busy ≡ 0
    → bit_and a.shift_errors rx_busy ≡ 0
    → AfterRdrf a (on_rx_rdrf a)
unfolding on_rx_rdrf accept_byte
on_rx_rdrf-AfterRdrf a h k = ground (
  arith,
  latch-set_other a.status_latches overrun tx_busy,
  latch-set_other a.status_latches overrun rx_busy,
  accepted_latch a.status_latches a.shift_errors tx_busy h,
  accepted_latch a.status_latches a.shift_errors rx_busy k,
)

-- The receiver after its part of a round at `next`.
pub record AfterPoints (next : ℕ) (a b : Acia6551) : Type 0 where
  pub kept_latch : latch b.status_latches tx_busy ≡ latch a.status_latches tx_busy
  pub kept_errors : b.shift_errors ≡ a.shift_errors
  pub ahead : latch b.status_latches rx_busy ≡ true → next < next_rx b
  pub ordered :
      latch b.status_latches rx_busy ≡ true → b.rx_completed ≡ false → b.rx_rdrf_at ≤ b.rx_free_at

freed_latch :
    (s : ℕ)
    → (latch (set_latch s rx_busy false) tx_busy ≡ latch s tx_busy)
      × (latch (set_latch s rx_busy false) rx_busy ≡ false)
freed_latch s = (latch-clear_other s rx_busy tx_busy refl, latch-clear_self s rx_busy refl)

free_due-AfterPoints :
    (a : Acia6551) (next : ℕ)
    → (latch a.status_latches rx_busy ≡ true → a.rx_completed ≡ true → next ≤ a.rx_free_at)
    → (latch a.status_latches rx_busy ≡ true → a.rx_completed ≡ false → next < a.rx_rdrf_at)
    → (latch a.status_latches rx_busy ≡ true → a.rx_completed ≡ false → a.rx_rdrf_at ≤ a.rx_free_at)
    → AfterPoints next a (free_due a next)
unfolding free_due on_rx_free
free_due-AfterPoints a next h k l = ground (arith, freed_latch a.status_latches)

-- Between the two points: what `free_due` needs.
record BetweenPoints (next : ℕ) (a b : Acia6551) : Type 0 where
  between_latch : latch b.status_latches tx_busy ≡ latch a.status_latches tx_busy
  between_errors : b.shift_errors ≡ a.shift_errors
  between_free : latch b.status_latches rx_busy ≡ true → b.rx_completed ≡ true → next ≤ b.rx_free_at
  between_rdrf :
      latch b.status_latches rx_busy ≡ true → b.rx_completed ≡ false → next < b.rx_rdrf_at
  between_order :
      latch b.status_latches rx_busy ≡ true → b.rx_completed ≡ false → b.rx_rdrf_at ≤ b.rx_free_at

receive_due-BetweenPoints :
    (a : Acia6551) (next : ℕ)
    → InOrder a
    → (latch a.status_latches rx_busy ≡ true → next ≤ next_rx a)
    → BetweenPoints next a (receive_due (record a { synced = next }) next)
unfolding receive_due
receive_due-BetweenPoints a next o h =
    let moved : Acia6551 = record a { synced = next } in
    let after = on_rx_rdrf-AfterRdrf moved o.not_sending o.not_receiving in
    ground (arith, after.tx_latch, after.rx_latch, after.done, after.free_at, after.errors)

pub received-AfterPoints :
    (a : Acia6551) (next : ℕ)
    → InOrder a
    → (latch a.status_latches rx_busy ≡ true → next ≤ next_rx a)
    → AfterPoints next a (received a next)
unfolding received
received-AfterPoints a next o h =
    let between = receive_due-BetweenPoints a next o h in
    let moved = receive_due (record a { synced = next }) next in
    let after =
      free_due-AfterPoints moved next between.between_free between.between_rdrf
        between.between_order in
    record {
      kept_latch = after.kept_latch ∙ between.between_latch;
      kept_errors = after.kept_errors ∙ between.between_errors;
      ahead = after.ahead;
      ordered = after.ordered;
    }

pub next_event-le-rx :
    (a : Acia6551)
    → InOrder a
    → latch a.status_latches rx_busy ≡ true
    → acia_next_event a ≤ next_rx a
unfolding acia_next_event
next_event-le-rx a o h = ground arith

-- An event of such a chip lies ahead.
pub event_ahead :
    (a : Acia6551)
    → InOrder a
    → a.synced < 9223372036854775808
    → acia_next_event a ≢ 0
    → a.synced < acia_next_event a
unfolding acia_next_event next_tx
event_ahead a o bound h = ground (arith, boundary_ahead a)

pub next_event-le-tx :
    (a : Acia6551)
    → InOrder a
    → a.synced < 9223372036854775808
    → tx_boundary_armed a ≡ true
    → acia_next_event a ≤ next_tx_boundary a
unfolding acia_next_event next_tx
next_event-le-tx a o bound h = ground (arith, boundary_ahead a)

-- What a transmit boundary leaves of the receiver.
record SameReceiver (a b : Acia6551) : Type 0 where
  same_latch : latch b.status_latches rx_busy ≡ latch a.status_latches rx_busy
  same_completed : b.rx_completed ≡ a.rx_completed
  same_rdrf_at : b.rx_rdrf_at ≡ a.rx_rdrf_at
  same_free_at : b.rx_free_at ≡ a.rx_free_at
  same_errors : b.shift_errors ≡ a.shift_errors
  same_time : b.synced ≡ a.synced

boundary-SameReceiver : (a : Acia6551) (at : ℕ) → SameReceiver a (on_tx_boundary a at)
unfolding on_tx_boundary start_transmit
boundary-SameReceiver a at = ground (
  arith,
  latch-clear_other a.status_latches tx_busy rx_busy,
  latch-clear_other (set_latch a.status_latches tx_busy false) tdr_full rx_busy,
  latch-set_other (set_latch (set_latch a.status_latches tx_busy false) tdr_full false) tx_busy
      rx_busy,
)

boundary-anchor : (a : Acia6551) (at : ℕ) → a.tx_anchor ≤ at → (on_tx_boundary a at).tx_anchor ≤ at
unfolding on_tx_boundary start_transmit
boundary-anchor a at h = ground arith

-- A boundary of a chip whose receiver is in order.
pub boundary-InOrder :
    (a : Acia6551) (next : ℕ)
    → frame_cycles a ≢ 0
    → next < 9223372036854775808
    → a.synced ≡ next
    → a.tx_anchor ≤ next
    → AfterPoints next a a
    → bit_and a.shift_errors tx_busy ≡ 0
    → bit_and a.shift_errors rx_busy ≡ 0
    → InOrder (on_tx_boundary a next)
boundary-InOrder a next clocked bound here past after h k =
    let same = boundary-SameReceiver a next in
    record {
      anchor_past = ground (arith, boundary-anchor a next past, same.same_time);
      sending = λ _. boundary_fresh a next clocked here bound;
      receiving = λ busy. ground (
        arith, after.ahead, same.same_latch, same.same_completed, same.same_rdrf_at,
        same.same_free_at, same.same_time,
      );
      points_ordered = λ busy running. ground (
        arith, after.ordered, same.same_latch, same.same_completed, same.same_rdrf_at,
        same.same_free_at,
      );
      not_sending = rw same.same_errors h;
      not_receiving = rw same.same_errors k;
    }
