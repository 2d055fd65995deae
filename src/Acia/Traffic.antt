-- ===== src/Acia/Traffic.antt =====
-- A character that comes in: what the receive register and the status hold once its stop bit is there.
use linapple.Common.{
  ℕ, ◌-◌, ◌<◌, ◌≤◌, Bool, true, false, ◌==◌, bit_and, if◌then◌else◌, ◌≡◌, refl, arith,
}
use linapple.Acia.State.{
  Acia6551, overrun, error_mask, rdrf, tdr_full, tx_busy, rx_busy, latch, set_latch,
}
use linapple.Acia.Events.{
  on_tx_boundary, on_rx_rdrf, accept_byte, start_transmit, receive_due, free_due, on_rx_free,
}
use linapple.Acia.Latches.{latch-set_self, latch-set_other, latch-clear_other, latch-clear_part}

-- What a character finds in the receiver, and the character.
pub record Arrival : Type 0 where
  pub byte : ℕ
  pub errors : ℕ
  pub due : ℕ
  pub held : ℕ
  pub full : Bool
  pub overrun_before : Bool

-- The bits that `errors` of a frame cannot have.
pub record AreErrors (errors : ℕ) : Type 0 where
  pub not_overrun : bit_and errors overrun ≡ 0
  pub not_rdrf : bit_and errors rdrf ≡ 0
  pub not_rx_busy : bit_and errors rx_busy ≡ 0

pub record IsWaiting (r : Arrival) (a : Acia6551) : Type 0 where
  pub waiting_busy : latch a.status_latches rx_busy ≡ true
  pub waiting_running : a.rx_completed ≡ false
  pub waiting_at : a.rx_rdrf_at ≡ r.due
  pub waiting_free : r.due ≤ a.rx_free_at
  pub waiting_byte : a.shift_data ≡ r.byte
  pub waiting_errors : a.shift_errors ≡ r.errors
  pub waiting_held : a.receive_data ≡ r.held
  pub waiting_full : latch a.status_latches rdrf ≡ r.full
  pub waiting_overrun : latch a.status_latches overrun ≡ r.overrun_before

-- The register keeps an unread byte, and the overrun bit says that one was lost; the overrun bit of an
-- earlier loss goes with the next byte that comes in clean.
pub record IsDelivered (r : Arrival) (a : Acia6551) : Type 0 where
  pub delivered_done : a.rx_completed ≡ true
  pub delivered_data : a.receive_data ≡ (if r.full then r.held else r.byte)
  pub delivered_full : latch a.status_latches rdrf ≡ true
  pub delivered_overrun :
      latch a.status_latches overrun
      ≡ (if r.full then true else if r.errors == 0 then false else r.overrun_before)

on_rx_rdrf-IsDelivered :
    (r : Arrival) (a : Acia6551) → AreErrors r.errors → IsWaiting r a → IsDelivered r (on_rx_rdrf a)
unfolding on_rx_rdrf accept_byte
on_rx_rdrf-IsDelivered r a e w =
    let s = a.status_latches in
    ground (
      arith,
      latch-set_other s overrun rdrf,
      latch-set_self s overrun,
      latch-set_self s rdrf,
      latch-set_other s rdrf overrun,
      latch-clear_other (set_latch s rdrf true) error_mask rdrf,
      latch-set_other (set_latch s rdrf true) a.shift_errors rdrf,
      latch-set_other (set_latch s rdrf true) a.shift_errors overrun,
      latch-clear_part (set_latch s rdrf true) error_mask overrun,
    )

-- A round that is not later than the point leaves the character waiting, or delivers it.
pub receive_due-IsWaiting :
    (r : Arrival) (a : Acia6551) (next : ℕ)
    → next < r.due
    → IsWaiting r a
    → IsWaiting r (receive_due (record a { synced = next }) next)
unfolding receive_due
receive_due-IsWaiting r a next early w = ground arith

pub receive_due-IsDelivered :
    (r : Arrival) (a : Acia6551)
    → AreErrors r.errors
    → IsWaiting r a
    → IsDelivered r (receive_due (record a { synced = r.due }) r.due)
unfolding receive_due
receive_due-IsDelivered r a e w =
    let moved : Acia6551 = record a { synced = r.due } in
    let waiting : IsWaiting r moved = ground arith in
    let delivered = on_rx_rdrf-IsDelivered r moved e waiting in ground arith

pub receive_due_again :
    (r : Arrival) (a : Acia6551) (next : ℕ)
    → IsDelivered r a
    → IsDelivered r (receive_due (record a { synced = next }) next)
unfolding receive_due
receive_due_again r a next d = ground arith

pub free_due-IsWaiting :
    (r : Arrival) (a : Acia6551) (next : ℕ)
    → next < r.due
    → IsWaiting r a
    → IsWaiting r (free_due a next)
unfolding free_due
free_due-IsWaiting r a next early w = ground arith

pub free_due-IsDelivered :
    (r : Arrival) (a : Acia6551) (next : ℕ) → IsDelivered r a → IsDelivered r (free_due a next)
unfolding free_due on_rx_free
free_due-IsDelivered r a next d = ground (
  arith,
  latch-clear_other a.status_latches rx_busy rdrf,
  latch-clear_other a.status_latches rx_busy overrun,
)

-- A transmit boundary touches the transmitter's two latches only.
boundary-latch :
    (a : Acia6551) (at bit : ℕ)
    → bit_and (255 - tx_busy) bit ≡ bit
    → bit_and (255 - tdr_full) bit ≡ bit
    → bit_and tx_busy bit ≡ 0
    → latch (on_tx_boundary a at).status_latches bit ≡ latch a.status_latches bit
unfolding on_tx_boundary start_transmit
boundary-latch a at bit h k l = ground (
  arith,
  latch-clear_other a.status_latches tx_busy bit,
  latch-clear_other (set_latch a.status_latches tx_busy false) tdr_full bit,
  latch-set_other (set_latch (set_latch a.status_latches tx_busy false) tdr_full false) tx_busy bit,
)

pub boundary-IsDelivered :
    (r : Arrival) (a : Acia6551) (at : ℕ) → IsDelivered r a → IsDelivered r (on_tx_boundary a at)
unfolding on_tx_boundary start_transmit
boundary-IsDelivered r a at d =
    ground
      (arith, boundary-latch a at rdrf refl refl refl, boundary-latch a at overrun refl refl refl)

pub boundary-IsWaiting :
    (r : Arrival) (a : Acia6551) (at : ℕ) → IsWaiting r a → IsWaiting r (on_tx_boundary a at)
unfolding on_tx_boundary start_transmit
boundary-IsWaiting r a at w = ground (
  arith,
  boundary-latch a at rdrf refl refl refl,
  boundary-latch a at overrun refl refl refl,
  boundary-latch a at rx_busy refl refl refl,
)
