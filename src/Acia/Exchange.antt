-- ===== src/Acia/Exchange.antt =====
-- A byte written and handed out at once, and a character that starts to come in.
use linapple.Common.{
  ℕ, Bool, true, false, not, ◌==◌, bit_and, if◌then◌else◌, ◌≡◌, refl, ap, arith, ◌∙◌, some,
}
use linapple.Acia.State.{
  Acia6551, tdr_full, tx_busy, rx_busy, latch, set_latch, has_clock, transmitter_sends,
}
use linapple.Acia.Events.{start_transmit, try_start_transmit, rebase, advance}
use linapple.Acia.Ports.{
  take_out, acia_step, write_data, write_register, acia_write, begin_frame, acia_rx_start,
}
use linapple.Acia.Latches.{latch-set_self, latch-set_other, latch-clear_self}

pub advance-synced : (a : Acia6551) (now : ℕ) → (advance a now).synced ≡ now
unfolding advance rebase
advance-synced a now = ground arith

-- At the cycle to which the chip has come already, nothing runs.
advance-here : (a : Acia6551) (now : ℕ) → a.synced ≡ now → advance a now ≡ a
unfolding advance
advance-here a now h = ground arith

pub begin_frame-synced :
    (a : Acia6551) (byte errors now : ℕ) → (begin_frame a byte errors now).synced ≡ a.synced
unfolding begin_frame
begin_frame-synced a byte errors now = refl

-- When the chip has a clock and its shifter is free at `now`, `acia_rx_start` comes to `now` and begins
-- the frame, and that is all: its closing call of `advance` runs nothing, not even a point of the
-- frame that lies before `now`.
pub acia_rx_start-begin_frame :
    (a : Acia6551) (byte errors now : ℕ)
    → has_clock a.clock_mhz a.control ≡ true
    → latch (advance a now).status_latches rx_busy ≡ false
    → acia_rx_start a byte errors now ≡ begin_frame (advance a now) byte errors now
unfolding acia_rx_start
acia_rx_start-begin_frame a byte errors now clocked free =
    let begun = begin_frame (advance a now) byte errors now in
    let here = begin_frame-synced (advance a now) byte errors now ∙ advance-synced a now in
    rw (clocked, free) (advance-here begun now here)

held_first : (held : Bool) (a b : Acia6551) → held ≡ true → (if not held then a else b) ≡ b
held_first held a b h = rw h refl

taken :
    (a : Acia6551)
    → a.has_pending_out ≡ true
    → take_out a ≡ (record a { has_pending_out = false }, some a.pending_out)
unfolding take_out
taken a held = ground arith

-- A byte that is held is handed out, and time does not move.
step-held :
    (a : Acia6551) (now : ℕ)
    → a.has_pending_out ≡ true
    → acia_step a now ≡ (record a { has_pending_out = false }, some a.pending_out)
unfolding acia_step
step-held a now held =
    ap take_out (held_first a.has_pending_out (advance a now) a held) ∙ taken a held

same-sends :
    (a : Acia6551) (byte latches : ℕ)
    → transmitter_sends (record a { transmit_data = byte; status_latches = latches })
      ≡ transmitter_sends a
unfolding transmitter_sends
same-sends a byte latches = refl

-- What a transmission that starts holds for the card.
record HasStarted (value : ℕ) (a : Acia6551) : Type 0 where
  started_held : a.has_pending_out ≡ true
  started_byte : a.pending_out ≡ value
  started_empty : latch a.status_latches tdr_full ≡ false
  started_busy : latch a.status_latches tx_busy ≡ true

start_transmit-HasStarted :
    (a : Acia6551) (at : ℕ) → HasStarted a.transmit_data (start_transmit a at)
unfolding start_transmit
start_transmit-HasStarted a at =
    let emptied = set_latch a.status_latches tdr_full false in
    ground (
      arith,
      latch-set_other emptied tx_busy tdr_full,
      latch-clear_self a.status_latches tdr_full,
      latch-set_self emptied tx_busy,
    )

write_data-HasStarted :
    (a : Acia6551) (value now : ℕ)
    → latch a.status_latches tx_busy ≡ false
    → transmitter_sends a ≡ true
    → HasStarted value (write_data a value now)
unfolding write_data try_start_transmit
write_data-HasStarted a value now free sends =
    let latches = set_latch a.status_latches tdr_full true in
    let full : latch latches tdr_full ≡ true =
      latch-set_self a.status_latches tdr_full (omega arith) in
    let idle : latch latches tx_busy ≡ false =
      latch-set_other a.status_latches tdr_full tx_busy refl ∙ free in
    rw (full, idle, same-sends a value latches ∙ sends) (start_transmit-HasStarted _ now)

-- If the transmitter is on and idle when the chip has come to `now`, a write of the data register
-- hands out the byte that it writes, holds no other, and leaves the register empty and the
-- transmitter busy.
pub acia_write-sends :
    (a : Acia6551) (reg value now : ℕ)
    → bit_and reg 3 ≡ 0
    → latch (advance a now).status_latches tx_busy ≡ false
    → transmitter_sends (advance a now) ≡ true
    → let (b, out) = acia_write a reg value now in
      (out ≡ some value)
      × (b.has_pending_out ≡ false)
      × (latch b.status_latches tdr_full ≡ false)
      × (latch b.status_latches tx_busy ≡ true)
unfolding acia_write write_register
acia_write-sends a reg value now data_reg free sends =
    let started = write_data-HasStarted (advance a now) value now free sends in
    let data_chosen : (bit_and reg 3 == 0) ≡ true = ground arith in
    rw (data_chosen, step-held (write_data (advance a now) value now) now started.started_held)
      (ap some started.started_byte, refl, started.started_empty, started.started_busy)
