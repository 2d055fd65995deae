-- ===== src/Acia/Ranges.antt =====
-- Each function of the chip keeps its fields in their ranges.
use linapple.Common.{
  ℕ, ◌-◌, ◌<◌, Bool, true, false, not, ◌==◌, bit_and, bit_or, bit_and-lt, bit_or-lt, bit_and_mask,
  if◌then◌else◌, if_both, arith,
}
use linapple.Acia.State.{
  Acia6551, overrun, error_mask, rdrf, tdr_full, tx_busy, rx_busy, reserved, line_dsr, line_dcd,
  has_clock, latch,
}
use linapple.Acia.Events.{raise_irq, advance}
use linapple.Acia.Ports.{
  acia_set_clock_mhz, acia_reset, clear_command, acia_programmed_reset, restart_latches,
  acia_restart, take_out, acia_step, read_data, read_status, status_of, acia_read, write_data,
  write_command, write_control, write_register, acia_write, change_lines, acia_set_lines,
  begin_frame, acia_rx_start,
}
use linapple.Acia.Types.{
  IsWord, HasTypes, set_latch-lt, try_start_transmit-HasTypes, advance-HasTypes,
}

clear_command-HasTypes : (a : Acia6551) → HasTypes a → HasTypes (clear_command a)
unfolding clear_command
clear_command-HasTypes a t = ground (
  arith,
  bit_and-lt 8 a.command (255 - bit_or (bit_or (bit_or 1 2) 12) 16),
  set_latch-lt a.status_latches overrun false t.latches_fit,
)

pub restart-HasTypes :
    (a : Acia6551) (now : ℕ) → IsWord now → HasTypes a → HasTypes (acia_restart a now)
unfolding acia_restart restart_latches
restart-HasTypes a now h t =
    let kept = bit_and a.status_latches (255 - reserved) in
    ground (
      arith,
      bit_and-lt 7 a.status_latches (255 - reserved) t.latches_fit,
      bit_and-lt 7 kept (255 - bit_or tx_busy rx_busy),
    )

pub reset-HasTypes :
    (a : Acia6551) (now : ℕ) → IsWord now → HasTypes a → HasTypes (acia_reset a now)
unfolding acia_reset
reset-HasTypes a now h t = ground arith

take_out-HasTypes : (a : Acia6551) → HasTypes a → HasTypes (take_out a).0
unfolding take_out
take_out-HasTypes a t = ground arith

pub step-HasTypes :
    (a : Acia6551) (now : ℕ) → IsWord now → HasTypes a → HasTypes (acia_step a now).0
unfolding acia_step
step-HasTypes a now h t =
    take_out-HasTypes _ (if_both HasTypes (not a.has_pending_out) (advance-HasTypes a now h t) t)

read_data-HasTypes :
    (a : Acia6551) (now : ℕ)
    → IsWord now
    → HasTypes a
    → HasTypes (read_data a now).0 × ((read_data a now).1 < 256)
unfolding read_data
read_data-HasTypes a now h t =
    ground (arith, set_latch-lt a.status_latches rdrf false t.latches_fit)

or_if-lt : (b : Bool) (x m : ℕ) → x < 256 → m < 256 → (if b then bit_or x m else x) < 256
or_if-lt b x m h k = if_both (λ (n : ℕ). n < 256) b (bit_or-lt 8 x m h k) h

status_of-lt : (a : Acia6551) → HasTypes a → status_of a < 256
unfolding status_of
status_of-lt a t =
    let held : bit_and a.status_latches (bit_or error_mask rdrf) < 128 =
      bit_and-lt 7 a.status_latches (bit_or error_mask rdrf) t.latches_fit in
    or_if-lt a.irq _ 0x80
      (or_if-lt (bit_and a.lines line_dsr == 0) _ 0x40
        (or_if-lt (bit_and a.lines line_dcd == 0) _ 0x20
          (or_if-lt (not (latch a.status_latches tdr_full)) _ 0x10 (omega arith) (omega arith))
          (omega arith))
        (omega arith))
      (omega arith)

read_status-HasTypes :
    (a : Acia6551) → HasTypes a → HasTypes (read_status a).0 × ((read_status a).1 < 256)
unfolding read_status
read_status-HasTypes a t = ground (arith, status_of-lt a t)

pub read-HasTypes :
    (a : Acia6551) (reg now : ℕ)
    → IsWord now
    → HasTypes a
    → HasTypes (acia_read a reg now).0 × ((acia_read a reg now).1 < 256)
unfolding acia_read
read-HasTypes a reg now h t =
    let moved = advance-HasTypes a now h t in
    let Good = λ (r : Acia6551 × ℕ). HasTypes r.0 × (r.1 < 256) in
    if_both Good (bit_and reg 3 == 0) (read_data-HasTypes (advance a now) now h moved) (
      if_both Good (bit_and reg 3 == 1) (read_status-HasTypes (advance a now) moved)
        (if_both Good (bit_and reg 3 == 2) (moved, moved.command_fits) (moved, moved.control_fits)))

write_data-HasTypes :
    (a : Acia6551) (value now : ℕ)
    → value < 256
    → IsWord now
    → HasTypes a
    → HasTypes (write_data a value now)
unfolding write_data
write_data-HasTypes a value now k h t =
    let fits = set_latch-lt a.status_latches tdr_full true t.latches_fit (omega arith) in
    try_start_transmit-HasTypes _ now h (ground arith)

write_command-HasTypes :
    (a : Acia6551) (value now : ℕ)
    → value < 256
    → IsWord now
    → HasTypes a
    → HasTypes (write_command a value now)
unfolding write_command
write_command-HasTypes a value now k h t = try_start_transmit-HasTypes _ now h (ground arith)

write_control-HasTypes :
    (a : Acia6551) (value now : ℕ)
    → value < 256
    → IsWord now
    → HasTypes a
    → HasTypes (write_control a value now)
unfolding write_control
write_control-HasTypes a value now k h t = try_start_transmit-HasTypes _ now h (ground arith)

pub programmed_reset-HasTypes :
    (a : Acia6551) (now : ℕ) → IsWord now → HasTypes a → HasTypes (acia_programmed_reset a now)
unfolding acia_programmed_reset
programmed_reset-HasTypes a now h t =
    clear_command-HasTypes (advance a now) (advance-HasTypes a now h t)

write_register-HasTypes :
    (a : Acia6551) (reg value now : ℕ)
    → value < 256
    → IsWord now
    → HasTypes a
    → HasTypes (write_register a reg value now)
unfolding write_register
write_register-HasTypes a reg value now k h t =
    if_both HasTypes (bit_and reg 3 == 0) (write_data-HasTypes a value now k h t) (
      if_both HasTypes (bit_and reg 3 == 1) (programmed_reset-HasTypes a now h t) (
        if_both HasTypes (bit_and reg 3 == 2) (write_command-HasTypes a value now k h t)
          (write_control-HasTypes a value now k h t)))

pub write-HasTypes :
    (a : Acia6551) (reg value now : ℕ)
    → value < 256
    → IsWord now
    → HasTypes a
    → HasTypes (acia_write a reg value now).0
unfolding acia_write
write-HasTypes a reg value now k h t =
    step-HasTypes _ now h
      (write_register-HasTypes (advance a now) reg value now k h (advance-HasTypes a now h t))

change_lines-HasTypes : (a : Acia6551) (value : ℕ) → HasTypes a → HasTypes (change_lines a value)
unfolding change_lines raise_irq
change_lines-HasTypes a value t = ground (arith, bit_and_mask 3 value)

pub set_lines-HasTypes :
    (a : Acia6551) (value now : ℕ) → IsWord now → HasTypes a → HasTypes (acia_set_lines a value now)
unfolding acia_set_lines
set_lines-HasTypes a value now h t =
    try_start_transmit-HasTypes _ now h
      (change_lines-HasTypes (advance a now) value (advance-HasTypes a now h t))

begin_frame-HasTypes :
    (a : Acia6551) (byte errors now : ℕ)
    → byte < 256
    → HasTypes a
    → HasTypes (begin_frame a byte errors now)
unfolding begin_frame
begin_frame-HasTypes a byte errors now h t =
    let masked : bit_and errors error_mask < 8 = omega (arith, bit_and_mask 3 errors) in
    ground (
      arith,
      bit_and-lt 3 (bit_and errors error_mask) (255 - overrun) masked,
      set_latch-lt a.status_latches rx_busy true t.latches_fit,
    )

pub rx_start-HasTypes :
    (a : Acia6551) (byte errors now : ℕ)
    → byte < 256
    → IsWord now
    → HasTypes a
    → HasTypes (acia_rx_start a byte errors now)
unfolding acia_rx_start
rx_start-HasTypes a byte errors now k h t =
    let moved = advance-HasTypes a now h t in
    if_both HasTypes (not (has_clock a.clock_mhz a.control)) t (
      if_both HasTypes (latch (advance a now).status_latches rx_busy) moved
        (advance-HasTypes _ now h (begin_frame-HasTypes (advance a now) byte errors now k moved)))

pub set_clock-HasTypes :
    (a : Acia6551) (clock_mhz : ℕ)
    → IsWord clock_mhz
    → HasTypes a
    → HasTypes (acia_set_clock_mhz a clock_mhz)
unfolding acia_set_clock_mhz
set_clock-HasTypes a clock_mhz h t = ground arith
