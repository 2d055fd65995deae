-- ===== src/Acia/Operations.antt =====
-- Any sequence of calls of the chip's functions, and the ranges of its fields.
use linapple.Common.{ℕ, ◌<◌, false, arith, List, [], ◌∷◌}
use linapple.Acia.State.{Acia6551, all_asserted}
use linapple.Acia.Ports.{
  acia_set_clock_mhz, acia_reset, acia_programmed_reset, acia_restart, acia_step, acia_read,
  acia_write, acia_set_lines, acia_rx_start,
}
use linapple.Acia.Types.{IsWord, HasTypes}
use linapple.Acia.Ranges.{
  reset-HasTypes, programmed_reset-HasTypes, restart-HasTypes, step-HasTypes, read-HasTypes,
  write-HasTypes, set_lines-HasTypes, rx_start-HasTypes, set_clock-HasTypes,
}

-- The chip as it is declared, before any call.
abbrev pub power_on : Acia6551
power_on = record {
  control = 0;
  command = 0;
  status_latches = 0;
  receive_data = 0;
  transmit_data = 0;
  shift_data = 0;
  shift_errors = 0;
  lines = all_asserted;
  irq = false;
  irq_from_lines = false;
  break_level = false;
  rx_completed = false;
  clock_mhz = 0;
  synced = 0;
  previous_synced = 0;
  tx_busy_until = 0;
  tx_anchor = 0;
  rx_rdrf_at = 0;
  rx_free_at = 0;
  rx_freed_cycle = 0;
  rdr_emptied_cycle = 0;
  pending_out = 0;
  has_pending_out = false;
}

-- A call, with arguments of the functions' types.
pub data Operation : Type 0 where
  set_clock : (clock_mhz : ℕ) → IsWord clock_mhz → Operation
  reset : (now : ℕ) → IsWord now → Operation
  programmed_reset : (now : ℕ) → IsWord now → Operation
  restart : (now : ℕ) → IsWord now → Operation
  step : (now : ℕ) → IsWord now → Operation
  read : (reg now : ℕ) → IsWord now → Operation
  write : (reg value now : ℕ) → value < 256 → IsWord now → Operation
  set_lines : (lines now : ℕ) → IsWord now → Operation
  rx_start : (byte errors now : ℕ) → byte < 256 → IsWord now → Operation

unfoldable pub perform : Acia6551 → Operation → Acia6551
perform a (set_clock clock_mhz _) = acia_set_clock_mhz a clock_mhz
perform a (reset now _) = acia_reset a now
perform a (programmed_reset now _) = acia_programmed_reset a now
perform a (restart now _) = acia_restart a now
perform a (step now _) = (acia_step a now).0
perform a (read reg now _) = (acia_read a reg now).0
perform a (write reg value now _ _) = (acia_write a reg value now).0
perform a (set_lines lines now _) = acia_set_lines a lines now
perform a (rx_start byte errors now _ _) = acia_rx_start a byte errors now

unfoldable pub perform_all : Acia6551 → List Operation → Acia6551
unfolding perform
perform_all a [] = a
perform_all a (op ∷ ops) = perform_all (perform a op) ops

perform-HasTypes : (a : Acia6551) (op : Operation) → HasTypes a → HasTypes (perform a op)
unfolding perform
perform-HasTypes a (set_clock clock_mhz h) t = set_clock-HasTypes a clock_mhz h t
perform-HasTypes a (reset now h) t = reset-HasTypes a now h t
perform-HasTypes a (programmed_reset now h) t = programmed_reset-HasTypes a now h t
perform-HasTypes a (restart now h) t = restart-HasTypes a now h t
perform-HasTypes a (step now h) t = step-HasTypes a now h t
perform-HasTypes a (read reg now h) t = (read-HasTypes a reg now h t).0
perform-HasTypes a (write reg value now k h) t = write-HasTypes a reg value now k h t
perform-HasTypes a (set_lines lines now h) t = set_lines-HasTypes a lines now h t
perform-HasTypes a (rx_start byte errors now k h) t = rx_start-HasTypes a byte errors now k h t

all-HasTypes : (a : Acia6551) (ops : List Operation) → HasTypes a → HasTypes (perform_all a ops)
unfolding perform_all
all-HasTypes a [] t = t
all-HasTypes a (op ∷ ops) t = all-HasTypes (perform a op) ops (perform-HasTypes a op t)

-- Whatever is called on the chip as it is declared, with arguments of the declared types, every
-- field stays in the range of its type, with bit 7 of the latches and all but three bits of the
-- lines and of the frame's errors clear, and a read of a register at any cycle gives a byte.
pub perform_all-power_on-HasTypes :
    (ops : List Operation) (reg now : ℕ)
    → IsWord now
    → HasTypes (perform_all power_on ops) × ((acia_read (perform_all power_on ops) reg now).1 < 256)
perform_all-power_on-HasTypes ops reg now h =
    let t = all-HasTypes power_on ops (ground arith) in
    (t, (read-HasTypes (perform_all power_on ops) reg now h t).1)
