-- ===== src/Acia/Ports.antt =====
-- The functions of the 6551 that the card calls. One that hands a byte out returns it in an `Option`.
use linapple.Common.{
  ℕ, ◌+◌, ◌-◌, bit_and, bit_or, bit_xor, Bool, true, false, not, ◌&&◌, Option, none, some, ltb, leb,
  ◌==◌, ◌!=◌, if◌then◌else◌,
}
use linapple.Acia.State.{
  Acia6551, overrun, tdre, status_dcd, status_dsr, status_irq, command_dtr, rx_irq_disable,
  tic_mask, tic_break, echo, error_mask, rdrf, tdr_full, tx_busy, rx_busy, reserved, line_dsr,
  line_dcd, all_asserted, wrap64, test, has_clock, tic, dtr, latch, set_latch, frame_cycles,
  rdrf_cycles,
}
use linapple.Acia.Events.{raise_irq, try_start_transmit, advance}

unfoldable pub acia_set_clock_mhz : Acia6551 → ℕ → Acia6551
acia_set_clock_mhz a clock_mhz = record a { clock_mhz = clock_mhz }

unfoldable pub acia_reset : Acia6551 → ℕ → Acia6551
acia_reset a now = record a {
  control = 0;
  command = 0;
  status_latches = 0;
  irq = false;
  irq_from_lines = false;
  break_level = false;
  rx_completed = false;
  synced = now;
  previous_synced = now;
  tx_anchor = now;
  rx_freed_cycle = now;
  rdr_emptied_cycle = now;
  has_pending_out = false;
}

-- What `acia_programmed_reset` does once time has come to `now`.
unfoldable pub clear_command : Acia6551 → Acia6551
clear_command a =
    let from_lines = a.irq && a.irq_from_lines in
    record a {
      command =
          bit_and a.command
            (255 - bit_or (bit_or (bit_or command_dtr rx_irq_disable) tic_mask) echo);
      status_latches = set_latch a.status_latches overrun false;
      irq = if from_lines then false else a.irq;
      irq_from_lines = if from_lines then false else a.irq_from_lines;
      break_level = if tic a.command == tic_break then false else a.break_level;
    }

unfoldable pub acia_programmed_reset : Acia6551 → ℕ → Acia6551
acia_programmed_reset a now = clear_command (advance a now)

-- The latches that `acia_restart` keeps.
unfoldable pub restart_latches : Acia6551 → ℕ
restart_latches a =
    let latches = bit_and a.status_latches (255 - reserved) in
    if not (has_clock a.clock_mhz a.control)
    then bit_and latches (255 - bit_or tx_busy rx_busy)
    else latches

unfoldable pub acia_restart : Acia6551 → ℕ → Acia6551
acia_restart a now =
    let latches = restart_latches a in
    let receives = latch latches rx_busy in
    record a {
      status_latches = latches;
      irq_from_lines = false;
      break_level = tic a.command == tic_break;
      rx_completed = false;
      shift_errors = 0;
      synced = now;
      previous_synced = now;
      tx_anchor = now;
      rx_freed_cycle = now;
      rdr_emptied_cycle = now;
      has_pending_out = false;
      tx_busy_until =
          if latch latches tx_busy then wrap64 (now + frame_cycles a) else a.tx_busy_until;
      rx_rdrf_at = if receives then wrap64 (now + rdrf_cycles a) else a.rx_rdrf_at;
      rx_free_at = if receives then wrap64 (now + frame_cycles a) else a.rx_free_at;
    }

-- The byte that is held, if there is one.
unfoldable pub take_out : Acia6551 → Acia6551 × Option ℕ
take_out a =
    if not a.has_pending_out
    then (a, none)
    else (record a { has_pending_out = false }, some a.pending_out)

unfoldable pub acia_step : Acia6551 → ℕ → Acia6551 × Option ℕ
acia_step a now = take_out (if not a.has_pending_out then advance a now else a)

abbrev pub acia_irq : Acia6551 → Bool
acia_irq a = a.irq

unfoldable pub read_data : Acia6551 → ℕ → Acia6551 × ℕ
read_data a now =
    let emptied = record a {
      status_latches = set_latch a.status_latches rdrf false;
      rdr_emptied_cycle = now;
    } in
    (if latch a.status_latches rdrf then emptied else a, a.receive_data)

unfoldable pub status_of : Acia6551 → ℕ
status_of a =
    let held = bit_and a.status_latches (bit_or error_mask rdrf) in
    let with_tdre = if not (latch a.status_latches tdr_full) then bit_or held tdre else held in
    let with_dcd =
      if bit_and a.lines line_dcd == 0 then bit_or with_tdre status_dcd else with_tdre in
    let with_dsr = if bit_and a.lines line_dsr == 0 then bit_or with_dcd status_dsr else with_dcd in
    if a.irq then bit_or with_dsr status_irq else with_dsr

unfoldable pub read_status : Acia6551 → Acia6551 × ℕ
read_status a = (record a { irq = false; irq_from_lines = false }, status_of a)

unfoldable pub acia_read : Acia6551 → ℕ → ℕ → Acia6551 × ℕ
acia_read a reg now =
    let moved = advance a now in
    let chosen = bit_and reg 3 in
    if chosen == 0
    then read_data moved now
    else if chosen == 1
    then read_status moved
    else if chosen == 2
    then (moved, moved.command)
    else (moved, moved.control)

unfoldable pub write_data : Acia6551 → ℕ → ℕ → Acia6551
write_data a value now =
    let latches = set_latch a.status_latches tdr_full true in
    try_start_transmit (record a { transmit_data = value; status_latches = latches }) now

unfoldable pub write_command : Acia6551 → ℕ → ℕ → Acia6551
write_command a value now =
    let leaves_break = tic a.command == tic_break && tic value != tic_break in
    let level = if leaves_break then false else a.break_level in
    try_start_transmit (record a { command = value; break_level = level }) now

unfoldable pub write_control : Acia6551 → ℕ → ℕ → Acia6551
write_control a value now =
    let clock_begins = not (has_clock a.clock_mhz a.control) && has_clock a.clock_mhz value in
    let anchor = if clock_begins then now else a.tx_anchor in
    try_start_transmit (record a { control = value; tx_anchor = anchor }) now

-- The write itself, before the step that hands a byte out.
unfoldable pub write_register : Acia6551 → ℕ → ℕ → ℕ → Acia6551
write_register a reg value now =
    let chosen = bit_and reg 3 in
    if chosen == 0
    then write_data a value now
    else if chosen == 1
    then acia_programmed_reset a now
    else if chosen == 2
    then write_command a value now
    else write_control a value now

unfoldable pub acia_write : Acia6551 → ℕ → ℕ → ℕ → Acia6551 × Option ℕ
acia_write a reg value now = acia_step (write_register (advance a now) reg value now) now

-- The inputs at `now`, once time has come there.
unfoldable pub change_lines : Acia6551 → ℕ → Acia6551
change_lines a value =
    let masked = bit_and value all_asserted in
    let moved = record a { lines = masked } in
    if test (bit_xor a.lines masked) (bit_or line_dsr line_dcd) && dtr a.command
    then raise_irq moved true
    else moved

unfoldable pub acia_set_lines : Acia6551 → ℕ → ℕ → Acia6551
acia_set_lines a value now = try_start_transmit (change_lines (advance a now) value) now

unfoldable pub acia_rx_ready : Acia6551 → Bool
acia_rx_ready a =
    has_clock a.clock_mhz a.control
    && dtr a.command
    && test a.lines line_dcd
    && not (latch a.status_latches rx_busy)
    && not (latch a.status_latches rdrf)

-- The later of the cycles at which the shifter and the register became free.
unfoldable pub ready_since : Acia6551 → ℕ
ready_since a =
    if ltb a.rdr_emptied_cycle a.rx_freed_cycle then a.rx_freed_cycle else a.rdr_emptied_cycle

unfoldable pub rx_start_cycle : Acia6551 → ℕ → ℕ
unfolding ready_since
rx_start_cycle a now =
    if ltb a.previous_synced (ready_since a) && leb (ready_since a) now then ready_since a else now

unfoldable pub begin_frame : Acia6551 → ℕ → ℕ → ℕ → Acia6551
begin_frame a byte errors now =
    let start = rx_start_cycle a now in
    record a {
      shift_data = byte;
      shift_errors = bit_and (bit_and errors error_mask) (255 - overrun);
      rx_completed = false;
      status_latches = set_latch a.status_latches rx_busy true;
      rx_rdrf_at = wrap64 (start + rdrf_cycles a);
      rx_free_at = wrap64 (start + frame_cycles a);
    }

unfoldable pub acia_rx_start : Acia6551 → ℕ → ℕ → ℕ → Acia6551
acia_rx_start a byte errors now =
    let moved = advance a now in
    if not (has_clock a.clock_mhz a.control)
    then a
    else if latch moved.status_latches rx_busy
    then moved
    else advance (begin_frame moved byte errors now) now
