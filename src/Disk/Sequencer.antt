-- ===== src/Disk/Sequencer.antt =====
-- The medium under the head, and the sequencer that the P6 PROM drives
-- (apple2/peripherals/disk/Disk.cpp).
use linapple.Common.{
  ℕ, zero, suc, ◌+◌, ◌-◌, ◌*◌, ◌/◌, ◌%◌, ◌^◌, bit_and, bit_or, Bool, true, false, not, ◌&&◌, ◌||◌,
  get_or, set, ltb, leb, ◌==◌, ◌!=◌, if◌then◌else◌,
}
use linapple.Disk.Drive.{
  Drive, DiskSequencer, DiskPeripheral, Drivers, get_active_drive, with_active_drive,
  is_disk_write_protected,
}

abbrev pub units_per_step : ℕ
units_per_step = 4

abbrev pub steps_per_cycle : ℕ
steps_per_cycle = 2

abbrev pub max_reliable_zero_cells : ℕ
max_reliable_zero_cells = 3

abbrev pub wrap32 : ℕ → ℕ
wrap32 n = n % 4294967296

-- `0x80 >> (index & 7)`.
unfoldable pub cell_mask : ℕ → ℕ
cell_mask index = 0x80 / 2 ^ (index % 8)

unfoldable pub medium_cell : Drive → ℕ → ℕ
medium_cell drive index = get_or drive.track_bits (index / 8) 0 / 2 ^ (7 - index % 8) % 2

-- The seed moves on; a pulse comes on 77 of 256 values.
unfoldable pub next_seed : ℕ → ℕ
next_seed seed = wrap32 (wrap32 (seed * 1103515245) + 12345)

unfoldable pub noise_pulse : ℕ → Bool
noise_pulse seed = ltb (seed / 65536 % 256) 77

-- The medium and what reads and writes it: the drive, the noise, whether a written pulse is pending, and
-- whether a pulse was read.
pub record Head : Type 0 where
  pub drive : Drive
  pub seed : ℕ
  pub pulse_pending : Bool
  pub pulse : Bool

unfoldable pub commit_write_cell : Head → Head
unfolding cell_mask
commit_write_cell h =
    let drive = h.drive in
    let index = (drive.bit_position + drive.bit_count - 1) % drive.bit_count in
    let byte = get_or drive.track_bits (index / 8) 0 in
    let written =
      if h.pulse_pending
      then bit_or byte (cell_mask index)
      else bit_and byte (255 - cell_mask index) in
    record h {
      drive = record drive {
        track_bits = set drive.track_bits (index / 8) written;
        is_dirty = true;
      };
      pulse_pending = false;
    }

-- What a cell gives to the read amplifier.
unfoldable pub read_cell : Head → Head
unfolding medium_cell next_seed noise_pulse
read_cell h =
    let drive = h.drive in
    if medium_cell drive drive.bit_position != 0
    then record h { drive = record drive { zero_cell_run = 0 }; pulse = true }
    else if ltb drive.zero_cell_run max_reliable_zero_cells
    then record h { drive = record drive { zero_cell_run = drive.zero_cell_run + 1 } }
    else record h { seed = next_seed h.seed; pulse = h.pulse || noise_pulse (next_seed h.seed) }

-- The body of the loop but for the time of the cell.
unfoldable pub pass_cell : Bool → Head → Head
pass_cell may_write h =
    let read = read_cell (if may_write then commit_write_cell h else h) in
    let drive = read.drive in
    record read {
      drive = record drive { bit_position = (drive.bit_position + 1) % drive.bit_count };
    }

-- The loop while `cell_remaining` is `below` units under 0; the fuel is that deficit, of which every
-- round takes a unit or more where a cell has one.
unfoldable pub cell_loop : Bool → ℕ → ℕ → Head → Head
cell_loop may_write zero below h = h
cell_loop may_write (suc fuel) below h =
    let passed = pass_cell may_write h in
    let timing = passed.drive.bit_timing in
    let rest = cell_loop may_write fuel (below - timing) passed in
    let drive = passed.drive in
    if leb below timing
    then record passed { drive = record drive { cell_remaining = timing - below } }
    else rest

unfoldable pub advance_medium_one_step : Bool → Head → Head
advance_medium_one_step may_write h =
    let drive = h.drive in
    let later = record drive { cell_remaining = drive.cell_remaining - units_per_step } in
    let below = units_per_step - drive.cell_remaining in
    if drive.bit_count == 0
    then record h { seed = next_seed h.seed; pulse = noise_pulse (next_seed h.seed) }
    else if ltb drive.cell_remaining units_per_step
    then cell_loop may_write below below (record h { pulse = false })
    else record h { drive = later; pulse = false }

-- The address of the PROM.
unfoldable pub p6_address : DiskPeripheral → Bool → ℕ
p6_address d pulse =
    let state = d.sequencer.state in
    let high = bit_and state 0x0e * 2 ^ 4 % 256 in
    let with_pulse = bit_or high (if pulse then 0x00 else 0x10) in
    let with_q7 = bit_or with_pulse (if d.sequencer.q7 then 0x08 else 0x00) in
    let with_q6 = bit_or with_q7 (if d.sequencer.q6 then 0x04 else 0x00) in
    bit_or (bit_or with_q6 (bit_and d.io_latch 0x80 / 2 ^ 6)) (bit_and state 0x01)

unfoldable pub next_state : ℕ → ℕ
next_state opcode =
    bit_or (bit_or (bit_and opcode 0xc0 / 2 ^ 4) (bit_and opcode 0x10 / 2 ^ 3))
      (bit_and opcode 0x20 / 2 ^ 5)

-- What the PROM's low nibble does to the byte that the register holds.
unfoldable pub next_latch : ℕ → ℕ → ℕ → Bool → ℕ
next_latch operation latch last_bus_write is_protected =
    if operation == 0x8 || operation == 0xc
    then latch
    else if operation == 0x9
    then latch * 2 % 256
    else if operation == 0xa || operation == 0xe
    then bit_or (latch / 2) (if is_protected then 0x80 else 0x00)
    else if operation == 0xb || operation == 0xf
    then last_bus_write
    else if operation == 0xd
    then bit_or (latch * 2) 1 % 256
    else 0

-- The write head, which a change of the state's top bit flips.
unfoldable pub write_head : DiskSequencer → DiskSequencer
write_head q =
    let drives_high = bit_and q.state 0x08 != 0 in
    let flips = if drives_high then not q.write_line_active else q.write_line_active in
    if q.q7 && flips
    then record q { write_line_active = drives_high; write_pulse_pending = true }
    else q

module _ (p6_opcode : ℕ → ℕ) where
  unfoldable pub sequencer_step : Bool → Bool → DiskPeripheral → DiskPeripheral
  sequencer_step is_protected may_write d =
      let head = advance_medium_one_step may_write (record {
        drive = get_active_drive d;
        seed = d.noise_seed;
        pulse_pending = d.sequencer.write_pulse_pending;
        pulse = false;
      }) in
      let opcode = p6_opcode (p6_address d head.pulse) in
      let q = write_head (record d.sequencer { write_pulse_pending = head.pulse_pending }) in
      let operation = bit_and opcode 0x0f in
      record (with_active_drive d head.drive) {
        noise_seed = head.seed;
        sequencer = record q { state = next_state opcode };
        io_latch = next_latch operation d.io_latch d.last_bus_write is_protected;
      }

  unfoldable pub sequencer_steps : Bool → Bool → ℕ → DiskPeripheral → DiskPeripheral
  sequencer_steps is_protected may_write zero d = d
  sequencer_steps is_protected may_write (suc n) d =
      sequencer_steps is_protected may_write n (sequencer_step is_protected may_write d)

  module _ (drivers : Drivers) where
    -- The track, if it is not there yet.
    unfoldable pub with_track : DiskPeripheral → DiskPeripheral
    with_track d =
        let drive = get_active_drive d in
        if not drive.is_data_loaded && drive.has_driver
        then with_active_drive d (drivers.read_track drive)
        else d

    unfoldable pub run_sequencer_cycles : DiskPeripheral → ℕ → DiskPeripheral
    run_sequencer_cycles d cycles =
        let ready = with_track d in
        let is_protected = is_disk_write_protected (get_active_drive ready) in
        let may_write = ready.sequencer.q7 && not is_protected in
        if cycles == 0 || (get_active_drive d).motor_enable_cycles == 0
        then d
        else sequencer_steps is_protected may_write (wrap32 (cycles * steps_per_cycle)) ready

    unfoldable pub sync_sequencer_to_cycle : DiskPeripheral → ℕ → DiskPeripheral
    sync_sequencer_to_cycle d executed_cycles =
        let elapsed = executed_cycles - d.synced in
        let later = record d {
          synced = executed_cycles;
          cumulative_cycles = wrap32 (d.cumulative_cycles + elapsed);
        } in
        if leb executed_cycles d.synced then d else run_sequencer_cycles later elapsed
