-- ===== src/Disk/Tests.antt =====
-- Runs of the disk controller at concrete inputs.
use linapple.Common.{ℕ, ◌+◌, ◌*◌, ◌<◌, true, false, [], ◌∷◌, ◌≡◌, refl, arith}
use linapple.Disk.Drive.{Drive, DiskPeripheral, Drivers, get_active_drive, with_active_drive}
use linapple.Disk.Sequencer.{
  run_sequencer_cycles, sequencer_steps, sequencer_step, with_track, advance_medium_one_step,
  cell_loop, pass_cell, read_cell,
}
use linapple.Disk.Rotation.{Turned, IsTurning}
use linapple.Disk.Spin.{run_sequencer_cycles-Turned}
use linapple.Disk.Tracks.{TrackRead, answering}
use linapple.Disk.Loading.{IsReadable, HasRun, run_sequencer_cycles-loads, answering-KeepsMotor}
use linapple.Disk.Head.{IsHeld, seek_up, seek_up-IsHeld}

abbrev inserted : Drive
inserted = record {
  quarter_track = 34;
  bit_position = 15;
  cell_remaining = 20;
  zero_cell_run = 0;
  bit_count = 16;
  bit_timing = 32;
  is_user_write_protected = false;
  is_data_loaded = true;
  is_dirty = false;
  motor_enable_cycles = 1159235;
  write_light_cycles = 0;
  track_bits = 0xd5 ∷ 0xaa ∷ [];
  has_driver = true;
  driver_writes = true;
  driver_protects = false;
}

abbrev spinning : DiskPeripheral
spinning = record {
  first_drive = inserted;
  second_drive = inserted;
  active_drive_index = 0;
  io_latch = 0;
  last_bus_write = 0;
  stepper_phase_mask = 2;
  is_motor_on = true;
  sequencer = record {
    q6 = false;
    q7 = false;
    write_line_active = false;
    write_pulse_pending = false;
    state = 0;
  };
  synced = 0;
  noise_seed = 7;
  cumulative_cycles = 0;
  magnet_release_cycle = 0;
  quarter_track_before_release = 0;
  magnet_released = false;
}

-- A driver that hands over fifty thousand cells, as they are in the buffer, and takes every track.
abbrev whole_track : TrackRead
whole_track = record {
  succeeds = true;
  filled = λ bytes. bytes;
  loaded_bits = 50000;
  loaded_timing = 32;
}

abbrev plain_drivers : Drivers
plain_drivers = answering whole_track true true

-- A controller without its PROM: the state and the register stay as they are.
abbrev idle_opcode : ℕ → ℕ
idle_opcode address = 0x08

-- The head has moved, and the track under it is not in the buffer.
abbrev moved : DiskPeripheral
moved = record spinning { first_drive = record inserted { is_data_loaded = false } }

moved-IsReadable : IsReadable whole_track (get_active_drive moved)
unfolding get_active_drive
moved-IsReadable = record {
  without_error = refl;
  some_bits = omega arith;
  some_timing = omega arith;
  with_driver = refl;
  on_disk = omega arith;
}

motor_of_moved : 0 < (get_active_drive moved).motor_enable_cycles
unfolding get_active_drive
motor_of_moved = omega arith

fresh_of_moved : (get_active_drive moved).is_data_loaded ≡ false
unfolding get_active_drive
fresh_of_moved = refl

run_sequencer_cycles-loads_example :
    (cells : ℕ) × HasRun whole_track (8 * 100) cells (get_active_drive moved) (
      get_active_drive
        (run_sequencer_cycles idle_opcode (answering whole_track true true) moved 100))
run_sequencer_cycles-loads_example =
    run_sequencer_cycles-loads idle_opcode whole_track true true moved 100 (omega arith)
      (omega arith) motor_of_moved fresh_of_moved refl moved-IsReadable

spinning-IsHeld : IsHeld 17 spinning
unfolding get_active_drive
spinning-IsHeld = record { held_track = refl; held_motor = omega arith; held_magnet = refl }

spinning-IsTurning : IsTurning (get_active_drive spinning)
unfolding get_active_drive
spinning-IsTurning = record {
  some_cells = omega arith;
  some_time = omega arith;
  within_cell = omega arith;
  on_track = omega arith;
}

seek_up-IsHeld_example : IsHeld (17 + 18) (seek_up plain_drivers 18 17 spinning)
seek_up-IsHeld_example =
    seek_up-IsHeld plain_drivers (answering-KeepsMotor whole_track true true) 18 17 spinning
      (omega arith) spinning-IsHeld

motor_of_spinning : 0 < (get_active_drive spinning).motor_enable_cycles
unfolding get_active_drive
motor_of_spinning = omega arith

loaded_of_spinning : (get_active_drive spinning).is_data_loaded ≡ true
unfolding get_active_drive
loaded_of_spinning = refl

run_sequencer_cycles-Turned_example :
    (cells : ℕ) × Turned
      (8 * 8)
      cells
      (get_active_drive spinning)
      (get_active_drive (run_sequencer_cycles idle_opcode plain_drivers spinning 8))
run_sequencer_cycles-Turned_example =
    run_sequencer_cycles-Turned idle_opcode plain_drivers spinning 8 (omega arith) motor_of_spinning
      loaded_of_spinning spinning-IsTurning

-- Two cells pass in eight cycles of thirty-two units a cell.
eight_cycles :
    (get_active_drive (run_sequencer_cycles idle_opcode plain_drivers spinning 8)).bit_position ≡ 1
unfolding get_active_drive run_sequencer_cycles sequencer_steps sequencer_step with_active_drive
    with_track advance_medium_one_step cell_loop pass_cell read_cell
eight_cycles = refl
