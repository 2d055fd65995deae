-- ===== src/Disk/Tracks.antt =====
-- The track buffer of a drive, as it is filled from the format driver and handed to it, and the reset
-- of the card (apple2/peripherals/disk/Disk.cpp).
use linapple.Common.{
  ℕ, zero, suc, ◌+◌, ◌*◌, ◌/◌, ◌%◌, Bool, false, not, ◌||◌, ◌&&◌, List, [], ◌∷◌, leb, ◌==◌,
  if◌then◌else◌,
}
use linapple.Disk.Drive.{Drive, DiskPeripheral, Drivers, is_disk_write_protected}
use linapple.Disk.Stepper.{quarter_tracks_per_disk}

abbrev disk_default_bit_timing : ℕ
disk_default_bit_timing = 32

abbrev pub head_settling_cells : ℕ
head_settling_cells = 7

abbrev noise_seed_start : ℕ
noise_seed_start = 0x5d1a3b7f

abbrev track_bit_bytes : ℕ
track_bit_bytes = 8704

-- What a driver answers when it is asked for a track.
pub record TrackRead : Type 0 where
  pub succeeds : Bool
  pub filled : List ℕ → List ℕ
  pub loaded_bits : ℕ
  pub loaded_timing : ℕ

-- `is_taken` is whether the driver takes the track without an error.
unfoldable pub write_track_to_driver : Bool → Bool → Drive → Drive
write_track_to_driver writes_bits is_taken drive =
    if leb quarter_tracks_per_disk drive.quarter_track || is_disk_write_protected drive
    then drive
    else if not (drive.bit_count == 0) && drive.has_driver && writes_bits
    then record drive { is_dirty = not is_taken }
    else drive

unfoldable pub rescale_head_angle : Drive → ℕ → ℕ → Drive
rescale_head_angle drive previous_position previous_count =
    let scaled = previous_position * drive.bit_count / previous_count in
    if drive.bit_count == 0
    then record drive { bit_position = 0 }
    else if previous_count == 0
    then drive
    else record drive { bit_position = (scaled + head_settling_cells) % drive.bit_count }

-- Bytes of 0 up to a size.
unfoldable pub resized : ℕ → List ℕ → List ℕ
resized zero bytes = bytes
resized (suc n) [] = 0 ∷ resized n []
resized (suc n) (byte ∷ bytes) = byte ∷ resized n bytes

unfoldable pub read_track_from_driver : TrackRead → Drive → Drive
read_track_from_driver answer drive =
    let cleared = record drive {
      bit_position = 0;
      cell_remaining = 0;
      zero_cell_run = 0;
      bit_count = 0;
      bit_timing = disk_default_bit_timing;
    } in
    let sized = record cleared { track_bits = resized track_bit_bytes drive.track_bits } in
    let count = if answer.succeeds then answer.loaded_bits else 0 in
    let loaded = record sized {
      track_bits = answer.filled sized.track_bits;
      bit_count = count;
      bit_timing = answer.loaded_timing;
      is_data_loaded = not (count == 0);
    } in
    if leb quarter_tracks_per_disk drive.quarter_track
    then record cleared { is_data_loaded = false }
    else rescale_head_angle (if drive.has_driver then loaded else sized) drive.bit_position
        drive.bit_count

-- A driver, by its answers.
abbrev pub answering : TrackRead → Bool → Bool → Drivers
answering answer writes_bits is_taken = record {
  write_track = write_track_to_driver writes_bits is_taken;
  read_track = read_track_from_driver answer;
}

-- The part of the reset that is a drive's.
unfoldable pub reset_drive : Drivers → Drive → Drive
reset_drive drivers drive =
    let kept = if drive.is_dirty then drivers.write_track drive else drive in
    record kept { motor_enable_cycles = 0; write_light_cycles = 0 }

unfoldable pub initialize_peripheral : Drivers → DiskPeripheral → DiskPeripheral
initialize_peripheral drivers d = record d {
  first_drive = reset_drive drivers d.first_drive;
  second_drive = reset_drive drivers d.second_drive;
  active_drive_index = 0;
  io_latch = 0;
  last_bus_write = 0;
  stepper_phase_mask = 0;
  is_motor_on = false;
  sequencer = record {
    q6 = false;
    q7 = false;
    write_line_active = false;
    write_pulse_pending = false;
    state = 0;
  };
  synced = 0;
  noise_seed = noise_seed_start;
  magnet_released = false;
}
