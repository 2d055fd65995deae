-- ===== src/Disk/Drive.antt =====
-- The drives and the card's registers (apple2/peripherals/disk/Disk.cpp).
use linapple.Common.{ℕ, Bool, true, false, not, List, ◌==◌, if◌then◌else◌}

-- Names, the error and the pointers to the driver and its instance are left out. `has_driver` says that
-- those two are set, which happens together; `driver_writes` and `driver_protects` are what the driver answers.
-- `cell_remaining` is not negative between steps.
pub record Drive : Type 0 where
  pub quarter_track : ℕ
  pub bit_position : ℕ
  pub cell_remaining : ℕ
  pub zero_cell_run : ℕ
  pub bit_count : ℕ
  pub bit_timing : ℕ
  pub is_user_write_protected : Bool
  pub is_data_loaded : Bool
  pub is_dirty : Bool
  pub motor_enable_cycles : ℕ
  pub write_light_cycles : ℕ
  pub track_bits : List ℕ
  pub has_driver : Bool
  pub driver_writes : Bool
  pub driver_protects : Bool

-- `DiskSequencer`.
pub record DiskSequencer : Type 0 where
  pub q6 : Bool
  pub q7 : Bool
  pub write_line_active : Bool
  pub write_pulse_pending : Bool
  pub state : ℕ

pub record DiskPeripheral : Type 0 where
  pub first_drive : Drive
  pub second_drive : Drive
  pub active_drive_index : ℕ
  pub io_latch : ℕ
  pub last_bus_write : ℕ
  pub stepper_phase_mask : ℕ
  pub is_motor_on : Bool
  pub sequencer : DiskSequencer
  pub synced : ℕ
  pub noise_seed : ℕ
  pub cumulative_cycles : ℕ
  pub magnet_release_cycle : ℕ
  pub quarter_track_before_release : ℕ
  pub magnet_released : Bool

abbrev pub motor_off_delay_cycles : ℕ
motor_off_delay_cycles = 1159235

abbrev pub write_light_time : ℕ
write_light_time = 1020484

-- An index that is no drive's stands for the first.
unfoldable pub get_active_drive : DiskPeripheral → Drive
get_active_drive d = if d.active_drive_index == 1 then d.second_drive else d.first_drive

-- What is done to the active drive through the reference.
unfoldable pub with_active_drive : DiskPeripheral → Drive → DiskPeripheral
with_active_drive d drive =
    if d.active_drive_index == 1
    then record d { second_drive = drive }
    else record d { first_drive = drive }

unfoldable pub is_disk_write_protected : Drive → Bool
is_disk_write_protected drive =
    if drive.is_user_write_protected
    then true
    else if not drive.has_driver
    then false
    else if not drive.driver_writes
    then true
    else drive.driver_protects

-- The drives' format drivers: what taking the head's track, and handing one over, makes of a drive.
pub record Drivers : Type 0 where
  pub write_track : Drive → Drive
  pub read_track : Drive → Drive
