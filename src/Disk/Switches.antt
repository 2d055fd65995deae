-- ===== src/Disk/Switches.antt =====
-- The card's switches as the processor reaches them, and the time that passes for the drives
-- (apple2/peripherals/disk/Disk.cpp).
use linapple.Common.{
  ℕ, ◌-◌, bit_and, Bool, true, false, not, ◌&&◌, ltb, leb, ◌==◌, ◌!=◌, if◌then◌else◌,
}
use linapple.Disk.Drive.{
  Drive, DiskPeripheral, Drivers, motor_off_delay_cycles, write_light_time, get_active_drive,
  with_active_drive,
}
use linapple.Disk.Stepper.{settle_head, disk_io_control_stepper}
use linapple.Disk.Sequencer.{sync_sequencer_to_cycle}

-- Both drives must be dark.
unfoldable pub swap_drives : DiskPeripheral → DiskPeripheral × Bool
swap_drives d =
    if ltb 0 d.first_drive.motor_enable_cycles
    then (d, false)
    else if ltb 0 d.second_drive.motor_enable_cycles
    then (d, false)
    else (record d { first_drive = d.second_drive; second_drive = d.first_drive }, true)

module _ (drivers : Drivers) where
  unfoldable pub sync_drive_motor_state : DiskPeripheral → DiskPeripheral
  sync_drive_motor_state d =
      let drive = get_active_drive d in
      let enabled =
        if d.is_motor_on
        then with_active_drive d (record drive { motor_enable_cycles = motor_off_delay_cycles })
        else d in
      if drive.motor_enable_cycles == 0 && ltb 0 (get_active_drive enabled).motor_enable_cycles
      then settle_head drivers enabled
      else enabled

  unfoldable pub disk_io_control_motor : DiskPeripheral → ℕ → DiskPeripheral
  disk_io_control_motor d memory_address =
      sync_drive_motor_state (record d { is_motor_on = bit_and memory_address 1 != 0 })

  -- The drive that is left.
  unfoldable pub release_drive : Drive → Drive
  release_drive drive =
      let kept = if drive.is_dirty then drivers.write_track drive else drive in
      record kept { motor_enable_cycles = 0; write_light_cycles = 0 }

  unfoldable pub disk_io_enable_drive : DiskPeripheral → ℕ → DiskPeripheral
  disk_io_enable_drive d memory_address =
      let chosen = bit_and memory_address 1 in
      let released = with_active_drive d (release_drive (get_active_drive d)) in
      sync_drive_motor_state (
        if chosen != d.active_drive_index
        then record released { active_drive_index = chosen }
        else d)

  -- Its value is `io_latch`.
  unfoldable pub disk_io_mode_switch : DiskPeripheral → ℕ → Bool → ℕ → DiskPeripheral
  disk_io_mode_switch d memory_address is_write data_value =
      let offset = bit_and memory_address 0x0f in
      let is_set = bit_and offset 0x01 != 0 in
      let held = record d { last_bus_write = if is_write then data_value else d.last_bus_write } in
      let drive = get_active_drive d in
      let lit =
        if is_set
        then with_active_drive held (record drive { write_light_cycles = write_light_time })
        else held in
      if bit_and offset 0x02 == 0
      then record held { sequencer = record d.sequencer { q6 = is_set } }
      else record lit { sequencer = record d.sequencer { q7 = is_set } }

  -- `disk_io_handlers` at the low nibble of the address.
  unfoldable pub disk_io_handler : DiskPeripheral → ℕ → Bool → ℕ → DiskPeripheral
  disk_io_handler d address is_write data_value =
      let index = bit_and address 0x0f in
      if ltb index 0x8
      then disk_io_control_stepper drivers d address
      else if ltb index 0xa
      then disk_io_control_motor d address
      else if ltb index 0xc
      then disk_io_enable_drive d address
      else disk_io_mode_switch d address is_write data_value

  -- The end of the motor's delay, for a drive that is running down.
  unfoldable pub stop_drive : Drive → ℕ → Drive
  stop_drive drive elapsed_cycles =
      let stopped = record drive { motor_enable_cycles = 0 } in
      if leb drive.motor_enable_cycles elapsed_cycles
      then (if drive.is_dirty then drivers.write_track stopped else stopped)
      else record drive { motor_enable_cycles = drive.motor_enable_cycles - elapsed_cycles }

  -- The write light of a drive.
  unfoldable pub dim_light : Bool → Drive → ℕ → Drive
  dim_light is_writing drive elapsed_cycles =
      if is_writing && ltb 0 drive.motor_enable_cycles
      then record drive { write_light_cycles = write_light_time }
      else if leb drive.write_light_cycles elapsed_cycles
      then record drive { write_light_cycles = 0 }
      else record drive { write_light_cycles = drive.write_light_cycles - elapsed_cycles }

  -- One drive's share of the time.
  unfoldable pub run_down : Bool → Bool → Bool → Drive → ℕ → Drive
  unfolding stop_drive dim_light
  run_down is_motor_on is_active q7 drive elapsed_cycles =
      let spun =
        if ltb 0 drive.motor_enable_cycles && not is_motor_on
        then stop_drive drive elapsed_cycles
        else drive in
      dim_light (q7 && is_active) spun elapsed_cycles

  unfoldable pub update_physical_disk_state : DiskPeripheral → ℕ → DiskPeripheral
  update_physical_disk_state d elapsed_cycles =
      let active = get_active_drive d in
      let second = d.active_drive_index == 1 in
      let q7 = d.sequencer.q7 in
      let lapses =
        ltb 0 active.motor_enable_cycles
        && not d.is_motor_on
        && leb active.motor_enable_cycles elapsed_cycles in
      record d {
        first_drive = run_down d.is_motor_on (not second) q7 d.first_drive elapsed_cycles;
        second_drive = run_down d.is_motor_on second q7 d.second_drive elapsed_cycles;
        magnet_released = if lapses then false else d.magnet_released;
      }

  module _ (p6_opcode : ℕ → ℕ) where
    -- An odd address is answered by the floating bus.
    unfoldable pub disk_io_read : DiskPeripheral → ℕ → ℕ → ℕ → DiskPeripheral × ℕ
    disk_io_read d memory_address executed_cycles floating =
        let address = bit_and memory_address 0xff in
        let synced = sync_sequencer_to_cycle p6_opcode drivers d executed_cycles in
        let handled = disk_io_handler synced address false 0 in
        (handled, if bit_and address 1 != 0 then floating else handled.io_latch)

    unfoldable pub disk_io_write : DiskPeripheral → ℕ → ℕ → ℕ → DiskPeripheral
    disk_io_write d memory_address data_value executed_cycles =
        disk_io_handler (sync_sequencer_to_cycle p6_opcode drivers d executed_cycles)
          (bit_and memory_address 0xff) true data_value

    unfoldable pub disk_abi_think : DiskPeripheral → ℕ → DiskPeripheral
    disk_abi_think d elapsed_cycles =
        let synced = sync_sequencer_to_cycle p6_opcode drivers d elapsed_cycles in
        if elapsed_cycles == 0
        then d
        else update_physical_disk_state (record synced { synced = 0 }) elapsed_cycles
