-- ===== src/Disk/Stepper.antt =====
-- The head and the magnets that pull it (apple2/peripherals/disk/Disk.cpp).
use linapple.Common.{
  ℕ, ◌+◌, ◌-◌, ◌*◌, ◌/◌, ◌%◌, ◌^◌, bit_and, bit_or, true, false, ◌&&◌, ◌||◌, ltb, leb, ◌==◌, ◌!=◌,
  if◌then◌else◌,
}
use linapple.Disk.Drive.{Drive, DiskPeripheral, Drivers, get_active_drive, with_active_drive}

abbrev pub stepper_magnets : ℕ
stepper_magnets = 4

abbrev pub quarter_tracks_per_disk : ℕ
quarter_tracks_per_disk = 160

abbrev pub magnet_settle_cycles : ℕ
magnet_settle_cycles = 10

unfoldable pub energised_magnets : DiskPeripheral → ℕ
energised_magnets d =
    if ltb 0 (get_active_drive d).motor_enable_cycles then d.stepper_phase_mask else 0

-- What the live magnets add up to: their number, the sum of the tracks they pull to, and what is to be
-- taken from that sum, which is an `int32_t` in the source.
pub record Pull : Type 0 where
  pub magnets : ℕ
  pub sum : ℕ
  pub less : ℕ

-- `(magnet - cog_phase) & 3`, in 32 bits.
unfoldable pub magnet_offset : ℕ → ℕ → ℕ
magnet_offset magnet cog_phase = (magnet + 4294967296 - cog_phase) % 4294967296 % 4

unfoldable pub add_magnet : ℕ → ℕ → ℕ → ℕ → Pull → Pull
unfolding magnet_offset
add_magnet half_track cog_phase live magnet pull =
    let offset = magnet_offset magnet cog_phase in
    if bit_and live (1 * 2 ^ magnet) == 0 || offset == 2 then pull else record {
      magnets = pull.magnets + 1;
      sum = pull.sum + half_track + (if offset == 1 then 2 else 0);
      less = pull.less + (if offset == 3 then 2 else 0);
    }

-- The loop over the four magnets.
unfoldable pub pull_of : ℕ → ℕ → ℕ → Pull
unfolding add_magnet
pull_of half_track cog_phase live =
    let add = add_magnet half_track cog_phase live in
    add 3 (add 2 (add 1 (add 0 (record { magnets = 0; sum = 0; less = 0 }))))

-- Where the pull leaves the head. A sum below 0 settles at 0, whichever way the division rounds.
unfoldable pub settled : Pull → ℕ
settled pull =
    let track = (pull.sum - pull.less) / pull.magnets in
    if ltb (quarter_tracks_per_disk - 1) track then quarter_tracks_per_disk - 1 else track

unfoldable pub settled_track : ℕ → ℕ → ℕ
unfolding pull_of settled
settled_track here live =
    let half_track = here - here % 2 in
    let pull = pull_of half_track (here / 2 % 4) live in
    if pull.magnets == 0 then here else settled pull

module _ (drivers : Drivers) where
  unfoldable pub move_drive : Drive → ℕ → Drive
  move_drive drive quarter_track =
      if quarter_track == drive.quarter_track
      then drive
      else let kept = if drive.is_dirty then drivers.write_track drive else drive in
        record kept { quarter_track = quarter_track; is_data_loaded = false }

  unfoldable pub move_head_to : DiskPeripheral → ℕ → DiskPeripheral
  move_head_to d quarter_track = with_active_drive d (move_drive (get_active_drive d) quarter_track)

  -- Where no magnet pulls, the head moves to where it is.
  unfoldable pub settle_head : DiskPeripheral → DiskPeripheral
  settle_head d =
      move_head_to d (settled_track (get_active_drive d).quarter_track (energised_magnets d))

  -- The phase bit that an address strobes.
  unfoldable pub strobe : DiskPeripheral → ℕ → DiskPeripheral
  strobe d memory_address =
      let strobe_bit = 1 * 2 ^ (memory_address / 2 % 4) in
      if bit_and memory_address 1 != 0
      then record d { stepper_phase_mask = bit_or d.stepper_phase_mask strobe_bit }
      else record d { stepper_phase_mask = bit_and d.stepper_phase_mask (65535 - strobe_bit) }

  -- A magnet that is dropped: it may take back the move that the one before it made.
  unfoldable pub release_magnet : DiskPeripheral → ℕ → DiskPeripheral
  release_magnet d before_settling =
      let since = (d.cumulative_cycles + 4294967296 - d.magnet_release_cycle) % 4294967296 in
      if d.stepper_phase_mask == 0 && d.magnet_released && leb since magnet_settle_cycles
      then record (move_head_to d d.quarter_track_before_release) { magnet_released = false }
      else record d {
        quarter_track_before_release = before_settling;
        magnet_released = true;
        magnet_release_cycle = d.cumulative_cycles;
      }

  unfoldable pub disk_io_control_stepper : DiskPeripheral → ℕ → DiskPeripheral
  disk_io_control_stepper d memory_address =
      let strobed = strobe d memory_address in
      let drive = get_active_drive d in
      let settled = settle_head strobed in
      if drive.motor_enable_cycles == 0
      then strobed
      else if bit_and memory_address 1 != 0
      then settled
      else release_magnet settled drive.quarter_track
