-- ===== src/Disk/Head.antt =====
-- Where the magnets take the head.
use native.Mathlib.Nat.{one-le-pow, add-zero}
use linapple.Common.{
  ℕ, zero, suc, ◌+◌, ◌-◌, ◌*◌, ◌/◌, ◌%◌, ◌^◌, ◌<◌, bit_and, bit_or, bit_and_mask, subst, true,
  false, ltb, ◌==◌, ◌!=◌, if◌then◌else◌, ◌≡◌, ◌≢◌, refl, ap, ap₂, arith, ◌∙◌,
}
use linapple.Disk.Drive.{Drive, DiskPeripheral, Drivers, get_active_drive, with_active_drive}
use linapple.Disk.Stepper.{
  energised_magnets, settled_track, move_drive, move_head_to, settle_head, strobe, release_magnet,
  disk_io_control_stepper,
}
use linapple.Disk.Pulls.{shared, reached, released}

-- The head of the active drive stands on a half track, its motor runs, and the magnet across from it is
-- the live one.
pub record IsHeld (half : ℕ) (d : DiskPeripheral) : Type 0 where
  pub held_track : (get_active_drive d).quarter_track ≡ 2 * half
  pub held_motor : 0 < (get_active_drive d).motor_enable_cycles
  pub held_magnet : d.stepper_phase_mask ≡ 2 ^ (half % 4)

-- What a driver that takes a track leaves alone.
pub record KeepsMotor (drivers : Drivers) : Type 0 where
  pub keeps_motor :
      (drive : Drive) → (drivers.write_track drive).motor_enable_cycles ≡ drive.motor_enable_cycles

pub active-with_active :
    (d : DiskPeripheral) (drive : Drive) → get_active_drive (with_active_drive d drive) ≡ drive
unfolding get_active_drive with_active_drive
active-with_active d drive = ground arith

with_active-mask :
    (d : DiskPeripheral) (drive : Drive)
    → (with_active_drive d drive).stepper_phase_mask ≡ d.stepper_phase_mask
unfolding with_active_drive
with_active-mask d drive = ground arith

-- The next phase on, the phase that holds the head off.
pub step_up : Drivers → ℕ → DiskPeripheral → DiskPeripheral
step_up drivers half d =
    disk_io_control_stepper drivers (disk_io_control_stepper drivers d (2 * ((half + 1) % 4) + 1))
      (2 * (half % 4))

-- A seek of so many half tracks.
pub seek_up : Drivers → ℕ → ℕ → DiskPeripheral → DiskPeripheral
seek_up drivers zero half d = d
seek_up drivers (suc n) half d = seek_up drivers n (suc half) (step_up drivers half d)

-- What an access to the stepper leaves: the track, the motor and the phases.
record Moved (track motor mask : ℕ) (d : DiskPeripheral) : Type 0 where
  moved_track : (get_active_drive d).quarter_track ≡ track
  moved_motor : (get_active_drive d).motor_enable_cycles ≡ motor
  moved_mask : d.stepper_phase_mask ≡ mask

masked-active :
    (d : DiskPeripheral) (mask : ℕ)
    → get_active_drive (record d { stepper_phase_mask = mask }) ≡ get_active_drive d
unfolding get_active_drive
masked-active d mask = refl

module _ (drivers : Drivers) (keeps : KeepsMotor drivers) where
  move_drive-moved :
      (drive : Drive) (track : ℕ)
      → ((move_drive drivers drive track).quarter_track ≡ track)
        × ((move_drive drivers drive track).motor_enable_cycles ≡ drive.motor_enable_cycles)
  unfolding move_drive
  move_drive-moved drive track = ground (arith, keeps.keeps_motor drive)

  settle-Moved :
      (d : DiskPeripheral)
      → 0 < (get_active_drive d).motor_enable_cycles
      → Moved
          (settled_track (get_active_drive d).quarter_track d.stepper_phase_mask)
          (get_active_drive d).motor_enable_cycles
          d.stepper_phase_mask
          (settle_head drivers d)
  unfolding settle_head move_head_to energised_magnets
  settle-Moved d on =
      let drive = get_active_drive d in
      let live = if ltb 0 drive.motor_enable_cycles then d.stepper_phase_mask else 0 in
      let powered : live ≡ d.stepper_phase_mask = ground arith in
      let after = move_drive drivers drive (settled_track drive.quarter_track live) in
      let (track, motor) = move_drive-moved drive (settled_track drive.quarter_track live) in
      let back = active-with_active d after in
      record {
        moved_track =
            ap (λ (t : Drive). t.quarter_track) back
            ∙ track
            ∙ ap (settled_track drive.quarter_track) powered;
        moved_motor = ap (λ (t : Drive). t.motor_enable_cycles) back ∙ motor;
        moved_mask = with_active-mask d after;
      }

  strobe-on :
      (d : DiskPeripheral) (phase : ℕ)
      → phase < 4
      → strobe drivers d (2 * phase + 1)
        ≡ record d { stepper_phase_mask = bit_or d.stepper_phase_mask (1 * 2 ^ phase) }
  unfolding strobe
  strobe-on d phase h =
      let odd : (bit_and (2 * phase + 1) 1 != 0) ≡ true =
        ground (arith, bit_and_mask 1 (2 * phase + 1)) in
      let strobed : (2 * phase + 1) / 2 % 4 ≡ phase = omega arith in rw (odd, strobed) refl

  strobe-off :
      (d : DiskPeripheral) (phase : ℕ)
      → phase < 4
      → strobe drivers d (2 * phase)
        ≡ record d { stepper_phase_mask = bit_and d.stepper_phase_mask (65535 - 1 * 2 ^ phase) }
  unfolding strobe
  strobe-off d phase h =
      let even : (bit_and (2 * phase) 1 != 0) ≡ false =
        ground (arith, bit_and_mask 1 (2 * phase)) in
      let strobed : 2 * phase / 2 % 4 ≡ phase = omega arith in rw (even, strobed) refl

  release-Moved :
      (d : DiskPeripheral) (track motor mask before : ℕ)
      → mask ≢ 0
      → Moved track motor mask d
      → Moved track motor mask (release_magnet drivers d before)
  unfolding release_magnet get_active_drive
  release-Moved d track motor mask before h m = ground arith

  control-on :
      (d : DiskPeripheral) (phase : ℕ)
      → phase < 4
      → 0 < (get_active_drive d).motor_enable_cycles
      → let mask = bit_or d.stepper_phase_mask (1 * 2 ^ phase) in
        Moved
          (settled_track (get_active_drive d).quarter_track mask)
          (get_active_drive d).motor_enable_cycles
          mask
          (disk_io_control_stepper drivers d (2 * phase + 1))
  unfolding disk_io_control_stepper
  control-on d phase h on =
      let mask = bit_or d.stepper_phase_mask (1 * 2 ^ phase) in
      let odd : (bit_and (2 * phase + 1) 1 != 0) ≡ true =
        ground (arith, bit_and_mask 1 (2 * phase + 1)) in
      let running : ((get_active_drive d).motor_enable_cycles == 0) ≡ false = ground arith in
      rw (odd, running, strobe-on d phase h)
        (subst
          (λ (t : Drive).
            Moved (settled_track t.quarter_track mask) t.motor_enable_cycles mask
              (settle_head drivers (record d { stepper_phase_mask = mask })))
          (masked-active d mask)
          (settle-Moved (record d { stepper_phase_mask = mask }) (rw (masked-active d mask) on)))

  control-off :
      (d : DiskPeripheral) (phase : ℕ)
      → phase < 4
      → 0 < (get_active_drive d).motor_enable_cycles
      → bit_and d.stepper_phase_mask (65535 - 1 * 2 ^ phase) ≢ 0
      → let mask = bit_and d.stepper_phase_mask (65535 - 1 * 2 ^ phase) in
        Moved
          (settled_track (get_active_drive d).quarter_track mask)
          (get_active_drive d).motor_enable_cycles
          mask
          (disk_io_control_stepper drivers d (2 * phase))
  unfolding disk_io_control_stepper
  control-off d phase h on some_live =
      let mask = bit_and d.stepper_phase_mask (65535 - 1 * 2 ^ phase) in
      let even : (bit_and (2 * phase) 1 != 0) ≡ false =
        ground (arith, bit_and_mask 1 (2 * phase)) in
      let running : ((get_active_drive d).motor_enable_cycles == 0) ≡ false = ground arith in
      rw (even, running, strobe-off d phase h)
        (release-Moved _ _ _ mask _ some_live (
          subst
            (λ (t : Drive).
              Moved (settled_track t.quarter_track mask) t.motor_enable_cycles mask
                (settle_head drivers (record d { stepper_phase_mask = mask })))
            (masked-active d mask)
            (settle-Moved (record d { stepper_phase_mask = mask }) (rw (masked-active d mask) on))))

  step_up-IsHeld :
      (half : ℕ) (d : DiskPeripheral)
      → half < 79
      → IsHeld half d
      → IsHeld (suc half) (step_up drivers half d)
  unfolding step_up
  step_up-IsHeld half d h held =
      let first = disk_io_control_stepper drivers d (2 * ((half + 1) % 4) + 1) in
      let both = bit_or (2 ^ (half % 4)) (1 * 2 ^ ((half + 1) % 4)) in
      let between = control-on d ((half + 1) % 4) (omega arith) held.held_motor in
      let mask : first.stepper_phase_mask ≡ both =
        between.moved_mask ∙ ap (λ m. bit_or m (1 * 2 ^ ((half + 1) % 4))) held.held_magnet in
      let track : (get_active_drive first).quarter_track ≡ 2 * half + 1 =
        between.moved_track
        ∙ ap₂ (λ q m. settled_track q (bit_or m (1 * 2 ^ ((half + 1) % 4)))) held.held_track
            held.held_magnet
        ∙ shared half h in
      let on : 0 < (get_active_drive first).motor_enable_cycles =
        rw between.moved_motor held.held_motor in
      let left : bit_and first.stepper_phase_mask (65535 - 1 * 2 ^ (half % 4))
          ≡ 2 ^ ((half + 1) % 4) =
        ap (λ m. bit_and m (65535 - 1 * 2 ^ (half % 4))) mask ∙ released half in
      let last =
        control-off first (half % 4) (omega arith) on
          (λ e. absurd (omega (arith, left, e, one-le-pow ((half + 1) % 4) 2))) in
      record {
        held_track = last.moved_track ∙ ap₂ settled_track track left ∙ reached half h ∙ omega arith;
        held_motor = rw last.moved_motor on;
        held_magnet = last.moved_mask ∙ left ∙ ap (λ p. 2 ^ p) (omega arith);
      }

  -- While the motor of the active drive runs, and its head stands on half track h with the magnet of that half
  -- track live, turning on the magnet of the next and turning off its own, n times over, takes the head to half
  -- track h + n, held by that one's magnet, if the disk has it: 80 half tracks. A format driver that takes a
  -- track leaves the motor alone.
  pub seek_up-IsHeld :
      (n half : ℕ) (d : DiskPeripheral)
      → half + n < 80
      → IsHeld half d
      → IsHeld (half + n) (seek_up drivers n half d)
  unfolding seek_up
  seek_up-IsHeld zero half d h held = rw (add-zero half) held
  seek_up-IsHeld (suc n) half d h held =
      subst (λ k. IsHeld k (seek_up drivers n (suc half) (step_up drivers half d))) (omega arith)
        (seek_up-IsHeld n (suc half) (step_up drivers half d) (omega arith)
          (step_up-IsHeld half d (omega arith) held))
