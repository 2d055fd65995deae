-- ===== src/Disk/Spin.antt =====
-- The medium in the cycles that the sequencer runs (run_sequencer_cycles of
-- apple2/peripherals/disk/Disk.cpp).
use native.Mathlib.Nat.{mod-eq_of_lt}
use linapple.Common.{
  ℕ, zero, suc, ◌+◌, ◌*◌, ◌<◌, Bool, true, false, not, ◌&&◌, ◌==◌, subst, Bool-cases, inl, inr, ◌≡◌,
  refl, arith,
}
use linapple.Disk.Drive.{
  DiskPeripheral, Drivers, get_active_drive, with_active_drive, is_disk_write_protected,
}
use linapple.Disk.Sequencer.{
  advance_medium_one_step, sequencer_step, sequencer_steps, with_track, run_sequencer_cycles,
  wrap32, steps_per_cycle,
}
use linapple.Disk.Rotation.{
  Turned, IsTurning, advance-Turned, Turned-add, turn-IsTurning, none-Turned,
}

module _ (p6_opcode : ℕ → ℕ) where
  pub step-active :
      (is_protected may_write : Bool) (d : DiskPeripheral)
      → get_active_drive (sequencer_step p6_opcode is_protected may_write d)
        ≡ (advance_medium_one_step may_write (record {
          drive = get_active_drive d;
          seed = d.noise_seed;
          pulse_pending = d.sequencer.write_pulse_pending;
          pulse = false;
        })).drive
  unfolding sequencer_step get_active_drive with_active_drive
  step-active is_protected may_write d = ground arith

  step-Turned :
      (is_protected may_write : Bool) (d : DiskPeripheral)
      → IsTurning (get_active_drive d)
      → (cells : ℕ) × Turned 4 cells
          (get_active_drive d)
          (get_active_drive (sequencer_step p6_opcode is_protected may_write d))
  step-Turned is_protected may_write d turning =
      rw (step-active is_protected may_write d) (advance-Turned may_write _ turning)

  pub sequencer_steps-Turned :
      (is_protected may_write : Bool) (n : ℕ) (d : DiskPeripheral)
      → IsTurning (get_active_drive d)
      → (cells : ℕ) × Turned
          (4 * n)
          cells
          (get_active_drive d)
          (get_active_drive (sequencer_steps p6_opcode is_protected may_write n d))
  unfolding sequencer_steps
  sequencer_steps-Turned is_protected may_write zero d turning =
      (0, none-Turned (get_active_drive d) turning)
  sequencer_steps-Turned is_protected may_write (suc n) d turning =
      let (j, first) = step-Turned is_protected may_write d turning in
      let next = sequencer_step p6_opcode is_protected may_write d in
      let (k, then_) =
        sequencer_steps-Turned is_protected may_write n next
          (turn-IsTurning 4 j (get_active_drive d) (get_active_drive next) turning first) in
      (
        j + k,
        subst
            (λ u.
              Turned u (j + k) (get_active_drive d)
                (get_active_drive (sequencer_steps p6_opcode is_protected may_write n next)))
            (omega arith)
            (Turned-add 4 (4 * n) j k (get_active_drive d) (get_active_drive next) _ first then_),
      )

  module _ (drivers : Drivers) where
    loaded-with_track :
        (d : DiskPeripheral)
        → (get_active_drive d).is_data_loaded ≡ true
        → with_track p6_opcode drivers d ≡ d
    unfolding with_track
    loaded-with_track d loaded = rw loaded refl

    -- Where the active drive's motor runs and its track is loaded, has cells that take some time, and has the head
    -- on it and within a cell, a run of fewer than 2^31 cycles takes eight units of time a cycle: some number of
    -- cells passes, and those, with the time that is left of the last, are the time that has gone. The head is
    -- then that number of cells on, around the track, and within a cell again.
    pub run_sequencer_cycles-Turned :
        (d : DiskPeripheral) (cycles : ℕ)
        → cycles < 2147483648
        → 0 < (get_active_drive d).motor_enable_cycles
        → (get_active_drive d).is_data_loaded ≡ true
        → IsTurning (get_active_drive d)
        → (cells : ℕ) × Turned
            (8 * cycles)
            cells
            (get_active_drive d)
            (get_active_drive (run_sequencer_cycles p6_opcode drivers d cycles))
    unfolding run_sequencer_cycles
    run_sequencer_cycles-Turned d cycles h on loaded turning =
        let running : ((get_active_drive d).motor_enable_cycles == 0) ≡ false = ground arith in
        let is_protected = is_disk_write_protected (get_active_drive d) in
        let may_write = d.sequencer.q7 && not is_protected in
        let whole : wrap32 (cycles * steps_per_cycle) ≡ cycles * 2 = mod-eq_of_lt (omega arith) in
        elim (Bool-cases (cycles == 0)) [
          | inl none ↦ (
            0,
            rw none (
                subst (λ u. Turned u 0 (get_active_drive d) (get_active_drive d)) (ground arith)
                  (none-Turned (get_active_drive d) turning)),
          )
          | inr some ↦
              let (k, turned) =
                sequencer_steps-Turned is_protected may_write (cycles * 2) d turning in
              (
                k,
                rw (some, running, loaded-with_track d loaded, whole)
                    (subst
                      (λ u. Turned u k (get_active_drive d) (
                        get_active_drive
                          (sequencer_steps p6_opcode is_protected may_write (cycles * 2) d)))
                      (omega arith) turned),
              )
        ]
