-- ===== src/Disk/Loading.antt =====
-- A track that the format driver hands over, and the sequencer's run over it
-- (apple2/peripherals/disk/Disk.cpp).
use native.Mathlib.Nat.{mod-lt, mod-eq_of_lt}
use linapple.Common.{
  ℕ, zero, suc, ◌+◌, ◌-◌, ◌*◌, ◌/◌, ◌%◌, ◌<◌, Bool, true, false, not, ◌&&◌, if◌then◌else◌, leb,
  ◌==◌, ◌≡◌, refl, arith, Bool-cases, inl, inr, subst, sym, List, [], ◌∷◌, ◌++◌, replicate, length,
  ap, ap₂, ◌∙◌,
}
use linapple.Disk.Drive.{
  Drive, DiskSequencer, DiskPeripheral, get_active_drive, with_active_drive,
  is_disk_write_protected,
}
use linapple.Disk.Stepper.{quarter_tracks_per_disk}
use linapple.Disk.Sequencer.{
  sequencer_steps, with_track, run_sequencer_cycles, wrap32, steps_per_cycle,
}
use linapple.Disk.Tracks.{
  TrackRead, write_track_to_driver, rescale_head_angle, read_track_from_driver, answering, resized,
}
use linapple.Disk.Untouched.{SameTrack, sequencer_steps-SameTrack}
use linapple.Disk.Rotation.{Turned, IsTurning}
use linapple.Disk.Spin.{sequencer_steps-Turned}
use linapple.Disk.Head.{KeepsMotor, active-with_active}

-- Whatever a driver answers, the motor keeps its time.
pub answering-KeepsMotor :
    (answer : TrackRead) (writes_bits is_taken : Bool)
    → KeepsMotor (answering answer writes_bits is_taken)
unfolding write_track_to_driver
answering-KeepsMotor answer writes_bits is_taken = record { keeps_motor = λ drive. ground arith }

resized_lem : (n : ℕ) (bytes : List ℕ) → resized n bytes ≡ bytes ++ replicate (n - length bytes) 0
unfolding resized
resized_lem zero [] = refl
resized_lem zero (byte ∷ bytes) =
    ap (λ (rest : List ℕ). byte ∷ rest) (resized_lem zero bytes)
    ∙ ap (λ (k : ℕ). (byte ∷ bytes) ++ replicate k 0) (omega arith)
resized_lem (suc n) [] =
    let all : n - 0 ≡ n = omega arith in
    let more : suc n ≡ suc n - 0 = omega arith in
    ap (λ (rest : List ℕ). 0 ∷ rest) (resized_lem n [] ∙ ap (λ (k : ℕ). replicate k 0) all)
    ∙ ap (λ (k : ℕ). replicate k 0) more
resized_lem (suc n) (byte ∷ bytes) =
    ap (λ (rest : List ℕ). byte ∷ rest) (resized_lem n bytes)
    ∙ ap (λ (k : ℕ). (byte ∷ bytes) ++ replicate k 0) (omega arith)

-- What the driver must answer, and where the head must be, for a track to come into the buffer.
pub record IsReadable (answer : TrackRead) (drive : Drive) : Type 0 where
  pub without_error : answer.succeeds ≡ true
  pub some_bits : 0 < answer.loaded_bits
  pub some_timing : 0 < answer.loaded_timing
  pub with_driver : drive.has_driver ≡ true
  pub on_disk : drive.quarter_track < quarter_tracks_per_disk

-- The bytes of a buffer, with 0 up to the size that a driver may fill.
abbrev pub padded : List ℕ → List ℕ
padded bytes = bytes ++ replicate (8704 - length bytes) 0

-- Where the head comes down on a track of `bits` cells: at the same angle and seven cells on, or at its
-- start where there was no track.
abbrev pub landing : Drive → ℕ → ℕ
landing drive bits =
    if drive.bit_count == 0 then 0 else (drive.bit_position * bits / drive.bit_count + 7) % bits

landing_first : (drive : Drive) (bits : ℕ) → (drive.bit_count == 0) ≡ true → 0 ≡ landing drive bits
landing_first drive bits h = rw h refl

landing_next :
    (drive : Drive) (bits : ℕ)
    → (drive.bit_count == 0) ≡ false
    → (drive.bit_position * bits / drive.bit_count + 7) % bits ≡ landing drive bits
landing_next drive bits h = rw h refl

-- The drive once the track is in the buffer.
record HasLoaded (answer : TrackRead) (before after : Drive) : Type 0 where
  loaded_flag : after.is_data_loaded ≡ true
  loaded_bytes : after.track_bits ≡ answer.filled (padded before.track_bits)
  loaded_dirty : after.is_dirty ≡ before.is_dirty
  loaded_at : after.bit_position ≡ landing before answer.loaded_bits
  loaded_count : after.bit_count ≡ answer.loaded_bits
  loaded_cell_time : after.bit_timing ≡ answer.loaded_timing
  loaded_remaining : after.cell_remaining ≡ 0

read_track_from_driver-HasLoaded :
    (answer : TrackRead) (drive : Drive)
    → IsReadable answer drive
    → HasLoaded answer drive (read_track_from_driver answer drive)
unfolding read_track_from_driver rescale_head_angle
read_track_from_driver-HasLoaded answer drive r =
    let loaded : (answer.loaded_bits == 0) ≡ false = ground (arith, r.some_bits) in
    let inside : leb quarter_tracks_per_disk drive.quarter_track ≡ false =
      ground (arith, r.on_disk) in
    let bytes = ap answer.filled (resized_lem 8704 drive.track_bits) in
    elim (Bool-cases (drive.bit_count == 0)) [
      | inl first ↦
          rw (inside, r.with_driver, r.without_error, loaded, first)
            (record {
              loaded_flag = refl;
              loaded_bytes = bytes;
              loaded_dirty = refl;
              loaded_at = landing_first drive answer.loaded_bits first;
              loaded_count = refl;
              loaded_cell_time = refl;
              loaded_remaining = refl;
            })
      | inr next ↦
          rw (inside, r.with_driver, r.without_error, loaded, next)
            (record {
              loaded_flag = refl;
              loaded_bytes = bytes;
              loaded_dirty = refl;
              loaded_at = landing_next drive answer.loaded_bits next;
              loaded_count = refl;
              loaded_cell_time = refl;
              loaded_remaining = refl;
            })
    ]

landing-lt : (drive : Drive) (bits : ℕ) → 0 < bits → landing drive bits < bits
landing-lt drive bits some =
    ground (arith, mod-lt (drive.bit_position * bits / drive.bit_count + 7) some)

HasLoaded-IsTurning :
    (answer : TrackRead) (before after : Drive)
    → IsReadable answer before
    → HasLoaded answer before after
    → IsTurning after
HasLoaded-IsTurning answer before after r l =
    let at = landing-lt before answer.loaded_bits r.some_bits in
    record {
      some_cells = rw l.loaded_count r.some_bits;
      some_time = rw l.loaded_cell_time r.some_timing;
      within_cell = rw (l.loaded_remaining, l.loaded_cell_time) r.some_timing;
      on_track = rw (l.loaded_at, l.loaded_count) at;
    }

-- The drive at the end of a run over a fresh track: the track is in the buffer as the driver filled it, and the
-- head is so many cells behind where it came down, around the track and within a cell, in `units` units of time.
pub record HasRun (answer : TrackRead) (units cells : ℕ) (before after : Drive) : Type 0 where
  pub run_flag : after.is_data_loaded ≡ true
  pub run_bytes : after.track_bits ≡ answer.filled (padded before.track_bits)
  pub run_dirty : after.is_dirty ≡ before.is_dirty
  pub run_count : after.bit_count ≡ answer.loaded_bits
  pub run_cell_time : after.bit_timing ≡ answer.loaded_timing
  pub run_position :
      after.bit_position ≡ (landing before answer.loaded_bits + cells) % answer.loaded_bits
  pub run_time : after.cell_remaining + units ≡ cells * answer.loaded_timing
  pub run_within : after.cell_remaining < answer.loaded_timing

loaded-HasRun :
    (answer : TrackRead) (units cells : ℕ) (before loaded after : Drive)
    → HasLoaded answer before loaded
    → Turned units cells loaded after
    → SameTrack loaded after
    → HasRun answer units cells before after
loaded-HasRun answer units cells before loaded after l t same = record {
  run_flag = same.same_loaded ∙ l.loaded_flag;
  run_bytes = same.same_bits ∙ l.loaded_bytes;
  run_dirty = same.same_dirty ∙ l.loaded_dirty;
  run_count = t.same_count ∙ l.loaded_count;
  run_cell_time = t.same_timing ∙ l.loaded_cell_time;
  run_position = t.turned_position ∙ ap₂ (λ p n. (p + cells) % n) l.loaded_at l.loaded_count;
  run_time =
      t.turned_time
      ∙ ap₂ (λ r v. r + cells * v) l.loaded_remaining l.loaded_cell_time
      ∙ omega arith;
  run_within = subst (λ v. after.cell_remaining < v) l.loaded_cell_time t.turned_within;
}

with_active-sequencer :
    (d : DiskPeripheral) (drive : Drive) → (with_active_drive d drive).sequencer ≡ d.sequencer
unfolding with_active_drive
with_active-sequencer d drive = ground arith

module _ (p6_opcode : ℕ → ℕ) (answer : TrackRead) (writes_bits is_taken : Bool) where
  -- What a run over a track that is not loaded comes to.
  loads-steps :
      (d : DiskPeripheral) (cycles : ℕ)
      → 0 < cycles
      → cycles < 2147483648
      → 0 < (get_active_drive d).motor_enable_cycles
      → (get_active_drive d).is_data_loaded ≡ false
      → (get_active_drive d).has_driver ≡ true
      → let ready = with_active_drive d (read_track_from_driver answer (get_active_drive d)) in
        let is_protected = is_disk_write_protected (get_active_drive ready) in
        run_sequencer_cycles p6_opcode (answering answer writes_bits is_taken) d cycles
        ≡ sequencer_steps p6_opcode is_protected
            (ready.sequencer.q7 && not is_protected)
            (cycles * 2)
            ready
  unfolding run_sequencer_cycles with_track
  loads-steps d cycles some h on fresh has_driver =
      let running : ((get_active_drive d).motor_enable_cycles == 0) ≡ false = ground arith in
      let started : (cycles == 0) ≡ false = ground arith in
      let whole : wrap32 (cycles * steps_per_cycle) ≡ cycles * 2 = mod-eq_of_lt (omega arith) in
      rw (started, running, fresh, has_driver, whole) refl

  -- Where the active drive's motor runs, its track is not loaded, its driver answers without an error with a
  -- track of some cells that take some time, for a quarter track of the disk, and the sequencer reads, a run of at
  -- least one and fewer than 2^31 cycles brings that track into the buffer: the bytes are what the driver made of
  -- the buffer, which has 0 up to 8704 bytes, and the track is marked as loaded. The head comes down at the angle it
  -- had on the track before and seven cells on, and the track then turns by eight units of time a cycle: some number
  -- of cells passes, and those, with the time that is left of the last, are the time that has gone.
  pub run_sequencer_cycles-loads :
      (d : DiskPeripheral) (cycles : ℕ)
      → 0 < cycles
      → cycles < 2147483648
      → 0 < (get_active_drive d).motor_enable_cycles
      → (get_active_drive d).is_data_loaded ≡ false
      → d.sequencer.q7 ≡ false
      → IsReadable answer (get_active_drive d)
      → (cells : ℕ) × HasRun answer (8 * cycles) cells (get_active_drive d) (
          get_active_drive
            (run_sequencer_cycles p6_opcode (answering answer writes_bits is_taken) d cycles))
  run_sequencer_cycles-loads d cycles some h on fresh reads readable =
      let drive = get_active_drive d in
      let read = read_track_from_driver answer drive in
      let ready = with_active_drive d read in
      let loaded : HasLoaded answer drive (get_active_drive ready) =
        rw (active-with_active d read) (read_track_from_driver-HasLoaded answer drive readable) in
      let is_protected = is_disk_write_protected (get_active_drive ready) in
      let (k, turned) =
        sequencer_steps-Turned p6_opcode is_protected false (cycles * 2) ready
          (HasLoaded-IsTurning answer drive (get_active_drive ready) readable loaded) in
      let same = sequencer_steps-SameTrack p6_opcode is_protected (cycles * 2) ready in
      let ran =
        loaded-HasRun answer (4 * (cycles * 2)) k drive (get_active_drive ready) _ loaded turned
          same in
      let reading : ready.sequencer.q7 ≡ false =
        ap (λ (q : DiskSequencer). q.q7) (with_active-sequencer d read) ∙ reads in
      let runs =
        loads-steps d cycles some h on fresh readable.with_driver
        ∙ ap
            (λ (q7 : Bool).
              sequencer_steps p6_opcode is_protected (q7 && not is_protected) (cycles * 2) ready)
            reading in
      let units : 4 * (cycles * 2) ≡ 8 * cycles = omega arith in
      (
        k,
        subst (λ (e : DiskPeripheral). HasRun answer (8 * cycles) k drive (get_active_drive e))
            (sym runs)
            (subst
              (λ u. HasRun answer u k drive (
                get_active_drive (sequencer_steps p6_opcode is_protected false (cycles * 2) ready)))
              units ran),
      )
