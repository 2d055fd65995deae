-- ===== src/Disk/Untouched.antt =====
-- The track in the buffer while the sequencer only reads (apple2/peripherals/disk/Disk.cpp).
use linapple.Common.{
  ℕ, zero, suc, ◌-◌, Bool, false, leb, ◌≡◌, refl, arith, ◌∙◌, Bool-cases, inl, inr,
}
use linapple.Disk.Drive.{Drive, DiskPeripheral, get_active_drive}
use linapple.Disk.Sequencer.{
  Head, read_cell, pass_cell, cell_loop, advance_medium_one_step, sequencer_step, sequencer_steps,
}
use linapple.Disk.Spin.{step-active}

-- The track in the buffer of one drive is that of the other.
pub record SameTrack (a b : Drive) : Type 0 where
  pub same_bits : b.track_bits ≡ a.track_bits
  pub same_loaded : b.is_data_loaded ≡ a.is_data_loaded
  pub same_dirty : b.is_dirty ≡ a.is_dirty
  pub same_quarter : b.quarter_track ≡ a.quarter_track

SameTrack-trans : (a b c : Drive) → SameTrack a b → SameTrack b c → SameTrack a c
SameTrack-trans a b c p q = record {
  same_bits = q.same_bits ∙ p.same_bits;
  same_loaded = q.same_loaded ∙ p.same_loaded;
  same_dirty = q.same_dirty ∙ p.same_dirty;
  same_quarter = q.same_quarter ∙ p.same_quarter;
}

kept-SameTrack : (a : Drive) → SameTrack a a
kept-SameTrack a = record {
  same_bits = refl;
  same_loaded = refl;
  same_dirty = refl;
  same_quarter = refl;
}

pass_cell-SameTrack : (h : Head) → SameTrack h.drive (pass_cell false h).drive
unfolding pass_cell read_cell
pass_cell-SameTrack h = ground arith

cell_loop-SameTrack :
    (fuel below : ℕ) (h : Head) → SameTrack h.drive (cell_loop false fuel below h).drive
unfolding cell_loop
cell_loop-SameTrack zero below h = kept-SameTrack h.drive
cell_loop-SameTrack (suc fuel) below h =
    let passed = pass_cell false h in
    let p = pass_cell-SameTrack h in
    elim (Bool-cases (leb below passed.drive.bit_timing)) [
      | inl last ↦ rw last (record {
        same_bits = p.same_bits;
        same_loaded = p.same_loaded;
        same_dirty = p.same_dirty;
        same_quarter = p.same_quarter;
      })
      | inr more ↦
          let rest = cell_loop-SameTrack fuel (below - passed.drive.bit_timing) passed in
          rw more (SameTrack-trans h.drive passed.drive _ p rest)
    ]

advance-SameTrack : (h : Head) → SameTrack h.drive (advance_medium_one_step false h).drive
unfolding advance_medium_one_step
advance-SameTrack h =
    let below = 4 - h.drive.cell_remaining in
    ground (arith, cell_loop-SameTrack below below (record h { pulse = false }))

-- Steps that may not write leave the track in the buffer.
pub sequencer_steps-SameTrack :
    (p6_opcode : ℕ → ℕ) (is_protected : Bool) (n : ℕ) (d : DiskPeripheral)
    → SameTrack
        (get_active_drive d)
        (get_active_drive (sequencer_steps p6_opcode is_protected false n d))
unfolding sequencer_steps
sequencer_steps-SameTrack p6_opcode is_protected zero d = kept-SameTrack (get_active_drive d)
sequencer_steps-SameTrack p6_opcode is_protected (suc n) d =
    let next = sequencer_step p6_opcode is_protected false d in
    let first : SameTrack (get_active_drive d) (get_active_drive next) =
      rw (step-active p6_opcode is_protected false d) (advance-SameTrack _) in
    SameTrack-trans (get_active_drive d) (get_active_drive next) _ first
      (sequencer_steps-SameTrack p6_opcode is_protected n next)
