-- ===== src/Ay8910/Tests.antt =====
-- Runs of the sound generator, and the theorems at inputs that meet their hypotheses.
use linapple.Common.{
  true, false, ◌+◌, ◌/◌, ◌%◌, ◌≡◌, refl, arith, ◌!=◌, List, [], ◌∷◌, bit_and, length, leb,
  if◌then◌else◌,
}
use linapple.Ay8910.{ay8910_reset, ay8910_write, ay8910_step}
use linapple.Ay8910.Envelope.{shape_level, envelope_steps, envelope_follows_shape}
use linapple.Ay8910.Tone.{tone_steps, tone_square_wave}
use linapple.Ay8910.Step.{
  IsWellFormed, Operation, perform_all, perform_all-ay8910_reset-IsWellFormed,
}
use linapple.Ay8910.Mixer.{HasBits, AllMixed, ay8910_step-AllMixed}

-- Shape 0xE is a triangle: 3 steps into its second sweep, which falls.
triangle : shape_level true true true false 19 ≡ 12
unfolding shape_level
triangle = refl

envelope_follows_shape_example :
    (envelope_steps
      (bit_and 0xe 0x08 != 0)
      (bit_and 0xe 0x02 != 0)
      (bit_and 0xe 0x01 != 0)
      19
      (ay8910_write ay8910_reset 13 0xe)).envelope_vol
    ≡ shape_level
        (bit_and 0xe 0x08 != 0)
        (bit_and 0xe 0x04 != 0)
        (bit_and 0xe 0x02 != 0)
        (bit_and 0xe 0x01 != 0)
        19
envelope_follows_shape_example = envelope_follows_shape ay8910_reset 0xe 19

tone_square_wave_example : tone_steps 7 (0, 1) 3 ≡ (7 % 3, (1 + 7 / 3) % 2)
tone_square_wave_example = tone_square_wave 3 1 7 (omega arith) (omega arith) (omega arith)

abbrev music : List Operation
music = Operation.write 13 0xe ∷ Operation.write 0 20 ∷ Operation.step 40 64 ∷ []

perform_all-ay8910_reset-IsWellFormed_example : IsWellFormed (perform_all music ay8910_reset)
perform_all-ay8910_reset-IsWellFormed_example = perform_all-ay8910_reset-IsWellFormed music

reset-HasBits : HasBits ay8910_reset
reset-HasBits = record {
  bit_a = omega arith;
  bit_b = omega arith;
  bit_c = omega arith;
  bit_n = omega arith;
}

ay8910_step-AllMixed_example :
    AllMixed ay8910_reset (ay8910_step ay8910_reset 5 8).1
    × HasBits (ay8910_step ay8910_reset 5 8).0
    × (length (ay8910_step ay8910_reset 5 8).1 ≡ (if leb 5 8 then 5 else 8))
ay8910_step-AllMixed_example = ay8910_step-AllMixed ay8910_reset 5 8 reset-HasBits
