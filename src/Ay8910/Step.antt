-- ===== src/Ay8910/Step.antt =====
-- Whole ticks of the chip: what every operation keeps, and how calls of `ay8910_step` join.

use linapple.Common.{
  ℕ, zero, suc, ◌+◌, ◌-◌, ◌*◌, ◌/◌, ◌%◌, ◌^◌, ◌<◌, ◌≤◌, ◌≡◌, refl, arith, ap, ◌∙◌, Bool, Bool-cases,
  inl, inr, ltb, leb, ◌==◌, ◌!=◌, if◌then◌else◌, if_both, bit_and, bit_or, bit_xor, bit_and_mask,
  bit_or_comm, bit_or_fields, bit_xor-lt, List, [], ◌∷◌, length, length-set,
}
use linapple.Ay8910.{
  Ay8910, ay8910_reset, advance_noise, step_envelope, ay8910_write, tick_tones, tick_noise,
  tick_envelope, tick, run, ay8910_step, reg_at, env_div,
}

-- The shift register of the noise is alive and has 17 bits, and the level is the one that the step
-- and the direction imply.
pub record IsWellFormed (p : Ay8910) : Type 0 where
  pub sixteen : length p.regs ≡ 16
  pub noise_alive : 0 < p.rng
  pub noise_fits : p.rng < 131072
  pub step_fits : p.envelope_step ≤ 15
  pub level_agrees :
      p.envelope_vol ≡ (if p.env_attack then p.envelope_step else 15 - p.envelope_step)

noise_bit : ℕ → ℕ
noise_bit r = bit_xor (bit_and r 1) (bit_and (r / 2 ^ 3) 1)

noise_bit-lt : (r : ℕ) → noise_bit r < 2
unfolding noise_bit
noise_bit-lt r =
    bit_xor-lt 1 (bit_and r 1) (bit_and (r / 2 ^ 3) 1) (omega (arith, bit_and_mask 1 r))
      (omega (arith, bit_and_mask 1 (r / 8)))

-- The register after a shift: the new bit stands above sixteen old ones.
shifted : (r : ℕ) → r < 131072 → bit_or (r / 2) (noise_bit r * 2 ^ 16) ≡ noise_bit r * 65536 + r / 2
shifted r h =
    bit_or_comm (r / 2) (noise_bit r * 2 ^ 16)
    ∙ bit_or_fields 16 (noise_bit r) (r / 2) (omega arith)

noise_bit_one : noise_bit 1 ≡ 1
unfolding noise_bit
noise_bit_one = refl

shifted-pos : (r : ℕ) → 0 < r → r < 131072 → 0 < bit_or (r / 2) (noise_bit r * 2 ^ 16)
shifted-pos r p h = elim (Bool-cases (r == 1)) [
  | inl one ↦
      let is_one : r ≡ 1 = ground arith in
      omega (arith, shifted r h, ap noise_bit is_one, noise_bit_one)
  | inr more ↦ let two : 2 ≤ r = ground arith in omega (arith, shifted r h)
]

advance_noise-IsWellFormed : (p : Ay8910) → IsWellFormed p → IsWellFormed (advance_noise p)
unfolding advance_noise noise_bit
advance_noise-IsWellFormed p w = record {
  sixteen = w.sixteen;
  noise_alive = shifted-pos p.rng w.noise_alive w.noise_fits;
  noise_fits = omega (arith, shifted p.rng w.noise_fits, noise_bit-lt p.rng);
  step_fits = w.step_fits;
  level_agrees = w.level_agrees;
}

step_envelope-IsWellFormed :
    (p : Ay8910) (cont alt hold : Bool)
    → IsWellFormed p
    → IsWellFormed (step_envelope p cont alt hold)
unfolding step_envelope
step_envelope-IsWellFormed p cont alt hold w = ground arith

tick_tones-IsWellFormed : (p : Ay8910) → IsWellFormed p → IsWellFormed (tick_tones p)
unfolding tick_tones
tick_tones-IsWellFormed p w = record {
  sixteen = w.sixteen;
  noise_alive = w.noise_alive;
  noise_fits = w.noise_fits;
  step_fits = w.step_fits;
  level_agrees = w.level_agrees;
}

tick_noise-IsWellFormed : (p : Ay8910) → IsWellFormed p → IsWellFormed (tick_noise p)
unfolding tick_noise
tick_noise-IsWellFormed p w =
    let cleared = record p { count_n = 0 } in
    let kept : IsWellFormed cleared = ground arith in
    ground (arith, advance_noise-IsWellFormed cleared kept)

tick_envelope-IsWellFormed : (p : Ay8910) → IsWellFormed p → IsWellFormed (tick_envelope p)
unfolding tick_envelope
tick_envelope-IsWellFormed p w =
    let cleared = record p { count_e = 0 } in
    let kept : IsWellFormed cleared = ground arith in
    let shape = reg_at p 13 in
    if_both IsWellFormed p.env_holding w (
      if_both IsWellFormed (leb (env_div p) ((p.count_e + 1) % 2 ^ 32))
        (step_envelope-IsWellFormed cleared (bit_and shape 0x08 != 0) (bit_and shape 0x02 != 0)
          (bit_and shape 0x01 != 0) kept)
        (ground arith))

tick-IsWellFormed : (p : Ay8910) → IsWellFormed p → IsWellFormed (tick p)
unfolding tick
tick-IsWellFormed p w =
    tick_envelope-IsWellFormed (tick_noise (tick_tones p))
      (tick_noise-IsWellFormed (tick_tones p) (tick_tones-IsWellFormed p w))

run-IsWellFormed : (n : ℕ) (p : Ay8910) → IsWellFormed p → IsWellFormed (run n p).0
unfolding run
run-IsWellFormed zero p w = w
run-IsWellFormed (suc n) p w = run-IsWellFormed n (tick p) (tick-IsWellFormed p w)

write-IsWellFormed :
    (p : Ay8910) (reg val : ℕ) → IsWellFormed p → IsWellFormed (ay8910_write p reg val)
unfolding ay8910_write
write-IsWellFormed p reg val w = ground (
  arith,
  length-set p.regs reg (bit_and val 0x0f),
  length-set p.regs reg (bit_and val 0x1f),
  length-set p.regs reg val,
)

pub data Operation : Type 0 where
  reset : Operation
  write : ℕ → ℕ → Operation
  step : ℕ → ℕ → Operation

unfoldable pub perform : Ay8910 → Operation → Ay8910
perform p reset = ay8910_reset
perform p (write reg val) = ay8910_write p reg val
perform p (step ticks max) = (ay8910_step p ticks max).0

unfoldable pub perform_all : List Operation → Ay8910 → Ay8910
perform_all [] p = p
perform_all (op ∷ ops) p = perform_all ops (perform p op)

perform-IsWellFormed : (p : Ay8910) (op : Operation) → IsWellFormed p → IsWellFormed (perform p op)
unfolding perform ay8910_step
perform-IsWellFormed p reset w = ground arith
perform-IsWellFormed p (write reg val) w = write-IsWellFormed p reg val w
perform-IsWellFormed p (step ticks max) w =
    run-IsWellFormed (if ltb ticks max then ticks else max) p w

all-IsWellFormed :
    (ops : List Operation) (p : Ay8910) → IsWellFormed p → IsWellFormed (perform_all ops p)
unfolding perform_all
all-IsWellFormed [] p w = w
all-IsWellFormed (op ∷ ops) p w = all-IsWellFormed ops (perform p op) (perform-IsWellFormed p op w)

-- However a chip is used from power-on, its noise register is neither zero nor wider than 17 bits,
-- and its envelope level is the one that the step and the direction imply.
pub perform_all-ay8910_reset-IsWellFormed :
    (ops : List Operation) → IsWellFormed (perform_all ops ay8910_reset)
perform_all-ay8910_reset-IsWellFormed ops = all-IsWellFormed ops ay8910_reset (ground arith)
