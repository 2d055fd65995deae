-- ===== src/Ay8910.antt =====
-- The AY-3-8910 sound generator: src/apple2/chips/AY8910.cpp and AY8910.h.
-- The chip is a record. A sample is the numerator of its `float`, which the source divides by
-- `vol_full_scale`, and the three output arrays are a list of triples, one for each tick. Pointers
-- are never null here.
pub mod Envelope
pub mod Tone
pub mod Step
pub mod Samples
pub mod Mixer
mod Tests
use linapple.Common.{
  ℕ, zero, suc, ◌+◌, ◌-◌, ◌*◌, ◌/◌, ◌%◌, ◌^◌, bit_and, bit_or, bit_xor, Bool, true, false, not,
  ◌&&◌, ◌||◌, ltb, leb, ◌==◌, ◌!=◌, if◌then◌else◌, List, [], ◌∷◌, get_or, set, replicate,
}

pub record Ay8910 : Type 0 where
  pub regs : List ℕ
  pub count_a : ℕ
  pub count_b : ℕ
  pub count_c : ℕ
  pub out_a : ℕ
  pub out_b : ℕ
  pub out_c : ℕ
  pub count_n : ℕ
  pub rng : ℕ
  pub out_n : ℕ
  pub count_e : ℕ
  pub envelope_step : ℕ
  pub envelope_vol : ℕ
  pub env_holding : Bool
  pub env_attack : Bool

-- The member initialisers of `Ay8910`, which `ay8910_reset` assigns.
abbrev pub ay8910_reset : Ay8910
ay8910_reset = record {
  regs = replicate 16 0;
  count_a = 0;
  count_b = 0;
  count_c = 0;
  out_a = 0;
  out_b = 0;
  out_c = 0;
  count_n = 0;
  rng = 1;
  out_n = 0;
  count_e = 0;
  envelope_step = 0;
  envelope_vol = 15;
  env_holding = false;
  env_attack = false;
}

abbrev pub vol_full_scale : ℕ
vol_full_scale = 18776

abbrev pub vol_table : List ℕ
vol_table =
    0 ∷ 103 ∷ 150 ∷ 218 ∷ 316 ∷ 458 ∷ 665 ∷ 963 ∷ 1396 ∷ 2023 ∷ 2933 ∷ 4251 ∷ 6163 ∷ 8934 ∷ 12952
    ∷ 18776 ∷ []

pub tone_period : ℕ → ℕ → ℕ
tone_period fine coarse = bit_or fine (bit_and coarse 0x0f * 2 ^ 8) % 65536

-- A tone counter and its output.
pub step_tone : ℕ × ℕ → ℕ → ℕ × ℕ
step_tone (count, out) period =
    let next = (count + 1) % 65536 in
    if period == 0 then (count, 1) else if leb period next then (0, bit_xor out 1) else (next, out)

pub advance_noise : Ay8910 → Ay8910
advance_noise p = record p {
  out_n =
      if bit_xor (bit_and ((p.rng + 1) % 2 ^ 32) 2) (bit_and p.rng 1) != 0
      then bit_xor p.out_n 1
      else p.out_n;
  rng = bit_or (p.rng / 2) (bit_xor (bit_and p.rng 1) (bit_and (p.rng / 2 ^ 3) 1) * 2 ^ 16);
}

pub refresh_envelope_vol : Ay8910 → Ay8910
refresh_envelope_vol p = record p {
  envelope_vol = if p.env_attack then p.envelope_step else 15 - p.envelope_step;
}

pub hold_at : Ay8910 → ℕ → Ay8910
hold_at p amplitude = record p {
  env_holding = true;
  envelope_step = if p.env_attack then amplitude else 15 - amplitude;
}

abbrev pub differ_bool : Bool → Bool → Bool
differ_bool true b = not b
differ_bool false b = b

pub step_envelope : Ay8910 → Bool → Bool → Bool → Ay8910
unfolding refresh_envelope_vol hold_at
step_envelope p cont alt hold =
    let q = record p { envelope_step = p.envelope_step + 1 } in
    if leb q.envelope_step 15
    then refresh_envelope_vol q
    else refresh_envelope_vol (
        if not cont
        then hold_at q 0
        else if hold
        then hold_at q (if differ_bool q.env_attack alt then 15 else 0)
        else record q {
          envelope_step = 0;
          env_attack = if alt then not q.env_attack else q.env_attack;
        })

pub voice_level : Ay8910 → ℕ → Bool → Bool → ℕ → ℕ
voice_level p tone_out tone_off noise_off amplitude =
    let tone = if tone_off then 1 else tone_out in
    let noise = if noise_off then 1 else p.out_n in
    let vol = if bit_and amplitude 0x10 != 0 then p.envelope_vol else bit_and amplitude 0x0f in
    if bit_and tone noise == 0 then 0 else get_or vol_table (bit_and vol 0x0f) 0

-- The registers by how a write to them is treated.
pub ay8910_write : Ay8910 → ℕ → ℕ → Ay8910
unfolding refresh_envelope_vol
ay8910_write p reg val =
    let stored = λ (v : ℕ). record p { regs = set p.regs reg v } in
    let shaped = record p {
      regs = set p.regs reg (bit_and val 0x0f);
      count_e = 0;
      envelope_step = 0;
      env_holding = false;
      env_attack = bit_and val 0x04 != 0;
    } in
    if leb 16 reg
    then p
    else if reg == 1 || reg == 3 || reg == 5
    then stored (bit_and val 0x0f)
    else if reg == 6 || reg == 8 || reg == 9 || reg == 10
    then stored (bit_and val 0x1f)
    else if reg == 13
    then refresh_envelope_vol shaped
    else stored val

abbrev pub reg_at : Ay8910 → ℕ → ℕ
reg_at p i = get_or p.regs i 0

-- Both divisors of `ay8910_step`: twice the period, where a period of zero counts as one.
abbrev pub divisor : ℕ → ℕ
divisor period = 2 * (if period != 0 then period else 1)

pub noise_div : Ay8910 → ℕ
noise_div p = divisor (bit_and (reg_at p 6) 0x1f)

pub env_div : Ay8910 → ℕ
env_div p = divisor (bit_or (reg_at p 11) (reg_at p 12 * 2 ^ 8))

pub tick_tones : Ay8910 → Ay8910
unfolding step_tone tone_period
tick_tones p =
    let (count_a, out_a) = step_tone (p.count_a, p.out_a) (tone_period (reg_at p 0) (reg_at p 1)) in
    let (count_b, out_b) = step_tone (p.count_b, p.out_b) (tone_period (reg_at p 2) (reg_at p 3)) in
    let (count_c, out_c) = step_tone (p.count_c, p.out_c) (tone_period (reg_at p 4) (reg_at p 5)) in
    record p {
      count_a = count_a;
      out_a = out_a;
      count_b = count_b;
      out_b = out_b;
      count_c = count_c;
      out_c = out_c;
    }

pub tick_noise : Ay8910 → Ay8910
unfolding advance_noise noise_div
tick_noise p =
    let n = (p.count_n + 1) % 2 ^ 32 in
    if leb (noise_div p) n
    then advance_noise (record p { count_n = 0 })
    else record p { count_n = n }

pub tick_envelope : Ay8910 → Ay8910
unfolding step_envelope env_div
tick_envelope p =
    let n = (p.count_e + 1) % 2 ^ 32 in
    let shape = reg_at p 13 in
    if p.env_holding
    then p
    else if leb (env_div p) n
    then step_envelope (record p { count_e = 0 }) (bit_and shape 0x08 != 0)
        (bit_and shape 0x02 != 0) (bit_and shape 0x01 != 0)
    else record p { count_e = n }

-- One round of the loop of `ay8910_step`, and the samples that it stores.
pub tick : Ay8910 → Ay8910
tick p = tick_envelope (tick_noise (tick_tones p))

pub samples : Ay8910 → ℕ × ℕ × ℕ
samples p =
    let enable = reg_at p 7 in
    (
      voice_level p p.out_a (bit_and enable 0x01 != 0) (bit_and enable 0x08 != 0) (reg_at p 8),
      voice_level p p.out_b (bit_and enable 0x02 != 0) (bit_and enable 0x10 != 0) (reg_at p 9),
      voice_level p p.out_c (bit_and enable 0x04 != 0) (bit_and enable 0x20 != 0) (reg_at p 10),
    )

pub run : ℕ → Ay8910 → Ay8910 × List (ℕ × ℕ × ℕ)
run zero p = (p, [])
run (suc n) p = let q = tick p in let (final, rest) = run n q in (final, samples q ∷ rest)

pub ay8910_step : Ay8910 → ℕ → ℕ → Ay8910 × List (ℕ × ℕ × ℕ)
ay8910_step p ticks max = run (if ltb ticks max then ticks else max) p
