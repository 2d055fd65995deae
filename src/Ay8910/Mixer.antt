-- ===== src/Ay8910/Mixer.antt =====
-- What the samples of `ay8910_step` are, from the data sheet's mixer and level registers.
use native.Mathlib.Nat.{one-le-pow}
use linapple.Common.{
  ℕ, zero, suc, ◌*◌, ◌+◌, ◌/◌, ◌%◌, ◌^◌, ◌<◌, ◌≡◌, refl, arith, Bool, true, false, ltb, leb, ◌==◌,
  ◌!=◌, ◌||◌, ◌&&◌, if◌then◌else◌, bit_and, bit_xor, bit_xor-lt, bit_and_bit, bit_and_mask, List,
  [], ◌∷◌, length, get_or, ◌∙◌, ap, ap₂, not, Bool-cases, inl, inr,
}
use linapple.Ay8910.{
  Ay8910, reg_at, vol_table, step_tone, tone_period, advance_noise, refresh_envelope_vol, hold_at,
  step_envelope, voice_level, tick_tones, tick_noise, tick_envelope, tick, samples, run,
  ay8910_step,
}
use linapple.Ay8910.Samples.{length-run}

-- A bit of a register.
abbrev pub is_on : ℕ → ℕ → Bool
is_on value bit = value / 2 ^ bit % 2 == 1

-- The data sheet's voice. Bit `voice` of register 7 turns its tone off and bit `voice + 3` its noise, and
-- what is off does not hold the voice back; it sounds when neither the square wave nor the noise is
-- low. Bit 4 of its level register hands the strength to the envelope, else the low four bits have it.
pub mixed : Ay8910 → ℕ → ℕ → ℕ
mixed p voice tone =
    let enable = reg_at p 7 in
    let level = reg_at p (8 + voice) in
    let strength = if is_on level 4 then p.envelope_vol % 16 else level % 16 in
    if (is_on enable voice || tone == 1) && (is_on enable (voice + 3) || p.out_n == 1)
    then get_or vol_table strength 0
    else 0

-- The outputs of the tones and of the noise are bits.
pub record HasBits (p : Ay8910) : Type 0 where
  pub bit_a : p.out_a < 2
  pub bit_b : p.out_b < 2
  pub bit_c : p.out_c < 2
  pub bit_n : p.out_n < 2

test_bit : (value bit : ℕ) → (bit_and value (1 * 2 ^ bit) != 0) ≡ is_on value bit
test_bit value bit = elim (Bool-cases (is_on value bit)) [
  | inl up ↦
      let one : value / 2 ^ bit % 2 ≡ 1 = ground arith in
      ground (arith, bit_and_bit bit value ∙ ap (λ b. b * 2 ^ bit) one, one-le-pow bit 2)
  | inr down ↦
      let none : value / 2 ^ bit % 2 ≡ 0 = ground arith in
      ground (arith, bit_and_bit bit value ∙ ap (λ b. b * 2 ^ bit) none)
]

-- Two bits are both set.
both_bits : (t n : ℕ) → t < 2 → n < 2 → (bit_and t n == 0) ≡ not (t == 1 && n == 1)
both_bits zero zero h k = refl
both_bits zero (suc zero) h k = refl
both_bits (suc zero) zero h k = refl
both_bits (suc zero) (suc zero) h k = refl
both_bits zero (suc (suc n)) h k = absurd (omega arith)
both_bits (suc zero) (suc (suc n)) h k = absurd (omega arith)
both_bits (suc (suc t)) n h k = absurd (omega arith)

gates :
    (tone noise : ℕ) (tone_off noise_off : Bool)
    → tone < 2
    → noise < 2
    → (bit_and (if tone_off then 1 else tone) (if noise_off then 1 else noise) == 0)
      ≡ not ((tone_off || tone == 1) && (noise_off || noise == 1))
gates tone noise true true t n = refl
gates tone noise true false t n = both_bits 1 noise (omega arith) n
gates tone noise false true t n = both_bits tone 1 t (omega arith)
gates tone noise false false t n = both_bits tone noise t n

if_not : (b : Bool) (x y : ℕ) → (if not b then x else y) ≡ (if b then y else x)
if_not true x y = refl
if_not false x y = refl

strength_lem :
    (level volume : ℕ)
    → bit_and (if bit_and level 0x10 != 0 then volume else bit_and level 0x0f) 0x0f
      ≡ (if is_on level 4 then volume % 16 else level % 16)
strength_lem level volume = ground (
  arith,
  test_bit level 4,
  bit_and_mask 4 volume,
  bit_and_mask 4 level,
  bit_and_mask 4 (bit_and level 0x0f),
)

voice_level_cases :
    (p : Ay8910) (tone : ℕ) (tone_off noise_off : Bool) (level : ℕ)
    → tone < 2
    → p.out_n < 2
    → voice_level p tone tone_off noise_off level ≡ (
        if (tone_off || tone == 1) && (noise_off || p.out_n == 1)
        then get_or vol_table (if is_on level 4 then p.envelope_vol % 16 else level % 16) 0
        else 0)
unfolding voice_level
voice_level_cases p tone tone_off noise_off level t n =
    let loud =
      get_or vol_table
        (bit_and (if bit_and level 0x10 != 0 then p.envelope_vol else bit_and level 0x0f) 0x0f) 0 in
    let sounds = (tone_off || tone == 1) && (noise_off || p.out_n == 1) in
    ap (λ (shut : Bool). if shut then 0 else loud) (gates tone p.out_n tone_off noise_off t n)
    ∙ if_not sounds 0 loud
    ∙ ap (λ (v : ℕ). if sounds then get_or vol_table v 0 else 0) (strength_lem level p.envelope_vol)

voice_level-mixed :
    (p : Ay8910) (voice tone : ℕ)
    → tone < 2
    → p.out_n < 2
    → voice_level p tone
        (bit_and (reg_at p 7) (1 * 2 ^ voice) != 0)
        (bit_and (reg_at p 7) (1 * 2 ^ (voice + 3)) != 0)
        (reg_at p (8 + voice))
      ≡ mixed p voice tone
unfolding mixed
voice_level-mixed p voice tone t n =
    ap₂ (λ (off quiet : Bool). voice_level p tone off quiet (reg_at p (8 + voice)))
      (test_bit (reg_at p 7) voice) (test_bit (reg_at p 7) (voice + 3))
    ∙ voice_level_cases p tone _ _ (reg_at p (8 + voice)) t n

flipped : (out : ℕ) → out < 2 → bit_xor out 1 < 2
flipped out h = bit_xor-lt 1 out 1 h (omega arith)

step_tone-bit : (count out period : ℕ) → out < 2 → (step_tone (count, out) period).1 < 2
unfolding step_tone
step_tone-bit count out period h = ground (arith, flipped out h)

tick_tones-HasBits : (p : Ay8910) → HasBits p → HasBits (tick_tones p)
unfolding tick_tones
tick_tones-HasBits p b = record {
  bit_a = step_tone-bit p.count_a p.out_a (tone_period (reg_at p 0) (reg_at p 1)) b.bit_a;
  bit_b = step_tone-bit p.count_b p.out_b (tone_period (reg_at p 2) (reg_at p 3)) b.bit_b;
  bit_c = step_tone-bit p.count_c p.out_c (tone_period (reg_at p 4) (reg_at p 5)) b.bit_c;
  bit_n = b.bit_n;
}

tick_noise-HasBits : (p : Ay8910) → HasBits p → HasBits (tick_noise p)
unfolding tick_noise advance_noise
tick_noise-HasBits p b = ground (arith, flipped p.out_n b.bit_n)

tick_envelope-HasBits : (p : Ay8910) → HasBits p → HasBits (tick_envelope p)
unfolding tick_envelope step_envelope refresh_envelope_vol hold_at
tick_envelope-HasBits p b = ground arith

tick-HasBits : (p : Ay8910) → HasBits p → HasBits (tick p)
unfolding tick
tick-HasBits p b = tick_envelope-HasBits _ (tick_noise-HasBits _ (tick_tones-HasBits p b))

-- The three samples of a tick, from the chip after it.
abbrev pub IsMixed : Ay8910 → ℕ × ℕ × ℕ → Type 0
IsMixed p s = (s.0 ≡ mixed p 0 p.out_a) × (s.1 ≡ mixed p 1 p.out_b) × (s.2 ≡ mixed p 2 p.out_c)

samples-IsMixed : (p : Ay8910) → HasBits p → IsMixed p (samples p)
unfolding samples
samples-IsMixed p b = (
  voice_level-mixed p 0 p.out_a b.bit_a b.bit_n,
  voice_level-mixed p 1 p.out_b b.bit_b b.bit_n,
  voice_level-mixed p 2 p.out_c b.bit_c b.bit_n,
)

-- Samples of ticks that follow one another.
abbrev pub AllMixed : Ay8910 → List (ℕ × ℕ × ℕ) → Type 0
AllMixed p [] = Unit
AllMixed p (s ∷ rest) = IsMixed (tick p) s × AllMixed (tick p) rest

run-AllMixed : (n : ℕ) (p : Ay8910) → HasBits p → AllMixed p (run n p).1 × HasBits (run n p).0
unfolding run
run-AllMixed zero p b = (tt, b)
run-AllMixed (suc n) p b =
    let b' = tick-HasBits p b in
    let (rest, end) = run-AllMixed n (tick p) b' in ((samples-IsMixed (tick p) b', rest), end)

-- From a chip whose tones and noise put out bits, ay8910_step writes one sample of every voice for every tick, as
-- far as the buffers go, and each is what the mixer and the level registers say of the chip after that tick: 0
-- while a tone or a noise that is on is low, else the amplitude of the envelope's level or of the fixed one.
-- The tones and the noise of the chip that it leaves put out bits.
pub ay8910_step-AllMixed :
    (p : Ay8910) (ticks max : ℕ)
    → HasBits p
    → AllMixed p (ay8910_step p ticks max).1
      × HasBits (ay8910_step p ticks max).0
      × (length (ay8910_step p ticks max).1 ≡ (if leb ticks max then ticks else max))
unfolding ay8910_step
ay8910_step-AllMixed p ticks max b =
    let count = if ltb ticks max then ticks else max in
    let (all, bits) = run-AllMixed count p b in (all, bits, length-run count p ∙ ground arith)
