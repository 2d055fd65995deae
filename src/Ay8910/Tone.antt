-- ===== src/Ay8910/Tone.antt =====
-- The tone generators: a square wave whose half period is the period register.
use native.Mathlib.Nat.{
  mul-add-div, div-eq_of_lt, mul-add-mod_self_left, mod-eq_of_lt, div-add-mod, mod-lt,
}
use linapple.Common.{
  ℕ, zero, suc, ◌+◌, ◌-◌, ◌*◌, ◌/◌, ◌%◌, ◌<◌, ◌≡◌, refl, arith, Bool-cases, ltb, ap, ap₂, inl, inr,
  ◌⊎◌, ◌∙◌, sym, bit_xor,
}
use linapple.Ay8910.{step_tone}

unfoldable pub tone_steps : ℕ → ℕ × ℕ → ℕ → ℕ × ℕ
tone_steps zero s period = s
tone_steps (suc n) s period = step_tone (tone_steps n s period) period

flip : ℕ → ℕ
flip out = 1 - out

flip_lem : (out : ℕ) → out < 2 → bit_xor out 1 ≡ 1 - out
flip_lem zero h = refl
flip_lem (suc zero) h = refl
flip_lem (suc (suc out)) h = absurd (omega arith)

div_of : (p q r : ℕ) → r < p → (p * q + r) / p ≡ q
div_of p q r h = mul-add-div {m = p} (omega arith) q r ∙ omega (arith, div-eq_of_lt h)

mod_of : (p q r : ℕ) → r < p → (p * q + r) % p ≡ r
mod_of p q r h = mul-add-mod_self_left p q r ∙ mod-eq_of_lt h

next_tick :
    (p n : ℕ)
    → 0 < p
    → ((n % p + 1 < p) × (suc n % p ≡ n % p + 1) × (suc n / p ≡ n / p))
      ⊎ ((n % p + 1 ≡ p) × (suc n % p ≡ 0) × (suc n / p ≡ n / p + 1))
next_tick p n h = elim (Bool-cases (ltb (n % p + 1) p)) [
  | inl below ↦
      let fits : n % p + 1 < p = ground arith in
      let whole : suc n ≡ p * (n / p) + (n % p + 1) = omega (arith, div-add-mod n p) in
      inl (
        fits,
        ap (λ (t : ℕ). t % p) whole ∙ mod_of p (n / p) (n % p + 1) fits,
        ap (λ (t : ℕ). t / p) whole ∙ div_of p (n / p) (n % p + 1) fits,
      )
  | inr above ↦
      let last : n % p + 1 ≡ p = ground (arith, mod-lt n h) in
      let whole : suc n ≡ p * (n / p + 1) + 0 = omega (arith, div-add-mod n p) in
      inr (
        last,
        ap (λ (t : ℕ). t % p) whole ∙ mod_of p (n / p + 1) 0 h,
        ap (λ (t : ℕ). t / p) whole ∙ div_of p (n / p + 1) 0 h,
      )
]

step_within :
    (p count out : ℕ) → p < 65536 → count + 1 < p → step_tone (count, out) p ≡ (count + 1, out)
unfolding step_tone
step_within p count out k w = ground arith

step_wraps :
    (p count out : ℕ)
    → 0 < p
    → p < 65536
    → count + 1 ≡ p
    → out < 2
    → step_tone (count, out) p ≡ (0, 1 - out)
unfolding step_tone
step_wraps p count out h k w o = ground (arith, flip_lem out o)

-- n ticks after a counter stands at zero, the output has toggled once for each full period, and the
-- counter holds the ticks since.
pub tone_square_wave :
    (period out n : ℕ)
    → 0 < period
    → period < 65536
    → out < 2
    → tone_steps n (0, out) period ≡ (n % period, (out + n / period) % 2)
unfolding tone_steps
tone_square_wave period out zero h k o = ap₂ (λ (a b : ℕ). (a, b)) (ground arith) (ground arith)
tone_square_wave period out (suc n) h k o = elim (next_tick period n h) [
  | inl within ↦
      ap (λ (s : ℕ × ℕ). step_tone s period) (tone_square_wave period out n h k o)
      ∙ step_within period (n % period) ((out + n / period) % 2) k within.0
      ∙ ap₂ (λ (a b : ℕ). (a, b)) (sym within.1) (omega (arith, within.2))
  | inr wraps ↦
      ap (λ (s : ℕ × ℕ). step_tone s period) (tone_square_wave period out n h k o)
      ∙ step_wraps period (n % period) ((out + n / period) % 2) h k wraps.0 (omega arith)
      ∙ ap₂ (λ (a b : ℕ). (a, b)) (sym wraps.1) (omega (arith, wraps.2))
]
