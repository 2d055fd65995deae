-- ===== src/Ay8910/Envelope.antt =====
-- The envelope generator against the shapes that the data sheet draws.
use linapple.Common.{
  ℕ, zero, suc, ◌-◌, ◌/◌, ◌%◌, ◌≤◌, ◌≡◌, arith, Bool, false, not, ◌&&◌, ◌||◌, ltb, leb, ◌==◌, ◌!=◌,
  if◌then◌else◌, bit_and,
}
use linapple.Ay8910.{Ay8910, differ_bool, step_envelope, ay8910_write}

-- The level of the envelope n steps after a write of the shape, by the data sheet's figure: a
-- first sweep up or down, and then silence, a held level, sweeps of the same direction or of
-- alternating ones.
unfoldable pub shape_level : Bool → Bool → Bool → Bool → ℕ → ℕ
shape_level cont attack alt hold n =
    let ramp = λ (up : Bool). if up then n % 16 else 15 - n % 16 in
    if ltb n 16
    then ramp attack
    else if not cont
    then 0
    else if hold
    then (if differ_bool attack alt then 15 else 0)
    else ramp (if alt && n / 16 % 2 == 1 then not attack else attack)

-- `n` envelope steps, as the loop of `ay8910_step` makes them.
unfoldable pub envelope_steps : Bool → Bool → Bool → ℕ → Ay8910 → Ay8910
envelope_steps cont alt hold zero p = p
envelope_steps cont alt hold (suc n) p =
    let q = envelope_steps cont alt hold n p in
    if q.env_holding then q else step_envelope q cont alt hold

-- The state of the generator n steps after the write.
record After (cont attack alt hold : Bool) (n : ℕ) (p : Ay8910) : Type 0 where
  level : p.envelope_vol ≡ shape_level cont attack alt hold n
  agrees : p.envelope_vol ≡ (if p.env_attack then p.envelope_step else 15 - p.envelope_step)
  bounded : p.envelope_step ≤ 15
  sweeping : p.env_holding ≡ false → p.envelope_step ≡ n % 16
  direction :
      p.env_holding ≡ false → p.env_attack ≡ (if alt && n / 16 % 2 == 1 then not attack else attack)
  holds : p.env_holding ≡ (leb 16 n && (not cont || hold))

After-step :
    (cont attack alt hold : Bool) (n : ℕ) (p : Ay8910)
    → After cont attack alt hold n p
    → After cont attack alt hold
        (suc n)
        (if p.env_holding then p else step_envelope p cont alt hold)
unfolding step_envelope shape_level
After-step cont attack alt hold n p h = ground arith

After-steps :
    (cont attack alt hold : Bool) (n : ℕ) (p : Ay8910)
    → After cont attack alt hold 0 p
    → After cont attack alt hold n (envelope_steps cont alt hold n p)
unfolding envelope_steps
After-steps cont attack alt hold zero p h = h
After-steps cont attack alt hold (suc n) p h =
    After-step cont attack alt hold n (envelope_steps cont alt hold n p)
      (After-steps cont attack alt hold n p h)

After-write :
    (cont alt hold : Bool) (p : Ay8910) (val : ℕ)
    → After cont (bit_and val 0x04 != 0) alt hold 0 (ay8910_write p 13 val)
unfolding ay8910_write shape_level
After-write cont alt hold p val = ground arith

-- After a write of any shape, the level is the data sheet's at every envelope step, whatever state
-- the chip was in before.
pub envelope_follows_shape :
    (p : Ay8910) (val n : ℕ)
    → let cont = bit_and val 0x08 != 0 in
      let attack = bit_and val 0x04 != 0 in
      let alt = bit_and val 0x02 != 0 in
      let hold = bit_and val 0x01 != 0 in
      (envelope_steps cont alt hold n (ay8910_write p 13 val)).envelope_vol
      ≡ shape_level cont attack alt hold n
envelope_follows_shape p val n =
    let cont = bit_and val 0x08 != 0 in
    let alt = bit_and val 0x02 != 0 in
    let hold = bit_and val 0x01 != 0 in
    (After-steps cont (bit_and val 0x04 != 0) alt hold n (ay8910_write p 13 val)
      (After-write cont alt hold p val)).level
