-- ===== src/Via/Interrupts.antt =====
-- When a timer raises its interrupt flag, and what enables the interrupt line.
use linapple.Common.{
  ℕ, zero, suc, ◌+◌, ◌-◌, ◌*◌, ◌<◌, ◌≤◌, ◌≡◌, refl, arith, false, ◌∙◌, bit_and, bit_and_or,
  bit_and_assoc, bit_or-zero, bit_and-zero, bit_and_or_self,
}
use linapple.Via.{
  Via6522, ifr_timer1, ifr_timer2, ticks_to_underflow, advance1, advance2, underflow1, underflow2,
  loop1, loop2, step_timer1, step_timer2, via_step, via_write, load_delay,
}
use linapple.Via.Words.{set_lo_lem, set_hi_lem}
use linapple.Via.Timing.{span-pos}

abbrev pub flag1 : Via6522 → ℕ
flag1 v = bit_and v.ifr ifr_timer1

underflow1-flag : (v : Via6522) → flag1 (underflow1 v) ≡ 0x40
unfolding underflow1
underflow1-flag v = bit_and_or_self v.ifr ifr_timer1

underflow2-flag : (v : Via6522) → flag1 (underflow2 v) ≡ flag1 v
unfolding underflow2
underflow2-flag v = bit_and_or v.ifr ifr_timer2 ifr_timer1 ∙ bit_or-zero (flag1 v)

loop2-flag : (f : ℕ) (v : Via6522) (n : ℕ) → flag1 (loop2 f v n) ≡ flag1 v
unfolding loop2 advance2
loop2-flag zero v n = refl
loop2-flag (suc f) v zero = refl
loop2-flag (suc f) v (suc n) =
    let span = ticks_to_underflow v.t2_counter v.t2_latch v.t2_phase in
    ground (
      arith,
      loop2-flag f (underflow2 (advance2 v span)) (suc n - span),
      underflow2-flag (advance2 v span),
    )

loop1-flag : (f : ℕ) (v : Via6522) (n : ℕ) → flag1 v ≡ 0x40 → flag1 (loop1 f v n) ≡ 0x40
unfolding loop1 advance1
loop1-flag zero v n h = h
loop1-flag (suc f) v zero h = h
loop1-flag (suc f) v (suc n) h =
    let span = ticks_to_underflow v.t1_counter v.t1_latch v.t1_phase in
    ground (
      arith,
      loop1-flag f (underflow1 (advance1 v span)) (suc n - span),
      underflow1-flag (advance1 v span),
    )

step2-flag : (v : Via6522) (n : ℕ) → flag1 (step_timer2 v n) ≡ flag1 v
unfolding step_timer2
step2-flag v n = ground (arith, loop2-flag n v n)

-- A timer that has not fired: its flag stays as it is until the counter's wrap, and is set from
-- then on.
step1-before :
    (v : Via6522) (n : ℕ)
    → v.t1_fired ≡ false
    → n < ticks_to_underflow v.t1_counter v.t1_latch v.t1_phase
    → flag1 (step_timer1 v n) ≡ flag1 v
unfolding step_timer1 loop1 advance1
step1-before v zero h k = refl
step1-before v (suc n) h k = ground arith

step1-after :
    (v : Via6522) (n : ℕ)
    → v.t1_fired ≡ false
    → ticks_to_underflow v.t1_counter v.t1_latch v.t1_phase ≤ n
    → flag1 (step_timer1 v n) ≡ 0x40
unfolding step_timer1 loop1
step1-after v zero h k = absurd (omega (arith, span-pos v.t1_counter v.t1_latch v.t1_phase))
step1-after v (suc n) h k =
    let span = ticks_to_underflow v.t1_counter v.t1_latch v.t1_phase in
    ground (
      arith,
      loop1-flag n (underflow1 (advance1 v span)) (suc n - span),
      underflow1-flag (advance1 v span),
    )

-- The chip once T1C-L and then T1C-H have been written.
abbrev pub loaded : Via6522 → ℕ → ℕ → Via6522
loaded v low high = via_write (via_write v 0x4 low) 0x5 high

loaded_lem :
    (v : Via6522) (low high : ℕ)
    → v.t1_latch < 65536
    → low < 256
    → high < 256
    → ((loaded v low high).t1_counter ≡ high * 256 + low)
      × ((loaded v low high).t1_phase ≡ load_delay)
      × ((loaded v low high).t1_fired ≡ false)
      × (flag1 (loaded v low high) ≡ 0)
unfolding via_write
loaded_lem v low high h hl hh = (
  set_hi_lem _ high hh ∙ omega (arith, set_lo_lem v.t1_latch low h hl),
  refl,
  refl,
  bit_and_assoc v.ifr 0xbf 0x40 ∙ bit_and-zero v.ifr,
)

loaded-span :
    (v : Via6522) (low high : ℕ)
    → v.t1_latch < 65536
    → low < 256
    → high < 256
    → let w = loaded v low high in
      ticks_to_underflow w.t1_counter w.t1_latch w.t1_phase ≡ high * 256 + low + 2
unfolding ticks_to_underflow via_write
loaded-span v low high h hl hh = omega (arith, loaded_lem v low high h hl hh)

-- After T1 is loaded with N its flag is down through cycle N + 1 and up from cycle N + 2 on,
-- in one-shot mode as in free run, whatever else the chip holds.
pub t1_flag_timing :
    (v : Via6522) (low high n : ℕ)
    → v.t1_latch < 65536
    → low < 256
    → high < 256
    → (n < high * 256 + low + 2 → flag1 (via_step (loaded v low high) n).0 ≡ 0)
      × (high * 256 + low + 2 ≤ n → flag1 (via_step (loaded v low high) n).0 ≡ 0x40)
unfolding via_step
t1_flag_timing v low high n h hl hh =
    let w = loaded v low high in
    let (_, _, armed, down) = loaded_lem v low high h hl hh in
    let span = loaded-span v low high h hl hh in
    (
      λ k. step2-flag (step_timer1 w n) n ∙ step1-before w n armed (rw span k) ∙ down,
      λ k. step2-flag (step_timer1 w n) n ∙ step1-after w n armed (rw span k),
    )
