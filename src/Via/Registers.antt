-- ===== src/Via/Registers.antt =====
-- The register file: the ranges of its fields, what is read back, and the interrupt line.
use linapple.Common.{
  ℕ, zero, suc, ◌+◌, ◌-◌, ◌*◌, ◌^◌, ◌<◌, ◌≡◌, refl, ap, arith, false, ◌∙◌, bit_and, bit_and-lt,
  bit_or-lt, bit_and-zero, bit_and_mask, bit_and_high, if_both, List, [], ◌∷◌,
}
use linapple.Via.{
  Via6522, Reg, ifr_timer1, ifr_timer2, ifr_mask, advance1, advance2, underflow1, underflow2, loop1,
  loop2, ticks_to_underflow, step_timer1, step_timer2, via_step, via_irq, via_write, via_read,
  via_reset, reg_of, write_reg, read_reg, lo, set_lo, set_hi, t1c_l, t1c_h, t1l_h, t2c_l, t2c_h,
}
use linapple.Via.Words.{lo_lem, set_lo_lem, set_hi_lem}
use linapple.Via.Timing.{advance-lt}

-- Every field has its width, and the interrupt registers hold no bit 7.
pub record IsWellFormed (v : Via6522) : Type 0 where
  pub orb_fits : v.orb < 256
  pub ora_fits : v.ora < 256
  pub ddrb_fits : v.ddrb < 256
  pub ddra_fits : v.ddra < 256
  pub shift_register_fits : v.shift_register < 256
  pub acr_fits : v.acr < 256
  pub pcr_fits : v.pcr < 256
  pub ifr_fits : v.ifr < 128
  pub ier_fits : v.ier < 128
  pub ora_no_handshake_fits : v.ora_no_handshake < 256
  pub t1_counter_fits : v.t1_counter < 65536
  pub t1_latch_fits : v.t1_latch < 65536
  pub t2_counter_fits : v.t2_counter < 65536
  pub t2_latch_fits : v.t2_latch < 65536

masked_fits : (x : ℕ) → bit_and x ifr_mask < 128
masked_fits x = omega (arith, bit_and_mask 7 x)

write_reg-IsWellFormed :
    (v : Via6522) (r : Reg) (val : ℕ)
    → val < 256
    → IsWellFormed v
    → IsWellFormed (write_reg v r val)
unfolding write_reg set_lo set_hi
write_reg-IsWellFormed v Reg.ier val h w = ground (
  arith,
  bit_or-lt 7 v.ier (bit_and val ifr_mask),
  masked_fits val,
  bit_and-lt 7 v.ier (255 - bit_and val ifr_mask),
)
write_reg-IsWellFormed v Reg.ifr val h w =
    ground (arith, bit_and-lt 7 v.ifr (255 - bit_and val ifr_mask))
write_reg-IsWellFormed v t1c_h val h w = ground (arith, bit_and-lt 7 v.ifr 0xbf)
write_reg-IsWellFormed v t1l_h val h w = ground (arith, bit_and-lt 7 v.ifr 0xbf)
write_reg-IsWellFormed v t2c_h val h w = ground (arith, bit_and-lt 7 v.ifr 0xdf)
write_reg-IsWellFormed v _ val h w = ground arith

pub via_write-IsWellFormed :
    (v : Via6522) (reg val : ℕ) → val < 256 → IsWellFormed v → IsWellFormed (via_write v reg val)
unfolding via_write
via_write-IsWellFormed v reg val h w = write_reg-IsWellFormed v (reg_of reg) val h w

read_reg-IsWellFormed : (v : Via6522) (r : Reg) → IsWellFormed v → IsWellFormed (read_reg v r).0
unfolding read_reg
read_reg-IsWellFormed v t1c_l w = ground (arith, bit_and-lt 7 v.ifr 0xbf)
read_reg-IsWellFormed v t2c_l w = ground (arith, bit_and-lt 7 v.ifr 0xdf)
read_reg-IsWellFormed v _ w = w

pub via_read-IsWellFormed :
    (v : Via6522) (reg : ℕ) → IsWellFormed v → IsWellFormed (via_read v reg).0
unfolding via_read
via_read-IsWellFormed v reg w = read_reg-IsWellFormed v (reg_of reg) w

pub via_reset-IsWellFormed : (v : Via6522) → IsWellFormed v → IsWellFormed (via_reset v)
unfolding via_reset
via_reset-IsWellFormed v w = ground arith

advance1-IsWellFormed : (v : Via6522) (n : ℕ) → IsWellFormed v → IsWellFormed (advance1 v n)
unfolding advance1
advance1-IsWellFormed v n w = ground (arith, advance-lt v.t1_counter v.t1_latch v.t1_phase n)

advance2-IsWellFormed : (v : Via6522) (n : ℕ) → IsWellFormed v → IsWellFormed (advance2 v n)
unfolding advance2
advance2-IsWellFormed v n w = ground (arith, advance-lt v.t2_counter v.t2_latch v.t2_phase n)

underflow1-IsWellFormed : (v : Via6522) → IsWellFormed v → IsWellFormed (underflow1 v)
unfolding underflow1
underflow1-IsWellFormed v w = ground (arith, bit_or-lt 7 v.ifr ifr_timer1)

underflow2-IsWellFormed : (v : Via6522) → IsWellFormed v → IsWellFormed (underflow2 v)
unfolding underflow2
underflow2-IsWellFormed v w = ground (arith, bit_or-lt 7 v.ifr ifr_timer2)

loop1-IsWellFormed : (f : ℕ) (v : Via6522) (n : ℕ) → IsWellFormed v → IsWellFormed (loop1 f v n)
unfolding loop1
loop1-IsWellFormed zero v n w = w
loop1-IsWellFormed (suc f) v zero w = w
loop1-IsWellFormed (suc f) v (suc n) w =
    let span = ticks_to_underflow v.t1_counter v.t1_latch v.t1_phase in
    let plain = advance1-IsWellFormed v (suc n) w in
    let event = underflow1-IsWellFormed (advance1 v span) (advance1-IsWellFormed v span w) in
    if_both IsWellFormed _ plain (
      if_both IsWellFormed _ plain
        (loop1-IsWellFormed f (underflow1 (advance1 v span)) (suc n - span) event))

loop2-IsWellFormed : (f : ℕ) (v : Via6522) (n : ℕ) → IsWellFormed v → IsWellFormed (loop2 f v n)
unfolding loop2
loop2-IsWellFormed zero v n w = w
loop2-IsWellFormed (suc f) v zero w = w
loop2-IsWellFormed (suc f) v (suc n) w =
    let span = ticks_to_underflow v.t2_counter v.t2_latch v.t2_phase in
    let plain = advance2-IsWellFormed v (suc n) w in
    let event = underflow2-IsWellFormed (advance2 v span) (advance2-IsWellFormed v span w) in
    if_both IsWellFormed _ plain (
      if_both IsWellFormed _ plain
        (loop2-IsWellFormed f (underflow2 (advance2 v span)) (suc n - span) event))

pub via_step-IsWellFormed :
    (v : Via6522) (cycles : ℕ) → IsWellFormed v → IsWellFormed (via_step v cycles).0
unfolding via_step step_timer1 step_timer2
via_step-IsWellFormed v n w =
    let first = loop1-IsWellFormed n v n w in
    if_both IsWellFormed _ first (loop2-IsWellFormed n (loop1 n v n) n first)

-- A register access or a span of cycles.
pub data Operation : Type 0 where
  reset : Operation
  write : ℕ → (val : ℕ) → val < 256 → Operation
  read : ℕ → Operation
  step : ℕ → Operation

unfoldable pub perform : Via6522 → Operation → Via6522
perform v reset = via_reset v
perform v (write reg val _) = via_write v reg val
perform v (read reg) = (via_read v reg).0
perform v (step cycles) = (via_step v cycles).0

unfoldable pub perform_all : Via6522 → List Operation → Via6522
unfolding perform
perform_all v [] = v
perform_all v (op ∷ ops) = perform_all (perform v op) ops

-- Every operation keeps every field within its width, so any sequence of them does.
pub perform_all-IsWellFormed :
    (v : Via6522) (ops : List Operation) → IsWellFormed v → IsWellFormed (perform_all v ops)
unfolding perform_all
perform_all-IsWellFormed v [] w = w
perform_all-IsWellFormed v (reset ∷ ops) w =
    perform_all-IsWellFormed (via_reset v) ops (via_reset-IsWellFormed v w)
perform_all-IsWellFormed v (write reg val h ∷ ops) w =
    perform_all-IsWellFormed (via_write v reg val) ops (via_write-IsWellFormed v reg val h w)
perform_all-IsWellFormed v (read reg ∷ ops) w =
    perform_all-IsWellFormed (via_read v reg).0 ops (via_read-IsWellFormed v reg w)
perform_all-IsWellFormed v (step cycles ∷ ops) w =
    perform_all-IsWellFormed (via_step v cycles).0 ops (via_step-IsWellFormed v cycles w)

-- The latch of timer 1, written through T1C-L and T1C-H, is read back through T1L-L and T1L-H,
-- and the counter through T1C-L and T1C-H.
pub t1_latch_round_trip :
    (v : Via6522) (low high : ℕ)
    → v.t1_latch < 65536
    → low < 256
    → high < 256
    → let w = via_write (via_write v 0x4 low) 0x5 high in
      ((via_read w 0x6).1 ≡ low)
      × ((via_read w 0x7).1 ≡ high)
      × ((via_read w 0x4).1 ≡ low)
      × ((via_read w 0x5).1 ≡ high)
unfolding via_write via_read
t1_latch_round_trip v low high h hl hh =
    let latch = set_hi (set_lo v.t1_latch low) high in
    let value : latch ≡ high * 256 + low =
      omega (arith, set_hi_lem (set_lo v.t1_latch low) high hh, set_lo_lem v.t1_latch low h hl) in
    let low_byte : lo latch ≡ low = omega (arith, lo_lem latch, value) in
    (low_byte, omega (arith, value), low_byte, omega (arith, value))

loop1-ier : (f : ℕ) (v : Via6522) (n : ℕ) → (loop1 f v n).ier ≡ v.ier
unfolding loop1 advance1 underflow1
loop1-ier zero v n = refl
loop1-ier (suc f) v zero = refl
loop1-ier (suc f) v (suc n) =
    let span = ticks_to_underflow v.t1_counter v.t1_latch v.t1_phase in
    ground (arith, loop1-ier f (underflow1 (advance1 v span)) (suc n - span))

loop2-ier : (f : ℕ) (v : Via6522) (n : ℕ) → (loop2 f v n).ier ≡ v.ier
unfolding loop2 advance2 underflow2
loop2-ier zero v n = refl
loop2-ier (suc f) v zero = refl
loop2-ier (suc f) v (suc n) =
    let span = ticks_to_underflow v.t2_counter v.t2_latch v.t2_phase in
    ground (arith, loop2-ier f (underflow2 (advance2 v span)) (suc n - span))

pub via_step-ier : (v : Via6522) (n : ℕ) → (via_step v n).0.ier ≡ v.ier
unfolding via_step step_timer1 step_timer2
via_step-ier v n = ground (arith, loop1-ier n v n, loop2-ier n (loop1 n v n) n)

high_bit_zero : (y : ℕ) → y < 128 → bit_and y 0x80 ≡ 0
high_bit_zero y h =
    let padded : y ≡ 0 * 2 ^ 7 + y = omega arith in
    ap (λ (t : ℕ). bit_and t 0x80) padded ∙ bit_and_high 7 0 y 1 h

irq_of_ier : (v : Via6522) → v.ier ≡ 0 → via_irq v ≡ false
unfolding via_irq
irq_of_ier v e = rw (e, bit_and-zero) refl

-- With every source disabled by a write of 0x7F to the IER, the interrupt line stays down however
-- many cycles pass.
pub disabled_stays_down :
    (v : Via6522) (cycles : ℕ)
    → IsWellFormed v
    → via_irq (via_step (via_write v 0xe 0x7f) cycles).0 ≡ false
unfolding via_write
disabled_stays_down v n w =
    irq_of_ier _ (via_step-ier (via_write v 0xe 0x7f) n ∙ high_bit_zero v.ier w.ier_fits)
