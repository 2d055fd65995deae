-- ===== src/Via.antt =====
-- The 6522 versatile interface adapter: src/apple2/chips/6522.cpp and 6522.h.
-- The chip is a record, and an operation that updates `*v` returns the new record. A pointer is
-- never null here, so the source's null checks are not modelled.
pub mod Jump
pub mod Cycles
mod Words
pub mod Interrupts
pub mod Timing
pub mod Ticks
pub mod Registers
mod Tests
use linapple.Common.{
  ℕ, zero, suc, ◌+◌, ◌-◌, ◌*◌, ◌/◌, ◌%◌, ◌^◌, bit_and, bit_or, bit_xor, Bool, true, false, not,
  ◌&&◌, ltb, leb, ◌==◌, ◌!=◌, if◌then◌else◌,
}

-- The bits of the control and interrupt registers (`via_ifr`, `via_acr`).
abbrev pub ifr_timer2 : ℕ
ifr_timer2 = 0x20

abbrev pub ifr_timer1 : ℕ
ifr_timer1 = 0x40

abbrev pub ifr_any : ℕ
ifr_any = 0x80

abbrev pub ifr_mask : ℕ
ifr_mask = 0x7f

abbrev pub acr_t2_pulse_count : ℕ
acr_t2_pulse_count = 0x20

abbrev pub acr_t1_free_run : ℕ
acr_t1_free_run = 0x40

abbrev pub acr_pb7_output : ℕ
acr_pb7_output = 0x80

pub data ViaTimerPhase : Type 0 where
  running load_delay reload_pending : ViaTimerPhase

-- `uint8_t` and `uint16_t` fields are numbers below 2 ^ 8 and 2 ^ 16 (`IsWellFormed`).
pub record Via6522 : Type 0 where
  pub orb : ℕ
  pub ora : ℕ
  pub ddrb : ℕ
  pub ddra : ℕ
  pub shift_register : ℕ
  pub acr : ℕ
  pub pcr : ℕ
  pub ifr : ℕ
  pub ier : ℕ
  pub ora_no_handshake : ℕ
  pub t1_counter : ℕ
  pub t1_latch : ℕ
  pub t2_counter : ℕ
  pub t2_latch : ℕ
  pub t1_phase : ViaTimerPhase
  pub t2_phase : ViaTimerPhase
  pub t1_fired : Bool
  pub t2_fired : Bool
  pub pb7 : Bool

-- The member initialisers of `Via6522`.
abbrev pub power_on : Via6522
power_on = record {
  orb = 0;
  ora = 0;
  ddrb = 0;
  ddra = 0;
  shift_register = 0;
  acr = 0;
  pcr = 0;
  ifr = 0;
  ier = 0;
  ora_no_handshake = 0;
  t1_counter = 0;
  t1_latch = 0;
  t2_counter = 0;
  t2_latch = 0;
  t1_phase = running;
  t2_phase = running;
  t1_fired = true;
  t2_fired = true;
  pb7 = false;
}

pub lo : ℕ → ℕ
lo w = bit_and w 0xff

pub hi : ℕ → ℕ
hi w = w / 2 ^ 8 % 256

pub set_lo : ℕ → ℕ → ℕ
set_lo w v = bit_or (bit_and w 0xff00) v % 65536

pub set_hi : ℕ → ℕ → ℕ
set_hi w v = bit_or (bit_and w 0x00ff) (v * 2 ^ 8) % 65536

-- A mask is cleared by `&` with its complement in eight bits.
abbrev pub clear : ℕ → ℕ → ℕ
clear w m = bit_and w (255 - m)

pub ticks_to_underflow : ℕ → ℕ → ViaTimerPhase → ℕ
ticks_to_underflow counter latch load_delay = counter + 2
ticks_to_underflow counter latch reload_pending = latch + 2
ticks_to_underflow counter latch running = counter + 1

-- `*counter - ticks` in 16 bits. `ticks` has 32 bits, and 2 ^ 32 is a multiple of 2 ^ 16.
abbrev pub sub16 : ℕ → ℕ → ℕ
sub16 counter ticks = (counter + 2 ^ 32 - ticks) % 65536

-- The counter and the phase after `ticks` ticks.
pub advance : ℕ → ℕ → ViaTimerPhase → ℕ → ℕ × ViaTimerPhase
advance counter latch phase zero = (counter, phase)
advance counter latch reload_pending (suc ticks) = (sub16 latch ticks, running)
advance counter latch load_delay (suc ticks) = (sub16 counter ticks, running)
advance counter latch running (suc ticks) = (sub16 counter (suc ticks), running)

pub free_run : Via6522 → Bool
free_run v = bit_and v.acr acr_t1_free_run != 0

pub pb7_driven : Via6522 → Bool
pb7_driven v = bit_and v.acr acr_pb7_output != 0

pub pulse_count : Via6522 → Bool
pulse_count v = bit_and v.acr acr_t2_pulse_count != 0

-- The call `advance(&v->t1_counter, v->t1_latch, &v->t1_phase, ticks)`.
pub advance1 : Via6522 → ℕ → Via6522
unfolding advance
advance1 v ticks =
    let (counter, phase) = advance v.t1_counter v.t1_latch v.t1_phase ticks in
    record v { t1_counter = counter; t1_phase = phase }

pub advance2 : Via6522 → ℕ → Via6522
unfolding advance
advance2 v ticks =
    let (counter, phase) = advance v.t2_counter v.t2_latch v.t2_phase ticks in
    record v { t2_counter = counter; t2_phase = phase }

-- What the loop of `step_timer1` does once it has advanced to the underflow.
pub underflow1 : Via6522 → Via6522
unfolding free_run pb7_driven
underflow1 v = record v {
  ifr = bit_or v.ifr ifr_timer1;
  t1_fired = true;
  t1_phase = if free_run v then reload_pending else running;
  pb7 = if pb7_driven v then (if free_run v then not v.pb7 else true) else v.pb7;
}

pub underflow2 : Via6522 → Via6522
underflow2 v = record v { ifr = bit_or v.ifr ifr_timer2; t2_fired = true; t2_phase = running }

-- The loops of `step_timer1` and `step_timer2`, at most `fuel` rounds of them.
pub loop1 : ℕ → Via6522 → ℕ → Via6522
loop1 zero v remaining = v
loop1 (suc fuel) v zero = v
loop1 (suc fuel) v (suc n) =
    let remaining = suc n in
    let span = ticks_to_underflow v.t1_counter v.t1_latch v.t1_phase in
    let rest = loop1 fuel (underflow1 (advance1 v span)) (remaining - span) in
    if not (free_run v) && v.t1_fired
    then advance1 v remaining
    else if ltb remaining span
    then advance1 v remaining
    else rest

pub loop2 : ℕ → Via6522 → ℕ → Via6522
loop2 zero v remaining = v
loop2 (suc fuel) v zero = v
loop2 (suc fuel) v (suc n) =
    let remaining = suc n in
    let span = ticks_to_underflow v.t2_counter v.t2_latch v.t2_phase in
    let rest = loop2 fuel (underflow2 (advance2 v span)) (remaining - span) in
    if v.t2_fired
    then advance2 v remaining
    else if ltb remaining span
    then advance2 v remaining
    else rest

-- Every round takes at least one cycle, so `cycles` rounds are enough (`Ticks`).
pub step_timer1 : Via6522 → ℕ → Via6522
unfolding loop1 ticks_to_underflow advance1 underflow1 free_run
step_timer1 v cycles = loop1 cycles v cycles

pub step_timer2 : Via6522 → ℕ → Via6522
unfolding loop2 ticks_to_underflow advance2 underflow2 pulse_count
step_timer2 v cycles = if pulse_count v then v else loop2 cycles v cycles

pub via_irq : Via6522 → Bool
via_irq v = bit_and (bit_and v.ifr v.ier) ifr_mask != 0

pub via_reset : Via6522 → Via6522
via_reset v = record v {
  orb = 0;
  ora = 0;
  ddrb = 0;
  ddra = 0;
  acr = 0;
  pcr = 0;
  ifr = 0;
  ier = 0;
  ora_no_handshake = 0;
  t1_phase = running;
  t2_phase = running;
  t1_fired = true;
  t2_fired = true;
  pb7 = false;
}

-- The registers (`via_reg`), by number after the mask 0x0F.
pub data Reg : Type 0 where
  orb ora ddrb ddra t1c_l t1c_h t1l_l t1l_h : Reg
  t2c_l t2c_h sr acr pcr ifr ier ora_no_handshake : Reg

pub reg_of : ℕ → Reg
reg_of r =
    let n = bit_and r 0x0f in
    if n == 0x0
    then Reg.orb
    else if n == 0x1
    then Reg.ora
    else if n == 0x2
    then Reg.ddrb
    else if n == 0x3
    then Reg.ddra
    else if n == 0x4
    then t1c_l
    else if n == 0x5
    then t1c_h
    else if n == 0x6
    then t1l_l
    else if n == 0x7
    then t1l_h
    else if n == 0x8
    then t2c_l
    else if n == 0x9
    then t2c_h
    else if n == 0xa
    then sr
    else if n == 0xb
    then Reg.acr
    else if n == 0xc
    then Reg.pcr
    else if n == 0xd
    then Reg.ifr
    else if n == 0xe
    then Reg.ier
    else Reg.ora_no_handshake

-- The `switch` of `via_write`.
pub write_reg : Via6522 → Reg → ℕ → Via6522
unfolding pb7_driven set_lo set_hi lo
write_reg v Reg.orb val = record v { orb = val }
write_reg v Reg.ora val = record v { ora = val }
write_reg v Reg.ddrb val = record v { ddrb = val }
write_reg v Reg.ddra val = record v { ddra = val }
write_reg v t1c_l val = record v { t1_latch = set_lo v.t1_latch val }
write_reg v t1l_l val = record v { t1_latch = set_lo v.t1_latch val }
write_reg v t1c_h val =
    let latch = set_hi v.t1_latch val in
    record v {
      t1_latch = latch;
      t1_counter = latch;
      t1_phase = load_delay;
      t1_fired = false;
      ifr = clear v.ifr ifr_timer1;
      pb7 = if pb7_driven v then false else v.pb7;
    }
write_reg v t1l_h val = record v { t1_latch = set_hi v.t1_latch val; ifr = clear v.ifr ifr_timer1 }
write_reg v t2c_l val = record v { t2_latch = set_lo v.t2_latch val }
write_reg v t2c_h val = record v {
  t2_counter = bit_or (val * 2 ^ 8) (lo v.t2_latch) % 65536;
  t2_phase = load_delay;
  t2_fired = false;
  ifr = clear v.ifr ifr_timer2;
}
write_reg v sr val = record v { shift_register = val }
write_reg v Reg.acr val = record v { acr = val }
write_reg v Reg.pcr val = record v { pcr = val }
write_reg v Reg.ifr val = record v { ifr = clear v.ifr (bit_and val ifr_mask) }
write_reg v Reg.ier val = record v {
  ier =
      if bit_and val ifr_any != 0
      then bit_or v.ier (bit_and val ifr_mask)
      else clear v.ier (bit_and val ifr_mask);
}
write_reg v Reg.ora_no_handshake val = record v { ora_no_handshake = val }

pub via_write : Via6522 → ℕ → ℕ → Via6522
unfolding reg_of write_reg
via_write v reg val = write_reg v (reg_of reg) val

-- The `switch` of `via_read`: a counter's low byte also clears its flag.
pub read_reg : Via6522 → Reg → Via6522 × ℕ
unfolding pb7_driven lo hi via_irq
read_reg v Reg.orb =
    (v, if pb7_driven v then bit_or (bit_and v.orb 0x7f) (if v.pb7 then 0x80 else 0) else v.orb)
read_reg v Reg.ora = (v, v.ora)
read_reg v Reg.ddrb = (v, v.ddrb)
read_reg v Reg.ddra = (v, v.ddra)
read_reg v t1c_l = (record v { ifr = clear v.ifr ifr_timer1 }, lo v.t1_counter)
read_reg v t1c_h = (v, hi v.t1_counter)
read_reg v t1l_l = (v, lo v.t1_latch)
read_reg v t1l_h = (v, hi v.t1_latch)
read_reg v t2c_l = (record v { ifr = clear v.ifr ifr_timer2 }, lo v.t2_counter)
read_reg v t2c_h = (v, hi v.t2_counter)
read_reg v sr = (v, v.shift_register)
read_reg v Reg.acr = (v, v.acr)
read_reg v Reg.pcr = (v, v.pcr)
read_reg v Reg.ifr = (v, bit_or v.ifr (if via_irq v then ifr_any else 0))
read_reg v Reg.ier = (v, bit_or v.ier ifr_any)
read_reg v Reg.ora_no_handshake = (v, v.ora_no_handshake)

pub via_read : Via6522 → ℕ → Via6522 × ℕ
unfolding reg_of read_reg
via_read v reg = read_reg v (reg_of reg)

-- The new chip, and whether the interrupt line changed.
pub via_step : Via6522 → ℕ → Via6522 × Bool
unfolding via_irq step_timer1 step_timer2
via_step v cycles =
    let v' = step_timer2 (step_timer1 v cycles) cycles in
    (v', if via_irq v then not (via_irq v') else via_irq v')
