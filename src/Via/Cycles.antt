-- ===== src/Via/Cycles.antt =====
-- A call of `via_step` against single Phi2 cycles of the whole chip.
use native.Mathlib.Nat.{zero-add, suc-add}
use linapple.Common.{
  ℕ, zero, suc, ◌+◌, ◌^◌, ◌<◌, ◌≡◌, refl, ap, arith, true, false, if◌then◌else◌, Bool-cases, inl,
  inr, ◌∙◌, sym, bit_or_swap,
}
use linapple.Via.{
  Via6522, underflow1, underflow2, loop2, free_run, pulse_count, pb7_driven, step_timer1,
  step_timer2, via_step,
}
use linapple.Via.Jump
use linapple.Via.Ticks.{
  HasWords, timer1, timer2, timer1_laws, timer2_laws, loop1-jump, loop2-jump, cycle1, cycle2,
  tick-cycle1, tick-cycle2,
}

-- One Phi2 cycle of the chip, by the data sheet: both timers take it, but timer 2 not while it
-- counts pulses.
unfoldable pub phi2 : Via6522 → Via6522
unfolding cycle1 cycle2 pulse_count
phi2 v = if pulse_count v then cycle1 v else cycle2 (cycle1 v)

unfoldable pub phi2_cycles : ℕ → Via6522 → Via6522
phi2_cycles zero v = v
phi2_cycles (suc n) v = phi2_cycles n (phi2 v)

cycle1-HasWords : (v : Via6522) → HasWords v → HasWords (cycle1 v)
unfolding cycle1 underflow1
cycle1-HasWords v g = ground arith

cycle2-HasWords : (v : Via6522) → HasWords v → HasWords (cycle2 v)
unfolding cycle2 underflow2
cycle2-HasWords v g = ground arith

pub phi2-HasWords : (v : Via6522) → HasWords v → HasWords (phi2 v)
unfolding phi2
phi2-HasWords v g = elim (Bool-cases (pulse_count v)) [
  | inl e ↦ rw e (cycle1-HasWords v g)
  | inr e ↦ rw e (cycle2-HasWords (cycle1 v) (cycle1-HasWords v g))
]

iterate : (Via6522 → Via6522) → ℕ → Via6522 → Via6522
iterate f zero v = v
iterate f (suc n) v = iterate f n (f v)

ticks1-iterate : (n : ℕ) (v : Via6522) → HasWords v → Jump.ticks timer1 n v ≡ iterate cycle1 n v
unfolding Jump.ticks iterate
ticks1-iterate zero v g = refl
ticks1-iterate (suc n) v g =
    rw (tick-cycle1 v g) (ticks1-iterate n (cycle1 v) (cycle1-HasWords v g))

ticks2-iterate : (n : ℕ) (v : Via6522) → HasWords v → Jump.ticks timer2 n v ≡ iterate cycle2 n v
unfolding Jump.ticks iterate
ticks2-iterate zero v g = refl
ticks2-iterate (suc n) v g =
    rw (tick-cycle2 v g) (ticks2-iterate n (cycle2 v) (cycle2-HasWords v g))

iterate1-HasWords : (n : ℕ) (v : Via6522) → HasWords v → HasWords (iterate cycle1 n v)
unfolding iterate
iterate1-HasWords zero v g = g
iterate1-HasWords (suc n) v g = iterate1-HasWords n (cycle1 v) (cycle1-HasWords v g)

step1-iterate :
    (n : ℕ) (v : Via6522) → n < 2 ^ 32 → HasWords v → step_timer1 v n ≡ iterate cycle1 n v
unfolding step_timer1
step1-iterate n v h g =
    loop1-jump n v n ∙ Jump.jump-ticks timer1 HasWords timer1_laws n v h g ∙ ticks1-iterate n v g

loop2-iterate : (n : ℕ) (v : Via6522) → n < 2 ^ 32 → HasWords v → loop2 n v n ≡ iterate cycle2 n v
loop2-iterate n v h g =
    loop2-jump n v n ∙ Jump.jump-ticks timer2 HasWords timer2_laws n v h g ∙ ticks2-iterate n v g

-- The timers do not meet.
cycles_commute : (v : Via6522) → cycle2 (cycle1 v) ≡ cycle1 (cycle2 v)
unfolding cycle1 cycle2 underflow1 underflow2 free_run pb7_driven
cycles_commute v = ground (arith, bit_or_swap v.ifr 0x40 0x20)

iterate_commute : (n : ℕ) (v : Via6522) → cycle2 (iterate cycle1 n v) ≡ iterate cycle1 n (cycle2 v)
unfolding iterate
iterate_commute zero v = refl
iterate_commute (suc n) v = iterate_commute n (cycle1 v) ∙ ap (iterate cycle1 n) (cycles_commute v)

pulse_count-cycle1 : (v : Via6522) → pulse_count (cycle1 v) ≡ pulse_count v
unfolding pulse_count cycle1 underflow1
pulse_count-cycle1 v = ground arith

pulse_count-cycle2 : (v : Via6522) → pulse_count (cycle2 v) ≡ pulse_count v
unfolding pulse_count cycle2 underflow2
pulse_count-cycle2 v = ground arith

pulse_count-iterate1 : (n : ℕ) (v : Via6522) → pulse_count (iterate cycle1 n v) ≡ pulse_count v
unfolding iterate
pulse_count-iterate1 zero v = refl
pulse_count-iterate1 (suc n) v = pulse_count-iterate1 n (cycle1 v) ∙ pulse_count-cycle1 v

counting : (n : ℕ) (v : Via6522) → pulse_count v ≡ true → iterate cycle1 n v ≡ phi2_cycles n v
unfolding iterate phi2_cycles phi2
counting zero v e = refl
counting (suc n) v e = rw e (counting n (cycle1 v) (pulse_count-cycle1 v ∙ e))

not_counting :
    (n : ℕ) (v : Via6522)
    → pulse_count v ≡ false
    → iterate cycle2 n (iterate cycle1 n v) ≡ phi2_cycles n v
unfolding iterate phi2_cycles phi2
not_counting zero v e = refl
not_counting (suc n) v e = rw e (
    ap (iterate cycle2 n) (iterate_commute n (cycle1 v))
    ∙ not_counting n (cycle2 (cycle1 v)) (pulse_count-cycle2 (cycle1 v) ∙ pulse_count-cycle1 v ∙ e))

-- Stepping any number of cycles that a `uint32_t` holds, jumping from underflow to underflow,
-- leaves the chip as that many single Phi2 cycles do.
pub via_step-phi2_cycles :
    (v : Via6522) (cycles : ℕ)
    → cycles < 2 ^ 32
    → HasWords v
    → (via_step v cycles).0 ≡ phi2_cycles cycles v
unfolding via_step step_timer2
via_step-phi2_cycles v n h g = elim (Bool-cases (pulse_count v)) [
  | inl e ↦ rw (step1-iterate n v h g, pulse_count-iterate1 n v, e) (counting n v e)
  | inr e ↦
      rw (step1-iterate n v h g, pulse_count-iterate1 n v, e)
        (loop2-iterate n (iterate cycle1 n v) h (iterate1-HasWords n v g) ∙ not_counting n v e)
]

pub phi2_cycles-add :
    (m n : ℕ) (v : Via6522) → phi2_cycles (m + n) v ≡ phi2_cycles n (phi2_cycles m v)
unfolding phi2_cycles
phi2_cycles-add zero n v = rw zero-add refl
phi2_cycles-add (suc m) n v = rw suc-add (phi2_cycles-add m n (phi2 v))

pub phi2_cycles-HasWords : (n : ℕ) (v : Via6522) → HasWords v → HasWords (phi2_cycles n v)
unfolding phi2_cycles
phi2_cycles-HasWords zero v g = g
phi2_cycles-HasWords (suc n) v g = phi2_cycles-HasWords n (phi2 v) (phi2-HasWords v g)

-- How a span of cycles is cut into calls of `via_step` makes no difference to the chip.
pub via_step-add :
    (v : Via6522) (m n : ℕ)
    → m + n < 2 ^ 32
    → HasWords v
    → (via_step (via_step v m).0 n).0 ≡ (via_step v (m + n)).0
via_step-add v m n h g =
    let first = via_step-phi2_cycles v m (omega arith) g in
    let kept = phi2_cycles-HasWords m v g in
    rw first (
      via_step-phi2_cycles (phi2_cycles m v) n (omega arith) kept
      ∙ sym (phi2_cycles-add m n v)
      ∙ sym (via_step-phi2_cycles v (m + n) h g))
