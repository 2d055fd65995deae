-- ===== src/Via/Ticks.antt =====
-- The data sheet's timers, one Phi2 cycle at a time, and the loops of `step_timer1` and `step_timer2` as
-- countdowns.
use linapple.Common.{
  bit_or, bit_and_bit, ◌/◌, ◌%◌, ◌^◌, Bool, true, ℕ, zero, suc, ◌-◌, ◌<◌, ◌≡◌, refl, arith, not,
  ◌&&◌, ◌==◌, if◌then◌else◌,
}
use linapple.Via.{
  ViaTimerPhase, running, load_delay, reload_pending, Via6522, ticks_to_underflow, advance,
  advance1, advance2, underflow1, underflow2, loop1, loop2, free_run, pb7_driven,
}
use linapple.Via.Jump
use linapple.Via.Jump.{Countdown, Laws}
use linapple.Via.Timing.{advance1-suc, advance2-suc, span-pos, span-advance, advance-lt}

abbrev pub timer1 : Countdown Via6522
timer1 = record {
  spent = λ v. not (free_run v) && v.t1_fired;
  span = λ v. ticks_to_underflow v.t1_counter v.t1_latch v.t1_phase;
  adv = advance1;
  hit = underflow1;
}

abbrev pub timer2 : Countdown Via6522
timer2 = record {
  spent = λ v. v.t2_fired;
  span = λ v. ticks_to_underflow v.t2_counter v.t2_latch v.t2_phase;
  adv = advance2;
  hit = underflow2;
}

-- The counters and latches have sixteen bits.
pub record HasWords (v : Via6522) : Type 0 where
  pub t1_counter_fits : v.t1_counter < 65536
  pub t1_latch_fits : v.t1_latch < 65536
  pub t2_counter_fits : v.t2_counter < 65536
  pub t2_latch_fits : v.t2_latch < 65536

pub timer1_laws : Laws timer1 HasWords
unfolding advance1 underflow1 advance free_run
timer1_laws = record {
  adv-zero = λ v. refl;
  adv-suc = λ v n g h. advance1-suc v n h g.t1_counter_fits g.t1_latch_fits;
  span-pos = λ v. span-pos v.t1_counter v.t1_latch v.t1_phase;
  span-adv =
      λ v g h. span-advance v.t1_counter v.t1_latch v.t1_phase g.t1_counter_fits g.t1_latch_fits h;
  spent-adv = λ v n. refl;
  adv-Good = λ v g.
      let fits = advance-lt v.t1_counter v.t1_latch v.t1_phase 1 g.t1_counter_fits in
      record {
        t1_counter_fits = fits;
        t1_latch_fits = g.t1_latch_fits;
        t2_counter_fits = g.t2_counter_fits;
        t2_latch_fits = g.t2_latch_fits;
      };
  hit-Good = λ v g. ground arith;
}

pub timer2_laws : Laws timer2 HasWords
unfolding advance2 underflow2 advance
timer2_laws = record {
  adv-zero = λ v. refl;
  adv-suc = λ v n g h. advance2-suc v n h g.t2_counter_fits g.t2_latch_fits;
  span-pos = λ v. span-pos v.t2_counter v.t2_latch v.t2_phase;
  span-adv =
      λ v g h. span-advance v.t2_counter v.t2_latch v.t2_phase g.t2_counter_fits g.t2_latch_fits h;
  spent-adv = λ v n. refl;
  adv-Good = λ v g.
      let fits = advance-lt v.t2_counter v.t2_latch v.t2_phase 1 g.t2_counter_fits in
      record {
        t1_counter_fits = g.t1_counter_fits;
        t1_latch_fits = g.t1_latch_fits;
        t2_counter_fits = fits;
        t2_latch_fits = g.t2_latch_fits;
      };
  hit-Good = λ v g. ground arith;
}

pub loop1-jump : (f : ℕ) (v : Via6522) (n : ℕ) → loop1 f v n ≡ Jump.jump timer1 f v n
unfolding loop1 Jump.jump
loop1-jump zero v n = refl
loop1-jump (suc f) v zero = refl
loop1-jump (suc f) v (suc n) =
    let span = ticks_to_underflow v.t1_counter v.t1_latch v.t1_phase in
    rw (loop1-jump f (underflow1 (advance1 v span)) (suc n - span)) refl

pub loop2-jump : (f : ℕ) (v : Via6522) (n : ℕ) → loop2 f v n ≡ Jump.jump timer2 f v n
unfolding loop2 Jump.jump
loop2-jump zero v n = refl
loop2-jump (suc f) v zero = refl
loop2-jump (suc f) v (suc n) =
    let span = ticks_to_underflow v.t2_counter v.t2_latch v.t2_phase in
    rw (loop2-jump f (underflow2 (advance2 v span)) (suc n - span)) refl

-- A bit of a register, by its place.
abbrev pub bit_set : ℕ → ℕ → Bool
bit_set place register = register / 2 ^ place % 2 == 1

-- The data sheet's timer 1, one cycle: a pending reload puts the latch into the counter, a freshly
-- loaded counter waits, and any other counts down. From zero it wraps to 0xFFFF, and unless it is a
-- one-shot timer that has fired, raises flag 6. With bit 6 of the ACR, a reload follows and PB7, if bit 7
-- says that the timer drives it, is inverted; without, PB7 goes up.
unfoldable pub cycle1 : Via6522 → Via6522
cycle1 v = of_phase v.t1_phase
  where
    wrapped : Via6522
    wrapped = record v { t1_counter = 0xffff; t1_phase = running }

    underflowed : Via6522
    underflowed = record v {
      t1_counter = 0xffff;
      ifr = bit_or v.ifr 0x40;
      t1_fired = true;
      t1_phase = if bit_set 6 v.acr then reload_pending else running;
      pb7 = if bit_set 7 v.acr then (if bit_set 6 v.acr then not v.pb7 else true) else v.pb7;
    }

    of_phase : ViaTimerPhase → Via6522
    of_phase reload_pending = record v { t1_counter = v.t1_latch; t1_phase = running }
    of_phase load_delay = record v { t1_phase = running }
    of_phase running =
        if v.t1_counter == 0
        then (if not (bit_set 6 v.acr) && v.t1_fired then wrapped else underflowed)
        else record v { t1_counter = v.t1_counter - 1 }

-- Timer 2 has no free run.
unfoldable pub cycle2 : Via6522 → Via6522
cycle2 v = of_phase v.t2_phase
  where
    wrapped : Via6522
    wrapped = record v { t2_counter = 0xffff; t2_phase = running }

    underflowed : Via6522
    underflowed = record v {
      t2_counter = 0xffff;
      ifr = bit_or v.ifr 0x20;
      t2_fired = true;
      t2_phase = running;
    }

    of_phase : ViaTimerPhase → Via6522
    of_phase reload_pending = record v { t2_counter = v.t2_latch; t2_phase = running }
    of_phase load_delay = record v { t2_phase = running }
    of_phase running =
        if v.t2_counter == 0
        then (if v.t2_fired then wrapped else underflowed)
        else record v { t2_counter = v.t2_counter - 1 }

pub tick-cycle1 : (v : Via6522) → HasWords v → Jump.tick timer1 v ≡ cycle1 v
unfolding Jump.tick cycle1 advance1 advance ticks_to_underflow underflow1 free_run pb7_driven
tick-cycle1 v g = ground (arith, bit_and_bit 6 v.acr, bit_and_bit 7 v.acr)

pub tick-cycle2 : (v : Via6522) → HasWords v → Jump.tick timer2 v ≡ cycle2 v
unfolding Jump.tick cycle2 advance2 advance ticks_to_underflow underflow2
tick-cycle2 v g = ground arith
