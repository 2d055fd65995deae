-- ===== src/Via/Timing.antt =====
-- One tick of a counter and its phase, and how `advance` and `ticks_to_underflow` go with it.
use linapple.Common.{ℕ, zero, suc, ◌^◌, ◌<◌, ◌≡◌, refl, ap, arith}
use linapple.Via.{
  ViaTimerPhase, running, load_delay, reload_pending, Via6522, ticks_to_underflow, advance,
  advance1, advance2,
}

pub advance-suc :
    (c l : ℕ) (p : ViaTimerPhase) (n : ℕ)
    → c < 65536
    → l < 65536
    → n < 2 ^ 32
    → advance (advance c l p 1).0 l (advance c l p 1).1 n ≡ advance c l p (suc n)
unfolding advance
advance-suc c l running zero hc hl hn = refl
advance-suc c l load_delay zero hc hl hn = ground arith
advance-suc c l reload_pending zero hc hl hn = ground arith
advance-suc c l running (suc n) hc hl hn = ground arith
advance-suc c l load_delay (suc n) hc hl hn = ground arith
advance-suc c l reload_pending (suc n) hc hl hn = ground arith

pub span-pos : (c l : ℕ) (p : ViaTimerPhase) → 0 < ticks_to_underflow c l p
unfolding ticks_to_underflow
span-pos c l running = omega arith
span-pos c l load_delay = omega arith
span-pos c l reload_pending = omega arith

-- Where more than one tick is left, one tick leaves one fewer.
pub span-advance :
    (c l : ℕ) (p : ViaTimerPhase)
    → c < 65536
    → l < 65536
    → 1 < ticks_to_underflow c l p
    → suc (ticks_to_underflow (advance c l p 1).0 l (advance c l p 1).1) ≡ ticks_to_underflow c l p
unfolding ticks_to_underflow advance
span-advance c l running hc hl h = omega arith
span-advance c l load_delay hc hl h = omega arith
span-advance c l reload_pending hc hl h = omega arith

pub advance-lt : (c l : ℕ) (p : ViaTimerPhase) (n : ℕ) → c < 65536 → (advance c l p n).0 < 65536
unfolding advance
advance-lt c l p zero hc = hc
advance-lt c l running (suc n) hc = omega arith
advance-lt c l load_delay (suc n) hc = omega arith
advance-lt c l reload_pending (suc n) hc = omega arith

module _ (v : Via6522) (n : ℕ) (hn : n < 2 ^ 32) where
  pub advance1-suc :
      v.t1_counter < 65536 → v.t1_latch < 65536 → advance1 (advance1 v 1) n ≡ advance1 v (suc n)
  unfolding advance1
  advance1-suc hc hl =
      ap (λ (q : ℕ × ViaTimerPhase). record v { t1_counter = q.0; t1_phase = q.1 })
        (advance-suc v.t1_counter v.t1_latch v.t1_phase n hc hl hn)

  pub advance2-suc :
      v.t2_counter < 65536 → v.t2_latch < 65536 → advance2 (advance2 v 1) n ≡ advance2 v (suc n)
  unfolding advance2
  advance2-suc hc hl =
      ap (λ (q : ℕ × ViaTimerPhase). record v { t2_counter = q.0; t2_phase = q.1 })
        (advance-suc v.t2_counter v.t2_latch v.t2_phase n hc hl hn)
