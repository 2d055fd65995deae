-- ===== src/Via/Tests.antt =====
-- Runs of the 6522 on concrete chips, and the theorems at inputs that meet their hypotheses.
use linapple.Common.{◌+◌, ◌*◌, ◌<◌, ◌≤◌, ◌≡◌, refl, arith, false, List, [], ◌∷◌}
use linapple.Via.{Via6522, power_on, load_delay, via_step}
use linapple.Via.Ticks.{HasWords}
use linapple.Via.Cycles.{phi2_cycles, via_step-phi2_cycles}
use linapple.Via.Interrupts.{flag1, loaded, t1_flag_timing}
use linapple.Via.Registers.{IsWellFormed, Operation, perform_all, perform_all-IsWellFormed}

-- A free-running timer 1 with N = 3, just loaded.
abbrev demo : Via6522
demo = record power_on {
  acr = 0x40;
  ifr = 0x20;
  ier = 0x60;
  t1_counter = 3;
  t1_latch = 3;
  t1_phase = load_delay;
  t1_fired = false;
}

demo-HasWords : HasWords demo
demo-HasWords = ground arith

demo-IsWellFormed : IsWellFormed demo
demo-IsWellFormed = ground arith

demo_after_twelve : (via_step demo 12).0.t1_counter ≡ 2
unfolding via_step
demo_after_twelve = refl

via_step-phi2_cycles_example : (via_step demo 12).0 ≡ phi2_cycles 12 demo
via_step-phi2_cycles_example = via_step-phi2_cycles demo 12 (omega arith) demo-HasWords

t1_flag_timing_example :
    (10 < 1 * 256 + 2 + 2 → flag1 (via_step (loaded demo 2 1) 10).0 ≡ 0)
    × (1 * 256 + 2 + 2 ≤ 10 → flag1 (via_step (loaded demo 2 1) 10).0 ≡ 0x40)
t1_flag_timing_example = t1_flag_timing demo 2 1 10 (omega arith) (omega arith) (omega arith)

abbrev session : List Operation
session =
    Operation.write 0x4 200 (omega arith)
    ∷ Operation.step 70000
    ∷ Operation.read 0x4
    ∷ Operation.reset
    ∷ []

perform_all-IsWellFormed_example : IsWellFormed (perform_all demo session)
perform_all-IsWellFormed_example = perform_all-IsWellFormed demo session demo-IsWellFormed
