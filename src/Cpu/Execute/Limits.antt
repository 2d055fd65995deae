-- ===== src/Cpu/Execute/Limits.antt =====
-- The bound of a slice, the count of cycles, and the cycles of an opcode.
use linapple.Common.{ℕ, ◌+◌, ◌-◌, ◌^◌, ◌≤◌, ◌<◌}
use linapple.Common.{◌≡◌, refl, arith, Bool, true, false, leb, all_below, all_below_sound}
use linapple.Cpu.{Counters, Bus}
use linapple.Cpu.Execute.{cpu_limit_cycles, cpu_calc_cycles, lookup, uint64_max}

-- `cpu_limit_cycles` never raises the bound.
pub cpu_limit_cycles-lowers :
    (at : ℕ) (k : Counters) → (cpu_limit_cycles at k).cycles_limit ≤ k.cycles_limit
unfolding cpu_limit_cycles
cpu_limit_cycles-lowers at k = ground arith

-- During a slice, with counts of 32 bits, a target whose distance from the count (0 when it is behind)
-- falls within the bound becomes the bound, at that distance from the cycles executed.
cpu_limit_cycles-exact :
    (at : ℕ) (k : Counters)
    → k.in_slice ≡ true
    → k.cycles_executed < 2 ^ 32
    → at < uint64_max
    → k.cycles_executed + (at - k.cumulative_cycles) < k.cycles_limit
    → k.cycles_limit < 2 ^ 32
    → (cpu_limit_cycles at k).cycles_limit ≡ k.cycles_executed + (at - k.cumulative_cycles)
unfolding cpu_limit_cycles
cpu_limit_cycles-exact at k slice executed far within limit = ground arith

-- Two targets lead to the same bound in either order.
cpu_limit_cycles_comm :
    (one other : ℕ) (k : Counters)
    → (cpu_limit_cycles one (cpu_limit_cycles other k)).cycles_limit
      ≡ (cpu_limit_cycles other (cpu_limit_cycles one k)).cycles_limit
unfolding cpu_limit_cycles
cpu_limit_cycles_comm one other k = ground arith

-- Cycles are counted once: while the counts do not wrap around, counting up to a later cycle after an
-- earlier one is counting up to the later one alone.
cpu_calc_cycles-absorbs :
    (one other : ℕ) (k : Counters)
    → k.cycles_executed ≤ one
    → one ≤ other
    → other < 2 ^ 32
    → k.cumulative_cycles + 2 ^ 32 < 2 ^ 64
    → cpu_calc_cycles other (cpu_calc_cycles one k) ≡ cpu_calc_cycles other k
unfolding cpu_calc_cycles
cpu_calc_cycles-absorbs one other k from upto fits far = ground arith

module _ (M : Type 0) ⦃bus : Bus M⦄ where
  cycles_table :
      (is_cmos : Bool) → all_below 256 (λ op. leb 2 (lookup {M = M} is_cmos op).base_cycles) ≡ true
  unfolding all_below lookup
  cycles_table true = refl
  cycles_table false = refl

  -- No entry that the loop looks up in either table takes fewer than two cycles.
  lookup-base_cycles :
      (is_cmos : Bool) (opcode : ℕ) → opcode < 256 → 2 ≤ (lookup {M = M} is_cmos opcode).base_cycles
  lookup-base_cycles is_cmos opcode h =
      let two = all_below_sound 256 _ opcode (cycles_table is_cmos) h in ground arith
