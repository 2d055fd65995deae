-- ===== src/Cpu/Execute/Ends.antt =====
-- The end of the loop of CPU.cpp: the cycles that a turn counts, and the bound of the loop.
use linapple.Common.{
  ℕ, zero, suc, ◌+◌, ◌/◌, ◌%◌, ◌^◌, ◌≤◌, ◌<◌, ◌≡◌, arith, Bool, true, false, ltb, if_split,
}
use linapple.Common.{All, All-get_or, get_or, [], refl}
use linapple.Cpu.{Bus, Cpu, push, pack_ps, unpack_ps, fetch_opcode}
use linapple.Cpu.Operations.{op_nop}
use linapple.Cpu.Stack.{check_nmi, check_irq}
use linapple.Cpu.Opcodes.{OpcodeDesc, desc}
use linapple.Cpu.Execute.{
  lookup, word32, cpu_turn, cpu_turns, cpu_execute_loop, cpu_execute, cpu_execute_slice,
}
use linapple.Cpu.Execute.{opcodes_nmos, opcodes_cmos, cpu_limit_cycles}
use linapple.Cpu.Execute.Limits.{cpu_limit_cycles-lowers}
use linapple.Cpu.Execute.Calm.{Lowers, Within, IsCalm, read-Within}
use linapple.Cpu.Execute.Calm.Nmos.{opcodes_nmos-IsCalm}
use linapple.Cpu.Execute.Calm.Cmos.{opcodes_cmos-IsCalm}

-- From `c` to `d` at least `least` and at most `most` cycles are counted, and the bound does not rise.
record Counts {M : Type 0} (least most : ℕ) (c d : Cpu M) : Type 0 where
  pub at_least : c.executed_cycles + least ≤ d.executed_cycles
  pub at_most : d.executed_cycles ≤ c.executed_cycles + most
  pub no_later : d.counters.cycles_limit ≤ c.counters.cycles_limit

-- The loop has left through its condition, at most 26 cycles past `total`.
abbrev pub Ended : {M : Type 0} → ℕ → Cpu M → Type 0
Ended total d = (d.counters.cycles_limit ≤ d.executed_cycles) × (d.executed_cycles ≤ total + 26)

module _ {M : Type 0} ⦃bus : Bus M⦄ where
  counted : OpcodeDesc M → Cpu M → Cpu M
  unfolding pack_ps
  counted entry c =
      let e = entry.handler (record c { extra_cycles = 0 }) in
      pack_ps (record e {
        executed_cycles = word32 (e.executed_cycles + word32 (entry.base_cycles + e.extra_cycles));
      })

  check_nmi-Counts :
      (is_cmos : Bool) (c : Cpu M)
      → c.executed_cycles + 7 < 2 ^ 32
      → Counts 0 7 c (check_nmi is_cmos c)
  unfolding check_nmi push pack_ps
  check_nmi-Counts is_cmos c h = ground arith

  check_irq-Counts :
      (is_cmos : Bool) (c : Cpu M)
      → c.executed_cycles + 7 < 2 ^ 32
      → Counts 0 7 c (check_irq is_cmos c)
  unfolding check_irq push pack_ps
  check_irq-Counts is_cmos c h = ground arith

  joined-Counts :
      (c d e f g : Cpu M)
      → Within 0 c d
      → Counts 2 12 d e
      → Counts 0 7 e f
      → Counts 0 7 f g
      → Counts 2 26 c g
  joined-Counts c d e f g fetched first second third = ground arith

  op_nop-IsCalm : IsCalm (desc {M = M} op_nop 2)
  unfolding op_nop
  op_nop-IsCalm = grind arith

  module _ (l : Lowers bus) where
    lookup-IsCalm : (is_cmos : Bool) (opcode : ℕ) → IsCalm (lookup {M = M} is_cmos opcode)
    unfolding lookup
    lookup-IsCalm true opcode =
        All-get_or IsCalm (get_or opcodes_cmos (opcode / 16) []) (opcode % 16)
          (desc {M = M} op_nop 2)
          (All-get_or (All (IsCalm {M = M})) opcodes_cmos (opcode / 16) [] (opcodes_cmos-IsCalm l)
            tt)
          op_nop-IsCalm
    lookup-IsCalm false opcode =
        All-get_or IsCalm (get_or opcodes_nmos (opcode / 16) []) (opcode % 16)
          (desc {M = M} op_nop 2)
          (All-get_or (All (IsCalm {M = M})) opcodes_nmos (opcode / 16) [] (opcodes_nmos-IsCalm l)
            tt)
          op_nop-IsCalm

    fetch_opcode-Within : (c : Cpu M) → Within 0 c (fetch_opcode c).1
    unfolding fetch_opcode
    fetch_opcode-Within c = grind (arith, read-Within)

    -- The instruction alone, before the interrupt lines are looked at.
    counted-Counts :
        (entry : OpcodeDesc M) (c : Cpu M)
        → IsCalm entry
        → c.executed_cycles + 12 < 2 ^ 32
        → Counts 2 12 c (counted entry c)
    unfolding counted pack_ps
    counted-Counts entry c calm h =
        let within = calm.2 (record c { extra_cycles = 0 }) in ground arith

    cpu_turn-Counts :
        (is_cmos : Bool) (c : Cpu M)
        → c.executed_cycles + 26 < 2 ^ 32
        → Counts 2 26 c (cpu_turn is_cmos c)
    unfolding cpu_turn counted
    cpu_turn-Counts is_cmos c h =
        let (opcode, d) = fetch_opcode c in
        let fetched = fetch_opcode-Within c in
        let e = counted (lookup is_cmos opcode) d in
        let first =
          counted-Counts (lookup is_cmos opcode) d (lookup-IsCalm is_cmos opcode) (omega arith) in
        let second = check_nmi-Counts is_cmos e (omega arith) in
        let third = check_irq-Counts is_cmos (check_nmi is_cmos e) (omega arith) in
        joined-Counts c d e (check_nmi is_cmos e) _ fetched first second third

    cpu_turns-ends :
        (is_cmos : Bool) (fuel : ℕ) (c : Cpu M) (total : ℕ)
        → c.counters.cycles_limit ≤ total
        → c.executed_cycles ≤ total
        → total + 26 < 2 ^ 32
        → c.counters.cycles_limit ≤ c.executed_cycles + fuel
        → Ended total (cpu_turns is_cmos fuel c)
    unfolding cpu_turns
    cpu_turns-ends is_cmos zero c total bound early fits enough =
        let turn = cpu_turn-Counts is_cmos c (omega arith) in ground arith
    cpu_turns-ends is_cmos (suc fuel) c total bound early fits enough =
        let turn = cpu_turn-Counts is_cmos c (omega arith) in
        let d = cpu_turn is_cmos c in
        if_split (Ended total) (ltb d.executed_cycles d.counters.cycles_limit)
          (λ more.
            cpu_turns-ends is_cmos fuel d total (omega arith) (ground arith) fits (omega arith))
          (λ done. (ground arith, omega arith))

    cpu_execute_loop-Ended :
        (is_cmos : Bool) (start : ℕ) (c : Cpu M) (total : ℕ)
        → c.counters.cycles_limit ≤ total
        → start ≤ total
        → total + 26 < 2 ^ 32
        → Ended total (cpu_execute_loop is_cmos start c)
    unfolding cpu_execute_loop unpack_ps
    cpu_execute_loop-Ended is_cmos start c total bound early fits =
        let fresh =
          unpack_ps (record c { addr = 0; base = 0; extra_cycles = 0; executed_cycles = start }) in
        cpu_turns-ends is_cmos c.counters.cycles_limit fresh total bound early fits (omega arith)

    -- With I/O handlers that do not raise the bound, and a total below 2 ^ 32 - 26, `cpu_execute` leaves its
    -- loop by the loop's condition, at most 26 cycles past the total.
    pub cpu_execute-Ended :
        (is_cmos : Bool) (total : ℕ) (c : Cpu M)
        → total + 26 < 2 ^ 32
        → Ended total (cpu_execute is_cmos total c)
    unfolding cpu_execute
    cpu_execute-Ended is_cmos total c fits =
        let started = record c {
          counters = record c.counters {
            cycles_submitted = total;
            cycles_executed = 0;
            cycles_limit = total;
          };
        } in
        cpu_execute_loop-Ended is_cmos 0 started total (omega arith) (omega arith) fits

    -- With such handlers, a slice that starts within its frame, of less than 2 ^ 32 - 26 cycles, leaves the loop by
    -- the loop's condition, at most 26 cycles past the frame, and the count it keeps for the next is the loop's.
    pub cpu_execute_slice-Ended :
        (is_cmos : Bool) (frame until : ℕ) (c : Cpu M)
        → c.counters.cycles_executed ≤ frame
        → frame + 26 < 2 ^ 32
        → Ended frame (cpu_execute_slice is_cmos frame until c)
          × ((cpu_execute_slice is_cmos frame until c).counters.cycles_executed
              ≡ (cpu_execute_slice is_cmos frame until c).executed_cycles)
    unfolding cpu_execute_slice
    cpu_execute_slice-Ended is_cmos frame until c early fits =
        let entered = record c.counters { in_slice = true; cycles_limit = frame } in
        (
          cpu_execute_loop-Ended is_cmos c.counters.cycles_executed
              (record c { counters = cpu_limit_cycles until entered }) frame
              (cpu_limit_cycles-lowers until entered) early fits,
          refl,
        )
