-- ===== src/Cpu/Execute.antt =====
-- The execution loop, the slices of a frame, the interrupt lines and the reset of CPU.cpp.
pub mod Limits
pub mod Calm
pub mod Ends
use linapple.Common.{ℕ, zero, suc, ◌+◌, ◌-◌, ◌*◌, ◌/◌, ◌%◌, ◌^◌, bit_and, bit_or}
use linapple.Common.{List, [], ◌∷◌, ◌++◌, get_or}
use linapple.Common.{Bool, true, false, not, ◌||◌, ltb, leb, ◌==◌, ◌!=◌, if◌then◌else◌}
use linapple.Cpu.{Bus, Cpu, Counters, byte, word, minus, pack_ps, unpack_ps, fetch_opcode}
use linapple.Cpu.{read_u16, stack_end, reset_vector_addr, af_interrupt, af_decimal}
use linapple.Cpu.Operations.{op_nop}
use linapple.Cpu.Stack.{check_nmi, check_irq}
use linapple.Cpu.Opcodes.{OpcodeDesc, desc}
use linapple.Cpu.Opcodes.NmosLow.{
  nmos_0x, nmos_1x, nmos_2x, nmos_3x, nmos_4x, nmos_5x, nmos_6x, nmos_7x,
}
use linapple.Cpu.Opcodes.NmosHigh.{
  nmos_8x, nmos_9x, nmos_ax, nmos_bx, nmos_cx, nmos_dx, nmos_ex, nmos_fx,
}
use linapple.Cpu.Opcodes.CmosLow.{
  cmos_0x, cmos_1x, cmos_2x, cmos_3x, cmos_4x, cmos_5x, cmos_6x, cmos_7x,
}
use linapple.Cpu.Opcodes.CmosHigh.{
  cmos_8x, cmos_9x, cmos_ax, cmos_bx, cmos_cx, cmos_dx, cmos_ex, cmos_fx,
}

-- `uint32_t` and `uint64_t`.
abbrev pub word32 : ℕ → ℕ
word32 n = n % 4294967296

abbrev pub word64 : ℕ → ℕ
word64 n = n % 18446744073709551616

-- `m - n` in 32 bits.
abbrev pub minus32 : ℕ → ℕ → ℕ
minus32 m n = (m + 4294967296 - n) % 4294967296

abbrev pub uint64_max : ℕ
uint64_max = 18446744073709551615

pub cpu_limit_cycles : ℕ → Counters → Counters
cpu_limit_cycles at_cumulative k =
    let ahead =
      if ltb k.cumulative_cycles at_cumulative then at_cumulative - k.cumulative_cycles else 0 in
    let bound = word64 (k.cycles_executed + ahead) in
    if not k.in_slice || (at_cumulative == uint64_max)
    then k
    else if ltb bound k.cycles_limit
    then record k { cycles_limit = bound }
    else k

module _ {M : Type 0} ⦃bus : Bus M⦄ where
  -- The sixteen rows of each table.
  pub opcodes_nmos : List (List (OpcodeDesc M))
  unfolding nmos_0x nmos_1x nmos_2x nmos_3x nmos_4x nmos_5x nmos_6x nmos_7x nmos_8x nmos_9x nmos_ax
      nmos_bx nmos_cx nmos_dx nmos_ex nmos_fx
  opcodes_nmos =
      nmos_0x ∷ nmos_1x ∷ nmos_2x ∷ nmos_3x ∷ nmos_4x ∷ nmos_5x ∷ nmos_6x ∷ nmos_7x ∷ nmos_8x
      ∷ nmos_9x ∷ nmos_ax ∷ nmos_bx ∷ nmos_cx ∷ nmos_dx ∷ nmos_ex ∷ nmos_fx ∷ []

  pub opcodes_cmos : List (List (OpcodeDesc M))
  unfolding cmos_0x cmos_1x cmos_2x cmos_3x cmos_4x cmos_5x cmos_6x cmos_7x cmos_8x cmos_9x cmos_ax
      cmos_bx cmos_cx cmos_dx cmos_ex cmos_fx
  opcodes_cmos =
      cmos_0x ∷ cmos_1x ∷ cmos_2x ∷ cmos_3x ∷ cmos_4x ∷ cmos_5x ∷ cmos_6x ∷ cmos_7x ∷ cmos_8x
      ∷ cmos_9x ∷ cmos_ax ∷ cmos_bx ∷ cmos_cx ∷ cmos_dx ∷ cmos_ex ∷ cmos_fx ∷ []

  -- `table[opcode]`; an opcode is a byte, so that the default is never taken.
  pub lookup : Bool → ℕ → OpcodeDesc M
  unfolding opcodes_nmos opcodes_cmos op_nop
  lookup is_cmos opcode =
      let table = if is_cmos then opcodes_cmos else opcodes_nmos in
      get_or (get_or table (opcode / 16) []) (opcode % 16) (desc op_nop 2)

  -- One turn of the loop.
  pub cpu_turn : Bool → Cpu M → Cpu M
  unfolding fetch_opcode lookup pack_ps check_nmi check_irq
  cpu_turn is_cmos c =
      let (opcode, d) = fetch_opcode c in
      let entry = lookup is_cmos opcode in
      let e = entry.handler (record d { extra_cycles = 0 }) in
      let after = word32 (e.executed_cycles + word32 (entry.base_cycles + e.extra_cycles)) in
      check_irq is_cmos (check_nmi is_cmos (pack_ps (record e { executed_cycles = after })))

  -- `do { ... } while (executed_cycles < cycles_limit)`, at most `fuel` further turns.
  pub cpu_turns : Bool → ℕ → Cpu M → Cpu M
  unfolding cpu_turn
  cpu_turns is_cmos zero c = cpu_turn is_cmos c
  cpu_turns is_cmos (suc fuel) c =
      let d = cpu_turn is_cmos c in
      let rest = cpu_turns is_cmos fuel d in
      if ltb d.executed_cycles d.counters.cycles_limit then rest else d

  -- A fresh context, its flags unpacked; the limit is the number of turns allowed.
  pub cpu_execute_loop : Bool → ℕ → Cpu M → Cpu M
  unfolding cpu_turns unpack_ps
  cpu_execute_loop is_cmos start_cycles c = cpu_turns is_cmos c.counters.cycles_limit (
      unpack_ps (record c { addr = 0; base = 0; extra_cycles = 0; executed_cycles = start_cycles }))

  -- `cumulative_cycles += executed_cycles - cycles_executed`.
  pub count_remaining : Cpu M → Counters
  count_remaining c =
      let k = c.counters in
      record k {
        cumulative_cycles =
            word64 (k.cumulative_cycles + minus32 c.executed_cycles k.cycles_executed);
      }

  unfoldable pub cpu_execute : Bool → ℕ → Cpu M → Cpu M
  unfolding cpu_execute_loop count_remaining
  cpu_execute is_cmos total_cycles c =
      let started = record c {
        counters = record c.counters {
          cycles_submitted = total_cycles;
          cycles_executed = 0;
          cycles_limit = total_cycles;
        };
      } in
      let d = cpu_execute_loop is_cmos 0 started in record d { counters = count_remaining d }

  -- `SliceGuard` sets the flag for the time of the call.
  unfoldable pub cpu_execute_slice : Bool → ℕ → ℕ → Cpu M → Cpu M
  unfolding cpu_execute_loop count_remaining cpu_limit_cycles
  cpu_execute_slice is_cmos frame_cycles until_cycle c =
      let entered = record c.counters { in_slice = true; cycles_limit = frame_cycles } in
      let limited = cpu_limit_cycles until_cycle entered in
      let d =
        cpu_execute_loop is_cmos c.counters.cycles_executed (record c { counters = limited }) in
      record d {
        counters = record (count_remaining d) {
          cycles_executed = d.executed_cycles;
          in_slice = false;
        };
      }

  unfoldable pub cpu_reset : Cpu M → Cpu M
  cpu_reset c = record c {
    ps = bit_and (bit_or c.ps af_interrupt) (0xff - af_decimal);
    pc = read_u16 c reset_vector_addr;
    sp = bit_or 0x100 (bit_and (minus c.sp 3) 0xff);
    is_jammed = false;
  }

-- `cpu_calc_cycles`: what has been executed is counted once.
pub cpu_calc_cycles : ℕ → Counters → Counters
cpu_calc_cycles executed_cycles k =
    let cycles = minus32 executed_cycles k.cycles_executed in
    record k {
      cycles_executed = word32 (k.cycles_executed + cycles);
      cumulative_cycles = word64 (k.cumulative_cycles + cycles);
    }

unfoldable pub cpu_begin_frame : ℕ → Counters → Counters
cpu_begin_frame frame_cycles k = record k { cycles_submitted = frame_cycles; cycles_executed = 0 }

-- `1U << device`.
abbrev pub device_bit : ℕ → ℕ
device_bit device = word32 (2 ^ device)

unfoldable pub cpu_irq_reset : Counters → Counters
cpu_irq_reset k = record k { bm_irq = 0 }

unfoldable pub cpu_irq_assert : ℕ → Counters → Counters
cpu_irq_assert device k = record k { bm_irq = bit_or k.bm_irq (device_bit device) }

unfoldable pub cpu_irq_deassert : ℕ → Counters → Counters
cpu_irq_deassert device k = record k { bm_irq = bit_and k.bm_irq (4294967295 - device_bit device) }

unfoldable pub cpu_nmi_reset : Counters → Counters
cpu_nmi_reset k = record k { bm_nmi = 0; nmi_flank = false }

unfoldable pub cpu_nmi_assert : ℕ → Counters → Counters
cpu_nmi_assert device k = record k {
  nmi_flank = if k.bm_nmi == 0 then true else k.nmi_flank;
  bm_nmi = bit_or k.bm_nmi (device_bit device);
}

unfoldable pub cpu_nmi_deassert : ℕ → Counters → Counters
cpu_nmi_deassert device k = record k { bm_nmi = bit_and k.bm_nmi (4294967295 - device_bit device) }
