-- ===== src/Cpu/Stack.antt =====
-- The operations of `CpuLoopContext` on the stack, subroutines and the interrupt sequence.
pub mod RoundTrip
pub mod Status
use linapple.Common.{ℕ, zero, suc, ◌+◌, ◌-◌, ◌*◌, ◌/◌, ◌%◌, bit_and, bit_or}
use linapple.Common.{Bool, true, false, if◌then◌else◌, ◌!=◌, ◌==◌, ◌&&◌}
use linapple.Cpu.{
  Bus, Cpu, Counters, byte, word, minus, flag, set_nz, pack_ps, unpack_ps, push, pop,
}
use linapple.Cpu.{next_pc, read_u16, af_reserved, af_break, af_interrupt, af_decimal}
use linapple.Cpu.{irq_vector_addr, nmi_vector_addr}

-- Interrupts are masked; a 65C02 leaves decimal mode too.
pub mask_interrupts : Bool → ℕ → ℕ
mask_interrupts cmos ps =
    let masked = bit_or ps af_interrupt in
    if cmos then bit_and masked (0xff - af_decimal) else masked

module _ {M : Type 0} ⦃bus : Bus M⦄ where
  -- `push(regs.pc >> 8); push(regs.pc & 0xFF);`
  pub push_pc : Cpu M → Cpu M
  push_pc c = push (push c (byte (c.pc / 256))) (bit_and c.pc 0xff)

  -- `regs.pc = pop(); regs.pc |= pop() << 8;`
  pub pop_pc : Cpu M → Cpu M
  pop_pc c =
      let (low, d) = pop c in let (high, e) = pop d in record e { pc = bit_or low (high * 256) }

  unfoldable pub op_jsr : Cpu M → Cpu M
  unfolding push_pc
  op_jsr c = let d = push_pc (record c { pc = minus c.pc 1 }) in record d { pc = d.addr }

  unfoldable pub op_rts : Cpu M → Cpu M
  unfolding pop_pc
  op_rts c = next_pc (pop_pc c) 1

  -- `regs.ps = pop() | AF_RESERVED | AF_BREAK; unpack_ps();`
  unfoldable pub op_plp : Cpu M → Cpu M
  op_plp c =
      let (val, d) = pop c in unpack_ps (record d { ps = bit_or (bit_or val af_reserved) af_break })

  unfoldable pub op_rti : Cpu M → Cpu M
  unfolding op_plp pop_pc
  op_rti c = pop_pc (op_plp c)

  unfoldable pub op_php : Cpu M → Cpu M
  op_php c = let d = pack_ps c in push d d.ps

  unfoldable pub op_pha : Cpu M → Cpu M
  op_pha c = push c c.a

  unfoldable pub op_phx : Cpu M → Cpu M
  op_phx c = push c c.x

  unfoldable pub op_phy : Cpu M → Cpu M
  op_phy c = push c c.y

  unfoldable pub op_pla : Cpu M → Cpu M
  op_pla c = let (val, d) = pop c in set_nz (record d { a = val }) val

  unfoldable pub op_plx : Cpu M → Cpu M
  op_plx c = let (val, d) = pop c in set_nz (record d { x = val }) val

  unfoldable pub op_ply : Cpu M → Cpu M
  op_ply c = let (val, d) = pop c in set_nz (record d { y = val }) val

  unfoldable pub op_brk : Bool → Cpu M → Cpu M
  unfolding push_pc mask_interrupts
  op_brk cmos c =
      let d = pack_ps (push_pc (next_pc c 1)) in
      let e = push d d.ps in
      record e { ps = mask_interrupts cmos e.ps; pc = read_u16 e irq_vector_addr }

  -- The common part of `check_nmi` and `check_irq`: the pushed status has the break bit clear.
  pub enter_interrupt : Bool → ℕ → Cpu M → Cpu M
  unfolding push_pc mask_interrupts
  enter_interrupt cmos vector c =
      let d = pack_ps (push_pc c) in
      let e = push d (bit_and d.ps (0xff - af_break)) in
      record e {
        ps = mask_interrupts cmos e.ps;
        pc = read_u16 e vector;
        executed_cycles = (e.executed_cycles + 7) % 4294967296;
      }

  unfoldable pub check_nmi : Bool → Cpu M → Cpu M
  unfolding enter_interrupt
  check_nmi cmos c =
      let d = record c { counters = record c.counters { nmi_flank = false } } in
      if c.counters.nmi_flank then enter_interrupt cmos nmi_vector_addr d else d

  unfoldable pub check_irq : Bool → Cpu M → Cpu M
  unfolding enter_interrupt
  check_irq cmos c =
      if c.counters.bm_irq != 0 && (bit_and c.ps af_interrupt == 0)
      then enter_interrupt cmos irq_vector_addr c
      else c
