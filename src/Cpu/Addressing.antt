-- ===== src/Cpu/Addressing.antt =====
-- The addressing modes of `CpuLoopContext`: each leaves the operand's address in `addr`.
use linapple.Common.{ℕ, ◌+◌, ◌*◌, bit_and, ◌==◌, if◌then◌else◌, ltb}
use linapple.Cpu.{Bus, Cpu, word, next_pc, check_page_change, read_u16}

module _ {M : Type 0} ⦃bus : Bus M⦄ where
  -- The byte at `pc`.
  abbrev operand : Cpu M → ℕ
  operand c = bus.peek c.mem c.pc

  -- A pointer in page 0: its high byte wraps around to address 0.
  abbrev zero_page_pointer : Cpu M → ℕ → ℕ
  zero_page_pointer c at =
      if at == 0xff then bus.peek c.mem 0xff + bus.peek c.mem 0 * 256 else read_u16 c at

  unfoldable pub addr_imm : Cpu M → Cpu M
  addr_imm c = next_pc (record c { addr = c.pc }) 1

  unfoldable pub addr_zpg : Cpu M → Cpu M
  addr_zpg c = next_pc (record c { addr = operand c }) 1

  unfoldable pub addr_zpgx : Cpu M → Cpu M
  addr_zpgx c = next_pc (record c { addr = bit_and (operand c + c.x) 0xff }) 1

  unfoldable pub addr_zpgy : Cpu M → Cpu M
  addr_zpgy c = next_pc (record c { addr = bit_and (operand c + c.y) 0xff }) 1

  unfoldable pub addr_abs : Cpu M → Cpu M
  addr_abs c = next_pc (record c { addr = read_u16 c c.pc }) 2

  unfoldable pub addr_absx : Cpu M → Cpu M
  addr_absx c =
      let base = read_u16 c c.pc in
      let addr = word (base + c.x) in
      check_page_change (next_pc (record c { base = base; addr = addr }) 2) base addr

  unfoldable pub addr_absy : Cpu M → Cpu M
  addr_absy c =
      let base = read_u16 c c.pc in
      let addr = word (base + c.y) in
      check_page_change (next_pc (record c { base = base; addr = addr }) 2) base addr

  unfoldable pub addr_iabs_nmos : Cpu M → Cpu M
  addr_iabs_nmos c =
      let base = read_u16 c c.pc in
      let wrapped = bus.peek c.mem base + bus.peek c.mem (bit_and base 0xff00) * 256 in
      let addr = if bit_and base 0xff == 0xff then wrapped else read_u16 c base in
      next_pc (record c { base = base; addr = addr }) 2

  unfoldable pub addr_iabs_cmos : Cpu M → Cpu M
  addr_iabs_cmos c =
      let base = read_u16 c c.pc in
      let extra = if bit_and base 0xff == 0xff then 1 else c.extra_cycles in
      next_pc (record c { base = base; addr = read_u16 c base; extra_cycles = extra }) 2

  unfoldable pub addr_iabsx : Cpu M → Cpu M
  addr_iabsx c = next_pc (record c { addr = read_u16 c (read_u16 c c.pc + c.x) }) 2

  unfoldable pub addr_indx : Cpu M → Cpu M
  addr_indx c =
      let base = bit_and (operand c + c.x) 0xff in
      next_pc (record c { base = base; addr = zero_page_pointer c base }) 1

  unfoldable pub addr_indy : Cpu M → Cpu M
  addr_indy c =
      let base = zero_page_pointer c (operand c) in
      let addr = word (base + c.y) in
      check_page_change (next_pc (record c { base = base; addr = addr }) 1) base addr

  unfoldable pub addr_izpg : Cpu M → Cpu M
  addr_izpg c =
      let base = operand c in next_pc (record c { base = base; addr = zero_page_pointer c base }) 1

  -- The operand is signed: from 0x80 up it stands for itself less 256.
  unfoldable pub addr_rel : Cpu M → Cpu M
  addr_rel c =
      let offset = operand c in
      next_pc (record c { addr = if ltb offset 0x80 then offset else offset + 0xff00 }) 1
