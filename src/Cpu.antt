-- ===== src/Cpu.antt =====
-- The state of CPU.cpp and the primitives of `CpuLoopContext`: flags, stack, memory and I/O, branches.
--
-- `regs`, the loop's context and the file's counters are one record; `mem`, `memwrite`, `memdirty` and
-- `io_map_dispatch` belong to Memory.cpp, and are the interface `Bus`.
mod Addressing
mod Operations
mod Stack
mod Arithmetic
mod Unofficial
mod Opcodes
mod Execute
mod Tests
use linapple.Common.{ℕ, zero, suc, ◌+◌, ◌-◌, ◌*◌, ◌/◌, ◌%◌, ◌^◌, bit_and, bit_or, bit_xor}
use linapple.Common.{◌≡◌, ◌≢◌, Bool, true, false, ltb, leb, ◌==◌, ◌!=◌, if◌then◌else◌}

-- The shared counters and interrupt lines, which an I/O handler may change.
pub record Counters : Type 0 where
  pub cumulative_cycles : ℕ
  pub cycles_submitted : ℕ
  pub cycles_executed : ℕ
  pub cycles_limit : ℕ
  pub in_slice : Bool
  pub bm_irq : ℕ
  pub bm_nmi : ℕ
  pub nmi_flank : Bool

-- `peek` and `poke` are `*(mem + a)`, `store` writes through the page table `memwrite`.
pub record Bus (M : Type 0) : Type 0 where
  pub peek : M → ℕ → ℕ
  pub poke : M → ℕ → ℕ → M
  pub mark_dirty : M → ℕ → M
  pub is_writable : M → ℕ → Bool
  pub store : M → ℕ → ℕ → M
  pub io_map_dispatch : ℕ → ℕ → ℕ → ℕ → ℕ → Counters → M → ℕ × (Counters × M)
  pub peek-poke : (m : M) (a v : ℕ) → peek (poke m a v) a ≡ v
  pub peek-poke_ne : (m : M) (a b v : ℕ) → b ≢ a → peek (poke m a v) b ≡ peek m b

-- `CpuRegisters`, `CpuLoopContext`, and what lies behind the bus.
pub record Cpu (M : Type 0) : Type 0 where
  pub a : ℕ
  pub x : ℕ
  pub y : ℕ
  pub ps : ℕ
  pub pc : ℕ
  pub sp : ℕ
  pub is_jammed : Bool
  pub addr : ℕ
  pub base : ℕ
  pub extra_cycles : ℕ
  pub flagc : ℕ
  pub flagn : ℕ
  pub flagv : ℕ
  pub flagz : ℕ
  pub executed_cycles : ℕ
  pub counters : Counters
  pub mem : M

abbrev pub af_sign : ℕ
af_sign = 0x80

abbrev pub af_overflow : ℕ
af_overflow = 0x40

abbrev pub af_reserved : ℕ
af_reserved = 0x20

abbrev pub af_break : ℕ
af_break = 0x10

abbrev pub af_decimal : ℕ
af_decimal = 0x08

abbrev pub af_interrupt : ℕ
af_interrupt = 0x04

abbrev pub af_zero : ℕ
af_zero = 0x02

abbrev pub af_carry : ℕ
af_carry = 0x01

abbrev pub stack_begin : ℕ
stack_begin = 0x100

abbrev pub stack_end : ℕ
stack_end = 0x1ff

abbrev pub nmi_vector_addr : ℕ
nmi_vector_addr = 0xfffa

abbrev pub reset_vector_addr : ℕ
reset_vector_addr = 0xfffc

abbrev pub irq_vector_addr : ℕ
irq_vector_addr = 0xfffe

-- `static_cast<uint8_t>` and `static_cast<uint16_t>`, and subtraction in 16 bits.
abbrev pub byte : ℕ → ℕ
byte n = n % 256

abbrev pub word : ℕ → ℕ
word n = n % 65536

abbrev pub minus : ℕ → ℕ → ℕ
minus m n = (m + 65536 - n) % 65536

-- `cond ? 1 : 0`.
abbrev pub flag : Bool → ℕ
flag b = if b then 1 else 0

abbrev pub in_io_region : ℕ → Bool
in_io_region address = bit_and address 0xf000 == 0xc000

module _ {M : Type 0} where
  pub set_nz : Cpu M → ℕ → Cpu M
  set_nz c val = record c { flagn = bit_and val 0x80; flagz = flag (bit_and val 0xff == 0) }

  pub set_z : Cpu M → ℕ → Cpu M
  set_z c val = record c { flagz = flag (bit_and val 0xff == 0) }

  -- `~(AF_CARRY | AF_SIGN | AF_OVERFLOW | AF_ZERO)` in eight bits is 0x3C.
  pub packed_ps : Cpu M → ℕ
  packed_ps c =
      let kept = bit_or (bit_or (bit_and c.ps 0x3c) c.flagc) c.flagn in
      let overflow = bit_or kept (if c.flagv != 0 then af_overflow else 0) in
      let all_flags = bit_or overflow (if c.flagz != 0 then af_zero else 0) in
      bit_or (bit_or all_flags af_reserved) af_break

  pub pack_ps : Cpu M → Cpu M
  unfolding packed_ps
  pack_ps c = record c { ps = packed_ps c }

  pub unpack_ps : Cpu M → Cpu M
  unpack_ps c = record c {
    flagc = bit_and c.ps af_carry;
    flagn = bit_and c.ps af_sign;
    flagv = bit_and c.ps af_overflow;
    flagz = bit_and c.ps af_zero;
  }

  -- A byte of the instruction at `pc` is passed.
  abbrev pub next_pc : Cpu M → ℕ → Cpu M
  next_pc c count = record c { pc = word (c.pc + count) }

  pub check_page_change : Cpu M → ℕ → ℕ → Cpu M
  check_page_change c b a =
      if bit_and (bit_xor b a) 0xff00 != 0 then record c { extra_cycles = 1 } else c

  pub branch_taken : Cpu M → Cpu M
  branch_taken c =
      let target = word (c.pc + c.addr) in
      record c {
        pc = target;
        extra_cycles = if bit_and (bit_xor c.pc target) 0xff00 != 0 then 2 else 1;
      }

  module _ ⦃bus : Bus M⦄ where
    pub push : Cpu M → ℕ → Cpu M
    push c val =
        let below = minus c.sp 1 in
        record c {
          mem = bus.poke c.mem c.sp val;
          sp = if ltb below stack_begin then stack_end else below;
        }

    pub pop : Cpu M → ℕ × Cpu M
    pop c =
        let above = if leb stack_end c.sp then stack_begin else c.sp + 1 in
        (bus.peek c.mem above, record c { sp = above })

    -- `io_map_dispatch` answers, and leaves the counters and the machine as it will.
    pub dispatch : Cpu M → ℕ → ℕ → ℕ → ℕ × Cpu M
    dispatch c address write val =
        let (answer, (counters, mem)) =
          bus.io_map_dispatch c.pc address write val c.executed_cycles c.counters c.mem in
        (answer, record c { counters = counters; mem = mem })

    unfoldable pub read_byte : Cpu M → ℕ → ℕ × Cpu M
    unfolding dispatch
    read_byte c address =
        if in_io_region address then dispatch c address 0 0 else (bus.peek c.mem address, c)

    unfoldable pub write_byte : Cpu M → ℕ → ℕ → Cpu M
    unfolding dispatch
    write_byte c address val =
        let page = address / 256 in
        let marked = record c { mem = bus.mark_dirty c.mem page } in
        if bus.is_writable marked.mem page
        then record marked { mem = bus.store marked.mem address val }
        else if in_io_region address
        then (dispatch marked address 1 val).1
        else marked

    -- Two bytes at an offset of `mem`, the low one first.
    pub read_u16 : Cpu M → ℕ → ℕ
    read_u16 c address = bus.peek c.mem address + bus.peek c.mem (address + 1) * 256

    pub fetch_opcode : Cpu M → ℕ × Cpu M
    unfolding read_byte
    fetch_opcode c = let (opcode, d) = read_byte c c.pc in (opcode, next_pc d 1)
