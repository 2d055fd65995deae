-- ===== src/Cpu/Operations.antt =====
-- The standard operations of `CpuLoopContext` but those on the stack and ADC and SBC.
use linapple.Common.{ℕ, ◌+◌, ◌-◌, ◌*◌, ◌/◌, bit_and, bit_or, bit_xor}
use linapple.Common.{true, ltb, leb, ◌==◌, ◌!=◌, if◌then◌else◌}
use linapple.Cpu.{Bus, Cpu, byte, minus, flag, set_nz, set_z, read_byte, write_byte}
use linapple.Cpu.{af_decimal, af_interrupt}

module _ {M : Type 0} where
  unfoldable pub op_tax : Cpu M → Cpu M
  op_tax c = set_nz (record c { x = c.a }) c.a

  unfoldable pub op_txa : Cpu M → Cpu M
  op_txa c = set_nz (record c { a = c.x }) c.x

  unfoldable pub op_tay : Cpu M → Cpu M
  op_tay c = set_nz (record c { y = c.a }) c.a

  unfoldable pub op_tya : Cpu M → Cpu M
  op_tya c = set_nz (record c { a = c.y }) c.y

  unfoldable pub op_tsx : Cpu M → Cpu M
  op_tsx c = let x = bit_and c.sp 0xff in set_nz (record c { x = x }) x

  unfoldable pub op_txs : Cpu M → Cpu M
  op_txs c = record c { sp = bit_or 0x100 c.x }

  unfoldable pub op_asla : Cpu M → Cpu M
  op_asla c =
      let val = c.a * 2 in set_nz (record c { flagc = flag (ltb 0xff val); a = byte val }) val

  unfoldable pub op_lsra : Cpu M → Cpu M
  op_lsra c = set_z (record c { flagc = bit_and c.a 1; flagn = 0; a = c.a / 2 }) (c.a / 2)

  unfoldable pub op_rola : Cpu M → Cpu M
  op_rola c =
      let val = bit_or (c.a * 2) c.flagc in
      let a = bit_and val 0xff in set_nz (record c { flagc = flag (ltb 0xff val); a = a }) a

  unfoldable pub op_rora : Cpu M → Cpu M
  op_rora c =
      let val = bit_or (c.a / 2) (if c.flagc != 0 then 0x80 else 0) in
      let a = bit_and val 0xff in set_nz (record c { flagc = bit_and c.a 1; a = a }) a

  unfoldable pub op_ina : Cpu M → Cpu M
  op_ina c = let a = byte (c.a + 1) in set_nz (record c { a = a }) a

  unfoldable pub op_dea : Cpu M → Cpu M
  op_dea c = let a = byte (c.a + 255) in set_nz (record c { a = a }) a

  unfoldable pub op_inx : Cpu M → Cpu M
  op_inx c = let x = byte (c.x + 1) in set_nz (record c { x = x }) x

  unfoldable pub op_dex : Cpu M → Cpu M
  op_dex c = let x = byte (c.x + 255) in set_nz (record c { x = x }) x

  unfoldable pub op_iny : Cpu M → Cpu M
  op_iny c = let y = byte (c.y + 1) in set_nz (record c { y = y }) y

  unfoldable pub op_dey : Cpu M → Cpu M
  op_dey c = let y = byte (c.y + 255) in set_nz (record c { y = y }) y

  unfoldable pub op_jmp : Cpu M → Cpu M
  op_jmp c = record c { pc = c.addr }

  unfoldable pub op_clc : Cpu M → Cpu M
  op_clc c = record c { flagc = 0 }

  unfoldable pub op_sec : Cpu M → Cpu M
  op_sec c = record c { flagc = 1 }

  unfoldable pub op_clv : Cpu M → Cpu M
  op_clv c = record c { flagv = 0 }

  unfoldable pub op_cli : Cpu M → Cpu M
  op_cli c = record c { ps = bit_and c.ps (0xff - af_interrupt) }

  unfoldable pub op_sei : Cpu M → Cpu M
  op_sei c = record c { ps = bit_or c.ps af_interrupt }

  unfoldable pub op_cld : Cpu M → Cpu M
  op_cld c = record c { ps = bit_and c.ps (0xff - af_decimal) }

  unfoldable pub op_sed : Cpu M → Cpu M
  op_sed c = record c { ps = bit_or c.ps af_decimal }

  unfoldable pub op_hlt : Cpu M → Cpu M
  op_hlt c = record c { is_jammed = true; pc = minus c.pc 1 }

  unfoldable pub op_nop : Cpu M → Cpu M
  op_nop c = c

  -- What CMP, CPX and CPY do with the byte read.
  unfoldable pub compare_with : Cpu M → ℕ → ℕ → Cpu M
  compare_with c register val =
      set_nz (record c { flagc = flag (leb val register) }) (minus register val)

  module _ ⦃bus : Bus M⦄ where
    unfoldable pub op_lda : Cpu M → Cpu M
    op_lda c = let (val, d) = read_byte c c.addr in set_nz (record d { a = val }) val

    unfoldable pub op_ldx : Cpu M → Cpu M
    op_ldx c = let (val, d) = read_byte c c.addr in set_nz (record d { x = val }) val

    unfoldable pub op_ldy : Cpu M → Cpu M
    op_ldy c = let (val, d) = read_byte c c.addr in set_nz (record d { y = val }) val

    unfoldable pub op_sta : Cpu M → Cpu M
    op_sta c = write_byte c c.addr c.a

    unfoldable pub op_stx : Cpu M → Cpu M
    op_stx c = write_byte c c.addr c.x

    unfoldable pub op_sty : Cpu M → Cpu M
    op_sty c = write_byte c c.addr c.y

    unfoldable pub op_stz : Cpu M → Cpu M
    op_stz c = write_byte c c.addr 0

    unfoldable pub op_and : Cpu M → Cpu M
    op_and c =
        let (val, d) = read_byte c c.addr in
        let a = bit_and d.a val in set_nz (record d { a = a }) a

    unfoldable pub op_ora : Cpu M → Cpu M
    op_ora c =
        let (val, d) = read_byte c c.addr in let a = bit_or d.a val in set_nz (record d { a = a }) a

    unfoldable pub op_eor : Cpu M → Cpu M
    op_eor c =
        let (val, d) = read_byte c c.addr in
        let a = bit_xor d.a val in set_nz (record d { a = a }) a

    unfoldable pub op_bit : Cpu M → Cpu M
    op_bit c =
        let (val, d) = read_byte c c.addr in
        record d {
          flagz = flag (bit_and d.a val == 0);
          flagn = bit_and val 0x80;
          flagv = bit_and val 0x40;
        }

    unfoldable pub op_biti : Cpu M → Cpu M
    op_biti c =
        let (val, d) = read_byte c c.addr in record d { flagz = flag (bit_and d.a val == 0) }

    unfoldable pub op_cmp : Cpu M → Cpu M
    op_cmp c = let (val, d) = read_byte c c.addr in compare_with d d.a val

    unfoldable pub op_cpx : Cpu M → Cpu M
    op_cpx c = let (val, d) = read_byte c c.addr in compare_with d d.x val

    unfoldable pub op_cpy : Cpu M → Cpu M
    op_cpy c = let (val, d) = read_byte c c.addr in compare_with d d.y val

    unfoldable pub op_asl : Cpu M → Cpu M
    op_asl c =
        let (read, d) = read_byte c c.addr in
        let val = read * 2 in
        write_byte (set_nz (record d { flagc = flag (ltb 0xff val) }) val) d.addr (byte val)

    unfoldable pub op_lsr : Cpu M → Cpu M
    op_lsr c =
        let (val, d) = read_byte c c.addr in
        let e = set_z (record d { flagc = bit_and val 1; flagn = 0 }) (val / 2) in
        write_byte e e.addr (byte (val / 2))

    unfoldable pub op_rol : Cpu M → Cpu M
    op_rol c =
        let (read, d) = read_byte c c.addr in
        let val = bit_or (read * 2) d.flagc in
        write_byte (set_nz (record d { flagc = flag (ltb 0xff val) }) val) d.addr (byte val)

    unfoldable pub op_ror : Cpu M → Cpu M
    op_ror c =
        let (temp, d) = read_byte c c.addr in
        let val = bit_or (temp / 2) (if d.flagc != 0 then 0x80 else 0) in
        write_byte (set_nz (record d { flagc = bit_and temp 1 }) val) d.addr (byte val)

    unfoldable pub op_inc : Cpu M → Cpu M
    op_inc c =
        let (read, d) = read_byte c c.addr in
        let val = read + 1 in write_byte (set_nz d val) d.addr (byte val)

    unfoldable pub op_dec : Cpu M → Cpu M
    op_dec c =
        let (read, d) = read_byte c c.addr in
        let val = minus read 1 in write_byte (set_nz d val) d.addr (byte val)

    unfoldable pub op_trb : Cpu M → Cpu M
    op_trb c =
        let (val, d) = read_byte c c.addr in
        let kept = bit_and val (0xffff - d.a) in
        write_byte (record d { flagz = flag (bit_and d.a val == 0) }) d.addr (byte kept)

    unfoldable pub op_tsb : Cpu M → Cpu M
    op_tsb c =
        let (val, d) = read_byte c c.addr in
        let joined = bit_or val d.a in
        write_byte (record d { flagz = flag (bit_and d.a val == 0) }) d.addr (byte joined)
