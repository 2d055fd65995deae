-- ===== src/Cpu/Unofficial.antt =====
-- The undocumented operations of the NMOS 6502.
pub mod Pairs
use linapple.Common.{ℕ, zero, suc, ◌+◌, ◌-◌, ◌*◌, ◌/◌, ◌%◌, bit_and, bit_or, bit_xor}
use linapple.Common.{Bool, true, ltb, leb, ◌==◌, ◌!=◌, if◌then◌else◌}
use linapple.Cpu.{Bus, Cpu, byte, word, minus, flag, set_nz, set_z, read_byte, write_byte}
use linapple.Cpu.Arithmetic.{adc_nmos, sbc_nmos, is_decimal}

module _ {M : Type 0} where
  -- What ARR does with `temp`, the accumulator under the byte read.
  unfoldable pub rotate_masked : Cpu M → ℕ → Cpu M
  rotate_masked c temp =
      let val = bit_or temp (if c.flagc != 0 then 0x100 else 0) / 2 in
      let low =
        if ltb 0x05 (bit_and val 0x0f + bit_and val 0x01)
        then bit_or (bit_and val 0xf0) (bit_and (val + 0x06) 0x0f)
        else val in
      let carry = ltb 0x50 (bit_and low 0xf0 + bit_and low 0x10) in
      let high = if carry then bit_or (bit_and low 0x0f) (bit_and (low + 0x60) 0xf0) else low in
      if is_decimal c
      then record (set_z c val) {
        flagn = if c.flagc != 0 then 0x80 else 0;
        flagv = bit_and (bit_xor val temp) 0x40;
        flagc = flag carry;
        a = bit_and high 0xff;
      }
      else record (set_nz c val) {
        flagc = flag (bit_and val 0x40 != 0);
        flagv = bit_xor (bit_and val 0x40) (bit_and val 0x20 * 2);
        a = bit_and val 0xff;
      }

  -- `((base >> 8) + 1) & 0xFF`.
  abbrev next_page : Cpu M → ℕ
  next_page c = bit_and (c.base / 256 + 1) 0xff

module _ {M : Type 0} ⦃bus : Bus M⦄ where
  -- The value is written at an address whose high byte it has become.
  unfoldable pub write_unstable : Cpu M → ℕ → Cpu M
  write_unstable c val =
      let addr = bit_or (bit_and c.addr 0x00ff) (val * 256) in
      write_byte (record c { addr = addr }) addr (byte val)

  unfoldable pub op_alr : Cpu M → Cpu M
  op_alr c =
      let (val, d) = read_byte c c.addr in
      let a = bit_and d.a val in
      set_z (record d { flagc = bit_and a 1; flagn = 0; a = a / 2 }) (a / 2)

  unfoldable pub op_anc : Cpu M → Cpu M
  op_anc c =
      let (val, d) = read_byte c c.addr in
      let a = bit_and d.a val in
      let e = set_nz (record d { a = a }) a in record e { flagc = flag (e.flagn != 0) }

  unfoldable pub op_arr : Cpu M → Cpu M
  op_arr c = let (val, d) = read_byte c c.addr in rotate_masked d (bit_and d.a val)

  unfoldable pub op_aso : Cpu M → Cpu M
  op_aso c =
      let (read, d) = read_byte c c.addr in
      let val = read * 2 in
      let e = write_byte (record d { flagc = flag (ltb 0xff val) }) d.addr (byte val) in
      let a = byte (bit_or e.a val) in set_nz (record e { a = a }) a

  unfoldable pub op_axa : Cpu M → Cpu M
  op_axa c = write_unstable c (bit_and (bit_and c.a c.x) (next_page c))

  unfoldable pub op_axs : Cpu M → Cpu M
  op_axs c = write_byte c c.addr (bit_and c.a c.x)

  -- `val` has 16 bits: it is 0xFFFF when the byte read is 0.
  unfoldable pub op_dcm : Cpu M → Cpu M
  op_dcm c =
      let (read, d) = read_byte c c.addr in
      let val = minus read 1 in
      let e = write_byte d d.addr (byte val) in
      set_nz (record e { flagc = flag (leb val e.a) }) (minus e.a val)

  -- `val` has 16 bits: it is 0x100 when the byte read is 0xFF.
  unfoldable pub op_ins : Cpu M → Cpu M
  op_ins c =
      let (read, d) = read_byte c c.addr in
      let val = read + 1 in sbc_nmos (write_byte d d.addr (byte val)) val

  unfoldable pub op_las : Cpu M → Cpu M
  op_las c =
      let (read, d) = read_byte c c.addr in
      let val = byte (bit_and read d.sp) in
      set_nz (record d { a = val; x = val; sp = bit_or val 0x100 }) val

  unfoldable pub op_lax : Cpu M → Cpu M
  op_lax c = let (val, d) = read_byte c c.addr in set_nz (record d { a = val; x = val }) val

  unfoldable pub op_lse : Cpu M → Cpu M
  op_lse c =
      let (read, d) = read_byte c c.addr in
      let val = read / 2 in
      let e = write_byte (record d { flagc = bit_and read 1 }) d.addr (byte val) in
      let a = byte (bit_xor e.a val) in set_nz (record e { a = a }) a

  unfoldable pub op_oal : Cpu M → Cpu M
  op_oal c =
      let (val, d) = read_byte c c.addr in
      let a = bit_and (bit_or d.a 0xee) val in set_nz (record d { a = a; x = a }) a

  unfoldable pub op_rla : Cpu M → Cpu M
  op_rla c =
      let (read, d) = read_byte c c.addr in
      let val = bit_or (read * 2) d.flagc in
      let e = write_byte (record d { flagc = flag (ltb 0xff val) }) d.addr (byte val) in
      let a = bit_and e.a val in set_nz (record e { a = a }) a

  unfoldable pub op_rra : Cpu M → Cpu M
  op_rra c =
      let (temp, d) = read_byte c c.addr in
      let val = bit_or (temp / 2) (if d.flagc != 0 then 0x80 else 0) in
      adc_nmos (write_byte (record d { flagc = bit_and temp 1 }) d.addr (byte val)) val

  unfoldable pub op_sax : Cpu M → Cpu M
  op_sax c =
      let temp = bit_and c.a c.x in
      let (val, d) = read_byte c c.addr in
      let x = byte (minus temp val) in set_nz (record d { flagc = flag (leb val temp); x = x }) x

  unfoldable pub op_say : Cpu M → Cpu M
  op_say c = write_unstable c (bit_and c.y (next_page c))

  unfoldable pub op_tas : Cpu M → Cpu M
  op_tas c =
      let val = bit_and c.a c.x in
      write_unstable (record c { sp = bit_or 0x100 val }) (bit_and val (next_page c))

  unfoldable pub op_xaa : Cpu M → Cpu M
  op_xaa c =
      let (val, d) = read_byte c c.addr in let a = bit_and d.x val in set_nz (record d { a = a }) a

  unfoldable pub op_xas : Cpu M → Cpu M
  op_xas c = write_unstable c (bit_and c.x (next_page c))
