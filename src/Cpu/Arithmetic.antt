-- ===== src/Cpu/Arithmetic.antt =====
-- `op_adc_nmos`, `op_adc_cmos`, `op_sbc_nmos` and `op_sbc_cmos`, each as what it does with the byte
-- read, so that the unofficial operations, whose source repeats these bodies, can use it.
pub mod Both
pub mod Binary
pub mod Decimal
use linapple.Common.{ℕ, zero, suc, ◌+◌, ◌-◌, ◌*◌, ◌/◌, ◌%◌, bit_and, bit_or, bit_xor}
use linapple.Common.{Bool, not, ◌&&◌, ltb, leb, ◌==◌, ◌!=◌, if◌then◌else◌}
use linapple.Cpu.{Bus, Cpu, byte, word, minus, flag, set_nz, read_byte, af_decimal}

-- A decimal digit past 9 is moved past 15: `if (digit > 0x09) digit += 0x06`.
abbrev pub carry_digit : ℕ → ℕ
carry_digit digit = if ltb 9 digit then digit + 6 else digit

-- `if ((digit & 0x10) != 0) digit -= 0x06`.
abbrev pub borrow_digit : ℕ → ℕ
borrow_digit digit = if bit_and digit 0x10 != 0 then minus digit 6 else digit

module _ {M : Type 0} where
  -- Decimal mode.
  unfoldable pub is_decimal : Cpu M → Bool
  is_decimal c = bit_and c.ps af_decimal != 0

  unfoldable pub adc_nmos : Cpu M → ℕ → Cpu M
  unfolding is_decimal
  adc_nmos c temp =
      let val = c.a + temp + c.flagc in
      let low = carry_digit (bit_and c.a 0x0f + bit_and temp 0x0f + c.flagc) in
      let high = carry_digit (c.a / 16 + temp / 16 + flag (ltb 0x0f low)) in
      let flipped = bit_and (bit_xor c.a val) 0x80 != 0 in
      let same_sign = bit_and (bit_xor c.a temp) 0x80 == 0 in
      if is_decimal c
      then record c {
        flagz = flag (bit_and val 0xff == 0);
        flagn = bit_and val 0x80;
        flagv = flag (flipped && same_sign);
        flagc = flag (ltb 0x0f high);
        a = byte (bit_or (high * 16) (bit_and low 0x0f));
      }
      else set_nz
          (record c {
            flagc = flag (ltb 0xff val);
            flagv =
                flag (
                  (bit_and c.a 0x80 == bit_and temp 0x80)
                  && (bit_and c.a 0x80 != bit_and val 0x80));
            a = bit_and val 0xff;
          })
          (bit_and val 0xff)

  -- The carry and the overflow flag of the 65C02's adder and subtracter.
  abbrev carried : ℕ → ℕ → Cpu M → Cpu M
  carried edge val c = record c {
    flagc = flag (leb edge val);
    flagv =
        if leb edge val
        then (if leb 0x180 val then 0 else c.flagv)
        else (if ltb val 0x80 then 0 else c.flagv);
  }

  -- The accumulator takes the low byte.
  abbrev into_accumulator : ℕ → Cpu M → Cpu M
  into_accumulator val c = set_nz (record c { a = bit_and val 0xff }) (bit_and val 0xff)

  unfoldable pub adc_cmos : Cpu M → ℕ → Cpu M
  unfolding is_decimal
  adc_cmos c temp =
      let d = record c { flagv = flag (bit_and (bit_xor c.a temp) 0x80 == 0) } in
      let low = bit_and c.a 0x0f + bit_and temp 0x0f + c.flagc in
      let digit = if leb 0x0a low then bit_or 0x10 (bit_and (low + 6) 0x0f) else low in
      let sum = digit + bit_and c.a 0xf0 + bit_and temp 0xf0 in
      let val = c.a + temp + c.flagc in
      if is_decimal c
      then into_accumulator (if leb 0xa0 sum then sum + 0x60 else sum)
          (record (carried 0xa0 sum d) { extra_cycles = word (c.extra_cycles + 1) })
      else into_accumulator val (carried 0x100 val d)

  unfoldable pub sbc_nmos : Cpu M → ℕ → Cpu M
  unfolding is_decimal
  sbc_nmos c temp =
      let borrow = flag (c.flagc == 0) in
      let val = minus (minus c.a temp) borrow in
      let low = borrow_digit (minus (minus (bit_and c.a 0x0f) (bit_and temp 0x0f)) borrow) in
      let high = borrow_digit (minus (minus (c.a / 16) (temp / 16)) (bit_and low 0x10 / 16)) in
      let flipped = bit_and (bit_xor c.a val) 0x80 != 0 in
      let other_sign = bit_and (bit_xor c.a temp) 0x80 != 0 in
      if is_decimal c
      then record c {
        flagn = bit_and val 0x80;
        flagv = flag (flipped && other_sign);
        flagz = flag (bit_and val 0xff == 0);
        flagc = flag (bit_and high 0x10 == 0);
        a = byte (bit_or (high * 16) (bit_and low 0x0f));
      }
      else set_nz
          (record c {
            flagc = flag (ltb val 0x100);
            flagv =
                flag (
                  (bit_and c.a 0x80 != bit_and temp 0x80)
                  && (bit_and c.a 0x80 != bit_and val 0x80));
            a = bit_and val 0xff;
          })
          (bit_and val 0xff)

  unfoldable pub sbc_cmos : Cpu M → ℕ → Cpu M
  unfolding is_decimal
  sbc_cmos c temp =
      let d = record c { flagv = bit_and (bit_xor c.a temp) 0x80 } in
      let digit = 0x0f + bit_and c.a 0x0f - bit_and temp 0x0f + c.flagc in
      let base = if ltb digit 0x10 then 0 else 0x10 in
      let rest = if ltb digit 0x10 then minus digit 6 else digit - 0x10 in
      let tens = base + 0xf0 + bit_and c.a 0xf0 - bit_and temp 0xf0 in
      let adjusted = if ltb tens 0x100 then minus tens 0x60 else tens in
      let val = 0xff + c.a - temp + c.flagc in
      if is_decimal c
      then into_accumulator (word (adjusted + rest))
          (record (carried 0x100 tens d) { extra_cycles = word (c.extra_cycles + 1) })
      else into_accumulator val (carried 0x100 val d)

module _ {M : Type 0} ⦃bus : Bus M⦄ where
  unfoldable pub op_adc_nmos : Cpu M → Cpu M
  op_adc_nmos c = let (temp, d) = read_byte c c.addr in adc_nmos d temp

  unfoldable pub op_adc_cmos : Cpu M → Cpu M
  op_adc_cmos c = let (temp, d) = read_byte c c.addr in adc_cmos d temp

  unfoldable pub op_sbc_nmos : Cpu M → Cpu M
  op_sbc_nmos c = let (temp, d) = read_byte c c.addr in sbc_nmos d temp

  unfoldable pub op_sbc_cmos : Cpu M → Cpu M
  op_sbc_cmos c = let (temp, d) = read_byte c c.addr in sbc_cmos d temp
