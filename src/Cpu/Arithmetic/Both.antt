-- ===== src/Cpu/Arithmetic/Both.antt =====
-- The arithmetic of the two processors side by side.
use linapple.Common.{ℕ, ◌+◌, ◌-◌, ◌*◌, ◌<◌, ◌≡◌, true, false}
use linapple.Cpu.{Cpu}
use linapple.Cpu.Arithmetic.{adc_nmos, adc_cmos, sbc_nmos, sbc_cmos, is_decimal}
use linapple.Cpu.Arithmetic.Binary.{
  IsSum, adc_nmos-IsSum, adc_cmos-IsSum, sbc_nmos-IsSum, sbc_cmos-IsSum,
}
use linapple.Cpu.Arithmetic.Decimal.{
  bcd, IsBcd, adc_nmos-bcd, adc_cmos-bcd, sbc_nmos-bcd, sbc_cmos-bcd,
}

-- The accumulator of `d` is packed decimal, and with the carry as its hundreds it is the sum.
abbrev pub IsPackedSum : {M : Type 0} → Cpu M → ℕ → Cpu M → Type 0
IsPackedSum c temp d = (bcd d.a + 100 * d.flagc ≡ bcd c.a + bcd temp + c.flagc) × IsBcd d.a

abbrev pub IsPackedDifference : {M : Type 0} → Cpu M → ℕ → Cpu M → Type 0
IsPackedDifference c temp d =
    (bcd d.a + bcd temp + 1 + 100 * d.flagc ≡ bcd c.a + c.flagc + 100) × IsBcd d.a

module _ {M : Type 0} (c : Cpu M) (temp : ℕ) where
  adc-IsSum :
      is_decimal c ≡ false
      → c.a < 256
      → temp < 256
      → c.flagc < 2
      → IsSum c.a temp c.flagc (adc_nmos c temp) × IsSum c.a temp c.flagc (adc_cmos c temp)
  adc-IsSum binary ha ht hc =
      (adc_nmos-IsSum c temp binary ha ht hc, adc_cmos-IsSum c temp binary ha ht hc)

  sbc-IsSum :
      is_decimal c ≡ false
      → c.a < 256
      → temp < 256
      → c.flagc < 2
      → IsSum c.a (255 - temp) c.flagc (sbc_nmos c temp)
        × IsSum c.a (255 - temp) c.flagc (sbc_cmos c temp)
  sbc-IsSum binary ha ht hc =
      (sbc_nmos-IsSum c temp binary ha ht hc, sbc_cmos-IsSum c temp binary ha ht hc)

  -- In binary mode, for bytes and a carry of at most 1, ADC and SBC of either processor leave a sum in
  -- accumulator and carry flag, with the three flags that belong to it: that of accumulator, byte and
  -- carry, or for SBC with the byte's complement.
  pub binary-IsSum :
      is_decimal c ≡ false
      → c.a < 256
      → temp < 256
      → c.flagc < 2
      → IsSum c.a temp c.flagc (adc_nmos c temp)
        × IsSum c.a temp c.flagc (adc_cmos c temp)
        × IsSum c.a (255 - temp) c.flagc (sbc_nmos c temp)
        × IsSum c.a (255 - temp) c.flagc (sbc_cmos c temp)
  binary-IsSum binary ha ht hc =
      let (add_n, add_c) = adc-IsSum binary ha ht hc in
      let (sub_n, sub_c) = sbc-IsSum binary ha ht hc in (add_n, add_c, sub_n, sub_c)

  adc-bcd :
      is_decimal c ≡ true
      → IsBcd c.a
      → IsBcd temp
      → c.flagc < 2
      → IsPackedSum c temp (adc_nmos c temp) × IsPackedSum c temp (adc_cmos c temp)
  adc-bcd decimal ha ht hc =
      (adc_nmos-bcd c temp decimal ha ht hc, adc_cmos-bcd c temp decimal ha ht hc)

  sbc-bcd :
      is_decimal c ≡ true
      → IsBcd c.a
      → IsBcd temp
      → c.flagc < 2
      → IsPackedDifference c temp (sbc_nmos c temp) × IsPackedDifference c temp (sbc_cmos c temp)
  sbc-bcd decimal ha ht hc =
      (sbc_nmos-bcd c temp decimal ha ht hc, sbc_cmos-bcd c temp decimal ha ht hc)

  -- In decimal mode, for packed decimal operands and a carry of at most 1, either processor keeps the
  -- accumulator packed. ADC leaves the sum's last two digits in it and the hundred in the carry flag;
  -- SBC takes the byte and the borrow from it, and sets the carry where no hundred is borrowed.
  pub decimal-bcd :
      is_decimal c ≡ true
      → IsBcd c.a
      → IsBcd temp
      → c.flagc < 2
      → IsPackedSum c temp (adc_nmos c temp)
        × IsPackedSum c temp (adc_cmos c temp)
        × IsPackedDifference c temp (sbc_nmos c temp)
        × IsPackedDifference c temp (sbc_cmos c temp)
  decimal-bcd decimal ha ht hc =
      let (add_n, add_c) = adc-bcd decimal ha ht hc in
      let (sub_n, sub_c) = sbc-bcd decimal ha ht hc in (add_n, add_c, sub_n, sub_c)
