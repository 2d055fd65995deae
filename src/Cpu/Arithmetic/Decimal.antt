-- ===== src/Cpu/Arithmetic/Decimal.antt =====
-- ADC and SBC in decimal mode, on packed decimal operands.
use linapple.Common.{ℕ, ◌+◌, ◌-◌, ◌*◌, ◌/◌, ◌%◌, ◌<◌, ◌≤◌, bit_and, bit_or}
use linapple.Common.{◌≡◌, ap, ◌∙◌, arith, true}
use linapple.Common.{ltb, leb, ◌==◌, if◌then◌else◌}
use linapple.Common.{bit_and_mask, bit_and_bit, bit_and_high, bit_or_fields}
use linapple.Cpu.{Cpu, flag, minus, word, set_nz}
use linapple.Cpu.Arithmetic.{adc_nmos, adc_cmos, sbc_nmos, sbc_cmos, is_decimal}
use linapple.Cpu.Arithmetic.{carry_digit, borrow_digit}

-- A byte of two decimal digits, and the number that it stands for.
abbrev pub IsBcd : ℕ → Type 0
IsBcd b = (b / 16 ≤ 9) × (b % 16 ≤ 9)

abbrev pub bcd : ℕ → ℕ
bcd b = b / 16 * 10 + b % 16

low_digit : (x : ℕ) → bit_and x 0x0f ≡ x % 16
low_digit x = bit_and_mask 4 x

borrowed : (x : ℕ) → bit_and x 0x10 ≡ x / 16 % 2 * 16
borrowed x = bit_and_bit 4 x

high_digit : (x : ℕ) → bit_and x 0xf0 ≡ x / 16 % 16 * 16
high_digit x =
    ap (λ (t : ℕ). bit_and t 0xf0) (omega arith)
    ∙ bit_and_high 4 (x / 16) (x % 16) 15 (omega arith)
    ∙ ap (λ (t : ℕ). t * 16) (bit_and_mask 4 (x / 16))

joined_digits : (high low : ℕ) → bit_or (high * 16) (bit_and low 0x0f) ≡ high * 16 + low % 16
joined_digits high low =
    ap (λ (t : ℕ). bit_or (high * 16) t) (low_digit low)
    ∙ bit_or_fields 4 high (low % 16) (omega arith)

-- One digit of a subtraction, and what it borrows from the next.
digit_difference :
    (x y b : ℕ)
    → x ≤ 9
    → y ≤ 9
    → b ≤ 1
    → let r = borrow_digit (minus (minus x y) b) in
      (r % 16 ≤ 9) × (r % 16 + y + b ≡ x + bit_and r 0x10 / 16 * 10) × (bit_and r 0x10 / 16 ≤ 1)
digit_difference x y b hx hy hb =
    let digit = minus (minus x y) b in ground (arith, borrowed digit, borrowed (borrow_digit digit))

high_field : (x : ℕ) → x / 16 ≤ 9 → bit_and x 0xf0 ≡ x / 16 * 16
high_field x h = omega (arith, high_digit x)

-- The subtraction of the 65C02, on the digits of its operands.
cmos_difference :
    (p t q u carry : ℕ)
    → p ≤ 9
    → t ≤ 9
    → q ≤ 9
    → u ≤ 9
    → carry < 2
    → let digit = 0x0f + t - u + carry in
      let rest = if ltb digit 0x10 then minus digit 6 else digit - 0x10 in
      let tens = (if ltb digit 0x10 then 0 else 0x10) + 0xf0 + p * 16 - q * 16 in
      let a = bit_and (word ((if ltb tens 0x100 then minus tens 0x60 else tens) + rest)) 0xff in
      (bcd a + (q * 10 + u) + 1 + 100 * flag (leb 0x100 tens) ≡ p * 10 + t + carry + 100) × IsBcd a
cmos_difference p t q u carry hp ht hq hu hc =
    let digit = 0x0f + t - u + carry in
    let rest = if ltb digit 0x10 then minus digit 6 else digit - 0x10 in
    let tens = (if ltb digit 0x10 then 0 else 0x10) + 0xf0 + p * 16 - q * 16 in
    ground
      (arith, bit_and_mask 8 (word ((if ltb tens 0x100 then minus tens 0x60 else tens) + rest)))

module _ {M : Type 0} where
  -- In decimal mode, for packed decimal operands and a carry of at most 1, the NMOS ADC leaves the sum's
  -- last two digits in the accumulator, again packed, and the hundred in the carry flag.
  pub adc_nmos-bcd :
      (c : Cpu M) (temp : ℕ)
      → is_decimal c ≡ true
      → IsBcd c.a
      → IsBcd temp
      → c.flagc < 2
      → (bcd (adc_nmos c temp).a + 100 * (adc_nmos c temp).flagc ≡ bcd c.a + bcd temp + c.flagc)
        × IsBcd (adc_nmos c temp).a
  unfolding adc_nmos
  adc_nmos-bcd c temp decimal ha ht hc =
      let low = carry_digit (bit_and c.a 0x0f + bit_and temp 0x0f + c.flagc) in
      let high = carry_digit (c.a / 16 + temp / 16 + flag (ltb 0x0f low)) in
      ground (arith, low_digit c.a, low_digit temp, joined_digits high low)

  -- In decimal mode, for packed decimal operands and a carry of at most 1, the ADC of the 65C02 leaves
  -- the sum's last two digits in the accumulator, again packed, and the hundred in the carry flag.
  pub adc_cmos-bcd :
      (c : Cpu M) (temp : ℕ)
      → is_decimal c ≡ true
      → IsBcd c.a
      → IsBcd temp
      → c.flagc < 2
      → (bcd (adc_cmos c temp).a + 100 * (adc_cmos c temp).flagc ≡ bcd c.a + bcd temp + c.flagc)
        × IsBcd (adc_cmos c temp).a
  unfolding adc_cmos set_nz
  adc_cmos-bcd c temp decimal ha ht hc =
      let low = bit_and c.a 0x0f + bit_and temp 0x0f + c.flagc in
      let digit = if leb 0x0a low then bit_or 0x10 (bit_and (low + 6) 0x0f) else low in
      let sum = digit + bit_and c.a 0xf0 + bit_and temp 0xf0 in
      let val = if leb 0xa0 sum then sum + 0x60 else sum in
      ground (
        arith,
        low_digit c.a,
        low_digit temp,
        high_digit c.a,
        high_digit temp,
        joined_digits 1 (low + 6),
        bit_and_mask 8 val,
      )

  -- In decimal mode, for packed decimal operands and a carry of at most 1, the NMOS SBC takes the byte and
  -- the borrow from the accumulator, which stays packed: the carry flag is set where no hundred is borrowed.
  pub sbc_nmos-bcd :
      (c : Cpu M) (temp : ℕ)
      → is_decimal c ≡ true
      → IsBcd c.a
      → IsBcd temp
      → c.flagc < 2
      → (bcd (sbc_nmos c temp).a + bcd temp + 1 + 100 * (sbc_nmos c temp).flagc
          ≡ bcd c.a + c.flagc + 100)
        × IsBcd (sbc_nmos c temp).a
  unfolding sbc_nmos
  sbc_nmos-bcd c temp decimal ha ht hc =
      let borrow = flag (c.flagc == 0) in
      let x = bit_and c.a 0x0f in
      let y = bit_and temp 0x0f in
      let low = borrow_digit (minus (minus x y) borrow) in
      let taken = bit_and low 0x10 / 16 in
      let high = borrow_digit (minus (minus (c.a / 16) (temp / 16)) taken) in
      let units =
        digit_difference x y borrow (omega (arith, low_digit c.a)) (omega (arith, low_digit temp))
          (ground arith) in
      let tens = digit_difference (c.a / 16) (temp / 16) taken ha.0 ht.0 units.2 in
      rw decimal (
        ground (
          arith,
          low_digit c.a,
          low_digit temp,
          borrowed high,
          joined_digits high low,
          units,
          tens,
        ))

  -- In decimal mode, for packed decimal operands and a carry of at most 1, the SBC of the 65C02 takes the
  -- byte and the borrow from the accumulator, which stays packed: the carry is set where none is borrowed.
  pub sbc_cmos-bcd :
      (c : Cpu M) (temp : ℕ)
      → is_decimal c ≡ true
      → IsBcd c.a
      → IsBcd temp
      → c.flagc < 2
      → (bcd (sbc_cmos c temp).a + bcd temp + 1 + 100 * (sbc_cmos c temp).flagc
          ≡ bcd c.a + c.flagc + 100)
        × IsBcd (sbc_cmos c temp).a
  unfolding sbc_cmos set_nz
  sbc_cmos-bcd c temp decimal ha ht hc = rw decimal (
      rw (low_digit c.a) (
        rw (low_digit temp) (
          rw (high_field c.a ha.0) (
            rw (high_field temp ht.0) (
              cmos_difference (c.a / 16) (c.a % 16) (temp / 16) (temp % 16) c.flagc ha.0 ha.1 ht.0
                ht.1 hc)))))
