-- ===== src/Cpu/Arithmetic/Binary.antt =====
-- ADC and SBC in binary mode: the sum of two bytes and a carry, and its four flags.
use linapple.Common.{ℕ, ◌+◌, ◌-◌, ◌*◌, ◌/◌, ◌%◌, ◌<◌, bit_and, bit_xor}
use linapple.Common.{◌≡◌, sym, ap, ap₂, ◌∙◌, arith, false, ◌||◌, ◌&&◌}
use linapple.Common.{ltb, leb, ◌==◌, ◌!=◌, bit_and_mask, bit_and_bit, bit_xor_step}
use linapple.Cpu.{Cpu, flag, minus, set_nz}
use linapple.Cpu.Arithmetic.{adc_nmos, adc_cmos, sbc_nmos, sbc_cmos, is_decimal}

-- A byte as a two's complement number, plus 128.
abbrev pub biased : ℕ → ℕ
biased b = (b + 128) % 256

-- `d` is `c` with the sum of `m`, `n` and `carry` in the accumulator. The biases of the two numbers
-- add up to 256, and a signed sum fits a byte from -128 to 127.
pub record IsSum {M : Type 0} (m n carry : ℕ) (d : Cpu M) : Type 0 where
  pub total : d.a + 256 * d.flagc ≡ m + n + carry
  pub fits : d.a < 256
  pub zero_flag : d.flagz ≡ flag (d.a == 0)
  pub sign : d.flagn ≡ d.a / 128 * 128
  pub overflow :
      (d.flagv != 0)
      ≡ (ltb (biased m + biased n + carry) 128 || leb 384 (biased m + biased n + carry))

sign_bit : (x : ℕ) → bit_and x 0x80 ≡ x / 128 % 2 * 128
sign_bit x = bit_and_bit 7 x

low_byte : (x : ℕ) → bit_and x 0xff ≡ x % 256
low_byte x = bit_and_mask 8 x

-- Exclusive or of bit 7.
halves : (x : ℕ) → x / 2 / 2 / 2 / 2 / 2 / 2 / 2 ≡ x / 128
halves x = omega arith

half_xor : (x y : ℕ) → bit_xor x y / 2 ≡ bit_xor (x / 2) (y / 2)
half_xor x y = omega (arith, bit_xor_step x y)

half_again : (x y z : ℕ) → z ≡ bit_xor x y → z / 2 ≡ bit_xor (x / 2) (y / 2)
half_again x y z e = ap (λ (t : ℕ). t / 2) e ∙ half_xor x y

xor_div_128 : (x y : ℕ) → bit_xor x y / 128 ≡ bit_xor (x / 128) (y / 128)
xor_div_128 x y =
    let two = half_again _ _ _ (half_xor x y) in
    let four = half_again _ _ _ (half_again _ _ _ two) in
    let six = half_again _ _ _ (half_again _ _ _ four) in
    sym (halves (bit_xor x y)) ∙ half_again _ _ _ six ∙ ap₂ bit_xor (halves x) (halves y)

sign_of_xor : (x y : ℕ) → bit_and (bit_xor x y) 0x80 ≡ (x / 128 + y / 128) % 2 * 128
sign_of_xor x y =
    omega (arith, sign_bit (bit_xor x y), xor_div_128 x y, bit_xor_step (x / 128) (y / 128))

-- The signed difference leaves the range just when the signs differ and the result changes sign.
difference_overflow :
    (a t c v : ℕ)
    → a < 256
    → t < 256
    → c < 2
    → v ≡ (a + 255 + c - t) % 256
    → ((a / 128 != t / 128) && (a / 128 != v / 128))
      ≡ (ltb (biased a + biased (255 - t) + c) 128 || leb 384 (biased a + biased (255 - t) + c))
difference_overflow a t c v ha ht hc hv = ground arith

module _ {M : Type 0} where
  -- In binary mode, for bytes and a carry of at most 1, ADC leaves the sum of accumulator, byte and carry
  -- in accumulator and carry flag, with the zero, sign and signed overflow flags that belong to it.
  pub adc_nmos-IsSum :
      (c : Cpu M) (temp : ℕ)
      → is_decimal c ≡ false
      → c.a < 256
      → temp < 256
      → c.flagc < 2
      → IsSum c.a temp c.flagc (adc_nmos c temp)
  unfolding adc_nmos set_nz
  adc_nmos-IsSum c temp binary ha ht hc =
      let val = c.a + temp + c.flagc in
      record {
        total = ground (arith, low_byte val, sign_bit val, sign_bit c.a, sign_bit temp);
        fits = ground (arith, low_byte val, sign_bit val, sign_bit c.a, sign_bit temp);
        zero_flag = ground (arith, low_byte val, low_byte (bit_and val 0xff));
        sign = ground (arith, low_byte val, sign_bit (bit_and val 0xff));
        overflow = ground (arith, low_byte val, sign_bit val, sign_bit c.a, sign_bit temp);
      }

  -- In binary mode, for bytes and a carry of at most 1, the ADC of the 65C02 leaves the sum of accumulator,
  -- byte and carry in accumulator and carry flag, with the three other flags that belong to it.
  pub adc_cmos-IsSum :
      (c : Cpu M) (temp : ℕ)
      → is_decimal c ≡ false
      → c.a < 256
      → temp < 256
      → c.flagc < 2
      → IsSum c.a temp c.flagc (adc_cmos c temp)
  unfolding adc_cmos set_nz
  adc_cmos-IsSum c temp binary ha ht hc =
      let val = c.a + temp + c.flagc in
      record {
        total = ground (arith, low_byte val, sign_of_xor c.a temp);
        fits = ground (arith, low_byte val, sign_of_xor c.a temp);
        zero_flag = ground (arith, low_byte val, low_byte (bit_and val 0xff));
        sign = ground (arith, low_byte val, sign_bit (bit_and val 0xff));
        overflow = ground (arith, low_byte val, sign_of_xor c.a temp);
      }

  sbc_nmos-overflow :
      (c : Cpu M) (temp : ℕ)
      → is_decimal c ≡ false
      → c.a < 256
      → temp < 256
      → ((sbc_nmos c temp).flagv != 0) ≡ (
          (c.a / 128 != temp / 128)
          && (c.a / 128 != minus (minus c.a temp) (flag (c.flagc == 0)) % 256 / 128))
  unfolding sbc_nmos set_nz
  sbc_nmos-overflow c temp binary ha ht =
      let val = minus (minus c.a temp) (flag (c.flagc == 0)) in rw binary (signs val)
    where
      signs :
          (val : ℕ)
          → (flag
                ((bit_and c.a 0x80 != bit_and temp 0x80) && (bit_and c.a 0x80 != bit_and val 0x80))
              != 0)
            ≡ ((c.a / 128 != temp / 128) && (c.a / 128 != val % 256 / 128))
      signs val = ground (arith, sign_bit val, sign_bit c.a, sign_bit temp)

  -- In binary mode, for bytes and a carry of at most 1, SBC leaves what ADC of the byte's complement does:
  -- the sum, and the four flags that belong to it.
  pub sbc_nmos-IsSum :
      (c : Cpu M) (temp : ℕ)
      → is_decimal c ≡ false
      → c.a < 256
      → temp < 256
      → c.flagc < 2
      → IsSum c.a (255 - temp) c.flagc (sbc_nmos c temp)
  unfolding sbc_nmos set_nz
  sbc_nmos-IsSum c temp binary ha ht hc =
      let val = minus (minus c.a temp) (flag (c.flagc == 0)) in
      record {
        total = ground (arith, low_byte val, sign_bit val, sign_bit c.a, sign_bit temp);
        fits = ground (arith, low_byte val, sign_bit val, sign_bit c.a, sign_bit temp);
        zero_flag = ground (arith, low_byte val, low_byte (bit_and val 0xff));
        sign = ground (arith, low_byte val, sign_bit (bit_and val 0xff));
        overflow =
            sbc_nmos-overflow c temp binary ha ht
            ∙ difference_overflow c.a temp c.flagc (val % 256) ha ht hc (ground arith);
      }

  -- In binary mode, for bytes and a carry of at most 1, the SBC of the 65C02 leaves the sum with the byte's
  -- complement, and the four flags that belong to it.
  pub sbc_cmos-IsSum :
      (c : Cpu M) (temp : ℕ)
      → is_decimal c ≡ false
      → c.a < 256
      → temp < 256
      → c.flagc < 2
      → IsSum c.a (255 - temp) c.flagc (sbc_cmos c temp)
  unfolding sbc_cmos set_nz
  sbc_cmos-IsSum c temp binary ha ht hc =
      let val = 0xff + c.a - temp + c.flagc in
      record {
        total = ground (arith, low_byte val, sign_of_xor c.a temp);
        fits = ground (arith, low_byte val, sign_of_xor c.a temp);
        zero_flag = ground (arith, low_byte val, low_byte (bit_and val 0xff));
        sign = ground (arith, low_byte val, sign_bit (bit_and val 0xff));
        overflow = ground (arith, low_byte val, sign_of_xor c.a temp);
      }
