-- ===== src/Common/Bits.antt =====
-- `&`, `|` and `^` at variables: the law for the lowest digit, masks, fields and cancellation.
use Prim.Native.Nat.{ℕ, zero, suc, ◌+◌, ◌-◌, ◌*◌, ◌/◌, ◌%◌, ◌^◌, ◌≤◌, ◌<◌, min, max, differ}
use Prim.Native.Nat.{bit_and, bit_or, bit_xor, digits, bitwise}
use Prim.Native.Nat.{bit_and-bitwise, bit_or-bitwise, bit_xor-bitwise}
use mathlib.Core.Path.{◌≡◌, refl, sym, ap, ap₂, ◌∙◌}
use native.Mathlib.Nat.{le_refl, pow-suc, one-le-pow}
use native.Mathlib.Omega.{arith}

-- A bitwise operation is a recursion on the binary digits of its first operand, with fuel.
-- `rest` is what it does once no digit is left, `op` what it does to two digits.
module _ (rest : ℕ → ℕ) (op : ℕ → ℕ → ℕ) where
  digits-none : (fuel y : ℕ) → digits rest op fuel 0 y ≡ rest y
  digits-none zero y = refl
  digits-none (suc fuel) y = refl

  digits-enough :
      (x y fuel ample : ℕ)
      → x ≤ fuel
      → fuel ≤ ample
      → digits rest op ample x y ≡ digits rest op fuel x y
  digits-enough zero y fuel ample h more = digits-none ample y ∙ sym (digits-none fuel y)
  digits-enough (suc x) y zero ample h more = absurd (omega arith)
  digits-enough (suc x) y (suc fuel) zero h more = absurd (omega arith)
  digits-enough (suc x) y (suc fuel) (suc ample) h more =
      ap (λ t. t * 2 + op (suc x % 2) (y % 2))
        (digits-enough (suc x / 2) (y / 2) fuel ample (omega arith) (omega arith))

  -- One digit of the result, and the operation on what is left of both numbers.
  bitwise-lowest :
      (x y : ℕ)
      → bitwise rest op (suc x) y ≡ bitwise rest op (suc x / 2) (y / 2) * 2 + op (suc x % 2) (y % 2)
  bitwise-lowest x y =
      let half = suc x / 2 in
      omega (arith, digits-enough half (y / 2) half x (le_refl half) (omega arith))

-- Induction by binary digits: what holds of 0, and of a number when of its half, holds of all.
module _ (P : ℕ → Type 0) (base : P 0) (digit : (x : ℕ) → P (suc x / 2) → P (suc x)) where
  halving : (bound x : ℕ) → x ≤ bound → P x
  halving bound zero h = base
  halving zero (suc x) h = absurd (omega arith)
  halving (suc bound) (suc x) h = digit x (halving bound (suc x / 2) (omega arith))

  by_halves : (x : ℕ) → P x
  by_halves x = halving x x (le_refl x)

pub bit_or_step : (x y : ℕ) → bit_or x y ≡ 2 * bit_or (x / 2) (y / 2) + max (x % 2) (y % 2)
bit_or_step zero y = omega (arith, bit_or-bitwise 0 y, bit_or-bitwise 0 (y / 2))
bit_or_step (suc x) y = omega (
  arith,
  bitwise-lowest (λ t. t) max x y,
  bit_or-bitwise (suc x) y,
  bit_or-bitwise (suc x / 2) (y / 2),
)

pub bit_and_step : (x y : ℕ) → bit_and x y ≡ 2 * bit_and (x / 2) (y / 2) + min (x % 2) (y % 2)
bit_and_step zero y = omega (arith, bit_and-bitwise 0 y, bit_and-bitwise 0 (y / 2))
bit_and_step (suc x) y = omega (
  arith,
  bitwise-lowest (λ t. 0) min x y,
  bit_and-bitwise (suc x) y,
  bit_and-bitwise (suc x / 2) (y / 2),
)

-- The exclusive or of two digits is the parity of their sum.
differ-parity : (x y : ℕ) → x < 2 → y < 2 → differ x y ≡ (x + y) % 2
differ-parity zero zero h k = refl
differ-parity zero (suc zero) h k = refl
differ-parity zero (suc (suc y)) h k = absurd (omega arith)
differ-parity (suc zero) zero h k = refl
differ-parity (suc zero) (suc zero) h k = refl
differ-parity (suc zero) (suc (suc y)) h k = absurd (omega arith)
differ-parity (suc (suc x)) y h k = absurd (omega arith)

pub bit_xor_step : (a b : ℕ) → bit_xor a b ≡ bit_xor (a / 2) (b / 2) * 2 + (a + b) % 2
bit_xor_step zero b = simp bit_xor-bitwise (omega arith)
bit_xor_step (suc a) b = simp bit_xor-bitwise (
    omega (
      arith,
      bitwise-lowest (λ y. y) differ a b,
      differ-parity (suc a % 2) (b % 2) (omega arith) (omega arith),
    ))

-- Below a power of two, the result is below it too.
pub bit_and-lt : (k a b : ℕ) → a < 2 ^ k → bit_and a b < 2 ^ k
bit_and-lt k zero b h = simp bit_and-bitwise h
bit_and-lt zero (suc a) b h = absurd (omega arith)
bit_and-lt (suc k) (suc a) b h = omega (
  arith,
  bit_and_step (suc a) b,
  pow-suc 2 k,
  bit_and-lt k (suc a / 2) (b / 2) (omega (arith, pow-suc 2 k)),
)

pub bit_or-lt : (k a b : ℕ) → a < 2 ^ k → b < 2 ^ k → bit_or a b < 2 ^ k
bit_or-lt k zero b h g = simp bit_or-bitwise g
bit_or-lt zero (suc a) b h g = absurd (omega arith)
bit_or-lt (suc k) (suc a) b h g = omega (
  arith,
  bit_or_step (suc a) b,
  pow-suc 2 k,
  bit_or-lt k (suc a / 2) (b / 2) (omega (arith, pow-suc 2 k)) (omega (arith, pow-suc 2 k)),
)

pub bit_xor-lt : (k a b : ℕ) → a < 2 ^ k → b < 2 ^ k → bit_xor a b < 2 ^ k
bit_xor-lt k zero b h g = simp bit_xor-bitwise g
bit_xor-lt zero (suc a) b h g = absurd (omega arith)
bit_xor-lt (suc k) (suc a) b h g = omega (
  arith,
  bit_xor_step (suc a) b,
  pow-suc 2 k,
  bit_xor-lt k (suc a / 2) (b / 2) (omega (arith, pow-suc 2 k)) (omega (arith, pow-suc 2 k)),
)

-- Exclusive or by the same number twice cancels.
pub bit_xor_cancel : (a b : ℕ) → bit_xor a (bit_xor a b) ≡ b
bit_xor_cancel a b =
    by_halves (λ x. (y : ℕ) → bit_xor x (bit_xor x y) ≡ y) (λ y. simp bit_xor-bitwise)
      (λ x half y.
        let inner : bit_xor (suc x) y / 2 ≡ bit_xor (suc x / 2) (y / 2) =
          omega (arith, bit_xor_step (suc x) y) in
        omega (
          arith,
          bit_xor_step (suc x) (bit_xor (suc x) y),
          ap (λ (t : ℕ). bit_xor (suc x / 2) t) inner,
          bit_xor_step (suc x) y,
          half (y / 2),
        ))
      a b

-- A shift to the right goes inside.
pub bit_xor_div_four : (a b : ℕ) → bit_xor a b / 4 ≡ bit_xor (a / 4) (b / 4)
bit_xor_div_four a b =
    let quarters : bit_xor (a / 2 / 2) (b / 2 / 2) ≡ bit_xor (a / 4) (b / 4) =
      cc (quarter a, quarter b) in
    omega (arith, bit_xor_step a b, bit_xor_step (a / 2) (b / 2), quarters)
  where
    quarter : (n : ℕ) → n / 2 / 2 ≡ n / 4
    quarter n = omega arith

pub bit_or-zero : (a : ℕ) → bit_or a 0 ≡ a
bit_or-zero =
    by_halves (λ x. bit_or x 0 ≡ x) refl (λ x half. omega (arith, bit_or_step (suc x) 0, half))

bit_or_comm_fuel : (n a b : ℕ) → a ≤ n → bit_or a b ≡ bit_or b a
bit_or_comm_fuel n zero b h = bit_or-bitwise 0 b ∙ sym (bit_or-zero b)
bit_or_comm_fuel zero (suc a) b h = absurd (omega arith)
bit_or_comm_fuel (suc n) (suc a) b h = omega (
  arith,
  bit_or_step (suc a) b,
  bit_or_step b (suc a),
  bit_or_comm_fuel n (suc a / 2) (b / 2) (omega arith),
)

pub bit_or_comm : (a b : ℕ) → bit_or a b ≡ bit_or b a
bit_or_comm a b = bit_or_comm_fuel a a b (le_refl a)

pub bit_and-zero : (a : ℕ) → bit_and a 0 ≡ 0
bit_and-zero =
    by_halves (λ x. bit_and x 0 ≡ 0) refl (λ x half. omega (arith, bit_and_step (suc x) 0, half))

-- Both sides of a law have equal digits: each proof goes from the halves to the numbers.
half_or : (a b : ℕ) → bit_or a b / 2 ≡ bit_or (a / 2) (b / 2)
half_or a b = omega (arith, bit_or_step a b)

half_and : (a b : ℕ) → bit_and a b / 2 ≡ bit_and (a / 2) (b / 2)
half_and a b = omega (arith, bit_and_step a b)

bit_or_swap_fuel : (n a b c : ℕ) → a ≤ n → bit_or (bit_or a b) c ≡ bit_or (bit_or a c) b
bit_or_swap_fuel n zero b c h =
    ap (λ (t : ℕ). bit_or t c) (bit_or-bitwise 0 b)
    ∙ bit_or_comm b c
    ∙ ap (λ (t : ℕ). bit_or t b) (sym (bit_or-bitwise 0 c))
bit_or_swap_fuel zero (suc a) b c h = absurd (omega arith)
bit_or_swap_fuel (suc n) (suc a) b c h = omega (
  arith,
  bit_or_step (bit_or (suc a) b) c,
  bit_or_step (bit_or (suc a) c) b,
  bit_or_step (suc a) b,
  bit_or_step (suc a) c,
  ap (λ (t : ℕ). bit_or t (c / 2)) (half_or (suc a) b),
  ap (λ (t : ℕ). bit_or t (b / 2)) (half_or (suc a) c),
  bit_or_swap_fuel n (suc a / 2) (b / 2) (c / 2) (omega arith),
)

pub bit_or_swap : (a b c : ℕ) → bit_or (bit_or a b) c ≡ bit_or (bit_or a c) b
bit_or_swap a b c = bit_or_swap_fuel a a b c (le_refl a)

bit_and_assoc_fuel : (n a b c : ℕ) → a ≤ n → bit_and (bit_and a b) c ≡ bit_and a (bit_and b c)
bit_and_assoc_fuel n zero b c h =
    ap (λ (t : ℕ). bit_and t c) (bit_and-bitwise 0 b)
    ∙ bit_and-bitwise 0 c
    ∙ sym (bit_and-bitwise 0 (bit_and b c))
bit_and_assoc_fuel zero (suc a) b c h = absurd (omega arith)
bit_and_assoc_fuel (suc n) (suc a) b c h = omega (
  arith,
  bit_and_step (bit_and (suc a) b) c,
  bit_and_step (suc a) (bit_and b c),
  bit_and_step (suc a) b,
  bit_and_step b c,
  ap (λ (t : ℕ). bit_and t (c / 2)) (half_and (suc a) b),
  ap (λ (t : ℕ). bit_and (suc a / 2) t) (half_and b c),
  bit_and_assoc_fuel n (suc a / 2) (b / 2) (c / 2) (omega arith),
)

pub bit_and_assoc : (a b c : ℕ) → bit_and (bit_and a b) c ≡ bit_and a (bit_and b c)
bit_and_assoc a b c = bit_and_assoc_fuel a a b c (le_refl a)

bit_and_or_fuel :
    (n a b c : ℕ) → c ≤ n → bit_and (bit_or a b) c ≡ bit_or (bit_and a c) (bit_and b c)
bit_and_or_fuel n a b zero h =
    bit_and-zero (bit_or a b) ∙ sym (ap₂ bit_or (bit_and-zero a) (bit_and-zero b))
bit_and_or_fuel zero a b (suc c) h = absurd (omega arith)
bit_and_or_fuel (suc n) a b (suc c) h = omega (
  arith,
  bit_and_step (bit_or a b) (suc c),
  bit_or_step (bit_and a (suc c)) (bit_and b (suc c)),
  bit_or_step a b,
  bit_and_step a (suc c),
  bit_and_step b (suc c),
  ap (λ (t : ℕ). bit_and t (suc c / 2)) (half_or a b),
  ap₂ bit_or (half_and a (suc c)) (half_and b (suc c)),
  bit_and_or_fuel n (a / 2) (b / 2) (suc c / 2) (omega arith),
)

-- `&` distributes over `|`.
pub bit_and_or : (a b c : ℕ) → bit_and (bit_or a b) c ≡ bit_or (bit_and a c) (bit_and b c)
bit_and_or a b c = bit_and_or_fuel c a b c (le_refl c)

bit_and_or_self_fuel : (n a b : ℕ) → b ≤ n → bit_and (bit_or a b) b ≡ b
bit_and_or_self_fuel n a zero h = bit_and-zero (bit_or a 0)
bit_and_or_self_fuel zero a (suc b) h = absurd (omega arith)
bit_and_or_self_fuel (suc n) a (suc b) h = omega (
  arith,
  bit_and_step (bit_or a (suc b)) (suc b),
  bit_or_step a (suc b),
  ap (λ (t : ℕ). bit_and t (suc b / 2)) (half_or a (suc b)),
  bit_and_or_self_fuel n (a / 2) (suc b / 2) (omega arith),
)

-- What `|` has set is there.
pub bit_and_or_self : (a b : ℕ) → bit_and (bit_or a b) b ≡ b
bit_and_or_self a b = bit_and_or_self_fuel b a b (le_refl b)

twice_scaled : (high w : ℕ) → high * 2 ^ suc w ≡ 2 * (high * 2 ^ w)
twice_scaled high w = let power = pow-suc 2 w in omega (arith, ap (λ t. high * t) power)

-- A low field of `w` bits is joined to a high field by `|` as by `+`.
pub bit_or_fields : (w high low : ℕ) → low < 2 ^ w → bit_or (high * 2 ^ w) low ≡ high * 2 ^ w + low
bit_or_fields zero high low fits = ground (arith, bit_or-zero high)
bit_or_fields (suc w) high low fits =
    let inner = bit_or_fields w high (low / 2) (omega (arith, pow-suc 2 w)) in
    ground (arith, inner, twice_scaled high w, bit_or_step (high * 2 ^ suc w) low)

-- `&` by a mask shifted to the left keeps the upper field.
pub bit_and_high :
    (k q r m : ℕ) → r < 2 ^ k → bit_and (q * 2 ^ k + r) (m * 2 ^ k) ≡ bit_and q m * 2 ^ k
bit_and_high zero q r m fits = ground (arith)
bit_and_high (suc k) q r m fits = ground (
  arith,
  bit_and_step (q * 2 ^ suc k + r) (m * 2 ^ suc k),
  twice_scaled q k,
  twice_scaled m k,
  twice_scaled (bit_and q m) k,
  pow-suc 2 k,
  bit_and_high k q (r / 2) m (omega (arith, pow-suc 2 k)),
)

bit_and_low : (k q r : ℕ) → r < 2 ^ k → bit_and (q * 2 ^ k + r) (2 ^ k - 1) ≡ r
bit_and_low zero q r fits = ground (arith, bit_and-zero q)
bit_and_low (suc k) q r fits = ground (
  arith,
  bit_and_step (q * 2 ^ suc k + r) (2 ^ suc k - 1),
  twice_scaled q k,
  pow-suc 2 k,
  one-le-pow k 2,
  bit_and_low k q (r / 2) (omega (arith, pow-suc 2 k)),
)

-- A mask of `k` low bits is the remainder by `2 ^ k`.
pub bit_and_mask : (k a : ℕ) → bit_and a (2 ^ k - 1) ≡ a % 2 ^ k
bit_and_mask k a = ground (arith, one-le-pow k 2, bit_and_low k (a / 2 ^ k) (a % 2 ^ k))

-- One bit.
pub bit_and_bit : (k a : ℕ) → bit_and a (1 * 2 ^ k) ≡ a / 2 ^ k % 2 * 2 ^ k
bit_and_bit k a =
    let whole : a / 2 ^ k * 2 ^ k + a % 2 ^ k ≡ a = ground (arith, one-le-pow k 2) in
    let high = bit_and_high k (a / 2 ^ k) (a % 2 ^ k) 1 (ground (arith, one-le-pow k 2)) in
    let low = bit_and_mask 1 (a / 2 ^ k) in
    ap (λ (t : ℕ). bit_and t (1 * 2 ^ k)) (sym whole) ∙ high ∙ ap (λ (t : ℕ). t * 2 ^ k) low
