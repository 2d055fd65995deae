-- ===== src/DiskEncoding/LowBits.antt =====
-- The low bits of three bytes in one, and each byte put together again.
use linapple.Common.{
  ℕ, zero, suc, ◌+◌, ◌*◌, ◌/◌, ◌%◌, ◌^◌, ◌<◌, ◌≡◌, refl, arith, ap, ap₂, ◌∙◌, bit_and, bit_or,
  bit_and_mask, bit_and_bit, bit_and_high, bit_or_fields, bit_or_swap, length, get_or,
}
use linapple.DiskEncoding.{encode_bits, encode_low, sub8, merge, copy_n}

-- The two low bits of a byte, swapped.
abbrev pub pair : ℕ → ℕ
pair b = b % 2 * 2 + b / 2 % 2

encode_bits_lem : (v b : ℕ) → encode_bits v b ≡ (v * 4 + pair b) % 256
unfolding encode_bits
encode_bits_lem v b = ground (
  arith,
  bit_and_mask 1 b,
  bit_and_bit 1 b,
  bit_or_fields 2 v (b % 2 * 2) (omega arith),
  bit_or_fields 1 (v * 2 + b % 2) (b / 2 % 2) (omega arith),
)

abbrev pub low_of : ℕ → ℕ → ℕ → ℕ
low_of b1 b2 b3 = pair b1 * 64 + pair b2 * 16 + pair b3 * 4

low_of_encode :
    (b1 b2 b3 : ℕ)
    → encode_bits (encode_bits (encode_bits 0 b1) b2) b3 * 2 ^ 2 % 256 ≡ low_of b1 b2 b3
low_of_encode b1 b2 b3 = omega (
  arith,
  encode_bits_lem 0 b1,
  encode_bits_lem (encode_bits 0 b1) b2,
  encode_bits_lem (encode_bits (encode_bits 0 b1) b2) b3,
)

abbrev pub low_at : (ℕ → ℕ) → ℕ → ℕ
low_at base o = low_of (base o) (base (sub8 o 0x56)) (base (sub8 (sub8 o 0x56) 0x56))

next_offset : (o : ℕ) → o < 256 → sub8 (sub8 (sub8 o 0x56) 0x56) 0x53 ≡ (o + 1) % 256
next_offset o h = omega arith

pub get_or-encode_low :
    (base : ℕ → ℕ) (n o i : ℕ)
    → o < 256
    → i < n
    → get_or (encode_low base n o) i 0 ≡ low_at base ((o + i) % 256)
unfolding encode_low
get_or-encode_low base zero o i h k = absurd (omega arith)
get_or-encode_low base (suc n) o zero h k =
    let same : o ≡ (o + 0) % 256 = omega arith in low_of_encode _ _ _ ∙ ap (low_at base) same
get_or-encode_low base (suc n) o (suc i) h k =
    let same : (sub8 (sub8 (sub8 o 0x56) 0x56) 0x53 + i) % 256 ≡ (o + suc i) % 256 =
      omega (arith, next_offset o h) in
    get_or-encode_low base n (sub8 (sub8 (sub8 o 0x56) 0x56) 0x53) i (omega arith) (omega arith)
    ∙ ap (low_at base) same

pub length-encode_low : (base : ℕ → ℕ) (n o : ℕ) → length (encode_low base n o) ≡ n
unfolding encode_low
length-encode_low base zero o = refl
length-encode_low base (suc n) o = ap suc (length-encode_low base n _)

pub get_or-copy_n : (base : ℕ → ℕ) (n o i : ℕ) → i < n → get_or (copy_n base n o) i 0 ≡ base (o + i)
unfolding copy_n
get_or-copy_n base zero o i k = absurd (omega arith)
get_or-copy_n base (suc n) o zero k = ap base (omega arith)
get_or-copy_n base (suc n) o (suc i) k =
    get_or-copy_n base n (o + 1) i (omega arith) ∙ ap base (omega arith)

pub length-copy_n : (base : ℕ → ℕ) (n o : ℕ) → length (copy_n base n o) ≡ n
unfolding copy_n
length-copy_n base zero o = refl
length-copy_n base (suc n) o = ap suc (length-copy_n base n _)

or_low : (q x y : ℕ) → x < 2 → y < 2 → bit_or (bit_or (q * 4) x) (y * 2) ≡ q * 4 + y * 2 + x
or_low q x y h k =
    bit_or_swap (q * 4) x (y * 2)
    ∙ ap (λ (t : ℕ). bit_or t x) (bit_or_fields 2 q (y * 2) (omega arith))
    ∙ ap (λ (t : ℕ). bit_or t x) (omega arith)
    ∙ bit_or_fields 1 (q * 2 + y) x h
    ∙ omega arith

upper_kept : (q : ℕ) → q < 64 → bit_and (q * 4) 0xfc ≡ q * 4
upper_kept q h =
    let padded : q * 4 ≡ q * 2 ^ 2 + 0 = omega arith in
    ap (λ (t : ℕ). bit_and t 0xfc) padded
    ∙ bit_and_high 2 q 0 63 (omega arith)
    ∙ omega (arith, bit_and_mask 6 q)

-- A byte put together from its upper six bits and two bits of `low`.
module _ (q low : ℕ) (h : q < 64) where
  merge_bits :
      (p r : ℕ)
      → p < 2
      → r < 2
      → bit_or (bit_or (bit_and (q * 4) 0xfc) p) (r * 2) % 256 ≡ q * 4 + r * 2 + p
  merge_bits p r hp hr =
      ap (λ (t : ℕ). bit_or (bit_or t p) (r * 2) % 256) (upper_kept q h)
      ∙ omega (arith, or_low q p r hp hr)

  pub merge_first : merge (q * 4) low 0x80 7 0x40 5 ≡ q * 4 + low / 64 % 2 * 2 + low / 128 % 2
  unfolding merge
  merge_first =
      ap₂ (λ (p r : ℕ). bit_or (bit_or (bit_and (q * 4) 0xfc) p) r % 256)
        (omega (arith, bit_and_bit 7 low)) (omega (arith, bit_and_bit 6 low))
      ∙ merge_bits (low / 128 % 2) (low / 64 % 2) (omega arith) (omega arith)

  pub merge_second : merge (q * 4) low 0x20 5 0x10 3 ≡ q * 4 + low / 16 % 2 * 2 + low / 32 % 2
  unfolding merge
  merge_second =
      ap₂ (λ (p r : ℕ). bit_or (bit_or (bit_and (q * 4) 0xfc) p) r % 256)
        (omega (arith, bit_and_bit 5 low)) (omega (arith, bit_and_bit 4 low))
      ∙ merge_bits (low / 32 % 2) (low / 16 % 2) (omega arith) (omega arith)

  pub merge_third : merge (q * 4) low 0x08 3 0x04 1 ≡ q * 4 + low / 4 % 2 * 2 + low / 8 % 2
  unfolding merge
  merge_third =
      ap₂ (λ (p r : ℕ). bit_or (bit_or (bit_and (q * 4) 0xfc) p) r % 256)
        (omega (arith, bit_and_bit 3 low)) (omega (arith, bit_and_bit 2 low))
      ∙ merge_bits (low / 8 % 2) (low / 4 % 2) (omega arith) (omega arith)
