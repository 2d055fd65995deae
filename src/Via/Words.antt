-- ===== src/Via/Words.antt =====
-- The bytes of a counter or latch.
use linapple.Common.{
  ℕ, ◌+◌, ◌*◌, ◌/◌, ◌%◌, ◌^◌, ◌<◌, ◌≡◌, arith, bit_and, bit_and_high, bit_and_mask, bit_or_fields,
  bit_or_comm, ◌∙◌, ap,
}
use linapple.Via.{lo, set_lo, set_hi}

pub lo_lem : (w : ℕ) → lo w ≡ w % 256
unfolding lo
lo_lem w = bit_and_mask 8 w

high_byte : (w : ℕ) → w < 65536 → bit_and w 0xff00 ≡ w / 256 * 256
high_byte w h =
    let split : w / 256 * 256 + w % 256 ≡ w = omega arith in
    let masked = bit_and_high 8 (w / 256) (w % 256) 255 (omega arith) in
    let low = bit_and_mask 8 (w / 256) in
    ap (λ (t : ℕ). bit_and t 0xff00) (omega (arith, split)) ∙ masked ∙ omega (arith, low)

pub set_lo_lem : (w v : ℕ) → w < 65536 → v < 256 → set_lo w v ≡ w / 256 * 256 + v
unfolding set_lo
set_lo_lem w v h k = ground (arith, high_byte w h, bit_or_fields 8 (w / 256) v k)

pub set_hi_lem : (w v : ℕ) → v < 256 → set_hi w v ≡ v * 256 + w % 256
unfolding set_hi
set_hi_lem w v k = ground (
  arith,
  bit_and_mask 8 w,
  bit_or_comm (w % 256) (v * 2 ^ 8),
  bit_or_fields 8 v (w % 256) (omega arith),
)
