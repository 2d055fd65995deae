-- ===== src/Acia/Latches.antt =====
-- What setting and clearing one latch of the 6551 does to the others.
use Prim.Native.Nat.{bit_and}
use linapple.Common.{
  ℕ, ◌-◌, true, false, ◌≡◌, ◌≢◌, arith, bit_and-zero, bit_and_assoc, bit_and_or, bit_and_or_self,
  bit_or-zero,
}
use linapple.Acia.State.{latch, set_latch}

pub latch-set_self : (s b : ℕ) → b ≢ 0 → latch (set_latch s b true) b ≡ true
unfolding latch set_latch
latch-set_self s b h = ground (arith, bit_and_or_self s b)

pub latch-set_other : (s b c : ℕ) → bit_and b c ≡ 0 → latch (set_latch s b true) c ≡ latch s c
unfolding latch set_latch
latch-set_other s b c h = ground (arith, bit_and_or s b c, bit_or-zero (bit_and s c))

pub latch-clear_self : (s b : ℕ) → bit_and (255 - b) b ≡ 0 → latch (set_latch s b false) b ≡ false
unfolding latch set_latch
latch-clear_self s b h = ground (arith, bit_and_assoc s (255 - b) b, bit_and-zero s)

pub latch-clear_other :
    (s b c : ℕ) → bit_and (255 - b) c ≡ c → latch (set_latch s b false) c ≡ latch s c
unfolding latch set_latch
latch-clear_other s b c h = ground (arith, bit_and_assoc s (255 - b) c)

-- A mask clears each latch that it has.
pub latch-clear_part : (s b c : ℕ) → bit_and (255 - b) c ≡ 0 → latch (set_latch s b false) c ≡ false
unfolding latch set_latch
latch-clear_part s b c h = ground (arith, bit_and_assoc s (255 - b) c, bit_and-zero s)
