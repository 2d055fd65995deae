-- ===== src/Disk/Pulls.antt =====
-- Where the magnets of a seek to higher tracks pull the head (settle_head of
-- apple2/peripherals/disk/Disk.cpp).

use linapple.Common.{
  ℕ, ◌+◌, ◌-◌, ◌*◌, ◌%◌, ◌^◌, ◌<◌, bit_and, bit_or, subst, true, ◌==◌, all_below, all_below_sound,
  ==_iff, ◌≡◌, refl, arith,
}
use linapple.Disk.Stepper.{settled_track}

-- Two magnets side by side, and the second of them alone, as a seek to higher tracks has them.
shared_table :
    all_below 79 (λ half.
      settled_track (2 * half) (bit_or (2 ^ (half % 4)) (1 * 2 ^ ((half + 1) % 4))) == 2 * half + 1)
    ≡ true
unfolding all_below settled_track
shared_table = refl

reached_table :
    all_below 79 (λ half. settled_track (2 * half + 1) (2 ^ ((half + 1) % 4)) == 2 * half + 2)
    ≡ true
unfolding all_below settled_track
reached_table = refl

released_table :
    all_below 4 (λ phase.
      bit_and (bit_or (2 ^ phase) (1 * 2 ^ ((phase + 1) % 4))) (65535 - 1 * 2 ^ phase)
      == 2 ^ ((phase + 1) % 4))
    ≡ true
unfolding all_below
released_table = refl

pub shared :
    (half : ℕ)
    → half < 79
    → settled_track (2 * half) (bit_or (2 ^ (half % 4)) (1 * 2 ^ ((half + 1) % 4))) ≡ 2 * half + 1
shared half h = (==_iff _ _).0 (all_below_sound 79 _ half shared_table h)

pub reached :
    (half : ℕ) → half < 79 → settled_track (2 * half + 1) (2 ^ ((half + 1) % 4)) ≡ 2 * half + 2
reached half h = (==_iff _ _).0 (all_below_sound 79 _ half reached_table h)

pub released :
    (half : ℕ)
    → bit_and (bit_or (2 ^ (half % 4)) (1 * 2 ^ ((half + 1) % 4))) (65535 - 1 * 2 ^ (half % 4))
      ≡ 2 ^ ((half + 1) % 4)
released half =
    let wraps : (half % 4 + 1) % 4 ≡ (half + 1) % 4 = omega arith in
    subst (λ p. bit_and (bit_or (2 ^ (half % 4)) (1 * 2 ^ p)) (65535 - 1 * 2 ^ (half % 4)) ≡ 2 ^ p)
      wraps ((==_iff _ _).0 (all_below_sound 4 _ (half % 4) released_table (omega arith)))
