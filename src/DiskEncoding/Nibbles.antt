-- ===== src/DiskEncoding/Nibbles.antt =====
-- The 6-and-2 alphabet: every code stands for its six bits, and the codes are fit for the medium.
use linapple.Common.{
  ℕ, ◌+◌, ◌*◌, ◌/◌, ◌%◌, ◌<◌, ◌≡◌, refl, arith, Bool, true, false, ◌==◌, leb, ltb, ◌&&◌, ◌||◌, not,
  all_below, all_below_sound, get_or, List, [], ◌∷◌, map, some, none, if◌then◌else◌,
}
use linapple.DiskEncoding.{encoding_table, to_nibble, from_nibble, from_nibbles}

-- Six bits, as the upper bits of a byte.
abbrev pub upper : ℕ → ℕ
upper x = x / 4 * 4

is_code_of : ℕ → Bool
is_code_of v = elim (from_nibble (get_or encoding_table v 0)) [
  | none ↦ false
  | some value ↦ value == v * 4
]

code_table : all_below 64 is_code_of ≡ true
unfolding all_below is_code_of from_nibble
code_table = refl

is_code_of-some :
    (v : ℕ) → is_code_of v ≡ true → from_nibble (get_or encoding_table v 0) ≡ some (v * 4)
unfolding is_code_of
is_code_of-some v h = ground arith

-- A byte below 256, once coded, is decoded to its upper six bits.
pub from_nibble-to_nibble : (x : ℕ) → x < 256 → from_nibble (to_nibble x) ≡ some (upper x)
unfolding to_nibble
from_nibble-to_nibble x h =
    is_code_of-some (x / 4) (all_below_sound 64 is_code_of (x / 4) code_table (omega arith))

abbrev pub AllBytes : List ℕ → Type 0
AllBytes [] = Unit
AllBytes (x ∷ xs) = (x < 256) × AllBytes xs

pub from_nibbles-to_nibbles :
    (xs : List ℕ) → AllBytes xs → from_nibbles (map to_nibble xs) ≡ some (map upper xs)
unfolding from_nibbles
from_nibbles-to_nibbles [] h = refl
from_nibbles-to_nibbles (x ∷ xs) h =
    rw (from_nibble-to_nibble x h.0, from_nibbles-to_nibbles xs h.1) refl

-- A byte that is fit for the medium: its top bit is set, it has no two zeros next to each other
-- but at most once, and two ones next to each other below the top bit.
has_zero_pair_at : ℕ → ℕ → Bool
has_zero_pair_at x p = x / p % 4 == 0

zero_pairs : ℕ → ℕ
unfolding has_zero_pair_at
zero_pairs x =
    (if has_zero_pair_at x 1 then 1 else 0)
    + (if has_zero_pair_at x 2 then 1 else 0)
    + (if has_zero_pair_at x 4 then 1 else 0)
    + (if has_zero_pair_at x 8 then 1 else 0)
    + (if has_zero_pair_at x 16 then 1 else 0)
    + (if has_zero_pair_at x 32 then 1 else 0)

one_pair : ℕ → Bool
one_pair x =
    x % 4 == 3
    || x / 2 % 4 == 3
    || x / 4 % 4 == 3
    || x / 8 % 4 == 3
    || x / 16 % 4 == 3
    || x / 32 % 4 == 3

-- The rule by which Apple chose the codes, less the two codes 0xAA and 0xD5 of the prologues.
pub is_disk_code : ℕ → Bool
unfolding zero_pairs one_pair
is_disk_code x =
    leb 0x80 x
    && ltb x 256
    && leb (zero_pairs x) 1
    && one_pair x
    && not (x == 0xaa)
    && not (x == 0xd5)

pub decodes : ℕ → Bool
unfolding from_nibble
decodes x = elim (from_nibble x) [ none ↦ false | some _ ↦ true ]

decodes_table :
    all_below 256 (λ x. if decodes x then is_disk_code x else not (is_disk_code x)) ≡ true
unfolding all_below decodes is_disk_code from_nibble
decodes_table = refl

-- The decoder accepts exactly the bytes that Apple's rule allows on the medium: bit 7 set, at most
-- one pair of adjacent zeros, two adjacent ones below bit 7, and neither 0xAA nor 0xD5.
pub decodes_exactly_disk_codes : (x : ℕ) → x < 256 → decodes x ≡ is_disk_code x
decodes_exactly_disk_codes x h = ground (arith, all_below_sound 256 _ x decodes_table h)
