-- ===== src/DiskEncoding.antt =====
-- The 6-and-2 group coding of sectors and the layout of a track:
-- src/apple2/peripherals/disk/DiskEncoding.cpp.
-- An array is a list of bytes, and the memory behind a pointer that is only read, or written at
-- computed offsets, is a function from offsets. Each phase of a routine reads one half of the
-- scratch area and fills the other, so a phase is a function from list to list here.
pub mod Nibbles
pub mod Chain
pub mod LowBits
pub mod Fields
pub mod Image
pub mod Sector
pub mod Track
pub mod Reader
mod Found
mod SectorFound
mod WholeTrack
mod RoundTrip
mod Tests
use linapple.Common.{
  ℕ, zero, suc, ◌+◌, ◌-◌, ◌*◌, ◌/◌, ◌%◌, ◌^◌, bit_and, bit_or, bit_xor, Bool, true, false, ◌==◌,
  ◌!=◌, leb, ltb, ◌||◌, if◌then◌else◌, List, [], ◌∷◌, ◌++◌, map, get_or, set, replicate, length,
  Option, some, none,
}

abbrev pub encoding_table : List ℕ
encoding_table =
    0x96 ∷ 0x97 ∷ 0x9A ∷ 0x9B ∷ 0x9D ∷ 0x9E ∷ 0x9F ∷ 0xA6 ∷ 0xA7 ∷ 0xAB ∷ 0xAC ∷ 0xAD ∷ 0xAE ∷ 0xAF
    ∷ 0xB2 ∷ 0xB3 ∷ 0xB4 ∷ 0xB5 ∷ 0xB6 ∷ 0xB7 ∷ 0xB9 ∷ 0xBA ∷ 0xBB ∷ 0xBC ∷ 0xBD ∷ 0xBE ∷ 0xBF
    ∷ 0xCB ∷ 0xCD ∷ 0xCE ∷ 0xCF ∷ 0xD3 ∷ 0xD6 ∷ 0xD7 ∷ 0xD9 ∷ 0xDA ∷ 0xDB ∷ 0xDC ∷ 0xDD ∷ 0xDE
    ∷ 0xDF ∷ 0xE5 ∷ 0xE6 ∷ 0xE7 ∷ 0xE9 ∷ 0xEA ∷ 0xEB ∷ 0xEC ∷ 0xED ∷ 0xEE ∷ 0xEF ∷ 0xF2 ∷ 0xF3
    ∷ 0xF4 ∷ 0xF5 ∷ 0xF6 ∷ 0xF7 ∷ 0xF9 ∷ 0xFA ∷ 0xFB ∷ 0xFC ∷ 0xFD ∷ 0xFE ∷ 0xFF ∷ []

abbrev pub invalid_nibble : ℕ
invalid_nibble = 0xff

-- The loop of `decode_table`: entry `i` of the encoding table is put at its code.
fill_decode_table : ℕ → List ℕ → List ℕ → List ℕ
fill_decode_table i [] t = t
fill_decode_table i (code ∷ codes) t =
    fill_decode_table (i + 1) codes (set t (code - 0x80) (i * 2 ^ 2 % 256))

pub decode_table : List ℕ
unfolding fill_decode_table
decode_table = fill_decode_table 0 encoding_table (replicate 128 invalid_nibble)

-- `offset -= step` on a `uint8_t`.
abbrev pub sub8 : ℕ → ℕ → ℕ
sub8 offset step = (offset + 256 - step) % 256

-- The lambda of `encode_sector_62`: two more low bits, in swapped order.
pub encode_bits : ℕ → ℕ → ℕ
encode_bits value b =
    bit_or (bit_or (value * 2 ^ 2) (bit_and b 0x01 * 2 ^ 1)) (bit_and b 0x02 / 2 ^ 1) % 256

-- The first loop of `encode_sector_62`, `n` rounds of it from `offset` on.
pub encode_low : (ℕ → ℕ) → ℕ → ℕ → List ℕ
unfolding encode_bits
encode_low sector_base zero offset = []
encode_low sector_base (suc n) offset =
    let offset2 = sub8 offset 0x56 in
    let offset3 = sub8 offset2 0x56 in
    let value1 = encode_bits 0 (sector_base offset) in
    let value2 = encode_bits value1 (sector_base offset2) in
    let value3 = encode_bits value2 (sector_base offset3) in
    (value3 * 2 ^ 2 % 256) ∷ encode_low sector_base n (sub8 offset3 0x53)

abbrev pub mask_at : List ℕ → ℕ → List ℕ
mask_at xs i = set xs i (bit_and (get_or xs i 0) 0x3f)

-- `n` bytes from `offset` on, as `std::copy_n` has them.
pub copy_n : (ℕ → ℕ) → ℕ → ℕ → List ℕ
copy_n memory zero offset = []
copy_n memory (suc n) offset = memory offset ∷ copy_n memory n (offset + 1)

-- The second loop: each byte is combined with the one before, and the last follows by itself.
pub xor_chain : ℕ → List ℕ → List ℕ
xor_chain saved [] = saved ∷ []
xor_chain saved (x ∷ xs) = bit_xor saved x ∷ xor_chain x xs

pub to_nibble : ℕ → ℕ
to_nibble x = get_or encoding_table (x / 2 ^ 2) 0

-- The 342 bytes that are chained: 86 of low bits, the last two of them cut to six bits, and the
-- sector.
pub sector_fields : (ℕ → ℕ) → List ℕ
sector_fields sector_base =
    mask_at (mask_at (encode_low sector_base 86 0xac) 84) 85 ++ copy_n sector_base 256 0

pub encode_sector_62 : (ℕ → ℕ) → ℕ → List ℕ
encode_sector_62 sectors_in sector_index =
    map to_nibble (xor_chain 0 (sector_fields (λ j. sectors_in (sector_index * 256 + j))))

-- One nibble of the first loop of `decode_sector_62`.
pub from_nibble : ℕ → Option ℕ
unfolding decode_table
from_nibble nibble =
    let value = get_or decode_table (bit_and nibble 0x7f) 0 in
    if bit_and nibble 0x80 == 0 then none else if value == invalid_nibble then none else some value

infixr 67 ◌∷?◌
abbrev pub ◌∷?◌ : Option ℕ → Option (List ℕ) → Option (List ℕ)
none ∷? xs = none
some x ∷? none = none
some x ∷? some xs = some (x ∷ xs)

pub from_nibbles : List ℕ → Option (List ℕ)
unfolding from_nibble
from_nibbles [] = some []
from_nibbles (x ∷ xs) = from_nibble x ∷? from_nibbles xs

-- The second loop, `n` rounds of it: the bytes and the last value of `saved_value`.
pub unchain : ℕ → ℕ → List ℕ → List ℕ × ℕ
unchain zero saved xs = ([], saved)
unchain (suc n) saved [] = ([], saved)
unchain (suc n) saved (x ∷ xs) =
    let value = bit_xor saved x in
    let (values, final) = unchain n value xs in (value ∷ values, final)

abbrev pub Memory : Type 0
Memory = ℕ → ℕ

pub update : Memory → ℕ → ℕ → Memory
update m k v j = if j == k then v else m j

-- A byte of the image: the upper six bits, and two low bits taken by masks and shifts.
pub merge : ℕ → ℕ → ℕ → ℕ → ℕ → ℕ → ℕ
merge upper low mask1 shift1 mask2 shift2 =
    bit_or (bit_or (bit_and upper 0xfc) (bit_and low mask1 / 2 ^ shift1))
      (bit_and low mask2 / 2 ^ shift2)
    % 256

-- The last loop of `decode_sector_62`, `n` rounds from round `i` on, at `offset`.
pub write_image : List ℕ → ℕ → ℕ → ℕ → Memory → Memory
write_image decoded zero i offset image = image
write_image decoded (suc n) i offset image =
    let low = get_or decoded i 0 in
    let upper = λ (o : ℕ). get_or decoded (0x56 + o) 0 in
    let offset2 = sub8 offset 0x56 in
    let offset3 = sub8 offset2 0x56 in
    let image1 =
      if leb 0xac offset
      then update image offset (merge (upper offset) low 0x80 7 0x40 5)
      else image in
    let image2 = update image1 offset2 (merge (upper offset2) low 0x20 5 0x10 3) in
    let image3 = update image2 offset3 (merge (upper offset3) low 0x08 3 0x04 1) in
    write_image decoded n (i + 1) (sub8 offset3 0x53) image3

-- What follows the first loop of `decode_sector_62`. `none` is the result `false`, which leaves the
-- image as it was.
pub decode_values : List ℕ → Memory → Option Memory
decode_values values image =
    let (decoded, saved) = unchain 342 0 values in
    if get_or values 342 0 != saved then none else some (write_image decoded 86 0 0xac image)

pub decode_sector_62 : List ℕ → Memory → Option Memory
decode_sector_62 nibbles image = elim (from_nibbles nibbles) [
  | none ↦ none
  | some values ↦ decode_values values image
]
