-- ===== src/DiskEncoding/Track.antt =====
-- The layout of a track: `disk_encoding_nibblize_track` and the 4-and-4 code of address fields.
-- The bytes and the sync mask, which the source writes side by side, are a list of pairs here.
pub mod Layout
use linapple.Common.{
  ℕ, zero, suc, ◌+◌, ◌*◌, ◌/◌, ◌%◌, ◌^◌, ◌<◌, ◌≤◌, ◌≡◌, ◌≢◌, refl, arith, ap, ◌∙◌, bit_and, bit_or,
  bit_xor, bit_xor-lt, Bool, true, false, ◌==◌, ◌!=◌, leb, ◌&&◌, not, all_below, all_below_sound,
  if◌then◌else◌, List, [], ◌∷◌, ◌++◌, map, length, get_or, replicate, length-append, Option, some,
  none,
}
use linapple.DiskEncoding.{encode_sector_62, to_nibble, xor_chain, sector_fields, encoding_table}
use linapple.DiskEncoding.Nibbles.{AllBytes}
use linapple.DiskEncoding.Chain.{length-xor_chain, xor_chain-AllBytes}
use linapple.DiskEncoding.Fields.{length-sector_fields, sector_fields-AllBytes}

unfoldable pub encode_4and4_high : ℕ → ℕ
encode_4and4_high a = bit_or (bit_and (a / 2) 0x55) 0xaa

unfoldable pub encode_4and4_low : ℕ → ℕ
encode_4and4_low a = bit_or (bit_and a 0x55) 0xaa

-- The value that `fetch_4and4` makes of its two bytes.
pub fetch_4and4 : ℕ → ℕ → ℕ
fetch_4and4 high low = bit_and (bit_or (high * 2) 1) low % 256

abbrev pub Cell : Type 0
Cell = ℕ × Bool

unfoldable pub put_data : List ℕ → List Cell
put_data [] = []
put_data (x ∷ xs) = (x, false) ∷ put_data xs

unfoldable pub put_gap : ℕ → List Cell
put_gap n = replicate n (0xff, true)

abbrev pub volume_default : ℕ
volume_default = 0xfe

abbrev pub checksum : ℕ → ℕ → ℕ
checksum track sector = bit_xor (bit_xor volume_default track) sector

unfoldable pub address_field : ℕ → ℕ → List ℕ
unfolding encode_4and4_high encode_4and4_low
address_field track sector =
    0xd5
    ∷ 0xaa
    ∷ 0x96
    ∷ encode_4and4_high volume_default
    ∷ encode_4and4_low volume_default
    ∷ encode_4and4_high track
    ∷ encode_4and4_low track
    ∷ encode_4and4_high sector
    ∷ encode_4and4_low sector
    ∷ encode_4and4_high (checksum track sector)
    ∷ encode_4and4_low (checksum track sector)
    ∷ 0xde
    ∷ 0xaa
    ∷ 0xeb
    ∷ []

unfoldable pub data_field : (ℕ → ℕ) → ℕ → List ℕ
data_field sectors_in file_sector =
    (0xd5 ∷ 0xaa ∷ 0xad ∷ [])
    ++ (encode_sector_62 sectors_in file_sector ++ (0xde ∷ 0xaa ∷ 0xeb ∷ []))

-- One round of the loop over the sectors.
unfoldable pub put_sector : (ℕ → ℕ) → ℕ → (ℕ → ℕ) → ℕ → List Cell
put_sector sector_order track sectors_in sector_idx =
    put_data (address_field track sector_idx)
    ++ (put_gap 6 ++ (put_data (data_field sectors_in (sector_order sector_idx)) ++ put_gap 16))

-- The loop from `sector_idx` on, with `n` sectors left.
unfoldable pub put_sectors : (ℕ → ℕ) → ℕ → (ℕ → ℕ) → ℕ → ℕ → List Cell
put_sectors sector_order track sectors_in zero sector_idx = []
put_sectors sector_order track sectors_in (suc n) sector_idx =
    put_sector sector_order track sectors_in sector_idx
    ++ put_sectors sector_order track sectors_in n (sector_idx + 1)

-- `none` is `disk_err_invalid_argument`: `tracks_per_disk` is 40.
unfoldable pub nibblize_track : (ℕ → ℕ) → ℕ → (ℕ → ℕ) → Option (List Cell)
nibblize_track sector_order track sectors_in =
    if leb 40 track
    then none
    else some (put_gap 48 ++ put_sectors sector_order track sectors_in 16 0)

-- The first walk of `disk_encoding_nibbles_to_bits`: a self-sync byte takes ten cells.
pub count_cells : List Cell → ℕ
count_cells [] = 0
count_cells ((_, self_sync) ∷ xs) = (if self_sync then 10 else 8) + count_cells xs
