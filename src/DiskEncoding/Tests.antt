-- ===== src/DiskEncoding/Tests.antt =====
-- Runs of the sector code, and the theorems at inputs that meet their hypotheses.
use linapple.Common.{true, ℕ, ◌+◌, ◌*◌, ◌%◌, ◌<◌, ◌≤◌, ◌≡◌, refl, arith, some, List, length, get_or}
use linapple.DiskEncoding.{Memory, encode_sector_62, decode_sector_62, from_nibble}
use linapple.DiskEncoding.Nibbles.{decodes, is_disk_code, decodes_exactly_disk_codes}
use linapple.DiskEncoding.Sector.{decode-encode_sector_62}
use linapple.DiskEncoding.Reader.{sectors, denibblize_track, disk_encoding_sector_order}
use linapple.DiskEncoding.WholeTrack.{bytes_of}
use linapple.DiskEncoding.RoundTrip.{denibblize-nibblize_track}
use linapple.DiskEncoding.Track.{
  Cell, nibblize_track, encode_4and4_high, encode_4and4_low, fetch_4and4,
}
use linapple.DiskEncoding.Track.Layout.{fetch-encode_4and4, NoPrologue, encode_sector_62-NoPrologue}

-- Sectors whose bytes count up, a track of them.
abbrev counting : ℕ → ℕ
counting j = (j * 7 + 3) % 256

abbrev blank : Memory
blank _ = 0

decode-encode_sector_62_example :
    (m : Memory) × (decode_sector_62 (encode_sector_62 counting 2) blank ≡ some m)
    × ((j : ℕ) → j < 256 → m j ≡ counting (2 * 256 + j))
    × ((j : ℕ) → 256 ≤ j → m j ≡ blank j)
decode-encode_sector_62_example = decode-encode_sector_62 counting 2 blank (λ j h. omega arith)

decodes_exactly_disk_codes_example : decodes 0x96 ≡ is_disk_code 0x96
decodes_exactly_disk_codes_example = decodes_exactly_disk_codes 0x96 (omega arith)

accepts_96 : from_nibble 0x96 ≡ some 0
unfolding from_nibble
accepts_96 = refl

fetch-encode_4and4_example : fetch_4and4 (encode_4and4_high 0xfe) (encode_4and4_low 0xfe) ≡ 0xfe
fetch-encode_4and4_example = fetch-encode_4and4 0xfe (omega arith)

denibblize-nibblize_track_example :
    let order = disk_encoding_sector_order true in
    (cells : List Cell) × (image : Memory) × (nibblize_track order 17 counting ≡ some cells)
    × (denibblize_track (λ i. get_or (bytes_of cells) i 0) (length cells) order 17 ≡ sectors image)
    × ((j : ℕ) → j < 4096 → image j ≡ counting j)
denibblize-nibblize_track_example =
    denibblize-nibblize_track true 17 counting (omega arith) (λ j h. omega arith)

encode_sector_62-NoPrologue_example : NoPrologue (encode_sector_62 counting 2)
encode_sector_62-NoPrologue_example = encode_sector_62-NoPrologue counting 2 (λ j h. omega arith)
