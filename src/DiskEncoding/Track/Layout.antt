-- ===== src/DiskEncoding/Track/Layout.antt =====
-- What is on a track that `disk_encoding_nibblize_track` lays out.
use linapple.Common.{
  ℕ, zero, suc, ◌+◌, ◌*◌, ◌/◌, ◌<◌, ◌≡◌, ◌≢◌, refl, arith, ap, ◌∙◌, true, ◌==◌, ◌!=◌, all_below,
  all_below_sound, List, [], ◌∷◌, ◌++◌, map, length, get_or, length-append, some,
}
use linapple.DiskEncoding.{encode_sector_62, to_nibble, xor_chain, sector_fields, encoding_table}
use linapple.DiskEncoding.Nibbles.{AllBytes}
use linapple.DiskEncoding.Chain.{length-xor_chain, xor_chain-AllBytes}
use linapple.DiskEncoding.Fields.{length-sector_fields, sector_fields-AllBytes}
use linapple.DiskEncoding.Track.{
  Cell, encode_4and4_high, encode_4and4_low, fetch_4and4, put_data, put_gap, address_field,
  data_field, put_sector, put_sectors, nibblize_track, count_cells,
}

four_and_four_table :
    all_below 256 (λ a. fetch_4and4 (encode_4and4_high a) (encode_4and4_low a) == a) ≡ true
unfolding all_below fetch_4and4 encode_4and4_high encode_4and4_low
four_and_four_table = refl

-- A byte in 4-and-4 code is read back.
pub fetch-encode_4and4 :
    (a : ℕ) → a < 256 → fetch_4and4 (encode_4and4_high a) (encode_4and4_low a) ≡ a
fetch-encode_4and4 a h = ground (arith, all_below_sound 256 _ a four_and_four_table h)

length-put_data : (xs : List ℕ) → length (put_data xs) ≡ length xs
unfolding put_data
length-put_data [] = refl
length-put_data (x ∷ xs) = ap suc (length-put_data xs)

length-map : (f : ℕ → ℕ) (xs : List ℕ) → length (map f xs) ≡ length xs
length-map f [] = refl
length-map f (x ∷ xs) = ap suc (length-map f xs)

pub length-encode_sector_62 :
    (sectors : ℕ → ℕ) (index : ℕ) → length (encode_sector_62 sectors index) ≡ 343
unfolding encode_sector_62
length-encode_sector_62 sectors index =
    let base = λ (j : ℕ). sectors (index * 256 + j) in
    length-map to_nibble (xor_chain 0 (sector_fields base))
    ∙ length-xor_chain 0 (sector_fields base)
    ∙ ap suc (length-sector_fields base)

count_cells-append : (xs ys : List Cell) → count_cells (xs ++ ys) ≡ count_cells xs + count_cells ys
unfolding count_cells
count_cells-append [] ys = omega arith
count_cells-append (x ∷ xs) ys = omega (arith, count_cells-append xs ys)

count_cells-put_data : (xs : List ℕ) → count_cells (put_data xs) ≡ 8 * length xs
unfolding count_cells put_data
count_cells-put_data [] = refl
count_cells-put_data (x ∷ xs) = omega (arith, count_cells-put_data xs)

pub length-data_field : (sectors : ℕ → ℕ) (index : ℕ) → length (data_field sectors index) ≡ 349
unfolding data_field
length-data_field sectors index = omega (
  arith,
  length-append (encode_sector_62 sectors index) (0xde ∷ 0xaa ∷ 0xeb ∷ []),
  length-encode_sector_62 sectors index,
)

-- The bytes and the cells of one sector with its gaps.
put_sector_size :
    (order : ℕ → ℕ) (track : ℕ) (sectors : ℕ → ℕ) (idx : ℕ)
    → (length (put_sector order track sectors idx) ≡ 385)
      × (count_cells (put_sector order track sectors idx) ≡ 3124)
unfolding put_sector
put_sector_size order track sectors idx =
    let address = put_data (address_field track idx) in
    let content = put_data (data_field sectors (order idx)) in
    let rest = content ++ put_gap 16 in
    let address_length : length address ≡ 14 = unfold put_data address_field in refl in
    let address_cells : count_cells address ≡ 112 =
      unfold put_data address_field count_cells in refl in
    let gap_length : length (put_gap 16) ≡ 16 = unfold put_gap in refl in
    let gap_cells : count_cells (put_gap 16) ≡ 160 = unfold put_gap count_cells in refl in
    let gap2_length : length (put_gap 6) ≡ 6 = unfold put_gap in refl in
    let gap2_cells : count_cells (put_gap 6) ≡ 60 = unfold put_gap count_cells in refl in
    (
      omega (
        arith,
        length-append address (put_gap 6 ++ rest),
        length-append (put_gap 6) rest,
        length-append content (put_gap 16),
        length-put_data (data_field sectors (order idx)),
        length-data_field sectors (order idx),
      ),
      omega (
        arith,
        count_cells-append address (put_gap 6 ++ rest),
        count_cells-append (put_gap 6) rest,
        count_cells-append content (put_gap 16),
        count_cells-put_data (data_field sectors (order idx)),
        length-data_field sectors (order idx),
      ),
    )

pub put_sectors_size :
    (order : ℕ → ℕ) (track : ℕ) (sectors : ℕ → ℕ) (n idx : ℕ)
    → (length (put_sectors order track sectors n idx) ≡ n * 385)
      × (count_cells (put_sectors order track sectors n idx) ≡ n * 3124)
unfolding put_sectors
put_sectors_size order track sectors zero idx = (refl, unfold count_cells in refl)
put_sectors_size order track sectors (suc n) idx =
    let one = put_sector order track sectors idx in
    let rest = put_sectors order track sectors n (idx + 1) in
    let (one_length, one_cells) = put_sector_size order track sectors idx in
    let (rest_length, rest_cells) = put_sectors_size order track sectors n (idx + 1) in
    (
      omega (arith, length-append one rest, one_length, rest_length),
      omega (arith, count_cells-append one rest, one_cells, rest_cells),
    )

-- A formatted track holds 6208 bytes and takes 50464 cells, whatever the sectors and their order.
pub nibblize_track_size :
    (order : ℕ → ℕ) (track : ℕ) (sectors : ℕ → ℕ)
    → track < 40
    → (cells : List Cell) × (nibblize_track order track sectors ≡ some cells)
      × (length cells ≡ 6208)
      × (count_cells cells ≡ 50464)
unfolding nibblize_track
nibblize_track_size order track sectors h =
    let rest = put_sectors order track sectors 16 0 in
    let (rest_length, rest_cells) = put_sectors_size order track sectors 16 0 in
    let gap_length : length (put_gap 48) ≡ 48 = unfold put_gap in refl in
    let gap_cells : count_cells (put_gap 48) ≡ 480 = unfold put_gap count_cells in refl in
    (
      put_gap 48 ++ rest,
      ground arith,
      omega (arith, length-append (put_gap 48) rest, gap_length, rest_length),
      omega (arith, count_cells-append (put_gap 48) rest, gap_cells, rest_cells),
    )

-- Which bytes of a field are the first byte of a prologue.
abbrev pub NoPrologue : List ℕ → Type 0
NoPrologue [] = Unit
NoPrologue (x ∷ xs) = (x ≢ 0xd5) × NoPrologue xs

code_not_prologue_table : all_below 64 (λ v. get_or encoding_table v 0 != 0xd5) ≡ true
unfolding all_below
code_not_prologue_table = refl

to_nibble-ne : (x : ℕ) → x < 256 → to_nibble x ≢ 0xd5
unfolding to_nibble
to_nibble-ne x h = ground (
  arith,
  all_below_sound 64 (λ v. get_or encoding_table v 0 != 0xd5) (x / 4) code_not_prologue_table,
)

NoPrologue-map : (xs : List ℕ) → AllBytes xs → NoPrologue (map to_nibble xs)
NoPrologue-map [] h = tt
NoPrologue-map (x ∷ xs) h = (to_nibble-ne x h.0, NoPrologue-map xs h.1)

-- No byte of an encoded sector can be taken for the start of a prologue.
pub encode_sector_62-NoPrologue :
    (sectors : ℕ → ℕ) (index : ℕ)
    → ((j : ℕ) → j < 256 → sectors (index * 256 + j) < 256)
    → NoPrologue (encode_sector_62 sectors index)
unfolding encode_sector_62
encode_sector_62-NoPrologue sectors index bytes =
    let base = λ (j : ℕ). sectors (index * 256 + j) in
    NoPrologue-map (xor_chain 0 (sector_fields base))
      (xor_chain-AllBytes 0 (sector_fields base) (omega arith) (sector_fields-AllBytes base bytes))
