-- ===== src/DiskEncoding/RoundTrip.antt =====
-- Whole tracks: `disk_encoding_denibblize_track` after `disk_encoding_nibblize_track`.
use linapple.Common.{
  ℕ, suc, ◌+◌, ◌*◌, ◌/◌, ◌%◌, ◌<◌, ◌≡◌, refl, arith, ap, ◌∙◌, sym, subst, Bool, true, false, not,
  ◌&&◌, leb, ltb, ◌==◌, ◌!=◌, if◌then◌else◌, List, [], ◌∷◌, ◌++◌, length, length-append, replicate,
  get_or, none, some, all_below, all_below_sound,
}
use linapple.DiskEncoding.{Memory}
use linapple.DiskEncoding.Track.{Cell, put_gap, put_sectors, nibblize_track}
use linapple.DiskEncoding.Track.Layout.{put_sectors_size}
use linapple.DiskEncoding.Reader.{
  Reader, sectors, read_markers, denibblize_track, interleave_row, disk_encoding_sector_order,
}
use linapple.DiskEncoding.Found.{AreAt}
use linapple.DiskEncoding.WholeTrack.{
  bytes_of, bytes_of-append, bytes_of-put_gap, gap-NoPrologue, covered, AllTaken, rounds,
  IsComplete, read_sectors,
}

-- The bytes of a list stand in a buffer that has them one by one.
AreAt-all :
    (nibbles : ℕ → ℕ) (xs : List ℕ) (offset : ℕ)
    → ((i : ℕ) → i < length xs → nibbles (offset + i) ≡ get_or xs i 0)
    → AreAt nibbles xs offset
AreAt-all nibbles [] offset each = tt
AreAt-all nibbles (x ∷ xs) offset each = (
  ap nibbles (omega arith) ∙ each 0 (omega arith),
  AreAt-all nibbles xs (offset + 1) (λ i h. ap nibbles (omega arith) ∙ each (suc i) (omega arith)),
)

length-bytes_of : (cells : List Cell) → length (bytes_of cells) ≡ length cells
length-bytes_of [] = refl
length-bytes_of ((byte, _) ∷ cells) = ap suc (length-bytes_of cells)

not-true : (b : Bool) → not b ≡ true → b ≡ false
not-true true h = cc
not-true false h = refl

-- Where a file sector stands in a row.
abbrev place : List ℕ → ℕ → ℕ
place [] file = 0
place (x ∷ xs) file = if x == file then 0 else suc (place xs file)

in_range_table :
    (is_dos : Bool) → all_below 16 (λ i. ltb (disk_encoding_sector_order is_dos i) 16) ≡ true
unfolding all_below
in_range_table false = refl
in_range_table true = refl

early_table :
    (is_dos : Bool)
    → all_below 16 (λ i. not (covered (disk_encoding_sector_order is_dos) i == 0xffff)) ≡ true
unfolding all_below covered
early_table false = refl
early_table true = refl

full_table : (is_dos : Bool) → (covered (disk_encoding_sector_order is_dos) 16 == 0xffff) ≡ true
unfolding covered
full_table false = refl
full_table true = refl

place_table :
    (is_dos : Bool)
    → all_below 16 (λ f.
      disk_encoding_sector_order is_dos (place (interleave_row is_dos) f) == f
      && ltb (place (interleave_row is_dos) f) 16)
      ≡ true
unfolding all_below
place_table false = refl
place_table true = refl

-- The cells of a track.
abbrev track_cells : (ℕ → ℕ) → ℕ → (ℕ → ℕ) → List Cell
track_cells order track sectors_in = put_gap 48 ++ put_sectors order track sectors_in 16 0

length-track_cells :
    (order : ℕ → ℕ) (track : ℕ) (sectors_in : ℕ → ℕ)
    → length (track_cells order track sectors_in) ≡ 6208
length-track_cells order track sectors_in =
    let gap : length (put_gap 48) ≡ 48 = unfold put_gap in refl in
    let (rest, _) = put_sectors_size order track sectors_in 16 0 in
    omega (arith, length-append (put_gap 48) (put_sectors order track sectors_in 16 0), gap, rest)

laid_out-track_cells :
    (order : ℕ → ℕ) (track : ℕ) (sectors_in : ℕ → ℕ)
    → track < 40
    → nibblize_track order track sectors_in ≡ some (track_cells order track sectors_in)
unfolding nibblize_track
laid_out-track_cells order track sectors_in t =
    let small : leb 40 track ≡ false = ground arith in rw small refl

-- The buffer that a reader is given, and the reader at its start.
abbrev buffer : List Cell → ℕ → ℕ
buffer cells i = get_or (bytes_of cells) i 0

abbrev at_start : Reader
at_start = record {
  current_offset = 0;
  current_sector = none;
  decoded_sectors_mask = 0;
  field_refused = false;
  staging = λ _. 0;
}

track-AreAt :
    (order : ℕ → ℕ) (track : ℕ) (sectors_in : ℕ → ℕ)
    → let cells = track_cells order track sectors_in in
      AreAt
        (buffer cells)
        (replicate 48 0xff ++ bytes_of (put_sectors order track sectors_in 16 0))
        0
track-AreAt order track sectors_in =
    let cells = track_cells order track sectors_in in
    let rest = put_sectors order track sectors_in 16 0 in
    let parts : bytes_of cells ≡ replicate 48 0xff ++ bytes_of rest =
      bytes_of-append (put_gap 48) rest
      ∙ ap (λ (xs : List ℕ). xs ++ bytes_of rest) (bytes_of-put_gap 48) in
    subst (λ (xs : List ℕ). AreAt (buffer cells) xs 0) parts
      (AreAt-all (buffer cells) (bytes_of cells) 0 (λ i h. ap (buffer cells) (omega arith)))

complete :
    (is_dos : Bool) (track : ℕ) (sectors_in : ℕ → ℕ)
    → track < 40
    → ((j : ℕ) → j < 4096 → sectors_in j < 256)
    → let order = disk_encoding_sector_order is_dos in
      let cells = track_cells order track sectors_in in
      IsComplete order track sectors_in
        (buffer cells)
        (length cells)
        (read_markers (buffer cells) (length cells) order track 48 at_start)
unfolding rounds covered AllTaken
complete is_dos track sectors_in t bytes =
    let order = disk_encoding_sector_order is_dos in
    let cells = track_cells order track sectors_in in
    let size = length-track_cells order track sectors_in in
    read_sectors order track sectors_in (buffer cells) (length cells) 16 0 (replicate 48 0xff)
      at_start t
      (λ i h.
        ground (arith, all_below_sound 16 (λ i. ltb (order i) 16) i (in_range_table is_dos) h))
      bytes
      (λ i h.
        not-true _
          (all_below_sound 16 (λ i. not (covered order i == 0xffff)) i (early_table is_dos) h))
      (full_table is_dos) (omega arith) (gap-NoPrologue 48) (track-AreAt order track sectors_in)
      (omega (arith, size)) refl refl (λ i h. absurd (omega arith))

-- Every byte of a sector that was taken, by its offset in the track.
taken_byte :
    (is_dos : Bool) (sectors_in image : ℕ → ℕ)
    → AllTaken (disk_encoding_sector_order is_dos) sectors_in 16 image
    → (j : ℕ) → j < 4096
    → image j ≡ sectors_in j
unfolding AllTaken
taken_byte is_dos sectors_in image taken j h =
    let order = disk_encoding_sector_order is_dos in
    let file = j / 256 in
    let i = place (interleave_row is_dos) file in
    let row =
      all_below_sound 16
        (λ f.
          order (place (interleave_row is_dos) f) == f && ltb (place (interleave_row is_dos) f) 16)
        file (place_table is_dos) (omega arith) in
    let here : order i ≡ file = ground arith in
    let small : i < 16 = ground arith in
    let offset : order i * 256 + j % 256 ≡ j = omega (arith, here) in
    ap image (sym offset) ∙ taken i small (j % 256) (omega arith) ∙ ap sectors_in offset

-- A track of one of the 40, laid out from sectors of bytes in either of the two orders and read back in that order
-- from the first of its bytes on, is there again: the writer succeeds, the reader succeeds on the bytes that it wrote,
-- and every byte of the sixteen sectors is the one that was written.
pub denibblize-nibblize_track :
    (is_dos : Bool) (track : ℕ) (sectors_in : ℕ → ℕ)
    → track < 40
    → ((j : ℕ) → j < 4096 → sectors_in j < 256)
    → let order = disk_encoding_sector_order is_dos in
      (cells : List Cell) × (image : Memory) × (nibblize_track order track sectors_in ≡ some cells)
      × (denibblize_track (λ i. get_or (bytes_of cells) i 0) (length cells) order track
          ≡ sectors image)
      × ((j : ℕ) → j < 4096 → image j ≡ sectors_in j)
unfolding denibblize_track
denibblize-nibblize_track is_dos track sectors_in t bytes =
    let order = disk_encoding_sector_order is_dos in
    let cells = track_cells order track sectors_in in
    let last = read_markers (buffer cells) (length cells) order track 48 at_start in
    let c = complete is_dos track sectors_in t bytes in
    let some_bytes : (length cells == 0) ≡ false =
      ground (arith, length-track_cells order track sectors_in) in
    let all : (last.decoded_sectors_mask != 0xffff) ≡ false =
      ground (arith, c.all_decoded, full_table is_dos) in
    (
      cells,
      last.staging,
      laid_out-track_cells order track sectors_in t,
      rw (some_bytes, c.none_refused, all) refl,
      taken_byte is_dos sectors_in last.staging c.all_taken,
    )
