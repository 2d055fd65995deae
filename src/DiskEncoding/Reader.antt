-- ===== src/DiskEncoding/Reader.antt =====
-- The reader of a track, `disk_encoding_denibblize_track`.
--
-- The buffer is a function from offsets, a pointer into the image a memory that begins there. The
-- fields are fetched in one go where the source fetches them part by part, whatever they hold.
use linapple.Common.{
  ℕ, zero, suc, ◌+◌, ◌-◌, ◌*◌, ◌%◌, ◌^◌, bit_or, bit_xor, Bool, true, false, not, ◌&&◌, ◌||◌, ltb,
  leb, ◌==◌, ◌!=◌, if◌then◌else◌, List, [], ◌∷◌, get_or, Option, none, some,
}
use linapple.DiskEncoding.{Memory, decode_sector_62}
use linapple.DiskEncoding.Track.{fetch_4and4}

abbrev pub max_gcr_markers_per_track : ℕ
max_gcr_markers_per_track = 48

abbrev pub all_sectors_mask : ℕ
all_sectors_mask = 0xffff

-- `current_sector` is none where the source has -1.
pub record Reader : Type 0 where
  pub current_offset : ℕ
  pub current_sector : Option ℕ
  pub decoded_sectors_mask : ℕ
  pub field_refused : Bool
  pub staging : Memory

pub data Denibblized : Type 0 where
  invalid_argument : Denibblized
  corrupt : Denibblized
  sectors : Memory → Denibblized

-- What `epilogue_follows` finds in its three bytes.
abbrev pub is_epilogue : ℕ → ℕ → ℕ → Bool
is_epilogue first second third = first == 0xde && second == 0xaa && third == 0xeb

-- A sector in the image.
abbrev pub placed : Memory → ℕ → Memory → Memory
placed staging base image j = if leb base j then image (j - base) else staging j

-- A sector that was decoded is kept; none is one that was not.
unfoldable pub keep_sector : Reader → ℕ → Option Memory → Reader
keep_sector r file_sector none = record r { field_refused = true }
keep_sector r file_sector (some image) = record r {
  decoded_sectors_mask = bit_or r.decoded_sectors_mask (1 * 2 ^ file_sector);
  staging = placed r.staging (file_sector * 256) image;
}

-- What is done with the 343 bytes of a data field: without an address field before it that holds, nothing.
unfoldable pub take_sector : (ℕ → ℕ) → Reader → Option ℕ → List ℕ → Bool → Reader
take_sector sector_order r none bytes data_holds = r
take_sector sector_order r (some sector) bytes data_holds =
    let file_sector = sector_order sector in
    let decoded = decode_sector_62 bytes (λ j. r.staging (file_sector * 256 + j)) in
    if not data_holds || leb 16 file_sector
    then record r { field_refused = true }
    else keep_sector r file_sector decoded

module _ (nibbles_in : ℕ → ℕ) (count : ℕ) where
  -- The byte at an offset, and the offset after it.
  unfoldable pub fetch_byte : ℕ → ℕ × ℕ
  fetch_byte offset = (nibbles_in offset, if leb count (offset + 1) then 0 else offset + 1)

  unfoldable pub fetch_bytes : ℕ → ℕ → List ℕ × ℕ
  fetch_bytes zero offset = ([], offset)
  fetch_bytes (suc n) offset =
      let (byte, next) = fetch_byte offset in
      let (bytes, end) = fetch_bytes n next in (byte ∷ bytes, end)

  -- The loop of `find_next_marker`, with `n` rounds left; none is `false`.
  unfoldable pub find_next_marker : ℕ → ℕ → Option ℕ
  find_next_marker zero offset = none
  find_next_marker (suc n) offset =
      let (byte, next) = fetch_byte offset in
      let (_, behind) = fetch_byte next in
      let rest = find_next_marker n next in
      if byte == 0xd5 && nibbles_in next == 0xaa then some behind else rest

  -- The case of an address field, at the offset behind its prologue.
  unfoldable pub read_address : ℕ → Reader → ℕ → Reader
  read_address track r offset =
      let (bytes, end) = fetch_bytes 11 offset in
      let byte = λ (i : ℕ). get_or bytes i 0 in
      let volume = fetch_4and4 (byte 0) (byte 1) in
      let address_track = fetch_4and4 (byte 2) (byte 3) in
      let sector = fetch_4and4 (byte 4) (byte 5) in
      let checksum = fetch_4and4 (byte 6) (byte 7) in
      let address_holds =
        is_epilogue (byte 8) (byte 9) (byte 10)
        && checksum == bit_xor (bit_xor volume address_track) sector
        && address_track == track % 256
        && ltb sector 16 in
      record r {
        current_offset = end;
        current_sector = if address_holds then some sector else none;
        field_refused = if address_holds then r.field_refused else true;
      }

  -- The case of a data field.
  unfoldable pub read_data : (ℕ → ℕ) → Reader → ℕ → Reader
  read_data sector_order r offset =
      let (bytes, behind) = fetch_bytes 343 offset in
      let (tail, end) = fetch_bytes 3 behind in
      let data_holds = is_epilogue (get_or tail 0 0) (get_or tail 1 0) (get_or tail 2 0) in
      let read = take_sector sector_order r r.current_sector bytes data_holds in
      record read { current_offset = end; current_sector = none }

  -- The body of the loop: a marker and what it announces; none where no marker is found.
  unfoldable pub read_marker : (ℕ → ℕ) → ℕ → Reader → Option Reader
  read_marker sector_order track r = elim (find_next_marker count r.current_offset) [
    | none ↦ none
    | some offset ↦
        let (marker_type, next) = fetch_byte offset in
        some (
          if marker_type == 0x96
          then read_address track r next
          else if marker_type == 0xad
          then read_data sector_order r next
          else record r { current_offset = next })
  ]

  -- The loop, with `n` markers left of the most that are read.
  unfoldable pub read_markers : (ℕ → ℕ) → ℕ → ℕ → Reader → Reader
  read_markers sector_order track zero r = r
  read_markers sector_order track (suc n) r =
      let rest : Reader = elim (read_marker sector_order track r) [
        | none ↦ r
        | some read ↦ read_markers sector_order track n read
      ] in
      if r.decoded_sectors_mask == all_sectors_mask then r else rest

  unfoldable pub denibblize_track : (ℕ → ℕ) → ℕ → Denibblized
  denibblize_track sector_order track =
      let read = read_markers sector_order track max_gcr_markers_per_track (record {
        current_offset = 0;
        current_sector = none;
        decoded_sectors_mask = 0;
        field_refused = false;
        staging = λ _. 0;
      }) in
      if count == 0
      then invalid_argument
      else if read.field_refused || read.decoded_sectors_mask != all_sectors_mask
      then corrupt
      else sectors read.staging

-- `disk_encoding_sector_interleave_table` and the choice of its row; false is the first row.
abbrev pub interleave_row : Bool → List ℕ
interleave_row false =
    0x00 ∷ 0x08 ∷ 0x01 ∷ 0x09 ∷ 0x02 ∷ 0x0a ∷ 0x03 ∷ 0x0b ∷ 0x04 ∷ 0x0c ∷ 0x05 ∷ 0x0d ∷ 0x06 ∷ 0x0e
    ∷ 0x07 ∷ 0x0f ∷ []
interleave_row true =
    0x00 ∷ 0x07 ∷ 0x0e ∷ 0x06 ∷ 0x0d ∷ 0x05 ∷ 0x0c ∷ 0x04 ∷ 0x0b ∷ 0x03 ∷ 0x0a ∷ 0x02 ∷ 0x09 ∷ 0x01
    ∷ 0x08 ∷ 0x0f ∷ []

abbrev pub disk_encoding_sector_order : Bool → ℕ → ℕ
disk_encoding_sector_order is_dos sector = get_or (interleave_row is_dos) sector 0
