-- ===== src/DiskEncoding/Found.antt =====
-- The reader of a track at the address fields that the writer lays out.
use linapple.Common.{
  ℕ, zero, suc, ◌+◌, ◌%◌, ◌<◌, ◌≡◌, ◌≢◌, refl, arith, ap, ◌∙◌, sym, subst, ◌++◌, bit_xor,
  bit_xor-lt, true, false, ◌==◌, ltb, leb, List, [], ◌∷◌, length, some,
}
use native.Mathlib.Nat.{mod-eq_of_lt}
use linapple.DiskEncoding.Track.{
  volume_default, checksum, address_field, encode_4and4_high, encode_4and4_low,
}
use linapple.DiskEncoding.Track.Layout.{fetch-encode_4and4, NoPrologue}
use linapple.DiskEncoding.Reader.{
  Reader, fetch_byte, fetch_bytes, find_next_marker, read_address, read_marker,
}

-- The bytes stand in the buffer from an offset on.
abbrev pub AreAt : (ℕ → ℕ) → List ℕ → ℕ → Type 0
AreAt nibbles [] offset = Unit
AreAt nibbles (x ∷ xs) offset = (nibbles offset ≡ x) × AreAt nibbles xs (offset + 1)

module _ (nibbles_in : ℕ → ℕ) (count : ℕ) where
  pub fetch_byte_lem :
      (offset : ℕ)
      → offset + 1 < count
      → fetch_byte nibbles_in count offset ≡ (nibbles_in offset, offset + 1)
  unfolding fetch_byte
  fetch_byte_lem offset h =
      let inside : leb count (offset + 1) ≡ false = ground arith in rw inside refl

  -- Bytes that stand before the end of the buffer are fetched.
  pub fetch_bytes_lem :
      (xs : List ℕ) (offset : ℕ)
      → AreAt nibbles_in xs offset
      → offset + length xs < count
      → fetch_bytes nibbles_in count (length xs) offset ≡ (xs, offset + length xs)
  unfolding fetch_bytes
  fetch_bytes_lem [] offset at h = ap (λ (o : ℕ). ([], o)) (omega arith)
  fetch_bytes_lem (x ∷ xs) offset at h =
      rw (fetch_byte_lem offset (omega arith), at.0)
        (ap (λ (r : List ℕ × ℕ). (x ∷ r.0, r.1))
            (fetch_bytes_lem xs (offset + 1) at.1 (omega arith))
          ∙ ap (λ (o : ℕ). (x ∷ xs, o)) (omega arith))

  -- A prologue's first two bytes end the search.
  find_here :
      (n offset : ℕ)
      → offset + 2 < count
      → nibbles_in offset ≡ 0xd5
      → nibbles_in (offset + 1) ≡ 0xaa
      → find_next_marker nibbles_in count (suc n) offset ≡ some (offset + 2)
  unfolding find_next_marker
  find_here n offset h first second =
      rw
        (
          fetch_byte_lem offset (omega arith),
          first,
          second,
          fetch_byte_lem (offset + 1) (omega arith),
        )
        (ap (λ (o : ℕ). some o) (omega arith))

  -- Other bytes are passed over.
  find_further :
      (n offset : ℕ)
      → offset + 1 < count
      → nibbles_in offset ≢ 0xd5
      → find_next_marker nibbles_in count (suc n) offset
        ≡ find_next_marker nibbles_in count n (offset + 1)
  unfolding find_next_marker
  find_further n offset h other =
      let differs : (nibbles_in offset == 0xd5) ≡ false = ground arith in
      rw (fetch_byte_lem offset h, differs) refl

  -- The search passes over bytes that begin no prologue, and ends behind the two bytes that do.
  pub find_after :
      (gap rest : List ℕ) (n offset : ℕ)
      → AreAt nibbles_in (gap ++ (0xd5 ∷ 0xaa ∷ rest)) offset
      → NoPrologue gap
      → offset + length gap + 2 < count
      → length gap < n
      → (find_next_marker nibbles_in count n offset ≡ some (offset + length gap + 2))
        × AreAt nibbles_in rest (offset + length gap + 2)
  find_after gap rest zero offset at clear h fuel = absurd (omega arith)
  find_after [] rest (suc n) offset at clear h fuel = (
    find_here n offset (omega arith) at.0 at.1.0 ∙ ap (λ (o : ℕ). some o) (omega arith),
    subst (AreAt nibbles_in rest) (omega arith) at.1.1,
  )
  find_after (x ∷ xs) rest (suc n) offset at clear h fuel =
      let (found, behind) =
        find_after xs rest n (offset + 1) at.1 clear.1 (omega arith) (omega arith) in
      let same : offset + 1 + length xs + 2 ≡ offset + suc (length xs) + 2 = omega arith in
      (
        find_further n offset (omega arith) (λ e. clear.0 (sym at.0 ∙ e))
            ∙ found
            ∙ ap (λ (o : ℕ). some o) same,
        subst (AreAt nibbles_in rest) same behind,
      )

  abbrev field_tail : ℕ → ℕ → List ℕ
  field_tail track sector =
      encode_4and4_high volume_default
      ∷ encode_4and4_low volume_default
      ∷ encode_4and4_high track
      ∷ encode_4and4_low track
      ∷ encode_4and4_high sector
      ∷ encode_4and4_low sector
      ∷ encode_4and4_high (checksum track sector)
      ∷ encode_4and4_low (checksum track sector)
      ∷ 0xde
      ∷ 0xaa
      ∷ 0xeb
      ∷ []

  read_address_lem :
      (track sector : ℕ) (r : Reader) (offset : ℕ)
      → track < 40
      → sector < 16
      → AreAt nibbles_in (field_tail track sector) offset
      → offset + 11 < count
      → read_address nibbles_in count track r offset
        ≡ record r { current_offset = offset + 11; current_sector = some sector }
  unfolding read_address
  read_address_lem track sector r offset t k at h =
      let fetched : fetch_bytes nibbles_in count 11 offset
          ≡ (field_tail track sector, offset + 11) =
        fetch_bytes_lem (field_tail track sector) offset at h in
      let low = bit_xor-lt 8 volume_default track (omega arith) (omega arith) in
      let sum = bit_xor-lt 8 (bit_xor volume_default track) sector low (omega arith) in
      let volume_read = fetch-encode_4and4 volume_default (omega arith) in
      let track_read = fetch-encode_4and4 track (omega arith) in
      let sector_read = fetch-encode_4and4 sector (omega arith) in
      let sum_read = fetch-encode_4and4 (checksum track sector) sum in
      let small : track % 256 ≡ track = mod-eq_of_lt (omega arith) in
      let sum_holds : (checksum track sector == checksum track sector) ≡ true = ground arith in
      let track_holds : (track == track) ≡ true = ground arith in
      let sector_holds : ltb sector 16 ≡ true = ground arith in
      rw
        (
          fetched, volume_read, track_read, sector_read, sum_read, small, sum_holds, track_holds,
          sector_holds,
        )
        refl

  -- Where an address field of the writer, for one of 40 tracks and 16 sectors, stands in the buffer behind bytes none
  -- of which begins a prologue, and the buffer goes on behind it, the next round of the reader's loop on that
  -- track finds it, whatever it has read before: it refuses nothing, the sector is the current one, and the
  -- reader is behind the field.
  pub read_marker-address_field :
      (sector_order : ℕ → ℕ) (track sector : ℕ) (gap : List ℕ) (r : Reader)
      → track < 40
      → sector < 16
      → NoPrologue gap
      → AreAt nibbles_in (gap ++ address_field track sector) r.current_offset
      → r.current_offset + length gap + 14 < count
      → read_marker nibbles_in count sector_order track r
        ≡ some (record r {
          current_offset = r.current_offset + length gap + 14;
          current_sector = some sector;
        })
  unfolding read_marker address_field
  read_marker-address_field sector_order track sector gap r t k clear at h =
      let start = r.current_offset + length gap in
      let (found, behind) =
        find_after gap (0x96 ∷ field_tail track sector) count r.current_offset at clear
          (omega arith) (omega arith) in
      let read = read_address_lem track sector r (start + 2 + 1) t k behind.1 (omega arith) in
      rw (found, read_marker, fetch_byte_lem (start + 2) (omega arith), behind.0)
        (ap (λ (e : Reader). some e)
          (read
            ∙ ap (λ (o : ℕ). record r { current_offset = o; current_sector = some sector })
                (omega arith)))
