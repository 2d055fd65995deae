-- ===== src/DiskEncoding/SectorFound.antt =====
-- The reader of a track at a sector that the writer lays out.
use linapple.Common.{
  ℕ, ◌+◌, ◌-◌, ◌*◌, ◌^◌, ◌<◌, ◌≤◌, ◌≡◌, arith, ap, ◌∙◌, subst, bit_or, true, false, leb, List, [],
  ◌∷◌, ◌++◌, length, Option, none, some,
}
use linapple.DiskEncoding.{Memory, encode_sector_62, decode_sector_62}
use linapple.DiskEncoding.Sector.{decode-encode_sector_62}
use linapple.DiskEncoding.Track.{data_field}
use linapple.DiskEncoding.Track.Layout.{NoPrologue, length-encode_sector_62}
use linapple.DiskEncoding.Reader.{
  Reader, fetch_bytes, placed, keep_sector, take_sector, read_data, read_marker,
}
use linapple.DiskEncoding.Found.{AreAt, fetch_byte_lem, fetch_bytes_lem, find_after}

pub AreAt-append :
    (nibbles : ℕ → ℕ) (xs ys : List ℕ) (offset : ℕ)
    → AreAt nibbles (xs ++ ys) offset
    → AreAt nibbles xs offset × AreAt nibbles ys (offset + length xs)
AreAt-append nibbles [] ys offset at = (tt, subst (AreAt nibbles ys) (omega arith) at)
AreAt-append nibbles (x ∷ xs) ys offset at =
    let (first, second) = AreAt-append nibbles xs ys (offset + 1) at.1 in
    ((at.0, first), subst (AreAt nibbles ys) (omega arith) second)

-- What the memory holds once a sector has been decoded to `base`.
pub record HasSector (sectors_in : ℕ → ℕ) (base : ℕ) (before after : Memory) : Type 0 where
  pub sector_there : (j : ℕ) → j < 256 → after (base + j) ≡ sectors_in (base + j)
  pub below_kept : (i : ℕ) → i < base → after i ≡ before i
  pub above_kept : (i : ℕ) → base + 256 ≤ i → after i ≡ before i

placed-HasSector :
    (sectors_in staging image : ℕ → ℕ) (base : ℕ)
    → ((j : ℕ) → j < 256 → image j ≡ sectors_in (base + j))
    → ((j : ℕ) → 256 ≤ j → image j ≡ staging (base + j))
    → HasSector sectors_in base staging (placed staging base image)
placed-HasSector sectors_in staging image base inside outside =
    let above : (i : ℕ) → base ≤ i → placed staging base image i ≡ image (i - base) =
      λ i h. ground arith in
    record {
      sector_there = λ j h. above (base + j) (omega arith) ∙ ap image (omega arith) ∙ inside j h;
      below_kept = λ i h. ground arith;
      above_kept = λ i h.
          above i (omega arith) ∙ outside (i - base) (omega arith) ∙ ap staging (omega arith);
    }

take_sector_lem :
    (sector_order : ℕ → ℕ) (r : Reader) (sector : ℕ) (bytes : List ℕ) (image : Memory)
    → sector_order sector < 16
    → decode_sector_62 bytes (λ j. r.staging (sector_order sector * 256 + j)) ≡ some image
    → take_sector sector_order r (some sector) bytes true ≡ record r {
      decoded_sectors_mask = bit_or r.decoded_sectors_mask (1 * 2 ^ sector_order sector);
      staging = placed r.staging (sector_order sector * 256) image;
    }
unfolding take_sector keep_sector
take_sector_lem sector_order r sector bytes image file decoded =
    let small : leb 16 (sector_order sector) ≡ false = ground arith in
    rw small (ap (keep_sector r (sector_order sector)) decoded)

module _ (nibbles_in : ℕ → ℕ) (count : ℕ) where
  read_data_lem :
      (sector_order sectors_in : ℕ → ℕ) (sector : ℕ) (r : Reader) (offset : ℕ)
      → r.current_sector ≡ some sector
      → sector_order sector < 16
      → ((j : ℕ) → j < 256 → sectors_in (sector_order sector * 256 + j) < 256)
      → AreAt nibbles_in
          (encode_sector_62 sectors_in (sector_order sector) ++ (0xde ∷ 0xaa ∷ 0xeb ∷ []))
          offset
      → offset + 346 < count
      → (after : Memory) × (read_data nibbles_in count sector_order r offset ≡ record r {
        current_offset = offset + 346;
        current_sector = none;
        decoded_sectors_mask = bit_or r.decoded_sectors_mask (1 * 2 ^ sector_order sector);
        staging = after;
      })
        × HasSector sectors_in (sector_order sector * 256) r.staging after
  unfolding read_data
  read_data_lem sector_order sectors_in sector r offset current file bytes at h =
      let file_sector = sector_order sector in
      let base = file_sector * 256 in
      let code = encode_sector_62 sectors_in file_sector in
      let size = length-encode_sector_62 sectors_in file_sector in
      let (body, tail) = AreAt-append nibbles_in code (0xde ∷ 0xaa ∷ 0xeb ∷ []) offset at in
      let fetched : fetch_bytes nibbles_in count 343 offset ≡ (code, offset + 343) =
        subst (λ n. fetch_bytes nibbles_in count n offset ≡ (code, offset + n)) size
          (fetch_bytes_lem nibbles_in count code offset body (omega (arith, size))) in
      let ended : fetch_bytes nibbles_in count 3 (offset + 343)
          ≡ (0xde ∷ 0xaa ∷ 0xeb ∷ [], offset + 343 + 3) =
        fetch_bytes_lem nibbles_in count (0xde ∷ 0xaa ∷ 0xeb ∷ []) (offset + 343)
          (subst (λ n. AreAt nibbles_in (0xde ∷ 0xaa ∷ 0xeb ∷ []) (offset + n)) size tail)
          (omega arith) in
      let (image, decoded, inside, outside) =
        decode-encode_sector_62 sectors_in file_sector (λ j. r.staging (base + j)) bytes in
      let kept = take_sector_lem sector_order r sector code image file decoded in
      let after = placed r.staging base image in
      (
        after,
        rw (fetched, ended)
            (ap
                (λ (e : Reader). record e {
                  current_offset = offset + 343 + 3;
                  current_sector = none;
                })
                (ap (λ (s : Option ℕ). take_sector sector_order r s code true) current ∙ kept)
              ∙ ap
                  (λ (o : ℕ). record r {
                    current_offset = o;
                    current_sector = none;
                    decoded_sectors_mask = bit_or r.decoded_sectors_mask (1 * 2 ^ file_sector);
                    staging = after;
                  })
                  (omega arith)),
        placed-HasSector sectors_in r.staging image base inside outside,
      )

  -- The next round of the loop at a data field behind an address field that holds.
  pub read_marker-data_field :
      (sector_order sectors_in : ℕ → ℕ) (track sector : ℕ) (gap : List ℕ) (r : Reader)
      → r.current_sector ≡ some sector
      → sector_order sector < 16
      → ((j : ℕ) → j < 256 → sectors_in (sector_order sector * 256 + j) < 256)
      → NoPrologue gap
      → AreAt nibbles_in (gap ++ data_field sectors_in (sector_order sector)) r.current_offset
      → r.current_offset + length gap + 349 < count
      → (after : Memory) × (read_marker nibbles_in count sector_order track r
          ≡ some (record r {
            current_offset = r.current_offset + length gap + 349;
            current_sector = none;
            decoded_sectors_mask = bit_or r.decoded_sectors_mask (1 * 2 ^ sector_order sector);
            staging = after;
          }))
        × HasSector sectors_in (sector_order sector * 256) r.staging after
  unfolding read_marker data_field
  read_marker-data_field sector_order sectors_in track sector gap r current file bytes clear at h =
      let start = r.current_offset + length gap in
      let file_sector = sector_order sector in
      let (found, behind) =
        find_after nibbles_in count gap
          (0xad ∷ (encode_sector_62 sectors_in file_sector ++ (0xde ∷ 0xaa ∷ 0xeb ∷ []))) count
          r.current_offset at clear (omega arith) (omega arith) in
      let (after, read, there) =
        read_data_lem sector_order sectors_in sector r (start + 2 + 1) current file bytes behind.1
          (omega arith) in
      (
        after,
        rw (found, read_marker, fetch_byte_lem nibbles_in count (start + 2) (omega arith), behind.0)
            (ap (λ (e : Reader). some e)
              (read
                ∙ ap
                    (λ (o : ℕ). record r {
                      current_offset = o;
                      current_sector = none;
                      decoded_sectors_mask = bit_or r.decoded_sectors_mask (1 * 2 ^ file_sector);
                      staging = after;
                    })
                    (omega arith))),
        there,
      )
