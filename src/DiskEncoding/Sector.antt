-- ===== src/DiskEncoding/Sector.antt =====
-- A sector that is encoded and then decoded comes back.
use linapple.Common.{
  ℕ, ◌+◌, ◌*◌, ◌<◌, ◌≤◌, ◌≡◌, refl, arith, ap, ◌∙◌, sym, false, ◌!=◌, List, map, get_or, some,
}
use linapple.DiskEncoding.{
  Memory, write_image, sector_fields, encode_sector_62, decode_sector_62, decode_values, xor_chain,
  to_nibble, unchain,
}
use linapple.DiskEncoding.Nibbles.{upper, from_nibbles-to_nibbles}
use linapple.DiskEncoding.Chain.{last_of, unchain-xor_chain, get_or-xor_chain, xor_chain-AllBytes}
use linapple.DiskEncoding.Fields.{length-sector_fields, sector_fields-AllBytes}
use linapple.DiskEncoding.Image.{decoded, write_image_inside, write_image_outside}

module _ (base : ℕ → ℕ) (bytes : (j : ℕ) → j < 256 → base j < 256) where
  chain : List ℕ
  chain = xor_chain 0 (sector_fields base)

  unchained :
      unchain 342 0 (map upper chain) ≡ (decoded base, upper (last_of 0 (sector_fields base)))
  unfolding chain decoded
  unchained =
      ap (λ (n : ℕ). unchain n 0 (map upper (xor_chain 0 (sector_fields base))))
        (sym (length-sector_fields base))
      ∙ unchain-xor_chain 0 (sector_fields base)

  checksum_holds : get_or (map upper chain) 342 0 ≡ upper (last_of 0 (sector_fields base))
  unfolding chain
  checksum_holds =
      ap (λ (n : ℕ). get_or (map upper (xor_chain 0 (sector_fields base))) n 0)
        (sym (length-sector_fields base))
      ∙ get_or-xor_chain 0 (sector_fields base)

  not_different : (x : ℕ) → (x != x) ≡ false
  not_different x = ground arith

  decode_values_lem :
      (image : Memory)
      → decode_values (map upper chain) image ≡ some (write_image (decoded base) 86 0 0xac image)
  unfolding decode_values
  decode_values_lem image =
      rw (unchained, checksum_holds, not_different (upper (last_of 0 (sector_fields base)))) refl

  pub decode_lem :
      (image : Memory)
      → decode_sector_62 (map to_nibble (xor_chain 0 (sector_fields base))) image
        ≡ some (write_image (decoded base) 86 0 0xac image)
  unfolding decode_sector_62 chain
  decode_lem image =
      let fits =
        xor_chain-AllBytes 0 (sector_fields base) (omega arith)
          (sector_fields-AllBytes base bytes) in
      rw (from_nibbles-to_nibbles chain fits, decode_sector_62) (decode_values_lem image)

-- A sector encoded and then decoded into an image puts its 256 bytes there, and leaves the rest of
-- the memory as it was.
pub decode-encode_sector_62 :
    (sectors : ℕ → ℕ) (index : ℕ) (image : Memory)
    → ((j : ℕ) → j < 256 → sectors (index * 256 + j) < 256)
    → (m : Memory) × (decode_sector_62 (encode_sector_62 sectors index) image ≡ some m)
      × ((j : ℕ) → j < 256 → m j ≡ sectors (index * 256 + j))
      × ((j : ℕ) → 256 ≤ j → m j ≡ image j)
unfolding encode_sector_62
decode-encode_sector_62 sectors index image bytes =
    let base = λ (j : ℕ). sectors (index * 256 + j) in
    (
      write_image (decoded base) 86 0 0xac image,
      decode_lem base bytes image,
      write_image_inside base bytes 86 0 image refl (λ j h k. absurd (omega arith)),
      write_image_outside base bytes 86 0 image refl,
    )
