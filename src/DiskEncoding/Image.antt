-- ===== src/DiskEncoding/Image.antt =====
-- The last loop of `decode_sector_62` writes every byte of the sector, and no other.
use linapple.Common.{
  ℕ, zero, suc, ◌+◌, ◌-◌, ◌/◌, ◌%◌, ◌<◌, ◌≤◌, ◌≡◌, inl, inr, refl, arith, ap, ap₂, ◌∙◌, true, false,
  Bool-cases, leb, ◌==◌, if◌then◌else◌, List, map, get_or,
}
use linapple.DiskEncoding.{Memory, update, sub8, merge, write_image, sector_fields}
use linapple.DiskEncoding.Nibbles.{upper}
use linapple.DiskEncoding.LowBits.{merge_first, merge_second, merge_third}
use linapple.DiskEncoding.Fields.{upper_field, low_field, low_field_last}

-- What the decoder has before its last loop.
unfoldable pub decoded : (ℕ → ℕ) → List ℕ
decoded base = map upper (sector_fields base)

module _ (base : ℕ → ℕ) (bytes : (j : ℕ) → j < 256 → base j < 256) where
  -- The three bytes that round i of the last loop of the decoder writes.
  first_byte :
      (i : ℕ)
      → i < 84
      → merge (get_or (decoded base) (0x56 + (172 + i)) 0) (get_or (decoded base) i 0) 0x80 7 0x40 5
        ≡ base (172 + i)
  unfolding decoded
  first_byte i h =
      ap₂ (λ (u l : ℕ). merge u l 0x80 7 0x40 5) (upper_field base (172 + i) (omega arith))
        (low_field base i h)
      ∙ merge_first (base (172 + i) / 4) _ (omega (arith, bytes (172 + i) (omega arith)))
      ∙ omega arith

  second_byte :
      (i : ℕ)
      → i < 86
      → merge (get_or (decoded base) (0x56 + (86 + i)) 0) (get_or (decoded base) i 0) 0x20 5 0x10 3
        ≡ base (86 + i)
  unfolding decoded
  second_byte i h = elim (Bool-cases (leb 84 i)) [
    | inl late ↦
        ap₂ (λ (u l : ℕ). merge u l 0x20 5 0x10 3) (upper_field base (86 + i) (omega arith))
          (low_field_last base i h (ground arith))
        ∙ merge_second (base (86 + i) / 4) _ (omega (arith, bytes (86 + i) (omega arith)))
        ∙ omega arith
    | inr early ↦
        ap₂ (λ (u l : ℕ). merge u l 0x20 5 0x10 3) (upper_field base (86 + i) (omega arith))
          (low_field base i (ground arith))
        ∙ merge_second (base (86 + i) / 4) _ (omega (arith, bytes (86 + i) (omega arith)))
        ∙ omega arith
  ]

  third_byte :
      (i : ℕ)
      → i < 86
      → merge (get_or (decoded base) (0x56 + i) 0) (get_or (decoded base) i 0) 0x08 3 0x04 1
        ≡ base i
  unfolding decoded
  third_byte i h = elim (Bool-cases (leb 84 i)) [
    | inl late ↦
        ap₂ (λ (u l : ℕ). merge u l 0x08 3 0x04 1) (upper_field base i (omega arith))
          (low_field_last base i h (ground arith))
        ∙ merge_third (base i / 4) _ (omega (arith, bytes i (omega arith)))
        ∙ omega arith
    | inr early ↦
        ap₂ (λ (u l : ℕ). merge u l 0x08 3 0x04 1) (upper_field base i (omega arith))
          (low_field base i (ground arith))
        ∙ merge_third (base i / 4) _ (omega (arith, bytes i (omega arith)))
        ∙ omega arith
  ]

  three_updates :
      (i : ℕ) (image : Memory) (j : ℕ)
      → i < 84
      → j < 256
      → update
          (update (update image (172 + i) (base (172 + i))) (86 + i) (base (86 + i)))
          i
          (base i)
          j
        ≡ (if j % 86 == i then base j else image j)
  unfolding update
  three_updates i image j h k = ground arith

  two_updates :
      (i : ℕ) (image : Memory) (j : ℕ)
      → 84 ≤ i
      → i < 86
      → j < 256
      → update (update image (86 + i) (base (86 + i))) i (base i) j
        ≡ (if j % 86 == i then base j else image j)
  unfolding update
  two_updates i image j g h k = ground arith

  -- Three writes, the first of them only where its offset is at least 0xAC.
  writes : ℕ → ℕ → Memory → Memory
  writes i offset image =
      let low = get_or (decoded base) i 0 in
      let offset2 = sub8 offset 0x56 in
      let offset3 = sub8 offset2 0x56 in
      let image1 =
        if leb 0xac offset
        then update image offset (merge (get_or (decoded base) (0x56 + offset) 0) low 0x80 7 0x40 5)
        else image in
      let image2 =
        update image1 offset2
          (merge (get_or (decoded base) (0x56 + offset2) 0) low 0x20 5 0x10 3) in
      update image2 offset3 (merge (get_or (decoded base) (0x56 + offset3) 0) low 0x08 3 0x04 1)

  -- Before round 84 the first offset is 172 + i, and after that it has wrapped.
  writes_early :
      (i : ℕ) (image : Memory)
      → i < 84
      → writes i (172 + i) image
        ≡ update
            (update (update image (172 + i) (base (172 + i))) (86 + i) (base (86 + i)))
            i
            (base i)
  unfolding writes
  writes_early i image h =
      let test : leb 0xac (172 + i) ≡ true = ground arith in
      let second : sub8 (172 + i) 0x56 ≡ 86 + i = omega arith in
      let third : sub8 (86 + i) 0x56 ≡ i = omega arith in
      rw
        (
          test,
          second,
          third,
          first_byte i h,
          second_byte i (omega arith),
          third_byte i (omega arith),
        )
        refl

  writes_late :
      (i o : ℕ) (image : Memory)
      → o < 2
      → i ≡ 84 + o
      → writes i o image ≡ update (update image (86 + i) (base (86 + i))) i (base i)
  unfolding writes
  writes_late i o image h e =
      let test : leb 0xac o ≡ false = ground arith in
      let second : sub8 o 0x56 ≡ 86 + i = omega arith in
      let third : sub8 (86 + i) 0x56 ≡ i = omega arith in
      rw (test, second, third, second_byte i (omega arith), third_byte i (omega arith)) refl

  -- Round i puts the bytes at i, 86 + i and 172 + i in place, and no other.
  writes_at :
      (i : ℕ) (image : Memory) (j : ℕ)
      → i < 86
      → j < 256
      → writes i ((172 + i) % 256) image j ≡ (if j % 86 == i then base j else image j)
  writes_at i image j h k = elim (Bool-cases (leb 84 i)) [
    | inl late ↦
        let wrapped : (172 + i) % 256 ≡ i - 84 = ground arith in
        ap (λ (o : ℕ). writes i o image j) wrapped
        ∙ ap (λ (m : Memory). m j) (writes_late i (i - 84) image (omega arith) (ground arith))
        ∙ two_updates i image j (ground arith) h k
    | inr early ↦
        let same : (172 + i) % 256 ≡ 172 + i = ground arith in
        ap (λ (o : ℕ). writes i o image j) same
        ∙ ap (λ (m : Memory). m j) (writes_early i image (ground arith))
        ∙ three_updates i image j (ground arith) k
  ]

  outside_early :
      (i : ℕ) (image : Memory) (j : ℕ)
      → i < 84
      → 256 ≤ j
      → update
          (update (update image (172 + i) (base (172 + i))) (86 + i) (base (86 + i)))
          i
          (base i)
          j
        ≡ image j
  unfolding update
  outside_early i image j h k = ground arith

  outside_late :
      (i : ℕ) (image : Memory) (j : ℕ)
      → i < 86
      → 256 ≤ j
      → update (update image (86 + i) (base (86 + i))) i (base i) j ≡ image j
  unfolding update
  outside_late i image j h k = ground arith

  writes_outside :
      (i : ℕ) (image : Memory) (j : ℕ)
      → i < 86
      → 256 ≤ j
      → writes i ((172 + i) % 256) image j ≡ image j
  writes_outside i image j h k = elim (Bool-cases (leb 84 i)) [
    | inl late ↦
        let wrapped : (172 + i) % 256 ≡ i - 84 = ground arith in
        ap (λ (o : ℕ). writes i o image j) wrapped
        ∙ ap (λ (m : Memory). m j) (writes_late i (i - 84) image (omega arith) (ground arith))
        ∙ outside_late i image j h k
    | inr early ↦
        let same : (172 + i) % 256 ≡ 172 + i = ground arith in
        ap (λ (o : ℕ). writes i o image j) same
        ∙ ap (λ (m : Memory). m j) (writes_early i image (ground arith))
        ∙ outside_early i image j (ground arith) k
  ]

  write_image-suc :
      (n i o : ℕ) (image : Memory)
      → i < 86
      → o ≡ (172 + i) % 256
      → write_image (decoded base) (suc n) i o image
        ≡ write_image
            (decoded base)
            n
            (i + 1)
            ((172 + (i + 1)) % 256)
            (writes i ((172 + i) % 256) image)
  unfolding write_image writes
  write_image-suc n i o image h e =
      let next : sub8 (sub8 (sub8 o 0x56) 0x56) 0x53 ≡ (172 + (i + 1)) % 256 = omega arith in
      ap (λ (p : ℕ). write_image (decoded base) n (i + 1) p (writes i o image)) next
      ∙ ap
          (λ (p : ℕ).
            write_image (decoded base) n (i + 1) ((172 + (i + 1)) % 256) (writes i p image))
          e

  pub write_image_inside :
      (n i : ℕ) (image : Memory)
      → n + i ≡ 86
      → ((j : ℕ) → j < 256 → j % 86 < i → image j ≡ base j)
      → (j : ℕ) → j < 256
      → write_image (decoded base) n i ((172 + i) % 256) image j ≡ base j
  write_image_inside zero i image e h j k = unfold write_image in h j k (omega arith)
  write_image_inside (suc n) i image e h j k =
      ap (λ (m : Memory). m j) (write_image-suc n i _ image (omega arith) refl)
      ∙ write_image_inside n (i + 1) (writes i ((172 + i) % 256) image) (omega arith)
          (λ a ha hm. ground (arith, writes_at i image a (omega arith) ha, h a ha)) j k

  pub write_image_outside :
      (n i : ℕ) (image : Memory)
      → n + i ≡ 86
      → (j : ℕ) → 256 ≤ j
      → write_image (decoded base) n i ((172 + i) % 256) image j ≡ image j
  write_image_outside zero i image e j k = unfold write_image in refl
  write_image_outside (suc n) i image e j k =
      ap (λ (m : Memory). m j) (write_image-suc n i _ image (omega arith) refl)
      ∙ write_image_outside n (i + 1) (writes i ((172 + i) % 256) image) (omega arith) j k
      ∙ writes_outside i image j (omega arith) k
