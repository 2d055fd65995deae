-- ===== src/DiskEncoding/WholeTrack.antt =====
-- A track that is laid out and read back.
use mathlib.Core.List.{append_assoc}
use linapple.Common.{
  ℕ, zero, suc, ◌+◌, ◌*◌, ◌^◌, ◌<◌, ◌≤◌, ◌≡◌, refl, arith, ap, ap₂, ◌∙◌, sym, subst, bit_or, true,
  false, ◌==◌, List, [], ◌∷◌, ◌++◌, length, length-append, replicate, none, some, inl, inr,
  bound-cases,
}
use linapple.DiskEncoding.{Memory}
use linapple.DiskEncoding.Track.{
  Cell, address_field, data_field, put_data, put_gap, put_sector, put_sectors,
}
use linapple.DiskEncoding.Track.Layout.{NoPrologue, length-data_field}
use linapple.DiskEncoding.Reader.{Reader, read_marker, read_markers}
use linapple.DiskEncoding.Found.{AreAt, read_marker-address_field}
use linapple.DiskEncoding.SectorFound.{AreAt-append, HasSector, read_marker-data_field}

-- The bytes of a track without the marks of the sync bytes.
abbrev pub bytes_of : List Cell → List ℕ
bytes_of [] = []
bytes_of ((byte, _) ∷ cells) = byte ∷ bytes_of cells

pub bytes_of-append : (xs ys : List Cell) → bytes_of (xs ++ ys) ≡ bytes_of xs ++ bytes_of ys
bytes_of-append [] ys = refl
bytes_of-append ((byte, _) ∷ xs) ys = ap (λ (rest : List ℕ). byte ∷ rest) (bytes_of-append xs ys)

bytes_of-put_data : (xs : List ℕ) → bytes_of (put_data xs) ≡ xs
unfolding put_data
bytes_of-put_data [] = refl
bytes_of-put_data (x ∷ xs) = ap (λ (rest : List ℕ). x ∷ rest) (bytes_of-put_data xs)

pub bytes_of-put_gap : (n : ℕ) → bytes_of (put_gap n) ≡ replicate n 0xff
unfolding put_gap
bytes_of-put_gap zero = refl
bytes_of-put_gap (suc n) = ap (λ (rest : List ℕ). 0xff ∷ rest) (bytes_of-put_gap n)

pub gap-NoPrologue : (n : ℕ) → NoPrologue (replicate n 0xff)
gap-NoPrologue zero = tt
gap-NoPrologue (suc n) = ((λ e. omega (arith, e)), gap-NoPrologue n)

pub length-gap : (n : ℕ) → length {A = ℕ} (replicate n 0xff) ≡ n
length-gap zero = refl
length-gap (suc n) = ap suc (length-gap n)

nested : (a b c d e : List ℕ) → (a ++ (b ++ (c ++ d))) ++ e ≡ a ++ (b ++ (c ++ (d ++ e)))
nested a b c d e =
    append_assoc a (b ++ (c ++ d)) e
    ∙ ap (λ (xs : List ℕ). a ++ xs)
        (append_assoc b (c ++ d) e ∙ ap (λ (xs : List ℕ). b ++ xs) (append_assoc c d e))

-- The mask once the first sectors have been read.
unfoldable pub covered : (ℕ → ℕ) → ℕ → ℕ
covered sector_order zero = 0
covered sector_order (suc k) = bit_or (covered sector_order k) (1 * 2 ^ sector_order k)

-- The rounds for a number of sectors, and the sixteen that are left over.
unfoldable pub rounds : ℕ → ℕ
rounds zero = 16
rounds (suc n) = suc (suc (rounds n))

-- The files of the first sectors are in the image.
unfoldable pub AllTaken : (ℕ → ℕ) → (ℕ → ℕ) → ℕ → Memory → Type 0
AllTaken sector_order sectors_in k image =
    (i : ℕ)
    → i < k
    → (j : ℕ) → j < 256
    → image (sector_order i * 256 + j) ≡ sectors_in (sector_order i * 256 + j)

module _ (sector_order : ℕ → ℕ) (track : ℕ) (sectors_in : ℕ → ℕ) where
  -- The bytes of one sector and those behind it.
  sector_bytes : ℕ → List ℕ → List ℕ
  sector_bytes idx rest =
      address_field track idx
      ++ (replicate 6 0xff
          ++ (data_field sectors_in (sector_order idx) ++ (replicate 16 0xff ++ rest)))

  bytes_of-put_sector :
      (n idx : ℕ)
      → bytes_of (put_sectors sector_order track sectors_in (suc n) idx)
        ≡ sector_bytes idx (bytes_of (put_sectors sector_order track sectors_in n (idx + 1)))
  unfolding put_sectors put_sector sector_bytes
  bytes_of-put_sector n idx =
      let address = put_data (address_field track idx) in
      let content = put_data (data_field sectors_in (sector_order idx)) in
      let more = put_sectors sector_order track sectors_in n (idx + 1) in
      let last = content ++ put_gap 16 in
      bytes_of-append (address ++ (put_gap 6 ++ last)) more
      ∙ ap (λ (xs : List ℕ). xs ++ bytes_of more)
          (bytes_of-append address (put_gap 6 ++ last)
            ∙ ap₂ (λ (xs ys : List ℕ). xs ++ ys) (bytes_of-put_data (address_field track idx))
                (bytes_of-append (put_gap 6) last
                  ∙ ap₂ (λ (xs ys : List ℕ). xs ++ ys) (bytes_of-put_gap 6)
                      (bytes_of-append content (put_gap 16)
                        ∙ ap₂ (λ (xs ys : List ℕ). xs ++ ys)
                            (bytes_of-put_data (data_field sectors_in (sector_order idx)))
                            (bytes_of-put_gap 16))))
      ∙ nested (address_field track idx) (replicate 6 0xff)
          (data_field sectors_in (sector_order idx)) (replicate 16 0xff) (bytes_of more)

  taken_more :
      (k : ℕ) (before after : Memory)
      → AllTaken sector_order sectors_in k before
      → HasSector sectors_in (sector_order k * 256) before after
      → AllTaken sector_order sectors_in (suc k) after
  unfolding AllTaken
  taken_more k before after all there i h j b =
      let f = sector_order i in
      let g = sector_order k in
      elim (bound-cases i k) [
        | inr last ↦
            let here : i ≡ k = omega arith in
            subst (λ n. after (sector_order n * 256 + j) ≡ sectors_in (sector_order n * 256 + j))
              (sym here) (there.sector_there j b)
        | inl old ↦ elim (bound-cases f g) [
          | inl less ↦ there.below_kept (f * 256 + j) (omega arith) ∙ all i old j b
          | inr more ↦ elim (bound-cases g f) [
            | inl above ↦ there.above_kept (f * 256 + j) (omega arith) ∙ all i old j b
            | inr same ↦
                let equal : f ≡ g = omega arith in
                subst (λ n. after (n * 256 + j) ≡ sectors_in (n * 256 + j)) (sym equal)
                  (there.sector_there j b)
          ]
        ]
      ]

  length-address_field : (idx : ℕ) → length (address_field track idx) ≡ 14
  unfolding address_field
  length-address_field idx = refl

  module _ (nibbles_in : ℕ → ℕ) (count : ℕ) where
    -- Two rounds of the loop read a sector, and leave what stands behind it.
    record IsRead (idx size : ℕ) (rest : List ℕ) (r next : Reader) : Type 0 where
      address_read : Reader
      first_round : read_marker nibbles_in count sector_order track r ≡ some address_read
      second_round : read_marker nibbles_in count sector_order track address_read ≡ some next
      address_mask : address_read.decoded_sectors_mask ≡ r.decoded_sectors_mask
      next_offset : next.current_offset ≡ r.current_offset + size
      next_mask :
          next.decoded_sectors_mask ≡ bit_or r.decoded_sectors_mask (1 * 2 ^ sector_order idx)
      next_refused : next.field_refused ≡ r.field_refused
      next_image : HasSector sectors_in (sector_order idx * 256) r.staging next.staging
      next_rest : AreAt nibbles_in rest (r.current_offset + size)

    one_sector :
        (idx : ℕ) (gap rest : List ℕ) (r : Reader)
        → track < 40
        → idx < 16
        → sector_order idx < 16
        → ((j : ℕ) → j < 256 → sectors_in (sector_order idx * 256 + j) < 256)
        → NoPrologue gap
        → AreAt nibbles_in (gap ++ sector_bytes idx rest) r.current_offset
        → r.current_offset + length gap + 385 ≤ count
        → (next : Reader) × IsRead idx (length gap + 369) (replicate 16 0xff ++ rest) r next
    unfolding sector_bytes
    one_sector idx gap rest r t k file bytes clear at h =
        let off = r.current_offset in
        let six : List ℕ = replicate 6 0xff in
        let content = data_field sectors_in (sector_order idx) in
        let behind = replicate 16 0xff ++ rest in
        let address = address_field track idx in
        let start = off + length gap in
        let (at1, at2) = AreAt-append nibbles_in (gap ++ address) (six ++ (content ++ behind)) off (
          subst (λ (xs : List ℕ). AreAt nibbles_in xs off)
            (sym (append_assoc gap address (six ++ (content ++ behind)))) at) in
        let place2 : off + length (gap ++ address) ≡ start + 14 =
          omega (arith, length-append gap address, length-address_field idx) in
        let (at3, at4) = AreAt-append nibbles_in (six ++ content) behind (start + 14) (
          subst (λ (xs : List ℕ). AreAt nibbles_in xs (start + 14))
            (sym (append_assoc six content behind))
            (subst (AreAt nibbles_in (six ++ (content ++ behind))) place2 at2)) in
        let place4 : start + 14 + length (six ++ content) ≡ off + (length gap + 369) =
          omega
            (arith, length-append six content, length-data_field sectors_in (sector_order idx)) in
        let mid : Reader = record r { current_offset = start + 14; current_sector = some idx } in
        let (after, read, there) =
          read_marker-data_field nibbles_in count sector_order sectors_in track idx six mid refl
            file bytes (gap-NoPrologue 6) at3 (omega arith) in
        (
          record mid {
            current_offset = start + 14 + 6 + 349;
            current_sector = none;
            decoded_sectors_mask = bit_or r.decoded_sectors_mask (1 * 2 ^ sector_order idx);
            staging = after;
          },
          record {
            address_read = mid;
            first_round =
                read_marker-address_field nibbles_in count sector_order track idx gap r t k clear
                  at1 (omega arith);
            second_round = read;
            address_mask = refl;
            next_offset = omega arith;
            next_mask = refl;
            next_refused = refl;
            next_image = there;
            next_rest = subst (AreAt nibbles_in behind) place4 at4;
          },
        )

    round :
        (n : ℕ) (r next : Reader)
        → (r.decoded_sectors_mask == 0xffff) ≡ false
        → read_marker nibbles_in count sector_order track r ≡ some next
        → read_markers nibbles_in count sector_order track (suc n) r
          ≡ read_markers nibbles_in count sector_order track n next
    unfolding read_markers
    round n r next open_ found = rw (open_, found, read_markers) refl

    done :
        (n : ℕ) (r : Reader)
        → (r.decoded_sectors_mask == 0xffff) ≡ true
        → read_markers nibbles_in count sector_order track n r ≡ r
    unfolding read_markers
    done zero r full = refl
    done (suc n) r full = rw full refl

    -- The end of the loop.
    pub record IsComplete (r : Reader) : Type 0 where
      pub all_decoded : r.decoded_sectors_mask ≡ covered sector_order 16
      pub none_refused : r.field_refused ≡ false
      pub all_taken : AllTaken sector_order sectors_in 16 r.staging

    pub read_sectors :
        (n idx : ℕ) (gap : List ℕ) (r : Reader)
        → track < 40
        → ((i : ℕ) → i < 16 → sector_order i < 16)
        → ((j : ℕ) → j < 4096 → sectors_in j < 256)
        → ((i : ℕ) → i < 16 → (covered sector_order i == 0xffff) ≡ false)
        → (covered sector_order 16 == 0xffff) ≡ true
        → idx + n ≡ 16
        → NoPrologue gap
        → AreAt nibbles_in
            (gap ++ bytes_of (put_sectors sector_order track sectors_in n idx))
            r.current_offset
        → r.current_offset + length gap + n * 385 ≤ count
        → r.decoded_sectors_mask ≡ covered sector_order idx
        → r.field_refused ≡ false
        → AllTaken sector_order sectors_in idx r.staging
        → IsComplete (read_markers nibbles_in count sector_order track (rounds n) r)
    unfolding rounds covered
    read_sectors zero idx gap r t file bytes early full total clear at h mask refused taken =
        let last : idx ≡ 16 = omega arith in
        let closed = done 16 r (rw (mask, last) full) in
        rw closed (record {
          all_decoded = mask ∙ ap (covered sector_order) last;
          none_refused = refused;
          all_taken = subst (λ i. AllTaken sector_order sectors_in i r.staging) last taken;
        })
    read_sectors (suc n) idx gap r t file bytes early full total clear at h mask refused taken =
        let inside : idx < 16 = omega arith in
        let rest = bytes_of (put_sectors sector_order track sectors_in n (idx + 1)) in
        let there =
          subst (λ (xs : List ℕ). AreAt nibbles_in (gap ++ xs) r.current_offset)
            (bytes_of-put_sector n idx) at in
        let small = file idx inside in
        let (next, read) =
          one_sector idx gap rest r t inside small
            (λ j b. bytes (sector_order idx * 256 + j) (omega arith)) clear there (omega arith) in
        let open_ : (r.decoded_sectors_mask == 0xffff) ≡ false = rw mask (early idx inside) in
        let address = read.address_read in
        let still : (address.decoded_sectors_mask == 0xffff) ≡ false = rw read.address_mask open_ in
        let twice =
          round (suc (rounds n)) r address open_ read.first_round
          ∙ round (rounds n) address next still read.second_round in
        let up : idx + 1 ≡ suc idx = omega arith in
        rw twice (
          read_sectors n (idx + 1) (replicate 16 0xff) next t file bytes early full (omega arith)
            (gap-NoPrologue 16)
            (subst (AreAt nibbles_in (replicate 16 0xff ++ rest)) (sym read.next_offset)
              read.next_rest)
            (omega (arith, read.next_offset, length-gap 16))
            (subst (λ i. next.decoded_sectors_mask ≡ covered sector_order i) (sym up)
              (read.next_mask ∙ ap (λ m. bit_or m (1 * 2 ^ sector_order idx)) mask))
            (read.next_refused ∙ refused)
            (subst (λ i. AllTaken sector_order sectors_in i next.staging) (sym up)
              (taken_more idx r.staging next.staging taken read.next_image)))
