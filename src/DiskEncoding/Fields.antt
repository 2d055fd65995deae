-- ===== src/DiskEncoding/Fields.antt =====
-- The 342 bytes that stand for a sector, and what of them comes through the 6-and-2 code.
use linapple.Common.{
  ℕ, zero, suc, ◌+◌, ◌%◌, ◌<◌, ◌≤◌, ◌≡◌, ◌⊎◌, inl, inr, refl, arith, ap, ◌∙◌, bit_and, bit_and_mask,
  List, [], ◌∷◌, ◌++◌, map, length, get_or, set, length-append, length-set, get_or-set_self,
  get_or-set_ne,
}
use linapple.DiskEncoding.{encode_low, copy_n, mask_at, sector_fields}
use linapple.DiskEncoding.Nibbles.{upper, AllBytes}
use linapple.DiskEncoding.LowBits.{
  low_of, low_at, get_or-encode_low, length-encode_low, get_or-copy_n, length-copy_n,
}

get_or-append_left :
    (xs ys : List ℕ) (i : ℕ) → i < length xs → get_or (xs ++ ys) i 0 ≡ get_or xs i 0
get_or-append_left [] ys i h = absurd (omega arith)
get_or-append_left (x ∷ xs) ys zero h = refl
get_or-append_left (x ∷ xs) ys (suc i) h = get_or-append_left xs ys i (omega arith)

get_or-append_right :
    (xs ys : List ℕ) (i j : ℕ) → i ≡ length xs + j → get_or (xs ++ ys) i 0 ≡ get_or ys j 0
get_or-append_right [] ys i j h = ap (λ (k : ℕ). get_or ys k 0) (omega arith)
get_or-append_right (x ∷ xs) ys zero j h = absurd (omega arith)
get_or-append_right (x ∷ xs) ys (suc i) j h = get_or-append_right xs ys i j (omega arith)

get_or-map-upper : (xs : List ℕ) (i : ℕ) → get_or (map upper xs) i 0 ≡ upper (get_or xs i 0)
get_or-map-upper [] i = refl
get_or-map-upper (x ∷ xs) zero = refl
get_or-map-upper (x ∷ xs) (suc i) = get_or-map-upper xs i

AllBytes-append : (xs ys : List ℕ) → AllBytes xs → AllBytes ys → AllBytes (xs ++ ys)
AllBytes-append [] ys h g = g
AllBytes-append (x ∷ xs) ys h g = (h.0, AllBytes-append xs ys h.1 g)

AllBytes-set : (xs : List ℕ) (i v : ℕ) → v < 256 → AllBytes xs → AllBytes (set xs i v)
AllBytes-set [] i v h g = g
AllBytes-set (x ∷ xs) zero v h g = (h, g.1)
AllBytes-set (x ∷ xs) (suc i) v h g = (g.0, AllBytes-set xs i v h g.1)

AllBytes-encode_low : (base : ℕ → ℕ) (n o : ℕ) → AllBytes (encode_low base n o)
unfolding encode_low
AllBytes-encode_low base zero o = tt
AllBytes-encode_low base (suc n) o = (omega arith, AllBytes-encode_low base n _)

AllBytes-copy_n :
    (base : ℕ → ℕ) (n o : ℕ) → ((j : ℕ) → j < o + n → base j < 256) → AllBytes (copy_n base n o)
unfolding copy_n
AllBytes-copy_n base zero o h = tt
AllBytes-copy_n base (suc n) o h =
    (h o (omega arith), AllBytes-copy_n base n (o + 1) (λ j k. h j (omega arith)))

six_bits : (x : ℕ) → bit_and x 0x3f ≡ x % 64
six_bits x = bit_and_mask 6 x

masked : (x : ℕ) → bit_and x 0x3f < 256
masked x = omega (arith, six_bits x)

-- What stands in a list after two writes.
get_or-masks :
    (xs : List ℕ) (i : ℕ) → i < 84 → get_or (mask_at (mask_at xs 84) 85) i 0 ≡ get_or xs i 0
get_or-masks xs i h =
    get_or-set_ne (mask_at xs 84) 85 i _ 0 (omega arith) ∙ get_or-set_ne xs 84 i _ 0 (omega arith)

get_or-masks_84 :
    (xs : List ℕ) → 84 < length xs → get_or (mask_at (mask_at xs 84) 85) 84 0 ≡ get_or xs 84 0 % 64
get_or-masks_84 xs h =
    get_or-set_ne (mask_at xs 84) 85 84 _ 0 (omega arith) ∙ get_or-set_self xs 84 _ 0 h ∙ six_bits _

get_or-masks_85 :
    (xs : List ℕ) → 85 < length xs → get_or (mask_at (mask_at xs 84) 85) 85 0 ≡ get_or xs 85 0 % 64
get_or-masks_85 xs h =
    get_or-set_self (mask_at xs 84) 85 _ 0
      (omega (arith, length-set xs 84 (bit_and (get_or xs 84 0) 0x3f)))
    ∙ six_bits _
    ∙ ap (λ (t : ℕ). t % 64) (get_or-set_ne xs 84 85 _ 0 (omega arith))

module _ (base : ℕ → ℕ) where
  lows : List ℕ
  lows = encode_low base 86 0xac

  fields_parts : sector_fields base ≡ mask_at (mask_at lows 84) 85 ++ copy_n base 256 0
  unfolding sector_fields lows
  fields_parts = refl

  length-lows : length (mask_at (mask_at lows 84) 85) ≡ 86
  unfolding lows
  length-lows =
      length-set (mask_at lows 84) 85 _ ∙ length-set lows 84 _ ∙ length-encode_low base 86 0xac

  pub length-sector_fields : length (sector_fields base) ≡ 342
  length-sector_fields =
      ap length fields_parts
      ∙ length-append (mask_at (mask_at lows 84) 85) (copy_n base 256 0)
      ∙ omega (arith, length-lows, length-copy_n base 256 0)

  pub sector_fields-AllBytes : ((j : ℕ) → j < 256 → base j < 256) → AllBytes (sector_fields base)
  unfolding sector_fields
  sector_fields-AllBytes h =
      let low = AllBytes-encode_low base 86 0xac in
      let first =
        AllBytes-set lows 84 (bit_and (get_or lows 84 0) 0x3f) (masked (get_or lows 84 0))
          (unfold lows in low) in
      AllBytes-append (mask_at (mask_at (encode_low base 86 0xac) 84) 85) (copy_n base 256 0)
        (AllBytes-set (mask_at (encode_low base 86 0xac) 84) 85 _ (masked _) (unfold lows in first))
        (AllBytes-copy_n base 256 0 h)

  pub upper_field :
      (j : ℕ) → j < 256 → get_or (map upper (sector_fields base)) (0x56 + j) 0 ≡ upper (base j)
  upper_field j h =
      get_or-map-upper (sector_fields base) (0x56 + j)
      ∙ ap (λ (xs : List ℕ). upper (get_or xs (0x56 + j) 0)) fields_parts
      ∙ ap upper (
          get_or-append_right (mask_at (mask_at lows 84) 85) (copy_n base 256 0) (0x56 + j) j
            (omega (arith, length-lows))
          ∙ get_or-copy_n base 256 0 j h
          ∙ ap base (omega arith))

  low_entry : (i : ℕ) → i < 86 → get_or lows i 0 ≡ low_at base ((172 + i) % 256)
  unfolding lows
  low_entry i h = get_or-encode_low base 86 0xac i (omega arith) h

  at_low :
      (i : ℕ)
      → i < 86
      → get_or (map upper (sector_fields base)) i 0
        ≡ upper (get_or (mask_at (mask_at lows 84) 85) i 0)
  at_low i h =
      get_or-map-upper (sector_fields base) i
      ∙ ap (λ (xs : List ℕ). upper (get_or xs i 0)) fields_parts
      ∙ ap upper (
          get_or-append_left (mask_at (mask_at lows 84) 85) (copy_n base 256 0) i
            (omega (arith, length-lows)))

  ap_three :
      {i j k i' j' k' : ℕ}
      → i ≡ i'
      → j ≡ j'
      → k ≡ k'
      → low_of (base i) (base j) (base k) ≡ low_of (base i') (base j') (base k')
  ap_three p q r = λ t. low_of (base (p t)) (base (q t)) (base (r t))

  last_two : (i : ℕ) → i < 86 → 84 ≤ i → (i ≡ 84) ⊎ (i ≡ 85)
  last_two i h k = grind arith

  lows_long : 84 < length lows
  unfolding lows
  lows_long = omega (arith, length-encode_low base 86 0xac)

  lows_longer : 85 < length lows
  unfolding lows
  lows_longer = omega (arith, length-encode_low base 86 0xac)

  -- The first 84 bytes of low bits hold those of three bytes.
  pub low_field :
      (i : ℕ)
      → i < 84
      → get_or (map upper (sector_fields base)) i 0
        ≡ low_of (base (172 + i)) (base (86 + i)) (base i)
  low_field i h =
      let entry : get_or lows i 0 ≡ low_of (base (172 + i)) (base (86 + i)) (base i) =
        low_entry i (omega arith) ∙ ap_three (omega arith) (omega arith) (omega arith) in
      at_low i (omega arith) ∙ omega (arith, get_or-masks lows i h, entry)

  -- The last two hold those of two bytes.
  pub low_field_last :
      (i : ℕ)
      → i < 86
      → 84 ≤ i
      → get_or (map upper (sector_fields base)) i 0 ≡ low_of 0 (base (86 + i)) (base i)
  low_field_last i h k =
      let entry : get_or lows i 0 ≡ low_of (base ((172 + i) % 256)) (base (86 + i)) (base i) =
        low_entry i h ∙ ap_three refl (omega arith) (omega arith) in
      at_low i h ∙ elim (last_two i h k) [
        | inl e ↦ omega (
          arith,
          ap (λ (t : ℕ). get_or (mask_at (mask_at lows 84) 85) t 0) e,
          ap (λ (t : ℕ). get_or lows t 0) e,
          get_or-masks_84 lows lows_long,
          entry,
        )
        | inr e ↦ omega (
          arith,
          ap (λ (t : ℕ). get_or (mask_at (mask_at lows 84) 85) t 0) e,
          ap (λ (t : ℕ). get_or lows t 0) e,
          get_or-masks_85 lows lows_longer,
          entry,
        )
      ]
