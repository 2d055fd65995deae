-- ===== src/Memory/Banks/Tables.antt =====
-- The tables that `mem_update_paging` builds, against the banks of the mode.
use linapple.Common.{
  ltb, if◌then◌else◌, ℕ, ◌+◌, ◌-◌, ◌%◌, ◌≤◌, ◌<◌, ◌≡◌, bit_and, arith, bit_and_mask, true, false,
}
use linapple.Memory.{cx_rom_internal}
use linapple.Memory.Paging.{
  fill, when, display, shadow_80store, shadow_zero, shadow_ram, shadow_cx, shadow_expansion,
  shadow_high, lc_ram, shadow_table, shadow_upto_02, shadow_upto_c0, shadow_upto_c8, shadow_upto_d0,
  shadow_upto_e0, shadow_upto_100,
}
use linapple.Memory.Banks.{slot_rom, high_bank, read_bank, card_page, is_displayed}

low_nibble : (page : ℕ) → bit_and page 0x0f ≡ page % 0x10
low_nibble page = bit_and_mask 4 page

pub is_displayed-range :
    (mode page : ℕ) → is_displayed mode page ≡ true → (4 ≤ page) × (page < 0x40)
unfolding is_displayed
is_displayed-range mode page h = ground arith

below_c0 :
    (mode page : ℕ) (table : ℕ → ℕ)
    → page < 0x02
    → shadow_upto_c0 false mode table page ≡ shadow_upto_02 false mode table page
unfolding shadow_upto_c0 when fill
below_c0 mode page table h = ground arith

below_c8 :
    (mode page : ℕ) (table : ℕ → ℕ)
    → page < 0xc0
    → shadow_upto_c8 false mode table page ≡ shadow_upto_c0 false mode table page
unfolding shadow_upto_c8 when fill
below_c8 mode page table h = ground arith

below_d0 :
    (mode page : ℕ) (table : ℕ → ℕ)
    → page < 0xc8
    → shadow_upto_d0 false mode table page ≡ shadow_upto_c8 false mode table page
unfolding shadow_upto_d0 when fill
below_d0 mode page table h = ground arith

below_e0 :
    (mode page : ℕ) (table : ℕ → ℕ)
    → page < 0xd0
    → shadow_upto_e0 false mode table page ≡ shadow_upto_d0 false mode table page
unfolding shadow_upto_e0 when fill
below_e0 mode page table h = ground arith

below_100 :
    (mode page : ℕ) (table : ℕ → ℕ)
    → page < 0xe0
    → shadow_upto_100 false mode table page ≡ shadow_upto_e0 false mode table page
unfolding shadow_upto_100 when fill
below_100 mode page table h = ground arith

within_02 :
    (mode page : ℕ) (table : ℕ → ℕ)
    → page < 2
    → shadow_upto_02 false mode table page ≡ shadow_zero mode page
unfolding shadow_upto_02 when fill
within_02 mode page table h = ground arith

within_c0 :
    (mode page : ℕ) (table : ℕ → ℕ)
    → 0x02 ≤ page
    → page < 0xc0
    → shadow_upto_c0 false mode table page ≡ shadow_ram mode page
unfolding shadow_upto_c0 when fill
within_c0 mode page table h g = ground arith

within_c8 :
    (mode page : ℕ) (table : ℕ → ℕ)
    → 0xc0 ≤ page
    → page < 0xc8
    → shadow_upto_c8 false mode table page ≡ shadow_cx mode page
unfolding shadow_upto_c8 when fill
within_c8 mode page table h g = ground arith

within_d0 :
    (mode page : ℕ) (table : ℕ → ℕ)
    → 0xc8 ≤ page
    → page < 0xd0
    → shadow_upto_d0 false mode table page ≡ shadow_expansion page
unfolding shadow_upto_d0 when fill
within_d0 mode page table h g = ground arith

within_e0 :
    (mode page : ℕ) (table : ℕ → ℕ)
    → 0xd0 ≤ page
    → page < 0xe0
    → shadow_upto_e0 false mode table page ≡ shadow_high mode page
unfolding shadow_upto_e0 when fill
within_e0 mode page table h g = ground arith

within_100 :
    (mode page : ℕ) (table : ℕ → ℕ)
    → 0xe0 ≤ page
    → page < 0x100
    → shadow_upto_100 false mode table page ≡ shadow_high mode page
unfolding shadow_upto_100 when fill
within_100 mode page table h g = ground arith

-- What the loops up to the last page leave at each page.
shadow_upto : ℕ → ℕ → ℕ
shadow_upto mode page =
    if ltb page 0x02
    then shadow_zero mode page
    else if ltb page 0xc0
    then shadow_ram mode page
    else if ltb page 0xc8
    then shadow_cx mode page
    else if ltb page 0xd0
    then shadow_expansion page
    else shadow_high mode page

upto_100-shadow_upto :
    (mode page : ℕ) (table : ℕ → ℕ)
    → page < 0x100
    → shadow_upto_100 false mode table page ≡ shadow_upto mode page
unfolding shadow_upto
upto_100-shadow_upto mode page table h = ground (
  arith,
  below_c0 mode page table,
  below_c8 mode page table,
  below_d0 mode page table,
  below_e0 mode page table,
  below_100 mode page table,
  within_02 mode page table,
  within_c0 mode page table,
  within_c8 mode page table,
  within_d0 mode page table,
  within_e0 mode page table,
  within_100 mode page table,
)

shadow_cx-slot_rom :
    (mode page : ℕ) → 0xc0 ≤ page → page < 0xc8 → shadow_cx mode page ≡ slot_rom mode page
unfolding shadow_cx slot_rom
shadow_cx-slot_rom mode page h g = ground (arith, low_nibble page)

shadow_expansion_lem :
    (page : ℕ) → 0xc0 ≤ page → page < 0xd0 → shadow_expansion page ≡ cx_rom_internal + (page - 0xc0)
unfolding shadow_expansion
shadow_expansion_lem page h g = ground (arith, low_nibble page)

pub lc_ram-card_page : (mode page : ℕ) → 0xd0 ≤ page → lc_ram mode page ≡ card_page mode page
unfolding lc_ram card_page
lc_ram-card_page mode page h = ground arith

shadow_high-high_bank : (mode page : ℕ) → 0xd0 ≤ page → shadow_high mode page ≡ high_bank mode page
unfolding shadow_high high_bank
shadow_high-high_bank mode page h = ground (arith, lc_ram-card_page mode page)

pub display_as :
    (mode page : ℕ) (value table : ℕ → ℕ)
    → display mode value table page ≡ (if is_displayed mode page then value page else table page)
unfolding display when fill is_displayed
display_as mode page value table = ground arith

read_bank-shadow_upto :
    (mode page : ℕ)
    → page < 0x100
    → (if is_displayed mode page then shadow_80store mode page else shadow_upto mode page)
      ≡ read_bank mode page
unfolding shadow_upto shadow_80store read_bank shadow_zero shadow_ram
read_bank-shadow_upto mode page h = ground (
  arith,
  is_displayed-range mode page,
  shadow_cx-slot_rom mode page,
  shadow_expansion_lem page,
  shadow_high-high_bank mode page,
)

pub shadow_table-read_bank :
    (mode page : ℕ) (table : ℕ → ℕ)
    → page < 0x100
    → shadow_table false mode table page ≡ read_bank mode page
unfolding shadow_table
shadow_table-read_bank mode page table h = ground (
  arith,
  display_as mode page (shadow_80store mode) (shadow_upto_100 false mode table),
  upto_100-shadow_upto mode page table,
  read_bank-shadow_upto mode page,
)
