-- ===== src/Memory/Banks/Writes.antt =====
-- The table `memwrite` that `mem_update_paging` builds, and where each bank is seen.
use linapple.Common.{
  ℕ, ◌+◌, ◌-◌, ◌≤◌, ◌<◌, ◌≡◌, ◌≢◌, arith, Bool, true, false, ltb, if◌then◌else◌, refl, ◌==◌, leb,
  ◌&&◌,
}
use linapple.Memory.{
  mem, memrom, cx_rom_internal, cx_rom_peripheral, nullptr, has, mf_auxread, mf_auxwrite,
}
use linapple.Memory.Paging.{fill, when, through, aux_if, agree, write_ram, write_high, write_table}
use linapple.Memory.Paging.{
  write_through, write_initial, write_upto_c0, write_upto_e0, write_upto_100,
}
use linapple.Memory.Banks.{
  read_bank, write_bank, write_path, home, card_page, slot_rom, high_bank, is_displayed,
}
use linapple.Memory.Banks.Tables.{is_displayed-range, lc_ram-card_page, display_as}

-- What the loops leave, up to those of 80STORE.
write_upto : ℕ → ℕ → ℕ
write_upto mode page =
    if ltb page 0x02
    then mem + page
    else if ltb page 0xc0
    then write_ram mode page
    else if ltb page 0xd0
    then nullptr
    else write_high mode page

-- The entries that only an initialization sets.
pub record IsFixed (table : ℕ → ℕ) : Type 0 where
  pub stack : (page : ℕ) → page < 2 → table page ≡ mem + page
  pub slots : (page : ℕ) → 0xc0 ≤ page → page < 0xd0 → table page ≡ nullptr

-- They are there after an initialization, and without one if they were there.
write_initial-IsFixed :
    (initialize : Bool) (mode : ℕ) (table : ℕ → ℕ)
    → (initialize ≡ false → IsFixed table)
    → IsFixed (write_initial initialize mode table)
unfolding write_initial write_through when fill through
write_initial-IsFixed true mode table kept = record {
  stack = λ page h. ground arith;
  slots = λ page h g. ground arith;
}
write_initial-IsFixed false mode table kept = kept refl

loop_c0 :
    (initialize : Bool) (mode page : ℕ) (table : ℕ → ℕ)
    → write_upto_c0 initialize mode table page ≡ (
        if leb 0x02 page && ltb page 0xc0
        then write_ram mode page
        else write_initial initialize mode table page)
unfolding write_upto_c0 fill
loop_c0 initialize mode page table = refl

loop_e0 :
    (initialize : Bool) (mode page : ℕ) (table : ℕ → ℕ)
    → write_upto_e0 initialize mode table page ≡ (
        if leb 0xd0 page && ltb page 0xe0
        then write_high mode page
        else write_upto_c0 initialize mode table page)
unfolding write_upto_e0 fill
loop_e0 initialize mode page table = refl

loop_100 :
    (initialize : Bool) (mode page : ℕ) (table : ℕ → ℕ)
    → write_upto_100 initialize mode table page ≡ (
        if leb 0xe0 page && ltb page 0x100
        then write_high mode page
        else write_upto_e0 initialize mode table page)
unfolding write_upto_100 fill
loop_100 initialize mode page table = refl

upto_100-write_upto :
    (initialize : Bool) (mode page : ℕ) (table : ℕ → ℕ)
    → page < 0x100
    → IsFixed (write_initial initialize mode table)
    → write_upto_100 initialize mode table page ≡ write_upto mode page
unfolding write_upto
upto_100-write_upto initialize mode page table h fixed =
    let low = fixed.stack page in
    let io = fixed.slots page in
    ground (
      arith,
      loop_c0 initialize mode page table,
      loop_e0 initialize mode page table,
      loop_100 initialize mode page table,
    )

card_page-range :
    (mode page : ℕ)
    → 0xd0 ≤ page
    → page < 0x100
    → (0x1c0 ≤ card_page mode page) × (card_page mode page < 0x300)
unfolding card_page aux_if
card_page-range mode page h g = ground arith

write_ram-banks :
    (mode page : ℕ)
    → write_ram mode page ≡ (
        if (aux_if (has mode mf_auxwrite) + page) == (aux_if (has mode mf_auxread) + page)
        then mem + page
        else aux_if (has mode mf_auxwrite) + page)
unfolding write_ram agree aux_if
write_ram-banks mode page = ground arith

write_high-banks :
    (mode page : ℕ) → 0xd0 ≤ page → page < 0x100 → write_high mode page ≡ write_path mode page
unfolding write_high write_path write_bank read_bank high_bank
write_high-banks mode page h g =
    ground
      (arith, lc_ram-card_page mode page, card_page-range mode page, is_displayed-range mode page)

write_path-write_upto :
    (mode page : ℕ)
    → page < 0x100
    → (if is_displayed mode page then through page else write_upto mode page) ≡ write_path mode page
unfolding write_upto write_path write_bank read_bank slot_rom through
write_path-write_upto mode page h =
    ground
      (arith, is_displayed-range mode page, write_ram-banks mode page, write_high-banks mode page)

pub write_table-write_path :
    (initialize : Bool) (mode page : ℕ) (table : ℕ → ℕ)
    → page < 0x100
    → (initialize ≡ false → IsFixed table)
    → write_table initialize mode table page ≡ write_path mode page
unfolding write_table
write_table-write_path initialize mode page table h kept =
    let fixed = write_initial-IsFixed initialize mode table kept in
    ground (
      arith,
      display_as mode page through (write_upto_100 initialize mode table),
      upto_100-write_upto initialize mode page table h fixed,
      write_path-write_upto mode page h,
    )

home-aux_if : (auxiliary : Bool) (page : ℕ) → page < 0xc0 → home (aux_if auxiliary + page) ≡ page
unfolding home aux_if
home-aux_if auxiliary page h = ground arith

home-card_page : (mode page : ℕ) → 0xd0 ≤ page → page < 0x100 → home (card_page mode page) ≡ page
unfolding card_page home aux_if
home-card_page mode page h g = ground arith

home-rom : (page : ℕ) → 0xd0 ≤ page → page < 0x100 → home (memrom + (page - 0xd0)) ≡ page
unfolding home
home-rom page h g = ground arith

home-cx :
    (page : ℕ)
    → 0xc0 ≤ page
    → page < 0xd0
    → (home (cx_rom_internal + (page - 0xc0)) ≡ page)
      × (home (cx_rom_peripheral + (page - 0xc0)) ≡ page)
unfolding home
home-cx page h g = ground arith

home-slot_rom : (mode page : ℕ) → 0xc0 ≤ page → page < 0xd0 → home (slot_rom mode page) ≡ page
unfolding slot_rom
home-slot_rom mode page h g = grind (arith, home-cx page h g)

home-high_bank : (mode page : ℕ) → 0xd0 ≤ page → page < 0x100 → home (high_bank mode page) ≡ page
unfolding high_bank
home-high_bank mode page h g = grind (arith, home-card_page mode page, home-rom page)

-- A bank is seen at its home and nowhere else.
pub home-read_bank : (mode page : ℕ) → page < 0x100 → home (read_bank mode page) ≡ page
unfolding read_bank
home-read_bank mode page h = grind (
  arith,
  is_displayed-range mode page,
  home-aux_if,
  home-slot_rom mode page,
  home-cx page,
  home-high_bank mode page,
)

pub home-write_bank :
    (mode page : ℕ)
    → page < 0x100
    → write_bank mode page ≢ nullptr
    → home (write_bank mode page) ≡ page
unfolding write_bank
home-write_bank mode page h some =
    grind (arith, is_displayed-range mode page, home-aux_if, home-card_page)

pub read_bank-range :
    (mode page : ℕ) → page < 0x100 → (0x100 ≤ read_bank mode page) × (read_bank mode page < 0x600)
unfolding read_bank high_bank slot_rom aux_if
read_bank-range mode page h =
    ground (arith, card_page-range mode page, is_displayed-range mode page)

write_path-stack : (mode page : ℕ) → page < 2 → write_path mode page ≡ mem + page
unfolding write_path write_bank read_bank
write_path-stack mode page h = ground arith

write_path-slots : (mode page : ℕ) → 0xc0 ≤ page → page < 0xd0 → write_path mode page ≡ nullptr
unfolding write_path write_bank
write_path-slots mode page h g =
    ground (arith, read_bank-range mode page, is_displayed-range mode page)

pub write_path-IsFixed : (mode : ℕ) → IsFixed (write_path mode)
write_path-IsFixed mode = record { stack = write_path-stack mode; slots = write_path-slots mode }

pub write_bank-range : (mode page : ℕ) → page < 0x100 → write_bank mode page < 0x600
unfolding write_bank aux_if
write_bank-range mode page h =
    ground (arith, card_page-range mode page, is_displayed-range mode page)
