-- ===== src/Memory/Banks.antt =====
-- The banks of a //e that the page tables of Memory.cpp stand for, and what they hold.
pub mod Tables
pub mod Writes
pub mod Sync
pub mod Contents
pub mod Pointers
pub mod Undisturbed
use linapple.Common.{ℕ, ◌+◌, ◌-◌, ◌%◌, ◌≤◌, ◌<◌, ◌≡◌, bit_and}
use linapple.Common.{Bool, false, not, ◌&&◌, ◌||◌, ltb, leb, ◌==◌, if◌then◌else◌}
use linapple.Memory.{Memory, has, nullptr, memrom, mem}
use linapple.Memory.Paging.{aux_if}
use linapple.Memory.{cx_rom_internal, cx_rom_peripheral}
use linapple.Memory.{mf_80store, mf_altzp, mf_auxread, mf_auxwrite, mf_hram_bank2, mf_highram}
use linapple.Memory.{mf_hires, mf_page2, mf_slotc3rom, mf_slotcxrom, mf_hram_write}

-- The pages that 80STORE gives to PAGE2: text, and with HIRES the first graphics page.
pub is_displayed : ℕ → ℕ → Bool
is_displayed mode page =
    has mode mf_80store
    && ((leb 0x04 page && ltb page 0x08) || (has mode mf_hires && (leb 0x20 page && ltb page 0x40)))

-- The language card: its first 4K bank lies under $C000 of the same 64K.
pub card_page : ℕ → ℕ → ℕ
card_page mode page =
    if ltb page 0xe0 && not (has mode mf_hram_bank2)
    then aux_if (has mode mf_altzp) + (page - 0x10)
    else aux_if (has mode mf_altzp) + page

-- $C100-$C7FF: the cards' own ROMs, but for slot 3 only with SLOTC3ROM.
pub slot_rom : ℕ → ℕ → ℕ
slot_rom mode page =
    if has mode mf_slotcxrom && (has mode mf_slotc3rom || not (page == 0xc3))
    then cx_rom_peripheral + (page - 0xc0)
    else cx_rom_internal + (page - 0xc0)

pub high_bank : ℕ → ℕ → ℕ
unfolding card_page
high_bank mode page = if has mode mf_highram then card_page mode page else memrom + (page - 0xd0)

-- What the processor reads at a page.
unfoldable pub read_bank : ℕ → ℕ → ℕ
unfolding is_displayed slot_rom high_bank
read_bank mode page =
    if ltb page 0x02
    then aux_if (has mode mf_altzp) + page
    else if is_displayed mode page
    then aux_if (has mode mf_page2) + page
    else if ltb page 0xc0
    then aux_if (has mode mf_auxread) + page
    else if ltb page 0xc8
    then slot_rom mode page
    else if ltb page 0xd0
    then cx_rom_internal + (page - 0xc0)
    else high_bank mode page

-- Where it writes; none of I/O space or of ROM.
unfoldable pub write_bank : ℕ → ℕ → ℕ
unfolding is_displayed card_page
write_bank mode page =
    if ltb page 0x02
    then aux_if (has mode mf_altzp) + page
    else if is_displayed mode page
    then aux_if (has mode mf_page2) + page
    else if ltb page 0xc0
    then aux_if (has mode mf_auxwrite) + page
    else if ltb page 0xd0
    then nullptr
    else if has mode mf_hram_write
    then card_page mode page
    else nullptr

-- The one page of the address space at which a page of a bank can be seen.
unfoldable pub home : ℕ → ℕ
home bank =
    if ltb bank 0x300
    then (if leb 0xc0 (bank % 0x100) && ltb (bank % 0x100) 0xd0
        then bank % 0x100 + 0x10
        else bank % 0x100)
    else if ltb bank 0x400
    then bank - 0x300 + 0xd0
    else if ltb bank 0x600
    then bank % 0x100 + 0xc0
    else bank - 0x600

-- A byte of a bank: in the image while the bank is seen, else in its buffer.
unfoldable pub contents : Memory → ℕ → ℕ → ℕ
contents m bank offset =
    if m.memshadow (home bank) == bank
    then m.store (mem + home bank) offset
    else m.store bank offset

-- The pointer through which the processor writes: into the image, if that is where the bank is seen.
unfoldable pub write_path : ℕ → ℕ → ℕ
write_path mode page =
    if write_bank mode page == read_bank mode page then mem + page else write_bank mode page

-- The page tables are those of a mode.
pub record IsMapped (mode : ℕ) (m : Memory) : Type 0 where
  pub reads : (page : ℕ) → page < 0x100 → m.memshadow page ≡ read_bank mode page
  pub writes : (page : ℕ) → page < 0x100 → m.memwrite page ≡ write_path mode page

-- $C800-$CFFF of the image belongs to the expansion ROMs.
abbrev pub IsBanked : ℕ → Type 0
IsBanked page = (page < 0x100) × (leb 0xc8 page && ltb page 0xd0 ≡ false)

-- An image page above the stack that is not marked has the bytes of its shadow.
pub record IsCoherent (m : Memory) : Type 0 where
  pub agrees :
      (page offset : ℕ)
      → 2 ≤ page
      → IsBanked page
      → bit_and (m.memdirty page) 1 ≡ 0
      → m.store (mem + page) offset ≡ m.store (m.memshadow page) offset

-- The state between two instructions: tables of a mode, and an image that agrees with them.
pub record IsSound (mode : ℕ) (m : Memory) : Type 0 where
  pub mapped : IsMapped mode m
  pub coherent : IsCoherent m

-- What holds between two accesses: the tables are those of a mode, which is the current one unless a
-- change was put off.
pub record IsPaged (m : Memory) : Type 0 where
  pub mode : ℕ
  pub sound : IsSound mode m
  pub settled : m.mode_changing ≡ false → mode ≡ m.mem_mode
