-- ===== src/Memory.antt =====
-- The state of apple2/Memory.cpp: `MemoryInstance`, its buffers and its page tables.
--
-- A buffer is a block of pages of 256 bytes, and a pointer to the start of one of its pages is the
-- number of that page in `store`; each buffer has page numbers of its own, and no page has number 0, the
-- null pointer. `mem_initialize` allocates every buffer, so that the tests of a base pointer for null are
-- always passed.
mod Paging
mod Banks
mod Access
mod Switches
mod Expansion
mod Reset
mod Tests
use linapple.Common.{ℕ, bit_and, Bool, ◌!=◌, ◌==◌, if◌then◌else◌}

abbrev pub mf_80store : ℕ
mf_80store = 0x1

abbrev pub mf_altzp : ℕ
mf_altzp = 0x2

abbrev pub mf_auxread : ℕ
mf_auxread = 0x4

abbrev pub mf_auxwrite : ℕ
mf_auxwrite = 0x8

abbrev pub mf_hram_bank2 : ℕ
mf_hram_bank2 = 0x10

abbrev pub mf_highram : ℕ
mf_highram = 0x20

abbrev pub mf_hires : ℕ
mf_hires = 0x40

abbrev pub mf_page2 : ℕ
mf_page2 = 0x80

abbrev pub mf_slotc3rom : ℕ
mf_slotc3rom = 0x100

abbrev pub mf_slotcxrom : ℕ
mf_slotcxrom = 0x200

abbrev pub mf_hram_write : ℕ
mf_hram_write = 0x400

-- The first pages of the buffers; `mem` is the image that the processor reads, `memimage`.
abbrev pub nullptr : ℕ
nullptr = 0

abbrev pub memmain : ℕ
memmain = 0x100

abbrev pub memaux : ℕ
memaux = 0x200

abbrev pub memrom : ℕ
memrom = 0x300

abbrev pub cx_rom_internal : ℕ
cx_rom_internal = 0x400

abbrev pub cx_rom_peripheral : ℕ
cx_rom_peripheral = 0x500

abbrev pub mem : ℕ
mem = 0x600

pub data ExpansionRomType : Type 0 where
  exp_rom_null exp_rom_internal exp_rom_peripheral : ExpansionRomType

-- `store` has the bytes of every buffer by page and offset.
pub record Memory : Type 0 where
  pub store : ℕ → ℕ → ℕ
  pub memshadow : ℕ → ℕ
  pub memwrite : ℕ → ℕ
  pub memdirty : ℕ → ℕ
  pub mem_mode : ℕ
  pub last_write_ram : Bool
  pub mode_changing : Bool
  pub expansion_rom_type : ExpansionRomType
  pub peripheral_rom_slot : ℕ
  pub expansion_rom : ℕ → ℕ
  pub io_select : ℕ
  pub io_select_internal_rom : ℕ

-- `(mem_mode & flag) != 0`, the body of the eleven functions `sw_80store` to `sw_hram_write`.
pub has : ℕ → ℕ → Bool
has mode flag = bit_and mode flag != 0

-- `memcpy(destination, source, PAGE_SIZE)` of a page.
pub copy_page : (ℕ → ℕ → ℕ) → ℕ → ℕ → ℕ → ℕ → ℕ
copy_page store destination source page offset =
    if page == destination then store source offset else store page offset

-- `table[page] = value`.
pub assign : (ℕ → ℕ) → ℕ → ℕ → ℕ → ℕ
assign table page value p = if p == page then value else table p
