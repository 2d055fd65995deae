-- ===== src/Memory/Switches.antt =====
-- The soft switches of apple2/Memory.cpp: `mem_set_paging`, `mem_check_paging`, the floating bus.
--
-- `video_get_scanner_address` and `video_set_mode` of Video.cpp, and the type of the machine, are
-- parameters; `video_set_mode` is what it makes of the video's state, its answer is the floating bus.
pub mod Paged
pub mod Card
use linapple.Common.{ℕ, ◌+◌, ◌-◌, ◌*◌, ◌/◌, bit_and, bit_or, Bool, true, false, not, ◌&&◌, ◌||◌}
use linapple.Common.{ltb, leb, ◌==◌, ◌!=◌, if◌then◌else◌}
use linapple.Memory.{Memory, exp_rom_null, exp_rom_internal, has, mem}
use linapple.Memory.{cx_rom_internal, cx_rom_peripheral}
use linapple.Memory.{mf_80store, mf_altzp, mf_auxread, mf_auxwrite, mf_hram_bank2, mf_highram}
use linapple.Memory.{mf_hires, mf_page2, mf_slotc3rom, mf_slotcxrom, mf_hram_write}
use linapple.Memory.Access.{peek}
use linapple.Memory.Paging.{mem_update_paging}

-- `mem_mode |= flag` and `mem_mode &= ~flag`, in 32 bits.
pub switch_on : ℕ → ℕ → ℕ
switch_on mode flag = bit_or mode flag

pub switch_off : ℕ → ℕ → ℕ
switch_off mode flag = bit_and mode (0xffffffff - flag)

-- The language card, at the offsets $80-$8F; `last_write_ram` is set before it is tested.
pub language_card : ℕ → ℕ → ℕ
unfolding switch_on switch_off
language_card address mode =
    let cleared = switch_off mode (bit_or (bit_or mf_hram_bank2 mf_highram) mf_hram_write) in
    let writable = if bit_and address 1 != 0 then switch_on cleared mf_hram_write else cleared in
    let banked = if bit_and address 8 == 0 then switch_on writable mf_hram_bank2 else writable in
    if bit_and address 2 / 2 == bit_and address 1 then switch_on banked mf_highram else banked

-- The other switches of a //e.
pub soft_switch : ℕ → ℕ → ℕ
unfolding switch_on switch_off
soft_switch address mode =
    if address == 0x00
    then switch_off mode mf_80store
    else if address == 0x01
    then switch_on mode mf_80store
    else if address == 0x02
    then switch_off mode mf_auxread
    else if address == 0x03
    then switch_on mode mf_auxread
    else if address == 0x04
    then switch_off mode mf_auxwrite
    else if address == 0x05
    then switch_on mode mf_auxwrite
    else if address == 0x06
    then switch_on mode mf_slotcxrom
    else if address == 0x07
    then switch_off mode mf_slotcxrom
    else if address == 0x08
    then switch_off mode mf_altzp
    else if address == 0x09
    then switch_on mode mf_altzp
    else if address == 0x0a
    then switch_off mode mf_slotc3rom
    else if address == 0x0b
    then switch_on mode mf_slotc3rom
    else if address == 0x54
    then switch_off mode mf_page2
    else if address == 0x55
    then switch_on mode mf_page2
    else if address == 0x56
    then switch_off mode mf_hires
    else if address == 0x57
    then switch_on mode mf_hires
    else mode

pub new_mem_mode : Bool → ℕ → ℕ → ℕ
unfolding language_card soft_switch
new_mem_mode is_apple2 address mode =
    if leb 0x80 address && leb address 0x8f
    then language_card address mode
    else if not is_apple2
    then soft_switch address mode
    else mode

-- `read_u32_le(mem + pc)`.
pub read_u32_le : Memory → ℕ → ℕ
unfolding peek
read_u32_le m pc =
    peek m pc + peek m (pc + 1) * 256 + peek m (pc + 2) * 65536 + peek m (pc + 3) * 16777216

-- The next instruction is a store to $C002/$C003, or to $C004/$C005.
pub is_store_next : Memory → ℕ → ℕ → Bool
unfolding read_u32_le
is_store_next m pc pattern = leb pc 0xfffc && (bit_and (read_u32_le m pc) 0x00fffeff == pattern)

-- The switch is the first of two, and the tables wait for the second.
pub is_deferred : Memory → ℕ → ℕ → Bool
unfolding is_store_next
is_deferred m pc address =
    (leb 4 address && leb address 5 && is_store_next m pc 0x00c0028d)
    || (leb 0x80 address
        && leb address 0x8f
        && (is_store_next m pc 0x00c0048d || is_store_next m pc 0x00c0028d))

-- `memset` to 0 and `memcpy` of the eight pages of an expansion ROM, from a first page on.
unfoldable pub is_expansion_at : ℕ → ℕ → Bool
is_expansion_at first page = leb first page && ltb page (first + 8)

unfoldable pub clear_expansion : ℕ → (ℕ → ℕ → ℕ) → ℕ → ℕ → ℕ
unfolding is_expansion_at
clear_expansion first store page offset =
    if is_expansion_at first page then 0 else store page offset

unfoldable pub copy_expansion : ℕ → ℕ → (ℕ → ℕ → ℕ) → ℕ → ℕ → ℕ
unfolding is_expansion_at
copy_expansion first source store page offset =
    if is_expansion_at first page then store (source + (page - first)) offset else store page offset

-- The null ROM comes in with the cards' ROMs, the internal ROM with its own.
pub switch_cx_rom : Memory → Memory
unfolding clear_expansion copy_expansion
switch_cx_rom m =
    if has m.mem_mode mf_slotcxrom
    then record m {
      store = clear_expansion (mem + 0xc8) (clear_expansion (cx_rom_peripheral + 8) m.store);
      expansion_rom_type = exp_rom_null;
      peripheral_rom_slot = 0;
    }
    else record m {
      store = copy_expansion (mem + 0xc8) (cx_rom_internal + 8) m.store;
      expansion_rom_type = exp_rom_internal;
      peripheral_rom_slot = 0;
    }

-- The part of `mem_set_paging` that changes the memory: the mode, and unless the change is deferred
-- or there is none, the tables.
pub with_mode : Bool → ℕ → Memory → Memory
unfolding new_mem_mode
with_mode is_apple2 address m = record m {
  mem_mode = new_mem_mode is_apple2 address m.mem_mode;
  last_write_ram =
      if leb 0x80 address && leb address 0x8f then bit_and address 1 != 0 else m.last_write_ram;
}

pub repage : ℕ → Memory → Memory
unfolding switch_cx_rom mem_update_paging
repage last_mem_mode m =
    let n = record m { mode_changing = false } in
    let switched =
      if bit_and last_mem_mode mf_slotcxrom != bit_and n.mem_mode mf_slotcxrom
      then switch_cx_rom n
      else n in
    mem_update_paging false false switched

unfoldable pub set_paging : Bool → ℕ → ℕ → Memory → Memory
unfolding with_mode repage is_deferred
set_paging is_apple2 pc address m =
    let moded = with_mode is_apple2 address m in
    if is_deferred moded pc address
    then record moded { mode_changing = true }
    else if (m.mem_mode != moded.mem_mode) || moded.mode_changing
    then repage m.mem_mode moded
    else moded

-- `mem_read_floating_bus`, with and without a high bit of its own; the address is the scanner's.
pub mem_read_floating_bus : ℕ → Memory → ℕ
unfolding peek
mem_read_floating_bus scanner_address m = peek m scanner_address

pub with_high_bit : ℕ → Bool → ℕ
with_high_bit value high = bit_or (bit_and value 0x7f) (if high then 0x80 else 0)

module _ {V : Type 0} (is_apple2 : Bool) (video_set_mode : ℕ → V → V)
    (video_get_scanner_address : Memory → V → ℕ → ℕ) where
  unfoldable pub mem_set_paging : ℕ → ℕ → ℕ → ℕ → V × Memory → ℕ × (V × Memory)
  unfolding set_paging mem_read_floating_bus with_high_bit is_deferred
  mem_set_paging pc addr write cycles (v, m) =
      let address = bit_and addr 0xff in
      let n = set_paging is_apple2 pc address m in
      let floating = λ (w : V). mem_read_floating_bus (video_get_scanner_address n w cycles) n in
      let w = video_set_mode address v in
      if is_deferred (with_mode is_apple2 address m) pc address
      then ((if write != 0 then 0 else with_high_bit (floating v) true), (v, n))
      else if leb address 1 || (leb 0x54 address && leb address 0x57)
      then (floating w, (w, n))
      else ((if write != 0 then 0 else floating v), (v, n))

  -- The bit of a switch over the floating bus.
  unfoldable pub mem_check_paging : ℕ → ℕ → V × Memory → ℕ
  unfolding mem_read_floating_bus with_high_bit
  mem_check_paging addr cycles (v, m) =
      let address = bit_and addr 0xff in
      let mode = m.mem_mode in
      let result =
        if address == 0x11
        then has mode mf_hram_bank2
        else if address == 0x12
        then has mode mf_highram
        else if address == 0x13
        then has mode mf_auxread
        else if address == 0x14
        then has mode mf_auxwrite
        else if address == 0x15
        then not (has mode mf_slotcxrom)
        else if address == 0x16
        then has mode mf_altzp
        else if address == 0x17
        then has mode mf_slotc3rom
        else if address == 0x18
        then has mode mf_80store
        else if address == 0x1c
        then has mode mf_page2
        else if address == 0x1d
        then has mode mf_hires
        else false in
      with_high_bit (mem_read_floating_bus (video_get_scanner_address m v cycles) m) result
