-- ===== src/Memory/Expansion.antt =====
-- `io_read_cxxx` of apple2/Memory.cpp: the expansion ROMs at $C800-$CFFF.
--
-- The ROMs that cards register are pages of the store too; 0 stands for none.
pub mod Beside
use linapple.Common.{
  ℕ, zero, suc, ◌+◌, ◌/◌, ◌^◌, bit_and, bit_or, Bool, true, false, not, ◌&&◌, ◌||◌,
}
use linapple.Common.{ltb, leb, ◌==◌, ◌!=◌, if◌then◌else◌}
use linapple.Memory.{
  Memory, ExpansionRomType, exp_rom_null, exp_rom_internal, exp_rom_peripheral, has, mem,
}
use linapple.Memory.{cx_rom_internal, cx_rom_peripheral, mf_slotc3rom, mf_slotcxrom}
use linapple.Memory.Access.{peek}
use linapple.Memory.Switches.{clear_expansion, copy_expansion}

abbrev pub num_slots : ℕ
num_slots = 8

pub is_null : ExpansionRomType → Bool
is_null exp_rom_null = true
is_null exp_rom_internal = false
is_null exp_rom_peripheral = false

pub is_internal : ExpansionRomType → Bool
is_internal exp_rom_null = false
is_internal exp_rom_internal = true
is_internal exp_rom_peripheral = false

-- An access to $CFFF takes the expansion ROM out.
pub disable_expansion : Memory → Memory
unfolding clear_expansion
disable_expansion m =
    let off = record m { io_select = 0; io_select_internal_rom = 0; peripheral_rom_slot = 0 } in
    if has m.mem_mode mf_slotcxrom
    then record off {
      store = clear_expansion (mem + 0xc8) (clear_expansion (cx_rom_peripheral + 8) m.store);
      expansion_rom_type = exp_rom_null;
    }
    else off

-- An access to the page of a slot, I/O SELECT.
pub select_slot : ℕ → Memory → Memory
select_slot slot m =
    let selected = record m { io_select = bit_or m.io_select (2 ^ slot) } in
    if (slot != 3) && (m.expansion_rom slot != 0)
    then selected
    else if has m.mem_mode mf_slotc3rom && (m.expansion_rom slot != 0)
    then selected
    else if not (has m.mem_mode mf_slotc3rom)
    then record m { io_select_internal_rom = 1 }
    else m

-- The lowest selected slot from `slot` on, of `count` that are left.
pub first_selected : ℕ → ℕ → ℕ → ℕ
first_selected io_select zero slot = slot
first_selected io_select (suc count) slot =
    let later = first_selected io_select count (slot + 1) in
    if bit_and io_select (2 ^ slot) != 0 then slot else later

pub enable_peripheral : Memory → Memory
unfolding first_selected copy_expansion
enable_peripheral m =
    let slot = first_selected m.io_select 7 1 in
    let rom = m.expansion_rom slot in
    if ltb slot num_slots && (rom != 0) && (m.peripheral_rom_slot != slot)
    then record m {
      store = copy_expansion (mem + 0xc8) rom (copy_expansion (cx_rom_peripheral + 8) rom m.store);
      expansion_rom_type = exp_rom_peripheral;
      peripheral_rom_slot = slot;
    }
    else m

pub enable_internal : Memory → Memory
unfolding copy_expansion
enable_internal m = record m {
  store = copy_expansion (mem + 0xc8) (cx_rom_internal + 8) m.store;
  expansion_rom_type = exp_rom_internal;
  peripheral_rom_slot = 0;
}

-- I/O STROBE and the pages of the slots, for a II or with the cards' ROMs in.
pub access_peripheral : ℕ → Memory → Memory
unfolding select_slot enable_peripheral enable_internal is_internal
access_peripheral address m =
    let slot = bit_and (address / 256) 0xf in
    let strobe = leb 0xc800 address && leb address 0xcfff in
    let n =
      if leb 0xc100 address && leb address 0xc7ff
      then (if ltb slot num_slots then select_slot slot m else m)
      else m in
    if (n.io_select != 0) && strobe
    then enable_peripheral n
    else if (n.io_select_internal_rom != 0) && strobe && not (is_internal n.expansion_rom_type)
    then enable_internal n
    else n

-- The same with the internal ROM in.
pub access_internal : ℕ → Memory → Memory
unfolding enable_internal is_internal
access_internal address m =
    let strobe = leb 0xc800 address && leb address 0xcfff in
    let n =
      if leb 0xc100 address && leb address 0xc7ff
      then record m { io_select_internal_rom = 1 }
      else m in
    if (n.io_select_internal_rom != 0) && strobe && not (is_internal n.expansion_rom_type)
    then enable_internal n
    else n

pub access_cxxx : Bool → ℕ → Memory → Memory
unfolding disable_expansion access_peripheral access_internal
access_cxxx is_apple2 address m =
    let n = if address == 0xcfff then disable_expansion m else m in
    if is_apple2 || has n.mem_mode mf_slotcxrom
    then access_peripheral address n
    else access_internal address n

-- The answer is of the floating bus, as `io_null` gives it for a read, while no expansion ROM is in.
unfoldable pub io_read_cxxx : Bool → (Memory → ℕ) → ℕ → Memory → ℕ × Memory
unfolding access_cxxx is_null peek
io_read_cxxx is_apple2 floating address m =
    let n = access_cxxx is_apple2 address m in
    ((if is_null n.expansion_rom_type && leb 0xc800 address then floating n else peek n address), n)
