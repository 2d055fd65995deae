-- ===== src/Memory/Expansion/Beside.antt =====
-- The banks of the memory under `io_read_cxxx`.
use linapple.Common.{
  ℕ, ◌+◌, ◌/◌, ◌≡◌, refl, Bool, not, bit_and, ◌&&◌, ◌||◌, ◌!=◌, ◌==◌, leb, ltb, if◌then◌else◌,
  if_both, ◌^◌, bit_or, inl, inr, ◌∙◌,
}
use linapple.Memory.{
  Memory, has, mem, cx_rom_internal, cx_rom_peripheral, mf_slotc3rom, mf_slotcxrom,
}
use linapple.Memory.Banks.{home, contents, IsBanked, IsPaged}
use linapple.Memory.Banks.Undisturbed.{
  Undisturbed, untouched, in_turn, Undisturbed-IsPaged, Undisturbed-contents,
}
use linapple.Memory.Switches.{copy_expansion}
use linapple.Memory.Switches.Paged.{cleared-store, copied-store}
use linapple.Memory.Expansion.{
  disable_expansion, select_slot, first_selected, enable_peripheral, enable_internal,
  access_peripheral, access_internal, access_cxxx, io_read_cxxx, is_internal, num_slots,
}

internal_on : (m : Memory) → Undisturbed m (record m { io_select_internal_rom = 1 })
internal_on m = record {
  shadow = refl;
  write = refl;
  dirty = refl;
  mode = refl;
  changing = refl;
  bytes = λ x o banked. refl;
}

-- A change of what selects the expansion ROM, and of their pages.
disable-Undisturbed : (m : Memory) → Undisturbed m (disable_expansion m)
unfolding disable_expansion
disable-Undisturbed m =
    if_both (Undisturbed m) (has m.mem_mode mf_slotcxrom)
      (record {
        shadow = refl;
        write = refl;
        dirty = refl;
        mode = refl;
        changing = refl;
        bytes = cleared-store m.store;
      })
      (record {
        shadow = refl;
        write = refl;
        dirty = refl;
        mode = refl;
        changing = refl;
        bytes = λ x o banked. refl;
      })

enable_internal-Undisturbed : (m : Memory) → Undisturbed m (enable_internal m)
unfolding enable_internal
enable_internal-Undisturbed m = record {
  shadow = refl;
  write = refl;
  dirty = refl;
  mode = refl;
  changing = refl;
  bytes = λ x o. copied-store (mem + 0xc8) (cx_rom_internal + 8) m.store x o (inl refl);
}

enable_peripheral-Undisturbed : (m : Memory) → Undisturbed m (enable_peripheral m)
unfolding enable_peripheral
enable_peripheral-Undisturbed m =
    let slot = first_selected m.io_select 7 1 in
    let rom = m.expansion_rom slot in
    let card = copy_expansion (cx_rom_peripheral + 8) rom m.store in
    if_both (Undisturbed m) (ltb slot num_slots && (rom != 0) && (m.peripheral_rom_slot != slot))
      (record {
        shadow = refl;
        write = refl;
        dirty = refl;
        mode = refl;
        changing = refl;
        bytes = λ x o banked.
            copied-store (mem + 0xc8) rom card x o (inl refl) banked
            ∙ copied-store (cx_rom_peripheral + 8) rom m.store x o (inr refl) banked;
      })
      (untouched m)

select_slot-Undisturbed : (slot : ℕ) (m : Memory) → Undisturbed m (select_slot slot m)
unfolding select_slot
select_slot-Undisturbed slot m =
    let rom = m.expansion_rom slot != 0 in
    let selected : Undisturbed m (record m { io_select = bit_or m.io_select (2 ^ slot) }) = record {
      shadow = refl;
      write = refl;
      dirty = refl;
      mode = refl;
      changing = refl;
      bytes = λ x o banked. refl;
    } in
    if_both (Undisturbed m) ((slot != 3) && rom) selected (
      if_both (Undisturbed m) (has m.mem_mode mf_slotc3rom && rom) selected
        (if_both (Undisturbed m) (not (has m.mem_mode mf_slotc3rom)) (internal_on m) (untouched m)))

access_peripheral-Undisturbed :
    (address : ℕ) (m : Memory) → Undisturbed m (access_peripheral address m)
unfolding access_peripheral
access_peripheral-Undisturbed address m =
    let slot = bit_and (address / 256) 0xf in
    let strobe = leb 0xc800 address && leb address 0xcfff in
    let in_slots = leb 0xc100 address && leb address 0xc7ff in
    let chosen = if ltb slot num_slots then select_slot slot m else m in
    let n = if in_slots then chosen else m in
    let first : Undisturbed m n =
      if_both (Undisturbed m) in_slots
        (if_both (Undisturbed m) (ltb slot num_slots) (select_slot-Undisturbed slot m)
          (untouched m))
        (untouched m) in
    if_both (Undisturbed m) ((n.io_select != 0) && strobe)
      (in_turn m n (enable_peripheral n) first (enable_peripheral-Undisturbed n))
      (if_both (Undisturbed m)
        ((n.io_select_internal_rom != 0) && strobe && not (is_internal n.expansion_rom_type))
        (in_turn m n (enable_internal n) first (enable_internal-Undisturbed n)) first)

access_internal-Undisturbed : (address : ℕ) (m : Memory) → Undisturbed m (access_internal address m)
unfolding access_internal
access_internal-Undisturbed address m =
    let strobe = leb 0xc800 address && leb address 0xcfff in
    let in_slots = leb 0xc100 address && leb address 0xc7ff in
    let n = if in_slots then record m { io_select_internal_rom = 1 } else m in
    let first : Undisturbed m n = if_both (Undisturbed m) in_slots (internal_on m) (untouched m) in
    if_both (Undisturbed m)
      ((n.io_select_internal_rom != 0) && strobe && not (is_internal n.expansion_rom_type))
      (in_turn m n (enable_internal n) first (enable_internal-Undisturbed n)) first

access_cxxx-Undisturbed :
    (is_apple2 : Bool) (address : ℕ) (m : Memory) → Undisturbed m (access_cxxx is_apple2 address m)
unfolding access_cxxx
access_cxxx-Undisturbed is_apple2 address m =
    let n = if address == 0xcfff then disable_expansion m else m in
    let first : Undisturbed m n =
      if_both (Undisturbed m) (address == 0xcfff) (disable-Undisturbed m) (untouched m) in
    if_both (Undisturbed m) (is_apple2 || has n.mem_mode mf_slotcxrom)
      (in_turn m n (access_peripheral address n) first (access_peripheral-Undisturbed address n))
      (in_turn m n (access_internal address n) first (access_internal-Undisturbed address n))

-- From a memory whose tables, image and mode agree, a read in the pages of the slots and of the expansion ROMs,
-- which may bring a ROM in, keeps that agreement, and every byte of every bank that is seen elsewhere.
pub io_read_cxxx-beside :
    (is_apple2 : Bool) (floating : Memory → ℕ) (address : ℕ) (m : Memory) (x o : ℕ)
    → IsPaged m
    → IsBanked (home x)
    → IsPaged (io_read_cxxx is_apple2 floating address m).1
      × (contents (io_read_cxxx is_apple2 floating address m).1 x o ≡ contents m x o)
unfolding io_read_cxxx
io_read_cxxx-beside is_apple2 floating address m x o paged banked =
    let n = access_cxxx is_apple2 address m in
    let calm = access_cxxx-Undisturbed is_apple2 address m in
    (Undisturbed-IsPaged m n calm paged, Undisturbed-contents m n calm x o banked)
