-- ===== src/Memory/Paging.antt =====
-- `mem_update_paging` and `reset_paging` of apple2/Memory.cpp.
use linapple.Common.{ℕ, zero, suc, ◌+◌, ◌-◌, bit_and, bit_or, Bool, false, not, ◌&&◌, ◌||◌}
use linapple.Common.{ltb, leb, ◌==◌, ◌!=◌, if◌then◌else◌}
use linapple.Memory.{Memory, has, copy_page, assign, nullptr, memmain, memaux, memrom, mem}
use linapple.Memory.{cx_rom_internal, cx_rom_peripheral}
use linapple.Memory.{mf_80store, mf_altzp, mf_auxread, mf_auxwrite, mf_hram_bank2, mf_highram}
use linapple.Memory.{mf_hires, mf_page2, mf_slotc3rom, mf_slotcxrom, mf_hram_write}

-- `for (page = first; page < last; page++) table[page] = value(page)`.
unfoldable pub fill : ℕ → ℕ → (ℕ → ℕ) → (ℕ → ℕ) → ℕ → ℕ
fill first last value table page =
    if leb first page && ltb page last then value page else table page

-- `if (condition) ...` for a loop over the table.
unfoldable pub when : Bool → ((ℕ → ℕ) → ℕ → ℕ) → (ℕ → ℕ) → ℕ → ℕ
when condition loop table page = if condition then loop table page else table page

-- `==` of two `bool`.
unfoldable pub agree : Bool → Bool → Bool
agree one other = if one then other else not other

-- The bank that a switch selects.
unfoldable pub aux_if : Bool → ℕ
aux_if switched = if switched then memaux else memmain

-- `mem + (page << 8)`.
unfoldable pub through : ℕ → ℕ
through page = mem + page

-- What the loops assign to `memshadow[page]` and `memwrite[page]`.
unfoldable pub shadow_zero : ℕ → ℕ → ℕ
unfolding aux_if
shadow_zero mode page = aux_if (has mode mf_altzp) + page

unfoldable pub shadow_ram : ℕ → ℕ → ℕ
unfolding aux_if
shadow_ram mode page = aux_if (has mode mf_auxread) + page

unfoldable pub write_ram : ℕ → ℕ → ℕ
unfolding agree
write_ram mode page =
    if agree (has mode mf_auxread) (has mode mf_auxwrite)
    then mem + page
    else if has mode mf_auxwrite
    then memaux + page
    else memmain + page

unfoldable pub shadow_cx : ℕ → ℕ → ℕ
shadow_cx mode page =
    let peripheral =
      if page == 0xc3
      then has mode mf_slotc3rom && has mode mf_slotcxrom
      else has mode mf_slotcxrom in
    (if peripheral then cx_rom_peripheral else cx_rom_internal) + bit_and page 0x0f

unfoldable pub shadow_expansion : ℕ → ℕ
shadow_expansion page = cx_rom_internal + bit_and page 0x0f

-- `lc_ram`; below $E000 the offset of the bank is taken off.
unfoldable pub lc_ram : ℕ → ℕ → ℕ
unfolding aux_if
lc_ram mode page =
    let bank_offset = if ltb page 0xe0 && not (has mode mf_hram_bank2) then 0x10 else 0 in
    aux_if (has mode mf_altzp) + page - bank_offset

unfoldable pub shadow_high : ℕ → ℕ → ℕ
unfolding lc_ram
shadow_high mode page = if has mode mf_highram then lc_ram mode page else memrom + (page - 0xd0)

unfoldable pub write_high : ℕ → ℕ → ℕ
unfolding lc_ram
write_high mode page =
    if not (has mode mf_hram_write)
    then nullptr
    else if has mode mf_highram
    then mem + page
    else lc_ram mode page

unfoldable pub shadow_80store : ℕ → ℕ → ℕ
unfolding aux_if
shadow_80store mode page = aux_if (has mode mf_page2) + page

-- The loops over the text and graphics pages under 80STORE.
unfoldable pub display : ℕ → (ℕ → ℕ) → (ℕ → ℕ) → ℕ → ℕ
unfolding fill when
display mode value table =
    let text = when (has mode mf_80store) (fill 0x04 0x08 value) table in
    when (has mode mf_80store && has mode mf_hires) (fill 0x20 0x40 value) text

-- The loops over `memshadow` in the source's order, each after those before it.
unfoldable pub shadow_upto_02 : Bool → ℕ → (ℕ → ℕ) → ℕ → ℕ
unfolding when fill shadow_zero
shadow_upto_02 update_write_only mode table =
    when (not update_write_only) (fill 0 2 (shadow_zero mode)) table

unfoldable pub shadow_upto_c0 : Bool → ℕ → (ℕ → ℕ) → ℕ → ℕ
unfolding fill shadow_ram shadow_upto_02
shadow_upto_c0 update_write_only mode table =
    fill 0x02 0xc0 (shadow_ram mode) (shadow_upto_02 update_write_only mode table)

unfoldable pub shadow_upto_c8 : Bool → ℕ → (ℕ → ℕ) → ℕ → ℕ
unfolding when fill shadow_cx shadow_upto_c0
shadow_upto_c8 update_write_only mode table =
    when (not update_write_only) (fill 0xc0 0xc8 (shadow_cx mode))
      (shadow_upto_c0 update_write_only mode table)

unfoldable pub shadow_upto_d0 : Bool → ℕ → (ℕ → ℕ) → ℕ → ℕ
unfolding when fill shadow_expansion shadow_upto_c8
shadow_upto_d0 update_write_only mode table =
    when (not update_write_only) (fill 0xc8 0xd0 shadow_expansion)
      (shadow_upto_c8 update_write_only mode table)

unfoldable pub shadow_upto_e0 : Bool → ℕ → (ℕ → ℕ) → ℕ → ℕ
unfolding fill shadow_high shadow_upto_d0
shadow_upto_e0 update_write_only mode table =
    fill 0xd0 0xe0 (shadow_high mode) (shadow_upto_d0 update_write_only mode table)

unfoldable pub shadow_upto_100 : Bool → ℕ → (ℕ → ℕ) → ℕ → ℕ
unfolding fill shadow_high shadow_upto_e0
shadow_upto_100 update_write_only mode table =
    fill 0xe0 0x100 (shadow_high mode) (shadow_upto_e0 update_write_only mode table)

unfoldable pub shadow_table : Bool → ℕ → (ℕ → ℕ) → ℕ → ℕ
unfolding display shadow_80store shadow_upto_100
shadow_table update_write_only mode table =
    display mode (shadow_80store mode) (shadow_upto_100 update_write_only mode table)

-- The same over `memwrite`, first the two of an initialization.
unfoldable pub write_through : Bool → ℕ → (ℕ → ℕ) → ℕ → ℕ
unfolding when fill through
write_through initialize mode table = when initialize (fill 0 0xc0 through) table

unfoldable pub write_initial : Bool → ℕ → (ℕ → ℕ) → ℕ → ℕ
unfolding when fill write_through
write_initial initialize mode table =
    when initialize (fill 0xc0 0xd0 (λ (page : ℕ). nullptr)) (write_through initialize mode table)

unfoldable pub write_upto_c0 : Bool → ℕ → (ℕ → ℕ) → ℕ → ℕ
unfolding fill write_ram write_initial
write_upto_c0 initialize mode table =
    fill 0x02 0xc0 (write_ram mode) (write_initial initialize mode table)

unfoldable pub write_upto_e0 : Bool → ℕ → (ℕ → ℕ) → ℕ → ℕ
unfolding fill write_high write_upto_c0
write_upto_e0 initialize mode table =
    fill 0xd0 0xe0 (write_high mode) (write_upto_c0 initialize mode table)

unfoldable pub write_upto_100 : Bool → ℕ → (ℕ → ℕ) → ℕ → ℕ
unfolding fill write_high write_upto_e0
write_upto_100 initialize mode table =
    fill 0xe0 0x100 (write_high mode) (write_upto_e0 initialize mode table)

unfoldable pub write_table : Bool → ℕ → (ℕ → ℕ) → ℕ → ℕ
unfolding display through write_upto_100
write_table initialize mode table = display mode through (write_upto_100 initialize mode table)

-- One page of the last loop: a page that changes its shadow goes back to the old one, if it was
-- written to or is one of the first two, and is read from the new one.
unfoldable pub sync_page : Bool → (ℕ → ℕ) → ℕ → Memory → Memory
unfolding copy_page assign
sync_page initialize old_shadow page m =
    let shadow = m.memshadow page in
    let dirty = bit_and (m.memdirty page) 1 != 0 || leb page 1 in
    let saved =
      if not initialize && dirty
      then record m {
        memdirty = assign m.memdirty page (bit_and (m.memdirty page) 0xfe);
        store = copy_page m.store (old_shadow page) (mem + page);
      }
      else m in
    if initialize || (old_shadow page != shadow)
    then record saved { store = copy_page saved.store (mem + page) shadow }
    else m

-- The pages below `count`, from 0 up.
unfoldable pub sync_pages : Bool → (ℕ → ℕ) → ℕ → Memory → Memory
unfolding sync_page
sync_pages initialize old_shadow zero m = m
sync_pages initialize old_shadow (suc page) m =
    sync_page initialize old_shadow page (sync_pages initialize old_shadow page m)

unfoldable pub mem_update_paging : Bool → Bool → Memory → Memory
unfolding shadow_table write_table sync_pages
mem_update_paging initialize update_write_only m =
    let mapped = record m {
      memshadow = shadow_table update_write_only m.mem_mode m.memshadow;
      memwrite = write_table initialize m.mem_mode m.memwrite;
    } in
    if update_write_only then mapped else sync_pages initialize m.memshadow 0x100 mapped

-- Every other switch is off.
unfoldable pub reset_switches : Memory → Memory
reset_switches m = record m {
  last_write_ram = false;
  mem_mode = bit_or (bit_or mf_hram_bank2 mf_slotcxrom) mf_hram_write;
}

unfoldable pub reset_paging : Bool → Memory → Memory
unfolding mem_update_paging reset_switches
reset_paging initialize m = mem_update_paging initialize false (reset_switches m)
