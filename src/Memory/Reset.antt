-- ===== src/Memory/Reset.antt =====
-- `mem_reset` of apple2/Memory.cpp, and the state it leads to.
use linapple.Common.{ℕ, zero, suc, ◌+◌, ◌-◌, ◌%◌, ◌<◌, ◌≡◌, ◌∙◌, arith, refl, sym, ap}
use linapple.Common.{Bool, true, false, ◌&&◌, ltb, leb, if◌then◌else◌}
use linapple.Memory.{Memory, copy_page, mem, memmain, memaux, nullptr}
use linapple.Memory.Paging.{
  sync_page, sync_pages, shadow_table, write_table, mem_update_paging, reset_paging, reset_switches,
}
use linapple.Memory.Banks.{home, read_bank, contents, IsMapped, IsSound, IsPaged}
use linapple.Memory.Banks.Tables.{shadow_table-read_bank}
use linapple.Memory.Banks.Writes.{home-read_bank, read_bank-range, write_table-write_path}
use linapple.Memory.Banks.Sync.{home-image, sync_pages-store, sync_pages-memshadow, sync_pages-same}

-- The bytes of main memory at power-on: zeros, or below $C000 pairs of $FF and of zeros.
pub power_on_byte : Bool → ℕ → ℕ → ℕ
power_on_byte pattern page offset =
    if pattern && (ltb page 0xc0 && ltb (offset % 4) 2) then 0xff else 0

-- The tables and the two 64K of memory are cleared.
pub cleared : Bool → Memory → Memory
unfolding power_on_byte
cleared pattern m = record m {
  memshadow = λ page. nullptr;
  memwrite = λ page. nullptr;
  store = λ x o.
      if leb memaux x && ltb x (memaux + 0x100)
      then 0
      else if leb memmain x && ltb x (memmain + 0x100)
      then power_on_byte pattern (x - memmain) o
      else m.store x o;
}

-- The part of `mem_reset` before `cpu_initialize`.
unfoldable pub mem_reset : Bool → Memory → Memory
unfolding cleared reset_paging
mem_reset pattern m = reset_paging true (cleared pattern m)

-- An initialization does not look at the old table.
sync_pages-old :
    (old other : ℕ → ℕ) (n : ℕ) (m : Memory) → sync_pages true old n m ≡ sync_pages true other n m
unfolding sync_pages sync_page
sync_pages-old old other zero m = refl
sync_pages-old old other (suc n) m = ap (sync_page true other n) (sync_pages-old old other n m)

initial_page :
    (old : ℕ → ℕ) (p : ℕ) (m : Memory) (o : ℕ)
    → m.memshadow p < 0x600
    → ((sync_page true old p m).store (mem + p) o ≡ m.store (m.memshadow p) o)
      × ((x : ℕ) → x < 0x600 → (sync_page true old p m).store x o ≡ m.store x o)
unfolding sync_page copy_page
initial_page old p m o low = (ground arith, λ x high. ground arith)

module _ (m : Memory) where
  mapped_first : Memory
  mapped_first = record m {
    memshadow = shadow_table false m.mem_mode m.memshadow;
    memwrite = write_table true m.mem_mode m.memwrite;
  }

  first_table : (p : ℕ) → p < 0x100 → mapped_first.memshadow p ≡ read_bank m.mem_mode p
  unfolding mapped_first
  first_table p h = shadow_table-read_bank m.mem_mode p m.memshadow h

  initial-IsMapped : IsMapped m.mem_mode (mem_update_paging true false m)
  unfolding mem_update_paging mapped_first
  initial-IsMapped = record {
    reads = λ p h. sync_pages-memshadow true m.memshadow 0x100 mapped_first p ∙ first_table p h;
    writes = λ p h.
        ap (λ (t : ℕ → ℕ). t p) (sync_pages-same true m.memshadow 0x100 mapped_first).0
        ∙ write_table-write_path true m.mem_mode p m.memwrite h (λ z. absurd (ground arith));
  }

  turn :
      (p x o : ℕ)
      → p < 0x100
      → home x ≡ p
      → (mem_update_paging true false m).store x o
        ≡ (sync_page true (read_bank m.mem_mode) p mapped_first).store x o
  unfolding mem_update_paging mapped_first
  turn p x o h at =
      ap (λ (n : Memory). n.store x o)
        (sync_pages-old m.memshadow (read_bank m.mem_mode) 0x100 mapped_first)
      ∙ sync_pages-store true (read_bank m.mem_mode) (home-read_bank m.mem_mode) 0x100 p
          mapped_first x o (omega arith) h at
          (ap home (first_table p h) ∙ home-read_bank m.mem_mode p h)

  first_page :
      (p o : ℕ)
      → p < 0x100
      → (mem_update_paging true false m).store (mem + p) o ≡ m.store (read_bank m.mem_mode p) o
  unfolding mapped_first
  first_page p o h =
      turn p (mem + p) o h (home-image p)
      ∙ (initial_page (read_bank m.mem_mode) p mapped_first o
          (ground (arith, first_table p h, read_bank-range m.mem_mode p h))).0
      ∙ ap (λ (x : ℕ). m.store x o) (first_table p h)

  first_buffer :
      (x o : ℕ)
      → x < 0x600
      → home x < 0x100
      → (mem_update_paging true false m).store x o ≡ m.store x o
  unfolding mapped_first
  first_buffer x o high h =
      let p = home x in
      turn p x o h refl
      ∙ (initial_page (read_bank m.mem_mode) p mapped_first o
            (ground (arith, first_table p h, read_bank-range m.mem_mode p h))).1
          x high

  -- After an initialization the tables are those of the mode and the image agrees with them, whatever
  -- stood in the memory.
  pub initial-IsSound : IsSound m.mem_mode (mem_update_paging true false m)
  initial-IsSound = record {
    mapped = initial-IsMapped;
    coherent = record {
      agrees = λ p o high banked z.
          let h = banked.0 in
          let shown = initial-IsMapped.reads p h in
          let image = first_page p o h in
          let buffer =
            first_buffer (read_bank m.mem_mode p) o (ground (arith, read_bank-range m.mem_mode p h))
              (ground (arith, home-read_bank m.mem_mode p h)) in
          ground arith;
    };
  }

  initial-contents :
      (x o : ℕ)
      → x < 0x600
      → home x < 0x100
      → contents (mem_update_paging true false m) x o ≡ m.store x o
  unfolding contents
  initial-contents x o high h =
      let p = home x in
      let shown = initial-IsMapped.reads p h in
      let image = first_page p o h in let buffer = first_buffer x o high h in ground arith

  initial-mem_mode : (mem_update_paging true false m).mem_mode ≡ m.mem_mode
  unfolding mem_update_paging mapped_first
  initial-mem_mode = (sync_pages-same true m.memshadow 0x100 mapped_first).1

ram_home :
    (page : ℕ) → page < 0x100 → (home (memaux + page) < 0x100) × (home (memmain + page) < 0x100)
unfolding home
ram_home page h = ground arith

cleared-store :
    (pattern : Bool) (m : Memory) (page offset : ℕ)
    → page < 0x100
    → ((reset_switches (cleared pattern m)).store (memaux + page) offset ≡ 0)
      × ((reset_switches (cleared pattern m)).store (memmain + page) offset
          ≡ power_on_byte pattern page offset)
unfolding cleared reset_switches
cleared-store pattern m page offset h =
    let same : memmain + page - memmain ≡ page = omega arith in ground arith

-- From any state, `mem_reset` leads to tables of the current mode and an image that agrees with them.
pub mem_reset-IsPaged : (pattern : Bool) (m : Memory) → IsPaged (mem_reset pattern m)
unfolding mem_reset reset_paging
mem_reset-IsPaged pattern m = record {
  mode = (reset_switches (cleared pattern m)).mem_mode;
  sound = initial-IsSound (reset_switches (cleared pattern m));
  settled = λ z. sym (initial-mem_mode (reset_switches (cleared pattern m)));
}

-- From any state, after `mem_reset` a page of auxiliary memory holds zeros, and one of main memory the
-- power-on pattern, wherever it is seen.
pub mem_reset-contents :
    (pattern : Bool) (m : Memory) (page offset : ℕ)
    → page < 0x100
    → (contents (mem_reset pattern m) (memaux + page) offset ≡ 0)
      × (contents (mem_reset pattern m) (memmain + page) offset ≡ power_on_byte pattern page offset)
unfolding mem_reset reset_paging
mem_reset-contents pattern m page offset h =
    let m0 = reset_switches (cleared pattern m) in
    let at = ram_home page h in
    let bytes = cleared-store pattern m page offset h in
    (
      initial-contents m0 (memaux + page) offset (omega arith) at.0 ∙ bytes.0,
      initial-contents m0 (memmain + page) offset (omega arith) at.1 ∙ bytes.1,
    )
