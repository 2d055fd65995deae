-- ===== src/Memory/Banks/Contents.antt =====
-- The banks of the memory under `mem_update_paging`, and the agreement of tables and image after it.
use linapple.Common.{
  ℕ, ◌+◌, ◌≤◌, ◌<◌, ◌≡◌, arith, false, bit_and, ◌==◌, if◌then◌else◌, ◌∙◌, refl, ap,
}
use linapple.Memory.{Memory, copy_page, assign, mem}
use linapple.Memory.Paging.{sync_page, shadow_table, write_table, mem_update_paging}
use linapple.Memory.Banks.{home, read_bank, contents, IsMapped, IsBanked, IsSound}
use linapple.Memory.Banks.Tables.{shadow_table-read_bank}
use linapple.Memory.Banks.Writes.{
  IsFixed, home-read_bank, read_bank-range, write_path-IsFixed, write_table-write_path,
}
use linapple.Memory.Banks.Sync.{
  home-image, sync_pages-store, sync_pages-memshadow, sync_pages-same, sync_pages-marks,
}

module _ (old : ℕ → ℕ) (p : ℕ) (m : Memory) (o : ℕ) where
  swapped-contents :
      (x : ℕ)
      → x < 0x600
      → old p < 0x600
      → m.memshadow p < 0x600
      → (2 ≤ p → bit_and (m.memdirty p) 1 ≡ 0 → m.store (mem + p) o ≡ m.store (old p) o)
      → (if m.memshadow p == x
          then (sync_page false old p m).store (mem + p) o
          else (sync_page false old p m).store x o)
        ≡ (if old p == x then m.store (mem + p) o else m.store x o)
  unfolding sync_page copy_page
  swapped-contents x a b c clean = ground arith

  swapped-coherent :
      old p < 0x600
      → m.memshadow p < 0x600
      → (2 ≤ p → bit_and (m.memdirty p) 1 ≡ 0 → m.store (mem + p) o ≡ m.store (old p) o)
      → 2 ≤ p
      → bit_and ((sync_page false old p m).memdirty p) 1 ≡ 0
      → (sync_page false old p m).store (mem + p) o
        ≡ (sync_page false old p m).store (m.memshadow p) o
  unfolding sync_page copy_page assign
  swapped-coherent b c clean high now = ground arith

module _ (mode : ℕ) (m : Memory) (sound : IsSound mode m) where
  old_page : (p : ℕ) → p < 0x100 → (home (m.memshadow p) ≡ p) × (m.memshadow p < 0x600)
  old_page p h =
      grind (arith, sound.mapped.reads p h, home-read_bank mode p h, read_bank-range mode p h)

  -- The memory with its new tables, before the last loop.
  mapped_anew : Memory
  mapped_anew = record m {
    memshadow = shadow_table false m.mem_mode m.memshadow;
    memwrite = write_table false m.mem_mode m.memwrite;
  }

  new_page :
      (p : ℕ)
      → p < 0x100
      → (mapped_anew.memshadow p ≡ read_bank m.mem_mode p)
        × (home (mapped_anew.memshadow p) ≡ p)
        × (mapped_anew.memshadow p < 0x600)
  unfolding mapped_anew
  new_page p h = grind (
    arith,
    shadow_table-read_bank m.mem_mode p m.memshadow h,
    home-read_bank m.mem_mode p h,
    read_bank-range m.mem_mode p h,
  )

  fixed : IsFixed m.memwrite
  fixed = record {
    stack = λ p h. sound.mapped.writes p (omega arith) ∙ (write_path-IsFixed mode).stack p h;
    slots = λ p h g. sound.mapped.writes p (omega arith) ∙ (write_path-IsFixed mode).slots p h g;
  }

  pub mem_update_paging-IsMapped : IsMapped m.mem_mode (mem_update_paging false false m)
  unfolding mem_update_paging mapped_anew
  mem_update_paging-IsMapped = record {
    reads = λ p h. sync_pages-memshadow false m.memshadow 0x100 mapped_anew p ∙ (new_page p h).0;
    writes = λ p h.
        ap (λ (t : ℕ → ℕ). t p) (sync_pages-same false m.memshadow 0x100 mapped_anew).0
        ∙ write_table-write_path false m.mem_mode p m.memwrite h (λ z. fixed);
  }

  -- What `mem_update_paging` leaves of a page of a buffer is what its own turn of the loop leaves.
  turn :
      (p x o : ℕ)
      → p < 0x100
      → home x ≡ p
      → (mem_update_paging false false m).store x o
        ≡ (sync_page false m.memshadow p mapped_anew).store x o
  unfolding mem_update_paging mapped_anew
  turn p x o h at =
      sync_pages-store false m.memshadow (λ q g. (old_page q g).0) 0x100 p mapped_anew x o
        (omega arith) h at (new_page p h).1

  turn_marks :
      (p : ℕ)
      → p < 0x100
      → (mem_update_paging false false m).memdirty p
        ≡ (sync_page false m.memshadow p mapped_anew).memdirty p
  unfolding mem_update_paging mapped_anew
  turn_marks p h = sync_pages-marks false m.memshadow 0x100 p mapped_anew h

  pub mem_update_paging-same :
      ((mem_update_paging false false m).mem_mode ≡ m.mem_mode)
      × ((mem_update_paging false false m).mode_changing ≡ m.mode_changing)
  unfolding mem_update_paging mapped_anew
  mem_update_paging-same =
      let same = sync_pages-same false m.memshadow 0x100 mapped_anew in (same.1, same.2)

  -- From a sound memory, `mem_update_paging` leaves the bytes of every bank as they were.
  pub mem_update_paging-contents :
      (x o : ℕ)
      → x < 0x600
      → IsBanked (home x)
      → contents (mem_update_paging false false m) x o ≡ contents m x o
  unfolding contents mapped_anew
  mem_update_paging-contents x o bank (h, banked) =
      let p = home x in
      let old = old_page p h in
      let new = new_page p h in
      let at = (mem_update_paging-IsMapped).reads p h in
      let clean = λ (high : 2 ≤ p) (z : bit_and (m.memdirty p) 1 ≡ 0).
        sound.coherent.agrees p o high (h, banked) z in
      let image = turn p (mem + p) o h (home-image p) in
      let own = turn p x o h refl in
      let swapped = swapped-contents m.memshadow p mapped_anew o x bank old.1 new.2 clean in
      ground arith

  coherent_page :
      (p o : ℕ)
      → 2 ≤ p
      → IsBanked p
      → bit_and ((mem_update_paging false false m).memdirty p) 1 ≡ 0
      → (mem_update_paging false false m).store (mem + p) o
        ≡ (mem_update_paging false false m).store ((mem_update_paging false false m).memshadow p) o
  unfolding mapped_anew
  coherent_page p o high (h, banked) z =
      let old = old_page p h in
      let new = new_page p h in
      let at = (mem_update_paging-IsMapped).reads p h in
      let marks = turn_marks p h in
      let image = turn p (mem + p) o h (home-image p) in
      let own = turn p (mapped_anew.memshadow p) o h new.1 in
      let clean = sound.coherent.agrees p o high (h, banked) in
      let swapped = swapped-coherent m.memshadow p mapped_anew o old.1 new.2 (λ _. clean) high in
      ground arith

  -- From the tables of some mode and an image that agrees with them, `mem_update_paging` leads to the tables
  -- of the current mode, each page read from and written to the bank that the mode selects, and to an image that
  -- agrees with those.
  pub mem_update_paging-IsSound : IsSound m.mem_mode (mem_update_paging false false m)
  mem_update_paging-IsSound = record {
    mapped = mem_update_paging-IsMapped;
    coherent = record { agrees = coherent_page };
  }
