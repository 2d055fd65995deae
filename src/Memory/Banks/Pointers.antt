-- ===== src/Memory/Banks/Pointers.antt =====
-- `mem_get_aux_ptr` and `mem_get_main_ptr` of apple2/Memory.cpp, for the address of a page.
use linapple.Common.{ℕ, ◌+◌, ◌<◌, ◌≡◌, arith, ◌==◌, if◌then◌else◌}
use linapple.Memory.{Memory, mem, memmain, memaux}
use linapple.Memory.Banks.{home, contents}

unfoldable pub mem_get_aux_ptr : Memory → ℕ → ℕ
mem_get_aux_ptr m page = if m.memshadow page == memaux + page then mem + page else memaux + page

unfoldable pub mem_get_main_ptr : Memory → ℕ → ℕ
mem_get_main_ptr m page = if m.memshadow page == memmain + page then mem + page else memmain + page

seen_at : (page : ℕ) → page < 0xc0 → (home (memaux + page) ≡ page) × (home (memmain + page) ≡ page)
unfolding home
seen_at page h = ground arith

-- Below $C000, what the two pointers point to is what auxiliary and main memory hold, whether the page is
-- seen or not.
pub mem_get_ptr-contents :
    (m : Memory) (page offset : ℕ)
    → page < 0xc0
    → (m.store (mem_get_aux_ptr m page) offset ≡ contents m (memaux + page) offset)
      × (m.store (mem_get_main_ptr m page) offset ≡ contents m (memmain + page) offset)
unfolding mem_get_aux_ptr mem_get_main_ptr contents
mem_get_ptr-contents m page offset h = let homes = seen_at page h in ground arith
