-- ===== src/Memory/Access.antt =====
-- How the processor of CPU.cpp reaches the memory: the image, `memdirty` and `memwrite`.
pub mod Refines
use linapple.Common.{ℕ, ◌+◌, ◌/◌, ◌%◌, ◌≡◌, ◌≢◌, arith, Bool, ◌==◌, ◌!=◌, ◌&&◌, if◌then◌else◌}
use linapple.Cpu.{Bus, Counters}
use linapple.Memory.{Memory, assign, nullptr, mem}

-- `*(mem + address)`.
unfoldable pub peek : Memory → ℕ → ℕ
peek m address = m.store (mem + address / 256) (address % 256)

-- `*(page + offset) = value`, for a pointer to a page.
pub put : Memory → ℕ → ℕ → ℕ → Memory
put m page offset value = record m {
  store = λ x o. if (x == page) && (o == offset) then value else m.store x o;
}

-- `*(mem + address) = value`.
pub poke : Memory → ℕ → ℕ → Memory
unfolding put
poke m address value = put m (mem + address / 256) (address % 256) value

-- `memdirty[page] = 0xFF`.
pub mark_dirty : Memory → ℕ → Memory
unfolding assign
mark_dirty m page = record m { memdirty = assign m.memdirty page 0xff }

-- `memwrite[page] != nullptr`.
pub is_writable : Memory → ℕ → Bool
is_writable m page = m.memwrite page != nullptr

-- `*(memwrite[page] + (address & 0xFF)) = value`.
pub store_through : Memory → ℕ → ℕ → Memory
unfolding put
store_through m address value = put m (m.memwrite (address / 256)) (address % 256) value

pub peek-poke : (m : Memory) (a v : ℕ) → peek (poke m a v) a ≡ v
unfolding peek poke
peek-poke m a v = ground arith

pub peek-poke_ne : (m : Memory) (a b v : ℕ) → b ≢ a → peek (poke m a v) b ≡ peek m b
unfolding peek poke
peek-poke_ne m a b v other = ground arith

-- The memory as the processor's bus; `io_map_dispatch` is handed over, with the devices behind it.
abbrev pub memory_bus :
    (ℕ → ℕ → ℕ → ℕ → ℕ → Counters → Memory → ℕ × (Counters × Memory)) → Bus Memory
memory_bus dispatch = record {
  peek = peek;
  poke = poke;
  mark_dirty = mark_dirty;
  is_writable = is_writable;
  store = store_through;
  io_map_dispatch = dispatch;
  peek-poke = peek-poke;
  peek-poke_ne = peek-poke_ne;
}
