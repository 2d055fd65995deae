-- ===== src/Memory/Access/Refines.antt =====
-- Reads and writes of the processor, against the banks that the mode selects.
use linapple.Common.{
  ℕ, ◌/◌, ◌%◌, ◌≤◌, ◌<◌, ◌≡◌, ◌≢◌, arith, false, bit_and, ◌==◌, ◌&&◌, if◌then◌else◌, if_split, ◌∙◌,
}
use linapple.Cpu.{Cpu, Counters, read_byte, write_byte, in_io_region}
use linapple.Memory.{Memory, assign, nullptr}
use linapple.Memory.Banks.{
  home, read_bank, write_bank, write_path, contents, IsMapped, IsCoherent, IsSound,
}
use linapple.Memory.Banks.Writes.{
  home-read_bank, home-write_bank, read_bank-range, write_bank-range,
}
use linapple.Memory.Banks.Sync.{home-image}
use linapple.Memory.Access.{memory_bus, peek, put, mark_dirty, is_writable, store_through}

-- In the image or aside, a store reaches the bank that the mode selects for writing, and no other.
stored-contents :
    (mode : ℕ) (m : Memory) (a v x o : ℕ)
    → IsSound mode m
    → a < 0x10000
    → write_bank mode (a / 256) ≢ nullptr
    → 0x100 ≤ x
    → x < 0x600
    → contents (store_through m a v) x o
      ≡ (if (x == write_bank mode (a / 256)) && (o == a % 256) then v else contents m x o)
unfolding contents store_through put write_path
stored-contents mode m a v x o sound fits some low high =
    let p = a / 256 in
    let reads = sound.mapped.reads p (omega arith) in
    let writes = sound.mapped.writes p (omega arith) in
    let range = read_bank-range mode p (omega arith) in
    let range_too = write_bank-range mode p (omega arith) in
    let seen = home-read_bank mode p (omega arith) in
    let seen_too = home-write_bank mode p (omega arith) some in
    let image = home-image p in let elsewhere = home-image (home x) in ground arith

stored-IsCoherent :
    (mode : ℕ) (m : Memory) (a v : ℕ)
    → IsSound mode m
    → a < 0x10000
    → write_bank mode (a / 256) ≢ nullptr
    → bit_and (m.memdirty (a / 256)) 1 ≢ 0
    → IsCoherent (store_through m a v)
unfolding store_through put write_path
stored-IsCoherent mode m a v sound fits some marked = record {
  agrees = λ q o high banked z.
      let p = a / 256 in
      let writes = sound.mapped.writes p (omega arith) in
      let reads = sound.mapped.reads q banked.0 in
      let range = read_bank-range mode q banked.0 in
      let seen = home-read_bank mode q banked.0 in
      let seen_too = home-write_bank mode p (omega arith) some in
      let range_too = write_bank-range mode p (omega arith) in
      let image = home-image p in
      let image_too = home-image q in
      let before = sound.coherent.agrees q o high banked z in ground arith;
}

marked-IsSound : (mode : ℕ) (m : Memory) (p : ℕ) → IsSound mode m → IsSound mode (mark_dirty m p)
unfolding mark_dirty assign
marked-IsSound mode m p sound = record {
  mapped = record { reads = sound.mapped.reads; writes = sound.mapped.writes };
  coherent = record {
    agrees = λ q o high banked z. sound.coherent.agrees q o high banked (ground arith);
  };
}

stored-IsMapped :
    (mode : ℕ) (m : Memory) (a v : ℕ) → IsMapped mode m → IsMapped mode (store_through m a v)
unfolding store_through put
stored-IsMapped mode m a v mapped = record { reads = mapped.reads; writes = mapped.writes }

write_bank-some :
    (mode : ℕ) (m : Memory) (a : ℕ)
    → IsSound mode m
    → a < 0x10000
    → m.memwrite (a / 256) ≢ nullptr
    → write_bank mode (a / 256) ≢ nullptr
unfolding write_path
write_bank-some mode m a sound fits some z =
    let p = a / 256 in
    let range = read_bank-range mode p (omega arith) in
    some (sound.mapped.writes p (omega arith) ∙ ground arith)

write_bank-none :
    (mode : ℕ) (m : Memory) (a : ℕ)
    → IsSound mode m
    → a < 0x10000
    → m.memwrite (a / 256) ≡ nullptr
    → write_bank mode (a / 256) ≡ nullptr
unfolding write_path
write_bank-none mode m a sound fits none =
    let p = a / 256 in let writes = sound.mapped.writes p (omega arith) in ground arith

marked-bit : (m : Memory) (p : ℕ) → bit_and ((mark_dirty m p).memdirty p) 1 ≢ 0
unfolding mark_dirty assign
marked-bit m p = ground arith

-- What a step of the processor's write makes of the banks: the byte at one place, if it goes to a bank.
abbrev Written : ℕ → ℕ → ℕ → Memory → Memory → Type 0
Written mode a v m n =
    IsSound mode n
    × ((x o : ℕ)
        → 0x100 ≤ x
        → x < 0x600
        → contents n x o
          ≡ (if (x == write_bank mode (a / 256)) && (o == a % 256) then v else contents m x o))

stored-Written :
    (mode a v : ℕ) (m : Memory)
    → IsSound mode m
    → a < 0x10000
    → m.memwrite (a / 256) ≢ nullptr
    → Written mode a v m (store_through (mark_dirty m (a / 256)) a v)
unfolding mark_dirty contents
stored-Written mode a v m sound fits some =
    let marked = mark_dirty m (a / 256) in
    let sound_too = marked-IsSound mode m (a / 256) sound in
    let bank = write_bank-some mode m a sound fits some in
    (
      record {
        mapped = stored-IsMapped mode marked a v sound_too.mapped;
        coherent = stored-IsCoherent mode marked a v sound_too fits bank (marked-bit m (a / 256));
      },
      λ x o low high. stored-contents mode marked a v x o sound_too fits bank low high,
    )

kept-Written :
    (mode a v : ℕ) (m : Memory)
    → IsSound mode m
    → a < 0x10000
    → m.memwrite (a / 256) ≡ nullptr
    → Written mode a v m (mark_dirty m (a / 256))
unfolding mark_dirty contents
kept-Written mode a v m sound fits none = (
  marked-IsSound mode m (a / 256) sound,
  λ x o low high. let bank = write_bank-none mode m a sound fits none in ground arith,
)

module _ (io : ℕ → ℕ → ℕ → ℕ → ℕ → Counters → Memory → ℕ × (Counters × Memory)) where
  write_byte-Written :
      (mode a v : ℕ) (c : Cpu Memory)
      → IsSound mode c.mem
      → a < 0x10000
      → in_io_region a ≡ false
      → Written mode a v c.mem (write_byte ⦃bus = memory_bus io⦄ c a v).mem
  unfolding write_byte is_writable mark_dirty
  write_byte-Written mode a v c sound fits plain =
      let P = λ (d : Cpu Memory). Written mode a v c.mem d.mem in
      if_split P (is_writable (mark_dirty c.mem (a / 256)) (a / 256))
        (λ some. stored-Written mode a v c.mem sound fits (ground arith))
        (λ none.
          if_split P (in_io_region a) (λ inside. absurd (ground arith))
            (λ _. kept-Written mode a v c.mem sound fits (ground arith)))

  -- Outside I/O space, with the tables of a mode, `write_byte` keeps the tables those of the mode and the
  -- image in agreement with the banks.
  pub write_byte-IsSound :
      (mode a v : ℕ) (c : Cpu Memory)
      → IsSound mode c.mem
      → a < 0x10000
      → in_io_region a ≡ false
      → IsSound mode (write_byte ⦃bus = memory_bus io⦄ c a v).mem
  write_byte-IsSound mode a v c sound fits plain =
      (write_byte-Written mode a v c sound fits plain).0

  -- Outside I/O space, with the tables of a mode, `write_byte` puts the byte at its offset into the bank that
  -- the mode selects for writing at the address, if there is one; every other byte of every bank stays.
  pub write_byte-contents :
      (mode a v : ℕ) (c : Cpu Memory) (x o : ℕ)
      → IsSound mode c.mem
      → a < 0x10000
      → in_io_region a ≡ false
      → 0x100 ≤ x
      → x < 0x600
      → contents (write_byte ⦃bus = memory_bus io⦄ c a v).mem x o
        ≡ (if (x == write_bank mode (a / 256)) && (o == a % 256) then v else contents c.mem x o)
  write_byte-contents mode a v c x o sound fits plain low high =
      (write_byte-Written mode a v c sound fits plain).1 x o low high

  -- Outside I/O space, with the tables of a mode, `read_byte` answers with the byte that the bank which the
  -- mode selects for reading holds, and changes nothing.
  pub read_byte-contents :
      (mode a : ℕ) (c : Cpu Memory)
      → IsSound mode c.mem
      → a < 0x10000
      → in_io_region a ≡ false
      → read_byte ⦃bus = memory_bus io⦄ c a
        ≡ (contents c.mem (read_bank mode (a / 256)) (a % 256), c)
  unfolding read_byte peek contents
  read_byte-contents mode a c sound fits plain =
      let reads = sound.mapped.reads (a / 256) (omega arith) in
      let seen = home-read_bank mode (a / 256) (omega arith) in ground arith
