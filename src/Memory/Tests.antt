-- ===== src/Memory/Tests.antt =====
-- Runs of the paging, and the theorems at inputs that meet their hypotheses.
use linapple.Common.{ℕ, ◌+◌, ◌≡◌, arith, refl, true, false, ◌&&◌, ◌==◌, if◌then◌else◌}
use linapple.Cpu.{Cpu, Counters, read_byte, write_byte}
use linapple.Memory.{
  Memory, exp_rom_null, has, memmain, memaux, mem, mf_altzp, mf_hram_write, mf_hram_bank2,
  mf_highram,
}
use linapple.Memory.Paging.{mem_update_paging}
use linapple.Memory.Banks.{IsBanked, IsPaged, IsSound, home, contents, read_bank, write_bank}
use linapple.Memory.Banks.Contents.{mem_update_paging-IsSound}
use linapple.Memory.Access.{memory_bus}
use linapple.Memory.Access.Refines.{write_byte-contents, read_byte-contents}
use linapple.Memory.Switches.{set_paging, language_card}
use linapple.Memory.Switches.Paged.{set_paging-IsPaged, set_paging-contents}
use linapple.Memory.Switches.Card.{language_card-switches}
use linapple.Memory.Expansion.{io_read_cxxx}
use linapple.Memory.Expansion.Beside.{io_read_cxxx-beside}
use linapple.Memory.Reset.{mem_reset, mem_reset-IsPaged}

abbrev blank : Memory
blank = record {
  store = λ page offset. 0x55;
  memshadow = λ page. 0;
  memwrite = λ page. 0;
  memdirty = λ page. 0;
  mem_mode = 0;
  last_write_ram = false;
  mode_changing = false;
  expansion_rom_type = exp_rom_null;
  peripheral_rom_slot = 0;
  expansion_rom = λ slot. 0;
  io_select = 0;
  io_select_internal_rom = 0;
}

-- A //e after its reset, and then with auxiliary memory read, as $C003 leaves it.
started : Memory
started = mem_reset true blank

started-IsPaged : IsPaged started
unfolding started
started-IsPaged = mem_reset-IsPaged true blank

reading_aux : Memory
unfolding started
reading_aux = set_paging false 0x300 0x03 started

reading_aux-IsPaged : IsPaged reading_aux
unfolding reading_aux
reading_aux-IsPaged = set_paging-IsPaged false 0x300 0x03 started started-IsPaged

first_bytes : (started.store (mem + 0x10) 1 ≡ 0xff) × (started.store (mem + 0x10) 2 ≡ 0)
unfolding started mem_reset has
first_bytes = (refl, refl)

abbrev counters : Counters
counters = record {
  cumulative_cycles = 0;
  cycles_submitted = 0;
  cycles_executed = 0;
  cycles_limit = 0;
  in_slice = false;
  bm_irq = 0;
  bm_nmi = 0;
  nmi_flank = false;
}

abbrev processor : Cpu Memory
processor = record {
  a = 0;
  x = 0;
  y = 0;
  ps = 0x30;
  pc = 0x300;
  sp = 0x1ff;
  is_jammed = false;
  addr = 0;
  base = 0;
  extra_cycles = 0;
  flagc = 0;
  flagn = 0;
  flagv = 0;
  flagz = 0;
  executed_cycles = 0;
  counters = counters;
  mem = reading_aux;
}

-- No device answers.
silent : ℕ → ℕ → ℕ → ℕ → ℕ → Counters → Memory → ℕ × (Counters × Memory)
silent pc address write val cycles k m = (0, (k, m))

mem_reset-IsPaged_example : IsPaged (mem_reset true blank)
mem_reset-IsPaged_example = mem_reset-IsPaged true blank

set_paging-IsPaged_example : IsPaged (set_paging false 0x300 0x05 reading_aux)
set_paging-IsPaged_example = set_paging-IsPaged false 0x300 0x05 reading_aux reading_aux-IsPaged

page_20 : IsBanked (home (memaux + 0x20))
unfolding home
page_20 = (omega arith, refl)

set_paging-contents_example :
    contents (set_paging false 0x300 0x05 reading_aux) (memaux + 0x20) 7
    ≡ contents reading_aux (memaux + 0x20) 7
set_paging-contents_example =
    set_paging-contents false 0x300 0x05 reading_aux (memaux + 0x20) 7 reading_aux-IsPaged
      (omega arith) page_20

write_byte-contents_example :
    contents (write_byte ⦃bus = memory_bus silent⦄ processor 0x2007 0x5a).mem (memmain + 0x20) 7 ≡ (
      if ((memmain + 0x20) == write_bank (reading_aux-IsPaged.mode) 0x20) && (7 == 7)
      then 0x5a
      else contents reading_aux (memmain + 0x20) 7)
write_byte-contents_example =
    write_byte-contents silent reading_aux-IsPaged.mode 0x2007 0x5a processor (memmain + 0x20) 7
      reading_aux-IsPaged.sound (omega arith) refl (omega arith) (omega arith)

read_byte-contents_example :
    read_byte ⦃bus = memory_bus silent⦄ processor 0x2007
    ≡ (contents reading_aux (read_bank reading_aux-IsPaged.mode 0x20) 7, processor)
read_byte-contents_example =
    read_byte-contents silent reading_aux-IsPaged.mode 0x2007 processor reading_aux-IsPaged.sound
      (omega arith) refl

mem_update_paging-IsSound_example :
    IsSound reading_aux.mem_mode (mem_update_paging false false reading_aux)
mem_update_paging-IsSound_example =
    mem_update_paging-IsSound reading_aux-IsPaged.mode reading_aux reading_aux-IsPaged.sound

language_card-switches_example :
    (has (language_card 0x8b 0x12) mf_hram_write ≡ true)
    × (has (language_card 0x8b 0x12) mf_hram_bank2 ≡ false)
    × (has (language_card 0x8b 0x12) mf_highram ≡ true)
    × (has (language_card 0x8b 0x12) mf_altzp ≡ has 0x12 mf_altzp)
language_card-switches_example = language_card-switches 0x8b 0x12 mf_altzp refl

-- The card in slot 6 has an expansion ROM, and is selected; then $C800 is read.
with_card : Memory
with_card = record reading_aux {
  expansion_rom = λ slot. if slot == 6 then 0x1000 else 0;
  io_select = 64;
}

with_card-IsPaged : IsPaged with_card
unfolding with_card
with_card-IsPaged = record {
  mode = reading_aux-IsPaged.mode;
  sound = record {
    mapped = record {
      reads = reading_aux-IsPaged.sound.mapped.reads;
      writes = reading_aux-IsPaged.sound.mapped.writes;
    };
    coherent = record { agrees = reading_aux-IsPaged.sound.coherent.agrees };
  };
  settled = reading_aux-IsPaged.settled;
}

io_read_cxxx-beside_example :
    IsPaged (io_read_cxxx false (λ m. 0xff) 0xc800 with_card).1
    × (contents (io_read_cxxx false (λ m. 0xff) 0xc800 with_card).1 (memaux + 0x20) 7
        ≡ contents with_card (memaux + 0x20) 7)
io_read_cxxx-beside_example =
    io_read_cxxx-beside false (λ m. 0xff) 0xc800 with_card (memaux + 0x20) 7 with_card-IsPaged
      page_20
