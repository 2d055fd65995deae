-- ===== src/Cpu/Execute/Calm.antt =====
-- What an instruction does to the cycle count and to the bound of the loop, entry by entry of the tables.
pub mod Nmos
pub mod Cmos
use linapple.Common.{ℕ, ◌+◌, ◌/◌, ◌≤◌, ◌≡◌, arith}
use linapple.Cpu.{Bus, Cpu, Counters, read_byte, write_byte, set_nz, set_z}
use linapple.Cpu.Arithmetic.{adc_nmos, adc_cmos, sbc_nmos, sbc_cmos}
use linapple.Cpu.Operations.{compare_with}
use linapple.Cpu.Unofficial.{write_unstable, rotate_masked}
use linapple.Cpu.Opcodes.{OpcodeDesc}

-- An I/O handler may lower the bound of the loop, as `cpu_limit_cycles` does, never raise it.
pub record Lowers {M : Type 0} (bus : Bus M) : Type 0 where
  pub lowers :
      (pc address write val cycles : ℕ) (k : Counters) (m : M)
      → (bus.io_map_dispatch pc address write val cycles k m).1.0.cycles_limit ≤ k.cycles_limit

-- From `c` to `d` the count stands still, the bound does not rise, and few extra cycles are added.
pub record Within {M : Type 0} (extra : ℕ) (c d : Cpu M) : Type 0 where
  pub same_count : d.executed_cycles ≡ c.executed_cycles
  pub no_later : d.counters.cycles_limit ≤ c.counters.cycles_limit
  pub few_extra : d.extra_cycles ≤ c.extra_cycles + extra

-- An entry takes two to eight cycles and at most four extra ones.
abbrev pub IsCalm : {M : Type 0} → OpcodeDesc M → Type 0
IsCalm {M} e = (2 ≤ e.base_cycles) × (e.base_cycles ≤ 8) × ((c : Cpu M) → Within 4 c (e.handler c))

module _ {M : Type 0} ⦃bus : Bus M⦄ (l : Lowers bus) where
  pub read-Within : (c : Cpu M) (a : ℕ) → Within 0 c (read_byte c a).1
  unfolding read_byte
  read-Within c a = ground (arith, l.lowers c.pc a 0 0 c.executed_cycles c.counters c.mem)

  pub write-Within : (c : Cpu M) (a v : ℕ) → Within 0 c (write_byte c a v)
  unfolding write_byte
  write-Within c a v =
      ground
        (arith, l.lowers c.pc a 1 v c.executed_cycles c.counters (bus.mark_dirty c.mem (a / 256)))

  pub write_unstable-Within : (c : Cpu M) (v : ℕ) → Within 0 c (write_unstable c v)
  unfolding write_unstable
  write_unstable-Within c v = grind (arith, write-Within)

module _ {M : Type 0} where
  pub adc_nmos-Within : (c : Cpu M) (v : ℕ) → Within 1 c (adc_nmos c v)
  unfolding adc_nmos set_nz
  adc_nmos-Within c v = ground arith

  pub adc_cmos-Within : (c : Cpu M) (v : ℕ) → Within 1 c (adc_cmos c v)
  unfolding adc_cmos set_nz
  adc_cmos-Within c v = ground arith

  pub sbc_nmos-Within : (c : Cpu M) (v : ℕ) → Within 1 c (sbc_nmos c v)
  unfolding sbc_nmos set_nz
  sbc_nmos-Within c v = ground arith

  pub sbc_cmos-Within : (c : Cpu M) (v : ℕ) → Within 1 c (sbc_cmos c v)
  unfolding sbc_cmos set_nz
  sbc_cmos-Within c v = ground arith

  pub compare_with-Within : (c : Cpu M) (r v : ℕ) → Within 0 c (compare_with c r v)
  unfolding compare_with set_nz
  compare_with-Within c r v = ground arith

  pub rotate_masked-Within : (c : Cpu M) (v : ℕ) → Within 0 c (rotate_masked c v)
  unfolding rotate_masked set_nz set_z
  rotate_masked-Within c v = ground arith

pub ruleset calm = (
  arith, read-Within, write-Within, write_unstable-Within, rotate_masked-Within, adc_nmos-Within,
  adc_cmos-Within, sbc_nmos-Within, sbc_cmos-Within, compare_with-Within,
)
