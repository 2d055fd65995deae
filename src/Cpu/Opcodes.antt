-- ===== src/Cpu/Opcodes.antt =====
-- `OpcodeDesc` and the branches of the opcode tables, whose rows are the children's.
pub mod NmosLow
pub mod NmosHigh
pub mod CmosLow
pub mod CmosHigh
use linapple.Common.{ℕ, ◌==◌, ◌!=◌, if◌then◌else◌}
use linapple.Cpu.{Bus, Cpu, branch_taken}
use linapple.Cpu.Addressing.{addr_rel}

pub record OpcodeDesc (M : Type 0) : Type 0 where
  pub handler : Cpu M → Cpu M
  pub base_cycles : ℕ

abbrev pub desc : {M : Type 0} → (Cpu M → Cpu M) → ℕ → OpcodeDesc M
desc handler base_cycles = record { handler = handler; base_cycles = base_cycles }

module _ {M : Type 0} ⦃bus : Bus M⦄ where
  -- `c.addr_rel(); if (c.flag) { c.branch_taken(); }`
  pub branch_if_set : (Cpu M → ℕ) → Cpu M → Cpu M
  unfolding addr_rel branch_taken
  branch_if_set flag c = let d = addr_rel c in if flag d != 0 then branch_taken d else d

  -- `c.addr_rel(); if (!c.flag) { c.branch_taken(); }`
  pub branch_if_clear : (Cpu M → ℕ) → Cpu M → Cpu M
  unfolding addr_rel branch_taken
  branch_if_clear flag c = let d = addr_rel c in if flag d == 0 then branch_taken d else d
