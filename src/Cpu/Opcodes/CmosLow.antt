-- ===== src/Cpu/Opcodes/CmosLow.antt =====
-- Rows 0x to 7x of `opcodes_cmos`.
use linapple.Common.{List, ◌∷◌, [], true}
use linapple.Cpu.{Bus}
use linapple.Cpu.Opcodes.{OpcodeDesc, desc, branch_if_set, branch_if_clear}
use linapple.Cpu.Addressing.{
  addr_abs, addr_absx, addr_absy, addr_iabs_cmos, addr_iabsx, addr_imm, addr_indx, addr_indy,
  addr_izpg, addr_zpg, addr_zpgx,
}
use linapple.Cpu.Operations.{
  op_and, op_asl, op_asla, op_bit, op_clc, op_cli, op_dea, op_eor, op_ina, op_jmp, op_lsr, op_lsra,
  op_nop, op_ora, op_rol, op_rola, op_ror, op_rora, op_sec, op_sei, op_stz, op_trb, op_tsb,
}
use linapple.Cpu.Stack.{
  op_brk, op_jsr, op_pha, op_php, op_phy, op_pla, op_plp, op_ply, op_rti, op_rts,
}
use linapple.Cpu.Arithmetic.{op_adc_cmos}

module _ {M : Type 0} ⦃bus : Bus M⦄ where
  unfoldable pub cmos_0x : List (OpcodeDesc M)
  unfolding op_brk addr_indx op_ora addr_imm op_nop addr_zpg op_tsb op_asl op_php op_asla addr_abs
  cmos_0x =
      desc (op_brk true) 7
      ∷ desc (λ c. op_ora (addr_indx c)) 6
      ∷ desc addr_imm 2
      ∷ desc op_nop 2
      ∷ desc (λ c. op_tsb (addr_zpg c)) 5
      ∷ desc (λ c. op_ora (addr_zpg c)) 3
      ∷ desc (λ c. op_asl (addr_zpg c)) 5
      ∷ desc op_nop 2
      ∷ desc op_php 3
      ∷ desc (λ c. op_ora (addr_imm c)) 2
      ∷ desc op_asla 2
      ∷ desc op_nop 2
      ∷ desc (λ c. op_tsb (addr_abs c)) 6
      ∷ desc (λ c. op_ora (addr_abs c)) 4
      ∷ desc (λ c. op_asl (addr_abs c)) 6
      ∷ desc op_nop 2
      ∷ []

  unfoldable pub cmos_1x : List (OpcodeDesc M)
  unfolding branch_if_clear addr_indy op_ora addr_izpg op_nop addr_zpg op_trb addr_zpgx op_asl
      op_clc addr_absy op_ina addr_abs addr_absx
  cmos_1x =
      desc (branch_if_clear (λ c. c.flagn)) 2
      ∷ desc (λ c. op_ora (addr_indy c)) 5
      ∷ desc (λ c. op_ora (addr_izpg c)) 5
      ∷ desc op_nop 2
      ∷ desc (λ c. op_trb (addr_zpg c)) 5
      ∷ desc (λ c. op_ora (addr_zpgx c)) 4
      ∷ desc (λ c. op_asl (addr_zpgx c)) 6
      ∷ desc op_nop 2
      ∷ desc op_clc 2
      ∷ desc (λ c. op_ora (addr_absy c)) 4
      ∷ desc op_ina 2
      ∷ desc op_nop 2
      ∷ desc (λ c. op_trb (addr_abs c)) 6
      ∷ desc (λ c. op_ora (addr_absx c)) 4
      ∷ desc (λ c. op_asl (addr_absx c)) 6
      ∷ desc op_nop 2
      ∷ []

  unfoldable pub cmos_2x : List (OpcodeDesc M)
  unfolding addr_abs op_jsr addr_indx op_and addr_imm op_nop addr_zpg op_bit op_rol op_plp op_rola
  cmos_2x =
      desc (λ c. op_jsr (addr_abs c)) 6
      ∷ desc (λ c. op_and (addr_indx c)) 6
      ∷ desc addr_imm 2
      ∷ desc op_nop 2
      ∷ desc (λ c. op_bit (addr_zpg c)) 3
      ∷ desc (λ c. op_and (addr_zpg c)) 3
      ∷ desc (λ c. op_rol (addr_zpg c)) 5
      ∷ desc op_nop 2
      ∷ desc op_plp 4
      ∷ desc (λ c. op_and (addr_imm c)) 2
      ∷ desc op_rola 2
      ∷ desc op_nop 2
      ∷ desc (λ c. op_bit (addr_abs c)) 4
      ∷ desc (λ c. op_and (addr_abs c)) 2
      ∷ desc (λ c. op_rol (addr_abs c)) 6
      ∷ desc op_nop 2
      ∷ []

  unfoldable pub cmos_3x : List (OpcodeDesc M)
  unfolding branch_if_set addr_indy op_and addr_izpg op_nop addr_zpgx op_bit op_rol op_sec addr_absy
      op_dea addr_absx
  cmos_3x =
      desc (branch_if_set (λ c. c.flagn)) 2
      ∷ desc (λ c. op_and (addr_indy c)) 5
      ∷ desc (λ c. op_and (addr_izpg c)) 5
      ∷ desc op_nop 2
      ∷ desc (λ c. op_bit (addr_zpgx c)) 4
      ∷ desc (λ c. op_and (addr_zpgx c)) 4
      ∷ desc (λ c. op_rol (addr_zpgx c)) 6
      ∷ desc op_nop 2
      ∷ desc op_sec 2
      ∷ desc (λ c. op_and (addr_absy c)) 4
      ∷ desc op_dea 2
      ∷ desc op_nop 2
      ∷ desc (λ c. op_bit (addr_absx c)) 4
      ∷ desc (λ c. op_and (addr_absx c)) 4
      ∷ desc (λ c. op_rol (addr_absx c)) 6
      ∷ desc op_nop 2
      ∷ []

  unfoldable pub cmos_4x : List (OpcodeDesc M)
  unfolding op_rti addr_indx op_eor addr_imm op_nop addr_zpg op_lsr op_pha op_lsra addr_abs op_jmp
  cmos_4x =
      desc op_rti 6
      ∷ desc (λ c. op_eor (addr_indx c)) 6
      ∷ desc addr_imm 2
      ∷ desc op_nop 2
      ∷ desc addr_zpg 3
      ∷ desc (λ c. op_eor (addr_zpg c)) 3
      ∷ desc (λ c. op_lsr (addr_zpg c)) 5
      ∷ desc op_nop 2
      ∷ desc op_pha 3
      ∷ desc (λ c. op_eor (addr_imm c)) 2
      ∷ desc op_lsra 2
      ∷ desc op_nop 2
      ∷ desc (λ c. op_jmp (addr_abs c)) 3
      ∷ desc (λ c. op_eor (addr_abs c)) 4
      ∷ desc (λ c. op_lsr (addr_abs c)) 6
      ∷ desc op_nop 2
      ∷ []

  unfoldable pub cmos_5x : List (OpcodeDesc M)
  unfolding branch_if_clear addr_indy op_eor addr_izpg op_nop addr_zpgx op_lsr op_cli addr_absy
      op_phy addr_absx
  cmos_5x =
      desc (branch_if_clear (λ c. c.flagv)) 2
      ∷ desc (λ c. op_eor (addr_indy c)) 5
      ∷ desc (λ c. op_eor (addr_izpg c)) 5
      ∷ desc op_nop 2
      ∷ desc addr_zpgx 4
      ∷ desc (λ c. op_eor (addr_zpgx c)) 4
      ∷ desc (λ c. op_lsr (addr_zpgx c)) 6
      ∷ desc op_nop 2
      ∷ desc op_cli 2
      ∷ desc (λ c. op_eor (addr_absy c)) 4
      ∷ desc op_phy 3
      ∷ desc op_nop 2
      ∷ desc addr_absx 8
      ∷ desc (λ c. op_eor (addr_absx c)) 4
      ∷ desc (λ c. op_lsr (addr_absx c)) 6
      ∷ desc op_nop 2
      ∷ []

  unfoldable pub cmos_6x : List (OpcodeDesc M)
  unfolding op_rts addr_indx op_adc_cmos addr_imm op_nop addr_zpg op_stz op_ror op_pla op_rora
      addr_iabs_cmos op_jmp addr_abs
  cmos_6x =
      desc op_rts 6
      ∷ desc (λ c. op_adc_cmos (addr_indx c)) 6
      ∷ desc addr_imm 2
      ∷ desc op_nop 2
      ∷ desc (λ c. op_stz (addr_zpg c)) 3
      ∷ desc (λ c. op_adc_cmos (addr_zpg c)) 3
      ∷ desc (λ c. op_ror (addr_zpg c)) 5
      ∷ desc op_nop 2
      ∷ desc op_pla 4
      ∷ desc (λ c. op_adc_cmos (addr_imm c)) 2
      ∷ desc op_rora 2
      ∷ desc op_nop 2
      ∷ desc (λ c. op_jmp (addr_iabs_cmos c)) 6
      ∷ desc (λ c. op_adc_cmos (addr_abs c)) 4
      ∷ desc (λ c. op_ror (addr_abs c)) 6
      ∷ desc op_nop 2
      ∷ []

  unfoldable pub cmos_7x : List (OpcodeDesc M)
  unfolding branch_if_set addr_indy op_adc_cmos addr_izpg op_nop addr_zpgx op_stz op_ror op_sei
      addr_absy op_ply addr_iabsx op_jmp addr_absx
  cmos_7x =
      desc (branch_if_set (λ c. c.flagv)) 2
      ∷ desc (λ c. op_adc_cmos (addr_indy c)) 5
      ∷ desc (λ c. op_adc_cmos (addr_izpg c)) 5
      ∷ desc op_nop 2
      ∷ desc (λ c. op_stz (addr_zpgx c)) 4
      ∷ desc (λ c. op_adc_cmos (addr_zpgx c)) 4
      ∷ desc (λ c. op_ror (addr_zpgx c)) 6
      ∷ desc op_nop 2
      ∷ desc op_sei 2
      ∷ desc (λ c. op_adc_cmos (addr_absy c)) 4
      ∷ desc op_ply 4
      ∷ desc op_nop 2
      ∷ desc (λ c. op_jmp (addr_iabsx c)) 6
      ∷ desc (λ c. op_adc_cmos (addr_absx c)) 4
      ∷ desc (λ c. op_ror (addr_absx c)) 6
      ∷ desc op_nop 2
      ∷ []
