-- ===== src/Cpu/Opcodes/NmosLow.antt =====
-- Rows 0x to 7x of `opcodes_nmos`.
use linapple.Common.{List, ◌∷◌, [], false}
use linapple.Cpu.{Bus}
use linapple.Cpu.Opcodes.{OpcodeDesc, desc, branch_if_set, branch_if_clear}
use linapple.Cpu.Addressing.{
  addr_abs, addr_absx, addr_absy, addr_iabs_nmos, addr_imm, addr_indx, addr_indy, addr_zpg,
  addr_zpgx,
}
use linapple.Cpu.Operations.{
  op_and, op_asl, op_asla, op_bit, op_clc, op_cli, op_eor, op_hlt, op_jmp, op_lsr, op_lsra, op_nop,
  op_ora, op_rol, op_rola, op_ror, op_rora, op_sec, op_sei,
}
use linapple.Cpu.Stack.{op_brk, op_jsr, op_pha, op_php, op_pla, op_plp, op_rti, op_rts}
use linapple.Cpu.Arithmetic.{op_adc_nmos}
use linapple.Cpu.Unofficial.{op_alr, op_anc, op_arr, op_aso, op_lse, op_rla, op_rra}

module _ {M : Type 0} ⦃bus : Bus M⦄ where
  unfoldable pub nmos_0x : List (OpcodeDesc M)
  unfolding op_brk addr_indx op_ora op_hlt op_aso addr_zpg op_asl op_php addr_imm op_asla op_anc
      addr_absx addr_abs
  nmos_0x =
      desc (op_brk false) 7
      ∷ desc (λ c. op_ora (addr_indx c)) 6
      ∷ desc op_hlt 2
      ∷ desc (λ c. op_aso (addr_indx c)) 8
      ∷ desc addr_zpg 3
      ∷ desc (λ c. op_ora (addr_zpg c)) 3
      ∷ desc (λ c. op_asl (addr_zpg c)) 5
      ∷ desc (λ c. op_aso (addr_zpg c)) 5
      ∷ desc op_php 3
      ∷ desc (λ c. op_ora (addr_imm c)) 2
      ∷ desc op_asla 2
      ∷ desc (λ c. op_anc (addr_imm c)) 2
      ∷ desc addr_absx 4
      ∷ desc (λ c. op_ora (addr_abs c)) 4
      ∷ desc (λ c. op_asl (addr_abs c)) 6
      ∷ desc (λ c. op_aso (addr_abs c)) 6
      ∷ []

  unfoldable pub nmos_1x : List (OpcodeDesc M)
  unfolding branch_if_clear addr_indy op_ora op_hlt op_aso addr_zpgx op_asl op_clc addr_absy op_nop
      addr_absx
  nmos_1x =
      desc (branch_if_clear (λ c. c.flagn)) 2
      ∷ desc (λ c. op_ora (addr_indy c)) 5
      ∷ desc op_hlt 2
      ∷ desc (λ c. op_aso (addr_indy c)) 8
      ∷ desc addr_zpgx 4
      ∷ desc (λ c. op_ora (addr_zpgx c)) 4
      ∷ desc (λ c. op_asl (addr_zpgx c)) 6
      ∷ desc (λ c. op_aso (addr_zpgx c)) 6
      ∷ desc op_clc 2
      ∷ desc (λ c. op_ora (addr_absy c)) 4
      ∷ desc op_nop 2
      ∷ desc (λ c. op_aso (addr_absy c)) 7
      ∷ desc addr_absx 4
      ∷ desc (λ c. op_ora (addr_absx c)) 4
      ∷ desc (λ c. op_asl (addr_absx c)) 6
      ∷ desc (λ c. op_aso (addr_absx c)) 7
      ∷ []

  unfoldable pub nmos_2x : List (OpcodeDesc M)
  unfolding addr_abs op_jsr addr_indx op_and op_hlt op_rla addr_zpg op_bit op_rol op_plp addr_imm
      op_rola op_anc
  nmos_2x =
      desc (λ c. op_jsr (addr_abs c)) 6
      ∷ desc (λ c. op_and (addr_indx c)) 6
      ∷ desc op_hlt 2
      ∷ desc (λ c. op_rla (addr_indx c)) 8
      ∷ desc (λ c. op_bit (addr_zpg c)) 3
      ∷ desc (λ c. op_and (addr_zpg c)) 3
      ∷ desc (λ c. op_rol (addr_zpg c)) 5
      ∷ desc (λ c. op_rla (addr_zpg c)) 5
      ∷ desc op_plp 4
      ∷ desc (λ c. op_and (addr_imm c)) 2
      ∷ desc op_rola 2
      ∷ desc (λ c. op_anc (addr_imm c)) 2
      ∷ desc (λ c. op_bit (addr_abs c)) 4
      ∷ desc (λ c. op_and (addr_abs c)) 2
      ∷ desc (λ c. op_rol (addr_abs c)) 6
      ∷ desc (λ c. op_rla (addr_abs c)) 6
      ∷ []

  unfoldable pub nmos_3x : List (OpcodeDesc M)
  unfolding branch_if_set addr_indy op_and op_hlt op_rla addr_zpgx op_rol op_sec addr_absy op_nop
      addr_absx
  nmos_3x =
      desc (branch_if_set (λ c. c.flagn)) 2
      ∷ desc (λ c. op_and (addr_indy c)) 5
      ∷ desc op_hlt 2
      ∷ desc (λ c. op_rla (addr_indy c)) 8
      ∷ desc addr_zpgx 4
      ∷ desc (λ c. op_and (addr_zpgx c)) 4
      ∷ desc (λ c. op_rol (addr_zpgx c)) 6
      ∷ desc (λ c. op_rla (addr_zpgx c)) 6
      ∷ desc op_sec 2
      ∷ desc (λ c. op_and (addr_absy c)) 4
      ∷ desc op_nop 2
      ∷ desc (λ c. op_rla (addr_absy c)) 7
      ∷ desc addr_absx 4
      ∷ desc (λ c. op_and (addr_absx c)) 4
      ∷ desc (λ c. op_rol (addr_absx c)) 6
      ∷ desc (λ c. op_rla (addr_absx c)) 7
      ∷ []

  unfoldable pub nmos_4x : List (OpcodeDesc M)
  unfolding op_rti addr_indx op_eor op_hlt op_lse addr_zpg op_lsr op_pha addr_imm op_lsra op_alr
      addr_abs op_jmp
  nmos_4x =
      desc op_rti 6
      ∷ desc (λ c. op_eor (addr_indx c)) 6
      ∷ desc op_hlt 2
      ∷ desc (λ c. op_lse (addr_indx c)) 8
      ∷ desc addr_zpg 3
      ∷ desc (λ c. op_eor (addr_zpg c)) 3
      ∷ desc (λ c. op_lsr (addr_zpg c)) 5
      ∷ desc (λ c. op_lse (addr_zpg c)) 5
      ∷ desc op_pha 3
      ∷ desc (λ c. op_eor (addr_imm c)) 2
      ∷ desc op_lsra 2
      ∷ desc (λ c. op_alr (addr_imm c)) 2
      ∷ desc (λ c. op_jmp (addr_abs c)) 3
      ∷ desc (λ c. op_eor (addr_abs c)) 4
      ∷ desc (λ c. op_lsr (addr_abs c)) 6
      ∷ desc (λ c. op_lse (addr_abs c)) 6
      ∷ []

  unfoldable pub nmos_5x : List (OpcodeDesc M)
  unfolding branch_if_clear addr_indy op_eor op_hlt op_lse addr_zpgx op_lsr op_cli addr_absy op_nop
      addr_absx
  nmos_5x =
      desc (branch_if_clear (λ c. c.flagv)) 2
      ∷ desc (λ c. op_eor (addr_indy c)) 5
      ∷ desc op_hlt 2
      ∷ desc (λ c. op_lse (addr_indy c)) 8
      ∷ desc addr_zpgx 4
      ∷ desc (λ c. op_eor (addr_zpgx c)) 4
      ∷ desc (λ c. op_lsr (addr_zpgx c)) 6
      ∷ desc (λ c. op_lse (addr_zpgx c)) 6
      ∷ desc op_cli 2
      ∷ desc (λ c. op_eor (addr_absy c)) 4
      ∷ desc op_nop 2
      ∷ desc (λ c. op_lse (addr_absy c)) 7
      ∷ desc addr_absx 4
      ∷ desc (λ c. op_eor (addr_absx c)) 4
      ∷ desc (λ c. op_lsr (addr_absx c)) 6
      ∷ desc (λ c. op_lse (addr_absx c)) 7
      ∷ []

  unfoldable pub nmos_6x : List (OpcodeDesc M)
  unfolding op_rts addr_indx op_adc_nmos op_hlt op_rra addr_zpg op_ror op_pla addr_imm op_rora
      op_arr addr_iabs_nmos op_jmp addr_abs
  nmos_6x =
      desc op_rts 6
      ∷ desc (λ c. op_adc_nmos (addr_indx c)) 6
      ∷ desc op_hlt 2
      ∷ desc (λ c. op_rra (addr_indx c)) 8
      ∷ desc addr_zpg 3
      ∷ desc (λ c. op_adc_nmos (addr_zpg c)) 3
      ∷ desc (λ c. op_ror (addr_zpg c)) 5
      ∷ desc (λ c. op_rra (addr_zpg c)) 5
      ∷ desc op_pla 4
      ∷ desc (λ c. op_adc_nmos (addr_imm c)) 2
      ∷ desc op_rora 2
      ∷ desc (λ c. op_arr (addr_imm c)) 2
      ∷ desc (λ c. op_jmp (addr_iabs_nmos c)) 6
      ∷ desc (λ c. op_adc_nmos (addr_abs c)) 4
      ∷ desc (λ c. op_ror (addr_abs c)) 6
      ∷ desc (λ c. op_rra (addr_abs c)) 6
      ∷ []

  unfoldable pub nmos_7x : List (OpcodeDesc M)
  unfolding branch_if_set addr_indy op_adc_nmos op_hlt op_rra addr_zpgx op_ror op_sei addr_absy
      op_nop addr_absx
  nmos_7x =
      desc (branch_if_set (λ c. c.flagv)) 2
      ∷ desc (λ c. op_adc_nmos (addr_indy c)) 5
      ∷ desc op_hlt 2
      ∷ desc (λ c. op_rra (addr_indy c)) 8
      ∷ desc addr_zpgx 4
      ∷ desc (λ c. op_adc_nmos (addr_zpgx c)) 4
      ∷ desc (λ c. op_ror (addr_zpgx c)) 6
      ∷ desc (λ c. op_rra (addr_zpgx c)) 6
      ∷ desc op_sei 2
      ∷ desc (λ c. op_adc_nmos (addr_absy c)) 4
      ∷ desc op_nop 2
      ∷ desc (λ c. op_rra (addr_absy c)) 7
      ∷ desc addr_absx 4
      ∷ desc (λ c. op_adc_nmos (addr_absx c)) 4
      ∷ desc (λ c. op_ror (addr_absx c)) 6
      ∷ desc (λ c. op_rra (addr_absx c)) 7
      ∷ []
