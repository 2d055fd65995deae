-- ===== src/Cpu/Opcodes/NmosHigh.antt =====
-- Rows 8x to Fx of `opcodes_nmos`.
use linapple.Common.{List, ◌∷◌, []}
use linapple.Cpu.{Bus}
use linapple.Cpu.Opcodes.{OpcodeDesc, desc, branch_if_set, branch_if_clear}
use linapple.Cpu.Addressing.{
  addr_abs, addr_absx, addr_absy, addr_imm, addr_indx, addr_indy, addr_zpg, addr_zpgx, addr_zpgy,
}
use linapple.Cpu.Operations.{
  op_cld, op_clv, op_cmp, op_cpx, op_cpy, op_dec, op_dex, op_dey, op_hlt, op_inc, op_inx, op_iny,
  op_lda, op_ldx, op_ldy, op_nop, op_sed, op_sta, op_stx, op_sty, op_tax, op_tay, op_tsx, op_txa,
  op_txs, op_tya,
}
use linapple.Cpu.Arithmetic.{op_sbc_nmos}
use linapple.Cpu.Unofficial.{
  op_axa, op_axs, op_dcm, op_ins, op_las, op_lax, op_oal, op_sax, op_say, op_tas, op_xaa, op_xas,
}

module _ {M : Type 0} ⦃bus : Bus M⦄ where
  unfoldable pub nmos_8x : List (OpcodeDesc M)
  unfolding addr_imm addr_indx op_sta op_axs addr_zpg op_sty op_stx op_dey op_txa op_xaa addr_abs
  nmos_8x =
      desc addr_imm 2
      ∷ desc (λ c. op_sta (addr_indx c)) 6
      ∷ desc addr_imm 2
      ∷ desc (λ c. op_axs (addr_indx c)) 6
      ∷ desc (λ c. op_sty (addr_zpg c)) 3
      ∷ desc (λ c. op_sta (addr_zpg c)) 3
      ∷ desc (λ c. op_stx (addr_zpg c)) 3
      ∷ desc (λ c. op_axs (addr_zpg c)) 3
      ∷ desc op_dey 2
      ∷ desc addr_imm 2
      ∷ desc op_txa 2
      ∷ desc (λ c. op_xaa (addr_imm c)) 2
      ∷ desc (λ c. op_sty (addr_abs c)) 4
      ∷ desc (λ c. op_sta (addr_abs c)) 4
      ∷ desc (λ c. op_stx (addr_abs c)) 4
      ∷ desc (λ c. op_axs (addr_abs c)) 4
      ∷ []

  unfoldable pub nmos_9x : List (OpcodeDesc M)
  unfolding branch_if_clear addr_indy op_sta op_hlt op_axa addr_zpgx op_sty addr_zpgy op_stx op_axs
      op_tya addr_absy op_txs op_tas addr_absx op_say op_xas
  nmos_9x =
      desc (branch_if_clear (λ c. c.flagc)) 2
      ∷ desc (λ c. op_sta (addr_indy c)) 6
      ∷ desc op_hlt 2
      ∷ desc (λ c. op_axa (addr_indy c)) 6
      ∷ desc (λ c. op_sty (addr_zpgx c)) 4
      ∷ desc (λ c. op_sta (addr_zpgx c)) 4
      ∷ desc (λ c. op_stx (addr_zpgy c)) 4
      ∷ desc (λ c. op_axs (addr_zpgy c)) 4
      ∷ desc op_tya 2
      ∷ desc (λ c. op_sta (addr_absy c)) 5
      ∷ desc op_txs 2
      ∷ desc (λ c. op_tas (addr_absy c)) 5
      ∷ desc (λ c. op_say (addr_absx c)) 5
      ∷ desc (λ c. op_sta (addr_absx c)) 5
      ∷ desc (λ c. op_xas (addr_absy c)) 5
      ∷ desc (λ c. op_axa (addr_absy c)) 5
      ∷ []

  unfoldable pub nmos_ax : List (OpcodeDesc M)
  unfolding addr_imm op_ldy addr_indx op_lda op_ldx op_lax addr_zpg op_tay op_tax op_oal addr_abs
  nmos_ax =
      desc (λ c. op_ldy (addr_imm c)) 2
      ∷ desc (λ c. op_lda (addr_indx c)) 6
      ∷ desc (λ c. op_ldx (addr_imm c)) 2
      ∷ desc (λ c. op_lax (addr_indx c)) 6
      ∷ desc (λ c. op_ldy (addr_zpg c)) 3
      ∷ desc (λ c. op_lda (addr_zpg c)) 3
      ∷ desc (λ c. op_ldx (addr_zpg c)) 3
      ∷ desc (λ c. op_lax (addr_zpg c)) 3
      ∷ desc op_tay 2
      ∷ desc (λ c. op_lda (addr_imm c)) 2
      ∷ desc op_tax 2
      ∷ desc (λ c. op_oal (addr_imm c)) 2
      ∷ desc (λ c. op_ldy (addr_abs c)) 4
      ∷ desc (λ c. op_lda (addr_abs c)) 4
      ∷ desc (λ c. op_ldx (addr_abs c)) 4
      ∷ desc (λ c. op_lax (addr_abs c)) 4
      ∷ []

  unfoldable pub nmos_bx : List (OpcodeDesc M)
  unfolding branch_if_set addr_indy op_lda op_hlt op_lax addr_zpgx op_ldy addr_zpgy op_ldx op_clv
      addr_absy op_tsx op_las addr_absx
  nmos_bx =
      desc (branch_if_set (λ c. c.flagc)) 2
      ∷ desc (λ c. op_lda (addr_indy c)) 5
      ∷ desc op_hlt 2
      ∷ desc (λ c. op_lax (addr_indy c)) 5
      ∷ desc (λ c. op_ldy (addr_zpgx c)) 4
      ∷ desc (λ c. op_lda (addr_zpgx c)) 4
      ∷ desc (λ c. op_ldx (addr_zpgy c)) 4
      ∷ desc (λ c. op_lax (addr_zpgy c)) 4
      ∷ desc op_clv 2
      ∷ desc (λ c. op_lda (addr_absy c)) 4
      ∷ desc op_tsx 2
      ∷ desc (λ c. op_las (addr_absy c)) 4
      ∷ desc (λ c. op_ldy (addr_absx c)) 4
      ∷ desc (λ c. op_lda (addr_absx c)) 4
      ∷ desc (λ c. op_ldx (addr_absy c)) 4
      ∷ desc (λ c. op_lax (addr_absy c)) 4
      ∷ []

  unfoldable pub nmos_cx : List (OpcodeDesc M)
  unfolding addr_imm op_cpy addr_indx op_cmp op_dcm addr_zpg op_dec op_iny op_dex op_sax addr_abs
  nmos_cx =
      desc (λ c. op_cpy (addr_imm c)) 2
      ∷ desc (λ c. op_cmp (addr_indx c)) 6
      ∷ desc addr_imm 2
      ∷ desc (λ c. op_dcm (addr_indx c)) 8
      ∷ desc (λ c. op_cpy (addr_zpg c)) 3
      ∷ desc (λ c. op_cmp (addr_zpg c)) 3
      ∷ desc (λ c. op_dec (addr_zpg c)) 5
      ∷ desc (λ c. op_dcm (addr_zpg c)) 5
      ∷ desc op_iny 2
      ∷ desc (λ c. op_cmp (addr_imm c)) 2
      ∷ desc op_dex 2
      ∷ desc (λ c. op_sax (addr_imm c)) 2
      ∷ desc (λ c. op_cpy (addr_abs c)) 4
      ∷ desc (λ c. op_cmp (addr_abs c)) 4
      ∷ desc (λ c. op_dec (addr_abs c)) 5
      ∷ desc (λ c. op_dcm (addr_abs c)) 6
      ∷ []

  unfoldable pub nmos_dx : List (OpcodeDesc M)
  unfolding branch_if_clear addr_indy op_cmp op_hlt op_dcm addr_zpgx op_dec op_cld addr_absy op_nop
      addr_absx
  nmos_dx =
      desc (branch_if_clear (λ c. c.flagz)) 2
      ∷ desc (λ c. op_cmp (addr_indy c)) 5
      ∷ desc op_hlt 2
      ∷ desc (λ c. op_dcm (addr_indy c)) 8
      ∷ desc addr_zpgx 4
      ∷ desc (λ c. op_cmp (addr_zpgx c)) 4
      ∷ desc (λ c. op_dec (addr_zpgx c)) 6
      ∷ desc (λ c. op_dcm (addr_zpgx c)) 6
      ∷ desc op_cld 2
      ∷ desc (λ c. op_cmp (addr_absy c)) 4
      ∷ desc op_nop 2
      ∷ desc (λ c. op_dcm (addr_absy c)) 7
      ∷ desc addr_absx 4
      ∷ desc (λ c. op_cmp (addr_absx c)) 4
      ∷ desc (λ c. op_dec (addr_absx c)) 6
      ∷ desc (λ c. op_dcm (addr_absx c)) 7
      ∷ []

  unfoldable pub nmos_ex : List (OpcodeDesc M)
  unfolding addr_imm op_cpx addr_indx op_sbc_nmos op_ins addr_zpg op_inc op_inx op_nop addr_abs
  nmos_ex =
      desc (λ c. op_cpx (addr_imm c)) 2
      ∷ desc (λ c. op_sbc_nmos (addr_indx c)) 6
      ∷ desc addr_imm 2
      ∷ desc (λ c. op_ins (addr_indx c)) 8
      ∷ desc (λ c. op_cpx (addr_zpg c)) 3
      ∷ desc (λ c. op_sbc_nmos (addr_zpg c)) 3
      ∷ desc (λ c. op_inc (addr_zpg c)) 5
      ∷ desc (λ c. op_ins (addr_zpg c)) 5
      ∷ desc op_inx 2
      ∷ desc (λ c. op_sbc_nmos (addr_imm c)) 2
      ∷ desc op_nop 2
      ∷ desc (λ c. op_sbc_nmos (addr_imm c)) 2
      ∷ desc (λ c. op_cpx (addr_abs c)) 4
      ∷ desc (λ c. op_sbc_nmos (addr_abs c)) 4
      ∷ desc (λ c. op_inc (addr_abs c)) 6
      ∷ desc (λ c. op_ins (addr_abs c)) 6
      ∷ []

  unfoldable pub nmos_fx : List (OpcodeDesc M)
  unfolding branch_if_set addr_indy op_sbc_nmos op_hlt op_ins addr_zpgx op_inc op_sed addr_absy
      op_nop addr_absx
  nmos_fx =
      desc (branch_if_set (λ c. c.flagz)) 2
      ∷ desc (λ c. op_sbc_nmos (addr_indy c)) 5
      ∷ desc op_hlt 2
      ∷ desc (λ c. op_ins (addr_indy c)) 8
      ∷ desc addr_zpgx 4
      ∷ desc (λ c. op_sbc_nmos (addr_zpgx c)) 4
      ∷ desc (λ c. op_inc (addr_zpgx c)) 6
      ∷ desc (λ c. op_ins (addr_zpgx c)) 6
      ∷ desc op_sed 2
      ∷ desc (λ c. op_sbc_nmos (addr_absy c)) 4
      ∷ desc op_nop 2
      ∷ desc (λ c. op_ins (addr_absy c)) 7
      ∷ desc addr_absx 4
      ∷ desc (λ c. op_sbc_nmos (addr_absx c)) 4
      ∷ desc (λ c. op_inc (addr_absx c)) 6
      ∷ desc (λ c. op_ins (addr_absx c)) 7
      ∷ []
