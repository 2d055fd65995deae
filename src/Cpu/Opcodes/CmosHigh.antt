-- ===== src/Cpu/Opcodes/CmosHigh.antt =====
-- Rows 8x to Fx of `opcodes_cmos`.
use linapple.Common.{List, ◌∷◌, []}
use linapple.Cpu.{Bus, branch_taken}
use linapple.Cpu.Opcodes.{OpcodeDesc, desc, branch_if_set, branch_if_clear}
use linapple.Cpu.Addressing.{
  addr_abs, addr_absx, addr_absy, addr_imm, addr_indx, addr_indy, addr_izpg, addr_rel, addr_zpg,
  addr_zpgx, addr_zpgy,
}
use linapple.Cpu.Operations.{
  op_biti, op_cld, op_clv, op_cmp, op_cpx, op_cpy, op_dec, op_dex, op_dey, op_inc, op_inx, op_iny,
  op_lda, op_ldx, op_ldy, op_nop, op_sed, op_sta, op_stx, op_sty, op_stz, op_tax, op_tay, op_tsx,
  op_txa, op_txs, op_tya,
}
use linapple.Cpu.Stack.{op_phx, op_plx}
use linapple.Cpu.Arithmetic.{op_sbc_cmos}

module _ {M : Type 0} ⦃bus : Bus M⦄ where
  unfoldable pub cmos_8x : List (OpcodeDesc M)
  unfolding addr_rel addr_indx op_sta addr_imm op_nop addr_zpg op_sty op_stx op_dey op_biti op_txa
      addr_abs
  cmos_8x =
      desc (λ c. branch_taken (addr_rel c)) 2
      ∷ desc (λ c. op_sta (addr_indx c)) 6
      ∷ desc addr_imm 2
      ∷ desc op_nop 2
      ∷ desc (λ c. op_sty (addr_zpg c)) 3
      ∷ desc (λ c. op_sta (addr_zpg c)) 3
      ∷ desc (λ c. op_stx (addr_zpg c)) 3
      ∷ desc op_nop 2
      ∷ desc op_dey 2
      ∷ desc (λ c. op_biti (addr_imm c)) 2
      ∷ desc op_txa 2
      ∷ desc op_nop 2
      ∷ desc (λ c. op_sty (addr_abs c)) 4
      ∷ desc (λ c. op_sta (addr_abs c)) 4
      ∷ desc (λ c. op_stx (addr_abs c)) 4
      ∷ desc op_nop 2
      ∷ []

  unfoldable pub cmos_9x : List (OpcodeDesc M)
  unfolding branch_if_clear addr_indy op_sta addr_izpg op_nop addr_zpgx op_sty addr_zpgy op_stx
      op_tya addr_absy op_txs addr_abs op_stz addr_absx
  cmos_9x =
      desc (branch_if_clear (λ c. c.flagc)) 2
      ∷ desc (λ c. op_sta (addr_indy c)) 6
      ∷ desc (λ c. op_sta (addr_izpg c)) 5
      ∷ desc op_nop 2
      ∷ desc (λ c. op_sty (addr_zpgx c)) 4
      ∷ desc (λ c. op_sta (addr_zpgx c)) 4
      ∷ desc (λ c. op_stx (addr_zpgy c)) 4
      ∷ desc op_nop 2
      ∷ desc op_tya 2
      ∷ desc (λ c. op_sta (addr_absy c)) 5
      ∷ desc op_txs 2
      ∷ desc op_nop 2
      ∷ desc (λ c. op_stz (addr_abs c)) 4
      ∷ desc (λ c. op_sta (addr_absx c)) 5
      ∷ desc (λ c. op_stz (addr_absx c)) 5
      ∷ desc op_nop 2
      ∷ []

  unfoldable pub cmos_ax : List (OpcodeDesc M)
  unfolding addr_imm op_ldy addr_indx op_lda op_ldx op_nop addr_zpg op_tay op_tax addr_abs
  cmos_ax =
      desc (λ c. op_ldy (addr_imm c)) 2
      ∷ desc (λ c. op_lda (addr_indx c)) 6
      ∷ desc (λ c. op_ldx (addr_imm c)) 2
      ∷ desc op_nop 2
      ∷ desc (λ c. op_ldy (addr_zpg c)) 3
      ∷ desc (λ c. op_lda (addr_zpg c)) 3
      ∷ desc (λ c. op_ldx (addr_zpg c)) 3
      ∷ desc op_nop 2
      ∷ desc op_tay 2
      ∷ desc (λ c. op_lda (addr_imm c)) 2
      ∷ desc op_tax 2
      ∷ desc op_nop 2
      ∷ desc (λ c. op_ldy (addr_abs c)) 4
      ∷ desc (λ c. op_lda (addr_abs c)) 4
      ∷ desc (λ c. op_ldx (addr_abs c)) 4
      ∷ desc op_nop 2
      ∷ []

  unfoldable pub cmos_bx : List (OpcodeDesc M)
  unfolding branch_if_set addr_indy op_lda addr_izpg op_nop addr_zpgx op_ldy addr_zpgy op_ldx op_clv
      addr_absy op_tsx addr_absx
  cmos_bx =
      desc (branch_if_set (λ c. c.flagc)) 2
      ∷ desc (λ c. op_lda (addr_indy c)) 5
      ∷ desc (λ c. op_lda (addr_izpg c)) 5
      ∷ desc op_nop 2
      ∷ desc (λ c. op_ldy (addr_zpgx c)) 4
      ∷ desc (λ c. op_lda (addr_zpgx c)) 4
      ∷ desc (λ c. op_ldx (addr_zpgy c)) 4
      ∷ desc op_nop 2
      ∷ desc op_clv 2
      ∷ desc (λ c. op_lda (addr_absy c)) 4
      ∷ desc op_tsx 2
      ∷ desc op_nop 2
      ∷ desc (λ c. op_ldy (addr_absx c)) 4
      ∷ desc (λ c. op_lda (addr_absx c)) 4
      ∷ desc (λ c. op_ldx (addr_absy c)) 4
      ∷ desc op_nop 2
      ∷ []

  unfoldable pub cmos_cx : List (OpcodeDesc M)
  unfolding addr_imm op_cpy addr_indx op_cmp op_nop addr_zpg op_dec op_iny op_dex addr_abs
  cmos_cx =
      desc (λ c. op_cpy (addr_imm c)) 2
      ∷ desc (λ c. op_cmp (addr_indx c)) 6
      ∷ desc addr_imm 2
      ∷ desc op_nop 2
      ∷ desc (λ c. op_cpy (addr_zpg c)) 3
      ∷ desc (λ c. op_cmp (addr_zpg c)) 3
      ∷ desc (λ c. op_dec (addr_zpg c)) 5
      ∷ desc op_nop 2
      ∷ desc op_iny 2
      ∷ desc (λ c. op_cmp (addr_imm c)) 2
      ∷ desc op_dex 2
      ∷ desc op_nop 2
      ∷ desc (λ c. op_cpy (addr_abs c)) 4
      ∷ desc (λ c. op_cmp (addr_abs c)) 4
      ∷ desc (λ c. op_dec (addr_abs c)) 5
      ∷ desc op_nop 2
      ∷ []

  unfoldable pub cmos_dx : List (OpcodeDesc M)
  unfolding branch_if_clear addr_indy op_cmp addr_izpg op_nop addr_zpgx op_dec op_cld addr_absy
      op_phx addr_absx
  cmos_dx =
      desc (branch_if_clear (λ c. c.flagz)) 2
      ∷ desc (λ c. op_cmp (addr_indy c)) 5
      ∷ desc (λ c. op_cmp (addr_izpg c)) 5
      ∷ desc op_nop 2
      ∷ desc addr_zpgx 4
      ∷ desc (λ c. op_cmp (addr_zpgx c)) 4
      ∷ desc (λ c. op_dec (addr_zpgx c)) 6
      ∷ desc op_nop 2
      ∷ desc op_cld 2
      ∷ desc (λ c. op_cmp (addr_absy c)) 4
      ∷ desc op_phx 3
      ∷ desc op_nop 2
      ∷ desc addr_absx 4
      ∷ desc (λ c. op_cmp (addr_absx c)) 4
      ∷ desc (λ c. op_dec (addr_absx c)) 6
      ∷ desc op_nop 2
      ∷ []

  unfoldable pub cmos_ex : List (OpcodeDesc M)
  unfolding addr_imm op_cpx addr_indx op_sbc_cmos op_nop addr_zpg op_inc op_inx addr_abs
  cmos_ex =
      desc (λ c. op_cpx (addr_imm c)) 2
      ∷ desc (λ c. op_sbc_cmos (addr_indx c)) 6
      ∷ desc addr_imm 2
      ∷ desc op_nop 2
      ∷ desc (λ c. op_cpx (addr_zpg c)) 3
      ∷ desc (λ c. op_sbc_cmos (addr_zpg c)) 3
      ∷ desc (λ c. op_inc (addr_zpg c)) 5
      ∷ desc op_nop 2
      ∷ desc op_inx 2
      ∷ desc (λ c. op_sbc_cmos (addr_imm c)) 2
      ∷ desc op_nop 2
      ∷ desc op_nop 2
      ∷ desc (λ c. op_cpx (addr_abs c)) 4
      ∷ desc (λ c. op_sbc_cmos (addr_abs c)) 4
      ∷ desc (λ c. op_inc (addr_abs c)) 6
      ∷ desc op_nop 2
      ∷ []

  unfoldable pub cmos_fx : List (OpcodeDesc M)
  unfolding branch_if_set addr_indy op_sbc_cmos addr_izpg op_nop addr_zpgx op_inc op_sed addr_absy
      op_plx addr_absx
  cmos_fx =
      desc (branch_if_set (λ c. c.flagz)) 2
      ∷ desc (λ c. op_sbc_cmos (addr_indy c)) 5
      ∷ desc (λ c. op_sbc_cmos (addr_izpg c)) 5
      ∷ desc op_nop 2
      ∷ desc addr_zpgx 4
      ∷ desc (λ c. op_sbc_cmos (addr_zpgx c)) 4
      ∷ desc (λ c. op_inc (addr_zpgx c)) 6
      ∷ desc op_nop 2
      ∷ desc op_sed 2
      ∷ desc (λ c. op_sbc_cmos (addr_absy c)) 4
      ∷ desc op_plx 4
      ∷ desc op_nop 2
      ∷ desc addr_absx 4
      ∷ desc (λ c. op_sbc_cmos (addr_absx c)) 4
      ∷ desc (λ c. op_inc (addr_absx c)) 6
      ∷ desc op_nop 2
      ∷ []
