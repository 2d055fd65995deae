-- ===== src/Cpu/Execute/Calm/Cmos.antt =====
-- The entries of `opcodes_cmos`, row by row.
use linapple.Common.{All}
use linapple.Cpu.{
  Bus, push, pop, set_nz, set_z, pack_ps, unpack_ps, check_page_change, branch_taken,
}
use linapple.Cpu.Opcodes.CmosLow.{
  cmos_0x, cmos_1x, cmos_2x, cmos_3x, cmos_4x, cmos_5x, cmos_6x, cmos_7x,
}
use linapple.Cpu.Opcodes.CmosHigh.{
  cmos_8x, cmos_9x, cmos_ax, cmos_bx, cmos_cx, cmos_dx, cmos_ex, cmos_fx,
}
use linapple.Cpu.Execute.{opcodes_cmos}
use linapple.Cpu.Execute.Calm.{Lowers, IsCalm, calm}

module _ {M : Type 0} ⦃bus : Bus M⦄ (l : Lowers bus) where
  cmos_0x-IsCalm : All IsCalm (cmos_0x {M = M})
  unfolding cmos_0x push pop pack_ps unpack_ps set_nz set_z check_page_change
  cmos_0x-IsCalm = grind calm

  cmos_1x-IsCalm : All IsCalm (cmos_1x {M = M})
  unfolding cmos_1x push pop pack_ps unpack_ps set_nz set_z check_page_change
  cmos_1x-IsCalm = grind calm

  cmos_2x-IsCalm : All IsCalm (cmos_2x {M = M})
  unfolding cmos_2x push pop pack_ps unpack_ps set_nz set_z check_page_change
  cmos_2x-IsCalm = grind calm

  cmos_3x-IsCalm : All IsCalm (cmos_3x {M = M})
  unfolding cmos_3x push pop pack_ps unpack_ps set_nz set_z check_page_change
  cmos_3x-IsCalm = grind calm

  cmos_4x-IsCalm : All IsCalm (cmos_4x {M = M})
  unfolding cmos_4x push pop pack_ps unpack_ps set_nz set_z check_page_change
  cmos_4x-IsCalm = grind calm

  cmos_5x-IsCalm : All IsCalm (cmos_5x {M = M})
  unfolding cmos_5x push pop pack_ps unpack_ps set_nz set_z check_page_change
  cmos_5x-IsCalm = grind calm

  cmos_6x-IsCalm : All IsCalm (cmos_6x {M = M})
  unfolding cmos_6x push pop pack_ps unpack_ps set_nz set_z check_page_change
  cmos_6x-IsCalm = grind calm

  cmos_7x-IsCalm : All IsCalm (cmos_7x {M = M})
  unfolding cmos_7x push pop pack_ps unpack_ps set_nz set_z check_page_change
  cmos_7x-IsCalm = grind calm

  cmos_8x-IsCalm : All IsCalm (cmos_8x {M = M})
  unfolding cmos_8x branch_taken push pop pack_ps unpack_ps set_nz set_z check_page_change
  cmos_8x-IsCalm = grind calm

  cmos_9x-IsCalm : All IsCalm (cmos_9x {M = M})
  unfolding cmos_9x push pop pack_ps unpack_ps set_nz set_z check_page_change
  cmos_9x-IsCalm = grind calm

  cmos_ax-IsCalm : All IsCalm (cmos_ax {M = M})
  unfolding cmos_ax push pop pack_ps unpack_ps set_nz set_z check_page_change
  cmos_ax-IsCalm = grind calm

  cmos_bx-IsCalm : All IsCalm (cmos_bx {M = M})
  unfolding cmos_bx push pop pack_ps unpack_ps set_nz set_z check_page_change
  cmos_bx-IsCalm = grind calm

  cmos_cx-IsCalm : All IsCalm (cmos_cx {M = M})
  unfolding cmos_cx push pop pack_ps unpack_ps set_nz set_z check_page_change
  cmos_cx-IsCalm = grind calm

  cmos_dx-IsCalm : All IsCalm (cmos_dx {M = M})
  unfolding cmos_dx push pop pack_ps unpack_ps set_nz set_z check_page_change
  cmos_dx-IsCalm = grind calm

  cmos_ex-IsCalm : All IsCalm (cmos_ex {M = M})
  unfolding cmos_ex push pop pack_ps unpack_ps set_nz set_z check_page_change
  cmos_ex-IsCalm = grind calm

  cmos_fx-IsCalm : All IsCalm (cmos_fx {M = M})
  unfolding cmos_fx push pop pack_ps unpack_ps set_nz set_z check_page_change
  cmos_fx-IsCalm = grind calm

  pub opcodes_cmos-IsCalm : All (All IsCalm) (opcodes_cmos {M = M})
  unfolding opcodes_cmos
  opcodes_cmos-IsCalm = (
    cmos_0x-IsCalm,
    (
      cmos_1x-IsCalm,
      (
        cmos_2x-IsCalm,
        (
          cmos_3x-IsCalm,
          (
            cmos_4x-IsCalm,
            (
              cmos_5x-IsCalm,
              (
                cmos_6x-IsCalm,
                (
                  cmos_7x-IsCalm,
                  (
                    cmos_8x-IsCalm,
                    (
                      cmos_9x-IsCalm,
                      (
                        cmos_ax-IsCalm,
                        (
                          cmos_bx-IsCalm,
                          (
                            cmos_cx-IsCalm,
                            (cmos_dx-IsCalm, (cmos_ex-IsCalm, (cmos_fx-IsCalm, tt))),
                          ),
                        ),
                      ),
                    ),
                  ),
                ),
              ),
            ),
          ),
        ),
      ),
    ),
  )
