-- ===== src/Cpu/Execute/Calm/Nmos.antt =====
-- The entries of `opcodes_nmos`, row by row.
use linapple.Common.{All}
use linapple.Cpu.{Bus, push, pop, set_nz, set_z, pack_ps, unpack_ps, check_page_change}
use linapple.Cpu.Opcodes.NmosLow.{
  nmos_0x, nmos_1x, nmos_2x, nmos_3x, nmos_4x, nmos_5x, nmos_6x, nmos_7x,
}
use linapple.Cpu.Opcodes.NmosHigh.{
  nmos_8x, nmos_9x, nmos_ax, nmos_bx, nmos_cx, nmos_dx, nmos_ex, nmos_fx,
}
use linapple.Cpu.Execute.{opcodes_nmos}
use linapple.Cpu.Execute.Calm.{Lowers, IsCalm, calm}

module _ {M : Type 0} ⦃bus : Bus M⦄ (l : Lowers bus) where
  nmos_0x-IsCalm : All IsCalm (nmos_0x {M = M})
  unfolding nmos_0x push pop pack_ps unpack_ps set_nz set_z check_page_change
  nmos_0x-IsCalm = grind calm

  nmos_1x-IsCalm : All IsCalm (nmos_1x {M = M})
  unfolding nmos_1x push pop pack_ps unpack_ps set_nz set_z check_page_change
  nmos_1x-IsCalm = grind calm

  nmos_2x-IsCalm : All IsCalm (nmos_2x {M = M})
  unfolding nmos_2x push pop pack_ps unpack_ps set_nz set_z check_page_change
  nmos_2x-IsCalm = grind calm

  nmos_3x-IsCalm : All IsCalm (nmos_3x {M = M})
  unfolding nmos_3x push pop pack_ps unpack_ps set_nz set_z check_page_change
  nmos_3x-IsCalm = grind calm

  nmos_4x-IsCalm : All IsCalm (nmos_4x {M = M})
  unfolding nmos_4x push pop pack_ps unpack_ps set_nz set_z check_page_change
  nmos_4x-IsCalm = grind calm

  nmos_5x-IsCalm : All IsCalm (nmos_5x {M = M})
  unfolding nmos_5x push pop pack_ps unpack_ps set_nz set_z check_page_change
  nmos_5x-IsCalm = grind calm

  nmos_6x-IsCalm : All IsCalm (nmos_6x {M = M})
  unfolding nmos_6x push pop pack_ps unpack_ps set_nz set_z check_page_change
  nmos_6x-IsCalm = grind calm

  nmos_7x-IsCalm : All IsCalm (nmos_7x {M = M})
  unfolding nmos_7x push pop pack_ps unpack_ps set_nz set_z check_page_change
  nmos_7x-IsCalm = grind calm

  nmos_8x-IsCalm : All IsCalm (nmos_8x {M = M})
  unfolding nmos_8x push pop pack_ps unpack_ps set_nz set_z check_page_change
  nmos_8x-IsCalm = grind calm

  nmos_9x-IsCalm : All IsCalm (nmos_9x {M = M})
  unfolding nmos_9x push pop pack_ps unpack_ps set_nz set_z check_page_change
  nmos_9x-IsCalm = grind calm

  nmos_ax-IsCalm : All IsCalm (nmos_ax {M = M})
  unfolding nmos_ax push pop pack_ps unpack_ps set_nz set_z check_page_change
  nmos_ax-IsCalm = grind calm

  nmos_bx-IsCalm : All IsCalm (nmos_bx {M = M})
  unfolding nmos_bx push pop pack_ps unpack_ps set_nz set_z check_page_change
  nmos_bx-IsCalm = grind calm

  nmos_cx-IsCalm : All IsCalm (nmos_cx {M = M})
  unfolding nmos_cx push pop pack_ps unpack_ps set_nz set_z check_page_change
  nmos_cx-IsCalm = grind calm

  nmos_dx-IsCalm : All IsCalm (nmos_dx {M = M})
  unfolding nmos_dx push pop pack_ps unpack_ps set_nz set_z check_page_change
  nmos_dx-IsCalm = grind calm

  nmos_ex-IsCalm : All IsCalm (nmos_ex {M = M})
  unfolding nmos_ex push pop pack_ps unpack_ps set_nz set_z check_page_change
  nmos_ex-IsCalm = grind calm

  nmos_fx-IsCalm : All IsCalm (nmos_fx {M = M})
  unfolding nmos_fx push pop pack_ps unpack_ps set_nz set_z check_page_change
  nmos_fx-IsCalm = grind calm

  pub opcodes_nmos-IsCalm : All (All IsCalm) (opcodes_nmos {M = M})
  unfolding opcodes_nmos
  opcodes_nmos-IsCalm = (
    nmos_0x-IsCalm,
    (
      nmos_1x-IsCalm,
      (
        nmos_2x-IsCalm,
        (
          nmos_3x-IsCalm,
          (
            nmos_4x-IsCalm,
            (
              nmos_5x-IsCalm,
              (
                nmos_6x-IsCalm,
                (
                  nmos_7x-IsCalm,
                  (
                    nmos_8x-IsCalm,
                    (
                      nmos_9x-IsCalm,
                      (
                        nmos_ax-IsCalm,
                        (
                          nmos_bx-IsCalm,
                          (
                            nmos_cx-IsCalm,
                            (nmos_dx-IsCalm, (nmos_ex-IsCalm, (nmos_fx-IsCalm, tt))),
                          ),
                        ),
                      ),
                    ),
                  ),
                ),
              ),
            ),
          ),
        ),
      ),
    ),
  )
