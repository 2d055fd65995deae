-- ===== src/Cpu/Unofficial/Pairs.antt =====
-- The undocumented operations that do the work of two documented ones.
use linapple.Common.{ℕ, ◌+◌, ◌/◌, ◌%◌, ◌<◌, bit_and, bit_or}
use linapple.Common.{◌≡◌, refl, sym, ap, ◌∙◌, arith, true, false}
use linapple.Common.{◌==◌, ◌!=◌, if◌then◌else◌, bit_or-lt}
use linapple.Cpu.{Bus, Cpu, byte, minus, flag, set_nz, read_byte, write_byte, in_io_region}
use linapple.Cpu.Operations.{op_ror, op_inc, op_dec, op_cmp, compare_with}
use linapple.Cpu.Arithmetic.{op_adc_nmos, op_sbc_nmos, adc_nmos, sbc_nmos, is_decimal}
use linapple.Cpu.Unofficial.{op_rra, op_dcm, op_ins}

module _ {M : Type 0} ⦃bus : Bus M⦄ where
  -- A cell of memory: outside the I/O page, with a page to write to, it reads back what is written to
  -- it, and holds a byte.
  pub record IsRam (m : M) (addr : ℕ) : Type 0 where
    pub plain : in_io_region addr ≡ false
    pub writable : bus.is_writable (bus.mark_dirty m (addr / 256)) (addr / 256) ≡ true
    pub reads_back : (v : ℕ) → bus.peek (bus.store (bus.mark_dirty m (addr / 256)) addr v) addr ≡ v
    pub is_byte : bus.peek m addr < 256

  -- The machine with `val` written to the cell.
  abbrev stored : M → ℕ → ℕ → M
  stored m addr val = bus.store (bus.mark_dirty m (addr / 256)) addr val

  read-IsRam :
      (c : Cpu M) (addr : ℕ) → IsRam c.mem addr → read_byte c addr ≡ (bus.peek c.mem addr, c)
  unfolding read_byte
  read-IsRam c addr r = rw r.plain refl

  write-IsRam :
      (c : Cpu M) (addr val : ℕ)
      → IsRam c.mem addr
      → write_byte c addr val ≡ record c { mem = stored c.mem addr val }
  unfolding write_byte
  write-IsRam c addr val r = rw r.writable refl

  reread :
      (c : Cpu M) (m : M) (addr val : ℕ)
      → IsRam m addr
      → read_byte (record c { mem = stored m addr val }) addr
        ≡ (val, record c { mem = stored m addr val })
  unfolding read_byte
  reread c m addr val r = rw r.plain (rw (r.reads_back val) refl)

  -- What the second of two operations reads.
  rewritten :
      (c : Cpu M) (val : ℕ)
      → IsRam c.mem c.addr
      → read_byte (write_byte c c.addr val) (write_byte c c.addr val).addr
        ≡ (val, record c { mem = stored c.mem c.addr val })
  rewritten c val r =
      ap (λ d. read_byte d d.addr) (write-IsRam c c.addr val r) ∙ reread c c.mem c.addr val r

  -- Neither ADC nor SBC reads the sign and the zero flag.
  adc_nmos-flags :
      (c : Cpu M) (temp n z : ℕ)
      → adc_nmos (record c { flagn = n; flagz = z }) temp ≡ adc_nmos c temp
  unfolding adc_nmos is_decimal set_nz
  adc_nmos-flags c temp n z = refl

  sbc_nmos-flags :
      (c : Cpu M) (temp n z : ℕ)
      → sbc_nmos (record c { flagn = n; flagz = z }) temp ≡ sbc_nmos c temp
  unfolding sbc_nmos is_decimal set_nz
  sbc_nmos-flags c temp n z = refl

  -- On a cell of memory, RRA is ROR and then ADC.
  pub op_rra-pair : (c : Cpu M) → IsRam c.mem c.addr → op_rra c ≡ op_adc_nmos (op_ror c)
  unfolding op_rra op_adc_nmos op_ror set_nz
  op_rra-pair c r =
      let temp = bus.peek c.mem c.addr in
      let high = if c.flagc != 0 then 0x80 else 0 in
      let val = bit_or (temp / 2) high in
      let fits : val % 256 ≡ val =
        omega (
          arith,
          r.is_byte,
          bit_or-lt 8 (temp / 2) high (omega (arith, r.is_byte)) (ground arith),
        ) in
      let w = record c { flagc = bit_and temp 1 } in
      let z = flag (bit_and val 0xff == 0) in
      let e = record w { mem = stored c.mem c.addr (byte val) } in
      rw (read-IsRam c c.addr r) (
        rw (write-IsRam w c.addr (byte val) r) (
          rw (rewritten (set_nz w val) (byte val) r)
            (sym (adc_nmos-flags e (byte val) (bit_and val 0x80) z ∙ ap (adc_nmos e) fits))))

  -- On a cell of memory that does not hold 0xFF, INS is INC and then SBC.
  pub op_ins-pair :
      (c : Cpu M)
      → IsRam c.mem c.addr
      → bus.peek c.mem c.addr < 255
      → op_ins c ≡ op_sbc_nmos (op_inc c)
  unfolding op_ins op_sbc_nmos op_inc set_nz
  op_ins-pair c r small =
      let val = bus.peek c.mem c.addr + 1 in
      let z = flag (bit_and val 0xff == 0) in
      let e = record c { mem = stored c.mem c.addr (byte val) } in
      rw (read-IsRam c c.addr r) (
        rw (write-IsRam c c.addr (byte val) r) (
          rw (rewritten (set_nz c val) (byte val) r) (
            sym (
              sbc_nmos-flags e (byte val) (bit_and val 0x80) z
              ∙ ap (sbc_nmos e) (omega (arith, small))))))

  -- On a cell of memory that does not hold 0, DCM is DEC and then CMP.
  pub op_dcm-pair :
      (c : Cpu M) → IsRam c.mem c.addr → 0 < bus.peek c.mem c.addr → op_dcm c ≡ op_cmp (op_dec c)
  unfolding op_dcm op_cmp op_dec set_nz compare_with
  op_dcm-pair c r positive =
      let val = minus (bus.peek c.mem c.addr) 1 in
      let e = record c { mem = stored c.mem c.addr (byte val) } in
      rw (read-IsRam c c.addr r) (
        rw (write-IsRam c c.addr (byte val) r) (
          rw (rewritten (set_nz c val) (byte val) r)
            (ap (compare_with e c.a) (omega (arith, positive, r.is_byte)))))
