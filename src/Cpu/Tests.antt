-- ===== src/Cpu/Tests.antt =====
-- Runs of the processor on a flat memory, and the theorems at inputs that meet their hypotheses.
use linapple.Common.{ℕ, ◌-◌, ◌/◌, ◌%◌, ◌≡◌, ◌≢◌, refl, arith}
use linapple.Common.{true, false, ltb, ◌==◌, ◌!=◌, if◌then◌else◌, List, [], ◌∷◌, get_or}
use linapple.Cpu.{Bus, Cpu, Counters, push, pop, set_nz, read_u16, write_byte}
use linapple.Cpu.Arithmetic.{adc_nmos, adc_cmos, sbc_nmos, sbc_cmos, op_sbc_nmos, is_decimal}
use linapple.Cpu.Arithmetic.Binary.{IsSum}
use linapple.Cpu.Arithmetic.Both.{IsPackedSum, IsPackedDifference, binary-IsSum, decimal-bcd}
use linapple.Cpu.Operations.{op_inc, op_dec, op_cmp}
use linapple.Cpu.Stack.{op_jsr, op_rts}
use linapple.Cpu.Stack.RoundTrip.{op_rts-op_jsr}
use linapple.Cpu.Unofficial.{op_ins, op_dcm}
use linapple.Cpu.Unofficial.Pairs.{IsRam, op_ins-pair, op_dcm-pair}
use linapple.Cpu.Execute.{cpu_execute, cpu_execute_slice, cpu_reset, cpu_begin_frame}
use linapple.Cpu.Execute.{cpu_irq_reset, cpu_irq_assert, cpu_irq_deassert}
use linapple.Cpu.Execute.{cpu_nmi_reset, cpu_nmi_assert, cpu_nmi_deassert}
use linapple.Cpu.Execute.Calm.{Lowers}
use linapple.Cpu.Execute.Ends.{Ended, cpu_execute-Ended}

-- Memory without banks, ROM or peripherals.
abbrev write_cell : (ℕ → ℕ) → ℕ → ℕ → ℕ → ℕ
write_cell m a v b = if b == a then v else m b

reads_written : (m : ℕ → ℕ) (a v : ℕ) → write_cell m a v a ≡ v
reads_written m a v = ground arith

keeps_others : (m : ℕ → ℕ) (a b v : ℕ) → b ≢ a → write_cell m a v b ≡ m b
keeps_others m a b v other = ground arith

instance abbrev flat : Bus (ℕ → ℕ)
flat = record {
  peek = λ m a. m a;
  poke = write_cell;
  mark_dirty = λ m page. m;
  is_writable = λ m page. page != 0xc0;
  store = write_cell;
  io_map_dispatch = λ pc address write val cycles counters m. (0, (counters, m));
  peek-poke = reads_written;
  peek-poke_ne = keeps_others;
}

abbrev idle : Counters
idle = record {
  cumulative_cycles = 1000;
  cycles_submitted = 0;
  cycles_executed = 20;
  cycles_limit = 100;
  in_slice = true;
  bm_irq = 0;
  bm_nmi = 0;
  nmi_flank = false;
}

-- LDA #$19, ADC #$28, PHA, JSR $030A; there, STA $10 and RTS.
abbrev program : List ℕ
program =
    0xa9 ∷ 0x19 ∷ 0x69 ∷ 0x28 ∷ 0x48 ∷ 0x20 ∷ 0x0a ∷ 0x03 ∷ 0xea ∷ 0xea ∷ 0x85 ∷ 0x10 ∷ 0x60 ∷ []

abbrev loaded : ℕ → ℕ
loaded address = if ltb address 0x300 then 7 else get_or program (address - 0x300) 0

abbrev start : ℕ → Cpu (ℕ → ℕ)
start ps = record {
  a = 0x42;
  x = 0;
  y = 0;
  ps = ps;
  pc = 0x300;
  sp = 0x100;
  is_jammed = false;
  addr = 0x10;
  base = 0;
  extra_cycles = 0;
  flagc = 1;
  flagn = 0;
  flagv = 0;
  flagz = 0;
  executed_cycles = 0;
  counters = idle;
  mem = loaded;
}

binary_sum : (cpu_execute false 19 (start 0x30)).mem 0x10 ≡ 0x41
unfolding cpu_execute set_nz adc_nmos push read_u16 write_byte pop
binary_sum = refl

decimal_sum : (cpu_execute true 19 (start 0x38)).mem 0x10 ≡ 0x47
unfolding cpu_execute set_nz adc_cmos push read_u16 write_byte pop
decimal_sum = refl

returned : (cpu_execute false 19 (start 0x30)).pc ≡ 0x308
unfolding cpu_execute set_nz adc_nmos push read_u16 write_byte pop
returned = refl

bounded : (cpu_execute_slice false 100 1004 (start 0x30)).counters.cycles_executed ≡ 24
unfolding cpu_execute_slice set_nz adc_nmos
bounded = refl

stack_after_reset : (cpu_reset (start 0x38)).sp ≡ 0x1fd
unfolding cpu_reset
stack_after_reset = refl

fresh_frame : (cpu_begin_frame 17030 idle).cycles_executed ≡ 0
unfolding cpu_begin_frame
fresh_frame = refl

one_device_left :
    (cpu_irq_deassert 1 (cpu_irq_assert 2 (cpu_irq_assert 1 (cpu_irq_reset idle)))).bm_irq ≡ 4
unfolding cpu_irq_deassert cpu_irq_assert cpu_irq_reset
one_device_left = refl

one_flank : (cpu_nmi_deassert 3 (cpu_nmi_assert 3 (cpu_nmi_reset idle))).nmi_flank ≡ true
unfolding cpu_nmi_deassert cpu_nmi_assert cpu_nmi_reset
one_flank = refl

binary : is_decimal (start 0x30) ≡ false
unfolding is_decimal
binary = refl

decimal : is_decimal (start 0x38) ≡ true
unfolding is_decimal
decimal = refl

op_rts-op_jsr_example :
    let c = start 0x30 in
    let left = flat.poke (flat.poke c.mem 0x100 (0x2ff / 256)) 0x1ff (0x2ff % 256) in
    (op_rts (op_jsr c) ≡ record c { mem = left })
    × ((cell : ℕ) → cell ≢ 0x100 → cell ≢ 0x1ff → flat.peek left cell ≡ flat.peek c.mem cell)
op_rts-op_jsr_example = op_rts-op_jsr (start 0x30) (omega arith) (omega arith, omega arith)

cell : IsRam loaded 0x10
cell = record { plain = refl; writable = refl; reads_back = λ v. refl; is_byte = omega arith }

flat-Lowers : Lowers flat
flat-Lowers = record { lowers = λ pc address write val cycles k m. omega arith }

cpu_execute-Ended_example : Ended 19 (cpu_execute false 19 (start 0x30))
cpu_execute-Ended_example = cpu_execute-Ended flat-Lowers false 19 (start 0x30) (omega arith)

binary-IsSum_example :
    IsSum 0x42 0x90 1 (adc_nmos (start 0x30) 0x90)
    × IsSum 0x42 0x90 1 (adc_cmos (start 0x30) 0x90)
    × IsSum 0x42 (255 - 0x90) 1 (sbc_nmos (start 0x30) 0x90)
    × IsSum 0x42 (255 - 0x90) 1 (sbc_cmos (start 0x30) 0x90)
binary-IsSum_example =
    binary-IsSum (start 0x30) 0x90 binary (omega arith) (omega arith) (omega arith)

decimal-bcd_example :
    IsPackedSum (start 0x38) 0x99 (adc_nmos (start 0x38) 0x99)
    × IsPackedSum (start 0x38) 0x99 (adc_cmos (start 0x38) 0x99)
    × IsPackedDifference (start 0x38) 0x99 (sbc_nmos (start 0x38) 0x99)
    × IsPackedDifference (start 0x38) 0x99 (sbc_cmos (start 0x38) 0x99)
decimal-bcd_example =
    decimal-bcd (start 0x38) 0x99 decimal (omega arith, omega arith) (omega arith, omega arith)
      (omega arith)

op_dcm-pair_example : op_dcm (start 0x30) ≡ op_cmp (op_dec (start 0x30))
op_dcm-pair_example = op_dcm-pair (start 0x30) cell (omega arith)

op_ins-pair_example : op_ins (start 0x30) ≡ op_sbc_nmos (op_inc (start 0x30))
op_ins-pair_example = op_ins-pair (start 0x30) cell (omega arith)
