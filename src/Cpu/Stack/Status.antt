-- ===== src/Cpu/Stack/Status.antt =====
-- The status register on the stack: PLP after PHP.
use linapple.Common.{ℕ, ◌*◌, ◌/◌, ◌%◌, ◌<◌, bit_and, bit_or, arith}
use linapple.Common.{◌≡◌, refl, sym, ap, ◌∙◌, Bool, true, ◌&&◌, ◌==◌, ◌!=◌, if◌then◌else◌}
use linapple.Common.{all_below, all_below_sound}
use linapple.Cpu.{Bus, Cpu, flag, packed_ps, pack_ps, unpack_ps}
use linapple.Cpu.Stack.{op_php, op_plp}
use linapple.Cpu.Stack.RoundTrip.{InStackPage, pop-push}

-- The flags in the form in which the operations leave them: the carry is a bit, the sign bit 7.
pub record HasFlags {M : Type 0} (c : Cpu M) : Type 0 where
  pub ps_fits : c.ps < 256
  pub carry_bit : c.flagc < 2
  pub sign_bit : c.flagn ≡ c.flagn / 128 % 2 * 128

-- What PHP pushes, by the flags' bits, and what PLP makes of it.
pushed : ℕ → ℕ → ℕ → ℕ → ℕ → ℕ
pushed ps c n v z =
    bit_or
      (bit_or (bit_or (bit_or (bit_or (bit_or (bit_and ps 0x3c) c) (n * 128)) (v * 64)) (z * 2))
        0x20)
      0x10

pulled : ℕ → ℕ
pulled ps = bit_or (bit_or ps 0x20) 0x10

keeps : ℕ → ℕ → ℕ → ℕ → ℕ → Bool
unfolding pushed pulled
keeps ps c n v z =
    let w = pulled (pushed ps c n v z) in
    (bit_and w 1 == c)
    && ((bit_and w 128 == n * 128) && ((bit_and w 64 == v * 64) && (bit_and w 2 == z * 2)))

table :
    all_below 256
      (λ ps. all_below 2 (λ c. all_below 2 (λ n. all_below 2 (λ v. all_below 2 (keeps ps c n v)))))
    ≡ true
unfolding all_below keeps
table = refl

pulled-pushed :
    (ps c n v z : ℕ)
    → ps < 256
    → c < 2
    → n < 2
    → v < 2
    → z < 2
    → let w = pulled (pushed ps c n v z) in
      (bit_and w 1 ≡ c)
      × (bit_and w 128 ≡ n * 128)
      × (bit_and w 64 ≡ v * 64)
      × (bit_and w 2 ≡ z * 2)
unfolding keeps
pulled-pushed ps c n v z hp hc hn hv hz =
    let at_ps = all_below_sound 256 _ ps table hp in
    let at_c = all_below_sound 2 _ c at_ps hc in
    let at_n = all_below_sound 2 _ n at_c hn in
    let at_v = all_below_sound 2 _ v at_n hv in
    let all = all_below_sound 2 (keeps ps c n v) z at_v hz in ground arith

scaled : (b : Bool) (k : ℕ) → (if b then k else 0) ≡ flag b * k
scaled b k = ground arith

is_flag : (b : Bool) (k : ℕ) → 0 < k → (flag b * k != 0) ≡ b
is_flag b k h = ground arith

packed_ps-pushed :
    {M : Type 0} (c : Cpu M)
    → HasFlags c
    → packed_ps c
      ≡ pushed c.ps c.flagc (c.flagn / 128 % 2) (flag (c.flagv != 0)) (flag (c.flagz != 0))
unfolding packed_ps pushed
packed_ps-pushed c g =
    rw (sym g.sign_bit) (rw (scaled (c.flagv != 0) 0x40) (rw (scaled (c.flagz != 0) 2) refl))

module _ {M : Type 0} ⦃bus : Bus M⦄ where
  -- With the pointer in page 1 and the flags in the form in which the operations leave them, PLP after PHP
  -- brings back the four flags, whether each is set, and the pointer.
  pub op_plp-op_php :
      (c : Cpu M)
      → HasFlags c
      → InStackPage c.sp
      → let d = op_plp (op_php c) in
        (d.flagc ≡ c.flagc)
        × (d.flagn ≡ c.flagn)
        × ((d.flagv != 0) ≡ (c.flagv != 0))
        × ((d.flagz != 0) ≡ (c.flagz != 0))
        × (d.sp ≡ c.sp)
  unfolding op_plp op_php pack_ps unpack_ps pulled
  op_plp-op_php c g page =
      let back = pop-push (pack_ps c) (packed_ps c) page in
      let flags =
        pulled-pushed c.ps c.flagc (c.flagn / 128 % 2) (flag (c.flagv != 0)) (flag (c.flagz != 0))
          g.ps_fits g.carry_bit (omega arith) (ground arith) (ground arith) in
      let value = packed_ps-pushed c g in
      rw back (
        rw value (
          flags.0,
          flags.1 ∙ sym g.sign_bit,
          ap (λ (t : ℕ). t != 0) flags.2 ∙ is_flag (c.flagv != 0) 64 (omega arith),
          ap (λ (t : ℕ). t != 0) flags.3 ∙ is_flag (c.flagz != 0) 2 (omega arith),
          refl,
        ))
