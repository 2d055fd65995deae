-- ===== src/Cpu/Stack/RoundTrip.antt =====
-- The stack: what is pushed is popped, and the pointer stays in page 1.
use linapple.Common.{ℕ, ◌+◌, ◌-◌, ◌==◌, if◌then◌else◌, ◌*◌, ◌/◌, ◌%◌, ◌≤◌, ◌<◌, bit_and, bit_or}
use linapple.Common.{◌≡◌, ◌≢◌, refl, sym, ap, ap₂, ◌∙◌, arith}
use linapple.Common.{bit_and_mask, bit_or_fields, bit_or_comm}
use linapple.Cpu.{Bus, Cpu, word, push, pop}
use linapple.Cpu.Stack.{op_jsr, op_rts, push_pc, pop_pc}

abbrev pub InStackPage : ℕ → Type 0
InStackPage sp = (0x100 ≤ sp) × (sp ≤ 0x1ff)

joined : (pc : ℕ) → pc < 65536 → bit_or (bit_and pc 0xff) (pc / 256 % 256 * 256) ≡ pc
joined pc h =
    let low = bit_and_mask 8 pc in
    let fields = bit_or_fields 8 (pc / 256 % 256) (pc % 256) (omega arith) in
    let swapped = bit_or_comm (pc % 256) (pc / 256 % 256 * 256) in
    ap (λ t. bit_or t (pc / 256 % 256 * 256)) low ∙ swapped ∙ fields ∙ omega arith

module _ {M : Type 0} ⦃bus : Bus M⦄ where
  -- The pointer stays in page 1 when a byte is pushed.
  pub push-InStackPage : (c : Cpu M) (val : ℕ) → InStackPage c.sp → InStackPage (push c val).sp
  unfolding push
  push-InStackPage c val h = ground arith

  -- The pointer stays in page 1 when a byte is popped.
  pub pop-InStackPage : (c : Cpu M) → InStackPage c.sp → InStackPage (pop c).1.sp
  unfolding pop
  pop-InStackPage c h = ground arith

  above_push : (c : Cpu M) (val : ℕ) → InStackPage c.sp → (pop (push c val)).1.sp ≡ c.sp
  unfolding push pop
  above_push c val h = ground arith

  -- The machine after one push, its pointer put back.
  abbrev pub with_byte : Cpu M → ℕ → Cpu M
  with_byte c val = record c { mem = bus.poke c.mem c.sp val }

  -- With the pointer in page 1, a byte pushed is the byte popped, and nothing but its cell changes,
  -- also where the pointer wraps around.
  pub pop-push :
      (c : Cpu M) (val : ℕ) → InStackPage c.sp → pop (push c val) ≡ (val, with_byte c val)
  unfolding push pop
  pop-push c val h =
      ap (λ s. (bus.peek (bus.poke c.mem c.sp val) s, record (with_byte c val) { sp = s }))
        (above_push c val h)
      ∙ ap (λ v. (v, with_byte c val)) (bus.peek-poke c.mem c.sp val)

  push-moves : (c : Cpu M) (val : ℕ) → InStackPage c.sp → (push c val).sp ≢ c.sp
  unfolding push
  push-moves c val h = ground arith

  -- A byte pushed is still there when the byte pushed after it has been popped.
  pop-beneath :
      (c : Cpu M) (val top : ℕ)
      → InStackPage c.sp
      → pop (with_byte (push c val) top) ≡ (val, record (with_byte (push c val) top) { sp = c.sp })
  unfolding push pop
  pop-beneath c val top h =
      let d = push c val in
      let other : c.sp ≢ d.sp = λ e. push-moves c val h (sym e) in
      ap (λ s. (bus.peek (bus.poke d.mem d.sp top) s, record (with_byte d top) { sp = s }))
        (above_push c val h)
      ∙ ap (λ v. (v, record (with_byte d top) { sp = c.sp }))
          (bus.peek-poke_ne d.mem d.sp c.sp top other ∙ bus.peek-poke c.mem c.sp val)

  push-below :
      (c : Cpu M) (val : ℕ)
      → InStackPage c.sp
      → (push c val).sp ≡ (if c.sp == 0x100 then 0x1ff else c.sp - 1)
  unfolding push
  push-below c val page = ground arith

  kept_beneath :
      (c : Cpu M) (val low pc : ℕ)
      → record (with_byte (push c val) low) { sp = c.sp; pc = pc }
        ≡ record c { mem = bus.poke (bus.poke c.mem c.sp val) (push c val).sp low; pc = pc }
  unfolding push
  kept_beneath c val low pc = refl

  -- The two bytes of a pushed program counter come back, the low one first, and are left in their cells.
  pub pop_pc-push_pc :
      (c : Cpu M)
      → c.pc < 65536
      → InStackPage c.sp
      → let below = if c.sp == 0x100 then 0x1ff else c.sp - 1 in
        pop_pc (push_pc c)
        ≡ record c { mem = bus.poke (bus.poke c.mem c.sp (c.pc / 256)) below (c.pc % 256) }
  unfolding push_pc pop_pc
  pop_pc-push_pc c h page =
      let high = c.pc / 256 % 256 in
      let d = push c high in
      let low = bit_and c.pc 0xff in
      let first = pop-push d low (push-InStackPage c high page) in
      let second = pop-beneath c high low page in
      ap (λ (r : ℕ × Cpu M). record (pop r.1).1 { pc = bit_or r.0 ((pop r.1).0 * 256) }) first
      ∙ ap (λ (r : ℕ × Cpu M). record r.1 { pc = bit_or low (r.0 * 256) }) second
      ∙ kept_beneath c high low (bit_or low (high * 256))
      ∙ ap (λ pc. record c { mem = bus.poke (bus.poke c.mem c.sp high) d.sp low; pc = pc })
          (joined c.pc h)
      ∙ ap (λ v. record c { mem = bus.poke (bus.poke c.mem c.sp v) d.sp low }) (omega arith)
      ∙ ap₂ (λ below v. record c { mem = bus.poke (bus.poke c.mem c.sp (c.pc / 256)) below v })
          (push-below c high page) (bit_and_mask 8 c.pc)

  -- RTS after JSR, for any program counter of 16 bits and any pointer in page 1, leaves the whole machine as
  -- it was, but for two cells of page 1, in which the address of the last byte of the JSR is left: its high
  -- byte at the pointer, its low byte below it, which is the top of the page where the pointer is at its bottom.
  -- Every other cell of the memory is as it was.
  pub op_rts-op_jsr :
      (c : Cpu M)
      → c.pc < 65536
      → InStackPage c.sp
      → let last = (c.pc + 65535) % 65536 in
        let below = if c.sp == 0x100 then 0x1ff else c.sp - 1 in
        let left = bus.poke (bus.poke c.mem c.sp (last / 256)) below (last % 256) in
        (op_rts (op_jsr c) ≡ record c { mem = left })
        × ((cell : ℕ) → cell ≢ c.sp → cell ≢ below → bus.peek left cell ≡ bus.peek c.mem cell)
  unfolding op_rts op_jsr pop_pc pop
  op_rts-op_jsr c h page =
      let last = (c.pc + 65535) % 65536 in
      let below = if c.sp == 0x100 then 0x1ff else c.sp - 1 in
      let once = bus.poke c.mem c.sp (last / 256) in
      (
        ap (λ (e : Cpu M). record e { pc = word (e.pc + 1) })
              (ap (λ pc. pop_pc (push_pc (record c { pc = pc }))) (omega arith)
                ∙ pop_pc-push_pc (record c { pc = last }) (omega arith) page)
            ∙ ap (λ pc. record c { mem = bus.poke once below (last % 256); pc = pc }) (omega arith),
        λ cell above beneath.
            bus.peek-poke_ne once below cell (last % 256) beneath
            ∙ bus.peek-poke_ne c.mem c.sp cell (last / 256) above,
      )
