-- ===== src/Pia.antt =====
-- The 6821 of apple2/chips/6821.cpp.
--
-- A listener is a number for its function and object, if one is set; what it is called with is added to
-- `calls`, the last call first. The pointer to the chip is never null.

mod Lines
mod Edges
mod Tests
use linapple.Common.{ℕ, ◌-◌, bit_and, bit_or, Bool, false, not, ◌&&◌, ◌||◌}
use linapple.Common.{◌==◌, ◌!=◌, if◌then◌else◌, Option, none, some, List, ◌∷◌}

pub record Pia6821 : Type 0 where
  pub ora : ℕ
  pub orb : ℕ
  pub ddra : ℕ
  pub ddrb : ℕ
  pub cra : ℕ
  pub crb : ℕ
  pub port_a_in : ℕ
  pub port_b_in : ℕ
  pub ca1_in : Bool
  pub ca2_in : Bool
  pub cb1_in : Bool
  pub cb2_in : Bool
  pub oca2 : ℕ
  pub ocb2 : ℕ
  pub irq_a_state : ℕ
  pub irq_b_state : ℕ
  pub out_a : Option ℕ
  pub out_b : Option ℕ
  pub out_ca2 : Option ℕ
  pub out_cb2 : Option ℕ
  pub out_irqa : Option ℕ
  pub out_irqb : Option ℕ
  pub calls : List (ℕ × ℕ)

abbrev pub irq1 : ℕ
irq1 = 0x80

abbrev pub irq2 : ℕ
irq2 = 0x40

abbrev pub c2_out : ℕ
c2_out = 0x20

abbrev pub c2_sel : ℕ
c2_sel = 0x10

abbrev pub c2_lvl : ℕ
c2_lvl = 0x08

abbrev pub ddr_sel : ℕ
ddr_sel = 0x04

abbrev pub c1_sel : ℕ
c1_sel = 0x02

abbrev pub c1_en : ℕ
c1_en = 0x01

-- `(register & mask) != 0`.
abbrev pub test : ℕ → ℕ → Bool
test register mask = bit_and register mask != 0

pub pia_call : Option ℕ → ℕ → List (ℕ × ℕ) → List (ℕ × ℕ)
pia_call none val calls = calls
pia_call (some listener) val calls = (listener, val) ∷ calls

-- The level of an interrupt output for a control register, as `update_interrupts` works it out.
pub irq_level : ℕ → ℕ
irq_level cr =
    if (test cr irq1 && test cr c1_en) || (test cr irq2 && not (test cr c2_out) && test cr c2_lvl)
    then 1
    else 0

pub update_irq_a : Pia6821 → Pia6821
unfolding pia_call
update_irq_a p =
    let irq_a = irq_level p.cra in
    if irq_a != p.irq_a_state
    then record p { irq_a_state = irq_a; calls = pia_call p.out_irqa irq_a p.calls }
    else p

pub update_irq_b : Pia6821 → Pia6821
unfolding pia_call
update_irq_b p =
    let irq_b = irq_level p.crb in
    if irq_b != p.irq_b_state
    then record p { irq_b_state = irq_b; calls = pia_call p.out_irqb irq_b p.calls }
    else p

pub update_interrupts : Pia6821 → Pia6821
unfolding update_irq_a update_irq_b
update_interrupts p = update_irq_b (update_irq_a p)

-- The listeners go too; the calls that were made stay made.
unfoldable pub pia_6821_reset : Pia6821 → Pia6821
pia_6821_reset p = record {
  ora = 0;
  orb = 0;
  ddra = 0;
  ddrb = 0;
  cra = 0;
  crb = 0;
  port_a_in = 0xff;
  port_b_in = 0xff;
  ca1_in = false;
  ca2_in = false;
  cb1_in = false;
  cb2_in = false;
  oca2 = 0;
  ocb2 = 0;
  irq_a_state = 0;
  irq_b_state = 0;
  out_a = none;
  out_b = none;
  out_ca2 = none;
  out_cb2 = none;
  out_irqa = none;
  out_irqb = none;
  calls = p.calls;
}

-- CA2 and CB2 as outputs change to a level.
pub set_oca2 : ℕ → Pia6821 → Pia6821
unfolding pia_call
set_oca2 level p = record p { oca2 = level; calls = pia_call p.out_ca2 level p.calls }

pub set_ocb2 : ℕ → Pia6821 → Pia6821
unfolding pia_call
set_ocb2 level p = record p { ocb2 = level; calls = pia_call p.out_cb2 level p.calls }

-- The handshake of a read of port A, and of a write of port B.
pub strobe_a : Pia6821 → Pia6821
unfolding set_oca2
strobe_a p =
    let low = if p.oca2 == 1 then set_oca2 0 p else p in
    let pulsed = if test low.cra c2_lvl then set_oca2 1 low else low in
    if bit_and p.cra (bit_or c2_out c2_sel) == c2_out then pulsed else p

pub strobe_b : Pia6821 → Pia6821
unfolding set_ocb2
strobe_b p =
    let low = if p.ocb2 == 1 then set_ocb2 0 p else p in
    let pulsed = if test low.crb c2_lvl then set_ocb2 1 low else low in
    if bit_and p.crb (bit_or c2_out c2_sel) == c2_out then pulsed else p

-- A read of a port, through the data register, clears its two flags.
pub read_port_a : Pia6821 → ℕ × Pia6821
unfolding update_interrupts strobe_a
read_port_a p =
    let q = strobe_a (update_interrupts (record p { cra = bit_and p.cra 0x3f })) in (q.port_a_in, q)

pub read_port_b : Pia6821 → ℕ × Pia6821
unfolding update_interrupts
read_port_b p =
    let q = update_interrupts (record p { crb = bit_and p.crb 0x3f }) in
    (bit_or (bit_and q.orb q.ddrb) (bit_and q.port_b_in (0xff - q.ddrb)), q)

unfoldable pub pia_6821_read : ℕ → Pia6821 → ℕ × Pia6821
unfolding read_port_a read_port_b
pia_6821_read addr p =
    let register = bit_and addr 0x03 in
    if register == 0
    then (if not (test p.cra ddr_sel) then (p.ddra, p) else read_port_a p)
    else if register == 1
    then ((if test p.cra c2_out then bit_and p.cra 0xbf else p.cra), p)
    else if register == 2
    then (if not (test p.crb ddr_sel) then (p.ddrb, p) else read_port_b p)
    else ((if test p.crb c2_out then bit_and p.crb 0xbf else p.crb), p)

-- A control register keeps its two flags; as a plain output, CA2 or CB2 follows bit 3.
pub write_cra : ℕ → Pia6821 → Pia6821
unfolding set_oca2 update_interrupts
write_cra val p =
    let q = record p { cra = bit_or (bit_and p.cra 0xc0) (bit_and val 0x3f) } in
    let next_ca2 = if test q.cra c2_lvl then 1 else 0 in
    update_interrupts (
      if (test q.cra c2_out && test q.cra c2_sel) && (next_ca2 != q.oca2)
      then set_oca2 next_ca2 q
      else q)

pub write_crb : ℕ → Pia6821 → Pia6821
unfolding set_ocb2 update_interrupts
write_crb val p =
    let q = record p { crb = bit_or (bit_and p.crb 0xc0) (bit_and val 0x3f) } in
    let next_cb2 = if test q.crb c2_lvl then 1 else 0 in
    update_interrupts (
      if (test q.crb c2_out && test q.crb c2_sel) && (next_cb2 != q.ocb2)
      then set_ocb2 next_cb2 q
      else q)

pub write_port_a : ℕ → Pia6821 → Pia6821
unfolding pia_call
write_port_a val p =
    if not (test p.cra ddr_sel)
    then record p { ddra = val }
    else record p { ora = val; calls = pia_call p.out_a (bit_and val p.ddra) p.calls }

pub write_port_b : ℕ → Pia6821 → Pia6821
unfolding pia_call strobe_b
write_port_b val p =
    if not (test p.crb ddr_sel)
    then record p { ddrb = val }
    else strobe_b (record p { orb = val; calls = pia_call p.out_b (bit_and val p.ddrb) p.calls })

unfoldable pub pia_6821_write : ℕ → ℕ → Pia6821 → Pia6821
unfolding write_port_a write_cra write_port_b write_crb
pia_6821_write addr val p =
    let register = bit_and addr 0x03 in
    if register == 0
    then write_port_a val p
    else if register == 1
    then write_cra val p
    else if register == 2
    then write_port_b val p
    else write_crb val p

unfoldable pub pia_6821_set_port_a : ℕ → Pia6821 → Pia6821
pia_6821_set_port_a val p = record p { port_a_in = val }

unfoldable pub pia_6821_set_port_b : ℕ → Pia6821 → Pia6821
pia_6821_set_port_b val p = record p { port_b_in = val }

-- The active edge of an input, the falling one or the rising one.
pub transition : Bool → Bool → Bool → Bool
transition falling old level = if falling then old && not level else not old && level

-- CA2 or CB2 is in the handshake mode that the edge of CA1 or CB1 ends.
pub is_handshake : ℕ → Bool
is_handshake cr = test cr c2_out && not (test cr c2_sel) && not (test cr c2_lvl)

unfoldable pub pia_6821_set_ca1 : Bool → Pia6821 → Pia6821
unfolding set_oca2 update_interrupts transition is_handshake
pia_6821_set_ca1 level p =
    let q = record p { ca1_in = level } in
    let flagged = record q { cra = bit_or q.cra irq1 } in
    if not (transition (test q.cra c1_sel) p.ca1_in level)
    then q
    else update_interrupts
        (if is_handshake flagged.cra && (flagged.oca2 == 0) then set_oca2 1 flagged else flagged)

unfoldable pub pia_6821_set_cb1 : Bool → Pia6821 → Pia6821
unfolding set_ocb2 update_interrupts transition is_handshake
pia_6821_set_cb1 level p =
    let q = record p { cb1_in = level } in
    let flagged = record q { crb = bit_or q.crb irq1 } in
    if not (transition (test q.crb c1_sel) p.cb1_in level)
    then q
    else update_interrupts
        (if is_handshake flagged.crb && (flagged.ocb2 == 0) then set_ocb2 1 flagged else flagged)

unfoldable pub pia_6821_set_ca2 : Bool → Pia6821 → Pia6821
unfolding update_interrupts transition
pia_6821_set_ca2 level p =
    let q = record p { ca2_in = level } in
    if test q.cra c2_out || not (transition (test q.cra c2_sel) p.ca2_in level)
    then q
    else update_interrupts (record q { cra = bit_or q.cra irq2 })

unfoldable pub pia_6821_set_cb2 : Bool → Pia6821 → Pia6821
unfolding update_interrupts transition
pia_6821_set_cb2 level p =
    let q = record p { cb2_in = level } in
    if test q.crb c2_out || not (transition (test q.crb c2_sel) p.cb2_in level)
    then q
    else update_interrupts (record q { crb = bit_or q.crb irq2 })

unfoldable pub pia_6821_get_port_a : Pia6821 → ℕ
pia_6821_get_port_a p = bit_and p.ora p.ddra

unfoldable pub pia_6821_get_port_b : Pia6821 → ℕ
pia_6821_get_port_b p = bit_and p.orb p.ddrb

-- The six outputs, and the functions that set their listeners.
pub data PiaOutput : Type 0 where
  port_a port_b ca2 cb2 irqa irqb : PiaOutput

unfoldable pub pia_6821_set_listener : PiaOutput → Option ℕ → Pia6821 → Pia6821
pia_6821_set_listener port_a listener p = record p { out_a = listener }
pia_6821_set_listener port_b listener p = record p { out_b = listener }
pia_6821_set_listener ca2 listener p = record p { out_ca2 = listener }
pia_6821_set_listener cb2 listener p = record p { out_cb2 = listener }
pia_6821_set_listener irqa listener p = record p { out_irqa = listener }
pia_6821_set_listener irqb listener p = record p { out_irqb = listener }

-- What can be done with the chip.
pub data PiaStep : Pia6821 → Pia6821 → Type 0 where
  resets : (p : Pia6821) → PiaStep p (pia_6821_reset p)
  reads : (addr : ℕ) (p : Pia6821) → PiaStep p (pia_6821_read addr p).1
  writes : (addr val : ℕ) (p : Pia6821) → PiaStep p (pia_6821_write addr val p)
  drives_a : (val : ℕ) (p : Pia6821) → PiaStep p (pia_6821_set_port_a val p)
  drives_b : (val : ℕ) (p : Pia6821) → PiaStep p (pia_6821_set_port_b val p)
  drives_ca1 : (level : Bool) (p : Pia6821) → PiaStep p (pia_6821_set_ca1 level p)
  drives_ca2 : (level : Bool) (p : Pia6821) → PiaStep p (pia_6821_set_ca2 level p)
  drives_cb1 : (level : Bool) (p : Pia6821) → PiaStep p (pia_6821_set_cb1 level p)
  drives_cb2 : (level : Bool) (p : Pia6821) → PiaStep p (pia_6821_set_cb2 level p)
  listens :
      (output : PiaOutput) (listener : Option ℕ) (p : Pia6821)
      → PiaStep p (pia_6821_set_listener output listener p)

-- The states that can be reached after a reset.
pub data Reached : Pia6821 → Type 0 where
  from_reset : (p : Pia6821) → Reached (pia_6821_reset p)
  by_step : {p q : Pia6821} → Reached p → PiaStep p q → Reached q
