-- ===== src/Pia/Edges.antt =====
-- An active edge of CA1, its interrupt, and the read of port A that takes it back; port B as an output.
use linapple.Common.{ℕ, ◌-◌, ◌<◌, ◌^◌, ◌≡◌, ◌∙◌, arith, ap, ap₂, bit_and, bit_or, Bool, true}
use linapple.Common.{
  bit_and_or, bit_and_or_self, bit_and_assoc, bit_and_mask, bit_and-zero, bit_or-zero,
}
use linapple.Pia.{
  Pia6821, irq_level, test, irq1, irq2, c1_sel, c1_en, ddr_sel, transition, set_oca2, set_ocb2,
  strobe_a, strobe_b, read_port_a, read_port_b,
}
use linapple.Pia.{
  update_interrupts, update_irq_a, update_irq_b, write_port_b, pia_call, pia_6821_read,
  pia_6821_write, pia_6821_set_ca1,
}
use linapple.Pia.Lines.{IsSettled, set_ca1-IsSettled, read-IsSettled}

set_ca1-cra :
    (level : Bool) (p : Pia6821)
    → transition (test p.cra c1_sel) p.ca1_in level ≡ true
    → (pia_6821_set_ca1 level p).cra ≡ bit_or p.cra irq1
unfolding pia_6821_set_ca1 update_interrupts update_irq_a update_irq_b set_oca2
set_ca1-cra level p edge = ground arith

strobe_a-cra : (p : Pia6821) → (strobe_a p).cra ≡ p.cra
unfolding strobe_a set_oca2
strobe_a-cra p = ground arith

update-cra : (p : Pia6821) → (update_interrupts p).cra ≡ p.cra
unfolding update_interrupts update_irq_a update_irq_b
update-cra p = ground arith

read-cra :
    (p : Pia6821) → test p.cra ddr_sel ≡ true → (pia_6821_read 0 p).1.cra ≡ bit_and p.cra 0x3f
unfolding pia_6821_read read_port_a
read-cra p chosen = ground (
  arith,
  strobe_a-cra (update_interrupts (record p { cra = bit_and p.cra 0x3f })),
  update-cra (record p { cra = bit_and p.cra 0x3f }),
)

flagged-level : (cr : ℕ) → test cr c1_en ≡ true → irq_level (bit_or cr irq1) ≡ 1
unfolding irq_level
flagged-level cr enabled =
    let flag = bit_and_or_self cr irq1 in
    let enable : bit_and (bit_or cr irq1) c1_en ≡ bit_and cr c1_en =
      bit_and_or cr irq1 c1_en ∙ bit_or-zero (bit_and cr c1_en) in
    ground arith

cleared-level : (cr : ℕ) → irq_level (bit_and cr 0x3f) ≡ 0
unfolding irq_level
cleared-level cr =
    let one : bit_and (bit_and cr 0x3f) irq1 ≡ 0 = bit_and_assoc cr 0x3f irq1 ∙ bit_and-zero cr in
    let two : bit_and (bit_and cr 0x3f) irq2 ≡ 0 = bit_and_assoc cr 0x3f irq2 ∙ bit_and-zero cr in
    ground arith

kept-chosen : (cr : ℕ) → test cr ddr_sel ≡ true → test (bit_or cr irq1) ddr_sel ≡ true
kept-chosen cr chosen =
    let kept : bit_and (bit_or cr irq1) ddr_sel ≡ bit_and cr ddr_sel =
      bit_and_or cr irq1 ddr_sel ∙ bit_or-zero (bit_and cr ddr_sel) in
    ground arith

-- With the interrupt outputs at the levels the control registers ask for, the interrupt of CA1 enabled and the
-- data register selected, an active edge of CA1 raises IRQA, and the next read of port A lowers it.
pub set_ca1-raises :
    (level : Bool) (p : Pia6821)
    → IsSettled p
    → test p.cra c1_en ≡ true
    → test p.cra ddr_sel ≡ true
    → transition (test p.cra c1_sel) p.ca1_in level ≡ true
    → ((pia_6821_set_ca1 level p).irq_a_state ≡ 1)
      × ((pia_6821_read 0 (pia_6821_set_ca1 level p)).1.irq_a_state ≡ 0)
set_ca1-raises level p s enabled chosen edge =
    let q = pia_6821_set_ca1 level p in
    let flagged = set_ca1-cra level p edge in
    let settled = set_ca1-IsSettled level p s in
    let selected = ap (λ (cr : ℕ). test cr ddr_sel) flagged ∙ kept-chosen p.cra chosen in
    let after = read-IsSettled 0 q settled in
    (
      settled.settled_a ∙ ap irq_level flagged ∙ flagged-level p.cra enabled,
      after.settled_a ∙ ap irq_level (read-cra q selected) ∙ cleared-level q.cra,
    )

strobe_b-same :
    (p : Pia6821)
    → ((strobe_b p).orb ≡ p.orb) × ((strobe_b p).ddrb ≡ p.ddrb) × ((strobe_b p).crb ≡ p.crb)
unfolding strobe_b set_ocb2
strobe_b-same p = ground arith

update-same :
    (p : Pia6821) → ((update_interrupts p).orb ≡ p.orb) × ((update_interrupts p).ddrb ≡ p.ddrb)
unfolding update_interrupts update_irq_a update_irq_b
update-same p = ground arith

written :
    (val : ℕ) (p : Pia6821)
    → test p.crb ddr_sel ≡ true
    → ((write_port_b val p).orb ≡ val)
      × ((write_port_b val p).ddrb ≡ p.ddrb)
      × ((write_port_b val p).crb ≡ p.crb)
unfolding write_port_b
written val p chosen =
    let same =
      strobe_b-same
        (record p { orb = val; calls = pia_call p.out_b (bit_and val p.ddrb) p.calls }) in
    ground arith

latched :
    (val inputs : ℕ) → val < 2 ^ 8 → bit_or (bit_and val 0xff) (bit_and inputs (0xff - 0xff)) ≡ val
latched val inputs fits =
    ap (λ (v : ℕ). bit_or (bit_and val 0xff) v) (bit_and-zero inputs)
    ∙ bit_or-zero (bit_and val 0xff)
    ∙ bit_and_mask 8 val
    ∙ omega arith

read_port_b-outputs :
    (val : ℕ) (p : Pia6821) → val < 2 ^ 8 → p.ddrb ≡ 0xff → p.orb ≡ val → (read_port_b p).0 ≡ val
unfolding read_port_b
read_port_b-outputs val p fits outputs latch =
    let q = update_interrupts (record p { crb = bit_and p.crb 0x3f }) in
    let same = update-same (record p { crb = bit_and p.crb 0x3f }) in
    let orb : q.orb ≡ val = same.0 ∙ latch in
    let ddrb : q.ddrb ≡ 0xff = same.1 ∙ outputs in
    ap₂ (λ (o d : ℕ). bit_or (bit_and o d) (bit_and q.port_b_in (0xff - d))) orb ddrb
    ∙ latched val q.port_b_in fits

-- With all of port B as outputs and the data register selected, a byte written to the port is read back,
-- whatever its inputs are.
port_b-round_trip :
    (val : ℕ) (p : Pia6821)
    → val < 2 ^ 8
    → p.ddrb ≡ 0xff
    → test p.crb ddr_sel ≡ true
    → (pia_6821_read 2 (pia_6821_write 2 val p)).0 ≡ val
unfolding pia_6821_read pia_6821_write
port_b-round_trip val p fits outputs chosen =
    let done = written val p chosen in
    let still = ap (λ (cr : ℕ). test cr ddr_sel) done.2 ∙ chosen in
    let read = read_port_b-outputs val (write_port_b val p) fits (done.1 ∙ outputs) done.0 in
    ground arith
