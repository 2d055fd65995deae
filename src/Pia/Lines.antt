-- ===== src/Pia/Lines.antt =====
-- The interrupt outputs of the 6821, and its edges.
use linapple.Common.{
  ℕ, ◌≡◌, ◌∙◌, arith, refl, bit_and, bit_or, Bool, not, ◌&&◌, ◌||◌, if_both, ap, sym,
}
use linapple.Common.{◌==◌, if◌then◌else◌, Option}
use linapple.Pia.{
  Pia6821, PiaStep, PiaOutput, Reached, resets, reads, writes, drives_a, drives_b, drives_ca1,
  drives_ca2, drives_cb1, drives_cb2, listens, from_reset, by_step,
}
use linapple.Pia.{
  port_a, port_b, ca2, cb2, irqa, irqb, irq_level, ddr_sel, pia_call, transition, test, irq1, irq2,
  c1_sel, c2_out, c2_sel, is_handshake, update_irq_a, update_irq_b, update_interrupts, set_oca2,
  set_ocb2, strobe_a, strobe_b, read_port_a, read_port_b,
}
use linapple.Pia.{
  write_cra, write_crb, write_port_a, write_port_b, pia_6821_reset, pia_6821_read, pia_6821_write,
  pia_6821_set_port_a, pia_6821_set_port_b, pia_6821_set_ca1, pia_6821_set_ca2, pia_6821_set_cb1,
  pia_6821_set_cb2, pia_6821_set_listener,
}

-- Both outputs have the levels that the control registers ask for.
pub record IsSettled (p : Pia6821) : Type 0 where
  pub settled_a : p.irq_a_state ≡ irq_level p.cra
  pub settled_b : p.irq_b_state ≡ irq_level p.crb

module _ (p : Pia6821) where
  update_irq_a-level :
      ((update_irq_a p).irq_a_state ≡ irq_level p.cra)
      × ((update_irq_a p).cra ≡ p.cra)
      × ((update_irq_a p).crb ≡ p.crb)
  unfolding update_irq_a
  update_irq_a-level = ground arith

  update_irq_b-level :
      ((update_irq_b p).irq_b_state ≡ irq_level p.crb)
      × ((update_irq_b p).crb ≡ p.crb)
      × ((update_irq_b p).cra ≡ p.cra)
      × ((update_irq_b p).irq_a_state ≡ p.irq_a_state)
  unfolding update_irq_b
  update_irq_b-level = ground arith

update_interrupts-IsSettled : (p : Pia6821) → IsSettled (update_interrupts p)
unfolding update_interrupts
update_interrupts-IsSettled p =
    let a = update_irq_a-level p in
    let b = update_irq_b-level (update_irq_a p) in
    record {
      settled_a = b.3 ∙ a.0 ∙ ap irq_level (sym (b.2 ∙ a.1));
      settled_b = b.0 ∙ ap irq_level (sym b.1);
    }

strobe_a-IsSettled : (p : Pia6821) → IsSettled p → IsSettled (strobe_a p)
unfolding strobe_a set_oca2
strobe_a-IsSettled p s = record { settled_a = ground arith; settled_b = ground arith }

strobe_b-IsSettled : (p : Pia6821) → IsSettled p → IsSettled (strobe_b p)
unfolding strobe_b set_ocb2
strobe_b-IsSettled p s = record { settled_a = ground arith; settled_b = ground arith }

pub read-IsSettled : (addr : ℕ) (p : Pia6821) → IsSettled p → IsSettled (pia_6821_read addr p).1
unfolding pia_6821_read read_port_a read_port_b
read-IsSettled addr p s =
    let register = bit_and addr 0x03 in
    let P = λ (answer : ℕ × Pia6821). IsSettled answer.1 in
    let a =
      strobe_a-IsSettled _ (update_interrupts-IsSettled (record p { cra = bit_and p.cra 0x3f })) in
    let b = update_interrupts-IsSettled (record p { crb = bit_and p.crb 0x3f }) in
    if_both P (register == 0) (if_both P (not (test p.cra ddr_sel)) s a) (
      if_both P (register == 1) s
        (if_both P (register == 2) (if_both P (not (test p.crb ddr_sel)) s b) s))

write_port_a-IsSettled : (val : ℕ) (p : Pia6821) → IsSettled p → IsSettled (write_port_a val p)
unfolding write_port_a
write_port_a-IsSettled val p s = record { settled_a = ground arith; settled_b = ground arith }

write_port_b-IsSettled : (val : ℕ) (p : Pia6821) → IsSettled p → IsSettled (write_port_b val p)
unfolding write_port_b
write_port_b-IsSettled val p s =
    let written = record p { orb = val; calls = pia_call p.out_b (bit_and val p.ddrb) p.calls } in
    let same : IsSettled written = record { settled_a = s.settled_a; settled_b = s.settled_b } in
    let set : IsSettled (record p { ddrb = val }) = record {
      settled_a = s.settled_a;
      settled_b = s.settled_b;
    } in
    if_both IsSettled (not (test p.crb ddr_sel)) set (strobe_b-IsSettled written same)

write-IsSettled : (addr val : ℕ) (p : Pia6821) → IsSettled p → IsSettled (pia_6821_write addr val p)
unfolding pia_6821_write write_cra write_crb
write-IsSettled addr val p s =
    let register = bit_and addr 0x03 in
    if_both IsSettled (register == 0) (write_port_a-IsSettled val p s) (
      if_both IsSettled (register == 1) (update_interrupts-IsSettled _) (
        if_both IsSettled (register == 2) (write_port_b-IsSettled val p s)
          (update_interrupts-IsSettled _)))

set_listener-IsSettled :
    (output : PiaOutput) (listener : Option ℕ) (p : Pia6821)
    → IsSettled p
    → IsSettled (pia_6821_set_listener output listener p)
unfolding pia_6821_set_listener
set_listener-IsSettled port_a listener p s = record {
  settled_a = s.settled_a;
  settled_b = s.settled_b;
}
set_listener-IsSettled port_b listener p s = record {
  settled_a = s.settled_a;
  settled_b = s.settled_b;
}
set_listener-IsSettled ca2 listener p s = record {
  settled_a = s.settled_a;
  settled_b = s.settled_b;
}
set_listener-IsSettled cb2 listener p s = record {
  settled_a = s.settled_a;
  settled_b = s.settled_b;
}
set_listener-IsSettled irqa listener p s = record {
  settled_a = s.settled_a;
  settled_b = s.settled_b;
}
set_listener-IsSettled irqb listener p s = record {
  settled_a = s.settled_a;
  settled_b = s.settled_b;
}

module _ (level : Bool) (p : Pia6821) (s : IsSettled p) where
  pub set_ca1-IsSettled : IsSettled (pia_6821_set_ca1 level p)
  unfolding pia_6821_set_ca1
  set_ca1-IsSettled =
      let q = record p { ca1_in = level } in
      let same : IsSettled q = record { settled_a = s.settled_a; settled_b = s.settled_b } in
      let flagged = record q { cra = bit_or q.cra irq1 } in
      let handshake = is_handshake flagged.cra && (flagged.oca2 == 0) in
      if_both IsSettled (not (transition (test p.cra c1_sel) p.ca1_in level)) same
        (update_interrupts-IsSettled (if handshake then set_oca2 1 flagged else flagged))

  set_ca2-IsSettled : IsSettled (pia_6821_set_ca2 level p)
  unfolding pia_6821_set_ca2
  set_ca2-IsSettled =
      let q = record p { ca2_in = level } in
      let same : IsSettled q = record { settled_a = s.settled_a; settled_b = s.settled_b } in
      if_both IsSettled (test p.cra c2_out || not (transition (test p.cra c2_sel) p.ca2_in level))
        same (update_interrupts-IsSettled (record q { cra = bit_or q.cra irq2 }))

  set_cb1-IsSettled : IsSettled (pia_6821_set_cb1 level p)
  unfolding pia_6821_set_cb1
  set_cb1-IsSettled =
      let q = record p { cb1_in = level } in
      let same : IsSettled q = record { settled_a = s.settled_a; settled_b = s.settled_b } in
      let flagged = record q { crb = bit_or q.crb irq1 } in
      let handshake = is_handshake flagged.crb && (flagged.ocb2 == 0) in
      if_both IsSettled (not (transition (test p.crb c1_sel) p.cb1_in level)) same
        (update_interrupts-IsSettled (if handshake then set_ocb2 1 flagged else flagged))

  set_cb2-IsSettled : IsSettled (pia_6821_set_cb2 level p)
  unfolding pia_6821_set_cb2
  set_cb2-IsSettled =
      let q = record p { cb2_in = level } in
      let same : IsSettled q = record { settled_a = s.settled_a; settled_b = s.settled_b } in
      if_both IsSettled (test p.crb c2_out || not (transition (test p.crb c2_sel) p.cb2_in level))
        same (update_interrupts-IsSettled (record q { crb = bit_or q.crb irq2 }))

step-IsSettled : (p q : Pia6821) → PiaStep p q → IsSettled p → IsSettled q
unfolding pia_6821_reset pia_6821_set_port_a pia_6821_set_port_b irq_level
step-IsSettled _ _ (resets p) s = record { settled_a = refl; settled_b = refl }
step-IsSettled _ _ (reads addr p) s = read-IsSettled addr p s
step-IsSettled _ _ (writes addr val p) s = write-IsSettled addr val p s
step-IsSettled _ _ (drives_a val p) s = record { settled_a = s.settled_a; settled_b = s.settled_b }
step-IsSettled _ _ (drives_b val p) s = record { settled_a = s.settled_a; settled_b = s.settled_b }
step-IsSettled _ _ (drives_ca1 level p) s = set_ca1-IsSettled level p s
step-IsSettled _ _ (drives_ca2 level p) s = set_ca2-IsSettled level p s
step-IsSettled _ _ (drives_cb1 level p) s = set_cb1-IsSettled level p s
step-IsSettled _ _ (drives_cb2 level p) s = set_cb2-IsSettled level p s
step-IsSettled _ _ (listens output listener p) s = set_listener-IsSettled output listener p s

-- However the chip is used after a reset, each interrupt output has the level that its control register
-- asks for: a flag of CA1 or CB1 that is enabled, or one of CA2 or CB2 that is enabled and an input.
pub Reached-IsSettled : (p : Pia6821) → Reached p → IsSettled p
unfolding pia_6821_reset irq_level
Reached-IsSettled _ (from_reset p) = record { settled_a = refl; settled_b = refl }
Reached-IsSettled _ (by_step {p} {q} r t) = step-IsSettled p q t (Reached-IsSettled p r)
