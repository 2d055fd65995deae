-- ===== src/Pia/Tests.antt =====
-- A 6821 set up for its interrupts, and the theorems at inputs that meet their hypotheses.
use linapple.Common.{◌≡◌, refl, true, false, none, some, [], ◌∷◌}
use linapple.Pia.{
  Pia6821, Reached, from_reset, by_step, writes, listens, irqa, test, irq_level, transition,
}
use linapple.Pia.{
  pia_6821_reset, pia_6821_read, pia_6821_write, pia_6821_set_ca1, pia_6821_set_listener,
}
use linapple.Pia.Lines.{IsSettled, Reached-IsSettled}
use linapple.Pia.Edges.{set_ca1-raises}

abbrev powered : Pia6821
powered = record {
  ora = 0;
  orb = 0;
  ddra = 0;
  ddrb = 0;
  cra = 0;
  crb = 0;
  port_a_in = 0xff;
  port_b_in = 0x3c;
  ca1_in = false;
  ca2_in = false;
  cb1_in = false;
  cb2_in = false;
  oca2 = 0;
  ocb2 = 0;
  irq_a_state = 0;
  irq_b_state = 0;
  out_a = none;
  out_b = none;
  out_ca2 = none;
  out_cb2 = none;
  out_irqa = none;
  out_irqb = none;
  calls = [];
}

-- After a reset, with a listener on IRQA, CA1 enabled and the data register of A selected.
armed : Pia6821
unfolding pia_6821_reset pia_6821_write pia_6821_set_listener
armed = pia_6821_write 1 0x05 (pia_6821_set_listener irqa (some 7) (pia_6821_reset powered))

armed-Reached : Reached armed
unfolding armed
armed-Reached =
    by_step (by_step (from_reset powered) (listens irqa (some 7) (pia_6821_reset powered)))
      (writes 1 0x05 (pia_6821_set_listener irqa (some 7) (pia_6821_reset powered)))

told : (pia_6821_set_ca1 true armed).calls ≡ (7, 1) ∷ []
unfolding armed pia_6821_set_ca1 irq_level
told = refl

Reached-IsSettled_example : IsSettled armed
Reached-IsSettled_example = Reached-IsSettled armed armed-Reached

armed-enabled : (test armed.cra 0x01 ≡ true) × (test armed.cra 0x04 ≡ true)
unfolding armed irq_level
armed-enabled = (refl, refl)

set_ca1-raises_example :
    ((pia_6821_set_ca1 true armed).irq_a_state ≡ 1)
    × ((pia_6821_read 0 (pia_6821_set_ca1 true armed)).1.irq_a_state ≡ 0)
unfolding armed irq_level transition
set_ca1-raises_example =
    set_ca1-raises true armed (Reached-IsSettled armed armed-Reached) refl refl refl
