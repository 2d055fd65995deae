-- ===== src/Acia/Mark.antt =====
-- No event reads or writes `previous_synced`, and none reads anything but the state and its cycle.
use linapple.Common.{
  ℕ, zero, suc, Bool, true, false, ◌&&◌, ◌==◌, if◌then◌else◌, ◌≡◌, refl, ap, arith, ◌∙◌,
}
use linapple.Acia.State.{Acia6551, frame_cycles, transmitter_sends}
use linapple.Acia.Events.{
  start_transmit, tx_interrupts, tx_boundary_armed, next_tx_boundary, next_tx, on_tx_boundary,
  accept_byte, on_rx_rdrf, on_rx_free, receive_due, free_due, received, run_event, acia_next_event,
  idle_until, event_loop,
}

unfoldable pub mark : ℕ → Acia6551 → Acia6551
mark p a = record a { previous_synced = p }

mark-on_tx_boundary :
    (p : ℕ) (a : Acia6551) (at : ℕ) → on_tx_boundary (mark p a) at ≡ mark p (on_tx_boundary a at)
unfolding mark on_tx_boundary start_transmit tx_interrupts transmitter_sends frame_cycles
mark-on_tx_boundary p a at = ground arith

mark-receive_due :
    (p : ℕ) (a : Acia6551) (next : ℕ) → receive_due (mark p a) next ≡ mark p (receive_due a next)
unfolding mark receive_due on_rx_rdrf accept_byte
mark-receive_due p a next = ground arith

mark-free_due :
    (p : ℕ) (a : Acia6551) (next : ℕ) → free_due (mark p a) next ≡ mark p (free_due a next)
unfolding mark free_due on_rx_free
mark-free_due p a next = ground arith

stamp-mark :
    (p : ℕ) (a : Acia6551) (t : ℕ)
    → record (mark p a) { synced = t } ≡ mark p (record a { synced = t })
unfolding mark
stamp-mark p a t = refl

mark-received :
    (p : ℕ) (a : Acia6551) (next : ℕ) → received (mark p a) next ≡ mark p (received a next)
unfolding received
mark-received p a next =
    let moved : Acia6551 = record a { synced = next } in
    ap (λ (t : Acia6551). free_due (receive_due t next) next) (stamp-mark p a next)
    ∙ ap (λ (t : Acia6551). free_due t next) (mark-receive_due p moved next)
    ∙ mark-free_due p (receive_due moved next) next

mark-if :
    (p : ℕ) (b : Bool) (a rest : Acia6551)
    → (if b then mark p a else mark p rest) ≡ mark p (if b then a else rest)
mark-if p true a rest = refl
mark-if p false a rest = refl

mark-armed : (p : ℕ) (a : Acia6551) → tx_boundary_armed (mark p a) ≡ tx_boundary_armed a
unfolding mark tx_boundary_armed tx_interrupts transmitter_sends frame_cycles
mark-armed p a = refl

mark-boundary : (p : ℕ) (a : Acia6551) → next_tx_boundary (mark p a) ≡ next_tx_boundary a
unfolding mark next_tx_boundary frame_cycles
mark-boundary p a = refl

mark-run_event :
    (p : ℕ) (a : Acia6551) (next : ℕ) → run_event (mark p a) next ≡ mark p (run_event a next)
unfolding run_event
mark-run_event p a next =
    rw
      (
        mark-armed p a,
        mark-boundary p a,
        mark-received p a next,
        mark-on_tx_boundary p (received a next) next,
      )
      (mark-if p (tx_boundary_armed a && next_tx_boundary a == next)
        (on_tx_boundary (received a next) next) (received a next))

mark-next_event : (p : ℕ) (a : Acia6551) → acia_next_event (mark p a) ≡ acia_next_event a
unfolding mark acia_next_event next_tx next_tx_boundary tx_boundary_armed tx_interrupts
    transmitter_sends frame_cycles
mark-next_event p a = refl

pub mark-event_loop :
    (now fuel p : ℕ) (a : Acia6551)
    → event_loop now fuel (mark p a) ≡ mark p (event_loop now fuel a)
unfolding event_loop idle_until
mark-event_loop now zero p a = refl
mark-event_loop now (suc fuel) p a =
    rw
      (
        mark-next_event p a,
        mark-run_event p a (acia_next_event a),
        mark-event_loop now fuel p (run_event a (acia_next_event a)),
      )
      (mark-if p (idle_until now a) a (event_loop now fuel (run_event a (acia_next_event a))))
