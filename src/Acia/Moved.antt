-- ===== src/Acia/Moved.antt =====
-- The chip seen from a later cycle until which nothing is due.
use linapple.Common.{
  ℕ, zero, suc, ◌+◌, ◌-◌, ◌*◌, ◌/◌, ◌<◌, ◌≤◌, Bool, true, false, if◌then◌else◌, ◌≡◌, ◌≢◌, refl,
  arith, Bool-cases, inl, inr,
}
use linapple.Acia.State.{Acia6551, frame_cycles}
use linapple.Acia.Events.{
  tx_boundary_armed, next_tx_boundary, next_tx, received, run_event, acia_next_event, idle_until,
  event_loop,
}
use linapple.Acia.Measure.{multiple_bounds, frame_bound, armed-frame, boundary_ahead}
use linapple.Acia.Settled.{moved-armed}
use linapple.Acia.InOrder.{InOrder}

-- The quotient of a cycle by a frame does not change before the next multiple.
same_multiple :
    (anchor synced now frame : ℕ)
    → anchor ≤ synced
    → synced ≤ now
    → frame ≢ 0
    → now < anchor + ((synced - anchor) / frame + 1) * frame
    → (now - anchor) / frame ≡ (synced - anchor) / frame
same_multiple anchor synced now frame h k l m = grind arith

moved-frame : (a : Acia6551) (now : ℕ) → frame_cycles (record a { synced = now }) ≡ frame_cycles a
unfolding frame_cycles
moved-frame a now = refl

moved-boundary :
    (a : Acia6551) (now : ℕ)
    → now < 9223372036854775808
    → InOrder a
    → a.synced ≤ now
    → tx_boundary_armed a ≡ true
    → now < next_tx_boundary a
    → next_tx_boundary (record a { synced = now }) ≡ next_tx_boundary a
unfolding next_tx_boundary
moved-boundary a now bound o past armed later =
    let frame = frame_cycles a in
    let same = same_multiple a.tx_anchor a.synced now frame o.anchor_past past in
    ground (
      arith,
      moved-frame a now,
      armed-frame a armed,
      frame_bound a,
      same,
      multiple_bounds a.tx_anchor a.synced frame o.anchor_past,
    )

-- A boundary is armed for a later cycle, if nothing is due until `now`.
idle-boundary :
    (a : Acia6551) (now : ℕ)
    → a.synced < 9223372036854775808
    → InOrder a
    → idle_until now a ≡ true
    → tx_boundary_armed a ≡ true
    → now < next_tx_boundary a
unfolding acia_next_event next_tx idle_until
idle-boundary a now bound o idle armed =
    ground (arith, boundary_ahead a armed, o.sending, o.receiving)

-- Seen from a cycle until which nothing is due, what comes next is the same.
moved-next_event :
    (a : Acia6551) (now : ℕ)
    → now < 9223372036854775808
    → InOrder a
    → a.synced ≤ now
    → idle_until now a ≡ true
    → acia_next_event (record a { synced = now }) ≡ acia_next_event a
unfolding acia_next_event next_tx
moved-next_event a now bound o past idle = elim (Bool-cases (tx_boundary_armed a)) [
  | inl armed ↦
      rw
        (
          moved-armed a now,
          armed,
          moved-boundary a now bound o past armed (idle-boundary a now (omega arith) o idle armed),
        )
        refl
  | inr off ↦ rw (moved-armed a now, off) refl
]

-- So is the round that runs it.
moved-run_event :
    (a : Acia6551) (now : ℕ)
    → now < 9223372036854775808
    → InOrder a
    → a.synced ≤ now
    → idle_until now a ≡ true
    → run_event (record a { synced = now }) (acia_next_event a) ≡ run_event a (acia_next_event a)
unfolding run_event received
moved-run_event a now bound o past idle = elim (Bool-cases (tx_boundary_armed a)) [
  | inl armed ↦
      rw
        (
          moved-armed a now,
          armed,
          moved-boundary a now bound o past armed (idle-boundary a now (omega arith) o idle armed),
        )
        refl
  | inr off ↦ rw (moved-armed a now, off) refl
]

stamped :
    (b : Bool) (m n : ℕ) (a rest : Acia6551)
    → record (if b then record a { synced = m } else rest) { synced = n }
      ≡ record (if b then a else rest) { synced = n }
stamped true m n a rest = refl
stamped false m n a rest = refl

-- The loop from a cycle until which nothing is due, and from the one before.
pub moved-event_loop :
    (m n fuel : ℕ) (a : Acia6551)
    → m < 9223372036854775808
    → InOrder a
    → a.synced ≤ m
    → idle_until m a ≡ true
    → record (event_loop n fuel (record a { synced = m })) { synced = n }
      ≡ record (event_loop n fuel a) { synced = n }
unfolding event_loop idle_until
moved-event_loop m n zero a bound o past idle = refl
moved-event_loop m n (suc fuel) a bound o past idle =
    rw (moved-next_event a m bound o past idle, moved-run_event a m bound o past idle)
      (stamped (idle_until n a) m n a (event_loop n fuel (run_event a (acia_next_event a))))
