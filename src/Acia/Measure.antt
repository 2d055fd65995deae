-- ===== src/Acia/Measure.antt =====
-- What the loop of `advance` has left to do: the points of the frame that is coming in, a transmit
-- boundary that lies in the past, and the cycles to go.
use linapple.Common.{
  ℕ, ◌+◌, ◌-◌, ◌*◌, ◌<◌, ◌≤◌, ◌/◌, true, false, not, ◌&&◌, leb, ◌==◌, if◌then◌else◌, ◌≡◌, ◌≢◌, ◌⊎◌,
  inl, inr, refl, ap, ◌∙◌, arith, Bool-cases,
}
use linapple.Acia.State.{
  Acia6551, tx_busy, rx_busy, tdr_full, latch, set_latch, frame_cycles, acia_cycles_for,
}
use linapple.Acia.Events.{
  start_transmit, tx_boundary_armed, next_tx_boundary, on_tx_boundary, on_rx_rdrf, accept_byte,
  on_rx_free, receive_due, free_due, received, acia_next_event, next_tx,
}
use linapple.Acia.Latches.{latch-set_other, latch-clear_self, latch-clear_other}

-- The points of the incoming frame that are still to come.
unfoldable pub points_left : Acia6551 → ℕ
points_left a = if latch a.status_latches rx_busy then (if a.rx_completed then 1 else 2) else 0

-- The end of the outgoing frame is not ahead.
unfoldable pub stale : Acia6551 → ℕ
stale a = if latch a.status_latches tx_busy && leb a.tx_busy_until a.synced then 1 else 0

unfoldable pub measure : ℕ → Acia6551 → ℕ
measure now a = (points_left a * 2 + stale a) * (now + 1) + (now - a.synced)

pub stale-le : (a : Acia6551) → stale a ≤ 1
unfolding stale
stale-le a = ground arith

pub points_left-le : (a : Acia6551) → points_left a ≤ 2
unfolding points_left
points_left-le a = ground arith

pub cycles_for_bound :
    (clock control sixteenths : ℕ) → acia_cycles_for clock control sixteenths < 8589934592
unfolding acia_cycles_for
cycles_for_bound clock control sixteenths = ground arith

pub frame_bound : (a : Acia6551) → frame_cycles a < 8589934592
unfolding frame_cycles
frame_bound a = cycles_for_bound _ _ _

pub rdrf-completed : (a : Acia6551) → (on_rx_rdrf a).rx_completed ≡ true
unfolding on_rx_rdrf accept_byte
rdrf-completed a = ground arith

-- A point of the incoming frame either is not due, or is one less to come.
receive_due-points :
    (a : Acia6551) (next : ℕ)
    → (receive_due a next ≡ a) ⊎ (points_left (receive_due a next) + 1 ≤ points_left a)
unfolding receive_due points_left
receive_due-points a next =
    elim (Bool-cases
      (latch a.status_latches rx_busy && not a.rx_completed && a.rx_rdrf_at == next)) [
        | inl due ↦ inr (ground (arith, rdrf-completed a))
        | inr e ↦ inl (rw e refl)
      ]

free_due-points :
    (a : Acia6551) (next : ℕ)
    → (free_due a next ≡ a) ⊎ (points_left (free_due a next) + 1 ≤ points_left a)
unfolding free_due points_left on_rx_free
free_due-points a next =
    elim (Bool-cases (latch a.status_latches rx_busy && a.rx_free_at == next)) [
      | inl due ↦ inr (ground (arith, latch-clear_self a.status_latches rx_busy))
      | inr e ↦ inl (rw e refl)
    ]

pub boundary_keeps :
    (a : Acia6551) (at : ℕ)
    → (points_left (on_tx_boundary a at) ≡ points_left a)
      × ((on_tx_boundary a at).synced ≡ a.synced)
unfolding on_tx_boundary start_transmit points_left
boundary_keeps a at = ground (
  arith,
  latch-clear_other a.status_latches tx_busy rx_busy,
  latch-clear_other (set_latch a.status_latches tx_busy false) tdr_full rx_busy,
  latch-set_other (set_latch (set_latch a.status_latches tx_busy false) tdr_full false) tx_busy
      rx_busy,
)

pub boundary_fresh :
    (a : Acia6551) (at : ℕ)
    → frame_cycles a ≢ 0
    → a.synced ≡ at
    → at < 9223372036854775808
    → stale (on_tx_boundary a at) ≡ 0
unfolding on_tx_boundary start_transmit stale frame_cycles
boundary_fresh a at h e lt =
    ground (arith, frame_bound a, latch-clear_self a.status_latches tx_busy)

pub received-points :
    (a : Acia6551) (next : ℕ)
    → (received a next ≡ record a { synced = next })
      ⊎ (points_left (received a next) + 1 ≤ points_left a)
unfolding received
received-points a next =
    let moved : Acia6551 = record a { synced = next } in
    let same : points_left moved ≡ points_left a = unfold points_left in refl in
    elim (receive_due-points moved next) [
      | inl none_due ↦ elim (free_due-points (receive_due moved next) next) [
        | inl still ↦ inl (still ∙ none_due)
        | inr fewer ↦ inr (ground (arith, ap points_left none_due))
      ]
      | inr fewer ↦ elim (free_due-points (receive_due moved next) next) [
        | inl still ↦ inr (ground (arith, ap points_left still))
        | inr more ↦ inr (omega arith)
      ]
    ]

-- What the receiver leaves alone.
pub record SameTransmitter (a b : Acia6551) : Type 0 where
  pub same_clock : b.clock_mhz ≡ a.clock_mhz
  pub same_control : b.control ≡ a.control
  pub same_command : b.command ≡ a.command
  pub same_lines : b.lines ≡ a.lines
  pub same_break : b.break_level ≡ a.break_level
  pub same_synced : b.synced ≡ a.synced
  pub same_anchor : b.tx_anchor ≡ a.tx_anchor
  pub same_busy_until : b.tx_busy_until ≡ a.tx_busy_until

receive_due-SameTransmitter : (a : Acia6551) (next : ℕ) → SameTransmitter a (receive_due a next)
unfolding receive_due on_rx_rdrf accept_byte
receive_due-SameTransmitter a next = ground arith

free_due-SameTransmitter : (a : Acia6551) (next : ℕ) → SameTransmitter a (free_due a next)
unfolding free_due on_rx_free
free_due-SameTransmitter a next = ground arith

pub received-SameTransmitter :
    (a : Acia6551) (next : ℕ) → SameTransmitter (record a { synced = next }) (received a next)
unfolding received
received-SameTransmitter a next =
    let moved : Acia6551 = record a { synced = next } in
    ground (
      arith,
      receive_due-SameTransmitter moved next,
      free_due-SameTransmitter (receive_due moved next) next,
    )

pub received-frame : (a : Acia6551) (next : ℕ) → frame_cycles (received a next) ≡ frame_cycles a
unfolding frame_cycles
received-frame a next =
    let same = received-SameTransmitter a next in
    rw (same.same_clock, same.same_control, same.same_command) refl

pub armed-frame : (a : Acia6551) → tx_boundary_armed a ≡ true → frame_cycles a ≢ 0
unfolding tx_boundary_armed
armed-frame a h = ground arith

-- The first multiple of a frame after `synced`.
pub multiple_bounds :
    (anchor synced frame : ℕ)
    → anchor ≤ synced
    → frame ≢ 0
    → (synced < anchor + ((synced - anchor) / frame + 1) * frame)
      × (anchor + ((synced - anchor) / frame + 1) * frame ≤ synced + frame)
multiple_bounds anchor synced frame h k = grind arith

-- A boundary that is armed and not stale lies ahead.
pub boundary_ahead :
    (a : Acia6551)
    → tx_boundary_armed a ≡ true
    → stale a ≡ 0
    → a.synced < 9223372036854775808
    → a.synced < next_tx_boundary a
unfolding next_tx_boundary stale
boundary_ahead a h fresh bound = ground (
  arith,
  armed-frame a,
  frame_bound a,
  multiple_bounds a.tx_anchor a.synced (frame_cycles a),
  multiple_bounds a.synced a.synced (frame_cycles a),
)

-- The receiver's next point.
abbrev pub next_rx : Acia6551 → ℕ
next_rx a = if a.rx_completed then a.rx_free_at else a.rx_rdrf_at

-- An event that is due is the transmitter's or the receiver's.
pub event-cases :
    (a : Acia6551)
    → acia_next_event a ≢ 0
    → ((tx_boundary_armed a ≡ true) × (next_tx_boundary a ≡ acia_next_event a))
      ⊎ ((latch a.status_latches rx_busy ≡ true) × (next_rx a ≡ acia_next_event a))
unfolding acia_next_event next_tx
event-cases a h = ground arith

receive_due-drops :
    (a : Acia6551) (next : ℕ)
    → latch a.status_latches rx_busy ≡ true
    → a.rx_completed ≡ false
    → a.rx_rdrf_at ≡ next
    → points_left (receive_due a next) + 1 ≤ points_left a
unfolding receive_due points_left
receive_due-drops a next busy e at = ground (arith, rdrf-completed a)

free_due-drops :
    (a : Acia6551) (next : ℕ)
    → latch a.status_latches rx_busy ≡ true
    → a.rx_free_at ≡ next
    → points_left (free_due a next) + 1 ≤ points_left a
unfolding free_due points_left on_rx_free
free_due-drops a next busy at = ground (arith, latch-clear_self a.status_latches rx_busy)

receive_due_completed : (a : Acia6551) (next : ℕ) → a.rx_completed ≡ true → receive_due a next ≡ a
unfolding receive_due
receive_due_completed a next e = ground arith

pub due_received :
    (a : Acia6551) (next : ℕ)
    → latch a.status_latches rx_busy ≡ true
    → next_rx a ≡ next
    → points_left (received a next) + 1 ≤ points_left a
unfolding received
due_received a next h e =
    let moved : Acia6551 = record a { synced = next } in
    let same : points_left moved ≡ points_left a = unfold points_left in refl in
    elim (Bool-cases a.rx_completed) [
      | inl complete ↦
          rw (receive_due_completed moved next complete)
            (rw (← same) (free_due-drops moved next h (ground arith)))
      | inr running ↦ elim (free_due-points (receive_due moved next) next) [
        | inl still ↦ rw still (rw (← same) (receive_due-drops moved next h running (ground arith)))
        | inr fewer ↦ ground (arith, receive_due-drops moved next h running)
      ]
    ]
