-- ===== src/Acia/Settled.antt =====
-- The loop of `advance` ends by its own test.
use linapple.Common.{
  ℕ, zero, suc, ◌+◌, ◌-◌, ◌*◌, ◌<◌, ◌≤◌, true, false, ◌==◌, ◌≡◌, ◌≢◌, ◌⊎◌, inl, inr, refl, ap, ◌∙◌,
  arith, Bool-cases,
}
use linapple.Acia.State.{Acia6551, frame_cycles, transmitter_sends, latch, tx_busy}
use linapple.Acia.Events.{
  tx_boundary_armed, next_tx_boundary, next_tx, tx_interrupts, received, run_event, acia_next_event,
  idle_until, event_loop, event_fuel, advance,
}
use linapple.Acia.Measure.{
  points_left, points_left-le, stale, stale-le, measure, received-points, received-SameTransmitter,
  received-frame, armed-frame, boundary_ahead, event-cases, due_received, boundary_keeps,
  boundary_fresh,
}

pub run_event-points :
    (a : Acia6551) (next : ℕ)
    → (points_left (run_event a next) ≡ points_left (received a next))
      × ((run_event a next).synced ≡ next)
unfolding run_event
run_event-points a next =
    ground (arith, boundary_keeps (received a next) next, received-SameTransmitter a next)

drop_points :
    (k p p' s s' t t' : ℕ)
    → p' + 1 ≤ p
    → s' ≤ 1
    → t' < k
    → (p' * 2 + s') * k + t' < (p * 2 + s) * k + t
drop_points k p p' s s' t t' h fresh below = grind arith

drop_stale : (k p s t t' : ℕ) → s ≢ 0 → t' < k → (p * 2 + 0) * k + t' < (p * 2 + s) * k + t
drop_stale k p s t t' h below = grind arith

measure-received :
    (now : ℕ) (a : Acia6551) (next : ℕ)
    → next ≢ 0
    → next ≤ now
    → points_left (received a next) + 1 ≤ points_left a
    → measure now (run_event a next) < measure now a
unfolding measure
measure-received now a next some_time past fewer =
    let (points, synced) = run_event-points a next in
    rw points (
      drop_points (now + 1) (points_left a) (points_left (received a next)) (stale a)
        (stale (run_event a next)) (now - a.synced) (now - (run_event a next).synced) fewer
        (stale-le _) (omega arith))

-- A transmit boundary comes out fresh.
run_event-fresh :
    (a : Acia6551) (next : ℕ)
    → tx_boundary_armed a ≡ true
    → next_tx_boundary a ≡ next
    → next < 9223372036854775808
    → stale (run_event a next) ≡ 0
unfolding run_event
run_event-fresh a next armed at bound =
    let fresh = boundary_fresh (received a next) next in
    ground (arith, fresh, received-frame a next, armed-frame a, received-SameTransmitter a next)

measure_sent :
    (now : ℕ) (a : Acia6551) (next : ℕ)
    → now < 9223372036854775808
    → a.synced ≤ now
    → next ≤ now
    → next ≢ 0
    → tx_boundary_armed a ≡ true
    → next_tx_boundary a ≡ next
    → points_left (received a next) ≡ points_left a
    → measure now (run_event a next) < measure now a
unfolding measure
measure_sent now a next bound past below some_time armed at same =
    let (points, synced) = run_event-points a next in
    let fresh = run_event-fresh a next armed at (omega arith) in
    rw (points, fresh, same, synced)
      (elim (Bool-cases (stale a == 0)) [
        | inl ahead ↦ let later = boundary_ahead a armed in ground (arith, later)
        | inr behind ↦
            drop_stale (now + 1) (points_left a) (stale a) (now - a.synced) (now - next)
              (ground arith) (omega arith)
      ])

-- Every round of the loop leaves less to do.
pub run_event-measure :
    (now : ℕ) (a : Acia6551)
    → now < 9223372036854775808
    → a.synced ≤ now
    → idle_until now a ≡ false
    → (measure now (run_event a (acia_next_event a)) < measure now a)
      × ((run_event a (acia_next_event a)).synced ≤ now)
unfolding idle_until points_left
run_event-measure now a bound past h =
    let next = acia_next_event a in
    let some_time : next ≢ 0 = ground arith in
    let below : next ≤ now = ground arith in
    let (points, synced) = run_event-points a next in
    (
      elim (received-points a next) [
        | inr fewer ↦ measure-received now a next some_time below fewer
        | inl still ↦ elim (event-cases a some_time) [
          | inr (busy, at) ↦
              measure-received now a next some_time below (due_received a next busy at)
          | inl (armed, at) ↦
              measure_sent now a next bound past below some_time armed at (ap points_left still)
        ]
      ],
      omega arith,
    )

-- With more fuel than there is to do, the loop ends with nothing due.
pub event_loop-idle :
    (now fuel : ℕ) (a : Acia6551)
    → now < 9223372036854775808
    → a.synced ≤ now
    → measure now a < fuel
    → (idle_until now (event_loop now fuel a) ≡ true) × ((event_loop now fuel a).synced ≤ now)
unfolding event_loop
event_loop-idle now zero a bound past h = absurd (omega arith)
event_loop-idle now (suc fuel) a bound past h = elim (Bool-cases (idle_until now a)) [
  | inl idle ↦ rw idle (idle, past)
  | inr busy ↦
      let (less, past') = run_event-measure now a bound past busy in
      rw busy (event_loop-idle now fuel (run_event a (acia_next_event a)) bound past' (omega arith))
]

-- The fuel of `advance` is enough.
pub event_fuel_enough : (now : ℕ) (a : Acia6551) → measure now a < event_fuel now
unfolding measure
event_fuel_enough now a = let points = points_left-le a in let fresh = stale-le a in grind arith

pub moved-armed :
    (a : Acia6551) (now : ℕ) → tx_boundary_armed (record a { synced = now }) ≡ tx_boundary_armed a
unfolding tx_boundary_armed tx_interrupts transmitter_sends frame_cycles
moved-armed a now = refl

moved_ahead :
    (a : Acia6551) (now : ℕ)
    → now < 9223372036854775808
    → tx_boundary_armed a ≡ true
    → latch a.status_latches tx_busy ≡ false
    → now < next_tx_boundary (record a { synced = now })
unfolding stale
moved_ahead a now bound armed free =
    boundary_ahead (record a { synced = now }) (moved-armed a now ∙ armed) (rw free refl) bound

-- Seen from `now`, a transmit boundary is the same, or later than `now`.
moved-next_tx :
    (a : Acia6551) (now : ℕ)
    → now < 9223372036854775808
    → (next_tx (record a { synced = now }) ≡ next_tx a)
      ⊎ (now < next_tx (record a { synced = now }))
unfolding next_tx next_tx_boundary
moved-next_tx a now bound = elim (Bool-cases (latch a.status_latches tx_busy)) [
  | inl busy ↦ inl (rw (busy, moved-armed a now) refl)
  | inr free ↦ ground (arith, moved-armed a now, moved_ahead a now bound)
]

moved-idle :
    (a : Acia6551) (now : ℕ)
    → now < 9223372036854775808
    → idle_until now a ≡ true
    → idle_until now (record a { synced = now }) ≡ true
unfolding idle_until acia_next_event
moved-idle a now bound h = elim (moved-next_tx a now bound) [
  | inl same ↦ rw same h
  | inr later ↦ ground arith
]

idle-elim :
    (a : Acia6551) (now : ℕ)
    → idle_until now a ≡ true
    → (acia_next_event a ≡ 0) ⊎ (now < acia_next_event a)
unfolding idle_until
idle-elim a now h = ground arith

-- When `advance` has come to a later cycle `now`, below 2^63, the chip's time is `now` and no event
-- is left that is due then: the loop ended by its own test.
pub advance-IsSettled :
    (a : Acia6551) (now : ℕ)
    → now < 9223372036854775808
    → a.synced < now
    → ((advance a now).synced ≡ now)
      × ((acia_next_event (advance a now) ≡ 0) ⊎ (now < acia_next_event (advance a now)))
unfolding advance
advance-IsSettled a now bound later =
    let from : Acia6551 = record a { previous_synced = a.synced } in
    let (idle, past) =
      event_loop-idle now (event_fuel now) from bound (omega arith) (event_fuel_enough now from) in
    let ran = event_loop now (event_fuel now) from in
    let done = moved-idle ran now bound idle in
    ground (arith, idle-elim (record ran { synced = now }) now done)
