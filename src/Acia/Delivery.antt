-- ===== src/Acia/Delivery.antt =====
-- The loop of `advance` on a character that comes in.
use linapple.Common.{
  ℕ, zero, suc, ◌<◌, ◌≤◌, true, false, ◌&&◌, ◌==◌, if_both, bound-cases, subst, ◌≡◌, ◌≢◌, ◌⊎◌,
  arith, Bool-cases, inl, inr,
}
use linapple.Acia.State.{Acia6551, rx_busy, rdrf, overrun, latch}
use linapple.Acia.Events.{
  tx_boundary_armed, next_tx_boundary, received, run_event, acia_next_event, idle_until, event_loop,
  event_fuel, advance,
}
use linapple.Acia.Settled.{event_loop-idle, event_fuel_enough}
use linapple.Acia.Traffic.{
  Arrival, AreErrors, IsWaiting, IsDelivered, receive_due-IsWaiting, receive_due-IsDelivered,
  receive_due_again, free_due-IsWaiting, free_due-IsDelivered, boundary-IsDelivered,
  boundary-IsWaiting,
}

pub run_event-IsWaiting :
    (r : Arrival) (a : Acia6551) (next : ℕ)
    → next < r.due
    → IsWaiting r a
    → IsWaiting r (run_event a next)
unfolding run_event received
run_event-IsWaiting r a next early w =
    let waiting = free_due-IsWaiting r _ next early (receive_due-IsWaiting r a next early w) in
    if_both (IsWaiting r) (tx_boundary_armed a && next_tx_boundary a == next)
      (boundary-IsWaiting r _ next waiting) waiting

run_event-IsDelivered :
    (r : Arrival) (a : Acia6551)
    → AreErrors r.errors
    → IsWaiting r a
    → IsDelivered r (run_event a r.due)
unfolding run_event received
run_event-IsDelivered r a e w =
    let delivered = free_due-IsDelivered r _ r.due (receive_due-IsDelivered r a e w) in
    if_both (IsDelivered r) (tx_boundary_armed a && next_tx_boundary a == r.due)
      (boundary-IsDelivered r _ r.due delivered) delivered

run_event_again :
    (r : Arrival) (a : Acia6551) (next : ℕ) → IsDelivered r a → IsDelivered r (run_event a next)
unfolding run_event received
run_event_again r a next d =
    let delivered = free_due-IsDelivered r _ next (receive_due_again r a next d) in
    if_both (IsDelivered r) (tx_boundary_armed a && next_tx_boundary a == next)
      (boundary-IsDelivered r _ next delivered) delivered

-- The point is not passed over.
waiting-next :
    (r : Arrival) (a : Acia6551)
    → r.due ≢ 0
    → IsWaiting r a
    → (acia_next_event a ≤ r.due) × (acia_next_event a ≢ 0)
unfolding acia_next_event
waiting-next r a h w = ground arith

idle_not_waiting :
    (r : Arrival) (a : Acia6551) (now : ℕ)
    → r.due ≢ 0
    → r.due ≤ now
    → IsWaiting r a
    → idle_until now a ≡ false
unfolding idle_until
idle_not_waiting r a now h past w = ground (arith, waiting-next r a h w)

run_event-either :
    (r : Arrival) (a : Acia6551)
    → AreErrors r.errors
    → r.due ≢ 0
    → IsWaiting r a ⊎ IsDelivered r a
    → IsWaiting r (run_event a (acia_next_event a))
      ⊎ IsDelivered r (run_event a (acia_next_event a))
run_event-either r a e some_time (inr d) = inr (run_event_again r a (acia_next_event a) d)
run_event-either r a e some_time (inl w) =
    let (past, later) = waiting-next r a some_time w in
    elim (bound-cases (acia_next_event a) r.due) [
      | inl early ↦ inl (run_event-IsWaiting r a (acia_next_event a) early w)
      | inr late ↦
          let at : r.due ≡ acia_next_event a = omega arith in
          inr (subst (λ next. IsDelivered r (run_event a next)) at (run_event-IsDelivered r a e w))
    ]

event_loop-either :
    (r : Arrival) (now fuel : ℕ) (a : Acia6551)
    → AreErrors r.errors
    → r.due ≢ 0
    → IsWaiting r a ⊎ IsDelivered r a
    → IsWaiting r (event_loop now fuel a) ⊎ IsDelivered r (event_loop now fuel a)
unfolding event_loop
event_loop-either r now zero a e some_time h = h
event_loop-either r now (suc fuel) a e some_time h = elim (Bool-cases (idle_until now a)) [
  | inl idle ↦ rw idle h
  | inr busy ↦ rw busy (
      event_loop-either r now fuel (run_event a (acia_next_event a)) e some_time
        (run_event-either r a e some_time h))
]

pub event_loop-IsDelivered :
    (r : Arrival) (now : ℕ) (a : Acia6551)
    → now < 9223372036854775808
    → a.synced ≤ now
    → AreErrors r.errors
    → r.due ≢ 0
    → r.due ≤ now
    → IsWaiting r a
    → IsDelivered r (event_loop now (event_fuel now) a)
event_loop-IsDelivered r now a bound past e some_time due w =
    let (idle, _) = event_loop-idle now (event_fuel now) a bound past (event_fuel_enough now a) in
    elim (event_loop-either r now (event_fuel now) a e some_time (inl w)) [
      | inl waiting ↦ absurd (ground (arith, idle_not_waiting r _ now some_time due waiting))
      | inr delivered ↦ delivered
    ]

-- What a character that comes in finds.
abbrev pub arrival_of : Acia6551 → Arrival
arrival_of a = record {
  byte = a.shift_data;
  errors = a.shift_errors;
  due = a.rx_rdrf_at;
  held = a.receive_data;
  full = latch a.status_latches rdrf;
  overrun_before = latch a.status_latches overrun;
}

-- A character is coming in, its point lies at a cycle after 0, not after the end of its frame and not
-- after `now`, and its errors are a framing or a parity error. Coming to `now`, below 2^63, sets RDRF
-- and completes it. If the register was empty it has the character, and the overrun bit is clear
-- where the character has no error and as it was where it has one; if an unread byte was there, it
-- keeps that byte, the character is lost, and the overrun bit says so.
pub advance-IsDelivered :
    (a : Acia6551) (now : ℕ)
    → now < 9223372036854775808
    → a.synced < now
    → latch a.status_latches rx_busy ≡ true
    → a.rx_completed ≡ false
    → a.rx_rdrf_at ≢ 0
    → a.rx_rdrf_at ≤ a.rx_free_at
    → a.rx_rdrf_at ≤ now
    → AreErrors a.shift_errors
    → IsDelivered (arrival_of a) (advance a now)
unfolding advance
advance-IsDelivered a now bound later busy running some_time ordered due e =
    let from : Acia6551 = record a { previous_synced = a.synced } in
    let waiting : IsWaiting (arrival_of a) from = ground arith in
    let delivered =
      event_loop-IsDelivered (arrival_of a) now from bound (omega arith) e some_time due waiting in
    ground (arith, delivered)
