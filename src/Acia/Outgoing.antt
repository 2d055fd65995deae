-- ===== src/Acia/Outgoing.antt =====
-- The loop of `advance` on a byte that waits to go out.
use linapple.Common.{
  ℕ, zero, suc, ◌<◌, ◌≤◌, Bool, true, false, not, ◌&&◌, ◌==◌, if◌then◌else◌, if_both, if_split, ◌≡◌,
  ◌≢◌, ◌⊎◌, refl, ap, arith, Bool-cases, inl, inr, some, ◌∙◌, bit_and,
}
use linapple.Acia.State.{Acia6551, tdr_full, tx_busy, latch, transmitter_sends, frame_cycles}
use linapple.Acia.Events.{
  tx_boundary_armed, next_tx_boundary, received, run_event, acia_next_event, next_tx, idle_until,
  event_loop, event_fuel, advance,
}
use linapple.Acia.Ports.{take_out, acia_step}
use linapple.Acia.Settled.{event_loop-idle, event_fuel_enough}
use linapple.Acia.Measure.{boundary_ahead}
use linapple.Acia.Mark.{mark}
use linapple.Acia.Compose.{run, stamp, advance_later}
use linapple.Acia.InOrder.{InOrder}
use linapple.Acia.Rounds.{event_loop-InOrder}
use linapple.Acia.Departure.{
  IsQueued, IsSent, sends-on, received-IsQueued, received-IsSent, boundary-IsSent, boundary-queued,
}

queued-armed :
    (due byte : ℕ) (a : Acia6551)
    → IsQueued due byte a
    → (tx_boundary_armed a ≡ true) × (next_tx_boundary a ≡ due)
unfolding tx_boundary_armed next_tx_boundary
queued-armed due byte a q = ground (arith, sends-on a q.queued_sends)

queued-next :
    (due byte : ℕ) (a : Acia6551) → due ≢ 0 → IsQueued due byte a → (acia_next_event a ≤ due)
unfolding acia_next_event next_tx
queued-next due byte a some_time q = ground (arith, queued-armed due byte a q)

run_event-IsSent :
    (byte : ℕ) (a : Acia6551) (next : ℕ) → IsSent byte a → IsSent byte (run_event a next)
unfolding run_event
run_event-IsSent byte a next s =
    let sent = received-IsSent byte a next s in
    if_both (IsSent byte) (tx_boundary_armed a && next_tx_boundary a == next)
      (boundary-IsSent byte (received a next) next sent) sent

run_event-either :
    (due byte : ℕ) (a : Acia6551) (next : ℕ)
    → IsQueued due byte a ⊎ IsSent byte a
    → IsQueued due byte (run_event a next) ⊎ IsSent byte (run_event a next)
run_event-either due byte a next (inr s) = inr (run_event-IsSent byte a next s)
run_event-either due byte a next (inl q) =
    unfold run_event in
    let waiting = received-IsQueued due byte a next q in
    if_split (λ (b : Acia6551). IsQueued due byte b ⊎ IsSent byte b)
      (tx_boundary_armed a && next_tx_boundary a == next)
      (λ _. inr (boundary-queued due byte (received a next) next waiting)) (λ _. inl waiting)

event_loop-either :
    (due byte now fuel : ℕ) (a : Acia6551)
    → IsQueued due byte a ⊎ IsSent byte a
    → IsQueued due byte (event_loop now fuel a) ⊎ IsSent byte (event_loop now fuel a)
unfolding event_loop
event_loop-either due byte now zero a h = h
event_loop-either due byte now (suc fuel) a h = elim (Bool-cases (idle_until now a)) [
  | inl idle ↦ rw idle h
  | inr busy ↦ rw busy (
      event_loop-either due byte now fuel (run_event a (acia_next_event a))
        (run_event-either due byte a (acia_next_event a) h))
]

-- A byte whose turn has come is not left waiting.
queued-busy :
    (due byte now : ℕ) (a : Acia6551)
    → a.synced < 9223372036854775808
    → InOrder a
    → due ≤ now
    → due ≢ 0
    → IsQueued due byte a
    → idle_until now a ≡ false
unfolding idle_until acia_next_event next_tx
queued-busy due byte now a bound o past some_time q =
    ground (arith, queued-armed due byte a q, o.receiving)

event_loop-IsSent :
    (due byte now : ℕ) (a : Acia6551)
    → now < 9223372036854775808
    → a.synced ≤ now
    → InOrder a
    → due ≢ 0
    → due ≤ now
    → IsQueued due byte a
    → IsSent byte (event_loop now (event_fuel now) a)
event_loop-IsSent due byte now a bound past o some_time h q =
    let (idle, past') =
      event_loop-idle now (event_fuel now) a bound past (event_fuel_enough now a) in
    let o' = event_loop-InOrder now (event_fuel now) a bound past o in
    elim (event_loop-either due byte now (event_fuel now) a (inl q)) [
      | inl waiting ↦
          absurd (ground (arith, queued-busy due byte now _ (omega arith) o' h some_time waiting))
      | inr sent ↦ sent
    ]

IsQueued-of :
    (a : Acia6551)
    → InOrder a
    → latch a.status_latches tx_busy ≡ true
    → latch a.status_latches tdr_full ≡ true
    → transmitter_sends a ≡ true
    → frame_cycles a ≢ 0
    → bit_and a.shift_errors tdr_full ≡ 0
    → IsQueued a.tx_busy_until a.transmit_data a
IsQueued-of a o busy full sends clocked errors = record {
  queued_busy = busy;
  queued_full = full;
  queued_byte = refl;
  queued_due = refl;
  queued_sends = sends;
  queued_clock = clocked;
  queued_errors = (ground (arith, o.not_sending), ground arith);
}

advance-IsSent :
    (byte now : ℕ) (a : Acia6551)
    → a.synced < now
    → IsSent byte (event_loop now (event_fuel now) a)
    → IsSent byte (advance a now)
unfolding run stamp mark
advance-IsSent byte now a later s = rw (advance_later a now later) (ground (arith, s))

taken : (a : Acia6551) (byte : ℕ) → IsSent byte a → (take_out a).1 ≡ some byte
unfolding take_out
taken a byte s = ground arith

unheld : (held : Bool) (a b : Acia6551) → held ≡ false → (if not held then a else b) ≡ a
unheld held a b h = rw h refl

step_silent :
    (a : Acia6551) (now byte : ℕ)
    → a.has_pending_out ≡ false
    → IsSent byte (advance a now)
    → (acia_step a now).1 ≡ some byte
unfolding acia_step
step_silent a now byte silent s =
    ap (λ (t : Acia6551). (take_out t).1) (unheld a.has_pending_out (advance a now) a silent)
    ∙ taken (advance a now) byte s

-- The chip is in order, holds no byte for the card, and sends a character while a second byte waits
-- in the transmit register; the transmitter is on, its character is longer than no cycle, and the
-- incoming frame's errors do not have the bit of that register. A step at a cycle below 2^63, later
-- than the chip's and not before the end of the first character, hands out the second byte.
pub queued_byte_leaves :
    (a : Acia6551) (now : ℕ)
    → now < 9223372036854775808
    → a.synced < now
    → InOrder a
    → a.has_pending_out ≡ false
    → latch a.status_latches tx_busy ≡ true
    → latch a.status_latches tdr_full ≡ true
    → transmitter_sends a ≡ true
    → frame_cycles a ≢ 0
    → bit_and a.shift_errors tdr_full ≡ 0
    → a.tx_busy_until ≤ now
    → (acia_step a now).1 ≡ some a.transmit_data
queued_byte_leaves a now bound later o silent busy full sends clocked errors due =
    let q = IsQueued-of a o busy full sends clocked errors in
    let (armed, at) = queued-armed a.tx_busy_until a.transmit_data a q in
    let ahead : a.synced < a.tx_busy_until =
      rw (← at) (boundary_ahead a armed (o.sending armed) (omega arith)) in
    let sent =
      event_loop-IsSent a.tx_busy_until a.transmit_data now a bound (omega arith) o (omega arith)
        due q in
    step_silent a now a.transmit_data silent (advance-IsSent a.transmit_data now a later sent)
