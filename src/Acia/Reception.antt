-- ===== src/Acia/Reception.antt =====
-- A character from acia_rx_start to the cycle where it is there (apple2/chips/6551.cpp).
use native.Mathlib.Nat.{mod-eq_of_lt}
use linapple.Common.{
  ℕ, zero, suc, ◌+◌, ◌-◌, ◌<◌, ◌≤◌, true, false, ◌&&◌, ltb, leb, bit_and, bit_and_assoc,
  bit_and-zero, if◌then◌else◌, ◌≡◌, ◌≢◌, refl, ap, sym, subst, arith, ◌∙◌, Bool-cases, inl, inr,
}
use linapple.Acia.State.{
  Acia6551, overrun, error_mask, rdrf, rx_busy, latch, has_clock, wrap64, frame_cycles, rdrf_cycles,
}
use linapple.Acia.Events.{run_event, acia_next_event, idle_until, event_loop, event_fuel, advance}
use linapple.Acia.Ports.{ready_since, rx_start_cycle, begin_frame, acia_rx_start}
use linapple.Acia.Measure.{frame_bound, cycles_for_bound}
use linapple.Acia.Latches.{latch-set_self, latch-set_other}
use linapple.Acia.Traffic.{Arrival, AreErrors, IsWaiting, IsDelivered}
use linapple.Acia.Delivery.{run_event-IsWaiting, event_loop-IsDelivered}
use linapple.Acia.Exchange.{advance-synced, begin_frame-synced, acia_rx_start-begin_frame}

-- The loop up to a cycle before the point.
event_loop-IsWaiting :
    (r : Arrival) (now fuel : ℕ) (a : Acia6551)
    → now < r.due
    → IsWaiting r a
    → IsWaiting r (event_loop now fuel a)
unfolding event_loop
event_loop-IsWaiting r now zero a h w = w
event_loop-IsWaiting r now (suc fuel) a h w = elim (Bool-cases (idle_until now a)) [
  | inl idle ↦ rw idle w
  | inr busy ↦
      let due : acia_next_event a ≤ now = unfold idle_until in ground arith in
      rw busy (
        event_loop-IsWaiting r now fuel (run_event a (acia_next_event a)) h
          (run_event-IsWaiting r a (acia_next_event a) (omega arith) w))
]

advance-IsWaiting :
    (r : Arrival) (a : Acia6551) (now : ℕ)
    → a.synced < now
    → now < r.due
    → IsWaiting r a
    → IsWaiting r (advance a now)
unfolding advance
advance-IsWaiting r a now later h w =
    let from : Acia6551 = record a { previous_synced = a.synced } in
    let waiting : IsWaiting r from = ground arith in
    let after = event_loop-IsWaiting r now (event_fuel now) from h waiting in ground (arith, after)

late-IsDelivered :
    (r : Arrival) (a : Acia6551) (now : ℕ)
    → now < 9223372036854775808
    → a.synced < now
    → r.due ≢ 0
    → r.due ≤ now
    → AreErrors r.errors
    → IsWaiting r a
    → IsDelivered r (advance a now)
unfolding advance
late-IsDelivered r a now bound later some due e w =
    let from : Acia6551 = record a { previous_synced = a.synced } in
    let waiting : IsWaiting r from = ground arith in
    let delivered = event_loop-IsDelivered r now from bound (omega arith) e some due waiting in
    ground (arith, delivered)

masked-AreErrors : (errors : ℕ) → AreErrors (bit_and (bit_and errors error_mask) (255 - overrun))
masked-AreErrors errors = record {
  not_overrun = bit_and_assoc (bit_and errors error_mask) 251 overrun ∙ bit_and-zero _;
  not_rdrf =
      bit_and_assoc (bit_and errors error_mask) 251 rdrf
      ∙ bit_and_assoc errors error_mask 8
      ∙ bit_and-zero errors;
  not_rx_busy =
      bit_and_assoc (bit_and errors error_mask) 251 rx_busy
      ∙ bit_and_assoc errors error_mask 64
      ∙ bit_and-zero errors;
}

-- When a character that is handed over at `now` begins: where the receiver became free, with its register
-- emptied, after the chip was last looked at before, it begins there, else at `now`.
abbrev pub begins : Acia6551 → ℕ → ℕ
begins a now =
    let free =
      if ltb a.rdr_emptied_cycle a.rx_freed_cycle then a.rx_freed_cycle else a.rdr_emptied_cycle in
    if ltb a.previous_synced free && leb free now then free else now

-- The character, and what it finds in the receiver at `now`.
abbrev pub incoming : Acia6551 → ℕ → ℕ → ℕ → Arrival
incoming a byte errors now = record {
  byte = byte;
  errors = bit_and (bit_and errors error_mask) (255 - overrun);
  due = begins a now + rdrf_cycles a;
  held = a.receive_data;
  full = latch a.status_latches rdrf;
  overrun_before = latch a.status_latches overrun;
}

rdrf_bound : (a : Acia6551) → rdrf_cycles a < 8589934592
unfolding rdrf_cycles
rdrf_bound a = cycles_for_bound _ _ _

begins-le : (a : Acia6551) (now : ℕ) → begins a now ≤ now
begins-le a now = ground arith

start-begins : (a : Acia6551) (now : ℕ) → rx_start_cycle a now ≡ begins a now
unfolding rx_start_cycle ready_since
start-begins a now = refl

begin_frame-IsWaiting :
    (a : Acia6551) (byte errors now : ℕ)
    → now < 9223372036854775808
    → rdrf_cycles a ≤ frame_cycles a
    → IsWaiting (incoming a byte errors now) (begin_frame a byte errors now)
unfolding begin_frame
begin_frame-IsWaiting a byte errors now bound ordered =
    let start = start-begins a now in
    let past = begins-le a now in
    let at : wrap64 (rx_start_cycle a now + rdrf_cycles a) ≡ begins a now + rdrf_cycles a =
      mod-eq_of_lt (omega (arith, start, past, rdrf_bound a)) ∙ ap (λ s. s + rdrf_cycles a) start in
    let end : wrap64 (rx_start_cycle a now + frame_cycles a) ≡ begins a now + frame_cycles a =
      mod-eq_of_lt (omega (arith, start, past, frame_bound a))
      ∙ ap (λ s. s + frame_cycles a) start in
    record {
      waiting_busy = latch-set_self a.status_latches rx_busy (omega arith);
      waiting_running = refl;
      waiting_at = at;
      waiting_free = subst (λ e. begins a now + rdrf_cycles a ≤ e) (sym end) (omega arith);
      waiting_byte = refl;
      waiting_errors = refl;
      waiting_held = refl;
      waiting_full = latch-set_other a.status_latches rx_busy rdrf refl;
      waiting_overrun = latch-set_other a.status_latches rx_busy overrun refl;
    }

-- What the receiver has at `later` of a character that was handed over.
pub Received : Arrival → ℕ → Acia6551 → Type 0
Received r later a = if leb r.due later then IsDelivered r a else IsWaiting r a

begun-Received :
    (a : Acia6551) (byte errors now later : ℕ)
    → later < 9223372036854775808
    → a.synced ≡ now
    → now < later
    → rdrf_cycles a ≤ frame_cycles a
    → begins a now + rdrf_cycles a ≢ 0
    → Received (incoming a byte errors now) later (advance (begin_frame a byte errors now) later)
unfolding Received
begun-Received a byte errors now later bound at h ordered some =
    let r = incoming a byte errors now in
    let begun = begin_frame a byte errors now in
    let waiting = begin_frame-IsWaiting a byte errors now (omega arith) ordered in
    let past : begun.synced < later = omega (arith, begin_frame-synced a byte errors now) in
    elim (Bool-cases (leb r.due later)) [
      | inl due ↦ rw due (
          late-IsDelivered r begun later bound past some (ground arith) (masked-AreErrors errors)
            waiting)
      | inr early ↦ rw early (advance-IsWaiting r begun later past (ground arith) waiting)
    ]

-- When the chip has a clock and its shifter is free at `now`, a character that acia_rx_start is handed there comes in
-- as a frame from where the receiver became free, with its register emptied, if that was after the chip was
-- last looked at before and not after `now`, and from `now` if not. At any later cycle below 2^63 that is before the
-- frame's point it is still in the shifter, with the register, RDRF and the overrun bit as they were. From that point on
-- it has come in and RDRF is set: a register that was empty has it, one that was full keeps its byte and the overrun
-- bit is set. Of the errors the framing and the parity error are kept. The point is assumed to lie after cycle 0 and
-- not after the end of the frame.
pub acia_rx_start-Received :
    (a : Acia6551) (byte errors now later : ℕ)
    → later < 9223372036854775808
    → now < later
    → has_clock a.clock_mhz a.control ≡ true
    → latch (advance a now).status_latches rx_busy ≡ false
    → rdrf_cycles (advance a now) ≤ frame_cycles (advance a now)
    → begins (advance a now) now + rdrf_cycles (advance a now) ≢ 0
    → Received
        (incoming (advance a now) byte errors now)
        later
        (advance (acia_rx_start a byte errors now) later)
acia_rx_start-Received a byte errors now later bound h clocked free ordered some =
    subst
      (λ (b : Acia6551).
        Received (incoming (advance a now) byte errors now) later (advance b later))
      (sym (acia_rx_start-begin_frame a byte errors now clocked free))
      (begun-Received (advance a now) byte errors now later bound (advance-synced a now) h ordered
        some)
