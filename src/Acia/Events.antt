-- ===== src/Acia/Events.antt =====
-- What happens in the 6551 at a cycle, and `advance`, the loop that runs what has become due.
use linapple.Common.{
  ℕ, zero, suc, ◌+◌, ◌-◌, ◌*◌, ◌/◌, Bool, true, false, not, ◌&&◌, ◌||◌, ltb, leb, ◌==◌,
  if◌then◌else◌,
}
use linapple.Acia.State.{
  Acia6551, rx_irq_disable, tic_off, tic_irq, tic_break, echo, overrun, error_mask, rdrf, tdr_full,
  tx_busy, rx_busy, cts, wrap64, test, has_clock, tic, dtr, latch, set_latch, transmitter_sends,
  frame_cycles,
}

unfoldable pub raise_irq : Acia6551 → Bool → Acia6551
raise_irq a from_lines = record a {
  irq = true;
  irq_from_lines =
      if not a.irq then from_lines else if not from_lines then false else a.irq_from_lines;
}

unfoldable pub emit : Acia6551 → ℕ → Acia6551
emit a byte = record a { pending_out = byte; has_pending_out = true }

-- The character leaves the data register, and its frame begins.
unfoldable pub start_transmit : Acia6551 → ℕ → Acia6551
unfolding emit raise_irq
start_transmit a at =
    let sent = emit a a.transmit_data in
    let started = record sent {
      status_latches = set_latch (set_latch a.status_latches tdr_full false) tx_busy true;
      tx_anchor = at;
      tx_busy_until = wrap64 (at + frame_cycles a);
    } in
    if tic a.command == tic_irq && dtr a.command then raise_irq started false else started

unfoldable pub try_start_transmit : Acia6551 → ℕ → Acia6551
try_start_transmit a at =
    if latch a.status_latches tdr_full
      && not (latch a.status_latches tx_busy)
      && transmitter_sends a
    then start_transmit a at
    else a

-- The interrupt recurs at every boundary of a transmitter that is on.
unfoldable pub tx_interrupts : Acia6551 → Bool
tx_interrupts a = tic a.command == tic_irq && dtr a.command && transmitter_sends a

unfoldable pub tx_boundary_armed : Acia6551 → Bool
tx_boundary_armed a =
    if not (has_clock a.clock_mhz a.control) || frame_cycles a == 0
    then false
    else if latch a.status_latches tx_busy
    then true
    else if tx_interrupts a
    then true
    else tic a.command == tic_break && not a.break_level

unfoldable pub next_tx_boundary : Acia6551 → ℕ
next_tx_boundary a =
    if latch a.status_latches tx_busy
    then a.tx_busy_until
    else let frame = frame_cycles a in
      let anchor = if leb a.tx_anchor a.synced then a.tx_anchor else a.synced in
      let elapsed = a.synced - anchor in wrap64 (anchor + (elapsed / frame + 1) * frame)

unfoldable pub on_tx_boundary : Acia6551 → ℕ → Acia6551
on_tx_boundary a at =
    let freed = record a { status_latches = set_latch a.status_latches tx_busy false } in
    if tic freed.command == tic_break
    then record freed { break_level = true }
    else if latch freed.status_latches tdr_full && transmitter_sends freed
    then start_transmit freed at
    else let anchored = record freed { tx_anchor = at } in
      if tx_interrupts anchored then raise_irq anchored false else anchored

-- A byte that reaches an empty receive register.
unfoldable pub accept_byte : Acia6551 → ℕ → Acia6551
unfolding raise_irq emit
accept_byte a byte =
    let full = set_latch a.status_latches rdrf true in
    let received = record a {
      receive_data = byte;
      status_latches =
          if a.shift_errors == 0
          then set_latch full error_mask false
          else set_latch full a.shift_errors true;
    } in
    let signalled =
      if dtr a.command && not (test a.command rx_irq_disable)
      then raise_irq received false
      else received in
    if test a.command echo
      && tic a.command == tic_off
      && has_clock a.clock_mhz a.control
      && test a.lines cts
    then emit signalled byte
    else signalled

unfoldable pub on_rx_rdrf : Acia6551 → Acia6551
unfolding accept_byte
on_rx_rdrf a =
    let byte = a.shift_data in
    let done = record a { rx_completed = true; shift_data = 0 } in
    if latch done.status_latches rdrf
    then record done { status_latches = set_latch done.status_latches overrun true }
    else accept_byte done byte

unfoldable pub on_rx_free : Acia6551 → ℕ → Acia6551
on_rx_free a at = record a {
  status_latches = set_latch a.status_latches rx_busy false;
  rx_freed_cycle = at;
}

-- `value - back`, or `floor` where that would be below zero.
unfoldable pub moved_back : ℕ → ℕ → ℕ → ℕ
moved_back value back floor = if leb back value then value - back else floor

unfoldable pub rebase : Acia6551 → ℕ → Acia6551
unfolding moved_back
rebase a now =
    let back = a.synced - now in
    record a {
      synced = now;
      previous_synced = now;
      tx_anchor = moved_back a.tx_anchor back now;
      tx_busy_until = moved_back a.tx_busy_until back now;
      rx_rdrf_at = moved_back a.rx_rdrf_at back now;
      rx_free_at = moved_back a.rx_free_at back now;
      rx_freed_cycle = moved_back a.rx_freed_cycle back 0;
      rdr_emptied_cycle = moved_back a.rdr_emptied_cycle back 0;
    }

-- The transmitter's part of `acia_next_event`.
unfoldable pub next_tx : Acia6551 → ℕ
next_tx a = if tx_boundary_armed a then next_tx_boundary a else 0

unfoldable pub acia_next_event : Acia6551 → ℕ
acia_next_event a =
    let rx = if a.rx_completed then a.rx_free_at else a.rx_rdrf_at in
    if latch a.status_latches rx_busy
    then (if next_tx a == 0 || ltb rx (next_tx a) then rx else next_tx a)
    else next_tx a

-- The three tests of the loop's body, and what they guard.
unfoldable pub receive_due : Acia6551 → ℕ → Acia6551
receive_due a next =
    if latch a.status_latches rx_busy && not a.rx_completed && a.rx_rdrf_at == next
    then on_rx_rdrf a
    else a

unfoldable pub free_due : Acia6551 → ℕ → Acia6551
free_due a next =
    if latch a.status_latches rx_busy && a.rx_free_at == next then on_rx_free a next else a

-- The receiver's part of the body, at `next`.
unfoldable pub received : Acia6551 → ℕ → Acia6551
received a next = free_due (receive_due (record a { synced = next }) next) next

unfoldable pub run_event : Acia6551 → ℕ → Acia6551
run_event a next =
    let tx_due = tx_boundary_armed a && next_tx_boundary a == next in
    if tx_due then on_tx_boundary (received a next) next else received a next

-- `next == 0 || next > now`.
unfoldable pub idle_until : ℕ → Acia6551 → Bool
idle_until now a = acia_next_event a == 0 || ltb now (acia_next_event a)

unfoldable pub event_loop : ℕ → ℕ → Acia6551 → Acia6551
event_loop now zero a = a
event_loop now (suc fuel) a =
    let rest = event_loop now fuel (run_event a (acia_next_event a)) in
    if idle_until now a then a else rest

-- One round more than the rounds that `Settled` counts at most.
abbrev pub event_fuel : ℕ → ℕ
event_fuel now = 6 * (now + 1)

unfoldable pub advance : Acia6551 → ℕ → Acia6551
advance a now =
    if ltb now a.synced
    then rebase a now
    else if now == a.synced
    then a
    else let ran = event_loop now (event_fuel now) (record a { previous_synced = a.synced }) in
      record ran { synced = now }
