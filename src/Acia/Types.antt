-- ===== src/Acia/Types.antt =====
-- The ranges of the chip's fields: those of their C++ types, and of the bits that a field can have.
use linapple.Common.{
  ℕ, zero, suc, ◌-◌, ◌<◌, Bool, true, false, not, ◌&&◌, ltb, ◌==◌, bit_and-lt, bit_or-lt, if_both,
  arith,
}
use linapple.Acia.State.{
  Acia6551, overrun, error_mask, rdrf, tdr_full, tx_busy, rx_busy, latch, set_latch,
  transmitter_sends,
}
use linapple.Acia.Events.{
  raise_irq, start_transmit, try_start_transmit, accept_byte, on_rx_rdrf, on_rx_free, rebase,
  receive_due, free_due, next_tx_boundary, on_tx_boundary, received, run_event, acia_next_event,
  next_tx, tx_boundary_armed, idle_until, event_loop, event_fuel, advance,
}

abbrev pub IsWord : ℕ → Type 0
IsWord n = n < 18446744073709551616

pub record HasTypes (a : Acia6551) : Type 0 where
  pub control_fits : a.control < 256
  pub command_fits : a.command < 256
  pub latches_fit : a.status_latches < 128
  pub receive_data_fits : a.receive_data < 256
  pub transmit_data_fits : a.transmit_data < 256
  pub shift_data_fits : a.shift_data < 256
  pub shift_errors_fit : a.shift_errors < 8
  pub lines_fit : a.lines < 8
  pub pending_out_fits : a.pending_out < 256
  pub clock_fits : IsWord a.clock_mhz
  pub synced_fits : IsWord a.synced
  pub previous_fits : IsWord a.previous_synced
  pub busy_until_fits : IsWord a.tx_busy_until
  pub anchor_fits : IsWord a.tx_anchor
  pub rdrf_at_fits : IsWord a.rx_rdrf_at
  pub free_at_fits : IsWord a.rx_free_at
  pub freed_fits : IsWord a.rx_freed_cycle
  pub emptied_fits : IsWord a.rdr_emptied_cycle

pub set_latch-lt : (s bit : ℕ) (on : Bool) → s < 128 → bit < 128 → set_latch s bit on < 128
unfolding set_latch
set_latch-lt s bit true h k = bit_or-lt 7 s bit h k
set_latch-lt s bit false h k = bit_and-lt 7 s (255 - bit) h

start_transmit-HasTypes :
    (a : Acia6551) (at : ℕ) → IsWord at → HasTypes a → HasTypes (start_transmit a at)
unfolding start_transmit
start_transmit-HasTypes a at h t =
    let cleared = set_latch a.status_latches tdr_full false in
    let fits = set_latch-lt a.status_latches tdr_full false t.latches_fit (omega arith) in
    let fits' = set_latch-lt cleared tx_busy true fits (omega arith) in ground arith

pub try_start_transmit-HasTypes :
    (a : Acia6551) (at : ℕ) → IsWord at → HasTypes a → HasTypes (try_start_transmit a at)
unfolding try_start_transmit
try_start_transmit-HasTypes a at h t =
    if_both HasTypes
      (latch a.status_latches tdr_full
        && not (latch a.status_latches tx_busy)
        && transmitter_sends a)
      (start_transmit-HasTypes a at h t) t

on_tx_boundary-HasTypes :
    (a : Acia6551) (at : ℕ) → IsWord at → HasTypes a → HasTypes (on_tx_boundary a at)
unfolding on_tx_boundary raise_irq
on_tx_boundary-HasTypes a at h t =
    let freed : Acia6551 = record a { status_latches = set_latch a.status_latches tx_busy false } in
    let fits = set_latch-lt a.status_latches tx_busy false t.latches_fit (omega arith) in
    let moved : HasTypes freed = ground arith in
    ground (arith, start_transmit-HasTypes freed at h moved)

accept_byte-HasTypes :
    (a : Acia6551) (byte : ℕ) → byte < 256 → HasTypes a → HasTypes (accept_byte a byte)
unfolding accept_byte
accept_byte-HasTypes a byte h t =
    let full = set_latch a.status_latches rdrf true in
    let fits = set_latch-lt a.status_latches rdrf true t.latches_fit (omega arith) in
    let clean = set_latch-lt full error_mask false fits (omega arith) in
    let faulty = set_latch-lt full a.shift_errors true fits (omega arith) in ground arith

on_rx_rdrf-HasTypes : (a : Acia6551) → HasTypes a → HasTypes (on_rx_rdrf a)
unfolding on_rx_rdrf
on_rx_rdrf-HasTypes a t =
    let done : Acia6551 = record a { rx_completed = true; shift_data = 0 } in
    let moved : HasTypes done = ground arith in
    if_both HasTypes (latch a.status_latches rdrf)
      (ground (arith, set_latch-lt a.status_latches overrun true t.latches_fit))
      (accept_byte-HasTypes done a.shift_data t.shift_data_fits moved)

free_due-HasTypes :
    (a : Acia6551) (next : ℕ) → IsWord next → HasTypes a → HasTypes (free_due a next)
unfolding free_due on_rx_free
free_due-HasTypes a next h t =
    ground (arith, set_latch-lt a.status_latches rx_busy false t.latches_fit)

receive_due-HasTypes : (a : Acia6551) (next : ℕ) → HasTypes a → HasTypes (receive_due a next)
unfolding receive_due
receive_due-HasTypes a next t = ground (arith, on_rx_rdrf-HasTypes a t)

run_event-HasTypes :
    (a : Acia6551) (next : ℕ) → IsWord next → HasTypes a → HasTypes (run_event a next)
unfolding run_event received
run_event-HasTypes a next h t =
    let here : Acia6551 = record a { synced = next } in
    let moved : HasTypes here = ground arith in
    let ran =
      free_due-HasTypes (receive_due here next) next h (receive_due-HasTypes here next moved) in
    if_both HasTypes (tx_boundary_armed a && next_tx_boundary a == next)
      (on_tx_boundary-HasTypes (free_due (receive_due here next) next) next h ran) ran

next_event-IsWord : (a : Acia6551) → HasTypes a → IsWord (acia_next_event a)
unfolding acia_next_event next_tx next_tx_boundary
next_event-IsWord a t = ground arith

event_loop-HasTypes : (now fuel : ℕ) (a : Acia6551) → HasTypes a → HasTypes (event_loop now fuel a)
unfolding event_loop
event_loop-HasTypes now zero a t = t
event_loop-HasTypes now (suc fuel) a t = if_both HasTypes (idle_until now a) t (
    event_loop-HasTypes now fuel (run_event a (acia_next_event a))
      (run_event-HasTypes a (acia_next_event a) (next_event-IsWord a t) t))

rebase-HasTypes : (a : Acia6551) (now : ℕ) → IsWord now → HasTypes a → HasTypes (rebase a now)
unfolding rebase
rebase-HasTypes a now h t = ground arith

stamped-HasTypes :
    (a : Acia6551) (now : ℕ) → IsWord now → HasTypes a → HasTypes (record a { synced = now })
stamped-HasTypes a now h t = ground arith

pub advance-HasTypes : (a : Acia6551) (now : ℕ) → IsWord now → HasTypes a → HasTypes (advance a now)
unfolding advance
advance-HasTypes a now h t =
    let from : Acia6551 = record a { previous_synced = a.synced } in
    let started : HasTypes from = ground arith in
    let ran = event_loop-HasTypes now (event_fuel now) from started in
    if_both HasTypes (ltb now a.synced) (rebase-HasTypes a now h t) (
      if_both HasTypes (now == a.synced) t
        (stamped-HasTypes (event_loop now (event_fuel now) from) now h ran))
