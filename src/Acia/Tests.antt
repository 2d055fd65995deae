-- ===== src/Acia/Tests.antt =====
-- The chip at work on concrete values.
use linapple.Common.{◌+◌, ◌≤◌, ◌≢◌, ◌<◌, ◌≡◌, ◌⊎◌, refl, arith, true, false, List, [], ◌∷◌, some}
use linapple.Acia.State.{
  Acia6551, tdr_full, tx_busy, rx_busy, divisor_of, has_clock, data_bits, parity_of, stop_half_bits,
  parity_bits, tic, dtr, latch, transmitter_sends, acia_cycles_for, acia_frame_sixteenths,
  rdrf_cycles, acia_rdrf_sixteenths, frame_cycles,
}
use linapple.Acia.Events.{
  tx_interrupts, tx_boundary_armed, next_tx, acia_next_event, idle_until, event_loop, advance,
}
use linapple.Acia.Ports.{acia_step, acia_read, acia_rx_start}
use linapple.Acia.Measure.{stale}
use linapple.Acia.Settled.{advance-IsSettled}
use linapple.Acia.InOrder.{InOrder}
use linapple.Acia.Compose.{advance-advance}
use linapple.Acia.Delivery.{arrival_of, advance-IsDelivered}
use linapple.Acia.Traffic.{IsDelivered}
use linapple.Acia.Outgoing.{queued_byte_leaves}
use linapple.Acia.Operations.{
  power_on, Operation, write, step, rx_start, perform_all, perform_all-power_on-HasTypes,
}
use linapple.Acia.Types.{HasTypes}
use linapple.Acia.Reception.{Received, incoming, begins, acia_rx_start-Received}

-- 9600 baud from the internal clock at about 1.02 MHz, eight bits and one stop bit, DTR, the transmitter on.
abbrev configured : Acia6551
configured = record power_on { control = 0x1e; command = 0x09; clock_mhz = 1020484000 }

-- One byte goes out until cycle 1000, another waits.
abbrev sending : Acia6551
sending = record configured { status_latches = 0x30; transmit_data = 0x41; tx_busy_until = 1000 }

-- A byte comes in while another is unread.
abbrev receiving : Acia6551
receiving = record configured {
  status_latches = 0x48;
  receive_data = 0x42;
  shift_data = 0x43;
  rx_rdrf_at = 950;
  rx_free_at = 1000;
}

frame_9600 : frame_cycles sending ≡ 1063
unfolding frame_cycles acia_cycles_for has_clock divisor_of acia_frame_sixteenths data_bits
    parity_bits parity_of stop_half_bits
frame_9600 = refl

sending-InOrder : InOrder sending
unfolding stale latch
sending-InOrder = record {
  anchor_past = omega arith;
  sending = λ _. refl;
  receiving = λ h. cc;
  points_ordered = λ h. cc;
  not_sending = refl;
  not_receiving = refl;
}

advance-IsSettled_example :
    ((advance sending 5000).synced ≡ 5000)
    × ((acia_next_event (advance sending 5000) ≡ 0)
        ⊎ (5000 < acia_next_event (advance sending 5000)))
advance-IsSettled_example = advance-IsSettled sending 5000 (omega arith) (omega arith)

advance-advance_example :
    advance (advance sending 1500) 5000 ≡ record (advance sending 5000) { previous_synced = 1500 }
advance-advance_example =
    advance-advance sending 1500 5000 (omega arith) (omega arith) (omega arith) sending-InOrder

receiving_busy : latch receiving.status_latches rx_busy ≡ true
unfolding latch
receiving_busy = refl

advance-IsDelivered_example : IsDelivered (arrival_of receiving) (advance receiving 1200)
advance-IsDelivered_example =
    advance-IsDelivered receiving 1200 (omega arith) (omega arith) receiving_busy refl (omega arith)
      (omega arith) (omega arith)
      (record { not_overrun = refl; not_rdrf = refl; not_rx_busy = refl })

sending_busy : latch sending.status_latches tx_busy ≡ true
unfolding latch
sending_busy = refl

sending_full : latch sending.status_latches tdr_full ≡ true
unfolding latch
sending_full = refl

sends : transmitter_sends sending ≡ true
unfolding transmitter_sends has_clock divisor_of tic
sends = refl

queued_byte_leaves_example : (acia_step sending 1200).1 ≡ some 0x41
queued_byte_leaves_example =
    queued_byte_leaves sending 1200 (omega arith) (omega arith) sending-InOrder refl sending_busy
      sending_full sends (omega (arith, frame_9600)) refl (omega arith)

abbrev calls : List Operation
calls =
    write 3 0x1e 10 (omega arith) (omega arith)
    ∷ write 0 0x41 20 (omega arith) (omega arith)
    ∷ rx_start 0x42 0 30 (omega arith) (omega arith)
    ∷ step 3000 (omega arith)
    ∷ []

perform_all-power_on-HasTypes_example :
    HasTypes (perform_all power_on calls)
    × ((acia_read (perform_all power_on calls) 1 4000).1 < 256)
perform_all-power_on-HasTypes_example = perform_all-power_on-HasTypes calls 1 4000 (omega arith)

configured_clock : has_clock configured.clock_mhz configured.control ≡ true
unfolding has_clock divisor_of
configured_clock = refl

configured_free : latch (advance configured 100).status_latches rx_busy ≡ false
unfolding advance event_loop idle_until acia_next_event next_tx tx_boundary_armed tx_interrupts
    transmitter_sends has_clock divisor_of frame_cycles acia_cycles_for acia_frame_sixteenths
    data_bits parity_bits parity_of stop_half_bits latch tic dtr
configured_free = refl

configured_ordered : rdrf_cycles (advance configured 100) ≤ frame_cycles (advance configured 100)
unfolding advance event_loop idle_until acia_next_event next_tx tx_boundary_armed tx_interrupts
    transmitter_sends has_clock divisor_of frame_cycles acia_cycles_for acia_frame_sixteenths
    rdrf_cycles acia_rdrf_sixteenths data_bits parity_bits parity_of stop_half_bits latch tic dtr
configured_ordered = omega arith

configured_later : begins (advance configured 100) 100 + rdrf_cycles (advance configured 100) ≢ 0
unfolding advance event_loop idle_until acia_next_event next_tx tx_boundary_armed tx_interrupts
    transmitter_sends has_clock divisor_of frame_cycles acia_cycles_for acia_frame_sixteenths
    rdrf_cycles acia_rdrf_sixteenths data_bits parity_bits parity_of stop_half_bits latch tic dtr
configured_later = omega arith

acia_rx_start-Received_example :
    Received
      (incoming (advance configured 100) 0x42 0 100)
      2000
      (advance (acia_rx_start configured 0x42 0 100) 2000)
acia_rx_start-Received_example =
    acia_rx_start-Received configured 0x42 0 100 2000 (omega arith) (omega arith) configured_clock
      configured_free configured_ordered configured_later

configured_idle : latch (advance configured 100).status_latches tx_busy ≡ false
unfolding advance event_loop idle_until acia_next_event next_tx tx_boundary_armed tx_interrupts
    transmitter_sends has_clock divisor_of frame_cycles acia_cycles_for acia_frame_sixteenths
    data_bits parity_bits parity_of stop_half_bits latch tic dtr
configured_idle = refl

configured_sends : transmitter_sends (advance configured 100) ≡ true
unfolding advance event_loop idle_until acia_next_event next_tx tx_boundary_armed tx_interrupts
    transmitter_sends has_clock divisor_of frame_cycles acia_cycles_for acia_frame_sixteenths
    data_bits parity_bits parity_of stop_half_bits latch tic dtr
configured_sends = refl
