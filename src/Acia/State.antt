-- ===== src/Acia/State.antt =====
-- The state of the 6551, the fields of its registers, and the length of a character
-- (apple2/chips/6551.h, and the first part of apple2/chips/6551.cpp).
use linapple.Common.{
  ℕ, ◌+◌, ◌-◌, ◌*◌, ◌/◌, ◌%◌, bit_and, bit_or, Bool, ◌&&◌, List, [], ◌∷◌, get_or, ◌==◌, ◌!=◌,
  if◌then◌else◌,
}

pub record Acia6551 : Type 0 where
  pub control : ℕ
  pub command : ℕ
  pub status_latches : ℕ
  pub receive_data : ℕ
  pub transmit_data : ℕ
  pub shift_data : ℕ
  pub shift_errors : ℕ
  pub lines : ℕ
  pub irq : Bool
  pub irq_from_lines : Bool
  pub break_level : Bool
  pub rx_completed : Bool
  pub clock_mhz : ℕ
  pub synced : ℕ
  pub previous_synced : ℕ
  pub tx_busy_until : ℕ
  pub tx_anchor : ℕ
  pub rx_rdrf_at : ℕ
  pub rx_free_at : ℕ
  pub rx_freed_cycle : ℕ
  pub rdr_emptied_cycle : ℕ
  pub pending_out : ℕ
  pub has_pending_out : Bool

-- What `acia_line_view` reports.
pub record AciaLine : Type 0 where
  pub baud : ℕ
  pub data_bits : ℕ
  pub parity : ℕ
  pub stop_half_bits : ℕ
  pub dtr : ℕ
  pub rts : ℕ
  pub brk : ℕ

-- `acia_status`.
abbrev pub overrun : ℕ
overrun = 0x04

abbrev pub tdre : ℕ
tdre = 0x10

abbrev pub status_dcd : ℕ
status_dcd = 0x20

abbrev pub status_dsr : ℕ
status_dsr = 0x40

abbrev pub status_irq : ℕ
status_irq = 0x80

-- `acia_command`.
abbrev pub command_dtr : ℕ
command_dtr = 0x01

abbrev pub rx_irq_disable : ℕ
rx_irq_disable = 0x02

abbrev pub tic_mask : ℕ
tic_mask = 0x0c

abbrev pub tic_off : ℕ
tic_off = 0x00

abbrev pub tic_irq : ℕ
tic_irq = 0x04

abbrev pub tic_break : ℕ
tic_break = 0x0c

abbrev pub echo : ℕ
echo = 0x10

abbrev pub parity_enable : ℕ
parity_enable = 0x20

abbrev pub parity_mode_mask : ℕ
parity_mode_mask = 0xc0

-- `acia_control`.
abbrev pub baud_mask : ℕ
baud_mask = 0x0f

abbrev pub receiver_clock_internal : ℕ
receiver_clock_internal = 0x10

abbrev pub word_length_mask : ℕ
word_length_mask = 0x60

abbrev pub two_stop_bits : ℕ
two_stop_bits = 0x80

-- `acia_latch`.
abbrev pub error_mask : ℕ
error_mask = 0x07

abbrev pub rdrf : ℕ
rdrf = 0x08

abbrev pub tdr_full : ℕ
tdr_full = 0x10

abbrev pub tx_busy : ℕ
tx_busy = 0x20

abbrev pub rx_busy : ℕ
rx_busy = 0x40

abbrev pub reserved : ℕ
reserved = 0x80

-- `acia_line`.
abbrev pub cts : ℕ
cts = 0x01

abbrev pub line_dsr : ℕ
line_dsr = 0x02

abbrev pub line_dcd : ℕ
line_dcd = 0x04

abbrev pub all_asserted : ℕ
all_asserted = 0x07

abbrev pub divisors : List ℕ
divisors =
    0 ∷ 2304 ∷ 1536 ∷ 1048 ∷ 856 ∷ 768 ∷ 384 ∷ 192 ∷ 96 ∷ 64 ∷ 48 ∷ 32 ∷ 24 ∷ 16 ∷ 12 ∷ 6 ∷ []

abbrev pub bauds : List ℕ
bauds =
    0 ∷ 50 ∷ 75 ∷ 110 ∷ 135 ∷ 150 ∷ 300 ∷ 600 ∷ 1200 ∷ 1800 ∷ 2400 ∷ 3600 ∷ 4800 ∷ 7200 ∷ 9600
    ∷ 19200 ∷ []

abbrev pub crystal_millihertz : ℕ
crystal_millihertz = 1843200000

-- `(uint64_t)n`.
abbrev pub wrap64 : ℕ → ℕ
wrap64 n = n % 18446744073709551616

-- `(register & mask) != 0`.
abbrev pub test : ℕ → ℕ → Bool
test register mask = bit_and register mask != 0

unfoldable pub divisor_of : ℕ → ℕ
divisor_of control =
    if bit_and control receiver_clock_internal == 0
    then 0
    else get_or divisors (bit_and control baud_mask) 0

unfoldable pub has_clock : ℕ → ℕ → Bool
has_clock clock_mhz control = clock_mhz != 0 && divisor_of control != 0

unfoldable pub data_bits : ℕ → ℕ
data_bits control = 8 - bit_and control word_length_mask / 32

unfoldable pub parity_of : ℕ → ℕ
parity_of command =
    if bit_and command parity_enable == 0 then 0 else 1 + bit_and command parity_mode_mask / 64

unfoldable pub stop_half_bits : ℕ → ℕ → ℕ
unfolding data_bits
stop_half_bits control command =
    if bit_and control two_stop_bits == 0
    then 2
    else if data_bits control == 8 && test command parity_enable
    then 2
    else if data_bits control == 5 && bit_and command parity_enable == 0
    then 3
    else 4

unfoldable pub tic : ℕ → ℕ
tic command = bit_and command tic_mask

unfoldable pub dtr : ℕ → Bool
dtr command = test command command_dtr

unfoldable pub latch : ℕ → ℕ → Bool
latch latches bit = test latches bit

-- `~bit` in eight bits.
unfoldable pub set_latch : ℕ → ℕ → Bool → ℕ
set_latch latches bit on = if on then bit_or latches bit else bit_and latches (255 - bit)

unfoldable pub transmitter_sends : Acia6551 → Bool
transmitter_sends a =
    has_clock a.clock_mhz a.control
    && tic a.command != tic_off
    && tic a.command != tic_break
    && test a.lines cts

unfoldable pub parity_bits : ℕ → ℕ
parity_bits command = if parity_of command == 0 then 0 else 1

-- The products are `uint64_t`.
unfoldable pub acia_cycles_for : ℕ → ℕ → ℕ → ℕ
acia_cycles_for clock_mhz control sixteenths =
    let numerator = wrap64 (wrap64 (clock_mhz * divisor_of control) * sixteenths) in
    if has_clock clock_mhz control
    then wrap64 (wrap64 (numerator * 2) + crystal_millihertz) / (2 * crystal_millihertz)
    else 0

unfoldable pub acia_frame_sixteenths : ℕ → ℕ → ℕ
acia_frame_sixteenths control command =
    (1 + data_bits control + parity_bits command) * 16 + stop_half_bits control command * 8

unfoldable pub acia_rdrf_sixteenths : ℕ → ℕ → ℕ
acia_rdrf_sixteenths control command = (1 + data_bits control + parity_bits command) * 16 + 9

unfoldable pub frame_cycles : Acia6551 → ℕ
frame_cycles a = acia_cycles_for a.clock_mhz a.control (acia_frame_sixteenths a.control a.command)

-- The cycles from the start bit to the point where RDRF is set.
unfoldable pub rdrf_cycles : Acia6551 → ℕ
rdrf_cycles a = acia_cycles_for a.clock_mhz a.control (acia_rdrf_sixteenths a.control a.command)

unfoldable pub acia_line_view : Acia6551 → AciaLine
acia_line_view a = record {
  baud =
      if has_clock a.clock_mhz a.control then get_or bauds (bit_and a.control baud_mask) 0 else 0;
  data_bits = data_bits a.control;
  parity = parity_of a.command;
  stop_half_bits = stop_half_bits a.control a.command;
  dtr = if dtr a.command then 1 else 0;
  rts = if tic a.command != tic_off then 1 else 0;
  brk = if a.break_level then 1 else 0;
}
