-- ===== src/Video/Scanner.antt =====
-- The scanner of apple2/Video.cpp: which byte the video hardware fetches at a cycle, and the blanking.
use linapple.Common.{
  ℕ, ◌+◌, ◌-◌, ◌*◌, ◌/◌, ◌%◌, ◌^◌, bit_and, bit_or, bit_xor, Bool, false, not, ◌&&◌, leb, ◌==◌,
  ◌!=◌, if◌then◌else◌,
}
use linapple.Video.Modes.{Video, vf_hires, vf_mixed, vf_page2, vf_text, sw, with_high_bit}

abbrev pub h_clock_0_state : ℕ
h_clock_0_state = 0x18

abbrev pub h_clocks : ℕ
h_clocks = 65

abbrev pub h_pe_clock : ℕ
h_pe_clock = 40

abbrev pub h_preset_clock : ℕ
h_preset_clock = 41

abbrev pub ntsc_scan_lines : ℕ
ntsc_scan_lines = 262

abbrev pub pal_scan_lines : ℕ
pal_scan_lines = 312

abbrev pub v_line_0_state : ℕ
v_line_0_state = 0x100

abbrev pub v_preset_line : ℕ
v_preset_line = 256

-- The machine's timing and type, of `system_state`, and 80STORE.
pub record Machine : Type 0 where
  pub clks_per_frame : ℕ
  pub video_scanner_ntsc : Bool
  pub is_apple2 : Bool
  pub store80 : Bool

-- `(state >> n) & 1`.
unfoldable pub bit_at : ℕ → ℕ → ℕ
bit_at n state = bit_and (state / 2 ^ n) 1

unfoldable pub frame_cycle : Machine → Video → ℕ → ℕ
frame_cycle machine v executed_cycles =
    (v.video_cycles_in_frame + executed_cycles) % 4294967296 % machine.clks_per_frame

unfoldable pub h_clock_of : ℕ → ℕ
h_clock_of cycles = (cycles + h_pe_clock) % h_clocks

unfoldable pub h_state_of : ℕ → ℕ
h_state_of h_clock =
    if leb h_preset_clock h_clock then h_clock_0_state + h_clock - 1 else h_clock_0_state + h_clock

unfoldable pub v_state_of : Machine → ℕ → ℕ
v_state_of machine v_line =
    let scan_lines = if machine.video_scanner_ntsc then ntsc_scan_lines else pal_scan_lines in
    if leb v_preset_line v_line
    then v_line_0_state + v_line - scan_lines
    else v_line_0_state + v_line

-- The adder's sum, on the lines a3 to a6.
unfoldable pub scanner_sum : ℕ → ℕ → ℕ
unfolding bit_at
scanner_sum h_state v_state =
    let addend0 : ℕ = 0x68 in
    let addend1 =
      bit_or (bit_or (bit_at 5 h_state * 2 ^ 5) (bit_at 4 h_state * 2 ^ 4))
        (bit_at 3 h_state * 2 ^ 3) in
    let addend2 =
      bit_or
        (bit_or (bit_or (bit_at 7 v_state * 2 ^ 6) (bit_at 6 v_state * 2 ^ 5))
          (bit_at 7 v_state * 2 ^ 4))
        (bit_at 6 v_state * 2 ^ 3) in
    bit_and (addend0 + addend1 + addend2) (0x0f * 2 ^ 3)

-- The lines a0 to a9.
unfoldable pub scanner_low : ℕ → ℕ → ℕ
unfolding bit_at scanner_sum
scanner_low h_state v_state =
    let a2 =
      bit_or (bit_or (bit_or 0 (bit_at 0 h_state * 2 ^ 0)) (bit_at 1 h_state * 2 ^ 1))
        (bit_at 2 h_state * 2 ^ 2) in
    let a6 = bit_or a2 (scanner_sum h_state v_state) in
    bit_or (bit_or (bit_or a6 (bit_at 3 v_state * 2 ^ 7)) (bit_at 4 v_state * 2 ^ 8))
      (bit_at 5 v_state * 2 ^ 9)

-- HIRES, where the line is none of the four text lines of a mixed display.
unfoldable pub scans_hires : ℕ → ℕ → Bool
unfolding bit_at
scans_hires mode v_state =
    let hires = sw mode vf_hires && not (sw mode vf_text) in
    if sw mode vf_hires && sw mode vf_mixed && bit_and (bit_at 7 v_state) (bit_at 5 v_state) != 0
    then false
    else hires

-- `page2 & (1 ^ n80Store)`.
unfoldable pub second_page : Machine → ℕ → ℕ
second_page machine mode =
    bit_and (if sw mode vf_page2 then 1 else 0) (bit_xor 1 (if machine.store80 then 1 else 0))

-- The lines from a10 on.
unfoldable pub scanner_high : Machine → ℕ → Bool → ℕ → ℕ → ℕ → ℕ
unfolding bit_at
scanner_high machine second hires h_clock v_state low =
    let a10 = if hires then bit_at 0 v_state else bit_xor 1 second in
    let a11 = if hires then bit_at 1 v_state else second in
    let upto_a11 = bit_or (bit_or low (a10 * 2 ^ 10)) (a11 * 2 ^ 11) in
    let upto_a14 =
      bit_or (bit_or (bit_or upto_a11 (bit_at 2 v_state * 2 ^ 12)) (bit_xor 1 second * 2 ^ 13))
        (second * 2 ^ 14) in
    if hires
    then upto_a14
    else if machine.is_apple2 && leb h_pe_clock h_clock && leb h_clock (h_clocks - 1)
    then bit_or upto_a11 (1 * 2 ^ 12)
    else upto_a11

-- The address at a cycle of the frame.
unfoldable pub scanner_at : Machine → ℕ → ℕ → ℕ
scanner_at machine mode cycles =
    let h_clock = h_clock_of cycles in
    let v_state = v_state_of machine (cycles / h_clocks) in
    let low = scanner_low (h_state_of h_clock) v_state in
    scanner_high machine (second_page machine mode) (scans_hires mode v_state) h_clock v_state low
    % 65536

unfoldable pub video_get_scanner_address : Machine → Video → ℕ → ℕ
video_get_scanner_address machine v executed_cycles =
    if machine.clks_per_frame == 0
    then 0
    else scanner_at machine v.video_mode (frame_cycle machine v executed_cycles)

-- `vbl_bar_out`; where the frame has no cycles it is not written, and is what the caller put there.
unfoldable pub vbl_bar_at : Machine → ℕ → Bool
unfolding bit_at
vbl_bar_at machine cycles =
    let v_state = v_state_of machine (cycles / h_clocks) in
    bit_and (bit_at 7 v_state) (bit_at 6 v_state) == 0

unfoldable pub scanner_vbl_bar : Machine → Video → ℕ → Bool → Bool
scanner_vbl_bar machine v executed_cycles before =
    if machine.clks_per_frame == 0
    then before
    else vbl_bar_at machine (frame_cycle machine v executed_cycles)

unfoldable pub video_check_vbl : Machine → Video → ℕ → ℕ → ℕ
unfolding with_high_bit
video_check_vbl machine v executed_cycles floating =
    with_high_bit floating (scanner_vbl_bar machine v executed_cycles false)

unfoldable pub video_get_vbl : Machine → Video → ℕ → Bool
video_get_vbl machine v executed_cycles =
    if machine.clks_per_frame == 0 then false else leb 12480 (frame_cycle machine v executed_cycles)
