-- ===== src/Video/Address.antt =====
-- The scanner's address beside the map of the display in memory.
use linapple.Common.{
  ℕ, zero, suc, ◌+◌, ◌-◌, ◌*◌, ◌/◌, ◌%◌, ◌^◌, ◌<◌, ◌≤◌, bit_and, bit_or, bit_or_comm, bit_or_fields,
  bit_and_mask, bit_xor, Bool, true, false, not, ◌&&◌, leb, ◌==◌, ◌!=◌, if◌then◌else◌, all_below,
  all_below_sound, ==_iff, ◌≡◌, ◌≢◌, refl, arith, Bool-cases, inl, inr, ◌∙◌,
}
use linapple.Video.Modes.{Video, vf_hires, vf_mixed, vf_page2, vf_text, sw}
use linapple.Video.Scanner.{
  Machine, bit_at, frame_cycle, h_clock_of, h_state_of, v_state_of, scanner_low, scans_hires,
  second_page, scanner_high, scanner_at, video_get_scanner_address, vbl_bar_at, scanner_vbl_bar,
  video_get_vbl,
}

-- The byte of a line and a column from the start of its third of the display on.
abbrev pub row_offset : ℕ → ℕ → ℕ
row_offset line column = 128 * (line / 8 % 8) + 40 * (line / 64) + column

low_table :
    all_below 192 (λ line.
      all_below 40 (λ column. scanner_low (24 + column) (256 + line) == row_offset line column))
    ≡ true
unfolding all_below scanner_low
low_table = refl

scanner_low-row_offset :
    (line column : ℕ)
    → line < 192
    → column < 40
    → scanner_low (24 + column) (256 + line) ≡ row_offset line column
scanner_low-row_offset line column h k =
    (==_iff _ _).0 (all_below_sound 40 _ column (all_below_sound 192 _ line low_table h) k)

-- The second page is shown where PAGE2 is on and 80STORE does not take it for other memory.
abbrev pub shows_second : Machine → ℕ → Bool
shows_second machine mode = sw mode vf_page2 && not machine.store80

-- Graphics are shown on every line, or with MIXED above the last four rows of text.
abbrev pub shows_hires : ℕ → ℕ → Bool
shows_hires mode line =
    sw mode vf_hires && not (sw mode vf_text) && not (sw mode vf_mixed && leb 160 line)

-- The memory map of the display: text at $400 or $800, graphics at $2000 or $4000, where the eight
-- lines of a row are 1024 bytes apart.
abbrev pub display_address : Machine → ℕ → ℕ → ℕ → ℕ
display_address machine mode line column =
    if shows_hires mode line
    then (if shows_second machine mode then 0x4000 else 0x2000)
      + 1024 * (line % 8)
      + row_offset line column
    else (if shows_second machine mode then 0x800 else 0x400) + row_offset line column

second_page_lem :
    (machine : Machine) (mode : ℕ)
    → second_page machine mode ≡ (if shows_second machine mode then 1 else 0)
unfolding second_page
second_page_lem machine mode = elim (Bool-cases (sw mode vf_page2)) [
  | inl on ↦ rw on (at machine.store80)
  | inr off ↦ rw off (at' machine.store80)
]
  where
    at : (b : Bool) → bit_and 1 (bit_xor 1 (if b then 1 else 0)) ≡ (if not b then 1 else 0)
    at true = refl
    at false = refl

    at' : (b : Bool) → bit_and 0 (bit_xor 1 (if b then 1 else 0)) ≡ 0
    at' true = refl
    at' false = refl

mixed_table :
    all_below 192 (λ line.
      (if bit_and (bit_at 7 (256 + line)) (bit_at 5 (256 + line)) != 0 then 1 else 0)
      == (if leb 160 line then 1 else 0))
    ≡ true
unfolding all_below bit_at
mixed_table = refl

mixed_lines :
    (line : ℕ)
    → line < 192
    → (bit_and (bit_at 7 (256 + line)) (bit_at 5 (256 + line)) != 0) ≡ leb 160 line
mixed_lines line h = ground (arith, (==_iff _ _).0 (all_below_sound 192 _ line mixed_table h))

scans_hires_lem :
    (mode line : ℕ) → line < 192 → scans_hires mode (256 + line) ≡ shows_hires mode line
unfolding scans_hires bit_at
scans_hires_lem mode line h = ground (arith, mixed_lines line h)

or_add : (k low bit : ℕ) → low < 2 ^ k → bit_or low (bit * 2 ^ k) ≡ low + bit * 2 ^ k
or_add k low bit h = omega (arith, bit_or_comm low (bit * 2 ^ k), bit_or_fields k bit low h)

low_bits_table :
    all_below 192 (λ line.
      bit_at 0 (256 + line) + 2 * bit_at 1 (256 + line) + 4 * bit_at 2 (256 + line) == line % 8)
    ≡ true
unfolding all_below bit_at
low_bits_table = refl

low_bits :
    (line : ℕ)
    → line < 192
    → bit_at 0 (256 + line) + 2 * bit_at 1 (256 + line) + 4 * bit_at 2 (256 + line) ≡ line % 8
low_bits line h = (==_iff _ _).0 (all_below_sound 192 _ line low_bits_table h)

bit_at-le : (n state : ℕ) → bit_at n state ≤ 1
unfolding bit_at
bit_at-le n state = omega (arith, bit_and_mask 1 (state / 2 ^ n))

-- Two lines joined to what is below them.
two_lines :
    (low b c : ℕ)
    → low < 1024
    → b ≤ 1
    → c ≤ 1
    → bit_or (bit_or low (b * 2 ^ 10)) (c * 2 ^ 11) ≡ low + b * 1024 + c * 2048
two_lines low b c h k l =
    let first : bit_or low (b * 2 ^ 10) ≡ low + b * 1024 = or_add 10 low b h in
    rw first (or_add 11 (low + b * 1024) c (omega arith))

xor_one : (second : ℕ) → second ≤ 1 → bit_xor 1 second ≡ 1 - second
xor_one zero h = refl
xor_one (suc zero) h = refl
xor_one (suc (suc n)) h = absurd (omega arith)

text_lines :
    (machine : Machine) (second h_clock v_state low : ℕ)
    → low < 1024
    → second ≤ 1
    → h_clock < 40
    → scanner_high machine second false h_clock v_state low
      ≡ low + (if second == 0 then 0x400 else 0x800)
unfolding scanner_high
text_lines machine second h_clock v_state low h k l =
    let up = xor_one second k in
    let joined = two_lines low (bit_xor 1 second) second h (omega (arith, up)) k in
    ground (arith, up, joined)

hires_lines :
    (machine : Machine) (second h_clock v_state low : ℕ)
    → low < 1024
    → second ≤ 1
    → scanner_high machine second true h_clock v_state low
      ≡ low
        + 1024 * (bit_at 0 v_state + 2 * bit_at 1 v_state + 4 * bit_at 2 v_state)
        + (if second == 0 then 0x2000 else 0x4000)
unfolding scanner_high
hires_lines machine second h_clock v_state low h k =
    let b0 = bit_at 0 v_state in
    let b1 = bit_at 1 v_state in
    let b2 = bit_at 2 v_state in
    let up = xor_one second k in
    let joined = two_lines low b0 b1 h (bit_at-le 0 v_state) (bit_at-le 1 v_state) in
    let le0 = bit_at-le 0 v_state in
    let le1 = bit_at-le 1 v_state in
    let le2 = bit_at-le 2 v_state in
    let x12 : ℕ = low + b0 * 1024 + b1 * 2048 in
    let x13 : ℕ = x12 + b2 * 4096 in
    let x14 : ℕ = x13 + bit_xor 1 second * 8192 in
    let at12 : bit_or x12 (b2 * 2 ^ 12) ≡ x13 = or_add 12 x12 b2 (omega (arith, le0, le1)) in
    let at13 : bit_or x13 (bit_xor 1 second * 2 ^ 13) ≡ x14 =
      or_add 13 x13 (bit_xor 1 second) (omega (arith, le0, le1, le2)) in
    let at14 : bit_or x14 (second * 2 ^ 14) ≡ x14 + second * 16384 =
      or_add 14 x14 second (omega (arith, up, le0, le1, le2)) in
    rw (joined, at12, at13, at14) (ground (arith, up))

visible_states :
    (machine : Machine) (cycles : ℕ)
    → cycles / 65 < 192
    → 25 ≤ cycles % 65
    → (h_clock_of cycles ≡ cycles % 65 - 25)
      × (h_state_of (h_clock_of cycles) ≡ 24 + (cycles % 65 - 25))
      × (v_state_of machine (cycles / 65) ≡ 256 + cycles / 65)
unfolding h_clock_of h_state_of v_state_of
visible_states machine cycles h k = ground arith

second_page-le : (machine : Machine) (mode : ℕ) → second_page machine mode ≤ 1
second_page-le machine mode = ground (arith, second_page_lem machine mode)

joined_lines :
    (machine : Machine) (mode line column : ℕ)
    → line < 192
    → column < 40
    → scanner_high machine
        (second_page machine mode)
        (shows_hires mode line)
        column
        (256 + line)
        (row_offset line column)
      ≡ display_address machine mode line column
joined_lines machine mode line column h k =
    let second = second_page machine mode in
    let low = row_offset line column in
    let fits : low < 1024 = omega arith in
    let text =
      text_lines machine second column (256 + line) low fits (second_page-le machine mode) k in
    let hires =
      hires_lines machine second column (256 + line) low fits (second_page-le machine mode) in
    elim (Bool-cases (shows_hires mode line)) [
      | inl on ↦ rw on (hires ∙ ground (arith, second_page_lem machine mode, low_bits line h))
      | inr off ↦ rw off (text ∙ ground (arith, second_page_lem machine mode))
    ]

display_address-lt :
    (machine : Machine) (mode line column : ℕ)
    → line < 192
    → column < 40
    → display_address machine mode line column < 65536
display_address-lt machine mode line column h k = ground arith

scanner_at-display_address :
    (machine : Machine) (mode cycles : ℕ)
    → cycles / 65 < 192
    → 25 ≤ cycles % 65
    → scanner_at machine mode cycles ≡ display_address machine mode (cycles / 65) (cycles % 65 - 25)
unfolding scanner_at
scanner_at-display_address machine mode cycles h k =
    let line = cycles / 65 in
    let column = cycles % 65 - 25 in
    let (clock, h_state, v_state) = visible_states machine cycles h k in
    let below : column < 40 = omega arith in
    let low = scanner_low-row_offset line column h below in
    let joined = joined_lines machine mode line column h below in
    let fits = display_address-lt machine mode line column h below in
    rw (h_state, clock, v_state, low, scans_hires_lem mode line h) (rw joined (omega (arith, fits)))

blank_table :
    all_below 312 (λ line.
      (if leb 256 line
        then bit_and (bit_at 7 (256 + line - 312)) (bit_at 6 (256 + line - 312))
        else bit_and (bit_at 7 (256 + line)) (bit_at 6 (256 + line)))
      == (if leb 192 line then 1 else 0))
    ≡ true
unfolding all_below bit_at
blank_table = refl

blank_table_ntsc :
    all_below 262 (λ line.
      (if leb 256 line
        then bit_and (bit_at 7 (256 + line - 262)) (bit_at 6 (256 + line - 262))
        else bit_and (bit_at 7 (256 + line)) (bit_at 6 (256 + line)))
      == (if leb 192 line then 1 else 0))
    ≡ true
unfolding all_below bit_at
blank_table_ntsc = refl

-- The scan lines of the machine.
abbrev pub lines_of : Machine → ℕ
lines_of machine = if machine.video_scanner_ntsc then 262 else 312

blanked :
    (machine : Machine) (cycles : ℕ)
    → cycles / 65 < lines_of machine
    → vbl_bar_at machine cycles ≡ not (leb 12480 cycles)
unfolding vbl_bar_at v_state_of
blanked machine cycles h =
    let line = cycles / 65 in
    elim (Bool-cases machine.video_scanner_ntsc) [
      | inl ntsc ↦
          let row = (==_iff _ _).0 (all_below_sound 262 _ line blank_table_ntsc (ground arith)) in
          ground (arith, row)
      | inr pal ↦
          let row = (==_iff _ _).0 (all_below_sound 312 _ line blank_table (ground arith)) in
          ground (arith, row)
    ]

-- On a machine whose frame has at most 65 cycles for each scan line and at least one cycle, what the
-- scanner reports as the inverse of the blanking and what `video_get_vbl` counts agree.
pub scanner_vbl_bar-get_vbl :
    (machine : Machine) (v : Video) (executed_cycles : ℕ) (before : Bool)
    → machine.clks_per_frame ≢ 0
    → machine.clks_per_frame ≤ 65 * lines_of machine
    → scanner_vbl_bar machine v executed_cycles before
      ≡ not (video_get_vbl machine v executed_cycles)
unfolding scanner_vbl_bar video_get_vbl frame_cycle
scanner_vbl_bar-get_vbl machine v executed_cycles before some_cycles few =
    let cycles =
      (v.video_cycles_in_frame + executed_cycles) % 4294967296 % machine.clks_per_frame in
    let below : cycles < machine.clks_per_frame = ground arith in
    let same = blanked machine cycles (omega arith) in ground (arith, same)

-- The address that the scanner gives at a cycle whose place in the frame is in the visible part of one
-- of the 192 lines, after the 25 cycles of blanking that begin a line, is the one that the memory map
-- has for the line and the column: a row of text on the page that PAGE2 selects, unless 80STORE holds
-- it back, or of graphics, which give way to text in the last four rows of a mixed display. The frame
-- has at least one cycle.
pub scanner_address-display_address :
    (machine : Machine) (v : Video) (executed_cycles : ℕ)
    → machine.clks_per_frame ≢ 0
    → frame_cycle machine v executed_cycles / 65 < 192
    → 25 ≤ frame_cycle machine v executed_cycles % 65
    → video_get_scanner_address machine v executed_cycles
      ≡ display_address machine v.video_mode
          (frame_cycle machine v executed_cycles / 65)
          (frame_cycle machine v executed_cycles % 65 - 25)
unfolding video_get_scanner_address
scanner_address-display_address machine v executed_cycles some_cycles h k = ground (
  arith,
  scanner_at-display_address machine v.video_mode (frame_cycle machine v executed_cycles) h k,
)
