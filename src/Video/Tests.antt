-- ===== src/Video/Tests.antt =====
-- The display on concrete values: an NTSC IIe, without 80STORE.
use linapple.Common.{◌+◌, ◌-◌, ◌/◌, ◌%◌, ◌≡◌, refl, arith, true, false, not, bit_and, inl}
use linapple.Video.Modes.{
  Video, sw, video_update_flash, end_frame, frame_loop, video_update_vbl, video_set_mode,
  video_set_snapshot, video_get_snapshot,
}
use linapple.Video.Scanner.{
  Machine, frame_cycle, h_clock_of, h_state_of, v_state_of, scanner_low, scanner_high, scans_hires,
  second_page, scanner_at, video_get_scanner_address, scanner_vbl_bar, video_get_vbl,
}
use linapple.Video.Frames.{end_frames, video_update_vbl-end_frames}
use linapple.Video.Switches.{
  is_on, switch_at, after_switch, masked, KeepsSwitches, video_set_mode-switches,
  set_snapshot-get_snapshot,
}
use linapple.Video.Address.{
  display_address, scanner_address-display_address, scanner_vbl_bar-get_vbl,
}

abbrev iie : Machine
iie = record {
  clks_per_frame = 17030;
  video_scanner_ntsc = true;
  is_apple2 = false;
  store80 = false;
}

-- Graphics with four lines of text, in the middle of a frame.
abbrev mixed : Video
mixed = record {
  video_mode = 0x14;
  alt_char_set_offset = 0;
  displaypage2 = false;
  graphicsmode = true;
  redrawfull = false;
  text_flash_state = false;
  text_flash_flag = false;
  text_flash_cnt = 9;
  video_cycles_in_frame = 6500;
}

-- Line 100, column 5.
graphics_line : video_get_scanner_address iie mixed 30 ≡ 0x3228 + 5
unfolding video_get_scanner_address scanner_at frame_cycle h_clock_of h_state_of v_state_of
    scanner_low scanner_high scans_hires second_page sw
graphics_line = refl

place : frame_cycle iie mixed 30 ≡ 6530
unfolding frame_cycle
place = refl

scanner_address-display_address_example :
    video_get_scanner_address iie mixed 30
    ≡ display_address iie mixed.video_mode
        (frame_cycle iie mixed 30 / 65)
        (frame_cycle iie mixed 30 % 65 - 25)
scanner_address-display_address_example =
    scanner_address-display_address iie mixed 30 (omega arith) (omega (arith, place))
      (omega (arith, place))

scanner_vbl_bar-get_vbl_example :
    scanner_vbl_bar iie mixed 30 false ≡ not (video_get_vbl iie mixed 30)
scanner_vbl_bar-get_vbl_example =
    scanner_vbl_bar-get_vbl iie mixed 30 false (omega arith) (omega arith)

-- A refresh that draws what has changed.
abbrev drawn : Video → Video
drawn v = record v { redrawfull = false; text_flash_flag = false }

video_update_vbl-end_frames_example :
    let total = (6500 + 40000) % 4294967296 in
    let w = video_update_vbl drawn 17030 40000 mixed in
    (w ≡ end_frames drawn 17030 (total / 17030) (record mixed { video_cycles_in_frame = total }))
    × (w.video_cycles_in_frame ≡ total % 17030)
video_update_vbl-end_frames_example =
    video_update_vbl-end_frames drawn 17030 (λ v. refl) 40000 mixed (omega arith)

two_frames : (video_update_vbl drawn 17030 40000 mixed).video_cycles_in_frame ≡ 12440
unfolding video_update_vbl frame_loop end_frame video_update_flash sw
two_frames = refl

drawn-KeepsSwitches : KeepsSwitches drawn
drawn-KeepsSwitches = record { keeps_mode = λ v. refl; keeps_page = λ v. refl }

video_set_mode-switches_example :
    let w = video_set_mode drawn false 0xc055 mixed in
    let change = switch_at false (bit_and 0xc055 0xff) in
    (is_on w.video_mode 5 ≡ masked (after_switch change (is_on 0x14)) 5)
    × (w.displaypage2 ≡ is_on w.video_mode 5)
video_set_mode-switches_example =
    video_set_mode-switches drawn drawn-KeepsSwitches false 0xc055 mixed 5 (omega arith)

set_snapshot-get_snapshot_example :
    let u = video_set_snapshot (video_get_snapshot mixed) (record mixed { video_mode = 0x40 }) in
    (u.video_mode ≡ 0x14)
    × (u.alt_char_set_offset ≡ 0)
    × (u.displaypage2 ≡ is_on 0x14 5)
    × (u.graphicsmode ≡ not (is_on 0x14 6))
set_snapshot-get_snapshot_example =
    set_snapshot-get_snapshot mixed (record mixed { video_mode = 0x40 }) (inl refl)
