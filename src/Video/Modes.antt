-- ===== src/Video/Modes.antt =====
-- The video switches, the flash of the text, and the frame's cycles (apple2/Video.cpp and Video.h).
use linapple.Common.{
  ℕ, zero, suc, ◌+◌, ◌-◌, ◌%◌, bit_and, bit_or, Bool, true, false, not, ◌&&◌, ◌||◌, leb, ◌==◌, ◌!=◌,
  if◌then◌else◌,
}

-- The file's variables that these functions use.
pub record Video : Type 0 where
  pub video_mode : ℕ
  pub alt_char_set_offset : ℕ
  pub displaypage2 : Bool
  pub graphicsmode : Bool
  pub redrawfull : Bool
  pub text_flash_state : Bool
  pub text_flash_flag : Bool
  pub text_flash_cnt : ℕ
  pub video_cycles_in_frame : ℕ

-- `SsIoVideo`.
pub record SsIoVideo : Type 0 where
  pub alt_char_set : ℕ
  pub vid_mode : ℕ

abbrev pub vf_80col : ℕ
vf_80col = 0x01

abbrev pub vf_dhires : ℕ
vf_dhires = 0x02

abbrev pub vf_hires : ℕ
vf_hires = 0x04

abbrev pub vf_mask2 : ℕ
vf_mask2 = 0x08

abbrev pub vf_mixed : ℕ
vf_mixed = 0x10

abbrev pub vf_page2 : ℕ
vf_page2 = 0x20

abbrev pub vf_text : ℕ
vf_text = 0x40

-- `(video_mode & bit) != 0`.
unfoldable pub sw : ℕ → ℕ → Bool
sw video_mode bit = bit_and video_mode bit != 0

-- `video_mode |= bit`.
unfoldable pub set_bit : ℕ → ℕ → ℕ
set_bit video_mode bit = bit_or video_mode bit

-- `video_mode &= ~bit`, in 32 bits.
unfoldable pub clear_bit : ℕ → ℕ → ℕ
clear_bit video_mode bit = bit_and video_mode (0xffffffff - bit)

unfoldable pub video_reset_state : Video → Video
video_reset_state v = record v {
  alt_char_set_offset = 0;
  displaypage2 = false;
  video_mode = vf_text;
  text_flash_state = false;
  text_flash_flag = false;
  text_flash_cnt = 0;
  redrawfull = true;
}

-- The switch that an address is, where the machine has it.
unfoldable pub switched_mode : Bool → ℕ → ℕ → ℕ
switched_mode is_apple2 address mode =
    if address == 0x00
    then clear_bit mode vf_mask2
    else if address == 0x01
    then set_bit mode vf_mask2
    else if address == 0x0c && not is_apple2
    then clear_bit mode vf_80col
    else if address == 0x0d && not is_apple2
    then set_bit mode vf_80col
    else if address == 0x50
    then clear_bit mode vf_text
    else if address == 0x51
    then set_bit mode vf_text
    else if address == 0x52
    then clear_bit mode vf_mixed
    else if address == 0x53
    then set_bit mode vf_mixed
    else if address == 0x54
    then clear_bit mode vf_page2
    else if address == 0x55
    then set_bit mode vf_page2
    else if address == 0x56
    then clear_bit mode vf_hires
    else if address == 0x57
    then set_bit mode vf_hires
    else if address == 0x5e && not is_apple2
    then set_bit mode vf_dhires
    else if address == 0x5f && not is_apple2
    then clear_bit mode vf_dhires
    else mode

-- The character set that an address selects.
unfoldable pub switched_offset : Bool → ℕ → ℕ → ℕ
switched_offset is_apple2 address offset =
    if address == 0x0e && not is_apple2
    then 0
    else if address == 0x0f && not is_apple2
    then 256
    else offset

-- `if (sw_mask2()) video_mode &= ~VF_PAGE2`.
unfoldable pub masked_mode : ℕ → ℕ
masked_mode mode = if sw mode vf_mask2 then clear_bit mode vf_page2 else mode

-- What `video_set_mode` compares before and after; the sum is an `int`, of which the offset, 0 or
-- 256, and the mode's seven bits leave nothing out.
unfoldable pub displayed : Video → ℕ
displayed v = v.alt_char_set_offset + bit_and v.video_mode (0xffffffff - bit_or vf_mask2 vf_page2)

module _ (refresh : Video → Video) where
  -- A change of anything but PAGE2 and 80STORE.
  unfoldable pub show_mode : ℕ → Video → Video
  show_mode oldvalue v =
      if oldvalue != displayed v
      then refresh (record v { graphicsmode = not (sw v.video_mode vf_text); redrawfull = true })
      else v

  unfoldable pub show_page : Video → Video
  show_page v =
      if (if v.displaypage2 then not (sw v.video_mode vf_page2) else sw v.video_mode vf_page2)
      then refresh (record v { displaypage2 = sw v.video_mode vf_page2; redrawfull = true })
      else v

  -- The value that it returns is that of the floating bus.
  unfoldable pub video_set_mode : Bool → ℕ → Video → Video
  video_set_mode is_apple2 address v =
      let low = bit_and address 0xff in
      let switched = record v {
        video_mode = masked_mode (switched_mode is_apple2 low v.video_mode);
        alt_char_set_offset = switched_offset is_apple2 low v.alt_char_set_offset;
      } in
      show_page (show_mode (displayed v) switched)

  unfoldable pub video_update_flash : Video → Video
  video_update_flash v =
      if (v.text_flash_cnt + 1) % 4294967296 == 10
      then record v {
        text_flash_cnt = 0;
        text_flash_state = not v.text_flash_state;
        text_flash_flag = sw v.video_mode vf_text || sw v.video_mode vf_mixed || v.text_flash_flag;
      }
      else record v { text_flash_cnt = (v.text_flash_cnt + 1) % 4294967296 }

  -- The end of a frame.
  unfoldable pub end_frame : ℕ → Video → Video
  end_frame clks_per_frame v =
      video_update_flash
        (refresh (record v { video_cycles_in_frame = v.video_cycles_in_frame - clks_per_frame }))

  unfoldable pub frame_loop : ℕ → ℕ → Video → Video
  frame_loop clks_per_frame zero v = v
  frame_loop clks_per_frame (suc fuel) v =
      let rest = frame_loop clks_per_frame fuel (end_frame clks_per_frame v) in
      if leb clks_per_frame v.video_cycles_in_frame then rest else v

  -- A frame has a cycle or more, so that the cycles are enough fuel.
  unfoldable pub video_update_vbl : ℕ → ℕ → Video → Video
  video_update_vbl clks_per_frame cycles_this_frame v =
      let total = (v.video_cycles_in_frame + cycles_this_frame) % 4294967296 in
      frame_loop clks_per_frame (total + 1) (record v { video_cycles_in_frame = total })

-- `mem_read_floating_bus(highbit, executed_cycles)`: bit 7 of the floating bus is replaced.
unfoldable pub with_high_bit : ℕ → Bool → ℕ
with_high_bit floating high = bit_or (bit_and floating 0x7f) (if high then 0x80 else 0)

-- What the switches are read as; `floating` is the value of the floating bus.
unfoldable pub video_check_mode : ℕ → ℕ → Video → ℕ
video_check_mode address floating v =
    let low = bit_and address 0xff in
    let result =
      if low == 0x1a
      then sw v.video_mode vf_text
      else if low == 0x1b
      then sw v.video_mode vf_mixed
      else if low == 0x1d
      then sw v.video_mode vf_hires
      else if low == 0x1e
      then v.alt_char_set_offset != 0
      else if low == 0x1f
      then sw v.video_mode vf_80col
      else false in
    if low == 0x7f
    then with_high_bit floating (sw v.video_mode vf_dhires)
    else with_high_bit floating result

unfoldable pub video_get_snapshot : Video → SsIoVideo
video_get_snapshot v = record {
  alt_char_set = if v.alt_char_set_offset != 0 then 1 else 0;
  vid_mode = v.video_mode;
}

unfoldable pub video_set_snapshot : SsIoVideo → Video → Video
video_set_snapshot ss v = record v {
  alt_char_set_offset = if ss.alt_char_set == 0 then 0 else 256;
  video_mode = ss.vid_mode;
  graphicsmode = not (sw ss.vid_mode vf_text);
  displaypage2 = sw ss.vid_mode vf_page2;
}
