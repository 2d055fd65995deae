-- ===== src/Video/Switches.antt =====
-- The switches as a set of seven, and what is shown after an access.
use native.Mathlib.Nat.{one-le-pow}
use linapple.Common.{
  ℕ, ◌-◌, Bool, true, false, not, ◌&&◌, ◌==◌, bit_and, bit_and_or, bit_and_assoc, bit_and-zero,
  bit_and_or_self, bit_or-zero, all_below, all_below_sound, ◌/◌, ◌%◌, ◌^◌, ◌<◌, leb, Option, some,
  none, if◌then◌else◌, ◌≡◌, ◌⊎◌, refl, ap, arith, inl, inr, ◌∙◌, sym,
}
use linapple.Video.Modes.{
  Video, vf_page2, vf_text, sw, set_bit, clear_bit, switched_mode, switched_offset, masked_mode,
  displayed, show_mode, show_page, video_set_mode, video_get_snapshot, video_set_snapshot,
}

-- The switches are numbered by their bits: 80COL 0, DHIRES 1, HIRES 2, 80STORE 3, MIXED 4, PAGE2 5,
-- TEXT 6.
abbrev pub is_on : ℕ → ℕ → Bool
is_on mode k = sw mode (2 ^ k)

-- The switch that an address of the I/O page is, and whether it turns it on. An Apple II has no
-- 80-column display.
abbrev pub switch_at : Bool → ℕ → Option (ℕ × Bool)
switch_at is_apple2 address =
    if leb address 0x01
    then some (3, address % 2 == 1)
    else if address / 2 == 0x0c / 2 && not is_apple2
    then some (0, address % 2 == 1)
    else if address / 2 == 0x50 / 2
    then some (6, address % 2 == 1)
    else if address / 2 == 0x52 / 2
    then some (4, address % 2 == 1)
    else if address / 2 == 0x54 / 2
    then some (5, address % 2 == 1)
    else if address / 2 == 0x56 / 2
    then some (2, address % 2 == 1)
    else if address / 2 == 0x5e / 2 && not is_apple2
    then some (1, address % 2 == 0)
    else none

abbrev pub after_switch : Option (ℕ × Bool) → (ℕ → Bool) → ℕ → Bool
after_switch none before k = before k
after_switch (some (j, on)) before k = if j == k then on else before k

-- One bit of two.
bits_apart :
    all_below 7 (λ j. all_below 7 (λ k.
      (bit_and (2 ^ j) (2 ^ k) == (if j == k then 2 ^ k else 0))
      && (bit_and (0xffffffff - 2 ^ j) (2 ^ k) == (if j == k then 0 else 2 ^ k))))
    ≡ true
unfolding all_below
bits_apart = refl

bits-apart :
    (j k : ℕ)
    → j < 7
    → k < 7
    → (bit_and (2 ^ j) (2 ^ k) ≡ (if j == k then 2 ^ k else 0))
      × (bit_and (0xffffffff - 2 ^ j) (2 ^ k) ≡ (if j == k then 0 else 2 ^ k))
bits-apart j k h l =
    let both = all_below_sound 7 _ k (all_below_sound 7 _ j bits_apart h) l in ground arith

sw-set_bit :
    (m j k : ℕ)
    → j < 7
    → k < 7
    → sw (set_bit m (2 ^ j)) (2 ^ k) ≡ (if j == k then true else sw m (2 ^ k))
unfolding sw set_bit
sw-set_bit m j k h l =
    let (apart, _) = bits-apart j k h l in
    ground (
      arith,
      apart,
      bit_and_or m (2 ^ j) (2 ^ k),
      bit_or-zero (bit_and m (2 ^ k)),
      bit_and_or_self m (2 ^ k),
      one-le-pow k 2,
    )

sw-clear_bit :
    (m j k : ℕ)
    → j < 7
    → k < 7
    → sw (clear_bit m (2 ^ j)) (2 ^ k) ≡ (if j == k then false else sw m (2 ^ k))
unfolding sw clear_bit
sw-clear_bit m j k h l =
    let (_, apart) = bits-apart j k h l in
    ground (arith, apart, bit_and_assoc m (0xffffffff - 2 ^ j) (2 ^ k), bit_and-zero m)

-- A switch turned, in the word that holds them.
abbrev turned : Option (ℕ × Bool) → ℕ → ℕ
turned none m = m
turned (some (j, on)) m = if on then set_bit m (2 ^ j) else clear_bit m (2 ^ j)

switched_mode-turned :
    (is_apple2 : Bool) (address m : ℕ)
    → switched_mode is_apple2 address m ≡ turned (switch_at is_apple2 address) m
unfolding switched_mode
switched_mode-turned is_apple2 address m = ground arith

abbrev IsSwitch : Option (ℕ × Bool) → Type 0
IsSwitch none = Unit
IsSwitch (some (j, on)) = j < 7

switch_at-IsSwitch : (is_apple2 : Bool) (address : ℕ) → IsSwitch (switch_at is_apple2 address)
switch_at-IsSwitch is_apple2 address = ground arith

turned-after_switch :
    (change : Option (ℕ × Bool)) (m k : ℕ)
    → IsSwitch change
    → k < 7
    → is_on (turned change m) k ≡ after_switch change (is_on m) k
turned-after_switch none m k valid h = refl
turned-after_switch (some (j, true)) m k valid h = sw-set_bit m j k valid h
turned-after_switch (some (j, false)) m k valid h = sw-clear_bit m j k valid h ∙ ground arith

-- 80STORE takes PAGE2 off the display.
abbrev pub masked : (ℕ → Bool) → ℕ → Bool
masked on k = if k == 5 then on 5 && not (on 3) else on k

masked_mode-masked : (m k : ℕ) → k < 7 → is_on (masked_mode m) k ≡ masked (is_on m) k
unfolding masked_mode
masked_mode-masked m k h = ground (arith, sw-clear_bit m 5 k)

masked-ext : (f g : ℕ → Bool) (k : ℕ) → f 5 ≡ g 5 → f 3 ≡ g 3 → f k ≡ g k → masked f k ≡ masked g k
masked-ext f g k five three at = rw (five, three, at) refl

switched-switch_at :
    (is_apple2 : Bool) (address m k : ℕ)
    → k < 7
    → is_on (switched_mode is_apple2 address m) k
      ≡ after_switch (switch_at is_apple2 address) (is_on m) k
switched-switch_at is_apple2 address m k h =
    ap (λ (t : ℕ). is_on t k) (switched_mode-turned is_apple2 address m)
    ∙ turned-after_switch (switch_at is_apple2 address) m k (switch_at-IsSwitch is_apple2 address) h

-- What a refresh of the screen leaves alone.
pub record KeepsSwitches (refresh : Video → Video) : Type 0 where
  pub keeps_mode : (v : Video) → (refresh v).video_mode ≡ v.video_mode
  pub keeps_page : (v : Video) → (refresh v).displaypage2 ≡ v.displaypage2

module _ (refresh : Video → Video) (keeps : KeepsSwitches refresh) where
  show_mode-video_mode : (old : ℕ) (v : Video) → (show_mode refresh old v).video_mode ≡ v.video_mode
  unfolding show_mode
  show_mode-video_mode old v = ground (
    arith,
    keeps.keeps_mode (record v { graphicsmode = not (sw v.video_mode vf_text); redrawfull = true }),
  )

  show_page-shown :
      (v : Video)
      → ((show_page refresh v).video_mode ≡ v.video_mode)
        × ((show_page refresh v).displaypage2 ≡ sw v.video_mode vf_page2)
  unfolding show_page
  show_page-shown v =
      let shown : Video = record v { displaypage2 = sw v.video_mode vf_page2; redrawfull = true } in
      ground (arith, keeps.keeps_mode shown, keeps.keeps_page shown)

  -- An access to a video switch turns the switch that its address is, if it is one on this machine, and
  -- no other of the seven, except that PAGE2 is off while 80STORE is on; the page that is shown is the one
  -- that PAGE2 selects then, whatever was shown before. A refresh of the screen leaves switches and page alone.
  pub video_set_mode-switches :
      (is_apple2 : Bool) (address : ℕ) (v : Video) (k : ℕ)
      → k < 7
      → let w = video_set_mode refresh is_apple2 address v in
        let change = switch_at is_apple2 (bit_and address 0xff) in
        (is_on w.video_mode k ≡ masked (after_switch change (is_on v.video_mode)) k)
        × (w.displaypage2 ≡ is_on w.video_mode 5)
  unfolding video_set_mode
  video_set_mode-switches is_apple2 address v k h =
      let low = bit_and address 0xff in
      let mode = switched_mode is_apple2 low v.video_mode in
      let switched : Video = record v {
        video_mode = masked_mode mode;
        alt_char_set_offset = switched_offset is_apple2 low v.alt_char_set_offset;
      } in
      let seen = show_mode refresh (displayed v) switched in
      let (same, page) = show_page-shown seen in
      let kept = same ∙ show_mode-video_mode (displayed v) switched in
      let at = λ (j : ℕ) (l : j < 7). switched-switch_at is_apple2 low v.video_mode j l in
      (
        ap (λ (t : ℕ). is_on t k) kept
            ∙ masked_mode-masked mode k h
            ∙ masked-ext (is_on mode) (after_switch (switch_at is_apple2 low) (is_on v.video_mode))
                k (at 5 (omega arith)) (at 3 (omega arith)) (at k h),
        page ∙ ap (λ (t : ℕ). is_on t 5) (sym same),
      )

-- What a snapshot holds brings back the switches and the character set, and with them the page and the
-- kind of display, on any screen.
pub set_snapshot-get_snapshot :
    (v w : Video)
    → (v.alt_char_set_offset ≡ 0) ⊎ (v.alt_char_set_offset ≡ 256)
    → let u = video_set_snapshot (video_get_snapshot v) w in
      (u.video_mode ≡ v.video_mode)
      × (u.alt_char_set_offset ≡ v.alt_char_set_offset)
      × (u.displaypage2 ≡ is_on v.video_mode 5)
      × (u.graphicsmode ≡ not (is_on v.video_mode 6))
unfolding video_set_snapshot video_get_snapshot
set_snapshot-get_snapshot v w (inl e) = ground arith
set_snapshot-get_snapshot v w (inr e) = ground arith
