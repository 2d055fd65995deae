-- ===== src/Video/Frames.antt =====
-- The frames that end while cycles are counted.
use linapple.Common.{
  ℕ, zero, suc, ◌+◌, ◌-◌, ◌*◌, ◌/◌, ◌%◌, ◌<◌, ◌≤◌, leb, ◌≡◌, ◌≢◌, refl, ap, arith, Bool-cases, inl,
  inr, ◌∙◌,
}
use linapple.Video.Modes.{Video, video_update_flash, end_frame, frame_loop, video_update_vbl}

module _ (refresh : Video → Video) (clks : ℕ) where
  -- The end of so many frames, one after the other.
  unfoldable pub end_frames : ℕ → Video → Video
  end_frames zero v = v
  end_frames (suc n) v = end_frames n (end_frame refresh clks v)

  module _ (keeps : (v : Video) → (refresh v).video_cycles_in_frame ≡ v.video_cycles_in_frame) where
    end_frame-cycles :
        (v : Video)
        → (end_frame refresh clks v).video_cycles_in_frame ≡ v.video_cycles_in_frame - clks
    unfolding end_frame video_update_flash
    end_frame-cycles v =
        ground (arith, keeps (record v { video_cycles_in_frame = v.video_cycles_in_frame - clks }))

    one_more : (c : ℕ) → clks ≢ 0 → clks ≤ c → c / clks ≡ suc ((c - clks) / clks)
    one_more c h k = grind arith

    divided :
        (total : ℕ)
        → clks ≢ 0
        → (total / clks * clks ≤ total) × (total - total / clks * clks ≡ total % clks)
    divided total h = grind arith

    less : {c : ℕ} → c < clks → c / clks ≡ 0
    less h = grind arith

    frame_loop-end_frames :
        (fuel : ℕ) (v : Video)
        → clks ≢ 0
        → v.video_cycles_in_frame < fuel
        → frame_loop refresh clks fuel v ≡ end_frames (v.video_cycles_in_frame / clks) v
    unfolding frame_loop end_frames
    frame_loop-end_frames zero v some_cycles h = absurd (omega arith)
    frame_loop-end_frames (suc fuel) v some_cycles h =
        elim (Bool-cases (leb clks v.video_cycles_in_frame)) [
          | inl due ↦
              let held : clks ≤ v.video_cycles_in_frame = ground arith in
              rw (due, one_more v.video_cycles_in_frame some_cycles held)
                (frame_loop-end_frames fuel (end_frame refresh clks v) some_cycles
                    (omega (arith, end_frame-cycles v))
                  ∙ ap (λ c. end_frames (c / clks) (end_frame refresh clks v)) (end_frame-cycles v))
          | inr early ↦
              let none_due : v.video_cycles_in_frame / clks ≡ 0 = less (ground arith) in
              rw (early, none_due) refl
        ]

    end_frames-cycles :
        (n : ℕ) (v : Video)
        → n * clks ≤ v.video_cycles_in_frame
        → (end_frames n v).video_cycles_in_frame ≡ v.video_cycles_in_frame - n * clks
    unfolding end_frames
    end_frames-cycles zero v h = omega arith
    end_frames-cycles (suc n) v h =
        let fewer = end_frame-cycles v in
        let rest = end_frames-cycles n (end_frame refresh clks v) in grind (arith, fewer, rest)

    -- With a frame of at least one cycle and a refresh that leaves the count alone, `video_update_vbl` ends
    -- as many frames as the cycles it has counted, in 32 bits, hold, each with its refresh and its turn of
    -- the flash, and keeps the cycles of the frame that has begun.
    pub video_update_vbl-end_frames :
        (cycles : ℕ) (v : Video)
        → clks ≢ 0
        → let total = (v.video_cycles_in_frame + cycles) % 4294967296 in
          let w = video_update_vbl refresh clks cycles v in
          (w ≡ end_frames (total / clks) (record v { video_cycles_in_frame = total }))
          × (w.video_cycles_in_frame ≡ total % clks)
    unfolding video_update_vbl
    video_update_vbl-end_frames cycles v some_cycles =
        let total = (v.video_cycles_in_frame + cycles) % 4294967296 in
        let from : Video = record v { video_cycles_in_frame = total } in
        let loop = frame_loop-end_frames (total + 1) from some_cycles (omega arith) in
        let (whole, part) = divided total some_cycles in
        (
          loop,
          ap (λ (t : Video). t.video_cycles_in_frame) loop
              ∙ end_frames-cycles (total / clks) from whole
              ∙ part,
        )
