-- ===== src/Disk/Rotation.antt =====
-- The medium under the head as time passes: the cells that a step of the sequencer takes
-- (advance_medium_one_step of apple2/peripherals/disk/Disk.cpp).
use linapple.Common.{
  ℕ, zero, suc, ◌+◌, ◌-◌, ◌*◌, ◌%◌, ◌<◌, ◌≤◌, subst, Bool, true, false, ltb, leb, ◌==◌, ◌≡◌, refl,
  ap, arith, Bool-cases, inl, inr, ◌∙◌, sym, ap₂,
}
use native.Mathlib.Nat.{mod-add-mod, mod-lt, mod-eq_of_lt}
use linapple.Disk.Drive.{Drive}
use linapple.Disk.Sequencer.{
  Head, commit_write_cell, read_cell, pass_cell, cell_loop, advance_medium_one_step,
}

-- From drive `a` to drive `b` the medium has turned by `cells` cells in `units` units of time.
pub record Turned (units cells : ℕ) (a b : Drive) : Type 0 where
  pub turned_position : b.bit_position ≡ (a.bit_position + cells) % a.bit_count
  pub turned_time : b.cell_remaining + units ≡ a.cell_remaining + cells * a.bit_timing
  pub turned_within : b.cell_remaining < a.bit_timing
  pub same_count : b.bit_count ≡ a.bit_count
  pub same_timing : b.bit_timing ≡ a.bit_timing

-- A track is under the head, its cells take some time, and the head is on the track.
pub record IsTurning (a : Drive) : Type 0 where
  pub some_cells : 0 < a.bit_count
  pub some_time : 0 < a.bit_timing
  pub within_cell : a.cell_remaining < a.bit_timing
  pub on_track : a.bit_position < a.bit_count

-- One cell passes.
record Passed (a b : Drive) : Type 0 where
  passed_position : b.bit_position ≡ (a.bit_position + 1) % a.bit_count
  passed_count : b.bit_count ≡ a.bit_count
  passed_timing : b.bit_timing ≡ a.bit_timing
  passed_remaining : b.cell_remaining ≡ a.cell_remaining

record SameMedium (a b : Drive) : Type 0 where
  medium_position : b.bit_position ≡ a.bit_position
  medium_count : b.bit_count ≡ a.bit_count
  medium_timing : b.bit_timing ≡ a.bit_timing
  medium_remaining : b.cell_remaining ≡ a.cell_remaining

read_cell-SameMedium : (h : Head) → SameMedium h.drive (read_cell h).drive
unfolding read_cell
read_cell-SameMedium h = ground arith

commit-SameMedium : (h : Head) → SameMedium h.drive (commit_write_cell h).drive
unfolding commit_write_cell
commit-SameMedium h = ground arith

pass_cell-Passed : (may_write : Bool) (h : Head) → Passed h.drive (pass_cell may_write h).drive
unfolding pass_cell
pass_cell-Passed true h =
    ground (arith, commit-SameMedium h, read_cell-SameMedium (commit_write_cell h))
pass_cell-Passed false h = ground (arith, read_cell-SameMedium h)

mod_add : (p k c : ℕ) → ((p + 1) % c + k) % c ≡ (p + suc k) % c
mod_add p k c = mod-add-mod (p + 1) c k ∙ ap (λ t. t % c) (omega arith)

record LoopTurned (below cells : ℕ) (a b : Drive) : Type 0 where
  loop_position : b.bit_position ≡ (a.bit_position + cells) % a.bit_count
  loop_time : b.cell_remaining + below ≡ cells * a.bit_timing
  loop_within : b.cell_remaining < a.bit_timing
  loop_count : b.bit_count ≡ a.bit_count
  loop_timing : b.bit_timing ≡ a.bit_timing

-- A cell before the others.
one_more :
    (below cells : ℕ) (a b c : Drive)
    → Passed a b
    → a.bit_timing < below
    → LoopTurned (below - b.bit_timing) cells b c
    → LoopTurned below (suc cells) a c
one_more below cells a b c p more rest = record {
  loop_position =
      rest.loop_position
      ∙ ap₂ (λ q n. (q + cells) % n) p.passed_position p.passed_count
      ∙ mod_add a.bit_position cells a.bit_count;
  loop_time = timed a.bit_timing b.bit_timing c.cell_remaining p.passed_timing more rest.loop_time;
  loop_within = subst (λ t. c.cell_remaining < t) p.passed_timing rest.loop_within;
  loop_count = rest.loop_count ∙ p.passed_count;
  loop_timing = rest.loop_timing ∙ p.passed_timing;
}
  where
    timed :
        (t u r : ℕ) → u ≡ t → t < below → r + (below - u) ≡ cells * u → r + below ≡ suc cells * t
    timed t u r e h time = grind (arith, subst (λ v. r + (below - v) ≡ cells * v) e time)

last_cell :
    (below : ℕ) (a b : Drive)
    → Passed a b
    → below ≤ b.bit_timing
    → 0 < below
    → LoopTurned below 1 a (record b { cell_remaining = b.bit_timing - below })
last_cell below a b p le some = record {
  loop_position = p.passed_position;
  loop_time = ground (arith, p.passed_timing);
  loop_within = ground (arith, p.passed_timing);
  loop_count = p.passed_count;
  loop_timing = p.passed_timing;
}

cell_loop-LoopTurned :
    (may_write : Bool) (fuel below : ℕ) (h : Head)
    → 0 < below
    → below ≤ fuel
    → 0 < h.drive.bit_timing
    → (cells : ℕ) × LoopTurned below cells h.drive (cell_loop may_write fuel below h).drive
unfolding cell_loop
cell_loop-LoopTurned may_write zero below h some le time = absurd (omega arith)
cell_loop-LoopTurned may_write (suc fuel) below h some le time =
    let passed = pass_cell may_write h in
    let p = pass_cell-Passed may_write h in
    let same : passed.drive.bit_timing ≡ h.drive.bit_timing = p.passed_timing in
    elim (Bool-cases (leb below passed.drive.bit_timing)) [
      | inl last ↦ (1, rw last (last_cell below h.drive passed.drive p (ground arith) some))
      | inr more ↦
          let (k, rest) =
            cell_loop-LoopTurned may_write fuel (below - passed.drive.bit_timing) passed
              (ground arith) (ground arith) (ground arith) in
          (suc k, rw more (one_more below k h.drive passed.drive _ p (ground arith) rest))
    ]

pub Turned-add :
    (u v j k : ℕ) (a b c : Drive) → Turned u j a b → Turned v k b c → Turned (u + v) (j + k) a c
Turned-add u v j k a b c first then_ = record {
  turned_position =
      then_.turned_position
      ∙ ap₂ (λ q n. (q + k) % n) first.turned_position first.same_count
      ∙ mod-add-mod (a.bit_position + j) a.bit_count k
      ∙ ap (λ t. t % a.bit_count) (omega arith);
  turned_time =
      timed a.bit_timing b.bit_timing first.same_timing first.turned_time then_.turned_time;
  turned_within = subst (λ t. c.cell_remaining < t) first.same_timing then_.turned_within;
  same_count = then_.same_count ∙ first.same_count;
  same_timing = then_.same_timing ∙ first.same_timing;
}
  where
    timed :
        (t s : ℕ)
        → s ≡ t
        → b.cell_remaining + u ≡ a.cell_remaining + j * t
        → c.cell_remaining + v ≡ b.cell_remaining + k * s
        → c.cell_remaining + (u + v) ≡ a.cell_remaining + (j + k) * t
    timed t s e one two =
        grind (arith, subst (λ x. c.cell_remaining + v ≡ b.cell_remaining + k * x) e two)

pub turn-IsTurning : (u k : ℕ) (a b : Drive) → IsTurning a → Turned u k a b → IsTurning b
turn-IsTurning u k a b turning t = record {
  some_cells = subst (λ n. 0 < n) (sym t.same_count) turning.some_cells;
  some_time = subst (λ n. 0 < n) (sym t.same_timing) turning.some_time;
  within_cell = subst (λ n. b.cell_remaining < n) (sym t.same_timing) t.turned_within;
  on_track =
      subst (λ n. b.bit_position < n) (sym t.same_count)
        (subst (λ n. n < a.bit_count) (sym t.turned_position)
          (mod-lt (a.bit_position + k) turning.some_cells));
}

pub none-Turned : (a : Drive) → IsTurning a → Turned 0 0 a a
none-Turned a turning = record {
  turned_position = sym (ap (λ q. q % a.bit_count) (omega arith) ∙ mod-eq_of_lt turning.on_track);
  turned_time = omega arith;
  turned_within = turning.within_cell;
  same_count = refl;
  same_timing = refl;
}

-- Before the first cell is over.
same_cell :
    (a : Drive)
    → IsTurning a
    → 4 ≤ a.cell_remaining
    → Turned 4 0 a (record a { cell_remaining = a.cell_remaining - 4 })
same_cell a turning left = record {
  turned_position = sym (ap (λ q. q % a.bit_count) (omega arith) ∙ mod-eq_of_lt turning.on_track);
  turned_time = omega arith;
  turned_within = omega (arith, turning.within_cell);
  same_count = refl;
  same_timing = refl;
}

whole_step :
    (k : ℕ) (a c : Drive)
    → a.cell_remaining < 4
    → LoopTurned (4 - a.cell_remaining) k a c
    → Turned 4 k a c
whole_step k a c over loop = record {
  turned_position = loop.loop_position;
  turned_time = omega (arith, loop.loop_time);
  turned_within = loop.loop_within;
  same_count = loop.loop_count;
  same_timing = loop.loop_timing;
}

pub advance-Turned :
    (may_write : Bool) (h : Head)
    → IsTurning h.drive
    → (cells : ℕ) × Turned 4 cells h.drive (advance_medium_one_step may_write h).drive
unfolding advance_medium_one_step
advance-Turned may_write h turning =
    let drive = h.drive in
    let tracked : (drive.bit_count == 0) ≡ false = ground (arith, turning.some_cells) in
    elim (Bool-cases (ltb drive.cell_remaining 4)) [
      | inl over ↦
          let (k, loop) =
            cell_loop-LoopTurned may_write (4 - drive.cell_remaining) (4 - drive.cell_remaining)
              (record h { pulse = false }) (ground arith) (omega arith) turning.some_time in
          (k, rw (tracked, over) (whole_step k drive _ (ground arith) loop))
      | inr left ↦ (0, rw (tracked, left) (same_cell drive turning (ground arith)))
    ]
