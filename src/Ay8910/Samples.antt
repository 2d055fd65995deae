-- ===== src/Ay8910/Samples.antt =====
-- The samples of `ay8910_step`: how many there are, their range, and how calls join.
use native.Mathlib.Nat.{zero-add, suc-add}
use linapple.Common.{
  ℕ, zero, suc, ◌+◌, ◌≤◌, ◌≡◌, refl, arith, ap, ◌∙◌, sym, List, ◌∷◌, ◌++◌, length,
}
use linapple.Ay8910.{Ay8910, tick, samples, run, ay8910_step}

run-add :
    (m n : ℕ) (p : Ay8910)
    → run (m + n) p ≡ ((run n (run m p).0).0, (run m p).1 ++ (run n (run m p).0).1)
unfolding run
run-add zero n p = ap (λ (k : ℕ). run k p) (zero-add n)
run-add (suc m) n p =
    ap (λ (k : ℕ). run k p) (suc-add m n)
    ∙ ap (λ (q : Ay8910 × List (ℕ × ℕ × ℕ)). (q.0, samples (tick p) ∷ q.1)) (run-add m n (tick p))

pub length-run : (n : ℕ) (p : Ay8910) → length (run n p).1 ≡ n
unfolding run
length-run zero p = refl
length-run (suc n) p = ap suc (length-run n (tick p))

-- The chip never writes more samples than the buffers hold, nor other than one for each tick.
pub ay8910_step-fits :
    (p : Ay8910) (ticks max : ℕ)
    → (length (ay8910_step p ticks max).1 ≤ max)
      × (ticks ≤ max → length (ay8910_step p ticks max).1 ≡ ticks)
unfolding ay8910_step
ay8910_step-fits p ticks max = ground (arith, length-run ticks p, length-run max p)

step_run : (p : Ay8910) (ticks max : ℕ) → ticks ≤ max → ay8910_step p ticks max ≡ run ticks p
unfolding ay8910_step
step_run p ticks max h = ap (λ (n : ℕ). run n p) (ground arith)

-- A span of ticks that the buffers hold can be rendered in two calls: the chip ends in the same
-- state, and the samples follow one another.
pub ay8910_step-add :
    (p : Ay8910) (m n max : ℕ)
    → m + n ≤ max
    → let first = ay8910_step p m max in
      let second = ay8910_step first.0 n max in
      ay8910_step p (m + n) max ≡ (second.0, first.1 ++ second.1)
ay8910_step-add p m n max h =
    step_run p (m + n) max h
    ∙ run-add m n p
    ∙ sym (rw (step_run p m max (omega arith)) (rw (step_run (run m p).0 n max (omega arith)) refl))
