-- ===== src/Via/Jump.antt =====
-- A loop that jumps from one event of a countdown to the next, against the same countdown run tick
-- by tick. The timers of the 6522 are two such countdowns.
use native.Mathlib.Nat.{zero-add, suc-add}
use linapple.Common.{
  ℕ, zero, suc, ◌+◌, ◌-◌, ◌^◌, ◌<◌, ◌≤◌, ◌≡◌, refl, arith, Bool, true, false, ltb, if◌then◌else◌,
  Bool-cases, inl, inr, ◌∙◌, sym, ◌⊎◌,
}

-- `adv s n` lets n ticks pass with no event, `span s` is the number of ticks to the next event,
-- which `hit` performs, and a `spent` countdown has no more events.
pub record Countdown (S : Type 0) : Type 0 where
  pub spent : S → Bool
  pub span : S → ℕ
  pub adv : S → ℕ → S
  pub hit : S → S

pub record Laws {S : Type 0} (c : Countdown S) (Good : S → Type 0) : Type 0 where
  pub adv-zero : (s : S) → c.adv s 0 ≡ s
  pub adv-suc : (s : S) (n : ℕ) → Good s → n < 2 ^ 32 → c.adv (c.adv s 1) n ≡ c.adv s (suc n)
  pub span-pos : (s : S) → 0 < c.span s
  pub span-adv : (s : S) → Good s → 1 < c.span s → suc (c.span (c.adv s 1)) ≡ c.span s
  pub spent-adv : (s : S) (n : ℕ) → c.spent (c.adv s n) ≡ c.spent s
  pub adv-Good : (s : S) → Good s → Good (c.adv s 1)
  pub hit-Good : (s : S) → Good s → Good (c.hit s)

module _ {S : Type 0} (c : Countdown S) where
  unfoldable pub jump : ℕ → S → ℕ → S
  jump zero s n = s
  jump (suc f) s zero = s
  jump (suc f) s (suc n) =
      let rest = jump f (c.hit (c.adv s (c.span s))) (suc n - c.span s) in
      if c.spent s
      then c.adv s (suc n)
      else if ltb (suc n) (c.span s)
      then c.adv s (suc n)
      else rest

  -- One tick: an event happens on the tick that ends the span.
  unfoldable pub tick : S → S
  tick s =
      if ltb 1 (c.span s) then c.adv s 1 else if c.spent s then c.adv s 1 else c.hit (c.adv s 1)

  unfoldable pub ticks : ℕ → S → S
  ticks zero s = s
  ticks (suc n) s = ticks n (tick s)

  pub ticks-add : (m n : ℕ) (s : S) → ticks (m + n) s ≡ ticks n (ticks m s)
  unfolding ticks
  ticks-add zero n s = rw zero-add refl
  ticks-add (suc m) n s = rw suc-add (ticks-add m n (tick s))

module _ {S : Type 0} (c : Countdown S) (Good : S → Type 0) (laws : Laws c Good) where
  tick-Good : (s : S) → Good s → Good (tick c s)
  unfolding tick
  tick-Good s g = elim (Bool-cases (ltb 1 (c.span s))) [
    | inl e ↦ rw e (laws.adv-Good s g)
    | inr e ↦ rw e (elim (Bool-cases (c.spent s)) [
      | inl x ↦ rw x (laws.adv-Good s g)
      | inr x ↦ rw x (laws.hit-Good _ (laws.adv-Good s g))
    ])
  ]

  jump_fuel : (f g : ℕ) (s : S) (n : ℕ) → n ≤ f → n ≤ g → jump c f s n ≡ jump c g s n
  unfolding jump
  jump_fuel zero zero s n p q = refl
  jump_fuel zero (suc g) s zero p q = refl
  jump_fuel zero (suc g) s (suc n) p q = absurd (omega arith)
  jump_fuel (suc f) zero s zero p q = refl
  jump_fuel (suc f) zero s (suc n) p q = absurd (omega arith)
  jump_fuel (suc f) (suc g) s zero p q = refl
  jump_fuel (suc f) (suc g) s (suc n) p q =
      ground (arith, laws.span-pos s, jump_fuel f g (c.hit (c.adv s (c.span s))) (suc n - c.span s))

  -- With no event within n ticks the loop advances once.
  jump_plain :
      (f n : ℕ) (s : S) → (c.spent s ≡ true) ⊎ (n < c.span s) → jump c (suc f) s n ≡ c.adv s n
  unfolding jump
  jump_plain f zero s h = sym (laws.adv-zero s)
  jump_plain f (suc n) s h = ground arith

  jump_hit :
      (f n : ℕ) (s : S)
      → c.spent s ≡ false
      → c.span s ≤ n
      → jump c (suc f) s n ≡ jump c f (c.hit (c.adv s (c.span s))) (n - c.span s)
  unfolding jump
  jump_hit f zero s h k = absurd (omega (arith, laws.span-pos s))
  jump_hit f (suc n) s h k = ground arith

  jump-suc :
      (f n : ℕ) (s : S)
      → n ≤ f
      → n < 2 ^ 32
      → Good s
      → jump c (suc f) s (suc n) ≡ jump c (suc f) (tick c s) n
  unfolding tick
  jump-suc f n s h k g = elim (Bool-cases (c.spent s)) [
    | inl x ↦ ground (
      arith,
      jump_plain f (suc n) s,
      jump_plain f n (c.adv s 1),
      laws.adv-suc s n g k,
      laws.spent-adv s 1,
    )
    | inr x ↦ elim (Bool-cases (ltb (suc n) (c.span s))) [
      | inl e ↦ ground (
        arith,
        jump_plain f (suc n) s,
        jump_plain f n (c.adv s 1),
        laws.adv-suc s n g k,
        laws.span-adv s g,
      )
      | inr e ↦ elim (Bool-cases (ltb 1 (c.span s))) [
        | inl far ↦ ground (
          arith,
          jump_hit f (suc n) s,
          jump_hit f n (c.adv s 1),
          laws.adv-suc s (c.span (c.adv s 1)) g,
          laws.spent-adv s 1,
          laws.span-adv s g,
        )
        | inr near ↦ ground (
          arith,
          laws.span-pos s,
          jump_hit f (suc n) s,
          jump_fuel f (suc f) (c.hit (c.adv s 1)) n,
        )
      ]
    ]
  ]

  -- The loop with enough fuel is the countdown run tick by tick.
  pub jump-ticks : (n : ℕ) (s : S) → n < 2 ^ 32 → Good s → jump c n s n ≡ ticks c n s
  unfolding ticks
  jump-ticks zero s h g = unfold jump in refl
  jump-ticks (suc n) s h g =
      jump-suc n n s (omega arith) (omega arith) g
      ∙ jump_fuel (suc n) n (tick c s) n (omega arith) (omega arith)
      ∙ jump-ticks n (tick c s) (omega arith) (tick-Good s g)

  pub ticks-Good : (n : ℕ) (s : S) → Good s → Good (ticks c n s)
  unfolding ticks
  ticks-Good zero s g = g
  ticks-Good (suc n) s g = ticks-Good n (tick c s) (tick-Good s g)
