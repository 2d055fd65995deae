-- ===== src/Acia/Compose.antt =====
-- Coming to a cycle in two steps and in one.
use linapple.Common.{
  ℕ, zero, suc, ◌<◌, ◌≤◌, false, ltb, ◌==◌, ◌≡◌, refl, sym, ap, arith, Bool-cases, inl, inr, ◌∙◌,
}
use linapple.Acia.State.{Acia6551}
use linapple.Acia.Events.{run_event, acia_next_event, idle_until, event_loop, event_fuel, advance}
use linapple.Acia.Measure.{measure}
use linapple.Acia.Settled.{run_event-measure, event_loop-idle, event_fuel_enough}
use linapple.Acia.InOrder.{InOrder}
use linapple.Acia.Moved.{moved-event_loop}
use linapple.Acia.Mark.{mark, mark-event_loop}
use linapple.Acia.Rounds.{event_loop-InOrder}

-- Any two amounts of fuel that are enough give the same.
event_loop-fuel :
    (now f g : ℕ) (a : Acia6551)
    → now < 9223372036854775808
    → a.synced ≤ now
    → measure now a < f
    → measure now a < g
    → event_loop now f a ≡ event_loop now g a
unfolding event_loop
event_loop-fuel now zero g a bound past h k = absurd (omega arith)
event_loop-fuel now (suc f) zero a bound past h k = absurd (omega arith)
event_loop-fuel now (suc f) (suc g) a bound past h k = elim (Bool-cases (idle_until now a)) [
  | inl idle ↦ rw idle refl
  | inr busy ↦
      let (less, past') = run_event-measure now a bound past busy in
      rw busy (
        event_loop-fuel now f g (run_event a (acia_next_event a)) bound past' (omega arith)
          (omega arith))
]

-- What is busy until the earlier cycle is busy until the later.
busy_later : (m n : ℕ) (a : Acia6551) → m ≤ n → idle_until m a ≡ false → idle_until n a ≡ false
unfolding idle_until
busy_later m n a h k = ground arith

event_loop-busy :
    (now : ℕ) (a : Acia6551)
    → now < 9223372036854775808
    → a.synced ≤ now
    → idle_until now a ≡ false
    → event_loop now (event_fuel now) (run_event a (acia_next_event a))
      ≡ event_loop now (event_fuel now) a
event_loop-busy now a bound past busy =
    let enough = event_fuel_enough now a in
    step
    ∙ event_loop-fuel now (suc (event_fuel now)) (event_fuel now) a bound past (omega arith) enough
  where
    step :
        event_loop now (event_fuel now) (run_event a (acia_next_event a))
        ≡ event_loop now (suc (event_fuel now)) a
    step = unfold event_loop in rw busy refl

-- Going on from where the loop has come to.
event_loop-event_loop :
    (m n f : ℕ) (a : Acia6551)
    → n < 9223372036854775808
    → m ≤ n
    → a.synced ≤ m
    → event_loop n (event_fuel n) (event_loop m f a) ≡ event_loop n (event_fuel n) a
unfolding event_loop
event_loop-event_loop m n zero a bound le past = refl
event_loop-event_loop m n (suc f) a bound le past = elim (Bool-cases (idle_until m a)) [
  | inl idle ↦ rw idle refl
  | inr busy ↦
      let (less, past') = run_event-measure m a (omega arith) past busy in
      rw busy (
        event_loop-event_loop m n f (run_event a (acia_next_event a)) bound le past'
        ∙ event_loop-busy n a bound (omega arith) (busy_later m n a le busy))
]

-- The loop with the fuel of `advance`, and the chip at a cycle.
unfoldable pub run : ℕ → Acia6551 → Acia6551
run now a = event_loop now (event_fuel now) a

unfoldable pub stamp : ℕ → Acia6551 → Acia6551
stamp now a = record a { synced = now }

stamp-mark : (p t : ℕ) (a : Acia6551) → stamp t (mark p a) ≡ mark p (stamp t a)
unfolding stamp mark
stamp-mark p t a = refl

mark-mark : (p q : ℕ) (a : Acia6551) → mark p (mark q a) ≡ mark p a
unfolding mark
mark-mark p q a = refl

run-mark : (now p : ℕ) (a : Acia6551) → run now (mark p a) ≡ mark p (run now a)
unfolding run
run-mark now p a = mark-event_loop now (event_fuel now) p a

pub advance_later :
    (a : Acia6551) (now : ℕ)
    → a.synced < now
    → advance a now ≡ stamp now (mark a.synced (run now a))
unfolding advance stamp run mark
advance_later a now h =
    let back : ltb now a.synced ≡ false = ground arith in
    let same : (now == a.synced) ≡ false = ground arith in
    rw (back, same) (ap (stamp now) (run-mark now a.synced a))

-- Going on to `n` from `m`, at which the chip has come to rest.
stamp-run :
    (a : Acia6551) (m n : ℕ)
    → n < 9223372036854775808
    → a.synced ≤ m
    → m ≤ n
    → InOrder a
    → stamp n (run n (stamp m (run m a))) ≡ stamp n (run n a)
unfolding run stamp
stamp-run a m n bound past h o =
    let (idle, past') =
      event_loop-idle m (event_fuel m) a (omega arith) past (event_fuel_enough m a) in
    let o' = event_loop-InOrder m (event_fuel m) a (omega arith) past o in
    moved-event_loop m n (event_fuel n) (event_loop m (event_fuel m) a) (omega arith) o' past' idle
    ∙ ap (stamp n) (event_loop-event_loop m n (event_fuel m) a bound h past)

stamp-synced : (t : ℕ) (a : Acia6551) → (stamp t a).synced ≡ t
unfolding stamp
stamp-synced t a = refl

-- When the transmitter's clock is not ahead of the chip, the pending points of the two shifters are, in their
-- order, and the errors of the incoming frame are none of the shifters' latches, coming to `n` by way of `m` leaves
-- what coming to `n` at once leaves, but for `previous_synced`: it is `m`, the last look before `n`, and acia_rx_start
-- reads it when it chooses where the next character begins. The cycles are below 2^63.
pub advance-advance :
    (a : Acia6551) (m n : ℕ)
    → n < 9223372036854775808
    → a.synced < m
    → m < n
    → InOrder a
    → advance (advance a m) n ≡ record (advance a n) { previous_synced = m }
unfolding mark
advance-advance a m n bound later h o =
    let s = a.synced in
    let first = advance_later a m later in
    let there : (advance a m).synced ≡ m =
      ap (λ (t : Acia6551). t.synced) first ∙ stamp-synced m _ in
    advance_later (advance a m) n (rw there h)
    ∙ rw there refl
    ∙ ap (λ (t : Acia6551). stamp n (mark m (run n t))) (first ∙ stamp-mark s m (run m a))
    ∙ ap (λ (t : Acia6551). stamp n (mark m t)) (run-mark n s (stamp m (run m a)))
    ∙ ap (stamp n) (mark-mark m s (run n (stamp m (run m a))))
    ∙ stamp-mark m n (run n (stamp m (run m a)))
    ∙ ap (mark m) (stamp-run a m n bound (omega arith) (omega arith) o)
    ∙ sym (mark-mark m s (stamp n (run n a)))
    ∙ ap (mark m) (sym (stamp-mark s n (run n a)) ∙ sym (advance_later a n (omega arith)))
