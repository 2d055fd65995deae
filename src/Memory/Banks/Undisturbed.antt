-- ===== src/Memory/Banks/Undisturbed.antt =====
-- Changes of the memory beside the banks: of the expansion ROMs and of what selects them.
use linapple.Common.{ℕ, ◌+◌, ◌≡◌, ◌∙◌, arith, refl, sym, ap}
use linapple.Memory.{Memory, mem}
use linapple.Memory.Banks.{home, contents, IsBanked, IsSound, IsPaged}
use linapple.Memory.Banks.Writes.{home-read_bank}
use linapple.Memory.Banks.Sync.{home-image}

-- From `m` to `n` the tables, the marks, the mode and every page that belongs to a bank stay.
pub record Undisturbed (m n : Memory) : Type 0 where
  pub shadow : n.memshadow ≡ m.memshadow
  pub write : n.memwrite ≡ m.memwrite
  pub dirty : n.memdirty ≡ m.memdirty
  pub mode : n.mem_mode ≡ m.mem_mode
  pub changing : n.mode_changing ≡ m.mode_changing
  pub bytes : (x o : ℕ) → IsBanked (home x) → n.store x o ≡ m.store x o

pub untouched : (m : Memory) → Undisturbed m m
untouched m = record {
  shadow = refl;
  write = refl;
  dirty = refl;
  mode = refl;
  changing = refl;
  bytes = λ x o banked. refl;
}

pub in_turn : (l m n : Memory) → Undisturbed l m → Undisturbed m n → Undisturbed l n
in_turn l m n one two = record {
  shadow = two.shadow ∙ one.shadow;
  write = two.write ∙ one.write;
  dirty = two.dirty ∙ one.dirty;
  mode = two.mode ∙ one.mode;
  changing = two.changing ∙ one.changing;
  bytes = λ x o banked. two.bytes x o banked ∙ one.bytes x o banked;
}

module _ (m n : Memory) (calm : Undisturbed m n) where
  pub Undisturbed-IsSound : (mode : ℕ) → IsSound mode m → IsSound mode n
  Undisturbed-IsSound mode sound = record {
    mapped = record {
      reads = λ p h. ap (λ (t : ℕ → ℕ). t p) calm.shadow ∙ sound.mapped.reads p h;
      writes = λ p h. ap (λ (t : ℕ → ℕ). t p) calm.write ∙ sound.mapped.writes p h;
    };
    coherent = record {
      agrees = λ p o high banked z.
          let h = banked.0 in
          let image = home-image p in
          let shown = sound.mapped.reads p h in
          let seen = home-read_bank mode p h in
          let one = calm.bytes (mem + p) o (ground arith) in
          let two = calm.bytes (m.memshadow p) o (ground arith) in
          let marks : n.memdirty p ≡ m.memdirty p = ap (λ (t : ℕ → ℕ). t p) calm.dirty in
          let shadow : n.memshadow p ≡ m.memshadow p = ap (λ (t : ℕ → ℕ). t p) calm.shadow in
          let before = sound.coherent.agrees p o high banked (ground arith) in ground arith;
    };
  }

  pub Undisturbed-contents : (x o : ℕ) → IsBanked (home x) → contents n x o ≡ contents m x o
  unfolding contents
  Undisturbed-contents x o banked =
      let p = home x in
      let image = home-image p in
      let one = calm.bytes (mem + p) o (ground arith) in
      let two = calm.bytes x o banked in
      let shadow : n.memshadow p ≡ m.memshadow p = ap (λ (t : ℕ → ℕ). t p) calm.shadow in
      ground arith

  pub Undisturbed-IsPaged : IsPaged m → IsPaged n
  Undisturbed-IsPaged paged = record {
    mode = paged.mode;
    sound = Undisturbed-IsSound paged.mode paged.sound;
    settled = λ z. paged.settled (sym calm.changing ∙ z) ∙ sym calm.mode;
  }
