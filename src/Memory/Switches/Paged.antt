-- ===== src/Memory/Switches/Paged.antt =====
-- The banks of the memory under the soft switches of `mem_set_paging`.
use linapple.Common.{
  ℕ, ◌+◌, ◌<◌, ◌≡◌, ◌∙◌, arith, refl, sym, subst, Bool, false, bit_and, ◌||◌, ◌!=◌, if_split, ◌⊎◌,
  inl,
}
use linapple.Memory.{Memory, has, mem, cx_rom_internal, cx_rom_peripheral, mf_slotcxrom}
use linapple.Memory.Paging.{mem_update_paging}
use linapple.Memory.Banks.{home, contents, IsBanked, IsSound, IsPaged}
use linapple.Memory.Banks.Contents.{
  mem_update_paging-same, mem_update_paging-IsSound, mem_update_paging-contents,
}
use linapple.Memory.Banks.Undisturbed.{Undisturbed, Undisturbed-IsSound, Undisturbed-contents}
use linapple.Memory.Switches.{
  switch_cx_rom, with_mode, repage, set_paging, is_deferred, clear_expansion, copy_expansion,
  is_expansion_at,
}

-- The bytes of every bank are those they were.
record Keeps (m n : Memory) : Type 0 where
  pub same : (x o : ℕ) → x < 0x600 → IsBanked (home x) → contents n x o ≡ contents m x o

-- The expansion ROMs lie outside the banks.
pub cleared-store :
    (store : ℕ → ℕ → ℕ) (x o : ℕ)
    → IsBanked (home x)
    → clear_expansion (mem + 0xc8) (clear_expansion (cx_rom_peripheral + 8) store) x o ≡ store x o
unfolding clear_expansion is_expansion_at home
cleared-store store x o banked = ground arith

pub copied-store :
    (first source : ℕ) (store : ℕ → ℕ → ℕ) (x o : ℕ)
    → (first ≡ mem + 0xc8) ⊎ (first ≡ cx_rom_peripheral + 8)
    → IsBanked (home x)
    → copy_expansion first source store x o ≡ store x o
unfolding copy_expansion is_expansion_at home
copied-store first source store x o place banked = ground arith

pub switch_cx_rom-Undisturbed : (m : Memory) → Undisturbed m (switch_cx_rom m)
unfolding switch_cx_rom
switch_cx_rom-Undisturbed m =
    if_split (Undisturbed m) (has m.mem_mode mf_slotcxrom)
      (λ _. record {
        shadow = refl;
        write = refl;
        dirty = refl;
        mode = refl;
        changing = refl;
        bytes = cleared-store m.store;
      })
      (λ _. record {
        shadow = refl;
        write = refl;
        dirty = refl;
        mode = refl;
        changing = refl;
        bytes = λ x o. copied-store (mem + 0xc8) (cx_rom_internal + 8) m.store x o (inl refl);
      })

-- From `m` to `n` no bank changes, the tables of `n` are those of its mode, and nothing is put off.
record Repaged (m n : Memory) : Type 0 where
  pub keeps : Keeps m n
  pub sound : IsSound m.mem_mode n
  pub mode_stays : n.mem_mode ≡ m.mem_mode
  pub done : n.mode_changing ≡ false

repaged :
    (mode : ℕ) (m n : Memory)
    → IsSound mode n
    → Keeps m n
    → n.mem_mode ≡ m.mem_mode
    → n.mode_changing ≡ false
    → Repaged m (mem_update_paging false false n)
repaged mode m n sound keeps stays done =
    let same = mem_update_paging-same mode n sound in
    record {
      keeps = record {
        same = λ x o high banked.
            mem_update_paging-contents mode n sound x o high banked ∙ keeps.same x o high banked;
      };
      sound =
          subst (λ (k : ℕ). IsSound k (mem_update_paging false false n)) stays
            (mem_update_paging-IsSound mode n sound);
      mode_stays = same.0 ∙ stays;
      done = same.1 ∙ done;
    }

repage-Repaged : (last mode : ℕ) (m : Memory) → IsSound mode m → Repaged m (repage last m)
unfolding repage contents
repage-Repaged last mode m sound =
    let n = record m { mode_changing = false } in
    let sound_too : IsSound mode n = record {
      mapped = record { reads = sound.mapped.reads; writes = sound.mapped.writes };
      coherent = record { agrees = sound.coherent.agrees };
    } in
    let cx = switch_cx_rom-Undisturbed n in
    if_split (λ (k : Memory). Repaged m (mem_update_paging false false k))
      (bit_and last mf_slotcxrom != bit_and m.mem_mode mf_slotcxrom) {x = switch_cx_rom n} {y = n}
      (λ _.
        repaged mode m (switch_cx_rom n) (Undisturbed-IsSound n (switch_cx_rom n) cx mode sound_too)
          (record { same = λ x o high. Undisturbed-contents n (switch_cx_rom n) cx x o }) cx.mode
          cx.changing)
      (λ _. repaged mode m n sound_too (record { same = λ x o high banked. refl }) refl refl)

with_mode-IsSound :
    (is_apple2 : Bool) (address mode : ℕ) (m : Memory)
    → IsSound mode m
    → IsSound mode (with_mode is_apple2 address m)
unfolding with_mode
with_mode-IsSound is_apple2 address mode m sound = record {
  mapped = record { reads = sound.mapped.reads; writes = sound.mapped.writes };
  coherent = record { agrees = sound.coherent.agrees };
}

unchanged : (x y : ℕ) (b : Bool) → ((x != y) || b) ≡ false → x ≡ y
unchanged x y b h = ground arith

record Switched (m n : Memory) : Type 0 where
  pub keeps : Keeps m n
  pub paged : IsPaged n

set_paging-Switched :
    (is_apple2 : Bool) (pc address : ℕ) (m : Memory)
    → IsPaged m
    → Switched m (set_paging is_apple2 pc address m)
unfolding set_paging with_mode contents
set_paging-Switched is_apple2 pc address m paged =
    let moded = with_mode is_apple2 address m in
    let sound = with_mode-IsSound is_apple2 address paged.mode m paged.sound in
    let again = repage-Repaged m.mem_mode paged.mode moded sound in
    if_split (Switched m) (is_deferred moded pc address)
      (λ _. record {
        keeps = record { same = λ x o high banked. refl };
        paged = record {
          mode = paged.mode;
          sound = record {
            mapped = record { reads = sound.mapped.reads; writes = sound.mapped.writes };
            coherent = record { agrees = sound.coherent.agrees };
          };
          settled = λ z. absurd (ground arith);
        };
      })
      (λ now.
        if_split (Switched m) ((m.mem_mode != moded.mem_mode) || moded.mode_changing)
          (λ change. record {
            keeps = record { same = again.keeps.same };
            paged = record {
              mode = moded.mem_mode;
              sound = again.sound;
              settled = λ z. sym again.mode_stays;
            };
          })
          (λ none. record {
            keeps = record { same = λ x o high banked. refl };
            paged = record {
              mode = paged.mode;
              sound = sound;
              settled = λ z.
                  paged.settled z ∙ unchanged m.mem_mode moded.mem_mode moded.mode_changing none;
            };
          }))

-- From a memory whose tables, image and mode agree, at any address and whatever the next instruction, an access
-- to a switch leaves tables that are those of a mode, the current one unless the change is put off, and an
-- image that agrees with them.
pub set_paging-IsPaged :
    (is_apple2 : Bool) (pc address : ℕ) (m : Memory)
    → IsPaged m
    → IsPaged (set_paging is_apple2 pc address m)
set_paging-IsPaged is_apple2 pc address m paged =
    (set_paging-Switched is_apple2 pc address m paged).paged

-- From a memory whose tables, image and mode agree, at any address and whatever the next instruction, an access
-- to a switch keeps the bytes of every page of a bank that is seen outside $C800-$CFFF.
pub set_paging-contents :
    (is_apple2 : Bool) (pc address : ℕ) (m : Memory) (x o : ℕ)
    → IsPaged m
    → x < 0x600
    → IsBanked (home x)
    → contents (set_paging is_apple2 pc address m) x o ≡ contents m x o
set_paging-contents is_apple2 pc address m x o paged high banked =
    (set_paging-Switched is_apple2 pc address m paged).keeps.same x o high banked
