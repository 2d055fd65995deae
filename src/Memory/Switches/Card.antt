-- ===== src/Memory/Switches/Card.antt =====
-- The language card: what an access to $C080-$C08F makes of the mode.
use linapple.Common.{
  ℕ, ◌-◌, ◌/◌, ◌≡◌, ◌≢◌, ◌∙◌, arith, refl, sym, ap, Bool, true, false, bit_and, bit_or, ◌!=◌, ◌==◌,
  if◌then◌else◌,
}
use linapple.Common.{bit_and_or, bit_and_assoc, bit_and_or_self, bit_or-zero, bit_and-zero}
use Prim.Native.Nat.{bit_and-bitwise}
use linapple.Memory.{has, mf_hram_bank2, mf_highram, mf_hram_write}
use linapple.Memory.Switches.{switch_on, switch_off, language_card}

on_other :
    (mode flag other : ℕ)
    → bit_and flag other ≡ 0
    → has (switch_on mode flag) other ≡ has mode other
unfolding switch_on has
on_other mode flag other apart =
    ap (λ (v : ℕ). v != 0)
      (bit_and_or mode flag other
        ∙ ap (λ (v : ℕ). bit_or (bit_and mode other) v) apart
        ∙ bit_or-zero (bit_and mode other))

on_self : (mode flag : ℕ) → flag ≢ 0 → has (switch_on mode flag) flag ≡ true
unfolding switch_on has
on_self mode flag some = ground (arith, bit_and_or_self mode flag)

off_other :
    (mode flag other : ℕ)
    → bit_and (0xffffffff - flag) other ≡ other
    → has (switch_off mode flag) other ≡ has mode other
unfolding switch_off has
off_other mode flag other apart =
    ap (λ (v : ℕ). v != 0)
      (bit_and_assoc mode (0xffffffff - flag) other ∙ ap (λ (v : ℕ). bit_and mode v) apart)

off_self :
    (mode flag other : ℕ)
    → bit_and (0xffffffff - flag) other ≡ 0
    → has (switch_off mode flag) other ≡ false
unfolding switch_off has
off_self mode flag other within =
    ap (λ (v : ℕ). v != 0)
      (bit_and_assoc mode (0xffffffff - flag) other
        ∙ ap (λ (v : ℕ). bit_and mode v) within
        ∙ bit_and-zero mode)

if_other :
    (test : Bool) (mode flag other : ℕ)
    → bit_and flag other ≡ 0
    → has (if test then switch_on mode flag else mode) other ≡ has mode other
if_other true mode flag other apart = on_other mode flag other apart
if_other false mode flag other apart = refl

if_self :
    (test : Bool) (mode flag : ℕ)
    → flag ≢ 0
    → has mode flag ≡ false
    → has (if test then switch_on mode flag else mode) flag ≡ test
if_self true mode flag some clear = on_self mode flag some
if_self false mode flag some clear = clear

module _ (address mode : ℕ) where
  odd : Bool
  odd = bit_and address 1 != 0

  second : Bool
  second = bit_and address 8 == 0

  readable : Bool
  readable = bit_and address 2 / 2 == bit_and address 1

  apart_from :
      (part other : ℕ)
      → bit_and part 0xfffffbcf ≡ 0
      → bit_and 0xfffffbcf other ≡ other
      → bit_and part other ≡ 0
  apart_from part other none outside =
      ap (λ (v : ℕ). bit_and part v) (sym outside)
      ∙ sym (bit_and_assoc part 0xfffffbcf other)
      ∙ ap (λ (v : ℕ). bit_and v other) none
      ∙ bit_and-bitwise 0 other

  -- The language card is writable after an access to an odd address, its second bank is in after one
  -- whose bit 3 is clear, it is read after one whose bits 0 and 1 are equal, and a switch outside the bits
  -- of these three stays as it was.
  pub language_card-switches :
      (other : ℕ)
      → bit_and (0xffffffff - 0x430) other ≡ other
      → (has (language_card address mode) mf_hram_write ≡ (bit_and address 1 != 0))
        × (has (language_card address mode) mf_hram_bank2 ≡ (bit_and address 8 == 0))
        × (has (language_card address mode) mf_highram
            ≡ (bit_and address 2 / 2 == bit_and address 1))
        × (has (language_card address mode) other ≡ has mode other)
  unfolding language_card odd second readable
  language_card-switches other outside =
      let cleared = switch_off mode 0x430 in
      let writable = if odd then switch_on cleared mf_hram_write else cleared in
      let banked = if second then switch_on writable mf_hram_bank2 else writable in
      (
        if_other readable banked mf_highram mf_hram_write refl
            ∙ if_other second writable mf_hram_bank2 mf_hram_write refl
            ∙ if_self odd cleared mf_hram_write (omega arith)
                (off_self mode 0x430 mf_hram_write refl),
        if_other readable banked mf_highram mf_hram_bank2 refl
            ∙ if_self second writable mf_hram_bank2 (omega arith) (
                if_other odd cleared mf_hram_write mf_hram_bank2 refl
                ∙ off_self mode 0x430 mf_hram_bank2 refl),
        if_self readable banked mf_highram (omega arith) (
            if_other second writable mf_hram_bank2 mf_highram refl
            ∙ if_other odd cleared mf_hram_write mf_highram refl
            ∙ off_self mode 0x430 mf_highram refl),
        if_other readable banked mf_highram other (apart_from 0x20 other refl outside)
            ∙ if_other second writable mf_hram_bank2 other (apart_from 0x10 other refl outside)
            ∙ if_other odd cleared mf_hram_write other (apart_from 0x400 other refl outside)
            ∙ off_other mode 0x430 other outside,
      )
