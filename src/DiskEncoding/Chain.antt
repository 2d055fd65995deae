-- ===== src/DiskEncoding/Chain.antt =====
-- The checksum chain: undoing the exclusive or gives back the upper six bits of every byte.
use linapple.Common.{
  ℕ, suc, ◌*◌, ◌/◌, ◌<◌, ◌≡◌, refl, arith, ap, ap₂, bit_xor, bit_xor_step, bit_xor_div_four,
  bit_xor_cancel, bit_xor-lt, List, [], ◌∷◌, map, length, get_or,
}
use linapple.DiskEncoding.{xor_chain, unchain}
use linapple.DiskEncoding.Nibbles.{upper, AllBytes}

scaled : (a b : ℕ) → bit_xor (a * 4) (b * 4) ≡ bit_xor a b * 4
scaled a b =
    let once = bit_xor_step (a * 4) (b * 4) in
    let twice = bit_xor_step (a * 2) (b * 2) in
    let halves : bit_xor (a * 4 / 2) (b * 4 / 2) ≡ bit_xor (a * 2) (b * 2) =
      ap₂ bit_xor (omega arith) (omega arith) in
    let quarters : bit_xor (a * 2 / 2) (b * 2 / 2) ≡ bit_xor a b =
      ap₂ bit_xor (omega arith) (omega arith) in
    omega (arith, once, twice, halves, quarters)

-- The upper six bits of a combined byte give those of the second, with those of the first.
pub unmix : (s x : ℕ) → bit_xor (upper s) (upper (bit_xor s x)) ≡ upper x
unmix s x =
    let moved : bit_xor (upper s) (upper (bit_xor s x)) ≡ bit_xor (s / 4) (bit_xor s x / 4) * 4 =
      scaled (s / 4) (bit_xor s x / 4) in
    let inside : bit_xor (s / 4) (bit_xor s x / 4) ≡ bit_xor (s / 4) (bit_xor (s / 4) (x / 4)) =
      ap (bit_xor (s / 4)) (bit_xor_div_four s x) in
    omega (arith, moved, inside, bit_xor_cancel (s / 4) (x / 4))

pub last_of : ℕ → List ℕ → ℕ
last_of s [] = s
last_of s (x ∷ xs) = last_of x xs

pub unchain-xor_chain :
    (s : ℕ) (xs : List ℕ)
    → unchain (length xs) (upper s) (map upper (xor_chain s xs))
      ≡ (map upper xs, upper (last_of s xs))
unfolding unchain xor_chain last_of
unchain-xor_chain s [] = refl
unchain-xor_chain s (x ∷ xs) =
    rw (unmix s x) (ap (λ (q : List ℕ × ℕ). (upper x ∷ q.0, q.1)) (unchain-xor_chain x xs))

-- The byte after the chain is the last of those that went in.
pub get_or-xor_chain :
    (s : ℕ) (xs : List ℕ) → get_or (map upper (xor_chain s xs)) (length xs) 0 ≡ upper (last_of s xs)
unfolding xor_chain last_of
get_or-xor_chain s [] = refl
get_or-xor_chain s (x ∷ xs) = get_or-xor_chain x xs

pub xor_chain-AllBytes : (s : ℕ) (xs : List ℕ) → s < 256 → AllBytes xs → AllBytes (xor_chain s xs)
unfolding xor_chain
xor_chain-AllBytes s [] h g = (h, tt)
xor_chain-AllBytes s (x ∷ xs) h g = (bit_xor-lt 8 s x h g.0, xor_chain-AllBytes x xs g.0 g.1)

pub length-xor_chain : (s : ℕ) (xs : List ℕ) → length (xor_chain s xs) ≡ suc (length xs)
unfolding xor_chain
length-xor_chain s [] = refl
length-xor_chain s (x ∷ xs) = ap suc (length-xor_chain x xs)
