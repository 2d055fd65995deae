-- ===== src/Memory/Banks/Sync.antt =====
-- The last loop of `mem_update_paging`: what each page moves between the buffers that belong to it.
use linapple.Common.{ℕ, zero, suc, ◌+◌, ◌≤◌, ◌<◌, ◌≡◌, ◌≢◌, arith, refl, ◌∙◌, ap}
use linapple.Common.{Bool, bound-cases, inl, inr}
use linapple.Memory.{Memory, copy_page, assign, mem}
use linapple.Memory.Paging.{sync_page, sync_pages}
use linapple.Memory.Banks.{home}

pub home-image : (page : ℕ) → home (mem + page) ≡ page
unfolding home
home-image page = ground arith

module _ (initialize : Bool) (old : ℕ → ℕ) where
  sync_page-memshadow :
      (p : ℕ) (m : Memory) (q : ℕ) → (sync_page initialize old p m).memshadow q ≡ m.memshadow q
  unfolding sync_page
  sync_page-memshadow p m q = ground arith

  sync_page-memdirty :
      (p : ℕ) (m : Memory) (q : ℕ)
      → q ≢ p
      → (sync_page initialize old p m).memdirty q ≡ m.memdirty q
  unfolding sync_page assign
  sync_page-memdirty p m q other = ground arith

  sync_page-store :
      (p : ℕ) (m : Memory) (x o : ℕ)
      → home (old p) ≡ p
      → home x ≢ p
      → (sync_page initialize old p m).store x o ≡ m.store x o
  unfolding sync_page copy_page
  sync_page-store p m x o owned other = let image = home-image p in grind arith

  -- What a page does depends only on what belongs to it.
  sync_page-local :
      (p : ℕ) (m n : Memory) (x o : ℕ)
      → m.memshadow p ≡ n.memshadow p
      → m.memdirty p ≡ n.memdirty p
      → m.store x o ≡ n.store x o
      → m.store (mem + p) o ≡ n.store (mem + p) o
      → m.store (n.memshadow p) o ≡ n.store (n.memshadow p) o
      → (sync_page initialize old p m).store x o ≡ (sync_page initialize old p n).store x o
  unfolding sync_page copy_page
  sync_page-local p m n x o a b c d e = ground arith

  pub sync_pages-memshadow :
      (n : ℕ) (m : Memory) (q : ℕ) → (sync_pages initialize old n m).memshadow q ≡ m.memshadow q
  unfolding sync_pages
  sync_pages-memshadow zero m q = refl
  sync_pages-memshadow (suc n) m q =
      sync_page-memshadow n (sync_pages initialize old n m) q ∙ sync_pages-memshadow n m q

  sync_pages-memdirty :
      (n : ℕ) (m : Memory) (q : ℕ)
      → n ≤ q
      → (sync_pages initialize old n m).memdirty q ≡ m.memdirty q
  unfolding sync_pages
  sync_pages-memdirty zero m q h = refl
  sync_pages-memdirty (suc n) m q h =
      sync_page-memdirty n (sync_pages initialize old n m) q (omega arith)
      ∙ sync_pages-memdirty n m q (omega arith)

  sync_page-same :
      (p : ℕ) (m : Memory)
      → ((sync_page initialize old p m).memwrite ≡ m.memwrite)
        × ((sync_page initialize old p m).mem_mode ≡ m.mem_mode)
        × ((sync_page initialize old p m).mode_changing ≡ m.mode_changing)
  unfolding sync_page
  sync_page-same p m = ground arith

  pub sync_pages-same :
      (n : ℕ) (m : Memory)
      → ((sync_pages initialize old n m).memwrite ≡ m.memwrite)
        × ((sync_pages initialize old n m).mem_mode ≡ m.mem_mode)
        × ((sync_pages initialize old n m).mode_changing ≡ m.mode_changing)
  unfolding sync_pages
  sync_pages-same zero m = (refl, refl, refl)
  sync_pages-same (suc n) m =
      let one = sync_page-same n (sync_pages initialize old n m) in
      let rest = sync_pages-same n m in (one.0 ∙ rest.0, one.1 ∙ rest.1, one.2 ∙ rest.2)

  sync_page-marks :
      (p : ℕ) (m n : Memory)
      → m.memshadow p ≡ n.memshadow p
      → m.memdirty p ≡ n.memdirty p
      → (sync_page initialize old p m).memdirty p ≡ (sync_page initialize old p n).memdirty p
  unfolding sync_page assign
  sync_page-marks p m n a b = ground arith

  pub sync_pages-marks :
      (n p : ℕ) (m : Memory)
      → p < n
      → (sync_pages initialize old n m).memdirty p ≡ (sync_page initialize old p m).memdirty p
  unfolding sync_pages
  sync_pages-marks zero p m h = absurd (omega arith)
  sync_pages-marks (suc n) p m h =
      let rest = sync_pages initialize old n m in
      elim (bound-cases p n) [
        | inl below ↦ sync_page-memdirty n rest p (omega arith) ∙ sync_pages-marks n p m below
        | inr above ↦
            let here : n ≡ p = omega arith in
            ap (λ (k : ℕ). (sync_page initialize old k rest).memdirty p) here
            ∙ sync_page-marks p rest m (sync_pages-memshadow n m p)
                (sync_pages-memdirty n m p (omega arith))
      ]

  module _ (owned : (p : ℕ) → p < 0x100 → home (old p) ≡ p) where
    sync_pages-later :
        (n : ℕ) (m : Memory) (x o : ℕ)
        → n ≤ 0x100
        → n ≤ home x
        → (sync_pages initialize old n m).store x o ≡ m.store x o
    unfolding sync_pages
    sync_pages-later zero m x o top h = refl
    sync_pages-later (suc n) m x o top h =
        sync_page-store n (sync_pages initialize old n m) x o (owned n (omega arith)) (omega arith)
        ∙ sync_pages-later n m x o (omega arith) (omega arith)

    -- The page of the loop that a buffer's page belongs to is the only one that matters to it.
    pub sync_pages-store :
        (n p : ℕ) (m : Memory) (x o : ℕ)
        → n ≤ 0x100
        → p < n
        → home x ≡ p
        → home (m.memshadow p) ≡ p
        → (sync_pages initialize old n m).store x o ≡ (sync_page initialize old p m).store x o
    unfolding sync_pages
    sync_pages-store zero p m x o top h at shown = absurd (omega arith)
    sync_pages-store (suc n) p m x o top h at shown =
        let rest = sync_pages initialize old n m in
        elim (bound-cases p n) [
          | inl below ↦
              sync_page-store n rest x o (owned n (omega arith)) (omega arith)
              ∙ sync_pages-store n p m x o (omega arith) below at shown
          | inr above ↦
              let here : n ≡ p = omega arith in
              let image = home-image p in
              let one = sync_pages-later n m x o (omega arith) (omega arith) in
              let two = sync_pages-later n m (mem + p) o (omega arith) (omega arith) in
              let three = sync_pages-later n m (m.memshadow p) o (omega arith) (omega arith) in
              let four = sync_pages-memdirty n m p (omega arith) in
              ap (λ (k : ℕ). (sync_page initialize old k rest).store x o) here
              ∙ sync_page-local p rest m x o (sync_pages-memshadow n m p) four one two three
        ]
