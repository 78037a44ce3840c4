-- ===== src/Egg/SecureMemory/Alloc/Refines.antt =====
-- What sec_alloc of egg/egg-secure-memory.c does to the memory that is in use.
use gcr.Shared.{
  ℕ, ◌+◌, ◌-◌, ◌≤◌, ◌<◌, ◌≡◌, refl, sym, ap, ◌∙◌, inl, inr, true, Option, none, some, List, ◌∷◌,
  ◌++◌, ltb, arith, length, replicate, Bool-cases, ne→==_false, ltb→lt,
}
use gcr.Egg.SecureMemory.{
  byte, Cell, Block, Spot, waste, unzip, words_of, is_unused, is_clear, sec_size_to_words,
  sec_remove_cell_ring, sec_clear,
}
use gcr.Egg.SecureMemory.Alloc.{
  first_fit, front, rest_of, allocated, use_cell, use_front, sec_steal, sec_alloc,
}
use gcr.Egg.SecureMemory.Bytes.{take-clear_to}
use gcr.Egg.SecureMemory.Cells.{IsSpot}
use gcr.Egg.SecureMemory.Valid.{IsCell, IsValid}
use gcr.Egg.SecureMemory.Allocations.{
  Allocation, allocations, allocations_from, earlier, allocations-unzip,
}
use gcr.Egg.SecureMemory.Alloc.Valid.{
  IsFresh, split, parts, IsReady-whole, IsReady-split, sec_steal-IsValid,
}
use gcr.Egg.SecureMemory.Alloc.Search.{IsFit, first_fit_finds}

-- A piece of memory that has just been given out.
abbrev pub new_allocation : List ℕ → ℕ → ℕ → Allocation
new_allocation tag n memory = record {
  address = memory;
  bytes = replicate n (byte 0);
  tag = some tag;
}

-- Nothing has changed, or there is one more piece of memory, all zero.
abbrev pub IsAllocated : List ℕ → ℕ → Block → Option ℕ → Block → Type 0
IsAllocated tag n block none block' = block' ≡ block
IsAllocated tag n block (some memory) block' =
    (before : List Allocation) × (after : List Allocation) × (allocations block ≡ before ++ after)
    × (allocations block' ≡ before ++ new_allocation tag n memory ∷ after)

use_cell-IsAllocated :
    (tag : List ℕ) (n : ℕ) (spot : Spot) (unused : List ℕ) (block : Block)
    → 0 < n
    → is_unused (spot.cell) ≡ true
    → n ≤ length ((spot.cell).content)
    → allocations block ≡ allocations_from 0 (unzip (spot.before) (spot.cell ∷ spot.after))
    → IsAllocated tag n block
        (some (words_of (spot.before) + 1))
        ((use_cell tag n spot unused block).1)
unfolding use_cell sec_clear
use_cell-IsAllocated tag n spot unused block pos free room e = (
  earlier (spot.before),
  allocations_from (words_of (spot.before) + (spot.cell).n_words) (spot.after),
  e ∙ allocations-unzip (spot.before) (spot.cell ∷ spot.after) ∙ rw free refl,
  rw
      (
        allocations-unzip (spot.before) (allocated tag n (spot.cell) ∷ spot.after),
        ne→==_false n 0 (λ e. omega arith),
        take-clear_to n ((spot.cell).content) room,
      )
      refl,
)

-- Cutting an unused cell in two changes nothing for the callers.
allocations-split :
    (item n_words offset : ℕ) (c : Cell) (after : List Cell)
    → is_unused c ≡ true
    → n_words ≤ c.n_words
    → allocations_from offset (c ∷ after)
      ≡ allocations_from offset (front item n_words c ∷ rest_of n_words c ∷ after)
allocations-split item n_words offset c after free le =
    rw (free, whole offset n_words (c.n_words) le) refl
  where
    whole : (a b c : ℕ) → b ≤ c → a + b + (c - b) ≡ a + c
    whole a b c le = omega arith

module _ (block : Block) (spot : Spot) (v : IsValid block) (at : IsSpot (block.cells) spot) where
  use_front-IsAllocated :
      (fresh : Option ℕ) (tag : List ℕ) (n : ℕ)
      → 0 < n
      → IsFresh fresh block
      → is_unused (spot.cell) ≡ true
      → sec_size_to_words n + 2 + waste < (spot.cell).n_words
      → IsAllocated tag n block
          ((use_front fresh tag n (sec_size_to_words n + 2) spot block).0)
          ((use_front fresh tag n (sec_size_to_words n + 2) spot block).1)
  unfolding use_front use_cell
  use_front-IsAllocated none tag n pos new free much = refl
  use_front-IsAllocated (some item) tag n pos new free much =
      let n_words = sec_size_to_words n + 2 in
      let r = IsReady-split block spot v at item n free (new item refl) much in
      use_cell-IsAllocated tag n (split block spot v at item n_words) (block.unused_cells) block pos
        refl (r.room)
        (ap (allocations_from 0) at
          ∙ allocations-unzip (spot.before) (spot.cell ∷ spot.after)
          ∙ ap (λ l. earlier (spot.before) ++ l)
              (allocations-split item n_words (words_of (spot.before)) (spot.cell) (spot.after) free
                (omega arith))
          ∙ sym (
              allocations-unzip (spot.before)
                (front item n_words (spot.cell) ∷ rest_of n_words (spot.cell) ∷ spot.after)))

  sec_steal-IsAllocated :
      (fresh : Option ℕ) (tag : List ℕ) (n : ℕ)
      → 0 < n
      → IsFresh fresh block
      → IsFit (block.unused_cells) (sec_size_to_words n + 2) (block.cells) spot
      → IsAllocated tag n block
          ((sec_steal fresh tag n (sec_size_to_words n + 2) spot block).0)
          ((sec_steal fresh tag n (sec_size_to_words n + 2) spot block).1)
  unfolding sec_steal use_cell
  sec_steal-IsAllocated fresh tag n pos new (here, among, free, long) =
      let n_words = sec_size_to_words n + 2 in
      elim (Bool-cases (ltb (n_words + waste) ((spot.cell).n_words))) [
        | inl much ↦ rw much (use_front-IsAllocated fresh tag n pos new free (ltb→lt _ _ much))
        | inr fits ↦ rw fits (
            use_cell-IsAllocated tag n spot
              (sec_remove_cell_ring ((spot.cell).item) (block.unused_cells)) block pos free
              ((IsReady-whole block spot v at n free among long).room) (ap (allocations_from 0) at))
      ]

pub clear_of : (c : Cell) → IsCell c → is_unused c ≡ true → is_clear c ≡ true
clear_of c v h = rw (h, v.tagged, h) refl

pub sec_alloc_steals :
    (fresh : Option ℕ) (tag : List ℕ) (n : ℕ) (block : Block) (spot : Spot)
    → first_fit (block.unused_cells) (sec_size_to_words n + 2) (block.cells) ≡ some (some spot)
    → is_clear (spot.cell) ≡ true
    → sec_alloc fresh tag n block
      ≡ some (sec_steal fresh tag n (sec_size_to_words n + 2) spot block)
unfolding sec_alloc
sec_alloc_steals fresh tag n block spot e h = rw (sec_alloc, e, h) refl

sec_alloc-none :
    (fresh : Option ℕ) (tag : List ℕ) (n : ℕ) (block : Block)
    → first_fit (block.unused_cells) (sec_size_to_words n + 2) (block.cells) ≡ some none
    → sec_alloc fresh tag n block ≡ some (none, block)
unfolding sec_alloc
sec_alloc-none fresh tag n block e = rw (sec_alloc, e) refl

-- In a block that is in order, asking for memory fails no assertion on a cell and leaves the block in order. The
-- answer is null and the block is as it was, or the memory is a new piece of as many zero bytes as were
-- asked for, and the other pieces are where they were and hold what they held. The condition is that
-- some memory is asked for, and that a cell that the pool gives is not one of the block's.
pub sec_alloc-IsAllocated :
    (fresh : Option ℕ) (tag : List ℕ) (n : ℕ) (block : Block)
    → 0 < n
    → IsFresh fresh block
    → IsValid block
    → (memory : Option ℕ) × (block' : Block) × (sec_alloc fresh tag n block ≡ some (memory, block'))
      × IsValid block'
      × IsAllocated tag n block memory block'
sec_alloc-IsAllocated fresh tag n block pos new v =
    elim (first_fit_finds (block.unused_cells) (sec_size_to_words n + 2) (block.cells) (v.distinct)
      (λ i. omega (arith, v.unused_ring i))) [
        | inl e ↦ (none, block, sec_alloc-none fresh tag n block e, v, refl)
        | inr (spot, e, fit) ↦
            let at = fit.0 in
            let (before, (here, after)) = parts block spot v at in
            let result = sec_steal fresh tag n (sec_size_to_words n + 2) spot block in
            (
              result.0,
              result.1,
              sec_alloc_steals fresh tag n block spot e (clear_of (spot.cell) here (fit.2)),
              sec_steal-IsValid block spot v at fresh tag n pos new fit,
              sec_steal-IsAllocated block spot v at fresh tag n pos new fit,
            )
      ]
