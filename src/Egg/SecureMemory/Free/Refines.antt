-- ===== src/Egg/SecureMemory/Free/Refines.antt =====
-- What sec_free of egg/egg-secure-memory.c does to the memory that is in use.
use gcr.Shared.{
  ℕ, suc, ◌+◌, ◌<◌, ◌≡◌, refl, sym, ap, ◌∙◌, inl, inr, Bool, true, false, some, List, [], ◌∷◌, ◌++◌,
  arith, All, Bool-cases, append-nil,
}
use gcr.Egg.SecureMemory.{Cell, Block, Spot, unzip, words_of, is_unused, cell_at}
use gcr.Egg.SecureMemory.Free.{
  merge_before, merge_after, cleared, unused, release_cell, is_mergeable, sec_free,
}
use gcr.Egg.SecureMemory.Cells.{IsSpot, cell_at-unzip}
use gcr.Egg.SecureMemory.Valid.{IsCell, IsValid}
use gcr.Egg.SecureMemory.Allocations.{
  Allocation, allocations, allocations_from, earlier, allocations-unzip, find_cell,
}
use gcr.Egg.SecureMemory.Alloc.Valid.{parts}
use gcr.Egg.SecureMemory.Free.Valid.{release_cell-IsValid}

merge_before-earlier :
    (c : Cell) (before : List Cell)
    → (earlier ((merge_before c before).1) ≡ earlier before)
      × (words_of ((merge_before c before).1) + ((merge_before c before).0).n_words
          ≡ words_of before + c.n_words)
unfolding merge_before
merge_before-earlier c [] = (refl, refl)
merge_before-earlier c (other ∷ before) = elim (Bool-cases (is_unused other)) [
  | inl free ↦ rw free (sym (append-nil (earlier before)), omega arith)
  | inr used ↦ rw (used, used) (refl, refl)
]

merge_after-later :
    (in_ring : Bool) (c : Cell) (after : List Cell) (ring : List ℕ) (offset : ℕ)
    → allocations_from
        (offset + ((merge_after in_ring c after ring).0).n_words)
        ((merge_after in_ring c after ring).1)
      ≡ allocations_from (offset + c.n_words) after
unfolding merge_after
merge_after-later in_ring c [] ring offset = refl
merge_after-later in_ring c (other ∷ after) ring offset = elim (Bool-cases (is_unused other)) [
  | inl free ↦ rw (free, swap offset (other.n_words) (c.n_words)) refl
  | inr used ↦ rw (used, used) refl
]
  where
    swap : (a b c : ℕ) → a + (b + c) ≡ a + c + b
    swap a b c = omega arith

-- Releasing a cell takes its memory away, and no other.
release_cell-allocations :
    (spot : Spot) (block : Block)
    → allocations (release_cell spot block)
      ≡ earlier (spot.before)
        ++ allocations_from (words_of (spot.before) + (spot.cell).n_words) (spot.after)
unfolding release_cell
release_cell-allocations spot block =
    let c = cleared (spot.cell) in
    let (first, before, in_ring) = merge_before c (spot.before) in
    let (last, after, ring) = merge_after in_ring first (spot.after) (block.unused_cells) in
    let (same, words) = merge_before-earlier c (spot.before) in
    allocations-unzip before (unused last ∷ after)
    ∙ ap (λ l. earlier before ++ l)
        (merge_after-later in_ring first (spot.after) (block.unused_cells) (words_of before)
          ∙ ap (λ n. allocations_from n (spot.after)) words)
    ∙ ap (λ l. l ++ allocations_from (words_of (spot.before) + (spot.cell).n_words) (spot.after))
        same

has_words : (cells : List Cell) → All IsCell cells → All (λ c. 0 < c.n_words) cells
has_words [] h = tt
has_words (c ∷ cells) h = (omega (arith, (h.0).sized), has_words cells h.1)

mergeable : (cells : List Cell) → All IsCell cells → is_mergeable cells ≡ true
mergeable [] h = refl
mergeable (c ∷ cells) h = elim (Bool-cases (is_unused c)) [
  | inl free ↦ rw (free, (h.0).tagged, free) refl
  | inr used ↦ rw used refl
]

add_zero : (n : ℕ) → n ≡ n + 0
add_zero n = omega arith

-- The cell of some memory is found.
pub found_cell :
    (block : Block) (spot : Spot)
    → IsValid block
    → IsSpot (block.cells) spot
    → cell_at (words_of (spot.before)) [] (block.cells) ≡ some spot
unfolding cell_at
found_cell block spot v at =
    ap (cell_at (words_of (spot.before)) []) at
    ∙ ap (λ n. cell_at n [] (unzip (spot.before) (spot.cell ∷ spot.after)))
        (add_zero (words_of (spot.before)))
    ∙ cell_at-unzip 0 (spot.before) (spot.cell ∷ spot.after)
        (has_words (spot.before) ((parts block spot v at).0))

pub add-one : (n : ℕ) → n + 1 ≡ suc n
add-one n = omega arith

sec_free_releases :
    (block : Block) (spot : Spot)
    → IsValid block
    → IsSpot (block.cells) spot
    → is_unused (spot.cell) ≡ false
    → sec_free (words_of (spot.before) + 1) block ≡ some (release_cell spot block)
unfolding sec_free cell_at
sec_free_releases block spot v at used =
    let (before, (here, after)) = parts block spot v at in
    let found = found_cell block spot v at in
    rw
      (
        add-one (words_of (spot.before)),
        sec_free,
        found,
        used,
        here.tagged,
        used,
        mergeable (spot.before) before,
        mergeable (spot.after) after,
      )
      refl

-- In a block that is in order, giving back a piece of memory that is in use fails no assertion on a cell, leaves
-- the block in order, so that neither a byte of that memory nor two unused cells side by side are left,
-- and the other pieces of memory are where they were and hold what they held.
pub sec_free-allocations :
    (before after : List Allocation) (a : Allocation) (block : Block)
    → IsValid block
    → allocations block ≡ before ++ a ∷ after
    → (block' : Block) × (sec_free (a.address) block ≡ some block')
      × IsValid block'
      × (allocations block' ≡ before ++ after)
sec_free-allocations before after a block v h =
    let (spot, found) = find_cell [] (block.cells) before a after h in
    (
      release_cell spot block,
      ap (λ b. sec_free (b.address) block) (sym (found.same))
          ∙ sec_free_releases block spot v (found.here) (found.used),
      release_cell-IsValid block spot v (found.here) (found.used),
      release_cell-allocations spot block
          ∙ ap
              (λ l.
                l ++ allocations_from (words_of (spot.before) + (spot.cell).n_words) (spot.after))
              (found.in_front)
          ∙ ap (λ l. before ++ l) (found.behind),
    )
