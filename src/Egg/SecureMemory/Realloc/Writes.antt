-- ===== src/Egg/SecureMemory/Realloc/Writes.antt =====
-- What sec_realloc of egg/egg-secure-memory.c does to the memory that is in use.
use mathlib.Core.Path.{subst}
use gcr.Shared.{
  ℕ, zero, suc, ◌+◌, ◌≤◌, ◌≡◌, refl, sym, ap, ◌∙◌, false, Option, none, some, List, [], ◌∷◌, ◌++◌,
  All, length, replicate, length-take_le, length-replicate,
}
use gcr.Egg.SecureMemory.{Byte, byte, Cell, Block, Spot, words_of, cell_at, is_unused}
use gcr.Egg.SecureMemory.Realloc.{with_cell, overwritten, write_to}
use gcr.Egg.SecureMemory.Bytes.{IsBlank}
use gcr.Egg.SecureMemory.Valid.{IsValid}
use gcr.Egg.SecureMemory.Allocations.{
  Allocation, allocation, allocations, allocations_from, earlier, allocations-unzip, find_cell,
}
use gcr.Egg.SecureMemory.Alloc.Refines.{new_allocation}
use gcr.Egg.SecureMemory.Free.Refines.{found_cell, add-one}
use gcr.Egg.SecureMemory.Realloc.Valid.{spot-IsHeld, held-IsValid}
use gcr.Egg.SecureMemory.Realloc.Bytes.{IsResized, bytes_of, overwritten-IsCell}

-- There is as much memory as there was, or one piece has become another, which may lie elsewhere.
abbrev pub IsReallocated :
    ℕ → List Allocation → Allocation → List Allocation → Option ℕ → List Allocation → Type 0
IsReallocated n before a after none is = is ≡ before ++ a ∷ after
IsReallocated n before a after (some memory) is =
    (front : List Allocation) × (new : Allocation) × (back : List Allocation) × (before ++ after
      ≡ front ++ back)
    × (is ≡ front ++ new ∷ back)
    × (new.address ≡ memory)
    × IsResized n (a.bytes) (new.bytes)

-- The memory of a block whose cell at a place has been changed.
pub allocations-with_cell :
    (c : Cell) (before after : List Cell) (ring : List ℕ) (block : Block)
    → is_unused c ≡ false
    → allocations (with_cell before c after ring block)
      ≡ earlier before
        ++ allocation (words_of before) c ∷ allocations_from (words_of before + c.n_words) after
allocations-with_cell c before after ring block busy =
    allocations-unzip before (c ∷ after) ∙ rw busy refl

write_to_step :
    (old : List Byte) (block : Block) (spot : Spot)
    → cell_at (words_of (spot.before)) [] (block.cells) ≡ some spot
    → write_to (words_of (spot.before) + 1) old block
      ≡ some (
          with_cell
            (spot.before)
            (overwritten old (spot.cell))
            (spot.after)
            (block.unused_cells)
            block)
unfolding write_to
write_to_step old block spot e = rw (add-one (words_of (spot.before)), write_to, e) refl

zeros-IsBlank : (n : ℕ) → All IsBlank (replicate n (byte 0))
zeros-IsBlank zero = tt
zeros-IsBlank (suc n) = (refl, zeros-IsBlank n)

-- New memory that is written to.
pub write_to-IsResized :
    (tag : List ℕ) (n memory : ℕ) (old : List Byte) (block : Block) (front back : List Allocation)
    → IsValid block
    → length old ≤ n
    → allocations block ≡ front ++ new_allocation tag n memory ∷ back
    → (block' : Block) × (new : Allocation) × (write_to memory old block ≡ some block')
      × IsValid block'
      × (allocations block' ≡ front ++ new ∷ back)
      × (new.address ≡ memory)
      × IsResized n old (new.bytes)
write_to-IsResized tag n memory old block front back v le h =
    let (spot, found) = find_cell [] (block.cells) front (new_allocation tag n memory) back h in
    let c = spot.cell in
    let held = spot-IsHeld block spot v (found.here) (found.used) in
    let zeros : bytes_of c ≡ replicate n (byte 0) = ap (λ (p : Allocation). p.bytes) (found.same) in
    let asked : c.requested ≡ n =
      sym (length-take_le (c.requested) (c.content) ((held.fits).holds))
      ∙ ap length zeros
      ∙ length-replicate n (byte 0) in
    let (fits, is) =
      overwritten-IsCell n old c (held.fits) asked le
        (subst (All IsBlank) (sym zeros) (zeros-IsBlank n)) in
    let after = overwritten old c in
    let there = ap (λ (p : Allocation). p.address) (found.same) in
    (
      with_cell (spot.before) after (spot.after) (block.unused_cells) block,
      allocation (words_of (spot.before)) after,
      ap (λ m. write_to m old block) (sym there)
          ∙ write_to_step old block spot (found_cell block spot v (found.here)),
      held-IsValid after (spot.before) (spot.after) (block.unused_cells) block (record {
        fits_before = held.fits_before;
        fits = fits;
        fits_after = held.fits_after;
        busy = held.busy;
        whole = held.whole;
        counted = held.counted;
        used_ring = held.used_ring;
        unused_ring = held.unused_ring;
        distinct = held.distinct;
        apart = held.apart;
      }),
      allocations-with_cell after (spot.before) (spot.after) (block.unused_cells) block (held.busy)
          ∙ ap
              (λ l.
                l
                ++ allocation (words_of (spot.before)) after
                  ∷ allocations_from (words_of (spot.before) + c.n_words) (spot.after))
              (found.in_front)
          ∙ ap (λ l. front ++ allocation (words_of (spot.before)) after ∷ l) (found.behind),
      there,
      is,
    )
