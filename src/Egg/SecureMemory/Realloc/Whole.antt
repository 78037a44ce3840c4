-- ===== src/Egg/SecureMemory/Realloc/Whole.antt =====
-- The whole of sec_realloc of egg/egg-secure-memory.c.
use mathlib.Core.Path.{subst}
use gcr.Shared.{
  ℕ, ◌+◌, ◌≤◌, ◌<◌, ◌≡◌, refl, sym, ap, ◌∙◌, inl, inr, true, false, not, Option, some, List, [],
  ◌∷◌, ◌++◌, leb, arith, length, take, length-take_le, Bool-cases, leb→le, leb_false→lt,
  ne→==_false,
}
use gcr.Egg.SecureMemory.{
  Byte, Cell, Block, Spot, words_of, cell_at, is_unused, has_tag, sec_size_to_words,
}
use gcr.Egg.SecureMemory.Realloc.{Growth, grow, resized, enlarged, with_cell, enlarge, sec_realloc}
use gcr.Egg.SecureMemory.Bytes.{size-le, size-lt}
use gcr.Egg.SecureMemory.Cells.{IsSpot, total-unzip, at_item}
use gcr.Egg.SecureMemory.Valid.{IsCell, IsValid}
use gcr.Egg.SecureMemory.Allocations.{
  Allocation, allocation, allocations, allocations_from, find_cell, IsCellOf,
}
use gcr.Egg.SecureMemory.Alloc.Valid.{IsFresh, sum}
use gcr.Egg.SecureMemory.Alloc.Refines.{sec_alloc-IsAllocated}
use gcr.Egg.SecureMemory.Free.Refines.{found_cell, add-one}
use gcr.Egg.SecureMemory.Realloc.Valid.{IsHeld, spot-IsHeld, held-IsValid}
use gcr.Egg.SecureMemory.Realloc.Grow.{SameMemory, grow-Grows}
use gcr.Egg.SecureMemory.Realloc.Bytes.{IsResized, bytes_of, resized-IsCell, enlarged-IsCell}
use gcr.Egg.SecureMemory.Realloc.Writes.{IsReallocated, allocations-with_cell}
use gcr.Egg.SecureMemory.Realloc.Moves.{Ends, moves, in_place}

-- A cell with another size, and all else as it was.
pub sized_anew :
    (n : ℕ) (tag : Option (List ℕ)) (bytes : List Byte) (c : Cell) (before after : List Cell)
    (ring : List ℕ) (block : Block)
    → 0 < n
    → IsHeld c before after ring block
    → IsCell (record c { content = bytes; requested = n; tag = tag })
    → IsHeld (record c { content = bytes; requested = n; tag = tag }) before after ring block
sized_anew n tag bytes c before after ring block pos h fits = record {
  fits_before = h.fits_before;
  fits = fits;
  fits_after = h.fits_after;
  busy = ne→==_false n 0 (λ e. omega arith);
  whole = h.whole;
  counted = h.counted;
  used_ring = h.used_ring;
  unused_ring = h.unused_ring;
  distinct = h.distinct;
  apart = h.apart;
}

pub grown-IsFresh :
    (fresh : Option ℕ) (block : Block) (spot : Spot) (g : Growth)
    → IsValid block
    → IsSpot (block.cells) spot
    → SameMemory (spot.cell) (spot.after) g
    → IsFresh fresh block
    → IsFresh fresh (with_cell (spot.before) (g.cell) (g.after) (g.ring) block)
grown-IsFresh fresh block spot g v at same new item e = omega (
  arith,
  total-unzip (at_item item) (spot.before) (g.cell ∷ g.after),
  sum block spot v at (at_item item),
  same.items item,
  new item e,
)

pub allocation_eq :
    (x y : Allocation) → x.address ≡ y.address → x.bytes ≡ y.bytes → x.tag ≡ y.tag → x ≡ y
allocation_eq x y e f g = ground arith

-- The memory as it was, with the cell that has been made larger.
pub grown-allocations :
    (block : Block) (spot : Spot) (g : Growth) (before : List Allocation) (a : Allocation)
    (after : List Allocation)
    → IsCellOf [] (block.cells) before a after spot
    → SameMemory (spot.cell) (spot.after) g
    → IsHeld (g.cell) (spot.before) (g.after) (g.ring) block
    → (bytes_of (g.cell) ≡ a.bytes)
      × (allocations_from (words_of (spot.before) + (g.cell).n_words) (g.after) ≡ after)
      × (allocations (with_cell (spot.before) (g.cell) (g.after) (g.ring) block)
          ≡ before ++ a ∷ after)
grown-allocations block spot g before a after found same held =
    let offset = words_of (spot.before) in
    let bytes : bytes_of (g.cell) ≡ a.bytes =
      ap (λ n. take n ((g.cell).content)) (same.requested)
      ∙ same.bytes
      ∙ ap (λ (p : Allocation). p.bytes) (found.same) in
    let one : allocation offset (g.cell) ≡ a =
      allocation_eq (allocation offset (g.cell)) a (ap (λ (p : Allocation). p.address) (found.same))
        bytes (same.tag ∙ ap (λ (p : Allocation). p.tag) (found.same)) in
    let last = same.later offset ∙ found.behind in
    (
      bytes,
      last,
      allocations-with_cell (g.cell) (spot.before) (g.after) (g.ring) block (held.busy)
          ∙ ap
              (λ l.
                l
                ++ allocation offset (g.cell)
                  ∷ allocations_from (offset + (g.cell).n_words) (g.after))
              (found.in_front)
          ∙ ap (λ x. before ++ x ∷ allocations_from (offset + (g.cell).n_words) (g.after)) one
          ∙ ap (λ l. before ++ a ∷ l) last,
    )

pub enlarge-Ends :
    (fresh : Option ℕ) (tag : List ℕ) (n : ℕ) (block : Block) (spot : Spot) (g : Growth)
    (before : List Allocation) (a : Allocation) (after : List Allocation)
    → 0 < n
    → IsFresh fresh block
    → IsValid block
    → IsCellOf [] (block.cells) before a after spot
    → (spot.cell).n_words < sec_size_to_words n + 2
    → IsHeld (g.cell) (spot.before) (g.after) (g.ring) block
    → SameMemory (spot.cell) (spot.after) g
    → Ends n before a after (enlarge fresh tag (a.address) n spot g block)
unfolding enlarge
enlarge-Ends fresh tag n block spot g before a after pos new v found short held same =
    let old = spot-IsHeld block spot v (found.here) (found.used) in
    let (bytes, last, whole) = grown-allocations block spot g before a after found same held in
    let more : (g.cell).requested ≤ n =
      omega (arith, same.requested, (old.fits).holds, (old.fits).sized, size-lt n) in
    elim (Bool-cases (leb (sec_size_to_words n + 2) ((g.cell).n_words))) [
      | inl enough ↦
          let room : n ≤ length ((g.cell).content) =
            omega (arith, leb→le _ _ enough, size-le n, (held.fits).sized) in
          let (fits, is) = enlarged-IsCell tag n (g.cell) (held.fits) pos more room in
          rw enough (
            in_place n (a.address) (enlarged tag n (g.cell)) spot (g.after) (g.ring) block before a
              after
              (sized_anew n (some tag) ((enlarged tag n (g.cell)).content) (g.cell) (spot.before)
                (g.after) (g.ring) block pos held fits)
              (found.in_front) last
              (subst (λ old. IsResized n old (bytes_of (enlarged tag n (g.cell)))) bytes is)
              (ap (λ (p : Allocation). p.address) (found.same)))
      | inr less ↦
          let grown = with_cell (spot.before) (g.cell) (g.after) (g.ring) block in
          let (memory, next, e, v', given) =
            sec_alloc-IsAllocated fresh tag n grown pos
              (grown-IsFresh fresh block spot g v (found.here) same new)
              (held-IsValid (g.cell) (spot.before) (g.after) (g.ring) block held) in
          let fits : length (a.bytes) ≤ n = omega (
            arith,
            more,
            ap length bytes,
            length-take_le ((g.cell).requested) ((g.cell).content) ((held.fits).holds),
          ) in
          rw (enlarge, less, e, bytes)
            (moves tag n memory grown next before a after v' fits whole given)
    ]

pub realloc_small :
    (fresh : Option ℕ) (tag : List ℕ) (n : ℕ) (block : Block) (spot : Spot)
    → cell_at (words_of (spot.before)) [] (block.cells) ≡ some spot
    → is_unused (spot.cell) ≡ false
    → has_tag (spot.cell) ≡ true
    → leb (sec_size_to_words n + 2) ((spot.cell).n_words) ≡ true
    → sec_realloc fresh tag (words_of (spot.before) + 1) n block
      ≡ some (
        some (words_of (spot.before) + 1),
        with_cell (spot.before) (resized n (spot.cell)) (spot.after) (block.unused_cells) block,
      )
unfolding sec_realloc
realloc_small fresh tag n block spot e busy tagged small =
    rw (add-one (words_of (spot.before)), sec_realloc, e, busy, tagged, small) refl

pub realloc_large :
    (fresh : Option ℕ) (tag : List ℕ) (n : ℕ) (block : Block) (spot : Spot)
    → cell_at (words_of (spot.before)) [] (block.cells) ≡ some spot
    → is_unused (spot.cell) ≡ false
    → has_tag (spot.cell) ≡ true
    → leb (sec_size_to_words n + 2) ((spot.cell).n_words) ≡ false
    → sec_realloc fresh tag (words_of (spot.before) + 1) n block
      ≡ enlarge fresh tag
          (words_of (spot.before) + 1)
          n
          spot
          (grow (sec_size_to_words n + 2) (spot.cell) (spot.after) (block.unused_cells))
          block
unfolding sec_realloc
realloc_large fresh tag n block spot e busy tagged large =
    rw (add-one (words_of (spot.before)), sec_realloc, e, busy, tagged, large) refl

-- In a block that is in order, and where some memory is asked for and the pool gives no cell that the block has
-- already, changing the size of a piece of memory that is in use fails no assertion on a cell and leaves
-- the block in order. Either the answer is null and all pieces are as they were, or the piece is at the
-- address of the answer and has the new size, holds what it held as far as that fits, and behind it only
-- zeros and bytes of guard words, and the other pieces are where they were and hold what they held.
pub sec_realloc-IsReallocated :
    (fresh : Option ℕ) (tag : List ℕ) (n : ℕ) (block : Block) (before : List Allocation)
    (a : Allocation) (after : List Allocation)
    → 0 < n
    → IsFresh fresh block
    → IsValid block
    → allocations block ≡ before ++ a ∷ after
    → (memory : Option ℕ) × (block' : Block) × (sec_realloc fresh tag (a.address) n block
        ≡ some (memory, block'))
      × IsValid block'
      × IsReallocated n before a after memory (allocations block')
sec_realloc-IsReallocated fresh tag n block before a after pos new v h =
    let (spot, found) = find_cell [] (block.cells) before a after h in
    let c = spot.cell in
    let offset = words_of (spot.before) in
    let there : offset + 1 ≡ a.address = ap (λ (p : Allocation). p.address) (found.same) in
    let e = found_cell block spot v (found.here) in
    let held = spot-IsHeld block spot v (found.here) (found.used) in
    let tagged : has_tag c ≡ true = (held.fits).tagged ∙ ap not (found.used) in
    let n_words = sec_size_to_words n + 2 in
    subst (λ m. Ends n before a after (sec_realloc fresh tag m n block)) there
      (elim (Bool-cases (leb n_words (c.n_words))) [
        | inl small ↦
            let room : n ≤ length (c.content) =
              omega (arith, leb→le _ _ small, size-le n, (held.fits).sized) in
            let (fits, is) = resized-IsCell n c (held.fits) (held.busy) pos room in
            rw (realloc_small fresh tag n block spot e (found.used) tagged small) (
              in_place n (offset + 1) (resized n c) spot (spot.after) (block.unused_cells) block
                before a after
                (sized_anew n (c.tag) ((resized n c).content) c (spot.before) (spot.after)
                  (block.unused_cells) block pos held fits)
                (found.in_front) (found.behind)
                (subst (λ old. IsResized n old (bytes_of (resized n c)))
                  (ap (λ (p : Allocation). p.bytes) (found.same)) is)
                refl)
        | inr large ↦
            let g = grow n_words c (spot.after) (block.unused_cells) in
            let (grown, same) =
              grow-Grows n_words c (spot.before) (spot.after) (block.unused_cells) block held in
            rw (realloc_large fresh tag n block spot e (found.used) tagged large) (
              subst (λ m. Ends n before a after (enlarge fresh tag m n spot g block)) (sym there)
                (enlarge-Ends fresh tag n block spot g before a after pos new v found
                  (leb_false→lt _ _ large) grown same))
      ])
