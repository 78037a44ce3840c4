-- ===== src/Egg/SecureMemory/Free/Loose.antt =====
-- A cell of egg/egg-secure-memory.c that is neither in use nor yet among the unused ones.
use gcr.Shared.{
  ℕ, ◌+◌, ◌≤◌, ◌≡◌, refl, inl, inr, Bool, true, false, List, [], ◌∷◌, if◌then◌else◌, arith, All,
  Bool-cases,
}
use gcr.Egg.SecureMemory.{Cell, Block, is_unused}
use gcr.Egg.SecureMemory.Free.{into_first, merge_before, unused}
use gcr.Egg.SecureMemory.Cells.{total, pairs, meet, at_item, unused_at, used_at}
use gcr.Egg.SecureMemory.Valid.{IsCell, count, one_if_used}
use gcr.Egg.SecureMemory.CellLaws.{into_first-IsCell}
use gcr.Egg.SecureMemory.Alloc.Valid.{unused_counts}

-- A block in which a cell is neither in use nor, unless it has taken an unused one in, in the ring.
pub record IsLoose (in_ring : Bool) (c : Cell) (before after : List Cell) (block : Block)
    : Type 0 where
  pub fits_before : All IsCell before
  pub fits : IsCell (unused c)
  pub fits_after : All IsCell after
  pub whole :
      total (λ c. c.n_words) before + c.n_words + total (λ c. c.n_words) after ≡ block.n_words
  pub counted : total one_if_used before + total one_if_used after ≡ block.n_used
  pub used_ring :
      (i : ℕ) → count i (block.used_cells) ≡ total (used_at i) before + total (used_at i) after
  pub unused_ring :
      (i : ℕ)
      → count i (block.unused_cells)
        ≡ total (unused_at i) before
          + (if in_ring then at_item i c else 0)
          + total (unused_at i) after
  pub distinct : (i : ℕ) → total (at_item i) before + at_item i c + total (at_item i) after ≤ 1
  pub apart : pairs before + pairs after ≡ 0

-- No unused cell stands before or behind a place.
abbrev pub IsEdge : List Cell → Type 0
IsEdge [] = Unit {0}
IsEdge (c ∷ cells) = is_unused c ≡ false

pub meet-edge :
    (c : Cell) (cells others : List Cell)
    → IsEdge cells
    → (meet (c ∷ []) cells ≡ 0) × (meet cells (c ∷ others) ≡ 0)
meet-edge c [] others h = (refl, refl)
meet-edge c (d ∷ cells) others h = ground arith

pub edge :
    (c : Cell) (cells : List Cell) → is_unused c ≡ true → pairs (c ∷ cells) ≡ 0 → IsEdge cells
edge c [] free h = tt
edge c (d ∷ cells) free h = ground arith

pub take_in_before :
    (c other : Cell) (before after : List Cell) (block : Block)
    → is_unused other ≡ true
    → IsLoose false c (other ∷ before) after block
    → IsLoose true (into_first other c) before after block × IsEdge before
take_in_before c other before after block free l =
    let counts = λ (i : ℕ). unused_counts i other free in
    (
      record {
        fits_before = (l.fits_before).1;
        fits = into_first-IsCell other c (l.fits_before).0 (l.fits) free;
        fits_after = l.fits_after;
        whole = omega (arith, l.whole);
        counted = omega (arith, l.counted, (counts 0).0);
        used_ring = λ i. omega (arith, l.used_ring i, (counts i).1);
        unused_ring = λ i. omega (arith, l.unused_ring i, (counts i).2);
        distinct = λ i. omega (arith, l.distinct i);
        apart = omega (arith, l.apart);
      },
      edge other before free (omega (arith, l.apart)),
    )

pub merge_before-IsLoose :
    (c : Cell) (before after : List Cell) (block : Block)
    → IsLoose false c before after block
    → IsLoose
        ((merge_before c before).2)
        ((merge_before c before).0)
        ((merge_before c before).1)
        after
        block
      × IsEdge ((merge_before c before).1)
unfolding merge_before
merge_before-IsLoose c [] after block l = (l, tt)
merge_before-IsLoose c (other ∷ before) after block l = elim (Bool-cases (is_unused other)) [
  | inl free ↦ rw free (take_in_before c other before after block free l)
  | inr used ↦ rw used (l, used)
]
