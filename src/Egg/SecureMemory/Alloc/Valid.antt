-- ===== src/Egg/SecureMemory/Alloc/Valid.antt =====
-- That sec_alloc of egg/egg-secure-memory.c keeps a block in order.
use mathlib.Core.Path.{subst}
use gcr.Shared.{
  ℕ, ◌+◌, ◌≤◌, ◌<◌, ◌≡◌, refl, sym, ap, ◌∙◌, inl, inr, true, false, Option, none, some, List, [],
  ◌∷◌, ◌==◌, if◌then◌else◌, ltb, arith, All, length, ltb→lt, Bool-cases, ==_iff, ne→==_false,
}
use gcr.Egg.SecureMemory.{
  Cell, Block, Spot, waste, unzip, is_unused, sec_size_to_words, sec_remove_cell_ring,
}
use gcr.Egg.SecureMemory.Alloc.{front, rest_of, allocated, use_cell, use_front, sec_steal}
use gcr.Egg.SecureMemory.Bytes.{size-le}
use gcr.Egg.SecureMemory.Cells.{
  total, total-unzip, All-unzip, All-zip, pairs, meet, pairs-unzip, IsSpot, at_item, unused_at,
  used_at,
}
use gcr.Egg.SecureMemory.Valid.{IsCell, IsValid, count, one_if_used}
use gcr.Egg.SecureMemory.Rings.{count-insert, count-remove}
use gcr.Egg.SecureMemory.CellLaws.{front-IsCell, rest_of-IsCell, allocated-IsCell}
use gcr.Egg.SecureMemory.Alloc.Search.{IsFit}

-- A block with an unused cell that is in no ring.
pub record IsReady (n : ℕ) (spot : Spot) (unused : List ℕ) (block : Block) : Type 0 where
  pub fits : All IsCell (unzip (spot.before) (spot.cell ∷ spot.after))
  pub free : is_unused (spot.cell) ≡ true
  pub room : n ≤ length ((spot.cell).content)
  pub whole :
      total (λ c. c.n_words) (spot.before)
        + (spot.cell).n_words
        + total (λ c. c.n_words) (spot.after)
      ≡ block.n_words
  pub counted : total one_if_used (spot.before) + total one_if_used (spot.after) ≡ block.n_used
  pub used_ring :
      (i : ℕ)
      → count i (block.used_cells)
        ≡ total (used_at i) (spot.before) + total (used_at i) (spot.after)
  pub unused_ring :
      (i : ℕ)
      → count i unused ≡ total (unused_at i) (spot.before) + total (unused_at i) (spot.after)
  pub distinct :
      (i : ℕ)
      → total (at_item i) (spot.before) + at_item i (spot.cell) + total (at_item i) (spot.after) ≤ 1
  pub apart : pairs (spot.before) + pairs (spot.after) ≡ 0

pub meet_used :
    (c : Cell) (cells : List Cell)
    → is_unused c ≡ false
    → (meet (c ∷ []) cells ≡ 0) × (meet cells (c ∷ []) ≡ 0)
meet_used c [] h = (refl, refl)
meet_used c (d ∷ cells) h = ground arith

pub meet_before :
    (before : List Cell) (c : Cell) (cells : List Cell)
    → is_unused c ≡ false
    → meet before (c ∷ cells) ≡ 0
meet_before [] c cells h = refl
meet_before (d ∷ before) c cells h = ground arith

meet_same :
    (n_words : ℕ) (c : Cell) (cells : List Cell)
    → meet (rest_of n_words c ∷ []) cells ≡ meet (c ∷ []) cells
meet_same n_words c [] = refl
meet_same n_words c (d ∷ cells) = refl

use_cell-IsValid :
    (tag : List ℕ) (n : ℕ) (spot : Spot) (unused : List ℕ) (block : Block)
    → 0 < n
    → IsReady n spot unused block
    → IsValid ((use_cell tag n spot unused block).1)
unfolding use_cell
use_cell-IsValid tag n spot unused block pos r =
    let c = allocated tag n (spot.cell) in
    let used : is_unused c ≡ false = ne→==_false n 0 (λ e. omega arith) in
    let (fits_before, fits_here) = All-zip IsCell (spot.before) (spot.cell ∷ spot.after) (r.fits) in
    let sum = λ (f : Cell → ℕ). total-unzip f (spot.before) (c ∷ spot.after) in
    record {
      fits =
          All-unzip IsCell (spot.before) (c ∷ spot.after) fits_before
            (allocated-IsCell tag n (spot.cell) fits_here.0 (r.free) pos (r.room), fits_here.1);
      whole = omega (arith, sum (λ c. c.n_words), r.whole);
      counted = rw (sum one_if_used, used) (omega (arith, r.counted));
      used_ring = λ i.
          rw (count-insert i ((spot.cell).item) (block.used_cells), sum (used_at i), used)
            (omega (arith, r.used_ring i));
      unused_ring = λ i. rw (sum (unused_at i), used) (omega (arith, r.unused_ring i));
      distinct = λ i. omega (arith, sum (at_item i), r.distinct i);
      apart = omega (
        arith,
        r.apart,
        pairs-unzip (spot.before) (c ∷ spot.after),
        meet_before (spot.before) c (spot.after) used,
        (meet_used c (spot.after) used).0,
      );
    }

-- What the pool gives is no cell of the block.
abbrev pub IsFresh : Option ℕ → Block → Type 0
IsFresh fresh block = (item : ℕ) → fresh ≡ some item → total (at_item item) (block.cells) ≡ 0

-- What an unused cell counts for.
pub unused_counts :
    (i : ℕ) (c : Cell)
    → is_unused c ≡ true
    → (one_if_used c ≡ 0) × (used_at i c ≡ 0) × (unused_at i c ≡ at_item i c)
unused_counts i c h = (rw h refl, rw h refl, rw h refl)

-- A block that is in order, seen from a place in it.
module _ (block : Block) (spot : Spot) (v : IsValid block) (at : IsSpot (block.cells) spot) where
  pub sum :
      (f : Cell → ℕ)
      → total f (block.cells) ≡ total f (spot.before) + (f (spot.cell) + total f (spot.after))
  sum f = ap (total f) at ∙ total-unzip f (spot.before) (spot.cell ∷ spot.after)

  pub parts : All IsCell (spot.before) × All IsCell (spot.cell ∷ spot.after)
  parts = All-zip IsCell (spot.before) (spot.cell ∷ spot.after) (subst (All IsCell) at (v.fits))

  pub no_pairs :
      pairs (spot.before)
        + meet (spot.before) (spot.cell ∷ spot.after)
        + (meet (spot.cell ∷ []) (spot.after) + pairs (spot.after))
      ≡ 0
  no_pairs = sym (pairs-unzip (spot.before) (spot.cell ∷ spot.after)) ∙ sym (ap pairs at) ∙ v.apart

  pub IsReady-whole :
      (n : ℕ)
      → is_unused (spot.cell) ≡ true
      → 0 < count ((spot.cell).item) (block.unused_cells)
      → sec_size_to_words n + 2 ≤ (spot.cell).n_words
      → IsReady n spot (sec_remove_cell_ring ((spot.cell).item) (block.unused_cells)) block
  IsReady-whole n free among long = record {
    fits = subst (All IsCell) at (v.fits);
    free = free;
    room = omega (arith, long, size-le n, ((parts.1).0).sized);
    whole = omega (arith, sum (λ c. c.n_words), v.whole);
    counted = omega (arith, sum one_if_used, v.counted, (unused_counts 0 (spot.cell) free).0);
    used_ring =
        λ i. omega (arith, sum (used_at i), v.used_ring i, (unused_counts i (spot.cell) free).1);
    unused_ring = λ i. omega (
      arith,
      sum (unused_at i),
      v.unused_ring i,
      (unused_counts i (spot.cell) free).2,
      count-remove i ((spot.cell).item) (block.unused_cells) among,
    );
    distinct = λ i. omega (arith, sum (at_item i), v.distinct i);
    apart = omega (arith, no_pairs);
  }

  one_more :
      (item i : ℕ)
      → total (at_item item) (block.cells) ≡ 0
      → total (at_item i) (spot.before)
          + (if item == i then 1 else 0)
          + (at_item i (spot.cell) + total (at_item i) (spot.after))
        ≤ 1
  one_more item i fresh = elim (Bool-cases (item == i)) [
    | inl same ↦
        let none_there : total (at_item i) (block.cells) ≡ 0 =
          subst (λ j. total (at_item j) (block.cells) ≡ 0) ((==_iff item i).0 same) fresh in
        rw same (omega (arith, sum (at_item i), none_there))
    | inr other ↦ rw other (omega (arith, sum (at_item i), v.distinct i))
  ]

  -- The place of the first words of a cell that is too long.
  abbrev pub split : ℕ → ℕ → Spot
  split item n_words = record spot {
    cell = front item n_words (spot.cell);
    after = rest_of n_words (spot.cell) ∷ spot.after;
  }

  pub IsReady-split :
      (item n : ℕ)
      → is_unused (spot.cell) ≡ true
      → total (at_item item) (block.cells) ≡ 0
      → sec_size_to_words n + 2 + waste < (spot.cell).n_words
      → IsReady n (split item (sec_size_to_words n + 2)) (block.unused_cells) block
  IsReady-split item n free fresh long =
      let n_words = sec_size_to_words n + 2 in
      let c = spot.cell in
      let rest = rest_of n_words c in
      let (fits_before, (fits_here, fits_after)) = parts in
      let first = front-IsCell item n_words c fits_here free (omega arith) (omega arith) in
      let second = rest_of-IsCell n_words c fits_here free (omega arith) in
      record {
        fits =
            All-unzip IsCell (spot.before) (front item n_words c ∷ rest ∷ spot.after) fits_before
              (first, (second, fits_after));
        free = refl;
        room = omega (arith, size-le n, first.sized);
        whole = omega (arith, sum (λ c. c.n_words), v.whole);
        counted = omega (arith, sum one_if_used, v.counted);
        used_ring = λ i. omega (arith, sum (used_at i), v.used_ring i);
        unused_ring = λ i. omega (arith, sum (unused_at i), v.unused_ring i);
        distinct = λ i. one_more item i fresh;
        apart = omega (arith, no_pairs, meet_same n_words c (spot.after));
      }

  use_front-IsValid :
      (fresh : Option ℕ) (tag : List ℕ) (n : ℕ)
      → 0 < n
      → IsFresh fresh block
      → is_unused (spot.cell) ≡ true
      → sec_size_to_words n + 2 + waste < (spot.cell).n_words
      → IsValid ((use_front fresh tag n (sec_size_to_words n + 2) spot block).1)
  unfolding use_front
  use_front-IsValid none tag n pos new free much = v
  use_front-IsValid (some item) tag n pos new free much =
      use_cell-IsValid tag n (split item (sec_size_to_words n + 2)) (block.unused_cells) block pos
        (IsReady-split item n free (new item refl) much)

  pub sec_steal-IsValid :
      (fresh : Option ℕ) (tag : List ℕ) (n : ℕ)
      → 0 < n
      → IsFresh fresh block
      → IsFit (block.unused_cells) (sec_size_to_words n + 2) (block.cells) spot
      → IsValid ((sec_steal fresh tag n (sec_size_to_words n + 2) spot block).1)
  unfolding sec_steal
  sec_steal-IsValid fresh tag n pos new (here, among, free, long) =
      let n_words = sec_size_to_words n + 2 in
      elim (Bool-cases (ltb (n_words + waste) ((spot.cell).n_words))) [
        | inl much ↦ rw much (use_front-IsValid fresh tag n pos new free (ltb→lt _ _ much))
        | inr fits ↦ rw fits (
            use_cell-IsValid tag n spot
              (sec_remove_cell_ring ((spot.cell).item) (block.unused_cells)) block pos
              (IsReady-whole n free among long))
      ]
