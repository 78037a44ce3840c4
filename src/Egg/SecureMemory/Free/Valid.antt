-- ===== src/Egg/SecureMemory/Free/Valid.antt =====
-- That sec_free of egg/egg-secure-memory.c keeps a block in order.
use gcr.Shared.{
  ℕ, ◌+◌, ◌-◌, ◌<◌, ◌≡◌, refl, inl, inr, Bool, true, false, List, [], ◌∷◌, ◌==◌, if◌then◌else◌,
  arith, Bool-cases, ==_refl,
}
use gcr.Egg.SecureMemory.{
  Cell, Block, Spot, unzip, is_unused, sec_remove_cell_ring, sec_insert_cell_ring,
}
use gcr.Egg.SecureMemory.Free.{
  into_second, merge_before, merge_after, cleared, unused, release_cell,
}
use gcr.Egg.SecureMemory.Cells.{
  total, total-unzip, All-unzip, pairs-unzip, IsSpot, at_item, unused_at, used_at,
}
use gcr.Egg.SecureMemory.Valid.{IsCell, IsValid, count, one_if_used}
use gcr.Egg.SecureMemory.Rings.{count-insert, count-remove}
use gcr.Egg.SecureMemory.CellLaws.{released-IsCell, into_second-IsCell}
use gcr.Egg.SecureMemory.Alloc.Valid.{sum, parts, no_pairs, unused_counts}
use gcr.Egg.SecureMemory.Alloc.Search.{at_self}
use gcr.Egg.SecureMemory.Free.Loose.{IsLoose, IsEdge, meet-edge, edge, merge_before-IsLoose}

-- The cell is in the ring and has no unused neighbours.
settled :
    (c : Cell) (before after : List Cell) (block : Block)
    → IsLoose true c before after block
    → IsEdge before
    → IsEdge after
    → IsValid (record block { cells = unzip before (unused c ∷ after) })
settled c before after block l first last =
    let sum_all = λ (f : Cell → ℕ). total-unzip f before (unused c ∷ after) in
    record {
      fits = All-unzip IsCell before (unused c ∷ after) (l.fits_before) (l.fits, l.fits_after);
      whole = omega (arith, sum_all (λ c. c.n_words), l.whole);
      counted = omega (arith, sum_all one_if_used, l.counted);
      used_ring = λ i. omega (arith, sum_all (used_at i), l.used_ring i);
      unused_ring = λ i. omega (arith, sum_all (unused_at i), l.unused_ring i);
      distinct = λ i. omega (arith, sum_all (at_item i), l.distinct i);
      apart = omega (
        arith,
        l.apart,
        pairs-unzip before (unused c ∷ after),
        (meet-edge (unused c) after [] last).0,
        (meet-edge (unused c) before after first).1,
      );
    }

-- The cell goes into the ring if it is not there.
abbrev added : Bool → ℕ → List ℕ → List ℕ
added in_ring item ring = if in_ring then ring else sec_insert_cell_ring item ring

add_IsLoose :
    (in_ring : Bool) (c : Cell) (before after : List Cell) (block : Block)
    → IsLoose in_ring c before after block
    → IsLoose true c before after
        (record block { unused_cells = added in_ring (c.item) (block.unused_cells) })
add_IsLoose true c before after block l = record l { fits = l.fits }
add_IsLoose false c before after block l = record {
  fits_before = l.fits_before;
  fits = l.fits;
  fits_after = l.fits_after;
  whole = l.whole;
  counted = l.counted;
  used_ring = l.used_ring;
  unused_ring = λ i. omega (arith, l.unused_ring i, count-insert i (c.item) (block.unused_cells));
  distinct = l.distinct;
  apart = l.apart;
}

-- The cell goes into the unused one behind it, and out of the ring if it is there.
abbrev removed : Bool → ℕ → List ℕ → List ℕ
removed in_ring item ring = if in_ring then sec_remove_cell_ring item ring else ring

count-removed :
    (in_ring : Bool) (i item n : ℕ) (ring : List ℕ)
    → count item ring ≡ (if in_ring then 1 else 0) + n
    → count i ring
      ≡ (if in_ring then (if item == i then 1 else 0) else 0) + count i (removed in_ring item ring)
count-removed true i item n ring h = count-remove i item ring (omega arith)
count-removed false i item n ring h = omega arith

take_in_after :
    (in_ring : Bool) (c other : Cell) (before after : List Cell) (block : Block)
    → is_unused other ≡ true
    → IsLoose in_ring c before (other ∷ after) block
    → IsLoose true
        (into_second c other)
        before
        after
        (record block { unused_cells = removed in_ring (c.item) (block.unused_cells) })
      × IsEdge after
take_in_after in_ring c other before after block free l =
    let counts = λ (i : ℕ). unused_counts i other free in
    let others = total (unused_at (c.item)) before + total (unused_at (c.item)) (other ∷ after) in
    let mine : count (c.item) (block.unused_cells) ≡ (if in_ring then 1 else 0) + others =
      omega (arith, rw (==_refl (c.item)) at (l.unused_ring (c.item))) in
    (
      record {
        fits_before = l.fits_before;
        fits = into_second-IsCell c other (l.fits) (l.fits_after).0 free;
        fits_after = (l.fits_after).1;
        whole = omega (arith, l.whole);
        counted = omega (arith, l.counted, (counts 0).0);
        used_ring = λ i. omega (arith, l.used_ring i, (counts i).1);
        unused_ring = λ i. omega (
          arith,
          l.unused_ring i,
          (counts i).2,
          count-removed in_ring i (c.item) others (block.unused_cells) mine,
        );
        distinct = λ i. omega (arith, l.distinct i);
        apart = omega (arith, l.apart);
      },
      edge other after free (omega (arith, l.apart)),
    )

merge_after-IsValid :
    (in_ring : Bool) (c : Cell) (before after : List Cell) (block : Block)
    → IsLoose in_ring c before after block
    → IsEdge before
    → IsValid (record block {
      cells = unzip before (
          unused ((merge_after in_ring c after (block.unused_cells)).0)
          ∷ (merge_after in_ring c after (block.unused_cells)).1);
      unused_cells = (merge_after in_ring c after (block.unused_cells)).2;
    })
unfolding merge_after
merge_after-IsValid in_ring c before [] block l e =
    settled c before [] _ (add_IsLoose in_ring c before [] block l) e tt
merge_after-IsValid in_ring c before (other ∷ after) block l e =
    elim (Bool-cases (is_unused other)) [
      | inl free ↦
          let (taken, last) = take_in_after in_ring c other before after block free l in
          rw free (settled (into_second c other) before after _ taken e last)
      | inr used ↦ rw used (
          settled c before (other ∷ after) _ (add_IsLoose in_ring c before (other ∷ after) block l)
            e used)
    ]

-- What a cell in use counts for.
pub used_counts :
    (i : ℕ) (c : Cell)
    → is_unused c ≡ false
    → (one_if_used c ≡ 1) × (used_at i c ≡ at_item i c) × (unused_at i c ≡ 0)
used_counts i c h = (rw h refl, rw h refl, rw h refl)

-- A cell in use that is given back.
module _ (block : Block) (spot : Spot) (v : IsValid block) (at : IsSpot (block.cells) spot) where
  abbrev given_back : Block
  given_back = record block {
    n_used = block.n_used - 1;
    used_cells = sec_remove_cell_ring ((spot.cell).item) (block.used_cells);
  }

  released-IsLoose :
      is_unused (spot.cell) ≡ false
      → IsLoose false (cleared (spot.cell)) (spot.before) (spot.after) given_back
  released-IsLoose used =
      let (fits_before, (here, fits_after)) = parts block spot v at in
      let sums = λ (f : Cell → ℕ). sum block spot v at f in
      let counts = λ (i : ℕ). used_counts i (spot.cell) used in
      let in_ring : 0 < count ((spot.cell).item) (block.used_cells) = omega (
        arith,
        v.used_ring ((spot.cell).item),
        sums (used_at ((spot.cell).item)),
        (counts ((spot.cell).item)).1,
        at_self ((spot.cell).item),
      ) in
      record {
        fits_before = fits_before;
        fits = released-IsCell (spot.cell) here;
        fits_after = fits_after;
        whole = omega (arith, sums (λ c. c.n_words), v.whole);
        counted = omega (arith, sums one_if_used, v.counted, (counts 0).0);
        used_ring = λ i. omega (
          arith,
          sums (used_at i),
          v.used_ring i,
          (counts i).1,
          count-remove i ((spot.cell).item) (block.used_cells) in_ring,
        );
        unused_ring = λ i. omega (arith, sums (unused_at i), v.unused_ring i, (counts i).2);
        distinct = λ i. omega (arith, sums (at_item i), v.distinct i);
        apart = omega (arith, no_pairs block spot v at);
      }

  pub release_cell-IsValid : is_unused (spot.cell) ≡ false → IsValid (release_cell spot block)
  unfolding release_cell
  release_cell-IsValid used =
      let c = cleared (spot.cell) in
      let (l, e) =
        merge_before-IsLoose c (spot.before) (spot.after) given_back (released-IsLoose used) in
      merge_after-IsValid ((merge_before c (spot.before)).2) ((merge_before c (spot.before)).0)
        ((merge_before c (spot.before)).1) (spot.after) given_back l e
