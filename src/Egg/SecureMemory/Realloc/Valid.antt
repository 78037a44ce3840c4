-- ===== src/Egg/SecureMemory/Realloc/Valid.antt =====
-- That the steps of sec_realloc of egg/egg-secure-memory.c keep a block in order.
use gcr.Shared.{
  ℕ, zero, suc, ◌+◌, ◌*◌, ◌≤◌, ◌<◌, ◌≡◌, refl, ap, true, false, List, [], ◌∷◌, ◌++◌, arith, All,
  length, take, length-take, length-append,
}
use gcr.Egg.SecureMemory.{Byte, Cell, Block, Spot, guards, is_unused, sec_remove_cell_ring}
use gcr.Egg.SecureMemory.Free.{into_first}
use gcr.Egg.SecureMemory.Realloc.{lengthened, shortened, with_cell}
use gcr.Egg.SecureMemory.Bytes.{IsBlank, IsClean, IsBlank-append, IsBlank-take, guards-IsBlank}
use gcr.Egg.SecureMemory.Cells.{
  total, total-unzip, All-unzip, pairs, meet, pairs-unzip, IsSpot, at_item, unused_at, used_at,
}
use gcr.Egg.SecureMemory.Valid.{IsCell, IsValid, count, one_if_used}
use gcr.Egg.SecureMemory.Rings.{count-remove}
use gcr.Egg.SecureMemory.CellLaws.{blank, rest_of-IsCell}
use gcr.Egg.SecureMemory.Alloc.Valid.{sum, parts, no_pairs, unused_counts, meet_used, meet_before}
use gcr.Egg.SecureMemory.Alloc.Search.{at_self}
use gcr.Egg.SecureMemory.Free.Valid.{used_counts}

-- A block with a cell in use, its neighbours and a ring.
pub record IsHeld (c : Cell) (before after : List Cell) (ring : List ℕ) (block : Block)
    : Type 0 where
  pub fits_before : All IsCell before
  pub fits : IsCell c
  pub fits_after : All IsCell after
  pub busy : is_unused c ≡ false
  pub whole :
      total (λ c. c.n_words) before + c.n_words + total (λ c. c.n_words) after ≡ block.n_words
  pub counted : total one_if_used before + 1 + total one_if_used after ≡ block.n_used
  pub used_ring :
      (i : ℕ)
      → count i (block.used_cells)
        ≡ total (used_at i) before + at_item i c + total (used_at i) after
  pub unused_ring : (i : ℕ) → count i ring ≡ total (unused_at i) before + total (unused_at i) after
  pub distinct : (i : ℕ) → total (at_item i) before + at_item i c + total (at_item i) after ≤ 1
  pub apart : pairs before + pairs after ≡ 0

pub spot-IsHeld :
    (block : Block) (spot : Spot)
    → IsValid block
    → IsSpot (block.cells) spot
    → is_unused (spot.cell) ≡ false
    → IsHeld (spot.cell) (spot.before) (spot.after) (block.unused_cells) block
spot-IsHeld block spot v at busy =
    let (before, (here, after)) = parts block spot v at in
    let sums = λ (f : Cell → ℕ). sum block spot v at f in
    let counts = λ (i : ℕ). used_counts i (spot.cell) busy in
    record {
      fits_before = before;
      fits = here;
      fits_after = after;
      busy = busy;
      whole = omega (arith, sums (λ c. c.n_words), v.whole);
      counted = omega (arith, sums one_if_used, v.counted, (counts 0).0);
      used_ring = λ i. omega (arith, sums (used_at i), v.used_ring i, (counts i).1);
      unused_ring = λ i. omega (arith, sums (unused_at i), v.unused_ring i, (counts i).2);
      distinct = λ i. omega (arith, sums (at_item i), v.distinct i);
      apart = omega (arith, no_pairs block spot v at);
    }

pub held-IsValid :
    (c : Cell) (before after : List Cell) (ring : List ℕ) (block : Block)
    → IsHeld c before after ring block
    → IsValid (with_cell before c after ring block)
held-IsValid c before after ring block h =
    let sums = λ (f : Cell → ℕ). total-unzip f before (c ∷ after) in
    let counts = λ (i : ℕ). used_counts i c (h.busy) in
    record {
      fits = All-unzip IsCell before (c ∷ after) (h.fits_before) (h.fits, h.fits_after);
      whole = omega (arith, sums (λ c. c.n_words), h.whole);
      counted = omega (arith, sums one_if_used, h.counted, (counts 0).0);
      used_ring = λ i. omega (arith, sums (used_at i), h.used_ring i, (counts i).1);
      unused_ring = λ i. omega (arith, sums (unused_at i), h.unused_ring i, (counts i).2);
      distinct = λ i. omega (arith, sums (at_item i), h.distinct i);
      apart = omega (
        arith,
        h.apart,
        pairs-unzip before (c ∷ after),
        meet_before before c after (h.busy),
        (meet_used c after (h.busy)).0,
      );
    }

-- Blank bytes behind those of a cell change nothing of what it holds.
pub IsClean-append :
    (n : ℕ) (xs ys : List Byte)
    → n ≤ length xs
    → IsClean n xs
    → All IsBlank ys
    → IsClean n (xs ++ ys)
IsClean-append zero xs ys h p q = IsBlank-append xs ys p q
IsClean-append (suc n) [] ys h p q = elim h [ ]
IsClean-append (suc n) (x ∷ xs) ys h p q = IsClean-append n xs ys (omega arith) p q

pub take-append_le : (n : ℕ) (xs ys : List Byte) → n ≤ length xs → take n (xs ++ ys) ≡ take n xs
take-append_le zero xs ys h = refl
take-append_le (suc n) [] ys h = elim h [ ]
take-append_le (suc n) (x ∷ xs) ys h = ap (λ l. x ∷ l) (take-append_le n xs ys (omega arith))

length-given : (other : Cell) → length (guards ++ other.content) ≡ 16 + length (other.content)
length-given other = length-append guards (other.content)

pub eat-IsHeld :
    (c other : Cell) (before after : List Cell) (ring : List ℕ) (block : Block)
    → is_unused other ≡ true
    → IsHeld c before (other ∷ after) ring block
    → IsHeld (into_first c other) before after (sec_remove_cell_ring (other.item) ring) block
eat-IsHeld c other before after ring block free h =
    let there = (h.fits_after).0 in
    let counts = λ (i : ℕ). unused_counts i other free in
    let given = guards ++ other.content in
    let in_ring : 0 < count (other.item) ring =
      omega (arith, h.unused_ring (other.item), (counts (other.item)).2, at_self (other.item)) in
    record {
      fits_before = h.fits_before;
      fits = record {
        sized = omega (
          arith,
          (h.fits).sized,
          there.sized,
          length-append (c.content) given,
          length-given other,
        );
        holds = omega (arith, (h.fits).holds, length-append (c.content) given);
        tagged = (h.fits).tagged;
        clean =
            IsClean-append (c.requested) (c.content) given ((h.fits).holds) ((h.fits).clean)
              (IsBlank-append guards (other.content) guards-IsBlank (blank other there free));
      };
      fits_after = (h.fits_after).1;
      busy = h.busy;
      whole = omega (arith, h.whole);
      counted = omega (arith, h.counted, (counts 0).0);
      used_ring = λ i. omega (arith, h.used_ring i, (counts i).1);
      unused_ring = λ i.
          omega (arith, h.unused_ring i, (counts i).2, count-remove i (other.item) ring in_ring);
      distinct = λ i. omega (arith, h.distinct i);
      apart = omega (arith, h.apart);
    }

meet-shortened :
    (k : ℕ) (other : Cell) (after : List Cell)
    → meet (shortened k other ∷ []) after ≡ meet (other ∷ []) after
meet-shortened k other [] = refl
meet-shortened k other (d ∷ after) = refl

pub steal-IsHeld :
    (k : ℕ) (c other : Cell) (before after : List Cell) (ring : List ℕ) (block : Block)
    → is_unused other ≡ true
    → k + 2 ≤ other.n_words
    → IsHeld c before (other ∷ after) ring block
    → IsHeld (lengthened k c other) before (shortened k other ∷ after) ring block
steal-IsHeld k c other before after ring block free le h =
    let there = (h.fits_after).0 in
    let given = take (8 * k) (guards ++ other.content) in
    let gives : length given ≡ 8 * k =
      omega
        (arith, there.sized, length-given other, length-take (8 * k) (guards ++ other.content)) in
    record {
      fits_before = h.fits_before;
      fits = record {
        sized = omega (arith, (h.fits).sized, gives, length-append (c.content) given);
        holds = omega (arith, (h.fits).holds, length-append (c.content) given);
        tagged = (h.fits).tagged;
        clean = IsClean-append (c.requested) (c.content) given ((h.fits).holds) ((h.fits).clean) (
            IsBlank-take (8 * k) (guards ++ other.content)
              (IsBlank-append guards (other.content) guards-IsBlank (blank other there free)));
      };
      fits_after = (rest_of-IsCell k other there free le, (h.fits_after).1);
      busy = h.busy;
      whole = omega (arith, h.whole);
      counted = omega (arith, h.counted);
      used_ring = λ i. omega (arith, h.used_ring i);
      unused_ring = λ i. omega (arith, h.unused_ring i);
      distinct = λ i. omega (arith, h.distinct i);
      apart = omega (arith, h.apart, meet-shortened k other after);
    }
