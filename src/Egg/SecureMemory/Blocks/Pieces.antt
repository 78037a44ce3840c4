-- ===== src/Egg/SecureMemory/Blocks/Pieces.antt =====
-- Where the pieces of memory of egg/egg-secure-memory.c lie: in the words of their block.
use gcr.Shared.{
  ℕ, ◌+◌, ◌≤◌, ◌<◌, ◌≡◌, ◌⊎◌, refl, sym, ap, ◌∙◌, inl, inr, true, false, List, [], ◌∷◌, ◌++◌, map,
  arith, All, Bool-cases,
}
use gcr.Egg.SecureMemory.{Cell, Block, words_of, is_unused}
use gcr.Egg.SecureMemory.Blocks.{Placed, sec_is_valid_word}
use gcr.Egg.SecureMemory.Cells.{total, used_at}
use gcr.Egg.SecureMemory.Valid.{IsValid, one_if_used, count}
use gcr.Egg.SecureMemory.Allocations.{Allocation, allocations, allocations_from, find_cell}
use gcr.Egg.SecureMemory.Alloc.Valid.{sum, parts}
use gcr.Egg.SecureMemory.Alloc.Search.{at_self}
use gcr.Egg.SecureMemory.Blocks.Extends.{moved, pieces_of, pieces, AllValid}

-- An element of two lists is one of the first or of the second.
abbrev pub Sides :
    List Allocation → List Allocation → List Allocation → Allocation → List Allocation → Type 0
Sides xs ys front a back =
    ((rest : List Allocation) × (xs ≡ front ++ a ∷ rest) × (back ≡ rest ++ ys))
    ⊎ ((rest : List Allocation) × (front ≡ xs ++ rest) × (ys ≡ rest ++ a ∷ back))

pub sides :
    (xs ys front : List Allocation) (a : Allocation) (back : List Allocation)
    → xs ++ ys ≡ front ++ a ∷ back
    → Sides xs ys front a back
sides [] ys front a back h = inr (front, refl, h)
sides (x ∷ xs) ys [] a back h = inl (xs, cc h, cc h)
sides (x ∷ xs) ys (f ∷ front) a back h = elim (sides xs ys front a back (cc h)) [
  | inl (rest, e, e') ↦ inl (rest, cc, e')
  | inr (rest, e, e') ↦ inr (rest, cc, e')
]

-- An element of a mapped list comes from one of the list.
pub unmapped :
    (f : Allocation → Allocation) (xs front : List Allocation) (a : Allocation)
    (back : List Allocation)
    → map f xs ≡ front ++ a ∷ back
    → (front' : List Allocation) × (a' : Allocation) × (back' : List Allocation) × (xs
        ≡ front' ++ a' ∷ back')
      × (map f front' ≡ front)
      × (f a' ≡ a)
      × (map f back' ≡ back)
unmapped f [] [] a back h = cc
unmapped f [] (x ∷ front) a back h = cc
unmapped f (x ∷ xs) [] a back h = ([], x, xs, refl, refl, cc h, cc h)
unmapped f (x ∷ xs) (y ∷ front) a back h =
    let (front', a', back', e, e1, e2, e3) = unmapped f xs front a back (cc h) in
    (x ∷ front', a', back', ap (λ l. x ∷ l) e, cc, e2, e3)

total-words_of : (cells : List Cell) → words_of cells ≡ total (λ c. c.n_words) cells
total-words_of [] = refl
total-words_of (c ∷ cells) = omega (arith, total-words_of cells)

-- A piece of memory lies in its block.
pub address-lt :
    (block : Block) (front : List Allocation) (a : Allocation) (back : List Allocation)
    → IsValid block
    → allocations block ≡ front ++ a ∷ back
    → a.address < block.n_words
address-lt block front a back v h =
    let (spot, found) = find_cell [] (block.cells) front a back h in
    let (before, (here, after)) = parts block spot v (found.here) in
    omega (
      arith,
      here.sized,
      sum block spot v (found.here) (λ c. c.n_words),
      v.whole,
      total-words_of (spot.before),
      ap (λ (b : Allocation). b.address) (found.same),
    )

pub valid_word :
    (b : Placed) (n : ℕ) → n < (b.block).n_words → sec_is_valid_word b (b.words + n) ≡ true
unfolding sec_is_valid_word
valid_word b n h = ground arith

-- The words of two blocks are different ones.
abbrev pub AreApart : Placed → Placed → Type 0
AreApart b c = (b.words + (b.block).n_words ≤ c.words) ⊎ (c.words + (c.block).n_words ≤ b.words)

pub other_word :
    (b c : Placed) (n : ℕ)
    → AreApart b c
    → n < (c.block).n_words
    → sec_is_valid_word b (c.words + n) ≡ false
unfolding sec_is_valid_word
other_word b c n (inl before) h = ground arith
other_word b c n (inr behind) h = ground arith

pub outside :
    (b : Placed) (blocks : List Placed) (front : List Allocation) (a : Allocation)
    (back : List Allocation)
    → All (AreApart b) blocks
    → AllValid blocks
    → pieces blocks ≡ front ++ a ∷ back
    → sec_is_valid_word b (a.address) ≡ false
outside b [] [] a back apart v h = cc
outside b [] (x ∷ front) a back apart v h = cc
outside b (c ∷ blocks) front a back apart v h =
    elim (sides (pieces_of (c.words) (c.block)) (pieces blocks) front a back h) [
      | inr (rest, e, there) ↦ outside b blocks rest a back apart.1 v.1 there
      | inl (rest, here, e) ↦
          let (front', a', back', from, e1, e2, e3) =
            unmapped (moved (c.words)) (allocations (c.block)) front a rest here in
          ap (λ (p : Allocation). sec_is_valid_word b (p.address)) (sym e2)
          ∙ other_word b c (a'.address) apart.0 (address-lt (c.block) front' a' back' v.0 from)
    ]

-- Where nothing is in use, the ring of used cells is empty, and there is no piece of memory.
unused_at_all :
    (cells : List Cell)
    → total one_if_used cells ≡ 0
    → (offset : ℕ) → allocations_from offset cells ≡ []
unused_at_all [] h offset = refl
unused_at_all (c ∷ cells) h offset = elim (Bool-cases (is_unused c)) [
  | inl free ↦ rw free (unused_at_all cells (omega arith) (offset + c.n_words))
  | inr used ↦ let one : one_if_used c ≡ 1 = rw used refl in absurd (omega arith)
]

used_at-le : (i : ℕ) (cells : List Cell) → total (used_at i) cells ≤ total one_if_used cells
used_at-le i [] = omega arith
used_at-le i (c ∷ cells) = ground (arith, used_at-le i cells)

no_ring : (ring : List ℕ) → ((i : ℕ) → count i ring ≡ 0) → ring ≡ []
no_ring [] h = refl
no_ring (item ∷ ring) h = absurd (omega (arith, h item, at_self item))

pub nothing_used :
    (block : Block)
    → IsValid block
    → block.n_used ≡ 0
    → (block.used_cells ≡ []) × (allocations block ≡ [])
nothing_used block v h = (
  no_ring (block.used_cells)
      (λ i. omega (arith, v.used_ring i, used_at-le i (block.cells), v.counted)),
  unused_at_all (block.cells) (omega (arith, v.counted)) 0,
)
