-- ===== src/Egg/SecureMemory/Alloc/Finds.antt =====
-- That sec_alloc of egg/egg-secure-memory.c gives memory out where there is enough in one piece.
use mathlib.Core.Option.{some-injective}
use gcr.Shared.{
  ℕ, ◌+◌, ◌≤◌, ◌<◌, ◌≡◌, refl, sym, ap, ◌∙◌, inl, inr, Option, none, some, List, [], ◌∷◌, ◌==◌, ltb,
  leb, arith, Bool-cases, ==_iff, le→leb,
}
use gcr.Egg.SecureMemory.{Cell, Block, Spot, locate, words_of, sec_size_to_words, waste}
use gcr.Egg.SecureMemory.Alloc.{first_fit, use_front, use_cell, sec_steal, sec_alloc}
use gcr.Egg.SecureMemory.Cells.{total, total-split, at_item, unused_at, locate_found}
use gcr.Egg.SecureMemory.Valid.{IsValid, count}
use gcr.Egg.SecureMemory.Alloc.Search.{first_fit_finds, first_fit_step, at_self}
use gcr.Egg.SecureMemory.Alloc.Valid.{parts}
use gcr.Egg.SecureMemory.Alloc.Refines.{sec_alloc_steals, clear_of}

some-none : {A : Type 0} (x : A) → ◌≡◌ {A = Option (Option A)} (some (some x)) (some none) → ⊥
some-none x h = cc

-- The search does not miss a cell.
first_fit_misses :
    (ring : List ℕ) (n_words : ℕ) (cells : List Cell) (item : ℕ) (spot : Spot)
    → ((i : ℕ) → count i ring ≤ total (unused_at i) cells)
    → 0 < count item ring
    → locate item [] cells ≡ some spot
    → n_words ≤ (spot.cell).n_words
    → first_fit ring n_words cells ≡ some none
    → ⊥
first_fit_misses [] n_words cells item spot all among e long h = absurd (omega arith)
first_fit_misses (head ∷ ring) n_words cells item spot all among e long h =
    let there : 0 < total (at_item head) cells =
      omega (arith, all head, at_self head, total-split head cells) in
    let (other, found) = locate_found head [] cells there in
    let step = sym (first_fit_step head ring n_words cells other found) ∙ h in
    elim (Bool-cases (leb n_words ((other.cell).n_words))) [
      | inl fits ↦ some-none other (rw fits at step)
      | inr short ↦ elim (Bool-cases (head == item)) [
        | inl same ↦
            let equal = some-injective other spot (sym found ∙ rw ((==_iff head item).0 same) e) in
            cc (rw equal at short, le→leb n_words ((spot.cell).n_words) long)
        | inr other_item ↦
            let later : 0 < 0 + count item ring = rw other_item at among in
            first_fit_misses ring n_words cells item spot (λ i. omega (arith, all i)) (omega arith)
              e long (rw short at step)
      ]
    ]

-- There is memory in the answer.
gives :
    (item : ℕ) (tag : List ℕ) (n n_words : ℕ) (spot : Spot) (block : Block)
    → (memory : ℕ) × (block' : Block) × (sec_steal (some item) tag n n_words spot block
        ≡ (some memory, block'))
unfolding sec_steal use_front use_cell
gives item tag n n_words spot block = (
  words_of (spot.before) + 1,
  (sec_steal (some item) tag n n_words spot block).1,
  elim (Bool-cases (ltb (n_words + waste) ((spot.cell).n_words))) [
    | inl much ↦ rw much refl
    | inr fits ↦ rw fits refl
  ],
)

-- Asking a block that is in order for memory does not fail where one of its unused cells has enough
-- words for the memory and the two guards, and where the pool gives a cell.
pub sec_alloc_gives :
    (fresh : ℕ) (tag : List ℕ) (n : ℕ) (block : Block) (item : ℕ) (spot : Spot)
    → IsValid block
    → 0 < count item (block.unused_cells)
    → locate item [] (block.cells) ≡ some spot
    → sec_size_to_words n + 2 ≤ (spot.cell).n_words
    → (memory : ℕ) × (block' : Block) × (sec_alloc (some fresh) tag n block
        ≡ some (some memory, block'))
sec_alloc_gives fresh tag n block item spot v among e long =
    let all : (i : ℕ) → count i (block.unused_cells) ≤ total (unused_at i) (block.cells) =
      λ i. omega (arith, v.unused_ring i) in
    elim (first_fit_finds (block.unused_cells) (sec_size_to_words n + 2) (block.cells) (v.distinct)
      all) [
        | inl h ↦ absurd (
            first_fit_misses (block.unused_cells) (sec_size_to_words n + 2) (block.cells) item spot
              all among e long h)
        | inr (other, h, fit) ↦
            let (before, (here, after)) = parts block other v (fit.0) in
            let (memory, block', given) = gives fresh tag n (sec_size_to_words n + 2) other block in
            (
              memory,
              block',
              sec_alloc_steals (some fresh) tag n block other h (clear_of (other.cell) here (fit.2))
                  ∙ ap (λ r. some r) given,
            )
      ]
