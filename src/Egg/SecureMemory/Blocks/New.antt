-- ===== src/Egg/SecureMemory/Blocks/New.antt =====
-- The blocks that egg/egg-secure-memory.c adds.
use gcr.Shared.{
  ℕ, zero, suc, ◌-◌, ◌*◌, ◌/◌, ◌≤◌, ◌<◌, ◌≡◌, ◌⊎◌, refl, inl, inr, false, Option, none, some, List,
  replicate, ltb, ◌==◌, if◌then◌else◌, arith, All, Bool-cases, Option-cases, length-replicate,
}
use gcr.Egg.SecureMemory.{byte, sec_insert_cell_ring}
use gcr.Egg.SecureMemory.Blocks.{
  Placed, System, default_block_size, whole_pages, block_words, new_block, sec_block_create,
}
use gcr.Egg.SecureMemory.Bytes.{IsBlank}
use gcr.Egg.SecureMemory.Valid.{IsValid}
use gcr.Egg.SecureMemory.Alloc.Valid.{IsFresh}

-- A new block has all the pages that were asked for, and at least the least number of them.
pub whole_pages-le : (page_size size : ℕ) → 0 < page_size → size ≤ whole_pages page_size size
unfolding whole_pages
whole_pages-le page_size size pos = grind arith

pub block_words-le :
    (page_size size : ℕ)
    → 0 < page_size
    → (2048 ≤ block_words page_size size) × (size / 8 ≤ block_words page_size size)
unfolding block_words
block_words-le page_size size pos = ground (
  arith,
  whole_pages-le page_size (if ltb size default_block_size then default_block_size else size) pos,
)

pub zeros-IsBlank : (n : ℕ) → All IsBlank (replicate n (byte 0))
zeros-IsBlank zero = tt
zeros-IsBlank (suc n) = (refl, zeros-IsBlank n)

pub new_block-IsValid : (item n_words : ℕ) → 2 ≤ n_words → IsValid (new_block item n_words)
unfolding sec_insert_cell_ring
new_block-IsValid item n_words two = record {
  fits = (
    record {
      sized = omega (arith, length-replicate (8 * n_words - 16) (byte 0));
      holds = omega arith;
      tagged = refl;
      clean = zeros-IsBlank (8 * n_words - 16);
    },
    tt,
  );
  whole = omega arith;
  counted = refl;
  used_ring = λ i. refl;
  unused_ring = λ i. refl;
  distinct = λ i. ground arith;
  apart = refl;
}

-- What the pool gives for a block is no cell of it.
abbrev pub AllFresh : (ℕ → Option ℕ) → List Placed → Type 0
AllFresh pool = All (λ b. IsFresh (pool (b.words)) (b.block))

-- What is asked of the answers: the pool gives no cell that the block has already.
pub record Answers (system : System) (blocks : List Placed) : Type 0 where
  pub page : 0 < system.page_size
  pub fresh : AllFresh (system.pool) blocks
  pub fresh_first :
      (words item i : ℕ)
      → system.pages ≡ some words
      → system.cell_item ≡ some item
      → system.pool words ≡ some i
      → (item == i) ≡ false

abbrev pub created : System → ℕ → ℕ → ℕ → Placed
created system n words item = record {
  words = words;
  block = new_block item (block_words (system.page_size) n);
}

pub sec_block_create_cases :
    (system : System) (n : ℕ)
    → (sec_block_create system n ≡ none)
      ⊎ ((words : ℕ) × (item : ℕ) × (system.pages ≡ some words)
          × (system.cell_item ≡ some item)
          × (sec_block_create system n ≡ some (created system n words item)))
unfolding sec_block_create
sec_block_create_cases system n = elim (Bool-cases (system.force_fallback)) [
  | inl forced ↦ inl (rw forced refl)
  | inr free ↦ elim (Bool-cases (system.block_item)) [
    | inr out ↦ inl (rw (free, out) refl)
    | inl item ↦ elim (Option-cases (system.cell_item)) [
      | inl out ↦ inl (rw (sec_block_create, free, item, out) refl)
      | inr (cell, there) ↦ elim (Option-cases (system.pages)) [
        | inl out ↦ inl (rw (sec_block_create, free, item, there, out) refl)
        | inr (words, mapped) ↦
            inr (words, cell, mapped, there, rw (sec_block_create, free, item, there, mapped) refl)
      ]
    ]
  ]
]
