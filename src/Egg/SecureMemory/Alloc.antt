-- ===== src/Egg/SecureMemory/Alloc.antt =====
-- sec_alloc of egg/egg-secure-memory.c. `fresh` is what pool_alloc answers if it is called. The outer
-- `none` stands for an assertion that fails.
pub mod Finds
pub mod Refines
pub mod Search
pub mod Valid
use gcr.Shared.{
  ℕ, ◌+◌, ◌-◌, ◌*◌, Option, none, some, List, [], ◌∷◌, take, drop, ltb, leb, if◌then◌else◌,
}
use gcr.Egg.SecureMemory.{
  Cell, Block, Spot, waste, sec_size_to_words, sec_insert_cell_ring, sec_remove_cell_ring, unzip,
  locate, words_of, sec_clear, is_clear,
}

-- The loop around the ring, for the first cell of at least `n_words` words.
unfoldable pub first_fit : List ℕ → ℕ → List Cell → Option (Option Spot)
first_fit [] n_words cells = some none
first_fit (item ∷ ring) n_words cells =
    let rest = first_fit ring n_words cells in
    elim (locate item [] cells) [
      | none ↦ none
      | some spot ↦ if leb n_words ((spot.cell).n_words) then some (some spot) else rest
    ]

-- The first words of a cell that is too long, as a cell of their own, and what is left of it behind.
abbrev pub front : ℕ → ℕ → Cell → Cell
front item n_words cell = record {
  item = item;
  content = take (8 * n_words - 16) (cell.content);
  n_words = n_words;
  requested = 0;
  tag = none;
}

abbrev pub rest_of : ℕ → Cell → Cell
rest_of n_words cell = record cell {
  content = drop (8 * n_words) (cell.content);
  n_words = cell.n_words - n_words;
}

abbrev pub allocated : List ℕ → ℕ → Cell → Cell
allocated tag n cell = record cell {
  content = sec_clear 0 n (cell.content);
  requested = n;
  tag = some tag;
}

-- The block with an unused cell in use, and the memory in the cell, in words from the block's start.
unfoldable pub use_cell : List ℕ → ℕ → Spot → List ℕ → Block → Option ℕ × Block
use_cell tag n spot unused block = (
  some (words_of (spot.before) + 1),
  record block {
    cells = unzip (spot.before) (allocated tag n (spot.cell) ∷ spot.after);
    n_used = block.n_used + 1;
    used_cells = sec_insert_cell_ring ((spot.cell).item) (block.used_cells);
    unused_cells = unused;
  },
)

-- The first words of the cell are used, as a cell of their own if there is one.
unfoldable pub use_front : Option ℕ → List ℕ → ℕ → ℕ → Spot → Block → Option ℕ × Block
use_front none tag n n_words spot block = (none, block)
use_front (some item) tag n n_words spot block =
    use_cell tag n
      (record spot {
        cell = front item n_words (spot.cell);
        after = rest_of n_words (spot.cell) ∷ spot.after;
      })
      (block.unused_cells) block

unfoldable pub sec_steal : Option ℕ → List ℕ → ℕ → ℕ → Spot → Block → Option ℕ × Block
sec_steal fresh tag n n_words spot block =
    if ltb (n_words + waste) ((spot.cell).n_words)
    then use_front fresh tag n n_words spot block
    else use_cell tag n spot (sec_remove_cell_ring ((spot.cell).item) (block.unused_cells)) block

unfoldable pub sec_alloc : Option ℕ → List ℕ → ℕ → Block → Option (Option ℕ × Block)
sec_alloc fresh tag n block =
    elim (first_fit (block.unused_cells) (sec_size_to_words n + 2) (block.cells)) [
      | none ↦ none
      | some none ↦ some (none, block)
      | some (some spot) ↦
          if is_clear (spot.cell)
          then some (sec_steal fresh tag n (sec_size_to_words n + 2) spot block)
          else none
    ]
