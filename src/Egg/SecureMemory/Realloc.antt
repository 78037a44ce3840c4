-- ===== src/Egg/SecureMemory/Realloc.antt =====
-- sec_realloc of egg/egg-secure-memory.c, for memory that stands `memory` words from the block's start.
-- The outer `none` stands for an assertion that fails.
pub mod Bytes
pub mod Grow
pub mod Moves
pub mod Valid
pub mod Whole
pub mod Writes
use mathlib.Core.Option
use gcr.Shared.{
  ℕ, zero, suc, ◌+◌, ◌-◌, ◌*◌, not, ◌&&◌, ◌||◌, Option, none, some, List, [], ◌∷◌, ◌++◌, length,
  take, drop, ltb, leb, if◌then◌else◌,
}
use gcr.Egg.SecureMemory.{
  Byte, Cell, Block, Spot, waste, guards, unzip, cell_at, sec_size_to_words, sec_remove_cell_ring,
  sec_clear, is_unused, has_tag,
}
use gcr.Egg.SecureMemory.Alloc.{sec_alloc}
use gcr.Egg.SecureMemory.Free.{into_first, sec_free}

-- The first words of the cell behind another go to that one.
abbrev pub lengthened : ℕ → Cell → Cell → Cell
lengthened k cell other = record cell {
  content = cell.content ++ take (8 * k) (guards ++ other.content);
  n_words = cell.n_words + k;
}

abbrev pub shortened : ℕ → Cell → Cell
shortened k other = record other {
  content = drop (8 * k) (other.content);
  n_words = other.n_words - k;
}

-- A cell, those behind it, and the ring.
pub record Growth : Type 0 where
  pub cell : Cell
  pub after : List Cell
  pub ring : List ℕ

-- The loop over the neighbours that can give some memory.
unfoldable pub grow : ℕ → Cell → List Cell → List ℕ → Growth
grow n_words cell [] ring = record { cell = cell; after = []; ring = ring }
grow n_words cell (other ∷ after) ring =
    let eat = grow n_words (into_first cell other) after (sec_remove_cell_ring (other.item) ring) in
    let missing_words = n_words - cell.n_words in
    if leb n_words (cell.n_words) || not (is_unused other)
    then record { cell = cell; after = other ∷ after; ring = ring }
    else (if leb (other.n_words) (missing_words + waste) then eat else record {
      cell = lengthened missing_words cell other;
      after = shortened missing_words other ∷ after;
      ring = ring;
    })

-- Less memory is asked for than there is in the cell.
abbrev pub resized : ℕ → Cell → Cell
resized n cell = record cell {
  content =
      if ltb n (cell.requested) then sec_clear n (cell.requested) (cell.content) else cell.content;
  requested = n;
}

abbrev pub enlarged : List ℕ → ℕ → Cell → Cell
enlarged tag n cell = record cell {
  content = sec_clear (cell.requested) n (cell.content);
  requested = n;
  tag = some tag;
}

abbrev pub with_cell : List Cell → Cell → List Cell → List ℕ → Block → Block
with_cell before cell after ring block = record block {
  cells = unzip before (cell ∷ after);
  unused_cells = ring;
}

-- Bytes are written to the front of some memory.
abbrev pub overwritten : List Byte → Cell → Cell
overwritten bytes cell = record cell { content = bytes ++ drop (length bytes) (cell.content) }

unfoldable pub write_to : ℕ → List Byte → Block → Option Block
write_to zero bytes block = none
write_to (suc word) bytes block = elim (cell_at word [] (block.cells)) [
  | none ↦ none
  | some spot ↦ some (
      with_cell (spot.before) (overwritten bytes (spot.cell)) (spot.after) (block.unused_cells)
        block)
]

-- The bytes go to the new memory, if there is any, and the old is free.
unfoldable pub move : ℕ → List Byte → Option (Option ℕ × Block) → Option (Option ℕ × Block)
move memory bytes none = none
move memory bytes (some (none, block)) = some (none, block)
move memory bytes (some (some alloc, block)) = elim (write_to alloc bytes block) [
  | none ↦ none
  | some written ↦ Option.map (λ (b : Block). (some alloc, b)) (sec_free memory written)
]

-- The cell is made larger if possible, and else the memory is moved.
unfoldable pub enlarge :
    Option ℕ → List ℕ → ℕ → ℕ → Spot → Growth → Block → Option (Option ℕ × Block)
enlarge fresh tag memory n spot growth block =
    let cell = growth.cell in
    if leb (sec_size_to_words n + 2) (cell.n_words)
    then some (
      some memory,
      with_cell (spot.before) (enlarged tag n cell) (growth.after) (growth.ring) block,
    )
    else move memory (take (cell.requested) (cell.content))
        (sec_alloc fresh tag n (with_cell (spot.before) cell (growth.after) (growth.ring) block))

unfoldable pub sec_realloc : Option ℕ → List ℕ → ℕ → ℕ → Block → Option (Option ℕ × Block)
sec_realloc fresh tag zero n block = none
sec_realloc fresh tag (suc word) n block = elim (cell_at word [] (block.cells)) [
  | none ↦ none
  | some spot ↦
      let cell = spot.cell in
      let n_words = sec_size_to_words n + 2 in
      if not (is_unused cell) && has_tag cell
      then (if leb n_words (cell.n_words)
          then some (
            some (suc word),
            with_cell (spot.before) (resized n cell) (spot.after) (block.unused_cells) block,
          )
          else enlarge fresh tag (suc word) n spot
              (grow n_words cell (spot.after) (block.unused_cells)) block)
      else none
]
