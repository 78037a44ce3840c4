-- ===== src/Egg/SecureMemory/Free.antt =====
-- sec_free of egg/egg-secure-memory.c, for memory that stands `memory` words from the block's start.
-- `none` stands for an assertion that fails.
pub mod Loose
pub mod Refines
pub mod Valid
use gcr.Shared.{
  ℕ, zero, suc, ◌+◌, ◌-◌, Bool, true, false, not, ◌&&◌, Option, none, some, List, [], ◌∷◌, ◌++◌,
  if◌then◌else◌,
}
use gcr.Egg.SecureMemory.{
  Byte, Cell, Block, Spot, guards, sec_insert_cell_ring, sec_remove_cell_ring, unzip, cell_at,
  sec_clear, is_unused, has_tag,
}

-- The words of two cells that follow one another, in the first or in the second one.
abbrev pub joined_content : Cell → Cell → List Byte
joined_content a b = a.content ++ (guards ++ b.content)

abbrev pub into_first : Cell → Cell → Cell
into_first a b = record a { content = joined_content a b; n_words = a.n_words + b.n_words }

abbrev pub into_second : Cell → Cell → Cell
into_second a b = record b { content = joined_content a b; n_words = b.n_words + a.n_words }

-- The cell with the unused neighbour before it; whether there was one.
unfoldable pub merge_before : Cell → List Cell → Cell × List Cell × Bool
merge_before cell [] = (cell, [], false)
merge_before cell (other ∷ before) =
    if is_unused other then (into_first other cell, before, true) else (cell, other ∷ before, false)

-- The ring without the cell if it is in there and goes into its neighbour, or with it if it is not.
unfoldable pub merge_after : Bool → Cell → List Cell → List ℕ → Cell × List Cell × List ℕ
merge_after in_ring cell [] ring =
    (cell, [], if in_ring then ring else sec_insert_cell_ring (cell.item) ring)
merge_after in_ring cell (other ∷ after) ring =
    if is_unused other
    then (
      into_second cell other,
      after,
      if in_ring then sec_remove_cell_ring (cell.item) ring else ring,
    )
    else (cell, other ∷ after, if in_ring then ring else sec_insert_cell_ring (cell.item) ring)

abbrev pub cleared : Cell → Cell
cleared cell = record cell { content = sec_clear 0 (cell.requested) (cell.content) }

abbrev pub unused : Cell → Cell
unused cell = record cell { requested = 0; tag = none }

unfoldable pub release_cell : Spot → Block → Block
release_cell spot block =
    let (first, before, in_ring) = merge_before (cleared (spot.cell)) (spot.before) in
    let (last, after, ring) = merge_after in_ring first (spot.after) (block.unused_cells) in
    record block {
      cells = unzip before (unused last ∷ after);
      n_used = block.n_used - 1;
      used_cells = sec_remove_cell_ring ((spot.cell).item) (block.used_cells);
      unused_cells = ring;
    }

-- Whether a neighbour that is unused has no tag.
abbrev pub is_mergeable : List Cell → Bool
is_mergeable [] = true
is_mergeable (other ∷ cells) = if is_unused other then not (has_tag other) else true

unfoldable pub sec_free : ℕ → Block → Option Block
sec_free zero block = none
sec_free (suc word) block = elim (cell_at word [] (block.cells)) [
  | none ↦ none
  | some spot ↦
      if not (is_unused (spot.cell))
        && has_tag (spot.cell)
        && is_mergeable (spot.before)
        && is_mergeable (spot.after)
      then some (release_cell spot block)
      else none
]
