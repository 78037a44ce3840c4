-- ===== src/Egg/SecureMemory/Blocks/Validate.antt =====
-- egg_secure_validate of egg/egg-secure-memory.c, without a debugger: whether its assertions hold, but for
-- those on the links of a ring and on guards, which a list of cells has by its form.
use gcr.Shared.{
  ℕ, ◌+◌, ◌-◌, ◌*◌, Bool, true, false, not, ◌&&◌, List, [], ◌∷◌, ltb, leb, ◌==◌, if◌then◌else◌,
}
use gcr.Egg.SecureMemory.{Cell, Block, has_tag}
use gcr.Egg.SecureMemory.Blocks.{Placed}

abbrev pub is_in_ring : ℕ → List ℕ → Bool
is_in_ring item [] = false
is_in_ring item (head ∷ ring) = if head == item then true else is_in_ring item ring

-- The assertions on a cell.
unfoldable pub is_sound : Block → Cell → Bool
is_sound block cell =
    if ltb 0 (cell.requested)
    then has_tag cell
      && is_in_ring (cell.item) (block.used_cells)
      && leb (cell.requested) ((cell.n_words - 2) * 8)
    else not (has_tag cell) && is_in_ring (cell.item) (block.unused_cells)

-- The loop from a word to the last one, cell by cell.
unfoldable pub validate_from : Block → ℕ → List Cell → Bool
validate_from block word [] = false
validate_from block word (cell ∷ cells) =
    let rest = validate_from block (word + cell.n_words) cells in
    ltb word (block.n_words)
    && is_sound block cell
    && (if word + cell.n_words == block.n_words then true else rest)

unfoldable pub sec_validate : Block → Bool
unfolding validate_from
sec_validate block = validate_from block 0 (block.cells)

unfoldable pub egg_secure_validate : List Placed → Bool
egg_secure_validate [] = true
egg_secure_validate (b ∷ blocks) = sec_validate (b.block) && egg_secure_validate blocks
