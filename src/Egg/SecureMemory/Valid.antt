-- ===== src/Egg/SecureMemory/Valid.antt =====
-- When a block of egg/egg-secure-memory.c is in order: what sec_validate and the assertions ask of it, and
-- more.
use gcr.Shared.{ℕ, ◌+◌, ◌*◌, ◌≤◌, ◌≡◌, not, List, [], ◌∷◌, ◌==◌, if◌then◌else◌, All, length}
use gcr.Egg.SecureMemory.{Cell, Block, is_unused, has_tag}
use gcr.Egg.SecureMemory.Bytes.{IsClean}
use gcr.Egg.SecureMemory.Cells.{total, pairs, at_item, unused_at, used_at}

-- A cell has its words, of which the first and the last are guards, holds what was asked for, has a tag
-- exactly if it is in use, and has nothing behind what was asked for.
pub record IsCell (c : Cell) : Type 0 where
  pub sized : length (c.content) + 16 ≡ 8 * c.n_words
  pub holds : c.requested ≤ length (c.content)
  pub tagged : has_tag c ≡ not (is_unused c)
  pub clean : IsClean (c.requested) (c.content)

abbrev pub count : ℕ → List ℕ → ℕ
count i [] = 0
count i (j ∷ ring) = (if j == i then 1 else 0) + count i ring

abbrev pub one_if_used : Cell → ℕ
one_if_used c = if is_unused c then 0 else 1

pub record IsValid (block : Block) : Type 0 where
  pub fits : All IsCell (block.cells)
  pub whole : total (λ c. c.n_words) (block.cells) ≡ block.n_words
  pub counted : total one_if_used (block.cells) ≡ block.n_used
  pub used_ring : (i : ℕ) → count i (block.used_cells) ≡ total (used_at i) (block.cells)
  pub unused_ring : (i : ℕ) → count i (block.unused_cells) ≡ total (unused_at i) (block.cells)
  pub distinct : (i : ℕ) → total (at_item i) (block.cells) ≤ 1
  pub apart : pairs (block.cells) ≡ 0
