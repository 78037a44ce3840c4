-- ===== src/Egg/SecureMemory.antt =====
-- The blocks of secure memory in egg/egg-secure-memory.c. The words of a block are divided among its
-- cells, which are listed here in the order of their words, so that the cell before and the cell behind
-- that the guard words lead to stand beside a cell in the list. A cell has the number of its item in the
-- pool, the bytes between its guard words, and what the source keeps of it. A word has eight bytes.
-- Of the assertions, those on the tag and the size of a cell can fail; those on the links of a ring and on the
-- guards hold for lists of cells by their form.
pub mod Alloc
pub mod Free
pub mod Realloc
pub mod Blocks
pub mod Cells
pub mod Bytes
pub mod Valid
pub mod Allocations
pub mod Rings
pub mod CellLaws
pub mod Strings
use gcr.Shared.{
  ℕ, zero, suc, ◌+◌, ◌-◌, ◌*◌, ◌/◌, ◌%◌, Bool, true, false, not, ◌&&◌, Option, none, some, List, [],
  ◌∷◌, ◌++◌, length, drop, replicate, ◌==◌, if◌then◌else◌,
}

-- A byte, or one of those that a guard word is made of.
pub data Byte : Type 0 where
  byte : ℕ → Byte
  guard : Byte

pub record Cell : Type 0 where
  pub item : ℕ
  pub content : List Byte
  pub n_words : ℕ
  pub requested : ℕ
  pub tag : Option (List ℕ)

-- The rings are listed from the cell on that the block points to.
pub record Block : Type 0 where
  pub cells : List Cell
  pub n_words : ℕ
  pub n_used : ℕ
  pub used_cells : List ℕ
  pub unused_cells : List ℕ

abbrev pub waste : ℕ
waste = 4

unfoldable pub sec_size_to_words : ℕ → ℕ
sec_size_to_words length = (if length % 8 == 0 then 0 else 1) + length / 8

-- A new cell comes first; the one that was first comes last.
unfoldable pub sec_insert_cell_ring : ℕ → List ℕ → List ℕ
sec_insert_cell_ring item [] = item ∷ []
sec_insert_cell_ring item (head ∷ ring) = item ∷ ring ++ head ∷ []

unfoldable pub sec_remove_cell_ring : ℕ → List ℕ → List ℕ
sec_remove_cell_ring item [] = []
sec_remove_cell_ring item (head ∷ ring) =
    let rest = head ∷ sec_remove_cell_ring item ring in if head == item then ring else rest

-- A cell among the others, with those before it from the nearest one on.
pub record Spot : Type 0 where
  pub before : List Cell
  pub cell : Cell
  pub after : List Cell

abbrev pub unzip : List Cell → List Cell → List Cell
unzip [] cells = cells
unzip (c ∷ before) cells = unzip before (c ∷ cells)

-- The cell of a pool item.
unfoldable pub locate : ℕ → List Cell → List Cell → Option Spot
locate item before [] = none
locate item before (c ∷ cells) =
    let rest = locate item (c ∷ before) cells in
    if c.item == item then some (record { before = before; cell = c; after = cells }) else rest

-- The cell that starts `offset` words into the block, as the guard word in front of its memory tells.
unfoldable pub cell_at : ℕ → List Cell → List Cell → Option Spot
cell_at offset before [] = none
cell_at offset before (c ∷ cells) =
    let rest = cell_at (offset - c.n_words) (c ∷ before) cells in
    if offset == 0 then some (record { before = before; cell = c; after = cells }) else rest

-- The number of words before a cell.
abbrev pub words_of : List Cell → ℕ
words_of [] = 0
words_of (c ∷ cells) = c.n_words + words_of cells

abbrev pub guards : List Byte
guards = replicate 16 guard

-- Zero from one place to another.
abbrev pub clear_to : ℕ → List Byte → List Byte
clear_to zero bytes = bytes
clear_to (suc n) [] = []
clear_to (suc n) (b ∷ bytes) = byte 0 ∷ clear_to n bytes

unfoldable pub sec_clear : ℕ → ℕ → List Byte → List Byte
sec_clear zero to bytes = clear_to to bytes
sec_clear (suc from) to [] = []
sec_clear (suc from) to (b ∷ bytes) = b ∷ sec_clear from (to - 1) bytes

abbrev pub is_unused : Cell → Bool
is_unused c = c.requested == 0

abbrev pub has_tag : Cell → Bool
has_tag c = elim (c.tag) [ none ↦ false | some tag ↦ true ]

-- What the assertions ask of a cell before it is taken as unused.
abbrev pub is_clear : Cell → Bool
is_clear c = is_unused c && not (has_tag c)
