-- ===== src/Egg/SecureMemory/Blocks.antt =====
-- The blocks of secure memory, and the functions of egg/egg-secure-memory.c that a caller uses. An address
-- is a number of words. The system's answers are parameters, and so are those of the pool that cells come
-- from. A size that is rounded to pages is taken to stay below the size of the address space.
pub mod Alloc
pub mod Apart
pub mod Created
pub mod Extends
pub mod Free
pub mod New
pub mod Pieces
pub mod Sessions
pub mod Spans
pub mod Validate
use mathlib.Core.Option
use gcr.Shared.{
  ℕ, ◌+◌, ◌-◌, ◌*◌, ◌/◌, Bool, true, false, not, ◌&&◌, ◌||◌, Option, none, some, List, [], ◌∷◌,
  replicate, ltb, leb, ◌==◌, if◌then◌else◌,
}
use gcr.Egg.SecureMemory.{byte, Cell, Block, sec_insert_cell_ring}
use gcr.Egg.SecureMemory.Alloc.{sec_alloc}
use gcr.Egg.SecureMemory.Free.{sec_free}

-- A block and the address of its first word.
pub record Placed : Type 0 where
  pub words : ℕ
  pub block : Block

-- What one call meets: whether SECMEM_FORCE_FALLBACK is set, the page size, whether the pool has an item for
-- a new block and which one for its cell, where pages are mapped and locked, the pool's answer when memory
-- is asked of the block at an address, and the caller's function for memory that is not secure.
pub record System : Type 0 where
  pub force_fallback : Bool
  pub page_size : ℕ
  pub block_item : Bool
  pub cell_item : Option ℕ
  pub pages : Option ℕ
  pub pool : ℕ → Option ℕ
  pub fallback : Option (ℕ → Option ℕ)

abbrev pub default_block_size : ℕ
default_block_size = 16384

-- The size that sec_acquire_pages makes of another.
unfoldable pub whole_pages : ℕ → ℕ → ℕ
whole_pages page_size size = (size + page_size - 1) / page_size * page_size

unfoldable pub block_words : ℕ → ℕ → ℕ
block_words page_size size =
    whole_pages page_size (if ltb size default_block_size then default_block_size else size) / 8

-- Mapped pages are zero.
abbrev pub new_cell : ℕ → ℕ → Cell
new_cell item n_words = record {
  item = item;
  content = replicate (8 * n_words - 16) (byte 0);
  n_words = n_words;
  requested = 0;
  tag = none;
}

abbrev pub new_block : ℕ → ℕ → Block
new_block item n_words = record {
  cells = new_cell item n_words ∷ [];
  n_words = n_words;
  n_used = 0;
  used_cells = [];
  unused_cells = sec_insert_cell_ring item [];
}

unfoldable pub sec_block_create : System → ℕ → Option Placed
sec_block_create system size =
    if system.force_fallback
    then none
    else (if not (system.block_item) then none else (elim (system.cell_item) [
      | none ↦ none
      | some item ↦ elim (system.pages) [
        | none ↦ none
        | some words ↦
            some (record {
              words = words;
              block = new_block item (block_words (system.page_size) size);
            })
      ]
    ]))

-- The answer of a block, or of those after it.
unfoldable pub alloc_next :
    Placed
    → Option ℕ
    → Block
    → List Placed
    → Option (Option ℕ × List Placed)
    → Option (Option ℕ × List Placed)
alloc_next b none block blocks rest =
    Option.map (λ (r : Option ℕ × List Placed). (r.0, record b { block = block } ∷ r.1)) rest
alloc_next b (some memory) block blocks rest =
    some (some (b.words + memory), record b { block = block } ∷ blocks)

unfoldable pub alloc_among :
    (ℕ → Option ℕ) → List ℕ → ℕ → List Placed → Option (Option ℕ × List Placed)
unfolding alloc_next
alloc_among pool tag n [] = some (none, [])
alloc_among pool tag n (b ∷ blocks) =
    let rest = alloc_among pool tag n blocks in
    elim (sec_alloc (pool (b.words)) tag n (b.block)) [
      | none ↦ none
      | some (memory, block) ↦ alloc_next b memory block blocks rest
    ]

-- A new block, which comes first.
unfoldable pub alloc_new : System → List ℕ → ℕ → List Placed → Option (Option ℕ × List Placed)
unfolding alloc_next
alloc_new system tag n blocks = elim (sec_block_create system n) [
  | none ↦ some (none, blocks)
  | some b ↦ elim (sec_alloc (system.pool (b.words)) tag n (b.block)) [
    | none ↦ none
    | some (memory, block) ↦ alloc_next b memory block blocks (some (none, blocks))
  ]
]

abbrev pub or_new : System → List ℕ → ℕ → Option ℕ × List Placed → Option (Option ℕ × List Placed)
or_new system tag n (some memory, blocks) = some (some memory, blocks)
or_new system tag n (none, blocks) = alloc_new system tag n blocks

-- What a caller is given.
pub data Given : Type 0 where
  null : Given
  secure : ℕ → Given
  insecure : ℕ → Given

abbrev pub or_fallback : Option (ℕ → Option ℕ) → Bool → ℕ → Option ℕ → Given
or_fallback fallback use_fallback n (some memory) = secure memory
or_fallback none use_fallback n none = null
or_fallback (some fallback) false n none = null
or_fallback (some fallback) true n none = elim (fallback n) [ none ↦ null | some m ↦ insecure m ]

abbrev pub tag_of : Option (List ℕ) → List ℕ
tag_of none = b'?' ∷ []
tag_of (some tag) = tag

unfoldable pub egg_secure_alloc_full :
    System → Option (List ℕ) → ℕ → Bool → List Placed → Option (Given × List Placed)
unfolding alloc_among alloc_new
egg_secure_alloc_full system tag n use_fallback blocks =
    if ltb (0xffffffff / 2) n || n == 0
    then some (null, blocks)
    else (elim (alloc_among (system.pool) (tag_of tag) n blocks) [
      | none ↦ none
      | some among ↦ elim (or_new system (tag_of tag) n among) [
        | none ↦ none
        | some (memory, blocks') ↦
            some (or_fallback (system.fallback) use_fallback n memory, blocks')
      ]
    ])

unfoldable pub sec_is_valid_word : Placed → ℕ → Bool
sec_is_valid_word b word = leb (b.words) word && ltb word (b.words + (b.block).n_words)

-- An assertion has failed, no block has the memory, or the memory is free.
pub data Freed : Type 0 where
  failed : Freed
  missing : Freed
  freed : List Placed → Freed

abbrev pub behind : Placed → Freed → Freed
behind b failed = failed
behind b missing = missing
behind b (freed blocks) = freed (b ∷ blocks)

-- A block of which nothing is in use goes away.
unfoldable pub sec_block_destroy : Placed → List Placed → Freed
sec_block_destroy b blocks = elim ((b.block).used_cells) [
  | [] ↦ freed blocks
  | item ∷ ring ↦ failed
]

unfoldable pub free_in : Placed → ℕ → List Placed → Freed
unfolding sec_block_destroy
free_in b memory blocks = elim (sec_free (memory - b.words) (b.block)) [
  | none ↦ failed
  | some block ↦
      let b' = record b { block = block } in
      if block.n_used == 0 then sec_block_destroy b' blocks else freed (b' ∷ blocks)
]

unfoldable pub free_among : ℕ → List Placed → Freed
unfolding free_in
free_among memory [] = missing
free_among memory (b ∷ blocks) =
    let rest = free_among memory blocks in
    if sec_is_valid_word b memory then free_in b memory blocks else behind b rest

abbrev pub or_elsewhere : Bool → List Placed → Freed → Freed
or_elsewhere given blocks missing = if given then freed blocks else failed
or_elsewhere given blocks failed = failed
or_elsewhere given blocks (freed blocks') = freed blocks'

-- `given` tells whether memory that no block has may be passed to the caller's own function.
unfoldable pub egg_secure_free_full : Bool → Option ℕ → List Placed → Freed
unfolding free_among
egg_secure_free_full given none blocks = freed blocks
egg_secure_free_full given (some memory) blocks =
    or_elsewhere given blocks (free_among memory blocks)

unfoldable pub egg_secure_check : ℕ → List Placed → Bool
egg_secure_check memory [] = false
egg_secure_check memory (b ∷ blocks) = sec_is_valid_word b memory || egg_secure_check memory blocks
