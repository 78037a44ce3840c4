-- ===== src/Tests/SecureMemory.antt =====
-- egg/egg-secure-memory.c on a block of eight words, three of which are in use.
use gcr.Shared.{
  ℕ, ◌*◌, ◌≡◌, refl, true, false, ◌||◌, Option, none, some, List, [], ◌∷◌, replicate, arith, ltb,
  ◌==◌,
}
use gcr.Egg.SecureMemory.{
  byte, Cell, Block, locate, cell_at, sec_size_to_words, sec_insert_cell_ring, sec_remove_cell_ring,
  sec_clear,
}
use gcr.Egg.SecureMemory.Alloc.{use_front, first_fit, use_cell, sec_steal, sec_alloc}
use gcr.Egg.SecureMemory.Free.{merge_before, merge_after, release_cell, sec_free}
use gcr.Egg.SecureMemory.Blocks.Sessions.{Step, Reach, Reach-AllValid}
use gcr.Egg.SecureMemory.Blocks.Free.{AllApart}
use gcr.Egg.SecureMemory.Realloc.{sec_realloc}
use gcr.Egg.SecureMemory.Blocks.{
  new_cell, sec_block_create, block_words, whole_pages, alloc_new, Placed, System, Given, secure,
  freed, new_block, egg_secure_alloc_full, alloc_among, alloc_next, egg_secure_free_full,
  free_among, free_in, sec_is_valid_word, sec_block_destroy,
}
use gcr.Egg.SecureMemory.Valid.{IsValid}
use gcr.Egg.SecureMemory.Allocations.{Allocation, allocations}
use gcr.Egg.SecureMemory.Alloc.Finds.{sec_alloc_gives}
use gcr.Egg.SecureMemory.Blocks.Extends.{AllValid, pieces}
use gcr.Egg.SecureMemory.Blocks.New.{Answers}
use gcr.Egg.SecureMemory.Blocks.Alloc.{IsAnswered, secured, egg_secure_alloc_full-IsExtended}
use gcr.Egg.SecureMemory.Blocks.Free.{egg_secure_free_full-Frees}
use gcr.Egg.SecureMemory.Blocks.Created.{egg_secure_alloc_full_whole_pages}
use gcr.Egg.SecureMemory.Realloc.Writes.{IsReallocated}
use gcr.Egg.SecureMemory.Realloc.Whole.{sec_realloc-IsReallocated}
use gcr.Egg.SecureMemory.Blocks.Validate.{
  is_sound, validate_from, sec_validate, egg_secure_validate,
}
use gcr.Egg.SecureMemory.Strings.{egg_secure_strndup_full, egg_secure_strndup_full-copies}

abbrev tag_x : List ℕ
tag_x = b'x' ∷ []

abbrev busy_cell : Cell
busy_cell = record {
  item = 5;
  content = byte 1 ∷ byte 2 ∷ byte 3 ∷ byte 0 ∷ byte 0 ∷ byte 0 ∷ byte 0 ∷ byte 0 ∷ [];
  n_words = 3;
  requested = 3;
  tag = some tag_x;
}

abbrev free_cell : Cell
free_cell = record {
  item = 6;
  content = replicate 24 (byte 0);
  n_words = 5;
  requested = 0;
  tag = none;
}

abbrev small_block : Block
small_block = record {
  cells = busy_cell ∷ free_cell ∷ [];
  n_words = 8;
  n_used = 1;
  used_cells = 5 ∷ [];
  unused_cells = 6 ∷ [];
}

small_block-IsValid : IsValid small_block
small_block-IsValid = record {
  fits = (
    record { sized = refl; holds = omega arith; tagged = refl; clean = omega arith },
    (record { sized = refl; holds = omega arith; tagged = refl; clean = omega arith }, tt),
  );
  whole = refl;
  counted = refl;
  used_ring = λ i. omega arith;
  unused_ring = λ i. omega arith;
  distinct = λ i. ground arith;
  apart = refl;
}

abbrev small_blocks : List Placed
small_blocks = record { words = 100; block = small_block } ∷ []

abbrev busy_piece : ℕ → Allocation
busy_piece address = record {
  address = address;
  bytes = byte 1 ∷ byte 2 ∷ byte 3 ∷ [];
  tag = some tag_x;
}

-- Pages are at 1000, and the pool gives the cells 1 and 2.
abbrev machine : System
machine = record {
  force_fallback = false;
  page_size = 4096;
  block_item = true;
  cell_item = some 1;
  pages = some 1000;
  pool = λ words. some 2;
  fallback = none;
}

machine-Answers : Answers machine small_blocks
machine-Answers = record {
  page = omega arith;
  fresh = (λ item e. ground arith, tt);
  fresh_first = λ words item i mapped cell given. ground arith;
}

egg_secure_alloc_full-IsExtended_example :
    (given : Given) × (blocks' : List Placed) × (egg_secure_alloc_full machine
        (some tag_x)
        4
        true
        small_blocks
      ≡ some (given, blocks'))
    × AllValid blocks'
    × IsAnswered (ltb 0x7fffffff 4 || 4 == 0) tag_x 4 small_blocks given blocks'
egg_secure_alloc_full-IsExtended_example =
    egg_secure_alloc_full-IsExtended machine (some tag_x) 4 true small_blocks machine-Answers
      (small_block-IsValid, tt)

egg_secure_free_full-Frees_example :
    (blocks' : List Placed) × (egg_secure_free_full true (some 101) small_blocks ≡ freed blocks')
    × AllValid blocks'
    × (pieces blocks' ≡ [])
egg_secure_free_full-Frees_example =
    egg_secure_free_full-Frees true small_blocks [] (busy_piece 101) [] (tt, tt)
      (small_block-IsValid, tt) refl

sec_realloc-IsReallocated_example :
    (memory : Option ℕ) × (block' : Block) × (sec_realloc none tag_x 1 20 small_block
      ≡ some (memory, block'))
    × IsValid block'
    × IsReallocated 20 [] (busy_piece 1) [] memory (allocations block')
sec_realloc-IsReallocated_example =
    sec_realloc-IsReallocated none tag_x 20 small_block [] (busy_piece 1) [] (omega arith)
      (λ item e. cc) small_block-IsValid refl

sec_alloc_gives_example :
    (memory : ℕ) × (block' : Block) × (sec_alloc (some 2) tag_x 4 small_block
      ≡ some (some memory, block'))
unfolding locate sec_size_to_words
sec_alloc_gives_example =
    sec_alloc_gives 2 tag_x 4 small_block 6
      (record { before = busy_cell ∷ []; cell = free_cell; after = [] }) small_block-IsValid
      (omega arith) refl (omega arith)

validate_small : egg_secure_validate small_blocks ≡ true
unfolding egg_secure_validate sec_validate validate_from is_sound
validate_small = refl

-- More bytes are asked for than the cell has words.
validate_overlong :
    sec_validate
      (record small_block { cells = record busy_cell { requested = 9 } ∷ free_cell ∷ [] })
    ≡ false
unfolding sec_validate validate_from is_sound
validate_overlong = refl

-- The cell is in no ring.
validate_astray : sec_validate (record small_block { used_cells = [] }) ≡ false
unfolding sec_validate validate_from is_sound
validate_astray = refl

egg_secure_alloc_full_whole_pages_example :
    (given : Given) × (egg_secure_alloc_full machine none (4096 * 4) true []
      ≡ some (given, record { words = 1000; block = new_block 1 (512 * 4) } ∷ []))
    × (secured given ≡ none)
egg_secure_alloc_full_whole_pages_example =
    egg_secure_alloc_full_whole_pages machine none 4 1000 1 true refl refl refl refl refl
      (omega arith) (omega arith)

-- The free cell is as long as three bytes need, or has too few words more to be cut in two.
abbrev full_blocks : List Placed
full_blocks =
    record {
      words = 100;
      block = record {
        cells = busy_cell ∷ record free_cell { requested = 3; tag = some tag_x } ∷ [];
        n_words = 8;
        n_used = 2;
        used_cells = 6 ∷ 5 ∷ [];
        unused_cells = [];
      };
    }
    ∷ []

alloc-full :
    egg_secure_alloc_full machine (some tag_x) 3 true small_blocks ≡ some (secure 104, full_blocks)
unfolding egg_secure_alloc_full alloc_among alloc_next sec_alloc first_fit locate sec_steal use_cell
    sec_size_to_words sec_insert_cell_ring sec_remove_cell_ring sec_clear
alloc-full = refl

-- Two bytes of "abcd" are copied as "abc".
egg_secure_strndup_full-copies_example :
    egg_secure_strndup_full machine
      (some tag_x)
      (some (97 ∷ 98 ∷ 99 ∷ 100 ∷ 0 ∷ []))
      2
      true
      small_blocks
    ≡ some (secure 104, 97 ∷ 98 ∷ 99 ∷ [], full_blocks)
egg_secure_strndup_full-copies_example =
    egg_secure_strndup_full-copies machine (some tag_x) (97 ∷ 98 ∷ []) 99 (100 ∷ 0 ∷ []) 2 true
      small_blocks 104 full_blocks ((λ e. omega arith), ((λ e. omega arith), tt)) (omega arith)
      (λ h. absurd (omega arith)) alloc-full

-- The block goes away with its only piece of memory, and is one unused cell before that.
free-small : egg_secure_free_full false (some 101) small_blocks ≡ freed []
unfolding egg_secure_free_full free_among free_in sec_is_valid_word sec_free cell_at release_cell
    merge_before merge_after sec_remove_cell_ring sec_insert_cell_ring sec_clear sec_block_destroy
free-small = refl

-- The first four bytes that are asked for, of a block that is added.
abbrev started : List Placed
started =
    record {
      words = 1000;
      block =
          (sec_steal (some 2) tag_x 4 3 (record { before = []; cell = new_cell 1 2048; after = [] })
            (new_block 1 2048)).1;
    }
    ∷ []

first-alloc : egg_secure_alloc_full machine (some tag_x) 4 true [] ≡ some (secure 1001, started)
unfolding egg_secure_alloc_full alloc_among alloc_new alloc_next sec_block_create block_words
    whole_pages sec_alloc first_fit locate sec_steal use_front use_cell sec_size_to_words
    sec_insert_cell_ring
first-alloc = refl

Reach-AllValid_example : AllApart started × AllValid started
Reach-AllValid_example = Reach-AllValid (
    Reach.next Reach.start (
      Step.alloc machine (some tag_x) 4 true (secure 1001)
        (record {
          page = omega arith;
          fresh = tt;
          fresh_first = λ words item i mapped cell given. ground arith;
        })
        (λ words item mapped. tt) first-alloc))
