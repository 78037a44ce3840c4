-- ===== src/Egg/SecureMemory/Blocks/Created.antt =====
-- Which requests the block that egg/egg-secure-memory.c adds for them is too small for.
use gcr.Shared.{
  ℕ, ◌+◌, ◌*◌, ◌/◌, ◌≤◌, ◌<◌, ◌≡◌, refl, ap, ◌∙◌, Bool, true, false, ◌||◌, Option, none, some, List,
  [], ◌∷◌, ltb, ◌==◌, arith, ==_refl, lt→leb_false,
}
use gcr.Egg.SecureMemory.{locate, sec_insert_cell_ring, sec_size_to_words}
use gcr.Egg.SecureMemory.Alloc.{first_fit, sec_alloc}
use gcr.Egg.SecureMemory.Blocks.{
  System, whole_pages, block_words, new_block, sec_block_create, alloc_next, alloc_among, alloc_new,
  Given, or_fallback, egg_secure_alloc_full, tag_of,
}
use gcr.Egg.SecureMemory.Blocks.New.{created}
use gcr.Egg.SecureMemory.Blocks.Alloc.{secured, secured-or_fallback}

too_small :
    (fresh : Option ℕ) (tag : List ℕ) (n item n_words : ℕ)
    → n_words < sec_size_to_words n + 2
    → sec_alloc fresh tag n (new_block item n_words) ≡ some (none, new_block item n_words)
unfolding sec_alloc first_fit locate sec_insert_cell_ring
too_small fresh tag n item n_words h =
    rw (sec_alloc, first_fit, locate, ==_refl item, lt→leb_false _ _ h) refl

-- A request that the new block is too small for is left to the fallback, where there is no block yet, and
-- the new block stays.
fails :
    (system : System) (tag : Option (List ℕ)) (n words item : ℕ) (use_fallback : Bool)
    → 0 < n
    → n ≤ 0xffffffff / 2
    → sec_block_create system n ≡ some (created system n words item)
    → block_words (system.page_size) n < sec_size_to_words n + 2
    → egg_secure_alloc_full system tag n use_fallback []
      ≡ some (or_fallback (system.fallback) use_fallback n none, created system n words item ∷ [])
unfolding egg_secure_alloc_full alloc_among alloc_new alloc_next
fails system tag n words item use_fallback pos sane made small =
    let asked : (ltb (0xffffffff / 2) n || n == 0) ≡ false = ground arith in
    rw
      (
        egg_secure_alloc_full,
        asked,
        alloc_new,
        made,
        too_small (system.pool words) (tag_of tag) n item (block_words (system.page_size) n) small,
      )
      refl

makes :
    (system : System) (n words item : ℕ)
    → system.force_fallback ≡ false
    → system.block_item ≡ true
    → system.cell_item ≡ some item
    → system.pages ≡ some words
    → sec_block_create system n ≡ some (created system n words item)
unfolding sec_block_create
makes system n words item free block cell mapped =
    rw (sec_block_create, free, block, cell, mapped) refl

pages_short : (k : ℕ) → 4 ≤ k → block_words 4096 (4096 * k) < sec_size_to_words (4096 * k) + 2
unfolding block_words whole_pages sec_size_to_words
pages_short k h = ground arith

pages_exact : (k : ℕ) → 4 ≤ k → block_words 4096 (4096 * k) ≡ 512 * k
unfolding block_words whole_pages
pages_exact k h = ground arith

-- With pages of 4096 bytes, a first request for a whole number of pages, four or more and at most 2^31 - 1
-- bytes, is not given secure memory, although everything that the block needs is given: it is answered
-- with the fallback's memory or null, since the block that is added has as many bytes as were asked for,
-- and no room for the two guards. The block stays, with nothing in use.
pub egg_secure_alloc_full_whole_pages :
    (system : System) (tag : Option (List ℕ)) (k words item : ℕ) (use_fallback : Bool)
    → system.page_size ≡ 4096
    → system.force_fallback ≡ false
    → system.block_item ≡ true
    → system.cell_item ≡ some item
    → system.pages ≡ some words
    → 4 ≤ k
    → 4096 * k ≤ 0xffffffff / 2
    → (given : Given) × (egg_secure_alloc_full system tag (4096 * k) use_fallback []
        ≡ some (given, record { words = words; block = new_block item (512 * k) } ∷ []))
      × (secured given ≡ none)
egg_secure_alloc_full_whole_pages system tag k words item use_fallback page free block cell mapped
      four sane =
    let given = or_fallback (system.fallback) use_fallback (4096 * k) none in
    (
      given,
      fails system tag (4096 * k) words item use_fallback (omega arith) sane
            (makes system (4096 * k) words item free block cell mapped)
            (rw page (pages_short k four))
          ∙ ap (λ w. some (given, record { words = words; block = new_block item w } ∷ []))
              (ap (λ p. block_words p (4096 * k)) page ∙ pages_exact k four),
      secured-or_fallback (system.fallback) use_fallback (4096 * k) none,
    )
