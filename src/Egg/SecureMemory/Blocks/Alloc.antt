-- ===== src/Egg/SecureMemory/Blocks/Alloc.antt =====
-- What egg_secure_alloc_full of egg/egg-secure-memory.c does to the memory that is in use in all blocks.
use mathlib.Core.Path.{subst}
use gcr.Shared.{
  ℕ, ◌+◌, ◌/◌, ◌<◌, ◌≡◌, refl, sym, ap, inl, inr, Bool, true, false, ◌||◌, Option, none, some, List,
  [], ◌∷◌, ◌++◌, ltb, ◌==◌, arith, Bool-cases, Option-cases,
}
use gcr.Egg.SecureMemory.{Block}
use gcr.Egg.SecureMemory.Blocks.{
  Placed, System, block_words, alloc_next, alloc_among, alloc_new, or_new, Given, null, secure,
  insecure, or_fallback, tag_of, egg_secure_alloc_full,
}
use gcr.Egg.SecureMemory.Valid.{IsValid}
use gcr.Egg.SecureMemory.Alloc.Valid.{IsFresh}
use gcr.Egg.SecureMemory.Alloc.Refines.{IsAllocated, sec_alloc-IsAllocated}
use gcr.Egg.SecureMemory.Blocks.Extends.{
  pieces_of, pieces, AllValid, IsExtended, pieces_of-IsExtended, IsExtended-first,
  IsExtended-second,
}
use gcr.Egg.SecureMemory.Blocks.New.{
  AllFresh, block_words-le, new_block-IsValid, Answers, created, sec_block_create_cases,
}

-- An answer, with the blocks that are left.
abbrev pub Allocates : List ℕ → ℕ → List Placed → Option (Option ℕ × List Placed) → Type 0
Allocates tag n blocks result =
    (memory : Option ℕ) × (blocks' : List Placed) × (result ≡ some (memory, blocks'))
    × AllValid blocks'
    × IsExtended tag n (pieces blocks) memory (pieces blocks')

alloc_next-Allocates :
    (tag : List ℕ) (n : ℕ) (b : Placed) (memory : Option ℕ) (block : Block) (blocks : List Placed)
    (rest : Option (Option ℕ × List Placed))
    → IsValid block
    → AllValid blocks
    → IsAllocated tag n (b.block) memory block
    → Allocates tag n blocks rest
    → Allocates tag n (b ∷ blocks) (alloc_next b memory block blocks rest)
unfolding alloc_next
alloc_next-Allocates tag n b none block blocks rest v vs a (memory, blocks', e, vs', x) = (
  memory,
  record b { block = block } ∷ blocks',
  rw e refl,
  (v, vs'),
  subst
      (λ l.
        IsExtended tag n (pieces_of (b.words) (b.block) ++ pieces blocks) memory
          (l ++ pieces blocks'))
      (sym (ap (pieces_of (b.words)) a))
      (IsExtended-second tag n memory (pieces_of (b.words) (b.block)) (pieces blocks)
        (pieces blocks') x),
)
alloc_next-Allocates tag n b (some memory) block blocks rest v vs a r = (
  some (b.words + memory),
  record b { block = block } ∷ blocks,
  refl,
  (v, vs),
  IsExtended-first tag n (b.words + memory) (pieces_of (b.words) (b.block))
      (pieces_of (b.words) block) (pieces blocks)
      (pieces_of-IsExtended tag n (b.words) (b.block) block (some memory) a),
)

alloc_among-Allocates :
    (pool : ℕ → Option ℕ) (tag : List ℕ) (n : ℕ) (blocks : List Placed)
    → 0 < n
    → AllFresh pool blocks
    → AllValid blocks
    → Allocates tag n blocks (alloc_among pool tag n blocks)
unfolding alloc_among
alloc_among-Allocates pool tag n [] pos new vs = (none, [], refl, tt, refl)
alloc_among-Allocates pool tag n (b ∷ blocks) pos new vs =
    let (memory, block, e, v, a) =
      sec_alloc-IsAllocated (pool (b.words)) tag n (b.block) pos new.0 vs.0 in
    rw (alloc_among, e)
      (alloc_next-Allocates tag n b memory block blocks (alloc_among pool tag n blocks) v vs.1 a
        (alloc_among-Allocates pool tag n blocks pos new.1 vs.1))

alloc_new-Allocates :
    (system : System) (tag : List ℕ) (n : ℕ) (blocks xs : List Placed)
    → 0 < n
    → Answers system xs
    → AllValid blocks
    → Allocates tag n blocks (alloc_new system tag n blocks)
unfolding alloc_new
alloc_new-Allocates system tag n blocks xs pos s vs = elim (sec_block_create_cases system n) [
  | inl e ↦ rw (alloc_new, e) (none, blocks, refl, vs, refl)
  | inr (words, item, mapped, there, e) ↦
      let b = created system n words item in
      let new : IsFresh (system.pool words) (b.block) =
        λ i h. rw (s.fresh_first words item i mapped there h) refl in
      let fits = block_words-le (system.page_size) n (s.page) in
      let (memory, block, given, v, a) =
        sec_alloc-IsAllocated (system.pool words) tag n (b.block) pos new
          (new_block-IsValid item (block_words (system.page_size) n) (omega arith)) in
      rw (alloc_new, e, given)
        (alloc_next-Allocates tag n b memory block blocks (some (none, blocks)) v vs a
          (none, blocks, refl, vs, refl))
]

or_new-Allocates :
    (system : System) (tag : List ℕ) (n : ℕ) (blocks : List Placed) (memory : Option ℕ)
    (blocks' : List Placed)
    → 0 < n
    → Answers system blocks
    → AllValid blocks'
    → IsExtended tag n (pieces blocks) memory (pieces blocks')
    → Allocates tag n blocks (or_new system tag n (memory, blocks'))
or_new-Allocates system tag n blocks (some memory) blocks' pos s v x =
    (some memory, blocks', refl, v, x)
or_new-Allocates system tag n blocks none blocks' pos s v x =
    let (memory, blocks'', e, v', x') = alloc_new-Allocates system tag n blocks' blocks pos s v in
    (memory, blocks'', e, v', subst (λ l. IsExtended tag n l memory (pieces blocks'')) x x')

-- The secure memory that a caller is given.
abbrev pub secured : Given → Option ℕ
secured null = none
secured (secure memory) = some memory
secured (insecure memory) = none

pub secured-or_fallback :
    (fallback : Option (ℕ → Option ℕ)) (use_fallback : Bool) (n : ℕ) (memory : Option ℕ)
    → secured (or_fallback fallback use_fallback n memory) ≡ memory
secured-or_fallback fallback use_fallback n (some memory) = refl
secured-or_fallback none use_fallback n none = refl
secured-or_fallback (some fallback) false n none = refl
secured-or_fallback (some fallback) true n none = elim (Option-cases (fallback n)) [
  | inl e ↦ rw e refl
  | inr (m, e) ↦ rw e refl
]

-- What becomes of a request, by whether its size is refused: null and the blocks as they were, or the
-- pieces of memory in use as before, with the new one where secure memory is given.
abbrev pub IsAnswered : Bool → List ℕ → ℕ → List Placed → Given → List Placed → Type 0
IsAnswered true tag n blocks given blocks' = (given ≡ null) × (blocks' ≡ blocks)
IsAnswered false tag n blocks given blocks' =
    IsExtended tag n (pieces blocks) (secured given) (pieces blocks')

-- Where all blocks are in order, there is a page size, and the pool gives no cell that a block has already,
-- asking for memory fails no assertion on a cell and leaves all blocks in order, an added one included.
-- A request for no bytes or for more than 2^31 - 1 is answered with null and leaves the blocks as they
-- were, whatever the fallback. For any other one, either no secure memory is given, and the pieces of
-- memory that are in use are the same as before, or it is one more piece of as many zero bytes as were
-- asked for, and the others are where they were and hold what they held.
pub egg_secure_alloc_full-IsExtended :
    (system : System) (tag : Option (List ℕ)) (n : ℕ) (use_fallback : Bool) (blocks : List Placed)
    → Answers system blocks
    → AllValid blocks
    → (given : Given) × (blocks' : List Placed) × (egg_secure_alloc_full system tag n use_fallback
          blocks
        ≡ some (given, blocks'))
      × AllValid blocks'
      × IsAnswered (ltb 0x7fffffff n || n == 0) (tag_of tag) n blocks given blocks'
unfolding egg_secure_alloc_full
egg_secure_alloc_full-IsExtended system tag n use_fallback blocks s v =
    elim (Bool-cases (ltb (0xffffffff / 2) n || n == 0)) [
      | inl refused ↦ (null, blocks, rw refused refl, v, rw refused (refl, refl))
      | inr sane ↦
          let pos : 0 < n = ground arith in
          let (memory, blocks', e, v', x) =
            alloc_among-Allocates (system.pool) (tag_of tag) n blocks pos (s.fresh) v in
          let (memory', blocks'', e', v'', x') =
            or_new-Allocates system (tag_of tag) n blocks memory blocks' pos s v' x in
          (
            or_fallback (system.fallback) use_fallback n memory',
            blocks'',
            rw (egg_secure_alloc_full, sane, e, e') refl,
            v'',
            rw (sane, secured-or_fallback (system.fallback) use_fallback n memory') x',
          )
    ]
