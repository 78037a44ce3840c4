-- ===== src/Egg/SecureMemory/Blocks/Sessions.antt =====
-- Sequences of calls of egg_secure_alloc_full and egg_secure_free_full of egg/egg-secure-memory.c.
use mathlib.Core.Option.{some-injective}
use mathlib.Core.Path.{subst}
use gcr.Shared.{ℕ, ◌≡◌, sym, ap, ◌∙◌, Bool, Option, some, List, [], ◌∷◌, ◌++◌}
use gcr.Egg.SecureMemory.Blocks.{
  Placed, System, Given, egg_secure_alloc_full, freed, egg_secure_free_full,
}
use gcr.Egg.SecureMemory.Allocations.{Allocation}
use gcr.Egg.SecureMemory.Blocks.Extends.{AllValid, pieces}
use gcr.Egg.SecureMemory.Blocks.New.{Answers}
use gcr.Egg.SecureMemory.Blocks.Alloc.{egg_secure_alloc_full-IsExtended}
use gcr.Egg.SecureMemory.Blocks.Free.{AllApart, egg_secure_free_full-Frees}
use gcr.Egg.SecureMemory.Blocks.Apart.{
  IsUnmapped, alloc_full-AllApart, freed_blocks, free_full-IsKept,
}

-- What one call makes of the blocks.
pub data Step : List Placed → List Placed → Type 0 where
  alloc :
      (system : System) (tag : Option (List ℕ)) (n : ℕ) (use_fallback : Bool) (given : Given)
      {blocks blocks' : List Placed}
      → Answers system blocks
      → IsUnmapped system n blocks
      → egg_secure_alloc_full system tag n use_fallback blocks ≡ some (given, blocks')
      → Step blocks blocks'
  free :
      (given : Bool) (before : List Allocation) (a : Allocation) (after : List Allocation)
      {blocks blocks' : List Placed}
      → pieces blocks ≡ before ++ a ∷ after
      → egg_secure_free_full given (some (a.address)) blocks ≡ freed blocks'
      → Step blocks blocks'

-- What calls make of no blocks at all.
pub data Reach : List Placed → Type 0 where
  start : Reach []
  next : {blocks blocks' : List Placed} → Reach blocks → Step blocks blocks' → Reach blocks'

Step-AllValid :
    {blocks blocks' : List Placed}
    → Step blocks blocks'
    → AllApart blocks
    → AllValid blocks
    → AllApart blocks' × AllValid blocks'
Step-AllValid (alloc system tag n use_fallback given {blocks} {blocks'} answers unmapped e) apart
      v =
    let (given', left, e', v', x) =
      egg_secure_alloc_full-IsExtended system tag n use_fallback blocks answers v in
    (
      alloc_full-AllApart system tag n use_fallback blocks given blocks' unmapped apart e,
      subst AllValid (ap (λ r. r.1) (some-injective (given', left) (given, blocks') (sym e' ∙ e)))
          v',
    )
Step-AllValid (free given before a after {blocks} {blocks'} h e) apart v =
    let (left, e', v', x) = egg_secure_free_full-Frees given blocks before a after apart v h in
    let same = freed_blocks left blocks' (sym e' ∙ e) in
    ((free_full-IsKept given (a.address) blocks blocks' e).0 apart, subst AllValid same v')

-- After any calls that ask for memory and that give back memory in use, all blocks are in order and have
-- different words, where at each call the pool gives no cell that a block has already, and the pages of
-- a new block are none of those that are there.
pub Reach-AllValid : {blocks : List Placed} → Reach blocks → AllApart blocks × AllValid blocks
Reach-AllValid start = (tt, tt)
Reach-AllValid (next r step) = let (apart, v) = Reach-AllValid r in Step-AllValid step apart v
