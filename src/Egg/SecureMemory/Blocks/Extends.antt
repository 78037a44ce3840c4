-- ===== src/Egg/SecureMemory/Blocks/Extends.antt =====
-- The pieces of memory in all blocks of egg/egg-secure-memory.c, and one more.
use mathlib.Core.Option
use gcr.Shared.{
  ℕ, ◌+◌, ◌≡◌, refl, sym, ap, ◌∙◌, Option, none, some, List, [], ◌∷◌, ◌++◌, map, All, append_assoc,
}
use gcr.Egg.SecureMemory.{Block}
use gcr.Egg.SecureMemory.Blocks.{Placed}
use gcr.Egg.SecureMemory.Valid.{IsValid}
use gcr.Egg.SecureMemory.Allocations.{Allocation, allocations}
use gcr.Egg.SecureMemory.Alloc.Refines.{new_allocation, IsAllocated}

-- The pieces of memory that are in use, at their addresses.
abbrev pub moved : ℕ → Allocation → Allocation
moved words a = record a { address = words + a.address }

abbrev pub pieces_of : ℕ → Block → List Allocation
pieces_of words block = map (moved words) (allocations block)

abbrev pub pieces : List Placed → List Allocation
pieces [] = []
pieces (b ∷ blocks) = pieces_of (b.words) (b.block) ++ pieces blocks

abbrev pub AllValid : List Placed → Type 0
AllValid = All (λ b. IsValid (b.block))

-- Nothing has changed, or there is one more piece of memory, all zero.
abbrev pub IsExtended : List ℕ → ℕ → List Allocation → Option ℕ → List Allocation → Type 0
IsExtended tag n xs none ys = ys ≡ xs
IsExtended tag n xs (some memory) ys =
    (before : List Allocation) × (after : List Allocation) × (xs ≡ before ++ after)
    × (ys ≡ before ++ new_allocation tag n memory ∷ after)

pub map-middle :
    (f : Allocation → Allocation) (xs ys : List Allocation)
    → map f (xs ++ ys) ≡ map f xs ++ map f ys
map-middle f [] ys = refl
map-middle f (x ∷ xs) ys = ap (λ l. f x ∷ l) (map-middle f xs ys)

pub pieces_of-IsExtended :
    (tag : List ℕ) (n words : ℕ) (block block' : Block) (memory : Option ℕ)
    → IsAllocated tag n block memory block'
    → IsExtended tag n
        (pieces_of words block)
        (Option.map (λ m. words + m) memory)
        (pieces_of words block')
pieces_of-IsExtended tag n words block block' none e = ap (pieces_of words) e
pieces_of-IsExtended tag n words block block' (some memory) (before, after, was, is) = (
  map (moved words) before,
  map (moved words) after,
  ap (map (moved words)) was ∙ map-middle (moved words) before after,
  ap (map (moved words)) is ∙ map-middle (moved words) before (new_allocation tag n memory ∷ after),
)

pub IsExtended-first :
    (tag : List ℕ) (n memory : ℕ) (xs ys zs : List Allocation)
    → IsExtended tag n xs (some memory) ys
    → IsExtended tag n (xs ++ zs) (some memory) (ys ++ zs)
IsExtended-first tag n memory xs ys zs (before, after, was, is) = (
  before,
  after ++ zs,
  ap (λ l. l ++ zs) was ∙ append_assoc before after zs,
  ap (λ l. l ++ zs) is ∙ append_assoc before (new_allocation tag n memory ∷ after) zs,
)

pub IsExtended-second :
    (tag : List ℕ) (n : ℕ) (memory : Option ℕ) (zs xs ys : List Allocation)
    → IsExtended tag n xs memory ys
    → IsExtended tag n (zs ++ xs) memory (zs ++ ys)
IsExtended-second tag n none zs xs ys e = ap (λ l. zs ++ l) e
IsExtended-second tag n (some memory) zs xs ys (before, after, was, is) = (
  zs ++ before,
  after,
  ap (λ l. zs ++ l) was ∙ sym (append_assoc zs before after),
  ap (λ l. zs ++ l) is ∙ sym (append_assoc zs before (new_allocation tag n memory ∷ after)),
)
