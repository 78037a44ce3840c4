-- ===== src/Egg/SecureMemory/Blocks/Free.antt =====
-- What egg_secure_free_full of egg/egg-secure-memory.c does to the memory that is in use in all blocks.
use gcr.Shared.{
  ℕ, ◌+◌, ◌-◌, ◌≡◌, refl, sym, ap, ◌∙◌, inl, inr, Bool, some, List, [], ◌∷◌, ◌++◌, map, ◌==◌, arith,
  All, Bool-cases, ==_iff, append_assoc,
}
use gcr.Egg.SecureMemory.{Block}
use gcr.Egg.SecureMemory.Free.{sec_free}
use gcr.Egg.SecureMemory.Blocks.{
  Placed, Freed, freed, sec_block_destroy, free_in, free_among, egg_secure_free_full,
}
use gcr.Egg.SecureMemory.Valid.{IsValid}
use gcr.Egg.SecureMemory.Allocations.{Allocation, allocations}
use gcr.Egg.SecureMemory.Free.Refines.{sec_free-allocations}
use gcr.Egg.SecureMemory.Blocks.Extends.{moved, map-middle, pieces_of, pieces, AllValid}
use gcr.Egg.SecureMemory.Blocks.Pieces.{
  sides, unmapped, address-lt, valid_word, AreApart, outside, nothing_used,
}

-- The words of all blocks are different ones.
abbrev pub AllApart : List Placed → Type 0
AllApart [] = Unit {0}
AllApart (b ∷ blocks) = All (AreApart b) blocks × AllApart blocks

-- The pieces of memory that are left are the given ones.
abbrev pub Frees : Freed → List Allocation → Type 0
Frees result left =
    (blocks : List Placed) × (result ≡ freed blocks) × AllValid blocks × (pieces blocks ≡ left)

-- The block is kept, or goes away if nothing of it is in use.
keeps :
    (b : Placed) (n : ℕ) (block : Block) (blocks : List Placed)
    → sec_free (n - b.words) (b.block) ≡ some block
    → IsValid block
    → AllValid blocks
    → Frees (free_in b n blocks) (pieces_of (b.words) block ++ pieces blocks)
unfolding free_in sec_block_destroy
keeps b n block blocks e v vs = elim (Bool-cases (block.n_used == 0)) [
  | inl empty ↦
      let (ring, nothing) = nothing_used block v ((==_iff (block.n_used) 0).0 empty) in
      (
        blocks,
        rw (free_in, e, empty, sec_block_destroy, ring) refl,
        vs,
        ap (λ l. map (moved (b.words)) l ++ pieces blocks) (sym nothing),
      )
  | inr kept ↦ (record b { block = block } ∷ blocks, rw (free_in, e, kept) refl, (v, vs), refl)
]

free_here :
    (b : Placed) (blocks : List Placed) (front : List Allocation) (a : Allocation)
    (rest : List Allocation)
    → IsValid (b.block)
    → AllValid blocks
    → pieces_of (b.words) (b.block) ≡ front ++ a ∷ rest
    → Frees (free_among (a.address) (b ∷ blocks)) (front ++ (rest ++ pieces blocks))
unfolding free_among
free_here b blocks front a rest v vs here =
    let (front', a', back', from, e1, e2, e3) =
      unmapped (moved (b.words)) (allocations (b.block)) front a rest here in
    let (block, e, v', left) = sec_free-allocations front' back' a' (b.block) v from in
    let inside = valid_word b (a'.address) (address-lt (b.block) front' a' back' v from) in
    let offset : b.words + a'.address - b.words ≡ a'.address = omega arith in
    let (blocks', given, vs', is) =
      keeps b (b.words + a'.address) block blocks (ap (λ n. sec_free n (b.block)) offset ∙ e) v'
        vs in
    (
      blocks',
      ap (λ (p : Allocation). free_among (p.address) (b ∷ blocks)) (sym e2)
          ∙ rw (free_among, inside) given,
      vs',
      is
          ∙ ap (λ l. map (moved (b.words)) l ++ pieces blocks) left
          ∙ ap (λ l. l ++ pieces blocks) (map-middle (moved (b.words)) front' back')
          ∙ append_assoc (map (moved (b.words)) front') (map (moved (b.words)) back')
              (pieces blocks)
          ∙ rw (e1, e3) refl,
    )

free_among-Frees :
    (blocks : List Placed) (before : List Allocation) (a : Allocation) (after : List Allocation)
    → AllApart blocks
    → AllValid blocks
    → pieces blocks ≡ before ++ a ∷ after
    → Frees (free_among (a.address) blocks) (before ++ after)
unfolding free_among
free_among-Frees [] [] a after apart v h = cc
free_among-Frees [] (x ∷ before) a after apart v h = cc
free_among-Frees (b ∷ blocks) before a after apart v h =
    elim (sides (pieces_of (b.words) (b.block)) (pieces blocks) before a after h) [
      | inl (rest, here, e) ↦
          let (blocks', given, vs, is) = free_here b blocks before a rest v.0 v.1 here in
          (blocks', given, vs, is ∙ ap (λ l. before ++ l) (sym e))
      | inr (rest, e, there) ↦
          let not_here = outside b blocks rest a after apart.0 v.1 there in
          let (blocks', given, vs, is) = free_among-Frees blocks rest a after apart.1 v.1 there in
          (
            b ∷ blocks',
            rw (not_here, given) refl,
            (v.0, vs),
            ap (λ l. pieces_of (b.words) (b.block) ++ l) is
                ∙ sym (append_assoc (pieces_of (b.words) (b.block)) rest after)
                ∙ ap (λ l. l ++ after) (sym e),
          )
    ]

-- Where all blocks are in order and have different words, giving back a piece of memory that is in use fails no
-- assertion on a cell, and none on a block that goes away with its last piece. It leaves all blocks in
-- order, so that no byte of that memory is left in them, and the other pieces are where they were and
-- hold what they held.
pub egg_secure_free_full-Frees :
    (given : Bool) (blocks : List Placed) (before : List Allocation) (a : Allocation)
    (after : List Allocation)
    → AllApart blocks
    → AllValid blocks
    → pieces blocks ≡ before ++ a ∷ after
    → (blocks' : List Placed) × (egg_secure_free_full given (some (a.address)) blocks
        ≡ freed blocks')
      × AllValid blocks'
      × (pieces blocks' ≡ before ++ after)
unfolding egg_secure_free_full
egg_secure_free_full-Frees given blocks before a after apart v h =
    let (blocks', e, vs, is) = free_among-Frees blocks before a after apart v h in
    (blocks', rw e refl, vs, is)
