-- ===== src/Egg/SecureMemory/Realloc/Moves.antt =====
-- What egg/egg-secure-memory.c does where memory moves when its size is changed, and the whole of
-- sec_realloc.
use gcr.Shared.{
  ℕ, ◌+◌, ◌≤◌, ◌≡◌, refl, sym, ap, ◌∙◌, inl, inr, Option, none, some, List, ◌∷◌, ◌++◌, length,
  append_assoc,
}
use gcr.Egg.SecureMemory.{Cell, Block, Spot, words_of}
use gcr.Egg.SecureMemory.Free.{sec_free}
use gcr.Egg.SecureMemory.Realloc.{with_cell, move}
use gcr.Egg.SecureMemory.Valid.{IsValid}
use gcr.Egg.SecureMemory.Allocations.{
  Allocation, allocation, allocations, allocations_from, earlier,
}
use gcr.Egg.SecureMemory.Alloc.Refines.{IsAllocated}
use gcr.Egg.SecureMemory.Free.Refines.{sec_free-allocations}
use gcr.Egg.SecureMemory.Blocks.Pieces.{sides}
use gcr.Egg.SecureMemory.Realloc.Valid.{IsHeld, held-IsValid}
use gcr.Egg.SecureMemory.Realloc.Bytes.{IsResized, bytes_of}
use gcr.Egg.SecureMemory.Realloc.Writes.{IsReallocated, allocations-with_cell, write_to-IsResized}

-- What a call ends in.
abbrev pub Ends :
    ℕ → List Allocation → Allocation → List Allocation → Option (Option ℕ × Block) → Type 0
Ends n before a after result =
    (memory : Option ℕ) × (block' : Block) × (result ≡ some (memory, block'))
    × IsValid block'
    × IsReallocated n before a after memory (allocations block')

-- The old memory is before or behind the new.
pub replaced :
    (n memory : ℕ) (before : List Allocation) (a : Allocation) (after front back : List Allocation)
    (new : Allocation) (written : Block)
    → IsValid written
    → front ++ back ≡ before ++ a ∷ after
    → allocations written ≡ front ++ new ∷ back
    → new.address ≡ memory
    → IsResized n (a.bytes) (new.bytes)
    → (block : Block) × (sec_free (a.address) written ≡ some block)
      × IsValid block
      × IsReallocated n before a after (some memory) (allocations block)
replaced n memory before a after front back new written v old is there resized_bytes =
    elim (sides front back before a after old) [
      | inl (rest, e, e') ↦
          let now : allocations written ≡ before ++ a ∷ (rest ++ new ∷ back) =
            is ∙ ap (λ l. l ++ new ∷ back) e ∙ append_assoc before (a ∷ rest) (new ∷ back) in
          let (block, freed, v', left) =
            sec_free-allocations before (rest ++ new ∷ back) a written v now in
          (
            block,
            freed,
            v',
            (
              before ++ rest,
              new,
              back,
              ap (λ l. before ++ l) e' ∙ sym (append_assoc before rest back),
              left ∙ sym (append_assoc before rest (new ∷ back)),
              there,
              resized_bytes,
            ),
          )
      | inr (rest, e, e') ↦
          let now : allocations written ≡ (front ++ new ∷ rest) ++ a ∷ after =
            is
            ∙ ap (λ l. front ++ new ∷ l) e'
            ∙ sym (append_assoc front (new ∷ rest) (a ∷ after)) in
          let (block, freed, v', left) =
            sec_free-allocations (front ++ new ∷ rest) after a written v now in
          (
            block,
            freed,
            v',
            (
              front,
              new,
              rest ++ after,
              ap (λ l. l ++ after) e ∙ append_assoc front rest after,
              left ∙ append_assoc front (new ∷ rest) after,
              there,
              resized_bytes,
            ),
          )
    ]

pub moves :
    (tag : List ℕ) (n : ℕ) (memory : Option ℕ) (block next : Block) (before : List Allocation)
    (a : Allocation) (after : List Allocation)
    → IsValid next
    → length (a.bytes) ≤ n
    → allocations block ≡ before ++ a ∷ after
    → IsAllocated tag n block memory next
    → Ends n before a after (move (a.address) (a.bytes) (some (memory, next)))
unfolding move
moves tag n none block next before a after v le h same =
    (none, next, refl, v, ap allocations same ∙ h)
moves tag n (some memory) block next before a after v le h (front, back, was, is) =
    let (written, new, e, v', is', there, same) =
      write_to-IsResized tag n memory (a.bytes) next front back v le is in
    let (block', freed, v'', done) =
      replaced n memory before a after front back new written v' (sym was ∙ h) is' there same in
    (some memory, block', rw (move, e, freed) refl, v'', done)

-- The cell has been changed in place.
pub in_place :
    (n memory : ℕ) (c : Cell) (spot : Spot) (cells : List Cell) (ring : List ℕ) (block : Block)
    (before : List Allocation) (a : Allocation) (after : List Allocation)
    → IsHeld c (spot.before) cells ring block
    → earlier (spot.before) ≡ before
    → allocations_from (words_of (spot.before) + c.n_words) cells ≡ after
    → IsResized n (a.bytes) (bytes_of c)
    → words_of (spot.before) + 1 ≡ memory
    → Ends n before a after (some (some memory, with_cell (spot.before) c cells ring block))
in_place n memory c spot cells ring block before a after held first last same there = (
  some memory,
  with_cell (spot.before) c cells ring block,
  refl,
  held-IsValid c (spot.before) cells ring block held,
  (
    before,
    allocation (words_of (spot.before)) c,
    after,
    refl,
    allocations-with_cell c (spot.before) cells ring block (held.busy)
        ∙ ap
            (λ l.
              l
              ++ allocation (words_of (spot.before)) c
                ∷ allocations_from (words_of (spot.before) + c.n_words) cells)
            first
        ∙ ap (λ l. before ++ allocation (words_of (spot.before)) c ∷ l) last,
    there,
    same,
  ),
)
