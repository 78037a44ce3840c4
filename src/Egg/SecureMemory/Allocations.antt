-- ===== src/Egg/SecureMemory/Allocations.antt =====
-- A block of egg/egg-secure-memory.c as its callers see it: the pieces of memory that are in use.
use gcr.Shared.{
  ℕ, ◌+◌, ◌≡◌, refl, sym, ap, ◌∙◌, inl, inr, false, Option, List, [], ◌∷◌, ◌++◌, if◌then◌else◌,
  arith, take, Bool-cases, append-nil, append_assoc,
}
use gcr.Egg.SecureMemory.{Byte, Cell, Block, Spot, unzip, words_of, is_unused}

-- A piece of memory: its address in words, the bytes that were asked for, and its tag.
pub record Allocation : Type 0 where
  pub address : ℕ
  pub bytes : List Byte
  pub tag : Option (List ℕ)

abbrev pub allocation : ℕ → Cell → Allocation
allocation offset c = record {
  address = offset + 1;
  bytes = take (c.requested) (c.content);
  tag = c.tag;
}

abbrev pub allocation_of : ℕ → Cell → List Allocation
allocation_of offset c = if is_unused c then [] else allocation offset c ∷ []

-- Those of the cells from a word of the block on.
abbrev pub allocations_from : ℕ → List Cell → List Allocation
allocations_from offset [] = []
allocations_from offset (c ∷ cells) =
    allocation_of offset c ++ allocations_from (offset + c.n_words) cells

abbrev pub allocations : Block → List Allocation
allocations block = allocations_from 0 (block.cells)

-- Those of the cells before a place.
abbrev pub earlier : List Cell → List Allocation
earlier [] = []
earlier (c ∷ before) = earlier before ++ allocation_of (words_of before) c

pub add_comm : (a b : ℕ) → a + b ≡ b + a
add_comm a b = omega arith

pub allocations-unzip :
    (before cells : List Cell)
    → allocations_from 0 (unzip before cells)
      ≡ earlier before ++ allocations_from (words_of before) cells
allocations-unzip [] cells = refl
allocations-unzip (c ∷ before) cells =
    rw
      (
        allocations-unzip before (c ∷ cells),
        add_comm (words_of before) (c.n_words),
        append_assoc (earlier before) (allocation_of (words_of before) c)
            (allocations_from (c.n_words + words_of before) cells),
      )
      refl

-- The cell of an allocation.
pub record IsCellOf (before cells : List Cell) (front : List Allocation) (a : Allocation)
    (back : List Allocation) (spot : Spot) : Type 0 where
  pub here : unzip before cells ≡ unzip (spot.before) (spot.cell ∷ spot.after)
  pub used : is_unused (spot.cell) ≡ false
  pub same : allocation (words_of (spot.before)) (spot.cell) ≡ a
  pub in_front : earlier (spot.before) ≡ earlier before ++ front
  pub behind : allocations_from (words_of (spot.before) + (spot.cell).n_words) (spot.after) ≡ back

abbrev Found : List Cell → List Cell → List Allocation → Allocation → List Allocation → Type 0
Found before cells front a back = (spot : Spot) × IsCellOf before cells front a back spot

-- A cell that is passed over.
Found-later :
    (c : Cell) (before cells : List Cell) (first front : List Allocation) (a : Allocation)
    (back : List Allocation)
    → allocation_of (words_of before) c ≡ first
    → Found (c ∷ before) cells front a back
    → Found before (c ∷ cells) (first ++ front) a back
Found-later c before cells first front a back e (spot, found) = (
  spot,
  record {
    here = found.here;
    used = found.used;
    same = found.same;
    in_front =
        found.in_front
        ∙ append_assoc (earlier before) (allocation_of (words_of before) c) front
        ∙ ap (λ f. earlier before ++ (f ++ front)) e;
    behind = found.behind;
  },
)

later_in :
    (c : Cell) (before cells : List Cell) (xs : List Allocation)
    → allocations_from (words_of before + c.n_words) cells ≡ xs
    → allocations_from (words_of (c ∷ before)) cells ≡ xs
later_in c before cells xs h =
    ap (λ n. allocations_from n cells) (add_comm (c.n_words) (words_of before)) ∙ h

pub find_cell :
    (before cells : List Cell) (front : List Allocation) (a : Allocation) (back : List Allocation)
    → allocations_from (words_of before) cells ≡ front ++ a ∷ back
    → Found before cells front a back
find_cell before [] [] a back h = cc
find_cell before [] (x ∷ front) a back h = cc
find_cell before (c ∷ cells) [] a back h = elim (Bool-cases (is_unused c)) [
  | inl free ↦
      Found-later c before cells [] [] a back (rw free refl)
        (find_cell (c ∷ before) cells [] a back (later_in c before cells _ (rw free at h)))
  | inr used ↦
      let there : allocation (words_of before) c
            ∷ allocations_from (words_of before + c.n_words) cells
          ≡ a ∷ back =
        rw used at h in
      (
        record { before = before; cell = c; after = cells },
        record {
          here = refl;
          used = used;
          same = cc there;
          in_front = sym (append-nil (earlier before));
          behind = cc there;
        },
      )
]
find_cell before (c ∷ cells) (x ∷ front) a back h = elim (Bool-cases (is_unused c)) [
  | inl free ↦
      Found-later c before cells [] (x ∷ front) a back (rw free refl)
        (find_cell (c ∷ before) cells (x ∷ front) a back (later_in c before cells _ (rw free at h)))
  | inr used ↦
      let there : allocation (words_of before) c
            ∷ allocations_from (words_of before + c.n_words) cells
          ≡ x ∷ (front ++ a ∷ back) =
        rw used at h in
      Found-later c before cells (x ∷ []) front a back (rw used (cc there))
        (find_cell (c ∷ before) cells front a back (later_in c before cells _ (cc there)))
]
