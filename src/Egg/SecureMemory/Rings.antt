-- ===== src/Egg/SecureMemory/Rings.antt =====
-- How often a cell is in a ring of egg/egg-secure-memory.c.
use gcr.Shared.{ℕ, ◌+◌, ◌<◌, ◌≡◌, refl, List, [], ◌∷◌, ◌++◌, ◌==◌, if◌then◌else◌, arith}
use gcr.Egg.SecureMemory.{sec_insert_cell_ring, sec_remove_cell_ring}
use gcr.Egg.SecureMemory.Valid.{count}

count-append : (i : ℕ) (xs ys : List ℕ) → count i (xs ++ ys) ≡ count i xs + count i ys
count-append i [] ys = omega arith
count-append i (x ∷ xs) ys = omega (arith, count-append i xs ys)

pub count-insert :
    (i item : ℕ) (ring : List ℕ)
    → count i (sec_insert_cell_ring item ring) ≡ (if item == i then 1 else 0) + count i ring
unfolding sec_insert_cell_ring
count-insert i item [] = refl
count-insert i item (head ∷ ring) = omega (arith, count-append i ring (head ∷ []))

pub count-remove :
    (i item : ℕ) (ring : List ℕ)
    → 0 < count item ring
    → count i ring ≡ (if item == i then 1 else 0) + count i (sec_remove_cell_ring item ring)
unfolding sec_remove_cell_ring
count-remove i item [] h = absurd (omega arith)
count-remove i item (head ∷ ring) h = ground (arith, count-remove i item ring)
