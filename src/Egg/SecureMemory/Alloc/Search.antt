-- ===== src/Egg/SecureMemory/Alloc/Search.antt =====
-- The search for an unused cell in sec_alloc of egg/egg-secure-memory.c.
use gcr.Shared.{
  ℕ, ◌≤◌, ◌<◌, ◌≡◌, refl, ap, ◌∙◌, inl, inr, true, none, some, List, [], ◌∷◌, ◌==◌, if◌then◌else◌,
  leb, arith, ◌⊎◌, leb→le, ==_refl, Bool-cases,
}
use gcr.Egg.SecureMemory.{Cell, Spot, locate, is_unused}
use gcr.Egg.SecureMemory.Alloc.{first_fit}
use gcr.Egg.SecureMemory.Cells.{
  total, total-unzip, total-split, IsSpot, locate-IsSpot, locate_found, at_item, unused_at, used_at,
}
use gcr.Egg.SecureMemory.Valid.{count}

-- What is known of a place in a block that is in order.
pub located_unused :
    (item : ℕ) (cells : List Cell) (spot : Spot)
    → total (at_item item) cells ≤ 1
    → 0 < total (unused_at item) cells
    → IsSpot cells spot
    → (spot.cell).item ≡ item
    → is_unused (spot.cell) ≡ true
located_unused item cells spot one some_unused at same = elim (Bool-cases (is_unused (spot.cell))) [
  | inl h ↦ h
  | inr used ↦
      let here : used_at item (spot.cell) ≡ 1 = rw (used, same, ==_refl item) refl in
      absurd (
        omega (
          arith,
          here,
          total-split item cells,
          ap (total (used_at item)) at
              ∙ total-unzip (used_at item) (spot.before) (spot.cell ∷ spot.after),
        ))
]

pub at_self : (item : ℕ) → ◌≡◌ {A = ℕ} (if item == item then 1 else 0) 1
at_self item = rw (==_refl item) refl

abbrev pub IsFit : List ℕ → ℕ → List Cell → Spot → Type 0
IsFit ring n_words cells spot =
    IsSpot cells spot
    × (0 < count ((spot.cell).item) ring)
    × (is_unused (spot.cell) ≡ true)
    × (n_words ≤ (spot.cell).n_words)

pub IsFit-later :
    (item : ℕ) (ring : List ℕ) (n_words : ℕ) (cells : List Cell) (spot : Spot)
    → IsFit ring n_words cells spot
    → IsFit (item ∷ ring) n_words cells spot
IsFit-later item ring n_words cells spot (at, among, free, long) = (at, omega arith, free, long)

pub first_fit_step :
    (item : ℕ) (ring : List ℕ) (n_words : ℕ) (cells : List Cell) (spot : Spot)
    → locate item [] cells ≡ some spot
    → first_fit (item ∷ ring) n_words cells ≡ (
        if leb n_words ((spot.cell).n_words)
        then some (some spot)
        else first_fit ring n_words cells)
unfolding first_fit
first_fit_step item ring n_words cells spot e = rw (first_fit, e) refl

-- The search answers with an unused cell that is long enough, or with none.
pub first_fit_finds :
    (ring : List ℕ) (n_words : ℕ) (cells : List Cell)
    → ((i : ℕ) → total (at_item i) cells ≤ 1)
    → ((i : ℕ) → count i ring ≤ total (unused_at i) cells)
    → (first_fit ring n_words cells ≡ some none)
      ⊎ ((spot : Spot) × (first_fit ring n_words cells ≡ some (some spot))
          × IsFit ring n_words cells spot)
unfolding first_fit
first_fit_finds [] n_words cells one among = inl refl
first_fit_finds (item ∷ ring) n_words cells one among =
    let here : 0 < total (unused_at item) cells = omega (arith, among item, at_self item) in
    let (spot, e) = locate_found item [] cells (omega (arith, total-split item cells, here)) in
    let (at, same) = locate-IsSpot item [] cells spot e in
    let free = located_unused item cells spot (one item) here at same in
    elim (Bool-cases (leb n_words ((spot.cell).n_words))) [
      | inl long ↦ inr (
        spot,
        rw (first_fit_step item ring n_words cells spot e, long) refl,
        (at, rw same (omega (arith, at_self item)), free, leb→le _ _ long),
      )
      | inr short ↦ elim (first_fit_finds ring n_words cells one (λ i. omega (arith, among i))) [
        | inl none_fits ↦ inl (rw (first_fit_step item ring n_words cells spot e, short) none_fits)
        | inr (other, found, fit) ↦ inr (
          other,
          rw (first_fit_step item ring n_words cells spot e, short) found,
          IsFit-later item ring n_words cells other fit,
        )
      ]
    ]
