-- ===== src/Egg/SecureMemory/Cells.antt =====
-- The lists of cells of egg/egg-secure-memory.c: sums over them, and the places in them.
use mathlib.Core.Path.{subst}
use mathlib.Core.Option.{some-injective}
use gcr.Shared.{
  ℕ, ◌+◌, ◌-◌, ◌<◌, ◌≡◌, refl, inl, inr, some, List, [], ◌∷◌, ◌==◌, if◌then◌else◌, arith, All,
  Bool-cases, ==_iff, ne→==_false,
}
use gcr.Egg.SecureMemory.{Cell, Spot, unzip, locate, cell_at, words_of, is_unused}

abbrev pub total : (Cell → ℕ) → List Cell → ℕ
total f [] = 0
total f (c ∷ cells) = f c + total f cells

pub total-unzip :
    (f : Cell → ℕ) (before cells : List Cell)
    → total f (unzip before cells) ≡ total f before + total f cells
total-unzip f [] cells = omega arith
total-unzip f (c ∷ before) cells = omega (arith, total-unzip f before (c ∷ cells))

pub All-unzip :
    (P : Cell → Type 0) (before cells : List Cell)
    → All P before
    → All P cells
    → All P (unzip before cells)
All-unzip P [] cells p q = q
All-unzip P (c ∷ before) cells p q = All-unzip P before (c ∷ cells) p.1 (p.0, q)

pub All-zip :
    (P : Cell → Type 0) (before cells : List Cell)
    → All P (unzip before cells)
    → All P before × All P cells
All-zip P [] cells p = (tt, p)
All-zip P (c ∷ before) cells p = let (b, q) = All-zip P before (c ∷ cells) p in ((q.0, b), q.1)

-- How often the first of the cells and the first of the others are both unused.
abbrev pub meet : List Cell → List Cell → ℕ
meet [] ys = 0
meet (a ∷ xs) [] = 0
meet (a ∷ xs) (b ∷ ys) = if is_unused a then (if is_unused b then 1 else 0) else 0

-- The number of unused cells that an unused one follows.
abbrev pub pairs : List Cell → ℕ
pairs [] = 0
pairs (c ∷ cells) = meet (c ∷ []) cells + pairs cells

meet-back : (c : Cell) (before : List Cell) → meet (c ∷ []) before ≡ meet before (c ∷ [])
meet-back c [] = refl
meet-back c (d ∷ before) = ground arith

meet_head : (c : Cell) (before cells : List Cell) → meet before (c ∷ cells) ≡ meet before (c ∷ [])
meet_head c [] cells = refl
meet_head c (d ∷ before) cells = refl

meet_front : (c : Cell) (before cells : List Cell) → meet (c ∷ before) cells ≡ meet (c ∷ []) cells
meet_front c before [] = refl
meet_front c before (d ∷ cells) = refl

pub pairs-unzip :
    (before cells : List Cell)
    → pairs (unzip before cells) ≡ pairs before + meet before cells + pairs cells
pairs-unzip [] cells = omega arith
pairs-unzip (c ∷ before) cells = omega (
  arith,
  pairs-unzip before (c ∷ cells),
  meet-back c before,
  meet_head c before cells,
  meet_front c before cells,
)

-- A place is one of a list of cells.
abbrev pub IsSpot : List Cell → Spot → Type 0
IsSpot cells spot = cells ≡ unzip (spot.before) (spot.cell ∷ spot.after)

pub cell_at-IsSpot :
    (offset : ℕ) (before cells : List Cell) (spot : Spot)
    → cell_at offset before cells ≡ some spot
    → IsSpot (unzip before cells) spot
unfolding cell_at
cell_at-IsSpot offset before [] spot h = cc
cell_at-IsSpot offset before (c ∷ cells) spot h = elim (Bool-cases (offset == 0)) [
  | inl here ↦ subst (IsSpot (unzip before (c ∷ cells))) (some-injective _ spot (rw here at h)) refl
  | inr there ↦ cell_at-IsSpot (offset - c.n_words) (c ∷ before) cells spot (rw there at h)
]

pub locate-IsSpot :
    (item : ℕ) (before cells : List Cell) (spot : Spot)
    → locate item before cells ≡ some spot
    → IsSpot (unzip before cells) spot × ((spot.cell).item ≡ item)
unfolding locate
locate-IsSpot item before [] spot h = cc
locate-IsSpot item before (c ∷ cells) spot h = elim (Bool-cases (c.item == item)) [
  | inl here ↦
      subst (λ s. IsSpot (unzip before (c ∷ cells)) s × ((s.cell).item ≡ item))
        (some-injective _ spot (rw here at h)) (refl, (==_iff (c.item) item).0 here)
  | inr there ↦ locate-IsSpot item (c ∷ before) cells spot (rw there at h)
]

order : (a b c : ℕ) → a + b + c ≡ b + (a + c)
order a b c = omega arith

behind : (a b : ℕ) → a + b - a ≡ b
behind a b = omega arith

zero-add : (a : ℕ) → 0 + a ≡ a
zero-add a = omega arith

-- Memory that is preceded by whole cells is found behind them.
pub cell_at-unzip :
    (offset : ℕ) (before cells : List Cell)
    → All (λ c. 0 < c.n_words) before
    → cell_at (words_of before + offset) [] (unzip before cells) ≡ cell_at offset before cells
unfolding cell_at
cell_at-unzip offset [] cells h = rw (zero-add offset) refl
cell_at-unzip offset (c ∷ before) cells h =
    rw
      (
        order (c.n_words) (words_of before) offset,
        cell_at-unzip (c.n_words + offset) before (c ∷ cells) h.1,
        ne→==_false (c.n_words + offset) 0 (λ e. omega arith),
        behind (c.n_words) offset,
      )
      refl

-- Cells by their item in the pool, and those of them that are in use or not.
abbrev pub at_item : ℕ → Cell → ℕ
at_item i c = if c.item == i then 1 else 0

abbrev pub unused_at : ℕ → Cell → ℕ
unused_at i c = if is_unused c then at_item i c else 0

abbrev pub used_at : ℕ → Cell → ℕ
used_at i c = if is_unused c then 0 else at_item i c

pub total-split :
    (i : ℕ) (cells : List Cell)
    → total (at_item i) cells ≡ total (unused_at i) cells + total (used_at i) cells
total-split i [] = refl
total-split i (c ∷ cells) = ground (arith, total-split i cells)

pub locate_found :
    (item : ℕ) (before cells : List Cell)
    → 0 < total (at_item item) cells
    → (spot : Spot) × (locate item before cells ≡ some spot)
unfolding locate
locate_found item before [] h = absurd (omega arith)
locate_found item before (c ∷ cells) h = elim (Bool-cases (c.item == item)) [
  | inl here ↦ (record { before = before; cell = c; after = cells }, rw here refl)
  | inr there ↦
      let later : 0 < 0 + total (at_item item) cells = rw there at h in
      rw there (locate_found item (c ∷ before) cells (omega arith))
]
