-- ===== src/Egg/SecureMemory/Blocks/Spans.antt =====
-- That the blocks of egg/egg-secure-memory.c keep the words that they have.
use mathlib.Core.Option.{some-injective, none-ne-some}
use gcr.Shared.{
  ℕ, zero, suc, ◌+◌, ◌≡◌, refl, sym, ap, ◌∙◌, inl, inr, not, ◌&&◌, Option, none, some, List, [],
  ◌∷◌, ltb, arith, All, Bool-cases, Option-cases,
}
use gcr.Egg.SecureMemory.{
  Block, Spot, waste, sec_size_to_words, is_clear, is_unused, has_tag, cell_at,
}
use gcr.Egg.SecureMemory.Alloc.{first_fit, use_cell, use_front, sec_steal, sec_alloc}
use gcr.Egg.SecureMemory.Free.{release_cell, is_mergeable, sec_free}
use gcr.Egg.SecureMemory.Blocks.{Placed}
use gcr.Egg.SecureMemory.Blocks.Pieces.{AreApart}
use gcr.Egg.SecureMemory.Blocks.Free.{AllApart}

use_front-n_words :
    (fresh : Option ℕ) (tag : List ℕ) (n n_words : ℕ) (spot : Spot) (block : Block)
    → ((use_front fresh tag n n_words spot block).1).n_words ≡ block.n_words
unfolding use_front use_cell
use_front-n_words none tag n n_words spot block = refl
use_front-n_words (some item) tag n n_words spot block = refl

sec_steal-n_words :
    (fresh : Option ℕ) (tag : List ℕ) (n n_words : ℕ) (spot : Spot) (block : Block)
    → ((sec_steal fresh tag n n_words spot block).1).n_words ≡ block.n_words
unfolding sec_steal use_cell
sec_steal-n_words fresh tag n n_words spot block =
    elim (Bool-cases (ltb (n_words + waste) ((spot.cell).n_words))) [
      | inl much ↦ rw much (use_front-n_words fresh tag n n_words spot block)
      | inr fits ↦ rw fits refl
    ]

same_words : {A : Type 0} (r s : A × Block) → some r ≡ some s → (r.1).n_words ≡ (s.1).n_words
same_words r s e = ap (λ p. (p.1).n_words) (some-injective r s e)

pub sec_alloc-n_words :
    (fresh : Option ℕ) (tag : List ℕ) (n : ℕ) (block : Block) (memory : Option ℕ) (block' : Block)
    → sec_alloc fresh tag n block ≡ some (memory, block')
    → block'.n_words ≡ block.n_words
unfolding sec_alloc
sec_alloc-n_words fresh tag n block memory block' e =
    let n_words = sec_size_to_words n + 2 in
    elim (Option-cases (first_fit (block.unused_cells) n_words (block.cells))) [
      | inl none_found ↦ absurd (none-ne-some _ (rw (sec_alloc, none_found) at e))
      | inr (result, found) ↦ elim (Option-cases result) [
        | inl nothing ↦
            sym (same_words (none, block) (memory, block') (rw (sec_alloc, found, nothing) at e))
        | inr (spot, there) ↦ elim (Bool-cases (is_clear (spot.cell))) [
          | inl clear ↦
              sym (
                same_words (sec_steal fresh tag n n_words spot block) (memory, block')
                  (rw (sec_alloc, found, there, clear) at e))
              ∙ sec_steal-n_words fresh tag n n_words spot block
          | inr mistaken ↦ absurd (none-ne-some _ (rw (sec_alloc, found, there, mistaken) at e))
        ]
      ]
    ]

pub sec_free-n_words :
    (address : ℕ) (block block' : Block)
    → sec_free address block ≡ some block'
    → block'.n_words ≡ block.n_words
unfolding sec_free release_cell
sec_free-n_words zero block block' e = absurd (none-ne-some _ e)
sec_free-n_words (suc word) block block' e = elim (Option-cases (cell_at word [] (block.cells))) [
  | inl nothing ↦ absurd (none-ne-some _ (rw (sec_free, nothing) at e))
  | inr (spot, found) ↦
      elim (Bool-cases (
        not (is_unused (spot.cell))
        && has_tag (spot.cell)
        && is_mergeable (spot.before)
        && is_mergeable (spot.after))) [
          | inl sound ↦
              ap (λ (b : Block). b.n_words)
                (sym (
                  some-injective (release_cell spot block) block'
                    (rw (sec_free, found, sound) at e)))
          | inr wrong ↦ absurd (none-ne-some _ (rw (sec_free, found, wrong) at e))
        ]
]

-- Blocks at the same places.
abbrev pub SameSpans : List Placed → List Placed → Type 0
SameSpans [] [] = Unit {0}
SameSpans [] (c ∷ cs) = ⊥
SameSpans (b ∷ bs) [] = ⊥
SameSpans (b ∷ bs) (c ∷ cs) =
    (c.words ≡ b.words) × ((c.block).n_words ≡ (b.block).n_words) × SameSpans bs cs

pub SameSpans-refl : (blocks : List Placed) → SameSpans blocks blocks
SameSpans-refl [] = tt
SameSpans-refl (b ∷ blocks) = (refl, refl, SameSpans-refl blocks)

AreApart-moved :
    (b c b' c' : Placed)
    → b'.words ≡ b.words
    → (b'.block).n_words ≡ (b.block).n_words
    → c'.words ≡ c.words
    → (c'.block).n_words ≡ (c.block).n_words
    → AreApart b c
    → AreApart b' c'
AreApart-moved b c b' c' e f g h (inl before) = inl (omega arith)
AreApart-moved b c b' c' e f g h (inr after) = inr (omega arith)

pub All-AreApart :
    (b b' : Placed) (bs cs : List Placed)
    → b'.words ≡ b.words
    → (b'.block).n_words ≡ (b.block).n_words
    → SameSpans bs cs
    → All (AreApart b) bs
    → All (AreApart b') cs
All-AreApart b b' [] [] e f s a = tt
All-AreApart b b' [] (c ∷ cs) e f s a = elim s [ ]
All-AreApart b b' (x ∷ bs) [] e f s a = elim s [ ]
All-AreApart b b' (x ∷ bs) (c ∷ cs) e f (g, h, s) a =
    (AreApart-moved b x b' c e f g h a.0, All-AreApart b b' bs cs e f s a.1)

pub AllApart-SameSpans : (bs cs : List Placed) → SameSpans bs cs → AllApart bs → AllApart cs
AllApart-SameSpans [] [] s a = tt
AllApart-SameSpans [] (c ∷ cs) s a = elim s [ ]
AllApart-SameSpans (b ∷ bs) [] s a = elim s [ ]
AllApart-SameSpans (b ∷ bs) (c ∷ cs) (g, h, s) a =
    (All-AreApart b c bs cs g h s a.0, AllApart-SameSpans bs cs s a.1)
