-- ===== src/Egg/SecureMemory/Realloc/Grow.antt =====
-- The loop of sec_realloc of egg/egg-secure-memory.c, which takes words of the neighbours.
use gcr.Shared.{
  ℕ, ◌+◌, ◌-◌, ◌*◌, ◌≤◌, ◌≡◌, refl, ap, ◌∙◌, inl, inr, true, not, ◌||◌, List, [], ◌∷◌, ◌++◌, leb,
  arith, take, Bool-cases, leb_false→lt,
}
use gcr.Egg.SecureMemory.{Cell, Block, waste, guards, is_unused, sec_remove_cell_ring}
use gcr.Egg.SecureMemory.Free.{into_first}
use gcr.Egg.SecureMemory.Realloc.{Growth, grow}
use gcr.Egg.SecureMemory.Cells.{total, at_item}
use gcr.Egg.SecureMemory.Allocations.{allocations_from}
use gcr.Egg.SecureMemory.Realloc.Valid.{IsHeld, eat-IsHeld, steal-IsHeld, take-append_le}

-- A cell holds what another held, and so do those behind it.
pub record SameMemory (c : Cell) (after : List Cell) (g : Growth) : Type 0 where
  pub requested : (g.cell).requested ≡ c.requested
  pub bytes : take (c.requested) ((g.cell).content) ≡ take (c.requested) (c.content)
  pub tag : (g.cell).tag ≡ c.tag
  pub later :
      (offset : ℕ)
      → allocations_from (offset + (g.cell).n_words) (g.after)
        ≡ allocations_from (offset + c.n_words) after
  pub items :
      (i : ℕ)
      → at_item i (g.cell) + total (at_item i) (g.after) ≤ at_item i c + total (at_item i) after

abbrev Grows : Cell → List Cell → List Cell → Block → Growth → Type 0
Grows c before after block g =
    IsHeld (g.cell) before (g.after) (g.ring) block × SameMemory c after g

unchanged :
    (c : Cell) (before after : List Cell) (ring : List ℕ) (block : Block)
    → IsHeld c before after ring block
    → Grows c before after block (record { cell = c; after = after; ring = ring })
unchanged c before after ring block h = (
  h,
  record {
    requested = refl;
    bytes = refl;
    tag = refl;
    later = λ offset. refl;
    items = λ i. omega arith;
  },
)

same_later :
    (offset c_words other_words : ℕ) (other : Cell) (after : List Cell)
    → is_unused other ≡ true
    → other.n_words ≡ other_words
    → allocations_from (offset + (c_words + other_words)) after
      ≡ allocations_from (offset + c_words) (other ∷ after)
same_later offset c_words other_words other after free e =
    rw free (ap (λ n. allocations_from n after) (omega arith))

-- The cell holds what it held, and the words are those of the cell and of unused neighbours.
pub grow-Grows :
    (n_words : ℕ) (c : Cell) (before after : List Cell) (ring : List ℕ) (block : Block)
    → IsHeld c before after ring block
    → Grows c before after block (grow n_words c after ring)
unfolding grow
grow-Grows n_words c before [] ring block h = unchanged c before [] ring block h
grow-Grows n_words c before (other ∷ after) ring block h =
    let k = n_words - c.n_words in
    elim (Bool-cases (leb n_words (c.n_words) || not (is_unused other))) [
      | inl stop ↦ rw stop (unchanged c before (other ∷ after) ring block h)
      | inr more ↦
          let free : is_unused other ≡ true = ground arith in
          elim (Bool-cases (leb (other.n_words) (k + waste))) [
            | inl whole ↦
                let (held, same) =
                  grow-Grows n_words (into_first c other) before after
                    (sec_remove_cell_ring (other.item) ring) block
                    (eat-IsHeld c other before after ring block free h) in
                rw (more, whole)
                  (
                    held,
                    record {
                      requested = same.requested;
                      bytes =
                          same.bytes
                          ∙ take-append_le (c.requested) (c.content) (guards ++ other.content)
                              ((h.fits).holds);
                      tag = same.tag;
                      later = λ offset.
                          same.later offset
                          ∙ same_later offset (c.n_words) (other.n_words) other after free refl;
                      items = λ i. omega (arith, same.items i);
                    },
                  )
            | inr part ↦
                let much : k + 2 ≤ other.n_words = omega (arith, leb_false→lt _ _ part) in
                rw (more, part)
                  (
                    steal-IsHeld k c other before after ring block free much h,
                    record {
                      requested = refl;
                      bytes =
                          take-append_le (c.requested) (c.content)
                            (take (8 * k) (guards ++ other.content)) ((h.fits).holds);
                      tag = refl;
                      later = λ offset. rw free (ap (λ n. allocations_from n after) (omega arith));
                      items = λ i. omega arith;
                    },
                  )
          ]
    ]
