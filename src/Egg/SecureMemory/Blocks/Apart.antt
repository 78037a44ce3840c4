-- ===== src/Egg/SecureMemory/Blocks/Apart.antt =====
-- That the blocks of egg/egg-secure-memory.c have different words after a call, too.
use mathlib.Core.Option.{some-injective, none-ne-some}
use mathlib.Core.Path.{subst}
use gcr.Shared.{
  ℕ, ◌+◌, ◌-◌, ◌/◌, ◌≡◌, refl, ap, inl, inr, Bool, true, false, ◌||◌, Option, none, some, List, [],
  ◌∷◌, ◌==◌, ltb, All, Bool-cases, Option-cases,
}
use gcr.Egg.SecureMemory.{Block}
use gcr.Egg.SecureMemory.Alloc.{sec_alloc}
use gcr.Egg.SecureMemory.Free.{sec_free}
use gcr.Egg.SecureMemory.Blocks.{
  Placed, System, alloc_next, alloc_among, alloc_new, or_new, or_fallback, tag_of, Given,
  egg_secure_alloc_full, sec_is_valid_word, Freed, failed, missing, freed, behind,
  sec_block_destroy, free_in, free_among, or_elsewhere, egg_secure_free_full,
}
use gcr.Egg.SecureMemory.Blocks.New.{created, sec_block_create_cases}
use gcr.Egg.SecureMemory.Blocks.Free.{AllApart}
use gcr.Egg.SecureMemory.Blocks.Pieces.{AreApart}
use gcr.Egg.SecureMemory.Blocks.Spans.{
  sec_alloc-n_words, sec_free-n_words, SameSpans, SameSpans-refl, AllApart-SameSpans, All-AreApart,
}

abbrev Answer : Type 0
Answer = Option ℕ × List Placed

same_blocks : (r s : Answer) (P : List Placed → Type 0) → some r ≡ some s → P (r.1) → P (s.1)
same_blocks r s P e p = subst (λ t. P (t.1)) (some-injective r s e) p

alloc_next-SameSpans :
    (b : Placed) (m : Option ℕ) (block : Block) (blocks : List Placed) (rest : Option Answer)
    (result : Answer)
    → block.n_words ≡ (b.block).n_words
    → ((r : Answer) → rest ≡ some r → SameSpans blocks (r.1))
    → alloc_next b m block blocks rest ≡ some result
    → SameSpans (b ∷ blocks) (result.1)
unfolding alloc_next
alloc_next-SameSpans b (some m) block blocks rest result same all e =
    same_blocks (some (b.words + m), record b { block = block } ∷ blocks) result
      (SameSpans (b ∷ blocks)) e (refl, same, SameSpans-refl blocks)
alloc_next-SameSpans b none block blocks none result same all e = absurd (none-ne-some _ e)
alloc_next-SameSpans b none block blocks (some r) result same all e =
    same_blocks (r.0, record b { block = block } ∷ r.1) result (SameSpans (b ∷ blocks)) e
      (refl, same, all r refl)

alloc_among-SameSpans :
    (pool : ℕ → Option ℕ) (tag : List ℕ) (n : ℕ) (blocks : List Placed) (result : Answer)
    → alloc_among pool tag n blocks ≡ some result
    → SameSpans blocks (result.1)
unfolding alloc_among
alloc_among-SameSpans pool tag n [] result e = same_blocks (none, []) result (SameSpans []) e tt
alloc_among-SameSpans pool tag n (b ∷ blocks) result e =
    elim (Option-cases (sec_alloc (pool (b.words)) tag n (b.block))) [
      | inl nowhere ↦ absurd (none-ne-some _ (rw (alloc_among, nowhere) at e))
      | inr (r, given) ↦
          alloc_next-SameSpans b (r.0) (r.1) blocks (alloc_among pool tag n blocks) result
            (sec_alloc-n_words (pool (b.words)) tag n (b.block) (r.0) (r.1) given)
            (λ s h. alloc_among-SameSpans pool tag n blocks s h) (rw (alloc_among, given) at e)
    ]

-- The pages of a new block are none of those that are there.
abbrev pub IsUnmapped : System → ℕ → List Placed → Type 0
IsUnmapped system n blocks =
    (words item : ℕ)
    → system.pages ≡ some words
    → All (AreApart (created system n words item)) blocks

alloc_new-AllApart :
    (system : System) (tag : List ℕ) (n : ℕ) (blocks : List Placed) (result : Answer)
    → IsUnmapped system n blocks
    → AllApart blocks
    → alloc_new system tag n blocks ≡ some result
    → AllApart (result.1)
unfolding alloc_new
alloc_new-AllApart system tag n blocks result unmapped apart e =
    elim (sec_block_create_cases system n) [
      | inl nothing ↦
          same_blocks (none, blocks) result AllApart (rw (alloc_new, nothing) at e) apart
      | inr (words, item, mapped, there, made) ↦
          let b = created system n words item in
          elim (Option-cases (sec_alloc (system.pool words) tag n (b.block))) [
            | inl nowhere ↦ absurd (none-ne-some _ (rw (alloc_new, made, nowhere) at e))
            | inr (r, given) ↦
                AllApart-SameSpans (b ∷ blocks) (result.1)
                  (alloc_next-SameSpans b (r.0) (r.1) blocks (some (none, blocks)) result
                    (sec_alloc-n_words (system.pool words) tag n (b.block) (r.0) (r.1) given)
                    (λ s h.
                      same_blocks (none, blocks) s (SameSpans blocks) h (SameSpans-refl blocks))
                    (rw (alloc_new, made, given) at e))
                  (unmapped words item mapped, apart)
          ]
    ]

moved-IsUnmapped :
    (system : System) (n : ℕ) (blocks blocks' : List Placed)
    → SameSpans blocks blocks'
    → IsUnmapped system n blocks
    → IsUnmapped system n blocks'
moved-IsUnmapped system n blocks blocks' s h words item mapped =
    let b = created system n words item in
    All-AreApart b b blocks blocks' refl refl s (h words item mapped)

or_new-AllApart :
    (system : System) (tag : List ℕ) (n : ℕ) (m : Option ℕ) (blocks : List Placed) (result : Answer)
    → IsUnmapped system n blocks
    → AllApart blocks
    → or_new system tag n (m, blocks) ≡ some result
    → AllApart (result.1)
or_new-AllApart system tag n (some m) blocks result unmapped apart e =
    same_blocks (some m, blocks) result AllApart e apart
or_new-AllApart system tag n none blocks result unmapped apart e =
    alloc_new-AllApart system tag n blocks result unmapped apart e

pub alloc_full-AllApart :
    (system : System) (tag : Option (List ℕ)) (n : ℕ) (use_fallback : Bool) (blocks : List Placed)
    (given : Given) (blocks' : List Placed)
    → IsUnmapped system n blocks
    → AllApart blocks
    → egg_secure_alloc_full system tag n use_fallback blocks ≡ some (given, blocks')
    → AllApart blocks'
unfolding egg_secure_alloc_full
alloc_full-AllApart system tag n use_fallback blocks given blocks' unmapped apart e =
    elim (Bool-cases (ltb (0xffffffff / 2) n || n == 0)) [
      | inl refused ↦
          subst AllApart (ap (λ r. r.1) (some-injective _ (given, blocks') (rw refused at e))) apart
      | inr sane ↦ elim (Option-cases (alloc_among (system.pool) (tag_of tag) n blocks)) [
        | inl nowhere ↦ absurd (none-ne-some _ (rw (egg_secure_alloc_full, sane, nowhere) at e))
        | inr (among, there) ↦
            let s = alloc_among-SameSpans (system.pool) (tag_of tag) n blocks among there in
            elim (Option-cases (or_new system (tag_of tag) n among)) [
              | inl nothing ↦
                  absurd (none-ne-some _ (rw (egg_secure_alloc_full, sane, there, nothing) at e))
              | inr (r, new) ↦
                  subst AllApart
                    (ap (λ t. t.1)
                      (some-injective (or_fallback (system.fallback) use_fallback n (r.0), r.1)
                        (given, blocks') (rw (egg_secure_alloc_full, sane, there, new) at e)))
                    (or_new-AllApart system (tag_of tag) n (among.0) (among.1) r
                      (moved-IsUnmapped system n blocks (among.1) s unmapped)
                      (AllApart-SameSpans blocks (among.1) s apart) new)
            ]
      ]
    ]

-- The blocks that are left are blocks that were there.
abbrev pub IsKept : List Placed → List Placed → Type 0
IsKept blocks left =
    (AllApart blocks → AllApart left)
    × ((c : Placed) → All (AreApart c) blocks → All (AreApart c) left)

pub freed_blocks : (xs ys : List Placed) → freed xs ≡ freed ys → xs ≡ ys
freed_blocks xs ys e = cc

destroyed :
    (b : Placed) (ring : List ℕ) (blocks left : List Placed)
    → (b.block).used_cells ≡ ring
    → sec_block_destroy b blocks ≡ freed left
    → blocks ≡ left
unfolding sec_block_destroy
destroyed b [] blocks left h e = freed_blocks blocks left (rw (sec_block_destroy, h) at e)
destroyed b (item ∷ ring) blocks left h e = absurd (cc (rw (sec_block_destroy, h) at e))

free_in-IsKept :
    (b : Placed) (memory : ℕ) (blocks left : List Placed)
    → free_in b memory blocks ≡ freed left
    → IsKept (b ∷ blocks) left
unfolding free_in sec_block_destroy
free_in-IsKept b memory blocks left e =
    elim (Option-cases (sec_free (memory - b.words) (b.block))) [
      | inl nowhere ↦ absurd (cc (rw (free_in, nowhere) at e))
      | inr (block, given) ↦
          let b' = record b { block = block } in
          let same = sec_free-n_words (memory - b.words) (b.block) block given in
          let s : SameSpans (b ∷ blocks) (b' ∷ blocks) = (refl, same, SameSpans-refl blocks) in
          elim (Bool-cases (block.n_used == 0)) [
            | inl empty ↦
                subst (IsKept (b ∷ blocks))
                  (destroyed b' (block.used_cells) blocks left refl
                    (rw (free_in, given, empty) at e))
                  ((λ a. a.1), λ c a. a.1)
            | inr kept ↦
                subst (IsKept (b ∷ blocks))
                  (freed_blocks (b' ∷ blocks) left (rw (free_in, given, kept) at e))
                  (
                    AllApart-SameSpans (b ∷ blocks) (b' ∷ blocks) s,
                    λ c a. All-AreApart c c (b ∷ blocks) (b' ∷ blocks) refl refl s a,
                  )
          ]
    ]

kept_behind :
    (b : Placed) (result : Freed) (blocks left : List Placed)
    → behind b result ≡ freed left
    → ((rest : List Placed) → result ≡ freed rest → IsKept blocks rest)
    → IsKept (b ∷ blocks) left
kept_behind b failed blocks left e h = absurd (cc e)
kept_behind b missing blocks left e h = absurd (cc e)
kept_behind b (freed rest) blocks left e h =
    let (apart, all) = h rest refl in
    subst (IsKept (b ∷ blocks)) (freed_blocks (b ∷ rest) left e)
      ((λ a. (all b a.0, apart a.1)), λ c a. (a.0, all c a.1))

free_among-IsKept :
    (memory : ℕ) (blocks left : List Placed)
    → free_among memory blocks ≡ freed left
    → IsKept blocks left
unfolding free_among
free_among-IsKept memory [] left e = absurd (cc e)
free_among-IsKept memory (b ∷ blocks) left e = elim (Bool-cases (sec_is_valid_word b memory)) [
  | inl here ↦ free_in-IsKept b memory blocks left (rw (free_among, here) at e)
  | inr there ↦
      kept_behind b (free_among memory blocks) blocks left (rw (free_among, there) at e)
        (λ rest h. free_among-IsKept memory blocks rest h)
]

elsewhere :
    (given : Bool) (blocks : List Placed) (result : Freed) (left : List Placed)
    → or_elsewhere given blocks result ≡ freed left
    → ((rest : List Placed) → result ≡ freed rest → IsKept blocks rest)
    → IsKept blocks left
elsewhere given blocks failed left e h = absurd (cc e)
elsewhere true blocks missing left e h =
    subst (IsKept blocks) (freed_blocks blocks left e) ((λ a. a), λ c a. a)
elsewhere false blocks missing left e h = absurd (cc e)
elsewhere given blocks (freed rest) left e h =
    subst (IsKept blocks) (freed_blocks rest left e) (h rest refl)

pub free_full-IsKept :
    (given : Bool) (memory : ℕ) (blocks left : List Placed)
    → egg_secure_free_full given (some memory) blocks ≡ freed left
    → IsKept blocks left
unfolding egg_secure_free_full
free_full-IsKept given memory blocks left e =
    elsewhere given blocks (free_among memory blocks) left e
      (λ rest h. free_among-IsKept memory blocks rest h)
