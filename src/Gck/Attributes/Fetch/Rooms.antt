-- ===== src/Gck/Attributes/Fetch/Rooms.antt =====
-- The blocks that a PKCS#11 module fills for gck/gck-attributes.c.
use mathlib.Core.Option
use gcr.Shared.{
  ℕ, ◌+◌, ◌^◌, ◌<◌, ◌≡◌, refl, ap, ◌∙◌, ◌⊎◌, inl, inr, Bool, true, false, ◌||◌, Option, none, some,
  List, [], ◌∷◌, length, ◌==◌, All, arith, length-append,
}
use gcr.Gck.Attributes.{Heap, refs_at, Attribute, max_ulong, bytes_at}
use gcr.Gck.Attributes.Builder.{Builder}
use gcr.Gck.Attributes.Counts.{holds, count, refs_at_new, release-IsReleased}
use gcr.Gck.Attributes.Sharing.{IsCounted, live}
use gcr.Gck.Attributes.Finds.RoundTrip.{bytes_at_old, bytes_at_new}
use gcr.Gck.Attributes.Fetch.{
  blank_len, value_blank, emptied_all, prepare_each, prepare_in, blank_of, commit_each, commit_in,
}

prepare_each-released :
    (attrs : List Attribute) (heap : Heap) (held : ℕ → ℕ)
    → ((p : ℕ) → refs_at heap p ≡ count p attrs + held p)
    → (heap' : Heap) × (prepare_each attrs heap ≡ some heap') × ((p : ℕ) → refs_at heap' p ≡ held p)
unfolding prepare_each Option.bind
prepare_each-released [] heap held h = (heap, refl, λ p. omega (arith, h p))
prepare_each-released (attr ∷ attrs) heap held h =
    let (heap', e, released) =
      release-IsReleased (attr.value) heap (live heap (attr.value) (λ p. omega (arith, h p))) in
    rw e (prepare_each-released attrs heap' held (λ p. omega (arith, h p, released p)))

-- That an attribute has a block of its length in the heap, unless it is empty or invalid.
abbrev pub HasRoom : Heap → Option ℕ → ℕ → Bool → Type 0
HasRoom heap value len true = (value ≡ none)
HasRoom heap none len false = ⊥
HasRoom heap (some p) len false = length (bytes_at heap p) ≡ len

abbrev pub AllRoom : Heap → List Attribute → Type 0
AllRoom heap =
    All (λ attr. HasRoom heap (attr.value) (attr.len) (attr.len == 0 || attr.len == max_ulong))

-- That the length of an attribute is that of an invalid one, or leaves room for the counter in 64 bits.
abbrev pub IsSized : Attribute → Type 0
IsSized attr = (attr.len ≡ max_ulong) ⊎ (attr.len + 16 < 2 ^ 64)

blank_len_fits : (n : ℕ) → n + 16 < 2 ^ 64 → blank_len n ≡ n
blank_len_fits n h = omega arith

-- A length for which a block is asked for.
asked_fits :
    (attr : Attribute)
    → IsSized attr
    → (attr.len == 0 || attr.len == max_ulong) ≡ false
    → attr.len + 16 < 2 ^ 64
asked_fits attr (inl invalid) asked = absurd (ground (arith, invalid, asked))
asked_fits attr (inr small) asked = small

abbrev IsFresh : (ℕ → List ℕ) → Type 0
IsFresh fresh = (n : ℕ) → length (fresh n) ≡ n

-- A heap that keeps the blocks of another one.
abbrev Keeps : Heap → Heap → Type 0
Keeps heap heap' =
    (p : ℕ) → p < length heap → (p < length heap') × (bytes_at heap' p ≡ bytes_at heap p)

blank_of-Keeps :
    (none_asked : Bool) (fresh : ℕ → List ℕ) (secure : Bool) (n : ℕ) (heap : Heap)
    → Keeps heap ((blank_of none_asked fresh secure n heap).1)
unfolding value_blank
blank_of-Keeps true fresh secure n heap p h = (h, refl)
blank_of-Keeps false fresh secure n heap p h =
    let longer =
      length-append heap (
        record { block = record { bytes = fresh (blank_len n); secure = secure }; refs = 1 }
        ∷ []) in
    (omega (arith, longer, h), bytes_at_old heap _ p h)

commit_each-Keeps :
    (fresh : ℕ → List ℕ) (secure : Bool) (attrs : List Attribute) (heap : Heap)
    → Keeps heap ((commit_each fresh secure attrs heap).1)
unfolding commit_each
commit_each-Keeps fresh secure [] heap p h = (h, refl)
commit_each-Keeps fresh secure (attr ∷ attrs) heap p h =
    let asked = attr.len == 0 || attr.len == max_ulong in
    let (inside, same) = blank_of-Keeps asked fresh secure (attr.len) heap p h in
    let (inside', same') =
      commit_each-Keeps fresh secure attrs ((blank_of asked fresh secure (attr.len) heap).1) p
        inside in
    (inside', same' ∙ same)

blank_of-HasRoom :
    (none_asked : Bool) (fresh : ℕ → List ℕ) (secure : Bool) (n : ℕ) (heap heap' : Heap)
    → IsFresh fresh
    → (none_asked ≡ false → n + 16 < 2 ^ 64)
    → Keeps ((blank_of none_asked fresh secure n heap).1) heap'
    → HasRoom heap' ((blank_of none_asked fresh secure n heap).0) n none_asked
unfolding value_blank
blank_of-HasRoom true fresh secure n heap heap' f fits keeps = refl
blank_of-HasRoom false fresh secure n heap heap' f fits keeps =
    let longer =
      length-append heap (
        record { block = record { bytes = fresh (blank_len n); secure = secure }; refs = 1 }
        ∷ []) in
    let (inside, same) = keeps (length heap) (omega (arith, longer)) in
    ap length (same ∙ bytes_at_new heap _) ∙ f (blank_len n) ∙ blank_len_fits n (fits refl)

blank_of-refs :
    (none_asked : Bool) (fresh : ℕ → List ℕ) (secure : Bool) (n : ℕ) (heap : Heap) (p : ℕ)
    → refs_at ((blank_of none_asked fresh secure n heap).1) p
      ≡ refs_at heap p + holds p ((blank_of none_asked fresh secure n heap).0)
unfolding value_blank
blank_of-refs true fresh secure n heap p = omega arith
blank_of-refs false fresh secure n heap p = refs_at_new heap _ p refl

commit_each-refs :
    (fresh : ℕ → List ℕ) (secure : Bool) (attrs : List Attribute) (heap : Heap) (p : ℕ)
    → refs_at ((commit_each fresh secure attrs heap).1) p
      ≡ refs_at heap p + count p ((commit_each fresh secure attrs heap).0)
unfolding commit_each
commit_each-refs fresh secure [] heap p = omega arith
commit_each-refs fresh secure (attr ∷ attrs) heap p =
    let asked = attr.len == 0 || attr.len == max_ulong in
    omega (
      arith,
      blank_of-refs asked fresh secure (attr.len) heap p,
      commit_each-refs fresh secure attrs ((blank_of asked fresh secure (attr.len) heap).1) p,
    )

commit_each-AllRoom :
    (fresh : ℕ → List ℕ) (secure : Bool) (attrs : List Attribute) (heap : Heap)
    → IsFresh fresh
    → All IsSized attrs
    → AllRoom ((commit_each fresh secure attrs heap).1) ((commit_each fresh secure attrs heap).0)
unfolding commit_each
commit_each-AllRoom fresh secure [] heap f sized = tt
commit_each-AllRoom fresh secure (attr ∷ attrs) heap f sized =
    let asked = attr.len == 0 || attr.len == max_ulong in
    let next = (blank_of asked fresh secure (attr.len) heap).1 in
    (
      blank_of-HasRoom asked fresh secure (attr.len) heap _ f (asked_fits attr sized.0)
          (commit_each-Keeps fresh secure attrs next),
      commit_each-AllRoom fresh secure attrs next f sized.1,
    )

commit_in-AllRoom :
    (fresh : ℕ → List ℕ) (builder : Builder) (held : ℕ → ℕ)
    → ((n : ℕ) → length (fresh n) ≡ n)
    → All IsSized (builder.attrs)
    → ((p : ℕ) → refs_at (builder.heap) p ≡ held p)
    → AllRoom ((commit_in fresh builder).heap) ((commit_in fresh builder).attrs)
      × IsCounted (commit_in fresh builder) held
unfolding commit_in
commit_in-AllRoom fresh builder held f sized h = (
  commit_each-AllRoom fresh (builder.secure) (builder.attrs) (builder.heap) f sized,
  λ p. omega (arith, h p, commit_each-refs fresh (builder.secure) (builder.attrs) (builder.heap) p),
)

-- Where a builder's counters are right, the first call releases no freed memory and leaves the attributes
-- in their order without a value. Whatever attributes the module then makes of them, of lengths below
-- 2^64 - 16 or invalid, the second call gives each one a block of its length, unless it is empty or
-- invalid, and the counters are right again.
pub commit_in-prepare_in :
    (fresh : ℕ → List ℕ) (builder : Builder) (attrs : List Attribute) (held : ℕ → ℕ)
    → ((n : ℕ) → length (fresh n) ≡ n)
    → All IsSized attrs
    → IsCounted builder held
    → (prepared : Builder) × (prepare_in builder ≡ some prepared)
      × (prepared.attrs ≡ emptied_all (builder.attrs))
      × AllRoom
          ((commit_in fresh (record prepared { attrs = attrs })).heap)
          ((commit_in fresh (record prepared { attrs = attrs })).attrs)
      × IsCounted (commit_in fresh (record prepared { attrs = attrs })) held
unfolding prepare_in
commit_in-prepare_in fresh builder attrs held f sized h =
    let (heap', e, left) = prepare_each-released (builder.attrs) (builder.heap) held h in
    let (rooms, counted) =
      commit_in-AllRoom fresh (record builder { heap = heap'; attrs = attrs }) held f sized left in
    (
      record builder { heap = heap'; attrs = emptied_all (builder.attrs) },
      rw e refl,
      refl,
      rooms,
      counted,
    )
