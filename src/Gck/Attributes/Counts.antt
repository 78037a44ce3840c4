-- ===== src/Gck/Attributes/Counts.antt =====
-- The counters of the values in gck/gck-attributes.c, against the attributes that have them.
use gcr.Shared.{
  ℕ, zero, suc, ◌+◌, ◌<◌, ◌≡◌, refl, Bool, true, false, Option, none, some, List, [], ◌∷◌, ◌++◌,
  length, ◌==◌, if◌then◌else◌, arith,
}
use gcr.Gck.Attributes.{
  Block, Cell, Heap, refs_at, set_refs, value_new, value_ref, value_unref, Attribute, max_ulong,
}
use gcr.Gck.Attributes.Builder.{
  Written, builder_clear, copied_value, copy_of, share_of, release, shared,
}

-- 1 where the value is the block.
abbrev pub holds : ℕ → Option ℕ → ℕ
holds p none = 0
holds p (some q) = if q == p then 1 else 0

abbrev pub count : ℕ → List Attribute → ℕ
count p [] = 0
count p (attr ∷ attrs) = holds p (attr.value) + count p attrs

pub count-append : (p : ℕ) (xs ys : List Attribute) → count p (xs ++ ys) ≡ count p xs + count p ys
count-append p [] ys = omega arith
count-append p (x ∷ xs) ys = omega (arith, count-append p xs ys)

-- A block that is in use.
abbrev pub IsLive : Heap → Option ℕ → Type 0
IsLive heap none = Unit
IsLive heap (some p) = 0 < refs_at heap p

refs_at-set_refs :
    (heap : Heap) (p q refs : ℕ)
    → 0 < refs_at heap p
    → refs_at (set_refs heap p refs) q ≡ (if p == q then refs else refs_at heap q)
refs_at-set_refs [] p q refs h = absurd (omega arith)
refs_at-set_refs (cell ∷ heap) zero zero refs h = refl
refs_at-set_refs (cell ∷ heap) zero (suc q) refs h = ground arith
refs_at-set_refs (cell ∷ heap) (suc p) zero refs h = ground arith
refs_at-set_refs (cell ∷ heap) (suc p) (suc q) refs h =
    ground (arith, refs_at-set_refs heap p q refs h)

pub refs_at_new :
    (heap : Heap) (cell : Cell) (q : ℕ)
    → cell.refs ≡ 1
    → refs_at (heap ++ cell ∷ []) q ≡ refs_at heap q + holds q (some (length heap))
refs_at_new [] cell zero h = ground arith
refs_at_new [] cell (suc q) h = ground arith
refs_at_new (c ∷ heap) cell zero h = ground arith
refs_at_new (c ∷ heap) cell (suc q) h = ground (arith, refs_at_new heap cell q h)

positive : (n : ℕ) → 0 < n → (k : ℕ) × (n ≡ suc k)
positive zero h = absurd (omega arith)
positive (suc k) h = (k, refl)

-- What is made counts itself once more.
abbrev pub IsMade : Heap → Written × Heap → Type 0
IsMade heap made = (q : ℕ) → refs_at (made.1) q ≡ refs_at heap q + holds q ((made.0).0)

-- A heap from which one use of a value is gone.
abbrev pub IsReleased : Heap → Option ℕ → Heap → Type 0
IsReleased heap value heap' = (q : ℕ) → refs_at heap' q + holds q value ≡ refs_at heap q

copy_of-IsMade :
    (huge : Bool) (source : Option Block) (secure : Bool) (n : ℕ) (heap : Heap)
    → IsMade heap (copy_of huge source secure n heap)
unfolding value_new
copy_of-IsMade true source secure n heap q = omega arith
copy_of-IsMade false none secure n heap q = omega arith
copy_of-IsMade false (some block) secure n heap q = refs_at_new heap _ q refl

pub copied_value-IsMade :
    (secure : Bool) (source : Option Block) (n : ℕ) (heap : Heap)
    → IsMade heap (copied_value secure source n heap)
unfolding copied_value
copied_value-IsMade secure source n heap = copy_of-IsMade (n == max_ulong) source secure n heap

ref_step :
    (heap : Heap) (p refs : ℕ)
    → refs_at heap p ≡ suc refs
    → IsMade heap ((some p, 0), set_refs heap p (suc (suc refs)))
ref_step heap p refs e q = ground (arith, refs_at-set_refs heap p q (suc (suc refs)) (omega arith))

unref_step :
    (heap : Heap) (p refs : ℕ)
    → refs_at heap p ≡ suc refs
    → IsReleased heap (some p) (set_refs heap p refs)
unref_step heap p refs e q = ground (arith, refs_at-set_refs heap p q refs (omega arith))

share_of-IsMade :
    (huge : Bool) (value : Option ℕ) (n : ℕ) (heap : Heap)
    → IsLive heap value
    → IsMade heap (share_of huge value n heap)
unfolding value_ref
share_of-IsMade true value n heap live q = omega arith
share_of-IsMade false none n heap live q = omega arith
share_of-IsMade false (some p) n heap live q =
    let (refs, e) = positive (refs_at heap p) live in rw (value_ref, e) (ref_step heap p refs e q)

pub shared-IsMade :
    (attr : Attribute) (heap : Heap) → IsLive heap (attr.value) → IsMade heap (shared attr heap)
unfolding shared
shared-IsMade attr heap = share_of-IsMade (attr.len == max_ulong) (attr.value) (attr.len) heap

pub release-IsReleased :
    (value : Option ℕ) (heap : Heap)
    → IsLive heap value
    → (heap' : Heap) × (release value heap ≡ some heap') × IsReleased heap value heap'
unfolding value_unref
release-IsReleased none heap live = (heap, refl, λ q. omega arith)
release-IsReleased (some p) heap live =
    let (refs, e) = positive (refs_at heap p) live in
    (set_refs heap p refs, rw (value_unref, e) refl, unref_step heap p refs e)

pub builder_clear-IsReleased :
    (attr : Attribute) (heap : Heap)
    → IsLive heap (attr.value)
    → (heap' : Heap) × (builder_clear attr heap ≡ some heap') × IsReleased heap (attr.value) heap'
unfolding builder_clear
builder_clear-IsReleased attr heap = release-IsReleased (attr.value) heap
