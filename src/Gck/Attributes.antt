-- ===== src/Gck/Attributes.antt =====
-- The values and the attributes of gck/gck-attributes.c. A value is a block with a counter in front that
-- several attributes can share; the heap is the list of all the blocks there have been, a block's number
-- is its place, and one that was freed has the counter 0. Fewer than 2^31 attributes share a block.
pub mod Builder
pub mod Counts
pub mod Finds
pub mod Fetch
pub mod Sharing
use gcr.Shared.{
  ℕ, zero, suc, ◌+◌, ◌-◌, ◌^◌, Bool, true, false, ◌&&◌, Option, none, some, List, [], ◌∷◌, ◌++◌,
  length, take, get_elem?, same_bytes, ◌==◌, if◌then◌else◌,
}

pub record Block : Type 0 where
  pub bytes : List ℕ
  pub secure : Bool

pub record Cell : Type 0 where
  pub block : Block
  pub refs : ℕ

abbrev pub Heap : Type 0
Heap = List Cell

-- The counter of a block, 0 where there is none.
abbrev pub refs_at : Heap → ℕ → ℕ
refs_at [] p = 0
refs_at (cell ∷ heap) zero = cell.refs
refs_at (cell ∷ heap) (suc p) = refs_at heap p

abbrev pub set_refs : Heap → ℕ → ℕ → Heap
set_refs [] p refs = []
set_refs (cell ∷ heap) zero refs = record cell { refs = refs } ∷ heap
set_refs (cell ∷ heap) (suc p) refs = cell ∷ set_refs heap p refs

-- `length` bytes of a block, in secure memory where that is asked for.
unfoldable pub value_new : Block → ℕ → Bool → Heap → ℕ × Heap
value_new source n secure heap =
    let cell : Cell = record {
      block = record { bytes = take n (source.bytes); secure = secure };
      refs = 1;
    } in
    (length heap, heap ++ cell ∷ [])

-- NULL, with a warning, for a block that was freed: the code then reads freed memory, and what it finds
-- there as the counter is taken to be 0.
unfoldable pub value_ref : ℕ → Heap → Option ℕ × Heap
value_ref p heap = elim (refs_at heap p) [
  | zero ↦ (none, heap)
  | suc refs ↦ (some p, set_refs heap p (suc (suc refs)))
]

-- `none` is the release of a block that was freed.
unfoldable pub value_unref : ℕ → Heap → Option Heap
value_unref p heap = elim (refs_at heap p) [ zero ↦ none | suc refs ↦ some (set_refs heap p refs) ]

-- An attribute's value is the number of a block; G_MAXULONG is the length of an invalid one.
pub record Attribute : Type 0 where
  pub attr_type : ℕ
  pub value : Option ℕ
  pub len : ℕ

abbrev pub max_ulong : ℕ
max_ulong = 2 ^ 64 - 1

unfoldable pub is_invalid : Attribute → Bool
is_invalid attr = attr.len == max_ulong

abbrev pub bytes_at : Heap → ℕ → List ℕ
bytes_at [] p = []
bytes_at (cell ∷ heap) zero = (cell.block).bytes
bytes_at (cell ∷ heap) (suc p) = bytes_at heap p

abbrev pub equal_values : Heap → ℕ → Option ℕ → Option ℕ → Bool
equal_values heap n none none = true
equal_values heap n (some p) (some q) =
    same_bytes (take n (bytes_at heap p)) (take n (bytes_at heap q))
equal_values heap n _ _ = false

unfoldable pub attribute_equal : Heap → Attribute → Attribute → Bool
attribute_equal heap aa ab =
    aa.attr_type == ab.attr_type
    && (aa.len == ab.len && equal_values heap (aa.len) (aa.value) (ab.value))

unfoldable pub contains : Heap → List Attribute → Attribute → Bool
contains heap [] match = false
contains heap (attr ∷ attrs) match =
    let rest = contains heap attrs match in if attribute_equal heap attr match then true else rest

unfoldable pub find_attribute : List Attribute → ℕ → Option Attribute
find_attribute [] attr_type = none
find_attribute (attr ∷ attrs) attr_type =
    let rest = find_attribute attrs attr_type in
    if attr.attr_type == attr_type then some attr else rest
