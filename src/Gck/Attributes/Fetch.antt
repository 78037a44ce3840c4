-- ===== src/Gck/Attributes/Fetch.antt =====
-- The two calls around C_GetAttributeValue in gck/gck-attributes.c: the first empties the attributes, so
-- that the PKCS#11 module can tell their lengths, the second gives them blocks of these lengths, which
-- the module fills. `fresh` is what the memory of the allocator holds, so many bytes of it. A size is 64
-- bits wide.
pub mod Rooms
use mathlib.Core.Option
use gcr.Shared.{
  ℕ, ◌+◌, ◌-◌, ◌%◌, ◌^◌, Bool, true, false, ◌||◌, Option, none, some, List, [], ◌∷◌, ◌++◌, length,
  ◌==◌,
}
use gcr.Gck.Attributes.{Block, Cell, Heap, Attribute, max_ulong}
use gcr.Gck.Attributes.Builder.{Builder, release}

-- MAX_ALIGN
abbrev pub max_align : ℕ
max_align = 16

-- What is behind the counter in the memory that is asked for, whose size may wrap. No bytes at all, for
-- which the allocator gives NULL and the assertion behind it fails, are a block without bytes here.
abbrev pub blank_len : ℕ → ℕ
blank_len n = (n + max_align) % 2 ^ 64 - max_align

unfoldable pub value_blank : (ℕ → List ℕ) → ℕ → Bool → Heap → ℕ × Heap
value_blank fresh n secure heap =
    let cell : Cell = record {
      block = record { bytes = fresh (blank_len n); secure = secure };
      refs = 1;
    } in
    (length heap, heap ++ cell ∷ [])

abbrev pub emptied : Attribute → Attribute
emptied attr = record attr { value = none; len = 0 }

unfoldable pub prepare_each : List Attribute → Heap → Option Heap
prepare_each [] heap = some heap
prepare_each (attr ∷ attrs) heap = Option.bind (release (attr.value) heap) (prepare_each attrs)

abbrev pub emptied_all : List Attribute → List Attribute
emptied_all [] = []
emptied_all (attr ∷ attrs) = emptied attr ∷ emptied_all attrs

unfoldable pub prepare_in : Builder → Option Builder
prepare_in builder =
    Option.map (λ heap. record builder { heap = heap; attrs = emptied_all (builder.attrs) })
      (prepare_each (builder.attrs) (builder.heap))

-- No block for an empty attribute and for one that the module has not.
abbrev pub blank_of : Bool → (ℕ → List ℕ) → Bool → ℕ → Heap → Option ℕ × Heap
blank_of true fresh secure n heap = (none, heap)
blank_of false fresh secure n heap =
    let new = value_blank fresh n secure heap in (some (new.0), new.1)

unfoldable pub commit_each : (ℕ → List ℕ) → Bool → List Attribute → Heap → List Attribute × Heap
commit_each fresh secure [] heap = ([], heap)
commit_each fresh secure (attr ∷ attrs) heap =
    let made = blank_of (attr.len == 0 || attr.len == max_ulong) fresh secure (attr.len) heap in
    let rest = commit_each fresh secure attrs (made.1) in
    (record attr { value = made.0 } ∷ rest.0, rest.1)

unfoldable pub commit_in : (ℕ → List ℕ) → Builder → Builder
commit_in fresh builder =
    let committed = commit_each fresh (builder.secure) (builder.attrs) (builder.heap) in
    record builder { heap = committed.1; attrs = committed.0 }
