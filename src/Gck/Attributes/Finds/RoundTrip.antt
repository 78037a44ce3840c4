-- ===== src/Gck/Attributes/Finds/RoundTrip.antt =====
-- That what is set in a builder is found in it (gck/gck-attributes.c).
use mathlib.Core.Option
use mathlib.Core.Path.{subst}
use native.Mathlib.Nat.{pow-suc}
use gcr.Shared.{
  ℕ, zero, suc, ◌*◌, ◌/◌, ◌^◌, ◌<◌, ◌≡◌, ◌≢◌, refl, sym, ap, ◌∙◌, inl, inr, ◌⊎◌, Bool, true, false,
  Option, none, some, List, [], ◌∷◌, ◌++◌, length, take, ◌==◌, if◌then◌else◌, arith, Bool-cases,
  ne→==_false, ==_refl, ==_iff,
}
use gcr.Gck.Attributes.{
  Cell, Heap, refs_at, set_refs, value_new, value_unref, Attribute, is_invalid, bytes_at,
  find_attribute,
}
use gcr.Gck.Attributes.Builder.{
  Builder, Slot, Written, fill, builder_push, builder_clear, builder_clear_or_push, release,
  copied_value, with_stored, set_with, set_data, set_ulong, ulong_bytes, on_stack,
}
use gcr.Gck.Attributes.Counts.{holds, count}
use gcr.Gck.Attributes.Sharing.{IsCounted, holds_self, builder_clear_or_push-IsFound}
use gcr.Gck.Attributes.Finds.{le_value, value_to_ulong, read_value, read_attribute, find_ulong}

abbrev OfSome {ℓ} : {A : Type ℓ} → (A → Type 0) → Option A → Type 0
OfSome P none = Unit
OfSome P (some a) = P a

OfSome-map {ℓ κ} :
    {A : Type ℓ} {B : Type κ} (P : A → Type 0) (Q : B → Type 0) (f : A → B) (o : Option A)
    → ((a : A) → P a → Q (f a))
    → OfSome P o
    → OfSome Q (Option.map f o)
OfSome-map P Q f none h p = tt
OfSome-map P Q f (some a) h p = h a p

-- A heap with the same bytes.
abbrev SameBytes : Heap → Heap → Type 0
SameBytes heap heap' = (length heap' ≡ length heap) × ((p : ℕ) → bytes_at heap' p ≡ bytes_at heap p)

length-set_refs : (heap : Heap) (p refs : ℕ) → length (set_refs heap p refs) ≡ length heap
length-set_refs [] p refs = refl
length-set_refs (cell ∷ heap) zero refs = refl
length-set_refs (cell ∷ heap) (suc p) refs = ap suc (length-set_refs heap p refs)

bytes_at-set_refs :
    (heap : Heap) (p refs q : ℕ) → bytes_at (set_refs heap p refs) q ≡ bytes_at heap q
bytes_at-set_refs [] p refs q = refl
bytes_at-set_refs (cell ∷ heap) zero refs zero = refl
bytes_at-set_refs (cell ∷ heap) zero refs (suc q) = refl
bytes_at-set_refs (cell ∷ heap) (suc p) refs zero = refl
bytes_at-set_refs (cell ∷ heap) (suc p) refs (suc q) = bytes_at-set_refs heap p refs q

number_cases : (n : ℕ) → (n ≡ 0) ⊎ ((k : ℕ) × (n ≡ suc k))
number_cases zero = inl refl
number_cases (suc k) = inr (k, refl)

release-SameBytes : (value : Option ℕ) (heap : Heap) → OfSome (SameBytes heap) (release value heap)
unfolding value_unref
release-SameBytes none heap = (refl, λ p. refl)
release-SameBytes (some p) heap = elim (number_cases (refs_at heap p)) [
  | inl e ↦ rw (value_unref, e) tt
  | inr (refs, e) ↦ rw (value_unref, e) (length-set_refs heap p refs, bytes_at-set_refs heap p refs)
]

-- A slot whose attribute is the one found for its type, and no other attribute's.
abbrev Sets : ℕ → List Attribute → Slot → Type 0
Sets attr_type attrs slot =
    (written : Written)
    → (find_attribute (fill slot written) attr_type
        ≡ some (record { attr_type = slot.attr_type; value = written.0; len = written.1 }))
      × ((other : ℕ)
          → other ≢ attr_type
          → find_attribute (fill slot written) other ≡ find_attribute attrs other)

found_first :
    (attr : Attribute) (attrs : List Attribute) (t : ℕ)
    → (attr.attr_type == t) ≡ true
    → find_attribute (attr ∷ attrs) t ≡ some attr
unfolding find_attribute
found_first attr attrs t e = rw e refl

found_later :
    (attr : Attribute) (attrs : List Attribute) (t : ℕ)
    → attr.attr_type ≢ t
    → find_attribute (attr ∷ attrs) t ≡ find_attribute attrs t
unfolding find_attribute
found_later attr attrs t h = rw (ne→==_false (attr.attr_type) t h) refl

found_behind :
    (attr : Attribute) (attrs : List Attribute) (t : ℕ)
    → (attr.attr_type == t) ≡ false
    → find_attribute (attr ∷ attrs) t ≡ find_attribute attrs t
unfolding find_attribute
found_behind attr attrs t e = rw e refl

on_first :
    (attr_type : ℕ) (attr : Attribute) (attrs : List Attribute)
    → (attr.attr_type == attr_type) ≡ true
    → Sets attr_type
        (attr ∷ attrs)
        (record { before = []; attr_type = attr.attr_type; after = attrs })
on_first attr_type attr attrs same written =
    let differs : (other : ℕ) → other ≢ attr_type → attr.attr_type ≢ other =
      λ other ne e. ne (sym e ∙ (==_iff (attr.attr_type) attr_type).0 same) in
    (
      found_first _ attrs attr_type same,
      λ other ne.
          found_later _ attrs other (differs other ne)
          ∙ sym (found_later attr attrs other (differs other ne)),
    )

builder_clear_or_push-Sets :
    (attr_type : ℕ) (attrs : List Attribute) (heap : Heap)
    → OfSome
        (λ found. Sets attr_type attrs (found.1) × SameBytes heap (found.0))
        (builder_clear_or_push attr_type attrs heap)
unfolding builder_clear_or_push builder_push find_attribute builder_clear
builder_clear_or_push-Sets attr_type [] heap = (
  λ written. (
    found_first _ [] attr_type (==_refl attr_type),
    λ other differs. found_later _ [] other (λ e. differs (sym e)),
  ),
  (refl, λ p. refl),
)
builder_clear_or_push-Sets attr_type (attr ∷ attrs) heap =
    elim (Bool-cases (attr.attr_type == attr_type)) [
      | inl same ↦ rw same (
          OfSome-map (SameBytes heap) _ _ (release (attr.value) heap)
            (λ heap' bytes. (on_first attr_type attr attrs same, bytes))
            (release-SameBytes (attr.value) heap))
      | inr other ↦ rw other (
          OfSome-map _ _ _ (builder_clear_or_push attr_type attrs heap)
            (λ found h. (
              λ written. (
                found_behind attr _ attr_type other ∙ (h.0 written).0,
                λ u differs.
                    ap (λ rest. if attr.attr_type == u then some attr else rest)
                      ((h.0 written).1 u differs),
              ),
              h.1,
            ))
            (builder_clear_or_push-Sets attr_type attrs heap))
    ]

pub bytes_at_new :
    (heap : Heap) (cell : Cell) → bytes_at (heap ++ cell ∷ []) (length heap) ≡ (cell.block).bytes
bytes_at_new [] cell = refl
bytes_at_new (c ∷ heap) cell = bytes_at_new heap cell

pub bytes_at_old :
    (heap : Heap) (cell : Cell) (p : ℕ)
    → p < length heap
    → bytes_at (heap ++ cell ∷ []) p ≡ bytes_at heap p
bytes_at_old [] cell p h = absurd (omega arith)
bytes_at_old (c ∷ heap) cell zero h = refl
bytes_at_old (c ∷ heap) cell (suc p) h = bytes_at_old heap cell p (omega arith)

in_heap : (heap : Heap) (p : ℕ) → 0 < refs_at heap p → p < length heap
in_heap [] p h = absurd (omega arith)
in_heap (c ∷ heap) zero h = omega arith
in_heap (c ∷ heap) (suc p) h = omega (arith, in_heap heap p h)

le_value-ulong_bytes : (k v : ℕ) → v < 256 ^ k → le_value (ulong_bytes k v) ≡ v
le_value-ulong_bytes zero v h = omega arith
le_value-ulong_bytes (suc k) v h =
    let size : 256 ^ suc k ≡ 256 ^ k * 256 = pow-suc 256 k in
    omega (arith, h, size, le_value-ulong_bytes k (v / 256) (omega (arith, h, size)))

read_value_same :
    (heap heap' : Heap) (invalid : Bool) (value : Option ℕ) (len : ℕ)
    → ((p : ℕ) → 0 < holds p value → bytes_at heap' p ≡ bytes_at heap p)
    → read_value value_to_ulong heap' invalid value len
      ≡ read_value value_to_ulong heap invalid value len
read_value_same heap heap' true value len h = refl
read_value_same heap heap' false none len h = refl
read_value_same heap heap' false (some p) len h =
    ap (λ bytes. value_to_ulong bytes len) (h p (omega (arith, holds_self p)))

-- Reading from a heap in which the values of a builder have the same bytes.
read_same :
    (heap heap' : Heap) (attrs : List Attribute) (u : ℕ)
    → ((p : ℕ) → 0 < count p attrs → bytes_at heap' p ≡ bytes_at heap p)
    → read_attribute value_to_ulong heap' (find_attribute attrs u)
      ≡ read_attribute value_to_ulong heap (find_attribute attrs u)
unfolding find_attribute
read_same heap heap' [] u h = refl
read_same heap heap' (attr ∷ attrs) u h = elim (Bool-cases (attr.attr_type == u)) [
  | inl same ↦ rw same (
      read_value_same heap heap' (is_invalid attr) (attr.value) (attr.len)
        (λ p used. h p (omega (arith, used))))
  | inr other ↦ rw other (read_same heap heap' attrs u (λ p used. h p (omega (arith, used))))
]

abbrev with_ulong : ℕ → Builder → Heap × Slot → Builder
with_ulong v builder found =
    with_stored (copied_value (builder.secure) (on_stack (ulong_bytes 8 v)) 8) builder found

stored_found :
    (attr_type v : ℕ) (builder : Builder) (found : Heap × Slot)
    → Sets attr_type (builder.attrs) (found.1)
    → v < 2 ^ 64
    → find_ulong attr_type (with_ulong v builder found) ≡ some v
unfolding find_ulong copied_value value_new is_invalid value_to_ulong
stored_found attr_type v builder found sets small =
    ap (read_attribute value_to_ulong _) ((sets (some (length (found.0)), 8)).0)
    ∙ ap (λ bytes. some (le_value (take 8 bytes))) (bytes_at_new (found.0) _)
    ∙ ap some (le_value-ulong_bytes 8 v small)

stored_other :
    (attr_type v : ℕ) (builder : Builder) (held : ℕ → ℕ) (found : Heap × Slot)
    → Sets attr_type (builder.attrs) (found.1)
    → SameBytes (builder.heap) (found.0)
    → IsCounted builder held
    → (other : ℕ) → other ≢ attr_type
    → find_ulong other (with_ulong v builder found) ≡ find_ulong other builder
unfolding find_ulong copied_value value_new
stored_other attr_type v builder held found sets same h other differs =
    ap (read_attribute value_to_ulong _) ((sets (some (length (found.0)), 8)).1 other differs)
    ∙ read_same (builder.heap) _ (builder.attrs) other (λ p used.
      let inside : p < length (found.0) =
        omega (arith, same.0, in_heap (builder.heap) p (omega (arith, h p, used))) in
      bytes_at_old (found.0) _ p inside ∙ same.1 p)

-- A number of 64 bits that is set for a type is found for that type, and what is found for every other
-- type stays as it was, in a builder whose counters are right.
pub find_ulong-set_ulong :
    (attr_type v : ℕ) (builder : Builder) (held : ℕ → ℕ)
    → IsCounted builder held
    → v < 2 ^ 64
    → (result : Builder) × (set_ulong attr_type v builder ≡ some result)
      × (find_ulong attr_type result ≡ some v)
      × ((other : ℕ) → other ≢ attr_type → find_ulong other result ≡ find_ulong other builder)
unfolding set_ulong set_data set_with
find_ulong-set_ulong attr_type v builder held h small =
    let (found, e, cost) =
      builder_clear_or_push-IsFound attr_type (builder.attrs) (builder.heap)
        (λ p. omega (arith, h p)) in
    let (sets, same) =
      subst
        (OfSome
          (λ found. Sets attr_type (builder.attrs) (found.1) × SameBytes (builder.heap) (found.0)))
        e (builder_clear_or_push-Sets attr_type (builder.attrs) (builder.heap)) in
    (
      with_ulong v builder found,
      rw e refl,
      stored_found attr_type v builder found sets small,
      stored_other attr_type v builder held found sets same h,
    )
