-- ===== src/Gck/Attributes/Sharing.antt =====
-- That the values of gck/gck-attributes.c live as long as the attributes that have them.
use mathlib.Core.Option
use mathlib.Core.Option.{some-injective}
use gcr.Shared.{
  ℕ, ◌+◌, ◌≤◌, ◌≡◌, refl, inl, inr, Bool, true, false, Option, none, some, List, [], ◌∷◌, ◌==◌,
  if◌then◌else◌, arith, All, Bool-cases, ==_refl,
}
use gcr.Gck.Attributes.{Block, Heap, refs_at, Attribute}
use gcr.Gck.Attributes.Builder.{
  Builder, Slot, Written, fill, builder_push, builder_clear_or_push, copied_value, shared,
  with_stored, push_with, set_with, builder_copy, builder_copy_set, add_data, set_data, set_all,
  clear_each, clear, copy_for_each, add_onlyv, add_exceptv, is_among,
}
use gcr.Gck.Attributes.Counts.{
  holds, count, count-append, IsLive, IsMade, copied_value-IsMade, shared-IsMade,
  builder_clear-IsReleased,
}

-- The counter of each block is the number of the builder's attributes that have it as their value, and
-- of those elsewhere, `held`.
abbrev pub IsCounted : Builder → (ℕ → ℕ) → Type 0
IsCounted builder held = (p : ℕ) → refs_at (builder.heap) p ≡ count p (builder.attrs) + held p

-- An attribute that is among those elsewhere.
abbrev pub IsHeld : (ℕ → ℕ) → Attribute → Type 0
IsHeld held attr = (p : ℕ) → holds p (attr.value) ≤ held p

pub holds_self : (p : ℕ) → holds p (some p) ≡ 1
holds_self p = rw (==_refl p) refl

pub live :
    (heap : Heap) (value : Option ℕ)
    → ((p : ℕ) → holds p value ≤ refs_at heap p)
    → IsLive heap value
live heap none h = tt
live heap (some p) h = omega (arith, h p, holds_self p)

count-fill :
    (p : ℕ) (slot : Slot) (written : Written)
    → count p (fill slot written)
      ≡ count p (slot.before) + holds p (written.0) + count p (slot.after)
count-fill p slot written = omega (
  arith,
  count-append p (slot.before)
      (record { attr_type = slot.attr_type; value = written.0; len = written.1 } ∷ slot.after),
)

-- What the slot has cost.
abbrev pub IsFound : List Attribute → Heap → Heap × Slot → Type 0
IsFound attrs heap found =
    (p : ℕ)
    → refs_at (found.0) p + count p attrs
      ≡ refs_at heap p + (count p ((found.1).before) + count p ((found.1).after))

pub builder_clear_or_push-IsFound :
    (attr_type : ℕ) (attrs : List Attribute) (heap : Heap)
    → ((p : ℕ) → count p attrs ≤ refs_at heap p)
    → (found : Heap × Slot) × (builder_clear_or_push attr_type attrs heap ≡ some found)
      × IsFound attrs heap found
unfolding builder_clear_or_push builder_push
builder_clear_or_push-IsFound attr_type [] heap h =
    ((heap, builder_push attr_type []), refl, λ p. omega arith)
builder_clear_or_push-IsFound attr_type (attr ∷ attrs) heap h =
    elim (Bool-cases (attr.attr_type == attr_type)) [
      | inl same ↦
          let (heap', e, released) =
            builder_clear-IsReleased attr heap (live heap (attr.value) (λ p. omega (arith, h p))) in
          (
            (heap', record { before = []; attr_type = attr.attr_type; after = attrs }),
            rw (same, e) refl,
            λ p. omega (arith, released p),
          )
      | inr other ↦
          let (found, e, cost) =
            builder_clear_or_push-IsFound attr_type attrs heap (λ p. omega (arith, h p)) in
          (
            (found.0, record (found.1) { before = attr ∷ (found.1).before }),
            rw (other, e) refl,
            λ p. omega (arith, cost p),
          )
    ]

-- What may be stored while no block that is held elsewhere goes away.
abbrev Makes : (ℕ → ℕ) → (Heap → Written × Heap) → Type 0
Makes held make = (heap : Heap) → ((p : ℕ) → held p ≤ refs_at heap p) → IsMade heap (make heap)

abbrev pub Gives : Option Builder → (ℕ → ℕ) → Type 0
Gives result held = (builder : Builder) × (result ≡ some builder) × IsCounted builder held

set_with-IsCounted :
    (attr_type : ℕ) (make : Heap → Written × Heap) (builder : Builder) (held : ℕ → ℕ)
    → Makes held make
    → IsCounted builder held
    → Gives (set_with attr_type make builder) held
unfolding set_with
set_with-IsCounted attr_type make builder held makes h =
    let (found, e, cost) =
      builder_clear_or_push-IsFound attr_type (builder.attrs) (builder.heap)
        (λ p. omega (arith, h p)) in
    let made = makes (found.0) (λ p. omega (arith, h p, cost p)) in
    (
      with_stored make builder found,
      rw e refl,
      λ p. omega (arith, h p, cost p, made p, count-fill p (found.1) ((make (found.0)).0)),
    )

push_with-IsCounted :
    (attr_type : ℕ) (make : Heap → Written × Heap) (builder : Builder) (held : ℕ → ℕ)
    → Makes held make
    → IsCounted builder held
    → IsCounted (push_with attr_type make builder) held
unfolding push_with builder_push
push_with-IsCounted attr_type make builder held makes h p =
    let made = makes (builder.heap) (λ p. omega (arith, h p)) p in
    omega (
      arith,
      h p,
      made,
      count-fill p (builder_push attr_type (builder.attrs)) ((make (builder.heap)).0),
    )

copied_value-Makes :
    (held : ℕ → ℕ) (secure : Bool) (source : Option Block) (n : ℕ)
    → Makes held (copied_value secure source n)
copied_value-Makes held secure source n heap h = copied_value-IsMade secure source n heap

shared-Makes : (held : ℕ → ℕ) (attr : Attribute) → IsHeld held attr → Makes held (shared attr)
shared-Makes held attr mine heap h =
    shared-IsMade attr heap (live heap (attr.value) (λ p. omega (arith, mine p, h p)))

-- Setting an attribute to a copy of some bytes releases no freed memory, and the counters are right again
-- afterwards, so that a value that the attribute had and that nothing else has is freed.
pub set_data-IsCounted :
    (attr_type : ℕ) (source : Option Block) (n : ℕ) (builder : Builder) (held : ℕ → ℕ)
    → IsCounted builder held
    → Gives (set_data attr_type source n builder) held
unfolding set_data
set_data-IsCounted attr_type source n builder held =
    set_with-IsCounted attr_type (copied_value (builder.secure) source n) builder held
      (copied_value-Makes held (builder.secure) source n)

-- Setting attributes to the values of others, which are shared, releases no freed memory and keeps the
-- counters right, where those others are held elsewhere: where one of them was in the builder only, its
-- value could be freed before it is shared.
pub set_all-IsCounted :
    (attrs : List Attribute) (builder : Builder) (held : ℕ → ℕ)
    → All (IsHeld held) attrs
    → IsCounted builder held
    → Gives (set_all attrs builder) held
unfolding set_all builder_copy_set Option.bind
set_all-IsCounted [] builder held mine h = (builder, refl, h)
set_all-IsCounted (attr ∷ attrs) builder held mine h =
    let (next, e, counted) =
      set_with-IsCounted (attr.attr_type) (shared attr) builder held (shared-Makes held attr mine.0)
        h in
    rw e (set_all-IsCounted attrs next held mine.1 counted)

add_data-IsCounted :
    (attr_type : ℕ) (source : Option Block) (n : ℕ) (builder : Builder) (held : ℕ → ℕ)
    → IsCounted builder held
    → IsCounted (add_data attr_type source n builder) held
unfolding add_data
add_data-IsCounted attr_type source n builder held =
    push_with-IsCounted attr_type (copied_value (builder.secure) source n) builder held
      (copied_value-Makes held (builder.secure) source n)

builder_copy-IsCounted :
    (attr : Attribute) (builder : Builder) (held : ℕ → ℕ)
    → IsHeld held attr
    → IsCounted builder held
    → IsCounted (builder_copy attr builder) held
unfolding builder_copy
builder_copy-IsCounted attr builder held mine =
    push_with-IsCounted (attr.attr_type) (shared attr) builder held (shared-Makes held attr mine)

either :
    (b : Bool) (x y : Builder) (held : ℕ → ℕ)
    → IsCounted x held
    → IsCounted y held
    → IsCounted (if b then x else y) held
either true x y held hx hy = hx
either false x y held hx hy = hy

-- Adding those of some attributes that are not of certain types keeps the counters right.
pub add_exceptv-IsCounted :
    (attrs : List Attribute) (except_types : List ℕ) (builder : Builder) (held : ℕ → ℕ)
    → All (IsHeld held) attrs
    → IsCounted builder held
    → IsCounted (add_exceptv attrs except_types builder) held
unfolding add_exceptv
add_exceptv-IsCounted [] except_types builder held mine h = h
add_exceptv-IsCounted (attr ∷ attrs) except_types builder held mine h =
    add_exceptv-IsCounted attrs except_types _ held mine.1 (
      either (is_among (attr.attr_type) except_types) builder (builder_copy attr builder) held h
        (builder_copy-IsCounted attr builder held mine.0 h))

copy_for_each-IsCounted :
    (attr : Attribute) (only_types : List ℕ) (builder : Builder) (held : ℕ → ℕ)
    → IsHeld held attr
    → IsCounted builder held
    → IsCounted (copy_for_each attr only_types builder) held
unfolding copy_for_each
copy_for_each-IsCounted attr [] builder held mine h = h
copy_for_each-IsCounted attr (t ∷ only_types) builder held mine h =
    copy_for_each-IsCounted attr only_types _ held mine (
      either (attr.attr_type == t) (builder_copy attr builder) builder held
        (builder_copy-IsCounted attr builder held mine h) h)

-- Adding those of some attributes that are of certain types keeps the counters right, also where a type
-- is named twice, so that the attribute is added twice.
pub add_onlyv-IsCounted :
    (attrs : List Attribute) (only_types : List ℕ) (builder : Builder) (held : ℕ → ℕ)
    → All (IsHeld held) attrs
    → IsCounted builder held
    → IsCounted (add_onlyv attrs only_types builder) held
unfolding add_onlyv
add_onlyv-IsCounted [] only_types builder held mine h = h
add_onlyv-IsCounted (attr ∷ attrs) only_types builder held mine h =
    add_onlyv-IsCounted attrs only_types (copy_for_each attr only_types builder) held mine.1
      (copy_for_each-IsCounted attr only_types builder held mine.0 h)

clear_each-released :
    (attrs : List Attribute) (heap : Heap) (held : ℕ → ℕ)
    → ((p : ℕ) → refs_at heap p ≡ count p attrs + held p)
    → (heap' : Heap) × (clear_each attrs heap ≡ some heap') × ((p : ℕ) → refs_at heap' p ≡ held p)
unfolding clear_each Option.bind
clear_each-released [] heap held h = (heap, refl, λ p. omega (arith, h p))
clear_each-released (attr ∷ attrs) heap held h =
    let (heap', e, released) =
      builder_clear-IsReleased attr heap (live heap (attr.value) (λ p. omega (arith, h p))) in
    rw e (clear_each-released attrs heap' held (λ p. omega (arith, h p, released p)))

-- Clearing a builder frees each of its values that nothing else has, once, and no other.
pub clear-IsCounted :
    (builder : Builder) (held : ℕ → ℕ)
    → IsCounted builder held
    → (cleared : Builder) × (clear builder ≡ some cleared)
      × (cleared.attrs ≡ [])
      × ((p : ℕ) → refs_at (cleared.heap) p ≡ held p)
unfolding clear
clear-IsCounted builder held h =
    let (heap', e, left) = clear_each-released (builder.attrs) (builder.heap) held h in
    (record builder { heap = heap'; attrs = [] }, rw e refl, refl, left)
