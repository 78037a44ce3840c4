-- ===== src/Gck/Attributes/Builder.antt =====
-- GckBuilder (gck/gck-attributes.c): the array of attributes, which stands for no array while it has none,
-- next to the heap of their values. A function takes the two and returns them; `none` is a run that
-- releases freed memory. A slot is the attribute that the source has a pointer to, with what stands
-- before and behind it.
use mathlib.Core.Option
use gcr.Shared.{
  ℕ, zero, suc, ◌/◌, ◌%◌, Bool, true, false, ◌||◌, Option, none, some, List, [], ◌∷◌, ◌++◌, length,
  ◌==◌, if◌then◌else◌,
}
use gcr.Gck.Attributes.{
  Block, Heap, value_new, value_ref, value_unref, Attribute, max_ulong, find_attribute,
}

pub record Builder : Type 0 where
  pub heap : Heap
  pub attrs : List Attribute
  pub secure : Bool

pub record Slot : Type 0 where
  pub before : List Attribute
  pub attr_type : ℕ
  pub after : List Attribute

-- What is written to a slot.
abbrev pub Written : Type 0
Written = Option ℕ × ℕ

abbrev pub fill : Slot → Written → List Attribute
fill slot (value, len) =
    slot.before ++ record { attr_type = slot.attr_type; value = value; len = len } ∷ slot.after

unfoldable pub builder_push : ℕ → List Attribute → Slot
builder_push attr_type attrs = record { before = attrs; attr_type = attr_type; after = [] }

abbrev pub release : Option ℕ → Heap → Option Heap
release none heap = some heap
release (some p) heap = value_unref p heap

unfoldable pub builder_clear : Attribute → Heap → Option Heap
builder_clear attr heap = release (attr.value) heap

-- The first attribute of the type, cleared, or else a new one.
abbrev pub behind : Attribute → Option (Heap × Slot) → Option (Heap × Slot)
behind attr = Option.map (λ found. (found.0, record (found.1) { before = attr ∷ (found.1).before }))

unfoldable pub builder_clear_or_push : ℕ → List Attribute → Heap → Option (Heap × Slot)
builder_clear_or_push attr_type [] heap = some (heap, builder_push attr_type [])
builder_clear_or_push attr_type (attr ∷ attrs) heap =
    let later = behind attr (builder_clear_or_push attr_type attrs heap) in
    let here =
      Option.map (λ heap. (heap, record { before = []; attr_type = attr.attr_type; after = attrs }))
        (builder_clear attr heap) in
    if attr.attr_type == attr_type then here else later

-- The value that the adders and setters store, copied from a block of the caller that has at least
-- `length` bytes where it is given.
abbrev pub copy_of : Bool → Option Block → Bool → ℕ → Heap → Written × Heap
copy_of true source secure length heap = ((none, max_ulong), heap)
copy_of false none secure length heap = ((none, 0), heap)
copy_of false (some block) secure length heap =
    let new = value_new block length (secure || block.secure) heap in
    ((some (new.0), length), new.1)

unfoldable pub copied_value : Bool → Option Block → ℕ → Heap → Written × Heap
copied_value secure source length heap = copy_of (length == max_ulong) source secure length heap

-- The value of another attribute, which is shared.
abbrev pub share_of : Bool → Option ℕ → ℕ → Heap → Written × Heap
share_of true value length heap = ((none, max_ulong), heap)
share_of false none length heap = ((none, 0), heap)
share_of false (some p) length heap = let again = value_ref p heap in ((again.0, length), again.1)

unfoldable pub shared : Attribute → Heap → Written × Heap
shared attr heap = share_of (attr.len == max_ulong) (attr.value) (attr.len) heap

-- The slot is found first, and then the value.
abbrev pub with_stored : (Heap → Written × Heap) → Builder → Heap × Slot → Builder
with_stored make builder (heap, slot) =
    let made = make heap in record builder { heap = made.1; attrs = fill slot (made.0) }

unfoldable pub push_with : ℕ → (Heap → Written × Heap) → Builder → Builder
push_with attr_type make builder =
    with_stored make builder (builder.heap, builder_push attr_type (builder.attrs))

unfoldable pub set_with : ℕ → (Heap → Written × Heap) → Builder → Option Builder
set_with attr_type make builder =
    Option.map (with_stored make builder)
      (builder_clear_or_push attr_type (builder.attrs) (builder.heap))

unfoldable pub builder_copy : Attribute → Builder → Builder
builder_copy attr builder = push_with (attr.attr_type) (shared attr) builder

unfoldable pub builder_copy_set : Attribute → Builder → Option Builder
builder_copy_set attr builder = set_with (attr.attr_type) (shared attr) builder

unfoldable pub add_data : ℕ → Option Block → ℕ → Builder → Builder
add_data attr_type source length builder =
    push_with attr_type (copied_value (builder.secure) source length) builder

unfoldable pub set_data : ℕ → Option Block → ℕ → Builder → Option Builder
set_data attr_type source length builder =
    set_with attr_type (copied_value (builder.secure) source length) builder

-- The block itself becomes the value, moved up behind its counter; it stays in secure memory if it was.
unfoldable pub take_data : ℕ → Option Block → ℕ → Builder → Builder
take_data attr_type source length builder =
    push_with attr_type (copied_value false source length) builder

-- The text up to its terminator, or none.
abbrev pub text_len : Option Block → ℕ
text_len none = 0
text_len (some text) = length (text.bytes)

unfoldable pub builder_add_string : ℕ → Option Block → Builder → Builder
builder_add_string attr_type text builder = add_data attr_type text (text_len text) builder

unfoldable pub builder_set_string : ℕ → Option Block → Builder → Option Builder
builder_set_string attr_type text builder = set_data attr_type text (text_len text) builder

abbrev pub unset : ℕ → Heap → Written × Heap
unset len heap = ((none, len), heap)

unfoldable pub add_empty_attr : ℕ → Builder → Builder
add_empty_attr attr_type builder = push_with attr_type (unset 0) builder

unfoldable pub set_empty : ℕ → Builder → Option Builder
set_empty attr_type builder = set_with attr_type (unset 0) builder

unfoldable pub add_invalid : ℕ → Builder → Builder
add_invalid attr_type builder = push_with attr_type (unset max_ulong) builder

unfoldable pub set_invalid : ℕ → Builder → Option Builder
set_invalid attr_type builder = set_with attr_type (unset max_ulong) builder

-- The bytes of a CK_ULONG, the least significant first, and of a CK_BBOOL.
abbrev pub ulong_bytes : ℕ → ℕ → List ℕ
ulong_bytes zero v = []
ulong_bytes (suc k) v = v % 256 ∷ ulong_bytes k (v / 256)

abbrev pub on_stack : List ℕ → Option Block
on_stack bytes = some (record { bytes = bytes; secure = false })

unfoldable pub add_ulong : ℕ → ℕ → Builder → Builder
add_ulong attr_type v builder = add_data attr_type (on_stack (ulong_bytes 8 v)) 8 builder

unfoldable pub set_ulong : ℕ → ℕ → Builder → Option Builder
set_ulong attr_type v builder = set_data attr_type (on_stack (ulong_bytes 8 v)) 8 builder

unfoldable pub add_boolean : ℕ → Bool → Builder → Builder
add_boolean attr_type v builder =
    add_data attr_type (on_stack ((if v then 1 else 0) ∷ [])) 1 builder

unfoldable pub set_boolean : ℕ → Bool → Builder → Option Builder
set_boolean attr_type v builder =
    set_data attr_type (on_stack ((if v then 1 else 0) ∷ [])) 1 builder

unfoldable pub add_all : List Attribute → Builder → Builder
add_all [] builder = builder
add_all (attr ∷ attrs) builder = add_all attrs (builder_copy attr builder)

unfoldable pub set_all : List Attribute → Builder → Option Builder
set_all [] builder = some builder
set_all (attr ∷ attrs) builder = Option.bind (builder_copy_set attr builder) (set_all attrs)

-- Once for each time that the attribute's type is among the types.
unfoldable pub copy_for_each : Attribute → List ℕ → Builder → Builder
copy_for_each attr [] builder = builder
copy_for_each attr (t ∷ only_types) builder =
    copy_for_each attr only_types
      (if attr.attr_type == t then builder_copy attr builder else builder)

unfoldable pub add_onlyv : List Attribute → List ℕ → Builder → Builder
add_onlyv [] only_types builder = builder
add_onlyv (attr ∷ attrs) only_types builder =
    add_onlyv attrs only_types (copy_for_each attr only_types builder)

abbrev pub is_among : ℕ → List ℕ → Bool
is_among t [] = false
is_among t (u ∷ us) = t == u || is_among t us

unfoldable pub add_exceptv : List Attribute → List ℕ → Builder → Builder
add_exceptv [] except_types builder = builder
add_exceptv (attr ∷ attrs) except_types builder =
    add_exceptv attrs except_types
      (if is_among (attr.attr_type) except_types then builder else builder_copy attr builder)

-- All the attributes, released one after the other.
unfoldable pub clear_each : List Attribute → Heap → Option Heap
clear_each [] heap = some heap
clear_each (attr ∷ attrs) heap = Option.bind (builder_clear attr heap) (clear_each attrs)

unfoldable pub clear : Builder → Option Builder
clear builder =
    Option.map (λ heap. record builder { heap = heap; attrs = [] })
      (clear_each (builder.attrs) (builder.heap))

-- The attributes are the caller's from then on, and the builder has none.
unfoldable pub end_builder : Builder → List Attribute × Builder
end_builder builder = (builder.attrs, record builder { attrs = [] })

unfoldable pub find : ℕ → Builder → Option Attribute
find attr_type builder = find_attribute (builder.attrs) attr_type
